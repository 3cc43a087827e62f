-- ===== src/Store/Memory/Swap.antt =====
-- Compare and swap between transactions of the memory store.
use determa_state_python.Prelude.{
  String, ◌≡◌, ◌≢◌, refl, sym, ap, ◌∙◌, ◌⊎◌, inl, inr, Bool, true, false, List, [], ◌∷◌, Option,
  some, eq_refl, some-eq,
}
use determa_state_python.Prelude.Outcome.{ok, err, ok-eq}
use determa_state_python.Wire.Value.{Json}
use determa_state_python.Store.Base.{
  Stored, StoreFailure, Metadata, Transaction, checkpoint_metadata, open_transaction, replace,
}
use determa_state_python.Store.Memory.{
  Records, stored, commit, replacing, ask, body, finished, transaction,
}
use determa_state_python.Store.Memory.Sound.{replace_lem, Swapped}

module _ {Bytes : Type 0} (strict_json : Bytes → Option Json) where
  -- One request to replace, in a transaction of its own.
  abbrev pub swap :
      Records Bytes → String → String → String → Bytes → Stored (List Bool) × Records Bytes
  swap records root revision digest c =
      transaction strict_json records root (replacing revision digest c ∷ [])

  commit-candidate :
      (records : Records Bytes) (root : String) (held : Option Bytes) (c : Bytes)
      → commit records (record { root_instance_id = root; current = held; candidate = some c }) root
        ≡ some c
  unfolding commit stored
  commit-candidate records root held c = rw (eq_refl root)

  -- A swap that succeeds: what it found, what it offers, and what the store then holds.
  pub record Done (records : Records Bytes) (root revision digest : String) (c : Bytes)
      : Type 0 where
    pub swapped :
        Swapped strict_json
          (open_transaction strict_json root (records root))
          revision
          digest
          c
          (record { root_instance_id = root; current = records root; candidate = some c })
    pub holds : (swap records root revision digest c).1 root ≡ some c

  pub swap-Done :
      (records : Records Bytes) (root revision digest : String) (c : Bytes)
      → (swap records root revision digest c).0 ≡ ok (true ∷ [])
      → Done records root revision digest c
  unfolding transaction finished body ask
  swap-Done records root revision digest c h =
      by_result (replace strict_json t revision digest c) refl
    where
      err_ok : (e : StoreFailure) → Path (Stored (List Bool)) (err e) (ok (true ∷ [])) → ⊥
      err_ok e q = absurd (cc)

      same_head : (b : Bool) → Path (Stored (List Bool)) (ok (b ∷ [])) (ok (true ∷ [])) → b ≡ true
      same_head b q = cc

      false_true : false ≢ true
      false_true q = absurd (cc)

      t : Transaction Bytes
      t = open_transaction strict_json root (records root)

      by_result :
          (o : Stored (Bool × Transaction Bytes))
          → replace strict_json t revision digest c ≡ o
          → Done records root revision digest c
      by_result (err e) p = absurd (err_ok e (rw p at h))
      by_result (ok (answer, next)) p =
          elim (replace_lem strict_json t revision digest c answer next p) [
            | inl (a, same) ↦ absurd (false_true (sym a ∙ same_head answer (rw p at h)))
            | inr (a, s) ↦ record {
              swapped = rw (← s.staged) s;
              holds = rw (p, s.staged) (commit-candidate records root (records root) c);
            }
          ]

  -- Of two swaps that expect the same revision and digest, only one succeeds, if the first changes them.
  pub swap_once :
      (records : Records Bytes) (root revision digest : String) (c d : Bytes) (m : Metadata)
      → (swap records root revision digest c).0 ≡ ok (true ∷ [])
      → checkpoint_metadata strict_json c ≡ ok m
      → (m.revision ≢ revision) ⊎ (m.digest ≢ digest)
      → (swap (swap records root revision digest c).1 root revision digest d).0 ≢ ok (true ∷ [])
  swap_once records root revision digest c d m first is_m changed second = differs changed
    where
      after : Records Bytes
      after = (swap records root revision digest c).1

      one : Done records root revision digest c
      one = swap-Done records root revision digest c first

      two :
          Swapped strict_json
            (open_transaction strict_json root (after root))
            revision
            digest
            d
            (record { root_instance_id = root; current = after root; candidate = some d })
      two = (swap-Done after root revision digest d second).swapped

      present_c : two.present ≡ c
      present_c = some-eq (sym two.is_present ∙ one.holds)

      same : two.held ≡ m
      same = ok-eq (sym two.held_metadata ∙ ap (checkpoint_metadata strict_json) present_c ∙ is_m)

      differs : (m.revision ≢ revision) ⊎ (m.digest ≢ digest) → ⊥
      differs (inl ne) = ne (sym (ap (λ x. x.revision) same) ∙ two.held_revision)
      differs (inr ne) = ne (sym (ap (λ x. x.digest) same) ∙ two.held_digest)
