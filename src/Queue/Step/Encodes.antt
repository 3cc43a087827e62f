-- ===== src/Queue/Step/Encodes.antt =====
-- `_encode_after_dispatch` gives each entry back to the runtime that held it.
use mathlib.Core.List.Permᴰ as PermD
use mathlib.Core.Path.{subst}
use determa_state_python.Prelude.{
  ◌≡◌, refl, sym, ap, ◌∙◌, ◌⊎◌, inl, inr, Bool, List, [], ◌∷◌, map, some, String, ◌==◌, eq_iff,
  eq_refl, some-eq, Bool-cases,
}
use determa_state_python.Prelude.Outcome.{ok, err, >>=-eq-ok, ok-eq}
use determa_state_python.Prelude.Distinct.{Distinct}
use determa_state_python.Prelude.Permuted.{
  Elem, Elem-map, NotIn-Elem, Elem-append, Elem-Perm, All-Perm, map-Perm, sort-Perm,
}
use determa_state_python.Wire.Typed.{Result}
use determa_state_python.Queue.Emissions.{from_artifact}
use determa_state_python.Queue.Document.{Entry, Runtime, Document}
use determa_state_python.Queue.Mailboxes.{entries_of, runtime_entries}
use determa_state_python.Queue.Seal.{seal, seal_runtime, runtime_before, earlier}
use determa_state_python.Queue.Seal.Keeps.{append-Perm}
use determa_state_python.Queue.Admit.{find_runtime}
use determa_state_python.Queue.Lifecycle.{
  Mailboxes, mailboxes_of, mailbox_maps, held, with_popped, pop,
}
use determa_state_python.Queue.Step.{
  Engine, give_mailboxes, held_or_empty, with_mailboxes, encode_after_dispatch,
}
use determa_state_python.Queue.Step.Boxes.{
  id_of, box_entries, pop_entries, held_popped, held_mailboxes, differ_eq,
}
use determa_state_python.Queue.Step.Ends.{HeldBy}

module _ {B : Type 0} where
  -- The runtime that holds an entry.
  pub holder :
      (e : Entry) (rs : List (Runtime B))
      → Elem e (entries_of rs)
      → (r : Runtime B) × Elem r rs × Elem e (runtime_entries r)
  holder e [] m = absurd m
  holder e (r ∷ rs) m = elim (Elem-append e (runtime_entries r) (entries_of rs) m) [
    | inl h ↦ (r, inl refl, h)
    | inr n ↦ let (s, i, h) = holder e rs n in (s, inr i, h)
  ]

  pub find_runtime_self :
      (r : Runtime B) (rs : List (Runtime B))
      → Distinct (map id_of rs)
      → Elem r rs
      → find_runtime r.runtime_id rs ≡ some r
  unfolding find_runtime
  find_runtime_self r [] d m = absurd m
  find_runtime_self r (s ∷ rs) d (inl p) = rw (p, eq_refl s.runtime_id) refl
  find_runtime_self r (s ∷ rs) d (inr m) =
      rw
        (differ_eq s.runtime_id r.runtime_id
          (λ q. NotIn-Elem s.runtime_id (map id_of rs) d.0 (rw q (Elem-map id_of r rs m))))
        (find_runtime_self r rs d.1 m)

  -- What is found is in the list, under the identifier.
  pub find_runtime-holds :
      (k : String) (rs : List (Runtime B)) (t : Runtime B)
      → find_runtime k rs ≡ some t
      → Elem t rs × (t.runtime_id ≡ k)
  unfolding find_runtime
  find_runtime-holds k [] t f = absurd (cc)
  find_runtime-holds k (r ∷ rs) t f = elim (Bool-cases (r.runtime_id == k)) [
    | inl y ↦
        let same = some-eq (rw y at f) in
        (inl (sym same), ap id_of (sym same) ∙ (eq_iff r.runtime_id k).0 y)
    | inr n ↦ let (m, p) = find_runtime-holds k rs t (rw n at f) in (inr m, p)
  ]

  -- The head of the mailbox of the runtime found.
  pub record IsHead (k : String) (rs : List (Runtime B)) (e : Entry) : Type 0 where
    pub target : Runtime B
    pub rest : List Entry
    pub found : find_runtime k rs ≡ some target
    pub first : target.ready_mailbox ≡ e ∷ rest

  -- Behind the pop, an entry is the head that was popped, or in the mailboxes of its runtime.
  pub popped_entry :
      (k : String) (rs : List (Runtime B)) (r : Runtime B) (e : Entry)
      → Distinct (map id_of rs)
      → Elem r rs
      → Elem e (runtime_entries r)
      → IsHead k rs e
        ⊎ ((b : Mailboxes) × (held r.runtime_id (with_popped k (mailbox_maps rs)) ≡ some b)
            × Elem e (box_entries b))
  popped_entry k rs r e d m h = elim (Bool-cases (r.runtime_id == k)) [
    | inr n ↦ inr (
      mailboxes_of r,
      rw (held_popped k r.runtime_id (mailbox_maps rs), n) (held_mailboxes r rs d m),
      h,
    )
    | inl y ↦ elim (pop_entries (mailboxes_of r) e h) [
      | inr i ↦ inr (
        pop (mailboxes_of r),
        rw (held_popped k r.runtime_id (mailbox_maps rs), y, held_mailboxes r rs d m) refl,
        i,
      )
      | inl (x, xs, p, q) ↦ inl (record {
        target = r;
        rest = xs;
        found = rw (← (eq_iff r.runtime_id k).0 y) (find_runtime_self r rs d m);
        first = rw q p;
      })
    ]
  ]

from_artifact-eq-ok : {A : Type 0} (r : Result A) (a : A) → from_artifact r ≡ ok a → r ≡ ok a
from_artifact-eq-ok (ok b) a h = ap ok (ok-eq h)
from_artifact-eq-ok (err code) a h = absurd (cc)

module _ {B S : Type 0} (engine : Engine B S) (evidence : Bool)
    (boxes : List (String × Mailboxes)) where
  pub encode-from :
      (state : S) (before encoded : Document B)
      → encode_after_dispatch engine evidence state before boxes ≡ ok encoded
      → (after : Document B) × (engine.aggregate_envelope state ≡ ok after)
        × (encoded ≡ seal engine.rules (with_mailboxes engine evidence before boxes after))
  unfolding encode_after_dispatch
  encode-from state before encoded h =
      let (after, first, last) = >>=-eq-ok (from_artifact (engine.aggregate_envelope state)) _ h in
      (after, from_artifact-eq-ok _ after first, sym (ok-eq last))

  sealed_ids :
      (rs : List (Runtime B))
      → map id_of (map (seal_runtime engine.rules) (map (give_mailboxes engine evidence boxes) rs))
        ≡ map id_of rs
  unfolding seal_runtime
  sealed_ids [] = refl
  sealed_ids (r ∷ rs) = ap (◌∷◌ r.runtime_id) (sealed_ids rs)

  -- The runtimes are those that the engine wrote.
  pub encode-ids :
      (state : S) (before encoded : Document B)
      → encode_after_dispatch engine evidence state before boxes ≡ ok encoded
      → (after : Document B) × (engine.aggregate_envelope state ≡ ok after)
        × ((j : String) → Elem j (map id_of after.runtimes) → Elem j (map id_of encoded.runtimes))
  unfolding seal
  encode-ids state before encoded h =
      let (after, first, last) = encode-from state before encoded h in
      (
        after,
        first,
        λ j m. rw last (
            Elem-Perm j (map-Perm id_of (PermD.symm (sort-Perm runtime_before _)))
              (rw (sealed_ids after.runtimes) m)),
      )

module _ {B S : Type 0} (engine : Engine B S) (evidence : Bool) (boxes : List (String × Mailboxes))
    (j : String) (b : Mailboxes) (e : Entry) (found : held j boxes ≡ some b)
    (inside : Elem e (box_entries b)) where
  sealed_box :
      (r : Runtime B)
      → r.runtime_id ≡ j
      → Elem e
          (runtime_entries (seal_runtime engine.rules (give_mailboxes engine evidence boxes r)))
  unfolding seal_runtime
  sealed_box r p =
      Elem-Perm e
        (append-Perm _ _ _ _ (PermD.symm (sort-Perm earlier _)) (PermD.symm (sort-Perm earlier _)))
        (subst (λ o. Elem e (box_entries (held_or_empty engine evidence o)))
          (sym (ap (λ i. held i boxes) p ∙ found)) inside)

  sealed_boxes :
      (rs : List (Runtime B))
      → HeldBy j e (map (seal_runtime engine.rules) (map (give_mailboxes engine evidence boxes) rs))
  sealed_boxes [] = tt
  sealed_boxes (r ∷ rs) = ((λ p. sealed_box r (unfold seal_runtime in p)), sealed_boxes rs)

  pub encode-HeldBy :
      (state : S) (before encoded : Document B)
      → encode_after_dispatch engine evidence state before boxes ≡ ok encoded
      → HeldBy j e encoded.runtimes
  unfolding seal
  encode-HeldBy state before encoded h =
      let (after, _, last) = encode-from engine evidence boxes state before encoded h in
      rw last (All-Perm _ (PermD.symm (sort-Perm runtime_before _)) (sealed_boxes after.runtimes))
