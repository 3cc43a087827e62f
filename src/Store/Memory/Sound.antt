-- ===== src/Store/Memory/Sound.antt =====
-- The invariant of the memory store: a checkpoint stands under its own root.
use determa_state_python.Prelude.{
  String, ◌≡◌, refl, sym, ap, ◌∙◌, ◌⊎◌, inl, inr, Bool, true, false, ◌&&◌, List, [], ◌∷◌, Option,
  none, some, ◌==◌, eq_iff, Bool-cases, Option-cases, some-eq,
}
use determa_state_python.Prelude.Outcome.{ok, err, require, >>=-eq-ok, ok-eq}
use determa_state_python.Wire.Value.{Json}
use determa_state_python.Store.Base.{
  Stored, Metadata, Transaction, checkpoint_metadata, open_transaction, insert, insert_staged,
  replace, replace_current, replace_present, transaction_root_mismatch,
}
use determa_state_python.Store.Memory.{
  Records, stored, commit, Request, inserting, replacing, ask, body, finished, transaction,
}

pub require-ok : {E : Type 0} (b : Bool) (e : E) (u : Unit {0}) → require b e ≡ ok u → b ≡ true
require-ok true e u h = refl
require-ok false e u h = absurd (cc)

module _ {Bytes : Type 0} (strict_json : Bytes → Option Json) where
  -- A checkpoint of the root.
  abbrev pub IsOf : String → Bytes → Type 0
  IsOf root checkpoint =
      (m : Metadata) × (checkpoint_metadata strict_json checkpoint ≡ ok m) × (m.root ≡ root)

  abbrev pub IsSound : Records Bytes → Type 0
  IsSound records =
      (root : String) (checkpoint : Bytes) → records root ≡ some checkpoint → IsOf root checkpoint

  abbrev pub IsStaged : Transaction Bytes → Type 0
  IsStaged t =
      (checkpoint : Bytes) → t.candidate ≡ some checkpoint → IsOf t.root_instance_id checkpoint

  -- A request keeps the root, what the store held, and the candidate sound.
  abbrev pub Keeps : Transaction Bytes → Transaction Bytes → Type 0
  Keeps t next =
      (next.root_instance_id ≡ t.root_instance_id)
      × (next.current ≡ t.current)
      × (IsStaged t → IsStaged next)

  staged_now :
      (t : Transaction Bytes) (c : Bytes)
      → IsOf t.root_instance_id c
      → Keeps t (record t { candidate = some c })
  staged_now t c i = (refl, refl, λ s d p. rw (← some-eq p) i)

  insert-Keeps :
      (t : Transaction Bytes) (c : Bytes) (answer : Bool) (next : Transaction Bytes)
      → insert strict_json t c ≡ ok (answer, next)
      → Keeps t next
  unfolding insert
  insert-Keeps t c answer next h =
      let (m, p, h1) = >>=-eq-ok (checkpoint_metadata strict_json c) _ h in
      let (u, q, h2) =
        >>=-eq-ok (require (m.root == t.root_instance_id) transaction_root_mismatch) _ h1 in
      by_current (m, p, (eq_iff m.root t.root_instance_id).0 (require-ok _ _ u q)) t.current
        (ok-eq h2)
    where
      by_current :
          IsOf t.root_instance_id c
          → (o : Option Bytes) → insert_staged strict_json t c o ≡ (answer, next)
          → Keeps t next
      by_current i none e = rw (← ap (λ x. x.1) e) (staged_now t c i)
      by_current i (some present) e = rw (← ap (λ x. x.1) e) (refl, refl, λ s. s)

  -- What a successful swap says.
  pub record Swapped (t : Transaction Bytes) (revision digest : String) (c : Bytes)
      (next : Transaction Bytes) : Type 0 where
    pub present : Bytes
    pub held : Metadata
    pub offered : Metadata
    pub is_present : t.current ≡ some present
    pub held_metadata : checkpoint_metadata strict_json present ≡ ok held
    pub held_root : held.root ≡ t.root_instance_id
    pub held_revision : held.revision ≡ revision
    pub held_digest : held.digest ≡ digest
    pub offered_metadata : checkpoint_metadata strict_json c ≡ ok offered
    pub offered_root : offered.root ≡ t.root_instance_id
    pub staged : next ≡ record t { candidate = some c }

  pub replace_lem :
      (t : Transaction Bytes) (revision digest : String) (c : Bytes) (answer : Bool)
      (next : Transaction Bytes)
      → replace strict_json t revision digest c ≡ ok (answer, next)
      → ((answer ≡ false) × (next ≡ t)) ⊎ ((answer ≡ true) × Swapped t revision digest c next)
  unfolding replace replace_current replace_present
  replace_lem t revision digest c answer next h = by_current t.current refl h
    where
      both_true : (a b : Bool) → (a && b) ≡ true → (a ≡ true) × (b ≡ true)
      both_true true b p = (refl, p)
      both_true false b p = absurd (cc)

      by_current :
          (o : Option Bytes)
          → t.current ≡ o
          → replace_current strict_json t revision digest c o ≡ ok (answer, next)
          → ((answer ≡ false) × (next ≡ t)) ⊎ ((answer ≡ true) × Swapped t revision digest c next)
      by_current none e g = inl (ap (λ x. x.0) (sym (ok-eq g)), ap (λ x. x.1) (sym (ok-eq g)))
      by_current (some present) e g =
          let (held, p, g1) = >>=-eq-ok (checkpoint_metadata strict_json present) _ g in
          let (offered, q, g2) = >>=-eq-ok (checkpoint_metadata strict_json c) _ g1 in
          let (u, r, g3) =
            >>=-eq-ok
              (require ((held.root == t.root_instance_id) && (offered.root == t.root_instance_id))
                transaction_root_mismatch)
              _ g2 in
          let roots = both_true _ _ (require-ok _ _ u r) in
          elim (Bool-cases ((held.revision == revision) && (held.digest == digest))) [
            | inr n ↦
                let w = ok-eq (rw n at g3) in inl (ap (λ x. x.0) (sym w), ap (λ x. x.1) (sym w))
            | inl y ↦
                let w = ok-eq (rw y at g3) in
                let same = both_true _ _ y in
                inr (
                  ap (λ x. x.0) (sym w),
                  record {
                    present = present;
                    held = held;
                    offered = offered;
                    is_present = e;
                    held_metadata = p;
                    held_root = (eq_iff held.root t.root_instance_id).0 roots.0;
                    held_revision = (eq_iff held.revision revision).0 same.0;
                    held_digest = (eq_iff held.digest digest).0 same.1;
                    offered_metadata = q;
                    offered_root = (eq_iff offered.root t.root_instance_id).0 roots.1;
                    staged = ap (λ x. x.1) (sym w);
                  },
                )
          ]

  replace-Keeps :
      (t : Transaction Bytes) (revision digest : String) (c : Bytes) (answer : Bool)
      (next : Transaction Bytes)
      → replace strict_json t revision digest c ≡ ok (answer, next)
      → Keeps t next
  replace-Keeps t revision digest c answer next h =
      elim (replace_lem t revision digest c answer next h) [
        | inl (a, same) ↦ rw same (refl, refl, λ s. s)
        | inr (a, s) ↦ rw s.staged (staged_now t c (s.offered, s.offered_metadata, s.offered_root))
      ]

  ask-Keeps :
      (t : Transaction Bytes) (r : Request Bytes) (answer : Bool) (next : Transaction Bytes)
      → ask strict_json t r ≡ ok (answer, next)
      → Keeps t next
  unfolding ask
  ask-Keeps t (inserting c) answer next h = insert-Keeps t c answer next h
  ask-Keeps t (replacing revision digest c) answer next h =
      replace-Keeps t revision digest c answer next h

  body-Keeps :
      (t : Transaction Bytes) (rs : List (Request Bytes)) (answers : List Bool)
      (last : Transaction Bytes)
      → body strict_json t rs ≡ ok (answers, last)
      → Keeps t last
  unfolding body
  body-Keeps t [] answers last h = rw (← ap (λ x. x.1) (ok-eq h)) (refl, refl, λ s. s)
  body-Keeps t (r ∷ rs) answers last h =
      let ((answer, next), p, h1) = >>=-eq-ok (ask strict_json t r) _ h in
      let ((later, end), q, h2) = >>=-eq-ok (body strict_json next rs) _ h1 in
      let first = ask-Keeps t r answer next p in
      let rest = body-Keeps next rs later end q in
      rw (← ap (λ x. x.1) (ok-eq h2)) (rest.0 ∙ first.0, rest.1 ∙ first.1, λ s. rest.2 (first.2 s))

  -- A transaction, however it ends, leaves every checkpoint under its own root.
  pub transaction-IsSound :
      (records : Records Bytes) (root : String) (requests : List (Request Bytes))
      → IsSound records
      → IsSound (transaction strict_json records root requests).1
  unfolding transaction finished commit stored
  transaction-IsSound records root requests sound =
      by_result (body strict_json (open_transaction strict_json root (records root)) requests) refl
    where
      by_candidate :
          (t : Transaction Bytes)
          → t.root_instance_id ≡ root
          → IsStaged t
          → IsSound (commit records t)
      by_candidate t p s k c h = elim (Option-cases t.candidate) [
        | inl n ↦ sound k c (rw n at h)
        | inr (d, e) ↦ elim (Bool-cases (k == t.root_instance_id)) [
          | inl y ↦ rw (← some-eq (rw (e, y) at h), (eq_iff k t.root_instance_id).0 y) (s d e)
          | inr n ↦ sound k c (rw (e, n) at h)
        ]
      ]

      by_result :
          (o : Stored (List Bool × Transaction Bytes))
          → body strict_json (open_transaction strict_json root (records root)) requests ≡ o
          → IsSound (finished strict_json records o).1
      by_result (err e) p = sound
      by_result (ok (answers, t)) p =
          let (same, held, keeps) =
            body-Keeps (open_transaction strict_json root (records root)) requests answers t p in
          by_candidate t same (keeps (sound root))
