-- ===== src/Queue/Step/Boxes.antt =====
-- The mailboxes of `_mailbox_maps`, with the head of one of them popped.
use mathlib.Core.Option
use determa_state_python.Prelude.{
  ◌≡◌, ◌≢◌, refl, sym, ◌∙◌, ◌⊎◌, inl, inr, true, false, List, [], ◌∷◌, ◌++◌, map, some, String,
  ◌==◌, eq_iff, eq_refl, Bool-cases, if◌then◌else◌,
}
use determa_state_python.Prelude.Distinct.{Distinct}
use determa_state_python.Prelude.Permuted.{Elem, Elem-map, NotIn-Elem}
use determa_state_python.Queue.Document.{Entry, Runtime}
use determa_state_python.Queue.Lifecycle.{
  Mailboxes, mailboxes_of, mailbox_maps, held, pop, with_popped,
}

abbrev pub id_of : {B : Type 0} → Runtime B → String
id_of r = r.runtime_id

abbrev pub box_entries : Mailboxes → List Entry
box_entries b = b.ready ++ b.deferred

pub differ_eq : (j k : String) → j ≢ k → (j == k) ≡ false
differ_eq j k n = elim (Bool-cases (j == k)) [ inl y ↦ absurd (n ((eq_iff j k).0 y)) | inr f ↦ f ]

pub eq_differ : (j k : String) → (j == k) ≡ false → j ≢ k
eq_differ j k n q = true_false (sym ((eq_iff j k).1 q) ∙ n)
  where
    true_false : true ≡ false → ⊥
    true_false x = absurd (cc)

-- Popping drops one entry, the head.
pub pop_entries :
    (b : Mailboxes) (e : Entry)
    → Elem e (box_entries b)
    → ((x : Entry) × (xs : List Entry) × (b.ready ≡ x ∷ xs) × (e ≡ x))
      ⊎ Elem e (box_entries (pop b))
pop_entries b e m = go b.ready refl m
  where
    go :
        (es : List Entry)
        → es ≡ b.ready
        → Elem e (es ++ b.deferred)
        → ((x : Entry) × (xs : List Entry) × (b.ready ≡ x ∷ xs) × (e ≡ x))
          ⊎ Elem e (box_entries (pop b))
    go [] p n = inr (rw (← p) n)
    go (x ∷ xs) p (inl q) = inl (x, xs, sym p, q)
    go (x ∷ xs) p (inr n) = inr (rw (← p) n)

pub held_popped :
    (k j : String) (boxes : List (String × Mailboxes))
    → held j (with_popped k boxes)
      ≡ (if j == k then Option.map pop (held j boxes) else held j boxes)
unfolding with_popped held
held_popped k j [] = elim (Bool-cases (j == k)) [ inl y ↦ rw y refl | inr n ↦ rw n refl ]
held_popped k j ((i, b) ∷ boxes) = elim (Bool-cases (i == k)) [
  | inl y ↦ elim (Bool-cases (i == j)) [
    | inl z ↦ rw (y, z, ← (eq_iff i j).0 z, y) refl
    | inr n ↦
        rw
          (
            y,
            n,
            differ_eq j k (λ q. true_false (sym ((eq_iff i j).1 ((eq_iff i k).0 y ∙ sym q)) ∙ n)),
          )
          refl
  ]
  | inr m ↦ elim (Bool-cases (i == j)) [
    | inl z ↦ rw (m, z, ← (eq_iff i j).0 z, m) refl
    | inr n ↦ rw (m, n) (held_popped k j boxes)
  ]
]
  where
    true_false : true ≡ false → ⊥
    true_false q = absurd (cc)

module _ {B : Type 0} where
  pub held_mailboxes :
      (r : Runtime B) (rs : List (Runtime B))
      → Distinct (map id_of rs)
      → Elem r rs
      → held r.runtime_id (mailbox_maps rs) ≡ some (mailboxes_of r)
  unfolding held
  held_mailboxes r [] d m = absurd m
  held_mailboxes r (s ∷ rs) d (inl p) = rw (p, eq_refl s.runtime_id) refl
  held_mailboxes r (s ∷ rs) d (inr m) =
      rw
        (differ_eq s.runtime_id r.runtime_id
          (λ q. NotIn-Elem s.runtime_id (map id_of rs) d.0 (rw q (Elem-map id_of r rs m))))
        (held_mailboxes r rs d.1 m)
