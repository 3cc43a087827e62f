-- ===== src/Queue/Step/Ends.antt =====
-- The loop over the ends of runtimes loses no entry: it keeps it in its mailbox, or reports it.
use mathlib.Core.List.{map-append}
use determa_state_python.Prelude.{
  ◌≡◌, ◌≢◌, refl, sym, ap, ◌∙◌, ◌⊎◌, inl, inr, Bool, true, false, List, [], ◌∷◌, ◌++◌, map, Option,
  none, some, String, ◌==◌, eq_iff, Bool-cases, Option-cases, All, some-eq,
}
use determa_state_python.Prelude.Outcome.{Outcome, ok, >>=-eq-ok, ok-eq}
use determa_state_python.Prelude.Permuted.{Elem, Elem-append_left, Elem-append_right}
use determa_state_python.Queue.Document.{Entry, Runtime}
use determa_state_python.Queue.Mailboxes.{entries_of, runtime_entries, entry_id}
use determa_state_python.Queue.Admit.{find_runtime}
use determa_state_python.Queue.Lifecycle.{
  Failure, Mailboxes, held, Disposal, Reason, lifecycle_disposition, clear_mailboxes, ending,
  end_one, end_mailboxes,
}
use determa_state_python.Queue.Step.Boxes.{id_of, box_entries, eq_differ}

abbrev pub disposed_id : Disposal → String
disposed_id d = d.event_id

-- The entries of one runtime, reported.
pub disposals-Elem :
    (k : String) (reason : Reason) (e : Entry) (es : List Entry)
    → Elem e es
    → Elem (entry_id e) (map disposed_id (map (lifecycle_disposition k reason) es))
disposals-Elem k reason e [] m = absurd m
disposals-Elem k reason e (x ∷ es) (inl p) = inl (ap entry_id p)
disposals-Elem k reason e (x ∷ es) (inr m) = inr (disposals-Elem k reason e es m)

module _ {B : Type 0} (j : String) (e : Entry) where
  -- Every runtime of identifier `j` holds `e`.
  abbrev pub HeldBy : List (Runtime B) → Type 0
  HeldBy = All (λ r. r.runtime_id ≡ j → Elem e (runtime_entries r))

  pub HeldBy-Elem :
      (rs : List (Runtime B)) → HeldBy rs → Elem j (map id_of rs) → Elem e (entries_of rs)
  HeldBy-Elem [] h m = absurd m
  HeldBy-Elem (r ∷ rs) h (inl p) =
      Elem-append_left e (runtime_entries r) (entries_of rs) (h.0 (sym p))
  HeldBy-Elem (r ∷ rs) h (inr m) =
      Elem-append_right e (runtime_entries r) (entries_of rs) (HeldBy-Elem rs h.1 m)

  clear-HeldBy :
      (k : String) (rs : List (Runtime B)) → k ≢ j → HeldBy rs → HeldBy (clear_mailboxes k rs)
  unfolding clear_mailboxes
  clear-HeldBy k [] n h = tt
  clear-HeldBy k (r ∷ rs) n h = elim (Bool-cases (r.runtime_id == k)) [
    | inl y ↦ rw y ((λ p. absurd (n (sym ((eq_iff r.runtime_id k).0 y) ∙ p))), h.1)
    | inr f ↦ rw f (h.0, clear-HeldBy k rs n h.1)
  ]

  clear-ids : (k : String) (rs : List (Runtime B)) → map id_of (clear_mailboxes k rs) ≡ map id_of rs
  unfolding clear_mailboxes
  clear-ids k [] = refl
  clear-ids k (r ∷ rs) = elim (Bool-cases (r.runtime_id == k)) [
    | inl y ↦ rw y refl
    | inr f ↦ rw f (ap (◌∷◌ r.runtime_id) (clear-ids k rs))
  ]

  pub find_runtime-Elem :
      (rs : List (Runtime B)) (r : Runtime B) → find_runtime j rs ≡ some r → Elem j (map id_of rs)
  unfolding find_runtime
  find_runtime-Elem [] r f = absurd (cc)
  find_runtime-Elem (s ∷ rs) r f = elim (Bool-cases (s.runtime_id == j)) [
    | inl y ↦ inl (sym ((eq_iff s.runtime_id j).0 y))
    | inr n ↦ inr (find_runtime-Elem rs r (rw n at f))
  ]

  -- Entries that do not end are those of a runtime that is there.
  ending-none :
      (root_completed : Bool) (rs : List (Runtime B))
      → ending root_completed (find_runtime j rs) ≡ none
      → Elem j (map id_of rs)
  ending-none root_completed rs h = elim (Option-cases (find_runtime j rs)) [
    | inl n ↦ absurd (never root_completed (rw n at h))
    | inr (r, f) ↦ find_runtime-Elem rs r f
  ]
    where
      absent : Option (Runtime B)
      absent = none

      never : (b : Bool) → ending b absent ≡ none → ⊥
      never true q = absurd (cc)
      never false q = absurd (cc)

  module _ (root_completed : Bool) (boxes : List (String × Mailboxes)) (b : Mailboxes)
      (found : held j boxes ≡ some b) (inside : Elem e (box_entries b)) where
    -- One pass reports the entry, or leaves it where it is.
    end_one-kept :
        (k : String) (rs : List (Runtime B)) (now : List (Runtime B) × List Disposal)
        → HeldBy rs
        → (o : Option Mailboxes) → held k boxes ≡ o
        → (m : Option Reason) → ending root_completed (find_runtime k rs) ≡ m
        → end_one root_completed boxes k o m rs ≡ ok now
        → Elem (entry_id e) (map disposed_id now.1)
          ⊎ (HeldBy now.0 × (map id_of now.0 ≡ map id_of rs) × (k ≡ j → Elem j (map id_of rs)))
    end_one-kept k rs now h none p m q r = absurd (cc)
    end_one-kept k rs now h (some c) p none q r = rw (← ok-eq r) (
        inr (
          h,
          refl,
          λ s.
              ending-none root_completed rs
                (ap (λ i. ending root_completed (find_runtime i rs)) (sym s) ∙ q),
        ))
    end_one-kept k rs now h (some c) p (some reason) q r = elim (Bool-cases (k == j)) [
      | inl y ↦ rw (← ok-eq r) (
          inl (
            disposals-Elem k reason e (box_entries c)
              (rw (some-eq (sym p ∙ ap (λ i. held i boxes) ((eq_iff k j).0 y) ∙ found)) inside)))
      | inr n ↦ rw (← ok-eq r) (
          inr (
            clear-HeldBy k rs (eq_differ k j n) h,
            clear-ids k rs,
            λ s. absurd (eq_differ k j n s),
          ))
    ]

    -- The loop, if it comes to the runtime.
    pub end_mailboxes-kept :
        (ks : List String) (rs : List (Runtime B)) (out : List (Runtime B) × List Disposal)
        → HeldBy rs
        → end_mailboxes root_completed boxes ks rs ≡ ok out
        → Elem (entry_id e) (map disposed_id out.1)
          ⊎ (HeldBy out.0 × (map id_of out.0 ≡ map id_of rs) × (Elem j ks → Elem j (map id_of rs)))
    unfolding end_mailboxes
    end_mailboxes-kept [] rs out h r = rw (← ok-eq r) (inr (h, refl, λ m. absurd m))
    end_mailboxes-kept (k ∷ ks) rs out h r =
        let (now, one, r1) = >>=-eq-ok _ _ r in
        let (later, rest, last) = >>=-eq-ok _ _ r1 in
        joined now later last (end_one-kept k rs now h (held k boxes) refl _ refl one)
          (λ held_now. end_mailboxes-kept ks now.0 later held_now rest)
      where
        joined :
            (now later : List (Runtime B) × List Disposal)
            → Path
                (Outcome Failure (List (Runtime B) × List Disposal))
                (ok (later.0, now.1 ++ later.1))
                (ok out)
            → Elem (entry_id e) (map disposed_id now.1)
              ⊎ (HeldBy now.0 × (map id_of now.0 ≡ map id_of rs) × (k ≡ j → Elem j (map id_of rs)))
            → (HeldBy now.0
                → Elem (entry_id e) (map disposed_id later.1)
                  ⊎ (HeldBy later.0
                      × (map id_of later.0 ≡ map id_of now.0)
                      × (Elem j ks → Elem j (map id_of now.0))))
            → Elem (entry_id e) (map disposed_id out.1)
              ⊎ (HeldBy out.0
                  × (map id_of out.0 ≡ map id_of rs)
                  × (Elem j (k ∷ ks) → Elem j (map id_of rs)))
        joined now later last (inl d) after =
            rw (← ok-eq last, map-append disposed_id now.1 later.1) (inl (Elem-append_left _ _ _ d))
        joined now later last (inr (a, b, c)) after = elim (after a) [
          | inl d ↦
              rw (← ok-eq last, map-append disposed_id now.1 later.1)
                (inl (Elem-append_right _ _ _ d))
          | inr (f, g, i) ↦
              rw (← ok-eq last)
                (inr (f, (g ∙ b), (λ m. elim m [ inl q ↦ c (sym q) | inr n ↦ rw (← b) (i n) ])))
        ]
