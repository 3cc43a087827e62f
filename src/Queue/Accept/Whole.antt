-- ===== src/Queue/Accept/Whole.antt =====
-- `admit_aggregate_v1` on every branch.
use mathlib.Core.List.Permᴰ.{Permᴰ}
use determa_state_python.Prelude.{
  ◌≡◌, refl, ◌⊎◌, inl, inr, not, List, [], ◌∷◌, map, Option, none, some, ◌==◌, eq_iff, any, All,
  All-imp, Bool-cases, Option-cases,
}
use determa_state_python.Prelude.Distinct.{Distinct, distinct, distinct_iff}
use determa_state_python.Prelude.Permuted.{Elem}
use determa_state_python.Queue.Document.{Entry, Delivery, Document, target_root}
use determa_state_python.Queue.Mailboxes.{entries_of}
use determa_state_python.Queue.Mailboxes.Valid.{IsQueued}
use determa_state_python.Queue.Seal.{Rules}
use determa_state_python.Queue.Seal.Keeps.{seal-Perm, seal-IsQueued}
use determa_state_python.Queue.Admit.{validate_new_deliveries}
use determa_state_python.Queue.Accept.{
  Location, located, Admission, rejected, replay, accepted, raised, Split, split, settle, admitted,
  settle_split, well_formed, admit_formed, admit,
}
use determa_state_python.Queue.Accept.Batch.{
  delivery_id, new_entries, Filled, accept_each-AcceptedAll,
}
use determa_state_python.Queue.Accept.Parted.{
  well_formed-map, check_each-IsAcceptable, validated, Replays, split-SplitOf, SplitOf,
}

module _ {B : Type 0} (rules : Rules B) (document : Document B) where
  -- The aggregate after the batch `ds`: some of its deliveries are new, and the others are replays. The
  -- entries are those of before with one new entry for each new delivery, in some order.
  pub record Extended (ds : List Delivery) (state : Document B) : Type 0 where
    pub sound : IsQueued rules.digest state
    pub new_deliveries : List Delivery
    pub from_batch : All (λ d. Elem d ds) new_deliveries
    pub covers : All (λ d. Elem d new_deliveries ⊎ ((e : Entry) × Replays rules document d e)) ds
    pub differ : Distinct (map delivery_id new_deliveries)
    pub joined : List Entry
    pub filled :
        Filled
          (new_entries rules.digest document.root_instance_id document.next_acceptance_sequence
            document.next_queue_sequence new_deliveries)
          (entries_of document.runtimes)
          joined
    pub permuted : Permᴰ (entries_of state.runtimes) joined

  -- What a call of `admit_aggregate_v1` promises of its result.
  abbrev pub IsAdmitted : List (Option Delivery) → Admission B → Type 0
  IsAdmitted batch (rejected code state) = state ≡ document
  IsAdmitted batch (replay l e state) =
      (state ≡ document)
      × (ds : List Delivery) × (batch ≡ map some ds)
      × All (λ d. (f : Entry) × Replays rules document d f) ds
      × ((d : Delivery) × Elem d ds × Replays rules document d e)
  IsAdmitted batch (accepted list state) =
      (ds : List Delivery) × (batch ≡ map some ds) × Extended ds state
  IsAdmitted batch raised = ⊥

  module _ (q : IsQueued rules.digest document) where
    admitted-IsAdmitted :
        (s : Split) (ds : List Delivery)
        → Distinct (map delivery_id ds)
        → SplitOf rules document ds s
        → IsAdmitted (map some ds) (admitted rules document s.new_deliveries)
    unfolding admitted
    admitted-IsAdmitted s ds u h =
        elim (Option-cases (validate_new_deliveries rules document s.new_deliveries)) [
          | inr (code, f) ↦ rw (f, admitted) refl
          | inl n ↦
              let checked =
                check_each-IsAcceptable rules document s.new_deliveries
                  (validated rules document s.new_deliveries n) h.fresh in
              let (list, last, done) =
                accept_each-AcceptedAll rules document s.new_deliveries q (h.keeps_distinct u)
                  checked in
              rw (n, admitted, done.done)
                (
                  ds,
                  refl,
                  record {
                    sound = seal-IsQueued rules last done.keeps;
                    new_deliveries = s.new_deliveries;
                    from_batch = h.from_batch;
                    covers = h.covers;
                    differ = h.keeps_distinct u;
                    joined = entries_of last.runtimes;
                    filled = done.filled;
                    permuted = seal-Perm rules last;
                  },
                )
        ]

    settle_split-IsAdmitted :
        (s : Split) (ds : List Delivery)
        → Distinct (map delivery_id ds)
        → SplitOf rules document ds s
        → (ps : List (Location × Entry)) (ns : List Delivery) → ps ≡ s.replayed
        → ns ≡ s.new_deliveries
        → IsAdmitted (map some ds) (settle_split rules document ps ns)
    unfolding settle_split
    settle_split-IsAdmitted s ds u h ((l, e) ∷ []) [] p n = (
      refl,
      ds,
      refl,
      All-imp _ _ (λ d c. elim c [ inl m ↦ absurd (rw (← n) at m) | inr r ↦ r ]) ds h.covers,
      (rw (← p) at h.old).0,
    )
    settle_split-IsAdmitted s ds u h [] ns p n = rw n (admitted-IsAdmitted s ds u h)
    settle_split-IsAdmitted s ds u h ((l, e) ∷ []) (m ∷ ns) p n =
        rw n (admitted-IsAdmitted s ds u h)
    settle_split-IsAdmitted s ds u h (a ∷ b ∷ ps) ns p n = rw n (admitted-IsAdmitted s ds u h)

    settle-IsAdmitted :
        (ds : List Delivery)
        → Distinct (map delivery_id ds)
        → (o : Option Split)
        → split rules document.root_instance_id (located document.runtimes) ds ≡ o
        → IsAdmitted (map some ds) (settle rules document o)
    unfolding settle
    settle-IsAdmitted ds u none p = refl
    settle-IsAdmitted ds u (some s) p =
        settle_split-IsAdmitted s ds u (split-SplitOf rules document ds s p) s.replayed
          s.new_deliveries refl refl

    admit_formed-IsAdmitted :
        (batch : List (Option Delivery)) (o : Option (List Delivery))
        → well_formed rules batch ≡ o
        → IsAdmitted batch (admit_formed rules document o)
    unfolding admit_formed
    admit_formed-IsAdmitted batch none p = refl
    admit_formed-IsAdmitted batch (some ds) p =
        elim (Bool-cases (
          any (λ (d : Delivery). not (target_root d.envelope.target == document.root_instance_id))
            ds)) [
              | inl y ↦ rw (y, admit_formed) refl
              | inr n ↦
                  elim (Bool-cases
                    (distinct ◌==◌ (map (λ (d : Delivery). d.envelope.event_id) ds))) [
                      | inr d ↦ rw (n, admit_formed, d) refl
                      | inl d ↦
                          rw (n, admit_formed, d, well_formed-map rules batch ds p)
                            (settle-IsAdmitted ds
                              ((distinct_iff ◌==◌ eq_iff (map delivery_id ds)).0 d) _ refl)
                    ]
            ]

    -- If the mailboxes of an aggregate are sound, `admit_aggregate_v1` does one of three things with a
    -- batch. It returns a rejection with the aggregate unchanged; or a replay, with the aggregate
    -- unchanged, and then no delivery is malformed, each has the event identifier and the digest of an
    -- entry that was queued, and the entry returned is so for one of them; or it accepts, and then no
    -- delivery of the batch is malformed, each is either among the new deliveries or has the event
    -- identifier and the digest of an entry that was queued, the mailboxes are sound afterwards, and their entries are those of before with one new
    -- entry for each new delivery, which carry consecutive numbers. It raises no `KeyError` and no
    -- `AssertionError`.
    pub admit-IsAdmitted :
        (batch : List (Option Delivery)) → IsAdmitted batch (admit rules document batch)
    unfolding admit
    admit-IsAdmitted [] = refl
    admit-IsAdmitted (d ∷ batch) =
        admit_formed-IsAdmitted (d ∷ batch) (well_formed rules (d ∷ batch)) refl
