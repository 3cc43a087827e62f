-- ===== src/Queue/Step/Dispositions.antt =====
-- The steps of `step_aggregate_v1` that process nothing, and those that defer.
use mathlib.Core.List.Permᴰ.{Permᴰ}
use mathlib.Core.List.Permᴰ as PermD
use determa_state_python.Prelude.{
  ◌+◌, ◌≡◌, ◌≢◌, ◌⊎◌, inl, inr, refl, sym, ap, ◌∙◌, Bool, true, false, List, [], ◌∷◌, ◌++◌, map,
  some, some-eq, String, eq_refl,
}
use determa_state_python.Prelude.Outcome.{ok}
use determa_state_python.Prelude.Distinct.{Distinct}
use determa_state_python.Codes.DispositionCode.{DispositionCode}
use determa_state_python.Queue.Document.{Entry, Runtime, Document}
use determa_state_python.Queue.Mailboxes.{entries_of}
use determa_state_python.Queue.Mailboxes.Valid.{IsQueued}
use determa_state_python.Queue.Seal.{seal}
use determa_state_python.Queue.Seal.Keeps.{seal-IsQueued, seal-Perm}
use determa_state_python.Queue.Admit.{find_runtime}
use determa_state_python.Queue.Lifecycle.{Mailboxes, mailbox_maps, held}
use determa_state_python.Queue.Deferrals.{moved, put_mailboxes, replace_mailboxes}
use determa_state_python.Queue.Step.{
  Engine, StepResult, step_deferred, step, is_rejected, is_deferred,
}
use determa_state_python.Queue.Step.Boxes.{id_of, held_popped, held_mailboxes}
use determa_state_python.Queue.Step.Encodes.{IsHead, find_runtime-holds}
use determa_state_python.Queue.Step.Branches.{
  ResultOf, step_result-ResultOf, Branch, refused, dispatched, overflowed, deferred, popped,
  step-Branch,
}
use determa_state_python.Queue.Step.Defers.{
  box_after, after_deferral, after_deferral-IsQueued, replaced-Perm,
}
use determa_state_python.Queue.Step.Lands.{
  Holds, replace-ids, replaced_target, replaced_other, seal-Holds,
}
use determa_state_python.Prelude.Permuted.{Elem}
use determa_state_python.Queue.Step.Outcomes.{dispatched-Counted, overflow-Counted}

abbrev rest_of : List Entry → List Entry
rest_of [] = []
rest_of (e ∷ es) = es

abbrev idle : DispositionCode → Bool
idle DispositionCode.rejected = true
idle DispositionCode.not_runnable = true
idle _ = false

module _ {B S : Type 0} (engine : Engine B S) (evidence : Bool) (old : S) (before : Document B)
    (k : String) (r : StepResult B) where
  -- The aggregate that a deferral seals
  abbrev deferral : Entry → Mailboxes → Document B
  deferral x c = record before {
    next_queue_sequence = before.next_queue_sequence + 1;
    runtimes =
        replace_mailboxes k
          (record c { deferred = c.deferred ++ moved before.next_queue_sequence x ∷ [] })
          before.runtimes;
  }

  -- The state and the reports of a step that processed nothing.
  pub record Untouched : Type 0 where
    pub same_state : r.state ≡ before
    pub no_emissions : r.emissions ≡ []
    pub no_lifecycle : r.lifecycle_dispositions ≡ []

  deferral_result :
      (x : Entry) (c : Mailboxes)
      → step_deferred engine evidence before k x c ≡ ok r
      → ResultOf (seal engine.rules (deferral x c)) DispositionCode.deferred [] [] r
  unfolding step_deferred
  deferral_result x c h = step_result-ResultOf _ _ _ _ _ _ r h

  -- If the engine's dispatch never answers "not_runnable", a step whose disposition is "rejected" or
  -- "not_runnable" leaves the aggregate as it was, and reports no emission and no lifecycle disposition.
  pub step_idle :
      ((x : Entry) → (engine.dispatch old x).disposition ≢ DispositionCode.not_runnable)
      → step engine evidence old before k ≡ ok r
      → (r.disposition ≡ DispositionCode.rejected) ⊎ (r.disposition ≡ DispositionCode.not_runnable)
      → Untouched
  step_idle never h why = by (step-Branch engine evidence old before k r h)
    where
      is_idle : idle r.disposition ≡ true
      is_idle = elim why [ inl p ↦ ap idle p | inr p ↦ ap idle p ]

      none_idle :
          (d : DispositionCode)
          → is_rejected d ≡ false
          → d ≢ DispositionCode.not_runnable
          → idle d ≡ true
          → ⊥
      none_idle DispositionCode.rejected n m i = absurd (cc)
      none_idle DispositionCode.not_runnable n m i = m refl
      none_idle DispositionCode.deferred n m i = absurd (cc)
      none_idle DispositionCode.faulted n m i = absurd (cc)
      none_idle DispositionCode.handled n m i = absurd (cc)
      none_idle DispositionCode.unhandled n m i = absurd (cc)

      is_deferred-only : (d : DispositionCode) → d ≡ DispositionCode.deferred → idle d ≡ true → ⊥
      is_deferred-only d p i =
          none_idle DispositionCode.deferred refl (λ q. absurd (cc)) (ap idle (sym p) ∙ i)

      is_faulted-only : (d : DispositionCode) → d ≡ DispositionCode.faulted → idle d ≡ true → ⊥
      is_faulted-only d p i =
          none_idle DispositionCode.faulted refl (λ q. absurd (cc)) (ap idle (sym p) ∙ i)

      by : Branch engine evidence old before k r → Untouched
      by (refused d out q) = record {
        same_state = out.same_state;
        no_emissions = out.same_emissions;
        no_lifecycle = out.same_lifecycle;
      }
      by (dispatched x head n m g) =
          let c = dispatched-Counted engine evidence old before k _ _ r g in
          absurd (
            none_idle (engine.dispatch old x).disposition n (never x)
              (ap idle (sym c.same_disposition) ∙ is_idle))
      by (overflowed x head d g) = absurd (
          is_faulted-only r.disposition
            (overflow-Counted engine evidence old before _ _ r g).same_disposition is_idle)
      by (deferred x c head p d f g) =
          absurd (is_deferred-only r.disposition (deferral_result x c g).same_disposition is_idle)

  -- One entry was the head of the selected mailbox; with a new queue number it is the last deferred entry
  -- of the same runtime, and everything else is as it was.
  pub record Deferral : Type 0 where
    pub sound : IsQueued engine.rules.digest r.state
    pub entry : Entry
    pub head : IsHead k before.runtimes entry
    pub others : List Entry
    pub entries_before : Permᴰ (entries_of before.runtimes) (entry ∷ others)
    pub entries_after :
        Permᴰ (entries_of r.state.runtimes) (moved before.next_queue_sequence entry ∷ others)
    pub target_after :
        Holds
          (record head.target {
            ready_mailbox = head.rest;
            deferred_mailbox =
                head.target.deferred_mailbox ++ moved before.next_queue_sequence entry ∷ [];
          })
          r.state.runtimes
    pub others_after :
        (s : Runtime B) → Elem s before.runtimes → s.runtime_id ≢ k → Holds s r.state.runtimes
    pub no_emissions : r.emissions ≡ []
    pub no_lifecycle : r.lifecycle_dispositions ≡ []

  -- The mailboxes of the selected runtime without the head.
  popped_box :
      (t : Runtime B) (x : Entry) (rest : List Entry) (c : Mailboxes)
      → Distinct (map id_of before.runtimes)
      → find_runtime k before.runtimes ≡ some t
      → t.ready_mailbox ≡ x ∷ rest
      → held k (popped engine evidence old before k) ≡ some c
      → c ≡ record { ready = rest; deferred = t.deferred_mailbox }
  popped_box t x rest c d found first h =
      let (listed, is_k) = find_runtime-holds k before.runtimes t found in
      let there =
        ap (λ i. held i (mailbox_maps before.runtimes)) (sym is_k)
        ∙ held_mailboxes t before.runtimes d listed in
      some-eq (
        sym h
        ∙ rw (held_popped k k (mailbox_maps before.runtimes), eq_refl k, there)
            (ap (λ es. some (record { ready = rest_of es; deferred = t.deferred_mailbox })) first))

  -- If the mailboxes are sound and the identifiers of the runtimes differ, a step whose disposition is
  -- "deferred" keeps the mailboxes sound: the head of the selected ready mailbox, with the next queue number
  -- and one more deferral, is at the end of the deferred mailbox of the same runtime, whose ready mailbox is
  -- the rest; every other runtime has the mailboxes it had, the entries that did not move are those of
  -- before, and nothing is emitted or reported.
  pub step_defers :
      IsQueued engine.rules.digest before
      → Distinct (map id_of before.runtimes)
      → step engine evidence old before k ≡ ok r
      → r.disposition ≡ DispositionCode.deferred
      → Deferral
  step_defers q d h why = by (step-Branch engine evidence old before k r h)
    where
      not_deferred :
          (e : DispositionCode)
          → (is_rejected e ≡ true) ⊎ (e ≡ DispositionCode.not_runnable)
          → is_deferred e ≡ false
      not_deferred e (inr p) = ap is_deferred p
      not_deferred DispositionCode.rejected (inl p) = refl
      not_deferred DispositionCode.deferred (inl p) = absurd (cc)
      not_deferred DispositionCode.faulted (inl p) = absurd (cc)
      not_deferred DispositionCode.handled (inl p) = absurd (cc)
      not_deferred DispositionCode.not_runnable (inl p) = absurd (cc)
      not_deferred DispositionCode.unhandled (inl p) = absurd (cc)

      clash : true ≡ false → ⊥
      clash p = absurd (cc)

      made :
          (x : Entry) (c : Mailboxes) (head : IsHead k before.runtimes x)
          → c ≡ record { ready = head.rest; deferred = head.target.deferred_mailbox }
          → ResultOf (seal engine.rules (deferral x c)) DispositionCode.deferred [] [] r
          → Deferral
      made x c head same out =
          let queue = before.next_queue_sequence in
          let (others, old_entries, new_entries) =
            replaced-Perm k x queue head.target head.rest before.runtimes d head.found head.first in
          let sealed = out.same_state ∙ ap (λ b. seal engine.rules (deferral x b)) same in
          let last =
            after_deferral engine.rules.digest before k x head.target head.rest d head.found
              head.first in
          let box = box_after x queue head.rest head.target.deferred_mailbox in
          let kept =
            after_deferral-IsQueued engine.rules.digest before k x head.target head.rest d
              head.found head.first q in
          let differ : Distinct (map id_of (replace_mailboxes k box before.runtimes)) =
            rw (replace-ids k box before.runtimes) d in
          let (listed, is_k) = find_runtime-holds k before.runtimes head.target head.found in
          record {
            sound = rw sealed (seal-IsQueued engine.rules last kept);
            entry = x;
            head = head;
            others = others;
            entries_before = old_entries;
            entries_after = rw sealed (PermD.trans (seal-Perm engine.rules last) new_entries);
            target_after = rw sealed (
                seal-Holds engine.rules last (put_mailboxes box head.target) differ
                  kept.runtimes_fit
                  (replaced_target k box head.target before.runtimes is_k listed));
            others_after = λ s m n. rw sealed (
                seal-Holds engine.rules last s differ kept.runtimes_fit
                  (replaced_other k box s before.runtimes n m));
            no_emissions = out.same_emissions;
            no_lifecycle = out.same_lifecycle;
          }

      by : Branch engine evidence old before k r → Deferral
      by (refused e out p) =
          absurd (clash (sym (ap is_deferred (sym out.same_disposition ∙ why)) ∙ not_deferred e p))
      by (dispatched x head n m g) =
          let c = dispatched-Counted engine evidence old before k _ _ r g in
          absurd (clash (sym (ap is_deferred (sym c.same_disposition ∙ why)) ∙ m))
      by (overflowed x head p g) =
          let c = overflow-Counted engine evidence old before _ _ r g in
          absurd (clash (sym (ap is_deferred why) ∙ ap is_deferred c.same_disposition))
      by (deferred x c head p e f g) =
          made x c head (popped_box head.target x head.rest c d head.found head.first p)
            (deferral_result x c g)
