-- ===== src/Queue/Step/Branches.antt =====
-- The branches of `step_aggregate_v1`, as its tests select them.

use determa_state_python.Prelude.{
  ◌≡◌, refl, sym, ap, ◌⊎◌, inl, inr, Bool, true, false, not, List, [], ◌∷◌, Option, none, some,
  String, Bool-cases, if◌then◌else◌,
}
use determa_state_python.Prelude.Outcome.{ok, err, >>=-eq-ok, ok-eq, or_raise}
use determa_state_python.Codes.DispositionCode.{DispositionCode}
use determa_state_python.Codes.DispatchRejectionCode.{DispatchRejectionCode}
use determa_state_python.Queue.Document.{Status, Entry, Runtime, Document}
use determa_state_python.Queue.Admit.{find_runtime, is_running, is_component, is_native}
use determa_state_python.Queue.Accept.{root_status}
use determa_state_python.Queue.Lifecycle.{
  Attempt, Failure, Disposal, Mailboxes, mailbox_maps, held, with_popped,
}
use determa_state_python.Queue.Emissions.{Projected, invalid_state}
use determa_state_python.Queue.Step.{
  Engine, Fault, StepResult, step_result, is_rejected, is_deferred, is_full, step_overflow,
  step_deferred, step_dispatched, step_selected, step_mailbox, refuse, step_runtime, step,
}
use determa_state_python.Queue.Step.Encodes.{IsHead}

module _ {B : Type 0} where
  -- What `_step_result` makes of its arguments.
  pub record ResultOf (state : Document B) (disposition : DispositionCode)
      (emissions : List Projected) (lifecycle : List Disposal) (r : StepResult B) : Type 0 where
    pub same_state : r.state ≡ state
    pub same_disposition : r.disposition ≡ disposition
    pub same_emissions : r.emissions ≡ emissions
    pub same_lifecycle : r.lifecycle_dispositions ≡ lifecycle

  pub step_result-ResultOf :
      (state : Document B) (disposition : DispositionCode) (emissions : List Projected)
      (lifecycle : List Disposal) (fault : Option Fault) (rejection : Option DispatchRejectionCode)
      (r : StepResult B)
      → step_result state disposition emissions lifecycle fault rejection ≡ ok r
      → ResultOf state disposition emissions lifecycle r
  unfolding step_result
  step_result-ResultOf state disposition emissions lifecycle fault rejection r h =
      let (status, _, last) = >>=-eq-ok (or_raise (root_status state) Failure.missing) _ h in
      record {
        same_state = ap (λ (x : StepResult B). x.state) (sym (ok-eq last));
        same_disposition = ap (λ (x : StepResult B). x.disposition) (sym (ok-eq last));
        same_emissions = ap (λ (x : StepResult B). x.emissions) (sym (ok-eq last));
        same_lifecycle = ap (λ (x : StepResult B). x.lifecycle_dispositions) (sym (ok-eq last));
      }

module _ {B S : Type 0} (engine : Engine B S) (evidence : Bool) (old : S) (before : Document B)
    (k : String) where
  abbrev pub popped : List (String × Mailboxes)
  popped = with_popped k (mailbox_maps before.runtimes)

  -- What a step that returned did.
  pub data Branch (r : StepResult B) : Type 0 where
    refused :
        (disposition : DispositionCode)
        → ResultOf before disposition [] [] r
        → (is_rejected disposition ≡ true) ⊎ (disposition ≡ DispositionCode.not_runnable)
        → Branch r
    dispatched :
        (x : Entry)
        → IsHead k before.runtimes x
        → is_rejected (engine.dispatch old x).disposition ≡ false
        → is_deferred (engine.dispatch old x).disposition ≡ false
        → step_dispatched engine evidence old before popped k (engine.dispatch old x) ≡ ok r
        → Branch r
    overflowed :
        (x : Entry)
        → IsHead k before.runtimes x
        → is_deferred (engine.dispatch old x).disposition ≡ true
        → step_overflow engine evidence before popped (engine.overflow old k x) ≡ ok r
        → Branch r
    deferred :
        (x : Entry) (c : Mailboxes)
        → IsHead k before.runtimes x
        → held k popped ≡ some c
        → is_deferred (engine.dispatch old x).disposition ≡ true
        → is_full (engine.runtime_capacity old k) c.deferred ≡ false
        → step_deferred engine evidence before k x c ≡ ok r
        → Branch r

  module _ (r : StepResult B) where
    selected-Branch :
        (x : Entry) (o : Option Mailboxes)
        → IsHead k before.runtimes x
        → held k popped ≡ o
        → step_selected engine evidence old before k x o ≡ ok r
        → Branch r
    unfolding step_selected
    selected-Branch x none head p h = absurd (cc)
    selected-Branch x (some c) head p h =
        elim (Bool-cases (is_rejected (engine.dispatch old x).disposition)) [
          | inl y ↦
              refused _ (step_result-ResultOf _ _ _ _ _ _ r (rw (step_selected, y) at h)) (inl y)
          | inr n ↦ elim (Bool-cases (is_deferred (engine.dispatch old x).disposition)) [
            | inr m ↦ dispatched x head n m (rw (step_selected, n, m) at h)
            | inl d ↦ elim (Bool-cases (is_full (engine.runtime_capacity old k) c.deferred)) [
              | inl f ↦ overflowed x head d (rw (step_selected, n, d, f) at h)
              | inr g ↦ deferred x c head p d g (rw (step_selected, n, d, g) at h)
            ]
          ]
        ]

    mailbox-Branch :
        (t : Runtime B) (es : List Entry)
        → find_runtime k before.runtimes ≡ some t
        → es ≡ t.ready_mailbox
        → step_mailbox engine evidence old before k es ≡ ok r
        → Branch r
    unfolding step_mailbox
    mailbox-Branch t [] found q h = refused _ (step_result-ResultOf _ _ _ _ _ _ r h) (inr refl)
    mailbox-Branch t (x ∷ es) found q h = elim (Bool-cases (is_native x.envelope)) [
      | inl y ↦
          selected-Branch x (held k popped)
            (record { target = t; rest = es; found = found; first = sym q }) refl
            (rw (step_mailbox, y) at h)
      | inr n ↦ absurd (err_ok (rw (step_mailbox, n) at h))
    ]
      where
        err_ok : Path (Attempt (StepResult B)) (err invalid_state) (ok r) → ⊥
        err_ok q = absurd (cc)

    checked-Branch :
        (status : Status) (t : Runtime B)
        → find_runtime k before.runtimes ≡ some t
        → (if not (is_running status)
            then refuse engine evidence before DispatchRejectionCode.invalid_instance_target
            else if not (is_running t.status)
            then refuse engine evidence before (
                if is_component t.relation
                then DispatchRejectionCode.inactive_component_target
                else DispatchRejectionCode.invalid_instance_target)
            else step_mailbox engine evidence old before k t.ready_mailbox)
          ≡ ok r
        → Branch r
    checked-Branch status t found h = elim (Bool-cases (is_running status)) [
      | inr n ↦ refused _ (step_result-ResultOf _ _ _ _ _ _ r (rw n at h)) (inl refl)
      | inl y ↦ elim (Bool-cases (is_running t.status)) [
        | inr m ↦ refused _ (step_result-ResultOf _ _ _ _ _ _ r (rw (y, m) at h)) (inl refl)
        | inl z ↦ mailbox-Branch t t.ready_mailbox found refl (rw (y, z) at h)
      ]
    ]

    runtime-Branch :
        (o : Option (Runtime B))
        → find_runtime k before.runtimes ≡ o
        → step_runtime engine evidence old before k o ≡ ok r
        → Branch r
    unfolding step_runtime
    runtime-Branch none p h = refused _ (step_result-ResultOf _ _ _ _ _ _ r h) (inl refl)
    runtime-Branch (some t) p h =
        let (status, _, h1) = >>=-eq-ok (or_raise (root_status before) Failure.missing) _ h in
        checked-Branch status t p h1

    pub step-Branch : step engine evidence old before k ≡ ok r → Branch r
    unfolding step
    step-Branch h = runtime-Branch (find_runtime k before.runtimes) refl h
