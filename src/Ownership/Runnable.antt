-- ===== src/Ownership/Runnable.antt =====
-- A runtime that may take a step may also receive events.
use determa_state_python.Prelude.{
  ℕ, zero, suc, String, ◌≡◌, ◌≢◌, refl, Bool, true, false, List, [], ◌∷◌, Option, none, some,
  length, Bool-cases, Option-cases, inl, inr,
}
use determa_state_python.Queue.Document.{Status}
use determa_state_python.Ownership.{
  EngineRuntime, runtime_at, runnable_from, blocked_from, target_eligibility, by_status, is_running,
  is_faulted, ownership_cycle,
}
use determa_state_python.Ownership.Ends.{loops_end}

running-eq : (s : Status) → is_running s ≡ true → s ≡ Status.running
running-eq Status.running h = refl
running-eq Status.completed h = absurd (cc)
running-eq Status.faulted h = absurd (cc)

running_healthy : (s : Status) → is_running s ≡ true → is_faulted s ≡ false
running_healthy Status.running h = refl
running_healthy Status.completed h = absurd (cc)
running_healthy Status.faulted h = absurd (cc)

faulted_idle : (s : Status) → is_faulted s ≡ true → is_running s ≡ false
faulted_idle Status.faulted h = refl
faulted_idle Status.running h = absurd (cc)
faulted_idle Status.completed h = absurd (cc)

module _ (runtimes : List EngineRuntime) where
  abbrev onwards : ℕ → Option String → Option Bool
  onwards n none = some true
  onwards n (some o) = runnable_from runtimes n (runtime_at o runtimes)

  -- What a step of the loop says.
  runnable_step :
      (n : ℕ) (r : EngineRuntime)
      → runnable_from runtimes (suc n) (some r) ≡ some true
      → (is_running r.status ≡ true) × (onwards n r.owner_runtime_id ≡ some true)
  unfolding runnable_from
  runnable_step n r h = elim (Bool-cases (is_running r.status)) [
    | inl y ↦ (y, by_owner_of r.owner_runtime_id (rw y at h))
    | inr f ↦ absurd (no (rw f at h))
  ]
    where
      no : some false ≢ some true
      no e = absurd (cc)

      by_owner_of :
          (o : Option String)
          → (elim o [
            | none ↦ some true
            | some k ↦ runnable_from runtimes n (runtime_at k runtimes)
          ])
            ≡ some true
          → onwards n o ≡ some true
      by_owner_of none e = e
      by_owner_of (some k) e = e

  -- The owners of a runtime that is runnable do not block it.
  runnable_unblocked :
      (n : ℕ) (o : Option String) → onwards n o ≡ some true → blocked_from runtimes n o ≡ some false
  unfolding blocked_from runnable_from
  runnable_unblocked zero none h = refl
  runnable_unblocked (suc n) none h = refl
  runnable_unblocked zero (some k) h = elim (Option-cases (runtime_at k runtimes)) [
    | inl p ↦ absurd (false_some (rw (p, runnable_from) at h))
    | inr (owner, p) ↦ absurd (no (rw (p, runnable_from) at h))
  ]
    where
      no : none ≢ some true
      no e = absurd (cc)

      false_some : some false ≢ some true
      false_some e = absurd (cc)
  runnable_unblocked (suc n) (some k) h = elim (Option-cases (runtime_at k runtimes)) [
    | inl p ↦ absurd (no (rw (p, runnable_from) at h))
    | inr (owner, p) ↦
        let (running, further) = runnable_step n owner (rw p at h) in
        rw (blocked_from, p, running_healthy owner.status running)
          (runnable_unblocked n owner.owner_runtime_id further)
  ]
    where
      no : some false ≢ some true
      no e = absurd (cc)

  -- A runtime that `_runtime_is_runnable` finds runnable is one that `_target_eligibility` finds eligible,
  -- in one step less.
  pub runnable_eligible :
      (n : ℕ) (r : EngineRuntime)
      → runnable_from runtimes (suc n) (some r) ≡ some true
      → target_eligibility runtimes n r ≡ some none
  unfolding target_eligibility by_status
  runnable_eligible n r h =
      let (running, further) = runnable_step n r h in
      rw (running-eq r.status running, runnable_unblocked n r.owner_runtime_id further)

  runnable_stuck :
      (n : ℕ) (r : EngineRuntime)
      → runnable_from runtimes (suc n) (some r) ≡ none
      → (is_running r.status ≡ true) × (onwards n r.owner_runtime_id ≡ none)
  unfolding runnable_from
  runnable_stuck n r h = elim (Bool-cases (is_running r.status)) [
    | inl y ↦ (y, by_owner_of r.owner_runtime_id (rw y at h))
    | inr f ↦ absurd (no (rw f at h))
  ]
    where
      no : some false ≢ none
      no e = absurd (cc)

      by_owner_of :
          (o : Option String)
          → (elim o [
            | none ↦ some true
            | some k ↦ runnable_from runtimes n (runtime_at k runtimes)
          ])
            ≡ none
          → onwards n o ≡ none
      by_owner_of none e = e
      by_owner_of (some k) e = e

  onwards_ends : (n : ℕ) (o : Option String) → blocked_from runtimes n o ≢ none → onwards n o ≢ none
  unfolding blocked_from runnable_from
  onwards_ends n none ends e = absurd (cc)
  onwards_ends zero (some k) ends e = ends refl
  onwards_ends (suc n) (some k) ends e = elim (Option-cases (runtime_at k runtimes)) [
    | inl p ↦ absurd (no (rw (p, runnable_from) at e))
    | inr (owner, p) ↦
        let (running, stuck) = runnable_stuck n owner (rw p at e) in
        onwards_ends n owner.owner_runtime_id
          (λ b. ends (rw (blocked_from, p, running_healthy owner.status running) b)) stuck
  ]
    where
      no : some false ≢ none
      no q = absurd (cc)

  -- If the owners of a runtime form no cycle, the loop of `_runtime_is_runnable` ends within two steps
  -- more than there are runtimes.
  pub runnable_ends :
      (r : EngineRuntime)
      → ownership_cycle runtimes (suc (length runtimes)) r ≡ some false
      → runnable_from runtimes (suc (suc (length runtimes))) (some r) ≢ none
  unfolding ownership_cycle
  runnable_ends r h e =
      onwards_ends (suc (length runtimes)) r.owner_runtime_id
        (loops_end runtimes (suc (length runtimes)) (r.runtime_id ∷ []) r.owner_runtime_id "" h).1
        (runnable_stuck (suc (length runtimes)) r e).1
