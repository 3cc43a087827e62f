-- ===== src/Ownership.antt =====
-- The owner of a runtime, and its owner's owner: `_ownership_cycle`, `_locate_target`, `_target_eligibility`
-- and `owns_descendant` of engine.py. Each `while` loop takes a number of steps: `none` stands for a loop
-- that has not ended then.
pub mod Ends
pub mod Runnable
use mathlib.Core.Option
use determa_state_python.Prelude.{
  ℕ, zero, suc, String, Bool, true, false, not, ◌&&◌, ◌||◌, List, [], ◌∷◌, Option, none, some, ◌==◌,
  length, if◌then◌else◌,
}
use determa_state_python.Prelude.Distinct.{contains}
use determa_state_python.Codes.DispatchRejectionCode.{DispatchRejectionCode}
use determa_state_python.Queue.Document.{Target, Status, Relation, same_target, target_root}

-- What these functions read of a runtime: `owner_runtime_id` is `None` for the root.
pub record EngineRuntime : Type 0 where
  pub runtime_id : String
  pub role : Relation
  pub status : Status
  pub owner_runtime_id : Option String
  pub target : Target

pub record EngineState : Type 0 where
  pub root_instance_id : String
  pub root_runtime_id : String
  pub runtimes : List EngineRuntime

-- `runtimes.get(runtime_id)`
unfoldable pub runtime_at : String → List EngineRuntime → Option EngineRuntime
runtime_at k [] = none
runtime_at k (r ∷ rs) = if r.runtime_id == k then some r else runtime_at k rs

abbrev pub is_faulted : Status → Bool
is_faulted Status.faulted = true
is_faulted _ = false

module _ (runtimes : List EngineRuntime) where
  -- The loop of `_ownership_cycle`
  unfoldable pub cycle_from : ℕ → List String → Option String → Option Bool
  cycle_from n seen none = some false
  cycle_from zero seen (some o) = none
  cycle_from (suc n) seen (some o) =
      if contains ◌==◌ seen o then some true else elim (runtime_at o runtimes) [
        | none ↦ some true
        | some owner ↦ cycle_from n (o ∷ seen) owner.owner_runtime_id
      ]

  -- `_ownership_cycle`
  unfoldable pub ownership_cycle : ℕ → EngineRuntime → Option Bool
  unfolding cycle_from
  ownership_cycle n r = cycle_from n (r.runtime_id ∷ []) r.owner_runtime_id

  -- The loop of `owns_descendant`
  unfoldable pub owned_from : ℕ → String → Option String → Option Bool
  owned_from n k none = some false
  owned_from zero k (some o) = none
  owned_from (suc n) k (some o) = if o == k then some true else elim (runtime_at o runtimes) [
    | none ↦ some false
    | some owner ↦ owned_from n k owner.owner_runtime_id
  ]

  -- `owns_descendant`
  unfoldable pub owns_descendant : ℕ → EngineRuntime → EngineRuntime → Option Bool
  unfolding owned_from
  owns_descendant n r descendant = owned_from n r.runtime_id descendant.owner_runtime_id

  -- The loop of `_target_eligibility`: whether an owner is missing or faulted
  unfoldable pub blocked_from : ℕ → Option String → Option Bool
  blocked_from n none = some false
  blocked_from zero (some o) = none
  blocked_from (suc n) (some o) = elim (runtime_at o runtimes) [
    | none ↦ some true
    | some owner ↦
        if is_faulted owner.status then some true else blocked_from n owner.owner_runtime_id
  ]

  abbrev pub ineligible_code : EngineRuntime → DispatchRejectionCode
  ineligible_code r = by_role r.role
    where
      by_role : Relation → DispatchRejectionCode
      by_role Relation.component = DispatchRejectionCode.inactive_component_target
      by_role _ = DispatchRejectionCode.invalid_instance_target

  abbrev pub by_owner : EngineRuntime → Bool → Option DispatchRejectionCode
  by_owner r true = some (ineligible_code r)
  by_owner r false = none

  unfoldable pub by_status : ℕ → EngineRuntime → Status → Option (Option DispatchRejectionCode)
  unfolding blocked_from
  by_status n r Status.running = Option.map (by_owner r) (blocked_from n r.owner_runtime_id)
  by_status n r _ = some (some (ineligible_code r))

  -- `_target_eligibility`
  unfoldable pub target_eligibility : ℕ → EngineRuntime → Option (Option DispatchRejectionCode)
  unfolding by_status
  target_eligibility n r = by_status n r r.status

abbrev pub is_running : Status → Bool
is_running Status.running = true
is_running _ = false

-- `_runtime_is_runnable` of queueing.py: the loop, from a runtime that `get` may not find
unfoldable pub runnable_from : List EngineRuntime → ℕ → Option EngineRuntime → Option Bool
runnable_from runtimes n none = some false
runnable_from runtimes zero (some r) = none
runnable_from runtimes (suc n) (some r) =
    if is_running r.status
    then elim r.owner_runtime_id [
      | none ↦ some true
      | some o ↦ runnable_from runtimes n (runtime_at o runtimes)
    ]
    else some false

-- The code and the runtime that `_locate_target` returns.
abbrev pub Found : Type 0
Found = Option DispatchRejectionCode × Option EngineRuntime

-- A target that is found, and one that is not or is not the runtime's own
unfoldable pub located_runtime :
    ℕ → List EngineRuntime → DispatchRejectionCode → Target → Option EngineRuntime → Option Found
located_runtime n runtimes code target none = some (some code, none)
located_runtime n runtimes code target (some r) =
    if same_target r.target target
    then Option.map (λ (c : Option DispatchRejectionCode). (c, some r))
        (target_eligibility runtimes n r)
    else some (some code, none)

-- `_locate_target`, of a target of one of the three forms
unfoldable pub locate_target : ℕ → EngineState → Target → Option Found
unfolding located_runtime
locate_target n state (Target.root i k) =
    if (i == state.root_instance_id) && (k == state.root_runtime_id)
    then elim (runtime_at k state.runtimes) [
      | none ↦ some (some DispatchRejectionCode.invalid_instance_target, none)
      | some r ↦
          Option.map (λ (c : Option DispatchRejectionCode). (c, some r))
            (target_eligibility state.runtimes n r)
    ]
    else some (some DispatchRejectionCode.invalid_instance_target, none)
locate_target n state (Target.component i o c k a) =
    located_runtime n state.runtimes DispatchRejectionCode.inactive_component_target
      (Target.component i o c k a) (runtime_at k state.runtimes)
locate_target n state (Target.spawned_instance i k m v) =
    located_runtime n state.runtimes DispatchRejectionCode.invalid_instance_target
      (Target.spawned_instance i k m v) (runtime_at k state.runtimes)
