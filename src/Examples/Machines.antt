-- ===== src/Examples/Machines.antt =====
-- The states of engine.py on a small machine.
use determa_state_python.Queue.Document.{Target, Status, Relation}
use determa_state_python.Ownership.{
  EngineRuntime, runnable_from, runtime_at, cycle_from, ownership_cycle, owns_descendant,
  target_eligibility,
}
use determa_state_python.Ownership.Runnable.{runnable_eligible, runnable_ends}
use determa_state_python.States.Deferred.{DeferredIn, structurally_deferred_iff}
use determa_state_python.Ownership.Ends.{ownership_cycle_ends}
use determa_state_python.Prelude.{◌≡◌, ◌≢◌, ◌↔◌, refl, true, false, List, [], ◌∷◌, none, some}
use determa_state_python.States.{
  StateNode, root_state, child_state, boundary, same_node, is_ancestor_of, ancestors,
  self_and_ancestors, first_common, parent, deferred_from, starting_state, structurally_deferred,
}
use determa_state_python.States.Boundary.{Encloses, boundary-Encloses, boundary_total}

abbrev house : StateNode
house = child_state root_state "house"

abbrev open_door : StateNode
open_door = child_state house "open"

abbrev closed_door : StateNode
closed_door = child_state house "closed"

boundary-Encloses_example : Encloses house open_door × Encloses house closed_door
unfolding boundary same_node is_ancestor_of ancestors self_and_ancestors first_common
boundary-Encloses_example = boundary-Encloses open_door closed_door false house refl

boundary_total_example : (root_state ≡ root_state) × (root_state ≡ root_state)
unfolding boundary same_node parent
boundary_total_example = boundary_total root_state root_state true refl

abbrev root_runtime : EngineRuntime
root_runtime = record {
  runtime_id = "a";
  role = Relation.root;
  status = Status.running;
  owner_runtime_id = none;
  target = Target.root "i" "a";
}

abbrev owned_runtime : EngineRuntime
owned_runtime = record {
  runtime_id = "b";
  role = Relation.spawned;
  status = Status.running;
  owner_runtime_id = some "a";
  target = Target.spawned_instance "i" "b" "m" 1;
}

abbrev two_runtimes : List EngineRuntime
two_runtimes = root_runtime ∷ owned_runtime ∷ []

ownership_cycle_ends_example :
    (ownership_cycle two_runtimes 3 owned_runtime ≢ none)
    × (ownership_cycle two_runtimes 3 owned_runtime ≡ some false
        → ((owner : EngineRuntime) → owns_descendant two_runtimes 3 owner owned_runtime ≢ none)
          × (target_eligibility two_runtimes 3 owned_runtime ≢ none))
ownership_cycle_ends_example = ownership_cycle_ends two_runtimes owned_runtime

runnable_eligible_example : target_eligibility two_runtimes 2 owned_runtime ≡ some none
unfolding runnable_from runtime_at
runnable_eligible_example = runnable_eligible two_runtimes 2 owned_runtime refl

runnable_ends_example : runnable_from two_runtimes 4 (some owned_runtime) ≢ none
unfolding ownership_cycle cycle_from runtime_at
runnable_ends_example = runnable_ends two_runtimes owned_runtime refl

structurally_deferred_iff_example :
    ((structurally_deferred (λ n. false) (same_node house) [] ≡ true)
      ↔ DeferredIn (λ n. false) (same_node house) (root_state ∷ []))
    × ((structurally_deferred (λ n. false) (same_node house) (house ∷ open_door ∷ []) ≡ true)
        ↔ DeferredIn (λ n. false) (same_node house) (self_and_ancestors open_door))
structurally_deferred_iff_example =
    structurally_deferred_iff (λ n. false) (same_node house) (house ∷ []) open_door

-- The house defers the event for the door in it.
defers_for_door :
    structurally_deferred (λ n. false) (same_node house) (house ∷ open_door ∷ []) ≡ true
unfolding structurally_deferred deferred_from self_and_ancestors starting_state same_node
defers_for_door = refl
