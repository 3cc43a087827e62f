-- ===== src/States.antt =====
-- The state tree of model.py, and the transition boundary of engine.py. A state is known by the names
-- on its way from the root: `MachineModel._index` refuses two states of one path, so `is`, `==` and the
-- comparison of paths agree.
pub mod Boundary
pub mod Deferred
use mathlib.Core.Option
use determa_state_python.Prelude.{
  String, Bool, true, false, not, ◌&&◌, ◌||◌, List, [], ◌∷◌, Option, none, some, ◌==◌,
  if◌then◌else◌,
}
use determa_state_python.Prelude.Distinct.{contains}

-- `StateNode`: its parent and its name
pub data StateNode : Type 0 where
  root_state : StateNode
  child_state : (parent : StateNode) (name : String) → StateNode

unfoldable pub same_node : StateNode → StateNode → Bool
same_node root_state root_state = true
same_node (child_state p a) (child_state q b) = (a == b) && same_node p q
same_node _ _ = false

unfoldable pub parent : StateNode → Option StateNode
parent root_state = none
parent (child_state p a) = some p

-- `StateNode.ancestors(include_self=True)`
unfoldable pub self_and_ancestors : StateNode → List StateNode
self_and_ancestors root_state = root_state ∷ []
self_and_ancestors (child_state p a) = child_state p a ∷ self_and_ancestors p

-- `StateNode.ancestors()`
unfoldable pub ancestors : StateNode → List StateNode
unfolding self_and_ancestors
ancestors root_state = []
ancestors (child_state p a) = self_and_ancestors p

-- `StateNode.is_ancestor_of`
unfoldable pub is_ancestor_of : Bool → StateNode → StateNode → Bool
is_ancestor_of strict node other =
    if not strict && same_node node other then true else contains same_node (ancestors other) node

-- `leaves_under`, on the values of `states`, with the tests `is_choice` and `children` of the machine
unfoldable pub leaves_under :
    (StateNode → Bool) → (StateNode → Bool) → List StateNode → StateNode → List StateNode
unfolding is_ancestor_of
leaves_under is_choice has_children [] state = []
leaves_under is_choice has_children (candidate ∷ rest) state =
    if not (is_choice candidate)
      && not (has_children candidate)
      && is_ancestor_of false state candidate
    then candidate ∷ leaves_under is_choice has_children rest state
    else leaves_under is_choice has_children rest state

-- What `resolve` reads of a machine: the state of a path, the children of a state, and `path.split(".")`.
pub record MachineModel : Type 0 where
  pub state_at : String → Option StateNode
  pub child_at : StateNode → String → Option StateNode
  pub split_path : String → List String

-- The names behind the first, from a child found; `none` is `break`.
unfoldable pub follow : MachineModel → StateNode → List String → Option StateNode
follow machine resolved [] = some resolved
follow machine resolved (part ∷ parts) = elim (machine.child_at resolved part) [
  | none ↦ none
  | some next ↦ follow machine next parts
]

-- The loop over the source and its parents
unfoldable pub resolve_near : MachineModel → List String → List StateNode → Option StateNode
unfolding follow
resolve_near machine parts [] = none
resolve_near machine [] (current ∷ rest) = none
resolve_near machine (part ∷ parts) (current ∷ rest) =
    let later = resolve_near machine (part ∷ parts) rest in
    elim (machine.child_at current part) [
      | none ↦ later
      | some child ↦ elim (follow machine child parts) [ none ↦ later | some found ↦ some found ]
    ]

-- `MachineModel.resolve` on the path of the target; `none` stands for `ValidationError`. A path that
-- `states` has not was looked up before, so the last lookup fails.
unfoldable pub resolve : MachineModel → String → Option StateNode → Option StateNode
unfolding resolve_near self_and_ancestors
resolve machine path source =
    if path == "root" then some root_state else elim (machine.state_at path) [
      | some found ↦ some found
      | none ↦ resolve_near machine (machine.split_path path) (chain source)
    ]
  where
    chain : Option StateNode → List StateNode
    chain none = []
    chain (some node) = self_and_ancestors node

-- The loop of `_boundary` over the source's ancestors
unfoldable pub first_common : StateNode → List StateNode → StateNode
first_common target [] = root_state
first_common target (node ∷ rest) =
    if contains same_node (self_and_ancestors target) node then node else first_common target rest

-- `_boundary`; `none` stands for `AssertionError`.
unfoldable pub boundary : StateNode → StateNode → Bool → Option StateNode
boundary source target local =
    if same_node source target
    then parent source
    else if is_ancestor_of true source target
    then (if local || same_node source root_state then some source else parent source)
    else if is_ancestor_of true target source
    then some target
    else some (first_common target (self_and_ancestors source))

-- `path` of `enter_path`, from the target up; `none` stands for `AssertionError`.
unfoldable pub entry_path : StateNode → StateNode → Option (List StateNode)
entry_path boundary_node root_state = if same_node root_state boundary_node then some [] else none
entry_path boundary_node (child_state p a) =
    let rest = Option.map (◌∷◌ (child_state p a)) (entry_path boundary_node p) in
    if same_node (child_state p a) boundary_node then some [] else rest

-- `exit_nodes` of `apply_transition`, on the active states
unfoldable pub exit_nodes : StateNode → List StateNode → List StateNode
unfolding is_ancestor_of
exit_nodes boundary_node [] = []
exit_nodes boundary_node (node ∷ rest) =
    let others = exit_nodes boundary_node rest in
    if not (same_node node boundary_node) && is_ancestor_of true boundary_node node
    then node ∷ others
    else others

-- The loop of `_structurally_deferred` of queueing.py, from the active leaf or the root upwards, with the
-- tests of "on_events" and "deferred_events" of the machine
unfoldable pub deferred_from : (StateNode → Bool) → (StateNode → Bool) → List StateNode → Bool
deferred_from handles defers [] = false
deferred_from handles defers (current ∷ rest) =
    if handles current
    then false
    else if defers current
    then true
    else deferred_from handles defers rest

-- `machine.states[runtime["active"][-1]] if runtime["active"] else machine.root`, on the active states
unfoldable pub starting_state : List StateNode → StateNode
starting_state [] = root_state
starting_state (node ∷ []) = node
starting_state (node ∷ next ∷ rest) = starting_state (next ∷ rest)

-- `_structurally_deferred` of a runtime with these active states
unfoldable pub structurally_deferred :
    (StateNode → Bool) → (StateNode → Bool) → List StateNode → Bool
unfolding deferred_from self_and_ancestors starting_state
structurally_deferred handles defers active =
    deferred_from handles defers (self_and_ancestors (starting_state active))
