-- ===== src/Yaml/Load.antt =====
-- `load` of yaml12.py and its constructors, on the nodes that the YAML library composes.
pub mod Portable
use determa_state_python.Prelude.{
  ℕ, Bool, true, false, not, ◌&&◌, ◌||◌, List, [], ◌∷◌, ◌++◌, Option, none, some, any,
  if◌then◌else◌,
}
use determa_state_python.Prelude.Outcome.{Outcome, ok, err, ◌>>=◌, ◌>>◌, require}
use determa_state_python.Codes.MachineLoadFailureCode.{
  MachineLoadFailureCode, duplicate_key, invalid_unicode, non_json_value, non_string_map_key,
  unsupported_yaml_feature,
}
use determa_state_python.Yaml.Host.{
  Text, Host, Hosts, Pairs, Loaded, has_invalid_unicode, has_key, with_pair, validate_unicode,
}
use determa_state_python.Yaml.Plain.{Float, resolve_plain}

-- A node that the library composes. `plain` says whether the scalar has no style.
mutual
  pub data Node : Type 0 where
    scalar : (plain : Bool) (value : Text) → Node
    sequence : Nodes → Node
    mapping : NodePairs → Node

  pub data Nodes : Type 0 where
    nil : Nodes
    cons : Node → Nodes → Nodes

  pub data NodePairs : Type 0 where
    end : NodePairs
    pair : Node → Node → NodePairs → NodePairs

pub data Token : Type 0 where
  alias anchor tag plain_token : Token

-- What the library finds in a source, as it goes on: documents, and then the end or an error.
pub data Composed : Type 0 where
  finished failed : Composed
  document : Node → Composed → Composed

-- The tokens of a source, and then the end or an error.
pub data Scanned : Type 0 where
  all_scanned scan_failed : Scanned
  token : Token → Scanned → Scanned

-- What `load` calls of the YAML library and of Python.
pub record Library : Type 0 where
  -- `yaml.scan` and `yaml.compose_all`
  pub tokens : Text → Scanned
  pub compose : Text → Composed
  pub float : Float

-- The tests of a key in `_construct_mapping`
abbrev pub check_key : Host → Pairs → Loaded (Unit {0})
check_key (Host.text k) result = require (not (has_key k result)) duplicate_key
check_key _ result = err non_string_map_key

module _ (library : Library) where
  -- `_construct_scalar`
  unfoldable pub construct_scalar : Bool → Text → Loaded Host
  construct_scalar plain value =
      if has_invalid_unicode value
      then err invalid_unicode
      else if plain
      then resolve_plain library.float value
      else ok (Host.text value)

  -- `construct_object`: `_construct_scalar`, `_construct_sequence` and `_construct_mapping`
  unfoldable mutual
    pub construct : Node → Loaded Host
    construct (Node.scalar plain value) = construct_scalar plain value
    construct (Node.sequence ns) = construct_sequence ns >>= λ vs. ok (Host.list vs)
    construct (Node.mapping ps) = construct_mapping Pairs.end ps >>= λ qs. ok (Host.dict qs)

    pub construct_sequence : Nodes → Loaded Hosts
    construct_sequence Nodes.nil = ok Hosts.nil
    construct_sequence (Nodes.cons n ns) =
        construct n >>= λ v. construct_sequence ns >>= λ vs. ok (Hosts.cons v vs)

    pub construct_mapping : Pairs → NodePairs → Loaded Pairs
    construct_mapping result NodePairs.end = ok result
    construct_mapping result (NodePairs.pair kn vn ps) = construct kn >>= λ k.
        check_key k result >> construct vn >>= λ v. construct_mapping (with_pair result k v) ps

  abbrev pub is_unsupported : Token → Bool
  is_unsupported Token.plain_token = false
  is_unsupported _ = true

  -- `_reject_yaml_features`
  unfoldable pub reject_yaml_features : Scanned → Loaded (Unit {0})
  reject_yaml_features Scanned.all_scanned = ok tt
  reject_yaml_features Scanned.scan_failed = err non_json_value
  reject_yaml_features (Scanned.token t ts) =
      require (not (is_unsupported t)) unsupported_yaml_feature >> reject_yaml_features ts

  -- `list(yaml.load_all(...))`
  unfoldable pub load_all : Composed → Loaded (List Host)
  load_all Composed.finished = ok []
  load_all Composed.failed = err non_json_value
  load_all (Composed.document n rest) = construct n >>= λ v. load_all rest >>= λ vs. ok (v ∷ vs)

  -- The one document of a source
  abbrev pub only : List Host → Loaded Host
  only (v ∷ []) = if validate_unicode v then ok v else err invalid_unicode
  only _ = err non_json_value

  -- `load`
  unfoldable pub load : Text → Loaded Host
  load source =
      require (not (has_invalid_unicode source)) invalid_unicode
      >> reject_yaml_features (library.tokens source)
      >> load_all (library.compose source)
      >>= λ documents. only documents
