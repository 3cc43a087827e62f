-- ===== src/Store/Base.antt =====
-- `checkpoint_metadata` of stores/base.py, and one transaction of a root as both bundled stores stage it:
-- `_MemoryTransaction` and `_FileTransaction` have the same `insert`, `replace` and `load`.
use determa_state_python.Prelude.{
  String, Bool, true, false, ◌&&◌, Option, none, some, ◌==◌, if◌then◌else◌,
}
use determa_state_python.Prelude.Outcome.{Outcome, ok, err, ◌>>=◌, ◌>>◌, require, or_raise}
use determa_state_python.Wire.Value.{Json, Members}

-- The codes of the `ExecutionStoreError`s raised here.
pub data StoreFailure : Type 0 where
  invalid_execution_checkpoint transaction_root_mismatch : StoreFailure

abbrev pub Stored {ℓ} : Type ℓ → Type ℓ
Stored A = Outcome StoreFailure A

-- root_instance_id, revision, digest
pub record Metadata : Type 0 where
  pub root : String
  pub revision : String
  pub digest : String

-- `document[name]`, if it is a text. A parsed object has no repeated name.
abbrev pub text_member : String → Members → Option String
text_member name Members.end = none
text_member name (Members.member key v rest) =
    if key == name then text_of v else text_member name rest
  where
    text_of : Json → Option String
    text_of (Json.string s) = some s
    text_of _ = none

unfoldable pub metadata_of : Option Json → Stored Metadata
metadata_of (some (Json.object ms)) = do
  root ← or_raise (text_member "root_instance_id" ms) invalid_execution_checkpoint
  revision ← or_raise (text_member "revision" ms) invalid_execution_checkpoint
  digest ← or_raise (text_member "execution_checkpoint_digest" ms) invalid_execution_checkpoint
  ok (record { root = root; revision = revision; digest = digest })
metadata_of _ = err invalid_execution_checkpoint

-- `current` is what the store held when the transaction was opened.
pub record Transaction (Bytes : Type 0) : Type 0 where
  pub root_instance_id : String
  pub current : Option Bytes
  pub candidate : Option Bytes

-- `strict_json` is the parser of wire.py; `none` stands for `ArtifactError`.
module _ {Bytes : Type 0} (strict_json : Bytes → Option Json) where
  -- `checkpoint_metadata`
  abbrev pub checkpoint_metadata : Bytes → Stored Metadata
  checkpoint_metadata source = metadata_of (strict_json source)

  -- `__init__`
  abbrev pub open_transaction : String → Option Bytes → Transaction Bytes
  open_transaction root current = record {
    root_instance_id = root;
    current = current;
    candidate = current;
  }

  abbrev pub load : Transaction Bytes → Option Bytes
  load t = t.current

  abbrev pub insert_staged : Transaction Bytes → Bytes → Option Bytes → Bool × Transaction Bytes
  insert_staged t checkpoint (some present) = (false, t)
  insert_staged t checkpoint none = (true, record t { candidate = some checkpoint })

  -- `insert`
  unfoldable pub insert : Transaction Bytes → Bytes → Stored (Bool × Transaction Bytes)
  insert t checkpoint = do
    metadata ← checkpoint_metadata checkpoint
    require (metadata.root == t.root_instance_id) transaction_root_mismatch
    ok (insert_staged t checkpoint t.current)

  -- `replace`, when the root is present
  unfoldable pub replace_present :
      Transaction Bytes → String → String → Bytes → Bytes → Stored (Bool × Transaction Bytes)
  replace_present t expected_revision expected_digest present checkpoint = do
    held ← checkpoint_metadata present
    offered ← checkpoint_metadata checkpoint
    require ((held.root == t.root_instance_id) && (offered.root == t.root_instance_id))
        transaction_root_mismatch
    ok (
        if (held.revision == expected_revision) && (held.digest == expected_digest)
        then (true, record t { candidate = some checkpoint })
        else (false, t))

  unfoldable pub replace_current :
      Transaction Bytes → String → String → Bytes → Option Bytes → Stored (Bool × Transaction Bytes)
  replace_current t expected_revision expected_digest checkpoint none = ok (false, t)
  replace_current t expected_revision expected_digest checkpoint (some present) =
      replace_present t expected_revision expected_digest present checkpoint

  -- `replace`
  unfoldable pub replace :
      Transaction Bytes → String → String → Bytes → Stored (Bool × Transaction Bytes)
  unfolding replace_current
  replace t expected_revision expected_digest checkpoint =
      replace_current t expected_revision expected_digest checkpoint t.current
