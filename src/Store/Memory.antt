-- ===== src/Store/Memory.antt =====
-- stores/memory.py: the records by root, and a transaction under the lock.
pub mod Sound
pub mod Swap
use mathlib.Core.Option
use determa_state_python.Prelude.{
  String, Bool, true, false, List, [], ◌∷◌, Option, none, some, ◌==◌, if◌then◌else◌,
}
use determa_state_python.Prelude.Outcome.{Outcome, ok, err, ◌>>=◌}
use determa_state_python.Wire.Value.{Json}
use determa_state_python.Store.Base.{Stored, Transaction, open_transaction, insert, replace}

-- `_records`
abbrev pub Records : Type 0 → Type 0
Records Bytes = String → Option Bytes

unfoldable pub stored : {Bytes : Type 0} → String → Bytes → Records Bytes → Records Bytes
stored root checkpoint records k = if k == root then some checkpoint else records k

-- `commit`: a write of the object that is there changes nothing, so the test `is not` is left out.
unfoldable pub commit : {Bytes : Type 0} → Records Bytes → Transaction Bytes → Records Bytes
unfolding stored
commit records t = elim t.candidate [
  | none ↦ records
  | some checkpoint ↦ stored t.root_instance_id checkpoint records
]

-- What the body of a `with` statement asks of its transaction.
pub data Request (Bytes : Type 0) : Type 0 where
  inserting : Bytes → Request Bytes
  replacing : (expected_revision expected_digest : String) → Bytes → Request Bytes

module _ {Bytes : Type 0} (strict_json : Bytes → Option Json) where
  unfoldable pub ask : Transaction Bytes → Request Bytes → Stored (Bool × Transaction Bytes)
  ask t (inserting checkpoint) = insert strict_json t checkpoint
  ask t (replacing revision digest checkpoint) = replace strict_json t revision digest checkpoint

  -- The requests in turn; an error leaves the body.
  unfoldable pub body :
      Transaction Bytes → List (Request Bytes) → Stored (List Bool × Transaction Bytes)
  body t [] = ok ([], t)
  body t (r ∷ rs) = do
    (answer, next) ← ask t r
    (answers, last) ← body next rs
    ok (answer ∷ answers, last)

  unfoldable pub finished :
      Records Bytes → Stored (List Bool × Transaction Bytes) → Stored (List Bool) × Records Bytes
  finished records (ok (answers, t)) = (ok answers, commit records t)
  finished records (err e) = (err e, records)

  -- `MemoryExecutionStore.transaction` around such a body: no commit after an error.
  unfoldable pub transaction :
      Records Bytes → String → List (Request Bytes) → Stored (List Bool) × Records Bytes
  unfolding body finished
  transaction records root requests =
      finished records (body (open_transaction strict_json root (records root)) requests)
