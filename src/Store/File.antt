-- ===== src/Store/File.antt =====
-- stores/file.py: one root's checkpoint file, and `_FileTransaction.commit`. A file is the list of its
-- bytes. Each call of the operating system returns, raises or is where the process is killed, and the
-- stream passes bytes on when it likes. `os.replace` is atomic, as Python documents for POSIX.
pub mod Ends
pub mod Atomic
use mathlib.Core.Option
use determa_state_python.Prelude.{
  ℕ, zero, suc, String, Bool, true, false, List, [], ◌∷◌, ◌++◌, Option, none, some, take, drop,
}
use determa_state_python.Store.Base.{Stored, Transaction, open_transaction, insert, replace}
use determa_state_python.Wire.Value.{Json}

-- The bytes of the checkpoint file and of the temporary file, and those that the stream has not passed on.
pub record Disk (Byte : Type 0) : Type 0 where
  pub checkpoint : Option (List Byte)
  pub temporary : Option (List Byte)
  pub pending : List Byte

-- The calls of `commit`
pub data Call : Type 0 where
  mkstemp fdopen write flush fsync close replace_call open_directory fsync_directory close_directory
        unlink_call :
      Call

-- How code ends: it goes on, an exception leaves it, or the process is killed in it.
pub data How : Type 0 where
  returns raises killed : How

-- How a call ends, and how much it has done by then: of the stream's calls, the number of bytes passed on;
-- of the others, all if it returns, nothing if it raises, and either where the process is killed.
pub record Answer : Type 0 where
  pub how : How
  pub progress : ℕ

-- `_FileTransaction` word for word stages as `_MemoryTransaction` does, on the bytes of the file.
module _ {Byte : Type 0} (strict_json : List Byte → Option Json) where
  abbrev pub open_file : String → Disk Byte → Transaction (List Byte)
  open_file root disk = open_transaction strict_json root disk.checkpoint

  abbrev pub insert_in_file :
      Transaction (List Byte) → List Byte → Stored (Bool × Transaction (List Byte))
  insert_in_file t checkpoint = insert strict_json t checkpoint

  abbrev pub replace_in_file :
      Transaction (List Byte)
      → String
      → String
      → List Byte
      → Stored (Bool × Transaction (List Byte))
  replace_in_file t expected_revision expected_digest checkpoint =
      replace strict_json t expected_revision expected_digest checkpoint

-- Code that works on the disk
abbrev pub Code : Type 0 → Type 0
Code Byte = Disk Byte → How × Disk Byte

module _ {Byte : Type 0} where
  -- `try: ... except BaseException: ...; raise`, and the end of a `finally` after an exception: the
  -- exception goes on, unless the process is killed.
  abbrev pub raised_on : How × Disk Byte → How × Disk Byte
  raised_on (killed, disk) = (killed, disk)
  raised_on (_, disk) = (raises, disk)

  abbrev pub go_on : Code Byte → How × Disk Byte → How × Disk Byte
  go_on q (returns, disk) = q disk
  go_on q (raises, disk) = (raises, disk)
  go_on q (killed, disk) = (killed, disk)

  abbrev pub end_with : Code Byte → How × Disk Byte → How × Disk Byte
  end_with q (returns, disk) = q disk
  end_with q (raises, disk) = raised_on (q disk)
  end_with q (killed, disk) = (killed, disk)

  abbrev pub handle : Code Byte → How × Disk Byte → How × Disk Byte
  handle q (returns, disk) = (returns, disk)
  handle q (raises, disk) = raised_on (q disk)
  handle q (killed, disk) = (killed, disk)

  -- One statement, and then the next
  infixr 10 ◌then_do◌
  abbrev pub ◌then_do◌ : Code Byte → Code Byte → Code Byte
  (p then_do q) disk = go_on q (p disk)

  -- `try: p finally: q`, which `with ... as stream` is as well
  abbrev pub finally : Code Byte → Code Byte → Code Byte
  finally p q disk = end_with q (p disk)

  -- `try: p except BaseException: q; raise`
  abbrev pub except_raise : Code Byte → Code Byte → Code Byte
  except_raise p q disk = handle q (p disk)

  -- A call that does what it does as one, if it does it.
  abbrev pub at_once_by : How → ℕ → (Disk Byte → Disk Byte) → Code Byte
  at_once_by returns n effect disk = (returns, effect disk)
  at_once_by raises n effect disk = (raises, disk)
  at_once_by killed zero effect disk = (killed, disk)
  at_once_by killed (suc n) effect disk = (killed, effect disk)

  abbrev pub at_once : Answer → (Disk Byte → Disk Byte) → Code Byte
  at_once answer = at_once_by answer.how answer.progress

  -- The stream passes on `n` of its bytes.
  abbrev pub pass : ℕ → Disk Byte → Disk Byte
  pass n disk = record disk {
    temporary = Option.map (λ written. written ++ take n disk.pending) disk.temporary;
    pending = drop n disk.pending;
  }

  abbrev pub pass_all : Disk Byte → Disk Byte
  pass_all disk = record disk {
    temporary = Option.map (λ written. written ++ disk.pending) disk.temporary;
    pending = [];
  }

  -- A call that passes on what is pending: all of it, if it returns.
  abbrev pub passes_by : How → ℕ → Code Byte
  passes_by returns n disk = (returns, pass_all disk)
  passes_by raises n disk = (raises, pass n disk)
  passes_by killed n disk = (killed, pass n disk)

  abbrev pub passes : Answer → Code Byte
  passes answer = passes_by answer.how answer.progress

  abbrev pub make_temporary : Disk Byte → Disk Byte
  make_temporary disk = record disk { temporary = some []; pending = [] }

  -- `stream.write(self._candidate)`
  abbrev pub write_candidate : Answer → List Byte → Code Byte
  write_candidate answer candidate disk =
      (answer.how, pass answer.progress (record disk { pending = disk.pending ++ candidate }))

  -- `os.replace(temporary_name, self._checkpoint_path)`
  unfoldable pub replace_file : Disk Byte → Disk Byte
  replace_file disk = renamed disk.temporary
    where
      renamed : Option (List Byte) → Disk Byte
      renamed none = disk
      renamed (some written) = record disk { checkpoint = some written; temporary = none }

  -- `os.unlink(temporary_name)`, where `FileNotFoundError` is passed over
  abbrev pub unlink : Disk Byte → Disk Byte
  unlink disk = record disk { temporary = none }

  abbrev pub unchanged : Disk Byte → Disk Byte
  unchanged disk = disk

  module _ (answers : Call → Answer) (candidate : List Byte) where
    -- `with os.fdopen(descriptor, "wb") as stream: ...`
    unfoldable pub write_stream : Code Byte
    write_stream =
        at_once (answers fdopen) unchanged
        then_do finally
            (write_candidate (answers write) candidate
              then_do passes (answers flush)
              then_do at_once (answers fsync) unchanged)
            (passes (answers close))

    -- From `os.open` of the directory on
    unfoldable pub sync_directory : Code Byte
    sync_directory =
        at_once (answers open_directory) unchanged
        then_do finally (at_once (answers fsync_directory) unchanged)
            (at_once (answers close_directory) unchanged)

    -- `commit` of a candidate
    unfoldable pub commit_candidate : Code Byte
    unfolding replace_file
    commit_candidate =
        at_once (answers mkstemp) make_temporary
        then_do except_raise
            (write_stream
              then_do at_once (answers replace_call) replace_file
              then_do sync_directory)
            (at_once (answers unlink_call) unlink)

  -- `commit`; the flag is whether the candidate is the object that was read. The assertion that there is a
  -- candidate fails with an exception.
  unfoldable pub commit_file : Bool → Transaction (List Byte) → (Call → Answer) → Code Byte
  commit_file true t answers disk = (returns, disk)
  commit_file false t answers disk = by_candidate t.candidate
    where
      by_candidate : Option (List Byte) → How × Disk Byte
      by_candidate none = (raises, disk)
      by_candidate (some candidate) = commit_candidate answers candidate disk
