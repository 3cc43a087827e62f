-- ===== src/Examples/Stores.antt =====
-- The stores on a checkpoint that is its own parsed document.
use determa_state_python.Prelude.{
  ℕ, List, ◌≡◌, ◌≢◌, inl, refl, String, true, [], ◌∷◌, Option, none, some, eq_iff,
}
use determa_state_python.Prelude.Outcome.{ok}
use determa_state_python.Wire.Value.{Json, Members}
use determa_state_python.Store.Base.{metadata_of, insert, replace, replace_current, replace_present}
use determa_state_python.Store.Memory.{Records, transaction, inserting, body, finished, ask, commit}
use determa_state_python.Store.Memory.Sound.{IsSound, transaction-IsSound}
use determa_state_python.Store.Memory.Swap.{swap, swap_once}
use determa_state_python.Store.File.{
  Disk, Call, mkstemp, flush, fsync, open_directory, unlink_call, How, returns, raises, killed,
  Answer, write_stream, sync_directory, replace_file, commit_candidate,
}
use determa_state_python.Store.File.Atomic.{Settled, commit_candidate_lem}

abbrev checkpoint : String → Json
checkpoint revision = Json.object (
    Members.member "root_instance_id" (Json.string "r") (
      Members.member "revision" (Json.string revision)
        (Members.member "execution_checkpoint_digest" (Json.string "d") Members.end)))

abbrev parsed : Json → Option Json
parsed j = some j

abbrev no_records : Records Json
no_records root = none

transaction-IsSound_example :
    IsSound parsed (transaction parsed no_records "r" (inserting (checkpoint "1") ∷ [])).1
transaction-IsSound_example =
    transaction-IsSound parsed no_records "r" (inserting (checkpoint "1") ∷ []) (λ root c e. cc)

abbrev first_record : Records Json
first_record root = some (checkpoint "1")

swap_once_example :
    (swap parsed
      (swap parsed first_record "r" "1" "d" (checkpoint "2")).1
      "r"
      "1"
      "d"
      (checkpoint "3")).0
    ≢ ok (true ∷ [])
unfolding transaction body finished ask insert replace replace_current replace_present commit
    metadata_of
swap_once_example =
    swap_once parsed first_record "r" "1" "d" (checkpoint "2") (checkpoint "3")
      (record { root = "r"; revision = "2"; digest = "d" }) refl refl
      (inl (λ e. cc ((eq_iff "2" "1").1 e)))

abbrev two_bytes : List ℕ
two_bytes = 1 ∷ 2 ∷ []

abbrev disk_before : Disk ℕ
disk_before = record { checkpoint = some (9 ∷ []); temporary = none; pending = [] }

-- One call fails, and the stream passes on one byte when it is written to.
abbrev fails_in : Call → How → Call → Answer
fails_in flush how flush = record { how = how; progress = 0 }
fails_in fsync how fsync = record { how = how; progress = 0 }
fails_in open_directory how open_directory = record { how = how; progress = 0 }
fails_in call how _ = record { how = returns; progress = 1 }

commit_candidate_ends :
    (commit_candidate (fails_in flush killed) two_bytes disk_before ≡ (
      killed,
      record { checkpoint = some (9 ∷ []); temporary = some (1 ∷ []); pending = 2 ∷ [] },
    ))
    × (commit_candidate (fails_in fsync raises) two_bytes disk_before
        ≡ (raises, record { checkpoint = some (9 ∷ []); temporary = none; pending = [] }))
    × (commit_candidate (fails_in open_directory raises) two_bytes disk_before
        ≡ (raises, record { checkpoint = some two_bytes; temporary = none; pending = [] }))
    × (commit_candidate (fails_in mkstemp raises) two_bytes disk_before
        ≡ (returns, record { checkpoint = some two_bytes; temporary = none; pending = [] }))
unfolding commit_candidate write_stream sync_directory replace_file
commit_candidate_ends = (refl, refl, refl, refl)

commit_candidate_lem_example :
    Settled
      (fails_in fsync raises)
      two_bytes
      (some (9 ∷ []))
      (commit_candidate (fails_in fsync raises) two_bytes disk_before).1
    × ((commit_candidate (fails_in fsync raises) two_bytes disk_before).0 ≡ returns
        → ((commit_candidate (fails_in fsync raises) two_bytes disk_before).1.checkpoint
            ≡ some two_bytes)
          × ((commit_candidate (fails_in fsync raises) two_bytes disk_before).1.temporary ≡ none))
    × ((commit_candidate (fails_in fsync raises) two_bytes disk_before).0 ≡ raises
        → (fails_in fsync raises unlink_call).how ≡ returns
        → (commit_candidate (fails_in fsync raises) two_bytes disk_before).1.temporary ≡ none)
commit_candidate_lem_example =
    commit_candidate_lem (fails_in fsync raises) two_bytes disk_before refl
