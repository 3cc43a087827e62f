-- ===== src/Queue/Step/Releases.antt =====
-- What becomes of deferred entries: moving them loses none.
use mathlib.Core.List.Permᴰ as PermD
use mathlib.Core.List.Permᴰ.{Permᴰ}
use mathlib.Core.List.{map-append, append_assoc}
use determa_state_python.Prelude.{
  ℕ, ◌+◌, ◌≤◌, ◌≡◌, refl, Bool, List, [], ◌∷◌, ◌++◌, map, String, ◌==◌, arith, Bool-cases, inl, inr,
}
use determa_state_python.Prelude.Permuted.{map-Perm}
use determa_state_python.Queue.Document.{Entry, Runtime, Document}
use determa_state_python.Queue.Mailboxes.{entries_of, runtime_entries, entry_id}
use determa_state_python.Codes.DispositionCode.{DispositionCode}
use determa_state_python.Queue.Deferrals.{release, release_deferred}
use determa_state_python.Queue.Step.{Engine, is_handled, step_release}
use determa_state_python.Queue.Step.Emits.{entry_ids}

grouped-Perm :
    (ready released kept deferred rest : List Entry)
    → Permᴰ (map entry_id (released ++ kept)) (map entry_id deferred)
    → Permᴰ
        (map entry_id (ready ++ released ++ kept ++ rest))
        (map entry_id (ready ++ deferred ++ rest))
grouped-Perm ready released kept deferred rest p =
    rw
      (
        append_assoc ready released kept,
        map-append entry_id (ready ++ (released ++ kept)) rest,
        map-append entry_id ready (released ++ kept),
        map-append entry_id (ready ++ deferred) rest,
        map-append entry_id ready deferred,
      )
      (PermD.append_right (map entry_id rest) (PermD.append_left (map entry_id ready) p))

module _ (still : Entry → Bool) where
  release-Perm :
      (queue : ℕ) (es : List Entry)
      → Permᴰ
          (map entry_id ((release still queue es).ready ++ (release still queue es).kept))
          (map entry_id es)
  unfolding release
  release-Perm queue [] = PermD.nil
  release-Perm queue (e ∷ es) = elim (Bool-cases (still e)) [
    | inl y ↦
        rw (y, release)
          (PermD.trans
            (map-Perm entry_id
              (PermD.middle e (release still queue es).ready (release still queue es).kept))
            (PermD.cons refl (release-Perm queue es)))
    | inr n ↦ rw (n, release) (PermD.cons refl (release-Perm (queue + 1) es))
  ]

  release-next : (queue : ℕ) (es : List Entry) → queue ≤ (release still queue es).next
  unfolding release
  release-next queue [] = omega arith
  release-next queue (e ∷ es) = elim (Bool-cases (still e)) [
    | inl y ↦ rw (y, release) (release-next queue es)
    | inr n ↦ rw (n, release) (omega (arith, release-next (queue + 1) es))
  ]

  module _ {B : Type 0} (k : String) where
    pub release_deferred-Perm :
        (queue : ℕ) (rs : List (Runtime B))
        → Permᴰ
            (map entry_id (entries_of (release_deferred still k queue rs).0))
            (map entry_id (entries_of rs))
    unfolding release_deferred
    release_deferred-Perm queue [] = PermD.nil
    release_deferred-Perm queue (r ∷ rs) = elim (Bool-cases (r.runtime_id == k)) [
      | inl y ↦
          rw (y, release_deferred)
            (grouped-Perm r.ready_mailbox (release still queue r.deferred_mailbox).ready
              (release still queue r.deferred_mailbox).kept r.deferred_mailbox (entries_of rs)
              (release-Perm queue r.deferred_mailbox))
      | inr n ↦
          rw
            (
              n,
              release_deferred,
              map-append entry_id (runtime_entries r)
                  (entries_of (release_deferred still k queue rs).0),
              map-append entry_id (runtime_entries r) (entries_of rs),
            )
            (PermD.append_left (map entry_id (runtime_entries r)) (release_deferred-Perm queue rs))
    ]

    pub release_deferred-next :
        (queue : ℕ) (rs : List (Runtime B)) → queue ≤ (release_deferred still k queue rs).1
    unfolding release_deferred
    release_deferred-next queue [] = omega arith
    release_deferred-next queue (r ∷ rs) = elim (Bool-cases (r.runtime_id == k)) [
      | inl y ↦ rw (y, release_deferred) (release-next queue r.deferred_mailbox)
      | inr n ↦ rw (n, release_deferred) (release_deferred-next queue rs)
    ]

module _ {B S : Type 0} (engine : Engine B S) (evidence : Bool) (state : S) (k : String) where
  -- The release keeps the identifiers, and never lowers a counter.
  pub record StillHeld (document after : Document B) : Type 0 where
    pub ids : Permᴰ (entry_ids after) (entry_ids document)
    pub next_queue : document.next_queue_sequence ≤ after.next_queue_sequence
    pub next_acceptance : after.next_acceptance_sequence ≡ document.next_acceptance_sequence

  pub step_release-StillHeld :
      (disposition : DispositionCode) (running : Bool) (document : Document B)
      → StillHeld document (step_release engine evidence state k disposition running document)
  unfolding step_release
  step_release-StillHeld disposition running document = elim (Bool-cases (is_handled disposition)) [
    | inr n ↦ rw (n, step_release) unchanged
    | inl y ↦ elim (Bool-cases running) [
      | inr m ↦ rw (y, m, step_release) unchanged
      | inl z ↦
          rw (y, z, step_release)
            (record {
              ids = release_deferred-Perm _ k _ document.runtimes;
              next_queue = release_deferred-next _ k _ document.runtimes;
              next_acceptance = refl;
            })
    ]
  ]
    where
      unchanged : StillHeld document document
      unchanged = record { ids = PermD.refl _; next_queue = omega arith; next_acceptance = refl }
