-- ===== src/Queue/Lifecycle.antt =====
-- The ends of runtimes in `step_aggregate_v1` of queueing.py: `_lifecycle_disposition`, `_mailbox_maps`
-- and the loop over `_lifecycle_runtime_order`.
use determa_state_python.Prelude.{
  ℕ, Bool, true, false, List, [], ◌∷◌, ◌++◌, map, Option, none, some, String, ◌==◌, if◌then◌else◌,
}
use determa_state_python.Prelude.Outcome.{Outcome, ok, err, ◌>>=◌}
use determa_state_python.Codes.PersistenceFailureCode.{PersistenceFailureCode}
use determa_state_python.Queue.Document.{Entry, Status, Runtime}
use determa_state_python.Queue.Mailboxes.{entry_id}
use determa_state_python.Queue.Admit.{find_runtime}

-- What a step may raise: an `ArtifactError`, or a `StopIteration` or `KeyError`.
pub data Failure : Type 0 where
  artifact : PersistenceFailureCode → Failure
  missing : Failure

abbrev pub Attempt {ℓ} : Type ℓ → Type ℓ
Attempt = Outcome Failure

pub data Reason : Type 0 where
  runtime_cancelled aggregate_completed runtime_completed : Reason

pub record Disposal : Type 0 where
  pub event_id : String
  pub request_digest : String
  pub acceptance_sequence : ℕ
  pub final_queue_sequence : ℕ
  pub target_runtime_id : String
  pub reason : Reason

-- `_lifecycle_disposition`
abbrev pub lifecycle_disposition : String → Reason → Entry → Disposal
lifecycle_disposition runtime_id reason e = record {
  event_id = entry_id e;
  request_digest = e.envelope_digest;
  acceptance_sequence = e.acceptance_sequence;
  final_queue_sequence = e.queue_sequence;
  target_runtime_id = runtime_id;
  reason = reason;
}

-- The ready and the deferred entries of one runtime.
pub record Mailboxes : Type 0 where
  pub ready : List Entry
  pub deferred : List Entry

abbrev pub mailboxes_of : {B : Type 0} → Runtime B → Mailboxes
mailboxes_of r = record { ready = r.ready_mailbox; deferred = r.deferred_mailbox }

-- `_mailbox_maps`
abbrev pub mailbox_maps : {B : Type 0} → List (Runtime B) → List (String × Mailboxes)
mailbox_maps rs = map (λ r. (r.runtime_id, mailboxes_of r)) rs

-- `mailboxes.get(...)`: the keys of the dictionary differ.
unfoldable pub held : String → List (String × Mailboxes) → Option Mailboxes
held k [] = none
held k ((j, b) ∷ boxes) = if j == k then some b else held k boxes

-- `ready.pop(0)` on the mailboxes of one runtime
abbrev pub pop : Mailboxes → Mailboxes
pop b = record b { ready = tail b.ready }
  where
    tail : List Entry → List Entry
    tail [] = []
    tail (e ∷ es) = es

unfoldable pub with_popped : String → List (String × Mailboxes) → List (String × Mailboxes)
with_popped k [] = []
with_popped k ((j, b) ∷ boxes) = if j == k then (j, pop b) ∷ boxes else (j, b) ∷ with_popped k boxes

-- `current["ready_mailbox"] = []` and `current["deferred_mailbox"] = []`
abbrev pub cleared : {B : Type 0} → Runtime B → Runtime B
cleared r = record r { ready_mailbox = []; deferred_mailbox = [] }

unfoldable pub clear_mailboxes : {B : Type 0} → String → List (Runtime B) → List (Runtime B)
clear_mailboxes k [] = []
clear_mailboxes k (r ∷ rs) = if r.runtime_id == k then cleared r ∷ rs else r ∷ clear_mailboxes k rs

abbrev pub is_completed : Status → Bool
is_completed Status.completed = true
is_completed _ = false

-- Why the entries of a runtime end, if they do; `none` stands for `continue`.
abbrev pub ending : {B : Type 0} → Bool → Option (Runtime B) → Option Reason
ending true current = some Reason.aggregate_completed
ending false none = some Reason.runtime_cancelled
ending false (some r) = if is_completed r.status then some Reason.runtime_completed else none

module _ {B : Type 0} (root_completed : Bool) (boxes : List (String × Mailboxes)) where
  -- What one pass of the loop does with the runtime of identifier `k`, if its entries end.
  abbrev pub end_one :
      String
      → Option Mailboxes
      → Option Reason
      → List (Runtime B)
      → Attempt (List (Runtime B) × List Disposal)
  end_one k none reason rs = err Failure.missing
  end_one k (some b) none rs = ok (rs, [])
  end_one k (some b) (some reason) rs =
      ok (clear_mailboxes k rs, map (lifecycle_disposition k reason) (b.ready ++ b.deferred))

  -- The loop over `_lifecycle_runtime_order`
  unfoldable pub end_mailboxes :
      List String → List (Runtime B) → Attempt (List (Runtime B) × List Disposal)
  unfolding held find_runtime clear_mailboxes
  end_mailboxes [] rs = ok (rs, [])
  end_mailboxes (k ∷ ks) rs =
      end_one k (held k boxes) (ending root_completed (find_runtime k rs)) rs >>= λ now.
      end_mailboxes ks now.0 >>= λ later. ok (later.0, now.1 ++ later.1)
