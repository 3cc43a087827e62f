-- ===== src/Queue/Deferrals.antt =====
-- The mailboxes that a deferral and a release write in `step_aggregate_v1` of queueing.py.
use determa_state_python.Prelude.{
  ℕ, ◌+◌, Bool, true, false, List, [], ◌∷◌, ◌++◌, String, ◌==◌, if◌then◌else◌,
}
use determa_state_python.Queue.Document.{Entry, Runtime}
use determa_state_python.Queue.Lifecycle.{Mailboxes}

-- The head of a mailbox goes behind its deferred entries, with a new queue number.
abbrev pub moved : ℕ → Entry → Entry
moved queue e = record e { queue_sequence = queue; deferral_count = e.deferral_count + 1 }

-- `runtime["ready_mailbox"] = ready` and `runtime["deferred_mailbox"] = deferred`
abbrev pub put_mailboxes : {B : Type 0} → Mailboxes → Runtime B → Runtime B
put_mailboxes b r = record r { ready_mailbox = b.ready; deferred_mailbox = b.deferred }

unfoldable pub replace_mailboxes :
    {B : Type 0} → String → Mailboxes → List (Runtime B) → List (Runtime B)
replace_mailboxes k b [] = []
replace_mailboxes k b (r ∷ rs) =
    if r.runtime_id == k
    then put_mailboxes b r ∷ replace_mailboxes k b rs
    else r ∷ replace_mailboxes k b rs

-- The loop over `list(current_deferred)`: the entries that stay, those that become ready with new queue
-- numbers, and the next number.
pub record Released : Type 0 where
  pub kept : List Entry
  pub ready : List Entry
  pub next : ℕ

unfoldable pub release : (Entry → Bool) → ℕ → List Entry → Released
release still queue [] = record { kept = []; ready = []; next = queue }
release still queue (e ∷ es) = elim (still e) [
  | true ↦ let rest = release still queue es in record rest { kept = e ∷ rest.kept }
  | false ↦
      let rest = release still (queue + 1) es in
      record rest { ready = record e { queue_sequence = queue } ∷ rest.ready }
]

-- The release in the runtime of identifier `k`: the first of that identifier.
unfoldable pub release_deferred :
    {B : Type 0} → (Entry → Bool) → String → ℕ → List (Runtime B) → List (Runtime B) × ℕ
release_deferred still k queue [] = ([], queue)
release_deferred still k queue (r ∷ rs) = elim (r.runtime_id == k) [
  | true ↦
      let out = release still queue r.deferred_mailbox in
      (
        put_mailboxes (record { ready = r.ready_mailbox ++ out.ready; deferred = out.kept }) r ∷ rs,
        out.next,
      )
  | false ↦ let rest = release_deferred still k queue rs in (r ∷ rest.0, rest.1)
]
