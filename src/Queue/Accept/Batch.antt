-- ===== src/Queue/Accept/Batch.antt =====
-- Accepting a validated batch: it succeeds, keeps the mailboxes sound, and queues each delivery once.
use mathlib.Core.List.{map-append}
use determa_state_python.Prelude.{
  ℕ, ◌+◌, ◌≡◌, ◌≢◌, refl, sym, ◌∙◌, List, [], ◌∷◌, ◌++◌, map, some, String, All,
}
use determa_state_python.Prelude.Distinct.{NotIn, Distinct}
use determa_state_python.Queue.Document.{Entry, Delivery, Runtime, Document, runtime_id_for_target}
use determa_state_python.Queue.Mailboxes.{Digest, entries_of, entry_id, acceptance_of, queue_of}
use determa_state_python.Queue.Mailboxes.Valid.{IsQueued}
use determa_state_python.Prelude.Sort.{Ordered}
use determa_state_python.Queue.Seal.{Rules, runtime_before}
use determa_state_python.Queue.Accept.{
  Acceptance, append_ready, with_next, new_entry, accept_one, accept_each,
}
use determa_state_python.Queue.Accept.Place.{
  Placed, append_ready-Placed, append_ready-find, append_ready-total, append_ready-Ordered,
}
use determa_state_python.Queue.Accept.Keeps.{
  Distinct-Placed, NotIn-below, acceptances_below, queues_below, IsAcceptable, queued,
  runtimes-queued,
}

abbrev pub delivery_id : Delivery → String
delivery_id d = d.envelope.event_id

NotIn-Placed :
    {A : Type 0} (f : Entry → A) (a : A) (e : Entry) (xs ys : List Entry)
    → Placed e xs ys
    → a ≢ f e
    → NotIn a (map f xs)
    → NotIn a (map f ys)
NotIn-Placed f a e xs ys (front, back, p, q) ne n =
    rw (q, map-append f front (e ∷ back))
      (insert_ne (map f front) (rw (p, map-append f front back) at n))
  where
    insert_ne : (zs : List _) → NotIn a (zs ++ map f back) → NotIn a (zs ++ f e ∷ map f back)
    insert_ne [] m = (ne, m)
    insert_ne (z ∷ zs) m = (m.0, insert_ne zs m.1)

module _ {B : Type 0} (rules : Rules B) where
  -- What accepting one delivery does.
  pub record AcceptedOne (document : Document B) (d : Delivery) (next : Document B) : Type 0 where
    pub done : accept_one rules document d ≡ some next
    pub keeps : IsQueued rules.digest next
    pub placed :
        Placed
          (queued rules.digest document d [])
          (entries_of document.runtimes)
          (entries_of next.runtimes)
    pub next_acceptance : next.next_acceptance_sequence ≡ document.next_acceptance_sequence + 1
    pub same_root : next.root_instance_id ≡ document.root_instance_id
    pub in_order : Ordered runtime_before document.runtimes → Ordered runtime_before next.runtimes
    pub next_queue : next.next_queue_sequence ≡ document.next_queue_sequence + 1
    pub others :
        (e : Delivery)
        → delivery_id e ≢ delivery_id d
        → IsAcceptable rules.digest document e
        → IsAcceptable rules.digest next e

  pub accept_one-AcceptedOne :
      (document : Document B) (d : Delivery)
      → IsQueued rules.digest document
      → IsAcceptable rules.digest document d
      → (next : Document B) × AcceptedOne document d next
  unfolding accept_one
  accept_one-AcceptedOne document d q a = (
    with_next document after,
    record {
      done = rw (a.sealed, accept_one, appended);
      keeps = record {
        runtimes_fit =
            runtimes-queued rules.digest document d after k document.runtimes after a.target
              appended a.found a.addressed a.payload_map q.runtimes_fit;
        event_ids_distinct =
            Distinct-Placed entry_id entry document_entries after_entries place a.is_new
              q.event_ids_distinct;
        acceptances_distinct =
            Distinct-Placed acceptance_of entry document_entries after_entries place
              (NotIn-below acceptance_of _ document_entries
                (acceptances_below rules.digest document document.runtimes q.runtimes_fit))
              q.acceptances_distinct;
        queues_distinct =
            Distinct-Placed queue_of entry document_entries after_entries place
              (NotIn-below queue_of _ document_entries
                (queues_below rules.digest document document.runtimes q.runtimes_fit))
              q.queues_distinct;
      };
      placed = place;
      next_acceptance = refl;
      same_root = refl;
      in_order = append_ready-Ordered k entry document.runtimes after appended;
      next_queue = refl;
      others = λ e ne b.
          let (t, f, same) =
            append_ready-find k entry (runtime_id_for_target e.envelope.target) document.runtimes
              after b.target appended b.found in
          record {
            target = t;
            found = f;
            addressed = same ∙ b.addressed;
            payload_map = b.payload_map;
            sealed = b.sealed;
            is_new =
                NotIn-Placed entry_id (delivery_id e) entry document_entries after_entries place ne
                  b.is_new;
          };
    },
  )
    where
      k : String
      k = runtime_id_for_target d.envelope.target

      entry : Entry
      entry = queued rules.digest document d []

      total : (rs : List (Runtime B)) × (append_ready k entry document.runtimes ≡ some rs)
      total = append_ready-total k entry document.runtimes a.target a.found

      after : List (Runtime B)
      after = total.0

      appended : append_ready k entry document.runtimes ≡ some after
      appended = total.1

      document_entries : List Entry
      document_entries = entries_of document.runtimes

      after_entries : List Entry
      after_entries = entries_of after

      place : Placed entry document_entries after_entries
      place = append_ready-Placed k entry document.runtimes after appended

-- The entries of a batch, in its order, with consecutive numbers.
unfoldable pub new_entries : Digest → String → ℕ → ℕ → List Delivery → List Entry
new_entries digest root acceptance queue [] = []
new_entries digest root acceptance queue (d ∷ ds) =
    new_entry digest root acceptance queue d
    ∷ new_entries digest root (acceptance + 1) (queue + 1) ds

-- The entries `ys` are the entries `xs` with those of the first list put somewhere, one by one.
pub data Filled : List Entry → List Entry → List Entry → Type 0 where
  unchanged : {xs : List Entry} → Filled [] xs xs
  one_more :
      {e : Entry} {es xs ys zs : List Entry}
      → Placed e xs ys
      → Filled es ys zs
      → Filled (e ∷ es) xs zs

-- The entries of a batch behind its first one.
Filled-first :
    (digest : Digest) (root next_root : String) (acceptance next_acceptance queue next_queue : ℕ)
    (d : Delivery) (ds : List Delivery) (xs ys zs : List Entry)
    → next_root ≡ root
    → next_acceptance ≡ acceptance + 1
    → next_queue ≡ queue + 1
    → Placed (new_entry digest root acceptance queue d) xs ys
    → Filled (new_entries digest next_root next_acceptance next_queue ds) ys zs
    → Filled (new_entries digest root acceptance queue (d ∷ ds)) xs zs
unfolding new_entries
Filled-first digest root next_root acceptance next_acceptance queue next_queue d ds xs ys zs p q r
      first rest =
    one_more first (rw (p, q, r) at rest)

module _ {B : Type 0} (rules : Rules B) where
  -- What accepting a batch does.
  pub record AcceptedAll (document : Document B) (ds : List Delivery) (list : List Acceptance)
      (last : Document B) : Type 0 where
    pub done : accept_each rules document ds ≡ some (list, last)
    pub keeps : IsQueued rules.digest last
    pub in_order : Ordered runtime_before document.runtimes → Ordered runtime_before last.runtimes
    pub filled :
        Filled
          (new_entries rules.digest document.root_instance_id document.next_acceptance_sequence
            document.next_queue_sequence ds)
          (entries_of document.runtimes)
          (entries_of last.runtimes)

  -- If the mailboxes are sound and each delivery of a batch is acceptable, with event identifiers that
  -- differ, the loop of `admit_aggregate_v1` accepts the whole batch: it raises nothing, the mailboxes
  -- are sound after it, runtimes in order stay in order, and the entries after it are the entries
  -- before it with one new entry for each delivery put in, which carry consecutive acceptance and queue
  -- numbers in the order of the batch.
  pub accept_each-AcceptedAll :
      (document : Document B) (ds : List Delivery)
      → IsQueued rules.digest document
      → Distinct (map delivery_id ds)
      → All (IsAcceptable rules.digest document) ds
      → (list : List Acceptance) × (last : Document B) × AcceptedAll document ds list last
  unfolding accept_each new_entries
  accept_each-AcceptedAll document [] q u a =
      ([], document, record { done = refl; keeps = q; in_order = λ o. o; filled = unchanged })
  accept_each-AcceptedAll document (d ∷ ds) q u a =
      let (next, first) = accept_one-AcceptedOne rules document d q a.0 in
      let (list, last, rest) =
        accept_each-AcceptedAll next ds first.keeps u.1 (still ds first u.0 a.1) in
      (
        record {
          event_id = d.envelope.event_id;
          acceptance_sequence = document.next_acceptance_sequence;
          queue_sequence = document.next_queue_sequence;
        }
            ∷ list,
        last,
        record {
          done = rw (first.done, accept_each, rest.done);
          keeps = rest.keeps;
          in_order = λ o. rest.in_order (first.in_order o);
          filled =
              Filled-first rules.digest _ _ _ _ _ _ d ds _ _ _ first.same_root first.next_acceptance
                first.next_queue first.placed rest.filled;
        },
      )
    where
      still :
          {next : Document B} (es : List Delivery)
          → AcceptedOne rules document d next
          → NotIn (delivery_id d) (map delivery_id es)
          → All (IsAcceptable rules.digest document) es
          → All (IsAcceptable rules.digest next) es
      still [] f n b = tt
      still (e ∷ es) f n b = (f.others e (λ p. n.0 (sym p)) b.0, still es f n.1 b.1)
