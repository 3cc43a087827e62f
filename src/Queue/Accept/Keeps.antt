-- ===== src/Queue/Accept/Keeps.antt =====
-- Accepting one delivery keeps the mailboxes sound.
use mathlib.Core.List.{map-append}
use determa_state_python.Prelude.{
  ℕ, ◌<◌, ◌≡◌, refl, sym, ap, ◌∙◌, true, List, [], ◌∷◌, ◌++◌, map, Option, none, some, String, ◌==◌,
  arith, All, some-eq, All-append, All-imp,
}
use determa_state_python.Prelude.Distinct.{NotIn, Distinct, Distinct-insert}
use determa_state_python.Wire.Typed.{decoded_typed_value}
use determa_state_python.Queue.Document.{
  Target, Entry, Delivery, Runtime, Document, runtime_id_for_target,
}
use determa_state_python.Queue.Mailboxes.{
  Digest, entries_of, runtime_entries, entry_id, acceptance_of, queue_of, is_dict,
}
use determa_state_python.Queue.Mailboxes.Valid.{Increasing, Fits, RuntimeFits}
use determa_state_python.Queue.Admit.{find_runtime}
use determa_state_python.Queue.Accept.{append_ready, with_next, new_entry}
use determa_state_python.Queue.Accept.Place.{
  Placed, with_ready, Appended, here, behind, append_ready-Appended,
}

pub Increasing-snoc :
    (prior : Option ℕ) (q : ℕ) (es : List Entry) (e : Entry)
    → Increasing prior (e ∷ [])
    → All (λ (x : Entry). x.queue_sequence < e.queue_sequence) es
    → Increasing prior es
    → Increasing prior (es ++ e ∷ [])
Increasing-snoc prior q [] e n a i = n
Increasing-snoc none q (x ∷ es) e n a i =
    Increasing-snoc (some x.queue_sequence) q es e (a.0, tt) a.1 i
Increasing-snoc (some p) q (x ∷ es) e n a i =
    (i.0, Increasing-snoc (some x.queue_sequence) q es e (a.0, tt) a.1 i.1)

-- The entries `ys`, if `e` is put among the entries `xs` and `f e` is new.
pub Distinct-Placed :
    {A : Type 0} (f : Entry → A) (e : Entry) (xs ys : List Entry)
    → Placed e xs ys
    → NotIn (f e) (map f xs)
    → Distinct (map f xs)
    → Distinct (map f ys)
Distinct-Placed f e xs ys (front, back, p, q) n d =
    rw (q, map-append f front (e ∷ back))
      (Distinct-insert (f e) (map f front) (map f back) (rw (p, map-append f front back) at n)
        (rw (p, map-append f front back) at d))

-- Entries whose numbers lie below `n`.
pub NotIn-below :
    (f : Entry → ℕ) (n : ℕ) (es : List Entry) → All (λ e. f e < n) es → NotIn n (map f es)
NotIn-below f n [] a = tt
NotIn-below f n (e ∷ es) a = ((λ p. omega arith), NotIn-below f n es a.1)

module _ {B : Type 0} (digest : Digest) (document : Document B) where
  pub acceptances_below :
      (rs : List (Runtime B))
      → All (RuntimeFits digest document) rs
      → All (λ e. acceptance_of e < document.next_acceptance_sequence) (entries_of rs)
  acceptances_below [] f = tt
  acceptances_below (r ∷ rs) f =
      All-append _ (runtime_entries r) (entries_of rs)
        (All-append _ r.ready_mailbox r.deferred_mailbox
          (All-imp _ _ (λ e (x : Fits digest document r.target_identity e). x.acceptance_used)
            r.ready_mailbox f.0.ready_fits)
          (All-imp _ _ (λ e (x : Fits digest document r.target_identity e). x.acceptance_used)
            r.deferred_mailbox f.0.deferred_fits))
        (acceptances_below rs f.1)

  pub queues_below :
      (rs : List (Runtime B))
      → All (RuntimeFits digest document) rs
      → All (λ e. queue_of e < document.next_queue_sequence) (entries_of rs)
  queues_below [] f = tt
  queues_below (r ∷ rs) f =
      All-append _ (runtime_entries r) (entries_of rs)
        (All-append _ r.ready_mailbox r.deferred_mailbox
          (All-imp _ _ (λ e (x : Fits digest document r.target_identity e). x.queue_used)
            r.ready_mailbox f.0.ready_fits)
          (All-imp _ _ (λ e (x : Fits digest document r.target_identity e). x.queue_used)
            r.deferred_mailbox f.0.deferred_fits))
        (queues_below rs f.1)

-- What the validation of a delivery establishes.
pub record IsAcceptable {B : Type 0} (digest : Digest) (document : Document B) (d : Delivery)
    : Type 0 where
  pub target : Runtime B
  pub found : find_runtime (runtime_id_for_target d.envelope.target) document.runtimes ≡ some target
  pub addressed : target.target_identity ≡ d.envelope.target
  pub payload_map : is_dict (decoded_typed_value d.envelope.payload) ≡ true
  pub sealed :
      (d.envelope_digest == digest document.root_instance_id d.delivery_mode d.envelope) ≡ true
  pub is_new : NotIn d.envelope.event_id (map entry_id (entries_of document.runtimes))

module _ {B : Type 0} (digest : Digest) (document : Document B) (d : Delivery)
    (after : List (Runtime B)) where
  abbrev pub queued : Entry
  queued =
      new_entry digest document.root_instance_id document.next_acceptance_sequence
        document.next_queue_sequence d

  Fits-grow :
      (t : Target) (e : Entry)
      → Fits digest document t e
      → Fits digest (with_next document after) t e
  Fits-grow t e f = record {
    acceptance_used = omega (arith, f.acceptance_used);
    queue_used = omega (arith, f.queue_used);
    addressed = f.addressed;
    sealed = f.sealed;
    payload_map = f.payload_map;
  }

  RuntimeFits-grow :
      (r : Runtime B)
      → RuntimeFits digest document r
      → RuntimeFits digest (with_next document after) r
  RuntimeFits-grow r f = record {
    ready_fits = All-imp _ _ (Fits-grow r.target_identity) r.ready_mailbox f.ready_fits;
    deferred_fits = All-imp _ _ (Fits-grow r.target_identity) r.deferred_mailbox f.deferred_fits;
    ready_increasing = f.ready_increasing;
    deferred_increasing = f.deferred_increasing;
  }

  RuntimeFits-queued :
      (r : Runtime B)
      → r.target_identity ≡ d.envelope.target
      → is_dict (decoded_typed_value d.envelope.payload) ≡ true
      → RuntimeFits digest document r
      → RuntimeFits digest (with_next document after) (with_ready r queued)
  RuntimeFits-queued r same payload f = record {
    ready_fits =
        All-append _ r.ready_mailbox (queued ∷ [])
          (All-imp _ _ (Fits-grow r.target_identity) r.ready_mailbox f.ready_fits) (fits, tt);
    deferred_fits = All-imp _ _ (Fits-grow r.target_identity) r.deferred_mailbox f.deferred_fits;
    ready_increasing =
        Increasing-snoc none 0 r.ready_mailbox queued tt
          (All-imp _ _ (λ e (x : Fits digest document r.target_identity e). x.queue_used)
            r.ready_mailbox f.ready_fits)
          f.ready_increasing;
    deferred_increasing = f.deferred_increasing;
  }
    where
      fits : Fits digest (with_next document after) r.target_identity queued
      fits = record {
        acceptance_used = omega arith;
        queue_used = omega arith;
        addressed = sym same;
        sealed = refl;
        payload_map = payload;
      }

  runtimes-grow :
      (rs : List (Runtime B))
      → All (RuntimeFits digest document) rs
      → All (RuntimeFits digest (with_next document after)) rs
  runtimes-grow rs = All-imp _ _ RuntimeFits-grow rs

  pub runtimes-queued :
      (k : String) (rs ss : List (Runtime B)) (target : Runtime B)
      → append_ready k queued rs ≡ some ss
      → find_runtime k rs ≡ some target
      → target.target_identity ≡ d.envelope.target
      → is_dict (decoded_typed_value d.envelope.payload) ≡ true
      → All (RuntimeFits digest document) rs
      → All (RuntimeFits digest (with_next document after)) ss
  unfolding find_runtime
  runtimes-queued k [] ss target h f same payload fits = absurd (cc)
  runtimes-queued k (r ∷ rs) ss target h f same payload fits =
      by_place (append_ready-Appended k queued r rs ss h) (runtimes-queued k rs)
    where
      by_place :
          Appended k queued r rs ss
          → ((ts : List (Runtime B)) (t : Runtime B)
              → append_ready k queued rs ≡ some ts
              → find_runtime k rs ≡ some t
              → t.target_identity ≡ d.envelope.target
              → is_dict (decoded_typed_value d.envelope.payload) ≡ true
              → All (RuntimeFits digest document) rs
              → All (RuntimeFits digest (with_next document after)) ts)
          → All (RuntimeFits digest (with_next document after)) ss
      by_place (here y p) later = rw p (
        RuntimeFits-queued r (ap (λ t. t.target_identity) (some-eq (rw y at f)) ∙ same) payload
            fits.0,
        runtimes-grow rs fits.1,
      )
      by_place (behind ts n q p) later =
          rw p (RuntimeFits-grow r fits.0, later ts target q (rw n at f) same payload fits.1)
