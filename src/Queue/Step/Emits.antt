-- ===== src/Queue/Step/Emits.antt =====
-- What `_enqueue_emissions` does to the entries, the counters and the dispositions.
use mathlib.Core.List.{map-append}
use determa_state_python.Prelude.{
  ℕ, ◌+◌, ◌≡◌, refl, sym, ap, ◌⊎◌, inl, inr, Bool, List, [], ◌∷◌, ◌++◌, map, Option, none, some,
  String, arith, length, length-append, All, All-imp, All-append,
}
use determa_state_python.Prelude.Outcome.{ok, >>=-eq-ok, ok-eq, or_raise}
use determa_state_python.Prelude.Permuted.{
  Elem, Elem-map, Elem-append_left, Elem-append_right, Elem-append, Elem-map-imp,
}
use determa_state_python.Wire.Typed.{typed_value}
use determa_state_python.Queue.Document.{Entry, Document}
use determa_state_python.Queue.Mailboxes.{Digest, entries_of, entry_id}
use determa_state_python.Queue.Accept.Place.{Placed, append_ready-Placed}
use determa_state_python.Queue.Lifecycle.{Reason, Attempt}
use determa_state_python.Queue.Emissions.{
  Message, Emission, Projected, Emitted, place_message, enqueue_message, enqueue_one, enqueue_each,
  project_effect, from_artifact, invalid_state,
}
use determa_state_python.Queue.Step.Ends.{disposed_id}

-- The identifiers of the internal emissions, in their order.
unfoldable pub message_ids : List Emission → List String
message_ids [] = []
message_ids (Emission.external e ∷ es) = message_ids es
message_ids (Emission.internal m ∷ es) = m.event_id ∷ message_ids es

message_ids-cons :
    (e : Emission) (es : List Emission)
    → message_ids (e ∷ es) ≡ message_ids (e ∷ []) ++ message_ids es
unfolding message_ids
message_ids-cons (Emission.external e) es = refl
message_ids-cons (Emission.internal m) es = refl

or_raise-eq-ok : {E A : Type 0} (o : Option A) (e : E) (a : A) → or_raise o e ≡ ok a → o ≡ some a
or_raise-eq-ok none e a h = absurd (cc)
or_raise-eq-ok (some b) e a h = ap some (ok-eq h)

Placed-Elem : (e x : Entry) (xs ys : List Entry) → Placed e xs ys → Elem x xs → Elem x ys
Placed-Elem e x xs ys (front, back, p, q) m = rw q (elim (Elem-append x front back (rw p at m)) [
  | inl l ↦ Elem-append_left x front (e ∷ back) l
  | inr r ↦ Elem-append_right x front (e ∷ back) (inr r)
])

Placed-new : (e : Entry) (xs ys : List Entry) → Placed e xs ys → Elem e ys
Placed-new e xs ys (front, back, p, q) = rw q (Elem-append_right e front (e ∷ back) (inl refl))

abbrev pub entry_ids : {B : Type 0} → Document B → List String
entry_ids document = map entry_id (entries_of document.runtimes)

module _ {B : Type 0} where
  -- What emissions with the messages `ids` leave of an aggregate.
  pub record Grown (ids : List String) (document : Document B) (out : Emitted B) : Type 0 where
    pub keeps :
        (e : Entry)
        → Elem e (entries_of document.runtimes)
        → Elem e (entries_of out.document.runtimes)
    pub accounted :
        All (λ k. Elem k (entry_ids out.document) ⊎ Elem k (map disposed_id out.lifecycle)) ids
    pub next_acceptance :
        out.document.next_acceptance_sequence ≡ document.next_acceptance_sequence + length ids
    pub next_queue : out.document.next_queue_sequence ≡ document.next_queue_sequence + length ids

  unchanged-Grown :
      (document : Document B) (projected : List Projected) (out : Emitted B)
      → Path
          (Attempt (Emitted B))
          (ok (record { document = document; projected = projected; lifecycle = [] }))
          (ok out)
      → Grown [] document out
  unchanged-Grown document projected out h = rw (← ok-eq h) (record {
    keeps = λ x n. n;
    accounted = tt;
    next_acceptance = omega arith;
    next_queue = omega arith;
  })

  abbrev both : Emitted B → Emitted B → Emitted B
  both now later = record later {
    projected = now.projected ++ later.projected;
    lifecycle = now.lifecycle ++ later.lifecycle;
  }

  -- The messages `ids` behind the messages `first`.
  chained-Grown :
      (document : Document B) (now later out : Emitted B) (first ids : List String)
      → Path (Attempt (Emitted B)) (ok (both now later)) (ok out)
      → Grown first document now
      → Grown ids now.document later
      → Grown (first ++ ids) document out
  chained-Grown document now later out first ids h a b = rw (← ok-eq h) (record {
    keeps = λ x n. b.keeps x (a.keeps x n);
    accounted = rw (map-append disposed_id now.lifecycle later.lifecycle) (
        All-append _ first ids (All-imp _ _ (λ k m. carried k m) first a.accounted) (
          All-imp _ _ (λ k m. elim m [ inl l ↦ inl l | inr r ↦ inr (Elem-append_right k _ _ r) ])
            ids b.accounted));
    next_acceptance = omega (arith, a.next_acceptance, b.next_acceptance, length-append first ids);
    next_queue = omega (arith, a.next_queue, b.next_queue, length-append first ids);
  })
    where
      carried :
          (k : String)
          → Elem k (entry_ids now.document) ⊎ Elem k (map disposed_id now.lifecycle)
          → Elem k (entry_ids later.document)
            ⊎ Elem k (map disposed_id now.lifecycle ++ map disposed_id later.lifecycle)
      carried k (inl l) = inl (Elem-map-imp entry_id k _ _ b.keeps l)
      carried k (inr r) = inr (Elem-append_left k _ _ r)

  module _ (digest : Digest) where
    place-Grown :
        (disposed : ℕ) (document : Document B) (m : Message) (e : Entry) (reason : Option Reason)
        (out : Emitted B)
        → entry_id e ≡ m.event_id
        → place_message digest disposed document m e reason ≡ ok out
        → Grown (m.event_id ∷ []) document out
    place-Grown disposed document m e none out s h =
        let (rs, appended, last) = >>=-eq-ok _ _ h in
        let place = append_ready-Placed _ e document.runtimes rs (or_raise-eq-ok _ _ rs appended) in
        rw (← ok-eq last) (record {
          keeps = λ x n. Placed-Elem e x _ _ place n;
          accounted = (inl (rw (← s) (Elem-map entry_id e _ (Placed-new e _ _ place))), tt);
          next_acceptance = refl;
          next_queue = refl;
        })
    place-Grown disposed document m e (some reason) out s h = rw (← ok-eq h) (record {
      keeps = λ x n. n;
      accounted = (inr (inl (sym s)), tt);
      next_acceptance = refl;
      next_queue = refl;
    })

    enqueue_one-Grown :
        (evidence root_completed : Bool) (disposed : ℕ) (document : Document B) (e : Emission)
        (out : Emitted B)
        → enqueue_one digest evidence root_completed disposed document e ≡ ok out
        → Grown (message_ids (e ∷ [])) document out
    unfolding enqueue_message message_ids
    enqueue_one-Grown evidence root_completed disposed document (Emission.external e) out h =
        let (p, _, last) = >>=-eq-ok (project_effect evidence e) _ h in
        unchanged-Grown document (p ∷ []) out last
    enqueue_one-Grown evidence root_completed disposed document (Emission.internal m) out h =
        let (p, _, h1) = >>=-eq-ok (or_raise m.provenance invalid_state) _ h in
        let (payload, _, h2) = >>=-eq-ok (from_artifact (typed_value m.payload)) _ h1 in
        place-Grown disposed document m _ _ out refl h2

    -- If the loop of `_enqueue_emissions` returns, every entry of before is still in a mailbox, the event
    -- identifier of each internal emission is that of an entry or of a lifecycle disposition, and both
    -- counters went up by the number of internal emissions.
    pub enqueue_each-Grown :
        (evidence root_completed : Bool) (disposed : ℕ) (document : Document B) (es : List Emission)
        (out : Emitted B)
        → enqueue_each digest evidence root_completed disposed document es ≡ ok out
        → Grown (message_ids es) document out
    unfolding enqueue_each message_ids
    enqueue_each-Grown evidence root_completed disposed document [] out h =
        unchanged-Grown document [] out h
    enqueue_each-Grown evidence root_completed disposed document (e ∷ es) out h =
        let (now, one, h1) = >>=-eq-ok _ _ h in
        let (later, rest, last) = >>=-eq-ok _ _ h1 in
        rw (message_ids-cons e es) (
          chained-Grown document now later out (message_ids (e ∷ [])) (message_ids es) last
            (enqueue_one-Grown evidence root_completed disposed document e now one)
            (enqueue_each-Grown evidence root_completed (disposed + length now.lifecycle)
              now.document es later rest))
