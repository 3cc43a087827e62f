-- ===== src/Queue/Step/Indexes.antt =====
-- The indexes of lifecycle dispositions that `_enqueue_emissions` reports.
use mathlib.Core.List.{append_assoc}
use mathlib.Core.Path.{subst}
use determa_state_python.Prelude.{
  ◌+◌, ◌≡◌, refl, Bool, List, [], ◌∷◌, ◌++◌, Option, none, some, length, length-append, get_elem?,
  All, All-append,
}
use determa_state_python.Prelude.Outcome.{ok, >>=-eq-ok, ok-eq, or_raise}
use determa_state_python.Wire.Typed.{typed_value}
use determa_state_python.Queue.Document.{Entry, Document, runtime_id_for_target}
use determa_state_python.Queue.Mailboxes.{Digest, entry_id}
use determa_state_python.Queue.Accept.{append_ready}
use determa_state_python.Queue.Lifecycle.{Failure, Attempt, Disposal, Reason, lifecycle_disposition}
use determa_state_python.Queue.Emissions.{
  Message, Effect, count_up, Emission, evidence, Projected, Emitted, place_message, enqueue_message,
  enqueue_one, enqueue_each, project_effect, from_artifact, invalid_state,
}

-- A report of a disposal points to the disposition of its own entry.
abbrev pub PointsInto : List Disposal → Projected → Type 0
PointsInto ds (Projected.external_effect e) = Unit
PointsInto ds (Projected.internal_mailbox index event_id acceptance queue) = Unit
PointsInto ds (Projected.internal_disposed index event_id acceptance at) =
    (d : Disposal) × (get_elem? ds at ≡ some d)
    × (d.event_id ≡ event_id)
    × (d.acceptance_sequence ≡ acceptance)

get_elem?-behind :
    (front : List Disposal) (d : Disposal) (back : List Disposal)
    → get_elem? (front ++ d ∷ back) (length front) ≡ some d
get_elem?-behind [] d back = refl
get_elem?-behind (x ∷ front) d back = get_elem?-behind front d back

effect-PointsInto :
    (ds : List Disposal) (shown : Bool) (e : Effect) (p : Projected)
    → project_effect shown e ≡ ok p
    → PointsInto ds p
effect-PointsInto ds shown e p h =
    let (payload, _, h1) = >>=-eq-ok (from_artifact (typed_value e.payload)) _ h in
    let (index, _, last) = >>=-eq-ok (evidence shown e.provenance) _ h1 in
    subst (PointsInto ds) (ok-eq last) tt

module _ {B : Type 0} (digest : Digest) where
  -- One emission, with what follows its dispositions.
  abbrev Pointing : List Disposal → Emitted B → Type 0
  Pointing front out =
      (back : List Disposal) → All (PointsInto (front ++ (out.lifecycle ++ back))) out.projected

  reported :
      (front back : List Disposal) (document : Document B) (ps : List Projected)
      (ls : List Disposal) (out : Emitted B)
      → Path
          (Attempt (Emitted B))
          (ok (record { document = document; projected = ps; lifecycle = ls }))
          (ok out)
      → All (PointsInto (front ++ (ls ++ back))) ps
      → All (PointsInto (front ++ (out.lifecycle ++ back))) out.projected
  reported front back document ps ls out h a = rw (← ok-eq h) a

  place-Pointing :
      (front : List Disposal) (document : Document B) (m : Message) (e : Entry)
      (reason : Option Reason) (out : Emitted B)
      → entry_id e ≡ m.event_id
      → place_message digest (length front) document m e reason ≡ ok out
      → Pointing front out
  place-Pointing front document m e none out s h back =
      let (rs, _, last) =
        >>=-eq-ok
          (or_raise (append_ready (runtime_id_for_target m.target) e document.runtimes)
            Failure.missing)
          _ h in
      reported front back (count_up digest document rs)
        (Projected.internal_mailbox m.emission_index m.event_id e.acceptance_sequence
            e.queue_sequence
          ∷ [])
        [] out last (tt, tt)
  place-Pointing front document m e (some reason) out s h back =
      reported front back (count_up digest document document.runtimes)
        (Projected.internal_disposed m.emission_index m.event_id e.acceptance_sequence
            (length front)
          ∷ [])
        (lifecycle_disposition (runtime_id_for_target m.target) reason e ∷ []) out h
        (
          (
            lifecycle_disposition (runtime_id_for_target m.target) reason e,
            get_elem?-behind front (lifecycle_disposition (runtime_id_for_target m.target) reason e)
                back,
            s,
            refl,
          ),
          tt,
        )

  enqueue_one-Pointing :
      (shown root_completed : Bool) (front : List Disposal) (document : Document B) (e : Emission)
      (out : Emitted B)
      → enqueue_one digest shown root_completed (length front) document e ≡ ok out
      → Pointing front out
  unfolding enqueue_message
  enqueue_one-Pointing shown root_completed front document (Emission.external e) out h back =
      let (p, made, last) = >>=-eq-ok (project_effect shown e) _ h in
      reported front back document (p ∷ []) [] out last
        (effect-PointsInto (front ++ back) shown e p made, tt)
  enqueue_one-Pointing shown root_completed front document (Emission.internal m) out h back =
      let (p, _, h1) = >>=-eq-ok (or_raise m.provenance invalid_state) _ h in
      let (payload, _, h2) = >>=-eq-ok (from_artifact (typed_value m.payload)) _ h1 in
      place-Pointing front document m _ _ out refl h2 back

  -- If the loop of `_enqueue_emissions` starts with the dispositions `front` and returns, then the index
  -- that each disposed emission reports is, in `front` with the dispositions added behind it, that of a
  -- disposition with the emission's event identifier and acceptance number.
  pub enqueue_each-PointsInto :
      (shown root_completed : Bool) (front : List Disposal) (document : Document B)
      (es : List Emission) (out : Emitted B)
      → enqueue_each digest shown root_completed (length front) document es ≡ ok out
      → All (PointsInto (front ++ out.lifecycle)) out.projected
  unfolding enqueue_each
  enqueue_each-PointsInto shown root_completed front document [] out h = rw (← ok-eq h) tt
  enqueue_each-PointsInto shown root_completed front document (e ∷ es) out h =
      let (now, one, h1) =
        >>=-eq-ok (enqueue_one digest shown root_completed (length front) document e) _ h in
      let (later, rest, last) =
        >>=-eq-ok
          (enqueue_each digest shown root_completed (length front + length now.lifecycle)
            now.document es)
          _ h1 in
      joined now later last
        (enqueue_one-Pointing shown root_completed front document e now one later.lifecycle)
        (enqueue_each-PointsInto shown root_completed (front ++ now.lifecycle) now.document es later
          (rw (length-append front now.lifecycle) rest))
    where
      joined :
          (now later : Emitted B)
          → Path
              (Attempt (Emitted B))
              (ok (record later {
                projected = now.projected ++ later.projected;
                lifecycle = now.lifecycle ++ later.lifecycle;
              }))
              (ok out)
          → All (PointsInto (front ++ (now.lifecycle ++ later.lifecycle))) now.projected
          → All (PointsInto (front ++ now.lifecycle ++ later.lifecycle)) later.projected
          → All (PointsInto (front ++ out.lifecycle)) out.projected
      joined now later last a b = rw (← ok-eq last) (
          All-append _ now.projected later.projected a (
            subst (λ ds. All (PointsInto ds) later.projected)
              (append_assoc front now.lifecycle later.lifecycle) b))
