-- ===== src/Queue/Step/Accounts.antt =====
-- `step_aggregate_v1` loses no entry.
use mathlib.Core.List.{map-append, append_assoc}
use mathlib.Core.List.Permᴰ as PermD
use mathlib.Core.Path.{subst}
use determa_state_python.Prelude.{
  ◌≡◌, sym, ap, ◌∙◌, ◌⊎◌, inl, inr, Bool, List, [], ◌∷◌, ◌++◌, map, some, String, ◌==◌, eq_iff,
  Bool-cases, some-eq, length,
}
use determa_state_python.Prelude.Outcome.{ok, >>=-eq-ok, or_raise}
use determa_state_python.Prelude.Distinct.{Distinct}
use determa_state_python.Prelude.Permuted.{
  Elem, Elem-map, Elem-append_left, Elem-append_right, Elem-Perm, map-Perm,
}
use determa_state_python.Queue.Document.{Entry, Runtime, Document}
use determa_state_python.Queue.Mailboxes.{Digest, entries_of, runtime_entries, entry_id}
use determa_state_python.Queue.Seal.{seal}
use determa_state_python.Queue.Seal.Keeps.{seal-Perm}
use determa_state_python.Queue.Admit.{find_runtime}
use determa_state_python.Queue.Accept.{root_status}
use determa_state_python.Queue.Lifecycle.{
  Failure, Disposal, Mailboxes, mailbox_maps, held, with_popped, end_mailboxes, is_completed,
}
use determa_state_python.Queue.Emissions.{Emission, Emitted, enqueue_emissions}
use determa_state_python.Queue.Deferrals.{replace_mailboxes, moved}
use determa_state_python.Queue.Step.{
  Engine, Dispatched, StepResult, encode_after_dispatch, runs, step_overflow, step_deferred,
  step_release, step_dispatched, step,
}
use determa_state_python.Queue.Step.Boxes.{id_of, box_entries}
use determa_state_python.Queue.Step.Ends.{disposed_id, HeldBy-Elem, end_mailboxes-kept}
use determa_state_python.Queue.Step.Emits.{Grown, message_ids, entry_ids, enqueue_each-Grown}
use determa_state_python.Queue.Step.Releases.{StillHeld, step_release-StillHeld}
use determa_state_python.Queue.Step.Branches.{
  ResultOf, step_result-ResultOf, Branch, refused, dispatched, overflowed, deferred, step-Branch,
}
use determa_state_python.Queue.Step.Encodes.{
  holder, IsHead, popped_entry, encode-ids, encode-HeldBy,
}

module _ {B : Type 0} where
  pub enqueue_emissions-Grown :
      (digest : Digest) (evidence : Bool) (disposed : _) (document : Document B)
      (es : List Emission) (out : Emitted B)
      → enqueue_emissions digest evidence disposed document es ≡ ok out
      → Grown (message_ids es) document out
  unfolding enqueue_emissions
  enqueue_emissions-Grown digest evidence disposed document es out h =
      let (status, _, last) = >>=-eq-ok (or_raise (root_status document) Failure.missing) _ h in
      enqueue_each-Grown digest evidence (is_completed status) disposed document es out last

  -- Where the entry of an identifier is after a step.
  abbrev pub KeptOrReported : String → StepResult B → Type 0
  KeptOrReported k r =
      Elem k (entry_ids r.state) ⊎ Elem k (map disposed_id r.lifecycle_dispositions)

  replace-kept :
      (k : String) (b : Mailboxes) (e : Entry) (r : Runtime B) (rs : List (Runtime B))
      → Elem r rs
      → Elem e (runtime_entries r)
      → (r.runtime_id ≡ k → Elem e (box_entries b))
      → Elem e (entries_of (replace_mailboxes k b rs))
  unfolding replace_mailboxes
  replace-kept k b e r [] m h f = absurd m
  replace-kept k b e r (s ∷ rs) (inl p) h f = elim (Bool-cases (s.runtime_id == k)) [
    | inl y ↦ rw y (Elem-append_left e _ _ (f (ap id_of p ∙ (eq_iff s.runtime_id k).0 y)))
    | inr n ↦ rw n (Elem-append_left e _ _ (subst (λ x. Elem e (runtime_entries x)) p h))
  ]
  replace-kept k b e r (s ∷ rs) (inr m) h f = elim (Bool-cases (s.runtime_id == k)) [
    | inl y ↦ rw y (Elem-append_right e _ _ (replace-kept k b e r rs m h f))
    | inr n ↦ rw n (Elem-append_right e _ _ (replace-kept k b e r rs m h f))
  ]

Elem-holder :
    {B : Type 0} (e : Entry) (r : Runtime B) (rs : List (Runtime B))
    → Elem r rs
    → Elem e (runtime_entries r)
    → Elem e (entries_of rs)
Elem-holder e r [] m h = absurd m
Elem-holder e r (s ∷ rs) (inl p) h =
    Elem-append_left e _ _ (subst (λ x. Elem e (runtime_entries x)) p h)
Elem-holder e r (s ∷ rs) (inr m) h = Elem-append_right e _ _ (Elem-holder e r rs m h)

-- What a step relies on in the engine: the order of the ends names every runtime, and a fault by
-- overflow removes none.
pub record Complete {B S : Type 0} (engine : Engine B S) (old : S) (before : Document B)
    : Type 0 where
  pub ordered :
      (j : String)
      → Elem j (map id_of before.runtimes)
      → Elem j (engine.lifecycle_runtime_order old)
  pub overflow_keeps :
      (k : String) (e : Entry) (after : Document B)
      → engine.aggregate_envelope (engine.overflow old k e).state ≡ ok after
      → (j : String) → Elem j (map id_of before.runtimes)
      → Elem j (map id_of after.runtimes)

module _ {B S : Type 0} (engine : Engine B S) (evidence : Bool) (old : S) (before : Document B)
    (complete : Complete engine old before) where
  sealed_id :
      (document : Document B) (k : String)
      → Elem k (entry_ids document)
      → Elem k (entry_ids (seal engine.rules document))
  sealed_id document k m =
      Elem-Perm k (map-Perm entry_id (PermD.symm (seal-Perm engine.rules document))) m

  module _ (boxes : List (String × Mailboxes)) (r0 : Runtime B) (e : Entry) (b : Mailboxes)
      (listed : Elem r0 before.runtimes) (here : Elem e (runtime_entries r0))
      (found : held r0.runtime_id boxes ≡ some b) (inside : Elem e (box_entries b)) where
    -- The parts of the branch that neither rejects nor defers
    parts_kept :
        (k : String) (result : Dispatched S) (encoded : Document B)
        (ended : List (Runtime B) × List Disposal) (emitted : Emitted B) (r : StepResult B)
        → encode_after_dispatch engine evidence result.state before boxes ≡ ok encoded
        → end_mailboxes
            (engine.completed result.state)
            boxes
            (engine.lifecycle_runtime_order old)
            encoded.runtimes
          ≡ ok ended
        → Grown (message_ids result.emissions) (record encoded { runtimes = ended.0 }) emitted
        → (released : Document B)
        → StillHeld engine evidence result.state k emitted.document released
        → ResultOf
            (seal engine.rules released)
            result.disposition
            emitted.projected
            (ended.1 ++ emitted.lifecycle)
            r
        → KeptOrReported (entry_id e) r
    parts_kept k result encoded ended emitted r enc loop grown released still out =
        elim (end_mailboxes-kept r0.runtime_id e (engine.completed result.state) boxes b found
          inside (engine.lifecycle_runtime_order old) encoded.runtimes ended
          (encode-HeldBy engine evidence boxes r0.runtime_id b e found inside result.state before
            encoded enc)
          loop) [
            | inl d ↦ inr (
                rw (out.same_lifecycle, map-append disposed_id ended.1 emitted.lifecycle)
                  (Elem-append_left _ _ _ d))
            | inr (now, ids, present) ↦ inl (
                rw out.same_state (
                  sealed_id released (entry_id e) (
                    Elem-Perm (entry_id e) (PermD.symm still.ids) (
                      Elem-map entry_id e (entries_of emitted.document.runtimes) (
                        grown.keeps e (
                          HeldBy-Elem r0.runtime_id e ended.0 now (
                            rw ids (
                              present (
                                complete.ordered r0.runtime_id
                                  (Elem-map id_of r0 before.runtimes listed))))))))))
          ]

    dispatched-kept :
        (k : String) (result : Dispatched S) (r : StepResult B)
        → step_dispatched engine evidence old before boxes k result ≡ ok r
        → KeptOrReported (entry_id e) r
    unfolding step_dispatched
    dispatched-kept k result r h =
        let (encoded, enc, h1) =
          >>=-eq-ok (encode_after_dispatch engine evidence result.state before boxes) _ h in
        let (ended, loop, h2) =
          >>=-eq-ok
            (end_mailboxes (engine.completed result.state) boxes
              (engine.lifecycle_runtime_order old) encoded.runtimes)
            _ h1 in
        let (emitted, emit, last) =
          >>=-eq-ok
            (enqueue_emissions engine.rules.digest evidence (length ended.1)
              (record encoded { runtimes = ended.0 }) result.emissions)
            _ h2 in
        parts_kept k result encoded ended emitted r enc loop
          (enqueue_emissions-Grown engine.rules.digest evidence (length ended.1)
            (record encoded { runtimes = ended.0 }) result.emissions emitted emit)
          (step_release engine evidence result.state k result.disposition
            (runs (find_runtime k encoded.runtimes)) emitted.document)
          (step_release-StillHeld engine evidence result.state k result.disposition
            (runs (find_runtime k encoded.runtimes)) emitted.document)
          (step_result-ResultOf _ _ _ _ _ _ r last)

    overflow_kept :
        (k : String) (x : Entry) (r : StepResult B)
        → step_overflow engine evidence before boxes (engine.overflow old k x) ≡ ok r
        → KeptOrReported (entry_id e) r
    unfolding step_overflow
    overflow_kept k x r h =
        let o = engine.overflow old k x in
        let (encoded, enc, h1) =
          >>=-eq-ok (encode_after_dispatch engine evidence o.state before boxes) _ h in
        let (emitted, emit, last) =
          >>=-eq-ok (enqueue_emissions engine.rules.digest evidence 0 encoded o.emissions) _ h1 in
        let out = step_result-ResultOf _ _ _ _ _ _ r last in
        let grown =
          enqueue_emissions-Grown engine.rules.digest evidence _ _ o.emissions emitted emit in
        let (after, written, ids) = encode-ids engine evidence boxes o.state before encoded enc in
        inl (
          rw out.same_state (
            sealed_id _ _ (
              Elem-map entry_id e _ (
                grown.keeps e (
                  HeldBy-Elem r0.runtime_id e encoded.runtimes
                    (encode-HeldBy engine evidence boxes r0.runtime_id b e found inside o.state
                      before encoded enc)
                    (ids r0.runtime_id (
                      complete.overflow_keeps k x after written r0.runtime_id
                        (Elem-map id_of r0 before.runtimes listed))))))))

    deferred_kept :
        (k : String) (x : Entry) (c : Mailboxes) (r : StepResult B)
        → (r0.runtime_id ≡ k → c ≡ b)
        → step_deferred engine evidence before k x c ≡ ok r
        → KeptOrReported (entry_id e) r
    unfolding step_deferred
    deferred_kept k x c r same h =
        let out = step_result-ResultOf _ _ _ _ _ _ r h in
        inl (
          rw out.same_state (
            sealed_id _ _ (
              Elem-map entry_id e _ (
                replace-kept k _ e r0 before.runtimes listed here (λ p.
                  rw
                    (
                      same p,
                      ← append_assoc b.ready b.deferred (moved before.next_queue_sequence x ∷ []),
                    )
                    (Elem-append_left e (box_entries b) _ inside))))))

  -- Each branch of a step keeps or reports what is not popped.
  Branch-kept :
      (k : String) (r0 : Runtime B) (e : Entry) (b : Mailboxes) (r : StepResult B)
      → Elem r0 before.runtimes
      → Elem e (runtime_entries r0)
      → held r0.runtime_id (with_popped k (mailbox_maps before.runtimes)) ≡ some b
      → Elem e (box_entries b)
      → Branch engine evidence old before k r
      → KeptOrReported (entry_id e) r
  Branch-kept k r0 e b r listed here found inside (refused disposition out why) =
      inl (rw out.same_state (Elem-map entry_id e _ (Elem-holder e r0 before.runtimes listed here)))
  Branch-kept k r0 e b r listed here found inside (dispatched x head n m h) =
      dispatched-kept (with_popped k (mailbox_maps before.runtimes)) r0 e b listed here found inside
        k _ r h
  Branch-kept k r0 e b r listed here found inside (overflowed x head d h) =
      overflow_kept (with_popped k (mailbox_maps before.runtimes)) r0 e b listed here found inside k
        x r h
  Branch-kept k r0 e b r listed here found inside (deferred x c head p d f h) =
      deferred_kept (with_popped k (mailbox_maps before.runtimes)) r0 e b listed here found inside k
        x c r
        (λ q.
          some-eq (
            sym p
            ∙ ap (λ i. held i (with_popped k (mailbox_maps before.runtimes))) (sym q)
            ∙ found))
        h

  -- If the identifiers of the runtimes differ, and the engine orders the ends of all of them and removes
  -- none by an overflow, then a step of `step_aggregate_v1` that returns loses no entry: each entry of a
  -- mailbox is the head of the selected ready mailbox, or an entry with its event identifier is in a
  -- mailbox of the state returned, or a lifecycle disposition of the result reports that identifier.
  pub step-accounted :
      (k : String) (r : StepResult B) (e : Entry)
      → Distinct (map id_of before.runtimes)
      → step engine evidence old before k ≡ ok r
      → Elem e (entries_of before.runtimes)
      → IsHead k before.runtimes e ⊎ KeptOrReported (entry_id e) r
  step-accounted k r e d h m =
      let (r0, listed, here) = holder e before.runtimes m in
      elim (popped_entry k before.runtimes r0 e d listed here) [
        | inl first ↦ inl first
        | inr (b, found, inside) ↦ inr (
            Branch-kept k r0 e b r listed here found inside
              (step-Branch engine evidence old before k r h))
      ]
