-- ===== src/Queue/Step/Defers.antt =====
-- A deferral of `step_aggregate_v1` moves one entry to the end of the deferred mailbox.
use mathlib.Core.List.Permᴰ as PermD
use mathlib.Core.List.Permᴰ.{Permᴰ}
use mathlib.Core.List.{append_assoc}
use mathlib.Core.Path.{subst}
use determa_state_python.Prelude.{
  ℕ, ◌+◌, ◌<◌, ◌≡◌, refl, sym, ap, ◌∙◌, List, [], ◌∷◌, ◌++◌, map, none, some, String, ◌==◌, arith,
  eq_iff, some-eq, Bool-cases, inl, inr, All, All-append, All-imp,
}
use determa_state_python.Prelude.Distinct.{NotIn, Distinct}
use determa_state_python.Prelude.Permuted.{Elem, map-Perm, All-Perm, Distinct-Perm}
use determa_state_python.Queue.Document.{Target, Entry, Runtime, Document}
use determa_state_python.Queue.Mailboxes.{
  Digest, entries_of, runtime_entries, entry_id, acceptance_of, queue_of,
}
use determa_state_python.Queue.Mailboxes.Valid.{Increasing, Fits, RuntimeFits, IsQueued}
use determa_state_python.Queue.Admit.{find_runtime}
use determa_state_python.Queue.Accept.Keeps.{Increasing-snoc, NotIn-below, queues_below}
use determa_state_python.Queue.Lifecycle.{Mailboxes}
use determa_state_python.Queue.Deferrals.{replace_mailboxes, put_mailboxes, moved}
use determa_state_python.Queue.Step.Encodes.{find_runtime_self}
use determa_state_python.Queue.Step.Boxes.{id_of, differ_eq}

module _ {B : Type 0} (k : String) (b : Mailboxes) where
  replace_absent : (rs : List (Runtime B)) → NotIn k (map id_of rs) → replace_mailboxes k b rs ≡ rs
  unfolding replace_mailboxes
  replace_absent [] n = refl
  replace_absent (r ∷ rs) n =
      rw (differ_eq r.runtime_id k (λ q. n.0 (sym q))) (ap (◌∷◌ r) (replace_absent rs n.1))

  replace_All :
      (P Q : Runtime B → Type 0) (rs : List (Runtime B))
      → ((r : Runtime B) → P r → Q r)
      → ((r : Runtime B) → Elem r rs → r.runtime_id ≡ k → P r → Q (put_mailboxes b r))
      → All P rs
      → All Q (replace_mailboxes k b rs)
  unfolding replace_mailboxes
  replace_All P Q [] f g a = tt
  replace_All P Q (r ∷ rs) f g a = elim (Bool-cases (r.runtime_id == k)) [
    | inl y ↦ rw y (
      g r (inl refl) ((eq_iff r.runtime_id k).0 y) a.0,
      replace_All P Q rs f (λ s m. g s (inr m)) a.1,
    )
    | inr n ↦ rw n (f r a.0, replace_All P Q rs f (λ s m. g s (inr m)) a.1)
  ]

-- The entries of a mailbox, behind one of them that was moved and in front of it.
moved-Perm :
    (m : Entry) (rest deferred : List Entry)
    → Permᴰ (rest ++ (deferred ++ m ∷ [])) (m ∷ (rest ++ deferred))
moved-Perm m rest deferred =
    subst (λ l. Permᴰ l (m ∷ (rest ++ deferred))) (append_assoc rest deferred (m ∷ []))
      (PermD.trans (PermD.append_comm (rest ++ deferred) (m ∷ [])) (PermD.refl _))

abbrev pub box_after : Entry → ℕ → List Entry → List Entry → Mailboxes
box_after x queue rest deferred = record { ready = rest; deferred = deferred ++ moved queue x ∷ [] }

module _ {B : Type 0} (k : String) (x : Entry) (queue : ℕ) where
  -- The entries apart from the one that moves.
  pub replaced-Perm :
      (t : Runtime B) (rest : List Entry) (rs : List (Runtime B))
      → Distinct (map id_of rs)
      → find_runtime k rs ≡ some t
      → t.ready_mailbox ≡ x ∷ rest
      → (others : List Entry) × Permᴰ (entries_of rs) (x ∷ others)
        × Permᴰ
            (entries_of (replace_mailboxes k (box_after x queue rest t.deferred_mailbox) rs))
            (moved queue x ∷ others)
  unfolding find_runtime replace_mailboxes
  replaced-Perm t rest [] d f p = absurd (cc)
  replaced-Perm t rest (r ∷ rs) d f p = elim (Bool-cases (r.runtime_id == k)) [
    | inl y ↦ by_target (some-eq (rw y at f)) ((eq_iff r.runtime_id k).0 y)
    | inr n ↦
        let (others, before, after) = replaced-Perm t rest rs d.1 (rw n at f) p in
        (
          runtime_entries r ++ others,
          PermD.trans (PermD.append_left (runtime_entries r) before)
              (PermD.middle x (runtime_entries r) others),
          rw n (
              PermD.trans (PermD.append_left (runtime_entries r) after)
                (PermD.middle (moved queue x) (runtime_entries r) others)),
        )
  ]
    where
      by_target :
          r ≡ t
          → r.runtime_id ≡ k
          → (others : List Entry) × Permᴰ (entries_of (r ∷ rs)) (x ∷ others)
            × Permᴰ
                (entries_of
                  (replace_mailboxes k (box_after x queue rest t.deferred_mailbox) (r ∷ rs)))
                (moved queue x ∷ others)
      by_target same is_k = (
        rest ++ t.deferred_mailbox ++ entries_of rs,
        rw (ap runtime_entries same, p) (PermD.refl _),
        rw
            (
              (eq_iff r.runtime_id k).1 is_k,
              replace_absent k (box_after x queue rest t.deferred_mailbox) rs
                  (subst (λ i. NotIn i (map id_of rs)) is_k d.0),
            )
            (PermD.append_right (entries_of rs)
              (moved-Perm (moved queue x) rest t.deferred_mailbox)),
      )

module _ {B : Type 0} (digest : Digest) (before : Document B) (k : String) (x : Entry)
    (t : Runtime B) (rest : List Entry) (differ : Distinct (map id_of before.runtimes))
    (found : find_runtime k before.runtimes ≡ some t) (first : t.ready_mailbox ≡ x ∷ rest) where
  -- The aggregate of `step_deferred` before it is sealed
  abbrev pub after_deferral : Document B
  after_deferral = record before {
    next_queue_sequence = before.next_queue_sequence + 1;
    runtimes =
        replace_mailboxes k (box_after x before.next_queue_sequence rest t.deferred_mailbox)
          before.runtimes;
  }

  Fits-deferral :
      (target : Target) (e : Entry)
      → Fits digest before target e
      → Fits digest after_deferral target e
  Fits-deferral target e f = record {
    acceptance_used = f.acceptance_used;
    queue_used = omega (arith, f.queue_used);
    addressed = f.addressed;
    sealed = f.sealed;
    payload_map = f.payload_map;
  }

  RuntimeFits-other :
      (r : Runtime B) → RuntimeFits digest before r → RuntimeFits digest after_deferral r
  RuntimeFits-other r f = record {
    ready_fits = All-imp _ _ (Fits-deferral r.target_identity) r.ready_mailbox f.ready_fits;
    deferred_fits =
        All-imp _ _ (Fits-deferral r.target_identity) r.deferred_mailbox f.deferred_fits;
    ready_increasing = f.ready_increasing;
    deferred_increasing = f.deferred_increasing;
  }

  Increasing-rest : (e : Entry) (es : List Entry) → Increasing none (e ∷ es) → Increasing none es
  Increasing-rest e [] i = tt
  Increasing-rest e (f ∷ es) i = i.1

  moved-Fits :
      (target : Target)
      → Fits digest before target x
      → Fits digest after_deferral target (moved before.next_queue_sequence x)
  moved-Fits target f = record {
    acceptance_used = f.acceptance_used;
    queue_used = omega arith;
    addressed = f.addressed;
    sealed = f.sealed;
    payload_map = f.payload_map;
  }

  RuntimeFits-target :
      RuntimeFits digest before t
      → RuntimeFits digest after_deferral
          (put_mailboxes (box_after x before.next_queue_sequence rest t.deferred_mailbox) t)
  RuntimeFits-target f =
      let ready = subst (All (Fits digest before t.target_identity)) first f.ready_fits in
      record {
        ready_fits = All-imp _ _ (Fits-deferral t.target_identity) rest ready.1;
        deferred_fits =
            All-append _ t.deferred_mailbox (moved before.next_queue_sequence x ∷ [])
              (All-imp _ _ (Fits-deferral t.target_identity) t.deferred_mailbox f.deferred_fits)
              (moved-Fits t.target_identity ready.0, tt);
        ready_increasing =
            Increasing-rest x rest (subst (Increasing none) first f.ready_increasing);
        deferred_increasing =
            Increasing-snoc none 0 t.deferred_mailbox (moved before.next_queue_sequence x) tt
              (All-imp _ _ (λ e (f : Fits digest before t.target_identity e). f.queue_used)
                t.deferred_mailbox f.deferred_fits)
              f.deferred_increasing;
      }

  pub after_deferral-IsQueued : IsQueued digest before → IsQueued digest after_deferral
  after_deferral-IsQueued q =
      let (others, old, new) =
        replaced-Perm k x before.next_queue_sequence t rest before.runtimes differ found first in
      let below =
        All-Perm (λ e. queue_of e < before.next_queue_sequence) old
          (queues_below digest before before.runtimes q.runtimes_fit) in
      record {
        runtimes_fit =
            replace_All k (box_after x before.next_queue_sequence rest t.deferred_mailbox)
              (RuntimeFits digest before) (RuntimeFits digest after_deferral) before.runtimes
              RuntimeFits-other
              (λ r m is_k f.
                let same = some-eq (
                  sym found
                  ∙ ap (λ i. find_runtime i before.runtimes) (sym is_k)
                  ∙ find_runtime_self r before.runtimes differ m) in
                subst
                  (λ s. RuntimeFits digest after_deferral (
                    put_mailboxes (box_after x before.next_queue_sequence rest t.deferred_mailbox)
                      s))
                  same (RuntimeFits-target (subst (RuntimeFits digest before) (sym same) f)))
              q.runtimes_fit;
        event_ids_distinct =
            Distinct-Perm (PermD.symm (map-Perm entry_id new))
              (Distinct-Perm (map-Perm entry_id old) q.event_ids_distinct);
        acceptances_distinct =
            Distinct-Perm (PermD.symm (map-Perm acceptance_of new))
              (Distinct-Perm (map-Perm acceptance_of old) q.acceptances_distinct);
        queues_distinct = Distinct-Perm (PermD.symm (map-Perm queue_of new)) (
          NotIn-below queue_of before.next_queue_sequence others below.1,
          (Distinct-Perm (map-Perm queue_of old) q.queues_distinct).1,
        );
      }
