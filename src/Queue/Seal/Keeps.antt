-- ===== src/Queue/Seal/Keeps.antt =====
-- Sealing an aggregate loses no entry, and keeps the mailboxes sound.
use mathlib.Core.List.Permᴰ as PermD
use mathlib.Core.List.Permᴰ.{Permᴰ}
use determa_state_python.Prelude.{
  ℕ, refl, List, [], ◌∷◌, ◌++◌, map, Option, none, some, arith, All, All-imp,
}
use mathlib.Core.Path.{subst}
use determa_state_python.Prelude.Sort.{sort_self, Ordered}
use determa_state_python.Prelude.Permuted.{All-Perm, Distinct-Perm, map-Perm, sort-Perm}
use determa_state_python.Queue.Document.{Target, Entry, Runtime, Document}
use determa_state_python.Queue.Mailboxes.{
  runtime_entries, entries_of, entry_id, acceptance_of, queue_of,
}
use determa_state_python.Queue.Mailboxes.Valid.{Increasing, Fits, RuntimeFits, IsQueued}
use determa_state_python.Queue.Seal.{Rules, earlier, runtime_before, seal_runtime, seal}

pub append_swap-Perm : (xs ys zs : List Entry) → Permᴰ (xs ++ (ys ++ zs)) (ys ++ (xs ++ zs))
append_swap-Perm [] ys zs = PermD.refl (ys ++ zs)
append_swap-Perm (x ∷ xs) ys zs =
    PermD.trans (PermD.cons refl (append_swap-Perm xs ys zs))
      (PermD.symm (PermD.middle x ys (xs ++ zs)))

pub append-Perm :
    (xs ys us vs : List Entry) → Permᴰ xs ys → Permᴰ us vs → Permᴰ (xs ++ us) (ys ++ vs)
append-Perm xs ys us vs p q = PermD.trans (PermD.append_right us p) (PermD.append_left ys q)

module _ {B : Type 0} where
  pub entries_of-Perm :
      {rs ss : List (Runtime B)} → Permᴰ rs ss → Permᴰ (entries_of rs) (entries_of ss)
  entries_of-Perm PermD.nil = PermD.nil
  entries_of-Perm (PermD.cons {a = r} {b = s} {l₁ = rs} {l₂ = ss} e p) =
      subst (λ t. Permᴰ (entries_of (r ∷ rs)) (entries_of (t ∷ ss))) e
        (PermD.append_left (runtime_entries r) (entries_of-Perm p))
  entries_of-Perm (PermD.swap {a = r} {b = s} {a' = u} {l = rs} e d) =
      subst (λ t. Permᴰ (entries_of (r ∷ s ∷ rs)) (entries_of (u ∷ t ∷ rs))) e
        (subst (λ t. Permᴰ (entries_of (r ∷ s ∷ rs)) (entries_of (t ∷ r ∷ rs))) d
          (append_swap-Perm (runtime_entries r) (runtime_entries s) (entries_of rs)))
  entries_of-Perm (PermD.trans p q) = PermD.trans (entries_of-Perm p) (entries_of-Perm q)

  module _ (rules : Rules B) where
    sealed_entries-Perm :
        (rs : List (Runtime B)) → Permᴰ (entries_of (map (seal_runtime rules) rs)) (entries_of rs)
    unfolding seal_runtime
    sealed_entries-Perm [] = PermD.nil
    sealed_entries-Perm (r ∷ rs) =
        append-Perm _ _ _ _
          (append-Perm _ _ _ _ (sort-Perm earlier r.ready_mailbox)
            (sort-Perm earlier r.deferred_mailbox))
          (sealed_entries-Perm rs)

    pub seal-Perm :
        (d : Document B) → Permᴰ (entries_of (seal rules d).runtimes) (entries_of d.runtimes)
    unfolding seal
    seal-Perm d =
        PermD.trans
          (entries_of-Perm (sort-Perm runtime_before (map (seal_runtime rules) d.runtimes)))
          (sealed_entries-Perm d.runtimes)

    pub Increasing-Ordered :
        (prior : Option ℕ) (es : List Entry) → Increasing prior es → Ordered earlier es
    Increasing-Ordered prior [] i = tt
    Increasing-Ordered prior (e ∷ []) i = tt
    Increasing-Ordered none (e ∷ f ∷ es) i =
        (ground arith, Increasing-Ordered (some e.queue_sequence) (f ∷ es) i)
    Increasing-Ordered (some q) (e ∷ f ∷ es) i =
        (ground arith, Increasing-Ordered (some e.queue_sequence) (f ∷ es) i.1)

    module _ (d : Document B) where
      sealed-Fits :
          (t : Target) (e : Entry) → Fits rules.digest d t e → Fits rules.digest (seal rules d) t e
      unfolding seal
      sealed-Fits t e f = record {
        acceptance_used = f.acceptance_used;
        queue_used = f.queue_used;
        addressed = f.addressed;
        sealed = f.sealed;
        payload_map = f.payload_map;
      }

      sealed-RuntimeFits :
          (r : Runtime B)
          → RuntimeFits rules.digest d r
          → RuntimeFits rules.digest (seal rules d) (seal_runtime rules r)
      unfolding seal_runtime
      sealed-RuntimeFits r f =
          let ready =
            sort_self earlier r.ready_mailbox
              (Increasing-Ordered none r.ready_mailbox f.ready_increasing) in
          let deferred =
            sort_self earlier r.deferred_mailbox
              (Increasing-Ordered none r.deferred_mailbox f.deferred_increasing) in
          record {
            ready_fits =
                rw ready (All-imp _ _ (sealed-Fits r.target_identity) r.ready_mailbox f.ready_fits);
            deferred_fits =
                rw deferred
                  (All-imp _ _ (sealed-Fits r.target_identity) r.deferred_mailbox f.deferred_fits);
            ready_increasing = rw ready f.ready_increasing;
            deferred_increasing = rw deferred f.deferred_increasing;
          }

      sealed-All :
          (rs : List (Runtime B))
          → All (RuntimeFits rules.digest d) rs
          → All (RuntimeFits rules.digest (seal rules d)) (map (seal_runtime rules) rs)
      sealed-All [] a = tt
      sealed-All (r ∷ rs) a = (sealed-RuntimeFits r a.0, sealed-All rs a.1)

      pub seal-IsQueued : IsQueued rules.digest d → IsQueued rules.digest (seal rules d)
      seal-IsQueued q = record {
        runtimes_fit = fits;
        event_ids_distinct = Distinct-Perm (map-Perm entry_id back) q.event_ids_distinct;
        acceptances_distinct = Distinct-Perm (map-Perm acceptance_of back) q.acceptances_distinct;
        queues_distinct = Distinct-Perm (map-Perm queue_of back) q.queues_distinct;
      }
        where
          back : Permᴰ (entries_of d.runtimes) (entries_of (seal rules d).runtimes)
          back = PermD.symm (seal-Perm d)

          fits : All (RuntimeFits rules.digest (seal rules d)) (seal rules d).runtimes
          fits =
              unfold seal in
              All-Perm (RuntimeFits rules.digest (seal rules d))
                (PermD.symm (sort-Perm runtime_before (map (seal_runtime rules) d.runtimes)))
                (sealed-All d.runtimes q.runtimes_fit)
