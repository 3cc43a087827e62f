-- ===== src/Queue/Step/Lands.antt =====
-- Where the mailboxes of `step_deferred` are found in the aggregate that it seals.
use mathlib.Core.List.Permᴰ as PermD
use determa_state_python.Prelude.{
  ◌≡◌, ◌≢◌, refl, sym, ap, List, [], ◌∷◌, map, none, some, String, ◌==◌, inl, inr, Bool-cases,
  eq_iff, All,
}
use mathlib.Core.Path.{subst}
use determa_state_python.Prelude.Distinct.{Distinct}
use determa_state_python.Prelude.Sort.{sort_self}
use determa_state_python.Prelude.Permuted.{
  Elem, Elem-map, Elem-Perm, Distinct-Perm, map-Perm, sort-Perm,
}
use determa_state_python.Queue.Document.{Runtime, Document}
use determa_state_python.Queue.Mailboxes.Valid.{RuntimeFits}
use determa_state_python.Queue.Seal.{Rules, seal, seal_runtime, earlier, runtime_before}
use determa_state_python.Queue.Seal.Keeps.{Increasing-Ordered}
use determa_state_python.Queue.Admit.{find_runtime}
use determa_state_python.Queue.Lifecycle.{Mailboxes}
use determa_state_python.Queue.Deferrals.{replace_mailboxes, put_mailboxes}
use determa_state_python.Queue.Step.Boxes.{id_of, differ_eq}
use determa_state_python.Queue.Step.Encodes.{find_runtime_self}

All-Elem : {A : Type 0} (P : A → Type 0) (a : A) (xs : List A) → All P xs → Elem a xs → P a
All-Elem P a [] p m = absurd m
All-Elem P a (x ∷ xs) p (inl q) = subst P (sym q) p.0
All-Elem P a (x ∷ xs) p (inr m) = All-Elem P a xs p.1 m

module _ {B : Type 0} (k : String) (b : Mailboxes) where
  pub replace-ids : (rs : List (Runtime B)) → map id_of (replace_mailboxes k b rs) ≡ map id_of rs
  unfolding replace_mailboxes
  replace-ids [] = refl
  replace-ids (r ∷ rs) = elim (Bool-cases (r.runtime_id == k)) [
    | inl y ↦ rw y (ap (◌∷◌ r.runtime_id) (replace-ids rs))
    | inr n ↦ rw n (ap (◌∷◌ r.runtime_id) (replace-ids rs))
  ]

  -- The runtime selected is in the list with the new mailboxes.
  pub replaced_target :
      (s : Runtime B) (rs : List (Runtime B))
      → s.runtime_id ≡ k
      → Elem s rs
      → Elem (put_mailboxes b s) (replace_mailboxes k b rs)
  unfolding replace_mailboxes
  replaced_target s [] p m = absurd m
  replaced_target s (r ∷ rs) p (inl q) = rw (← q, (eq_iff s.runtime_id k).1 p) (inl refl)
  replaced_target s (r ∷ rs) p (inr m) = elim (Bool-cases (r.runtime_id == k)) [
    | inl y ↦ rw y (inr (replaced_target s rs p m))
    | inr n ↦ rw n (inr (replaced_target s rs p m))
  ]

  -- Every other runtime is in it as it was.
  pub replaced_other :
      (s : Runtime B) (rs : List (Runtime B))
      → s.runtime_id ≢ k
      → Elem s rs
      → Elem s (replace_mailboxes k b rs)
  unfolding replace_mailboxes
  replaced_other s [] p m = absurd m
  replaced_other s (r ∷ rs) p (inl q) = rw (← q, differ_eq s.runtime_id k p) (inl refl)
  replaced_other s (r ∷ rs) p (inr m) = elim (Bool-cases (r.runtime_id == k)) [
    | inl y ↦ rw y (inr (replaced_other s rs p m))
    | inr n ↦ rw n (inr (replaced_other s rs p m))
  ]

-- A list of runtimes has the mailboxes of `s` under its identifier.
pub record Holds {B : Type 0} (s : Runtime B) (rs : List (Runtime B)) : Type 0 where
  pub holder : Runtime B
  pub found : find_runtime s.runtime_id rs ≡ some holder
  pub ready : holder.ready_mailbox ≡ s.ready_mailbox
  pub deferred : holder.deferred_mailbox ≡ s.deferred_mailbox

module _ {B : Type 0} (rules : Rules B) (d : Document B) where
  sealed_ids : (rs : List (Runtime B)) → map id_of (map (seal_runtime rules) rs) ≡ map id_of rs
  unfolding seal_runtime
  sealed_ids [] = refl
  sealed_ids (r ∷ rs) = ap (◌∷◌ r.runtime_id) (sealed_ids rs)

  sealed_found :
      (s : Runtime B)
      → Distinct (map id_of d.runtimes)
      → Elem s d.runtimes
      → find_runtime s.runtime_id (seal rules d).runtimes ≡ some (seal_runtime rules s)
  unfolding seal seal_runtime
  sealed_found s distinct m =
      let order = PermD.symm (sort-Perm runtime_before (map (seal_runtime rules) d.runtimes)) in
      find_runtime_self (seal_runtime rules s) (seal rules d).runtimes
        (Distinct-Perm (map-Perm id_of order) (rw (sealed_ids d.runtimes) distinct))
        (Elem-Perm (seal_runtime rules s) order (Elem-map (seal_runtime rules) s d.runtimes m))

  -- The mailboxes of a runtime that are in order are found again when the aggregate is sealed.
  pub seal-Holds :
      (s : Runtime B)
      → Distinct (map id_of d.runtimes)
      → All (RuntimeFits rules.digest d) d.runtimes
      → Elem s d.runtimes
      → Holds s (seal rules d).runtimes
  unfolding seal_runtime
  seal-Holds s distinct fit m =
      let fits = All-Elem (RuntimeFits rules.digest d) s d.runtimes fit m in
      record {
        holder = seal_runtime rules s;
        found = sealed_found s distinct m;
        ready =
            sort_self earlier s.ready_mailbox
              (Increasing-Ordered rules none s.ready_mailbox fits.ready_increasing);
        deferred =
            sort_self earlier s.deferred_mailbox
              (Increasing-Ordered rules none s.deferred_mailbox fits.deferred_increasing);
      }
