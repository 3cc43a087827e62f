-- ===== src/Ownership/Ends.antt =====
-- The loops over owners end.
use determa_state_python.Prelude.{
  ℕ, zero, suc, ◌<◌, ◌≤◌, String, ◌≡◌, ◌≢◌, inl, inr, Bool, true, false, List, [], ◌∷◌, Option,
  none, some, ◌==◌, eq_iff, arith, length, Bool-cases, Option-cases, if◌then◌else◌,
}
use determa_state_python.Prelude.Distinct.{contains}
use determa_state_python.Codes.DispatchRejectionCode.{DispatchRejectionCode}
use determa_state_python.Queue.Document.{Status}
use determa_state_python.Ownership.{
  EngineRuntime, runtime_at, cycle_from, ownership_cycle, owned_from, owns_descendant, blocked_from,
  is_faulted, by_status, target_eligibility,
}

-- How many runtimes have not been seen.
abbrev unseen : List String → List EngineRuntime → ℕ
unseen seen [] = 0
unseen seen (r ∷ rs) =
    if contains ◌==◌ seen r.runtime_id then unseen seen rs else suc (unseen seen rs)

unseen-le :
    (o : String) (seen : List String) (rs : List EngineRuntime)
    → unseen (o ∷ seen) rs ≤ unseen seen rs
unseen-le o seen [] = omega arith
unseen-le o seen (r ∷ rs) = ground (arith, unseen-le o seen rs)

-- A runtime that is found and new makes fewer.
unseen-lt :
    (o : String) (seen : List String) (rs : List EngineRuntime) (r : EngineRuntime)
    → runtime_at o rs ≡ some r
    → contains ◌==◌ seen o ≡ false
    → unseen (o ∷ seen) rs < unseen seen rs
unfolding runtime_at
unseen-lt o seen [] r f n = absurd (cc)
unseen-lt o seen (s ∷ rs) r f n = elim (Bool-cases (s.runtime_id == o)) [
  | inl y ↦ rw (y, (eq_iff s.runtime_id o).0 y, n) (omega (arith, unseen-le o seen rs))
  | inr m ↦
      let later : unseen (o ∷ seen) rs < unseen seen rs = unseen-lt o seen rs r (rw m at f) n in
      rw m (by_seen (contains ◌==◌ seen s.runtime_id) later)
]
  where
    by_seen :
        (c : Bool)
        → unseen (o ∷ seen) rs < unseen seen rs
        → (if c then unseen (o ∷ seen) rs else suc (unseen (o ∷ seen) rs))
          < (if c then unseen seen rs else suc (unseen seen rs))
    by_seen true l = l
    by_seen false l = omega (arith, l)

pub unseen_bound : (seen : List String) (rs : List EngineRuntime) → unseen seen rs ≤ length rs
unseen_bound seen [] = omega arith
unseen_bound seen (r ∷ rs) = ground (arith, unseen_bound seen rs)

module _ (runtimes : List EngineRuntime) where
  cycle_from-some :
      (n : ℕ) (seen : List String) (o : Option String)
      → unseen seen runtimes < n
      → cycle_from runtimes n seen o ≢ none
  unfolding cycle_from
  cycle_from-some n seen none h e = absurd (cc)
  cycle_from-some zero seen (some o) h e = absurd (omega arith)
  cycle_from-some (suc n) seen (some o) h e = elim (Bool-cases (contains ◌==◌ seen o)) [
    | inl y ↦ absurd (some_none (rw y at e))
    | inr f ↦ elim (Option-cases (runtime_at o runtimes)) [
      | inl p ↦ absurd (some_none (rw (f, p) at e))
      | inr (owner, p) ↦
          cycle_from-some n (o ∷ seen) owner.owner_runtime_id
            (omega (arith, h, unseen-lt o seen runtimes owner p f)) (rw (f, p) at e)
    ]
  ]
    where
      some_none : {b : Bool} → some b ≢ none
      some_none q = absurd (cc)

  -- Without a cycle, the other loops end in as many steps.
  pub loops_end :
      (n : ℕ) (seen : List String) (o : Option String) (k : String)
      → cycle_from runtimes n seen o ≡ some false
      → (owned_from runtimes n k o ≢ none) × (blocked_from runtimes n o ≢ none)
  unfolding cycle_from owned_from blocked_from
  loops_end n seen none k h = ((λ e. cc), (λ e. cc))
  loops_end zero seen (some o) k h = absurd (cc)
  loops_end (suc n) seen (some o) k h = elim (Option-cases (runtime_at o runtimes)) [
    | inl p ↦ (missing p, (λ e. some_none (rw (blocked_from, p) at e)))
    | inr (owner, p) ↦ elim (Bool-cases (contains ◌==◌ seen o)) [
      | inl y ↦ absurd (true_false (rw y at h))
      | inr f ↦
          let (owned, blocked) = loops_end n (o ∷ seen) owner.owner_runtime_id k (rw (f, p) at h) in
          (stepped p owned, faulted p blocked)
    ]
  ]
    where
      some_none : {b : Bool} → some b ≢ none
      some_none q = absurd (cc)

      true_false : some true ≢ some false
      true_false q = absurd (cc)

      missing : runtime_at o runtimes ≡ none → owned_from runtimes (suc n) k (some o) ≢ none
      missing p e = elim (Bool-cases (o == k)) [
        | inl y ↦ some_none (rw y at e)
        | inr f ↦ some_none (rw (f, p) at e)
      ]

      stepped :
          {owner : EngineRuntime}
          → runtime_at o runtimes ≡ some owner
          → owned_from runtimes n k owner.owner_runtime_id ≢ none
          → owned_from runtimes (suc n) k (some o) ≢ none
      stepped p owned e = elim (Bool-cases (o == k)) [
        | inl y ↦ some_none (rw y at e)
        | inr f ↦ owned (rw (f, p) at e)
      ]

      faulted :
          {owner : EngineRuntime}
          → runtime_at o runtimes ≡ some owner
          → blocked_from runtimes n owner.owner_runtime_id ≢ none
          → blocked_from runtimes (suc n) (some o) ≢ none
      faulted {owner} p blocked e = elim (Bool-cases (is_faulted owner.status)) [
        | inl y ↦ some_none (rw (blocked_from, p, y) at e)
        | inr f ↦ blocked (rw (blocked_from, p, f) at e)
      ]

  by_status-some :
      (n : ℕ) (r : EngineRuntime) (status : Status)
      → blocked_from runtimes n r.owner_runtime_id ≢ none
      → by_status runtimes n r status ≢ none
  unfolding by_status
  by_status-some n r Status.running ends e =
      elim (Option-cases (blocked_from runtimes n r.owner_runtime_id)) [
        | inl p ↦ ends p
        | inr (b, p) ↦ some_none (rw p at e)
      ]
    where
      some_none : {c : Option DispatchRejectionCode} → some c ≢ none
      some_none q = absurd (cc)
  by_status-some n r Status.completed ends e = absurd (cc)
  by_status-some n r Status.faulted ends e = absurd (cc)

  -- One step more than there are runtimes is enough for the test of a cycle, and if it finds none, also
  -- for `owns_descendant` and for the owners that `_target_eligibility` looks at.
  pub ownership_cycle_ends :
      (r : EngineRuntime)
      → (ownership_cycle runtimes (suc (length runtimes)) r ≢ none)
        × (ownership_cycle runtimes (suc (length runtimes)) r ≡ some false
            → ((owner : EngineRuntime)
                → owns_descendant runtimes (suc (length runtimes)) owner r ≢ none)
              × (target_eligibility runtimes (suc (length runtimes)) r ≢ none))
  unfolding ownership_cycle owns_descendant target_eligibility
  ownership_cycle_ends r = (
    cycle_from-some (suc (length runtimes)) (r.runtime_id ∷ []) r.owner_runtime_id
        (omega (arith, unseen_bound (r.runtime_id ∷ []) runtimes)),
    λ h. (
      (λ owner.
          (loops_end (suc (length runtimes)) (r.runtime_id ∷ []) r.owner_runtime_id owner.runtime_id
            h).0),
      by_status-some (suc (length runtimes)) r r.status
          (loops_end (suc (length runtimes)) (r.runtime_id ∷ []) r.owner_runtime_id "" h).1,
    ),
  )
