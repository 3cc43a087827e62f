-- ===== src/States/Deferred.antt =====
-- Which state decides that an event is deferred.
use determa_state_python.Prelude.{
  ◌≡◌, ◌↔◌, refl, ap, Bool, true, false, List, [], ◌∷◌, ◌++◌, All, Bool-cases, inl, inr,
}
use determa_state_python.States.{
  StateNode, root_state, self_and_ancestors, starting_state, deferred_from, structurally_deferred,
}

module _ (handles defers : StateNode → Bool) where
  -- A state among `ns` defers the event and does not handle it, and no state in front of it does either.
  pub record DeferredIn (ns : List StateNode) : Type 0 where
    pub inner : List StateNode
    pub deferring : StateNode
    pub outer : List StateNode
    pub chain : ns ≡ inner ++ deferring ∷ outer
    pub silent : All (λ n. (handles n ≡ false) × (defers n ≡ false)) inner
    pub unhandled : handles deferring ≡ false
    pub deferred : defers deferring ≡ true

  deferred_from-DeferredIn :
      (ns : List StateNode) → deferred_from handles defers ns ≡ true → DeferredIn ns
  unfolding deferred_from
  deferred_from-DeferredIn [] h = absurd (cc)
  deferred_from-DeferredIn (n ∷ ns) h = elim (Bool-cases (handles n)) [
    | inl y ↦ absurd (false_true (rw y at h))
    | inr p ↦ elim (Bool-cases (defers n)) [
      | inl y ↦ record {
        inner = [];
        deferring = n;
        outer = ns;
        chain = refl;
        silent = tt;
        unhandled = p;
        deferred = y;
      }
      | inr q ↦
          let d = deferred_from-DeferredIn ns (rw (p, q) at h) in
          record {
            inner = n ∷ d.inner;
            deferring = d.deferring;
            outer = d.outer;
            chain = ap (◌∷◌ n) d.chain;
            silent = ((p, q), d.silent);
            unhandled = d.unhandled;
            deferred = d.deferred;
          }
    ]
  ]
    where
      false_true : false ≡ true → ⊥
      false_true e = absurd (cc)

  deferred_from-inner :
      (inner : List StateNode) (n : StateNode) (outer : List StateNode)
      → All (λ m. (handles m ≡ false) × (defers m ≡ false)) inner
      → handles n ≡ false
      → defers n ≡ true
      → deferred_from handles defers (inner ++ n ∷ outer) ≡ true
  unfolding deferred_from
  deferred_from-inner [] n outer s u d = rw (u, d)
  deferred_from-inner (m ∷ ms) n outer s u d =
      rw (s.0.0, s.0.1) (deferred_from-inner ms n outer s.1 u d)

  starting_state-last :
      (above : List StateNode) (leaf : StateNode) → starting_state (above ++ leaf ∷ []) ≡ leaf
  unfolding starting_state
  starting_state-last [] leaf = refl
  starting_state-last (n ∷ []) leaf = refl
  starting_state-last (n ∷ m ∷ ns) leaf = starting_state-last (m ∷ ns) leaf

  -- `_structurally_deferred` is true exactly when, from the last active state upwards, or from the root if
  -- none is active, some state defers the event and neither that state nor one below it handles it, and
  -- none below it defers it.
  pub structurally_deferred_iff :
      (above : List StateNode) (leaf : StateNode)
      → ((structurally_deferred handles defers [] ≡ true) ↔ DeferredIn (root_state ∷ []))
        × ((structurally_deferred handles defers (above ++ leaf ∷ []) ≡ true)
            ↔ DeferredIn (self_and_ancestors leaf))
  unfolding structurally_deferred starting_state self_and_ancestors
  structurally_deferred_iff above leaf = (
    deferred_iff (root_state ∷ []),
    rw (starting_state-last above leaf) (deferred_iff (self_and_ancestors leaf)),
  )
    where
      deferred_iff :
          (ns : List StateNode) → (deferred_from handles defers ns ≡ true) ↔ DeferredIn ns
      deferred_iff ns = (
        deferred_from-DeferredIn ns,
        λ d.
            rw d.chain
              (deferred_from-inner d.inner d.deferring d.outer d.silent d.unhandled d.deferred),
      )
