-- ===== src/States/Boundary.antt =====
-- The boundary of a transition encloses both of its ends.
use determa_state_python.Prelude.{
  String, ◌≡◌, ◌≢◌, ◌⊎◌, refl, sym, ap, ◌∙◌, inl, inr, Bool, true, false, ◌||◌, List, [], ◌∷◌, ◌++◌,
  none, some, eq_iff, eq_refl, arith, Bool-cases, some-eq, if◌then◌else◌,
}
use determa_state_python.Prelude.Distinct.{contains}
use determa_state_python.States.{
  StateNode, root_state, child_state, same_node, parent, self_and_ancestors, ancestors,
  is_ancestor_of, first_common, boundary, entry_path,
}

pub same_node-eq : (a b : StateNode) → same_node a b ≡ true → a ≡ b
unfolding same_node
same_node-eq root_state root_state h = refl
same_node-eq (child_state p a) (child_state q b) h =
    rw (same_node-eq p q (ground arith), (eq_iff a b).0 (ground arith))
same_node-eq _ _ h = absurd (cc)

pub same_node_refl : (a : StateNode) → same_node a a ≡ true
unfolding same_node
same_node_refl root_state = refl
same_node_refl (child_state p a) = rw (eq_refl a, same_node_refl p)

same_node-false : (a b : StateNode) → same_node a b ≡ false → same_node b a ≡ false
same_node-false a b h = elim (Bool-cases (same_node b a)) [
  | inl y ↦ absurd (no (sym (same_node_refl a) ∙ ap (same_node a) (sym (same_node-eq b a y)) ∙ h))
  | inr n ↦ n
]
  where
    no : true ≢ false
    no e = absurd (cc)

-- The states from `n` up to, and without, the enclosing state `b`.
pub record Encloses (b n : StateNode) : Type 0 where
  pub between : List StateNode
  pub chain : self_and_ancestors n ≡ between ++ self_and_ancestors b
  pub entered : entry_path b n ≡ some between

Encloses-self : (n : StateNode) → Encloses n n
unfolding entry_path
Encloses-self root_state = record {
  between = [];
  chain = refl;
  entered = rw (same_node_refl root_state);
}
Encloses-self (child_state p a) = record {
  between = [];
  chain = refl;
  entered = rw (same_node_refl (child_state p a));
}

contains-Encloses :
    (b n : StateNode) → contains same_node (self_and_ancestors n) b ≡ true → Encloses b n
unfolding self_and_ancestors entry_path
contains-Encloses b root_state h =
    rw (same_node-eq b root_state (ground arith)) (Encloses-self root_state)
contains-Encloses b (child_state p a) h = elim (Bool-cases (same_node b (child_state p a))) [
  | inl y ↦ rw (same_node-eq b (child_state p a) y) (Encloses-self (child_state p a))
  | inr n ↦
      let rest = contains-Encloses b p (rw n at h) in
      record {
        between = child_state p a ∷ rest.between;
        chain = ap (◌∷◌ (child_state p a)) rest.chain;
        entered = rw (same_node-false b (child_state p a) n, rest.entered);
      }
]

or_true : (a : Bool) → (a || true) ≡ true
or_true a = ground arith

abbrev IsAbove : StateNode → StateNode → Type 0
IsAbove b n = contains same_node (self_and_ancestors n) b ≡ true

IsAbove-refl : (n : StateNode) → IsAbove n n
unfolding self_and_ancestors
IsAbove-refl root_state = rw (same_node_refl root_state)
IsAbove-refl (child_state p a) = rw (same_node_refl (child_state p a))

IsAbove-root : (n : StateNode) → IsAbove root_state n
unfolding self_and_ancestors
IsAbove-root root_state = rw (same_node_refl root_state)
IsAbove-root (child_state p a) =
    rw (IsAbove-root p) (or_true (same_node root_state (child_state p a)))

IsAbove-parent :
    (p : StateNode) (a : String) (n : StateNode) → IsAbove (child_state p a) n → IsAbove p n
unfolding self_and_ancestors
IsAbove-parent p a root_state h = absurd (unfold same_node in cc)
IsAbove-parent p a (child_state q c) h =
    elim (Bool-cases (same_node (child_state p a) (child_state q c))) [
      | inl y ↦
          rw (up (same_node-eq (child_state p a) (child_state q c) y), IsAbove-refl q)
            (or_true (same_node q (child_state q c)))
      | inr n ↦ rw (IsAbove-parent p a q (rw n at h)) (or_true (same_node p (child_state q c)))
    ]
  where
    up : child_state p a ≡ child_state q c → p ≡ q
    up e = cc

IsAbove-strict : (b n : StateNode) → is_ancestor_of true b n ≡ true → IsAbove b n
unfolding is_ancestor_of ancestors self_and_ancestors
IsAbove-strict b root_state h = absurd (cc)
IsAbove-strict b (child_state p a) h = rw (h) (or_true (same_node b (child_state p a)))

IsAbove-start : (s b n : StateNode) → parent s ≡ some b → IsAbove s n → IsAbove b n
unfolding parent
IsAbove-start root_state b n e h = absurd (cc)
IsAbove-start (child_state p a) b n e h = rw (← some-eq e) (IsAbove-parent p a n h)

first_common_target : (t : StateNode) (ns : List StateNode) → IsAbove (first_common t ns) t
unfolding first_common
first_common_target t [] = IsAbove-root t
first_common_target t (n ∷ ns) = elim (Bool-cases (contains same_node (self_and_ancestors t) n)) [
  | inl y ↦ rw (y, y)
  | inr o ↦ rw o (first_common_target t ns)
]

first_common_source :
    (s t : StateNode) (ns : List StateNode)
    → ((n : StateNode) → contains same_node ns n ≡ true → IsAbove n s)
    → IsAbove (first_common t ns) s
unfolding first_common
first_common_source s t [] up = IsAbove-root s
first_common_source s t (n ∷ ns) up =
    elim (Bool-cases (contains same_node (self_and_ancestors t) n)) [
      | inl y ↦ rw y (up n (rw (same_node_refl n)))
      | inr o ↦ rw o (first_common_source s t ns (λ m h. up m (rw h (or_true (same_node m n)))))
    ]

-- If `_boundary` returns a state, it is an ancestor of the source and of the target or one of these, and
-- the loop of `enter_path` from the target reaches it, so its assertion holds there.
pub boundary-Encloses :
    (s t : StateNode) (local : Bool) (b : StateNode)
    → boundary s t local ≡ some b
    → Encloses b s × Encloses b t
unfolding boundary
boundary-Encloses s t local b h =
    let (x, y) =
      above (Bool-cases (same_node s t)) (Bool-cases (is_ancestor_of true s t))
        (Bool-cases (is_ancestor_of true t s)) in
    (contains-Encloses b s x, contains-Encloses b t y)
  where
    same_ends : (n : StateNode) → IsAbove n s → IsAbove n t → n ≡ b → IsAbove b s × IsAbove b t
    same_ends n p q e = rw (← e) (p, q)

    inside :
        IsAbove s t
        → (c : Bool) → (if c then some s else parent s) ≡ some b
        → IsAbove b s × IsAbove b t
    inside u true e = same_ends s (IsAbove-refl s) u (some-eq e)
    inside u false e = (IsAbove-start s b s e (IsAbove-refl s), IsAbove-start s b t e u)

    above :
        (same_node s t ≡ true) ⊎ (same_node s t ≡ false)
        → (is_ancestor_of true s t ≡ true) ⊎ (is_ancestor_of true s t ≡ false)
        → (is_ancestor_of true t s ≡ true) ⊎ (is_ancestor_of true t s ≡ false)
        → IsAbove b s × IsAbove b t
    above (inl e) _ _ = (
      IsAbove-start s b s (rw e at h) (IsAbove-refl s),
      IsAbove-start s b t (rw e at h) (rw (same_node-eq s t e) (IsAbove-refl t)),
    )
    above (inr e) (inl u) _ =
        inside (IsAbove-strict s t u) (local || same_node s root_state) (rw (e, u) at h)
    above (inr e) (inr o) (inl u) =
        same_ends t (IsAbove-strict t s u) (IsAbove-refl t) (some-eq (rw (e, o, u) at h))
    above (inr e) (inr o) (inr u) =
        same_ends (first_common t (self_and_ancestors s))
          (first_common_source s t (self_and_ancestors s) (λ n a. a))
          (first_common_target t (self_and_ancestors s)) (some-eq (rw (e, o, u) at h))

-- `_boundary` fails only for the root's transition to itself.
pub boundary_total :
    (s t : StateNode) (local : Bool)
    → boundary s t local ≡ none
    → (s ≡ root_state) × (t ≡ root_state)
unfolding boundary parent
boundary_total s t local h = elim (Bool-cases (same_node s t)) [
  | inl y ↦ let e = same_node-eq s t y in let r = rooted s (rw y at h) in (r, sym e ∙ r)
  | inr n ↦ elim (Bool-cases (is_ancestor_of true s t)) [
    | inl y ↦ absurd (not_root (local || same_node s root_state) refl (rw (n, y) at h))
    | inr o ↦ elim (Bool-cases (is_ancestor_of true t s)) [
      | inl y ↦ absurd (some_none (rw (n, o, y) at h))
      | inr u ↦ absurd (some_none (rw (n, o, u) at h))
    ]
  ]
]
  where
    some_none : {a : StateNode} → some a ≢ none
    some_none e = absurd (cc)

    rooted : (n : StateNode) → parent n ≡ none → n ≡ root_state
    rooted root_state e = refl
    rooted (child_state p a) e = absurd (cc)

    not_root :
        (c : Bool)
        → (local || same_node s root_state) ≡ c
        → (if c then some s else parent s) ≡ none
        → ⊥
    not_root true p e = some_none e
    not_root false p e = no (rw (rooted s e, same_node_refl root_state, or_true) at p)
      where
        no : true ≡ false → ⊥
        no q = absurd (cc)
