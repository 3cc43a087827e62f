-- ===== src/Cel/Checker/Binds.antt =====
-- What an accepted conditional expression, an accepted call of `has` and an accepted map literal say of
-- their parts.
use determa_state_python.Prelude.{
  String, ◌≡◌, ◌≢◌, refl, Bool, true, false, not, List, [], ◌∷◌, Option, none, some, ◌==◌, All,
  All-imp, arith, eq_iff, sym,
}
use determa_state_python.Prelude.Distinct.{contains, NotIn, Distinct, contains-NotIn}
use determa_state_python.Prelude.Outcome.{ok, err, require, or_raise, >>=-eq-ok}
use determa_state_python.Cel.Types.{
  Kind, StaticType, TypeFields, kind, is_kind, assignable, common_type, lookup,
}
use determa_state_python.Cel.Types.Common.{common_type-assignable}
use determa_state_python.Cel.Tree.{
  Rule, Node, Nodes, tree, token, nil, cons, Python, Context, Checked, type_error, profile_error,
  cel_error, malformed, unwrap, string_literal_value,
}
use determa_state_python.Cel.Operators.{profile}
use determa_state_python.Cel.Checker.{
  check, supplied_members, all_expected, check_supplied, check_supplied_map, check_map_literal,
  literal_members,
}

or_raise-ok :
    {A : Type 0} {E : Type 0} (o : Option A) (e : E) (a : A) → or_raise o e ≡ ok a → o ≡ some a
or_raise-ok none e a h = absurd (cc)
or_raise-ok (some b) e a h = cc

require-ok : {E : Type 0} (b : Bool) (e : E) (u : Unit {0}) → require b e ≡ ok u → b ≡ true
require-ok true e u h = refl
require-ok false e u h = absurd (cc)

ok-eq : {A : Type 0} {a b : A} → Path (Checked A) (ok a) (ok b) → a ≡ b
ok-eq h = cc

not-true : (b : Bool) → not b ≡ true → b ≡ false
not-true b h = ground arith

module _ (python : Python) (context : Context) where
  -- If a conditional expression has a type, its condition is of kind bool, both branches have types, and
  -- unless one of these is dynamic, both can be assigned to the type of the whole.
  pub check_conditional_lem :
      (c a b : Node) (t : StaticType)
      → check python context (tree Rule.expr (cons c (cons a (cons b nil)))) ≡ ok t
      → (tc : StaticType) × (ta : StaticType) × (tb : StaticType) × (check python context c ≡ ok tc)
        × (is_kind Kind.bool tc ≡ true)
        × (check python context a ≡ ok ta)
        × (check python context b ≡ ok tb)
        × (kind ta ≢ Kind.dynamic
            → kind tb ≢ Kind.dynamic
            → (assignable ta t ≡ true) × (assignable tb t ≡ true))
  unfolding check
  check_conditional_lem c a b t h =
      let (tc, p, h1) = >>=-eq-ok (check python context c) _ h in
      let (u, q, h2) = >>=-eq-ok (profile (is_kind Kind.bool tc)) _ h1 in
      let (ta, r, h3) = >>=-eq-ok (check python context a) _ h2 in
      let (tb, s, h4) = >>=-eq-ok (check python context b) _ h3 in
      (
        tc,
        ta,
        tb,
        p,
        require-ok (is_kind Kind.bool tc) profile_error u q,
        r,
        s,
        λ da db.
            common_type-assignable ta tb t da db
              (or_raise-ok (common_type ta tb) profile_error t h4),
      )

  -- Each member's value has a type that its destination takes.
  abbrev pub Destined : TypeFields → String × Node → Type 0
  Destined expected (name, v) =
      (actual : StaticType) × (destination : StaticType) × (check python context v ≡ ok actual)
      × (lookup name expected ≡ some destination)
      × (assignable actual destination ≡ true)

  abbrev pub names_of : List (String × Node) → List String
  names_of [] = []
  names_of ((name, v) ∷ rest) = name ∷ names_of rest

  -- The names supplied are distinct and not seen before.
  supplied_members-Distinct :
      (seen : List String) (ns : Nodes) (ms : List (String × Node))
      → supplied_members python context seen ns ≡ ok ms
      → Distinct (names_of ms) × All (λ n. NotIn n seen) (names_of ms)
  unfolding supplied_members
  supplied_members-Distinct seen nil ms h = by_end (ok-eq h)
    where
      by_end : [] ≡ ms → Distinct (names_of ms) × All (λ n. NotIn n seen) (names_of ms)
      by_end p = rw (← p) (tt, tt)
  supplied_members-Distinct seen (cons k nil) ms h =
      let (key, p, h1) = >>=-eq-ok (string_literal_value python k) _ h in
      let (name, q, h2) = >>=-eq-ok (or_raise key type_error) _ h1 in
      let (w, r, h3) = >>=-eq-ok (require (not (contains ◌==◌ seen name)) type_error) _ h2 in
      absurd (no_ok h3)
    where
      no_ok : Path (Checked (List (String × Node))) (err malformed) (ok ms) → ⊥
      no_ok e = absurd (cc)
  supplied_members-Distinct seen (cons k (cons v rest)) ms h =
      let (key, p, h1) = >>=-eq-ok (string_literal_value python k) _ h in
      let (name, q, h2) = >>=-eq-ok (or_raise key type_error) _ h1 in
      let (w, r, h3) = >>=-eq-ok (require (not (contains ◌==◌ seen name)) type_error) _ h2 in
      let (later, s, h4) = >>=-eq-ok (supplied_members python context (name ∷ seen) rest) _ h3 in
      let (d, n) = supplied_members-Distinct (name ∷ seen) rest later s in
      rw (← ok-eq h4) (
        (others name (names_of later) n, d),
        (
          contains-NotIn ◌==◌ eq_iff name seen
              (not-true (contains ◌==◌ seen name) (require-ok _ type_error w r)),
          All-imp _ _ (λ m (x : NotIn m (name ∷ seen)). x.1) (names_of later) n,
        ),
      )
    where
      others :
          (name : String) (xs : List String) → All (λ m. NotIn m (name ∷ seen)) xs → NotIn name xs
      others name [] a = tt
      others name (x ∷ xs) a = ((λ e. a.0.0 (sym e)), others name xs a.1)

  check_supplied-Destined :
      (expected : TypeFields) (ms : List (String × Node)) (u : Unit {0})
      → check_supplied python context expected ms ≡ ok u
      → All (Destined expected) ms
  unfolding check_supplied
  check_supplied-Destined expected [] u h = tt
  check_supplied-Destined expected ((name, v) ∷ rest) u h =
      let (actual, p, h1) = >>=-eq-ok (check python context v) _ h in
      let (destination, q, h2) = >>=-eq-ok (or_raise (lookup name expected) _) _ h1 in
      let (w, r, h3) = >>=-eq-ok (require (assignable actual destination) type_error) _ h2 in
      (
        (
          actual,
          destination,
          p,
          or_raise-ok (lookup name expected) _ destination q,
          require-ok (assignable actual destination) type_error w r,
        ),
        check_supplied-Destined expected rest u h3,
      )

  check_supplied_map-Destined :
      (expected : TypeFields) (ms : List (String × Node)) (u : Unit {0})
      → check_supplied_map python context expected ms ≡ ok u
      → (ms ≢ []) × All (Destined expected) ms
  unfolding check_supplied_map
  check_supplied_map-Destined expected [] u h = absurd (cc)
  check_supplied_map-Destined expected (m ∷ ms) u h =
      let (w, p, h1) =
        >>=-eq-ok (require (all_expected python context expected (m ∷ ms)) type_error) _ h in
      (cons_nil, check_supplied-Destined expected (m ∷ ms) u h1)
    where
      cons_nil : (m ∷ ms) ≢ []
      cons_nil e = absurd (cc)

  -- An accepted map literal: its members, as the tree of the expression has them.
  pub record LiteralTyped (expression : String) (expected : TypeFields) : Type 0 where
    pub node : Node
    pub rule : Rule
    pub members : Nodes
    pub rest : Nodes
    pub supplied : List (String × Node)
    pub parsed : python.parse expression ≡ some node
    pub shape : unwrap node ≡ tree Rule.map_lit (cons (tree rule members) rest)
    pub read : supplied_members python context [] members ≡ ok supplied
    pub has_members : supplied ≢ []
    pub names_distinct : Distinct (names_of supplied)
    pub destined : All (Destined expected) supplied

  literal_members-shape :
      (n : Node) (ms : List (String × Node))
      → literal_members python context n ≡ ok ms
      → ms ≢ []
      → (r : Rule) × (members : Nodes) × (rest : Nodes) × (n
          ≡ tree Rule.map_lit (cons (tree r members) rest))
        × (supplied_members python context [] members ≡ ok ms)
  unfolding literal_members
  literal_members-shape (tree Rule.map_lit nil) ms h ne = absurd (ne (sym (ok-eq h)))
  literal_members-shape (tree Rule.map_lit (cons (token t s) rest)) ms h ne = absurd (cc)
  literal_members-shape (tree Rule.map_lit (cons (tree r members) rest)) ms h ne =
      (r, members, rest, refl, h)
  literal_members-shape (tree _ _) ms h ne = absurd (cc)
  literal_members-shape (token t s) ms h ne = absurd (cc)

  -- If `check_map_literal` accepts an expression, the tree of the expression is, under wrappers, a map
  -- literal with at least one member, its names are text literals that differ, and the value of each has
  -- a type that the field of that name among the expected ones takes.
  pub check_map_literal_lem :
      (expression : String) (expected : TypeFields) (u : Unit {0})
      → check_map_literal python context expression expected ≡ ok u
      → LiteralTyped expression expected
  unfolding check_map_literal
  check_map_literal_lem expression expected u h =
      let (node, p, h1) = >>=-eq-ok (or_raise (python.parse expression) cel_error) _ h in
      let (ms, q, h2) =
        >>=-eq-ok (literal_members python context (unwrap node))
          (check_supplied_map python context expected) h1 in
      let (ne, fits) = check_supplied_map-Destined expected ms u h2 in
      let (r, members, rest, shape, read) = literal_members-shape (unwrap node) ms q ne in
      record {
        node = node;
        rule = r;
        members = members;
        rest = rest;
        supplied = ms;
        parsed = or_raise-ok (python.parse expression) cel_error node p;
        shape = shape;
        read = read;
        has_members = ne;
        names_distinct = (supplied_members-Distinct [] members ms read).0;
        destined = fits;
      }
