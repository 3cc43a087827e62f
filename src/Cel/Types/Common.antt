-- ===== src/Cel/Types/Common.antt =====
-- The relations of static types: what each kind of type relates to, and the type of a conditional
-- expression.
use determa_state_python.Prelude.{
  String, ◌≡◌, ◌≢◌, refl, sym, ap, inl, inr, Bool, true, ◌&&◌, ◌||◌, Option, none, some, eq_iff,
  eq_refl, arith, Bool-cases, some-eq,
}
use determa_state_python.Cel.Types.{
  Kind, same_kind, StaticType, static_type, kind, machine_id, is_kind, same_name, same_type,
  same_element, same_fields, same_bool, assignable, references_compatible, common_type,
  merged_reference,
}

same_kind_refl : (k : Kind) → same_kind k k ≡ true
unfolding same_kind
same_kind_refl Kind.null = refl
same_kind_refl Kind.bool = refl
same_kind_refl Kind.int = refl
same_kind_refl Kind.float = refl
same_kind_refl Kind.string = refl
same_kind_refl Kind.dynamic = refl
same_kind_refl Kind.list = refl
same_kind_refl Kind.map = refl
same_kind_refl Kind.instance_reference = refl
same_kind_refl Kind.record_kind = refl
same_kind_refl Kind.unary_negation_marker = refl

pub same_kind-eq : (k l : Kind) → same_kind k l ≡ true → k ≡ l
unfolding same_kind
same_kind-eq Kind.null Kind.null h = refl
same_kind-eq Kind.bool Kind.bool h = refl
same_kind-eq Kind.int Kind.int h = refl
same_kind-eq Kind.float Kind.float h = refl
same_kind-eq Kind.string Kind.string h = refl
same_kind-eq Kind.dynamic Kind.dynamic h = refl
same_kind-eq Kind.list Kind.list h = refl
same_kind-eq Kind.map Kind.map h = refl
same_kind-eq Kind.instance_reference Kind.instance_reference h = refl
same_kind-eq Kind.record_kind Kind.record_kind h = refl
same_kind-eq Kind.unary_negation_marker Kind.unary_negation_marker h = refl
same_kind-eq _ _ h = absurd (cc)

same_name_refl : (m : Option String) → same_name m m ≡ true
same_name_refl none = refl
same_name_refl (some a) = eq_refl a

same_name-eq : (m n : Option String) → same_name m n ≡ true → m ≡ n
same_name-eq none none h = refl
same_name-eq (some a) (some b) h = ap some ((eq_iff a b).0 h)
same_name-eq _ _ h = absurd (cc)

same_name-sym : (m n : Option String) → same_name m n ≡ same_name n m
same_name-sym none none = refl
same_name-sym none (some b) = refl
same_name-sym (some a) none = refl
same_name-sym (some a) (some b) = ground (arith, eq_iff a b, eq_iff b a)

same_type-kind : (l r : StaticType) → same_type l r ≡ true → kind l ≡ kind r
unfolding same_type
same_type-kind (static_type k e f r m n) (static_type k' e' f' r' m' n') h =
    same_kind-eq k k' (ground arith)

fifth : (a b c d e f : Bool) → (a && b && c && d && e && f) ≡ true → e ≡ true
fifth a b c d e f h = ground arith

or_true : (a : Bool) → (a || true) ≡ true
or_true a = ground arith

same_type-machine : (l r : StaticType) → same_type l r ≡ true → machine_id l ≡ machine_id r
unfolding same_type
same_type-machine (static_type k e f r m n) (static_type k' e' f' r' m' n') h = same_name-eq m m' (
    fifth (same_kind k k') (same_element e e') (same_fields f f') (same_name r r') (same_name m m')
      (same_bool n n') h)

assignable-same :
    (l r : StaticType)
    → kind l ≢ Kind.dynamic
    → kind l ≡ kind r
    → machine_id l ≡ machine_id r
    → assignable l r ≡ true
unfolding assignable same_kind
assignable-same (static_type Kind.null e f r m n) (static_type k' e' f' r' m' n') d p q = rw (← p)
assignable-same (static_type Kind.bool e f r m n) (static_type k' e' f' r' m' n') d p q = rw (← p)
assignable-same (static_type Kind.int e f r m n) (static_type k' e' f' r' m' n') d p q = rw (← p)
assignable-same (static_type Kind.float e f r m n) (static_type k' e' f' r' m' n') d p q = rw (← p)
assignable-same (static_type Kind.string e f r m n) (static_type k' e' f' r' m' n') d p q = rw (← p)
assignable-same (static_type Kind.dynamic e f r m n) (static_type k' e' f' r' m' n') d p q =
    absurd (d refl)
assignable-same (static_type Kind.list e f r m n) (static_type k' e' f' r' m' n') d p q = rw (← p)
assignable-same (static_type Kind.map e f r m n) (static_type k' e' f' r' m' n') d p q = rw (← p)
assignable-same (static_type Kind.instance_reference e f r m n) (static_type k' e' f' r' m' n') d p
      q =
    rw (← p, ← q, same_name_refl m, or_true)
assignable-same (static_type Kind.record_kind e f r m n) (static_type k' e' f' r' m' n') d p q =
    rw (← p)
assignable-same (static_type Kind.unary_negation_marker e f r m n) (static_type k' e' f' r' m' n') d
      p q =
    rw (← p)

either : (m : Option String) → (same_name m none || same_name m m) ≡ true
either m = rw (same_name_refl m, or_true)

either_of : (m n : Option String) → m ≡ n → (same_name m none || same_name n m) ≡ true
either_of m n p = rw (← p, same_name_refl m, or_true)

-- The reference that stands for two compatible types takes both.
merged_reference-assignable :
    (l r : StaticType)
    → references_compatible l r ≡ true
    → (assignable l (merged_reference l r) ≡ true) × (assignable r (merged_reference l r) ≡ true)
unfolding assignable references_compatible same_kind
merged_reference-assignable (static_type Kind.null e f r m n) (static_type Kind.null e' f' r' m' n')
      h =
    ground (arith, or_true n')
merged_reference-assignable (static_type Kind.null e f r m n)
      (static_type Kind.instance_reference e' f' r' m' n') h =
    (rw (or_true), either m')
merged_reference-assignable (static_type Kind.instance_reference e f r m n)
      (static_type Kind.null e' f' r' m' n') h =
    (either m, rw (or_true))
merged_reference-assignable (static_type Kind.instance_reference e f r m n)
      (static_type Kind.instance_reference e' f' r' m' n') h =
    elim (Bool-cases (same_name m m')) [
      | inl y ↦ rw y (either m, either_of m m' (same_name-eq m m' y))
      | inr o ↦ rw o (refl, refl)
    ]
merged_reference-assignable _ _ h = absurd (ground arith)

-- Both branches of a conditional expression can be assigned to its type, unless one is dynamic.
pub common_type-assignable :
    (l r t : StaticType)
    → kind l ≢ Kind.dynamic
    → kind r ≢ Kind.dynamic
    → common_type l r ≡ some t
    → (assignable l t ≡ true) × (assignable r t ≡ true)
unfolding common_type
common_type-assignable l r t dl dr h = elim (Bool-cases (same_type l r)) [
  | inl y ↦ rw (← some-eq (rw y at h)) (
    assignable-same l l dl refl refl,
    assignable-same r l dr (sym (same_type-kind l r y)) (sym (same_type-machine l r y)),
  )
  | inr n ↦ elim (Bool-cases (references_compatible l r)) [
    | inl y ↦ rw (← some-eq (rw (n, y) at h)) (merged_reference-assignable l r y)
    | inr m ↦ absurd (none_some (rw (n, m) at h))
  ]
]
  where
    none_some : none ≢ some t
    none_some p = absurd (cc)

-- Whether two references can be compared does not depend on their order.
pub references_compatible_sym :
    (l r : StaticType) → references_compatible l r ≡ references_compatible r l
unfolding references_compatible
references_compatible_sym l r = elim (Bool-cases (is_kind Kind.null l)) [
  | inl a ↦ elim (Bool-cases (is_kind Kind.null r)) [ inl b ↦ rw (a, b) | inr b ↦ rw (a, b) ]
  | inr a ↦ elim (Bool-cases (is_kind Kind.null r)) [
    | inl b ↦ rw (a, b)
    | inr b ↦ rw (a, b, same_name-sym (machine_id l) (machine_id r)) ground arith
  ]
]
