-- ===== src/Wire/Typed/Canonical.antt =====
-- Typed values have one representation each: what `decoded_typed_value` accepts is what `typed_value`
-- writes, but for the second zero of binary64.
use determa_state_python.Prelude.{
  ℕ, ◌^◌, ◌⊎◌, ◌≡◌, ◌≢◌, refl, sym, ◌∙◌, ap, Bool, true, false, List, [], ◌∷◌, Option, none, some,
  String, ◌==◌, eq_iff, arith, Bool-cases, inl, inr, if◌then◌else◌,
}
use determa_state_python.Prelude.Int.{ℤ, in_int_range}
use determa_state_python.Prelude.Text.{precedes_asymm}
use determa_state_python.Prelude.Outcome.{ok, err, ◌>>=◌, >>=-eq-ok}
use determa_state_python.Codes.PersistenceFailureCode.{PersistenceFailureCode}
use determa_state_python.Wire.Value.{Value, Values, Fields, Json, Items}
use determa_state_python.Wire.Decimal.{signed_decimal}
use determa_state_python.Wire.Decimal.RoundTrip.{signed_decimal-canonical}
use determa_state_python.Wire.Hex.{pack_hex, unpack_hex, unpack_hex-canonical}
use determa_state_python.Wire.Typed.{
  Result, is_finite, positive_zero, tagged, insert_entry, entries, typed_value, typed_values,
  typed_fields, decoded_integer, decoded_float, decoded_text, ascends, decoded_typed_value,
  decoded_tagged, decoded_payload, decoded_list, decoded_map,
}

-- The text of negative zero.
abbrev pub minus_zero : String
minus_zero = "8000000000000000"

-- No float in the document is written as negative zero.
abbrev mutual
  pub PositiveZeros : Json → Type 0
  PositiveZeros (Json.array xs) = PositiveZerosItems xs
  PositiveZeros _ = Unit

  pub PositiveZerosItems : Items → Type 0
  PositiveZerosItems (Items.cons (Json.string tag) (Items.cons (Json.string s) Items.nil)) =
      tag ≡ "float" → s ≢ minus_zero
  PositiveZerosItems Items.nil = Unit
  PositiveZerosItems (Items.cons x xs) = PositiveZeros x × PositiveZerosItems xs

decoded_integer_range :
    (z : ℤ) (v : Value)
    → decoded_integer (ok z) ≡ ok v
    → (in_int_range z ≡ true) × (v ≡ Value.integer z)
unfolding decoded_integer
decoded_integer_range z v h = ground arith

decoded_integer-canonical :
    (s : String) (r : Result ℤ) (v : Value)
    → signed_decimal s ≡ r
    → decoded_integer r ≡ ok v
    → typed_value v ≡ ok (tagged "integer" (Json.string s))
unfolding typed_value
decoded_integer-canonical s (err e) v r h = unfold decoded_integer in cc
decoded_integer-canonical s (ok z) v r h =
    let (range, e) = decoded_integer_range z v h in
    rw (e, typed_value, range, signed_decimal-canonical s z r)

decoded_float_finite :
    (n : ℕ) (v : Value)
    → decoded_float (some n) ≡ ok v
    → (is_finite n ≡ true) × (v ≡ Value.float (positive_zero n))
unfolding decoded_float
decoded_float_finite n v h = ground arith

positive_zero_finite : (n : ℕ) → is_finite n ≡ true → is_finite (positive_zero n) ≡ true
positive_zero_finite n h = ground arith

positive_zero_cases : (n : ℕ) → (n ≡ 2 ^ 63) ⊎ (positive_zero n ≡ n)
positive_zero_cases n = ground arith

pack_minus_zero : pack_hex (2 ^ 63) ≡ minus_zero
unfolding pack_hex
pack_minus_zero = refl

pack_positive_zero :
    (s : String) (n : ℕ)
    → s ≢ minus_zero
    → pack_hex n ≡ s
    → pack_hex (positive_zero (positive_zero n)) ≡ s
pack_positive_zero s n z e = elim (positive_zero_cases n) [
  | inl m ↦ absurd (z (sym e ∙ ap pack_hex m ∙ pack_minus_zero))
  | inr p ↦ rw (p, p) e
]

decoded_float-canonical :
    (s : String) (o : Option ℕ) (v : Value)
    → s ≢ minus_zero
    → unpack_hex s ≡ o
    → decoded_float o ≡ ok v
    → typed_value v ≡ ok (tagged "float" (Json.string s))
unfolding typed_value
decoded_float-canonical s none v z e h = unfold decoded_float in cc
decoded_float-canonical s (some n) v z e h =
    let (finite, f) = decoded_float_finite n v h in
    rw (
      f,
      typed_value,
      positive_zero_finite n finite,
      pack_positive_zero s n z (unpack_hex-canonical s n e),
    )

decoded_text-canonical :
    (tag s : String) (v : Value)
    → (tag ≡ "float" → s ≢ minus_zero)
    → decoded_text tag s ≡ ok v
    → typed_value v ≡ ok (tagged tag (Json.string s))
unfolding decoded_text
decoded_text-canonical tag s v z h = elim (Bool-cases (tag == "string")) [
  | inl a ↦ rw ((eq_iff tag "string").0 a) (text_case (rw a at h))
  | inr a ↦ elim (Bool-cases (tag == "integer")) [
    | inl b ↦
        rw ((eq_iff tag "integer").0 b)
          (decoded_integer-canonical s (signed_decimal s) v refl (rw (a, b) at h))
    | inr b ↦ elim (Bool-cases (tag == "float")) [
      | inl c ↦ rw ((eq_iff tag "float").0 c) (
          decoded_float-canonical s (unpack_hex s) v (z ((eq_iff tag "float").0 c)) refl
            (rw (a, b, c) at h))
      | inr c ↦ cc (rw (a, b, c) at h)
    ]
  ]
]
  where
    text_case :
        (let r : Result Value = ok (Value.string s) in r) ≡ ok v
        → typed_value v ≡ ok (tagged "string" (Json.string s))
    text_case e = unfold typed_value in ground arith

-- The first key of a list of entries comes behind `previous`.
abbrev Ascending : Option String → List (String × Json) → Type 0
Ascending previous [] = Unit
Ascending previous ((k, j) ∷ es) = ascends previous k ≡ true

insert_entry-first :
    (k : String) (j : Json) (es : List (String × Json))
    → Ascending (some k) es
    → insert_entry k j es ≡ (k, j) ∷ es
unfolding insert_entry
insert_entry-first k j [] h = refl
insert_entry-first k j ((l, m) ∷ es) h = rw (precedes_asymm k l h)

err-ne-ok : {A : Type 0} {e : PersistenceFailureCode} {a : A} → ◌≢◌ {A = Result A} (err e) (ok a)
err-ne-ok h = cc

later-ne-ok :
    {A : Type 0} {a : A} (e c : PersistenceFailureCode) (b : Bool)
    → ◌≢◌ {A = Result A} (if b then err e else err c) (ok a)
later-ne-ok e c true h = cc
later-ne-ok e c false h = cc

null_case :
    (tag : String) (v : Value)
    → decoded_tagged (Items.cons (Json.string tag) Items.nil) ≡ ok v
    → typed_value v ≡ ok (Json.array (Items.cons (Json.string tag) Items.nil))
unfolding typed_value decoded_typed_value
null_case tag v h = elim (Bool-cases (tag == "null")) [
  | inl a ↦ rw ((eq_iff tag "null").0 a) (null_value v (rw a at h))
  | inr a ↦ cc (rw a at h)
]
  where
    null_value :
        (v : Value)
        → ◌≡◌ {A = Result Value} (ok Value.null) (ok v)
        → typed_value v ≡ ok (Json.array (Items.cons (Json.string "null") Items.nil))
    null_value v e = ground arith

boolean_case :
    (tag : String) (b : Bool) (v : Value)
    → decoded_payload tag (Json.boolean b) ≡ ok v
    → typed_value v ≡ ok (tagged tag (Json.boolean b))
unfolding typed_value decoded_typed_value
boolean_case tag b v h = elim (Bool-cases (tag == "boolean")) [
  | inl a ↦ rw ((eq_iff tag "boolean").0 a) (boolean_value v (rw a at h))
  | inr a ↦ cc (rw a at h)
]
  where
    boolean_value :
        (v : Value)
        → ◌≡◌ {A = Result Value} (ok (Value.boolean b)) (ok v)
        → typed_value v ≡ ok (tagged "boolean" (Json.boolean b))
    boolean_value v e = ground arith

abbrev CanonicalList : Items → Type 0
CanonicalList xs = (vs : Values) → decoded_list xs ≡ ok vs → typed_values vs ≡ ok xs

abbrev MapOf : Option String → Items → Fields → Type 0
MapOf previous xs fs =
    (es : List (String × Json)) × (typed_fields fs ≡ ok es)
    × (entries es ≡ xs)
    × Ascending previous es

abbrev CanonicalMap : Items → Type 0
CanonicalMap xs =
    (previous : Option String) (fs : Fields)
    → decoded_map previous xs ≡ ok fs
    → MapOf previous xs fs

ok-injective : {A : Type 0} {a b : A} → ◌≡◌ {A = Result A} (ok a) (ok b) → a ≡ b
ok-injective h = cc

array_case :
    (tag : String) (xs : Items) (v : Value)
    → CanonicalList xs
    → CanonicalMap xs
    → decoded_payload tag (Json.array xs) ≡ ok v
    → typed_value v ≡ ok (tagged tag (Json.array xs))
unfolding typed_value decoded_typed_value
array_case tag xs v as_list as_map h = elim (Bool-cases (tag == "list")) [
  | inl a ↦
      let (vs, e, f) = >>=-eq-ok (decoded_list xs) (λ vs. ok (Value.list vs)) (rw a at h) in
      rw ((eq_iff tag "list").0 a, ← ok-injective f, as_list vs e)
  | inr a ↦ elim (Bool-cases (tag == "map")) [
    | inl b ↦
        let (fs, e, f) =
          >>=-eq-ok (decoded_map none xs) (λ fs. ok (Value.dict fs)) (rw (a, b) at h) in
        let (es, g, k, _) = as_map none fs e in rw ((eq_iff tag "map").0 b, ← ok-injective f, g, k)
    | inr b ↦ absurd (err-ne-ok (rw (a, b) at h))
  ]
]

list_case :
    (x : Json) (xs : Items) (vs : Values)
    → ((v : Value) → decoded_typed_value x ≡ ok v → typed_value v ≡ ok x)
    → CanonicalList xs
    → decoded_list (Items.cons x xs) ≡ ok vs
    → typed_values vs ≡ ok (Items.cons x xs)
unfolding typed_value decoded_typed_value
list_case x xs vs first others h =
    let (v, e, f) =
      >>=-eq-ok (decoded_typed_value x) (λ v. decoded_list xs >>= λ ws. ok (Values.cons v ws)) h in
    let (ws, g, k) = >>=-eq-ok (decoded_list xs) (λ ws. ok (Values.cons v ws)) f in
    rw (← ok-injective k, first v e, others ws g)

map_case :
    (previous : Option String) (key : String) (x : Json) (rest : Items) (fs : Fields)
    → ((v : Value) → decoded_typed_value x ≡ ok v → typed_value v ≡ ok x)
    → CanonicalMap rest
    → decoded_map previous (Items.cons (tagged key x) rest) ≡ ok fs
    → MapOf previous (Items.cons (tagged key x) rest) fs
unfolding typed_value decoded_typed_value entries
map_case previous key x rest fs first others h = elim (Bool-cases (ascends previous key)) [
  | inl a ↦
      let (v, e, f) =
        >>=-eq-ok (decoded_typed_value x)
          (λ v. decoded_map (some key) rest >>= λ gs. ok (Fields.field key v gs)) (rw a at h) in
      let (gs, g, k) =
        >>=-eq-ok (decoded_map (some key) rest) (λ gs. ok (Fields.field key v gs)) f in
      let (es, m, n, o) = others (some key) gs g in
      (
        (key, x) ∷ es,
        rw (← ok-injective k, first v e, m, insert_entry-first key x es o),
        rw (entries, n),
        a,
      )
  | inr a ↦ absurd (err-ne-ok (rw a at h))
]

mutual
  unfolding typed_value decoded_typed_value entries

  canonical :
      (j : Json) (v : Value) → PositiveZeros j → decoded_typed_value j ≡ ok v → typed_value v ≡ ok j
  canonical (Json.array xs) v p h = canonical_tagged xs v p h
  canonical _ v p h = absurd (err-ne-ok h)

  canonical_tagged :
      (xs : Items) (v : Value)
      → PositiveZerosItems xs
      → decoded_tagged xs ≡ ok v
      → typed_value v ≡ ok (Json.array xs)
  canonical_tagged (Items.cons (Json.string tag) Items.nil) v p h = null_case tag v h
  canonical_tagged (Items.cons (Json.string tag) (Items.cons (Json.string s) Items.nil)) v p h =
      decoded_text-canonical tag s v p h
  canonical_tagged (Items.cons (Json.string tag) (Items.cons (Json.boolean b) Items.nil)) v p h =
      boolean_case tag b v h
  canonical_tagged (Items.cons (Json.string tag) (Items.cons (Json.array xs) Items.nil)) v p h =
      array_case tag xs v (λ vs. canonical_list xs vs p.1.0) (λ q fs. canonical_map xs q fs p.1.0) h
  canonical_tagged (Items.cons (Json.string tag) (Items.cons payload Items.nil)) v p h =
      absurd (err-ne-ok h)
  canonical_tagged _ v p h = absurd (err-ne-ok h)

  canonical_list :
      (xs : Items) (vs : Values)
      → PositiveZerosItems xs
      → decoded_list xs ≡ ok vs
      → typed_values vs ≡ ok xs
  canonical_list Items.nil vs p h = ground arith
  canonical_list (Items.cons (Json.array x) xs) vs p h =
      list_case (Json.array x) xs vs (λ v. canonical_tagged x v p.0)
        (λ ws. canonical_list xs ws p.1) h
  canonical_list _ vs p h = absurd (err-ne-ok h)

  canonical_map :
      (xs : Items) (previous : Option String) (fs : Fields)
      → PositiveZerosItems xs
      → decoded_map previous xs ≡ ok fs
      → MapOf previous xs fs
  canonical_map Items.nil previous fs p h = ([], ground arith, refl, tt)
  canonical_map
        (Items.cons
          (Json.array (Items.cons (Json.string key) (Items.cons (Json.array x) Items.nil)))
          rest)
        previous fs p h =
      map_case previous key (Json.array x) rest fs (λ v. canonical_tagged x v p.0.1.0)
        (λ q gs. canonical_map rest q gs p.1) h
  canonical_map
        (Items.cons (Json.array (Items.cons (Json.string key) (Items.cons x Items.nil))) rest)
        previous fs p h =
      absurd (later-ne-ok _ _ (ascends previous key) h)
  canonical_map _ previous fs p h = absurd (err-ne-ok h)

-- If `decoded_typed_value` accepts a document none of whose floats is written as negative zero, the
-- document is exactly what `typed_value` writes for the value returned: tags, decimal texts, float
-- texts and the order of the keys of every map included.
pub decoded_typed_value-canonical :
    (j : Json) (v : Value) → PositiveZeros j → decoded_typed_value j ≡ ok v → typed_value v ≡ ok j
decoded_typed_value-canonical j v p h = canonical j v p h

-- The exception: two float texts are read as the same value, so the second is not canonical.
pub decoded_typed_value_zeros :
    decoded_typed_value (tagged "float" (Json.string minus_zero))
    ≡ decoded_typed_value (tagged "float" (Json.string "0000000000000000"))
unfolding decoded_typed_value decoded_text decoded_float unpack_hex
decoded_typed_value_zeros = refl
