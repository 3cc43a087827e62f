-- ===== src/Wire/Typed.antt =====
-- `typed_value` and `decoded_typed_value` of wire.py: the tagged representation of program values.
pub mod Canonical
use Prim.Native.Nat.{◌/◌, ◌%◌}
use determa_state_python.Prelude.{
  ℕ, ◌^◌, ◌≡◌, refl, Bool, true, false, not, ◌||◌, List, [], ◌∷◌, Option, none, some, String, ◌==◌,
  eqb, if◌then◌else◌,
}
use determa_state_python.Prelude.Int.{ℤ, in_int_range}
use determa_state_python.Prelude.Text.{precedes}
use determa_state_python.Prelude.Outcome.{Outcome, ok, err, ◌>>=◌}
use determa_state_python.Codes.PersistenceFailureCode.{
  PersistenceFailureCode, invalid_aggregate_state,
}
use determa_state_python.Wire.Value.{Value, Values, Fields, Json, Items, Members}
use determa_state_python.Wire.Decimal.{int_text, signed_decimal}
use determa_state_python.Wire.Hex.{pack_hex, unpack_hex}

-- `math.isfinite` of a binary64 pattern: its exponent is not all ones.
abbrev pub is_finite : ℕ → Bool
is_finite n = not (eqb ((n / 2 ^ 52) % 2048) 2047)

-- `number == 0.0`: the patterns of both zeros.
abbrev pub is_zero : ℕ → Bool
is_zero n = eqb n 0 || eqb n (2 ^ 63)

-- `0.0 if number == 0.0 else number`
abbrev pub positive_zero : ℕ → ℕ
positive_zero n = if is_zero n then 0 else n

abbrev pub tagged : String → Json → Json
tagged tag payload = Json.array (Items.cons (Json.string tag) (Items.cons payload Items.nil))

-- One entry `[key, value]` of an encoded map.
abbrev pub entry : String → Json → Json
entry = tagged

-- Keys and their encoded values, put in the order of the keys' UTF-8 (`sorted`, which is stable).
unfoldable pub insert_entry : String → Json → List (String × Json) → List (String × Json)
insert_entry k j [] = (k, j) ∷ []
insert_entry k j ((l, m) ∷ rest) =
    if precedes l k then (l, m) ∷ insert_entry k j rest else (k, j) ∷ (l, m) ∷ rest

unfoldable pub entries : List (String × Json) → Items
entries [] = Items.nil
entries ((k, j) ∷ rest) = Items.cons (entry k j) (entries rest)

abbrev pub Result : Type 0 → Type 0
Result = Outcome PersistenceFailureCode

-- `typed_value`; texts are sequences of Unicode scalars by type, so `validate_unicode` has nothing to refuse
-- in them, and the keys of a dictionary can be encoded as UTF-8.
unfoldable mutual
  pub typed_value : Value → Result Json
  typed_value Value.null = ok (Json.array (Items.cons (Json.string "null") Items.nil))
  typed_value (Value.boolean b) = ok (tagged "boolean" (Json.boolean b))
  typed_value (Value.string s) = ok (tagged "string" (Json.string s))
  typed_value (Value.integer z) =
      if in_int_range z
      then ok (tagged "integer" (Json.string (int_text z)))
      else err invalid_aggregate_state
  typed_value (Value.float n) =
      if is_finite n
      then ok (tagged "float" (Json.string (pack_hex (positive_zero n))))
      else err invalid_aggregate_state
  typed_value (Value.list vs) = typed_values vs >>= λ xs. ok (tagged "list" (Json.array xs))
  typed_value (Value.dict fs) =
      typed_fields fs >>= λ es. ok (tagged "map" (Json.array (entries es)))

  pub typed_values : Values → Result Items
  typed_values Values.nil = ok Items.nil
  typed_values (Values.cons v vs) =
      typed_value v >>= λ x. typed_values vs >>= λ xs. ok (Items.cons x xs)

  pub typed_fields : Fields → Result (List (String × Json))
  typed_fields Fields.end = ok []
  typed_fields (Fields.field k v fs) =
      typed_value v >>= λ x. typed_fields fs >>= λ es. ok (insert_entry k x es)

-- The texts under the tags "integer" and "float".
unfoldable pub decoded_integer : Result ℤ → Result Value
decoded_integer (err e) = err e
decoded_integer (ok z) =
    if in_int_range z then ok (Value.integer z) else err invalid_aggregate_state

unfoldable pub decoded_float : Option ℕ → Result Value
decoded_float none = err invalid_aggregate_state
decoded_float (some n) =
    if is_finite n then ok (Value.float (positive_zero n)) else err invalid_aggregate_state

unfoldable pub decoded_text : String → String → Result Value
unfolding decoded_integer decoded_float
decoded_text tag s =
    if tag == "string"
    then ok (Value.string s)
    else if tag == "integer"
    then decoded_integer (signed_decimal s)
    else if tag == "float"
    then decoded_float (unpack_hex s)
    else err invalid_aggregate_state

-- `previous is not None and encoded <= previous` does not hold.
abbrev pub ascends : Option String → String → Bool
ascends none key = true
ascends (some previous) key = precedes previous key

-- `decoded_typed_value`
unfoldable mutual
  pub decoded_typed_value : Json → Result Value
  decoded_typed_value (Json.array xs) = decoded_tagged xs
  decoded_typed_value _ = err invalid_aggregate_state

  pub decoded_tagged : Items → Result Value
  decoded_tagged (Items.cons (Json.string tag) Items.nil) =
      if tag == "null" then ok Value.null else err invalid_aggregate_state
  decoded_tagged (Items.cons (Json.string tag) (Items.cons payload Items.nil)) =
      decoded_payload tag payload
  decoded_tagged _ = err invalid_aggregate_state

  pub decoded_payload : String → Json → Result Value
  decoded_payload tag (Json.boolean b) =
      if tag == "boolean" then ok (Value.boolean b) else err invalid_aggregate_state
  decoded_payload tag (Json.string s) = decoded_text tag s
  decoded_payload tag (Json.array xs) =
      let as_list = decoded_list xs >>= λ vs. ok (Value.list vs) in
      let as_map = decoded_map none xs >>= λ fs. ok (Value.dict fs) in
      if tag == "list"
      then as_list
      else if tag == "map"
      then as_map
      else err invalid_aggregate_state
  decoded_payload tag _ = err invalid_aggregate_state

  pub decoded_list : Items → Result Values
  decoded_list Items.nil = ok Values.nil
  decoded_list (Items.cons x xs) =
      decoded_typed_value x >>= λ v. decoded_list xs >>= λ vs. ok (Values.cons v vs)

  pub decoded_map : Option String → Items → Result Fields
  decoded_map previous Items.nil = ok Fields.end
  decoded_map previous
        (Items.cons (Json.array (Items.cons (Json.string key) (Items.cons x Items.nil))) rest) =
      let later = decoded_typed_value x >>= λ v.
      decoded_map (some key) rest >>= λ fs. ok (Fields.field key v fs) in
      if ascends previous key then later else err invalid_aggregate_state
  decoded_map previous _ = err invalid_aggregate_state
