-- ===== src/Yaml/Host.antt =====
-- `validate_unicode`, `validate_portable_values` and `normalize_portable_values` of yaml12.py on the values
-- of a host. A text is its list of code points, and a binary64 number its pattern. A list or dictionary
-- is what the functions find when they go through it: `enclosing` stands for a reference back to a list or
-- dictionary that they are in (`identity in ancestors`).
pub mod Normal
pub mod Normalize
use determa_state_python.Prelude.{
  ℕ, Bool, true, false, not, ◌&&◌, List, [], ◌∷◌, any, leb, eqb, ◌||◌, if◌then◌else◌,
}
use determa_state_python.Prelude.Int.{ℤ, in_int_range}
use determa_state_python.Prelude.Outcome.{Outcome, ok, err, ◌>>=◌, ◌>>◌, require}
use determa_state_python.Codes.MachineLoadFailureCode.{
  MachineLoadFailureCode, non_json_value, non_string_map_key, numeric_value_out_of_range,
}
use determa_state_python.Wire.Typed.{is_finite, positive_zero}

abbrev pub Text : Type 0
Text = List ℕ

mutual
  pub data Host : Type 0 where
    null other enclosing : Host
    boolean : Bool → Host
    integer : ℤ → Host
    float : ℕ → Host
    text : Text → Host
    list : Hosts → Host
    dict : Pairs → Host

  pub data Hosts : Type 0 where
    nil : Hosts
    cons : Host → Hosts → Hosts

  -- The items of a dictionary.
  pub data Pairs : Type 0 where
    end : Pairs
    pair : Host → Host → Pairs → Pairs

abbrev pub Loaded {ℓ} : Type ℓ → Type ℓ
Loaded = Outcome MachineLoadFailureCode

-- Equality of texts
abbrev pub same_text : Text → Text → Bool
same_text [] [] = true
same_text (c ∷ s) (d ∷ t) = eqb c d && same_text s t
same_text _ _ = false

-- `key in result`, where all keys are texts
abbrev pub has_key : Text → Pairs → Bool
has_key k Pairs.end = false
has_key k (Pairs.pair (Host.text j) v ps) = same_text j k || has_key k ps
has_key k (Pairs.pair _ v ps) = has_key k ps

-- `result[key] = ...` of a key that is new
abbrev pub with_pair : Pairs → Host → Host → Pairs
with_pair Pairs.end k v = Pairs.pair k v Pairs.end
with_pair (Pairs.pair j w ps) k v = Pairs.pair j w (with_pair ps k v)

-- `_has_invalid_unicode`
unfoldable pub has_invalid_unicode : Text → Bool
has_invalid_unicode value = any (λ char. leb 55296 char && leb char 57343) value

abbrev pub is_text : Host → Bool
is_text (Host.text s) = true
is_text _ = false

-- `_validate_unicode`
unfoldable mutual
  pub validate_unicode : Host → Bool
  validate_unicode (Host.text s) = not (has_invalid_unicode s)
  validate_unicode (Host.list vs) = validate_unicode_items vs
  validate_unicode (Host.dict ps) = validate_unicode_pairs ps
  validate_unicode Host.enclosing = false
  validate_unicode _ = true

  pub validate_unicode_items : Hosts → Bool
  validate_unicode_items Hosts.nil = true
  validate_unicode_items (Hosts.cons v vs) = validate_unicode v && validate_unicode_items vs

  pub validate_unicode_pairs : Pairs → Bool
  validate_unicode_pairs Pairs.end = true
  validate_unicode_pairs (Pairs.pair k v ps) =
      is_text k && validate_unicode k && validate_unicode v && validate_unicode_pairs ps

-- `_validate_portable_values`
unfoldable mutual
  pub validate_portable_values : Host → Loaded (Unit {0})
  validate_portable_values (Host.integer z) = require (in_int_range z) numeric_value_out_of_range
  validate_portable_values (Host.float n) = require (is_finite n) numeric_value_out_of_range
  validate_portable_values (Host.list vs) = validate_items vs
  validate_portable_values (Host.dict ps) = validate_pairs ps
  validate_portable_values Host.enclosing = err non_json_value
  validate_portable_values Host.other = err non_json_value
  validate_portable_values _ = ok tt

  pub validate_items : Hosts → Loaded (Unit {0})
  validate_items Hosts.nil = ok tt
  validate_items (Hosts.cons v vs) = validate_portable_values v >> validate_items vs

  pub validate_pairs : Pairs → Loaded (Unit {0})
  validate_pairs Pairs.end = ok tt
  validate_pairs (Pairs.pair k v ps) =
      require (is_text k) non_string_map_key >> validate_portable_values v >> validate_pairs ps

-- `_normalize_portable_values`; it is called on values without `enclosing` alone.
unfoldable mutual
  pub normalize : Host → Host
  normalize (Host.float n) = Host.float (positive_zero n)
  normalize (Host.list vs) = Host.list (normalize_items vs)
  normalize (Host.dict ps) = Host.dict (normalize_pairs ps)
  normalize v = v

  pub normalize_items : Hosts → Hosts
  normalize_items Hosts.nil = Hosts.nil
  normalize_items (Hosts.cons v vs) = Hosts.cons (normalize v) (normalize_items vs)

  pub normalize_pairs : Pairs → Pairs
  normalize_pairs Pairs.end = Pairs.end
  normalize_pairs (Pairs.pair k v ps) = Pairs.pair k (normalize v) (normalize_pairs ps)

-- `normalize_portable_values`
unfoldable pub normalize_portable_values : Host → Loaded Host
normalize_portable_values value = validate_portable_values value >> ok (normalize value)
