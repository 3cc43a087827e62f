-- ===== src/Yaml/Load/Portable.antt =====
-- What `load` returns is portable and in normal form.
use determa_state_python.Prelude.{
  ℕ, ◌≡◌, refl, Bool, true, false, not, List, [], ◌∷◌, Option, none, some, Bool-cases, inl, inr,
  All, if◌then◌else◌,
}
use determa_state_python.Prelude.Int.{in_int_range, ℤ}
use determa_state_python.Prelude.Outcome.{ok, err, ◌>>◌, require, >>=-eq-ok, ok-eq}
use determa_state_python.Codes.MachineLoadFailureCode.{
  duplicate_key, invalid_unicode, invalid_boolean_syntax, invalid_null_syntax,
  invalid_numeric_syntax,
}
use determa_state_python.Wire.Typed.{is_finite}
use determa_state_python.Yaml.Host.{
  Text, Host, Hosts, Pairs, Loaded, has_invalid_unicode, has_key, with_pair, validate_unicode,
  same_text, validate_portable_values, normalize,
}
use determa_state_python.Yaml.Host.Normal.{
  IsNormal, AreNormal, ArePairs, validates, normalizes, positive_zero-IsNormal, OkNormal,
  OkNormal-if, OkNormal-ok, OkNormal-err, with_pair-ArePairs,
}
use determa_state_python.Yaml.Plain.{
  Float, checked_integer, checked_float, resolve_plain, resolve_null, resolve_number,
  is_json_number, is_integer, is_nonportable_number, int_of, codes_of, is_one_of, invalid_null,
  string_boolean_like, invalid_boolean,
}
use determa_state_python.Yaml.Load.{
  Node, Nodes, NodePairs, Library, check_key, construct_scalar, construct, construct_sequence,
  construct_mapping, Composed, load_all, only, load, reject_yaml_features,
}

integer-OkNormal : (z : ℤ) → OkNormal (checked_integer z)
unfolding IsNormal
integer-OkNormal z = elim (Bool-cases (in_int_range z)) [
  | inl y ↦ rw y (OkNormal-ok (Host.integer z) y)
  | inr n ↦ rw n (OkNormal-err _)
]

float-OkNormal : (o : Option ℕ) → OkNormal (checked_float o)
float-OkNormal none = OkNormal-err _
float-OkNormal (some n) = elim (Bool-cases (is_finite n)) [
  | inl y ↦ rw y (OkNormal-ok _ (positive_zero-IsNormal n y))
  | inr f ↦ rw f (OkNormal-err _)
]

number-OkNormal : (float : Float) (value : Text) → OkNormal (resolve_number float value)
unfolding IsNormal
number-OkNormal float value =
    OkNormal-if (is_json_number value)
      (if is_integer value then checked_integer (int_of value) else checked_float (float value)) _
      (OkNormal-if (is_integer value) (checked_integer (int_of value)) (checked_float (float value))
        (integer-OkNormal (int_of value)) (float-OkNormal (float value)))
      (OkNormal-if (is_nonportable_number value) (err invalid_numeric_syntax) (ok (Host.text value))
        (OkNormal-err invalid_numeric_syntax) (OkNormal-ok (Host.text value) tt))

null-OkNormal : (float : Float) (value : Text) → OkNormal (resolve_null float value)
unfolding IsNormal
null-OkNormal float value =
    OkNormal-if (same_text value (codes_of "null")) (ok Host.null) _ (OkNormal-ok Host.null tt) (
      OkNormal-if (is_one_of invalid_null value) (err invalid_null_syntax) _
        (OkNormal-err invalid_null_syntax)
        (OkNormal-if (is_one_of string_boolean_like value) (ok (Host.text value))
          (resolve_number float value) (OkNormal-ok (Host.text value) tt)
          (number-OkNormal float value)))

pub resolve_plain-OkNormal : (float : Float) (value : Text) → OkNormal (resolve_plain float value)
unfolding IsNormal resolve_plain
resolve_plain-OkNormal float value =
    OkNormal-if (same_text value (codes_of "true")) (ok (Host.boolean true)) _
      (OkNormal-ok (Host.boolean true) tt)
      (OkNormal-if (same_text value (codes_of "false")) (ok (Host.boolean false)) _
        (OkNormal-ok (Host.boolean false) tt)
        (OkNormal-if (is_one_of invalid_boolean value) (err invalid_boolean_syntax)
          (resolve_null float value) (OkNormal-err invalid_boolean_syntax)
          (null-OkNormal float value)))

module _ (library : Library) where
  construct_scalar-OkNormal :
      (plain : Bool) (value : Text) → OkNormal (construct_scalar library plain value)
  unfolding IsNormal construct_scalar
  construct_scalar-OkNormal plain value =
      OkNormal-if (has_invalid_unicode value) (err invalid_unicode) _ (OkNormal-err invalid_unicode)
        (OkNormal-if plain (resolve_plain library.float value) (ok (Host.text value))
          (resolve_plain-OkNormal library.float value) (OkNormal-ok (Host.text value) tt))

  -- A key that passes is a text that is new.
  check_key-text :
      (k : Host) (result : Pairs)
      → check_key k result ≡ ok tt
      → (s : Text) × (k ≡ Host.text s) × (has_key s result ≡ false)
  check_key-text (Host.text s) result h = elim (Bool-cases (has_key s result)) [
    | inl y ↦ absurd (err_ok (rw y at h))
    | inr n ↦ (s, refl, n)
  ]
    where
      err_ok : Path (Loaded (Unit {0})) (err duplicate_key) (ok tt) → ⊥
      err_ok q = absurd (cc)
  check_key-text _ result h = absurd (cc)

  mutual
    unfolding IsNormal construct

    construct-IsNormal : (n : Node) (v : Host) → construct library n ≡ ok v → IsNormal v
    construct-IsNormal (Node.scalar plain value) v h =
        (construct_scalar-OkNormal plain value).normal v h
    construct-IsNormal (Node.sequence ns) v h =
        let (vs, items, last) = >>=-eq-ok (construct_sequence library ns) _ h in
        rw (← ok-eq last) (sequence-AreNormal ns vs items)
    construct-IsNormal (Node.mapping ps) v h =
        let (qs, pairs, last) = >>=-eq-ok (construct_mapping library Pairs.end ps) _ h in
        rw (← ok-eq last) (mapping-ArePairs Pairs.end ps qs tt pairs)

    sequence-AreNormal :
        (ns : Nodes) (vs : Hosts) → construct_sequence library ns ≡ ok vs → AreNormal vs
    sequence-AreNormal Nodes.nil vs h = rw (← ok-eq h) tt
    sequence-AreNormal (Nodes.cons n ns) vs h =
        let (v, first, h1) = >>=-eq-ok (construct library n) _ h in
        let (ws, rest, last) = >>=-eq-ok (construct_sequence library ns) _ h1 in
        rw (← ok-eq last) (construct-IsNormal n v first, sequence-AreNormal ns ws rest)

    mapping-ArePairs :
        (result : Pairs) (ps : NodePairs) (qs : Pairs)
        → ArePairs result
        → construct_mapping library result ps ≡ ok qs
        → ArePairs qs
    mapping-ArePairs result NodePairs.end qs a h = rw (← ok-eq h) a
    mapping-ArePairs result (NodePairs.pair kn vn ps) qs a h =
        let (k, _, h1) = >>=-eq-ok (construct library kn) _ h in
        let (v, checked, h3) = >>=-eq-ok (check_key k result >> construct library vn) _ h1 in
        let (_, new, value) = >>=-eq-ok (check_key k result) _ checked in
        let (s, is_text, absent) = check_key-text k result new in
        mapping-ArePairs (with_pair result k v) ps qs
          (rw is_text (with_pair-ArePairs s v result absent (construct-IsNormal vn v value) a)) h3

  load_all-AreNormal :
      (c : Composed) (vs : List Host) → load_all library c ≡ ok vs → All IsNormal vs
  unfolding load_all
  load_all-AreNormal Composed.finished vs h = rw (← ok-eq h) tt
  load_all-AreNormal Composed.failed vs h = absurd (cc)
  load_all-AreNormal (Composed.document n rest) vs h =
      let (v, first, h1) = >>=-eq-ok (construct library n) _ h in
      let (ws, others, last) = >>=-eq-ok (load_all library rest) _ h1 in
      rw (← ok-eq last) (construct-IsNormal n v first, load_all-AreNormal rest ws others)

  only-lem :
      (vs : List Host) (v : Host)
      → All IsNormal vs
      → only library vs ≡ ok v
      → IsNormal v × (validate_unicode v ≡ true)
  only-lem [] v a h = absurd (cc)
  only-lem (w ∷ u ∷ vs) v a h = absurd (cc)
  only-lem (w ∷ []) v a h = elim (Bool-cases (validate_unicode w)) [
    | inl y ↦ rw (← ok-eq (rw y at h)) (a.0, y)
    | inr n ↦ absurd (err_ok (rw n at h))
  ]
    where
      err_ok : Path (Loaded Host) (err invalid_unicode) (ok v) → ⊥
      err_ok q = absurd (cc)

  -- Whatever the YAML library finds in a source, and however Python reads a float: a document that `load`
  -- returns is in normal form (integers of 64 bits, finite floats without a negative zero, dictionaries
  -- with texts that differ as keys), all its texts are sequences of Unicode scalars,
  -- `validate_portable_values` accepts it, and normalizing changes nothing.
  pub load-IsNormal :
      (source : Text) (v : Host)
      → load library source ≡ ok v
      → IsNormal v
        × (validate_unicode v ≡ true)
        × (validate_portable_values v ≡ ok tt)
        × (normalize v ≡ v)
  unfolding load
  load-IsNormal source v h =
      let (vs, all, last) =
        >>=-eq-ok (checked_source >> load_all library (library.compose source)) _ h in
      let (_, _, documents) = >>=-eq-ok checked_source _ all in
      let (normal, unicode) =
        only-lem vs v (load_all-AreNormal (library.compose source) vs documents) last in
      (normal, unicode, validates v normal, normalizes v normal)
    where
      checked_source : Loaded (Unit {0})
      checked_source =
          require (not (has_invalid_unicode source)) invalid_unicode
          >> reject_yaml_features library (library.tokens source)
