-- ===== src/Examples/Sources.antt =====
-- yaml12.py on concrete sources and values.
use determa_state_python.Prelude.{ℕ, ◌≡◌, refl, true, some, ◌^◌}
use determa_state_python.Prelude.Int.{negsuc}
use determa_state_python.Prelude.Outcome.{ok, err}
use determa_state_python.Codes.MachineLoadFailureCode.{
  duplicate_key, invalid_boolean_syntax, invalid_numeric_syntax,
}
use determa_state_python.Wire.Decimal.{int_text}
use determa_state_python.Yaml.Host.{
  Host, Hosts, Pairs, normalize_portable_values, has_invalid_unicode, validate_unicode,
  validate_portable_values, normalize,
}
use determa_state_python.Yaml.Host.Normal.{IsNormal}
use determa_state_python.Yaml.Host.Normalize.{HasDicts, normalize_portable_values-IsNormal}
use determa_state_python.Yaml.Plain.{
  codes_of, resolve_plain, is_integer, is_json_number, is_nonportable_number,
}
use determa_state_python.Yaml.Plain.Integers.{resolve_plain-int_text}
use determa_state_python.Yaml.Load.{
  Node, NodePairs, Composed, Scanned, Token, Library, construct_scalar, construct,
  reject_yaml_features, load_all, load,
}
use determa_state_python.Yaml.Load.Portable.{load-IsNormal}

abbrev key : Node
key = Node.scalar true (codes_of "a")

-- A source of which the library finds one mapping, and in which each float is a negative zero.
abbrev library_of : NodePairs → Library
library_of ps = record {
  tokens = λ _. Scanned.token Token.plain_token Scanned.all_scanned;
  compose = λ _. Composed.document (Node.mapping ps) Composed.finished;
  float = λ _. some (2 ^ 63);
}

abbrev one_pair : NodePairs
one_pair = NodePairs.pair key (Node.scalar true (codes_of "-0.0")) NodePairs.end

abbrev loaded : Host
loaded = Host.dict (Pairs.pair (Host.text (codes_of "a")) (Host.float 0) Pairs.end)

load_reads : load (library_of one_pair) (codes_of "a: -0.0") ≡ ok loaded
unfolding load load_all reject_yaml_features construct construct_scalar resolve_plain is_integer
    is_json_number is_nonportable_number has_invalid_unicode validate_unicode
load_reads = refl

load_refuses :
    load (library_of (NodePairs.pair key key one_pair)) (codes_of "{a: a, a: -0.0}")
    ≡ err duplicate_key
unfolding load load_all reject_yaml_features construct construct_scalar resolve_plain is_integer
    is_json_number is_nonportable_number has_invalid_unicode
load_refuses = refl

resolve_plain_refuses :
    (resolve_plain (λ _. some 0) (codes_of "True") ≡ err invalid_boolean_syntax)
    × (resolve_plain (λ _. some 0) (codes_of "0x1F") ≡ err invalid_numeric_syntax)
    × (resolve_plain (λ _. some 0) (codes_of "1_000") ≡ err invalid_numeric_syntax)
    × (resolve_plain (λ _. some 0) (codes_of "-.INF") ≡ err invalid_numeric_syntax)
    × (resolve_plain (λ _. some 0) (codes_of "1.5.2") ≡ ok (Host.text (codes_of "1.5.2")))
unfolding resolve_plain is_integer is_json_number is_nonportable_number
resolve_plain_refuses = (refl, refl, refl, refl, refl)

load-IsNormal_example :
    IsNormal loaded
    × (validate_unicode loaded ≡ true)
    × (validate_portable_values loaded ≡ ok tt)
    × (normalize loaded ≡ loaded)
load-IsNormal_example = load-IsNormal (library_of one_pair) (codes_of "a: -0.0") loaded load_reads

resolve_plain-int_text_example :
    resolve_plain (λ _. some 0) (codes_of (int_text (negsuc 41))) ≡ ok (Host.integer (negsuc 41))
resolve_plain-int_text_example = resolve_plain-int_text (λ _. some 0) (negsuc 41) refl

-- `[-0.0]`, and what it becomes
abbrev zeros : ℕ → Host
zeros n = Host.list (Hosts.cons (Host.float n) Hosts.nil)

normalize_portable_values-IsNormal_example :
    IsNormal (Host.dict (Pairs.pair (Host.text (codes_of "a")) (zeros 0) Pairs.end))
    × (normalize_portable_values
          (Host.dict (Pairs.pair (Host.text (codes_of "a")) (zeros 0) Pairs.end))
        ≡ ok (Host.dict (Pairs.pair (Host.text (codes_of "a")) (zeros 0) Pairs.end)))
unfolding HasDicts normalize_portable_values validate_portable_values normalize
normalize_portable_values-IsNormal_example =
    normalize_portable_values-IsNormal
      (Host.dict (Pairs.pair (Host.text (codes_of "a")) (zeros (2 ^ 63)) Pairs.end))
      (Host.dict (Pairs.pair (Host.text (codes_of "a")) (zeros 0) Pairs.end)) (refl, (tt, tt), tt)
      refl
