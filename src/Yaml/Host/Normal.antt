-- ===== src/Yaml/Host/Normal.antt =====
-- Portable values in their normal form: integers of 64 bits, finite floats without a negative zero, and
-- dictionaries whose keys are texts that differ.
use determa_state_python.Prelude.{
  ℕ, ◌≡◌, refl, ap, ◌∙◌, Bool, true, false, [], ◌∷◌, Bool-cases, inl, inr, arith, if◌then◌else◌,
}
use determa_state_python.Prelude.Int.{in_int_range}
use determa_state_python.Prelude.Outcome.{ok, err, ok-eq}
use determa_state_python.Codes.MachineLoadFailureCode.{MachineLoadFailureCode}
use determa_state_python.Wire.Typed.{is_finite, is_zero, positive_zero}
use determa_state_python.Yaml.Host.{
  Text, Host, Hosts, Pairs, validate_portable_values, validate_items, validate_pairs, normalize,
  normalize_items, normalize_pairs, same_text, has_key, with_pair, Loaded,
}

unfoldable mutual
  pub IsNormal : Host → Type 0
  IsNormal (Host.integer z) = in_int_range z ≡ true
  IsNormal (Host.float n) = (is_finite n ≡ true) × (positive_zero n ≡ n)
  IsNormal (Host.list vs) = AreNormal vs
  IsNormal (Host.dict ps) = ArePairs ps
  IsNormal Host.enclosing = ⊥
  IsNormal Host.other = ⊥
  IsNormal _ = Unit

  pub AreNormal : Hosts → Type 0
  AreNormal Hosts.nil = Unit
  AreNormal (Hosts.cons v vs) = IsNormal v × AreNormal vs

  pub ArePairs : Pairs → Type 0
  ArePairs Pairs.end = Unit
  ArePairs (Pairs.pair (Host.text k) v ps) = (has_key k ps ≡ false) × IsNormal v × ArePairs ps
  ArePairs (Pairs.pair _ v ps) = ⊥

-- What `validate_portable_values` and `normalize_portable_values` make of it.
mutual
  unfolding IsNormal validate_portable_values

  pub validates : (v : Host) → IsNormal v → validate_portable_values v ≡ ok tt
  validates Host.null h = refl
  validates (Host.boolean b) h = refl
  validates (Host.text s) h = refl
  validates (Host.integer z) h = rw h refl
  validates (Host.float n) h = rw h.0 refl
  validates (Host.list vs) h = validates_items vs h
  validates (Host.dict ps) h = validates_pairs ps h
  validates Host.enclosing h = absurd h
  validates Host.other h = absurd h

  pub validates_items : (vs : Hosts) → AreNormal vs → validate_items vs ≡ ok tt
  validates_items Hosts.nil h = refl
  validates_items (Hosts.cons v vs) h = rw (validates v h.0, validates_items vs h.1) refl

  pub validates_pairs : (ps : Pairs) → ArePairs ps → validate_pairs ps ≡ ok tt
  validates_pairs Pairs.end h = refl
  validates_pairs (Pairs.pair (Host.text k) v ps) h =
      rw (validates v h.1, validates_pairs ps h.2) refl
  validates_pairs (Pairs.pair _ v ps) h = absurd h

mutual
  unfolding IsNormal normalize

  pub normalizes : (v : Host) → IsNormal v → normalize v ≡ v
  normalizes (Host.float n) h = ap Host.float h.1
  normalizes (Host.list vs) h = ap Host.list (normalizes_items vs h)
  normalizes (Host.dict ps) h = ap Host.dict (normalizes_pairs ps h)
  normalizes Host.null h = refl
  normalizes Host.other h = refl
  normalizes Host.enclosing h = refl
  normalizes (Host.boolean b) h = refl
  normalizes (Host.text s) h = refl
  normalizes (Host.integer z) h = refl

  pub normalizes_items : (vs : Hosts) → AreNormal vs → normalize_items vs ≡ vs
  normalizes_items Hosts.nil h = refl
  normalizes_items (Hosts.cons v vs) h = rw (normalizes v h.0, normalizes_items vs h.1) refl

  pub normalizes_pairs : (ps : Pairs) → ArePairs ps → normalize_pairs ps ≡ ps
  normalizes_pairs Pairs.end h = refl
  normalizes_pairs (Pairs.pair (Host.text k) v ps) h =
      rw (normalizes v h.1, normalizes_pairs ps h.2) refl
  normalizes_pairs (Pairs.pair _ v ps) h = absurd h

-- A float that is finite is so without its negative zero.
pub positive_zero-IsNormal : (n : ℕ) → is_finite n ≡ true → IsNormal (Host.float (positive_zero n))
unfolding IsNormal
positive_zero-IsNormal n h = elim (Bool-cases (is_zero n)) [
  | inl y ↦ rw y (refl, refl)
  | inr f ↦ rw (f, f) (h, refl)
]

-- A call that raises, or returns a value in normal form.
pub record OkNormal (x : Loaded Host) : Type 0 where
  pub normal : (v : Host) → x ≡ ok v → IsNormal v

pub OkNormal-err : (e : MachineLoadFailureCode) → OkNormal (err e)
OkNormal-err e = record { normal = λ v p. absurd (cc) }

pub OkNormal-ok : (v : Host) → IsNormal v → OkNormal (ok v)
OkNormal-ok v h = record { normal = λ w p. rw (← ok-eq p) h }

pub OkNormal-if :
    (b : Bool) (x y : Loaded Host) → OkNormal x → OkNormal y → OkNormal (if b then x else y)
OkNormal-if true x y p q = p
OkNormal-if false x y p q = q

same_text_sym : (s t : Text) → same_text s t ≡ same_text t s
same_text_sym [] [] = refl
same_text_sym (c ∷ s) (d ∷ t) = rw (same_text_sym s t) (ground arith)
same_text_sym [] (d ∷ t) = refl
same_text_sym (c ∷ s) [] = refl

has_key-with_pair :
    (j k : Text) (v : Host) (ps : Pairs)
    → has_key j ps ≡ false
    → same_text k j ≡ false
    → has_key j (with_pair ps (Host.text k) v) ≡ false
has_key-with_pair j k v Pairs.end h n = rw n refl
has_key-with_pair j k v (Pairs.pair (Host.text i) w ps) h n =
    ground (arith, has_key-with_pair j k v ps (ground arith) n)
has_key-with_pair j k v (Pairs.pair _ w ps) h n = has_key-with_pair j k v ps h n

-- A new key keeps a dictionary in normal form.
pub with_pair-ArePairs :
    (k : Text) (v : Host) (ps : Pairs)
    → has_key k ps ≡ false
    → IsNormal v
    → ArePairs ps
    → ArePairs (with_pair ps (Host.text k) v)
unfolding IsNormal
with_pair-ArePairs k v Pairs.end n h a = (refl, h, tt)
with_pair-ArePairs k v (Pairs.pair (Host.text j) w ps) n h a = (
  has_key-with_pair j k v ps a.0 (same_text_sym k j ∙ ground arith),
  a.1,
  with_pair-ArePairs k v ps (ground arith) h a.2,
)
with_pair-ArePairs k v (Pairs.pair _ w ps) n h a = absurd a
