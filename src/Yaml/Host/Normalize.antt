-- ===== src/Yaml/Host/Normalize.antt =====
-- `normalize_portable_values` of yaml12.py on values whose dictionaries have distinct keys.
use determa_state_python.Prelude.{◌≡◌, refl, ◌∙◌, Bool, true, false}
use determa_state_python.Prelude.Int.{in_int_range}
use determa_state_python.Prelude.Outcome.{Outcome, ok, err, ◌>>◌, require, ok-eq}
use determa_state_python.Wire.Typed.{is_finite}
use determa_state_python.Yaml.Host.{
  Text, Host, Hosts, Pairs, has_key, validate_portable_values, validate_items, validate_pairs,
  normalize, normalize_items, normalize_pairs, normalize_portable_values,
}
use determa_state_python.Yaml.Host.Normal.{
  IsNormal, AreNormal, ArePairs, positive_zero-IsNormal, validates, normalizes,
}

-- In a dictionary of Python no two keys are equal.
unfoldable mutual
  pub HasDicts : Host → Type 0
  HasDicts (Host.list vs) = HaveDicts vs
  HasDicts (Host.dict ps) = AreDicts ps
  HasDicts _ = Unit

  pub HaveDicts : Hosts → Type 0
  HaveDicts Hosts.nil = Unit
  HaveDicts (Hosts.cons v vs) = HasDicts v × HaveDicts vs

  pub AreDicts : Pairs → Type 0
  AreDicts Pairs.end = Unit
  AreDicts (Pairs.pair (Host.text k) v ps) = (has_key k ps ≡ false) × HasDicts v × AreDicts ps
  AreDicts (Pairs.pair _ v ps) = HasDicts v × AreDicts ps

-- Both of two checks return, if one after the other does.
both_ok :
    {E : Type 0} {A : Type 0} (m : Outcome E (Unit {0})) (n : Outcome E A) (a : A)
    → (m >> n) ≡ ok a
    → (m ≡ ok tt) × (n ≡ ok a)
both_ok (ok tt) n a h = (refl, h)
both_ok (err e) n a h = absurd (cc)

require_holds : {E : Type 0} (b : Bool) (e : E) → require b e ≡ ok tt → b ≡ true
require_holds true e h = refl
require_holds false e h = absurd (cc)

has_key-normalize : (k : Text) (ps : Pairs) → has_key k (normalize_pairs ps) ≡ has_key k ps
unfolding normalize_pairs
has_key-normalize k Pairs.end = refl
has_key-normalize k (Pairs.pair (Host.text j) v ps) = rw (has_key-normalize k ps) refl
has_key-normalize k (Pairs.pair Host.null v ps) = has_key-normalize k ps
has_key-normalize k (Pairs.pair Host.other v ps) = has_key-normalize k ps
has_key-normalize k (Pairs.pair Host.enclosing v ps) = has_key-normalize k ps
has_key-normalize k (Pairs.pair (Host.boolean b) v ps) = has_key-normalize k ps
has_key-normalize k (Pairs.pair (Host.integer z) v ps) = has_key-normalize k ps
has_key-normalize k (Pairs.pair (Host.float n) v ps) = has_key-normalize k ps
has_key-normalize k (Pairs.pair (Host.list vs) v ps) = has_key-normalize k ps
has_key-normalize k (Pairs.pair (Host.dict qs) v ps) = has_key-normalize k ps

mutual
  unfolding HasDicts IsNormal validate_portable_values normalize

  normalize-IsNormal :
      (v : Host) → HasDicts v → validate_portable_values v ≡ ok tt → IsNormal (normalize v)
  normalize-IsNormal Host.null d h = tt
  normalize-IsNormal (Host.boolean b) d h = tt
  normalize-IsNormal (Host.text s) d h = tt
  normalize-IsNormal (Host.integer z) d h = require_holds (in_int_range z) _ h
  normalize-IsNormal (Host.float n) d h = positive_zero-IsNormal n (require_holds (is_finite n) _ h)
  normalize-IsNormal (Host.list vs) d h = normalize-AreNormal vs d h
  normalize-IsNormal (Host.dict ps) d h = normalize-ArePairs ps d h
  normalize-IsNormal Host.enclosing d h = absurd (cc)
  normalize-IsNormal Host.other d h = absurd (cc)

  normalize-AreNormal :
      (vs : Hosts) → HaveDicts vs → validate_items vs ≡ ok tt → AreNormal (normalize_items vs)
  normalize-AreNormal Hosts.nil d h = tt
  normalize-AreNormal (Hosts.cons v vs) d h =
      let (p, q) = both_ok (validate_portable_values v) (validate_items vs) tt h in
      (normalize-IsNormal v d.0 p, normalize-AreNormal vs d.1 q)

  normalize-ArePairs :
      (ps : Pairs) → AreDicts ps → validate_pairs ps ≡ ok tt → ArePairs (normalize_pairs ps)
  normalize-ArePairs Pairs.end d h = tt
  normalize-ArePairs (Pairs.pair (Host.text k) v ps) d h =
      let (p, q) = both_ok (validate_portable_values v) (validate_pairs ps) tt h in
      (has_key-normalize k ps ∙ d.0, normalize-IsNormal v d.1 p, normalize-ArePairs ps d.2 q)
  normalize-ArePairs (Pairs.pair _ v ps) d h = absurd (cc)

-- If no dictionary in a value has two equal keys, what `normalize_portable_values` returns for it has
-- integers of 64 bits, finite floats and no negative zero, and its dictionaries have texts that differ as
-- keys; `normalize_portable_values` accepts it again and returns it as it is.
pub normalize_portable_values-IsNormal :
    (v w : Host)
    → HasDicts v
    → normalize_portable_values v ≡ ok w
    → IsNormal w × (normalize_portable_values w ≡ ok w)
unfolding normalize_portable_values
normalize_portable_values-IsNormal v w d h =
    let (p, q) = both_ok (validate_portable_values v) (ok (normalize v)) w h in
    let normal : IsNormal w = rw (← ok-eq q) (normalize-IsNormal v d p) in
    (normal, rw (validates w normal, normalizes w normal) refl)
