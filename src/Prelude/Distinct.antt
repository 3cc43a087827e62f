-- ===== src/Prelude/Distinct.antt =====
-- Lists without repetition: the test `x in seen` of a Python set, and the predicate it decides.

use mathlib.Core.Path.{◌≡◌, refl, sym}
use mathlib.Core.Logic.{◌≢◌, ◌↔◌}
use mathlib.Core.Bool.{Bool, true, false, not, ◌&&◌, ◌||◌}
use mathlib.Core.List.{List, [], ◌∷◌, ◌++◌}
use native.Mathlib.Omega.{arith}
use determa_state_python.Prelude.Lists.{All}

module _ {ℓ} {A : Type ℓ} where
  abbrev pub NotIn : A → List A → Type ℓ
  NotIn a = All (λ b. a ≢ b)

  abbrev pub Distinct : List A → Type ℓ
  Distinct [] = Unit
  Distinct (x ∷ xs) = NotIn x xs × Distinct xs

  pub NotIn-append : (a : A) (xs ys : List A) → NotIn a xs → NotIn a ys → NotIn a (xs ++ ys)
  NotIn-append a [] ys p q = q
  NotIn-append a (x ∷ xs) ys p q = (p.0, NotIn-append a xs ys p.1 q)

  pub NotIn-snoc : (a b : A) (xs : List A) → NotIn a (xs ++ b ∷ []) → a ≢ b
  NotIn-snoc a b [] h = h.0
  NotIn-snoc a b (x ∷ xs) h = NotIn-snoc a b xs h.1

  -- A new element may be put anywhere.
  pub Distinct-insert :
      (a : A) (xs ys : List A) → NotIn a (xs ++ ys) → Distinct (xs ++ ys) → Distinct (xs ++ a ∷ ys)
  Distinct-insert a [] ys n d = (n, d)
  Distinct-insert a (x ∷ xs) ys n d = (spread xs n.0 d.0, Distinct-insert a xs ys n.1 d.1)
    where
      spread : (zs : List A) → a ≢ x → NotIn x (zs ++ ys) → NotIn x (zs ++ a ∷ ys)
      spread [] ne h = ((λ e. ne (sym e)), h)
      spread (z ∷ zs) ne h = (h.0, spread zs ne h.1)

module _ {ℓ} {A : Type ℓ} (eq : A → A → Bool) where
  abbrev pub contains : List A → A → Bool
  contains [] a = false
  contains (x ∷ xs) a = eq a x || contains xs a

  -- `len(xs) == len(set(xs))`
  abbrev pub distinct : List A → Bool
  distinct [] = true
  distinct (x ∷ xs) = not (contains xs x) && distinct xs

module _ {ℓ} {A : Type ℓ} (eq : A → A → Bool) (law : (a b : A) → (eq a b ≡ true) ↔ (a ≡ b)) where
  pub contains-NotIn : (a : A) (xs : List A) → contains eq xs a ≡ false → NotIn a xs
  contains-NotIn a [] h = tt
  contains-NotIn a (x ∷ xs) h = ground (arith, law a x, contains-NotIn a xs)

  pub NotIn-contains : (a : A) (xs : List A) → NotIn a xs → contains eq xs a ≡ false
  NotIn-contains a [] h = refl
  NotIn-contains a (x ∷ xs) h = ground (arith, law a x, NotIn-contains a xs h.1)

  pub distinct_iff : (xs : List A) → (distinct eq xs ≡ true) ↔ Distinct xs
  distinct_iff [] = ((λ _. tt), (λ _. refl))
  distinct_iff (x ∷ xs) = (
    (λ h. (contains-NotIn x xs (ground arith), (distinct_iff xs).0 (ground arith))),
    (λ d. ground (arith, NotIn-contains x xs d.0, (distinct_iff xs).1 d.1)),
  )
