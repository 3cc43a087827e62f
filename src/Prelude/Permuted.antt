-- ===== src/Prelude/Permuted.antt =====
-- Lists in another order: what sorting keeps. `Permᴰ` is the library's relation with its derivation.
use mathlib.Core.List.{map}
use mathlib.Core.List.Permᴰ as PermD
use mathlib.Core.List.Permᴰ.{Permᴰ}
use mathlib.Core.Path.{◌≡◌, refl, sym, ap, ◌∙◌, subst}
use mathlib.Core.Logic.{◌≢◌, ◌⊎◌, inl, inr}
use mathlib.Core.Bool.{Bool}
use mathlib.Core.List.{List, [], ◌∷◌, ◌++◌}
use determa_state_python.Prelude.Tests.{Bool-cases}
use determa_state_python.Prelude.Lists.{All}
use determa_state_python.Prelude.Distinct.{NotIn, Distinct}
use determa_state_python.Prelude.Sort.{insert, sort}

module _ {ℓ κ} {A : Type ℓ} (P : A → Type κ) where
  pub All-Perm : {xs ys : List A} → Permᴰ xs ys → All P xs → All P ys
  All-Perm PermD.nil h = tt
  All-Perm (PermD.cons e p) h = (subst P e h.0, All-Perm p h.1)
  All-Perm (PermD.swap e d) h = (subst P d h.1.0, (subst P e h.0, h.1.1))
  All-Perm (PermD.trans p q) h = All-Perm q (All-Perm p h)

module _ {ℓ} {A : Type ℓ} where
  pub Distinct-Perm : {xs ys : List A} → Permᴰ xs ys → Distinct xs → Distinct ys
  Distinct-Perm PermD.nil d = tt
  Distinct-Perm (PermD.cons {b = b} {l₁ = xs} e p) d =
      (All-Perm (λ z. b ≢ z) p (subst (λ z. NotIn z xs) e d.0), Distinct-Perm p d.1)
  Distinct-Perm (PermD.swap {l = l} e f) d = (
    ((λ q. d.0.0 (e ∙ sym q ∙ sym f)), subst (λ z. NotIn z l) f d.1.0),
    (subst (λ z. NotIn z l) e d.0.1, d.1.1),
  )
  Distinct-Perm (PermD.trans p q) d = Distinct-Perm q (Distinct-Perm p d)

module _ {ℓ κ} {A : Type ℓ} {B : Type κ} (f : A → B) where
  pub map-Perm : {xs ys : List A} → Permᴰ xs ys → Permᴰ (map f xs) (map f ys)
  map-Perm PermD.nil = PermD.nil
  map-Perm (PermD.cons e p) = PermD.cons (ap f e) (map-Perm p)
  map-Perm (PermD.swap e d) = PermD.swap (ap f e) (ap f d)
  map-Perm (PermD.trans p q) = PermD.trans (map-Perm p) (map-Perm q)

-- Membership by recursion.
module _ {A : Type 0} where
  abbrev pub Elem : A → List A → Type 0
  Elem a [] = ⊥
  Elem a (x ∷ xs) = (a ≡ x) ⊎ Elem a xs

  pub Elem-append_left : (a : A) (xs ys : List A) → Elem a xs → Elem a (xs ++ ys)
  Elem-append_left a [] ys m = absurd m
  Elem-append_left a (x ∷ xs) ys (inl e) = inl e
  Elem-append_left a (x ∷ xs) ys (inr m) = inr (Elem-append_left a xs ys m)

  pub Elem-append_right : (a : A) (xs ys : List A) → Elem a ys → Elem a (xs ++ ys)
  Elem-append_right a [] ys m = m
  Elem-append_right a (x ∷ xs) ys m = inr (Elem-append_right a xs ys m)

  pub Elem-append : (a : A) (xs ys : List A) → Elem a (xs ++ ys) → Elem a xs ⊎ Elem a ys
  Elem-append a [] ys m = inr m
  Elem-append a (x ∷ xs) ys (inl e) = inl (inl e)
  Elem-append a (x ∷ xs) ys (inr m) = elim (Elem-append a xs ys m) [
    | inl l ↦ inl (inr l)
    | inr r ↦ inr r
  ]

  pub Elem-Perm : (a : A) {xs ys : List A} → Permᴰ xs ys → Elem a xs → Elem a ys
  Elem-Perm a PermD.nil m = absurd m
  Elem-Perm a (PermD.cons e p) (inl q) = inl (q ∙ e)
  Elem-Perm a (PermD.cons e p) (inr m) = inr (Elem-Perm a p m)
  Elem-Perm a (PermD.swap e d) (inl q) = inr (inl (q ∙ e))
  Elem-Perm a (PermD.swap e d) (inr (inl q)) = inl (q ∙ d)
  Elem-Perm a (PermD.swap e d) (inr (inr m)) = inr (inr m)
  Elem-Perm a (PermD.trans p q) m = Elem-Perm a q (Elem-Perm a p m)

pub NotIn-Elem : {A : Type 0} (a : A) (xs : List A) → NotIn a xs → Elem a xs → ⊥
NotIn-Elem a [] n m = absurd m
NotIn-Elem a (x ∷ xs) n (inl e) = n.0 e
NotIn-Elem a (x ∷ xs) n (inr m) = NotIn-Elem a xs n.1 m

pub Elem-map : {A B : Type 0} (f : A → B) (a : A) (xs : List A) → Elem a xs → Elem (f a) (map f xs)
Elem-map f a [] m = absurd m
Elem-map f a (x ∷ xs) (inl e) = inl (ap f e)
Elem-map f a (x ∷ xs) (inr m) = inr (Elem-map f a xs m)

-- What two lists share stays shared under a function.
pub Elem-map-imp :
    {A B : Type 0} (f : A → B) (b : B) (xs ys : List A)
    → ((a : A) → Elem a xs → Elem a ys)
    → Elem b (map f xs)
    → Elem b (map f ys)
Elem-map-imp f b [] ys h m = absurd m
Elem-map-imp f b (x ∷ xs) ys h (inl e) =
    subst (λ c. Elem c (map f ys)) (sym e) (Elem-map f x ys (h x (inl refl)))
Elem-map-imp f b (x ∷ xs) ys h (inr m) = Elem-map-imp f b xs ys (λ a n. h a (inr n)) m

module _ {A : Type 0} (before : A → A → Bool) where
  insert-Perm : (a : A) (xs : List A) → Permᴰ (insert before a xs) (a ∷ xs)
  unfolding insert
  insert-Perm a [] = PermD.refl (a ∷ [])
  insert-Perm a (x ∷ xs) = elim (Bool-cases (before x a)) [
    | inl y ↦ rw y (PermD.trans (PermD.cons refl (insert-Perm a xs)) (PermD.swap refl refl))
    | inr n ↦ rw n (PermD.refl (a ∷ x ∷ xs))
  ]

  pub sort-Perm : (xs : List A) → Permᴰ (sort before xs) xs
  unfolding sort
  sort-Perm [] = PermD.nil
  sort-Perm (x ∷ xs) = PermD.trans (insert-Perm x (sort before xs)) (PermD.cons refl (sort-Perm xs))
