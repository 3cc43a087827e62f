-- ===== src/Prelude/Sort.antt =====
-- `sorted` and `list.sort` of Python: a stable sort by a strict order of the keys.
use mathlib.Core.Path.{◌≡◌, refl, ap, ◌∙◌}
use mathlib.Core.Bool.{Bool, false}
use mathlib.Core.List.{List, [], ◌∷◌}
use determa_state_python.Prelude.Tests.{if◌then◌else◌}

module _ {A : Type 0} (before : A → A → Bool) where
  unfoldable pub insert : A → List A → List A
  insert a [] = a ∷ []
  insert a (b ∷ bs) = if before b a then b ∷ insert a bs else a ∷ b ∷ bs

  unfoldable pub sort : List A → List A
  unfolding insert
  sort [] = []
  sort (a ∷ as') = insert a (sort as')

  -- No element stands behind one that must follow it.
  abbrev pub Ordered : List A → Type 0
  Ordered [] = Unit
  Ordered (a ∷ []) = Unit
  Ordered (a ∷ b ∷ bs) = (before b a ≡ false) × Ordered (b ∷ bs)

  insert-first : (a : A) (bs : List A) → Ordered (a ∷ bs) → insert a bs ≡ a ∷ bs
  unfolding insert
  insert-first a [] h = refl
  insert-first a (b ∷ bs) h = rw h.0

  Ordered-tail : (a : A) (bs : List A) → Ordered (a ∷ bs) → Ordered bs
  Ordered-tail a [] h = tt
  Ordered-tail a (b ∷ bs) h = h.1

  -- A list in order is its own sort.
  pub sort_self : (as' : List A) → Ordered as' → sort as' ≡ as'
  unfolding sort
  sort_self [] h = refl
  sort_self (a ∷ as') h =
      ap (insert a) (sort_self as' (Ordered-tail a as' h)) ∙ insert-first a as' h
