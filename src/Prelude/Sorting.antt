-- ===== src/Prelude/Sorting.antt =====
-- `slice::sort_by`: the stable sort, whose result is unique.
use mathlib.Core.List.{Perm}
use mathlib.Core.List.Perm
use mathlib.Core.Path.{◌≡◌}
use mathlib.Core.Bool.{Bool, true, false}
use mathlib.Core.List.{List, [], ◌∷◌}
use native.Mathlib.Omega.{arith}
use outpack_server.Prelude.Bools.{if◌then◌else◌, Bool-cases}
use mathlib.Core.Logic.{inl, inr}

module _ {ℓ} {A : Type ℓ} where
  -- The member goes before those that it may stand before.
  unfoldable pub insert_by : (A → A → Bool) → A → List A → List A
  insert_by le a [] = a ∷ []
  insert_by le a (x ∷ xs) = let rest = insert_by le a xs in if le a x then a ∷ x ∷ xs else x ∷ rest

  unfoldable pub sort_by : (A → A → Bool) → List A → List A
  unfolding insert_by
  sort_by le [] = []
  sort_by le (x ∷ xs) = insert_by le x (sort_by le xs)

  -- Each member may stand before its successor.
  abbrev pub IsSorted : (A → A → Bool) → List A → Type 0
  IsSorted le [] = Unit
  IsSorted le (x ∷ []) = Unit
  IsSorted le (x ∷ y ∷ l) = (le x y ≡ true) × IsSorted le (y ∷ l)

  insert_by-perm : (le : A → A → Bool) (a : A) (l : List A) → Perm (insert_by le a l) (a ∷ l)
  unfolding insert_by
  insert_by-perm le a [] = Perm.refl (a ∷ [])
  insert_by-perm le a (x ∷ xs) = elim (Bool-cases (le a x)) [
    | inl h ↦ rw h (Perm.refl (a ∷ x ∷ xs))
    | inr h ↦ rw h (Perm.trans (Perm.cons x (insert_by-perm le a xs)) (Perm.swap a x xs))
  ]

  pub sort_by-perm : (le : A → A → Bool) (l : List A) → Perm (sort_by le l) l
  unfolding sort_by
  sort_by-perm le [] = Perm.refl []
  sort_by-perm le (x ∷ xs) =
      Perm.trans (insert_by-perm le x (sort_by le xs)) (Perm.cons x (sort_by-perm le xs))

  module _ (le : A → A → Bool) (total : (a b : A) → le a b ≡ false → le b a ≡ true) where
    insert_by-IsSorted : (a : A) (l : List A) → IsSorted le l → IsSorted le (insert_by le a l)
    unfolding insert_by
    insert_by-IsSorted a [] s = tt
    insert_by-IsSorted a (x ∷ []) s = ground (arith, total a x)
    insert_by-IsSorted a (x ∷ y ∷ l) s =
        ground (arith, total a x, total a y, insert_by-IsSorted a (y ∷ l))

    pub sort_by-IsSorted : (l : List A) → IsSorted le (sort_by le l)
    unfolding sort_by
    sort_by-IsSorted [] = tt
    sort_by-IsSorted (x ∷ xs) = insert_by-IsSorted x (sort_by le xs) (sort_by-IsSorted xs)
