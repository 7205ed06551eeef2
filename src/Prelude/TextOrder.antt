-- ===== src/Prelude/TextOrder.antt =====
-- The order of `str`, and lists sorted by an order.
use mathlib.Core.Bool.{Bool, true, false}
use mathlib.Core.List.{List, [], ◌∷◌, ◌++◌}
use mathlib.Core.Logic.{inl, inr}
use mathlib.Core.Option.{Option, none, some}
use mathlib.Core.Path.{◌≡◌, refl, subst}
use native.Mathlib.Omega.{arith}
use outpack_server.Prelude.Bools.{Bool-cases, Option-cases}
use outpack_server.Prelude.Lists.{keep, All, last}
use outpack_server.Prelude.Filters.{All-imp}
use outpack_server.Prelude.Sorting.{IsSorted}
use outpack_server.Prelude.Strings.{Text, text_le}

pub text_le_refl : (a : Text) → text_le a a ≡ true
text_le_refl [] = refl
text_le_refl (x ∷ a) = ground (arith, text_le_refl a)

pub text_le_total : (a b : Text) → text_le a b ≡ false → text_le b a ≡ true
text_le_total [] b h = cc
text_le_total (x ∷ a) [] h = refl
text_le_total (x ∷ a) (y ∷ b) h = ground (arith, text_le_total a b)

pub text_le_trans : (a b c : Text) → text_le a b ≡ true → text_le b c ≡ true → text_le a c ≡ true
text_le_trans [] b c h k = refl
text_le_trans (x ∷ a) [] c h k = cc
text_le_trans (x ∷ a) (y ∷ b) [] h k = cc
text_le_trans (x ∷ a) (y ∷ b) (z ∷ c) h k = ground (arith, text_le_trans a b c)

pub text_le_antisymm : (a b : Text) → text_le a b ≡ true → text_le b a ≡ true → a ≡ b
text_le_antisymm [] [] h k = refl
text_le_antisymm [] (y ∷ b) h k = cc
text_le_antisymm (x ∷ a) [] h k = cc
text_le_antisymm (x ∷ a) (y ∷ b) h k = ground (arith, text_le_antisymm a b)

-- The list is in the order of a key of its members.
abbrev pub IsSortedBy {ℓ} : {A : Type ℓ} → (A → Text) → List A → Type 0
IsSortedBy key l = IsSorted (λ a b. text_le (key a) (key b)) l

module _ {ℓ} {A : Type ℓ} where
  abbrev or_last : Option A → A → Option A
  or_last none x = some x
  or_last (some y) x = some y

  last-cons : (x : A) (l : List A) → last (x ∷ l) ≡ or_last (last l) x
  last-cons x [] = refl
  last-cons x (y ∷ l) = ground (arith, last-cons y l)

  pub last-eq-none : (l : List A) → last l ≡ none → l ≡ []
  last-eq-none [] h = refl
  last-eq-none (x ∷ l) h = absurd (ground (arith, last-cons x l))

  pub last-append : (l : List A) (x : A) → last (l ++ (x ∷ [])) ≡ some x
  last-append [] x = refl
  last-append (y ∷ l) x = ground (arith, last-cons y (l ++ (x ∷ [])), last-append l x)

  -- What holds of all members holds of the one that is taken.
  pub last-keep-All {κ} :
      (f : A → Bool) (l : List A) (p : A) (P : A → Type κ)
      → last (keep f l) ≡ some p
      → All P l
      → P p
  last-keep-All f [] p P h a = cc
  last-keep-All f (x ∷ l) p P h (px, a) = elim (Bool-cases (f x)) [
    | inr e ↦ last-keep-All f l p P (rw e at h) a
    | inl e ↦ elim (Option-cases (last (keep f l))) [
      | inl n ↦ subst P (ground (arith, last-cons x (keep f l))) px
      | inr (q, n) ↦ last-keep-All f l p P (ground (arith, last-cons x (keep f l))) a
    ]
  ]

module _ {ℓ} {A : Type ℓ} (key : A → Text) where
  abbrev below : A → A → Bool
  below a b = text_le (key a) (key b)

  head-le : (x : A) (l : List A) → IsSortedBy key (x ∷ l) → All (λ y. below x y ≡ true) l
  head-le x [] s = tt
  head-le x (y ∷ l) (h, s) =
      (h, All-imp (λ z k. text_le_trans (key x) (key y) (key z) h k) l (head-le y l s))

  pub IsSorted-tail : (x : A) (l : List A) → IsSortedBy key (x ∷ l) → IsSortedBy key l
  IsSorted-tail x [] s = tt
  IsSorted-tail x (y ∷ l) s = s.1

  none_kept : (f : A → Bool) (l : List A) → last (keep f l) ≡ none → All (λ x. f x ≡ false) l
  none_kept f [] h = tt
  none_kept f (x ∷ l) h = elim (Bool-cases (f x)) [
    | inl e ↦ absurd (ground (arith, last-cons x (keep f l)))
    | inr e ↦ (e, none_kept f l (rw e at h))
  ]

  -- Of what a filter leaves of a sorted list, the last stands behind all the others.
  pub last-keep :
      (f : A → Bool) (l : List A) (p : A)
      → IsSortedBy key l
      → last (keep f l) ≡ some p
      → (f p ≡ true) × All (λ x. f x ≡ true → below x p ≡ true) l
  last-keep f [] p s h = cc
  last-keep f (x ∷ l) p s h = elim (Bool-cases (f x)) [
    | inr e ↦ let (a, b) = last-keep f l p (IsSorted-tail x l s) (rw e at h) in (a, ((λ t. cc), b))
    | inl e ↦ elim (Option-cases (last (keep f l))) [
      | inl n ↦
          let same : x ≡ p = ground (arith, last-cons x (keep f l)) in
          (
            rw (← same) e,
            ((λ _. rw (← same) (text_le_refl (key x))), All-imp (λ y k t. cc) l (none_kept f l n)),
          )
      | inr (q, n) ↦
          let same : last (keep f l) ≡ some p = ground (arith, last-cons x (keep f l)) in
          let (a, b) = last-keep f l p (IsSorted-tail x l s) same in
          (a, ((λ _. last-keep-All f l p (λ y. below x y ≡ true) same (head-le x l s)), b))
    ]
  ]
