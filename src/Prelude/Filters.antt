-- ===== src/Prelude/Filters.antt =====
-- Lists that are filtered, rearranged and joined.
use mathlib.Core.Bool.{Bool, true, false, not, ◌&&◌, ◌||◌}
use mathlib.Core.List.{
  List, [], ◌∷◌, ◌++◌, Perm, Permᴰ, Mem, mem-cons_self, mem-cons_of_mem, perm_middle, append-nil,
}
use mathlib.Core.List.Perm
use mathlib.Core.Logic.{∥∥₁_elim, ∥∥₁_prop, inl, inr}
use mathlib.Core.Path.{◌≡◌, refl, subst}
use native.Mathlib.Omega.{arith}
use outpack_server.Prelude.Bools.{if◌then◌else◌, Bool-cases}
use outpack_server.Prelude.Lists.{keep, All, take, drop, take-append-drop, length}
use Prim.Native.Nat.{ℕ}

module _ {ℓ} {A : Type ℓ} where
  pub keep_cong : (f g : A → Bool) (l : List A) → All (λ x. f x ≡ g x) l → keep f l ≡ keep g l
  keep_cong f g [] h = refl
  keep_cong f g (x ∷ l) (e, h) = rw (e, keep_cong f g l h)

  pub keep-keep : (f g : A → Bool) (l : List A) → keep f (keep g l) ≡ keep (λ x. g x && f x) l
  keep-keep f g [] = refl
  keep-keep f g (x ∷ l) = ground (arith, keep-keep f g l)

  pub All-imp {κ κ'} :
      {P : A → Type κ} {Q : A → Type κ'} → ((x : A) → P x → Q x) → (l : List A) → All P l → All Q l
  All-imp h [] a = tt
  All-imp h (x ∷ l) (p, a) = (h x p, All-imp h l a)

  pub All-All {κ} : {P : A → Type κ} → ((x : A) → P x) → (l : List A) → All P l
  All-All h [] = tt
  All-All h (x ∷ l) = (h x, All-All h l)

  pub All-Mem : (l : List A) → All (λ x. Mem x l) l
  All-Mem [] = tt
  All-Mem (x ∷ l) = (mem-cons_self, All-imp (λ y m. mem-cons_of_mem x m) l (All-Mem l))

  keep-Permᴰ : (f : A → Bool) {a b : List A} → Permᴰ a b → Perm (keep f a) (keep f b)
  keep-Permᴰ f Permᴰ.nil = Perm.refl []
  keep-Permᴰ f (Permᴰ.cons {a = x} {b = y} e p) = elim (Bool-cases (f y)) [
    | inl h ↦ rw (e, h) (Perm.cons y (keep-Permᴰ f p))
    | inr h ↦ rw (e, h) (keep-Permᴰ f p)
  ]
  keep-Permᴰ f (Permᴰ.swap {a = x} {b = y} {a' = z} {b' = w} {l = l} e d) =
      rw (e, d) (swapped (f w) (f z))
    where
      swapped :
          (b c : Bool)
          → Perm
              (if b
                then w ∷ (if c then z ∷ keep f l else keep f l)
                else (if c then z ∷ keep f l else keep f l))
              (if c
                then z ∷ (if b then w ∷ keep f l else keep f l)
                else (if b then w ∷ keep f l else keep f l))
      swapped true true = Perm.swap z w (keep f l)
      swapped true false = Perm.refl _
      swapped false true = Perm.refl _
      swapped false false = Perm.refl _
  keep-Permᴰ f (Permᴰ.trans p q) = Perm.trans (keep-Permᴰ f p) (keep-Permᴰ f q)

  pub keep-perm : (f : A → Bool) {a b : List A} → Perm a b → Perm (keep f a) (keep f b)
  keep-perm f p = ∥∥₁_elim p ∥∥₁_prop (keep-Permᴰ f)

  -- What passes one test, then what passes only the other, is what passes either.
  pub keep-append-perm :
      (f g : A → Bool) (l : List A)
      → Perm (keep f l ++ keep (λ x. not (f x) && g x) l) (keep (λ x. f x || g x) l)
  keep-append-perm f g [] = Perm.refl []
  keep-append-perm f g (x ∷ l) = elim (Bool-cases (f x)) [
    | inl h ↦ rw h (Perm.cons x (keep-append-perm f g l))
    | inr h ↦ elim (Bool-cases (g x)) [
      | inl k ↦ rw (h, k) (Perm.trans (perm_middle _ _) (Perm.cons x (keep-append-perm f g l)))
      | inr k ↦ rw (h, k) (keep-append-perm f g l)
    ]
  ]

  -- The member at a position goes behind all the others.
  pub to_last : ℕ → List A → List A
  to_last i l = take i l ++ (drop 1 (drop i l) ++ take 1 (drop i l))

  turned : (l : List A) → Perm (drop 1 l ++ take 1 l) l
  turned [] = Perm.refl []
  turned (x ∷ l) = subst (λ t. Perm (l ++ (x ∷ [])) (x ∷ t)) (append-nil l) (perm_middle l [])

  pub to_last-perm : (i : ℕ) (l : List A) → Perm (to_last i l) l
  unfolding to_last
  to_last-perm i l =
      subst (Perm (to_last i l)) (take-append-drop i l)
        (unfold to_last in Perm.append_left (take i l) (turned (drop i l)))

  pub to_last-append :
      (front back : List A) (p : A)
      → to_last (length front) (front ++ (p ∷ back)) ≡ (front ++ back) ++ (p ∷ [])
  unfolding to_last
  to_last-append [] back p = refl
  to_last-append (x ∷ front) back p = rw (to_last-append front back p)
