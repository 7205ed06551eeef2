-- ===== src/Result.antt =====
-- Rust's `Result`, with a third case for a panic, and the `?` operator as `◌>>=◌`.
use outpack_server.Prelude.{
  Bool, List, Option, [], false, inl, inr, none, refl, some, true, ◌∷◌, ◌≡◌, ◌⊎◌,
}

pub data Result {ℓ κ} (E : Type κ) (A : Type ℓ) : Type (ℓ ⊔ κ) where
  ok : A → Result E A
  err : E → Result E A
  panicked : Result E A

module _ {ℓ ℓ' κ} {A : Type ℓ} {B : Type ℓ'} {E : Type κ} where
  infixl 5 ◌>>=◌
  abbrev pub ◌>>=◌ : Result E A → (A → Result E B) → Result E B
  ok a >>= f = f a
  err e >>= f = err e
  panicked >>= f = panicked

  -- `Result::and_then`: the same, where the operator is that of another type.
  abbrev pub and_then : Result E A → (A → Result E B) → Result E B
  and_then m f = m >>= f

  -- `Result::map`
  abbrev pub map_ok : (A → B) → Result E A → Result E B
  map_ok f r = r >>= λ a. ok (f a)

  -- Where a chain succeeds, its first part gave a value and the rest succeeded from there.
  pub >>=-eq-ok :
      (first : Result E A) (next : A → Result E B) {end : B}
      → (first >>= next) ≡ ok end
      → (x : A) × (first ≡ ok x) × (next x ≡ ok end)
  >>=-eq-ok panicked next e = cc
  >>=-eq-ok (err _) next e = cc
  >>=-eq-ok (ok x) next e = (x, refl, e)

infixl 5 ◌>>◌
abbrev pub ◌>>◌ {ℓ κ} : {B : Type ℓ} {E : Type κ} → Result E (Unit {0}) → Result E B → Result E B
m >> k = m >>= λ _. k

-- `Result::map_err`, and the conversion that `?` makes.
abbrev pub map_err {ℓ κ κ'} :
    {A : Type ℓ} {E : Type κ} {F : Type κ'} → (E → F) → Result E A → Result F A
map_err f (ok a) = ok a
map_err f (err e) = err (f e)
map_err f panicked = panicked

-- `Option::ok_or_else`
abbrev pub ok_or {ℓ κ} : {A : Type ℓ} {E : Type κ} → E → Option A → Result E A
ok_or e none = err e
ok_or e (some a) = ok a

abbrev pub is_ok {ℓ κ} : {A : Type ℓ} {E : Type κ} → Result E A → Bool
is_ok (ok a) = true
is_ok _ = false

module _ {ℓ ℓ' κ} {A : Type ℓ} {B : Type ℓ'} {E : Type κ} where
  -- `iter().map(f).collect::<Result<Vec<_>, _>>()`: the first error ends it.
  unfoldable pub collect : (A → Result E B) → List A → Result E (List B)
  collect f [] = ok []
  collect f (x ∷ xs) = let rest = collect f xs in f x >>= λ y. rest >>= λ ys. ok (y ∷ ys)

  -- `iter().filter_map(..).collect()` where the closure keeps, drops or fails.
  unfoldable pub collect_some : (A → Result E (Option B)) → List A → Result E (List B)
  collect_some f [] = ok []
  collect_some f (x ∷ xs) =
      let rest = collect_some f xs in
      f x >>= λ o. rest >>= λ ys. ok (elim o [ none ↦ ys | some y ↦ y ∷ ys ])

pub ok_or-eq-ok {ℓ κ} :
    {A : Type ℓ} {E : Type κ} (e : E) (o : Option A) {a : A} → ok_or e o ≡ ok a → o ≡ some a
ok_or-eq-ok e none h = cc
ok_or-eq-ok e (some a) h = cc

pub Result-cases {ℓ κ} :
    {A : Type ℓ} {E : Type κ} (r : Result E A)
    → ((a : A) × (r ≡ ok a)) ⊎ (((e : E) × (r ≡ err e)) ⊎ (r ≡ panicked))
Result-cases (ok a) = inl (a, refl)
Result-cases (err e) = inr (inl (e, refl))
Result-cases panicked = inr (inr refl)

pub map_err-eq-ok {ℓ κ κ'} :
    {A : Type ℓ} {E : Type κ} {F : Type κ'} (f : E → F) (r : Result E A) {a : A}
    → map_err f r ≡ ok a
    → r ≡ ok a
map_err-eq-ok f (ok b) e = cc
map_err-eq-ok f (err x) e = cc
map_err-eq-ok f panicked e = cc
