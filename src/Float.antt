-- ===== src/Float.antt =====
-- `f64`: its comparisons, and its correctly rounded quotients. A finite value is a whole number
-- of units of 2^-1074, the smallest positive `f64`, with a sign.
pub mod Decimal
use Prim.Native.Nat.{compare, Ordering}
use outpack_server.Prelude.{
  Bool, Option, Text, [], all, drop_while, false, if◌then◌else◌, is_digit, leb, length, ltb,
  nat_eqb, none, some, suc, take_while, true, zero, ℕ, ◌%◌, ◌&&◌, ◌*◌, ◌++◌, ◌+◌, ◌-◌, ◌/◌, ◌^◌,
  ◌||◌, ◌∷◌,
}

-- The flag says that the sign is negative.
pub data F64 : Type 0 where
  nan : F64
  infinity : Bool → F64
  finite : Bool → ℕ → F64

cmp_finite : Bool → ℕ → Bool → ℕ → Ordering
cmp_finite false a false b = compare a b
cmp_finite true a true b = compare b a
cmp_finite true a false b = if nat_eqb a 0 && nat_eqb b 0 then Ordering.eq else Ordering.lt
cmp_finite false a true b = if nat_eqb a 0 && nat_eqb b 0 then Ordering.eq else Ordering.gt

below_infinity : Bool → Ordering
below_infinity true = Ordering.gt
below_infinity false = Ordering.lt

above_infinity : Bool → Ordering
above_infinity true = Ordering.lt
above_infinity false = Ordering.gt

cmp_infinity : Bool → Bool → Ordering
cmp_infinity true true = Ordering.eq
cmp_infinity false false = Ordering.eq
cmp_infinity true false = Ordering.lt
cmp_infinity false true = Ordering.gt

-- `f64::partial_cmp`
unfoldable pub partial_cmp : F64 → F64 → Option Ordering
unfolding cmp_finite below_infinity above_infinity cmp_infinity
partial_cmp nan y = none
partial_cmp (infinity s) nan = none
partial_cmp (infinity s) (infinity t) = some (cmp_infinity s t)
partial_cmp (infinity s) (finite t b) = some (above_infinity s)
partial_cmp (finite s a) nan = none
partial_cmp (finite s a) (infinity t) = some (below_infinity t)
partial_cmp (finite s a) (finite t b) = some (cmp_finite s a t b)

-- `==`, `<` and `<=`
abbrev pub eq_of : Option Ordering → Bool
eq_of (some Ordering.eq) = true
eq_of _ = false

abbrev pub lt_of : Option Ordering → Bool
lt_of (some Ordering.lt) = true
lt_of _ = false

abbrev pub le_of : Option Ordering → Bool
le_of (some Ordering.gt) = false
le_of none = false
le_of _ = true

-- The number of binary digits; a number has fewer of them than the fuel.
bits : ℕ → ℕ → ℕ
bits zero n = 0
bits (suc fuel) n = let rest = suc (bits fuel (n / 2)) in if nat_eqb n 0 then 0 else rest

-- The `f64` nearest to `p / q` units, ties to even; `q` is positive.
unfoldable pub nearest : ℕ → ℕ → F64
unfolding bits
nearest p q =
    let s : ℕ = bits (suc (p / q)) (p / q) - 53 in
    let d : ℕ = q * 2 ^ s in
    let n : ℕ = p / d in
    let r : ℕ = p % d in
    let m : ℕ = if ltb (2 * r) d then n else if ltb d (2 * r) then n + 1 else n + n % 2 in
    let u : ℕ = m * 2 ^ s in if leb (2 ^ 2098) u then infinity false else finite false u

-- `n as f64`
unfoldable pub of_integer : ℕ → F64
unfolding nearest
of_integer n = nearest (n * 2 ^ 1074) 1

-- Division of a value without sign by a positive integer.
unfoldable pub div_integer : F64 → ℕ → F64
unfolding nearest
div_integer (finite s u) q = nearest u q
div_integer x q = x
