-- ===== src/Float/Decimal.antt =====
-- `str::parse::<f64>`: the value of a text.
-- A text has a sign, digits, a fraction and an exponent, each but the digits optional.
-- Infinities and `nan` have texts of other forms.

use outpack_server.Float.{F64, finite, infinity, nan, nearest}
use outpack_server.Prelude.{
  Bool, Option, Text, [], all, drop_while, false, if◌then◌else◌, is_digit, length, nat_eqb, none,
  some, take_while, ℕ, ◌&&◌, ◌*◌, ◌++◌, ◌+◌, ◌-◌, ◌^◌, ◌||◌, ◌∷◌,
}

abbrev pub of_digits : ℕ → Text → ℕ
of_digits acc [] = acc
of_digits acc (c ∷ t) = of_digits (acc * 10 + (c - b'0')) t

abbrev with_sign : Bool → F64 → F64
with_sign negative nan = nan
with_sign negative (infinity _) = infinity negative
with_sign negative (finite _ u) = finite negative u

-- `m * 10 ^ up / 10 ^ down`
abbrev pub of_decimal : Bool → ℕ → ℕ → ℕ → F64
of_decimal negative m up down = with_sign negative (nearest (m * 10 ^ up * 2 ^ 1074) (10 ^ down))

abbrev is_minus : Text → Bool
is_minus [] = false
is_minus (c ∷ _) = nat_eqb c b'-'

abbrev drop_sign : Text → Text
drop_sign [] = []
drop_sign (c ∷ t) = if nat_eqb c b'-' || nat_eqb c b'+' then t else c ∷ t

abbrev is_nonempty_digits : Text → Bool
is_nonempty_digits [] = false
is_nonempty_digits (c ∷ t) = all is_digit (c ∷ t)

abbrev read_exponent : Bool → ℕ → ℕ → Text → Option F64
read_exponent negative m places [] = some (of_decimal negative m 0 places)
read_exponent negative m places (c ∷ t) =
    let digits = drop_sign t in
    if (nat_eqb c b'e' || nat_eqb c b'E') && is_nonempty_digits digits
    then some (
        if is_minus t
        then of_decimal negative m 0 (places + of_digits 0 digits)
        else of_decimal negative m (of_digits 0 digits) places)
    else none

abbrev read_places : Bool → Text → Text → Text → Option F64
read_places negative whole places rest =
    if is_nonempty_digits (whole ++ places)
    then read_exponent negative (of_digits 0 (whole ++ places)) (length places) rest
    else none

abbrev read_fraction : Bool → Text → Text → Option F64
read_fraction negative whole [] =
    if is_nonempty_digits whole then some (of_decimal negative (of_digits 0 whole) 0 0) else none
read_fraction negative whole (c ∷ t) =
    if nat_eqb c b'.'
    then read_places negative whole (take_while is_digit t) (drop_while is_digit t)
    else if is_nonempty_digits whole
    then read_exponent negative (of_digits 0 whole) 0 (c ∷ t)
    else none

unfoldable pub parse_f64 : Text → Option F64
unfolding nearest
parse_f64 t =
    let unsigned = drop_sign t in
    read_fraction (is_minus t) (take_while is_digit unsigned) (drop_while is_digit unsigned)
