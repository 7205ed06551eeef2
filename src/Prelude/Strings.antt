-- ===== src/Prelude/Strings.antt =====
-- Rust's strings as their UTF-8 bytes, and what the program uses of `str`: order, trimming,
-- concatenation, decimal printing, and the UTF-8 check of a file name.
use Prim.Native.Char.{code}
use Prim.Native.Nat.{ℕ, zero, suc, ◌+◌, ◌/◌, ◌%◌}
use Prim.Native.String.{String}
use mathlib.Core.Bool.{Bool, true, false, ◌&&◌, ◌||◌}
use mathlib.Core.Option.{Option, none, some}
use mathlib.Core.List.{List, [], ◌∷◌, ◌++◌, reverse}
use outpack_server.Prelude.Bools.{ltb, leb, nat_eqb, if◌then◌else◌, in_range}
use outpack_server.Prelude.Lists.{length}

abbrev pub Bytes : Type 0
Bytes = List ℕ

-- `str` and `String`: a list of bytes that is valid UTF-8.
abbrev pub Text : Type 0
Text = Bytes

-- An ASCII literal of the source.
abbrev pub codes : String → Text
codes String.[] = []
codes (String.◌∷◌ c s) = code c ∷ codes s

abbrev pub is_digit : ℕ → Bool
is_digit = in_range b'0' b'9'

-- `[[:xdigit:]]`
abbrev pub is_xdigit : ℕ → Bool
is_xdigit c = is_digit c || (in_range b'a' b'f' c || in_range b'A' b'F' c)

-- `[[:alnum:]]`
abbrev pub is_alnum : ℕ → Bool
is_alnum c = is_digit c || (in_range b'a' b'z' c || in_range b'A' b'Z' c)

-- The characters with the property White_Space, by the number of their UTF-8 bytes.
abbrev pub space1 : ℕ → Bool
space1 a = in_range 9 13 a || nat_eqb a 32

abbrev pub space2 : ℕ → ℕ → Bool
space2 a b = nat_eqb a 0xc2 && (nat_eqb b 0x85 || nat_eqb b 0xa0)

abbrev pub space3 : ℕ → ℕ → ℕ → Bool
space3 a b c =
    (nat_eqb a 0xe1 && (nat_eqb b 0x9a && nat_eqb c 0x80))
    || (nat_eqb a 0xe2
        && ((nat_eqb b 0x80
              && (in_range 0x80 0x8a c || (nat_eqb c 0xa8 || (nat_eqb c 0xa9 || nat_eqb c 0xaf))))
            || (nat_eqb b 0x81 && nat_eqb c 0x9f)))
    || (nat_eqb a 0xe3 && (nat_eqb b 0x80 && nat_eqb c 0x80))

-- How many bytes the white space character at the head of the text has; 0 if none stands there.
pub space_width : Text → ℕ
space_width [] = 0
space_width (a ∷ []) = if space1 a then 1 else 0
space_width (a ∷ b ∷ []) = if space1 a then 1 else if space2 a b then 2 else 0
space_width (a ∷ b ∷ c ∷ _) =
    if space1 a then 1 else if space2 a b then 2 else if space3 a b c then 3 else 0

-- The same at the end of the text, which is given reversed.
pub space_width_back : Text → ℕ
space_width_back [] = 0
space_width_back (a ∷ []) = if space1 a then 1 else 0
space_width_back (b ∷ a ∷ []) = if space1 b then 1 else if space2 a b then 2 else 0
space_width_back (c ∷ b ∷ a ∷ _) =
    if space1 c then 1 else if space2 b c then 2 else if space3 a b c then 3 else 0

-- Drops characters while the width of the next one is not 0. The number counts the bytes of the
-- character at hand that are still to be dropped.
pub strip : (Text → ℕ) → ℕ → Text → Text
strip width n [] = []
strip width (suc n) (a ∷ t) = strip width n t
strip width zero (a ∷ t) = elim (width (a ∷ t)) [ zero ↦ a ∷ t | suc n ↦ strip width n t ]

unfoldable pub trim_start : Text → Text
unfolding strip space_width
trim_start t = strip space_width 0 t

unfoldable pub trim_end : Text → Text
unfolding strip space_width_back
trim_end t = reverse (strip space_width_back 0 (reverse t))

-- `str::trim`
unfoldable pub trim : Text → Text
unfolding trim_start trim_end
trim t = trim_end (trim_start t)

-- `a <= b` for `str`: the bytes in lexicographic order.
abbrev pub text_le : Text → Text → Bool
text_le [] b = true
text_le (x ∷ a) [] = false
text_le (x ∷ a) (y ∷ b) =
    let rest = text_le a b in if ltb x y then true else if nat_eqb x y then rest else false

-- `str::strip_prefix`
abbrev pub strip_prefix : Text → Text → Option Text
strip_prefix [] t = some t
strip_prefix (c ∷ p) [] = none
strip_prefix (c ∷ p) (d ∷ t) = let rest = strip_prefix p t in if nat_eqb c d then rest else none

-- `[..].join(sep)`
unfoldable pub join_text : Text → List Text → Text
join_text sep [] = []
join_text sep (t ∷ []) = t
join_text sep (t ∷ u ∷ ts) = t ++ (sep ++ join_text sep (u ∷ ts))

-- The digits of `n`, before `acc`; a number has fewer digits than the fuel.
decimal_onto : ℕ → ℕ → Text → Text
decimal_onto zero n acc = acc
decimal_onto (suc fuel) n acc =
    let digit = b'0' + n % 10 in
    let rest = decimal_onto fuel (n / 10) (digit ∷ acc) in if ltb n 10 then digit ∷ acc else rest

-- `format!("{}", n)`
unfoldable pub decimal : ℕ → Text
unfolding decimal_onto
decimal n = decimal_onto (suc n) n []

abbrev cont : ℕ → Bool
cont = in_range 0x80 0xbf

-- The bytes that may follow the first byte of a character.
abbrev second_of_three : ℕ → ℕ → Bool
second_of_three a b =
    if nat_eqb a 0xe0
    then in_range 0xa0 0xbf b
    else if nat_eqb a 0xed
    then in_range 0x80 0x9f b
    else in_range 0xe1 0xef a && cont b

abbrev second_of_four : ℕ → ℕ → Bool
second_of_four a b =
    if nat_eqb a 0xf0
    then in_range 0x90 0xbf b
    else if nat_eqb a 0xf4
    then in_range 0x80 0x8f b
    else in_range 0xf1 0xf3 a && cont b

-- The width of the UTF-8 character at the head of the bytes; 0 if there is none.
char_width : Bytes → ℕ
char_width [] = 0
char_width (a ∷ t) = if leb a 0x7f then 1 else multi t
  where
    multi : Bytes → ℕ
    multi [] = 0
    multi (b ∷ []) = if in_range 0xc2 0xdf a && cont b then 2 else 0
    multi (b ∷ c ∷ []) =
        if in_range 0xc2 0xdf a && cont b then 2 else if second_of_three a b && cont c then 3 else 0
    multi (b ∷ c ∷ d ∷ _) =
        if in_range 0xc2 0xdf a && cont b
        then 2
        else if second_of_three a b && cont c
        then 3
        else if second_of_four a b && (cont c && cont d)
        then 4
        else 0

-- `str::from_utf8(..).is_ok()`: nothing is left when whole characters are dropped.
unfoldable pub is_utf8 : Bytes → Bool
unfolding strip char_width
is_utf8 t = nat_eqb (length (strip char_width 0 t)) 0
