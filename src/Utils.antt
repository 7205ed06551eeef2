-- ===== src/Utils.antt =====
-- src/utils.rs: packet ids and times.

use outpack_server.Float.{F64, div_integer, of_integer}
use outpack_server.Prelude.{
  Bool, Bytes, List, Text, [], false, if◌then◌else◌, is_digit, is_utf8, is_xdigit, nat_eqb,
  replicate, true, ℕ, ◌&&◌, ◌++◌, ◌∷◌,
}

-- A match of a pattern without repetition: one test for each byte.
abbrev pub matches : List (ℕ → Bool) → Text → Bool
matches [] [] = true
matches [] (_ ∷ _) = false
matches (p ∷ ps) [] = false
matches (p ∷ ps) (c ∷ t) = p c && matches ps t

abbrev pub is_dash : ℕ → Bool
is_dash c = nat_eqb c b'-'

-- `^([0-9]{8}-[0-9]{6}-[[:xdigit:]]{8})$`
abbrev pub id_reg : List (ℕ → Bool)
id_reg =
    replicate 8 is_digit ++ (is_dash ∷ (replicate 6 is_digit ++ (is_dash ∷ replicate 8 is_xdigit)))

unfoldable pub is_packet_str : Text → Bool
is_packet_str t = matches id_reg t

-- The name of a directory entry is any bytes: `to_str` fails where they are not UTF-8.
unfoldable pub is_packet : Bytes → Bool
unfolding is_packet_str
is_packet file_name = if is_utf8 file_name then is_packet_str file_name else false

-- Milliseconds since the epoch, as seconds.
unfoldable pub time_as_num : ℕ → F64
time_as_num millis = div_integer (of_integer millis) 1000
