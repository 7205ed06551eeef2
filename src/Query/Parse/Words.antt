-- ===== src/Query/Parse/Words.antt =====
-- src/query/query.pest: the names that the printer of queries writes are read back.

use outpack_server.Prelude.{
  &&-eq-true, Text, [], all, arith, codes, drop_while, refl, true, ◌++◌, ◌∷◌, ◌≡◌,
}
use outpack_server.Query.Parse.Convert.{parse_test_value, peek}
use outpack_server.Query.Parse.Grammar.{
  atomic, exactly, is_identifier, many, match_identifier, match_lookup, match_lookup_packet,
  matched, one_of, rule, skip, ◌//◌, ◌~~◌, ◌~◌,
}
use outpack_server.Query.Parse.Pairs.{Pair, Rule, no_pairs, one_pair, pair}
use outpack_server.Query.Parse.Print.{FitsLookup, is_name_of, print_lookup}
use outpack_server.Query.Parse.Steps.{
  Stops, at_bracket, at_end, at_space, consumed-append, drop_while-all-append, within,
}
use outpack_server.Query.Types.{Lookup, environment, id, lookup, name, packet, parameter, this}
use outpack_server.Result.{ok}

-- A byte of a word is no white space, and the text after a word begins with none of its bytes.
name_ends : (k : Text) → Stops k → drop_while is_identifier k ≡ k
name_ends _ at_end = refl
name_ends _ (at_space t) = refl
name_ends _ (at_bracket t) = refl

skip-name : (t k : Text) → is_name_of t ≡ true → skip (t ++ k) ≡ t ++ k
skip-name [] k h = cc
skip-name (c ∷ t) k h = ground arith

match_name :
    (t k : Text)
    → is_name_of t ≡ true
    → Stops k
    → (one_of is_identifier ~~ many is_identifier) (t ++ k) ≡ matched no_pairs k
unfolding ◌~~◌ one_of many
match_name [] k h s = cc
match_name (c ∷ t) k h s =
    let (first, others) = &&-eq-true (is_identifier c) (all is_identifier t) h in
    rw (first, drop_while-all-append is_identifier t k others (name_ends k s)) refl

reads_identifier :
    (t k : Text)
    → is_name_of t ≡ true
    → Stops k
    → match_identifier (skip (t ++ k)) ≡ matched (one_pair (pair Rule.identifier t no_pairs)) k
unfolding match_identifier atomic
reads_identifier t k h s = rw (skip-name t k h, match_name t k h s, consumed-append t k) refl

pub reads_lookup :
    (l : Lookup) (k : Text)
    → FitsLookup l
    → Stops k
    → (p : Pair) × (match_lookup (print_lookup l k) ≡ matched (one_pair p) k)
      × (parse_test_value p ≡ ok (lookup l))
unfolding match_lookup match_lookup_packet ◌~~◌ ◌~◌ ◌//◌ exactly rule print_lookup parse_test_value
    peek
reads_lookup (packet name) k h s = (_, refl, refl)
reads_lookup (packet id) k h s = (_, refl, refl)
reads_lookup (packet (parameter t)) k h s =
    let ts = codes "parameter:" ++ (t ++ k) in
    let found = one_pair (pair Rule.identifier t no_pairs) in
    let param = within Rule.lookup_packet_param ts k found in
    (
      within Rule.lookup ts k (one_pair (within Rule.lookup_packet ts k (one_pair param))),
      rw (reads_identifier t k h s) refl,
      refl,
    )
reads_lookup (this t) k h s =
    let ts = codes "this:" ++ (t ++ k) in
    let found = one_pair (pair Rule.identifier t no_pairs) in
    (
      within Rule.lookup ts k (one_pair (within Rule.lookup_this ts k found)),
      rw (reads_identifier t k h s) refl,
      refl,
    )
reads_lookup (environment t) k h s =
    let ts = codes "environment:" ++ (t ++ k) in
    let found = one_pair (pair Rule.identifier t no_pairs) in
    (
      within Rule.lookup ts k (one_pair (within Rule.lookup_environment ts k found)),
      rw (reads_identifier t k h s) refl,
      refl,
    )
