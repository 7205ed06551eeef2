-- ===== src/Query/Parse/Values.antt =====
-- src/query/query.pest and src/query/query_parse.rs: the tests that the printer of queries writes
-- are read back.

use outpack_server.Float.{F64, finite, infinity, nan}
use outpack_server.Prelude.{
  Bool, Bool-cases, Text, [], all, ap, arith, codes, false, if◌then◌else◌, inl, inr, nat_eqb, refl,
  true, ℕ, ◌++◌, ◌||◌, ◌∙◌, ◌∷◌, ◌≡◌,
}
use outpack_server.Query.Parse.Convert.{
  parse_expr, parse_infix, parse_test_operator, parse_test_value,
}
use outpack_server.Query.Parse.Grammar.{
  Recognizer, atomic, exactly, is_infix, is_inner, is_white, match_brackets, match_infix_expression,
  match_infix_function, match_latest, match_lookup, match_lookup_packet, match_test_value, matched,
  one_of, optional, rule, skip, unmatched, ◌//◌, ◌~~◌, ◌~◌,
}
use outpack_server.Query.Parse.Literals.{reads_literal}
use outpack_server.Query.Parse.Pairs.{Pair, Rule, as_rule, no_pairs, one_pair, pair}
use outpack_server.Query.Parse.Pratt.{Pratt}
use outpack_server.Query.Parse.Print.{
  FitsValue, number_sign, operator_text, print_literal, print_lookup, print_value, quote_of,
}
use outpack_server.Query.Parse.Steps.{
  Stops, at_space, chosen, consumed-append, in_rule, not_at, not_begun, not_in_rule, passed_over,
  spaced_from,
}
use outpack_server.Query.Parse.Words.{reads_lookup}
use outpack_server.Query.Types.{
  Literal, TestOperator, TestValue, bool, environment, equal, greater_than, greater_than_or_equal,
  id, less_than, less_than_or_equal, literal, lookup, name, not_equal, number, packet, parameter,
  string, test, this,
}
use outpack_server.Result.{ok}

not_lookup_quote :
    (quote : Bool) (t : Text) → match_lookup ((if quote then 34 else 39) ∷ t) ≡ unmatched
unfolding match_lookup match_lookup_packet ◌~~◌ ◌~◌ ◌//◌ exactly rule
not_lookup_quote true t = refl
not_lookup_quote false t = refl

not_lookup : (l : Literal) (k : Text) → match_lookup (print_literal l k) ≡ unmatched
unfolding match_lookup match_lookup_packet ◌~~◌ ◌~◌ ◌//◌ exactly rule print_literal
not_lookup (bool true) k = refl
not_lookup (bool false) k = refl
not_lookup (string t) k = not_lookup_quote (all (is_inner 34) t) (t ++ (quote_of t ∷ k))
not_lookup (number (finite true u)) k = refl
not_lookup (number (finite false u)) k = refl
not_lookup (number nan) k = refl
not_lookup (number (infinity s)) k = refl

pub reads_value :
    (v : TestValue) (k : Text)
    → FitsValue v
    → Stops k
    → (p : Pair) × (match_test_value (print_value v k) ≡ matched (one_pair p) k)
      × (parse_test_value p ≡ ok v)
unfolding match_test_value print_value
reads_value (lookup l) k h s = let (p, e, same) = reads_lookup l k h s in (p, chosen _ _ e, same)
reads_value (literal l) k h s =
    let (p, e, same) = reads_literal l k h s in (p, passed_over _ _ (not_lookup l k) ∙ e, same)

-- What begins a query that is no test, and white space.
abbrev pub is_opening : ℕ → Bool
is_opening c =
    nat_eqb b'(' c || (nat_eqb b'l' c || (nat_eqb b's' c || (nat_eqb b'!' c || is_white c)))

abbrev Begins : Text → Type 0
Begins ts = (c : ℕ) × (t : Text) × (ts ≡ c ∷ t) × (is_opening c ≡ false)

quote_begins : (t : Text) → is_opening (quote_of t) ≡ false
quote_begins t = elim (Bool-cases (all (is_inner 34) t)) [ inl h ↦ rw h refl | inr h ↦ rw h refl ]

sign_begins : (x : F64) → is_opening (number_sign x) ≡ false
sign_begins (finite true u) = refl
sign_begins (finite false u) = refl
sign_begins nan = refl
sign_begins (infinity s) = refl

pub value-Begins : (v : TestValue) (k : Text) → Begins (print_value v k)
unfolding print_value print_lookup print_literal
value-Begins (lookup (packet name)) k = (_, _, refl, refl)
value-Begins (lookup (packet id)) k = (_, _, refl, refl)
value-Begins (lookup (packet (parameter t))) k = (_, _, refl, refl)
value-Begins (lookup (this t)) k = (_, _, refl, refl)
value-Begins (lookup (environment t)) k = (_, _, refl, refl)
value-Begins (literal (bool true)) k = (_, _, refl, refl)
value-Begins (literal (bool false)) k = (_, _, refl, refl)
value-Begins (literal (string t)) k = (_, _, refl, quote_begins t)
value-Begins (literal (number x)) k = (_, _, refl, sign_begins x)

pub skip-value : (v : TestValue) (k : Text) → skip (print_value v k) ≡ print_value v k
skip-value v k =
    let (c, t, e, h) = value-Begins v k in
    let white : is_white c ≡ false = ground arith in rw (e, white) refl

match_signs :
    (op : TestOperator) (k : Text)
    → (one_of is_infix ~~ optional (one_of is_infix)) (operator_text op ++ (b' ' ∷ k))
      ≡ matched no_pairs (b' ' ∷ k)
unfolding ◌~~◌ one_of optional
match_signs equal k = refl
match_signs not_equal k = refl
match_signs less_than k = refl
match_signs less_than_or_equal k = refl
match_signs greater_than k = refl
match_signs greater_than_or_equal k = refl

reads_infix_function :
    (op : TestOperator) (k : Text)
    → match_infix_function (operator_text op ++ (b' ' ∷ k))
      ≡ matched (one_pair (pair Rule.infix_function (operator_text op) no_pairs)) (b' ' ∷ k)
unfolding match_infix_function atomic
reads_infix_function op k =
    rw (match_signs op k, consumed-append (operator_text op) (b' ' ∷ k)) refl

skip-operator_text :
    (op : TestOperator) (k : Text) → skip (b' ' ∷ (operator_text op ++ k)) ≡ operator_text op ++ k
skip-operator_text equal k = refl
skip-operator_text not_equal k = refl
skip-operator_text less_than k = refl
skip-operator_text less_than_or_equal k = refl
skip-operator_text greater_than k = refl
skip-operator_text greater_than_or_equal k = refl

parse_test_operator-operator_text :
    (op : TestOperator) → parse_test_operator (operator_text op) ≡ ok op
unfolding parse_test_operator
parse_test_operator-operator_text equal = refl
parse_test_operator-operator_text not_equal = refl
parse_test_operator-operator_text less_than = refl
parse_test_operator-operator_text less_than_or_equal = refl
parse_test_operator-operator_text greater_than = refl
parse_test_operator-operator_text greater_than_or_equal = refl

abbrev print_test : TestOperator → TestValue → TestValue → Text → Text
print_test op l r k = print_value l (b' ' ∷ (operator_text op ++ (b' ' ∷ print_value r k)))

pub reads_test :
    (op : TestOperator) (l r : TestValue) (k : Text)
    → FitsValue l
    → FitsValue r
    → Stops k
    → (p : Pair) × (match_infix_expression (print_test op l r k) ≡ matched (one_pair p) k)
      × (as_rule p ≡ Rule.infix_expression)
      × ((pratt : Pratt) → parse_expr pratt p ≡ ok (test op l r))
unfolding match_infix_expression parse_expr parse_infix
reads_test op l r k h i s =
    let (p, e, same) =
      reads_value l (b' ' ∷ (operator_text op ++ (b' ' ∷ print_value r k))) h (at_space _) in
    let (q, f, same') = reads_value r k i s in
    let rhs = ap match_test_value (skip-value r k) ∙ f in
    let onward =
      ap (match_infix_function ~ match_test_value) (skip-operator_text op (b' ' ∷ print_value r k))
      ∙ spaced_from match_infix_function match_test_value (reads_infix_function op _) rhs in
    (
      _,
      in_rule Rule.infix_expression _ (spaced_from match_test_value _ e onward),
      refl,
      λ pratt. rw (same, same', parse_test_operator-operator_text op) refl,
    )

-- A text that begins as a value does is no other operand.
pub not_brackets :
    (body : Recognizer) (c : ℕ) (t : Text)
    → is_opening c ≡ false
    → match_brackets body (c ∷ t) ≡ unmatched
unfolding match_brackets
not_brackets body c t h =
    let other : nat_eqb b'(' c ≡ false = ground arith in
    not_in_rule _ _ (not_begun _ _ (not_at b'(' c [] t other))

pub not_latest : (c : ℕ) (t : Text) → is_opening c ≡ false → match_latest (c ∷ t) ≡ unmatched
not_latest c t h =
    let other : nat_eqb b'l' c ≡ false = ground arith in
    not_in_rule _ _ (not_at b'l' c (codes "atest") t other)

pub not_single :
    (c : ℕ) (t : Text)
    → is_opening c ≡ false
    → rule Rule.single (exactly (codes "single")) (c ∷ t) ≡ unmatched
not_single c t h =
    let other : nat_eqb b's' c ≡ false = ground arith in
    not_in_rule _ _ (not_at b's' c (codes "ingle") t other)

pub not_negated :
    (v : TestValue) (k : Text)
    → rule Rule.negation (exactly (codes "!")) (print_value v k) ≡ unmatched
not_negated v k =
    let (c, t, e, h) = value-Begins v k in
    let differs : nat_eqb b'!' c ≡ false = ground arith in
    rw e (not_in_rule _ _ (not_at b'!' c [] t differs))
