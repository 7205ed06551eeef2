-- ===== src/Query/Parse/Print.antt =====
-- A printer of queries, in the syntax of src/query/query.pest, and the queries that it prints.

use outpack_server.Float.{F64, finite}
use outpack_server.Float.Decimal.{parse_f64}
use outpack_server.Prelude.{
  Bool, Text, [], all, codes, decimal, false, if◌then◌else◌, in_range, is_digit, leb, some, suc,
  true, ℕ, ◌&&◌, ◌++◌, ◌/◌, ◌^◌, ◌∷◌, ◌≡◌,
}
use outpack_server.Query.Parse.Grammar.{is_identifier, is_inner}
use outpack_server.Query.Parse.Pratt.{level}
use outpack_server.Query.Types.{
  BooleanOperator, Literal, Lookup, QueryNode, TestOperator, TestValue, and, bool, boolean_expr,
  brackets, environment, equal, greater_than, greater_than_or_equal, id, latest, latest_of,
  less_than, less_than_or_equal, literal, lookup, name, negation, not_equal, number, or, packet,
  parameter, single, string, test, this,
}

-- Each function prints before a text. A number is printed as a whole number.
abbrev pub number_sign : F64 → ℕ
number_sign (finite true u) = b'-'
number_sign _ = b'+'

abbrev pub whole_part : F64 → ℕ
whole_part (finite _ u) = u / 2 ^ 1074
whole_part _ = 0

unfoldable pub print_lookup : Lookup → Text → Text
print_lookup (packet name) k = codes "name" ++ k
print_lookup (packet id) k = codes "id" ++ k
print_lookup (packet (parameter t)) k = codes "parameter:" ++ (t ++ k)
print_lookup (this t) k = codes "this:" ++ (t ++ k)
print_lookup (environment t) k = codes "environment:" ++ (t ++ k)

-- A text with a double quote in it stands in single quotes.
abbrev pub quote_of : Text → ℕ
quote_of t = if all (is_inner 34) t then 34 else 39

unfoldable pub print_literal : Literal → Text → Text
print_literal (bool true) k = codes "true" ++ k
print_literal (bool false) k = codes "false" ++ k
print_literal (string t) k = quote_of t ∷ (t ++ (quote_of t ∷ k))
print_literal (number x) k = number_sign x ∷ (decimal (whole_part x) ++ k)

unfoldable pub print_value : TestValue → Text → Text
unfolding print_lookup print_literal
print_value (lookup l) k = print_lookup l k
print_value (literal l) k = print_literal l k

abbrev pub operator_text : TestOperator → Text
operator_text equal = codes "=="
operator_text not_equal = codes "!="
operator_text less_than = codes "<"
operator_text less_than_or_equal = codes "<="
operator_text greater_than = codes ">"
operator_text greater_than_or_equal = codes ">="

abbrev pub boolean_text : BooleanOperator → Text
boolean_text and = codes "&&"
boolean_text or = codes "||"

unfoldable pub print_onto : QueryNode → Text → Text
unfolding print_value
print_onto latest k = codes "latest()" ++ k
print_onto (latest_of q) k = codes "latest(" ++ print_onto q (codes ")" ++ k)
print_onto (single q) k = codes "single(" ++ print_onto q (codes ")" ++ k)
print_onto (negation q) k = codes "!" ++ print_onto q k
print_onto (brackets q) k = codes "(" ++ print_onto q (codes ")" ++ k)
print_onto (test op l r) k =
    print_value l (codes " " ++ (operator_text op ++ (codes " " ++ print_value r k)))
print_onto (boolean_expr op l r) k =
    print_onto l (codes " " ++ (boolean_text op ++ (codes " " ++ print_onto r k)))

unfoldable pub print : QueryNode → Text
unfolding print_onto
print q = print_onto q []

abbrev pub is_name_of : Text → Bool
is_name_of [] = false
is_name_of (c ∷ t) = is_identifier c && all is_identifier t

-- A decimal number without a zero in front.
abbrev pub is_whole : Text → Bool
is_whole [] = false
is_whole (c ∷ []) = is_digit c
is_whole (c ∷ d ∷ t) = in_range b'1' b'9' c && all is_digit (d ∷ t)

abbrev pub FitsLookup : Lookup → Type 0
FitsLookup (packet (parameter t)) = is_name_of t ≡ true
FitsLookup (packet _) = Unit
FitsLookup (this t) = is_name_of t ≡ true
FitsLookup (environment t) = is_name_of t ≡ true

-- A text needs a quote that is not in it; a number is the one that its text is read as.
abbrev pub FitsLiteral : Literal → Type 0
FitsLiteral (bool b) = Unit
FitsLiteral (string t) = all (is_inner (quote_of t)) t ≡ true
FitsLiteral (number x) =
    (is_whole (decimal (whole_part x)) ≡ true)
    × (parse_f64 (number_sign x ∷ decimal (whole_part x)) ≡ some x)

abbrev pub FitsValue : TestValue → Type 0
FitsValue (lookup l) = FitsLookup l
FitsValue (literal l) = FitsLiteral l

-- The queries whose operators bind as they are nested, as the operand of an operator of a level; at
-- level 3 stands the operand of a negation.
unfoldable pub Fits : ℕ → QueryNode → Type 0
Fits n latest = Unit
Fits n (latest_of q) = Fits 0 q
Fits n (single q) = Fits 0 q
Fits n (negation q) = (leb n 2 ≡ true) × Fits 3 q
Fits n (brackets q) = Fits 0 q
Fits n (test op l r) = FitsValue l × FitsValue r
Fits n (boolean_expr op l r) =
    (leb n (level op) ≡ true) × Fits (level op) l × Fits (suc (level op)) r
