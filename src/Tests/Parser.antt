-- ===== src/Tests/Parser.antt =====
-- src/query/query_parse.rs: an implementation of the parameter, and queries of the unit tests.

use outpack_server.Float.Decimal.{of_decimal}
use outpack_server.Prelude.{Text, codes, false, refl, true, ◌≡◌}
use outpack_server.Query.Parse.Convert.{ParseResult, parse_query}
use outpack_server.Query.Types.{
  QueryNode, and, bool, boolean_expr, brackets, equal, id, latest, literal, lookup, name, negation,
  not_in_grammar, number, or, packet, parameter, single, string, test, unknown_infix,
}
use outpack_server.Result.{err, ok}
use outpack_server.Tests.Climbing.{climb, climb_on, climbing}

read : Text → ParseResult QueryNode
unfolding climb climb_on parse_query
read t = parse_query climbing t

short_latest : read (codes "latest") ≡ ok latest
unfolding read
short_latest = refl

short_id :
    read (codes "\"123\"") ≡ ok (test equal (lookup (packet id)) (literal (string (codes "123"))))
unfolding read
short_id = refl

short_id_single :
    read (codes "'123'") ≡ ok (test equal (lookup (packet id)) (literal (string (codes "123"))))
unfolding read
short_id_single = refl

short_number : read (codes "123") ≡ err not_in_grammar
unfolding read
short_number = refl

nested_short : read (codes "latest('123')") ≡ err not_in_grammar
unfolding read
nested_short = refl

latest_call : read (codes "latest()") ≡ ok latest
unfolding read
latest_call = refl

id_equal :
    read (codes "id == \"12 3\"")
    ≡ ok (test equal (lookup (packet id)) (literal (string (codes "12 3"))))
unfolding read
id_equal = refl

quote_within :
    read (codes "name == '1\"23'")
    ≡ ok (test equal (lookup (packet name)) (literal (string (codes "1\"23"))))
unfolding read
quote_within = refl

tight :
    read (codes "parameter:x==\"foo\"")
    ≡ ok (test equal (lookup (packet (parameter (codes "x")))) (literal (string (codes "foo"))))
unfolding read
tight = refl

boolean_upper :
    read (codes "parameter:x == TRUE")
    ≡ ok (test equal (lookup (packet (parameter (codes "x")))) (literal (bool true)))
unfolding read
boolean_upper = refl

no_boolean : read (codes "parameter:x == T") ≡ err not_in_grammar
unfolding read
no_boolean = refl

unknown_operator : read (codes "name =! \"123\"") ≡ err (unknown_infix (codes "=!"))
unfolding read
unknown_operator = refl

precedence :
    read (codes "id == \"1\" && id == \"2\" || id == \"3\"")
    ≡ ok (
        boolean_expr or
          (boolean_expr and
            (test equal (lookup (packet id)) (literal (string (codes "1"))))
            (test equal (lookup (packet id)) (literal (string (codes "2")))))
          (test equal (lookup (packet id)) (literal (string (codes "3")))))
unfolding read
precedence = refl

precedence_right :
    read (codes "id == \"3\" || id == \"1\" && id == \"2\"")
    ≡ ok (
        boolean_expr or (test equal (lookup (packet id)) (literal (string (codes "3")))) (
          boolean_expr and
            (test equal (lookup (packet id)) (literal (string (codes "1"))))
            (test equal (lookup (packet id)) (literal (string (codes "2"))))))
unfolding read
precedence_right = refl

nested_negation :
    read (codes "!(!id == \"123\")")
    ≡ ok (
        negation
          (brackets (negation (test equal (lookup (packet id)) (literal (string (codes "123")))))))
unfolding read
nested_negation = refl

single_empty : read (codes "single()") ≡ err not_in_grammar
unfolding read
single_empty = refl

single_test :
    read (codes "single( parameter:x == \"foo\" ) ")
    ≡ ok (
        single
          (test equal (lookup (packet (parameter (codes "x")))) (literal (string (codes "foo")))))
unfolding read
single_test = refl

exponent :
    read (codes "parameter:x == -2.3e-2")
    ≡ ok (
        test equal
          (lookup (packet (parameter (codes "x"))))
          (literal (number (of_decimal true 23 0 3))))
unfolding read
exponent = refl

trailing_dot :
    read (codes "parameter:x == 2.")
    ≡ ok (
        test equal
          (lookup (packet (parameter (codes "x"))))
          (literal (number (of_decimal false 2 0 0))))
unfolding read
trailing_dot = refl
