-- ===== src/Tests/Printed.antt =====
-- The theorems on printed queries, at concrete queries.

use outpack_server.Float.{finite}
use outpack_server.Float.Decimal.{parse_f64}
use outpack_server.Prelude.{arith, codes, decimal, refl, true, ◌*◌, ◌^◌, ◌≡◌, ◌≢◌}
use outpack_server.Query.Parse.Convert.{parse_query}
use outpack_server.Query.Parse.Fuel.{match_query-ends}
use outpack_server.Query.Parse.Grammar.{exhausted, match_query}
use outpack_server.Query.Parse.Print.{Fits, print}
use outpack_server.Query.Parse.RoundTrip.{parse_query-print}
use outpack_server.Query.Types.{
  QueryNode, and, boolean_expr, brackets, equal, id, less_than, literal, lookup, name, negation,
  not_equal, number, or, packet, parameter, string, test,
}
use outpack_server.Result.{ok}
use outpack_server.Tests.Climbing.{climbing, climbing-IsPratt}

abbrev a_named_query : QueryNode
a_named_query =
    boolean_expr and
      (brackets (
        boolean_expr or (test equal (lookup (packet name)) (literal (string (codes "a")))) (
          test less_than (lookup (packet (parameter (codes "x_1"))))
            (literal (number (finite true (12 * 2 ^ 1074)))))))
      (negation (brackets (test not_equal (lookup (packet id)) (literal (string (codes "b\"c"))))))

printed_text :
    print a_named_query ≡ codes "(name == \"a\" || parameter:x_1 < -12) && !(id != 'b\"c')"
unfolding print decimal
printed_text = refl

a_named_query-Fits : Fits 0 a_named_query
unfolding Fits decimal parse_f64
a_named_query-Fits = (refl, (refl, (_, refl), (refl, (refl, refl))), (refl, (_, refl)))

parse_query-print_example : parse_query climbing (print a_named_query) ≡ ok a_named_query
parse_query-print_example =
    parse_query-print climbing climbing-IsPratt a_named_query a_named_query-Fits

match_query-ends_example : match_query 12 (codes "((latest") ≢ exhausted
match_query-ends_example = match_query-ends 12 (codes "((latest") (omega arith)
