-- ===== src/Query/Parse/RoundTrip.antt =====
-- src/query/query_parse.rs: a query that is printed is read back.

use outpack_server.Prelude.{
  [], ap, arith, codes, leb, length, refl, suc, true, ℕ, ◌++◌, ◌∙◌, ◌≡◌, ◌≢◌,
}
use outpack_server.Query.Parse.Chains.{
  Chain, Operand, Operand-Chain, at_the_end, boolean_expr-Chain, negation-Chain, nothing_more,
  skip-print,
}
use outpack_server.Query.Parse.Convert.{parse_pairs, parse_query}
use outpack_server.Query.Parse.Grammar.{
  match_body, match_end, match_query, match_toplevel, matched, ◌~◌,
}
use outpack_server.Query.Parse.Operands.{
  Body, Chain-body, ReadsBody, body_pair, brackets-Operand, latest-Operand, latest_of-Operand,
  single-Operand, test-Operand,
}
use outpack_server.Query.Parse.Pairs.{Pair, Rule, next, no_pairs, one_pair, pair}
use outpack_server.Query.Parse.Pratt.{IsPratt, Pratt, level}
use outpack_server.Query.Parse.Print.{Fits, print}
use outpack_server.Query.Parse.Steps.{at_bracket, at_end, chosen, in_rule, spaced_from, within}
use outpack_server.Query.Types.{
  BooleanOperator, QueryNode, and, boolean_expr, brackets, latest, latest_of, negation, or, single,
  test,
}
use outpack_server.Result.{ok}

no_level : (op : BooleanOperator) → leb 3 (level op) ≢ true
no_level and e = cc
no_level or e = cc

module _ (pratt : Pratt) (law : IsPratt pratt) where
  abbrev Reads : QueryNode → Type 0
  Reads q = ((n : ℕ) → Fits n q → Chain pratt n q) × (Fits 3 q → Operand pratt q)

  -- A query that is an operand wherever it fits.
  operand-Reads :
      (q : QueryNode) → ((n : ℕ) → Fits n q → Fits 3 q) → (Fits 3 q → Operand pratt q) → Reads q
  operand-Reads q fits operand =
      (λ n h. Operand-Chain pratt n q (fits n h) (operand (fits n h)), operand)

  body : (q : QueryNode) → Reads q → Fits 0 q → Body pratt q
  body q reads h k =
      Chain-body pratt law q (codes ")" ++ k) (at_bracket k) (nothing_more k) (reads.0 0 h)

  reads : (q : QueryNode) → Reads q
  unfolding Fits
  reads latest = operand-Reads latest (λ n h. h) λ h. latest-Operand pratt
  reads (latest_of q) =
      operand-Reads (latest_of q) (λ n h. h) λ h. latest_of-Operand pratt q (body q (reads q) h)
  reads (single q) =
      operand-Reads (single q) (λ n h. h) λ h. single-Operand pratt q (body q (reads q) h)
  reads (brackets q) =
      operand-Reads (brackets q) (λ n h. h) λ h. brackets-Operand pratt q (body q (reads q) h)
  reads (test op l r) =
      operand-Reads (test op l r) (λ n h. h) λ (h, i). test-Operand pratt op l r h i
  reads (negation q) =
      let operand = (reads q).1 in
      (λ n (le, h). negation-Chain pratt n q le (operand h), λ (le, h). cc)
  reads (boolean_expr op l r) =
      let lhs = (reads l).0 in
      let rhs = (reads r).0 in
      (
        λ n (le, h, i).
            boolean_expr-Chain pratt n op l r le (lhs (level op) h) (rhs (suc (level op)) i),
        λ h. absurd (no_level op h.0),
      )

  print-pair : (q : QueryNode) (b : ReadsBody pratt q []) → Pair
  print-pair q b =
      within Rule.query (print q) []
        (next (body_pair pratt b) (one_pair (pair Rule.end_of_input [] no_pairs)))

  match_query-print :
      (q : QueryNode) (b : ReadsBody pratt q [])
      → match_query (suc (length (print q))) (print q) ≡ matched (one_pair (print-pair q b)) []
  unfolding match_query match_toplevel print print-pair
  match_query-print q b =
      let f = suc (length (print q)) in
      in_rule Rule.query _ (
        ap (match_toplevel f ~ match_end) (skip-print q [])
        ∙ spaced_from (match_toplevel f) match_end
            (chosen (match_body f) _ (b.read f (omega arith))) refl)

  parse_pairs-print :
      (q : QueryNode) (b : ReadsBody pratt q [])
      → parse_pairs pratt (matched (one_pair (print-pair q b)) []) ≡ ok q
  unfolding parse_pairs print-pair
  parse_pairs-print q b = b.arranged

  -- A query that fits the grammar is read back from the text it is printed as, if the Pratt parser
  -- has its law.
  pub parse_query-print : (q : QueryNode) → Fits 0 q → parse_query pratt (print q) ≡ ok q
  unfolding parse_query
  parse_query-print q h =
      let b = Chain-body pratt law q [] at_end at_the_end ((reads q).0 0 h) in
      ap (parse_pairs pratt) (match_query-print q b) ∙ parse_pairs-print q b
