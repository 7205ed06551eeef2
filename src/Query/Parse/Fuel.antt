-- ===== src/Query/Parse/Fuel.antt =====
-- src/query/query.pest: how much of a text each rule leaves, and that the fuel of the model is
-- enough.

use outpack_server.Prelude.{
  Text, [], arith, codes, is_digit, length, subst, suc, zero, ℕ, ◌+◌, ◌<◌, ◌∷◌, ◌≡◌, ◌≢◌, ◌≤◌,
}
use outpack_server.Query.Parse.Grammar.{
  Recognizer, exactly, exhausted, is_identifier, is_infix, is_inner, is_sign, match_body,
  match_boolean, match_boolean_operator, match_brackets, match_chain, match_end, match_exponent,
  match_expr, match_identifier, match_infix_expression, match_infix_function, match_latest,
  match_literal, match_lookup, match_lookup_packet, match_no_variable_func, match_number,
  match_operand, match_query, match_single_variable_func, match_string, match_test_value,
  match_toplevel, matched, quoted, ◌~◌,
}
use outpack_server.Query.Parse.Pairs.{Pairs, Rule}
use outpack_server.Query.Parse.Takes.{
  Remains, Takes, atomic-Takes, exactly-Takes, guarded-Takes, many-Takes, one_of-Takes,
  optional-Takes, rule-Takes, skip-Takes, words, ◌joined_to◌, ◌otherwise◌, ◌with_space◌,
}

module _ {b : ℕ} where
  match_exponent-Takes : Takes 0 b match_exponent
  match_exponent-Takes =
      one_of-Takes _
      joined_to optional-Takes (one_of-Takes is_sign)
      joined_to one_of-Takes is_digit
      joined_to many-Takes is_digit

  match_number-Takes : Takes 0 b match_number
  unfolding match_number
  match_number-Takes = atomic-Takes _ (
      optional-Takes (one_of-Takes is_sign)
      joined_to (words _ otherwise (one_of-Takes _ joined_to many-Takes is_digit))
      joined_to optional-Takes (words _ joined_to many-Takes is_digit)
      joined_to optional-Takes match_exponent-Takes)

  match_boolean-Takes : Takes 0 b match_boolean
  unfolding match_boolean
  match_boolean-Takes = rule-Takes _ (
      words _
      otherwise words _
      otherwise words _
      otherwise words _
      otherwise words _
      otherwise words _)

  quoted-Takes : (quote : ℕ) (r : Rule) → Takes 0 b (quoted quote r)
  quoted-Takes quote r =
      words _ joined_to atomic-Takes r (many-Takes (is_inner quote)) joined_to words _

  match_string-Takes : Takes 0 b match_string
  unfolding match_string
  match_string-Takes =
      rule-Takes _ (quoted-Takes 34 Rule.inner_dbl otherwise quoted-Takes 39 Rule.inner_sgl)

  match_identifier-Takes : Takes 0 b match_identifier
  unfolding match_identifier
  match_identifier-Takes =
      atomic-Takes _ (one_of-Takes is_identifier joined_to many-Takes is_identifier)

  match_lookup-Takes : Takes 0 b match_lookup
  unfolding match_lookup match_lookup_packet
  match_lookup-Takes = rule-Takes _ (
      rule-Takes _ (
        rule-Takes _ (words _)
        otherwise rule-Takes _ (words _)
        otherwise rule-Takes _ (words _ with_space match_identifier-Takes))
      otherwise rule-Takes _ (words _ with_space match_identifier-Takes)
      otherwise rule-Takes _ (words _ with_space match_identifier-Takes))

  match_test_value-Takes : Takes 0 b match_test_value
  unfolding match_test_value match_literal
  match_test_value-Takes =
      match_lookup-Takes
      otherwise rule-Takes _
          (match_string-Takes otherwise match_boolean-Takes otherwise match_number-Takes)

  match_infix_expression-Takes : Takes 0 b match_infix_expression
  unfolding match_infix_expression match_infix_function
  match_infix_expression-Takes = rule-Takes _ (
      match_test_value-Takes
      with_space atomic-Takes _
          (one_of-Takes is_infix joined_to optional-Takes (one_of-Takes is_infix))
      with_space match_test_value-Takes)

  match_latest-Takes : Takes 0 b match_latest
  match_latest-Takes = rule-Takes _ (words _)

Remains-end : (ts : Text) → Remains 0 (length ts) (match_end ts)
Remains-end [] = omega arith
Remains-end (c ∷ ts) = _

match_end-Takes : {b : ℕ} → Takes 0 b match_end
match_end-Takes = record { remains = λ ts lt. Remains-end ts }

in_brackets :
    {b : ℕ} {body : Recognizer}
    → Takes 0 b body
    → Takes 0 (suc b) (exactly (codes "(") ~ body ~ exactly (codes ")"))
in_brackets t = guarded-Takes (exactly-Takes 1 _ (omega arith)) (t with_space words _)

-- A body stands within brackets, so it is shorter than what it stands in.
match_operand-Takes :
    {b : ℕ} {body : Recognizer} → Takes 0 b body → Takes 0 (suc b) (match_operand body)
unfolding match_operand match_single_variable_func match_no_variable_func match_brackets
match_operand-Takes t =
    rule-Takes _ (in_brackets t)
    otherwise rule-Takes _
        ((match_latest-Takes otherwise rule-Takes _ (words _)) with_space in_brackets t)
    otherwise rule-Takes _ (match_latest-Takes with_space words _)
    otherwise match_infix_expression-Takes

match_expr-Takes : {b : ℕ} {body : Recognizer} → Takes 0 b body → Takes 0 (suc b) (match_expr body)
unfolding match_expr
match_expr-Takes t = optional-Takes (rule-Takes _ (words _)) with_space match_operand-Takes t

match_boolean_operator-Takes : {b : ℕ} → Takes 1 b match_boolean_operator
match_boolean_operator-Takes =
    rule-Takes _ (exactly-Takes 1 _ (omega arith))
    otherwise rule-Takes _ (exactly-Takes 1 _ (omega arith))

-- Below the fuel, the text of a chain is read to an end.
pub match_chain-Takes : (f : ℕ) → Takes 0 f (match_chain f)
unfolding match_chain
match_chain-Takes zero = record { remains = λ ts lt. absurd (omega arith) }
match_chain-Takes (suc f) =
    let t = rule-Takes Rule.body (match_chain-Takes f) in
    match_expr-Takes t
    joined_to optional-Takes
        (skip-Takes (guarded-Takes match_boolean_operator-Takes (match_chain-Takes f)))

match_query-Takes : (f : ℕ) → Takes 0 f (match_query f)
unfolding match_query match_toplevel
match_query-Takes f = rule-Takes _ (
    skip-Takes (
      (rule-Takes _ (match_chain-Takes f)
        otherwise rule-Takes _ (words _)
        otherwise rule-Takes _ match_string-Takes)
      with_space match_end-Takes))

-- The recognizer of the grammar ends on every text: fuel above the length of the text is never
-- spent.
pub match_query-ends : (f : ℕ) (query : Text) → length query < f → match_query f query ≢ exhausted
match_query-ends f query lt e =
    let t = match_query-Takes f in subst (Remains 0 (length query)) e (t.remains query lt)

pub match_expr-shorter :
    (f : ℕ) (ts rest : Text) (ps : Pairs)
    → length ts < suc f
    → match_expr (match_body f) ts ≡ matched ps rest
    → length rest ≤ length ts
match_expr-shorter f ts rest ps lt e =
    let t = match_expr-Takes (rule-Takes Rule.body (match_chain-Takes f)) in
    let left_over : 0 + length rest ≤ length ts =
      subst (Remains 0 (length ts)) e (t.remains ts lt) in
    omega arith
