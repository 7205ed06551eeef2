-- ===== src/Query/Parse/Grammar.antt =====
-- src/query/query.pest, as the recognizers that pest makes of it. Between the parts of a rule that
-- is not atomic, white space is skipped (`◌~◌`); the parts of an atomic one touch (`◌~~◌`).

use outpack_server.Prelude.{
  Bool, Text, [], codes, drop_while, if◌then◌else◌, in_range, is_alnum, is_digit, length, nat_eqb,
  none, not, some, strip_prefix, suc, take, zero, ℕ, ◌-◌, ◌||◌, ◌∷◌,
}
use outpack_server.Query.Parse.Pairs.{Pairs, Rule, append, no_pairs, one_pair, pair}

-- A rule matches the beginning of the text and leaves the rest, or does not match, or the fuel of
-- the model is spent.
pub data Outcome : Type 0 where
  matched : Pairs → Text → Outcome
  unmatched : Outcome
  exhausted : Outcome

abbrev pub Recognizer : Type 0
Recognizer = Text → Outcome

abbrev pub after : Outcome → (Pairs → Text → Outcome) → Outcome
after (matched ps rest) f = f ps rest
after unmatched f = unmatched
after exhausted f = exhausted

abbrev pub or_else : Outcome → Outcome → Outcome
or_else (matched ps rest) o = matched ps rest
or_else unmatched o = o
or_else exhausted o = exhausted

abbrev pub is_white : ℕ → Bool
is_white c = nat_eqb c b' ' || (nat_eqb c 9 || (nat_eqb c 13 || nat_eqb c 10))

abbrev pub skip : Text → Text
skip ts = drop_while is_white ts

infixr 40 ◌~◌ ◌~~◌
infixr 38 ◌//◌
unfoldable pub ◌~~◌ : Recognizer → Recognizer → Recognizer
(p ~~ q) ts = after (p ts) λ ps rest. after (q rest) λ qs rest'. matched (append ps qs) rest'

unfoldable pub ◌~◌ : Recognizer → Recognizer → Recognizer
unfolding ◌~~◌
p ~ q = p ~~ (λ ts. q (skip ts))

-- Ordered choice.
unfoldable pub ◌//◌ : Recognizer → Recognizer → Recognizer
(p // q) ts = or_else (p ts) (q ts)

-- `?`
unfoldable pub optional : Recognizer → Recognizer
optional p ts = or_else (p ts) (matched no_pairs ts)

-- A text of the grammar.
unfoldable pub exactly : Text → Recognizer
exactly t ts = elim (strip_prefix t ts) [ none ↦ unmatched | some rest ↦ matched no_pairs rest ]

-- A byte that passes the test, and any number of them.
unfoldable pub one_of : (ℕ → Bool) → Recognizer
one_of passes [] = unmatched
one_of passes (c ∷ ts) = if passes c then matched no_pairs ts else unmatched

unfoldable pub many : (ℕ → Bool) → Recognizer
many passes ts = matched no_pairs (drop_while passes ts)

abbrev pub consumed : Text → Text → Text
consumed ts rest = take (length ts - length rest) ts

-- `{ .. }` and `${ .. }`
unfoldable pub rule : Rule → Recognizer → Recognizer
rule r p ts = after (p ts) λ ps rest. matched (one_pair (pair r (consumed ts rest) ps)) rest

-- `@{ .. }`: no pairs within.
unfoldable pub atomic : Rule → Recognizer → Recognizer
atomic r p ts = after (p ts) λ _ rest. matched (one_pair (pair r (consumed ts rest) no_pairs)) rest

abbrev pub is_sign : ℕ → Bool
is_sign c = nat_eqb c b'-' || nat_eqb c b'+'

abbrev pub match_exponent : Recognizer
match_exponent =
    one_of (λ c. nat_eqb c b'e' || nat_eqb c b'E')
    ~~ optional (one_of is_sign)
    ~~ one_of is_digit
    ~~ many is_digit

unfoldable pub match_number : Recognizer
match_number = atomic Rule.number (
    optional (one_of is_sign)
    ~~ (exactly (codes "0") // (one_of (in_range b'1' b'9') ~~ many is_digit))
    ~~ optional (exactly (codes ".") ~~ many is_digit)
    ~~ optional match_exponent)

unfoldable pub match_boolean : Recognizer
match_boolean = rule Rule.boolean (
    exactly (codes "true")
    // exactly (codes "TRUE")
    // exactly (codes "True")
    // exactly (codes "false")
    // exactly (codes "FALSE")
    // exactly (codes "False"))

-- A quote and a backslash end the contents of a text.
abbrev pub is_inner : ℕ → ℕ → Bool
is_inner quote c = not (nat_eqb c quote || nat_eqb c 92)

abbrev pub quoted : ℕ → Rule → Recognizer
quoted quote r = exactly (quote ∷ []) ~~ atomic r (many (is_inner quote)) ~~ exactly (quote ∷ [])

unfoldable pub match_string : Recognizer
match_string = rule Rule.string (quoted 34 Rule.inner_dbl // quoted 39 Rule.inner_sgl)

abbrev pub is_identifier : ℕ → Bool
is_identifier c = is_alnum c || nat_eqb c b'_'

unfoldable pub match_identifier : Recognizer
match_identifier = atomic Rule.identifier (one_of is_identifier ~~ many is_identifier)

unfoldable pub match_literal : Recognizer
match_literal = rule Rule.literal (match_string // match_boolean // match_number)

unfoldable pub match_lookup_packet : Recognizer
match_lookup_packet = rule Rule.lookup_packet (
    rule Rule.lookup_packet_id (exactly (codes "id"))
    // rule Rule.lookup_packet_name (exactly (codes "name"))
    // rule Rule.lookup_packet_param (exactly (codes "parameter:") ~ match_identifier))

unfoldable pub match_lookup : Recognizer
unfolding match_lookup_packet
match_lookup = rule Rule.lookup (
    match_lookup_packet
    // rule Rule.lookup_this (exactly (codes "this:") ~ match_identifier)
    // rule Rule.lookup_environment (exactly (codes "environment:") ~ match_identifier))

unfoldable pub match_test_value : Recognizer
unfolding match_lookup match_literal
match_test_value = match_lookup // match_literal

abbrev pub is_infix : ℕ → Bool
is_infix c = nat_eqb c b'=' || (nat_eqb c b'!' || (nat_eqb c b'<' || nat_eqb c b'>'))

unfoldable pub match_infix_function : Recognizer
match_infix_function = atomic Rule.infix_function (one_of is_infix ~~ optional (one_of is_infix))

unfoldable pub match_infix_expression : Recognizer
match_infix_expression =
    rule Rule.infix_expression (match_test_value ~ match_infix_function ~ match_test_value)

abbrev pub match_latest : Recognizer
match_latest = rule Rule.latest (exactly (codes "latest"))

unfoldable pub match_no_variable_func : Recognizer
match_no_variable_func = rule Rule.no_variable_func (match_latest ~ exactly (codes "()"))

module _ (match_body : Recognizer) where
  unfoldable pub match_single_variable_func : Recognizer
  match_single_variable_func = rule Rule.single_variable_func (
      (match_latest // rule Rule.single (exactly (codes "single")))
      ~ exactly (codes "(")
      ~ match_body
      ~ exactly (codes ")"))

  unfoldable pub match_brackets : Recognizer
  match_brackets = rule Rule.brackets (exactly (codes "(") ~ match_body ~ exactly (codes ")"))

  unfoldable pub match_operand : Recognizer
  unfolding match_brackets match_single_variable_func match_no_variable_func
  match_operand =
      match_brackets // match_single_variable_func // match_no_variable_func
      // match_infix_expression

  unfoldable pub match_expr : Recognizer
  match_expr = optional (rule Rule.negation (exactly (codes "!"))) ~ match_operand

abbrev pub match_boolean_operator : Recognizer
match_boolean_operator = rule Rule.and (exactly (codes "&&")) // rule Rule.or (exactly (codes "||"))

-- `expr ~ (booleanOperator ~ expr)*`: after an `expr`, an operator and the same again, or nothing.
-- White space before an operator that is not there is left to what follows, which skips it. Each
-- round takes a unit of fuel.
unfoldable pub match_chain : ℕ → Recognizer
match_chain zero ts = exhausted
match_chain (suc f) ts =
    (match_expr (rule Rule.body (match_chain f))
        ~~ optional (λ rest. (match_boolean_operator ~ match_chain f) (skip rest)))
      ts

abbrev pub match_body : ℕ → Recognizer
match_body f = rule Rule.body (match_chain f)

unfoldable pub match_toplevel : ℕ → Recognizer
match_toplevel f =
    match_body f
    // rule Rule.shortform_latest (exactly (codes "latest"))
    // rule Rule.shortform_id match_string

abbrev pub match_end : Recognizer
match_end [] = matched (one_pair (pair Rule.end_of_input [] no_pairs)) []
match_end (_ ∷ _) = unmatched

unfoldable pub match_query : ℕ → Recognizer
match_query f = rule Rule.query (λ ts. (match_toplevel f ~ match_end) (skip ts))
