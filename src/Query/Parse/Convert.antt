-- ===== src/Query/Parse/Convert.antt =====
-- src/query/query_parse.rs: from the pairs that pest gives to the syntax tree of a query.

use outpack_server.Float.Decimal.{parse_f64}
use outpack_server.Prelude.{
  Bool, List, Option, Text, [], codes, false, if◌then◌else◌, in_range, length, list_eq, map, nat_eq,
  none, some, suc, true, ℕ, ◌+◌, ◌==◌, ◌∷◌,
}
use outpack_server.Query.Parse.Grammar.{
  Outcome, atomic, exactly, exhausted, many, match_boolean, match_chain, match_expr,
  match_identifier, match_infix_expression, match_infix_function, match_number, match_operand,
  match_query, match_string, match_test_value, match_toplevel, matched, one_of, optional, rule,
  unmatched, ◌//◌, ◌~~◌, ◌~◌,
}
use outpack_server.Query.Parse.Pairs.{
  Pair, Pairs, Rule, as_rule, as_str, into_inner, next, no_pairs, pair,
}
use outpack_server.Query.Parse.Pratt.{Pratt, pratt_operators}
use outpack_server.Query.Types.{
  BooleanOperator, Literal, Lookup, PacketLookup, ParseError, QueryNode, TestOperator, TestValue,
  and, bool, boolean_expr, brackets, environment, equal, greater_than, greater_than_or_equal, id,
  latest, latest_of, less_than, less_than_or_equal, literal, lookup, name, negation, not_equal,
  not_in_grammar, number, or, packet, parameter, single, string, test, this, unknown_infix,
}
use outpack_server.Result.{Result, err, map_ok, ok, panicked, ◌>>=◌}

abbrev pub ParseResult {ℓ} : Type ℓ → Type ℓ
ParseResult A = Result ParseError A

-- `peek().unwrap()`
unfoldable pub peek : Pairs → ParseResult Pair
peek no_pairs = panicked
peek (next p _) = ok p

unfoldable pub get_first_inner_pair : Pair → ParseResult Pair
unfolding peek
get_first_inner_pair p = peek (into_inner p)

unfoldable pub get_string_inner : Pair → ParseResult Text
unfolding get_first_inner_pair
get_string_inner p = map_ok as_str (get_first_inner_pair p)

-- `to_lowercase`, of ASCII letters
abbrev pub to_lower : ℕ → ℕ
to_lower c = if in_range b'A' b'Z' c then c + 32 else c

-- `.parse::<bool>().unwrap()`
unfoldable pub parse_bool : Text → ParseResult Bool
unfolding list_eq nat_eq
parse_bool t =
    if t == codes "true" then ok true else if t == codes "false" then ok false else panicked

abbrev pub unwrap {ℓ} : {A : Type ℓ} → Option A → ParseResult A
unwrap none = panicked
unwrap (some a) = ok a

unfoldable pub parse_literal : Pair → ParseResult Literal
unfolding get_string_inner parse_bool parse_f64
parse_literal (pair Rule.string t inner) =
    map_ok string (get_string_inner (pair Rule.string t inner))
parse_literal (pair Rule.boolean t _) = map_ok bool (parse_bool (map to_lower t))
parse_literal (pair Rule.number t _) = map_ok number (unwrap (parse_f64 t))
parse_literal _ = panicked

unfoldable pub parse_lookup_packet : Pair → ParseResult PacketLookup
unfolding get_string_inner
parse_lookup_packet (pair Rule.lookup_packet_id _ _) = ok id
parse_lookup_packet (pair Rule.lookup_packet_name _ _) = ok name
parse_lookup_packet (pair Rule.lookup_packet_param t inner) =
    map_ok parameter (get_string_inner (pair Rule.lookup_packet_param t inner))
parse_lookup_packet _ = panicked

unfoldable pub parse_lookup : Pair → ParseResult Lookup
unfolding parse_lookup_packet
parse_lookup (pair Rule.lookup_packet _ inner) =
    peek inner >>= λ p. map_ok packet (parse_lookup_packet p)
parse_lookup (pair Rule.lookup_this t inner) =
    map_ok this (get_string_inner (pair Rule.lookup_this t inner))
parse_lookup (pair Rule.lookup_environment t inner) =
    map_ok environment (get_string_inner (pair Rule.lookup_environment t inner))
parse_lookup _ = panicked

unfoldable pub parse_test_value : Pair → ParseResult TestValue
unfolding parse_lookup parse_literal
parse_test_value (pair Rule.lookup _ inner) = peek inner >>= λ p. map_ok lookup (parse_lookup p)
parse_test_value (pair Rule.literal _ inner) = peek inner >>= λ p. map_ok literal (parse_literal p)
parse_test_value _ = panicked

-- The place in the text is left out.
unfoldable pub unknown_infix_error : Text → ParseError
unknown_infix_error operator = unknown_infix operator

-- The operators of `parse_expr`.
unfoldable pub parse_test_operator : Text → ParseResult TestOperator
unfolding list_eq nat_eq unknown_infix_error
parse_test_operator t =
    if t == codes "=="
    then ok equal
    else if t == codes "!="
    then ok not_equal
    else if t == codes "<"
    then ok less_than
    else if t == codes "<="
    then ok less_than_or_equal
    else if t == codes ">"
    then ok greater_than
    else if t == codes ">="
    then ok greater_than_or_equal
    else err (unknown_infix_error t)

unfoldable pub parse_infix : Pair → Pair → Pair → ParseResult QueryNode
unfolding parse_test_value parse_test_operator
parse_infix lhs infix_function rhs = do
  l ← parse_test_value lhs
  r ← parse_test_value rhs
  op ← parse_test_operator (as_str infix_function)
  ok (test op l r)

unfoldable pub single_variable : Text → QueryNode → ParseResult QueryNode
unfolding list_eq nat_eq
single_variable func_name inner =
    if func_name == codes "latest"
    then ok (latest_of inner)
    else if func_name == codes "single"
    then ok (single inner)
    else panicked

abbrev pub id_is : Text → QueryNode
id_is t = test equal (lookup (packet id)) (literal (string t))

-- The closures of `parse_body`.
abbrev pub map_prefix : Rule → ParseResult QueryNode → ParseResult QueryNode
map_prefix Rule.negation rhs = map_ok negation rhs
map_prefix _ rhs = panicked

abbrev pub join_nodes :
    BooleanOperator → ParseResult QueryNode → ParseResult QueryNode → ParseResult QueryNode
join_nodes op lhs rhs = do l ← lhs; r ← rhs; ok (boolean_expr op l r)

abbrev pub map_infix : ParseResult QueryNode → Rule → ParseResult QueryNode → ParseResult QueryNode
map_infix lhs Rule.and rhs = join_nodes and lhs rhs
map_infix lhs Rule.or rhs = join_nodes or lhs rhs
map_infix lhs _ rhs = panicked

module _ (pratt : Pratt) where
  abbrev pub unwrap_node : Option (ParseResult QueryNode) → ParseResult QueryNode
  unwrap_node none = panicked
  unwrap_node (some r) = r

  -- `PRATT_PARSER`, over the pairs with what `parse_expr` makes of each.
  abbrev pub arrange : List (Rule × ParseResult QueryNode) → ParseResult QueryNode
  arrange operands =
      unwrap_node
        (pratt.parse (ParseResult QueryNode) pratt_operators map_prefix map_infix operands)

  unfoldable mutual
    unfolding get_string_inner parse_infix single_variable

    pub parse_expr : Pair → ParseResult QueryNode
    parse_expr (pair Rule.string t inner) =
        map_ok id_is (get_string_inner (pair Rule.string t inner))
    parse_expr (pair Rule.no_variable_func _ _) = ok latest
    parse_expr (pair Rule.infix_expression _ (next lhs (next infix_function (next rhs _)))) =
        parse_infix lhs infix_function rhs
    parse_expr (pair Rule.single_variable_func _ (next func_name (next (pair _ _ arg) _))) =
        arrange (operands arg) >>= single_variable (as_str func_name)
    parse_expr (pair Rule.brackets _ (next (pair _ _ expr) _)) =
        map_ok brackets (arrange (operands expr))
    parse_expr _ = panicked

    pub operands : Pairs → List (Rule × ParseResult QueryNode)
    operands no_pairs = []
    operands (next p ps) = (as_rule p, parse_expr p) ∷ operands ps

  unfoldable pub parse_body : Pairs → ParseResult QueryNode
  unfolding operands
  parse_body pairs = arrange (operands pairs)

  unfoldable pub parse_toplevel : Pair → ParseResult QueryNode
  unfolding parse_body get_string_inner
  parse_toplevel (pair Rule.body _ inner) = parse_body inner
  parse_toplevel (pair Rule.shortform_latest _ _) = ok latest
  parse_toplevel (pair Rule.shortform_id _ inner) =
      peek inner >>= λ p. map_ok id_is (get_string_inner p)
  parse_toplevel _ = panicked

  -- The pairs of a whole text. With fuel above its length the fuel is never spent.
  abbrev pub first_pair : Outcome → ParseResult Pair
  first_pair (matched ps _) = peek ps
  first_pair unmatched = err not_in_grammar
  first_pair exhausted = panicked

  unfoldable pub parse_pairs : Outcome → ParseResult QueryNode
  unfolding parse_toplevel
  parse_pairs pairs = do
    p ← first_pair pairs
    toplevel ← get_first_inner_pair p
    parse_toplevel toplevel

  unfoldable pub parse_query : Text → ParseResult QueryNode
  unfolding match_query parse_pairs match_toplevel match_chain match_expr match_operand
      match_infix_expression match_test_value match_identifier match_string match_boolean
      match_number match_infix_function ◌~~◌ ◌~◌ ◌//◌ optional exactly one_of many rule atomic
  parse_query query = parse_pairs (match_query (suc (length query)) query)
