-- ===== src/Query/Eval.antt =====
-- src/query/query_eval.rs: the packets that a query finds in an index. Where the code walks a
-- `HashSet` the order is the argument `Choices`.
use mathlib.Core.Option
use outpack_server.Float.{F64, eq_of, le_of, lt_of, partial_cmp}
use outpack_server.Packet.{Packet, boolean, get, has_packet, numeric, text}
use outpack_server.Prelude.{
  Bool, List, Option, Text, [], codes, decimal, false, if◌then◌else◌, keep, last, leb, length,
  list_eq, nat_eq, nat_eqb, none, not, some, ◌++◌, ◌∷◌,
}
use outpack_server.Query.Types.{
  BooleanOperator, Literal, Lookup, PacketLookup, ParseError, QueryNode, TestOperator, TestValue,
  and, bool, boolean_expr, brackets, environment, equal, greater_than, greater_than_or_equal, id,
  latest, latest_of, less_than, less_than_or_equal, literal, lookup, name, negation, not_equal,
  number, or, packet, parameter, same_literal, single, string, test, this,
}
use outpack_server.Result.{Result, collect_some, err, map_ok, ok, ◌>>=◌}

pub data QueryError : Type 0 where
  parse_error : ParseError → QueryError
  eval_error : Text → QueryError

-- The order in which the set of each boolean operator of a query is walked: one function for the
-- operator, and the choices for its two sides. These are all orders, also those in which the union
-- of two sets is never walked (it takes the larger set first). Where the tree ends, the order is
-- that of the lists.
pub data Choices : Type 0 where
  as_listed : Choices
  choose : (List Packet → List Packet) → Choices → Choices → Choices

abbrev pub walk : Choices → List Packet → List Packet
walk as_listed ps = ps
walk (choose f l r) ps = f ps

abbrev pub left_of : Choices → Choices
left_of as_listed = as_listed
left_of (choose f l r) = l

abbrev pub right_of : Choices → Choices
right_of as_listed = as_listed
right_of (choose f l r) = r

-- `HashSet::from_iter`: of equal packets the first stays.
unfoldable pub set_onto : List Packet → List Packet → List Packet
set_onto seen [] = seen
set_onto seen (p ∷ ps) = set_onto (if has_packet seen p then seen else seen ++ (p ∷ [])) ps

unfoldable pub set_of : List Packet → List Packet
unfolding set_onto
set_of ps = set_onto [] ps

-- `HashSet::intersection` walks the smaller set.
unfoldable pub intersection : List Packet → List Packet → List Packet
intersection a b =
    if leb (length a) (length b) then keep (has_packet b) a else keep (has_packet a) b

-- `HashSet::union` walks the larger set, then what the other has beside.
unfoldable pub union : List Packet → List Packet → List Packet
union a b =
    if leb (length b) (length a)
    then a ++ keep (λ p. not (has_packet a p)) b
    else b ++ keep (λ p. not (has_packet b p)) a

unfoldable pub get_parameter : Packet → Text → Option Literal
unfolding get
get_parameter p param_name = elim p.parameters [
  | none ↦ none
  | some params ↦ elim (get param_name params) [
    | none ↦ none
    | some v ↦ elim v [
      | numeric n ↦ Option.map number n
      | boolean b ↦ some (bool b)
      | text s ↦ some (string s)
      | _ ↦ none
    ]
  ]
]

unfoldable pub lookup_value : Packet → PacketLookup → Option Literal
unfolding get_parameter
lookup_value p id = some (string p.id)
lookup_value p name = some (string p.name)
lookup_value p (parameter param_name) = get_parameter p param_name

unfoldable pub evaluate_lookup : Packet → Lookup → Result QueryError (Option Literal)
unfolding lookup_value
evaluate_lookup p (packet l) = ok (lookup_value p l)
evaluate_lookup p (environment _) =
    err (eval_error (codes "environment lookup is not supported in this context"))
evaluate_lookup p (this _) =
    err (eval_error (codes "this parameters are not supported in this context"))

unfoldable pub evaluate_test_value : Packet → TestValue → Result QueryError (Option Literal)
unfolding evaluate_lookup
evaluate_test_value p (literal v) = ok (some v)
evaluate_test_value p (lookup l) = evaluate_lookup p l

compare_numbers : TestOperator → F64 → F64 → Bool
compare_numbers equal l r = eq_of (partial_cmp l r)
compare_numbers not_equal l r = not (eq_of (partial_cmp l r))
compare_numbers less_than l r = lt_of (partial_cmp l r)
compare_numbers less_than_or_equal l r = le_of (partial_cmp l r)
compare_numbers greater_than l r = lt_of (partial_cmp r l)
compare_numbers greater_than_or_equal l r = le_of (partial_cmp r l)

-- The `match` of `lookup_filter`.
unfoldable pub test_literals : TestOperator → Option Literal → Option Literal → Bool
unfolding compare_numbers
test_literals op (some (number l)) (some (number r)) = compare_numbers op l r
test_literals equal (some l) (some r) = same_literal l r
test_literals not_equal (some l) (some r) = not (same_literal l r)
test_literals _ _ _ = false

unfoldable pub lookup_filter :
    Packet → TestOperator → TestValue → TestValue → Result QueryError Bool
unfolding test_literals evaluate_test_value
lookup_filter p op lhs rhs = do
  lhs_literal ← evaluate_test_value p lhs
  rhs_literal ← evaluate_test_value p rhs
  ok (test_literals op lhs_literal rhs_literal)

-- `[last]`, or nothing.
abbrev pub last_only : List Packet → List Packet
last_only ps = elim (last ps) [ none ↦ [] | some p ↦ p ∷ [] ]

unfoldable pub eval_single : List Packet → Result QueryError (List Packet)
unfolding decimal
eval_single ps =
    if nat_eqb (length ps) 1
    then ok ps
    else err (
        eval_error (
          codes "Query found "
          ++ (decimal (length ps) ++ codes " packets, but expected exactly one")))

unfoldable pub eval_boolean_op : BooleanOperator → List Packet → List Packet → List Packet
unfolding intersection union set_of
eval_boolean_op and lhs rhs = intersection (set_of lhs) (set_of rhs)
eval_boolean_op or lhs rhs = union (set_of lhs) (set_of rhs)

module _ (index : List Packet) where
  unfoldable pub eval_test : TestOperator → TestValue → TestValue → Result QueryError (List Packet)
  unfolding lookup_filter
  eval_test op lhs rhs =
      collect_some
        (λ p. map_ok (λ keeps. if keeps then some p else none) (lookup_filter p op lhs rhs)) index

  unfoldable pub eval_negation : List Packet → List Packet
  eval_negation ps = keep (λ p. not (has_packet ps p)) index

  unfoldable pub eval_query : Choices → QueryNode → Result QueryError (List Packet)
  unfolding eval_test eval_single eval_negation eval_boolean_op
  eval_query c latest = ok (last_only index)
  eval_query c (latest_of q) = map_ok last_only (eval_query c q)
  eval_query c (single q) = eval_query c q >>= eval_single
  eval_query c (test op lhs rhs) = eval_test op lhs rhs
  eval_query c (negation q) = map_ok eval_negation (eval_query c q)
  eval_query c (brackets q) = eval_query c q
  eval_query c (boolean_expr op lhs rhs) = do
    lhs_res ← eval_query (left_of c) lhs
    rhs_res ← eval_query (right_of c) rhs
    ok (walk c (eval_boolean_op op lhs_res rhs_res))
