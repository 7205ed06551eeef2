-- ===== src/Query/Meaning.antt =====
-- src/query/query_eval.rs: what a query means, one packet at a time, and that evaluation finds the
-- packets that the query means.
use mathlib.Core.List.{Perm}
use mathlib.Core.List.Perm
use outpack_server.Packet.{Packet}
use outpack_server.Prelude.{
  Bool, List, Option, [], arith, false, keep, none, not, refl, some, ◌&&◌, ◌||◌, ◌∷◌, ◌≡◌,
}
use outpack_server.Query.Boolean.{eval_boolean_op-and, eval_boolean_op-or, eval_negation-Finds}
use outpack_server.Query.Eval.{
  Choices, as_listed, choose, eval_boolean_op, eval_negation, eval_query, eval_test,
  evaluate_lookup, evaluate_test_value, left_of, lookup_filter, lookup_value, right_of,
  test_literals, walk,
}
use outpack_server.Query.Sets.{Distinct}
use outpack_server.Query.Types.{
  BooleanOperator, Literal, QueryNode, TestOperator, TestValue, and, boolean_expr, brackets,
  environment, latest, latest_of, literal, lookup, negation, or, packet, single, test, this,
}
use outpack_server.Result.{collect_some, ok}

-- `this:` and `environment:` are refused by the evaluation.
abbrev pub IsSupported : TestValue → Type 0
IsSupported (lookup (packet l)) = Unit
IsSupported (lookup _) = ⊥
IsSupported (literal v) = Unit

-- The value of a side of a test at a packet.
abbrev pub value_at : Packet → TestValue → Option Literal
value_at p (lookup (packet l)) = lookup_value p l
value_at p (lookup _) = none
value_at p (literal v) = some v

-- A query of tests, negations, brackets and boolean operators.
abbrev pub IsPlain : QueryNode → Type 0
IsPlain (test op lhs rhs) = IsSupported lhs × IsSupported rhs
IsPlain (negation q) = IsPlain q
IsPlain (brackets q) = IsPlain q
IsPlain (boolean_expr op lhs rhs) = IsPlain lhs × IsPlain rhs
IsPlain _ = ⊥

-- Whether such a query means the packet.
abbrev pub selects : QueryNode → Packet → Bool
selects (test op lhs rhs) p = test_literals op (value_at p lhs) (value_at p rhs)
selects (negation q) p = not (selects q p)
selects (brackets q) p = selects q p
selects (boolean_expr and lhs rhs) p = selects lhs p && selects rhs p
selects (boolean_expr or lhs rhs) p = selects lhs p || selects rhs p
selects _ p = false

-- Walking a set changes the order of its members only.
abbrev pub Permutes : Choices → Type 0
Permutes as_listed = Unit
Permutes (choose f l r) = ((ps : List Packet) → Perm (f ps) ps) × Permutes l × Permutes r

walk-perm : (c : Choices) → Permutes c → (ps : List Packet) → Perm (walk c ps) ps
walk-perm as_listed h ps = Perm.refl ps
walk-perm (choose f l r) h ps = h.0 ps

pub left_of-Permutes : (c : Choices) → Permutes c → Permutes (left_of c)
left_of-Permutes as_listed h = tt
left_of-Permutes (choose f l r) h = h.1

pub right_of-Permutes : (c : Choices) → Permutes c → Permutes (right_of c)
right_of-Permutes as_listed h = tt
right_of-Permutes (choose f l r) h = h.2

evaluate_test_value_supported :
    (p : Packet) (v : TestValue) → IsSupported v → evaluate_test_value p v ≡ ok (value_at p v)
unfolding evaluate_test_value evaluate_lookup
evaluate_test_value_supported p (lookup (packet l)) s = refl
evaluate_test_value_supported p (lookup (this t)) s = absurd s
evaluate_test_value_supported p (lookup (environment t)) s = absurd s
evaluate_test_value_supported p (literal v) s = refl

module _ (op : TestOperator) (lhs rhs : TestValue) (s : IsSupported lhs) (t : IsSupported rhs) where
  lookup_filter_supported :
      (p : Packet) → lookup_filter p op lhs rhs ≡ ok (selects (test op lhs rhs) p)
  unfolding lookup_filter
  lookup_filter_supported p =
      rw (evaluate_test_value_supported p lhs s, evaluate_test_value_supported p rhs t)

  -- A test keeps the packets that pass it, in the order of the index.
  pub eval_test-eq-keep :
      (index : List Packet)
      → eval_test index op lhs rhs ≡ ok (keep (selects (test op lhs rhs)) index)
  unfolding eval_test collect_some
  eval_test-eq-keep [] = refl
  eval_test-eq-keep (p ∷ index) =
      rw (lookup_filter_supported p, eval_test-eq-keep index) (ground arith)

module _ (index : List Packet) (distinct : Distinct index) where
  eval_boolean_op-selects :
      (op : BooleanOperator) (lhs rhs : QueryNode) {a b : List Packet}
      → Perm a (keep (selects lhs) index)
      → Perm b (keep (selects rhs) index)
      → Perm (eval_boolean_op op a b) (keep (selects (boolean_expr op lhs rhs)) index)
  eval_boolean_op-selects and lhs rhs h k =
      eval_boolean_op-and index distinct (selects lhs) (selects rhs) h k
  eval_boolean_op-selects or lhs rhs h k =
      eval_boolean_op-or index distinct (selects lhs) (selects rhs) h k

  -- Over an index of distinct ids, and whatever the order in which its sets are walked, a query of
  -- tests, negations, brackets and boolean operators, without `this:` and `environment:`, finds the
  -- packets of the index that it means, each once, in some order.
  pub eval_query-selects :
      (c : Choices) (q : QueryNode)
      → Permutes c
      → IsPlain q
      → (ps : List Packet) × (eval_query index c q ≡ ok ps) × Perm ps (keep (selects q) index)
  unfolding eval_query
  eval_query-selects c (test op lhs rhs) h (s, t) =
      (keep (selects (test op lhs rhs)) index, eval_test-eq-keep op lhs rhs s t index, Perm.refl _)
  eval_query-selects c (brackets q) h s = eval_query-selects c q h s
  eval_query-selects c (negation q) h s =
      let (ps, e, found) = eval_query-selects c q h s in
      (
        eval_negation index ps,
        rw e,
        rw (eval_negation-Finds index distinct (selects q) found) (Perm.refl _),
      )
  eval_query-selects c (boolean_expr op lhs rhs) h (s, t) =
      let (a, e, found_a) = eval_query-selects (left_of c) lhs (left_of-Permutes c h) s in
      let (b, d, found_b) = eval_query-selects (right_of c) rhs (right_of-Permutes c h) t in
      (
        walk c (eval_boolean_op op a b),
        rw (e, d),
        Perm.trans (walk-perm c h _) (eval_boolean_op-selects op lhs rhs found_a found_b),
      )
  eval_query-selects c latest h s = absurd s
  eval_query-selects c (latest_of q) h s = absurd s
  eval_query-selects c (single q) h s = absurd s
