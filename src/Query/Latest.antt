-- ===== src/Query/Latest.antt =====
-- src/query/query_eval.rs, `eval_latest`: which packet is the latest of those that a query finds.
use mathlib.Core.List.{Mem}
use outpack_server.Packet.{Packet}
use outpack_server.Prelude.{
  All, All-Mem, IsSortedBy, List, Option-cases, [], arith, inl, inr, keep, last, last-eq-none,
  last-keep, last-keep-All, text_le, true, ◌∷◌, ◌≡◌, ◌⊎◌,
}
use outpack_server.Query.Boolean.{eval_negation-Finds}
use outpack_server.Query.Eval.{Choices, eval_query}
use outpack_server.Query.Meaning.{IsPlain, Permutes, eval_query-selects, eval_test-eq-keep, selects}
use outpack_server.Query.Parse.Steps.{chosen}
use outpack_server.Query.Sets.{Distinct}
use outpack_server.Query.Types.{
  QueryNode, boolean_expr, brackets, latest, latest_of, negation, single, test,
}
use outpack_server.Result.{ok}

-- A plain query whose outermost operation, under brackets, walks no set.
abbrev pub IsOrdered : QueryNode → Type 0
IsOrdered (test op lhs rhs) = Unit
IsOrdered (negation q) = Unit
IsOrdered (brackets q) = IsOrdered q
IsOrdered _ = ⊥

module _ (index : List Packet) (distinct : Distinct index) where
  -- Such a query finds its packets in the order of the index.
  pub eval_query_ordered :
      (c : Choices) (q : QueryNode)
      → Permutes c
      → IsPlain q
      → IsOrdered q
      → eval_query index c q ≡ ok (keep (selects q) index)
  unfolding eval_query
  eval_query_ordered c (test op lhs rhs) h (s, t) o = eval_test-eq-keep op lhs rhs s t index
  eval_query_ordered c (brackets q) h s o = eval_query_ordered c q h s o
  eval_query_ordered c (negation q) h s o =
      let (ps, e, found) = eval_query-selects index distinct c q h s in
      rw (e, eval_negation-Finds index distinct (selects q) found)
  eval_query_ordered c (boolean_expr op lhs rhs) h s o = absurd o
  eval_query_ordered c latest h s o = absurd s
  eval_query_ordered c (latest_of q) h s o = absurd s
  eval_query_ordered c (single q) h s o = absurd s

  -- Over an index of distinct ids in their order, `latest` of such a query (its outermost operation
  -- a test or a negation) finds nothing if the query finds nothing, and else one packet that the
  -- query means, whose id no other packet that the query means exceeds.
  pub eval_query-latest_of :
      (c : Choices) (q : QueryNode)
      → Permutes c
      → IsPlain q
      → IsOrdered q
      → IsSortedBy (λ (p : Packet). p.id) index
      → ((keep (selects q) index ≡ []) × (eval_query index c (latest_of q) ≡ ok []))
        ⊎ ((p : Packet) × (eval_query index c (latest_of q) ≡ ok (p ∷ []))
            × Mem p index
            × (selects q p ≡ true)
            × All (λ x. selects q x ≡ true → text_le x.id p.id ≡ true) index)
  unfolding eval_query
  eval_query-latest_of c q h s o sorted =
      rw (eval_query_ordered c q h s o) (elim (Option-cases (last (keep (selects q) index))) [
        | inl n ↦ inl (last-eq-none _ n, ground arith)
        | inr (p, n) ↦
            let (chosen, above) = last-keep (λ (r : Packet). r.id) (selects q) index p sorted n in
            inr (
              p,
              ground arith,
              last-keep-All (selects q) index p (λ r. Mem r index) n (All-Mem index),
              chosen,
              above,
            )
      ])
