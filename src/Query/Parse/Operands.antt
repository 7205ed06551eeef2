-- ===== src/Query/Parse/Operands.antt =====
-- src/query/query_parse.rs: the operands that the printer of queries writes are read back, when the
-- queries within are.

use outpack_server.Prelude.{
  Text, ap, arith, codes, false, length, refl, suc, sym, zero, ℕ, ◌++◌, ◌<◌, ◌∙◌, ◌∷◌, ◌≡◌, ◌≤◌,
}
use outpack_server.Query.Parse.Chains.{Chain, Continues, Operand, append-no_pairs, skip-print}
use outpack_server.Query.Parse.Convert.{
  ParseResult, arrange, map_infix, map_prefix, operands, parse_expr, single_variable, unwrap_node,
}
use outpack_server.Query.Parse.Grammar.{
  Recognizer, atomic, exactly, match_body, match_boolean, match_brackets, match_chain, match_expr,
  match_infix_expression, match_latest, match_literal, match_lookup, match_lookup_packet,
  match_no_variable_func, match_number, match_operand, match_single_variable_func, match_string,
  match_test_value, matched, one_of, optional, rule, skip, unmatched, ◌//◌, ◌~~◌, ◌~◌,
}
use outpack_server.Query.Parse.Pairs.{Pair, Pairs, Rule, next, no_pairs, one_pair, pair}
use outpack_server.Query.Parse.Pratt.{IsPratt, Pratt, is_primary}
use outpack_server.Query.Parse.Print.{FitsValue, operator_text, print_onto, print_value}
use outpack_server.Query.Parse.Steps.{
  Stops, chosen, consumed-append, in_rule, not_begun, not_followed, not_in_rule, passed_over,
  spaced_from, within,
}
use outpack_server.Query.Parse.Values.{
  is_opening, not_brackets, not_latest, not_single, reads_test, value-Begins,
}
use outpack_server.Query.Types.{
  QueryNode, TestOperator, TestValue, brackets, latest, latest_of, single, test,
}
use outpack_server.Result.{ok}

-- A latest() and a test is no operand of another form.
no_body : (f : ℕ) (k : Text) → match_body (suc f) (codes ")" ++ k) ≡ unmatched
unfolding match_chain match_expr match_operand match_brackets match_single_variable_func
    match_no_variable_func match_infix_expression match_test_value match_lookup match_lookup_packet
    match_literal match_string match_boolean match_number ◌~~◌ ◌~◌ ◌//◌ optional exactly one_of rule
    atomic
no_body f k = refl

abbrev names_function : Recognizer
names_function = match_latest // rule Rule.single (exactly (codes "single"))

takes_latest :
    (k : Text)
    → match_latest (codes "latest" ++ k)
      ≡ matched (one_pair (pair Rule.latest (codes "latest") no_pairs)) k
unfolding exactly rule
takes_latest k = rw (consumed-append (codes "latest") k) refl

takes_single :
    (k : Text)
    → names_function (codes "single" ++ k)
      ≡ matched (one_pair (pair Rule.single (codes "single") no_pairs)) k
unfolding exactly rule ◌//◌
takes_single k = rw (consumed-append (codes "single") k) refl

opens : (k : Text) → exactly (codes "(") (skip (codes "(" ++ k)) ≡ matched no_pairs k
unfolding exactly
opens k = refl

closes : (k : Text) → exactly (codes ")") (skip (codes ")" ++ k)) ≡ matched no_pairs k
unfolding exactly
closes k = refl

not_infix :
    (body : Recognizer) (c : ℕ) (t : Text)
    → is_opening c ≡ false
    → match_operand body (c ∷ t) ≡ match_infix_expression (c ∷ t)
unfolding match_operand match_single_variable_func match_no_variable_func
not_infix body c t h =
    passed_over _ _ (not_brackets body c t h)
    ∙ passed_over _ _
        (not_in_rule _ _ (not_begun _ _ (passed_over _ _ (not_latest c t h) ∙ not_single c t h)))
    ∙ passed_over _ _ (not_in_rule _ _ (not_begun _ _ (not_latest c t h)))

not_brackets_l : (body : Recognizer) (k : Text) → match_brackets body (codes "l" ++ k) ≡ unmatched
unfolding match_brackets ◌~◌ ◌~~◌ exactly rule
not_brackets_l body k = refl

not_brackets_s : (body : Recognizer) (k : Text) → match_brackets body (codes "s" ++ k) ≡ unmatched
unfolding match_brackets ◌~◌ ◌~~◌ exactly rule
not_brackets_s body k = refl

takes_pair : (k : Text) → exactly (codes "()") (skip (codes "()" ++ k)) ≡ matched no_pairs k
unfolding exactly
takes_pair k = refl

latest_read :
    (f : ℕ) (k : Text)
    → length (codes "latest()" ++ k) ≤ f
    → match_operand (match_body f) (codes "latest()" ++ k)
      ≡ matched
          (one_pair (
            within Rule.no_variable_func
              (codes "latest()" ++ k)
              k
              (one_pair (pair Rule.latest (codes "latest") no_pairs))))
          k
unfolding match_operand match_single_variable_func match_no_variable_func
latest_read zero k le = absurd (omega arith)
latest_read (suc f) k le =
    passed_over _ _ (not_brackets_l _ (codes "atest()" ++ k))
    ∙ passed_over _ _ (
        not_in_rule _ _ (
          not_followed _ _ (chosen _ _ (takes_latest (codes "()" ++ k)))
            (not_followed _ _ (opens (codes ")" ++ k)) (not_begun _ _ (no_body f k)))))
    ∙ chosen _ _ (in_rule _ _ (spaced_from _ _ (takes_latest (codes "()" ++ k)) (takes_pair k)))

module _ (pratt : Pratt) where
  pub latest-Operand : Operand pratt latest
  unfolding print_onto match_operand match_single_variable_func match_no_variable_func parse_expr
  latest-Operand k s = record {
    found =
        within Rule.no_variable_func (codes "latest()" ++ k) k
          (one_pair (pair Rule.latest (codes "latest") no_pairs));
    primary = refl;
    parsed = refl;
    read = λ f le. latest_read f k le;
  }

  pub test-Operand :
      (op : TestOperator) (l r : TestValue)
      → FitsValue l
      → FitsValue r
      → Operand pratt (test op l r)
  unfolding print_onto
  test-Operand op l r h i k s =
      let (p, e, same, parsed) = reads_test op l r k h i s in
      let (c, t, begins, opening) =
        value-Begins l (b' ' ∷ (operator_text op ++ (b' ' ∷ print_value r k))) in
      record {
        found = p;
        primary = ap is_primary same;
        parsed = parsed pratt;
        read = λ f le.
            ap (match_operand (match_body f)) begins
            ∙ not_infix (match_body f) c t opening
            ∙ ap match_infix_expression (sym begins)
            ∙ e;
      }

  -- A query in brackets.
  pub record ReadsBody (q : QueryNode) (more : Text) : Type 0 where
    pub inner : Pairs
    pub arranged : arrange pratt (operands pratt inner) ≡ ok q
    pub read :
        (f : ℕ)
        → length (print_onto q more) < f
        → match_body f (print_onto q more)
          ≡ matched (one_pair (within Rule.body (print_onto q more) more inner)) more

  pub Chain-body :
      (law : IsPratt pratt) (q : QueryNode) (more : Text)
      → Stops more
      → Continues more no_pairs more
      → Chain pratt 0 q
      → ReadsBody q more
  Chain-body law q more s go chain =
      let c = chain more s no_pairs more go in
      record {
        inner = c.found;
        arranged = rw (sym c.arranged) (
            ap (unwrap_node pratt)
              (law.parse-pairs_of (ParseResult QueryNode) map_prefix map_infix c.tree c.binds)
            ∙ c.parsed);
        read = λ f lt.
            in_rule _ _ (c.read f lt ∙ ap (λ ps. matched ps more) (append-no_pairs c.found));
      }

  abbrev pub body_pair : {q : QueryNode} {more : Text} → ReadsBody q more → Pair
  body_pair {q = q} {more = more} b = within Rule.body (print_onto q more) more b.inner

  enclosed :
      (q : QueryNode) (k : Text) (b : ReadsBody q (codes ")" ++ k)) (f : ℕ)
      → length (print_onto q (codes ")" ++ k)) < f
      → (exactly (codes "(") ~ match_body f ~ exactly (codes ")"))
          (skip (codes "(" ++ print_onto q (codes ")" ++ k)))
        ≡ matched (one_pair (body_pair b)) k
  enclosed q k b f lt =
      spaced_from _ _ (opens (print_onto q (codes ")" ++ k))) (
        spaced_from _ _ (ap (match_body f) (skip-print q (codes ")" ++ k)) ∙ b.read f lt)
          (closes k))

  abbrev pub Body : QueryNode → Type 0
  Body q = (k : Text) → ReadsBody q (codes ")" ++ k)

  pub brackets-Operand : (q : QueryNode) → Body q → Operand pratt (brackets q)
  unfolding print_onto match_operand match_brackets parse_expr
  brackets-Operand q body k s =
      let b = body k in
      record {
        found =
            within Rule.brackets (codes "(" ++ print_onto q (codes ")" ++ k)) k
              (one_pair (body_pair b));
        primary = refl;
        parsed = rw b.arranged refl;
        read = λ f le. chosen _ _ (in_rule _ _ (enclosed q k b f (omega arith)));
      }

  pub latest_of-Operand : (q : QueryNode) → Body q → Operand pratt (latest_of q)
  unfolding print_onto match_operand match_single_variable_func parse_expr single_variable
  latest_of-Operand q body k s =
      let b = body k in
      record {
        found =
            within Rule.single_variable_func (codes "latest(" ++ print_onto q (codes ")" ++ k)) k
              (next (pair Rule.latest (codes "latest") no_pairs) (one_pair (body_pair b)));
        primary = refl;
        parsed = rw b.arranged refl;
        read = λ f le.
            passed_over _ _ (not_brackets_l _ (codes "atest(" ++ print_onto q (codes ")" ++ k)))
            ∙ chosen _ _ (
                in_rule _ _ (
                  spaced_from _ _
                    (chosen _ _ (takes_latest (codes "(" ++ print_onto q (codes ")" ++ k))))
                    (enclosed q k b f (omega arith))));
      }

  pub single-Operand : (q : QueryNode) → Body q → Operand pratt (single q)
  unfolding print_onto match_operand match_single_variable_func parse_expr single_variable
  single-Operand q body k s =
      let b = body k in
      record {
        found =
            within Rule.single_variable_func (codes "single(" ++ print_onto q (codes ")" ++ k)) k
              (next (pair Rule.single (codes "single") no_pairs) (one_pair (body_pair b)));
        primary = refl;
        parsed = rw b.arranged refl;
        read = λ f le.
            passed_over _ _ (not_brackets_s _ (codes "ingle(" ++ print_onto q (codes ")" ++ k)))
            ∙ chosen _ _ (
                in_rule _ _ (
                  spaced_from _ _ (takes_single (codes "(" ++ print_onto q (codes ")" ++ k)))
                    (enclosed q k b f (omega arith))));
      }
