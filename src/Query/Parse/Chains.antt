-- ===== src/Query/Parse/Chains.antt =====
-- src/query/query_parse.rs: the chain of operators that the printer of queries writes is read back,
-- when its operands are.

use outpack_server.Prelude.{
  Text, [], ap, arith, codes, leb, length, length-append, refl, suc, sym, true, zero, ℕ, ◌++◌, ◌<◌,
  ◌∙◌, ◌∷◌, ◌≡◌, ◌≤◌,
}
use outpack_server.Query.Parse.Convert.{ParseResult, map_infix, map_prefix, operands, parse_expr}
use outpack_server.Query.Parse.Fuel.{match_expr-shorter}
use outpack_server.Query.Parse.Grammar.{
  Recognizer, exactly, match_body, match_boolean_operator, match_chain, match_expr, match_operand,
  matched, optional, rule, skip, unmatched, ◌//◌, ◌~~◌, ◌~◌,
}
use outpack_server.Query.Parse.Pairs.{Pair, Pairs, Rule, append, as_rule, next, no_pairs, one_pair}
use outpack_server.Query.Parse.Pratt.{
  Binds, Pratt, Tree, fold, is_primary, joined, leaf, level, negated, pairs_of, rule_of,
}
use outpack_server.Query.Parse.Print.{Fits, boolean_text, print_onto}
use outpack_server.Query.Parse.Steps.{
  Stops, at_space, in_rule, spaced_from, touching, with_it, within, without,
}
use outpack_server.Query.Parse.Values.{not_negated, skip-value}
use outpack_server.Query.Types.{
  BooleanOperator, QueryNode, and, boolean_expr, brackets, latest, latest_of, negation, or, single,
  test,
}
use outpack_server.Result.{ok}

append_assoc_pairs : (a b c : Pairs) → append (append a b) c ≡ append a (append b c)
append_assoc_pairs no_pairs b c = refl
append_assoc_pairs (next p a) b c = ap (next p) (append_assoc_pairs a b c)

pub append-no_pairs : (a : Pairs) → append a no_pairs ≡ a
append-no_pairs no_pairs = refl
append-no_pairs (next p a) = ap (next p) (append-no_pairs a)

-- What follows an expression: an operator and the rest of the chain, or nothing.
abbrev continued : ℕ → Recognizer
continued f = optional (λ rest. (match_boolean_operator ~ match_chain f) (skip rest))

abbrev pub Continues : Text → Pairs → Text → Type 0
Continues more ps rest = (f : ℕ) → length more ≤ f → continued f more ≡ matched ps rest

pub nothing_more : (more : Text) → Continues (codes ")" ++ more) no_pairs (codes ")" ++ more)
unfolding optional ◌~◌ ◌~~◌ ◌//◌ exactly rule
nothing_more more f le = refl

pub at_the_end : Continues [] no_pairs []
unfolding optional ◌~◌ ◌~~◌ ◌//◌ exactly rule
at_the_end f le = refl

pub skip-print : (q : QueryNode) (k : Text) → skip (print_onto q k) ≡ print_onto q k
unfolding print_onto
skip-print latest k = refl
skip-print (latest_of q) k = refl
skip-print (single q) k = refl
skip-print (negation q) k = refl
skip-print (brackets q) k = refl
skip-print (test op l r) k = skip-value l _
skip-print (boolean_expr op l r) k = skip-print l _

not_negation :
    (q : QueryNode) (k : Text)
    → Fits 3 q
    → rule Rule.negation (exactly (codes "!")) (print_onto q k) ≡ unmatched
unfolding print_onto Fits exactly rule
not_negation latest k h = refl
not_negation (latest_of q) k h = refl
not_negation (single q) k h = refl
not_negation (negation q) k h = cc
not_negation (brackets q) k h = refl
not_negation (test op l r) k h = not_negated l _
not_negation (boolean_expr and l r) k h = cc
not_negation (boolean_expr or l r) k h = cc

takes_sign : (k : Text) → exactly (codes "!") (b'!' ∷ k) ≡ matched no_pairs k
unfolding exactly
takes_sign k = refl

-- An expression and what follows it.
expr_read :
    (ts more rest : Text) (qs ps : Pairs)
    → ((f : ℕ) → length ts ≤ f → match_expr (match_body f) ts ≡ matched qs more)
    → Continues more ps rest
    → (f : ℕ) → length ts < f
    → match_chain f ts ≡ matched (append qs ps) rest
unfolding match_chain
expr_read ts more rest qs ps read go zero lt = absurd (omega arith)
expr_read ts more rest qs ps read go (suc f) lt =
    let e = read f (omega arith) in
    let shorter = match_expr-shorter f ts more qs lt e in touching _ _ e (go f (omega arith))

-- The operator of a boolean expression is read, from the space before it.
skip-boolean_text :
    (op : BooleanOperator) (k : Text) → skip (b' ' ∷ (boolean_text op ++ k)) ≡ boolean_text op ++ k
skip-boolean_text and k = refl
skip-boolean_text or k = refl

abbrev operator_pair : BooleanOperator → Text → Pair
operator_pair op k = within (rule_of op) (boolean_text op ++ k) k no_pairs

takes_operator :
    (op : BooleanOperator) (k : Text)
    → match_boolean_operator (skip (b' ' ∷ (boolean_text op ++ k)))
      ≡ matched (one_pair (operator_pair op k)) k
unfolding ◌//◌ exactly rule
takes_operator and k = refl
takes_operator or k = refl

map_infix-ok :
    (op : BooleanOperator) (l r : QueryNode)
    → map_infix (ok l) (rule_of op) (ok r) ≡ ok (boolean_expr op l r)
map_infix-ok and l r = refl
map_infix-ok or l r = refl

module _ (pratt : Pratt) where
  operands-append :
      (a b : Pairs) → operands pratt (append a b) ≡ operands pratt a ++ operands pratt b
  unfolding operands
  operands-append no_pairs b = refl
  operands-append (next p a) b = rw (operands-append a b)

  -- A query that is read as one pair, with fuel as long as its text.
  pub record ReadsOperand (q : QueryNode) (k : Text) : Type 0 where
    pub found : Pair
    pub primary : is_primary (as_rule found) ≡ true
    pub parsed : parse_expr pratt found ≡ ok q
    pub read :
        (f : ℕ)
        → length (print_onto q k) ≤ f
        → match_operand (match_body f) (print_onto q k) ≡ matched (one_pair found) k

  -- A query that is read as a chain, before pairs that follow.
  pub record ReadsChain (n : ℕ) (q : QueryNode) (more : Text) (ps : Pairs) (rest : Text)
      : Type 0 where
    pub found : Pairs
    pub tree : Tree (ParseResult QueryNode)
    pub arranged : pairs_of tree ≡ operands pratt found
    pub binds : Binds n tree
    pub parsed : fold map_prefix map_infix tree ≡ ok q
    pub read :
        (f : ℕ)
        → length (print_onto q more) < f
        → match_chain f (print_onto q more) ≡ matched (append found ps) rest

  abbrev pub Operand : QueryNode → Type 0
  Operand q = (k : Text) → Stops k → ReadsOperand q k

  abbrev pub Chain : ℕ → QueryNode → Type 0
  Chain n q =
      (more : Text)
      → Stops more
      → (ps : Pairs) (rest : Text) → Continues more ps rest
      → ReadsChain n q more ps rest

  pub Operand-Chain : (n : ℕ) (q : QueryNode) → Fits 3 q → Operand q → Chain n q
  unfolding operands match_expr
  Operand-Chain n q h operand more s ps rest go =
      let o = operand more s in
      record {
        found = one_pair o.found;
        tree = leaf (as_rule o.found) (parse_expr pratt o.found);
        arranged = refl;
        binds = o.primary;
        parsed = o.parsed;
        read =
            expr_read (print_onto q more) more rest (one_pair o.found) ps
              (λ f le.
                spaced_from _ _ (without _ (not_negation q more h))
                  (ap (match_operand (match_body f)) (skip-print q more) ∙ o.read f le))
              go;
      }

  pub negation-Chain : (n : ℕ) (q : QueryNode) → leb n 2 ≡ true → Operand q → Chain n (negation q)
  unfolding operands match_expr print_onto
  negation-Chain n q h operand more s ps rest go =
      let o = operand more s in
      let sign = within Rule.negation (b'!' ∷ print_onto q more) (print_onto q more) no_pairs in
      record {
        found = next sign (one_pair o.found);
        tree = negated (parse_expr pratt sign) (leaf (as_rule o.found) (parse_expr pratt o.found));
        arranged = refl;
        binds = o.primary;
        parsed = rw o.parsed refl;
        read =
            expr_read (b'!' ∷ print_onto q more) more rest (next sign (one_pair o.found)) ps
              (λ f le.
                spaced_from _ _ (with_it _ (in_rule _ _ (takes_sign (print_onto q more))))
                  (ap (match_operand (match_body f)) (skip-print q more) ∙ o.read f (omega arith)))
              go;
      }

  pub boolean_expr-Chain :
      (n : ℕ) (op : BooleanOperator) (l r : QueryNode)
      → leb n (level op) ≡ true
      → Chain (level op) l
      → Chain (suc (level op)) r
      → Chain n (boolean_expr op l r)
  unfolding operands print_onto
  boolean_expr-Chain n op l r h lhs rhs more s ps rest go =
      let after_op = b' ' ∷ print_onto r more in
      let sign = operator_pair op after_op in
      let right = rhs more s ps rest go in
      let left =
        lhs (b' ' ∷ (boolean_text op ++ after_op)) (at_space _) (next sign (append right.found ps))
          rest
          λ f le. with_it _ (
            spaced_from _ _ (takes_operator op after_op) (
              ap (match_chain f) (skip-print r more)
              ∙ right.read f (omega (arith, length-append (boolean_text op) after_op)))) in
      record {
        found = append left.found (next sign right.found);
        tree = joined op left.tree (parse_expr pratt sign) right.tree;
        arranged =
            rw (operands-append left.found (next sign right.found), left.arranged, right.arranged)
              refl;
        binds = (h, left.binds, right.binds);
        parsed = rw (left.parsed, right.parsed) (map_infix-ok op l r);
        read = λ f lt.
            left.read f lt
            ∙ ap (λ e. matched e rest)
                (sym (append_assoc_pairs left.found (next sign right.found) ps));
      }
