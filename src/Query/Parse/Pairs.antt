-- ===== src/Query/Parse/Pairs.antt =====
-- What the crate pest gives of a text: a tree of pairs, each of a rule, of the text that the rule
-- matched, and of the pairs within.

use outpack_server.Prelude.{Text}

-- The rules of src/query/query.pest that make pairs.
pub data Rule : Type 0 where
  query body shortform_latest shortform_id negation and or brackets no_variable_func : Rule
  single_variable_func latest single infix_expression infix_function lookup lookup_packet : Rule
  lookup_packet_id lookup_packet_name lookup_packet_param lookup_this lookup_environment : Rule
  literal identifier number boolean string inner_dbl inner_sgl end_of_input : Rule

mutual
  pub data Pair : Type 0 where
    pair : Rule → Text → Pairs → Pair

  pub data Pairs : Type 0 where
    no_pairs : Pairs
    next : Pair → Pairs → Pairs

abbrev pub one_pair : Pair → Pairs
one_pair p = next p no_pairs

abbrev pub append : Pairs → Pairs → Pairs
append no_pairs qs = qs
append (next p ps) qs = next p (append ps qs)

abbrev pub as_rule : Pair → Rule
as_rule (pair r _ _) = r

abbrev pub as_str : Pair → Text
as_str (pair _ t _) = t

abbrev pub into_inner : Pair → Pairs
into_inner (pair _ _ inner) = inner
