-- ===== src/Tests/Queries.antt =====
-- src/query/query_eval.rs and src/metadata.rs at concrete packets.
use mathlib.Core.List.{Mem, Perm}
use mathlib.Core.List.Perm
use outpack_server.Float.{nan}
use outpack_server.Packet.{Packet}
use outpack_server.Prelude.{
  All, IsSortedBy, List, Text, [], codes, keep, list_eq, nat_eq, none, refl, some, text_le, true,
  ◌∷◌, ◌≡◌, ◌⊎◌,
}
use outpack_server.Query.Eval.{Choices, as_listed, choose, eval_query}
use outpack_server.Query.Latest.{eval_query-latest_of}
use outpack_server.Query.Meaning.{Permutes, eval_query-selects, selects}
use outpack_server.Query.Python.{
  PyClass, PyFields, convert_query, convert_query-read, py_instance, read_query,
}
use outpack_server.Query.Sets.{Distinct}
use outpack_server.Query.Types.{
  QueryNode, boolean_expr, brackets, equal, latest_of, literal, lookup, name, negation, or, packet,
  string, test,
}
use outpack_server.Result.{collect_some, ok}

abbrev packet_named : Text → Text → Packet
packet_named i n = record {
  id = i;
  name = n;
  custom = none;
  parameters = none;
  files = [];
  depends = [];
  time = record { start = nan; end = nan };
}

abbrev first : Packet
first = packet_named (codes "20170818-164830-33e0ab01") (codes "a")

abbrev second : Packet
second = packet_named (codes "20180220-095832-16a4bbed") (codes "b")

abbrev third : Packet
third = packet_named (codes "20180818-164043-7cdcde4b") (codes "a")

abbrev index : List Packet
index = first ∷ second ∷ third ∷ []

abbrev named : Text → QueryNode
named t = test equal (lookup (packet name)) (literal (string t))

abbrev a_or_b : QueryNode
a_or_b = boolean_expr or (named (codes "a")) (negation (brackets (named (codes "a"))))

index-Distinct : Distinct index
unfolding list_eq nat_eq
index-Distinct = (refl, (refl, (refl, tt)))

-- The sets are walked backwards.
abbrev swap_ends : List Packet → List Packet
swap_ends (x ∷ y ∷ ps) = y ∷ x ∷ ps
swap_ends ps = ps

swap_ends-perm : (ps : List Packet) → Perm (swap_ends ps) ps
swap_ends-perm [] = Perm.refl []
swap_ends-perm (x ∷ []) = Perm.refl (x ∷ [])
swap_ends-perm (x ∷ y ∷ ps) = Perm.swap x y ps

abbrev walked : Choices
walked = choose swap_ends as_listed as_listed

walked-Permutes : Permutes walked
walked-Permutes = (swap_ends-perm, tt, tt)

found_in_walk : eval_query index walked a_or_b ≡ ok (third ∷ first ∷ second ∷ [])
unfolding eval_query collect_some list_eq nat_eq
found_in_walk = refl

eval_query-selects_example :
    (ps : List Packet) × (eval_query index walked a_or_b ≡ ok ps)
    × Perm ps (keep (selects a_or_b) index)
eval_query-selects_example =
    eval_query-selects index index-Distinct walked a_or_b walked-Permutes ((tt, tt), (tt, tt))

sorted_index : IsSortedBy (λ (p : Packet). p.id) index
sorted_index = (refl, (refl, tt))

eval_query-latest_of_example :
    ((keep (selects (named (codes "a"))) index ≡ [])
      × (eval_query index as_listed (latest_of (named (codes "a"))) ≡ ok []))
    ⊎ ((p : Packet) × (eval_query index as_listed (latest_of (named (codes "a"))) ≡ ok (p ∷ []))
        × Mem p index
        × (selects (named (codes "a")) p ≡ true)
        × All (λ x. selects (named (codes "a")) x ≡ true → text_le x.id p.id ≡ true) index)
eval_query-latest_of_example =
    eval_query-latest_of index index-Distinct as_listed (named (codes "a")) tt (tt, tt) tt
      sorted_index

latest_found : eval_query index as_listed (latest_of (named (codes "a"))) ≡ ok (third ∷ [])
unfolding eval_query collect_some list_eq nat_eq
latest_found = refl

convert_query-read_example :
    (c : PyClass) × (args : PyFields) × (convert_query (latest_of a_or_b) ≡ ok (py_instance c args))
    × (read_query (py_instance c args) ≡ some (latest_of a_or_b))
convert_query-read_example = convert_query-read (latest_of a_or_b)
