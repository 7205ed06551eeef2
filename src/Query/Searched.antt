-- ===== src/Query/Searched.antt =====
-- src/query/mod.rs and src/query/python.rs: a query as from the parser to the packets that are
-- found and to the Python object.

use mathlib.Core.List.{Perm}
use outpack_server.Api.{index}
use outpack_server.Index.{Index, get_packet_index}
use outpack_server.Io.FilePath.{FilePath}
use outpack_server.Io.Fs.{Fs, IoError}
use outpack_server.Json.{Json}
use outpack_server.Packet.{Packet}
use outpack_server.Prelude.{
  List, Text, [], ap, append_assoc, codes, join_text, keep, map, refl, some, ◌++◌, ◌∙◌, ◌∷◌, ◌≡◌,
}
use outpack_server.Query.Eval.{Choices}
use outpack_server.Query.Format.{format_found, format_query_result}
use outpack_server.Query.Meaning.{IsPlain, Permutes, eval_query-selects, selects}
use outpack_server.Query.Parse.Pratt.{IsPratt, Pratt}
use outpack_server.Query.Parse.Print.{Fits, print}
use outpack_server.Query.Parse.RoundTrip.{parse_query-print}
use outpack_server.Query.Python.{
  PyObject, convert_query-read, py_instance, python_query, read_query,
}
use outpack_server.Query.Run.{run_query}
use outpack_server.Query.Sets.{Distinct}
use outpack_server.Query.Types.{QueryNode}
use outpack_server.Result.{ok}

abbrev as_lines : List Packet → Text
as_lines [] = []
as_lines (p ∷ ps) = p.id ++ (codes "\n" ++ as_lines ps)

-- The text has the id of each packet on a line of its own, in their order, with no end of the last
-- line; or says that there is none.
abbrev pub IsListing : Text → List Packet → Type 0
IsListing shown [] = shown ≡ codes "Found no packets"
IsListing shown (p ∷ ps) = shown ++ codes "\n" ≡ as_lines (p ∷ ps)

joined-lines :
    (p : Packet) (ps : List Packet)
    → join_text (codes "\n") (map (λ (q : Packet). q.id) (p ∷ ps)) ++ codes "\n" ≡ as_lines (p ∷ ps)
unfolding join_text
joined-lines p [] = refl
joined-lines p (q ∷ ps) =
    append_assoc p.id (codes "\n" ++ join_text (codes "\n") (map (λ (r : Packet). r.id) (q ∷ ps)))
      (codes "\n")
    ∙ ap (λ t. p.id ++ (codes "\n" ++ t)) (joined-lines q ps)

format_found-IsListing : (ps : List Packet) → IsListing (format_found ps) ps
format_found-IsListing [] = refl
format_found-IsListing (p ∷ ps) = joined-lines p ps

module _ (pratt : Pratt) (law : IsPratt pratt) where
  -- Where the index of a repository is read and its ids are distinct, a query of tests, negations,
  -- brackets and boolean operators, without `this:` and `environment:`, that fits the grammar and
  -- is searched for as it is printed gives the ids of the packets of the index that it means, a
  -- line for each, in some order, whatever the order in which sets are walked, or says that there
  -- are none, if the Pratt parser has its law.
  pub run_query-selects :
      (json : Json) (display : FilePath → Text) (debug : IoError → Text) (c : Choices) (fs : Fs)
      (root : FilePath) (index : Index) (q : QueryNode)
      → get_packet_index json fs root ≡ ok index
      → Distinct index.packets
      → Permutes c
      → IsPlain q
      → Fits 0 q
      → (shown : Text) × (ps : List Packet) × (run_query json pratt display debug c fs root
            (print q)
          ≡ ok shown)
        × (IsListing shown ps)
        × (Perm ps (keep (selects q) index.packets))
  unfolding run_query format_query_result
  run_query-selects json display debug c fs root index q e distinct h plain fits =
      let (ps, found, selected) = eval_query-selects index.packets distinct c q h plain in
      (
        format_found ps,
        ps,
        rw (e, parse_query-print pratt law q fits, found) refl,
        format_found-IsListing ps,
        selected,
      )

  -- A query that fits the grammar is given to Python, from the text it is printed as, as an object
  -- from which the query is read back by the class and its fields, if the Pratt parser has its law.
  python_query-read :
      (q : QueryNode)
      → Fits 0 q
      → (o : PyObject) × (python_query pratt (print q) ≡ ok o) × (read_query o ≡ some q)
  unfolding python_query
  python_query-read q fits =
      let (c, args, e, back) = convert_query-read q in
      (py_instance c args, rw (parse_query-print pratt law q fits) e, back)
