-- ===== src/Query/Format.antt =====
-- src/query/query_format.rs: the ids of the packets found, one to a line.

use outpack_server.Packet.{Packet}
use outpack_server.Prelude.{List, Text, [], codes, join_text, map, ◌∷◌}
use outpack_server.Query.Eval.{QueryError}
use outpack_server.Result.{Result, map_ok}

abbrev pub format_found : List Packet → Text
format_found [] = codes "Found no packets"
format_found (p ∷ ps) = join_text (codes "\n") (map (λ (q : Packet). q.id) (p ∷ ps))

unfoldable pub format_query_result : Result QueryError (List Packet) → Result QueryError Text
unfolding join_text
format_query_result packets = map_ok format_found packets
