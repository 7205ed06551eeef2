-- ===== src/Query/Run.antt =====
-- src/query/mod.rs, `run_query`: a query as text, over the packets of a repository.

use outpack_server.Api.{index}
use outpack_server.Index.{get_packet_index}
use outpack_server.Io.FilePath.{FilePath}
use outpack_server.Io.Fs.{Fs, IoError}
use outpack_server.Json.{Json}
use outpack_server.Prelude.{Text, codes, ◌++◌}
use outpack_server.Query.Eval.{Choices, QueryError, eval_error, eval_query, parse_error}
use outpack_server.Query.Format.{format_query_result}
use outpack_server.Query.Parse.Convert.{parse_query}
use outpack_server.Query.Parse.Pratt.{Pratt}
use outpack_server.Result.{Result, map_err, ◌>>=◌}

-- `display` and `debug` print a path and an error, as std does.
module _ (json : Json) (pratt : Pratt) (display : FilePath → Text) (debug : IoError → Text) where
  index_error : FilePath → IoError → QueryError
  index_error root e = eval_error (
      codes "Could not build outpack index from root at "
      ++ (display root ++ (codes ": " ++ debug e)))

  unfoldable pub run_query : Choices → Fs → FilePath → Text → Result QueryError Text
  unfolding index_error get_packet_index parse_query eval_query format_query_result
  run_query c fs root query = do
    index ← map_err (index_error root) (get_packet_index json fs root)
    parsed ← map_err parse_error (parse_query pratt query)
    format_query_result (eval_query index.packets c parsed)
