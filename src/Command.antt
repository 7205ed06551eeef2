-- ===== src/Command.antt =====
-- src/bin/outpack: the commands of the program, once the crate clap has read the arguments.

use outpack_server.Api.Preflight.{preflight}
use outpack_server.Init.{outpack_init}
use outpack_server.Io.FilePath.{FilePath}
use outpack_server.Io.Fs.{Fs, IoError}
use outpack_server.Json.{Json}
use outpack_server.Prelude.{Bool, Option, Text, [], codes, ◌++◌}
use outpack_server.Query.Eval.{Choices, QueryError, parse_error}
use outpack_server.Query.Parse.Convert.{parse_query}
use outpack_server.Query.Parse.Pratt.{Pratt}
use outpack_server.Query.Run.{run_query}
use outpack_server.Query.Types.{QueryNode}
use outpack_server.Result.{Result, map_err, map_ok, ◌>>=◌}

-- An address is as std prints it.
pub data Command : Type 0 where
  init : FilePath → Option Text → Bool → Bool → Command
  search : FilePath → Text → Command
  parse : Text → Command
  start_server : FilePath → Text → Command

pub data Failure : Type 0 where
  io_failure : IoError → Failure
  query_failure : QueryError → Failure
  server_failure : Text → Failure

-- `debug_query` is the derived `Debug` of a query, and `listen` is `serve` once `preflight` has
-- passed.
module _ (json : Json) (pratt : Pratt) (display : FilePath → Text) (debug : IoError → Text)
    (debug_query : QueryNode → Text) (listen : FilePath → Text → Result Text (Unit {0})) where
  -- What the command prints, or the error that ends the program, and what it leaves on disk.
  unfoldable pub run_command : Choices → Command → Fs → Result Failure Text × Fs
  unfolding outpack_init run_query parse_query preflight
  run_command c (init path path_archive use_file_store require_complete_tree) fs =
      let (r, fs') = outpack_init json path path_archive use_file_store require_complete_tree fs in
      (map_err io_failure (map_ok (λ _. []) r), fs')
  run_command c (search root query) fs = (
    map_err query_failure
        (map_ok (λ t. t ++ codes "\n") (run_query json pratt display debug c fs root query)),
    fs,
  )
  run_command c (parse query) fs = (
    map_err (λ e. query_failure (parse_error e))
        (map_ok (λ q. debug_query q ++ codes "\n") (parse_query pratt query)),
    fs,
  )
  run_command c (start_server root address) fs = (
    map_err server_failure (preflight json fs root >>= λ _. map_ok (λ _. []) (listen root address)),
    fs,
  )
