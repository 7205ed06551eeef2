-- ===== src/Api/Preflight.antt =====
-- src/api.rs, `check_config` and `preflight`: the configuration that the server asks for. The
-- errors are the texts of the crate anyhow, without the path that they name.

use outpack_server.Config.{Config, Core}
use outpack_server.Config.File.{outpack_dir, read_config}
use outpack_server.Hash.{algorithm_text, same_algorithm, sha256}
use outpack_server.Io.FilePath.{FilePath}
use outpack_server.Io.Fs.{Fs, IoError, exists}
use outpack_server.Json.{Json}
use outpack_server.Prelude.{Option, Text, codes, if◌then◌else◌, none, not, some, ◌++◌}
use outpack_server.Result.{Result, and_then, err, map_err, ok, ◌>>◌}

abbrev pub refuse : Text → Result Text (Unit {0})
refuse t = err t

check_storage : Core → Result Text (Unit {0})
check_storage core =
    if not core.use_file_store
    then refuse (codes "Outpack must be configured to use a file store")
    else if not core.require_complete_tree
    then refuse (codes "Outpack must be configured to require a complete tree")
    else ok tt

check_algorithm : Core → Result Text (Unit {0})
check_algorithm core =
    if not (same_algorithm core.hash_algorithm sha256)
    then refuse (
        codes "Outpack must be configured to use hash algorithm 'sha256', but you are using '"
        ++ (algorithm_text core.hash_algorithm ++ codes "'"))
    else ok tt

check_archive : Option Text → Result Text (Unit {0})
check_archive none = ok tt
check_archive (some path_archive) = refuse (
    codes "Outpack must be configured to *not* use an archive, but your path_archive is '"
    ++ (path_archive ++ codes "'"))

unfoldable pub check_config : Config → Result Text (Unit {0})
unfolding check_storage check_algorithm check_archive
check_config config = do
  check_storage config.core
  check_algorithm config.core
  check_archive config.core.path_archive

unfoldable pub preflight : Json → Fs → FilePath → Result Text (Unit {0})
unfolding check_config
preflight json fs root =
    if not (exists fs (outpack_dir root))
    then refuse (codes "Outpack root not found")
    else and_then
        (map_err (λ (e : IoError). codes "Failed to read outpack config")
          (read_config json fs root))
        check_config
