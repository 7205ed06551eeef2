-- ===== src/Config/File.antt =====
-- src/config.rs: the configuration file.
use outpack_server.Config.{Config}
use outpack_server.Io.FilePath.{FilePath, join}
use outpack_server.Io.Fs.{Fs, Io, IoResult, create, read_file, write, ◌>>◌}
use outpack_server.Json.{Json}
use outpack_server.Prelude.{codes}
use outpack_server.Result.{and_then}

-- `root.join(".outpack")`
abbrev pub outpack_dir : FilePath → FilePath
outpack_dir root = join root (codes ".outpack")

abbrev pub config_path : FilePath → FilePath
config_path root = join (outpack_dir root) (codes "config.json")

module _ (json : Json) where
  unfoldable pub read_config : Fs → FilePath → IoResult Config
  unfolding read_file
  read_config fs root = and_then (read_file fs (config_path root)) json.config_of

  unfoldable pub write_config : Config → FilePath → Io (Unit {0})
  unfolding write create
  write_config config root = do
    create (config_path root)
    write (config_path root) (json.config_to config)
