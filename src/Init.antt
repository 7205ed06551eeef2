-- ===== src/Init.antt =====
-- src/init.rs: the making of a repository.
pub mod Fresh
use outpack_server.Config.{Config, Core, new_config, same_core}
use outpack_server.Config.File.{outpack_dir, read_config, write_config}
use outpack_server.Io.FilePath.{FilePath, join}
use outpack_server.Io.Fs.{Io, create_dir_all, exists, fail, other, pure, reads, ◌>>=◌, ◌>>◌}
use outpack_server.Json.{Json}
use outpack_server.Locations.Read.{location_dir}
use outpack_server.Prelude.{Bool, Option, Text, codes, false, if◌then◌else◌, none, some, true}

-- The directory of the archive, if one is asked for.
unfoldable pub create_archive : FilePath → Option Text → Io (Unit {0})
create_archive root none = pure tt
create_archive root (some path_archive) = create_dir_all (join root path_archive)

unfoldable pub create_files : FilePath → Bool → Io (Unit {0})
create_files root true = create_dir_all (join (outpack_dir root) (codes "files"))
create_files root false = pure tt

-- The directories of a new repository, beside its own.
unfoldable pub create_parts : FilePath → Core → Io (Unit {0})
unfolding create_archive create_files
create_parts root core = do
  create_dir_all (join (location_dir root) (codes "local"))
  create_dir_all (join (outpack_dir root) (codes "metadata"))
  create_files root core.use_file_store
  create_archive root core.path_archive

module _ (json : Json) where
  -- The configuration may not be changed.
  abbrev pub compare_config : Config → Config → Io (Unit {0})
  compare_config cfg prev =
      if same_core cfg.core prev.core
      then pure tt
      else reads (λ _. fail other (codes "Trying to change config on reinitialisation"))

  unfoldable pub check_unchanged : FilePath → Config → Io (Unit {0})
  check_unchanged root cfg = do
    prev ← reads (λ fs. read_config json fs root)
    compare_config cfg prev

  unfoldable pub make_repository : FilePath → Config → Io (Unit {0})
  unfolding create_parts
  make_repository root cfg = do
    create_dir_all (outpack_dir root)
    write_config json cfg root
    create_parts root cfg.core

  abbrev pub init_at : FilePath → Config → Io (Unit {0})
  init_at root cfg fs =
      if exists fs (outpack_dir root)
      then check_unchanged root cfg fs
      else make_repository root cfg fs

  unfoldable pub outpack_init : FilePath → Option Text → Bool → Bool → Io (Unit {0})
  unfolding check_unchanged make_repository
  outpack_init root path_archive use_file_store require_complete_tree = do
    cfg ← reads (λ _. new_config path_archive use_file_store require_complete_tree)
    init_at root cfg
