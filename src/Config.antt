-- ===== src/Config.antt =====
-- src/config.rs: the configuration of a repository, and how one is made.

pub mod File
use outpack_server.Hash.{HashAlgorithm, same_algorithm, sha256}
use outpack_server.Io.Fs.{IoResult, fail, invalid_input}
use outpack_server.Prelude.{
  Bool, List, Option, Text, [], codes, false, if◌then◌else◌, list_eq, nat_eq, none, not, option_eq,
  some, true, ◌&&◌, ◌==◌,
}
use outpack_server.Result.{ok}

pub record Location : Type 0 where
  pub name : Text

pub record Core : Type 0 where
  pub hash_algorithm : HashAlgorithm
  pub path_archive : Option Text
  pub use_file_store : Bool
  pub require_complete_tree : Bool

pub record Config : Type 0 where
  pub core : Core
  pub location : List Location

-- `path_archive.is_none()`
abbrev pub is_none {ℓ} : {A : Type ℓ} → Option A → Bool
is_none none = true
is_none (some _) = false

abbrev pub same_bool : Bool → Bool → Bool
same_bool true b = b
same_bool false b = not b

-- The derived equality of `Core`.
unfoldable pub same_core : Core → Core → Bool
unfolding list_eq nat_eq option_eq
same_core a b =
    same_algorithm a.hash_algorithm b.hash_algorithm
    && (a.path_archive == b.path_archive
        && (same_bool a.use_file_store b.use_file_store
            && same_bool a.require_complete_tree b.require_complete_tree))

-- `Config::new`
unfoldable pub new_config : Option Text → Bool → Bool → IoResult Config
new_config path_archive use_file_store require_complete_tree =
    if not use_file_store && is_none path_archive
    then fail invalid_input (codes "If 'path_archive' is None, then use_file_store must be true")
    else ok (record {
      core = record {
        hash_algorithm = sha256;
        path_archive = path_archive;
        use_file_store = use_file_store;
        require_complete_tree = require_complete_tree;
      };
      location = [];
    })
