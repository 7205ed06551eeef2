-- ===== src/Store.antt =====
-- src/store.rs: the files of the repository, by their hashes.
pub mod Put
pub mod Paths
pub mod Intact
pub mod Found
pub mod Missing
pub mod Succeeds
pub mod Inserts
pub mod Receive
pub mod Received
pub mod Elsewhere
pub mod Gained
pub mod Kept
pub mod TempFiles
pub mod Steps
pub mod Carried
pub mod Placed
pub mod Sure
pub mod Turns
pub mod Alone
use outpack_server.Config.File.{outpack_dir}
use outpack_server.Hash.{HashError, algorithm_text, parse_hash}
use outpack_server.Io.FilePath.{FilePath, join}
use outpack_server.Io.Fs.{Fs, IoError, IoResult, exists, invalid_input, ◌>>◌}
use outpack_server.Prelude.{Bool, List, Text, [], codes, if◌then◌else◌, none, some, ◌∷◌}
use outpack_server.Result.{collect_some, map_err, map_ok, ok, panicked, ◌>>=◌}

-- `hash_error_to_io_error`
unfoldable pub hash_error_to_io_error : HashError → IoError
hash_error_to_io_error e = record { kind = invalid_input; message = e.explanation }

-- `root.join(".outpack").join("files")`
abbrev pub files_dir : FilePath → FilePath
files_dir root = join (outpack_dir root) (codes "files")

-- `value[..2]` and `value[2..]`: a panic where the value is shorter.
split_value : Text → IoResult (Text × Text)
split_value (a ∷ b ∷ rest) = ok (a ∷ b ∷ [], rest)
split_value _ = panicked

-- The path up to its components: where the value has two digits, the join of an empty text ends the
-- path with a separator, which `FilePath` does not keep.
unfoldable pub file_path : FilePath → Text → IoResult FilePath
unfolding split_value hash_error_to_io_error
file_path root hash = do
  parsed ← map_err hash_error_to_io_error (parse_hash hash)
  (front, back) ← split_value parsed.value
  ok (join (join (join (files_dir root) (algorithm_text parsed.algorithm)) front) back)

unfoldable pub file_exists : Fs → FilePath → Text → IoResult Bool
file_exists fs root hash = do path ← file_path root hash; ok (exists fs path)

unfoldable pub get_missing_files : Fs → FilePath → List Text → IoResult (List Text)
unfolding collect_some
get_missing_files fs root wanted =
    collect_some (λ h. map_ok (λ there. if there then none else some h) (file_exists fs root h))
      wanted
