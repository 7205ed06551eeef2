-- ===== src/Store/Put.antt =====
-- src/store.rs, `put_file`, with src/upload.rs, `Upload::persist`, and the check of a file's hash
-- of src/hash.rs.
use outpack_server.Hash.{
  Digest, Hash, HashAlgorithm, HashError, file_read_failed, hash_data, parse_hash, validate_hash,
}
use outpack_server.Io.FilePath.{FilePath, join, parent}
use outpack_server.Io.Fs.{
  Fs, Io, IoError, IoResult, create_dir_all, dir, fail, file, insert, node, not_a_directory,
  not_found, pure, read_file, reads, remove_under, rename, write, ◌>>=◌, ◌>>◌,
}
use outpack_server.Prelude.{Bool, Bytes, Text, [], codes, false, none, some, true, ◌++◌, ◌∷◌}
use outpack_server.Result.{Result, and_then, map_err, map_ok, ok}
use outpack_server.Store.{file_exists, file_path, hash_error_to_io_error}

-- src/upload.rs: a body in memory, or a temporary file.
pub data Upload : Type 0 where
  buffered : Bytes → Upload
  uploaded : FilePath → Upload

unfoldable pub persist : Upload → FilePath → Io (Unit {0})
unfolding write rename
persist (buffered bytes) destination = write destination bytes
persist (uploaded path) destination = rename path destination

module _ (digest : Digest) where
  unfoldable pub hash_file : Fs → FilePath → HashAlgorithm → IoResult Hash
  unfolding hash_data
  hash_file fs path algorithm =
      map_ok (λ bytes. hash_data digest bytes algorithm) (read_file fs path)

  -- `impl From<io::Error> for HashError`
  abbrev of_io_error : IoError → HashError
  of_io_error e = record { kind = file_read_failed; explanation = e.message }

  unfoldable pub validate_hash_file : Fs → FilePath → Text → Result HashError (Unit {0})
  unfolding hash_file
  validate_hash_file fs path expected = and_then (parse_hash expected) λ e.
      and_then (map_err of_io_error (hash_file fs path e.algorithm)) λ found. validate_hash found e

  -- The name of the new directory is chosen by the crate tempfile. The directory is removed when
  -- `put_file` returns, on every path.
  module _ (temp_name : Fs → FilePath → Text) where
    unfoldable pub make_temp_dir : FilePath → Io FilePath
    unfolding node insert
    make_temp_dir root fs = elim (node fs root) [
      | some dir ↦ let p : FilePath = root ++ (temp_name fs root ∷ []) in (ok p, insert p dir fs)
      | some (file _) ↦ (fail not_a_directory (codes "Not a directory (os error 20)"), fs)
      | none ↦ (fail not_found (codes "No such file or directory (os error 2)"), fs)
    ]

    abbrev pub place : FilePath → FilePath → Bool → Io (Unit {0})
    place temp_path path true = pure tt
    place temp_path path false = do create_dir_all (parent path); rename temp_path path

    unfoldable pub store_valid : FilePath → FilePath → Text → Io (Unit {0})
    store_valid root temp_path hash = do
      path ← reads (λ _. file_path root hash)
      there ← reads (λ fs. file_exists fs root hash)
      place temp_path path there

    abbrev pub check_upload : FilePath → Text → Fs → IoResult (Unit {0})
    check_upload temp_path hash fs =
        map_err hash_error_to_io_error (validate_hash_file fs temp_path hash)

    unfoldable pub put_in : FilePath → FilePath → Upload → Text → Io (Unit {0})
    unfolding store_valid
    put_in temp_dir root upload hash = do
      persist upload (join temp_dir (codes "data"))
      reads (check_upload (join temp_dir (codes "data")) hash)
      store_valid root (join temp_dir (codes "data")) hash

    unfoldable pub put_file : FilePath → Upload → Text → Io (Unit {0})
    unfolding make_temp_dir put_in remove_under
    put_file root upload hash = do
      temp_dir ← make_temp_dir root
      λ fs. let (r, fs') = put_in temp_dir root upload hash fs in (r, remove_under temp_dir fs')
