-- ===== src/Tests/Stores.antt =====
-- src/hash.rs and src/store.rs at concrete files.

use outpack_server.Hash.{
  Digest, Hash, HashAlgorithm, algorithm_text, captures, hash_data, hash_text, parse_algorithm,
  parse_hash, sha1, validate_hash, validate_hash_data,
}
use outpack_server.Hash.Laws.{IsBlank, IsHex, parse_hash-eq-ok_iff, validate_hash_data-eq-ok_iff}
use outpack_server.Io.FilePath.{FilePath, join, split}
use outpack_server.Io.Fs.{
  Fs, create_dir_all, create_dirs, dir, entry_at, exists, insert, node, read_file, remove_under,
  rename, write,
}
use outpack_server.Io.Laws.{file_at}
use outpack_server.Prelude.{
  Bytes, Text, [], arith, codes, decimal, if◌then◌else◌, leb, length, list_eq, nat_eq, none, refl,
  some, trim_start, ◌++◌, ◌↔◌, ◌∷◌, ◌≡◌,
}
use outpack_server.Result.{ok, panicked}
use outpack_server.Store.{
  file_exists, file_path, files_dir, get_missing_files, hash_error_to_io_error,
}
use outpack_server.Store.Found.{put_file-found}
use outpack_server.Store.Inserts.{insert_absent, put_file-inserts}
use outpack_server.Store.Intact.{IsIntact, put_file-IsIntact}
use outpack_server.Store.Paths.{file_path_of, hash_names}
use outpack_server.Store.Put.{
  buffered, hash_file, make_temp_dir, persist, put_file, put_in, store_valid, validate_hash_file,
}
use outpack_server.Store.Succeeds.{put_file-succeeds}

abbrev pub root : FilePath
root = codes "srv" ∷ []

-- A digest of two digits: the number of bytes.
abbrev pub count : Digest
count a bytes = codes "00" ++ decimal (length bytes)

abbrev pub four : Bytes
four = codes "abcd"

abbrev pub four_hash : Text
four_hash = codes "sha256:004"

abbrev pub disk : Fs
disk =
    (root, dir)
    ∷ (root ++ (codes ".outpack" ∷ []), dir)
    ∷ (root ++ (codes ".outpack" ∷ codes "files" ∷ []), dir)
    ∷ []

abbrev pub temp_name : Fs → FilePath → Text
temp_name fs p = codes ".tmpX"

put_four : (put_file count temp_name root (buffered four) four_hash disk).0 ≡ ok tt
unfolding put_file list_eq nat_eq persist join split validate_hash_file parse_hash captures
    parse_algorithm read_file validate_hash decimal file_path file_exists exists create_dir_all
    algorithm_text hash_data hash_text create_dirs entry_at insert node remove_under rename write
    trim_start hash_file make_temp_dir put_in store_valid hash_error_to_io_error
put_four = refl

stored :
    file_at
      (put_file count temp_name root (buffered four) four_hash disk).1
      (root ++ (codes ".outpack" ∷ codes "files" ∷ codes "sha256" ∷ codes "00" ∷ codes "4" ∷ []))
    ≡ some four
unfolding put_file list_eq nat_eq persist join split validate_hash_file parse_hash captures
    parse_algorithm read_file validate_hash decimal file_path file_exists exists create_dir_all
    algorithm_text hash_data hash_text create_dirs entry_at insert node remove_under rename write
    trim_start hash_file make_temp_dir put_in store_valid hash_error_to_io_error
stored = refl

pub disk_without_files : (p : FilePath) → file_at disk p ≡ none
unfolding node
disk_without_files [] = refl
disk_without_files (a ∷ p) = ground arith

pub disk-IsIntact : IsIntact count root disk
disk-IsIntact h s p c read path there = absurd (cc (there, disk_without_files p))

put_file-IsIntact_example :
    IsIntact count root (put_file count temp_name root (buffered four) four_hash disk).1
put_file-IsIntact_example =
    put_file-IsIntact count root temp_name (buffered four) four_hash disk disk-IsIntact

abbrev pub four_path : FilePath
four_path =
    root ++ (codes ".outpack" ∷ codes "files" ∷ codes "sha256" ∷ codes "00" ∷ codes "4" ∷ [])

pub four_at : file_path root four_hash ≡ ok four_path
unfolding file_path parse_hash captures parse_algorithm join split list_eq nat_eq trim_start
    algorithm_text hash_error_to_io_error
four_at = refl

pub root_there : node disk root ≡ some dir
unfolding node entry_at list_eq nat_eq
root_there = refl

no_data : node disk (join (root ++ (codes ".tmpX" ∷ [])) (codes "data")) ≡ none
unfolding node entry_at list_eq nat_eq join split
no_data = refl

pub four_valid : validate_hash_data count four four_hash ≡ ok tt
unfolding validate_hash_data parse_hash captures parse_algorithm validate_hash decimal hash_data
    trim_start list_eq nat_eq hash_text algorithm_text
four_valid = refl

put_file-succeeds_example : (put_file count temp_name root (buffered four) four_hash disk).0 ≡ ok tt
put_file-succeeds_example =
    put_file-succeeds count temp_name root four_hash four four_path disk root_there (λ e. cc)
      no_data four_at (λ q h. disk_without_files q) four_valid

pub no_four : node disk four_path ≡ none
unfolding node entry_at list_eq nat_eq
no_four = refl

put_file-inserts_example :
    file_at (put_file count temp_name root (buffered four) four_hash disk).1 four_path
    ≡ insert_absent four_path four (file_at disk) four_path
put_file-inserts_example =
    put_file-inserts count temp_name root four_hash four_path four_at four disk (λ e. cc)
      (λ e. cc (no_four, e)) put_four four_hash four_path four_at

put_file-found_example :
    get_missing_files
      (put_file count temp_name root (buffered four) four_hash disk).1
      root
      (four_hash ∷ [])
    ≡ ok []
put_file-found_example =
    put_file-found count temp_name root four_hash (buffered four) disk (λ e. cc) put_four

abbrev spaced : Text
spaced = codes " sha1:0aF \n"

abbrev spaced_hash : Hash
spaced_hash = record { algorithm = sha1; value = codes "0aF" }

parse_hash-eq-ok_iff_example : (parse_hash spaced ≡ ok spaced_hash) ↔ (
    (post : Text) × (trim_start spaced ≡ hash_text spaced_hash ++ post)
    × IsHex spaced_hash.value
    × IsBlank post)
parse_hash-eq-ok_iff_example = parse_hash-eq-ok_iff spaced spaced_hash

validate_hash_data-eq-ok_iff_example :
    (validate_hash_data count four four_hash ≡ ok tt)
    ↔ ((a : HashAlgorithm) × (parse_hash four_hash ≡ ok (hash_data count four a)))
validate_hash_data-eq-ok_iff_example = validate_hash_data-eq-ok_iff count four four_hash

spaced_read : parse_hash spaced ≡ ok spaced_hash
unfolding parse_hash captures parse_algorithm
spaced_read = refl

file_path_of_example : file_path root spaced ≡ (
    if leb 2 (length spaced_hash.value)
    then ok (files_dir root ++ hash_names spaced_hash)
    else panicked)
file_path_of_example = file_path_of root spaced spaced_hash spaced_read

-- One digit is a hash, and no path.
one_digit : file_path root (codes "md5:a") ≡ panicked
unfolding file_path parse_hash captures parse_algorithm
one_digit = refl
