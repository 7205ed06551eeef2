-- ===== src/Store/Found.antt =====
-- src/store.rs, `put_file` and `get_missing_files`: a file that was put is found.

use outpack_server.Config.File.{outpack_dir}
use outpack_server.Hash.{Digest, Hash, parse_hash}
use outpack_server.Io.Binds.{>>=-run-eq-ok}
use outpack_server.Io.FilePath.{FilePath, join, join-name, parent}
use outpack_server.Io.Fs.{
  Fs, create_dir_all, exists, is_under, node, read_file, reads, remove_under, rename, write, ◌>>=◌,
  ◌>>◌,
}
use outpack_server.Io.Laws.{entry_at-remove_under, write-file_at}
use outpack_server.Io.Names.{data-IsName, files-IsName, outpack-IsName}
use outpack_server.Io.Writes.{file_at-exists}
use outpack_server.Prelude.{
  Bool, Text, [], ap, append_assoc, arith, codes, false, inl, inr, refl, sym, true, ◌++◌, ◌∙◌, ◌∷◌,
  ◌≡◌, ◌≢◌,
}
use outpack_server.Result.{>>=-eq-ok, Result-cases, collect_some, map_err, map_err-eq-ok, ok}
use outpack_server.Store.{
  file_exists, file_path, files_dir, get_missing_files, hash_error_to_io_error,
}
use outpack_server.Store.Paths.{file_path_of, hash_names}
use outpack_server.Store.Put.{
  Upload, check_upload, make_temp_dir, persist, place, put_file, put_in, store_valid,
}

remove_under-exists :
    (p q : FilePath) (fs : Fs)
    → is_under p q ≡ false
    → exists fs q ≡ true
    → exists (remove_under p fs) q ≡ true
unfolding exists node
remove_under-exists p [] fs h e = refl
remove_under-exists p (b ∷ q) fs h e = ground (arith, entry_at-remove_under p (b ∷ q) fs)

-- What lies under one name of a directory does not lie under another.
pub is_under-apart :
    (root : FilePath) (a b : Text) (p q : FilePath)
    → a ≢ b
    → is_under (root ++ (a ∷ p)) (root ++ (b ∷ q)) ≡ false
is_under-apart [] a b p q h = ground arith
is_under-apart (c ∷ root) a b p q h = ground (arith, is_under-apart root a b p q)

rename-made :
    (from to : FilePath) (fs : Fs)
    → is_under from to ≡ false
    → (rename from to fs).0 ≡ ok tt
    → exists (rename from to fs).1 to ≡ true
unfolding rename
rename-made from to fs h e = elim (Result-cases (read_file fs from)) [
  | inl (bytes, found) ↦
      let fs' = (write to bytes fs).1 in
      let moved = remove_under-exists from to fs' h in
      ground (arith, write-file_at to bytes fs to, file_at-exists fs' to bytes, moved)
  | inr failed ↦ ground arith
]

pub outpack_dir_of : (root : FilePath) → outpack_dir root ≡ root ++ (codes ".outpack" ∷ [])
outpack_dir_of root = join-name root (codes ".outpack") outpack-IsName

-- The path of a hash, from the root of the repository.
pub file_path-within :
    (root : FilePath) (s : Text) (p : FilePath)
    → file_path root s ≡ ok p
    → (h : Hash) × (p ≡ root ++ (codes ".outpack" ∷ codes "files" ∷ hash_names h))
unfolding file_path
file_path-within root s p e =
    let (h, read, _) = >>=-eq-ok (map_err hash_error_to_io_error (parse_hash s)) _ e in
    let parsed = map_err-eq-ok hash_error_to_io_error (parse_hash s) read in
    let at : p ≡ files_dir root ++ hash_names h = ground (arith, file_path_of root s h parsed) in
    let files : files_dir root ≡ outpack_dir root ++ (codes "files" ∷ []) =
      join-name (outpack_dir root) (codes "files") files-IsName in
    (
      h,
      at
          ∙ ap (λ d. d ++ hash_names h) files
          ∙ append_assoc (outpack_dir root) (codes "files" ∷ []) (hash_names h)
          ∙ ap (λ d. d ++ (codes "files" ∷ hash_names h)) (outpack_dir_of root)
          ∙ append_assoc root (codes ".outpack" ∷ []) (codes "files" ∷ hash_names h),
    )

module _ (digest : Digest) (temp_name : Fs → FilePath → Text) (root : FilePath) (s : Text) where
  module _ (temp_path path : FilePath) (apart : is_under temp_path path ≡ false) where
    place-made :
        (there : Bool) (fs : Fs)
        → (there ≡ true → exists fs path ≡ true)
        → (place digest temp_name temp_path path there fs).0 ≡ ok tt
        → exists (place digest temp_name temp_path path there fs).1 path ≡ true
    place-made true fs h e = h refl
    place-made false fs h e =
        let (_, _, renamed, same) =
          >>=-run-eq-ok (λ _. rename temp_path path) (create_dir_all (parent path)) fs e in
        ap (λ fs'. exists fs' path) same
        ∙ rename-made temp_path path (create_dir_all (parent path) fs).1 apart renamed

    pub store_valid_at :
        (fs : Fs)
        → file_path root s ≡ ok path
        → store_valid digest temp_name root temp_path s fs
          ≡ place digest temp_name temp_path path (exists fs path) fs
    unfolding store_valid file_exists
    store_valid_at fs e = rw e refl

    store_valid-made :
        (fs : Fs)
        → file_path root s ≡ ok path
        → (store_valid digest temp_name root temp_path s fs).0 ≡ ok tt
        → exists (store_valid digest temp_name root temp_path s fs).1 path ≡ true
    store_valid-made fs at e =
        let same = store_valid_at fs at in
        ap (λ r. exists r.1 path) same
        ∙ place-made (exists fs path) fs (λ h. h) (sym (ap (λ r. r.0) same) ∙ e)

  put_in-made :
      (temp_dir path : FilePath) (upload : Upload) (fs : Fs)
      → is_under (join temp_dir (codes "data")) path ≡ false
      → file_path root s ≡ ok path
      → (put_in digest temp_name temp_dir root upload s fs).0 ≡ ok tt
      → exists (put_in digest temp_name temp_dir root upload s fs).1 path ≡ true
  unfolding put_in
  put_in-made temp_dir path upload fs apart at e =
      let temp_path = join temp_dir (codes "data") in
      let onward = store_valid digest temp_name root temp_path s in
      let check = reads (check_upload digest temp_name temp_path s) in
      let (_, _, rest, same) =
        >>=-run-eq-ok (λ _. check >> onward) (persist upload temp_path) fs e in
      let fs' = (persist upload temp_path fs).1 in
      let (_, _, stored, same') = >>=-run-eq-ok (λ _. onward) check fs' rest in
      ap (λ fs''. exists fs'' path) (same ∙ same')
      ∙ store_valid-made temp_path path apart fs' at stored

  put_in-path :
      (temp_dir : FilePath) (upload : Upload) (fs : Fs)
      → (put_in digest temp_name temp_dir root upload s fs).0 ≡ ok tt
      → (path : FilePath) × (file_path root s ≡ ok path)
  unfolding put_in store_valid
  put_in-path temp_dir upload fs e =
      let temp_path = join temp_dir (codes "data") in
      let check = reads (check_upload digest temp_name temp_path s) in
      let onward = store_valid digest temp_name root temp_path s in
      let (_, _, rest, _) = >>=-run-eq-ok (λ _. check >> onward) (persist upload temp_path) fs e in
      let fs' = (persist upload temp_path fs).1 in
      let (_, _, stored, _) = >>=-run-eq-ok (λ _. onward) check fs' rest in
      let (path, at, _, _) =
        >>=-run-eq-ok
          (λ path.
            reads (λ fs''. file_exists fs'' root s) >>= place digest temp_name temp_path path)
          (reads (λ _. file_path root s)) fs' stored in
      (path, at)

  pub make_temp_dir-path :
      (fs : Fs) (temp_dir : FilePath)
      → (make_temp_dir digest temp_name root fs).0 ≡ ok temp_dir
      → temp_dir ≡ root ++ (temp_name fs root ∷ [])
  unfolding make_temp_dir
  make_temp_dir-path fs temp_dir e = ground arith

  exists-found :
      (path : FilePath) (fs : Fs)
      → file_path root s ≡ ok path
      → exists fs path ≡ true
      → get_missing_files fs root (s ∷ []) ≡ ok []
  unfolding get_missing_files file_exists collect_some
  exists-found path fs at there = rw (at, there) refl

  -- Neither the temporary file nor its directory holds the path of a hash.
  pub temp_dir-apart :
      (path : FilePath) (name : Text) (below : FilePath)
      → name ≢ codes ".outpack"
      → file_path root s ≡ ok path
      → is_under (root ++ (name ∷ below)) path ≡ false
  temp_dir-apart path name below new at =
      let (h, within) = file_path-within root s path at in
      rw within
        (is_under-apart root name (codes ".outpack") below (codes "files" ∷ hash_names h) new)

  pub data_path :
      (name : Text) → join (root ++ (name ∷ [])) (codes "data") ≡ root ++ (name ∷ codes "data" ∷ [])
  data_path name =
      join-name (root ++ (name ∷ [])) (codes "data") data-IsName
      ∙ append_assoc root (name ∷ []) (codes "data" ∷ [])

  -- Where `put_file` succeeds, the file is no longer missing, if the temporary directory is not
  -- called `.outpack`.
  pub put_file-found :
      (upload : Upload) (fs : Fs)
      → temp_name fs root ≢ codes ".outpack"
      → (put_file digest temp_name root upload s fs).0 ≡ ok tt
      → get_missing_files (put_file digest temp_name root upload s fs).1 root (s ∷ []) ≡ ok []
  unfolding put_file
  put_file-found upload fs new e =
      let name = temp_name fs root in
      let fs' = (make_temp_dir digest temp_name root fs).1 in
      let (temp_dir, made, put, same) =
        >>=-run-eq-ok
          (λ temp_dir fs'.
            let (r, fs'') = put_in digest temp_name temp_dir root upload s fs' in
            (r, remove_under temp_dir fs''))
          (make_temp_dir digest temp_name root) fs e in
      let (path, at) = put_in-path temp_dir upload fs' put in
      let named = make_temp_dir-path fs temp_dir made in
      let fs'' = (put_in digest temp_name temp_dir root upload s fs').1 in
      let apart : is_under temp_dir path ≡ false = rw named (temp_dir-apart path name [] new at) in
      let data_apart : is_under (join temp_dir (codes "data")) path ≡ false =
        rw (named, data_path name) (temp_dir-apart path name (codes "data" ∷ []) new at) in
      let there = put_in-made temp_dir path upload fs' data_apart at put in
      rw same (
        exists-found path (remove_under temp_dir fs'') at
          (remove_under-exists temp_dir path fs'' apart there))
