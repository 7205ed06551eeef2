-- ===== src/Store/Succeeds.antt =====
-- src/store.rs, `put_file`: contents with the expected hash are stored.

use outpack_server.Hash.{Digest, validate_hash_data}
use outpack_server.Io.Binds.{reads-passes}
use outpack_server.Io.FilePath.{FilePath, join, join-name, parent}
use outpack_server.Io.Fs.{
  Fs, IoResult, create_dir_all, dir, exists, insert, is_under, node, reads, remove_under, rename,
  ◌>>◌,
}
use outpack_server.Io.Keeps.{create_dirs-absent}
use outpack_server.Io.Laws.{
  child-ne-nil, create_dir_all-file_at, file_at, node-insert, read_file_of,
}
use outpack_server.Io.MadeDirs.{IsClear, create_dir_all-MadeDir}
use outpack_server.Io.Names.{data-IsName}
use outpack_server.Io.Writes.{after_step, after_value, parent-append}
use outpack_server.Prelude.{
  Bool, Bytes, Text, [], ap, arith, codes, false, length, length-append, none, refl, some, subst,
  sym, true, ◌++◌, ◌<◌, ◌∙◌, ◌∷◌, ◌≡◌, ◌≢◌,
}
use outpack_server.Result.{ok}
use outpack_server.Store.{file_path}
use outpack_server.Store.Carried.{
  Carries, persist-Carries, persist-IsClear, persist-succeeds, rename-succeeds,
}
use outpack_server.Store.Found.{data_path, file_path-within, store_valid_at, temp_dir-apart}
use outpack_server.Store.Inserts.{make_temp_dir-Carries}
use outpack_server.Store.Kept.{IsAwayFrom}
use outpack_server.Store.Paths.{hash_names}
use outpack_server.Store.Put.{
  Upload, buffered, check_upload, make_temp_dir, persist, place, put_file, put_in, store_valid,
  validate_hash_file,
}

pub is_under-parent : (q p : FilePath) → is_under q (parent p) ≡ true → is_under q p ≡ true
is_under-parent [] p h = refl
is_under-parent (c ∷ q) [] h = h
is_under-parent (c ∷ q) (a ∷ []) h = cc
is_under-parent (c ∷ q) (a ∷ b ∷ p) h = ground (arith, is_under-parent q (b ∷ p))

parent_shorter : (p : FilePath) → p ≢ [] → length (parent p) < length p
parent_shorter [] h = absurd (h refl)
parent_shorter (a ∷ []) h = omega arith
parent_shorter (a ∷ b ∷ p) h = let shorter = parent_shorter (b ∷ p) (λ e. cc) in omega arith

file_path_nonempty : (root : FilePath) (s : Text) (p : FilePath) → file_path root s ≡ ok p → p ≢ []
file_path_nonempty root s p e none_left =
    let (h, within) = file_path-within root s p e in
    omega (
      arith,
      ap length (sym none_left ∙ within),
      length-append root (codes ".outpack" ∷ codes "files" ∷ hash_names h),
    )

absent-node : (fs : Fs) (q : FilePath) → exists fs q ≡ false → node fs q ≡ none
unfolding exists
absent-node fs q e = ground arith

module _ (digest : Digest) (temp_name : Fs → FilePath → Text) (root : FilePath) (s : Text) where
  pair_eq : {r : IoResult (Unit {0}) × Fs} → r.0 ≡ ok tt → r ≡ (ok tt, r.1)
  pair_eq {r = (a, fs)} e = ap (λ b. (b, fs)) e

  place-succeeds :
      (temp_path path : FilePath) (bytes : Bytes) (fs : Fs)
      → file_at fs temp_path ≡ some bytes
      → IsClear fs (parent path)
      → length (parent path) < length path
      → (there : Bool) → exists fs path ≡ there
      → (place digest temp_name temp_path path there fs).0 ≡ ok tt
  unfolding create_dir_all
  place-succeeds temp_path path bytes fs held clear longer true e = refl
  place-succeeds temp_path path bytes fs held clear longer false e =
      let (made, above) = create_dir_all-MadeDir (parent path) fs clear in
      let fs' = (create_dir_all (parent path) fs).1 in
      let held' = create_dir_all-file_at (parent path) fs temp_path ∙ held in
      let absent = create_dirs-absent [] (parent path) fs path (omega arith) e in
      let step =
        after_step (create_dir_all (parent path)) (rename temp_path path) fs fs' (pair_eq made) in
      ap (λ r. r.0) step
      ∙ rename-succeeds temp_path path bytes fs' held' (absent-node fs' path absent) above

  checked_file :
      (temp_path : FilePath) (bytes : Bytes) (fs : Fs)
      → file_at fs temp_path ≡ some bytes
      → validate_hash_data digest bytes s ≡ ok tt
      → validate_hash_file digest fs temp_path s ≡ ok tt
  unfolding validate_hash_file validate_hash_data
  checked_file temp_path bytes fs held valid = rw (read_file_of fs temp_path bytes held) valid

  -- The data of the upload comes to the temporary path, and has the hash.
  put_in-succeeds :
      (temp_dir path : FilePath) (upload : Upload) (bytes : Bytes) (fs : Fs)
      → let temp_path = join temp_dir (codes "data") in
        node fs temp_path ≡ none
        → node fs (parent temp_path) ≡ some dir
        → is_under temp_path path ≡ false
        → Carries upload bytes temp_path fs
        → file_path root s ≡ ok path
        → length (parent path) < length path
        → IsClear fs (parent path)
        → validate_hash_data digest bytes s ≡ ok tt
        → (put_in digest temp_name temp_dir root upload s fs).0 ≡ ok tt
  unfolding put_in
  put_in-succeeds temp_dir path upload bytes fs new above apart carried at longer clear valid =
      let temp_path = join temp_dir (codes "data") in
      let check = reads (check_upload digest temp_name temp_path s) in
      let onward = store_valid digest temp_name root temp_path s in
      let moved = persist-succeeds upload bytes temp_path fs carried new above in
      let fs' = (persist upload temp_path fs).1 in
      let held = persist-Carries upload bytes temp_path fs carried moved in
      let still =
        persist-IsClear upload temp_path (parent path) fs
          (λ q under same. cc (same, is_under-parent q path under, apart)) clear in
      let checked : check_upload digest temp_name temp_path s fs' ≡ ok tt =
        rw (checked_file temp_path bytes fs' held valid) refl in
      ap (λ r. r.0)
        (after_step (persist upload temp_path) (check >> onward) fs fs' (pair_eq moved)
          ∙ reads-passes (check_upload digest temp_name temp_path s) onward fs' checked
          ∙ store_valid_at digest temp_name root s temp_path path apart fs' at)
      ∙ place-succeeds temp_path path bytes fs' held still longer (exists fs' path) refl

  make_temp_dir_at :
      (fs : Fs)
      → node fs root ≡ some dir
      → make_temp_dir digest temp_name root fs
        ≡ (ok (root ++ (temp_name fs root ∷ [])), insert (root ++ (temp_name fs root ∷ [])) dir fs)
  unfolding make_temp_dir
  make_temp_dir_at fs e = rw (make_temp_dir, e) refl

  -- An upload that carries contents of the expected hash is stored.
  pub put_upload-succeeds :
      (upload : Upload) (bytes : Bytes) (path : FilePath) (fs : Fs)
      → node fs root ≡ some dir
      → temp_name fs root ≢ codes ".outpack"
      → node fs (join (root ++ (temp_name fs root ∷ [])) (codes "data")) ≡ none
      → IsAwayFrom upload (root ++ (temp_name fs root ∷ []))
      → Carries upload bytes (root ++ (temp_name fs root ∷ codes "data" ∷ [])) fs
      → file_path root s ≡ ok path
      → IsClear fs (parent path)
      → validate_hash_data digest bytes s ≡ ok tt
      → (put_file digest temp_name root upload s fs).0 ≡ ok tt
  unfolding put_file
  put_upload-succeeds upload bytes path fs there renamed new dir_away carried at clear valid =
      let name = temp_name fs root in
      let temp_dir = root ++ (name ∷ []) in
      let temp_path = join temp_dir (codes "data") in
      let fs' = insert temp_dir dir fs in
      let joined : temp_path ≡ temp_dir ++ (codes "data" ∷ []) =
        join-name temp_dir (codes "data") data-IsName in
      let longer = ap length joined ∙ length-append temp_dir (codes "data" ∷ []) in
      let differs : temp_dir ≢ temp_path = λ e. absurd (omega (arith, ap length e)) in
      let nonempty = child-ne-nil root name in
      let made = make_temp_dir_at fs there in
      let carried' : Carries upload bytes temp_path fs' =
        subst (λ to. Carries upload bytes to fs') (sym (data_path digest temp_name root s name))
          (subst (λ r. Carries upload bytes (root ++ (name ∷ codes "data" ∷ [])) r.1) made
            (make_temp_dir-Carries digest temp_name root s path at upload bytes upload _ fs dir_away
              carried)) in
      let stored =
        put_in-succeeds temp_dir path upload bytes fs'
          (ground (arith, node-insert temp_dir temp_path dir fs nonempty))
          (ap (λ p. node fs' (parent p)) joined
            ∙ ap (node fs') (parent-append temp_dir (codes "data"))
            ∙ ground (arith, node-insert temp_dir temp_dir dir fs nonempty))
          (ap (λ p. is_under p path) (data_path digest temp_name root s name)
            ∙ temp_dir-apart digest temp_name root s path name (codes "data" ∷ []) renamed at)
          carried' at (parent_shorter path (file_path_nonempty root s path at))
          (λ q under. ground (arith, node-insert temp_dir q dir fs nonempty, clear q under))
          valid in
      ap (λ r. r.0)
        (after_value (make_temp_dir digest temp_name root)
          (λ d fs'.
            let (r, fs'') = put_in digest temp_name d root upload s fs' in (r, remove_under d fs''))
          fs fs' temp_dir made)
      ∙ stored

  -- Contents of the expected hash, given in memory, are stored: `put_file` succeeds where the
  -- repository is a directory, the temporary directory is not called `.outpack` and has no data
  -- yet, the expected hash has a path, and no file stands on the way to it.
  pub put_file-succeeds :
      (bytes : Bytes) (path : FilePath) (fs : Fs)
      → node fs root ≡ some dir
      → temp_name fs root ≢ codes ".outpack"
      → node fs (join (root ++ (temp_name fs root ∷ [])) (codes "data")) ≡ none
      → file_path root s ≡ ok path
      → IsClear fs (parent path)
      → validate_hash_data digest bytes s ≡ ok tt
      → (put_file digest temp_name root (buffered bytes) s fs).0 ≡ ok tt
  put_file-succeeds bytes path fs there renamed new at clear valid =
      put_upload-succeeds (buffered bytes) bytes path fs there renamed new tt refl at clear valid
