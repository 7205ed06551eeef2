-- ===== src/Store/Kept.antt =====
-- src/store.rs, `put_file`, and src/upload.rs: a file at the path of a hash is never changed.
use outpack_server.Hash.{Digest}
use outpack_server.Io.Binds.{>>=-after}
use outpack_server.Io.FilePath.{FilePath, join, parent}
use outpack_server.Io.Fs.{
  Fs, create_dir_all, dir, exists, is_under, reads, remove_under, rename, write, ◌>>=◌, ◌>>◌,
}
use outpack_server.Io.Laws.{
  child-ne-nil, create_dir_all-file_at, file_at, node-insert, remove_under-file_at, write-file_at,
}
use outpack_server.Io.Moves.{apart_differs, rename-file_at}
use outpack_server.Io.Writes.{absent-file_at}
use outpack_server.Prelude.{
  Bool, Bytes, Text, [], ap, arith, codes, false, some, true, ◌++◌, ◌∙◌, ◌∷◌, ◌≡◌, ◌≢◌,
}
use outpack_server.Result.{ok}
use outpack_server.Store.{file_exists, file_path}
use outpack_server.Store.Found.{data_path, make_temp_dir-path, temp_dir-apart}
use outpack_server.Store.Put.{
  Upload, buffered, check_upload, make_temp_dir, persist, place, put_file, put_in, store_valid,
  uploaded,
}

-- Removing the upload leaves the path as it is.
abbrev pub IsAwayFrom : Upload → FilePath → Type 0
IsAwayFrom (buffered _) q = Unit {0}
IsAwayFrom (uploaded p) q = is_under p q ≡ false

module _ (q : FilePath) (c : Bytes) where
  -- The file that is kept.
  abbrev pub Held : Fs → Type 0
  Held fs = file_at fs q ≡ some c

  pub remove_under-Held :
      (p : FilePath) (fs : Fs) → is_under p q ≡ false → Held fs → Held (remove_under p fs)
  remove_under-Held p fs away h = ground (arith, remove_under-file_at p fs q)

  pub write-Held :
      (p : FilePath) (bytes : Bytes) (fs : Fs) → p ≢ q → Held fs → Held (write p bytes fs).1
  write-Held p bytes fs d h = ground (arith, write-file_at p bytes fs q)

  persist-Held :
      (upload : Upload) (to : FilePath) (fs : Fs)
      → IsAwayFrom upload q
      → to ≢ q
      → Held fs
      → Held (persist upload to fs).1
  unfolding persist
  persist-Held (buffered bytes) to fs away d h = write-Held to bytes fs d h
  persist-Held (uploaded p) to fs away d h = rename-file_at p to fs q d away ∙ h

  module _ (digest : Digest) (temp_name : Fs → FilePath → Text) (root : FilePath) (s : Text) where
    place-Held :
        (temp_path path : FilePath) (there : Bool) (fs : Fs)
        → is_under temp_path q ≡ false
        → exists fs path ≡ there
        → Held fs
        → Held (place digest temp_name temp_path path there fs).1
    place-Held temp_path path true fs away e h = h
    place-Held temp_path path false fs away e h =
        let made = create_dir_all-file_at (parent path) fs q ∙ h in
        let differs : path ≢ q = λ same. cc (absent-file_at fs path e, same, h) in
        >>=-after (λ _. rename temp_path path) Held (create_dir_all (parent path)) fs made
          (λ _ _.
            rename-file_at temp_path path (create_dir_all (parent path) fs).1 q differs away ∙ made)

    file_exists_at :
        (fs : Fs) (path : FilePath) (there : Bool)
        → file_path root s ≡ ok path
        → file_exists fs root s ≡ ok there
        → exists fs path ≡ there
    unfolding file_exists
    file_exists_at fs path there at e = let found = rw at at e in cc found

    store_valid-Held :
        (temp_path : FilePath) (fs : Fs)
        → is_under temp_path q ≡ false
        → Held fs
        → Held (store_valid digest temp_name root temp_path s fs).1
    unfolding store_valid
    store_valid-Held temp_path fs away h =
        let there = reads (λ fs'. file_exists fs' root s) in
        >>=-after (λ path. there >>= place digest temp_name temp_path path) Held
          (reads (λ _. file_path root s)) fs h
          (λ path at. >>=-after (place digest temp_name temp_path path) Held there fs h (λ found e.
            place-Held temp_path path found fs away (file_exists_at fs path found at e) h))

    put_in-Held :
        (temp_dir : FilePath) (upload : Upload) (fs : Fs)
        → IsAwayFrom upload q
        → is_under (join temp_dir (codes "data")) q ≡ false
        → Held fs
        → Held (put_in digest temp_name temp_dir root upload s fs).1
    unfolding put_in
    put_in-Held temp_dir upload fs upload_away away h =
        let temp_path = join temp_dir (codes "data") in
        let check = reads (check_upload digest temp_name temp_path s) in
        let onward = store_valid digest temp_name root temp_path s in
        let fs' = (persist upload temp_path fs).1 in
        let kept =
          persist-Held upload temp_path fs upload_away (apart_differs temp_path q away) h in
        >>=-after (λ _. check >> onward) Held (persist upload temp_path) fs kept
          (λ _ _.
            >>=-after (λ _. onward) Held check fs' kept
              (λ _ _. store_valid-Held temp_path fs' away kept))

    make_temp_dir-Held :
        (fs : Fs)
        → root ++ (temp_name fs root ∷ []) ≢ q
        → Held fs
        → Held (make_temp_dir digest temp_name root fs).1
    unfolding make_temp_dir
    make_temp_dir-Held fs differs h =
        let temp_dir : FilePath = root ++ (temp_name fs root ∷ []) in
        ground (arith, node-insert temp_dir q dir fs (child-ne-nil root (temp_name fs root)))

    -- Whether it succeeds or fails, `put_file` keeps the file.
    pub put_file-Held :
        (t : Text) (upload : Upload) (fs : Fs)
        → file_path root t ≡ ok q
        → temp_name fs root ≢ codes ".outpack"
        → IsAwayFrom upload q
        → Held fs
        → Held (put_file digest temp_name root upload s fs).1
    unfolding put_file
    put_file-Held t upload fs at renamed away h =
        let name = temp_name fs root in
        let apart = temp_dir-apart digest temp_name root t q name [] renamed at in
        let data_apart =
          temp_dir-apart digest temp_name root t q name (codes "data" ∷ []) renamed at in
        let fs' = (make_temp_dir digest temp_name root fs).1 in
        let kept = make_temp_dir-Held fs (apart_differs _ q apart) h in
        >>=-after
          (λ d fs'.
            let (r, fs'') = put_in digest temp_name d root upload s fs' in (r, remove_under d fs''))
          Held (make_temp_dir digest temp_name root) fs kept
          (λ temp_dir made.
            let named = make_temp_dir-path digest temp_name root s fs temp_dir made in
            let joined =
              ap (λ d. join d (codes "data")) named ∙ data_path digest temp_name root s name in
            remove_under-Held temp_dir (put_in digest temp_name temp_dir root upload s fs').1
              (ap (λ d. is_under d q) named ∙ apart)
              (put_in-Held temp_dir upload fs' away (ap (λ d. is_under d q) joined ∙ data_apart)
                kept))
