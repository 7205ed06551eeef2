-- ===== src/Store/Intact.antt =====
-- src/store.rs, `put_file`: a file in the store has the contents that its path promises.
use outpack_server.Hash.{Digest, Hash, hash_data, parse_hash, validate_hash_data}
use outpack_server.Hash.Laws.{validate_hash_data-eq-ok_iff}
use outpack_server.Io.FilePath.{FilePath, join, join-name, parent}
use outpack_server.Io.Fs.{
  Fs, create_dir_all, dir, is_under, reads, remove_under, rename, ◌>>=◌, ◌>>◌,
}
use outpack_server.Io.Laws.{
  >>=-Gains, Gains, child-ne-nil, create_dir_all-Gains, create_dir_all-file_at, file_at,
  is_under-append, node-insert, read_file_of, remove_under-file_at, rename-Gains, write-Gains,
}
use outpack_server.Io.Names.{data-IsName}
use outpack_server.Prelude.{
  Bytes, Text, [], arith, codes, false, inl, inr, some, sym, true, ◌++◌, ◌∙◌, ◌∷◌, ◌≡◌, ◌⊎◌,
}
use outpack_server.Result.{map_err-eq-ok, ok}
use outpack_server.Store.{file_exists, file_path, files_dir}
use outpack_server.Store.Paths.{append_cancel, file_path_of, hash_names-injective}
use outpack_server.Store.Put.{
  Upload, buffered, check_upload, make_temp_dir, persist, place, put_file, put_in, store_valid,
  uploaded, validate_hash_file,
}

module _ (digest : Digest) (root : FilePath) where
  -- Every file at the path of a hash has that hash.
  abbrev pub IsIntact : Fs → Type 0
  IsIntact fs =
      (h : Hash) (s : Text) (p : FilePath) (c : Bytes)
      → parse_hash s ≡ ok h
      → file_path root s ≡ ok p
      → file_at fs p ≡ some c
      → hash_data digest c h.algorithm ≡ h

  -- The file is at the path of a text against which it was checked.
  abbrev pub Checked : Text → FilePath → Bytes → Type 0
  Checked s p c = (file_path root s ≡ ok p) × (validate_hash_data digest c s ≡ ok tt)

  -- The path of a text tells the hash that the text reads as.
  file_path-injective :
      (s t : Text) (h k : Hash) (p : FilePath)
      → parse_hash s ≡ ok h
      → parse_hash t ≡ ok k
      → file_path root s ≡ ok p
      → file_path root t ≡ ok p
      → h ≡ k
  file_path-injective s t h k p e f a b = hash_names-injective h k (
      append_cancel (files_dir root)
        (ground (arith, file_path_of root s h e, file_path_of root t k f)))

  -- A file that was checked has the hash of its path.
  pub Checked-hash :
      (s t : Text) (h : Hash) (p : FilePath) (c : Bytes)
      → Checked s p c
      → parse_hash t ≡ ok h
      → file_path root t ≡ ok p
      → hash_data digest c h.algorithm ≡ h
  unfolding hash_data
  Checked-hash s t h p c (path', checked) read path =
      let (a, read') = (validate_hash_data-eq-ok_iff digest c s).0 checked in
      let same : h ≡ hash_data digest c a =
        file_path-injective t s h (hash_data digest c a) p read read' path path' in
      rw same

  Gains-IsIntact : (s : Text) (fs fs' : Fs) → Gains fs fs' (Checked s) → IsIntact fs → IsIntact fs'
  Gains-IsIntact s fs fs' g intact h t p c read path there = elim (g p c there) [
    | inl old ↦ intact h t p c read path old
    | inr checked ↦ Checked-hash s t h p c checked read path
  ]

  pub validate_hash_file-file_at :
      (fs : Fs) (p : FilePath) (s : Text) (c : Bytes)
      → validate_hash_file digest fs p s ≡ ok tt
      → file_at fs p ≡ some c
      → validate_hash_data digest c s ≡ ok tt
  unfolding validate_hash_file validate_hash_data
  validate_hash_file-file_at fs p s c e there = rw (read_file_of fs p c there) at e

  -- Files that a step may leave: the temporary one, and those that were checked.
  abbrev Left : FilePath → Text → FilePath → Bytes → Type 0
  Left temp_path s q c = (temp_path ≡ q) ⊎ Checked s q c

  pub persist-Gains :
      (upload : Upload) (to : FilePath) (s : Text) (fs : Fs)
      → Gains fs (persist upload to fs).1 (Left to s)
  unfolding persist
  persist-Gains (buffered bytes) to s fs q c e = elim (write-Gains to bytes fs q c e) [
    | inl old ↦ inl old
    | inr new ↦ inr (inl new.0)
  ]
  persist-Gains (uploaded path) to s fs q c e = elim (rename-Gains path to fs q c e) [
    | inl old ↦ inl old
    | inr new ↦ inr (inl new.0)
  ]

  -- A checked file that is moved to the path of its hash.
  move-Gains :
      (temp_path path : FilePath) (s : Text) (fs : Fs)
      → file_path root s ≡ ok path
      → validate_hash_file digest fs temp_path s ≡ ok tt
      → Gains fs ((create_dir_all (parent path) >> rename temp_path path) fs).1 (Left temp_path s)
  move-Gains temp_path path s fs e valid =
      >>=-Gains (λ _. rename temp_path path) fs (Left temp_path s) (create_dir_all (parent path))
        (create_dir_all-Gains (parent path) fs (Left temp_path s))
        (λ _ _ q c there.
          let fs' : Fs = (create_dir_all (parent path) fs).1 in
          elim (rename-Gains temp_path path fs' q c there) [
            | inl old ↦ inl old
            | inr (same, from) ↦ inr (
                inr (
                  rw (sym same) e,
                  validate_hash_file-file_at fs temp_path s c valid
                      (sym (create_dir_all-file_at (parent path) fs temp_path) ∙ from),
                ))
          ])

  module _ (temp_name : Fs → FilePath → Text) where
    store_valid-Gains :
        (temp_path : FilePath) (s : Text) (fs : Fs)
        → validate_hash_file digest fs temp_path s ≡ ok tt
        → Gains fs (store_valid digest temp_name root temp_path s fs).1 (Left temp_path s)
    unfolding store_valid
    store_valid-Gains temp_path s fs valid =
        >>=-Gains
          (λ path. reads (λ fs'. file_exists fs' root s) >>= place digest temp_name temp_path path)
          fs (Left temp_path s) (reads (λ _. file_path root s)) (λ q c there. inl there)
          (λ path e.
            >>=-Gains (place digest temp_name temp_path path) fs (Left temp_path s)
              (reads (λ fs'. file_exists fs' root s)) (λ q c there. inl there)
              (λ found _.
                elim found
                  as (λ found.
                    Gains fs (place digest temp_name temp_path path found fs).1
                      (Left temp_path s)) [
                        | true ↦ λ q c there. inl there
                        | false ↦ move-Gains temp_path path s fs e valid
                      ]))

    put_in-Gains :
        (temp_dir : FilePath) (upload : Upload) (s : Text) (fs : Fs)
        → Gains fs
            (put_in digest temp_name temp_dir root upload s fs).1
            (Left (join temp_dir (codes "data")) s)
    unfolding put_in
    put_in-Gains temp_dir upload s fs =
        let temp_path = join temp_dir (codes "data") in
        let check = reads (check_upload digest temp_name temp_path s) in
        let fs' = (persist upload temp_path fs).1 in
        >>=-Gains (λ _. check >> store_valid digest temp_name root temp_path s) fs
          (Left temp_path s) (persist upload temp_path) (persist-Gains upload temp_path s fs)
          (λ _ _.
            >>=-Gains (λ _. store_valid digest temp_name root temp_path s) fs' (Left temp_path s)
              check (λ q c there. inl there)
              (λ _ e. store_valid-Gains temp_path s fs' (map_err-eq-ok _ _ e)))

    pub make_temp_dir-Gains :
        (fs : Fs) (P : FilePath → Bytes → Type 0)
        → Gains fs (make_temp_dir digest temp_name root fs).1 P
    unfolding make_temp_dir
    make_temp_dir-Gains fs P q c there =
        let p : FilePath = root ++ (temp_name fs root ∷ []) in
        ground (arith, node-insert p q dir fs (child-ne-nil root (temp_name fs root)))

    -- What is left after the temporary directory is removed.
    remove_temp-Gains :
        (temp_dir : FilePath) (s : Text) (fs fs' : Fs)
        → Gains fs fs' (Left (join temp_dir (codes "data")) s)
        → Gains fs (remove_under temp_dir fs') (Checked s)
    remove_temp-Gains temp_dir s fs fs' g q c there =
        let (kept, old) : (is_under temp_dir q ≡ false) × (file_at fs' q ≡ some c) =
          ground (arith, remove_under-file_at temp_dir fs' q) in
        elim (g q c old) [
          | inl e ↦ inl e
          | inr (inr e) ↦ inr e
          | inr (inl e) ↦ absurd (
              cc (
                kept,
                e,
                join-name temp_dir (codes "data") data-IsName,
                is_under-append temp_dir (codes "data" ∷ []),
              ))
        ]

    -- Whatever the upload, the expected hash and the name of the temporary directory, and whether
    -- `put_file` succeeds or fails: if each file at the path of a hash had that hash before, each
    -- has it after.
    pub put_file-IsIntact :
        (upload : Upload) (s : Text) (fs : Fs)
        → IsIntact fs
        → IsIntact (put_file digest temp_name root upload s fs).1
    unfolding put_file
    put_file-IsIntact upload s fs intact =
        Gains-IsIntact s fs (put_file digest temp_name root upload s fs).1
          (>>=-Gains
            (λ temp_dir fs'.
              let (r, fs'') = put_in digest temp_name temp_dir root upload s fs' in
              (r, remove_under temp_dir fs''))
            fs (Checked s) (make_temp_dir digest temp_name root)
            (make_temp_dir-Gains fs (Checked s))
            (λ temp_dir _.
              let fs' = (make_temp_dir digest temp_name root fs).1 in
              remove_temp-Gains temp_dir s fs'
                (put_in digest temp_name temp_dir root upload s fs').1
                (put_in-Gains temp_dir upload s fs')))
          intact
