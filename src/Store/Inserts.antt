-- ===== src/Store/Inserts.antt =====
-- src/store.rs, `put_file`: the store as a map from paths to contents, into which a file is put
-- that is not there yet.
use outpack_server.Hash.{Digest}
use outpack_server.Io.Binds.{>>=-run-eq-ok, reads-passes}
use outpack_server.Io.FilePath.{FilePath, join}
use outpack_server.Io.Fs.{Fs, IoResult, dir, exists, is_under, node, reads, remove_under, ◌>>◌}
use outpack_server.Io.Laws.{child-ne-nil, file_at, node-insert, remove_under-file_at}
use outpack_server.Io.Moves.{apart_differs}
use outpack_server.Io.Writes.{after_step}
use outpack_server.Prelude.{
  ==_iff, ==_refl, Bool-cases, Bytes, Option, Text, [], ap, arith, codes, false, if◌then◌else◌, inl,
  inr, list_eq, nat_eq, none, refl, some, subst, sym, ◌++◌, ◌==◌, ◌∙◌, ◌∷◌, ◌≡◌, ◌≢◌,
}
use outpack_server.Result.{ok}
use outpack_server.Store.{file_path}
use outpack_server.Store.Carried.{Carries, persist-Carries, persist-node}
use outpack_server.Store.Found.{data_path, make_temp_dir-path, store_valid_at, temp_dir-apart}
use outpack_server.Store.Kept.{IsAwayFrom}
use outpack_server.Store.Placed.{kept_or_put, place-other, place-path, placed}
use outpack_server.Store.Put.{
  Upload, buffered, check_upload, make_temp_dir, persist, put_file, put_in, store_valid, uploaded,
}

-- A path of the map gets contents if it has none.
abbrev pub insert_absent : FilePath → Bytes → (FilePath → Option Bytes) → FilePath → Option Bytes
insert_absent path bytes store q =
    if path == q then elim (store q) [ some c ↦ some c | none ↦ some bytes ] else store q

module _ (digest : Digest) (temp_name : Fs → FilePath → Text) (root : FilePath) (s : Text)
    (path : FilePath) (at : file_path root s ≡ ok path) (upload : Upload) (bytes : Bytes) where
  module _ (temp_dir : FilePath)
      (apart : is_under (join temp_dir (codes "data")) path ≡ false) where
    abbrev temp_path : FilePath
    temp_path = join temp_dir (codes "data")

    abbrev persisted : Fs → Fs
    persisted fs = (persist upload temp_path fs).1

    put_in-placed :
        (fs : Fs)
        → (put_in digest temp_name temp_dir root upload s fs).0 ≡ ok tt
        → ((persist upload temp_path fs).0 ≡ ok tt)
          × (put_in digest temp_name temp_dir root upload s fs
              ≡ placed digest temp_name temp_path path (exists (persisted fs) path) (persisted fs))
    unfolding put_in
    put_in-placed fs e =
        let onward = store_valid digest temp_name root temp_path s in
        let check = reads (check_upload digest temp_name temp_path s) in
        let (_, wrote, rest, same) =
          >>=-run-eq-ok (λ _. check >> onward) (persist upload temp_path) fs e in
        let (_, passed, stored, same') = >>=-run-eq-ok (λ _. onward) check (persisted fs) rest in
        (
          wrote,
          after_step (persist upload temp_path) (check >> onward) fs (persisted fs)
                (ap (λ r. (r, persisted fs)) wrote)
              ∙ reads-passes (check_upload digest temp_name temp_path s) onward (persisted fs)
                  passed
              ∙ store_valid_at digest temp_name root s temp_path path apart (persisted fs) at,
        )

    abbrev result : Fs → IoResult (Unit {0}) × Fs
    result fs = put_in digest temp_name temp_dir root upload s fs

    put_in-path_inserts :
        (fs : Fs)
        → IsAwayFrom upload path
        → Carries upload bytes temp_path fs
        → node fs path ≢ some dir
        → (result fs).0 ≡ ok tt
        → file_at (result fs).1 path
          ≡ elim (file_at fs path) [ some c ↦ some c | none ↦ some bytes ]
    put_in-path_inserts fs away carried no_dir e =
        let (wrote, run) = put_in-placed fs e in
        let fs' = persisted fs in
        let kept =
          persist-node upload temp_path fs path away (apart_differs temp_path path apart) in
        let held = persist-Carries upload bytes temp_path fs carried wrote in
        ap (λ r. file_at r.1 path) run
        ∙ place-path digest temp_name temp_path path bytes (exists fs' path) fs' held apart
            (sym (ap (λ r. r.0) run) ∙ e)
        ∙ kept_or_put fs' path bytes (λ d. no_dir (sym kept ∙ d))
        ∙ rw kept refl

    put_in-other :
        (fs : Fs) (q : FilePath)
        → IsAwayFrom upload q
        → path ≢ q
        → is_under temp_path q ≡ false
        → (result fs).0 ≡ ok tt
        → file_at (result fs).1 q ≡ file_at fs q
    put_in-other fs q away d h e =
        let (wrote, run) = put_in-placed fs e in
        let fs' = persisted fs in
        ap (λ r. file_at r.1 q) run
        ∙ place-other digest temp_name temp_path path (exists fs' path) fs' q d h
        ∙ rw (file_at, persist-node upload temp_path fs q away (apart_differs temp_path q h)) refl

    put_in-inserts :
        (fs : Fs) (q : FilePath)
        → IsAwayFrom upload path
        → IsAwayFrom upload q
        → Carries upload bytes temp_path fs
        → node fs path ≢ some dir
        → is_under temp_path q ≡ false
        → (result fs).0 ≡ ok tt
        → file_at (result fs).1 q ≡ insert_absent path bytes (file_at fs) q
    put_in-inserts fs q path_away away carried no_dir h e =
        let here = put_in-path_inserts fs path_away carried no_dir e in
        elim (Bool-cases (path == q)) [
          | inl y ↦ rw (insert_absent, y, ← (==_iff path q).0 y) here
          | inr n ↦
              rw (insert_absent, n)
                (put_in-other fs q away (λ same. cc (n, same, ==_refl path)) h e)
        ]

  make_temp_dir-node :
      (fs : Fs) (q : FilePath)
      → root ++ (temp_name fs root ∷ []) ≢ q
      → node (make_temp_dir digest temp_name root fs).1 q ≡ node fs q
  unfolding make_temp_dir
  make_temp_dir-node fs q d =
      let temp_dir : FilePath = root ++ (temp_name fs root ∷ []) in
      ground (arith, node-insert temp_dir q dir fs (child-ne-nil root (temp_name fs root)))

  pub make_temp_dir-Carries :
      (up : Upload) (to : FilePath) (fs : Fs)
      → IsAwayFrom up (root ++ (temp_name fs root ∷ []))
      → Carries up bytes to fs
      → Carries up bytes to (make_temp_dir digest temp_name root fs).1
  make_temp_dir-Carries (buffered b) to fs away same = same
  make_temp_dir-Carries (uploaded p) to fs away (there, apart) =
      let differs : root ++ (temp_name fs root ∷ []) ≢ p =
        λ same. apart_differs p (root ++ (temp_name fs root ∷ [])) away (sym same) in
      (rw (file_at, make_temp_dir-node fs p differs) there, apart)

  -- An upload of the contents is put, where no path in question lies under it.
  pub put_upload-inserts :
      (fs : Fs)
      → temp_name fs root ≢ codes ".outpack"
      → node fs path ≢ some dir
      → IsAwayFrom upload (root ++ (temp_name fs root ∷ []))
      → Carries upload bytes (root ++ (temp_name fs root ∷ codes "data" ∷ [])) fs
      → IsAwayFrom upload path
      → (put_file digest temp_name root upload s fs).0 ≡ ok tt
      → (t : Text) (p : FilePath) → file_path root t ≡ ok p
      → IsAwayFrom upload p
      → file_at (put_file digest temp_name root upload s fs).1 p
        ≡ insert_absent path bytes (file_at fs) p
  unfolding put_file
  put_upload-inserts fs renamed no_dir dir_away carried path_away e t p read p_away =
      let name = temp_name fs root in
      let below = codes "data" ∷ [] in
      let fs' = (make_temp_dir digest temp_name root fs).1 in
      let (temp_dir, made, put, same) =
        >>=-run-eq-ok
          (λ d fs'.
            let (r, fs'') = put_in digest temp_name d root upload s fs' in (r, remove_under d fs''))
          (make_temp_dir digest temp_name root) fs e in
      let named = make_temp_dir-path digest temp_name root s fs temp_dir made in
      let away = temp_dir-apart digest temp_name root t p name [] renamed read in
      let path_apart = temp_dir-apart digest temp_name root s path name [] renamed at in
      let joined = ap (λ d. join d (codes "data")) named ∙ data_path digest temp_name root s name in
      let data_away : is_under (join temp_dir (codes "data")) p ≡ false =
        ap (λ d. is_under d p) joined
        ∙ temp_dir-apart digest temp_name root t p name below renamed read in
      let path_data_away : is_under (join temp_dir (codes "data")) path ≡ false =
        ap (λ d. is_under d path) joined
        ∙ temp_dir-apart digest temp_name root s path name below renamed at in
      let as_before : node fs' p ≡ node fs p = make_temp_dir-node fs p (apart_differs _ p away) in
      let path_before : node fs' path ≡ node fs path =
        make_temp_dir-node fs path (apart_differs _ path path_apart) in
      let fs'' = (put_in digest temp_name temp_dir root upload s fs').1 in
      let carried' : Carries upload bytes (join temp_dir (codes "data")) fs' =
        subst (λ to. Carries upload bytes to fs') (sym joined)
          (make_temp_dir-Carries upload _ fs dir_away carried) in
      ap (λ r. file_at r p) same
      ∙ remove_under-file_at temp_dir fs'' p
      ∙ ap (λ b. if b then none else file_at fs'' p) (ap (λ d. is_under d p) named ∙ away)
      ∙ put_in-inserts temp_dir path_data_away fs' p path_away p_away carried'
          (λ d. no_dir (sym path_before ∙ d)) data_away put
      ∙ rw (insert_absent, file_at, as_before) refl

module _ (digest : Digest) (temp_name : Fs → FilePath → Text) (root : FilePath) (s : Text)
    (path : FilePath) (at : file_path root s ≡ ok path) (bytes : Bytes) where
  -- Seen as a map from the paths of hashes to contents, the store is changed by a `put_file` of
  -- contents in memory that succeeds as a map into which the contents are put at the path of the
  -- expected hash if it has none, where the temporary directory is not called `.outpack` and no
  -- directory stands at that path.
  pub put_file-inserts :
      (fs : Fs)
      → temp_name fs root ≢ codes ".outpack"
      → node fs path ≢ some dir
      → (put_file digest temp_name root (buffered bytes) s fs).0 ≡ ok tt
      → (t : Text) (p : FilePath) → file_path root t ≡ ok p
      → file_at (put_file digest temp_name root (buffered bytes) s fs).1 p
        ≡ insert_absent path bytes (file_at fs) p
  put_file-inserts fs renamed no_dir e t p read =
      put_upload-inserts digest temp_name root s path at (buffered bytes) bytes fs renamed no_dir tt
        refl tt e t p read tt
