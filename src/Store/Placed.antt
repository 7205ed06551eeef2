-- ===== src/Store/Placed.antt =====
-- src/store.rs, `put_file`: what moving a file to the path of its hash does to each path.
use outpack_server.Hash.{Digest}
use outpack_server.Io.Binds.{>>=-after, >>=-run-eq-ok}
use outpack_server.Io.FilePath.{FilePath, parent}
use outpack_server.Io.Fs.{Fs, Io, create_dir_all, dir, exists, is_under, node, rename}
use outpack_server.Io.Laws.{create_dir_all-file_at, file_at}
use outpack_server.Io.Moves.{rename-file_at, rename-file_at_target}
use outpack_server.Prelude.{
  Bool, Bytes, Text, ap, arith, false, if◌then◌else◌, none, refl, some, true, ◌∙◌, ◌≡◌, ◌≢◌,
}
use outpack_server.Result.{ok}
use outpack_server.Store.Put.{place}

-- Where no directory stands, something that is there is a file.
pub kept_or_put :
    (fs : Fs) (q : FilePath) (bytes : Bytes)
    → node fs q ≢ some dir
    → (if exists fs q then file_at fs q else some bytes)
      ≡ elim (file_at fs q) [ some c ↦ some c | none ↦ some bytes ]
unfolding exists
kept_or_put fs q bytes d = ground arith

module _ (digest : Digest) (temp_name : Fs → FilePath → Text) (temp_path path : FilePath) where
  abbrev pub placed : Bool → Io (Unit {0})
  placed there = place digest temp_name temp_path path there

  pub place-other :
      (there : Bool) (fs : Fs) (q : FilePath)
      → path ≢ q
      → is_under temp_path q ≡ false
      → file_at (placed there fs).1 q ≡ file_at fs q
  place-other true fs q d h = refl
  place-other false fs q d h =
      let made = create_dir_all-file_at (parent path) fs q in
      >>=-after (λ _. rename temp_path path) (λ fs'. file_at fs' q ≡ file_at fs q)
        (create_dir_all (parent path)) fs made
        (λ _ _. rename-file_at temp_path path (create_dir_all (parent path) fs).1 q d h ∙ made)

  pub place-path :
      (bytes : Bytes) (there : Bool) (fs : Fs)
      → file_at fs temp_path ≡ some bytes
      → is_under temp_path path ≡ false
      → (placed there fs).0 ≡ ok tt
      → file_at (placed there fs).1 path ≡ (if there then file_at fs path else some bytes)
  place-path bytes true fs held h e = refl
  place-path bytes false fs held h e =
      let fs' = (create_dir_all (parent path) fs).1 in
      let (_, _, moved, same) =
        >>=-run-eq-ok (λ _. rename temp_path path) (create_dir_all (parent path)) fs e in
      ap (λ fs''. file_at fs'' path) same
      ∙ rename-file_at_target temp_path path bytes fs'
          (create_dir_all-file_at (parent path) fs temp_path ∙ held) h moved
