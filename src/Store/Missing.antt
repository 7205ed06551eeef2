-- ===== src/Store/Missing.antt =====
-- src/store.rs, `get_missing_files`: which hashes are reported.

use outpack_server.Hash.{Hash, HashError, parse_hash}
use outpack_server.Io.FilePath.{FilePath}
use outpack_server.Io.Fs.{Fs, exists}
use outpack_server.Prelude.{
  All, Bool, Bool-cases, List, Text, [], arith, if◌then◌else◌, inl, inr, keep, leb, length, none,
  not, refl, some, true, ◌++◌, ◌↔◌, ◌∷◌, ◌≡◌, ◌≢◌,
}
use outpack_server.Result.{>>=-eq-ok, Result, collect_some, map_err, map_err-eq-ok, map_ok, ok}
use outpack_server.Store.{
  file_exists, file_path, files_dir, get_missing_files, hash_error_to_io_error,
}
use outpack_server.Store.Paths.{file_path_of, hash_names}

-- The text reads as a hash of two digits at least.
abbrev pub HasPath : Text → Type 0
HasPath s = (h : Hash) × (parse_hash s ≡ ok h) × (leb 2 (length h.value) ≡ true)

-- Where the file of a hash belongs.
abbrev place : FilePath → Result HashError Hash → FilePath
place root (ok h) = files_dir root ++ hash_names h
place root _ = []

-- Nothing is where the file belongs.
abbrev pub is_absent : Fs → FilePath → Text → Bool
is_absent fs root s = not (exists fs (place root (parse_hash s)))

file_path-HasPath :
    (root : FilePath) (s : Text) (path : FilePath)
    → file_path root s ≡ ok path
    → HasPath s × (path ≡ place root (parse_hash s))
unfolding file_path
file_path-HasPath root s path e =
    let (h, read, _) = >>=-eq-ok (map_err hash_error_to_io_error (parse_hash s)) _ e in
    let parsed = map_err-eq-ok hash_error_to_io_error (parse_hash s) read in
    let at = file_path_of root s h parsed in
    elim (Bool-cases (leb 2 (length h.value))) [
      | inl two ↦ ((h, parsed, two), rw parsed (cc (rw two at at)))
      | inr one ↦ absurd (cc (rw one at at))
    ]

HasPath-file_path :
    (root : FilePath) (s : Text) → HasPath s → file_path root s ≡ ok (place root (parse_hash s))
HasPath-file_path root s (h, parsed, two) =
    let at = file_path_of root s h parsed in rw parsed (cc (rw two at at))

module _ (fs : Fs) (root : FilePath) where
  reported_of :
      (wanted result : List Text)
      → get_missing_files fs root wanted ≡ ok result
      → All HasPath wanted × (result ≡ keep (is_absent fs root) wanted)
  unfolding get_missing_files file_exists collect_some
  reported_of [] result e = (tt, cc)
  reported_of (s ∷ wanted) result e =
      let (o, there, e1) =
        >>=-eq-ok (map_ok (λ there. if there then none else some s) (file_exists fs root s)) _ e in
      let (rest, k, e2) = >>=-eq-ok (get_missing_files fs root wanted) _ e1 in
      let (found, f, e3) = >>=-eq-ok (file_exists fs root s) _ there in
      let (path, at, e4) = >>=-eq-ok (file_path root s) _ f in
      let (readable, at_place) = file_path-HasPath root s path at in
      let (read_all, same) = reported_of wanted rest k in
      let absent : is_absent fs root s ≡ not found = rw (← at_place) (ground arith) in
      ((readable, read_all), ground (arith, absent))

  reported :
      (wanted : List Text)
      → All HasPath wanted
      → get_missing_files fs root wanted ≡ ok (keep (is_absent fs root) wanted)
  unfolding get_missing_files file_exists collect_some
  reported [] a = refl
  reported (s ∷ wanted) (p, a) = rw (HasPath-file_path root s p, reported wanted a) (ground arith)

  -- Where no text that is wanted reads as a hash of two digits, `get_missing_files` succeeds
  -- exactly where each reads as a hash of three digits at least, and then gives those where nothing
  -- stands at the path of the hash, as often and in the order in which they are wanted.
  pub get_missing_files-eq-ok_iff :
      (wanted result : List Text)
      → All (λ s. (h : Hash) → parse_hash s ≡ ok h → length h.value ≢ 2) wanted
      → (get_missing_files fs root wanted ≡ ok result)
        ↔ (All HasPath wanted × (result ≡ keep (is_absent fs root) wanted))
  get_missing_files-eq-ok_iff wanted result sized =
      (reported_of wanted result, λ (a, same). rw same (reported wanted a))
