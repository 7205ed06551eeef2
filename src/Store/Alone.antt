-- ===== src/Store/Alone.antt =====
-- src/store.rs: the operations of a call of `put_file`, with no other between them, are `put_file`.

use outpack_server.Hash.{Digest}
use outpack_server.Io.FilePath.{FilePath, join, parent}
use outpack_server.Io.Fs.{
  Fs, Io, IoResult, create_dir_all, exists, reads, remove_under, rename, ◌>>=◌, ◌>>◌,
}
use outpack_server.Prelude.{
  Bool, Text, ap, arith, codes, false, refl, suc, sym, true, zero, ℕ, ◌∙◌, ◌≡◌, ◌≤◌,
}
use outpack_server.Result.{err, ok, panicked}
use outpack_server.Store.{file_exists, file_path}
use outpack_server.Store.Put.{
  Upload, check_upload, make_temp_dir, persist, place, put_file, put_in, store_valid,
}
use outpack_server.Store.Steps.{
  Stage, looked, looking, made_dir, making_dirs, making_temp_dir, onward, persisting, removing,
  renaming, returned, step, validating,
}

module _ (digest : Digest) (temp_name : Fs → FilePath → Text) (root : FilePath) (upload : Upload)
    (hash : Text) where
  -- The temporary directory is removed at the end.
  abbrev finish : FilePath → IoResult (Unit {0}) × Fs → IoResult (Unit {0}) × Fs
  finish d (r, fs) = (r, remove_under d fs)

  abbrev data_of : FilePath → FilePath
  data_of d = join d (codes "data")

  abbrev move_to : FilePath → FilePath → Io (Unit {0})
  move_to d path = create_dir_all (parent path) >> rename (data_of d) path

  -- What a call still does from a stage on, if it is alone.
  abbrev rest_of : Stage → Fs → IoResult (Unit {0}) × Fs
  rest_of making_temp_dir fs = put_file digest temp_name root upload hash fs
  rest_of (persisting d) fs = finish d (put_in digest temp_name d root upload hash fs)
  rest_of (validating d) fs = finish d (
      (reads (check_upload digest temp_name (data_of d) hash)
          >> store_valid digest temp_name root (data_of d) hash)
        fs)
  rest_of (looking d) fs = finish d (store_valid digest temp_name root (data_of d) hash fs)
  rest_of (making_dirs d path) fs = finish d (move_to d path fs)
  rest_of (renaming d path) fs = finish d (rename (data_of d) path fs)
  rest_of (removing r d) fs = (r, remove_under d fs)
  rest_of (returned r) fs = (r, fs)

  rest_of-onward :
      {A : Type 0} (d : FilePath) (f : A → Stage) (cont : A → Io (Unit {0})) (r : IoResult A)
      (fs : Fs)
      → ((a : A) → r ≡ ok a → rest_of (f a) fs ≡ finish d (cont a fs))
      → rest_of (onward d f r) fs ≡ finish d (((λ _. (r, fs)) >>= cont) fs)
  rest_of-onward d f cont (ok a) fs h = h a refl
  rest_of-onward d f cont (err x) fs h = refl
  rest_of-onward d f cont panicked fs h = refl

  rest_of-made_dir :
      (r : IoResult FilePath) (fs : Fs)
      → rest_of (made_dir r) fs
        ≡ ((λ _. (r, fs)) >>= λ d fs'. finish d (put_in digest temp_name d root upload hash fs')) fs
  rest_of-made_dir (ok d) fs = refl
  rest_of-made_dir (err x) fs = refl
  rest_of-made_dir panicked fs = refl

  rest_of-looked :
      (d path : FilePath) (there : Bool) (fs : Fs)
      → rest_of (looked d path there) fs
        ≡ finish d (place digest temp_name (data_of d) path there fs)
  rest_of-looked d path true fs = refl
  rest_of-looked d path false fs = refl

  -- The second half of `store_valid`.
  abbrev unless_stored : FilePath → FilePath → Io (Unit {0})
  unless_stored d path =
      reads (λ fs. file_exists fs root hash) >>= place digest temp_name (data_of d) path

  unless_stored_at :
      (d path : FilePath) (fs : Fs)
      → file_path root hash ≡ ok path
      → unless_stored d path fs ≡ place digest temp_name (data_of d) path (exists fs path) fs
  unfolding file_exists
  unless_stored_at d path fs at = rw at refl

  abbrev next_step : Stage × Fs → Stage × Fs
  next_step (stage, fs) = step digest temp_name root upload hash stage fs

  -- What is left to do gives the same after each operation.
  rest_of-step :
      (stage : Stage) (fs : Fs)
      → rest_of (next_step (stage, fs)).0 (next_step (stage, fs)).1 ≡ rest_of stage fs
  unfolding step put_file put_in store_valid
  rest_of-step making_temp_dir fs =
      rest_of-made_dir (make_temp_dir digest temp_name root fs).0
        (make_temp_dir digest temp_name root fs).1
  rest_of-step (persisting d) fs =
      rest_of-onward d (λ _. validating d)
        (λ _.
          reads (check_upload digest temp_name (data_of d) hash)
          >> store_valid digest temp_name root (data_of d) hash)
        (persist upload (data_of d) fs).0 (persist upload (data_of d) fs).1 (λ _ _. refl)
  rest_of-step (validating d) fs =
      rest_of-onward d (λ _. looking d) (λ _. store_valid digest temp_name root (data_of d) hash)
        (check_upload digest temp_name (data_of d) hash fs) fs (λ _ _. refl)
  rest_of-step (looking d) fs =
      rest_of-onward d (λ path. looked d path (exists fs path)) (unless_stored d)
        (file_path root hash) fs
        (λ path at.
          rest_of-looked d path (exists fs path) fs
          ∙ ap (finish d) (sym (unless_stored_at d path fs at)))
  rest_of-step (making_dirs d path) fs =
      rest_of-onward d (λ _. renaming d path) (λ _. rename (data_of d) path)
        (create_dir_all (parent path) fs).0 (create_dir_all (parent path) fs).1 (λ _ _. refl)
  rest_of-step (renaming d path) fs = refl
  rest_of-step (removing r d) fs = refl
  rest_of-step (returned r) fs = refl

  -- The operations one after another, as many as are allowed.
  abbrev run_alone : ℕ → Stage × Fs → Stage × Fs
  run_alone zero s = s
  run_alone (suc n) s = run_alone n (next_step s)

  rest_of-run_alone :
      (n : ℕ) (s : Stage × Fs) → rest_of (run_alone n s).0 (run_alone n s).1 ≡ rest_of s.0 s.1
  rest_of-run_alone zero s = refl
  rest_of-run_alone (suc n) s = rest_of-run_alone n (next_step s) ∙ rest_of-step s.0 s.1

  -- How many operations are left at most.
  abbrev left_of : Stage → ℕ
  left_of making_temp_dir = 7
  left_of (persisting _) = 6
  left_of (validating _) = 5
  left_of (looking _) = 4
  left_of (making_dirs _ _) = 3
  left_of (renaming _ _) = 2
  left_of (removing _ _) = 1
  left_of (returned _) = 0

  left_of-onward :
      {A : Type 0} (d : FilePath) (f : A → Stage) (r : IoResult A) (n : ℕ)
      → ((a : A) → left_of (f a) ≤ suc n)
      → left_of (onward d f r) ≤ suc n
  left_of-onward d f (ok a) n h = h a
  left_of-onward d f (err x) n h = omega arith
  left_of-onward d f panicked n h = omega arith

  left_of-made_dir : (r : IoResult FilePath) → left_of (made_dir r) ≤ 6
  left_of-made_dir (ok d) = omega arith
  left_of-made_dir (err x) = omega arith
  left_of-made_dir panicked = omega arith

  left_of-looked : (d path : FilePath) (there : Bool) → left_of (looked d path there) ≤ 3
  left_of-looked d path true = omega arith
  left_of-looked d path false = omega arith

  left_of-step :
      (stage : Stage) (fs : Fs) (n : ℕ)
      → left_of stage ≤ suc n
      → left_of (next_step (stage, fs)).0 ≤ n
  unfolding step
  left_of-step making_temp_dir fs n h =
      omega (arith, left_of-made_dir (make_temp_dir digest temp_name root fs).0)
  left_of-step (persisting d) fs n h = omega (
    arith,
    left_of-onward d (λ _. validating d) (persist upload (data_of d) fs).0 4 (λ _. omega arith),
  )
  left_of-step (validating d) fs n h = omega (
    arith,
    left_of-onward d (λ _. looking d) (check_upload digest temp_name (data_of d) hash fs) 3
        (λ _. omega arith),
  )
  left_of-step (looking d) fs n h = omega (
    arith,
    left_of-onward d (λ path. looked d path (exists fs path)) (file_path root hash) 2
        (λ path. left_of-looked d path (exists fs path)),
  )
  left_of-step (making_dirs d path) fs n h = omega (
    arith,
    left_of-onward d (λ _. renaming d path) (create_dir_all (parent path) fs).0 1
        (λ _. omega arith),
  )
  left_of-step (renaming d path) fs n h = omega arith
  left_of-step (removing r d) fs n h = omega arith
  left_of-step (returned r) fs n h = omega arith

  left_of-run_alone : (n : ℕ) (s : Stage × Fs) → left_of s.0 ≤ n → left_of (run_alone n s).0 ≤ 0
  left_of-run_alone zero s h = h
  left_of-run_alone (suc n) s h = left_of-run_alone n (next_step s) (left_of-step s.0 s.1 n h)

  returned_at :
      (s : Stage × Fs) (r : IoResult (Unit {0}) × Fs)
      → left_of s.0 ≤ 0
      → rest_of s.0 s.1 ≡ r
      → s ≡ (returned r.0, r.1)
  returned_at (returned x, fs) r h e = ap (λ y. (returned y.0, y.1)) e
  returned_at (making_temp_dir, fs) r h e = absurd (omega arith)
  returned_at (persisting d, fs) r h e = absurd (omega arith)
  returned_at (validating d, fs) r h e = absurd (omega arith)
  returned_at (looking d, fs) r h e = absurd (omega arith)
  returned_at (making_dirs d path, fs) r h e = absurd (omega arith)
  returned_at (renaming d path, fs) r h e = absurd (omega arith)
  returned_at (removing x d, fs) r h e = absurd (omega arith)

  -- A call that no other interrupts returns after seven operations, with the result and the disk of
  -- `put_file`.
  run_alone-put_file :
      (fs : Fs)
      → let (r, fs') = put_file digest temp_name root upload hash fs in
        run_alone 7 (making_temp_dir, fs) ≡ (returned r, fs')
  run_alone-put_file fs =
      let s = run_alone 7 (making_temp_dir, fs) in
      returned_at s (put_file digest temp_name root upload hash fs)
        (left_of-run_alone 7 (making_temp_dir, fs) (omega arith))
        (rest_of-run_alone 7 (making_temp_dir, fs))
