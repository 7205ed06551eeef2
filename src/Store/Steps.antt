-- ===== src/Store/Steps.antt =====
-- src/store.rs, `put_file`, as the operations that it makes on the disk, one after another, so that
-- those of several calls can take turns.

use outpack_server.Hash.{Digest}
use outpack_server.Io.FilePath.{FilePath, join, parent}
use outpack_server.Io.Fs.{Fs, IoResult, create_dir_all, exists, remove_under, rename}
use outpack_server.Prelude.{
  Bool, List, Option, Text, [], codes, false, none, some, true, ◌++◌, ◌∷◌, ◌≡◌, ◌≢◌,
}
use outpack_server.Result.{err, ok, panicked}
use outpack_server.Store.{file_path}
use outpack_server.Store.Put.{Upload, check_upload, make_temp_dir, persist}

-- What a call is about to do. The temporary directory is known once it is made, and the path of the
-- hash once it is computed.
pub data Stage : Type 0 where
  making_temp_dir : Stage
  persisting validating looking : FilePath → Stage
  making_dirs renaming : FilePath → FilePath → Stage
  removing : IoResult (Unit {0}) → FilePath → Stage
  returned : IoResult (Unit {0}) → Stage

-- A call of `put_file`.
pub record Call : Type 0 where
  pub upload : Upload
  pub hash : Text
  pub stage : Stage

-- What follows an operation that gives a value, or its error, on which the directory is removed.
abbrev pub onward {ℓ} : {A : Type ℓ} → FilePath → (A → Stage) → IoResult A → Stage
onward temp_dir f (ok a) = f a
onward temp_dir f (err e) = removing (err e) temp_dir
onward temp_dir f panicked = removing panicked temp_dir

abbrev pub made_dir : IoResult FilePath → Stage
made_dir (ok temp_dir) = persisting temp_dir
made_dir (err e) = returned (err e)
made_dir panicked = returned panicked

-- Where the file is in the store already, nothing is moved.
abbrev pub looked : FilePath → FilePath → Bool → Stage
looked temp_dir path true = removing (ok tt) temp_dir
looked temp_dir path false = making_dirs temp_dir path

-- The temporary directory that a call has.
abbrev pub temp_dir_of : Stage → Option FilePath
temp_dir_of (persisting d) = some d
temp_dir_of (validating d) = some d
temp_dir_of (looking d) = some d
temp_dir_of (making_dirs d _) = some d
temp_dir_of (renaming d _) = some d
temp_dir_of (removing _ d) = some d
temp_dir_of _ = none

-- No call of the list has the directory of the stage: the crate tempfile makes a new one.
abbrev pub HasOwnDir : Stage → List Call → Type 0
HasOwnDir stage [] = Unit {0}
HasOwnDir stage (c ∷ calls) =
    ((d : FilePath) → temp_dir_of stage ≡ some d → temp_dir_of c.stage ≢ some d)
    × HasOwnDir stage calls

module _ (digest : Digest) (temp_name : Fs → FilePath → Text) (root : FilePath) where
  abbrev pub data_file : FilePath → FilePath
  data_file temp_dir = join temp_dir (codes "data")

  -- The next operation of a call.
  unfoldable pub step : Upload → Text → Stage → Fs → Stage × Fs
  unfolding make_temp_dir persist file_path create_dir_all rename remove_under
  step upload hash making_temp_dir fs =
      let (r, fs') = make_temp_dir digest temp_name root fs in (made_dir r, fs')
  step upload hash (persisting temp_dir) fs =
      let (r, fs') = persist upload (data_file temp_dir) fs in
      (onward temp_dir (λ _. validating temp_dir) r, fs')
  step upload hash (validating temp_dir) fs = (
    onward temp_dir (λ _. looking temp_dir)
        (check_upload digest temp_name (data_file temp_dir) hash fs),
    fs,
  )
  step upload hash (looking temp_dir) fs =
      (onward temp_dir (λ path. looked temp_dir path (exists fs path)) (file_path root hash), fs)
  step upload hash (making_dirs temp_dir path) fs =
      let (r, fs') = create_dir_all (parent path) fs in
      (onward temp_dir (λ _. renaming temp_dir path) r, fs')
  step upload hash (renaming temp_dir path) fs =
      let (r, fs') = rename (data_file temp_dir) path fs in (removing r temp_dir, fs')
  step upload hash (removing r temp_dir) fs = (returned r, remove_under temp_dir fs)
  step upload hash (returned r) fs = (returned r, fs)

  unfoldable pub advance : Call → Fs → Call × Fs
  unfolding step
  advance c fs =
      let (stage, fs') = step c.upload c.hash c.stage fs in
      (record { upload = c.upload; hash = c.hash; stage = stage }, fs')

  -- Calls begin, and their operations take turns in any order.
  pub data TakesTurns (start : Fs) : List Call → Fs → Type 0 where
    no_calls : TakesTurns start [] start
    called :
        {calls : List Call} {fs : Fs} (upload : Upload) (hash : Text)
        → TakesTurns start calls fs
        → TakesTurns start
            (record { upload = upload; hash = hash; stage = making_temp_dir } ∷ calls)
            fs
    advanced :
        {fs : Fs} (front back : List Call) (c : Call)
        → TakesTurns start (front ++ (c ∷ back)) fs
        → HasOwnDir (advance c fs).0.stage (front ++ back)
        → TakesTurns start (front ++ ((advance c fs).0 ∷ back)) (advance c fs).1
