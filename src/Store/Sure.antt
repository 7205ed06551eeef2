-- ===== src/Store/Sure.antt =====
-- src/store.rs: what a call of `put_file` has made sure of, between two of its operations.

use outpack_server.Hash.{Digest, validate_hash_data}
use outpack_server.Io.FilePath.{FilePath, join}
use outpack_server.Io.Fs.{Fs, IoResult}
use outpack_server.Io.Laws.{Gains, file_at, is_under_refl}
use outpack_server.Prelude.{
  Bytes, Text, [], ap, codes, inl, inr, refl, some, sym, ◌++◌, ◌∙◌, ◌∷◌, ◌≡◌, ◌≢◌, ◌⊎◌,
}
use outpack_server.Result.{err, ok, panicked}
use outpack_server.Store.{file_path}
use outpack_server.Store.Found.{data_path, temp_dir-apart}
use outpack_server.Store.Intact.{Checked, Checked-hash, IsIntact}
use outpack_server.Store.Paths.{append_cancel}
use outpack_server.Store.Steps.{
  Stage, looking, making_dirs, making_temp_dir, onward, persisting, removing, renaming, returned,
  temp_dir_of, validating,
}

module _ (digest : Digest) (temp_name : Fs → FilePath → Text) (root : FilePath) where
  abbrev pub IsTempDir : FilePath → Type 0
  IsTempDir d = (name : Text) × (d ≡ root ++ (name ∷ [])) × (name ≢ codes ".outpack")

  abbrev pub data_of : FilePath → FilePath
  data_of d = join d (codes "data")

  -- What is at the place of the data was checked.
  abbrev pub IsValidated : Fs → Text → FilePath → Type 0
  IsValidated fs hash d =
      (b : Bytes) → file_at fs (data_of d) ≡ some b → validate_hash_data digest b hash ≡ ok tt

  -- What a call has made sure of before its next operation.
  abbrev pub IsSure : Fs → Text → Stage → Type 0
  IsSure fs hash making_temp_dir = Unit {0}
  IsSure fs hash (persisting d) = IsTempDir d
  IsSure fs hash (validating d) = IsTempDir d
  IsSure fs hash (looking d) = IsTempDir d × IsValidated fs hash d
  IsSure fs hash (making_dirs d path) =
      IsTempDir d × IsValidated fs hash d × (file_path root hash ≡ ok path)
  IsSure fs hash (renaming d path) =
      IsTempDir d × IsValidated fs hash d × (file_path root hash ≡ ok path)
  IsSure fs hash (removing r d) = IsTempDir d
  IsSure fs hash (returned r) = Unit {0}

  -- What an operation may write: the data in its own directory, or a file that was checked.
  abbrev pub Written : Stage → Text → FilePath → Bytes → Type 0
  Written stage hash q b =
      ((d : FilePath) × (temp_dir_of stage ≡ some d) × IsTempDir d × (data_of d ≡ q))
      ⊎ Checked digest root hash q b

  pub data-ne-stored :
      (d q : FilePath) (s : Text) → IsTempDir d → data_of d ≡ q → file_path root s ≢ ok q
  data-ne-stored d q s (name, named, new) at e =
      let away = temp_dir-apart digest temp_name root s q name (codes "data" ∷ []) new e in
      let same : root ++ (name ∷ codes "data" ∷ []) ≡ q =
        sym (ap data_of named ∙ data_path digest temp_name root s name) ∙ at in
      cc (away, same, is_under_refl q)

  pub data-injective : (d e : FilePath) → IsTempDir d → IsTempDir e → data_of d ≡ data_of e → d ≡ e
  data-injective d e (n, named, _) (m, named', _) same =
      let first = ap data_of named ∙ data_path digest temp_name root [] n in
      let second = ap data_of named' ∙ data_path digest temp_name root [] m in
      let tails = append_cancel root (sym first ∙ same ∙ second) in
      let names : n ≡ m = cc tails in named ∙ ap (λ t. root ++ (t ∷ [])) names ∙ sym named'

  module _ (stage : Stage) (hash : Text) (fs fs' : Fs) (g : Gains fs fs' (Written stage hash)) where
    pub Written-IsIntact : IsIntact digest root fs → IsIntact digest root fs'
    Written-IsIntact intact h t p b read path there = elim (g p b there) [
      | inl old ↦ intact h t p b read path old
      | inr (inl (d, _, temp, at)) ↦ absurd (data-ne-stored d p t temp at path)
      | inr (inr checked) ↦ Checked-hash digest root hash t h p b checked read path
    ]

    -- The data of another call is not touched.
    IsValidated-kept :
        (other_hash : Text) (d : FilePath)
        → IsTempDir d
        → temp_dir_of stage ≢ some d
        → IsValidated fs other_hash d
        → IsValidated fs' other_hash d
    IsValidated-kept other_hash d temp apart valid b there = elim (g (data_of d) b there) [
      | inl old ↦ valid b old
      | inr (inl (e, own, temp', at)) ↦
          absurd (apart (own ∙ ap some (data-injective e d temp' temp at)))
      | inr (inr (path, _)) ↦ absurd (data-ne-stored d (data_of d) hash temp refl path)
    ]

    pub IsSure-kept :
        (other_hash : Text) (other_stage : Stage)
        → ((d : FilePath) → temp_dir_of stage ≡ some d → temp_dir_of other_stage ≢ some d)
        → IsSure fs other_hash other_stage
        → IsSure fs' other_hash other_stage
    IsSure-kept o making_temp_dir apart h = tt
    IsSure-kept o (persisting d) apart h = h
    IsSure-kept o (validating d) apart h = h
    IsSure-kept o (looking d) apart (temp, valid) =
        (temp, IsValidated-kept o d temp (λ e. apart d e refl) valid)
    IsSure-kept o (making_dirs d path) apart (temp, valid, at) =
        (temp, IsValidated-kept o d temp (λ e. apart d e refl) valid, at)
    IsSure-kept o (renaming d path) apart (temp, valid, at) =
        (temp, IsValidated-kept o d temp (λ e. apart d e refl) valid, at)
    IsSure-kept o (removing r d) apart h = h
    IsSure-kept o (returned r) apart h = tt

  pub onward-dir :
      {A : Type 0} (d : FilePath) (f : A → Stage) (r : IoResult A)
      → ((a : A) → temp_dir_of (f a) ≡ some d)
      → temp_dir_of (onward d f r) ≡ some d
  onward-dir d f (ok a) h = h a
  onward-dir d f (err x) h = refl
  onward-dir d f panicked h = refl

  pub onward-IsSure :
      {A : Type 0} (fs : Fs) (hash : Text) (d : FilePath) (f : A → Stage) (r : IoResult A)
      → IsTempDir d
      → ((a : A) → r ≡ ok a → IsSure fs hash (f a))
      → IsSure fs hash (onward d f r)
  onward-IsSure fs hash d f (ok a) temp h = h a refl
  onward-IsSure fs hash d f (err x) temp h = temp
  onward-IsSure fs hash d f panicked temp h = temp
