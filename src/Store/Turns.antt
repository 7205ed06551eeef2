-- ===== src/Store/Turns.antt =====
-- src/store.rs: calls of `put_file` whose operations take turns keep the store intact.

use outpack_server.Hash.{Digest}
use outpack_server.Io.FilePath.{FilePath, parent}
use outpack_server.Io.Fs.{Fs, IoResult, create_dir_all, exists}
use outpack_server.Io.Laws.{
  Gains, create_dir_all-Gains, create_dir_all-file_at, remove_under-Gains, rename-Gains,
}
use outpack_server.Prelude.{
  Bool, List, Text, [], ap, codes, false, inl, inr, refl, sym, true, ◌++◌, ◌∙◌, ◌∷◌, ◌≡◌, ◌≢◌,
}
use outpack_server.Result.{err, map_err-eq-ok, ok, panicked}
use outpack_server.Store.{file_path}
use outpack_server.Store.Found.{make_temp_dir-path}
use outpack_server.Store.Intact.{
  IsIntact, make_temp_dir-Gains, persist-Gains, validate_hash_file-file_at,
}
use outpack_server.Store.Put.{Upload, check_upload, make_temp_dir, persist}
use outpack_server.Store.Steps.{
  Call, HasOwnDir, Stage, TakesTurns, advance, advanced, called, looked, looking, made_dir,
  making_dirs, making_temp_dir, no_calls, onward, persisting, removing, renaming, returned, step,
  validating,
}
use outpack_server.Store.Sure.{
  IsSure, IsSure-kept, IsTempDir, IsValidated, Written, Written-IsIntact, data_of, onward-IsSure,
  onward-dir,
}

module _ (digest : Digest) (temp_name : Fs → FilePath → Text) (root : FilePath) where
  module _ (names : (fs : Fs) → temp_name fs root ≢ codes ".outpack") where
    abbrev next_step : Upload → Text → Stage → Fs → Stage × Fs
    next_step upload hash stage fs = step digest temp_name root upload hash stage fs

    made_dir-IsSure :
        (fs' : Fs) (hash : Text) (r : IoResult FilePath)
        → ((d : FilePath) → r ≡ ok d → IsTempDir digest temp_name root d)
        → IsSure digest temp_name root fs' hash (made_dir r)
    made_dir-IsSure fs' hash (ok d) h = h d refl
    made_dir-IsSure fs' hash (err x) h = tt
    made_dir-IsSure fs' hash panicked h = tt

    looked-IsSure :
        (fs : Fs) (hash : Text) (d path : FilePath) (there : Bool)
        → IsTempDir digest temp_name root d
        → IsValidated digest temp_name root fs hash d
        → file_path root hash ≡ ok path
        → IsSure digest temp_name root fs hash (looked d path there)
    looked-IsSure fs hash d path true temp valid at = temp
    looked-IsSure fs hash d path false temp valid at = (temp, valid, at)

    -- A call stays sure by its own operation.
    step-IsSure :
        (upload : Upload) (hash : Text) (stage : Stage) (fs : Fs)
        → IsSure digest temp_name root fs hash stage
        → IsSure digest temp_name root
            (next_step upload hash stage fs).1
            hash
            (next_step upload hash stage fs).0
    unfolding step
    step-IsSure upload hash making_temp_dir fs sure =
        made_dir-IsSure (make_temp_dir digest temp_name root fs).1 hash
          (make_temp_dir digest temp_name root fs).0
          (λ d e.
            (temp_name fs root, make_temp_dir-path digest temp_name root hash fs d e, names fs))
    step-IsSure upload hash (persisting d) fs temp =
        onward-IsSure digest temp_name root (persist upload (data_of digest temp_name root d) fs).1
          hash d (λ _. validating d) (persist upload (data_of digest temp_name root d) fs).0 temp
          (λ _ _. temp)
    step-IsSure upload hash (validating d) fs temp =
        onward-IsSure digest temp_name root fs hash d (λ _. looking d)
          (check_upload digest temp_name (data_of digest temp_name root d) hash fs) temp
          (λ _ e. (
            temp,
            λ b there.
                validate_hash_file-file_at digest root fs (data_of digest temp_name root d) hash b
                  (map_err-eq-ok _ _ e) there,
          ))
    step-IsSure upload hash (looking d) fs (temp, valid) =
        onward-IsSure digest temp_name root fs hash d (λ path. looked d path (exists fs path))
          (file_path root hash) temp
          (λ path at. looked-IsSure fs hash d path (exists fs path) temp valid at)
    step-IsSure upload hash (making_dirs d path) fs (temp, valid, at) =
        let fs' = (create_dir_all (parent path) fs).1 in
        onward-IsSure digest temp_name root fs' hash d (λ _. renaming d path)
          (create_dir_all (parent path) fs).0 temp
          (λ _ _. (
            temp,
            (λ b there. valid b (
                sym (create_dir_all-file_at (parent path) fs (data_of digest temp_name root d))
                ∙ there)),
            at,
          ))
    step-IsSure upload hash (renaming d path) fs (temp, _, _) = temp
    step-IsSure upload hash (removing r d) fs temp = tt
    step-IsSure upload hash (returned r) fs sure = tt

    step-Gains :
        (upload : Upload) (hash : Text) (stage : Stage) (fs : Fs)
        → IsSure digest temp_name root fs hash stage
        → Gains fs
            (next_step upload hash stage fs).1
            (Written digest temp_name root (next_step upload hash stage fs).0 hash)
    unfolding step
    step-Gains upload hash making_temp_dir fs sure =
        make_temp_dir-Gains digest root temp_name fs
          (Written digest temp_name root (made_dir (make_temp_dir digest temp_name root fs).0) hash)
    step-Gains upload hash (persisting d) fs temp = λ q b there.
        elim (persist-Gains digest root upload (data_of digest temp_name root d) hash fs q b
          there) [
            | inl old ↦ inl old
            | inr (inl at) ↦ inr (
                inl (
                  d,
                  onward-dir digest temp_name root d (λ _. validating d)
                      (persist upload (data_of digest temp_name root d) fs).0 (λ _. refl),
                  temp,
                  at,
                ))
            | inr (inr checked) ↦ inr (inr checked)
          ]
    step-Gains upload hash (validating d) fs sure = λ q b there. inl there
    step-Gains upload hash (looking d) fs sure = λ q b there. inl there
    step-Gains upload hash (making_dirs d path) fs sure = create_dir_all-Gains (parent path) fs (
        Written digest temp_name root
          (onward d (λ _. renaming d path) (create_dir_all (parent path) fs).0) hash)
    step-Gains upload hash (renaming d path) fs (temp, valid, at) = λ q b there.
        elim (rename-Gains (data_of digest temp_name root d) path fs q b there) [
          | inl old ↦ inl old
          | inr (same, from) ↦ inr (inr (at ∙ ap ok same, valid b from))
        ]
    step-Gains upload hash (removing r d) fs sure =
        remove_under-Gains d fs (Written digest temp_name root (returned r) hash)
    step-Gains upload hash (returned r) fs sure = λ q b there. inl there

    abbrev AllSure : Fs → List Call → Type 0
    AllSure fs [] = Unit {0}
    AllSure fs (c ∷ calls) = IsSure digest temp_name root fs c.hash c.stage × AllSure fs calls

    AllSure-at :
        (fs : Fs) (front back : List Call) (c : Call)
        → AllSure fs (front ++ (c ∷ back))
        → IsSure digest temp_name root fs c.hash c.stage
    AllSure-at fs [] back c (sure, _) = sure
    AllSure-at fs (_ ∷ front) back c (_, all_sure) = AllSure-at fs front back c all_sure

    -- The other calls stay sure, by what the operation of one call writes.
    module _ (stage : Stage) (hash : Text) (fs fs' : Fs)
        (g : Gains fs fs' (Written digest temp_name root stage hash)) where
      AllSure-others :
          (calls : List Call) → HasOwnDir stage calls → AllSure fs calls → AllSure fs' calls
      AllSure-others [] own all_sure = tt
      AllSure-others (c ∷ calls) (own, owns) (sure, all_sure) = (
        IsSure-kept digest temp_name root stage hash fs fs' g c.hash c.stage own sure,
        AllSure-others calls owns all_sure,
      )

      AllSure-after :
          (front back : List Call) (c c' : Call)
          → HasOwnDir stage (front ++ back)
          → AllSure fs (front ++ (c ∷ back))
          → IsSure digest temp_name root fs' c'.hash c'.stage
          → AllSure fs' (front ++ (c' ∷ back))
      AllSure-after [] back c c' owns (_, all_sure) sure = (sure, AllSure-others back owns all_sure)
      AllSure-after (o ∷ front) back c c' (own, owns) (sure_there, all_sure) sure = (
        IsSure-kept digest temp_name root stage hash fs fs' g o.hash o.stage own sure_there,
        AllSure-after front back c c' owns all_sure sure,
      )

    turns :
        (start fs : Fs) (calls : List Call)
        → TakesTurns digest temp_name root start calls fs
        → IsIntact digest root start
        → IsIntact digest root fs × AllSure fs calls
    unfolding advance
    turns start _ _ no_calls intact = (intact, tt)
    turns start fs _ (called {calls} upload hash before) intact =
        let (now, all_sure) = turns start fs calls before intact in (now, (tt, all_sure))
    turns start _ _ (advanced {fs} front back c before own) intact =
        let (now, all_sure) = turns start fs (front ++ (c ∷ back)) before intact in
        let sure = AllSure-at fs front back c all_sure in
        let (stage, fs') = next_step c.upload c.hash c.stage fs in
        let g = step-Gains c.upload c.hash c.stage fs sure in
        (
          Written-IsIntact digest temp_name root stage c.hash fs fs' g now,
          AllSure-after stage c.hash fs fs' g front back c (advance digest temp_name root c fs).0
              own all_sure (step-IsSure c.upload c.hash c.stage fs sure),
        )

  -- However the operations of calls of `put_file` take turns, and whether the calls end or are cut
  -- off: if each file at the path of a hash had that hash at the start, each has it, where no
  -- temporary directory is called `.outpack` and each call makes one that no other has.
  pub TakesTurns-IsIntact :
      (start fs : Fs) (calls : List Call)
      → ((fs' : Fs) → temp_name fs' root ≢ codes ".outpack")
      → TakesTurns digest temp_name root start calls fs
      → IsIntact digest root start
      → IsIntact digest root fs
  TakesTurns-IsIntact start fs calls names run intact = (turns names start fs calls run intact).0
