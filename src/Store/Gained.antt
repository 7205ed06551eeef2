-- ===== src/Store/Gained.antt =====
-- What is written at paths that no hash has leaves the store intact.

use outpack_server.Hash.{Digest}
use outpack_server.Io.FilePath.{FilePath}
use outpack_server.Io.Fs.{Fs, Io, IoResult, create, pure, reads, remove_under, write, ◌>>◌}
use outpack_server.Io.Laws.{>>=-Gains, Gains, Gains-trans, remove_under-Gains, write-Gains}
use outpack_server.Prelude.{
  Bool, Bytes, List, Text, [], ap, false, if◌then◌else◌, inl, inr, some, sym, true, ◌∙◌,
}
use outpack_server.Result.{err, ok, panicked}
use outpack_server.Store.{files_dir}
use outpack_server.Store.Elsewhere.{Elsewhere, upload-Elsewhere}
use outpack_server.Store.Intact.{IsIntact}
use outpack_server.Store.Receive.{
  Chunk, end_of_copy, from_request, into_upload, received, stream_to_file, upload_path,
}

module _ (root : FilePath) where
  -- Every new file stands at a path that no hash has.
  abbrev pub GainsElsewhere : Fs → Fs → Type 0
  GainsElsewhere fs fs' = Gains fs fs' (λ q _. Elsewhere root q)

  pub GainsElsewhere-IsIntact :
      (digest : Digest) (fs fs' : Fs)
      → GainsElsewhere fs fs'
      → IsIntact digest root fs
      → IsIntact digest root fs'
  GainsElsewhere-IsIntact digest fs fs' g intact h s p c read path there = elim (g p c there) [
    | inl old ↦ intact h s p c read path old
    | inr away ↦ absurd (away s path)
  ]

  pub write-GainsElsewhere :
      (p : FilePath) (bytes : Bytes) (fs : Fs)
      → Elsewhere root p
      → GainsElsewhere fs (write p bytes fs).1
  write-GainsElsewhere p bytes fs away q c there = elim (write-Gains p bytes fs q c there) [
    | inl old ↦ inl old
    | inr (same, _) ↦ inr (λ s e. away s (e ∙ ap ok (sym same)))
  ]

  pub create-write-GainsElsewhere :
      (p : FilePath) (bytes : Bytes) (fs : Fs)
      → Elsewhere root p
      → GainsElsewhere fs ((create p >> write p bytes) fs).1
  unfolding create
  create-write-GainsElsewhere p bytes fs away =
      >>=-Gains (λ _. write p bytes) fs (λ q _. Elsewhere root q) (create p)
        (write-GainsElsewhere p [] fs away)
        (λ _ _. write-GainsElsewhere p bytes (create p fs).1 away)

  pub unless-GainsElsewhere :
      (there : Bool) (m : Io (Unit {0})) (fs : Fs)
      → GainsElsewhere fs (m fs).1
      → GainsElsewhere fs ((if there then pure tt else m) fs).1
  unless-GainsElsewhere true m fs g = λ q c there. inl there
  unless-GainsElsewhere false m fs g = g

  stream_to_file-GainsElsewhere :
      (p : FilePath) (stream : List Chunk) (fs : Fs)
      → Elsewhere root p
      → GainsElsewhere fs (stream_to_file p stream fs).1
  unfolding stream_to_file create
  stream_to_file-GainsElsewhere p stream fs away =
      let rest = write p (received stream).0 >> reads (λ _. end_of_copy (received stream).1) in
      >>=-Gains (λ _. rest) fs (λ q _. Elsewhere root q) (create p)
        (write-GainsElsewhere p [] fs away)
        (λ _ _.
          let fs' = (create p fs).1 in
          >>=-Gains (λ _. reads (λ _. end_of_copy (received stream).1)) fs'
            (λ q _. Elsewhere root q) (write p (received stream).0)
            (write-GainsElsewhere p (received stream).0 fs' away) (λ _ _ q c there. inl there))

  into_upload-GainsElsewhere :
      (p : FilePath) (r : IoResult (Unit {0}) × Fs) (fs : Fs)
      → GainsElsewhere fs r.1
      → GainsElsewhere fs (into_upload p r).1
  into_upload-GainsElsewhere p (ok _, fs') fs g = g
  into_upload-GainsElsewhere p (err e, fs') fs g =
      Gains-trans fs fs' (remove_under p fs') (λ q _. Elsewhere root q) g
        (remove_under-Gains p fs' (λ q _. Elsewhere root q))
  into_upload-GainsElsewhere p (panicked, fs') fs g =
      Gains-trans fs fs' (remove_under p fs') (λ q _. Elsewhere root q) g
        (remove_under-Gains p fs' (λ q _. Elsewhere root q))

  -- An upload into the directory of the files.
  pub from_request-GainsElsewhere :
      (temp_name : Fs → FilePath → Text) (temp_dir : FilePath) (stream : List Chunk) (fs : Fs)
      → GainsElsewhere fs (from_request temp_name temp_dir (some (files_dir root)) stream fs).1
  unfolding from_request create
  from_request-GainsElsewhere temp_name temp_dir stream fs =
      let p = upload_path temp_name temp_dir (some (files_dir root)) fs in
      let away = upload-Elsewhere root (temp_name fs (files_dir root)) in
      >>=-Gains (λ _ fs'. into_upload p (stream_to_file p stream fs')) fs (λ q _. Elsewhere root q)
        (create p) (write-GainsElsewhere p [] fs away)
        (λ _ _.
          let fs' = (create p fs).1 in
          into_upload-GainsElsewhere p (stream_to_file p stream fs') fs'
            (stream_to_file-GainsElsewhere p stream fs' away))
