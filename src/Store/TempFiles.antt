-- ===== src/Store/TempFiles.antt =====
-- src/upload.rs: the temporary file of an upload, and the files of the store beside it.
use outpack_server.Hash.{HashAlgorithm, algorithm_text, md5}
use outpack_server.Io.Binds.{>>=-after, >>=-run-eq-ok}
use outpack_server.Io.FilePath.{FilePath}
use outpack_server.Io.Fs.{Fs, IoResult, create, is_under, reads, write, ◌>>◌}
use outpack_server.Io.Moves.{apart_differs}
use outpack_server.Prelude.{Bytes, List, Option, Text, [], arith, codes, false, ◌++◌, ◌∷◌, ◌≡◌, ◌≢◌}
use outpack_server.Result.{err, ok, panicked}
use outpack_server.Store.{file_path, files_dir}
use outpack_server.Store.Elsewhere.{file_path-files}
use outpack_server.Store.Found.{is_under-apart}
use outpack_server.Store.Kept.{Held, remove_under-Held, write-Held}
use outpack_server.Store.Put.{Upload, uploaded}
use outpack_server.Store.Receive.{
  Chunk, end_of_copy, from_request, into_upload, received, stream_to_file, upload_path,
}

-- The crate tempfile's names begin with `.tmp`.
abbrev pub NamesTemp : (Fs → FilePath → Text) → Type 0
NamesTemp temp_name =
    (fs : Fs) (p : FilePath) → (rest : Text) × (temp_name fs p ≡ codes ".tmp" ++ rest)

pub temp-ne-outpack : (rest : Text) → codes ".tmp" ++ rest ≢ codes ".outpack"
temp-ne-outpack rest e = ground arith

temp-ne-algorithm : (a : HashAlgorithm) (rest : Text) → codes ".tmp" ++ rest ≢ algorithm_text a
unfolding algorithm_text
temp-ne-algorithm md5 rest e = ground arith
temp-ne-algorithm _ rest e = ground arith

into_upload-path :
    (p : FilePath) (r : IoResult (Unit {0}) × Fs) (upload : Upload)
    → (into_upload p r).0 ≡ ok upload
    → upload ≡ uploaded p
into_upload-path p (ok _, fs) upload e = cc
into_upload-path p (err _, fs) upload e = cc
into_upload-path p (panicked, fs) upload e = cc

module _ (temp_name : Fs → FilePath → Text) (temp_dir : FilePath) (config : Option FilePath)
    (stream : List Chunk) (fs : Fs) where
  abbrev path : FilePath
  path = upload_path temp_name temp_dir config fs

  -- What is received is at the path that was chosen for it.
  pub from_request-path :
      (upload : Upload)
      → (from_request temp_name temp_dir config stream fs).0 ≡ ok upload
      → upload ≡ uploaded path
  unfolding from_request
  from_request-path upload e =
      let (_, _, received_there, _) =
        >>=-run-eq-ok (λ _ fs'. into_upload path (stream_to_file path stream fs')) (create path) fs
          e in
      into_upload-path path (stream_to_file path stream (create path fs).1) upload received_there

  module _ (q : FilePath) (c : Bytes) (away : is_under path q ≡ false) where
    into_upload-Held :
        (r : IoResult (Unit {0}) × Fs) → Held q c r.1 → Held q c (into_upload path r).1
    into_upload-Held (ok _, fs') h = h
    into_upload-Held (err _, fs') h = remove_under-Held q c path fs' away h
    into_upload-Held (panicked, fs') h = remove_under-Held q c path fs' away h

    create-Held : (fs' : Fs) → Held q c fs' → Held q c (create path fs').1
    unfolding create
    create-Held fs' h = write-Held q c path [] fs' (apart_differs path q away) h

    stream_to_file-Held : (fs' : Fs) → Held q c fs' → Held q c (stream_to_file path stream fs').1
    unfolding stream_to_file
    stream_to_file-Held fs' h =
        let bytes = (received stream).0 in
        let ending = reads (λ _. end_of_copy (received stream).1) in
        let begun = (create path fs').1 in
        >>=-after (λ _. write path bytes >> ending) (Held q c) (create path) fs' (create-Held fs' h)
          (λ _ _.
            let kept =
              write-Held q c path bytes begun (apart_differs path q away) (create-Held fs' h) in
            >>=-after (λ _. ending) (Held q c) (write path bytes) begun kept (λ _ _. kept))

    pub from_request-Held :
        Held q c fs → Held q c (from_request temp_name temp_dir config stream fs).1
    unfolding from_request
    from_request-Held h =
        >>=-after (λ _ fs'. into_upload path (stream_to_file path stream fs')) (Held q c)
          (create path) fs (create-Held fs h)
          (λ _ _.
            into_upload-Held (stream_to_file path stream (create path fs).1)
              (stream_to_file-Held (create path fs).1 (create-Held fs h)))

-- The temporary file of an upload into the directory of the files is on the way to no stored file.
pub upload-apart :
    (root : FilePath) (s : Text) (q : FilePath) (rest : Text)
    → file_path root s ≡ ok q
    → is_under (files_dir root ++ ((codes ".tmp" ++ rest) ∷ [])) q ≡ false
upload-apart root s q rest at =
    let (h, files) = file_path-files root s q at in
    rw files (
      is_under-apart (files_dir root) (codes ".tmp" ++ rest) (algorithm_text h.algorithm) [] _
        (temp-ne-algorithm h.algorithm rest))
