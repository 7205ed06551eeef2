-- ===== src/Store/Receive.antt =====
-- src/upload.rs, `Upload::from_request` and `stream_to_file`: the body of a request as a temporary
-- file.
use outpack_server.Io.FilePath.{FilePath}
use outpack_server.Io.Fs.{Fs, Io, IoResult, create, fail, other, reads, remove_under, write, ◌>>◌}
use outpack_server.Prelude.{Bytes, List, Option, Text, [], none, some, ◌++◌, ◌∷◌}
use outpack_server.Result.{err, ok, panicked}
use outpack_server.Store.Put.{Upload, uploaded}

-- What axum gives of a body: bytes, or an error.
pub data Chunk : Type 0 where
  bytes_of : Bytes → Chunk
  broken : Text → Chunk

-- The bytes before the first error, and that error.
unfoldable pub received : List Chunk → Bytes × Option Text
received [] = ([], none)
received (bytes_of bytes ∷ stream) = let (more, failed) = received stream in (bytes ++ more, failed)
received (broken e ∷ stream) = ([], some e)

abbrev pub end_of_copy : Option Text → IoResult (Unit {0})
end_of_copy none = ok tt
end_of_copy (some e) = fail other e

unfoldable pub stream_to_file : FilePath → List Chunk → Io (Unit {0})
unfolding received create write
stream_to_file path stream = do
  create path
  write path (received stream).0
  reads λ _. end_of_copy (received stream).1

-- The temporary file is removed where it is dropped.
abbrev pub into_upload : FilePath → IoResult (Unit {0}) × Fs → IoResult Upload × Fs
into_upload path (ok _, fs) = (ok (uploaded path), fs)
into_upload path (err e, fs) = (err e, remove_under path fs)
into_upload path (panicked, fs) = (panicked, remove_under path fs)

-- The crate tempfile chooses the name of the file; `temp_dir` is the directory of the system.
module _ (temp_name : Fs → FilePath → Text) (temp_dir : FilePath) where
  abbrev pub upload_dir : Option FilePath → FilePath
  upload_dir none = temp_dir
  upload_dir (some directory) = directory

  abbrev pub upload_path : Option FilePath → Fs → FilePath
  upload_path config fs = upload_dir config ++ (temp_name fs (upload_dir config) ∷ [])

  unfoldable pub from_request : Option FilePath → List Chunk → Io Upload
  unfolding stream_to_file create
  from_request config stream fs =
      let path = upload_path config fs in
      (create path >> λ fs'. into_upload path (stream_to_file path stream fs')) fs
