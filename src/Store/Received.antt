-- ===== src/Store/Received.antt =====
-- src/upload.rs: the upload of a request is its body, and a body that breaks leaves nothing.

use outpack_server.Io.FilePath.{FilePath}
use outpack_server.Io.Fs.{
  Fs, IoResult, create, dir, fail, file, insert, is_under, node, other, reads, write, ◌>>◌,
}
use outpack_server.Io.Laws.{child-ne-nil, file_at, is_under_refl, node-insert, remove_under-file_at}
use outpack_server.Io.Writes.{after_step, node-insert_file, parent-append, write_at_new, write_over}
use outpack_server.Locations.Read.{concat}
use outpack_server.Prelude.{
  Bytes, List, Option, Text, [], ap, arith, false, if◌then◌else◌, list_eq, map, nat_eq, none, refl,
  some, ◌++◌, ◌==◌, ◌∙◌, ◌∷◌, ◌≡◌, ◌≢◌,
}
use outpack_server.Result.{ok}
use outpack_server.Store.Put.{Upload, uploaded}
use outpack_server.Store.Receive.{
  Chunk, broken, bytes_of, end_of_copy, from_request, into_upload, received, stream_to_file,
  upload_dir, upload_path,
}

-- The disk once the file has been made and its contents written.
abbrev written : FilePath → Bytes → Fs → Fs
written path bytes fs = insert path (file bytes) (insert path (file []) fs)

module _ (path : FilePath) (stream : List Chunk) (nonempty : path ≢ []) where
  stream_to_file_over :
      (old : Bytes) (fs : Fs)
      → node fs path ≡ some (file old)
      → stream_to_file path stream fs
        ≡ (end_of_copy (received stream).1, written path (received stream).0 fs)
  unfolding stream_to_file create
  stream_to_file_over old fs there =
      let ending = reads (λ _. end_of_copy (received stream).1) in
      let fs' = insert path (file []) fs in
      after_step (create path) (write path (received stream).0 >> ending) fs fs'
        (write_over path [] old fs there)
      ∙ after_step (write path (received stream).0) ending fs' (written path (received stream).0 fs)
          (write_over path (received stream).0 [] fs' (node-insert_file path [] fs nonempty))

module _ (temp_name : Fs → FilePath → Text) (temp_dir : FilePath) where
  from_request_at :
      (config : Option FilePath) (stream : List Chunk) (fs : Fs)
      → node fs (upload_dir temp_name temp_dir config) ≡ some dir
      → node fs (upload_path temp_name temp_dir config fs) ≡ none
      → let path = upload_path temp_name temp_dir config fs in
        from_request temp_name temp_dir config stream fs
        ≡ into_upload path (
          end_of_copy (received stream).1,
          written path (received stream).0 (insert path (file []) fs),
        )
  unfolding from_request create
  from_request_at config stream fs there new =
      let directory = upload_dir temp_name temp_dir config in
      let path = upload_path temp_name temp_dir config fs in
      let above = ap (node fs) (parent-append directory (temp_name fs directory)) ∙ there in
      let nonempty = child-ne-nil directory (temp_name fs directory) in
      let made = insert path (file []) fs in
      after_step (create path) (λ fs'. into_upload path (stream_to_file path stream fs')) fs made
        (write_at_new path [] fs new above)
      ∙ ap (into_upload path)
          (stream_to_file_over path stream nonempty [] made (node-insert_file path [] fs nonempty))

  abbrev made : Option FilePath → Bytes → Fs → Fs
  made config bytes fs =
      let path = upload_path temp_name temp_dir config fs in
      written path bytes (insert path (file []) fs)

  -- Of the files only that one changes.
  made-file_at :
      (config : Option FilePath) (bytes : Bytes) (fs : Fs) (q : FilePath)
      → file_at (made config bytes fs) q
        ≡ (if upload_path temp_name temp_dir config fs == q then some bytes else file_at fs q)
  made-file_at config bytes fs q =
      let directory = upload_dir temp_name temp_dir config in
      let path = upload_path temp_name temp_dir config fs in
      let nonempty = child-ne-nil directory (temp_name fs directory) in
      let begun = insert path (file []) fs in
      ground (
        arith,
        node-insert path q (file bytes) (insert path (file []) begun) nonempty,
        node-insert path q (file []) begun nonempty,
        node-insert path q (file []) fs nonempty,
      )

  -- Nothing else changes, files or directories.
  made-node :
      (config : Option FilePath) (bytes : Bytes) (fs : Fs) (q : FilePath)
      → upload_path temp_name temp_dir config fs ≢ q
      → node (made config bytes fs) q ≡ node fs q
  made-node config bytes fs q differs =
      let directory = upload_dir temp_name temp_dir config in
      let path = upload_path temp_name temp_dir config fs in
      let nonempty = child-ne-nil directory (temp_name fs directory) in
      let begun = insert path (file []) fs in
      ground (
        arith,
        node-insert path q (file bytes) (insert path (file []) begun) nonempty,
        node-insert path q (file []) begun nonempty,
        node-insert path q (file []) fs nonempty,
      )

received-whole : (chunks : List Bytes) → received (map bytes_of chunks) ≡ (concat chunks, none)
unfolding received
received-whole [] = refl
received-whole (c ∷ chunks) = rw (received-whole chunks) refl

received-broken :
    (chunks : List Bytes) (e : Text) (rest : List Chunk)
    → received (map bytes_of chunks ++ (broken e ∷ rest)) ≡ (concat chunks, some e)
unfolding received
received-broken [] e rest = refl
received-broken (c ∷ chunks) e rest = rw (received-broken chunks e rest) refl

module _ (temp_name : Fs → FilePath → Text) (temp_dir : FilePath) (config : Option FilePath)
    (fs : Fs) (there : node fs (upload_dir temp_name temp_dir config) ≡ some dir)
    (new : node fs (upload_path temp_name temp_dir config fs) ≡ none) (chunks : List Bytes) where
  abbrev upload_of : FilePath → Bytes × Option Text → IoResult Upload × Fs
  upload_of path (bytes, failed) =
      into_upload path (end_of_copy failed, written path bytes (insert path (file []) fs))

  -- Where the directory of uploads is there and the name of the temporary file is new, a body of
  -- chunks without an error becomes an upload: a file with all of them in their order, and no other
  -- file changes.
  pub from_request-whole :
      let path = upload_path temp_name temp_dir config fs in
      let (result, fs') = from_request temp_name temp_dir config (map bytes_of chunks) fs in
      (result ≡ ok (uploaded path))
      × (file_at fs' path ≡ some (concat chunks))
      × ((q : FilePath) → path ≢ q → file_at fs' q ≡ file_at fs q)
  from_request-whole =
      let path = upload_path temp_name temp_dir config fs in
      let fs' = made temp_name temp_dir config (concat chunks) fs in
      let run =
        from_request_at temp_name temp_dir config (map bytes_of chunks) fs there new
        ∙ ap (upload_of path) (received-whole chunks) in
      let files = made-file_at temp_name temp_dir config (concat chunks) fs in
      (
        ap (λ r. r.0) run,
        ap (λ r. file_at r.1 path) run ∙ ground (arith, files path),
        λ q differs. ap (λ r. file_at r.1 q) run ∙ ground (arith, files q),
      )

  pub from_request-node :
      (q : FilePath)
      → upload_path temp_name temp_dir config fs ≢ q
      → node (from_request temp_name temp_dir config (map bytes_of chunks) fs).1 q ≡ node fs q
  from_request-node q differs =
      let path = upload_path temp_name temp_dir config fs in
      let run =
        from_request_at temp_name temp_dir config (map bytes_of chunks) fs there new
        ∙ ap (upload_of path) (received-whole chunks) in
      ap (λ r. node r.1 q) run ∙ made-node temp_name temp_dir config (concat chunks) fs q differs

  -- Where the directory of uploads is there and the name of the temporary file is new, a body that
  -- breaks off is an error with its message, no file is left at the temporary path, and none that
  -- does not lie under it changes.
  pub from_request-broken :
      (message : Text) (rest : List Chunk)
      → let path = upload_path temp_name temp_dir config fs in
        let stream = map bytes_of chunks ++ (broken message ∷ rest) in
        let (result, fs') = from_request temp_name temp_dir config stream fs in
        (result ≡ fail other message)
        × (file_at fs' path ≡ none)
        × ((q : FilePath) → is_under path q ≡ false → file_at fs' q ≡ file_at fs q)
  from_request-broken message rest =
      let path = upload_path temp_name temp_dir config fs in
      let stream = map bytes_of chunks ++ (broken message ∷ rest) in
      let fs' = made temp_name temp_dir config (concat chunks) fs in
      let run =
        from_request_at temp_name temp_dir config stream fs there new
        ∙ ap (upload_of path) (received-broken chunks message rest) in
      let files = made-file_at temp_name temp_dir config (concat chunks) fs in
      let removed = remove_under-file_at path fs' in
      (
        ap (λ r. r.0) run,
        ap (λ r. file_at r.1 path) run ∙ ground (arith, removed path, is_under_refl path),
        λ q apart.
            ap (λ r. file_at r.1 q) run ∙ ground (arith, removed q, files q, is_under_refl path),
      )
