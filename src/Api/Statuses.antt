-- ===== src/Api/Statuses.antt =====
-- src/api.rs, src/outpack_file.rs and src/responses.rs: the status of the answer to a request for a
-- file.

use outpack_server.Api.{OutpackFile, OutpackResult, get_file, is_blocked, open_file}
use outpack_server.Api.Kept.{get-file-route}
use outpack_server.Api.Routes.{get, get_file_route, route}
use outpack_server.Api.Serve.{
  Host, Reply, Request, Site, dispatch, file_answer, handle, raw_of, read_reply, reply_status,
}
use outpack_server.Hash.{Hash, HashError, parse_hash}
use outpack_server.Io.FilePath.{FilePath}
use outpack_server.Io.Fs.{Fs, IoResult, node}
use outpack_server.Prelude.{
  Bool-cases, Text, [], ap, arith, codes, if◌then◌else◌, inl, inr, leb, length, none, refl, some,
  true, ℕ, ◌++◌, ◌∙◌, ◌∷◌, ◌≡◌, ◌≢◌,
}
use outpack_server.Responses.{error_response, error_status, from_io_error}
use outpack_server.Result.{Result, and_then, err, map_err, ok, panicked}
use outpack_server.Store.{file_path, files_dir, hash_error_to_io_error}
use outpack_server.Store.Paths.{file_path_of, hash_names}

module _ (host : Host) (root : FilePath) where
  -- What a request for a file is to be answered with, by the text of its hash and what stands at
  -- the path of the hash.
  abbrev pub stored_status : Text → Fs → FilePath → ℕ
  stored_status t fs p = elim (node fs p) [
    | none ↦ if is_blocked fs [] p then 500 else 404
    | some _ ↦
        if host.is_header_value (codes "attachment; filename=\"" ++ (t ++ codes "\""))
        then 200
        else 500
  ]

  abbrev pub file_status : Text → Result HashError Hash → Fs → ℕ
  file_status t (err _) fs = 400
  file_status t panicked fs = 500
  file_status t (ok h) fs =
      if leb 2 (length h.value) then stored_status t fs (files_dir root ++ hash_names h) else 500

  abbrev file_reply_of : OutpackResult OutpackFile → Reply
  file_reply_of = raw_of (file_answer host.is_header_value)

  opened-status :
      (t : Text) (fs : Fs) (p : FilePath)
      → reply_status (file_reply_of (map_err from_io_error (open_file fs t p)))
        ≡ stored_status t fs p
  unfolding open_file error_response error_status from_io_error
  opened-status t fs p = ground arith

  get_file-status :
      (t : Text) (fs : Fs) (parsed : Result HashError Hash)
      → parse_hash t ≡ parsed
      → reply_status (file_reply_of (get_file root t fs)) ≡ file_status t parsed fs
  unfolding get_file file_path hash_error_to_io_error from_io_error error_response error_status
  get_file-status t fs (ok h) e =
      let answer : IoResult FilePath → ℕ =
        λ r. reply_status (file_reply_of (map_err from_io_error (and_then r (open_file fs t)))) in
      let path = files_dir root ++ hash_names h in
      elim (Bool-cases (leb 2 (length h.value))) [
        | inl y ↦
            let at : file_path root t ≡ ok path = file_path_of root t h e ∙ rw y refl in
            ap answer at ∙ opened-status t fs path ∙ rw y refl
        | inr n ↦
            let at : file_path root t ≡ panicked = file_path_of root t h e ∙ rw n refl in
            ap answer at ∙ rw n refl
      ]
  get_file-status t fs (err x) e = rw e refl
  get_file-status t fs panicked e = rw e refl

  -- A request for a file, whose hash has not two digits and at most 257, is answered with 400 where
  -- the text is no hash, and with 500 where the value of the hash is too short for a path; where
  -- nothing stands at the path, with 500 if a file stands on the way and else with 404; and where
  -- something does, with 200 if the text of the hash makes a value of a header and else with 500.
  pub handle-file_status :
      (request : Request) (site : Site) (t : Text)
      → ((h : Hash)
          → parse_hash t ≡ ok h
          → (length h.value ≢ 2) × (leb (length h.value) 257 ≡ true))
      → request.method ≡ get
      → request.names ≡ codes "file" ∷ t ∷ []
      → reply_status (handle host root request site).0 ≡ file_status t (parse_hash t) site.disk
  unfolding handle dispatch read_reply
  handle-file_status request site t sized method names =
      let routed : route request.method request.names ≡ get_file_route t =
        rw (method, names) (get-file-route t) in
      ap (λ r. reply_status (dispatch host root r request site).0) routed
      ∙ get_file-status t site.disk (parse_hash t) refl
