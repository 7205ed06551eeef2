-- ===== src/Api/Kept.antt =====
-- src/api.rs: a stored file stays as it is while the server runs, and is served.

use outpack_server.Api.{
  OutpackFile, OutpackResult, add_file, add_hashed, content_disposition, file_of, get_file,
  open_file, post_packet,
}
use outpack_server.Api.Intact.{FetchesApart, file_path-below}
use outpack_server.Api.Routes.{
  Route, add_file_route, add_packet_route, get, get_file_route, git_fetch_route, metrics_route,
  route,
}
use outpack_server.Api.Serve.{
  Host, Refusal, Reply, Request, Serves, Site, add_received, answered_one, dispatch, drop_upload,
  file_answer, file_reply, handle, opened, post_body, raw_of, read_reply, receive_file,
}
use outpack_server.Hash.{Hash, parse_hash}
use outpack_server.Io.FilePath.{FilePath}
use outpack_server.Io.Fs.{Fs, IoResult, is_under}
use outpack_server.Io.Laws.{file_at}
use outpack_server.Metadata.Added.{add_packet-keeps}
use outpack_server.Prelude.{
  Bytes, List, Text, [], ap, arith, codes, false, inl, inr, leb, length, list_eq, nat_eq, refl,
  some, sym, true, ℕ, ◌++◌, ◌∙◌, ◌∷◌, ◌≡◌, ◌⊎◌,
}
use outpack_server.Responses.{from_hash_error}
use outpack_server.Result.{err, map_err, ok, panicked}
use outpack_server.Store.{file_path, files_dir}
use outpack_server.Store.Kept.{Held, IsAwayFrom, put_file-Held, remove_under-Held}
use outpack_server.Store.Put.{Upload, buffered, put_file, uploaded}
use outpack_server.Store.Receive.{Chunk, from_request, upload_path}
use outpack_server.Store.TempFiles.{
  NamesTemp, from_request-Held, from_request-path, temp-ne-outpack, upload-apart,
}

pub get-file-route : (t : Text) → route get (codes "file" ∷ t ∷ []) ≡ get_file_route t
unfolding route list_eq nat_eq
get-file-route t = refl

-- The text reads as a hash of three digits at least, so that its path does not end in a separator.
abbrev pub HasTwoParts : Text → Type 0
HasTwoParts t = (h : Hash) × (parse_hash t ≡ ok h) × (leb 3 (length h.value) ≡ true)

pub get_file_stored :
    (root : FilePath) (t : Text) (q : FilePath) (c : Bytes) (fs : Fs)
    → file_path root t ≡ ok q
    → file_at fs q ≡ some c
    → get_file root t fs ≡ ok (file_of t c)
unfolding get_file open_file
get_file_stored root t q c fs at held = rw at (ground arith)

module _ (host : Host) (root : FilePath) (temps : NamesTemp host.temp_name)
    (apart : FetchesApart host root) (t : Text) (q : FilePath) (at : file_path root t ≡ ok q)
    (c : Bytes) where
  drop_upload-Held :
      (upload : Upload) (fs : Fs)
      → IsAwayFrom upload q
      → Held q c fs
      → Held q c (drop_upload upload fs)
  unfolding drop_upload
  drop_upload-Held (buffered _) fs away h = h
  drop_upload-Held (uploaded p) fs away h = remove_under-Held q c p fs away h

  add_received-Held :
      (hash : Text) (r : IoResult Upload × Fs)
      → ((upload : Upload) → r.0 ≡ ok upload → IsAwayFrom upload q)
      → Held q c r.1
      → Held q c (add_received host root hash r).1
  unfolding add_file
  add_received-Held hash (ok upload, fs) away h =
      let (rest, named) = temps fs root in
      drop_upload-Held upload (put_file host.digest host.temp_name root upload hash fs).1
        (away upload refl)
        (put_file-Held q c host.digest host.temp_name root hash t upload fs at
          (λ e. temp-ne-outpack rest (sym named ∙ e)) (away upload refl) h)
  add_received-Held hash (err e, fs) away h = h
  add_received-Held hash (panicked, fs) away h = h

  -- The temporary file of the request.
  abbrev temp_path : Fs → FilePath
  temp_path fs = upload_path host.temp_name host.temp_dir (some (files_dir root)) fs

  pub temp_path-apart : (fs : Fs) → is_under (temp_path fs) q ≡ false
  temp_path-apart fs =
      let (rest, named) = temps fs (files_dir root) in
      ap (λ name. is_under (files_dir root ++ (name ∷ [])) q) named ∙ upload-apart root t q rest at

  receive_file-Held :
      (hash : Text) (stream : List Chunk) (fs : Fs)
      → Held q c fs
      → Held q c (receive_file host root hash stream fs).1
  unfolding receive_file
  receive_file-Held hash stream fs h =
      let files = some (files_dir root) in
      add_received-Held hash (from_request host.temp_name host.temp_dir files stream fs)
        (λ upload e.
          let same = from_request-path host.temp_name host.temp_dir files stream fs upload e in
          rw same (temp_path-apart fs))
        (from_request-Held host.temp_name host.temp_dir files stream fs q c (temp_path-apart fs) h)

  add_hashed-Held :
      (now : ℕ) (body : Bytes) (parsed : OutpackResult Hash) (fs : Fs)
      → Held q c fs
      → Held q c (add_hashed root host.json host.digest host.walk now body parsed fs).1
  add_hashed-Held now body (ok hash) fs h =
      add_packet-keeps host.json host.digest host.walk now root body hash fs q c h
  add_hashed-Held now body (err x) fs h = h
  add_hashed-Held now body panicked fs h = h

  post_body-Held :
      (now : ℕ) (name : Text) (body : Refusal ⊎ Bytes) (site : Site)
      → Held q c site.disk
      → Held q c (post_body host root name now body site).1.disk
  unfolding post_body post_packet
  post_body-Held now name (inl e) site h = h
  post_body-Held now name (inr body) site h =
      add_hashed-Held now body (map_err from_hash_error (parse_hash name)) site.disk h

  dispatch-Held :
      (r : Route) (request : Request) (site : Site)
      → Held q c site.disk
      → Held q c (dispatch host root r request site).1.disk
  unfolding dispatch
  dispatch-Held (add_file_route name) request site h =
      receive_file-Held name request.stream site.disk h
  dispatch-Held (add_packet_route name) request site h =
      post_body-Held request.time name request.packet site h
  dispatch-Held git_fetch_route request site h =
      apart site.disk q (file_path-below host root t q at) ∙ h
  dispatch-Held metrics_route request site h = h
  dispatch-Held r request site h = h

  pub Serves-Held :
      (Allowed : Request → Type 0) (start site : Site)
      → Serves host root Allowed start site
      → Held q c start.disk
      → Held q c site.disk
  unfolding handle
  Serves-Held Allowed start site opened h = h
  Serves-Held Allowed start _ (answered_one {site} request allowed before) h =
      dispatch-Held (route request.method request.names) request site
        (Serves-Held Allowed start site before h)

  -- Where the names of temporary files begin with `.tmp` and a fetch of git changes no file below
  -- `.outpack`: a file that is stored for a hash of three digits at least when the server starts is
  -- what it answers a request for that hash with, after any sequence of requests, if the text of
  -- the hash makes a value of a header.
  pub handle-stored :
      (Allowed : Request → Type 0) (start site : Site) (request : Request)
      → HasTwoParts t
      → host.is_header_value (content_disposition (file_of t c)) ≡ true
      → Serves host root Allowed start site
      → file_at start.disk q ≡ some c
      → request.method ≡ get
      → request.names ≡ codes "file" ∷ t ∷ []
      → (handle host root request site).0 ≡ file_reply (file_of t c)
  unfolding handle dispatch read_reply
  handle-stored Allowed start site request parts headed served h method names =
      let held = Serves-Held Allowed start site served h in
      let routed : route request.method request.names ≡ get_file_route t =
        rw (method, names) (get-file-route t) in
      let answer : OutpackResult OutpackFile → Reply = raw_of (file_answer host.is_header_value) in
      ap (λ r. (dispatch host root r request site).0) routed
      ∙ ap answer (get_file_stored root t q c site.disk at held)
      ∙ rw headed refl
