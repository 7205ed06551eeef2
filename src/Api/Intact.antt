-- ===== src/Api/Intact.antt =====
-- src/api.rs: the store stays intact while the server runs.

use outpack_server.Api.{OutpackResult, add_file, add_hashed, post_packet}
use outpack_server.Api.Routes.{
  Route, add_file_route, add_packet_route, git_fetch_route, metrics_route, route,
}
use outpack_server.Api.Serve.{
  Host, Refusal, Request, Serves, Site, add_received, answered_one, dispatch, drop_upload, handle,
  opened, post_body, receive_file,
}
use outpack_server.Hash.{Hash, parse_hash}
use outpack_server.Io.FilePath.{FilePath}
use outpack_server.Io.Fs.{Fs, IoResult, is_under, remove_under}
use outpack_server.Io.Laws.{file_at, is_under-append, remove_under-Gains}
use outpack_server.Metadata.Add.{add_packet}
use outpack_server.Metadata.Gained.{IsNamed, add_packet-GainsElsewhere}
use outpack_server.Prelude.{
  Bytes, List, Text, [], append_assoc, codes, inl, inr, refl, some, sym, true, ℕ, ◌++◌, ◌∙◌, ◌∷◌,
  ◌≡◌, ◌⊎◌,
}
use outpack_server.Responses.{from_hash_error}
use outpack_server.Result.{err, map_err, ok, panicked}
use outpack_server.Store.{file_path, files_dir}
use outpack_server.Store.Elsewhere.{Elsewhere}
use outpack_server.Store.Found.{file_path-within}
use outpack_server.Store.Gained.{GainsElsewhere-IsIntact, from_request-GainsElsewhere}
use outpack_server.Store.Intact.{IsIntact, put_file-IsIntact}
use outpack_server.Store.Paths.{hash_names}
use outpack_server.Store.Put.{Upload, buffered, put_file, uploaded}
use outpack_server.Store.Receive.{Chunk, from_request}

module _ (host : Host) (root : FilePath) where
  abbrev Intact : Fs → Type 0
  Intact fs = IsIntact host.digest root fs

  -- A fetch of git changes no file below `.outpack`.
  abbrev pub FetchesApart : Type 0
  FetchesApart =
      (fs : Fs) (q : FilePath)
      → is_under (root ++ (codes ".outpack" ∷ [])) q ≡ true
      → file_at (host.fetched root fs) q ≡ file_at fs q

  -- A packet that the request posts has an id that is the name of a file.
  abbrev pub NamesPacket : Request → Type 0
  NamesPacket request = (body : Bytes) → request.packet ≡ inr body → IsNamed host.json root body

  drop_upload-IsIntact : (upload : Upload) (fs : Fs) → Intact fs → Intact (drop_upload upload fs)
  unfolding drop_upload
  drop_upload-IsIntact (buffered _) fs h = h
  drop_upload-IsIntact (uploaded path) fs h =
      GainsElsewhere-IsIntact root host.digest fs (remove_under path fs)
        (remove_under-Gains path fs (λ q _. Elsewhere root q)) h

  add_received-IsIntact :
      (hash : Text) (r : IoResult Upload × Fs)
      → Intact r.1
      → Intact (add_received host root hash r).1
  unfolding add_file
  add_received-IsIntact hash (ok upload, fs) h =
      drop_upload-IsIntact upload (put_file host.digest host.temp_name root upload hash fs).1
        (put_file-IsIntact host.digest root host.temp_name upload hash fs h)
  add_received-IsIntact hash (err e, fs) h = h
  add_received-IsIntact hash (panicked, fs) h = h

  receive_file-IsIntact :
      (hash : Text) (stream : List Chunk) (fs : Fs)
      → Intact fs
      → Intact (receive_file host root hash stream fs).1
  unfolding receive_file
  receive_file-IsIntact hash stream fs h =
      let r = from_request host.temp_name host.temp_dir (some (files_dir root)) stream fs in
      add_received-IsIntact hash r (
        GainsElsewhere-IsIntact root host.digest fs r.1
          (from_request-GainsElsewhere root host.temp_name host.temp_dir stream fs) h)

  add_hashed-IsIntact :
      (now : ℕ) (body : Bytes) (parsed : OutpackResult Hash) (fs : Fs)
      → IsNamed host.json root body
      → Intact fs
      → Intact (add_hashed root host.json host.digest host.walk now body parsed fs).1
  add_hashed-IsIntact now body (ok hash) fs named h =
      GainsElsewhere-IsIntact root host.digest fs
        (add_packet host.json host.digest host.walk now root body hash fs).1
        (add_packet-GainsElsewhere host.json root host.digest host.walk now body hash fs named) h
  add_hashed-IsIntact now body (err x) fs named h = h
  add_hashed-IsIntact now body panicked fs named h = h

  post_body-IsIntact :
      (now : ℕ) (name : Text) (body : Refusal ⊎ Bytes) (site : Site)
      → ((bytes : Bytes) → body ≡ inr bytes → IsNamed host.json root bytes)
      → Intact site.disk
      → Intact (post_body host root name now body site).1.disk
  unfolding post_body post_packet
  post_body-IsIntact now name (inl e) site named h = h
  post_body-IsIntact now name (inr body) site named h =
      add_hashed-IsIntact now body (map_err from_hash_error (parse_hash name)) site.disk
        (named body refl) h

  -- A path of a hash is below `.outpack`.
  pub file_path-below :
      (s : Text) (p : FilePath)
      → file_path root s ≡ ok p
      → is_under (root ++ (codes ".outpack" ∷ [])) p ≡ true
  file_path-below s p e =
      let (h, within) = file_path-within root s p e in
      let rest = codes "files" ∷ hash_names h in
      rw (within, ← append_assoc root (codes ".outpack" ∷ []) rest)
        (is_under-append (root ++ (codes ".outpack" ∷ [])) rest)

  fetched-IsIntact : (fs : Fs) → FetchesApart → Intact fs → Intact (host.fetched root fs)
  fetched-IsIntact fs apart intact h s p c read path there =
      intact h s p c read path (sym (apart fs p (file_path-below s p path)) ∙ there)

  dispatch-IsIntact :
      (r : Route) (request : Request) (site : Site)
      → FetchesApart
      → NamesPacket request
      → Intact site.disk
      → Intact (dispatch host root r request site).1.disk
  unfolding dispatch
  dispatch-IsIntact (add_file_route name) request site apart named h =
      receive_file-IsIntact name request.stream site.disk h
  dispatch-IsIntact (add_packet_route name) request site apart named h =
      post_body-IsIntact request.time name request.packet site named h
  dispatch-IsIntact git_fetch_route request site apart named h = fetched-IsIntact site.disk apart h
  dispatch-IsIntact metrics_route request site apart named h = h
  dispatch-IsIntact r request site apart named h = h

  -- Where a fetch of git changes no file below `.outpack`, and every packet that is posted has an
  -- id that is the name of a file: if each file at the path of a hash has that hash when the server
  -- starts, each has it after any sequence of requests.
  pub Serves-IsIntact :
      (start site : Site)
      → FetchesApart
      → Serves host root NamesPacket start site
      → Intact start.disk
      → Intact site.disk
  unfolding handle
  Serves-IsIntact start site apart opened h = h
  Serves-IsIntact start _ apart (answered_one {site} request named before) h =
      dispatch-IsIntact (route request.method request.names) request site apart named
        (Serves-IsIntact start site apart before h)
