-- ===== src/Api/Posted.antt =====
-- src/api.rs, `add_file` and `get_file`: a file that is posted is served.

use outpack_server.Api.{OutpackResult, add_file, content_disposition, file_of}
use outpack_server.Api.Intact.{FetchesApart}
use outpack_server.Api.Kept.{HasTwoParts, handle-stored, temp_path-apart}
use outpack_server.Api.Routes.{add_file_route, get, post, route}
use outpack_server.Api.Serve.{
  Host, Reply, Request, Serves, Site, add_received, dispatch, drop_upload, file_reply, handle,
  json_of, nothing, receive_file, reply_status,
}
use outpack_server.Hash.{validate_hash_data}
use outpack_server.Io.FilePath.{FilePath, join, parent}
use outpack_server.Io.Fs.{Fs, IoResult, dir, is_under, node}
use outpack_server.Io.Laws.{file_at}
use outpack_server.Io.MadeDirs.{IsClear}
use outpack_server.Io.Moves.{apart_differs}
use outpack_server.Io.Names.{files-IsName}
use outpack_server.Locations.Read.{concat}
use outpack_server.Prelude.{
  ==_refl, Bytes, List, Text, [], ap, arith, codes, false, length, length-append, list_eq, map,
  nat_eq, none, refl, some, sym, true, ◌++◌, ◌∙◌, ◌∷◌, ◌≡◌, ◌≢◌,
}
use outpack_server.Responses.{from_io_error, into_response}
use outpack_server.Result.{map_err, map_err-eq-ok, ok}
use outpack_server.Store.{file_path, files_dir}
use outpack_server.Store.Elsewhere.{area_below}
use outpack_server.Store.Found.{is_under-apart}
use outpack_server.Store.Inserts.{insert_absent, put_upload-inserts}
use outpack_server.Store.Kept.{Held, remove_under-Held}
use outpack_server.Store.Put.{Upload, put_file, uploaded}
use outpack_server.Store.Receive.{bytes_of, from_request, upload_path}
use outpack_server.Store.Received.{from_request-node, from_request-whole}
use outpack_server.Store.Succeeds.{is_under-parent, put_upload-succeeds}
use outpack_server.Store.TempFiles.{NamesTemp, temp-ne-outpack}

post-file-route : (t : Text) → route post (codes "file" ∷ t ∷ []) ≡ add_file_route t
unfolding route list_eq nat_eq
post-file-route t = refl

module _ (host : Host) (root : FilePath) (temps : NamesTemp host.temp_name)
    (apart : FetchesApart host root) (t : Text) (q : FilePath) (at : file_path root t ≡ ok q) where
  abbrev temp_path : Fs → FilePath
  temp_path fs = upload_path host.temp_name host.temp_dir (some (files_dir root)) fs

  -- A temporary file of an upload is not in the temporary directory of `put_file`.
  temp_paths_apart :
      (fs fs' : Fs) (rest : FilePath)
      → is_under (temp_path fs) (root ++ (host.temp_name fs' root ∷ rest)) ≡ false
  temp_paths_apart fs fs' rest =
      let (tail, named) = temps fs' root in
      let name = host.temp_name fs (files_dir root) in
      let below = area_below root (codes "files") (name ∷ []) files-IsName in
      rw below (
        is_under-apart root (codes ".outpack") (host.temp_name fs' root) (codes "files" ∷ name ∷ [])
          rest (λ e. temp-ne-outpack tail (sym named ∙ sym e)))

  add_received-Held :
      (bytes : Bytes) (fs fs' : Fs)
      → file_at fs' (temp_path fs) ≡ some bytes
      → node fs' q ≡ none
      → (add_received host root t (ok (uploaded (temp_path fs)), fs')).0 ≡ ok tt
      → Held q bytes (add_received host root t (ok (uploaded (temp_path fs)), fs')).1
  unfolding add_file drop_upload
  add_received-Held bytes fs fs' there new e =
      let upload = uploaded (temp_path fs) in
      let (tail, named) = temps fs' root in
      let away = temp_path-apart host root temps apart t q at bytes fs in
      let put = put_file host.digest host.temp_name root upload t fs' in
      let inserted =
        put_upload-inserts host.digest host.temp_name root t q at upload bytes fs'
          (λ same. temp-ne-outpack tail (sym named ∙ same)) (λ e'. cc) (temp_paths_apart fs fs' [])
          (there, temp_paths_apart fs fs' (codes "data" ∷ [])) away
          (map_err-eq-ok from_io_error put.0 e) t q at away in
      remove_under-Held q bytes (temp_path fs) put.1 away
        (inserted ∙ rw (insert_absent, ==_refl q, file_at, new) refl)

  module _ (chunks : List Bytes) (request : Request) (site : Site)
      (there : node site.disk (files_dir root) ≡ some dir)
      (new : node site.disk (temp_path site.disk) ≡ none) (vacant : node site.disk q ≡ none)
      (method : request.method ≡ post) (names : request.names ≡ codes "file" ∷ t ∷ [])
      (stream : request.stream ≡ map bytes_of chunks) where
    -- The upload, with the disk after it, and what the handler makes of it.
    abbrev received_file : IoResult Upload × Fs
    received_file =
        from_request host.temp_name host.temp_dir (some (files_dir root)) (map bytes_of chunks)
          site.disk

    abbrev added : OutpackResult (Unit {0}) × Fs
    added = add_received host root t (ok (uploaded (temp_path site.disk)), received_file.1)

    handled :
        handle host root request site
        ≡ (json_of (λ _. nothing) added.0, record { disk = added.1; gauges = site.gauges })
    unfolding handle dispatch receive_file
    handled =
        let files = some (files_dir root) in
        let routed : route request.method request.names ≡ add_file_route t =
          rw (method, names) (post-file-route t) in
        let (uploads, _, _) =
          from_request-whole host.temp_name host.temp_dir files site.disk there new chunks in
        let whole : received_file ≡ (ok (uploaded (temp_path site.disk)), received_file.1) =
          ap (λ a. (a, received_file.1)) uploads in
        let answer : OutpackResult (Unit {0}) × Fs → Reply × Site =
          λ a. (json_of (λ _. nothing) a.0, record { disk = a.1; gauges = site.gauges }) in
        ap (λ a. dispatch host root a request site) routed
        ∙ ap (λ chunks'. answer (receive_file host root t chunks' site.disk)) stream
        ∙ ap (λ a. answer (add_received host root t a)) whole

    -- The disk after the upload has the chunks at the temporary path and is else as it was.
    uploaded_file : file_at received_file.1 (temp_path site.disk) ≡ some (concat chunks)
    uploaded_file =
        (from_request-whole host.temp_name host.temp_dir (some (files_dir root)) site.disk there new
          chunks).1

    else_same : (p : FilePath) → temp_path site.disk ≢ p → node received_file.1 p ≡ node site.disk p
    else_same p differs =
        from_request-node host.temp_name host.temp_dir (some (files_dir root)) site.disk there new
          chunks p differs

    temp_path-ne-target : is_under (temp_path site.disk) q ≡ false
    temp_path-ne-target = temp_path-apart host root temps apart t q at [] site.disk

    added-ok :
        node site.disk root ≡ some dir
        → node received_file.1
            (join (root ++ (host.temp_name received_file.1 root ∷ [])) (codes "data"))
          ≡ none
        → IsClear site.disk (parent q)
        → validate_hash_data host.digest (concat chunks) t ≡ ok tt
        → added.0 ≡ ok tt
    unfolding add_file
    added-ok root_there data_new clear valid =
        let fs = site.disk in
        let fs' = received_file.1 in
        let (tail, named) = temps fs' root in
        let name = host.temp_name fs (files_dir root) in
        let below = area_below root (codes "files") (name ∷ []) files-IsName in
        let not_root : temp_path fs ≢ root = λ e. absurd (
          omega (
            arith,
            ap length (sym below ∙ e),
            length-append root (codes ".outpack" ∷ codes "files" ∷ name ∷ []),
          )) in
        let still : IsClear fs' (parent q) = λ p under.
          rw (file_at, else_same p (λ e. cc (e, is_under-parent p q under, temp_path-ne-target)))
            (clear p under) in
        ap (map_err from_io_error) (
          put_upload-succeeds host.digest host.temp_name root t (uploaded (temp_path fs))
            (concat chunks) q fs' (else_same root not_root ∙ root_there)
            (λ same. temp-ne-outpack tail (sym named ∙ same)) data_new (temp_paths_apart fs fs' [])
            (uploaded_file, temp_paths_apart fs fs' (codes "data" ∷ [])) at still valid)

    -- Where the names of temporary files begin with `.tmp` and a fetch of git changes no file below
    -- `.outpack`: if the repository and the directory of its files are there, the name of the
    -- temporary file is new, the temporary directory has no data yet, nothing stands at the path of
    -- the hash, which has three digits at least, and no file on the way to it, and the text of the
    -- hash makes a value of a header, then a file that is posted in chunks, with the hash that it
    -- has, is answered with 200, and after any sequence of further requests a request for the hash
    -- is answered with the chunks, one after another, and their size.
    pub posted-served :
        (later : Request) (end : Site) (Allowed : Request → Type 0)
        → node site.disk root ≡ some dir
        → node received_file.1
            (join (root ++ (host.temp_name received_file.1 root ∷ [])) (codes "data"))
          ≡ none
        → IsClear site.disk (parent q)
        → validate_hash_data host.digest (concat chunks) t ≡ ok tt
        → HasTwoParts t
        → host.is_header_value (content_disposition (file_of t (concat chunks))) ≡ true
        → Serves host root Allowed (handle host root request site).1 end
        → later.method ≡ get
        → later.names ≡ codes "file" ∷ t ∷ []
        → (reply_status (handle host root request site).0 ≡ 200)
          × ((handle host root later end).0 ≡ file_reply (file_of t (concat chunks)))
    unfolding into_response
    posted-served later end Allowed root_there data_new clear valid parts headed served method'
          names' =
        let bytes = concat chunks in
        let good = added-ok root_there data_new clear valid in
        let empty =
          else_same q (apart_differs (temp_path site.disk) q temp_path-ne-target) ∙ vacant in
        let stored = add_received-Held bytes site.disk received_file.1 uploaded_file empty good in
        (
          ap (λ a. reply_status a.0) handled
              ∙ ap (λ a. reply_status (json_of (λ _. nothing) a)) good,
          handle-stored host root temps apart t q at bytes Allowed (handle host root request site).1
              end later parts headed served (ap (λ a. file_at a.1.disk q) handled ∙ stored) method'
              names',
        )
