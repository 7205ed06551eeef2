-- ===== src/Api/Serve.antt =====
-- src/api.rs, `api` and `serve`: a request goes through the routes to its handler, and the
-- handler's result becomes the answer. What axum reads of a request for the extractors is given
-- with it.

use outpack_server.Api.{
  Hashes, Ids, OutpackFile, OutpackResult, add_file, content_disposition, fetch_remote,
  get_checksum, get_file, get_metadata_raw, get_metadata_since, get_missing_packets, index,
  list_branches, list_location_metadata, metadata_by_id, missing_files, post_packet,
  route_not_found,
}
use outpack_server.Api.Routes.{
  Method, Route, add_file_route, add_packet_route, checksum_route, get_file_route,
  git_branches_route, git_fetch_route, index_route, list_location_route, metadata_by_id_route,
  metadata_raw_route, metadata_since_route, method_not_allowed, metrics_route, missing_files_route,
  missing_packets_route, route,
}
use outpack_server.Float.{F64}
use outpack_server.Git.{BranchResponse, Git}
use outpack_server.Hash.{Digest}
use outpack_server.Io.FilePath.{FilePath}
use outpack_server.Io.Fs.{Fs, IoResult, remove_under}
use outpack_server.Json.{Json}
use outpack_server.Locations.{LocationEntry}
use outpack_server.Metrics.{RepositoryMetrics, collect_metrics}
use outpack_server.Packet.{JsonValue, PackitPacket}
use outpack_server.Prelude.{Bool, Bytes, List, Option, Text, if◌then◌else◌, inl, inr, some, ℕ, ◌⊎◌}
use outpack_server.Responses.{
  JsonRejection, Response, error_response, from_io_error, internal_error, into_response,
  status_code,
}
use outpack_server.Result.{Result, err, map_ok, ok, panicked}
use outpack_server.Store.{files_dir}
use outpack_server.Store.Put.{Upload, buffered, uploaded}
use outpack_server.Store.Receive.{Chunk, from_request}

-- The crate axum's refusal of a request that an extractor cannot read.
pub record Refusal : Type 0 where
  pub status : ℕ
  pub message : Text

-- A request: its method, the names of its path, what axum reads of its query and its body for each
-- handler, and the time at which it is handled.
pub record Request : Type 0 where
  pub method : Method
  pub names : List Text
  pub known_since : Refusal ⊎ Option F64
  pub alg : Refusal ⊎ Option Text
  pub wanted_ids : Result JsonRejection Ids
  pub wanted_hashes : Result JsonRejection Hashes
  pub packet : Refusal ⊎ Bytes
  pub stream : List Chunk
  pub time : ℕ

-- What a handler answers with.
pub data Payload : Type 0 where
  schema_version checksum : Text → Payload
  locations : List LocationEntry → Payload
  packets : List PackitPacket → Payload
  metadata : JsonValue → Payload
  missing : List Text → Payload
  git_branches : BranchResponse → Payload
  nothing : Payload

pub data Reply : Type 0 where
  json_reply : Response Payload → Reply
  text_reply : Text → Reply
  file_reply : OutpackFile → Reply
  metrics_reply : List (Text × ℕ) → Reply
  refused : Refusal → Reply
  wrong_method : Reply

-- axum answers a path with no handler for the method by 405.
abbrev pub reply_status : Reply → ℕ
reply_status (json_reply r) = status_code r
reply_status (text_reply _) = 200
reply_status (file_reply _) = 200
reply_status (metrics_reply _) = 200
reply_status (refused r) = r.status
reply_status wrong_method = 405

-- `into_response`, of a result with a payload and of a result that is a body of its own.
abbrev pub json_of {ℓ} : {A : Type ℓ} → (A → Payload) → OutpackResult A → Reply
json_of f r = json_reply (into_response (map_ok f r))

abbrev pub raw_of {ℓ} : {A : Type ℓ} → (A → Reply) → OutpackResult A → Reply
raw_of f (ok a) = f a
raw_of f (err e) = json_reply (error_response e)
raw_of f panicked = json_reply (error_response internal_error)

-- The answer of `get_file`: `OutpackFile::into_response` panics where the hash, as the request
-- gives it, makes no value of a header.
abbrev pub file_answer : (Text → Bool) → OutpackFile → Reply
file_answer is_header_value f =
    if is_header_value (content_disposition f)
    then file_reply f
    else json_reply (error_response internal_error)

-- The handler runs where the extractor reads its part of the request.
abbrev pub extracted {ℓ} : {A : Type ℓ} → (A → Reply) → Refusal ⊎ A → Reply
extracted f (inl e) = refused e
extracted f (inr a) = f a

-- The disk, and the gauges of the repository.
pub record Site : Type 0 where
  pub disk : Fs
  pub gauges : RepositoryMetrics

-- What is not part of the program: the crates serde_json, the digests, the order of a set, the
-- crates tempfile and git2, what a fetch of git does to the disk, and which texts are values of a
-- header, by the crate http.
pub record Host : Type 1 where
  pub json : Json
  pub digest : Digest
  pub walk : List Text → List Text
  pub temp_name : Fs → FilePath → Text
  pub temp_dir : FilePath
  pub git : Git
  pub fetched : FilePath → Fs → Fs
  pub is_header_value : Text → Bool

-- A temporary file that was not moved away is removed where the upload is dropped.
unfoldable pub drop_upload : Upload → Fs → Fs
drop_upload (buffered _) fs = fs
drop_upload (uploaded path) fs = remove_under path fs

module _ (host : Host) (root : FilePath) where
  -- The handler of an upload that was received, which drops it, or the extractor's error.
  abbrev pub add_received : Text → IoResult Upload × Fs → OutpackResult (Unit {0}) × Fs
  add_received hash (ok upload, fs) =
      let (r, fs') = add_file root host.digest host.temp_name hash upload fs in
      (r, drop_upload upload fs')
  add_received hash (err e, fs) = (err (from_io_error e), fs)
  add_received hash (panicked, fs) = (panicked, fs)

  -- The extractor `Upload`, configured by `UploadLayer`, and the handler.
  unfoldable pub receive_file : Text → List Chunk → Fs → OutpackResult (Unit {0}) × Fs
  unfolding from_request add_file drop_upload
  receive_file hash stream fs =
      add_received hash
        (from_request host.temp_name host.temp_dir (some (files_dir root)) stream fs)

  -- The routes that only read.
  unfoldable pub read_reply : Route → Request → Fs → Reply
  read_reply index_route request fs = json_of schema_version index
  read_reply list_location_route request fs =
      json_of locations (list_location_metadata root host.json fs)
  read_reply checksum_route request fs =
      extracted (λ alg. json_of checksum (get_checksum root host.json host.digest alg fs))
        request.alg
  read_reply missing_packets_route request fs =
      json_of missing (get_missing_packets root host.walk request.wanted_ids fs)
  read_reply missing_files_route request fs =
      json_of missing (missing_files root request.wanted_hashes fs)
  read_reply metadata_since_route request fs =
      extracted (λ since. json_of packets (get_metadata_since root host.json since fs))
        request.known_since
  read_reply git_branches_route request fs = json_of git_branches (list_branches root host.git)
  read_reply (metadata_by_id_route name) request fs =
      json_of metadata (metadata_by_id root host.json name fs)
  read_reply (metadata_raw_route name) request fs =
      raw_of text_reply (get_metadata_raw root name fs)
  read_reply (get_file_route name) request fs =
      raw_of (file_answer host.is_header_value) (get_file root name fs)
  read_reply method_not_allowed request fs = wrong_method
  read_reply _ request fs = json_reply (error_response route_not_found)

  -- The extractor `String` and the handler.
  unfoldable pub post_body : Text → ℕ → Refusal ⊎ Bytes → Site → Reply × Site
  post_body name time (inl e) site = (refused e, site)
  post_body name time (inr body) site =
      let (r, fs) = post_packet root host.json host.digest host.walk time name body site.disk in
      (json_of (λ _. nothing) r, record { disk = fs; gauges = site.gauges })

  -- The routes that may change the disk or the gauges.
  unfoldable pub dispatch : Route → Request → Site → Reply × Site
  unfolding receive_file read_reply post_body
  dispatch (add_file_route name) request site =
      let (r, fs) = receive_file name request.stream site.disk in
      (json_of (λ _. nothing) r, record { disk = fs; gauges = site.gauges })
  dispatch (add_packet_route name) request site = post_body name request.time request.packet site
  dispatch git_fetch_route request site = (
    json_of (λ _. nothing) (fetch_remote root host.git),
    record { disk = host.fetched root site.disk; gauges = site.gauges },
  )
  dispatch metrics_route request site =
      let (families, gauges) = collect_metrics site.disk root site.gauges in
      (metrics_reply families, record { disk = site.disk; gauges = gauges })
  dispatch r request site = (read_reply r request site.disk, site)

  unfoldable pub handle : Request → Site → Reply × Site
  unfolding dispatch route
  handle request site = dispatch (route request.method request.names) request site

  -- The sites that a server reaches from one as it answers requests of a kind, one after another.
  pub data Serves (Allowed : Request → Type 0) (start : Site) : Site → Type 0 where
    opened : Serves Allowed start start
    answered_one :
        {site : Site} (request : Request)
        → Allowed request
        → Serves Allowed start site
        → Serves Allowed start (handle request site).1
