-- ===== src/Api.antt =====
-- src/api.rs: the handlers of the server, its routes, and the check of a repository before it is
-- served. What a fetch of git does to the disk is left out.
pub mod Accepts
pub mod Routes
pub mod Preflight
pub mod Serve
pub mod Reads
pub mod Intact
pub mod Kept
pub mod Posted
pub mod Statuses
pub mod Start
pub mod Started
pub mod Layers
pub mod Recorded
use outpack_server.Float.{F64}
use outpack_server.Git.{BranchResponse, Git, git_fetch, git_list_branches}
use outpack_server.Hash.{Digest, Hash, parse_hash}
use outpack_server.Io.FilePath.{FilePath}
use outpack_server.Io.Fs.{
  Fs, Io, IoResult, dir, fail, file, is_a_directory, node, not_a_directory, not_found,
}
use outpack_server.Json.{Json}
use outpack_server.Locations.{LocationEntry}
use outpack_server.Locations.Read.{read_locations}
use outpack_server.Metadata.Add.{add_packet}
use outpack_server.Metadata.Ids.{get_ids_digest, get_missing_ids}
use outpack_server.Metadata.Read.{
  get_metadata_by_id, get_metadata_text, get_packit_metadata_from_date,
}
use outpack_server.Packet.{JsonValue, PackitPacket}
use outpack_server.Prelude.{
  Bool, Bytes, List, Option, Text, [], codes, false, if◌then◌else◌, length, none, some, true, ℕ,
  ◌++◌, ◌∷◌,
}
use outpack_server.Responses.{
  JsonRejection, OutpackError, from_git_error, from_hash_error, from_io_error, from_rejection,
}
use outpack_server.Result.{Result, and_then, err, map_err, ok, panicked}
use outpack_server.Store.{file_path, get_missing_files}
use outpack_server.Store.Put.{Upload, put_file}

-- The errors of an operation of the repository, as those of the server.
abbrev pub OutpackResult {ℓ} : Type ℓ → Type ℓ
OutpackResult A = Result OutpackError A

-- `.map_err(OutpackError::from)`
abbrev pub answered {ℓ} : {A : Type ℓ} → IoResult A → OutpackResult A
answered r = map_err from_io_error r

abbrev pub answered_io {ℓ} : {A : Type ℓ} → Io A → Fs → OutpackResult A × Fs
answered_io m fs = (answered (m fs).0, (m fs).1)

unfoldable pub index : OutpackResult Text
index = ok (codes "0.1.1")

unfoldable pub route_not_found : OutpackError
route_not_found = record {
  error = codes "NOT_FOUND";
  detail = codes "This route does not exist";
  kind = some not_found;
}

-- The body of a request for missing packets.
pub record Ids : Type 0 where
  pub ids : List Text
  pub unpacked : Bool

pub record Hashes : Type 0 where
  pub hashes : List Text

-- `impl From<JsonRejection>`, where the body is refused.
abbrev pub accepted {ℓ} : {A : Type ℓ} → Result JsonRejection A → OutpackResult A
accepted r = map_err from_rejection r

-- src/outpack_file.rs, `OutpackFile`: the hash, what the stream of the body gives, and the size. A
-- directory is opened too: its size is the system's, and reading it is what fails.
pub record OutpackFile : Type 0 where
  pub hash : Text
  pub contents : IoResult Bytes
  pub size : Option ℕ

-- A file whose contents can be read.
abbrev pub file_of : Text → Bytes → OutpackFile
file_of hash bytes = record { hash = hash; contents = ok bytes; size = some (length bytes) }

-- A file stands where the path needs a directory, at the first path or further along the names.
unfoldable pub is_blocked : Fs → FilePath → List Text → Bool
unfolding node
is_blocked fs p [] = false
is_blocked fs p (t ∷ ts) =
    let rest = is_blocked fs (p ++ (t ∷ [])) ts in
    elim (node fs p) [ some (file _) ↦ true | _ ↦ rest ]

-- `OutpackFile::open`: a missing file is reported by its hash, and any other error as it is.
unfoldable pub open_file : Fs → Text → FilePath → IoResult OutpackFile
unfolding node is_blocked
open_file fs hash path = elim (node fs path) [
  | none ↦
      if is_blocked fs [] path
      then fail not_a_directory (codes "Not a directory (os error 20)")
      else fail not_found (codes "hash '" ++ (hash ++ codes "' not found"))
  | some (file bytes) ↦ ok (file_of hash bytes)
  | some dir ↦ ok (record {
    hash = hash;
    contents = fail is_a_directory (codes "Is a directory (os error 21)");
    size = none;
  })
]

-- The header `Content-Disposition` of the answer.
abbrev pub content_disposition : OutpackFile → Text
content_disposition f = codes "attachment; filename=\"" ++ (f.hash ++ codes "\"")

module _ (root : FilePath) where
  unfoldable pub get_metadata_raw : Text → Fs → OutpackResult Text
  get_metadata_raw id fs = answered (get_metadata_text fs root id)

  unfoldable pub get_file : Text → Fs → OutpackResult OutpackFile
  unfolding open_file
  get_file hash fs = answered (and_then (file_path root hash) (open_file fs hash))

  unfoldable pub get_missing_packets :
      (List Text → List Text) → Result JsonRejection Ids → Fs → OutpackResult (List Text)
  get_missing_packets walk body fs =
      and_then (accepted body)
        λ wanted. answered (get_missing_ids walk fs root wanted.ids wanted.unpacked)

  unfoldable pub missing_files : Result JsonRejection Hashes → Fs → OutpackResult (List Text)
  missing_files body fs =
      and_then (accepted body) λ wanted. answered (get_missing_files fs root wanted.hashes)

  module _ (json : Json) where
    unfoldable pub list_location_metadata : Fs → OutpackResult (List LocationEntry)
    list_location_metadata fs = answered (read_locations json fs root)

    unfoldable pub get_metadata_since : Option F64 → Fs → OutpackResult (List PackitPacket)
    get_metadata_since known_since fs =
        answered (get_packit_metadata_from_date json fs root known_since)

    unfoldable pub metadata_by_id : Text → Fs → OutpackResult JsonValue
    metadata_by_id id fs = answered (get_metadata_by_id json fs root id)

    module _ (digest : Digest) where
      unfoldable pub get_checksum : Option Text → Fs → OutpackResult Text
      get_checksum alg fs = answered (get_ids_digest json digest fs root alg)

      -- Where the hash was parsed.
      abbrev pub add_hashed :
          (List Text → List Text)
          → ℕ
          → Bytes
          → OutpackResult Hash
          → Fs
          → OutpackResult (Unit {0}) × Fs
      add_hashed walk now body (ok h) fs =
          answered_io (add_packet json digest walk now root body h) fs
      add_hashed walk now body (err e) fs = (err e, fs)
      add_hashed walk now body panicked fs = (panicked, fs)

      unfoldable pub post_packet :
          (List Text → List Text) → ℕ → Text → Bytes → Fs → OutpackResult (Unit {0}) × Fs
      post_packet walk now hash body fs =
          add_hashed walk now body (map_err from_hash_error (parse_hash hash)) fs

  -- A join error of the blocking task is a panic of the handler.
  unfoldable pub add_file :
      Digest → (Fs → FilePath → Text) → Text → Upload → Fs → OutpackResult (Unit {0}) × Fs
  add_file digest temp_name hash upload fs =
      answered_io (put_file digest temp_name root upload hash) fs

  module _ (git : Git) where
    unfoldable pub fetch_remote : OutpackResult (Unit {0})
    fetch_remote = map_err from_git_error (git_fetch git root)

    unfoldable pub list_branches : OutpackResult BranchResponse
    list_branches = map_err from_git_error (git_list_branches git root)
