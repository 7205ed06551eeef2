-- ===== src/Metadata/Read.antt =====
-- src/metadata.rs: metadata read from the repository. The crate cached keeps packets that were
-- read; here each is read from its file.
use outpack_server.Config.File.{outpack_dir}
use outpack_server.Float.{F64, lt_of, partial_cmp}
use outpack_server.Io.FilePath.{FilePath, join}
use outpack_server.Io.Fs.{Fs, IoResult, exists, fail, invalid_data, not_found, read_dir, read_file}
use outpack_server.Json.{Json}
use outpack_server.Locations.{LocationEntry}
use outpack_server.Locations.Read.{read_locations}
use outpack_server.Packet.{JsonValue, Packet, PackitPacket, packit_of}
use outpack_server.Prelude.{
  Bool, List, Option, Text, [], codes, false, find, if◌then◌else◌, is_utf8, keep, list_eq, map,
  nat_eq, none, some, sort_by, text_le, ◌++◌, ◌==◌, ◌∷◌,
}
use outpack_server.Result.{collect, map_ok, ok, ◌>>=◌}
use outpack_server.Utils.{is_packet}

-- `root.join(".outpack").join("metadata")`
abbrev pub metadata_dir : FilePath → FilePath
metadata_dir root = join (outpack_dir root) (codes "metadata")

unfoldable pub get_path : FilePath → Text → FilePath
get_path root id = join (metadata_dir root) id

unfoldable pub get_metadata_file : Fs → FilePath → Text → IoResult FilePath
unfolding get_path
get_metadata_file fs root id =
    if exists fs (get_path root id)
    then ok (get_path root id)
    else fail not_found (codes "packet with id '" ++ (id ++ codes "' does not exist"))

unfoldable pub get_metadata_text : Fs → FilePath → Text → IoResult Text
unfolding get_metadata_file
get_metadata_text fs root id = do
  path ← get_metadata_file fs root id
  bytes ← read_file fs path
  if is_utf8 bytes then ok bytes else fail invalid_data (codes "stream did not contain valid UTF-8")

abbrev pub by_id : Packet → Packet → Bool
by_id a b = text_le a.id b.id

-- Whether the first entry of the packet, in the order of the locations, is later than the time.
abbrev pub known_after : List LocationEntry → F64 → Text → Bool
known_after location_meta time name =
    elim (find (λ (e : LocationEntry). e.packet == name) location_meta) [
      | none ↦ false
      | some e ↦ lt_of (partial_cmp time e.time)
    ]

module _ (json : Json) where
  unfoldable pub get_metadata_by_id : Fs → FilePath → Text → IoResult JsonValue
  unfolding get_metadata_file
  get_metadata_by_id fs root id = do
    path ← get_metadata_file fs root id
    bytes ← read_file fs path
    json.value_of bytes

  unfoldable pub read_metadata : Fs → FilePath → IoResult Packet
  read_metadata fs path = do bytes ← read_file fs path; json.packet_of bytes

  -- The names of the packets asked for.
  unfoldable pub names_since : Fs → FilePath → Option F64 → List Text → IoResult (List Text)
  names_since fs root none names = ok (keep is_packet names)
  names_since fs root (some time) names = do
    location_meta ← read_locations json fs root
    ok (keep (known_after location_meta time) (keep is_packet names))

  unfoldable pub get_metadata_from_date : Fs → FilePath → Option F64 → IoResult (List Packet)
  unfolding names_since read_metadata collect sort_by
  get_metadata_from_date fs root from = do
    names ← read_dir fs (metadata_dir root)
    wanted ← names_since fs root from names
    packets ← collect (λ name. read_metadata fs (metadata_dir root ++ (name ∷ []))) wanted
    ok (sort_by by_id packets)

  unfoldable pub get_packit_metadata_from_date :
      Fs → FilePath → Option F64 → IoResult (List PackitPacket)
  unfolding packit_of
  get_packit_metadata_from_date fs root from =
      map_ok (map packit_of) (get_metadata_from_date fs root from)
