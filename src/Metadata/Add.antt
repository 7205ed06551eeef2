-- ===== src/Metadata/Add.antt =====
-- src/metadata.rs: metadata added to the repository.
use outpack_server.Hash.{Digest, Hash, hash_text, validate_hash_data}
use outpack_server.Io.FilePath.{FilePath}
use outpack_server.Io.Fs.{
  Fs, Io, IoResult, create, exists, fail, invalid_input, pure, reads, write, ◌>>=◌, ◌>>◌,
}
use outpack_server.Json.{Json}
use outpack_server.Locations.Known.{mark_packet_known}
use outpack_server.Metadata.Ids.{get_missing_ids}
use outpack_server.Metadata.Read.{get_path}
use outpack_server.Packet.{Packet, PacketDependency, PacketFile}
use outpack_server.Prelude.{
  Bytes, List, Text, [], codes, if◌then◌else◌, join_text, map, true, ℕ, ◌++◌, ◌∷◌,
}
use outpack_server.Result.{and_then, map_err, ok}
use outpack_server.Store.{get_missing_files, hash_error_to_io_error}

-- An error if the list is not empty.
abbrev pub none_missing : Text → Text → List Text → IoResult (Unit {0})
none_missing id what [] = ok tt
none_missing id what (t ∷ ts) = fail invalid_input (
    codes "Can't import metadata for "
    ++ (id
        ++ (codes ", as " ++ (what ++ (codes " missing: \n " ++ join_text (codes ",") (t ∷ ts))))))

unfoldable pub check_missing_files : Fs → FilePath → Packet → IoResult (Unit {0})
check_missing_files fs root packet =
    and_then (get_missing_files fs root (map (λ (f : PacketFile). f.hash) packet.files))
      (none_missing packet.id (codes "files"))

unfoldable pub check_missing_dependencies :
    (List Text → List Text) → Fs → FilePath → Packet → IoResult (Unit {0})
check_missing_dependencies walk fs root packet =
    and_then
      (get_missing_ids walk fs root (map (λ (d : PacketDependency). d.packet) packet.depends) true)
      (none_missing packet.id (codes "dependencies"))

module _ (json : Json) (digest : Digest) where
  -- The file is written only where none is there.
  unfoldable pub write_new : FilePath → Bytes → Io (Unit {0})
  write_new path bytes = do
    there ← reads (λ fs. ok (exists fs path))
    if there then pure tt else do create path; write path bytes

  unfoldable pub add_parsed_metadata : FilePath → Bytes → Packet → Text → Io (Unit {0})
  unfolding write_new get_path
  add_parsed_metadata root bytes packet hash = do
    reads (λ _. map_err hash_error_to_io_error (validate_hash_data digest bytes hash))
    write_new (get_path root packet.id) bytes

  -- `now` is the time at which the packet is marked.
  unfoldable pub add_packet : (List Text → List Text) → ℕ → FilePath → Bytes → Hash → Io (Unit {0})
  unfolding check_missing_files check_missing_dependencies add_parsed_metadata mark_packet_known
  add_packet walk now root bytes hash = do
    packet ← reads (λ _. json.packet_of bytes)
    reads (λ fs. check_missing_files fs root packet)
    reads (λ fs. check_missing_dependencies walk fs root packet)
    add_parsed_metadata root bytes packet (hash_text hash)
    mark_packet_known json packet.id (codes "local") (hash_text hash) now root
