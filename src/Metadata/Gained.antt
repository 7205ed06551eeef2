-- ===== src/Metadata/Gained.antt =====
-- src/metadata.rs, `add_packet`: a packet whose id is the name of a file is written beside the
-- store.

use outpack_server.Hash.{Digest, Hash, hash_text, validate_hash_data}
use outpack_server.Io.FilePath.{FilePath, IsName, join}
use outpack_server.Io.Fs.{
  Fs, Io, IoResult, create, create_dir_all, exists, pure, reads, write, ◌>>=◌, ◌>>◌,
}
use outpack_server.Io.Laws.{>>=-Gains, create_dir_all-Gains}
use outpack_server.Io.Names.{local-IsName}
use outpack_server.Json.{Json}
use outpack_server.Locations.Known.{mark_packet_known, write_entry}
use outpack_server.Locations.Read.{location_dir}
use outpack_server.Metadata.Add.{
  add_packet, add_parsed_metadata, check_missing_dependencies, check_missing_files, write_new,
}
use outpack_server.Metadata.Read.{get_path}
use outpack_server.Packet.{Packet}
use outpack_server.Prelude.{Bytes, List, Text, codes, if◌then◌else◌, inl, ℕ, ◌≡◌}
use outpack_server.Result.{map_err, ok}
use outpack_server.Store.{hash_error_to_io_error}
use outpack_server.Store.Elsewhere.{Elsewhere, entry-Elsewhere, metadata-Elsewhere}
use outpack_server.Store.Gained.{GainsElsewhere, create-write-GainsElsewhere, unless-GainsElsewhere}
use outpack_server.Utils.{time_as_num}

module _ (json : Json) (root : FilePath) where
  -- The ids of the packet that a body reads as is the name of a file.
  abbrev pub IsNamed : Bytes → Type 0
  IsNamed bytes = (packet : Packet) → json.packet_of bytes ≡ ok packet → IsName packet.id

  mark_packet_known-GainsElsewhere :
      (id hash : Text) (now : ℕ) (fs : Fs)
      → IsName id
      → GainsElsewhere root fs (mark_packet_known json id (codes "local") hash now root fs).1
  unfolding mark_packet_known write_entry
  mark_packet_known-GainsElsewhere id hash now fs n =
      let location = join (location_dir root) (codes "local") in
      let path = join location id in
      let bytes = json.entry_to (record { packet = id; time = time_as_num now; hash = hash }) in
      let fs' = (create_dir_all location fs).1 in
      >>=-Gains
        (λ _. reads (λ fs''. ok (exists fs'' path)) >>= λ there.
          if there then pure tt else (create path >> write path bytes))
        fs (λ q _. Elsewhere root q) (create_dir_all location)
        (create_dir_all-Gains location fs (λ q _. Elsewhere root q))
        (λ _ _. unless-GainsElsewhere root (exists fs' path) (create path >> write path bytes) fs' (
          create-write-GainsElsewhere root path bytes fs'
            (entry-Elsewhere root (codes "local") id local-IsName n)))

  module _ (digest : Digest) where
    add_parsed_metadata-GainsElsewhere :
        (bytes : Bytes) (packet : Packet) (hash : Text) (fs : Fs)
        → IsName packet.id
        → GainsElsewhere root fs (add_parsed_metadata json digest root bytes packet hash fs).1
    unfolding add_parsed_metadata write_new
    add_parsed_metadata-GainsElsewhere bytes packet hash fs n =
        let path = get_path root packet.id in
        let valid : Fs → IoResult (Unit {0}) =
          λ _. map_err hash_error_to_io_error (validate_hash_data digest bytes hash) in
        >>=-Gains (λ _. write_new json digest path bytes) fs (λ q _. Elsewhere root q) (reads valid)
          (λ q c there. inl there)
          (λ _ _.
            unless-GainsElsewhere root (exists fs path) (create path >> write path bytes) fs (
              create-write-GainsElsewhere root path bytes fs (metadata-Elsewhere root packet.id n)))

    pub add_packet-GainsElsewhere :
        (walk : List Text → List Text) (now : ℕ) (bytes : Bytes) (hash : Hash) (fs : Fs)
        → IsNamed bytes
        → GainsElsewhere root fs (add_packet json digest walk now root bytes hash fs).1
    unfolding add_packet
    add_packet-GainsElsewhere walk now bytes hash fs named =
        let E : FilePath → Bytes → Type 0 = λ q _. Elsewhere root q in
        let add : Packet → Io (Unit {0}) =
          λ packet. add_parsed_metadata json digest root bytes packet (hash_text hash) in
        let mark : Packet → Io (Unit {0}) =
          λ packet. mark_packet_known json packet.id (codes "local") (hash_text hash) now root in
        let files : Packet → Io (Unit {0}) =
          λ packet. reads (λ fs'. check_missing_files fs' root packet) in
        let depends : Packet → Io (Unit {0}) =
          λ packet. reads (λ fs'. check_missing_dependencies walk fs' root packet) in
        >>=-Gains (λ packet. files packet >> (depends packet >> (add packet >> mark packet))) fs E
          (reads (λ _. json.packet_of bytes)) (λ q c there. inl there)
          (λ packet read.
            let n = named packet read in
            >>=-Gains (λ _. depends packet >> (add packet >> mark packet)) fs E (files packet)
              (λ q c there. inl there)
              (λ _ _.
                >>=-Gains (λ _. add packet >> mark packet) fs E (depends packet)
                  (λ q c there. inl there)
                  (λ _ _.
                    >>=-Gains (λ _. mark packet) fs E (add packet)
                      (add_parsed_metadata-GainsElsewhere bytes packet (hash_text hash) fs n)
                      (λ _ _.
                        mark_packet_known-GainsElsewhere packet.id (hash_text hash) now
                          (add packet fs).1 n))))
