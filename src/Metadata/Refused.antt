-- ===== src/Metadata/Refused.antt =====
-- src/metadata.rs, `add_packet`: what is refused.
use outpack_server.Hash.{Digest, Hash, hash_text}
use outpack_server.Io.Binds.{reads-fails, reads-passes}
use outpack_server.Io.FilePath.{FilePath}
use outpack_server.Io.Fs.{Fs, Io, IoError, IoResult, reads, ◌>>◌}
use outpack_server.Json.{Json}
use outpack_server.Locations.Known.{mark_packet_known}
use outpack_server.Metadata.Add.{
  add_packet, add_parsed_metadata, check_missing_dependencies, check_missing_files, none_missing,
}
use outpack_server.Metadata.Ids.{get_missing_ids}
use outpack_server.Packet.{Packet, PacketDependency, PacketFile}
use outpack_server.Prelude.{
  Bytes, List, Text, [], ap, codes, false, inl, inr, map, refl, true, ℕ, ◌∙◌, ◌∷◌, ◌≡◌, ◌⊎◌,
}
use outpack_server.Result.{err, is_ok, ok}
use outpack_server.Store.{get_missing_files}

module _ (json : Json) (digest : Digest) (walk : List Text → List Text) (now : ℕ) (root : FilePath)
    (bytes : Bytes) (hash : Hash) (fs : Fs) (packet : Packet) where
  -- Files or dependencies of the packet that the repository lacks.
  abbrev pub LacksFile : Text → List Text → Type 0
  LacksFile t ts =
      get_missing_files fs root (map (λ (f : PacketFile). f.hash) packet.files) ≡ ok (t ∷ ts)

  abbrev pub LacksDependency : Text → List Text → Type 0
  LacksDependency t ts =
      (get_missing_files fs root (map (λ (f : PacketFile). f.hash) packet.files) ≡ ok [])
      × (get_missing_ids walk fs root (map (λ (d : PacketDependency). d.packet) packet.depends) true
          ≡ ok (t ∷ ts))

  abbrev files : Fs → IoResult (Unit {0})
  files fs' = check_missing_files fs' root packet

  abbrev dependencies : Fs → IoResult (Unit {0})
  dependencies fs' = check_missing_dependencies walk fs' root packet

  -- What is done once all is there.
  abbrev accept : Io (Unit {0})
  accept =
      add_parsed_metadata json digest root bytes packet (hash_text hash)
      >> mark_packet_known json packet.id (codes "local") (hash_text hash) now root

  checks-missing :
      (t : Text) (ts : List Text)
      → LacksFile t ts ⊎ LacksDependency t ts
      → (x : IoError) × ((reads files >> (reads dependencies >> accept)) fs ≡ (err x, fs))
  unfolding check_missing_files check_missing_dependencies
  checks-missing t ts (inl m) =
      let e : files fs ≡ none_missing packet.id (codes "files") (t ∷ ts) = rw m refl in
      (_, reads-fails files (reads dependencies >> accept) fs e)
  checks-missing t ts (inr (m, d)) =
      let e : dependencies fs ≡ none_missing packet.id (codes "dependencies") (t ∷ ts) =
        rw d refl in
      (
        _,
        reads-passes files (reads dependencies >> accept) fs (rw m refl)
            ∙ reads-fails dependencies accept fs e,
      )

  -- Where a file of the packet is missing from the store, or its files are there and a packet that
  -- it depends on is not unpacked, `add_packet` fails and leaves the disk as it was.
  pub add_packet-missing :
      (t : Text) (ts : List Text)
      → json.packet_of bytes ≡ ok packet
      → LacksFile t ts ⊎ LacksDependency t ts
      → (is_ok (add_packet json digest walk now root bytes hash fs).0 ≡ false)
        × ((add_packet json digest walk now root bytes hash fs).1 ≡ fs)
  unfolding add_packet
  add_packet-missing t ts e lacks =
      let (x, refused) = checks-missing t ts lacks in
      (rw e (ap (λ r. is_ok r.0) refused), rw e (ap (λ r. r.1) refused))
