-- ===== src/Metadata/Added.antt =====
-- src/metadata.rs, `add_packet`: metadata that is added is read back, and no file is changed.
use outpack_server.Hash.{Digest, Hash, hash_text, validate_hash_data}
use outpack_server.Io.Binds.{>>=-after, >>=-run-eq-ok}
use outpack_server.Io.FilePath.{FilePath}
use outpack_server.Io.Fs.{Fs, Io, IoResult, create, exists, pure, reads, write, ◌>>◌}
use outpack_server.Io.Laws.{file_at, read_file_of}
use outpack_server.Io.Writes.{create-write-file_at, create-write-keeps, file_at-exists}
use outpack_server.Json.{Json}
use outpack_server.Locations.Known.{mark_packet_known}
use outpack_server.Locations.Marked.{mark_packet_known-keeps}
use outpack_server.Metadata.Add.{
  add_packet, add_parsed_metadata, check_missing_dependencies, check_missing_files, write_new,
}
use outpack_server.Metadata.Read.{get_metadata_file, get_metadata_text, get_path}
use outpack_server.Packet.{Packet}
use outpack_server.Prelude.{
  Bool, Bytes, List, Text, ap, codes, false, if◌then◌else◌, is_utf8, refl, some, sym, true, ℕ, ◌∙◌,
  ◌≡◌,
}
use outpack_server.Result.{map_err, ok}
use outpack_server.Store.{hash_error_to_io_error}

module _ (path : FilePath) (bytes : Bytes) where
  -- The second half of `write_new`.
  abbrev unless_there : Bool → Io (Unit {0})
  unless_there there = if there then pure tt else (create path >> write path bytes)

  unless_there-keeps :
      (there : Bool) (fs : Fs) (q : FilePath) (c : Bytes)
      → exists fs path ≡ there
      → file_at fs q ≡ some c
      → file_at (unless_there there fs).1 q ≡ some c
  unless_there-keeps true fs q c e h = h
  unless_there-keeps false fs q c e h = create-write-keeps path bytes fs q c e h

module _ (json : Json) (digest : Digest) (root : FilePath) (bytes : Bytes) (packet : Packet)
    (hash : Text) where
  abbrev path : FilePath
  path = get_path root packet.id

  abbrev valid : Fs → IoResult (Unit {0})
  valid fs = map_err hash_error_to_io_error (validate_hash_data digest bytes hash)

  add_parsed_metadata-keeps :
      (fs : Fs) (q : FilePath) (c : Bytes)
      → file_at fs q ≡ some c
      → file_at (add_parsed_metadata json digest root bytes packet hash fs).1 q ≡ some c
  unfolding add_parsed_metadata write_new
  add_parsed_metadata-keeps fs q c h =
      >>=-after (λ _. write_new json digest path bytes) (λ fs'. file_at fs' q ≡ some c)
        (reads valid) fs h (λ _ _. unless_there-keeps path bytes (exists fs path) fs q c refl h)

  add_parsed_metadata-file_at :
      (fs : Fs)
      → exists fs path ≡ false
      → (add_parsed_metadata json digest root bytes packet hash fs).0 ≡ ok tt
      → file_at (add_parsed_metadata json digest root bytes packet hash fs).1 path ≡ some bytes
  unfolding add_parsed_metadata write_new
  add_parsed_metadata-file_at fs absent e =
      let (_, _, written, same) =
        >>=-run-eq-ok (λ _. write_new json digest path bytes) (reads valid) fs e in
      let run = ap (λ there. unless_there path bytes there fs) absent in
      ap (λ fs'. file_at fs' path) (same ∙ ap (λ r. r.1) run)
      ∙ create-write-file_at path bytes fs (sym (ap (λ r. r.0) run) ∙ written)

module _ (json : Json) (digest : Digest) (walk : List Text → List Text) (now : ℕ) (root : FilePath)
    (bytes : Bytes) (hash : Hash) where
  abbrev accept : Packet → Io (Unit {0})
  accept packet =
      add_parsed_metadata json digest root bytes packet (hash_text hash)
      >> mark_packet_known json packet.id (codes "local") (hash_text hash) now root

  abbrev checked : Packet → Io (Unit {0})
  checked packet =
      reads (λ fs. check_missing_files fs root packet)
      >> (reads (λ fs. check_missing_dependencies walk fs root packet) >> accept packet)

  accept-keeps :
      (packet : Packet) (fs : Fs) (q : FilePath) (c : Bytes)
      → file_at fs q ≡ some c
      → file_at (accept packet fs).1 q ≡ some c
  accept-keeps packet fs q c h =
      let add = add_parsed_metadata json digest root bytes packet (hash_text hash) in
      let kept =
        add_parsed_metadata-keeps json digest root bytes packet (hash_text hash) fs q c h in
      >>=-after (λ _. mark_packet_known json packet.id (codes "local") (hash_text hash) now root)
        (λ fs'. file_at fs' q ≡ some c) add fs kept
        (λ _ _.
          mark_packet_known-keeps json packet.id (codes "local") (hash_text hash) now root
            (add fs).1 q c kept)

  -- Whether it succeeds or fails, `add_packet` changes no file that is there.
  pub add_packet-keeps :
      (fs : Fs) (q : FilePath) (c : Bytes)
      → file_at fs q ≡ some c
      → file_at (add_packet json digest walk now root bytes hash fs).1 q ≡ some c
  unfolding add_packet
  add_packet-keeps fs q c h =
      let Q : Fs → Type 0 = λ fs'. file_at fs' q ≡ some c in
      >>=-after checked Q (reads (λ _. json.packet_of bytes)) fs h (λ packet _.
        >>=-after
          (λ _. reads (λ fs'. check_missing_dependencies walk fs' root packet) >> accept packet) Q
          (reads (λ fs'. check_missing_files fs' root packet)) fs h
          (λ _ _.
            >>=-after (λ _. accept packet) Q
              (reads (λ fs'. check_missing_dependencies walk fs' root packet)) fs h
              (λ _ _. accept-keeps packet fs q c h)))

  accept-file_at :
      (packet : Packet) (fs : Fs)
      → exists fs (get_path root packet.id) ≡ false
      → (accept packet fs).0 ≡ ok tt
      → file_at (accept packet fs).1 (get_path root packet.id) ≡ some bytes
  accept-file_at packet fs absent e =
      let add = add_parsed_metadata json digest root bytes packet (hash_text hash) in
      let mark = mark_packet_known json packet.id (codes "local") (hash_text hash) now root in
      let (_, added, _, same) = >>=-run-eq-ok (λ _. mark) add fs e in
      let there =
        add_parsed_metadata-file_at json digest root bytes packet (hash_text hash) fs absent
          added in
      ap (λ fs'. file_at fs' (get_path root packet.id)) same
      ∙ mark_packet_known-keeps json packet.id (codes "local") (hash_text hash) now root (add fs).1
          (get_path root packet.id) bytes there

  checked-file_at :
      (packet : Packet) (fs : Fs)
      → exists fs (get_path root packet.id) ≡ false
      → (checked packet fs).0 ≡ ok tt
      → file_at (checked packet fs).1 (get_path root packet.id) ≡ some bytes
  checked-file_at packet fs absent e =
      let dependencies = reads (λ fs'. check_missing_dependencies walk fs' root packet) in
      let (_, _, e1, same) =
        >>=-run-eq-ok (λ _. dependencies >> accept packet)
          (reads (λ fs'. check_missing_files fs' root packet)) fs e in
      let (_, _, e2, same') = >>=-run-eq-ok (λ _. accept packet) dependencies fs e1 in
      ap (λ fs'. file_at fs' (get_path root packet.id)) (same ∙ same')
      ∙ accept-file_at packet fs absent e2

  get_metadata_text_at :
      (fs : Fs) (id : Text)
      → file_at fs (get_path root id) ≡ some bytes
      → is_utf8 bytes ≡ true
      → get_metadata_text fs root id ≡ ok bytes
  unfolding get_metadata_text get_metadata_file
  get_metadata_text_at fs id there utf8 =
      rw
        (
          file_at-exists fs (get_path root id) bytes there,
          read_file_of fs (get_path root id) bytes there,
          utf8,
        )
        refl

  -- Metadata that is valid UTF-8 and that `add_packet` adds without an error, where nothing was at
  -- its path, is read back by the id of the packet.
  pub add_packet-get_metadata_text :
      (packet : Packet) (fs : Fs)
      → json.packet_of bytes ≡ ok packet
      → is_utf8 bytes ≡ true
      → exists fs (get_path root packet.id) ≡ false
      → (add_packet json digest walk now root bytes hash fs).0 ≡ ok tt
      → get_metadata_text (add_packet json digest walk now root bytes hash fs).1 root packet.id
        ≡ ok bytes
  unfolding add_packet
  add_packet-get_metadata_text packet fs parsed utf8 absent e =
      let (packet', read, rest, same) =
        >>=-run-eq-ok checked (reads (λ _. json.packet_of bytes)) fs e in
      let this_packet : packet' ≡ packet = cc (parsed, read) in
      let there =
        checked-file_at packet fs absent (sym (ap (λ p. (checked p fs).0) this_packet) ∙ rest) in
      let end = same ∙ ap (λ p. (checked p fs).1) this_packet in
      ap (λ fs'. get_metadata_text fs' root packet.id) end
      ∙ get_metadata_text_at (checked packet fs).1 packet.id there utf8
