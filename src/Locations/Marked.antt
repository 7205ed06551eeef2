-- ===== src/Locations/Marked.antt =====
-- src/location.rs, `mark_packet_known`: what is read of an entry that was written, and none is
-- changed.
use outpack_server.Io.Binds.{>>=-after, >>=-run-eq-ok}
use outpack_server.Io.FilePath.{FilePath, IsName, join, join-name}
use outpack_server.Io.Fs.{Fs, Io, create_dir_all, exists, pure, reads, ◌>>=◌}
use outpack_server.Io.Keeps.{create_dirs-absent}
use outpack_server.Io.Laws.{create_dir_all-file_at, file_at, read_file_of}
use outpack_server.Io.Writes.{create-write-file_at, create-write-keeps}
use outpack_server.Json.{Json}
use outpack_server.Locations.{LocationEntry}
use outpack_server.Locations.Known.{mark_packet_known, write_entry}
use outpack_server.Locations.Read.{location_dir, read_entry}
use outpack_server.Prelude.{
  Bool, Bytes, Text, [], ap, arith, false, if◌then◌else◌, length, length-append, refl, some, sym,
  true, ℕ, ◌++◌, ◌<◌, ◌∙◌, ◌∷◌, ◌≡◌,
}
use outpack_server.Result.{ok}
use outpack_server.Utils.{time_as_num}

module _ (json : Json) (path : FilePath) (entry : LocationEntry) where
  -- The entry is written where nothing is there.
  abbrev unless_there : Bool → Io (Unit {0})
  unless_there there = if there then pure tt else write_entry json path entry

  unless_there-keeps :
      (there : Bool) (fs : Fs) (q : FilePath) (c : Bytes)
      → exists fs path ≡ there
      → file_at fs q ≡ some c
      → file_at (unless_there there fs).1 q ≡ some c
  unfolding write_entry
  unless_there-keeps true fs q c e h = h
  unless_there-keeps false fs q c e h = create-write-keeps path (json.entry_to entry) fs q c e h

module _ (json : Json) (packet_id location_id hash : Text) (time : ℕ) (root : FilePath) where
  abbrev entry_dir : FilePath
  entry_dir = join (location_dir root) location_id

  abbrev entry : LocationEntry
  entry = record { packet = packet_id; time = time_as_num time; hash = hash }

  -- Whether it succeeds or fails, `mark_packet_known` changes no file that is there.
  pub mark_packet_known-keeps :
      (fs : Fs) (q : FilePath) (c : Bytes)
      → file_at fs q ≡ some c
      → file_at (mark_packet_known json packet_id location_id hash time root fs).1 q ≡ some c
  unfolding mark_packet_known
  mark_packet_known-keeps fs q c h =
      let path = join entry_dir packet_id in
      let kept = create_dir_all-file_at entry_dir fs q ∙ h in
      >>=-after (λ _. reads (λ fs'. ok (exists fs' path)) >>= unless_there json path entry)
        (λ fs'. file_at fs' q ≡ some c) (create_dir_all entry_dir) fs kept
        (λ _ _.
          let fs1 = (create_dir_all entry_dir fs).1 in
          unless_there-keeps json path entry (exists fs1 path) fs1 q c refl kept)

  marked_at :
      (path : FilePath) (fs : Fs)
      → path ≡ join entry_dir packet_id
      → length entry_dir < length path
      → exists fs path ≡ false
      → (mark_packet_known json packet_id location_id hash time root fs).0 ≡ ok tt
      → file_at (mark_packet_known json packet_id location_id hash time root fs).1 path
        ≡ some (json.entry_to entry)
  unfolding mark_packet_known create_dir_all write_entry
  marked_at path fs at longer absent e =
      let joined = join entry_dir packet_id in
      let fs1 = (create_dir_all entry_dir fs).1 in
      let (_, _, written, same) =
        >>=-run-eq-ok
          (λ _. reads (λ fs'. ok (exists fs' joined)) >>= unless_there json joined entry)
          (create_dir_all entry_dir) fs e in
      let still : exists fs1 joined ≡ false =
        rw (sym at) (create_dirs-absent [] entry_dir fs path (omega arith) absent) in
      let run = ap (λ there. unless_there json joined entry there fs1) still in
      ap (λ fs'. file_at fs' path) (same ∙ ap (λ r. r.1) run)
      ∙ ap (file_at (write_entry json joined entry fs1).1) at
      ∙ create-write-file_at joined (json.entry_to entry) fs1 (sym (ap (λ r. r.0) run) ∙ written)

  -- Where nothing is at the path of the entry and its name is a name of a file, what is read of an
  -- entry that `mark_packet_known` writes without an error is what serde_json reads of the text
  -- that it writes for the packet, the hash and the time in seconds.
  pub mark_packet_known-read_entry :
      (fs : Fs)
      → IsName packet_id
      → exists fs (entry_dir ++ (packet_id ∷ [])) ≡ false
      → (mark_packet_known json packet_id location_id hash time root fs).0 ≡ ok tt
      → read_entry json
          (mark_packet_known json packet_id location_id hash time root fs).1
          (entry_dir ++ (packet_id ∷ []))
        ≡ json.entry_of (json.entry_to entry)
  unfolding read_entry
  mark_packet_known-read_entry fs named absent e =
      let path = entry_dir ++ (packet_id ∷ []) in
      let longer : length entry_dir < length path =
        omega (arith, length-append entry_dir (packet_id ∷ [])) in
      let there = marked_at path fs (sym (join-name entry_dir packet_id named)) longer absent e in
      let fs' = (mark_packet_known json packet_id location_id hash time root fs).1 in
      rw (read_file_of fs' path (json.entry_to entry) there) refl
