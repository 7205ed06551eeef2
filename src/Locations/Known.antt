-- ===== src/Locations/Known.antt =====
-- src/location.rs, `mark_packet_known`.
use outpack_server.Io.FilePath.{FilePath, join}
use outpack_server.Io.Fs.{Io, create, create_dir_all, exists, pure, reads, write, ◌>>=◌, ◌>>◌}
use outpack_server.Json.{Json}
use outpack_server.Locations.{LocationEntry}
use outpack_server.Locations.Read.{location_dir}
use outpack_server.Prelude.{Text, if◌then◌else◌, ℕ}
use outpack_server.Result.{ok}
use outpack_server.Utils.{time_as_num}

module _ (json : Json) where
  unfoldable pub write_entry : FilePath → LocationEntry → Io (Unit {0})
  write_entry path entry = do create path; write path (json.entry_to entry)

  unfoldable pub mark_packet_known : Text → Text → Text → ℕ → FilePath → Io (Unit {0})
  unfolding write_entry
  mark_packet_known packet_id location_id hash time root =
      let entry : LocationEntry = record {
        packet = packet_id;
        time = time_as_num time;
        hash = hash;
      } in
      let location_path : FilePath = join (location_dir root) location_id in
      let path : FilePath = join location_path packet_id in
      do
        create_dir_all location_path
        there ← reads (λ fs. ok (exists fs path))
        if there then pure tt else write_entry path entry
