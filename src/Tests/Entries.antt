-- ===== src/Tests/Entries.antt =====
-- src/location.rs: entries that are written, at a concrete repository.

use outpack_server.Config.File.{outpack_dir}
use outpack_server.Io.FilePath.{FilePath, IsName, join, split}
use outpack_server.Io.Fs.{
  Fs, create, create_dir_all, create_dirs, dir, entry_at, exists, insert, node, write,
}
use outpack_server.Locations.Known.{mark_packet_known, write_entry}
use outpack_server.Locations.Marked.{mark_packet_known-read_entry}
use outpack_server.Locations.Read.{location_dir, read_entry}
use outpack_server.Prelude.{Text, [], codes, false, list_eq, nat_eq, refl, ◌++◌, ◌∷◌, ◌≡◌}
use outpack_server.Result.{ok}
use outpack_server.Tests.Codec.{fields_json}
use outpack_server.Utils.{time_as_num}

abbrev root : FilePath
root = codes "srv" ∷ []

abbrev disk : Fs
disk = (root, dir) ∷ (outpack_dir root, dir) ∷ []

abbrev id1 : Text
id1 = codes "20170818-164830-33e0ab01"

abbrev hash1 : Text
hash1 = codes "sha256:004"

mark_succeeds : (mark_packet_known fields_json id1 (codes "local") hash1 1000 root disk).0 ≡ ok tt
unfolding mark_packet_known create_dir_all create_dirs entry_at insert node exists join split write
    write_entry create list_eq nat_eq
mark_succeeds = refl

abbrev entry_path : FilePath
entry_path = join (location_dir root) (codes "local") ++ (id1 ∷ [])

absent_entry : exists disk entry_path ≡ false
unfolding exists join split list_eq nat_eq
absent_entry = refl

id1-IsName : IsName id1
id1-IsName = ((λ e. cc), (λ e. cc), (λ e. cc), refl)

mark_packet_known-read_entry_example :
    read_entry fields_json
      (mark_packet_known fields_json id1 (codes "local") hash1 1000 root disk).1
      entry_path
    ≡ fields_json.entry_of
        (fields_json.entry_to (record { packet = id1; time = time_as_num 1000; hash = hash1 }))
mark_packet_known-read_entry_example =
    mark_packet_known-read_entry fields_json id1 (codes "local") hash1 1000 root disk id1-IsName
      absent_entry mark_succeeds
