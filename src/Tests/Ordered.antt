-- ===== src/Tests/Ordered.antt =====
-- src/location.rs, `read_locations`: two locations, configured in the other order than listed.
use mathlib.Core.List.{Perm}
use outpack_server.Config.{Config, Location}
use outpack_server.Config.File.{outpack_dir, read_config}
use outpack_server.Float.{finite}
use outpack_server.Hash.{algorithm_text, parse_algorithm, sha256}
use outpack_server.Io.FilePath.{FilePath, join, split}
use outpack_server.Io.Fs.{Fs, Node, dir, entry_at, file, node, read_dir, read_file}
use outpack_server.Locations.{LocationEntry}
use outpack_server.Locations.Read.{concat, location_dir, read_entry, read_location, read_locations}
use outpack_server.Locations.Sorted.{is_before, read_locations_in_order}
use outpack_server.Prelude.{
  All, IsSorted, IsSortedBy, List, Text, [], codes, false, is_utf8, list_eq, nat_eq, none, refl,
  sort_by, true, ◌++◌, ◌∷◌, ◌≡◌,
}
use outpack_server.Result.{collect, ok}
use outpack_server.Store.Put.{place}
use outpack_server.Tests.Codec.{fields_json}
use outpack_server.Utils.{is_packet}

abbrev root : FilePath
root = codes "srv" ∷ []

abbrev location_of : Text → Location
location_of n = record { name = n }

abbrev two_locations : Config
two_locations = record {
  core = record {
    hash_algorithm = sha256;
    path_archive = none;
    use_file_store = true;
    require_complete_tree = true;
  };
  location = location_of (codes "b") ∷ location_of (codes "a") ∷ [];
}

abbrev older : LocationEntry
older = record {
  packet = codes "20170818-164830-33e0ab01";
  time = finite false 7;
  hash = codes "h";
}

abbrev newer : LocationEntry
newer = record {
  packet = codes "20170818-164847-7574883b";
  time = finite false 9;
  hash = codes "h";
}

abbrev known_at : Text → LocationEntry → FilePath × Node
known_at place entry =
    (location_dir root ++ (place ∷ entry.packet ∷ []), file (fields_json.entry_to entry))

abbrev disk : Fs
disk =
    (root, dir)
    ∷ (outpack_dir root, dir)
    ∷ (outpack_dir root ++ (codes "config.json" ∷ []), file (fields_json.config_to two_locations))
    ∷ (location_dir root, dir)
    ∷ (location_dir root ++ (codes "a" ∷ []), dir)
    ∷ (location_dir root ++ (codes "b" ∷ []), dir)
    ∷ known_at (codes "a") older
    ∷ known_at (codes "b") newer
    ∷ known_at (codes "b") older
    ∷ []

config_read : read_config fields_json disk root ≡ ok two_locations
unfolding read_config read_file node entry_at list_eq nat_eq join split algorithm_text
    parse_algorithm
config_read = refl

names_read : read_dir disk (location_dir root) ≡ ok (codes "a" ∷ codes "b" ∷ [])
unfolding read_dir node entry_at list_eq nat_eq join split
names_read = refl

entries_read : read_locations fields_json disk root ≡ ok (older ∷ newer ∷ older ∷ [])
unfolding read_locations read_config read_location read_entry read_file read_dir node entry_at
    list_eq nat_eq join split algorithm_text parse_algorithm is_packet is_utf8 sort_by
entries_read = refl

read_locations_in_order_example :
    (sorted : List Text) × (groups : List (List LocationEntry)) × (Perm sorted
      (codes "a" ∷ codes "b" ∷ []))
    × (IsSorted (is_before two_locations.location) sorted)
    × (collect (λ name. read_location fields_json disk (location_dir root ++ (name ∷ []))) sorted
        ≡ ok groups)
    × (All (IsSortedBy (λ (entry : LocationEntry). entry.packet)) groups)
    × ((older ∷ newer ∷ older ∷ []) ≡ concat groups)
read_locations_in_order_example =
    read_locations_in_order fields_json disk root two_locations (codes "a" ∷ codes "b" ∷ [])
      (older ∷ newer ∷ older ∷ []) config_read names_read entries_read
