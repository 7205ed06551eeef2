-- ===== src/Tests/Repositories.antt =====
-- src/init.rs, src/api.rs and src/metadata.rs at concrete repositories.

use mathlib.Core.List.{Perm}
use mathlib.Core.List.Perm
use outpack_server.Api.Accepts.{preflight-outpack_init}
use outpack_server.Api.Preflight.{preflight}
use outpack_server.Config.{Config, new_config}
use outpack_server.Config.File.{outpack_dir, read_config, write_config}
use outpack_server.Float.{nan}
use outpack_server.Hash.{
  Digest, Hash, algorithm_text, captures, parse_algorithm, parse_hash, sha256, validate_hash_data,
}
use outpack_server.Index.{Index, get_packet_index}
use outpack_server.Init.{outpack_init}
use outpack_server.Init.Fresh.{outpack_init-read_config}
use outpack_server.Io.FilePath.{FilePath, join, split}
use outpack_server.Io.Fs.{
  Fs, Node, create, create_dir_all, dir, entry_at, exists, file, node, read_dir, read_file,
}
use outpack_server.Io.Laws.{file_at}
use outpack_server.Metadata.Add.{add_packet}
use outpack_server.Metadata.Added.{add_packet-get_metadata_text, add_packet-keeps}
use outpack_server.Metadata.Ids.{get_ids, get_missing_ids}
use outpack_server.Metadata.Missing.{get_missing_ids-contains}
use outpack_server.Metadata.Read.{get_metadata_from_date, get_metadata_text, get_path, metadata_dir}
use outpack_server.Metadata.Refused.{add_packet-missing}
use outpack_server.Metadata.Sorted.{get_metadata_from_date-IsSortedBy}
use outpack_server.Packet.{Packet}
use outpack_server.Prelude.{
  All, Bytes, IsSortedBy, List, Text, [], arith, codes, contains, false, inl, is_utf8, keep, length,
  list_eq, map, nat_eq, none, not, refl, some, subst, trim, trim_start, true, ◌&&◌, ◌++◌, ◌↔◌, ◌∷◌,
  ◌≡◌, ◌≢◌,
}
use outpack_server.Query.Eval.{as_listed}
use outpack_server.Query.Meaning.{selects}
use outpack_server.Query.Parse.Print.{Fits, print}
use outpack_server.Query.Run.{run_query}
use outpack_server.Query.Searched.{IsListing, run_query-selects}
use outpack_server.Query.Sets.{Distinct}
use outpack_server.Query.Types.{
  QueryNode, equal, literal, lookup, name, negation, packet, string, test,
}
use outpack_server.Result.{is_ok, ok}
use outpack_server.Store.{file_exists, file_path, get_missing_files}
use outpack_server.Store.Missing.{HasPath, get_missing_files-eq-ok_iff, is_absent}
use outpack_server.Tests.Climbing.{climbing, climbing-IsPratt}
use outpack_server.Tests.Codec.{fields_json, fields_json-IsLawful, packet_bytes}
use outpack_server.Utils.{is_packet}

abbrev pub root : FilePath
root = codes "srv" ∷ []

abbrev empty_disk : Fs
empty_disk = (root, dir) ∷ []

pub made : Fs
unfolding outpack_init
made = (outpack_init fields_json root none true true empty_disk).1

pub preflight_of_made : preflight fields_json made root ≡ ok tt
unfolding made preflight exists join split list_eq nat_eq new_config create_dir_all write_config
    read_config algorithm_text parse_algorithm
preflight_of_made = refl

abbrev no_root : exists empty_disk (outpack_dir root) ≡ false
unfolding exists join split list_eq nat_eq
no_root = refl

init_succeeds : (outpack_init fields_json root none true true empty_disk).0 ≡ ok tt
unfolding outpack_init new_config exists join split list_eq nat_eq create_dir_all write_config
init_succeeds = refl

preflight-outpack_init_example :
    preflight fields_json (outpack_init fields_json root none true true empty_disk).1 root ≡ ok tt
preflight-outpack_init_example =
    preflight-outpack_init fields_json root empty_disk fields_json-IsLawful no_root init_succeeds

abbrev configured : Config
configured = record {
  core = record {
    hash_algorithm = sha256;
    path_archive = none;
    use_file_store = true;
    require_complete_tree = true;
  };
  location = [];
}

outpack_init-read_config_example :
    (exists (outpack_init fields_json root none true true empty_disk).1 (outpack_dir root) ≡ true)
    × ((cfg : Config) × (new_config none true true ≡ ok cfg)
        × (read_config fields_json (outpack_init fields_json root none true true empty_disk).1 root
            ≡ ok cfg))
outpack_init-read_config_example =
    outpack_init-read_config fields_json root none true true empty_disk fields_json-IsLawful no_root
      init_succeeds

abbrev pub first_id : Text
first_id = codes "20170818-164830-33e0ab01"

abbrev pub second_id : Text
second_id = codes "20180220-095832-16a4bbed"

abbrev packet_file : Text → FilePath × Node
packet_file i = (metadata_dir root ++ (i ∷ []), file (packet_bytes (i ∷ codes "a" ∷ [])))

abbrev disk : Fs
disk =
    (root, dir)
    ∷ (outpack_dir root, dir)
    ∷ (metadata_dir root, dir)
    ∷ packet_file second_id
    ∷ packet_file first_id
    ∷ []

abbrev packet_of_id : Text → Packet
packet_of_id i = record {
  id = i;
  name = codes "a";
  custom = none;
  parameters = none;
  files = [];
  depends = [];
  time = record { start = nan; end = nan };
}

read_both :
    get_metadata_from_date fields_json disk root none
    ≡ ok (packet_of_id first_id ∷ packet_of_id second_id ∷ [])
unfolding get_metadata_from_date read_dir join split list_eq nat_eq is_packet is_utf8 read_file
read_both = refl

get_metadata_from_date-IsSortedBy_example :
    IsSortedBy (λ (p : Packet). p.id) (packet_of_id first_id ∷ packet_of_id second_id ∷ [])
get_metadata_from_date-IsSortedBy_example =
    get_metadata_from_date-IsSortedBy fields_json disk root none
      (packet_of_id first_id ∷ packet_of_id second_id ∷ []) read_both

abbrev two_packets : Index
two_packets = record { packets = packet_of_id first_id ∷ packet_of_id second_id ∷ [] }

index_read : get_packet_index fields_json disk root ≡ ok two_packets
unfolding get_packet_index
index_read = rw read_both refl

two_packets-Distinct : Distinct two_packets.packets
unfolding list_eq nat_eq
two_packets-Distinct = (refl, (refl, tt))

abbrev named_b : QueryNode
named_b = negation (test equal (lookup (packet name)) (literal (string (codes "b"))))

named_b-Fits : Fits 0 named_b
unfolding Fits
named_b-Fits = (refl, (tt, refl))

abbrev no_text : {A : Type 0} → A → Text
no_text a = []

run_query-selects_example :
    (shown : Text) × (ps : List Packet) × (run_query fields_json climbing no_text no_text as_listed
        disk root
        (print named_b)
      ≡ ok shown)
    × (IsListing shown ps)
    × (Perm ps (keep (selects named_b) two_packets.packets))
run_query-selects_example =
    run_query-selects climbing climbing-IsPratt fields_json no_text no_text as_listed disk root
      two_packets named_b index_read two_packets-Distinct tt (tt, tt) named_b-Fits

abbrev absent_id : Text
absent_id = codes "20180818-164043-7cdcde4b"

abbrev wanted : List Text
wanted = (codes " " ++ absent_id) ∷ first_id ∷ []

abbrev in_order : List Text → List Text
in_order ts = ts

known_ids : get_ids disk root false ≡ ok (second_id ∷ first_id ∷ [])
unfolding get_ids read_dir join split list_eq nat_eq is_utf8
known_ids = refl

one_missing : get_missing_ids in_order disk root wanted false ≡ ok (absent_id ∷ [])
unfolding get_missing_ids read_dir join split list_eq nat_eq is_utf8
one_missing = refl

get_missing_ids-contains_example :
    contains (absent_id ∷ []) absent_id
    ≡ (contains (map trim wanted) absent_id && not (contains (second_id ∷ first_id ∷ []) absent_id))
get_missing_ids-contains_example =
    get_missing_ids-contains in_order disk root wanted false (second_id ∷ first_id ∷ [])
      (absent_id ∷ []) (λ ts. Perm.refl ts) known_ids one_missing absent_id

abbrev count : Digest
count a bytes = codes "004"

abbrev some_hash : Hash
some_hash = record { algorithm = sha256; value = codes "004" }

abbrev new_bytes : Bytes
new_bytes = packet_bytes (absent_id ∷ codes "a" ∷ codes "sha256:004" ∷ first_id ∷ [])

abbrev new_packet : Packet
new_packet = record {
  id = absent_id;
  name = codes "a";
  custom = none;
  parameters = none;
  files = record { path = codes "f"; hash = codes "sha256:004"; size = 0 } ∷ [];
  depends = record { packet = first_id; files = [] } ∷ [];
  time = record { start = nan; end = nan };
}

packet_read : fields_json.packet_of new_bytes ≡ ok new_packet
packet_read = refl

file_missing : get_missing_files disk root (codes "sha256:004" ∷ []) ≡ ok (codes "sha256:004" ∷ [])
unfolding get_missing_files file_exists file_path parse_hash captures parse_algorithm exists join
    split algorithm_text
file_missing = refl

add_packet-missing_example :
    (is_ok (add_packet fields_json count in_order 0 root new_bytes some_hash disk).0 ≡ false)
    × ((add_packet fields_json count in_order 0 root new_bytes some_hash disk).1 ≡ disk)
add_packet-missing_example =
    add_packet-missing fields_json count in_order 0 root new_bytes some_hash disk new_packet
      (codes "sha256:004") [] packet_read (inl file_missing)

-- The file is in the store, and the packet that is depended on is unpacked.
abbrev pub full_disk : Fs
full_disk =
    (outpack_dir root ++ (codes "location" ∷ []), dir)
    ∷ (outpack_dir root ++ (codes "location" ∷ codes "local" ∷ []), dir)
    ∷ (outpack_dir root ++ (codes "location" ∷ codes "local" ∷ first_id ∷ []), file [])
    ∷ (
      outpack_dir root ++ (codes "files" ∷ codes "sha256" ∷ codes "00" ∷ codes "4" ∷ []),
      file (7 ∷ []),
    )
    ∷ disk

added : (add_packet fields_json count in_order 0 root new_bytes some_hash full_disk).0 ≡ ok tt
unfolding add_packet get_missing_files file_exists file_path parse_hash captures parse_algorithm
    exists join split algorithm_text get_missing_ids read_dir is_utf8 validate_hash_data create
    create_dir_all
added = refl

not_there : exists full_disk (get_path root absent_id) ≡ false
unfolding get_path exists join split list_eq nat_eq
not_there = refl

utf8_bytes : is_utf8 new_bytes ≡ true
unfolding is_utf8
utf8_bytes = refl

add_packet-get_metadata_text_example :
    get_metadata_text
      (add_packet fields_json count in_order 0 root new_bytes some_hash full_disk).1
      root
      absent_id
    ≡ ok new_bytes
add_packet-get_metadata_text_example =
    add_packet-get_metadata_text fields_json count in_order 0 root new_bytes some_hash new_packet
      full_disk packet_read utf8_bytes not_there added

stored_file :
    file_at full_disk
      (root ++ (codes ".outpack" ∷ codes "files" ∷ codes "sha256" ∷ codes "00" ∷ codes "4" ∷ []))
    ≡ some (7 ∷ [])
unfolding node entry_at join split list_eq nat_eq
stored_file = refl

add_packet-keeps_example :
    file_at
      (add_packet fields_json count in_order 0 root new_bytes some_hash full_disk).1
      (root ++ (codes ".outpack" ∷ codes "files" ∷ codes "sha256" ∷ codes "00" ∷ codes "4" ∷ []))
    ≡ some (7 ∷ [])
add_packet-keeps_example =
    add_packet-keeps fields_json count in_order 0 root new_bytes some_hash full_disk
      (root ++ (codes ".outpack" ∷ codes "files" ∷ codes "sha256" ∷ codes "00" ∷ codes "4" ∷ []))
      (7 ∷ []) stored_file

-- One of the two files is in the store.
abbrev two_hashes : List Text
two_hashes = codes "sha256:004" ∷ codes "sha256:005" ∷ []

five_missing : get_missing_files full_disk root two_hashes ≡ ok (codes "sha256:005" ∷ [])
unfolding get_missing_files file_exists file_path parse_hash captures parse_algorithm exists join
    split algorithm_text
five_missing = refl

sized_of :
    (s : Text) (k h : Hash)
    → parse_hash s ≡ ok k
    → length k.value ≢ 2
    → parse_hash s ≡ ok h
    → length h.value ≢ 2
sized_of s k h read differs e =
    let same : k ≡ h = cc in subst (λ (m : Hash). length m.value ≢ 2) same differs

four_read :
    parse_hash (codes "sha256:004") ≡ ok (record { algorithm = sha256; value = codes "004" })
unfolding parse_hash captures parse_algorithm trim_start list_eq nat_eq
four_read = refl

five_read :
    parse_hash (codes "sha256:005") ≡ ok (record { algorithm = sha256; value = codes "005" })
unfolding parse_hash captures parse_algorithm trim_start list_eq nat_eq
five_read = refl

two_sized : All (λ s. (h : Hash) → parse_hash s ≡ ok h → length h.value ≢ 2) two_hashes
two_sized = (
  (λ h. sized_of (codes "sha256:004") _ h four_read (λ d. omega (arith, d))),
  ((λ h. sized_of (codes "sha256:005") _ h five_read (λ d. omega (arith, d))), tt),
)

get_missing_files-eq-ok_iff_example :
    (get_missing_files full_disk root two_hashes ≡ ok (codes "sha256:005" ∷ [])) ↔ (
      All HasPath two_hashes
      × ((codes "sha256:005" ∷ []) ≡ keep (is_absent full_disk root) two_hashes))
get_missing_files-eq-ok_iff_example =
    get_missing_files-eq-ok_iff full_disk root two_hashes (codes "sha256:005" ∷ []) two_sized
