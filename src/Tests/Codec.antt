-- ===== src/Tests/Codec.antt =====
-- A serialisation, for the tests: fields of text, each ended by a byte of its own.

use outpack_server.Config.{Config, Location}
use outpack_server.Float.{finite, nan}
use outpack_server.Hash.{HashAlgorithm, algorithm_text, parse_algorithm, sha256}
use outpack_server.Hash.Laws.{parse_algorithm-algorithm_text}
use outpack_server.Io.Fs.{IoResult, fail, invalid_data}
use outpack_server.Json.{IsLawful, Json}
use outpack_server.Locations.{LocationEntry}
use outpack_server.Packet.{Packet, null}
use outpack_server.Prelude.{
  Bool, Bytes, List, Option, Text, [], ap, codes, false, map, none, refl, some, suc, true, zero, ℕ,
  ◌∙◌, ◌∷◌, ◌≡◌,
}
use outpack_server.Result.{ok}

-- A byte of a field is written two above, a field ends with 1, and all of them with 0.
abbrev write_text : Text → Bytes → Bytes
write_text [] rest = 1 ∷ rest
write_text (c ∷ t) rest = suc (suc c) ∷ write_text t rest

abbrev write_fields : List Text → Bytes
write_fields [] = 0 ∷ []
write_fields (t ∷ ts) = write_text t (write_fields ts)

abbrev onto_first : ℕ → List Text → List Text
onto_first c [] = (c ∷ []) ∷ []
onto_first c (t ∷ ts) = (c ∷ t) ∷ ts

abbrev read_fields : Bytes → List Text
read_fields [] = []
read_fields (zero ∷ rest) = []
read_fields (suc zero ∷ rest) = [] ∷ read_fields rest
read_fields (suc (suc c) ∷ rest) = onto_first c (read_fields rest)

read_fields-write_text : (t rest : Text) → read_fields (write_text t rest) ≡ t ∷ read_fields rest
read_fields-write_text [] rest = refl
read_fields-write_text (c ∷ t) rest = rw (read_fields-write_text t rest) refl

read_fields-write_fields : (ts : List Text) → read_fields (write_fields ts) ≡ ts
read_fields-write_fields [] = refl
read_fields-write_fields (t ∷ ts) =
    read_fields-write_text t (write_fields ts) ∙ ap (λ l. t ∷ l) (read_fields-write_fields ts)

abbrev unreadable {ℓ} : {A : Type ℓ} → IoResult A
unreadable = fail invalid_data (codes "unreadable")

abbrev bit : Bool → Text
bit true = 1 ∷ []
bit false = []

abbrev of_bit : Text → Bool
of_bit [] = false
of_bit _ = true

abbrev archive_field : Option Text → Text
archive_field none = []
archive_field (some t) = 1 ∷ t

abbrev of_archive : Text → Option Text
of_archive [] = none
of_archive (_ ∷ t) = some t

abbrev algorithm_of : Text → HashAlgorithm
algorithm_of t = elim (parse_algorithm t) [ ok a ↦ a | _ ↦ sha256 ]

abbrev named : Text → Location
named n = record { name = n }

abbrev config_fields : Config → List Text
config_fields c =
    algorithm_text c.core.hash_algorithm
    ∷ archive_field c.core.path_archive
    ∷ bit c.core.use_file_store
    ∷ bit c.core.require_complete_tree
    ∷ map (λ (l : Location). l.name) c.location

abbrev of_config_fields : List Text → IoResult Config
of_config_fields (a ∷ p ∷ u ∷ r ∷ names) = ok (record {
  core = record {
    hash_algorithm = algorithm_of a;
    path_archive = of_archive p;
    use_file_store = of_bit u;
    require_complete_tree = of_bit r;
  };
  location = map named names;
})
of_config_fields _ = unreadable

locations_back : (ls : List Location) → map named (map (λ (l : Location). l.name) ls) ≡ ls
locations_back [] = refl
locations_back (l ∷ ls) = ap (λ r. l ∷ r) (locations_back ls)

algorithm_back : (a : HashAlgorithm) → algorithm_of (algorithm_text a) ≡ a
algorithm_back a = rw (algorithm_of, parse_algorithm-algorithm_text a) refl

archive_back : (p : Option Text) → of_archive (archive_field p) ≡ p
archive_back none = refl
archive_back (some t) = refl

bit_back : (b : Bool) → of_bit (bit b) ≡ b
bit_back true = refl
bit_back false = refl

abbrev entry_fields : LocationEntry → List Text
entry_fields e = elim e.time [
  | finite negative units ↦ e.packet ∷ bit negative ∷ (units ∷ []) ∷ e.hash ∷ []
  | _ ↦ e.packet ∷ []
]

abbrev of_entry_fields : List Text → IoResult LocationEntry
of_entry_fields (known ∷ negative ∷ (units ∷ []) ∷ hash ∷ []) =
    ok (record { packet = known; time = finite (of_bit negative) units; hash = hash })
of_entry_fields _ = unreadable

-- An id, a name, the hash of a file and the id of a dependency.
abbrev of_packet_fields : List Text → IoResult Packet
of_packet_fields (packet_id ∷ packet_name ∷ hash ∷ depends ∷ []) = ok (record {
  id = packet_id;
  name = packet_name;
  custom = none;
  parameters = none;
  files = record { path = codes "f"; hash = hash; size = 0 } ∷ [];
  depends = record { packet = depends; files = [] } ∷ [];
  time = record { start = nan; end = nan };
})
of_packet_fields (packet_id ∷ packet_name ∷ []) = ok (record {
  id = packet_id;
  name = packet_name;
  custom = none;
  parameters = none;
  files = [];
  depends = [];
  time = record { start = nan; end = nan };
})
of_packet_fields _ = unreadable

abbrev pub fields_json : Json
fields_json = record {
  config_of = λ bytes. of_config_fields (read_fields bytes);
  config_to = λ c. write_fields (config_fields c);
  entry_of = λ bytes. of_entry_fields (read_fields bytes);
  entry_to = λ e. write_fields (entry_fields e);
  packet_of = λ bytes. of_packet_fields (read_fields bytes);
  value_of = λ bytes. ok null;
}

abbrev pub packet_bytes : List Text → Bytes
packet_bytes ts = write_fields ts

pub fields_json-IsLawful : IsLawful fields_json
fields_json-IsLawful = record {
  config_of-config_to = λ c.
      rw
        (
          read_fields-write_fields (config_fields c),
          algorithm_back c.core.hash_algorithm,
          archive_back c.core.path_archive,
          bit_back c.core.use_file_store,
          bit_back c.core.require_complete_tree,
          locations_back c.location,
        )
        refl;
}
