-- ===== src/Metadata/Ids.antt =====
-- src/metadata.rs: the ids of the packets, their digest, and which ids are missing.
use outpack_server.Config.{Config}
use outpack_server.Config.File.{read_config}
use outpack_server.Hash.{Digest, HashAlgorithm, hash_data, hash_text, parse_algorithm}
use outpack_server.Io.FilePath.{FilePath, join}
use outpack_server.Io.Fs.{Fs, IoResult, fail, invalid_input, read_dir}
use outpack_server.Json.{Json}
use outpack_server.Locations.Read.{location_dir}
use outpack_server.Metadata.Read.{metadata_dir}
use outpack_server.Prelude.{
  Bool, List, Option, Text, [], codes, contains, false, if◌then◌else◌, is_utf8, join_text, keep,
  list_eq, nat_eq, none, not, some, sort_by, text_le, trim, true, ◌++◌, ◌∷◌,
}
use outpack_server.Result.{collect, map_err, map_ok, ok, ◌>>=◌}
use outpack_server.Store.{hash_error_to_io_error}
use outpack_server.Utils.{is_packet_str}

unfoldable pub get_sorted_id_string : List Text → Text
unfolding sort_by join_text
get_sorted_id_string ids = join_text [] (sort_by text_le ids)

-- `unpacked` asks for the packets of the location `local`, and not for all metadata.
abbrev pub ids_dir : FilePath → Bool → FilePath
ids_dir root true = join (location_dir root) (codes "local")
ids_dir root false = metadata_dir root

unfoldable pub get_ids : Fs → FilePath → Bool → IoResult (List Text)
get_ids fs root unpacked = map_ok (keep is_utf8) (read_dir fs (ids_dir root unpacked))

module _ (json : Json) (digest : Digest) where
  digest_algorithm : Fs → FilePath → Option Text → IoResult HashAlgorithm
  digest_algorithm fs root none =
      map_ok (λ (c : Config). c.core.hash_algorithm) (read_config json fs root)
  digest_algorithm fs root (some name) = map_err hash_error_to_io_error (parse_algorithm name)

  unfoldable pub get_ids_digest : Fs → FilePath → Option Text → IoResult Text
  unfolding digest_algorithm get_ids get_sorted_id_string hash_data
  get_ids_digest fs root alg_name = do
    hash_algorithm ← digest_algorithm fs root alg_name
    ids ← get_ids fs root false
    ok (hash_text (hash_data digest (get_sorted_id_string ids) hash_algorithm))

unfoldable pub get_valid_id : Text → IoResult Text
unfolding trim is_packet_str
get_valid_id id =
    if is_packet_str (trim id)
    then ok (trim id)
    else fail invalid_input (codes "Invalid packet id '" ++ (id ++ codes "'"))

-- `collect::<HashSet<_>>()`: each text once.
unfoldable pub text_set : List Text → List Text
text_set [] = []
text_set (t ∷ ts) = let rest = text_set ts in if contains rest t then rest else t ∷ rest

-- The order in which the `HashSet` of the missing ids is walked is the argument `walk`.
unfoldable pub get_missing_ids :
    (List Text → List Text) → Fs → FilePath → List Text → Bool → IoResult (List Text)
unfolding get_ids get_valid_id text_set collect
get_missing_ids walk fs root wanted unpacked = do
  known ← get_ids fs root unpacked
  valid ← collect get_valid_id wanted
  ok (walk (keep (λ id. not (contains known id)) (text_set valid)))
