-- ===== src/Locations/Read.antt =====
-- src/location.rs: the entries of a location, and those of all locations. The crate cached keeps
-- entries that were read; here each is read from its file.
use outpack_server.Config.{Location}
use outpack_server.Config.File.{outpack_dir, read_config}
use outpack_server.Io.FilePath.{FilePath, join}
use outpack_server.Io.Fs.{Fs, IoResult, read_dir, read_file}
use outpack_server.Json.{Json}
use outpack_server.Locations.{LocationEntry}
use outpack_server.Prelude.{
  Bool, List, Text, [], codes, if◌then◌else◌, keep, leb, list_eq, map, nat_eq, sort_by, suc,
  text_le, ℕ, ◌++◌, ◌==◌, ◌∷◌,
}
use outpack_server.Result.{collect, map_ok, ok, panicked, ◌>>=◌}
use outpack_server.Utils.{is_packet}

-- `root_path.join(".outpack").join("location")`
abbrev pub location_dir : FilePath → FilePath
location_dir root = join (outpack_dir root) (codes "location")

-- The place of the first location of that name, as `position(..).unwrap()` gives it.
unfoldable pub get_order : List Location → Text → IoResult ℕ
get_order [] name = panicked
get_order (l ∷ ls) name =
    let rest = get_order ls name in if l.name == name then ok 0 else map_ok (λ i. suc i) rest

-- The key of each name, as the sort asks for it: not at all where there is nothing to compare.
unfoldable pub with_order : List Location → List Text → IoResult (List (ℕ × Text))
with_order config [] = ok []
with_order config (name ∷ []) = ok ((0, name) ∷ [])
with_order config names = collect (λ name. map_ok (λ i. (i, name)) (get_order config name)) names

-- `sort_by_key`
unfoldable pub sort_by_order : List Location → List Text → IoResult (List Text)
unfolding with_order get_order sort_by collect
sort_by_order config names =
    map_ok (λ keyed. map (λ (_, name). name) (sort_by (λ (i, _) (j, _). leb i j) keyed))
      (with_order config names)

abbrev pub by_packet : LocationEntry → LocationEntry → Bool
by_packet a b = text_le a.packet b.packet

abbrev pub concat {ℓ} : {A : Type ℓ} → List (List A) → List A
concat [] = []
concat (l ∷ ls) = l ++ concat ls

module _ (json : Json) where
  unfoldable pub read_entry : Fs → FilePath → IoResult LocationEntry
  read_entry fs path = do bytes ← read_file fs path; json.entry_of bytes

  unfoldable pub read_location : Fs → FilePath → IoResult (List LocationEntry)
  unfolding read_entry collect sort_by
  read_location fs path = do
    names ← read_dir fs path
    packets ← collect (λ name. read_entry fs (path ++ (name ∷ []))) (keep is_packet names)
    ok (sort_by by_packet packets)

  unfoldable pub read_locations : Fs → FilePath → IoResult (List LocationEntry)
  unfolding collect sort_by_order
  read_locations fs root = do
    config ← read_config json fs root
    names ← read_dir fs (location_dir root)
    locations_sorted ← sort_by_order config.location names
    packets ← collect (λ name. read_location fs (location_dir root ++ (name ∷ []))) locations_sorted
    ok (concat packets)
