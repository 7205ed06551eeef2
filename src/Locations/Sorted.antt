-- ===== src/Locations/Sorted.antt =====
-- src/location.rs, `read_locations`: the order of the locations, and of the entries of each.
use mathlib.Core.List.{Perm}
use outpack_server.Config.{Config, Location}
use outpack_server.Config.File.{read_config}
use outpack_server.Io.FilePath.{FilePath}
use outpack_server.Io.Fs.{Fs, read_dir}
use outpack_server.Json.{Json}
use outpack_server.Locations.{LocationEntry}
use outpack_server.Locations.Read.{
  by_packet, concat, get_order, location_dir, read_location, read_locations, sort_by_order,
  with_order,
}
use outpack_server.Prelude.{
  All, Bool, Bool-cases, IsSorted, IsSortedBy, List, Text, [], ap, arith, if◌then◌else◌, inl, inr,
  insert_by, keep, leb, list_eq, map, nat_eq, refl, sort_by, sort_by-IsSorted, sort_by-perm, subst,
  suc, sym, text_le_total, ℕ, ◌++◌, ◌==◌, ◌∙◌, ◌∷◌, ◌≡◌,
}
use outpack_server.Result.{>>=-eq-ok, collect, map_ok, ok}
use outpack_server.Utils.{is_packet}

-- The place of the first location of that name, or the number of locations.
abbrev pub position : List Location → Text → ℕ
position [] name = 0
position (l ∷ ls) name = let rest = position ls name in if l.name == name then 0 else suc rest

-- One name is configured at or before the place of another.
abbrev pub is_before : List Location → Text → Text → Bool
is_before ls a b = leb (position ls a) (position ls b)

get_order-eq-ok :
    (ls : List Location) (name : Text) (i : ℕ) → get_order ls name ≡ ok i → i ≡ position ls name
unfolding get_order
get_order-eq-ok [] name i e = cc
get_order-eq-ok (l ∷ ls) name i e = elim (Bool-cases (l.name == name)) [
  | inl h ↦ rw h (cc (rw h at e))
  | inr h ↦
      let (j, found, same) = >>=-eq-ok (get_order ls name) _ (rw h at e) in
      rw h (cc (same, get_order-eq-ok ls name j found))
]

module _ (config : List Location) where
  abbrev keyed : List Text → List (ℕ × Text)
  keyed names = map (λ name. (position config name, name)) names

  abbrev by_key : (ℕ × Text) → (ℕ × Text) → Bool
  by_key (i, _) (j, _) = leb i j

  collect-keyed :
      (names : List Text) (l : List (ℕ × Text))
      → collect (λ name. map_ok (λ i. (i, name)) (get_order config name)) names ≡ ok l
      → l ≡ keyed names
  unfolding collect
  collect-keyed [] l e = cc
  collect-keyed (name ∷ names) l e =
      let (p, found, e1) = >>=-eq-ok (map_ok (λ i. (i, name)) (get_order config name)) _ e in
      let (i, at, same) = >>=-eq-ok (get_order config name) _ found in
      let (rest, k, e2) = >>=-eq-ok (collect _ names) _ e1 in
      cc (e2, same, get_order-eq-ok config name i at, collect-keyed names rest k)

  insert_by-keyed :
      (name : Text) (names : List Text)
      → insert_by by_key (position config name, name) (keyed names)
        ≡ keyed (insert_by (is_before config) name names)
  unfolding insert_by
  insert_by-keyed name [] = refl
  insert_by-keyed name (x ∷ names) = ground (arith, insert_by-keyed name names)

  sort_by-keyed :
      (names : List Text) → sort_by by_key (keyed names) ≡ keyed (sort_by (is_before config) names)
  unfolding sort_by
  sort_by-keyed [] = refl
  sort_by-keyed (x ∷ names) =
      rw (sort_by-keyed names) (insert_by-keyed x (sort_by (is_before config) names))

  map-keyed : (names : List Text) → map (λ (_, name). name) (keyed names) ≡ names
  map-keyed [] = refl
  map-keyed (x ∷ names) = ap (λ l. x ∷ l) (map-keyed names)

  sort_by_order-eq-ok :
      (names sorted : List Text)
      → sort_by_order config names ≡ ok sorted
      → sorted ≡ sort_by (is_before config) names
  unfolding sort_by_order with_order
  sort_by_order-eq-ok [] sorted e = cc
  sort_by_order-eq-ok (x ∷ []) sorted e = cc
  sort_by_order-eq-ok (x ∷ y ∷ names) sorted e =
      let (l, k, e1) =
        >>=-eq-ok
          (collect (λ name. map_ok (λ i. (i, name)) (get_order config name)) (x ∷ y ∷ names)) _ e in
      let all_keyed = collect-keyed (x ∷ y ∷ names) l k in
      let listed : map (λ (_, name). name) (sort_by by_key l) ≡ sorted = ground arith in
      sym listed
      ∙ rw (all_keyed, sort_by-keyed (x ∷ y ∷ names))
          (map-keyed (sort_by (is_before config) (x ∷ y ∷ names)))

read_location-IsSortedBy :
    (json : Json) (fs : Fs) (path : FilePath) (entries : List LocationEntry)
    → read_location json fs path ≡ ok entries
    → IsSortedBy (λ (entry : LocationEntry). entry.packet) entries
unfolding read_location
read_location-IsSortedBy json fs path entries e =
    let (names, _, e1) = >>=-eq-ok (read_dir fs path) _ e in
    let (read, _, e2) = >>=-eq-ok (collect _ (keep is_packet names)) _ e1 in
    let same : sort_by by_packet read ≡ entries = ground arith in
    subst (IsSortedBy (λ (entry : LocationEntry). entry.packet)) same
      (sort_by-IsSorted by_packet (λ a b. text_le_total a.packet b.packet) read)

groups_in_order :
    (json : Json) (fs : Fs) (dir_of : Text → FilePath) (names : List Text)
    (groups : List (List LocationEntry))
    → collect (λ name. read_location json fs (dir_of name)) names ≡ ok groups
    → All (IsSortedBy (λ (entry : LocationEntry). entry.packet)) groups
unfolding collect
groups_in_order json fs dir_of [] groups e =
    let same : [] ≡ groups = cc in
    subst (All (IsSortedBy (λ (entry : LocationEntry). entry.packet))) same tt
groups_in_order json fs dir_of (name ∷ names) groups e =
    let (group, g, e1) = >>=-eq-ok (read_location json fs (dir_of name)) _ e in
    let (rest, k, e2) = >>=-eq-ok (collect _ names) _ e1 in
    let same : (group ∷ rest) ≡ groups = cc in
    subst (All (IsSortedBy (λ (entry : LocationEntry). entry.packet))) same (
      read_location-IsSortedBy json fs (dir_of name) group g,
      groups_in_order json fs dir_of names rest k,
    )

-- Where `read_locations` succeeds, it gives the entries of the locations one after the other: the
-- locations are those of the directory, in the order in which they are configured, and the entries
-- of each are in the order of their packets.
pub read_locations_in_order :
    (json : Json) (fs : Fs) (root : FilePath) (config : Config) (names : List Text)
    (entries : List LocationEntry)
    → read_config json fs root ≡ ok config
    → read_dir fs (location_dir root) ≡ ok names
    → read_locations json fs root ≡ ok entries
    → (sorted : List Text) × (groups : List (List LocationEntry)) × (Perm sorted names)
      × (IsSorted (is_before config.location) sorted)
      × (collect (λ name. read_location json fs (location_dir root ++ (name ∷ []))) sorted
          ≡ ok groups)
      × (All (IsSortedBy (λ (entry : LocationEntry). entry.packet)) groups)
      × (entries ≡ concat groups)
unfolding read_locations
read_locations_in_order json fs root config names entries configured listed e =
    let (sorted, s, e1) =
      >>=-eq-ok (sort_by_order config.location names) _ (rw (configured, listed) at e) in
    let (groups, k, e2) = >>=-eq-ok (collect _ sorted) _ e1 in
    let order = sort_by_order-eq-ok config.location names sorted s in
    let joined : entries ≡ concat groups = cc in
    (
      sorted,
      groups,
      rw order (sort_by-perm (is_before config.location) names),
      rw order (sort_by-IsSorted (is_before config.location) (λ a b h. ground arith) names),
      k,
      groups_in_order json fs (λ name. location_dir root ++ (name ∷ [])) sorted groups k,
      joined,
    )
