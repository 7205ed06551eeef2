-- ===== src/Store/Elsewhere.antt =====
-- The paths of the repository that are no path of a hash, and what is written at them.

use outpack_server.Config.File.{outpack_dir}
use outpack_server.Hash.{Hash}
use outpack_server.Io.FilePath.{FilePath, IsName, join, join-name}
use outpack_server.Io.Names.{files-IsName, location-IsName, metadata-IsName}
use outpack_server.Locations.Read.{location_dir}
use outpack_server.Metadata.Read.{get_path, metadata_dir}
use outpack_server.Prelude.{
  Text, [], ap, append_assoc, arith, codes, length, sym, ◌++◌, ◌∙◌, ◌∷◌, ◌≡◌, ◌≢◌,
}
use outpack_server.Result.{ok}
use outpack_server.Store.{file_path, files_dir}
use outpack_server.Store.Found.{file_path-within, outpack_dir_of}
use outpack_server.Store.Paths.{append_cancel, hash_names}

-- No hash has the path.
abbrev pub Elsewhere : FilePath → FilePath → Type 0
Elsewhere root q = (s : Text) → file_path root s ≢ ok q

-- A directory of the repository, and a path in it.
area_of :
    (root : FilePath) (area : Text)
    → IsName area
    → join (outpack_dir root) area ≡ root ++ (codes ".outpack" ∷ area ∷ [])
area_of root area a =
    join-name (outpack_dir root) area a
    ∙ ap (λ p. p ++ (area ∷ [])) (outpack_dir_of root)
    ∙ append_assoc root (codes ".outpack" ∷ []) (area ∷ [])

pub area_below :
    (root : FilePath) (area : Text) (rest : FilePath)
    → IsName area
    → join (outpack_dir root) area ++ rest ≡ root ++ (codes ".outpack" ∷ area ∷ rest)
area_below root area rest a =
    ap (λ p. p ++ rest) (area_of root area a)
    ∙ append_assoc root (codes ".outpack" ∷ area ∷ []) rest

-- The path of a hash, from the directory of the files.
pub file_path-files :
    (root : FilePath) (s : Text) (p : FilePath)
    → file_path root s ≡ ok p
    → (h : Hash) × (p ≡ files_dir root ++ hash_names h)
file_path-files root s p e =
    let (h, within) = file_path-within root s p e in
    (h, within ∙ sym (area_below root (codes "files") (hash_names h) files-IsName))

-- A path in another directory than that of the files.
apart-Elsewhere :
    (root rest : FilePath) (area : Text)
    → IsName area
    → area ≢ codes "files"
    → Elsewhere root (join (outpack_dir root) area ++ rest)
apart-Elsewhere root rest area a differs s e =
    let (h, within) = file_path-within root s _ e in
    let same = append_cancel root (sym (area_below root area rest a) ∙ within) in differs (cc same)

-- A file right in the directory of the files.
pub upload-Elsewhere :
    (root : FilePath) (name : Text) → Elsewhere root (files_dir root ++ (name ∷ []))
upload-Elsewhere root name s e =
    let (h, within) = file_path-within root s _ e in
    let files = area_below root (codes "files") (name ∷ []) files-IsName in
    absurd (omega (arith, ap length (append_cancel root (sym files ∙ within))))

pub metadata-Elsewhere :
    (root : FilePath) (name : Text) → IsName name → Elsewhere root (get_path root name)
unfolding get_path
metadata-Elsewhere root name n =
    rw (join-name (metadata_dir root) name n)
      (apart-Elsewhere root (name ∷ []) (codes "metadata") metadata-IsName (λ e. cc))

-- The path of an entry of a location.
pub entry-Elsewhere :
    (root : FilePath) (location name : Text)
    → IsName location
    → IsName name
    → Elsewhere root (join (join (location_dir root) location) name)
entry-Elsewhere root location name l n =
    let below =
      join-name (join (location_dir root) location) name n
      ∙ ap (λ p. p ++ (name ∷ [])) (join-name (location_dir root) location l)
      ∙ append_assoc (location_dir root) (location ∷ []) (name ∷ []) in
    rw below
      (apart-Elsewhere root (location ∷ name ∷ []) (codes "location") location-IsName (λ e. cc))
