-- ===== src/Io/Fs.antt =====
-- `std::fs` and `std::io`. A file system lists its files and directories; the order of the list
-- stands for the order in which a directory is read. The device never fails.

use outpack_server.Io.FilePath.{FilePath, parent}
use outpack_server.Prelude.{
  Bool, Bytes, List, Option, Text, [], codes, false, if◌then◌else◌, keep, list_eq, nat_eq, none,
  not, some, true, ◌&&◌, ◌++◌, ◌==◌, ◌∷◌,
}
use outpack_server.Result.{Result, err, ok, panicked}

pub data ErrorKind : Type 0 where
  not_found invalid_input invalid_data unexpected_eof already_exists : ErrorKind
  not_a_directory is_a_directory other : ErrorKind

pub record IoError : Type 0 where
  pub kind : ErrorKind
  pub message : Text

abbrev pub IoResult {ℓ} : Type ℓ → Type ℓ
IoResult A = Result IoError A

-- `io::Error::new`
abbrev pub fail {ℓ} : {A : Type ℓ} → ErrorKind → Text → IoResult A
fail kind message = err (record { kind = kind; message = message })

pub data Node : Type 0 where
  dir : Node
  file : Bytes → Node

abbrev pub Fs : Type 0
Fs = List (FilePath × Node)

unfoldable pub entry_at : Fs → FilePath → Option Node
entry_at [] p = none
entry_at ((q, n) ∷ fs) p = if q == p then some n else entry_at fs p

-- The root of the file system is always there.
unfoldable pub node : Fs → FilePath → Option Node
unfolding entry_at
node fs [] = some dir
node fs (a ∷ p) = entry_at fs (a ∷ p)

unfoldable pub insert : FilePath → Node → Fs → Fs
insert p n [] = (p, n) ∷ []
insert p n ((q, m) ∷ fs) = if q == p then (p, n) ∷ fs else (q, m) ∷ insert p n fs

-- `Path::exists`, and `fs::metadata(..).is_ok()`
unfoldable pub exists : Fs → FilePath → Bool
unfolding node
exists fs p = elim (node fs p) [ none ↦ false | some _ ↦ true ]

-- `File::open` and a read of all of it.
unfoldable pub read_file : Fs → FilePath → IoResult Bytes
unfolding node
read_file fs p = elim (node fs p) [
  | none ↦ fail not_found (codes "No such file or directory (os error 2)")
  | some dir ↦ fail is_a_directory (codes "Is a directory (os error 21)")
  | some (file bytes) ↦ ok bytes
]

-- The name by which a path stands in a directory.
unfoldable pub child_name : FilePath → FilePath → Option Text
child_name [] (t ∷ []) = some t
child_name [] _ = none
child_name (a ∷ p) [] = none
child_name (a ∷ p) (b ∷ q) = let rest = child_name p q in if a == b then rest else none

unfoldable pub names_in : FilePath → Fs → List Text
unfolding child_name
names_in p [] = []
names_in p ((q, _) ∷ fs) =
    let rest = names_in p fs in elim (child_name p q) [ none ↦ rest | some t ↦ t ∷ rest ]

-- `fs::read_dir`, as the names of the entries. The path of an entry is the directory's path with
-- the name appended.
unfoldable pub read_dir : Fs → FilePath → IoResult (List Text)
unfolding node names_in
read_dir fs p = elim (node fs p) [
  | none ↦ fail not_found (codes "No such file or directory (os error 2)")
  | some dir ↦ ok (names_in p fs)
  | some (file _) ↦ fail not_a_directory (codes "Not a directory (os error 20)")
]

-- An action that may change the file system, also where it fails.
abbrev pub Io {ℓ} : Type ℓ → Type ℓ
Io A = Fs → IoResult A × Fs

module _ {ℓ ℓ'} {A : Type ℓ} {B : Type ℓ'} where
  infixl 5 ◌>>=◌
  abbrev pub ◌>>=◌ : Io A → (A → Io B) → Io B
  ◌>>=◌ m f fs =
      let (r, fs') = m fs in
      elim r [ ok a ↦ f a fs' | err e ↦ (err e, fs') | panicked ↦ (panicked, fs') ]

infixl 5 ◌>>◌
abbrev pub ◌>>◌ {ℓ} : {B : Type ℓ} → Io (Unit {0}) → Io B → Io B
m >> k = m >>= λ _. k

abbrev pub pure {ℓ} : {A : Type ℓ} → A → Io A
pure a fs = (ok a, fs)

-- An action that only reads.
abbrev pub reads {ℓ} : {A : Type ℓ} → (Fs → IoResult A) → Io A
reads f fs = (f fs, fs)

-- `fs::write` and `File::create`: the file is made if its directory is there.
unfoldable pub write : FilePath → Bytes → Io (Unit {0})
unfolding node insert
write p bytes fs = elim (node fs p) [
  | some dir ↦ (fail is_a_directory (codes "Is a directory (os error 21)"), fs)
  | some (file _) ↦ (ok tt, insert p (file bytes) fs)
  | none ↦ elim (node fs (parent p)) [
    | some dir ↦ (ok tt, insert p (file bytes) fs)
    | some (file _) ↦ (fail not_a_directory (codes "Not a directory (os error 20)"), fs)
    | none ↦ (fail not_found (codes "No such file or directory (os error 2)"), fs)
  ]
]

unfoldable pub create : FilePath → Io (Unit {0})
unfolding write
create p = write p []

-- The directories from `p` on down along the names.
unfoldable pub create_dirs : FilePath → List Text → Io (Unit {0})
create_dirs p [] fs = (ok tt, fs)
create_dirs p (t ∷ ts) fs =
    let q : FilePath = p ++ (t ∷ []) in
    elim (node fs q) [
      | none ↦ create_dirs q ts (insert q dir fs)
      | some dir ↦ create_dirs q ts fs
      | some (file _) ↦ (fail already_exists (codes "File exists (os error 17)"), fs)
    ]

-- `fs::create_dir_all`
unfoldable pub create_dir_all : FilePath → Io (Unit {0})
unfolding create_dirs node insert
create_dir_all p = create_dirs [] p

-- Whether the second path is the first or lies below it.
abbrev pub is_under : FilePath → FilePath → Bool
is_under [] q = true
is_under (a ∷ p) [] = false
is_under (a ∷ p) (b ∷ q) = a == b && is_under p q

-- `fs::remove_dir_all`, where the directory is there.
unfoldable pub remove_under : FilePath → Fs → Fs
remove_under p fs = keep (λ (q, _). not (is_under p q)) fs

-- `fs::rename` of a file.
unfoldable pub rename : FilePath → FilePath → Io (Unit {0})
rename from to fs = elim (read_file fs from) [
  | ok bytes ↦
      let (r, fs') = write to bytes fs in (r, elim r [ ok _ ↦ remove_under from fs' | _ ↦ fs' ])
  | err e ↦ (err e, fs)
  | panicked ↦ (panicked, fs)
]
