-- ===== src/Io/Laws.antt =====
-- What the operations of the file system do to what stands at each path.

use outpack_server.Io.FilePath.{FilePath}
use outpack_server.Io.Fs.{
  Fs, Io, IoResult, Node, create_dir_all, create_dirs, dir, entry_at, file, insert, is_under, node,
  read_file, remove_under, rename, write, ◌>>=◌,
}
use outpack_server.Prelude.{
  Bytes, Option, Text, [], arith, if◌then◌else◌, inl, inr, list_eq, nat_eq, none, refl, some, sym,
  true, ◌++◌, ◌==◌, ◌∙◌, ◌∷◌, ◌≡◌, ◌≢◌, ◌⊎◌,
}
use outpack_server.Result.{Result-cases, err, is_ok, ok, panicked}

entry_at-insert :
    (p q : FilePath) (n : Node) (fs : Fs)
    → entry_at (insert p n fs) q ≡ (if p == q then some n else entry_at fs q)
unfolding entry_at insert
entry_at-insert p q n [] = ground arith
entry_at-insert p q n ((r, m) ∷ fs) = ground (arith, entry_at-insert p q n fs)

pub node-insert :
    (p q : FilePath) (n : Node) (fs : Fs)
    → p ≢ []
    → node (insert p n fs) q ≡ (if p == q then some n else node fs q)
unfolding node
node-insert [] q n fs h = absurd (h refl)
node-insert (a ∷ p) [] n fs h = ground arith
node-insert (a ∷ p) (b ∷ q) n fs h = entry_at-insert (a ∷ p) (b ∷ q) n fs

pub entry_at-remove_under :
    (p q : FilePath) (fs : Fs)
    → entry_at (remove_under p fs) q ≡ (if is_under p q then none else entry_at fs q)
unfolding entry_at remove_under
entry_at-remove_under p q [] = ground arith
entry_at-remove_under p q ((r, m) ∷ fs) = ground (arith, entry_at-remove_under p q fs)

-- The contents of the file at a path.
abbrev pub file_at : Fs → FilePath → Option Bytes
file_at fs q = elim (node fs q) [ some (file bytes) ↦ some bytes | _ ↦ none ]

pub child-ne-nil : (p : FilePath) (t : Text) → p ++ (t ∷ []) ≢ []
child-ne-nil [] t = λ h. cc
child-ne-nil (a ∷ p) t = λ h. cc

pub file_at-insert_dir :
    (p q : FilePath) (fs : Fs)
    → p ≢ []
    → node fs p ≡ none
    → file_at (insert p dir fs) q ≡ file_at fs q
file_at-insert_dir p q fs h e = ground (arith, node-insert p q dir fs h)

-- Making directories leaves the files as they are.
create_dirs-file_at :
    (p ts : FilePath) (fs : Fs) (q : FilePath) → file_at (create_dirs p ts fs).1 q ≡ file_at fs q
unfolding create_dirs
create_dirs-file_at p [] fs q = refl
create_dirs-file_at p (t ∷ ts) fs q =
    let r : FilePath = p ++ (t ∷ []) in
    ground (
      arith,
      create_dirs-file_at r ts (insert r dir fs) q,
      create_dirs-file_at r ts fs q,
      file_at-insert_dir r q fs (child-ne-nil p t),
    )

pub create_dir_all-file_at :
    (p : FilePath) (fs : Fs) (q : FilePath) → file_at (create_dir_all p fs).1 q ≡ file_at fs q
unfolding create_dir_all
create_dir_all-file_at p fs q = create_dirs-file_at [] p fs q

pub is_under-append : (p q : FilePath) → is_under p (p ++ q) ≡ true
is_under-append [] q = refl
is_under-append (a ∷ p) q = ground (arith, is_under-append p q)

pub is_under_refl : (p : FilePath) → is_under p p ≡ true
is_under_refl [] = refl
is_under_refl (a ∷ p) = ground (arith, is_under_refl p)

pub remove_under-file_at :
    (p : FilePath) (fs : Fs) (q : FilePath)
    → file_at (remove_under p fs) q ≡ (if is_under p q then none else file_at fs q)
unfolding node
remove_under-file_at p fs [] = ground arith
remove_under-file_at p fs (b ∷ q) = ground (arith, entry_at-remove_under p (b ∷ q) fs)

-- A write that succeeds changes the one file; one that fails changes nothing.
pub write-file_at :
    (p : FilePath) (bytes : Bytes) (fs : Fs) (q : FilePath)
    → file_at (write p bytes fs).1 q ≡ (
        if is_ok (write p bytes fs).0
        then (if p == q then some bytes else file_at fs q)
        else file_at fs q)
unfolding write
write-file_at [] bytes fs q = refl
write-file_at (a ∷ p) bytes fs q = ground (arith, node-insert (a ∷ p) q (file bytes) fs (λ h. cc))

-- Every file of the second system stands in the first as it is, or is one of those described.
abbrev pub Gains : Fs → Fs → (FilePath → Bytes → Type 0) → Type 0
Gains fs fs' P =
    (q : FilePath) (c : Bytes) → file_at fs' q ≡ some c → (file_at fs q ≡ some c) ⊎ P q c

pub Gains-trans :
    (fs fs' fs'' : Fs) (P : FilePath → Bytes → Type 0)
    → Gains fs fs' P
    → Gains fs' fs'' P
    → Gains fs fs'' P
Gains-trans fs fs' fs'' P g h q c e = elim (h q c e) [ inl d ↦ g q c d | inr p ↦ inr p ]

pub write-Gains :
    (p : FilePath) (bytes : Bytes) (fs : Fs)
    → Gains fs (write p bytes fs).1 (λ q c. (p ≡ q) × (bytes ≡ c))
write-Gains p bytes fs q c e = ground (arith, write-file_at p bytes fs q)

pub create_dir_all-Gains :
    (p : FilePath) (fs : Fs) (P : FilePath → Bytes → Type 0) → Gains fs (create_dir_all p fs).1 P
create_dir_all-Gains p fs P q c e = inl (sym (create_dir_all-file_at p fs q) ∙ e)

pub remove_under-Gains :
    (p : FilePath) (fs : Fs) (P : FilePath → Bytes → Type 0) → Gains fs (remove_under p fs) P
remove_under-Gains p fs P q c e = inl (ground (arith, remove_under-file_at p fs q))

read_file-file_at :
    (fs : Fs) (p : FilePath) (bytes : Bytes) → read_file fs p ≡ ok bytes → file_at fs p ≡ some bytes
unfolding read_file
read_file-file_at fs p bytes e = ground arith

pub rename-Gains :
    (p to : FilePath) (fs : Fs)
    → Gains fs (rename p to fs).1 (λ q c. (to ≡ q) × (file_at fs p ≡ some c))
unfolding rename
rename-Gains p to fs q c e = elim (Result-cases (read_file fs p)) [
  | inl (bytes, found) ↦ ground (
    arith,
    write-file_at to bytes fs q,
    remove_under-file_at p (write to bytes fs).1 q,
    read_file-file_at fs p bytes,
  )
  | inr failed ↦ ground arith
]

pub read_file_of :
    (fs : Fs) (p : FilePath) (bytes : Bytes) → file_at fs p ≡ some bytes → read_file fs p ≡ ok bytes
unfolding read_file
read_file_of fs p bytes e = ground arith

module _ {ℓ ℓ'} {A : Type ℓ} {B : Type ℓ'} (f : A → Io B) (fs : Fs)
    (P : FilePath → Bytes → Type 0) where
  constant-Gains :
      (r : IoResult A × Fs)
      → Gains fs r.1 P
      → ((a : A) → r.0 ≡ ok a → Gains r.1 (f a r.1).1 P)
      → Gains fs (((λ _. r) >>= f) fs).1 P
  constant-Gains (ok a, fs') g h = Gains-trans fs fs' (f a fs').1 P g (h a refl)
  constant-Gains (err x, fs') g h = g
  constant-Gains (panicked, fs') g h = g

  -- A step followed by another.
  pub >>=-Gains :
      (m : Io A)
      → Gains fs (m fs).1 P
      → ((a : A) → (m fs).0 ≡ ok a → Gains (m fs).1 (f a (m fs).1).1 P)
      → Gains fs ((m >>= f) fs).1 P
  >>=-Gains m g h = constant-Gains (m fs) g h
