-- ===== src/Io/Writes.antt =====
-- Files that are written, and what a step that succeeds leaves to the next.
use outpack_server.Io.Binds.{>>=-after, >>=-run-eq-ok}
use outpack_server.Io.FilePath.{FilePath, parent}
use outpack_server.Io.Fs.{Fs, Io, create, dir, exists, file, insert, node, write, ◌>>=◌, ◌>>◌}
use outpack_server.Io.Laws.{file_at, node-insert, write-file_at}
use outpack_server.Prelude.{
  Bytes, Text, [], ap, arith, false, none, refl, some, true, ◌++◌, ◌∙◌, ◌∷◌, ◌≡◌, ◌≢◌,
}
use outpack_server.Result.{ok}

pub parent-append : (p : FilePath) (t : Text) → parent (p ++ (t ∷ [])) ≡ p
parent-append [] t = refl
parent-append (a ∷ []) t = refl
parent-append (a ∷ b ∷ p) t = rw (parent-append (b ∷ p) t)

pub write_at_new :
    (p : FilePath) (bytes : Bytes) (fs : Fs)
    → node fs p ≡ none
    → node fs (parent p) ≡ some dir
    → write p bytes fs ≡ (ok tt, insert p (file bytes) fs)
unfolding write
write_at_new p bytes fs e d = ground arith

pub write_over :
    (p : FilePath) (bytes old : Bytes) (fs : Fs)
    → node fs p ≡ some (file old)
    → write p bytes fs ≡ (ok tt, insert p (file bytes) fs)
unfolding write
write_over p bytes old fs e = ground arith

pub after_value :
    {A B : Type 0} (m : Io A) (f : A → Io B) (fs fs' : Fs) (a : A)
    → m fs ≡ (ok a, fs')
    → (m >>= f) fs ≡ f a fs'
after_value m f fs fs' a e = ap (λ r. ((λ _. r) >>= f) fs) e

-- A step that gives no value, followed by another.
pub after_step :
    {B : Type 0} (m : Io (Unit {0})) (rest : Io B) (fs fs' : Fs)
    → m fs ≡ (ok tt, fs')
    → (m >> rest) fs ≡ rest fs'
after_step m rest fs fs' e = ap (λ r. ((λ _. r) >> rest) fs) e

pub node-insert_file :
    (p : FilePath) (bytes : Bytes) (fs : Fs)
    → p ≢ []
    → node (insert p (file bytes) fs) p ≡ some (file bytes)
node-insert_file p bytes fs h = ground (arith, node-insert p p (file bytes) fs h)

-- The contents of the files, but for one path.
abbrev pub SameBut : FilePath → Fs → Fs → Type 0
SameBut p fs fs' = (q : FilePath) → p ≢ q → file_at fs' q ≡ file_at fs q

write-SameBut : (p : FilePath) (bytes : Bytes) (fs : Fs) → SameBut p fs (write p bytes fs).1
write-SameBut p bytes fs q d = ground (arith, write-file_at p bytes fs q)

-- What is not there is no file.
pub absent-file_at : (fs : Fs) (q : FilePath) → exists fs q ≡ false → file_at fs q ≡ none
unfolding exists
absent-file_at fs q e = ground arith

pub file_at-exists :
    (fs : Fs) (q : FilePath) (c : Bytes) → file_at fs q ≡ some c → exists fs q ≡ true
unfolding exists
file_at-exists fs q c e = ground arith

-- A file that is created and then written.
module _ (path : FilePath) (bytes : Bytes) where
  pub create-write-SameBut : (fs : Fs) → SameBut path fs ((create path >> write path bytes) fs).1
  unfolding create
  create-write-SameBut fs =
      >>=-after (λ _. write path bytes) (SameBut path fs) (create path) fs
        (write-SameBut path [] fs)
        (λ _ _ q d. write-SameBut path bytes (create path fs).1 q d ∙ write-SameBut path [] fs q d)

  pub create-write-file_at :
      (fs : Fs)
      → ((create path >> write path bytes) fs).0 ≡ ok tt
      → file_at ((create path >> write path bytes) fs).1 path ≡ some bytes
  create-write-file_at fs e =
      let (_, _, e1, same) = >>=-run-eq-ok (λ _. write path bytes) (create path) fs e in
      rw same (ground (arith, write-file_at path bytes (create path fs).1 path))

  -- Where nothing was there, each file that was keeps its contents.
  pub create-write-keeps :
      (fs : Fs) (q : FilePath) (c : Bytes)
      → exists fs path ≡ false
      → file_at fs q ≡ some c
      → file_at ((create path >> write path bytes) fs).1 q ≡ some c
  create-write-keeps fs q c e h =
      let differs : path ≢ q = λ same. cc (absent-file_at fs path e, same, h) in
      create-write-SameBut fs q differs ∙ h
