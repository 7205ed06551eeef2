-- ===== src/Store/Carried.antt =====
-- src/upload.rs, `Upload::persist`: where the contents of an upload go.

use outpack_server.Io.FilePath.{FilePath, parent}
use outpack_server.Io.Fs.{Fs, dir, is_under, node, rename, write}
use outpack_server.Io.Laws.{Gains, file_at, read_file_of, rename-Gains, write-Gains, write-file_at}
use outpack_server.Io.MadeDirs.{IsClear}
use outpack_server.Io.Moves.{rename-file_at_target, rename-node, write-node}
use outpack_server.Io.Writes.{write_at_new}
use outpack_server.Prelude.{
  Bytes, Option, ap, arith, false, inl, inr, none, refl, some, true, ◌≡◌, ◌≢◌,
}
use outpack_server.Result.{ok}
use outpack_server.Store.Kept.{IsAwayFrom}
use outpack_server.Store.Put.{Upload, buffered, persist, uploaded}

-- What an upload carries, where it is to be moved.
abbrev pub Carries : Upload → Bytes → FilePath → Fs → Type 0
Carries (buffered b) bytes to fs = b ≡ bytes
Carries (uploaded p) bytes to fs = (file_at fs p ≡ some bytes) × (is_under p to ≡ false)

pub persist-Carries :
    (upload : Upload) (bytes : Bytes) (to : FilePath) (fs : Fs)
    → Carries upload bytes to fs
    → (persist upload to fs).0 ≡ ok tt
    → file_at (persist upload to fs).1 to ≡ some bytes
unfolding persist
persist-Carries (buffered b) bytes to fs same e = ground (arith, same, e, write-file_at to b fs to)
persist-Carries (uploaded p) bytes to fs (there, away) e =
    rename-file_at_target p to bytes fs there away e

pub persist-node :
    (upload : Upload) (to : FilePath) (fs : Fs) (q : FilePath)
    → IsAwayFrom upload q
    → to ≢ q
    → node (persist upload to fs).1 q ≡ node fs q
unfolding persist
persist-node (buffered b) to fs q away d = write-node to b fs q d
persist-node (uploaded p) to fs q away d = rename-node p to fs q d away

-- A file that is moved to a path where nothing is, in a directory that is there.
pub rename-succeeds :
    (from to : FilePath) (bytes : Bytes) (fs : Fs)
    → file_at fs from ≡ some bytes
    → node fs to ≡ none
    → node fs (parent to) ≡ some dir
    → (rename from to fs).0 ≡ ok tt
unfolding rename
rename-succeeds from to bytes fs there new above =
    rw (rename, read_file_of fs from bytes there, write_at_new to bytes fs new above) refl

pub persist-succeeds :
    (upload : Upload) (bytes : Bytes) (to : FilePath) (fs : Fs)
    → Carries upload bytes to fs
    → node fs to ≡ none
    → node fs (parent to) ≡ some dir
    → (persist upload to fs).0 ≡ ok tt
unfolding persist
persist-succeeds (buffered b) bytes to fs same new above =
    ap (λ r. r.0) (write_at_new to b fs new above)
persist-succeeds (uploaded p) bytes to fs (there, away) new above =
    rename-succeeds p to bytes fs there new above

-- What a step may write is not at the path.
Gains-none :
    (fs fs' : Fs) (P : FilePath → Bytes → Type 0) (q : FilePath) (o : Option Bytes)
    → Gains fs fs' P
    → ((c : Bytes) → ¬ P q c)
    → file_at fs q ≡ none
    → file_at fs' q ≡ o
    → o ≡ none
Gains-none fs fs' P q none g other_path h e = refl
Gains-none fs fs' P q (some c) g other_path h e = elim (g q c e) [
  | inl old ↦ absurd (cc (old, h))
  | inr new ↦ absurd (other_path c new)
]

pub persist-IsClear :
    (upload : Upload) (to p : FilePath) (fs : Fs)
    → ((q : FilePath) → is_under q p ≡ true → to ≢ q)
    → IsClear fs p
    → IsClear (persist upload to fs).1 p
unfolding persist
persist-IsClear (buffered b) to p fs apart clear q under =
    Gains-none fs (write to b fs).1 _ q _ (write-Gains to b fs) (λ c new. apart q under new.0)
      (clear q under) refl
persist-IsClear (uploaded from) to p fs apart clear q under =
    Gains-none fs (rename from to fs).1 _ q _ (rename-Gains from to fs)
      (λ c new. apart q under new.0) (clear q under) refl
