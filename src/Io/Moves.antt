-- ===== src/Io/Moves.antt =====
-- What stands at each path after a file is moved or written.

use outpack_server.Io.FilePath.{FilePath}
use outpack_server.Io.Fs.{Fs, file, is_under, node, read_file, rename, write}
use outpack_server.Io.Laws.{
  entry_at-remove_under, file_at, is_under_refl, node-insert, read_file_of, remove_under-file_at,
  write-file_at,
}
use outpack_server.Prelude.{Bytes, [], arith, false, inl, inr, refl, some, ◌∷◌, ◌≡◌, ◌≢◌}
use outpack_server.Result.{Result-cases, ok}

pub rename-file_at :
    (from to : FilePath) (fs : Fs) (q : FilePath)
    → to ≢ q
    → is_under from q ≡ false
    → file_at (rename from to fs).1 q ≡ file_at fs q
unfolding rename
rename-file_at from to fs q d h = elim (Result-cases (read_file fs from)) [
  | inl (bytes, found) ↦
      ground (arith, write-file_at to bytes fs q, remove_under-file_at from (write to bytes fs).1 q)
  | inr failed ↦ ground arith
]

pub rename-file_at_target :
    (from to : FilePath) (bytes : Bytes) (fs : Fs)
    → file_at fs from ≡ some bytes
    → is_under from to ≡ false
    → (rename from to fs).0 ≡ ok tt
    → file_at (rename from to fs).1 to ≡ some bytes
unfolding rename
rename-file_at_target from to bytes fs there h e =
    let read = read_file_of fs from bytes there in
    ground (
      arith,
      read,
      write-file_at to bytes fs to,
      remove_under-file_at from (write to bytes fs).1 to,
    )

pub write-node :
    (p : FilePath) (bytes : Bytes) (fs : Fs) (q : FilePath)
    → p ≢ q
    → node (write p bytes fs).1 q ≡ node fs q
unfolding write
write-node [] bytes fs q d = refl
write-node (a ∷ p) bytes fs q d = ground (arith, node-insert (a ∷ p) q (file bytes) fs (λ h. cc))

pub apart_differs : (p q : FilePath) → is_under p q ≡ false → p ≢ q
apart_differs p q h e = cc (h, e, is_under_refl p)

pub rename-node :
    (from to : FilePath) (fs : Fs) (q : FilePath)
    → to ≢ q
    → is_under from q ≡ false
    → node (rename from to fs).1 q ≡ node fs q
unfolding rename node
rename-node from to fs [] d h = refl
rename-node from to fs (b ∷ q) d h = elim (Result-cases (read_file fs from)) [
  | inl (bytes, found) ↦ ground (
    arith,
    write-node to bytes fs (b ∷ q) d,
    entry_at-remove_under from (b ∷ q) (write to bytes fs).1,
  )
  | inr failed ↦ ground arith
]
