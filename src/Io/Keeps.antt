-- ===== src/Io/Keeps.antt =====
-- What stands in the file system stays there where directories are made and files written.

use outpack_server.Io.FilePath.{FilePath}
use outpack_server.Io.Fs.{
  Fs, Node, create_dir_all, create_dirs, dir, exists, file, insert, node, write,
}
use outpack_server.Io.Laws.{child-ne-nil, node-insert}
use outpack_server.Prelude.{
  Bytes, [], ap, append-nil, append_assoc, arith, false, length, length-append, refl, true, ◌++◌,
  ◌+◌, ◌<◌, ◌∷◌, ◌≡◌, ◌≢◌,
}
use outpack_server.Result.{ok}

insert-exists :
    (p q : FilePath) (n : Node) (fs : Fs)
    → p ≢ []
    → exists fs q ≡ true
    → exists (insert p n fs) q ≡ true
unfolding exists
insert-exists p q n fs h e = ground (arith, node-insert p q n fs h)

exists-insert : (p : FilePath) (n : Node) (fs : Fs) → p ≢ [] → exists (insert p n fs) p ≡ true
unfolding exists
exists-insert p n fs h = ground (arith, node-insert p p n fs h)

create_dirs-exists :
    (p ts : FilePath) (fs : Fs) (q : FilePath)
    → exists fs q ≡ true
    → exists (create_dirs p ts fs).1 q ≡ true
unfolding create_dirs
create_dirs-exists p [] fs q e = e
create_dirs-exists p (t ∷ ts) fs q e =
    let r : FilePath = p ++ (t ∷ []) in
    ground (
      arith,
      create_dirs-exists r ts (insert r dir fs) q,
      create_dirs-exists r ts fs q,
      insert-exists r q dir fs (child-ne-nil p t),
    )

create_dirs-made :
    (p ts : FilePath) (fs : Fs)
    → exists fs p ≡ true
    → (create_dirs p ts fs).0 ≡ ok tt
    → exists (create_dirs p ts fs).1 (p ++ ts) ≡ true
unfolding create_dirs exists
create_dirs-made p [] fs h e = rw (append-nil p) h
create_dirs-made p (t ∷ ts) fs h e =
    let r : FilePath = p ++ (t ∷ []) in
    rw (← append_assoc p (t ∷ []) ts) (
      ground (
        arith,
        create_dirs-made r ts (insert r dir fs),
        create_dirs-made r ts fs,
        exists-insert r dir fs (child-ne-nil p t),
      ))

pub create_dir_all-exists :
    (p : FilePath) (fs : Fs) (q : FilePath)
    → exists fs q ≡ true
    → exists (create_dir_all p fs).1 q ≡ true
unfolding create_dir_all
create_dir_all-exists p fs q e = create_dirs-exists [] p fs q e

pub create_dir_all-made :
    (p : FilePath) (fs : Fs)
    → (create_dir_all p fs).0 ≡ ok tt
    → exists (create_dir_all p fs).1 p ≡ true
unfolding create_dir_all exists node
create_dir_all-made p fs e = create_dirs-made [] p fs refl e

pub write-exists :
    (p : FilePath) (bytes : Bytes) (fs : Fs) (q : FilePath)
    → exists fs q ≡ true
    → exists (write p bytes fs).1 q ≡ true
unfolding write
write-exists [] bytes fs q e = e
write-exists (a ∷ p) bytes fs q e =
    ground (arith, insert-exists (a ∷ p) q (file bytes) fs (λ h. cc))

insert_dir-absent :
    (r q : FilePath) (fs : Fs)
    → r ≢ []
    → r ≢ q
    → exists fs q ≡ false
    → exists (insert r dir fs) q ≡ false
unfolding exists
insert_dir-absent r q fs h d e = ground (arith, node-insert r q dir fs h)

-- Making a directory makes nothing at a path that is longer.
pub create_dirs-absent :
    (p ts : FilePath) (fs : Fs) (q : FilePath)
    → length p + length ts < length q
    → exists fs q ≡ false
    → exists (create_dirs p ts fs).1 q ≡ false
unfolding create_dirs
create_dirs-absent p [] fs q lt e = e
create_dirs-absent p (t ∷ ts) fs q lt e =
    let r : FilePath = p ++ (t ∷ []) in
    let longer : length r ≡ length p + 1 = length-append p (t ∷ []) in
    let shorter : length r + length ts < length q = omega arith in
    let differs : r ≢ q = λ same. absurd (omega (arith, ap length same)) in
    ground (
      arith,
      create_dirs-absent r ts (insert r dir fs) q shorter
          (insert_dir-absent r q fs (child-ne-nil p t) differs e),
      create_dirs-absent r ts fs q shorter e,
    )
