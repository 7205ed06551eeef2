-- ===== src/Io/MadeDirs.antt =====
-- `fs::create_dir_all` succeeds where no file stands on the way.

use outpack_server.Io.FilePath.{FilePath}
use outpack_server.Io.Fs.{
  Fs, IoResult, Node, create_dir_all, create_dirs, dir, file, insert, is_under, node,
}
use outpack_server.Io.Laws.{child-ne-nil, file_at, file_at-insert_dir, is_under-append, node-insert}
use outpack_server.Prelude.{
  List, Option, Text, [], append-nil, append_assoc, arith, inl, inr, none, refl, some, true, ◌++◌,
  ◌∙◌, ◌∷◌, ◌≡◌, ◌≢◌, ◌⊎◌,
}
use outpack_server.Result.{ok}

-- No file stands on the way to a directory.
abbrev pub IsClear : Fs → FilePath → Type 0
IsClear fs p = (q : FilePath) → is_under q p ≡ true → file_at fs q ≡ none

no_file :
    (o : Option Node)
    → elim o [ some (file bytes) ↦ some bytes | _ ↦ none ] ≡ none
    → (o ≡ none) ⊎ (o ≡ some dir)
no_file none e = inl refl
no_file (some dir) e = inr refl
no_file (some (file bytes)) e = cc

module _ (p : FilePath) (t : Text) (ts : List Text) (fs : Fs) where
  create_dirs_new :
      node fs (p ++ (t ∷ [])) ≡ none
      → create_dirs p (t ∷ ts) fs ≡ create_dirs (p ++ (t ∷ [])) ts (insert (p ++ (t ∷ [])) dir fs)
  unfolding create_dirs
  create_dirs_new e = rw (create_dirs, e) refl

  create_dirs_there :
      node fs (p ++ (t ∷ [])) ≡ some dir
      → create_dirs p (t ∷ ts) fs ≡ create_dirs (p ++ (t ∷ [])) ts fs
  unfolding create_dirs
  create_dirs_there e = rw (create_dirs, e) refl

insert_dir-IsClear :
    (r p : FilePath) (fs : Fs)
    → r ≢ []
    → node fs r ≡ none
    → IsClear fs p
    → IsClear (insert r dir fs) p
insert_dir-IsClear r p fs h new clear q under = file_at-insert_dir r q fs h new ∙ clear q under

-- The directory is made, or was there.
abbrev pub MadeDir : FilePath → IoResult (Unit {0}) × Fs → Type 0
MadeDir p r = (r.0 ≡ ok tt) × (node r.1 p ≡ some dir)

create_dirs-MadeDir :
    (p ts : FilePath) (fs : Fs)
    → node fs p ≡ some dir
    → IsClear fs (p ++ ts)
    → MadeDir (p ++ ts) (create_dirs p ts fs)
unfolding create_dirs
create_dirs-MadeDir p [] fs d clear = (refl, rw (append-nil p) d)
create_dirs-MadeDir p (t ∷ ts) fs d clear =
    let r : FilePath = p ++ (t ∷ []) in
    let split_here : r ++ ts ≡ p ++ (t ∷ ts) = append_assoc p (t ∷ []) ts in
    let onward : IsClear fs (r ++ ts) = rw split_here clear in
    let nonempty = child-ne-nil p t in
    elim (no_file (node fs r) (onward r (is_under-append r ts))) [
      | inl new ↦
          rw (create_dirs_new p t ts fs new, ← split_here)
            (create_dirs-MadeDir r ts (insert r dir fs)
              (ground (arith, node-insert r r dir fs nonempty))
              (insert_dir-IsClear r (r ++ ts) fs nonempty new onward))
      | inr there ↦
          rw (create_dirs_there p t ts fs there, ← split_here)
            (create_dirs-MadeDir r ts fs there onward)
    ]

pub create_dir_all-MadeDir :
    (p : FilePath) (fs : Fs) → IsClear fs p → MadeDir p (create_dir_all p fs)
unfolding create_dir_all node
create_dir_all-MadeDir p fs clear = create_dirs-MadeDir [] p fs refl clear
