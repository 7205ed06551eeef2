-- ===== src/Io/FilePath.antt =====
-- `std::path`: paths from the root of the file system, as lists of names. `.`, `..` and repeated
-- separators are taken out when a path is joined, as the system does on the way through
-- directories that exist and are no links.

use outpack_server.Prelude.{
  List, Text, [], all, arith, codes, if◌then◌else◌, list_eq, nat_eq, nat_eqb, not, refl, true, ℕ,
  ◌++◌, ◌==◌, ◌∷◌, ◌≡◌, ◌≢◌,
}

abbrev pub FilePath : Type 0
FilePath = List Text

abbrev cons_head : ℕ → List Text → List Text
cons_head c [] = (c ∷ []) ∷ []
cons_head c (t ∷ ts) = (c ∷ t) ∷ ts

-- `str::split` by one byte.
unfoldable pub split : ℕ → Text → List Text
split sep [] = [] ∷ []
split sep (c ∷ t) = let rest = split sep t in if nat_eqb c sep then [] ∷ rest else cons_head c rest

abbrev pub parent : FilePath → FilePath
parent [] = []
parent (a ∷ []) = []
parent (a ∷ b ∷ p) = a ∷ parent (b ∷ p)

push : FilePath → Text → FilePath
push p [] = p
push p (c ∷ t) =
    if (c ∷ t) == codes "."
    then p
    else if (c ∷ t) == codes ".."
    then parent p
    else p ++ ((c ∷ t) ∷ [])

push_all : FilePath → List Text → FilePath
push_all p [] = p
push_all p (t ∷ ts) = push_all (push p t) ts

-- `Path::join`: an absolute path takes the place of the path that it is joined to.
unfoldable pub join : FilePath → Text → FilePath
unfolding push_all push
join p [] = p
join p (c ∷ t) = push_all (if nat_eqb c b'/' then [] else p) (split b'/' (c ∷ t))

-- A file name: not empty, not `.` or `..`, and without a separator.
abbrev pub IsName : Text → Type 0
IsName t =
    (t ≢ []) × (t ≢ codes ".") × (t ≢ codes "..") × (all (λ c. not (nat_eqb c b'/')) t ≡ true)

split-name : (t : Text) → t ≢ [] → all (λ c. not (nat_eqb c b'/')) t ≡ true → split b'/' t ≡ t ∷ []
unfolding split
split-name [] n h = absurd (n refl)
split-name (c ∷ []) n h = ground arith
split-name (c ∷ d ∷ t) n h = ground (arith, split-name (d ∷ t))

-- Joining a file name appends it.
pub join-name : (p : FilePath) (t : Text) → IsName t → join p t ≡ p ++ (t ∷ [])
unfolding join
join-name p [] h = absurd (h.0 refl)
join-name p (c ∷ t) (n, a, b, h) = ground (arith, split-name (c ∷ t) n h)
