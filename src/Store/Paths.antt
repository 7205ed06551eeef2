-- ===== src/Store/Paths.antt =====
-- src/store.rs, `file_path`: different hashes have different paths.

use outpack_server.Hash.{Hash, HashAlgorithm, algorithm_text, md5, parse_hash}
use outpack_server.Hash.Laws.{IsHex, parse_algorithm-algorithm_text, parse_hash-eq-ok_iff}
use outpack_server.Io.FilePath.{FilePath, IsName, join, join-name}
use outpack_server.Prelude.{
  Text, [], all, append-nil, append_assoc, arith, drop, if◌then◌else◌, is_xdigit, leb, length,
  nat_eqb, not, refl, sym, take, take-append-drop, true, ℕ, ◌++◌, ◌∙◌, ◌∷◌, ◌≡◌,
}
use outpack_server.Result.{ok, panicked, ◌>>=◌}
use outpack_server.Store.{file_path, files_dir, split_value}

pub append_cancel : (p : FilePath) {a b : FilePath} → p ++ a ≡ p ++ b → a ≡ b
append_cancel [] e = e
append_cancel (x ∷ p) e = append_cancel p (cc)

-- The names of a hash below the directory of the files.
abbrev rest_names : Text → FilePath
rest_names [] = []
rest_names (c ∷ t) = (c ∷ t) ∷ []

abbrev pub hash_names : Hash → FilePath
hash_names h = algorithm_text h.algorithm ∷ take 2 h.value ∷ rest_names (drop 2 h.value)

rest_text : FilePath → Text
rest_text [] = []
rest_text (t ∷ _) = t

rest_text-rest_names : (t : Text) → rest_text (rest_names t) ≡ t
unfolding rest_text
rest_text-rest_names [] = refl
rest_text-rest_names (c ∷ t) = refl

xdigits-no_slash : (t : Text) → all is_xdigit t ≡ true → all (λ c. not (nat_eqb c b'/')) t ≡ true
xdigits-no_slash [] h = refl
xdigits-no_slash (c ∷ t) h = ground (arith, xdigits-no_slash t)

xdigits-IsName : (c : ℕ) (t : Text) → all is_xdigit (c ∷ t) ≡ true → IsName (c ∷ t)
xdigits-IsName c t h =
    ((λ e. cc), (λ e. ground arith), (λ e. ground arith), xdigits-no_slash (c ∷ t) h)

algorithm_text-IsName : (a : HashAlgorithm) → IsName (algorithm_text a)
unfolding algorithm_text
algorithm_text-IsName md5 = ((λ e. cc), (λ e. cc), (λ e. cc), refl)
algorithm_text-IsName _ = ((λ e. cc), (λ e. cc), (λ e. cc), refl)

join-rest : (p : FilePath) (t : Text) → all is_xdigit t ≡ true → join p t ≡ p ++ rest_names t
unfolding join
join-rest p [] h = sym (append-nil p)
join-rest p (c ∷ t) h = join-name p (c ∷ t) (xdigits-IsName c t h)

-- The last two steps of the path.
split-path :
    (base : FilePath) (v : Text)
    → IsHex v
    → (split_value v >>= λ (front, back). ok (join (join base front) back))
      ≡ (if leb 2 (length v) then ok (base ++ (take 2 v ∷ rest_names (drop 2 v))) else panicked)
unfolding split_value
split-path base [] h = cc
split-path base (a ∷ []) h = refl
split-path base (a ∷ b ∷ t) (n, h) =
    rw
      (
        join-name base (a ∷ b ∷ []) (xdigits-IsName a (b ∷ []) (ground arith)),
        join-rest _ t (ground arith),
      )
      (ground (arith, append_assoc base ((a ∷ b ∷ []) ∷ []) (rest_names t)))

-- Of a text that reads as a hash, the path is made of the directory of the files and the names of
-- that hash, if its value has two digits at least; if it has one, the slices panic.
pub file_path_of :
    (root : FilePath) (s : Text) (h : Hash)
    → parse_hash s ≡ ok h
    → file_path root s
      ≡ (if leb 2 (length h.value) then ok (files_dir root ++ hash_names h) else panicked)
unfolding file_path
file_path_of root s h e =
    let (_, _, hex, _) = (parse_hash-eq-ok_iff s h).0 e in
    rw e (
      split-path (join (files_dir root) (algorithm_text h.algorithm)) h.value hex
      ∙ ground (
        arith,
        join-name (files_dir root) (algorithm_text h.algorithm) (algorithm_text-IsName h.algorithm),
        append_assoc (files_dir root) (algorithm_text h.algorithm ∷ [])
            (take 2 h.value ∷ rest_names (drop 2 h.value)),
      ))

pub hash_names-injective : (h k : Hash) → hash_names h ≡ hash_names k → h ≡ k
hash_names-injective h k e =
    let a : h.algorithm ≡ k.algorithm =
      cc (parse_algorithm-algorithm_text h.algorithm, parse_algorithm-algorithm_text k.algorithm) in
    let v : h.value ≡ k.value = cc (
      take-append-drop 2 h.value,
      take-append-drop 2 k.value,
      rest_text-rest_names (drop 2 h.value),
      rest_text-rest_names (drop 2 k.value),
    ) in
    λ i. record { algorithm = a i; value = v i }
