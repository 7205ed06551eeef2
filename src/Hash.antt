-- ===== src/Hash.antt =====
-- src/hash.rs: hash algorithms and hashes as text, and the check of data against a hash. The
-- digests themselves (crates md5, sha1 and sha2) are the parameter `digest`.
pub mod Laws
use outpack_server.Prelude.{
  Bool, Bytes, Option, Text, [], codes, drop_while, false, if◌then◌else◌, is_alnum, is_xdigit,
  list_eq, nat_eq, nat_eqb, none, some, take_while, trim_start, true, ◌&&◌, ◌++◌, ◌==◌, ◌∷◌,
}
use outpack_server.Result.{Result, err, ok, ok_or, ◌>>=◌, ◌>>◌}

pub data HashAlgorithm : Type 0 where
  md5 sha1 sha256 sha384 sha512 : HashAlgorithm

pub record Hash : Type 0 where
  pub algorithm : HashAlgorithm
  pub value : Text

pub data HashErrorKind : Type 0 where
  invalid_hash_format invalid_hash_algorithm hashes_dont_match : HashErrorKind
  invalid_expected_hash file_read_failed : HashErrorKind

pub record HashError : Type 0 where
  pub kind : HashErrorKind
  pub explanation : Text

-- The derived equality.
abbrev pub same_algorithm : HashAlgorithm → HashAlgorithm → Bool
same_algorithm md5 md5 = true
same_algorithm sha1 sha1 = true
same_algorithm sha256 sha256 = true
same_algorithm sha384 sha384 = true
same_algorithm sha512 sha512 = true
same_algorithm _ _ = false

abbrev pub same_hash : Hash → Hash → Bool
same_hash a b = same_algorithm a.algorithm b.algorithm && a.value == b.value

-- `impl Display for HashAlgorithm`
unfoldable pub algorithm_text : HashAlgorithm → Text
algorithm_text md5 = codes "md5"
algorithm_text sha1 = codes "sha1"
algorithm_text sha256 = codes "sha256"
algorithm_text sha384 = codes "sha384"
algorithm_text sha512 = codes "sha512"

-- `impl Display for Hash`
unfoldable pub hash_text : Hash → Text
unfolding algorithm_text
hash_text h = algorithm_text h.algorithm ++ (b':' ∷ h.value)

-- `impl FromStr for HashAlgorithm`
unfoldable pub parse_algorithm : Text → Result HashError HashAlgorithm
unfolding list_eq nat_eq
parse_algorithm s =
    if s == codes "md5"
    then ok md5
    else if s == codes "sha1"
    then ok sha1
    else if s == codes "sha256"
    then ok sha256
    else if s == codes "sha384"
    then ok sha384
    else if s == codes "sha512"
    then ok sha512
    else err (record {
      kind = invalid_hash_algorithm;
      explanation = codes "Invalid hash algorithm '" ++ (s ++ codes "'");
    })

abbrev is_empty : Text → Bool
is_empty [] = true
is_empty (_ ∷ _) = false

-- The groups of `:(?<value>[[:xdigit:]]+)\s*$`, once the algorithm's letters are read.
captures_value : Text → Text → Option (Text × Text)
captures_value [] rest = none
captures_value (a ∷ algorithm) [] = none
captures_value (a ∷ algorithm) (c ∷ rest) =
    let value : Text = take_while is_xdigit rest in
    let after : Text = drop_while is_xdigit rest in
    if nat_eqb c b':'
    then if is_empty value
      then none
      else if is_empty (trim_start after)
      then some (a ∷ algorithm, value)
      else none
    else none

-- The groups of `^\s*(?<algorithm>[[:alnum:]]+):(?<value>[[:xdigit:]]+)\s*$`. No character may
-- stand in two neighbouring parts of the pattern, so each part takes as many as it can.
unfoldable pub captures : Text → Option (Text × Text)
unfolding captures_value trim_start
captures s =
    let t : Text = trim_start s in captures_value (take_while is_alnum t) (drop_while is_alnum t)

-- `impl FromStr for Hash`
unfoldable pub parse_hash : Text → Result HashError Hash
parse_hash s = do
  (algorithm, value) ←
      ok_or
        (record {
          kind = invalid_hash_format;
          explanation = codes "Invalid hash format '" ++ (s ++ codes "'");
        })
        (captures s)
  a ← parse_algorithm algorithm
  ok (record { algorithm = a; value = value })

unfoldable pub validate_hash : Hash → Hash → Result HashError (Unit {0})
unfolding hash_text
validate_hash found expected =
    if same_hash found expected
    then ok tt
    else err (record {
      kind = hashes_dont_match;
      explanation =
          codes "Expected hash '"
          ++ (hash_text expected ++ (codes "' but found '" ++ (hash_text found ++ codes "'")));
    })

-- What the program uses of the digest crates: the lower-case hexadecimal digest of some bytes.
abbrev pub Digest : Type 0
Digest = HashAlgorithm → Bytes → Text

module _ (digest : Digest) where
  -- `hash_stream` on a stream whose reads succeed, and so `hash_data`.
  unfoldable pub hash_data : Bytes → HashAlgorithm → Hash
  hash_data bytes algorithm = record { algorithm = algorithm; value = digest algorithm bytes }

  unfoldable pub validate_hash_data : Bytes → Text → Result HashError (Unit {0})
  unfolding parse_hash hash_data validate_hash
  validate_hash_data bytes expected = do
    e ← parse_hash expected
    validate_hash (hash_data bytes e.algorithm) e
