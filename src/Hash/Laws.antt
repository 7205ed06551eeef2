-- ===== src/Hash/Laws.antt =====
-- src/hash.rs: which texts are hashes, and which data a hash accepts.
use outpack_server.Hash.{
  Digest, Hash, HashAlgorithm, algorithm_text, captures, captures_value, hash_data, hash_text,
  is_empty, md5, parse_algorithm, parse_hash, same_algorithm, validate_hash, validate_hash_data,
}
use outpack_server.Prelude.{
  Bytes, Option-cases, Text, [], all, all-take_while, ap, append-nil, append_assoc, arith,
  drop_while, drop_while-append, drop_while-all, false, inl, inr, is_alnum, is_xdigit, refl, some,
  sym, take_while, take_while-append, take_while-append-drop_while, take_while-all, trim_start,
  true, ℕ, ◌++◌, ◌↔◌, ◌∙◌, ◌∷◌, ◌≡◌,
}
use outpack_server.Result.{>>=-eq-ok, ok}

-- The value of a hash that can be written: hexadecimal digits, at least one.
abbrev pub IsHex : Text → Type 0
IsHex v = (is_empty v ≡ false) × (all is_xdigit v ≡ true)

pub parse_algorithm-algorithm_text : (a : HashAlgorithm) → parse_algorithm (algorithm_text a) ≡ ok a
unfolding parse_algorithm algorithm_text
parse_algorithm-algorithm_text md5 = refl
parse_algorithm-algorithm_text _ = refl

parse_algorithm_sound :
    (s : Text) (a : HashAlgorithm) → parse_algorithm s ≡ ok a → s ≡ algorithm_text a
unfolding parse_algorithm algorithm_text
parse_algorithm_sound s a h = ground arith

-- What `\s*$` leaves to be matched.
abbrev pub IsBlank : Text → Type 0
IsBlank t = trim_start t ≡ []

-- No white space character begins with a hexadecimal digit.
IsBlank-xdigit : (c : ℕ) (t : Text) → IsBlank (c ∷ t) → is_xdigit c ≡ false
unfolding trim_start
IsBlank-xdigit c [] h = ground arith
IsBlank-xdigit c (a ∷ []) h = ground arith
IsBlank-xdigit c (a ∷ b ∷ t) h = ground arith

digits-blank :
    (v post : Text)
    → all is_xdigit v ≡ true
    → IsBlank post
    → (take_while is_xdigit (v ++ post) ≡ v) × (drop_while is_xdigit (v ++ post) ≡ post)
digits-blank v [] h b = rw append-nil (take_while-all is_xdigit v h, drop_while-all is_xdigit v h)
digits-blank v (c ∷ post) h b =
    let stop = IsBlank-xdigit c post b in
    (take_while-append is_xdigit v c post h stop, drop_while-append is_xdigit v c post h stop)

-- The groups of a hash that is followed by white space.
captures_value-algorithm_text :
    (a : HashAlgorithm) (v post : Text)
    → IsHex v
    → IsBlank post
    → let t : Text = algorithm_text a ++ (b':' ∷ (v ++ post)) in
      captures_value (take_while is_alnum t) (drop_while is_alnum t) ≡ some (algorithm_text a, v)
unfolding captures_value algorithm_text
captures_value-algorithm_text md5 v post (n, h) b =
    rw ((digits-blank v post h b).0, (digits-blank v post h b).1, n, b)
captures_value-algorithm_text _ v post (n, h) b =
    rw ((digits-blank v post h b).0, (digits-blank v post h b).1, n, b)

is_empty-true : (t : Text) → is_empty t ≡ true → t ≡ []
is_empty-true [] h = refl
is_empty-true (_ ∷ t) h = cc

captures_value_sound :
    (a r : Text) {b v : Text}
    → captures_value a r ≡ some (b, v)
    → (post : Text) × (a ≡ b) × (r ≡ b':' ∷ (v ++ post)) × IsHex v × IsBlank post
unfolding captures_value
captures_value_sound [] r h = cc
captures_value_sound (_ ∷ a) [] h = cc
captures_value_sound (x ∷ a) (c ∷ r) h = (
  drop_while is_xdigit r,
  ground arith,
  ground (arith, take_while-append-drop_while is_xdigit r),
  ground (arith, all-take_while is_xdigit r),
  ground (arith, is_empty-true (trim_start (drop_while is_xdigit r))),
)

parse_hash-append :
    (s : Text) (h : Hash) (post : Text)
    → trim_start s ≡ hash_text h ++ post
    → IsHex h.value
    → IsBlank post
    → parse_hash s ≡ ok h
unfolding parse_hash hash_text captures
parse_hash-append s h post e v b =
    rw (e, append_assoc)
      (rw (
        captures_value-algorithm_text h.algorithm h.value post v b,
        parse_algorithm-algorithm_text h.algorithm,
      ))

parse_hash_groups :
    (s : Text) {h : Hash}
    → parse_hash s ≡ ok h
    → captures s ≡ some (algorithm_text h.algorithm, h.value)
unfolding parse_hash
parse_hash_groups s {h} p = elim (Option-cases (captures s)) [
  | inl e ↦ cc
  | inr ((b, v), e) ↦ ground (arith, parse_algorithm_sound b h.algorithm)
]

captures_sound :
    (s : Text) {b v : Text}
    → captures s ≡ some (b, v)
    → (post : Text) × (trim_start s ≡ b ++ (b':' ∷ (v ++ post))) × IsHex v × IsBlank post
unfolding captures
captures_sound s p =
    let t : Text = trim_start s in
    let (post, e, r, v, b) =
      captures_value_sound (take_while is_alnum t) (drop_while is_alnum t) p in
    (post, sym (take_while-append-drop_while is_alnum t) ∙ cc, v, b)

-- A text is read as a hash exactly when, behind white space, it is the text of that hash with
-- white space after it, and the hash has hexadecimal digits for its value.
pub parse_hash-eq-ok_iff :
    (s : Text) (h : Hash)
    → (parse_hash s ≡ ok h)
      ↔ ((post : Text) × (trim_start s ≡ hash_text h ++ post) × IsHex h.value × IsBlank post)
unfolding hash_text
parse_hash-eq-ok_iff s h = (
  λ p.
      let (post, e, v, b) = captures_sound s (parse_hash_groups s p) in
      (post, simp append_assoc e, v, b),
  λ (post, e, v, b). parse_hash-append s h post e v b,
)

same_algorithm_eq : (a b : HashAlgorithm) → same_algorithm a b ≡ true → a ≡ b
same_algorithm_eq a b h = ground arith

same_algorithm_refl : (a : HashAlgorithm) → same_algorithm a a ≡ true
same_algorithm_refl md5 = refl
same_algorithm_refl _ = refl

validate_hash-eq-ok_iff :
    (found expected : Hash) → (validate_hash found expected ≡ ok tt) ↔ (found ≡ expected)
unfolding validate_hash
validate_hash-eq-ok_iff f e = (
  λ h. ground (arith, same_algorithm_eq f.algorithm e.algorithm),
  λ p. rw p (ground (arith, same_algorithm_refl e.algorithm)),
)

-- Data passes the check against a text exactly when the text reads as the hash of that data under
-- the algorithm that the text names.
pub validate_hash_data-eq-ok_iff :
    (digest : Digest) (bytes : Bytes) (s : Text)
    → (validate_hash_data digest bytes s ≡ ok tt)
      ↔ ((a : HashAlgorithm) × (parse_hash s ≡ ok (hash_data digest bytes a)))
unfolding validate_hash_data hash_data
validate_hash_data-eq-ok_iff digest bytes s = (
  λ h.
      let (e, read, same) = >>=-eq-ok (parse_hash s) _ h in
      (e.algorithm, read ∙ ap ok (sym ((validate_hash-eq-ok_iff _ e).0 same))),
  λ (a, read). rw read ((validate_hash-eq-ok_iff _ _).1 refl),
)
