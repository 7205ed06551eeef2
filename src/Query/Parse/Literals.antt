-- ===== src/Query/Parse/Literals.antt =====
-- src/query/query.pest: the literals that the printer of queries writes are read back.

use outpack_server.Float.{F64, finite, infinity, nan}
use outpack_server.Prelude.{
  &&-eq-true, Bool, Bool-cases, Text, [], all, ap, arith, codes, decimal, drop_while, false,
  in_range, inl, inr, is_digit, nat_eqb, refl, true, ℕ, ◌++◌, ◌∙◌, ◌∷◌, ◌≡◌,
}
use outpack_server.Query.Parse.Convert.{parse_test_value, peek}
use outpack_server.Query.Parse.Grammar.{
  atomic, exactly, is_inner, is_sign, many, match_boolean, match_exponent, match_literal,
  match_number, match_string, matched, one_of, optional, quoted, rule, unmatched, ◌//◌, ◌~~◌,
}
use outpack_server.Query.Parse.Pairs.{Pair, Rule, no_pairs, one_pair, pair}
use outpack_server.Query.Parse.Print.{
  FitsLiteral, is_whole, number_sign, print_literal, quote_of, whole_part,
}
use outpack_server.Query.Parse.Steps.{
  Stops, at_bracket, at_end, at_space, chosen, consumed-append, drop_while-all-append, in_rule,
  passed_over, touching, within,
}
use outpack_server.Query.Types.{Literal, bool, literal, number, string}
use outpack_server.Result.{ok}

-- What may follow a word begins with no digit.
digits_end : (k : Text) → Stops k → drop_while is_digit k ≡ k
digits_end _ at_end = refl
digits_end _ (at_space t) = refl
digits_end _ (at_bracket t) = refl

not_zero :
    (c : ℕ) (k : Text) → in_range b'1' b'9' c ≡ true → exactly (codes "0") (c ∷ k) ≡ unmatched
unfolding exactly
not_zero c k h = ground arith

passes_first :
    (passes : ℕ → Bool) (c : ℕ) (k : Text)
    → passes c ≡ true
    → one_of passes (c ∷ k) ≡ matched no_pairs k
unfolding one_of
passes_first passes c k h = rw h refl

first_digit :
    (c : ℕ) (k : Text)
    → in_range b'1' b'9' c ≡ true
    → (exactly (codes "0") // (one_of (in_range b'1' b'9') ~~ many is_digit)) (c ∷ k)
      ≡ matched no_pairs (drop_while is_digit k)
unfolding ◌~~◌ ◌//◌ many
first_digit c k h = rw (not_zero c k h, passes_first (in_range b'1' b'9') c k h) refl

one_digit :
    (c : ℕ) (k : Text)
    → is_digit c ≡ true
    → drop_while is_digit k ≡ k
    → (exactly (codes "0") // (one_of (in_range b'1' b'9') ~~ many is_digit)) (c ∷ k)
      ≡ matched no_pairs k
unfolding ◌//◌ exactly
one_digit c k h e = elim (Bool-cases (nat_eqb b'0' c)) [
  | inl zero_first ↦ rw (exactly, zero_first) refl
  | inr differs ↦
      let first : in_range b'1' b'9' c ≡ true = ground arith in
      first_digit c k first ∙ ap (matched no_pairs) e
]

match_whole :
    (t k : Text)
    → is_whole t ≡ true
    → Stops k
    → (exactly (codes "0") // (one_of (in_range b'1' b'9') ~~ many is_digit)) (t ++ k)
      ≡ matched no_pairs k
unfolding ◌~~◌ ◌//◌ exactly one_of many
match_whole [] k h s = cc
match_whole (c ∷ []) k h s = one_digit c k h (digits_end k s)
match_whole (c ∷ d ∷ t) k h s =
    let (first, others) = &&-eq-true (in_range b'1' b'9' c) (all is_digit (d ∷ t)) h in
    first_digit c (d ∷ (t ++ k)) first
    ∙ ap (matched no_pairs) (drop_while-all-append is_digit (d ∷ t) k others (digits_end k s))

-- Neither a fraction nor an exponent follows.
ends_whole :
    (k : Text)
    → Stops k
    → (optional (exactly (codes ".") ~~ many is_digit) ~~ optional match_exponent) k
      ≡ matched no_pairs k
unfolding ◌~~◌ optional exactly one_of many
ends_whole _ at_end = refl
ends_whole _ (at_space t) = refl
ends_whole _ (at_bracket t) = refl

match_sign :
    (x : F64) (k : Text) → optional (one_of is_sign) (number_sign x ∷ k) ≡ matched no_pairs k
unfolding optional one_of
match_sign (finite true u) k = refl
match_sign (finite false u) k = refl
match_sign nan k = refl
match_sign (infinity s) k = refl

pub reads_number :
    (x : F64) (k : Text)
    → is_whole (decimal (whole_part x)) ≡ true
    → Stops k
    → match_number (number_sign x ∷ (decimal (whole_part x) ++ k))
      ≡ matched (one_pair (pair Rule.number (number_sign x ∷ decimal (whole_part x)) no_pairs)) k
unfolding match_number atomic
reads_number x k h s =
    rw
      (
        touching _ _ (match_sign x (decimal (whole_part x) ++ k))
            (touching _ _ (match_whole (decimal (whole_part x)) k h s) (ends_whole k s)),
        consumed-append (number_sign x ∷ decimal (whole_part x)) k,
      )
      refl

match_in_quotes :
    (quote : ℕ) (r : Rule) (t k : Text)
    → all (is_inner quote) t ≡ true
    → (atomic r (many (is_inner quote)) ~~ exactly (quote ∷ [])) (t ++ (quote ∷ k))
      ≡ matched (one_pair (pair r t no_pairs)) k
unfolding ◌~~◌ exactly many atomic
match_in_quotes quote r t k h =
    rw
      (
        drop_while-all-append (is_inner quote) t (quote ∷ k) h (ground arith),
        consumed-append t (quote ∷ k),
      )
      (ground arith)

in_quotes :
    (quote : ℕ) (r : Rule) (t k : Text)
    → all (is_inner quote) t ≡ true
    → quoted quote r (quote ∷ (t ++ (quote ∷ k))) ≡ matched (one_pair (pair r t no_pairs)) k
unfolding exactly
in_quotes quote r t k h =
    let opens : exactly (quote ∷ []) (quote ∷ (t ++ (quote ∷ k)))
        ≡ matched no_pairs (t ++ (quote ∷ k)) =
      ground arith in
    touching _ _ opens (match_in_quotes quote r t k h)

not_double : (t : Text) → quoted 34 Rule.inner_dbl (39 ∷ t) ≡ unmatched
unfolding ◌~~◌ exactly
not_double t = refl

abbrev string_pair : Rule → ℕ → Text → Text → Pair
string_pair r quote t k =
    within Rule.string (quote ∷ (t ++ (quote ∷ k))) k (one_pair (pair r t no_pairs))

-- A text in the quotes that the printer chooses.
reads_string :
    (t k : Text)
    → all (is_inner (quote_of t)) t ≡ true
    → (r : Rule) × (match_string (quote_of t ∷ (t ++ (quote_of t ∷ k)))
        ≡ matched (one_pair (string_pair r (quote_of t) t k)) k)
unfolding match_string
reads_string t k h = elim (Bool-cases (all (is_inner 34) t)) [
  | inl plain ↦ (Rule.inner_dbl, rw plain (in_rule _ _ (chosen _ _ (in_quotes 34 _ t k plain))))
  | inr e ↦
      let fits : all (is_inner 39) t ≡ true = rw e at h in
      (
        Rule.inner_sgl,
        rw e (in_rule _ _ (passed_over _ _ (not_double _) ∙ in_quotes 39 _ t k fits)),
      )
]

-- No text, truth value or lookup begins as a number is printed.
not_string : (x : F64) (t : Text) → match_string (number_sign x ∷ t) ≡ unmatched
unfolding match_string ◌~~◌ ◌//◌ exactly rule
not_string (finite true u) t = refl
not_string (finite false u) t = refl
not_string nan t = refl
not_string (infinity s) t = refl

not_boolean : (x : F64) (t : Text) → match_boolean (number_sign x ∷ t) ≡ unmatched
unfolding match_boolean ◌//◌ exactly rule
not_boolean (finite true u) t = refl
not_boolean (finite false u) t = refl
not_boolean nan t = refl
not_boolean (infinity s) t = refl

abbrev ReadsLiteral : Literal → Text → Type 0
ReadsLiteral l k =
    (p : Pair) × (match_literal (print_literal l k) ≡ matched (one_pair p) k)
    × (parse_test_value p ≡ ok (literal l))

reads_boolean : (b : Bool) (k : Text) → ReadsLiteral (bool b) k
unfolding match_literal match_string match_boolean ◌~~◌ ◌//◌ exactly rule print_literal
    parse_test_value peek
reads_boolean true k = (
  within Rule.literal (codes "true" ++ k) k (one_pair (pair Rule.boolean (codes "true") no_pairs)),
  rw (consumed-append (codes "true") k) refl,
  refl,
)
reads_boolean false k = (
  within Rule.literal (codes "false" ++ k) k
      (one_pair (pair Rule.boolean (codes "false") no_pairs)),
  rw (consumed-append (codes "false") k) refl,
  refl,
)

chosen_last :
    (x : F64) (k : Text)
    → is_whole (decimal (whole_part x)) ≡ true
    → Stops k
    → (match_string // match_boolean // match_number)
        (number_sign x ∷ (decimal (whole_part x) ++ k))
      ≡ matched (one_pair (pair Rule.number (number_sign x ∷ decimal (whole_part x)) no_pairs)) k
chosen_last x k h s =
    passed_over _ _ (not_string x _) ∙ passed_over _ _ (not_boolean x _) ∙ reads_number x k h s

pub reads_literal : (l : Literal) (k : Text) → FitsLiteral l → Stops k → ReadsLiteral l k
unfolding match_literal print_literal parse_test_value peek
reads_literal (bool b) k h s = reads_boolean b k
reads_literal (string t) k h s =
    let (r, e) = reads_string t k h in
    (_, in_rule Rule.literal _ (chosen match_string (match_boolean // match_number) e), refl)
reads_literal (number x) k (whole, e) s =
    let others = chosen_last x k whole s in (_, in_rule Rule.literal _ others, rw e refl)
