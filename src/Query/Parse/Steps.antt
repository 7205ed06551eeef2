-- ===== src/Query/Parse/Steps.antt =====
-- src/query/query.pest: what the parts of its rules make of a text, and what may follow a word.

use outpack_server.Prelude.{
  Bool, Text, [], all, arith, drop_while, false, length, length-append, nat_eqb, refl, take, true,
  ℕ, ◌++◌, ◌-◌, ◌∷◌, ◌≡◌,
}
use outpack_server.Query.Parse.Grammar.{
  Recognizer, consumed, exactly, matched, optional, rule, skip, unmatched, ◌//◌, ◌~~◌, ◌~◌,
}
use outpack_server.Query.Parse.Pairs.{Pair, Pairs, Rule, append, no_pairs, one_pair, pair}

pub data Stops : Text → Type 0 where
  at_end : Stops []
  at_space : (t : Text) → Stops (b' ' ∷ t)
  at_bracket : (t : Text) → Stops (b')' ∷ t)

pub left_over : (t k : Text) → length (t ++ k) - length k ≡ length t
left_over t k = omega (arith, length-append t k)

pub take-append : (t k : Text) → take (length t) (t ++ k) ≡ t
take-append [] k = refl
take-append (c ∷ t) k = rw (take-append t k)

pub consumed-append : (t k : Text) → consumed (t ++ k) k ≡ t
consumed-append t k = rw (left_over t k) (take-append t k)

pub drop_while-all-append :
    (passes : ℕ → Bool) (t k : Text)
    → all passes t ≡ true
    → drop_while passes k ≡ k
    → drop_while passes (t ++ k) ≡ k
drop_while-all-append passes [] k h e = e
drop_while-all-append passes (c ∷ t) k h e = ground (arith, drop_while-all-append passes t k)

-- Within a rule the pair has the text that it was read from.
abbrev pub within : Rule → Text → Text → Pairs → Pair
within r ts rest inner = pair r (consumed ts rest) inner

pub touching :
    (p q : Recognizer) {ts rest rest' : Text} {ps qs : Pairs}
    → p ts ≡ matched ps rest
    → q rest ≡ matched qs rest'
    → (p ~~ q) ts ≡ matched (append ps qs) rest'
unfolding ◌~~◌
touching p q e f = rw (e, f) refl

pub chosen :
    (p q : Recognizer) {ts rest : Text} {ps : Pairs}
    → p ts ≡ matched ps rest
    → (p // q) ts ≡ matched ps rest
unfolding ◌//◌
chosen p q e = rw e refl

pub passed_over : (p q : Recognizer) {ts : Text} → p ts ≡ unmatched → (p // q) ts ≡ q ts
unfolding ◌//◌
passed_over p q e = rw e refl

pub in_rule :
    (r : Rule) (p : Recognizer) {ts rest : Text} {ps : Pairs}
    → p ts ≡ matched ps rest
    → rule r p ts ≡ matched (one_pair (within r ts rest ps)) rest
unfolding rule
in_rule r p e = rw e refl

pub spaced_from :
    (p q : Recognizer) {ts rest rest' : Text} {ps qs : Pairs}
    → p ts ≡ matched ps rest
    → q (skip rest) ≡ matched qs rest'
    → (p ~ q) ts ≡ matched (append ps qs) rest'
unfolding ◌~◌ ◌~~◌
spaced_from p q e f = rw (e, f) refl

pub not_begun : (p q : Recognizer) {ts : Text} → p ts ≡ unmatched → (p ~ q) ts ≡ unmatched
unfolding ◌~◌ ◌~~◌
not_begun p q e = rw e refl

pub not_in_rule :
    (r : Rule) (p : Recognizer) {ts : Text} → p ts ≡ unmatched → rule r p ts ≡ unmatched
unfolding rule
not_in_rule r p e = rw e refl

pub without : (p : Recognizer) {ts : Text} → p ts ≡ unmatched → optional p ts ≡ matched no_pairs ts
unfolding optional
without p e = rw e refl

pub with_it :
    (p : Recognizer) {ts rest : Text} {ps : Pairs}
    → p ts ≡ matched ps rest
    → optional p ts ≡ matched ps rest
unfolding optional
with_it p e = rw e refl

pub not_at : (d c : ℕ) (w t : Text) → nat_eqb d c ≡ false → exactly (d ∷ w) (c ∷ t) ≡ unmatched
unfolding exactly
not_at d c w t h = ground arith

pub not_followed :
    (p q : Recognizer) {ts rest : Text} {ps : Pairs}
    → p ts ≡ matched ps rest
    → q (skip rest) ≡ unmatched
    → (p ~ q) ts ≡ unmatched
unfolding ◌~◌ ◌~~◌
not_followed p q e f = rw (e, f) refl
