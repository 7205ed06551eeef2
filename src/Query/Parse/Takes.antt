-- ===== src/Query/Parse/Takes.antt =====
-- src/query/query.pest: how much of a text the parts of its rules leave.

use outpack_server.Prelude.{
  Bool, Bool-cases, Option, Text, [], arith, drop_while, inl, inr, length, none, refl, some,
  strip_prefix, suc, ℕ, ◌+◌, ◌<◌, ◌∷◌, ◌≡◌, ◌≤◌,
}
use outpack_server.Query.Parse.Grammar.{
  Outcome, Recognizer, after, atomic, exactly, exhausted, is_white, many, matched, one_of, optional,
  or_else, rule, skip, unmatched, ◌//◌, ◌~~◌, ◌~◌,
}
use outpack_server.Query.Parse.Pairs.{Pairs, Rule, no_pairs}

-- Of `n` bytes a match takes `k` at least, and the fuel is not spent.
abbrev pub Remains : ℕ → ℕ → Outcome → Type 0
Remains k n (matched ps rest) = k + length rest ≤ n
Remains k n unmatched = Unit
Remains k n exhausted = ⊥

-- On every text below `b` bytes.
pub record Takes (k b : ℕ) (p : Recognizer) : Type 0 where
  pub remains : (ts : Text) → length ts < b → Remains k (length ts) (p ts)

drop_while-shorter : (passes : ℕ → Bool) (ts : Text) → length (drop_while passes ts) ≤ length ts
drop_while-shorter passes [] = omega arith
drop_while-shorter passes (c ∷ ts) = ground (arith, drop_while-shorter passes ts)

strip_prefix-length :
    (t ts rest : Text) → strip_prefix t ts ≡ some rest → length t + length rest ≡ length ts
strip_prefix-length [] ts rest e = ground arith
strip_prefix-length (c ∷ t) [] rest e = cc
strip_prefix-length (c ∷ t) (d ∷ ts) rest e = ground (arith, strip_prefix-length t ts rest)

Remains-after :
    (j k n : ℕ) (o : Outcome) (f : Pairs → Text → Outcome)
    → Remains k n o
    → ((ps : Pairs) (rest : Text) → k + length rest ≤ n → Remains j n (f ps rest))
    → Remains j n (after o f)
Remains-after j k n (matched ps rest) f h onward = onward ps rest h
Remains-after j k n unmatched f h onward = h
Remains-after j k n exhausted f h onward = h

Remains-weaken : (k m n : ℕ) (o : Outcome) → Remains k m o → m ≤ n → Remains 0 n o
Remains-weaken k m n (matched ps rest) h le = omega arith
Remains-weaken k m n unmatched h le = h
Remains-weaken k m n exhausted h le = h

Remains-or_else :
    (k n : ℕ) (o u : Outcome) → Remains k n o → Remains k n u → Remains k n (or_else o u)
Remains-or_else k n (matched ps rest) u h i = h
Remains-or_else k n unmatched u h i = i
Remains-or_else k n exhausted u h i = h

module _ {k b : ℕ} where
  pub rule-Takes : (r : Rule) {p : Recognizer} → Takes k b p → Takes k b (rule r p)
  unfolding rule
  rule-Takes r {p = p} t = record {
    remains = λ ts lt. Remains-after k k (length ts) (p ts) _ (t.remains ts lt) λ ps rest h. h;
  }

  pub atomic-Takes : (r : Rule) {p : Recognizer} → Takes k b p → Takes k b (atomic r p)
  unfolding atomic
  atomic-Takes r {p = p} t = record {
    remains = λ ts lt. Remains-after k k (length ts) (p ts) _ (t.remains ts lt) λ ps rest h. h;
  }

  infixr 38 ◌otherwise◌
  pub ◌otherwise◌ : {p q : Recognizer} → Takes k b p → Takes k b q → Takes k b (p // q)
  unfolding ◌//◌
  ◌otherwise◌ {p = p} {q = q} t u = record {
    remains =
        λ ts lt. Remains-or_else k (length ts) (p ts) (q ts) (t.remains ts lt) (u.remains ts lt);
  }

-- What the first part takes is below the bound of the second.
sequence-Takes :
    (k m b : ℕ) (p q : Recognizer) → k + b ≡ m → Takes k m p → Takes 0 b q → Takes 0 m (p ~~ q)
unfolding ◌~~◌
sequence-Takes k m b p q e t u = record {
  remains = λ ts lt. Remains-after 0 k (length ts) (p ts) _ (t.remains ts lt) λ ps rest h.
      Remains-after 0 0 (length ts) (q rest) _
        (Remains-weaken 0 (length rest) (length ts) (q rest) (u.remains rest (omega arith))
          (omega arith))
        λ qs rest' h'. h';
}

module _ {b : ℕ} {p : Recognizer} where
  pub skip-Takes : Takes 0 b p → Takes 0 b (λ ts. p (skip ts))
  skip-Takes t = record {
    remains = λ ts lt.
        let shorter = drop_while-shorter is_white ts in
        Remains-weaken 0 (length (skip ts)) (length ts) (p (skip ts))
          (t.remains (skip ts) (omega arith)) shorter;
  }

  pub optional-Takes : Takes 0 b p → Takes 0 b (optional p)
  unfolding optional
  optional-Takes t = record {
    remains = λ ts lt.
        Remains-or_else 0 (length ts) (p ts) (matched no_pairs ts) (t.remains ts lt) (omega arith);
  }

  weaken-Takes : (k : ℕ) → Takes k b p → Takes 0 b p
  weaken-Takes k t = record {
    remains =
        λ ts lt. Remains-weaken k (length ts) (length ts) (p ts) (t.remains ts lt) (omega arith);
  }

module _ {b : ℕ} {p q : Recognizer} where
  infixr 40 ◌with_space◌ ◌joined_to◌
  pub ◌joined_to◌ : Takes 0 b p → Takes 0 b q → Takes 0 b (p ~~ q)
  t joined_to u = sequence-Takes 0 b b p q (omega arith) t u

  pub ◌with_space◌ : Takes 0 b p → Takes 0 b q → Takes 0 b (p ~ q)
  unfolding ◌~◌
  t with_space u = sequence-Takes 0 b b p _ (omega arith) t (skip-Takes u)

  pub guarded-Takes : Takes 1 (suc b) p → Takes 0 b q → Takes 0 (suc b) (p ~ q)
  unfolding ◌~◌
  guarded-Takes t u = sequence-Takes 1 (suc b) b p _ (omega arith) t (skip-Takes u)

Remains-stripped :
    (k n : ℕ) (o : Option Text)
    → ((rest : Text) → o ≡ some rest → k + length rest ≤ n)
    → Remains k n (elim o [ none ↦ unmatched | some rest ↦ matched no_pairs rest ])
Remains-stripped k n none h = _
Remains-stripped k n (some rest) h = h rest refl

Remains-exactly : (k : ℕ) (t ts : Text) → k ≤ length t → Remains k (length ts) (exactly t ts)
unfolding exactly
Remains-exactly k t ts le =
    Remains-stripped k (length ts) (strip_prefix t ts)
      λ rest e. let exact = strip_prefix-length t ts rest e in omega arith

Remains-one_of : (passes : ℕ → Bool) (ts : Text) → Remains 0 (length ts) (one_of passes ts)
unfolding one_of
Remains-one_of passes [] = _
Remains-one_of passes (c ∷ ts) = elim (Bool-cases (passes c)) [
  | inl e ↦ rw (Remains, e) (omega arith)
  | inr e ↦ rw (Remains, e) _
]

module _ {b : ℕ} where
  pub exactly-Takes : (k : ℕ) (t : Text) → k ≤ length t → Takes k b (exactly t)
  exactly-Takes k t le = record { remains = λ ts lt. Remains-exactly k t ts le }

  pub one_of-Takes : (passes : ℕ → Bool) → Takes 0 b (one_of passes)
  one_of-Takes passes = record { remains = λ ts lt. Remains-one_of passes ts }

  pub many-Takes : (passes : ℕ → Bool) → Takes 0 b (many passes)
  unfolding many
  many-Takes passes = record {
    remains = λ ts lt. let shorter = drop_while-shorter passes ts in omega arith;
  }

  pub words : (t : Text) → Takes 0 b (exactly t)
  words t = exactly-Takes 0 t (omega arith)
