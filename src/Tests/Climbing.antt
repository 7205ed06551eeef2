-- ===== src/Tests/Climbing.antt =====
-- A value of the parameter `Pratt`, and that it has the behaviour that is asked of it.

use outpack_server.Prelude.{
  List, Option, [], ap, append-nil, append_assoc, none, refl, some, suc, sym, true, zero, ℕ, ◌++◌,
  ◌∙◌, ◌∷◌, ◌≡◌,
}
use outpack_server.Query.Parse.Pairs.{Rule}
use outpack_server.Query.Parse.Pratt.{
  Binds, IsPratt, Pratt, Tree, fold, is_primary, joined, leaf, negated, pairs_of,
}
use outpack_server.Query.Types.{and, or}

module _ {T : Type 0} (prefix : Rule → T → T) (infix_op : T → Rule → T → T) where
  abbrev negate : ℕ → T → T
  negate zero t = t
  negate (suc n) t = negate n (prefix Rule.negation t)

  abbrev with_left : Rule → Option T → T → T
  with_left r none t = t
  with_left r (some l) t = infix_op l r t

  -- The `||` chain so far, the `&&` chain so far, and the negations that wait for an operand.
  unfoldable mutual
    pub climb : Option T → Option T → ℕ → List (Rule × T) → Option T
    climb o a n [] = none
    climb o a n ((Rule.negation, t) ∷ ps) = climb o a (suc n) ps
    climb o a n ((Rule.and, t) ∷ ps) = none
    climb o a n ((Rule.or, t) ∷ ps) = none
    climb o a n ((r, t) ∷ ps) = climb_on o (with_left Rule.and a (negate n t)) ps

    pub climb_on : Option T → T → List (Rule × T) → Option T
    climb_on o a [] = some (with_left Rule.or o a)
    climb_on o a ((Rule.and, t) ∷ ps) = climb o (some a) 0 ps
    climb_on o a ((Rule.or, t) ∷ ps) = climb (some (with_left Rule.or o a)) none 0 ps
    climb_on o a (_ ∷ ps) = none

-- As the operators of the program bind.
abbrev pub climbing : Pratt
climbing = record { parse = λ T operators prefix infix_op ps. climb prefix infix_op none none 0 ps }

module _ {T : Type 0} (prefix : Rule → T → T) (infix_op : T → Rule → T → T) where
  climb-leaf :
      (r : Rule) (t : T) (o a : Option T) (n : ℕ) (ps : List (Rule × T))
      → is_primary r ≡ true
      → climb prefix infix_op o a n ((r, t) ∷ ps)
        ≡ climb_on prefix infix_op o
            (with_left prefix infix_op Rule.and a (negate prefix infix_op n t))
            ps
  unfolding climb climb_on
  climb-leaf Rule.negation t o a n ps h = cc
  climb-leaf Rule.and t o a n ps h = cc
  climb-leaf Rule.or t o a n ps h = cc
  climb-leaf Rule.query t o a n ps h = refl
  climb-leaf _ t o a n ps h = refl

  climb-operand :
      (e : Tree T) (o a : Option T) (n : ℕ) (ps : List (Rule × T))
      → Binds 2 e
      → climb prefix infix_op o a n (pairs_of e ++ ps)
        ≡ climb_on prefix infix_op o
            (with_left prefix infix_op Rule.and a
              (negate prefix infix_op n (fold prefix infix_op e)))
            ps
  unfolding climb climb_on
  climb-operand (leaf r t) o a n ps h = climb-leaf r t o a n ps h
  climb-operand (negated u e) o a n ps h = climb-operand e o a (suc n) ps h
  climb-operand (joined and l u r) o a n ps h = cc
  climb-operand (joined or l u r) o a n ps h = cc

  climb-and :
      (e : Tree T) (o : Option T) (ps : List (Rule × T))
      → Binds 1 e
      → climb prefix infix_op o none 0 (pairs_of e ++ ps)
        ≡ climb_on prefix infix_op o (fold prefix infix_op e) ps
  unfolding climb climb_on
  climb-and (leaf r t) o ps h = climb-leaf r t o none 0 ps h
  climb-and (negated u e) o ps h = climb-operand (negated u e) o none 0 ps h
  climb-and (joined and l u r) o ps (_, h, k) =
      rw
        (
          append_assoc (pairs_of l) ((Rule.and, u) ∷ pairs_of r) ps,
          climb-and l o ((Rule.and, u) ∷ (pairs_of r ++ ps)) h,
        )
        (climb-operand r o (some (fold prefix infix_op l)) 0 ps k)
  climb-and (joined or l u r) o ps h = cc

  climb-or :
      (e : Tree T) (ps : List (Rule × T))
      → Binds 0 e
      → (o : Option T) × (a : T) × (climb prefix infix_op none none 0 (pairs_of e ++ ps)
          ≡ climb_on prefix infix_op o a ps)
        × (with_left prefix infix_op Rule.or o a ≡ fold prefix infix_op e)
  unfolding climb climb_on
  climb-or (leaf r t) ps h = (none, t, climb-and (leaf r t) none ps h, refl)
  climb-or (negated u e) ps h = (none, _, climb-and (negated u e) none ps h, refl)
  climb-or (joined and l u r) ps h = (none, _, climb-and (joined and l u r) none ps h, refl)
  climb-or (joined or l u r) ps (_, h, k) =
      let (o, a, e, same) = climb-or l ((Rule.or, u) ∷ (pairs_of r ++ ps)) h in
      (
        some (fold prefix infix_op l),
        fold prefix infix_op r,
        ap (climb prefix infix_op none none 0)
              (append_assoc (pairs_of l) ((Rule.or, u) ∷ pairs_of r) ps)
            ∙ e
            ∙ ap (λ t. climb prefix infix_op (some t) none 0 (pairs_of r ++ ps)) same
            ∙ climb-and r (some (fold prefix infix_op l)) ps k,
        refl,
      )

pub climbing-IsPratt : IsPratt climbing
unfolding climb climb_on
climbing-IsPratt = record {
  parse-pairs_of = λ T prefix infix_op e h.
      let (o, a, same, folded) = climb-or prefix infix_op e [] h in
      ap (climb prefix infix_op none none 0) (sym (append-nil (pairs_of e)))
      ∙ same
      ∙ ap some folded;
}
