-- ===== src/Query/Parse/Pratt.antt =====
-- The crate pest's `PrattParser`, as a parameter with the behaviour that it documents.

use outpack_server.Prelude.{Bool, List, Option, [], false, leb, some, suc, true, ℕ, ◌++◌, ◌∷◌, ◌≡◌}
use outpack_server.Query.Parse.Pairs.{Rule}
use outpack_server.Query.Types.{BooleanOperator, and, or}

pub data Associativity : Type 0 where
  left_assoc right_assoc : Associativity

-- `Op::infix` and `Op::prefix`
pub data Operator : Type 0 where
  infix_of : Rule → Associativity → Operator
  prefix_of : Rule → Operator

-- `map_primary(..).map_prefix(..).map_infix(..).parse(..)`, where each pair comes with what the
-- first function makes of it, which is used where the pair is no operator. `none` is a panic.
pub record Pratt : Type 1 where
  pub parse :
      (T : Type 0)
      → List Operator
      → (Rule → T → T)
      → (T → Rule → T → T)
      → List (Rule × T)
      → Option T

-- `PRATT_PARSER`: the operators, from those that bind least.
abbrev pub pratt_operators : List Operator
pratt_operators =
    infix_of Rule.or left_assoc ∷ infix_of Rule.and left_assoc ∷ prefix_of Rule.negation ∷ []

-- How an expression of the program's operators hangs together. An operator carries the value that
-- came with its pair.
pub data Tree (T : Type 0) : Type 0 where
  leaf : Rule → T → Tree T
  negated : T → Tree T → Tree T
  joined : BooleanOperator → Tree T → T → Tree T → Tree T

abbrev pub rule_of : BooleanOperator → Rule
rule_of and = Rule.and
rule_of or = Rule.or

abbrev pub level : BooleanOperator → ℕ
level or = 0
level and = 1

abbrev pub is_primary : Rule → Bool
is_primary Rule.negation = false
is_primary Rule.and = false
is_primary Rule.or = false
is_primary _ = true

module _ {T : Type 0} where
  -- The pairs of an expression, from the left.
  abbrev pub pairs_of : Tree T → List (Rule × T)
  pairs_of (leaf r t) = (r, t) ∷ []
  pairs_of (negated u e) = (Rule.negation, u) ∷ pairs_of e
  pairs_of (joined op l u r) = pairs_of l ++ ((rule_of op, u) ∷ pairs_of r)

  -- Operators bind as the table says: on the left of an operator stand operators that bind as much
  -- at least, on its right those that bind more.
  abbrev pub Binds : ℕ → Tree T → Type 0
  Binds n (leaf r t) = is_primary r ≡ true
  Binds n (negated u e) = Binds 2 e
  Binds n (joined op l u r) =
      (leb n (level op) ≡ true) × Binds (level op) l × Binds (suc (level op)) r

  module _ (prefix : Rule → T → T) (infix_op : T → Rule → T → T) where
    abbrev pub fold : Tree T → T
    fold (leaf r t) = t
    fold (negated u e) = prefix Rule.negation (fold e)
    fold (joined op l u r) = infix_op (fold l) (rule_of op) (fold r)

-- An expression is read back from its pairs, if its operators bind as the table says.
pub record IsPratt (pratt : Pratt) : Type 1 where
  pub parse-pairs_of :
      (T : Type 0) (prefix : Rule → T → T) (infix_op : T → Rule → T → T) (e : Tree T)
      → Binds 0 e
      → pratt.parse T pratt_operators prefix infix_op (pairs_of e) ≡ some (fold prefix infix_op e)
