-- ===== src/Query/Types.antt =====
-- src/query/query_types.rs: the syntax tree of a query.
use Prim.Native.Nat.{Ordering}
use outpack_server.Float.{F64, eq_of, partial_cmp}
use outpack_server.Prelude.{Bool, Option, Text, false, list_eq, nat_eq, none, true, ◌==◌}

pub data PacketLookup : Type 0 where
  name id : PacketLookup
  parameter : Text → PacketLookup

pub data Lookup : Type 0 where
  packet : PacketLookup → Lookup
  this environment : Text → Lookup

pub data Literal : Type 0 where
  bool : Bool → Literal
  string : Text → Literal
  number : F64 → Literal

pub data TestValue : Type 0 where
  lookup : Lookup → TestValue
  literal : Literal → TestValue

pub data TestOperator : Type 0 where
  equal not_equal less_than less_than_or_equal greater_than greater_than_or_equal : TestOperator

pub data BooleanOperator : Type 0 where
  and or : BooleanOperator

-- `Latest(None)` is `latest`, and `Latest(Some(q))` is `latest_of q`.
pub data QueryNode : Type 0 where
  latest : QueryNode
  latest_of single negation brackets : QueryNode → QueryNode
  test : TestOperator → TestValue → TestValue → QueryNode
  boolean_expr : BooleanOperator → QueryNode → QueryNode → QueryNode

-- The derived equality of literals. That of `f64` is not reflexive.
abbrev pub same_literal : Literal → Literal → Bool
same_literal (bool true) (bool true) = true
same_literal (bool false) (bool false) = true
same_literal (string s) (string t) = s == t
same_literal (number x) (number y) = eq_of (partial_cmp x y)
same_literal _ _ = false

-- `impl PartialOrd for Literal`
unfoldable pub cmp_literal : Literal → Literal → Option Ordering
cmp_literal (number x) (number y) = partial_cmp x y
cmp_literal _ _ = none

-- src/query/mod.rs, `ParseError`: what pest reports, without the place in the text; the second is
-- that of `unknown_infix_error`, with the operator.
pub data ParseError : Type 0 where
  not_in_grammar : ParseError
  unknown_infix : Text → ParseError
