-- ===== src/Query/Python.antt =====
-- src/query/python.rs: the syntax tree of a query as Python objects, and that nothing of it is
-- lost. The registration of the module is not here.

use mathlib.Core.Option
use outpack_server.Float.{F64}
use outpack_server.Prelude.{
  Bool, List, Option, Text, [], codes, if◌then◌else◌, list_eq, nat_eq, none, refl, some, ◌==◌, ◌∷◌,
  ◌≡◌,
}
use outpack_server.Query.Parse.Convert.{parse_query}
use outpack_server.Query.Parse.Pratt.{Pratt}
use outpack_server.Query.Types.{
  BooleanOperator, Literal, ParseError, QueryNode, TestOperator, TestValue, bool, boolean_expr,
  brackets, environment, id, latest, latest_of, literal, lookup, name, negation, number, packet,
  parameter, single, string, test, this,
}
use outpack_server.Result.{Result, err, map_err, ok, ◌>>=◌}

-- The classes that the module makes with `make_dataclass`.
pub data PyClass : Type 0 where
  latest_class single_class brackets_class negation_class test_class boolean_expr_class : PyClass
  literal_class lookup_this_class lookup_environment_class lookup_parameter_class : PyClass
  lookup_id_class lookup_name_class : PyClass

-- The names of the fields of each class.
unfoldable pub class_fields : PyClass → List Text
class_fields latest_class = codes "inner" ∷ []
class_fields single_class = codes "inner" ∷ []
class_fields brackets_class = codes "inner" ∷ []
class_fields negation_class = codes "inner" ∷ []
class_fields test_class = codes "operator" ∷ codes "lhs" ∷ codes "rhs" ∷ []
class_fields boolean_expr_class = codes "operator" ∷ codes "lhs" ∷ codes "rhs" ∷ []
class_fields literal_class = codes "value" ∷ []
class_fields lookup_this_class = codes "name" ∷ []
class_fields lookup_environment_class = codes "name" ∷ []
class_fields lookup_parameter_class = codes "name" ∷ []
class_fields lookup_id_class = []
class_fields lookup_name_class = []

mutual
  pub data PyObject : Type 0 where
    py_none : PyObject
    py_bool : Bool → PyObject
    py_str : Text → PyObject
    py_float : F64 → PyObject
    py_test_operator : TestOperator → PyObject
    py_boolean_operator : BooleanOperator → PyObject
    py_instance : PyClass → PyFields → PyObject

  pub data PyObjects : Type 0 where
    no_arguments : PyObjects
    argument : PyObject → PyObjects → PyObjects

  -- The fields of an instance, by their names.
  pub data PyFields : Type 0 where
    no_fields : PyFields
    field : Text → PyObject → PyFields → PyFields

-- An instance is not made where the number of arguments is not that of the fields; a text that is
-- no query is an error of value.
pub data PyError : Type 0 where
  type_error : PyError
  value_error : ParseError → PyError

-- The arguments become the fields in the order of their names.
abbrev pub with_names : List Text → PyObjects → Option PyFields
with_names [] no_arguments = some no_fields
with_names (n ∷ names) (argument o args) =
    let rest = with_names names args in Option.map (field n o) rest
with_names _ _ = none

-- `call0` and `call1` of a class.
unfoldable pub call : PyClass → PyObjects → Result PyError PyObject
unfolding class_fields
call c args = elim (with_names (class_fields c) args) [
  | none ↦ err type_error
  | some fields ↦ ok (py_instance c fields)
]

abbrev pub one : PyObject → PyObjects
one o = argument o no_arguments

abbrev pub three : PyObject → PyObject → PyObject → PyObjects
three o p q = argument o (argument p (one q))

abbrev pub literal_object : Literal → PyObject
literal_object (bool b) = py_bool b
literal_object (string s) = py_str s
literal_object (number n) = py_float n

unfoldable pub convert_test_value : TestValue → Result PyError PyObject
unfolding call
convert_test_value (lookup (packet name)) = call lookup_name_class no_arguments
convert_test_value (lookup (packet id)) = call lookup_id_class no_arguments
convert_test_value (lookup (packet (parameter n))) = call lookup_parameter_class (one (py_str n))
convert_test_value (lookup (this n)) = call lookup_this_class (one (py_str n))
convert_test_value (lookup (environment n)) = call lookup_environment_class (one (py_str n))
convert_test_value (literal l) = call literal_class (one (literal_object l))

unfoldable pub convert_query : QueryNode → Result PyError PyObject
unfolding call convert_test_value
convert_query latest = call latest_class (one py_none)
convert_query (latest_of q) = do o ← convert_query q; call latest_class (one o)
convert_query (single q) = do o ← convert_query q; call single_class (one o)
convert_query (negation q) = do o ← convert_query q; call negation_class (one o)
convert_query (brackets q) = do o ← convert_query q; call brackets_class (one o)
convert_query (test op lhs rhs) = do
  l ← convert_test_value lhs
  r ← convert_test_value rhs
  call test_class (three (py_test_operator op) l r)
convert_query (boolean_expr op lhs rhs) = do
  l ← convert_query lhs
  r ← convert_query rhs
  call boolean_expr_class (three (py_boolean_operator op) l r)

-- Reading an object back, as a Python program would by the class and the names of the fields.
abbrev when_named {ℓ} : {A : Type ℓ} → Text → Text → Option A → Option A
when_named n m o = if n == m then o else none

unfoldable pub read_value : PyObject → Option TestValue
read_value (py_instance lookup_name_class no_fields) = some (lookup (packet name))
read_value (py_instance lookup_id_class no_fields) = some (lookup (packet id))
read_value (py_instance lookup_parameter_class (field f (py_str n) no_fields)) =
    when_named f (codes "name") (some (lookup (packet (parameter n))))
read_value (py_instance lookup_this_class (field f (py_str n) no_fields)) =
    when_named f (codes "name") (some (lookup (this n)))
read_value (py_instance lookup_environment_class (field f (py_str n) no_fields)) =
    when_named f (codes "name") (some (lookup (environment n)))
read_value (py_instance literal_class (field f (py_bool b) no_fields)) =
    when_named f (codes "value") (some (literal (bool b)))
read_value (py_instance literal_class (field f (py_str s) no_fields)) =
    when_named f (codes "value") (some (literal (string s)))
read_value (py_instance literal_class (field f (py_float n) no_fields)) =
    when_named f (codes "value") (some (literal (number n)))
read_value _ = none

abbrev both {ℓ} : {A B : Type ℓ} {C : Type 0} → (A → B → C) → Option A → Option B → Option C
both f (some a) (some b) = some (f a b)
both f _ _ = none

-- The fields of an operator and its two sides.
abbrev when_sides {ℓ} : {A : Type ℓ} → Text → Text → Text → Option A → Option A
when_sides f g h o =
    when_named f (codes "operator") (when_named g (codes "lhs") (when_named h (codes "rhs") o))

unfoldable pub read_query : PyObject → Option QueryNode
unfolding read_value
read_query (py_instance latest_class (field f py_none no_fields)) =
    when_named f (codes "inner") (some latest)
read_query (py_instance latest_class (field f o no_fields)) =
    when_named f (codes "inner") (Option.map latest_of (read_query o))
read_query (py_instance single_class (field f o no_fields)) =
    when_named f (codes "inner") (Option.map single (read_query o))
read_query (py_instance negation_class (field f o no_fields)) =
    when_named f (codes "inner") (Option.map negation (read_query o))
read_query (py_instance brackets_class (field f o no_fields)) =
    when_named f (codes "inner") (Option.map brackets (read_query o))
read_query
      (py_instance test_class (field f (py_test_operator op) (field g l (field h r no_fields)))) =
    when_sides f g h (both (test op) (read_value l) (read_value r))
read_query
      (py_instance boolean_expr_class
        (field f (py_boolean_operator op) (field g l (field h r no_fields)))) =
    when_sides f g h (both (boolean_expr op) (read_query l) (read_query r))
read_query _ = none

abbrev sides : PyObject → PyObject → PyObject → PyFields
sides o l r = field (codes "operator") o (field (codes "lhs") l (field (codes "rhs") r no_fields))

convert_test_value-read :
    (v : TestValue) → (o : PyObject) × (convert_test_value v ≡ ok o) × (read_value o ≡ some v)
unfolding convert_test_value read_value class_fields call list_eq nat_eq
convert_test_value-read (lookup (packet name)) = (_, refl, refl)
convert_test_value-read (lookup (packet id)) = (_, refl, refl)
convert_test_value-read (lookup (packet (parameter n))) = (_, refl, refl)
convert_test_value-read (lookup (this n)) = (_, refl, refl)
convert_test_value-read (lookup (environment n)) = (_, refl, refl)
convert_test_value-read (literal (bool b)) = (_, refl, refl)
convert_test_value-read (literal (string s)) = (_, refl, refl)
convert_test_value-read (literal (number n)) = (_, refl, refl)

-- Each query is converted without an error, to an instance of a class, from which the query is
-- read back by the class and the names of its fields.
pub convert_query-read :
    (q : QueryNode)
    → (c : PyClass) × (fields : PyFields) × (convert_query q ≡ ok (py_instance c fields))
      × (read_query (py_instance c fields) ≡ some q)
unfolding convert_query read_query class_fields call list_eq nat_eq
convert_query-read latest = (latest_class, _, refl, refl)
convert_query-read (latest_of q) =
    let (c, fields, e, back) = convert_query-read q in
    (latest_class, field (codes "inner") (py_instance c fields) no_fields, rw e refl, rw back refl)
convert_query-read (single q) =
    let (c, fields, e, back) = convert_query-read q in
    (single_class, field (codes "inner") (py_instance c fields) no_fields, rw e refl, rw back refl)
convert_query-read (negation q) =
    let (c, fields, e, back) = convert_query-read q in
    (
      negation_class,
      field (codes "inner") (py_instance c fields) no_fields,
      rw e refl,
      rw back refl,
    )
convert_query-read (brackets q) =
    let (c, fields, e, back) = convert_query-read q in
    (
      brackets_class,
      field (codes "inner") (py_instance c fields) no_fields,
      rw e refl,
      rw back refl,
    )
convert_query-read (test op lhs rhs) =
    let (l, e, left) = convert_test_value-read lhs in
    let (r, d, right) = convert_test_value-read rhs in
    (test_class, sides (py_test_operator op) l r, rw (e, d) refl, rw (left, right) refl)
convert_query-read (boolean_expr op lhs rhs) =
    let (c, fields, e, left) = convert_query-read lhs in
    let (d, fields', f, right) = convert_query-read rhs in
    (
      boolean_expr_class,
      sides (py_boolean_operator op) (py_instance c fields) (py_instance d fields'),
      rw (e, f) refl,
      rw (left, right) refl,
    )

-- The module's function `parse_query`.
unfoldable pub python_query : Pratt → Text → Result PyError PyObject
unfolding parse_query convert_query
python_query pratt input = map_err value_error (parse_query pratt input) >>= convert_query
