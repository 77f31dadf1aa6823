-- ===== src/Filter.antt =====
-- src/observer/storage/common/condition_filter.cpp: whether a record meets a condition. What a
-- subquery answers and `strcmp` are parameters; `left - right` of two ints wraps.
pub mod Compare
use Prim.Native.Nat.{Ordering}
use miniob.Base.{
  ℕ, ◌+◌, ◌-◌, ◌%◌, ◌^◌, Bool, true, false, not, ◌&&◌, ◌||◌, Option, none, some, List, [], ◌∷◌,
  ◌==◌, if◌then◌else◌, Memory, read_u32,
}
use miniob.Index.{AttrType, CompOp, Floats, compare_int}
use miniob.Index.Condition.{holds}
use miniob.Record.{Record}

pub data FieldType : Type 0 where
  cond_field cond_value cond_subquery : FieldType

-- One side of a condition.
pub record ConDesc : Type 0 where
  pub type : FieldType
  pub refers_outer : Bool
  pub attr_offset : ℕ
  pub value : Memory
  pub nullable : Bool
  pub isnull : Bool

pub record DefaultFilter : Type 0 where
  pub left : ConDesc
  pub right : ConDesc
  pub attr_type : AttrType
  pub comp_op : CompOp
  pub float_int : Bool

abbrev pub is_value : ConDesc → Bool
is_value desc = elim (desc.type) [ FieldType.cond_value ↦ true | _ ↦ false ]

abbrev pub is_subquery : ConDesc → Bool
is_subquery desc = elim (desc.type) [ FieldType.cond_subquery ↦ true | _ ↦ false ]

-- The operators that compare two values.
abbrev pub compares : CompOp → Bool
compares CompOp.cond_in = false
compares CompOp.not_in = false
compares CompOp.is_op = false
compares CompOp.is_not_op = false
compares _ = true

-- Whether a side is null, by the four bytes before a nullable field's value.
unfoldable pub is_null : Record → ConDesc → Bool
is_null rec desc = elim (desc.type) [
  | FieldType.cond_field ↦ desc.nullable && not (read_u32 rec.bytes desc.attr_offset == 0)
  | FieldType.cond_value ↦ desc.isnull
  | FieldType.cond_subquery ↦ false
]

-- The bytes from a side's value on.
unfoldable pub value_of : Record → ConDesc → Memory
value_of rec desc = elim (desc.type) [
  | FieldType.cond_field ↦ λ i. rec.bytes (desc.attr_offset + (if desc.nullable then 4 else 0) + i)
  | FieldType.cond_value ↦ desc.value
  | FieldType.cond_subquery ↦ desc.value
]

-- The sign of the int `left - right`.
unfoldable pub difference : ℕ → ℕ → Ordering
difference left right = compare_int ((left + 2 ^ 32 - right) % 2 ^ 32) 0

-- The last switch; with NO_OP it panics and returns whether the result is not 0.
unfoldable pub op_switch : CompOp → Ordering → Bool
op_switch CompOp.no_op result = holds CompOp.not_equal result
op_switch comp_op result = holds comp_op result

-- `(comp_op_ == COND_IN) == found`; a set of another type has no answer, and gives false.
abbrev pub in_set : CompOp → Option Bool → Bool
in_set CompOp.cond_in (some found) = found
in_set _ (some found) = not found
in_set _ none = false

abbrev pub unless_null : CompOp → Option Ordering → Bool
unless_null comp_op none = false
unless_null comp_op (some result) = op_switch comp_op result

-- Whether `subquery_filter` compares the two sides; it answers `none` for a null.
abbrev pub goes_to_subquery : DefaultFilter → Bool
goes_to_subquery f =
    compares f.comp_op
    && not ((is_value f.left && f.left.isnull) || (is_value f.right && f.right.isnull))
    && (f.float_int
        || f.left.refers_outer
        || f.right.refers_outer
        || is_subquery f.left
        || is_subquery f.right)

module _ (floats : Floats) (strcmp : Memory → Memory → Ordering)
    (subquery_filter : DefaultFilter → Record → Option Ordering)
    (find_in_set : DefaultFilter → Record → Option Bool) where
  open floats use {of_bits, minus, less, less_equal, nothing}

  unfoldable pub compare_floats : ℕ → ℕ → Ordering
  compare_floats left right =
      let fcmp = minus (of_bits left) (of_bits right) in
      if less_equal fcmp nothing && less_equal nothing fcmp
      then Ordering.eq
      else if less nothing fcmp
      then Ordering.gt
      else Ordering.lt

  -- A type that is none of these is logged and compares as equal.
  unfoldable pub compare_values : AttrType → Memory → Memory → Ordering
  compare_values AttrType.chars left right = strcmp left right
  compare_values AttrType.ints left right = difference (read_u32 left 0) (read_u32 right 0)
  compare_values AttrType.floats left right = compare_floats (read_u32 left 0) (read_u32 right 0)
  compare_values AttrType.date left right = difference (read_u32 left 0) (read_u32 right 0)
  compare_values _ left right = Ordering.eq

  unfoldable pub filter_by : DefaultFilter → Record → CompOp → Bool
  filter_by f rec CompOp.is_op = is_null rec f.left
  filter_by f rec CompOp.is_not_op = not (is_null rec f.left)
  filter_by f rec comp_op =
      let result = compare_values f.attr_type (value_of rec f.left) (value_of rec f.right) in
      let compared = op_switch comp_op result in
      let found = in_set comp_op (find_in_set f rec) in
      if is_null rec f.left || is_null rec f.right
      then false
      else if compares comp_op
      then compared
      else found

  unfoldable pub filter : DefaultFilter → Record → Bool
  filter f rec =
      let outer = unless_null f.comp_op (subquery_filter f rec) in
      let inner = filter_by f rec f.comp_op in if goes_to_subquery f then outer else inner

  -- `CompositeConditionFilter::filter`
  unfoldable pub filter_all : List DefaultFilter → Record → Bool
  filter_all [] rec = true
  filter_all (f ∷ filters) rec =
      let rest = filter_all filters rec in if filter f rec then rest else false
