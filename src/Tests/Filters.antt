-- ===== src/Tests/Filters.antt =====
-- A condition on ints at concrete inputs: the int in the bytes 4 to 7 of a record against a value.
use Prim.Native.Nat.{Ordering}
use miniob.Base.{
  ℕ, ◌-◌, ◌^◌, ◌≡◌, refl, true, false, Bool, Option, none, [], ◌∷◌, arith, ◌==◌, if◌then◌else◌, leb,
  ltb, Memory, read_u32,
}
use miniob.Index.{AttrType, CompOp, Floats, compare_int}
use miniob.Index.Condition.{holds}
use miniob.Record.{Record}
use miniob.Filter.{
  FieldType, DefaultFilter, is_null, value_of, filter, filter_by, filter_all, compare_values,
  difference, op_switch,
}
use miniob.Filter.Compare.{ComparesInts, some_null, left_int, right_int, filter-holds, filter_far}

abbrev floats : Floats
floats = record {
  Float = ℕ;
  of_bits = λ n. n;
  minus = λ a b. a - b;
  less = ltb;
  less_equal = leb;
  epsilon = 1;
  minus_epsilon = 0;
  nothing = 0;
}

abbrev strcmp : Memory → Memory → Ordering
strcmp a b = Ordering.eq

abbrev no_subquery : DefaultFilter → Record → Option Ordering
no_subquery f rec = none

abbrev no_set : DefaultFilter → Record → Option Bool
no_set f rec = none

-- `field op value`
abbrev condition : CompOp → Memory → DefaultFilter
condition op value = record {
  left = record {
    type = FieldType.cond_field;
    refers_outer = false;
    attr_offset = 4;
    value = λ _. 0;
    nullable = false;
    isnull = false;
  };
  right = record {
    type = FieldType.cond_value;
    refers_outer = false;
    attr_offset = 0;
    value = value;
    nullable = false;
    isnull = false;
  };
  attr_type = AttrType.ints;
  comp_op = op;
  float_int = false;
}

-- A record whose int is `byte`.
abbrev with_int : ℕ → Record
with_int byte = record {
  rid = record { page_num = 1; slot_num = 0 };
  bytes = λ i. if i == 4 then byte else 0;
}

abbrev three : Memory
three i = if i == 0 then 3 else 0

-- The pattern of -2^31.
abbrev lowest : Memory
lowest i = if i == 3 then 128 else 0

field_is : read_u32 (value_of (with_int 7) (condition CompOp.less_than three).left) 0 ≡ 7
unfolding read_u32 value_of
field_is = refl

three_is : read_u32 (value_of (with_int 7) (condition CompOp.less_than three).right) 0 ≡ 3
unfolding read_u32 value_of
three_is = refl

lowest_is : read_u32 (value_of (with_int 7) (condition CompOp.less_than lowest).right) 0 ≡ 2 ^ 31
unfolding read_u32 value_of
lowest_is = refl

three-ComparesInts : ComparesInts (condition CompOp.less_than three) (with_int 7)
three-ComparesInts = record {
  ints = refl;
  comparing = refl;
  operator = λ e. cc;
  here = refl;
  left_small = omega (arith, field_is);
  right_small = omega (arith, three_is);
}

lowest-ComparesInts : ComparesInts (condition CompOp.less_than lowest) (with_int 7)
lowest-ComparesInts = record {
  ints = refl;
  comparing = refl;
  operator = λ e. cc;
  here = refl;
  left_small = omega (arith, field_is);
  right_small = omega (arith, lowest_is);
}

none_null : some_null (condition CompOp.less_than lowest) (with_int 7) ≡ false
unfolding is_null
none_null = refl

filter-holds_example :
    filter floats strcmp no_subquery no_set (condition CompOp.less_than three) (with_int 7) ≡ (
      if some_null (condition CompOp.less_than three) (with_int 7)
      then false
      else holds CompOp.less_than (
          compare_int
            (left_int (condition CompOp.less_than three) (with_int 7))
            (right_int (condition CompOp.less_than three) (with_int 7))))
filter-holds_example =
    filter-holds floats strcmp no_subquery no_set (condition CompOp.less_than three) (with_int 7)
      three-ComparesInts (omega (arith, field_is, three_is))

filter_far_example :
    (filter floats strcmp no_subquery no_set (condition CompOp.less_than lowest) (with_int 7)
      ≡ true)
    × (compare_int
          (left_int (condition CompOp.less_than lowest) (with_int 7))
          (right_int (condition CompOp.less_than lowest) (with_int 7))
        ≡ Ordering.gt)
filter_far_example =
    filter_far floats strcmp no_subquery no_set (condition CompOp.less_than lowest) (with_int 7)
      lowest-ComparesInts none_null (omega (arith, field_is, lowest_is))

both_hold :
    filter_all floats strcmp no_subquery no_set
      (condition CompOp.great_than three ∷ condition CompOp.not_equal three ∷ [])
      (with_int 7)
    ≡ true
unfolding filter_all filter filter_by op_switch compare_values difference compare_int is_null
    value_of read_u32
both_hold = refl
