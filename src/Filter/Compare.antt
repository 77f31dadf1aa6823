-- ===== src/Filter/Compare.antt =====
-- Which records a condition on ints keeps.
use Prim.Native.Nat.{Ordering}
use miniob.Base.{
  ℕ, ◌+◌, ◌%◌, ◌^◌, ◌<◌, ◌≤◌, ◌≡◌, ◌≢◌, refl, ◌∙◌, ap, Bool, true, false, ◌||◌, arith,
  if◌then◌else◌, Memory, read_u32, Option,
}
use miniob.Index.{AttrType, CompOp, Floats, compare_int}
use miniob.Index.Condition.{holds}
use miniob.Record.{Record}
use miniob.Filter.{
  DefaultFilter, compares, is_null, value_of, difference, op_switch, compare_values,
  goes_to_subquery, filter_by, filter,
}

-- The signed int of a pattern, plus 2^31.
abbrev pub shifted : ℕ → ℕ
shifted a = (a + 2 ^ 31) % 2 ^ 32

-- The difference of two signed ints is an int.
abbrev pub Fits : ℕ → ℕ → Type 0
Fits a b = (shifted a < shifted b + 2 ^ 31) × (shifted b ≤ shifted a + 2 ^ 31)

otherwise : (b x y : Bool) → b ≡ false → (if b then x else y) ≡ y
otherwise b x y e = rw e

difference-compare_int :
    (a b : ℕ) → a < 2 ^ 32 → b < 2 ^ 32 → Fits a b → difference a b ≡ compare_int a b
unfolding difference compare_int
difference-compare_int a b l h f = ground arith

-- An int at or above 2^31 above another, which its int difference calls smaller.
difference-far :
    (a b : ℕ)
    → a < 2 ^ 32
    → b < 2 ^ 32
    → shifted b + 2 ^ 31 ≤ shifted a
    → (compare_int a b ≡ Ordering.gt) × (difference a b ≡ Ordering.lt)
unfolding difference compare_int
difference-far a b l h far = (ground arith, ground arith)

module _ (f : DefaultFilter) (rec : Record) where
  abbrev pub left_int : ℕ
  left_int = read_u32 (value_of rec f.left) 0

  abbrev pub right_int : ℕ
  right_int = read_u32 (value_of rec f.right) 0

  abbrev pub some_null : Bool
  some_null = is_null rec f.left || is_null rec f.right

  -- A condition that compares two ints of the record or of the statement itself.
  pub record ComparesInts : Type 0 where
    pub ints : f.attr_type ≡ AttrType.ints
    pub comparing : compares f.comp_op ≡ true
    pub operator : f.comp_op ≢ CompOp.no_op
    pub here : goes_to_subquery f ≡ false
    pub left_small : left_int < 2 ^ 32
    pub right_small : right_int < 2 ^ 32

module _ (floats : Floats) (strcmp : Memory → Memory → Ordering)
    (subquery_filter : DefaultFilter → Record → Option Ordering)
    (find_in_set : DefaultFilter → Record → Option Bool) (f : DefaultFilter) (rec : Record) where
  by_op :
      (op : CompOp)
      → compares op ≡ true
      → op ≢ CompOp.no_op
      → filter_by floats strcmp subquery_filter find_in_set f rec op ≡ (
          if some_null f rec
          then false
          else holds op (
              compare_values floats strcmp subquery_filter find_in_set f.attr_type
                (value_of rec f.left)
                (value_of rec f.right)))
  unfolding filter_by op_switch
  by_op CompOp.no_op c n = absurd (n refl)
  by_op CompOp.is_op c n = cc
  by_op CompOp.is_not_op c n = cc
  by_op CompOp.cond_in c n = cc
  by_op CompOp.not_in c n = cc
  by_op _ c n = refl

  by_difference :
      (c : ComparesInts f rec)
      → filter floats strcmp subquery_filter find_in_set f rec ≡ (
          if some_null f rec
          then false
          else holds f.comp_op (difference (left_int f rec) (right_int f rec)))
  unfolding filter compare_values
  by_difference c =
      otherwise (goes_to_subquery f) _ _ c.here
      ∙ by_op f.comp_op c.comparing c.operator
      ∙ ap
          (λ t.
            if some_null f rec
            then false
            else holds f.comp_op (
                compare_values floats strcmp subquery_filter find_in_set t (value_of rec f.left)
                  (value_of rec f.right)))
          c.ints

  -- A condition that compares two ints, neither through a subquery nor with a float, and whose
  -- difference is an int: the filter keeps no record with a null side, and otherwise exactly those
  -- whose left int compares with the right one as the operator asks.
  pub filter-holds :
      ComparesInts f rec
      → Fits (left_int f rec) (right_int f rec)
      → filter floats strcmp subquery_filter find_in_set f rec ≡ (
          if some_null f rec
          then false
          else holds f.comp_op (compare_int (left_int f rec) (right_int f rec)))
  filter-holds c fits =
      by_difference c
      ∙ ap (λ o. if some_null f rec then false else holds f.comp_op o)
          (difference-compare_int (left_int f rec) (right_int f rec) c.left_small c.right_small
            fits)

  -- The same condition with no null side, if the left int is at least 2^31 above the right one: the
  -- filter answers as if the left were less, and the order says that it is greater.
  pub filter_far :
      ComparesInts f rec
      → (some_null f rec) ≡ false
      → shifted (right_int f rec) + 2 ^ 31 ≤ shifted (left_int f rec)
      → (filter floats strcmp subquery_filter find_in_set f rec ≡ holds f.comp_op Ordering.lt)
        × (compare_int (left_int f rec) (right_int f rec) ≡ Ordering.gt)
  filter_far c no_null far =
      let (greater, less) =
        difference-far (left_int f rec) (right_int f rec) c.left_small c.right_small far in
      (
        by_difference c
            ∙ otherwise (some_null f rec) _ _ no_null
            ∙ ap (λ o. holds f.comp_op o) less,
        greater,
      )
