-- ===== src/Index.antt =====
-- src/observer/storage/common/bplus_tree.cpp: the order of the keys of an index, and the test that
-- an index scan makes of a key. A comparison's result below, at or above 0 is `lt`, `eq` or `gt`.
-- Signed ints are 32-bit patterns. Floats are a parameter: their bits, difference and order are the
-- machine's.
pub mod Order
pub mod Condition
pub mod Scan
use Prim.Native.Nat.{compare, Ordering}
use miniob.Base.{
  ℕ, zero, suc, ◌+◌, ◌%◌, ◌^◌, Bool, true, false, not, ◌&&◌, ◌||◌, Option, none, some, List, [],
  ◌∷◌, ltb, leb, ◌==◌, if◌then◌else◌, Memory, read_u32,
}
use miniob.Rc.{Outcome, ok, fault}
use miniob.Record.{Rid}

-- parse_defs.h
pub data AttrType : Type 0 where
  undefined chars ints date floats texts nulls : AttrType

pub data CompOp : Type 0 where
  equal_to less_equal not_equal less_than great_equal great_than no_op is_op is_not_op : CompOp
  cond_in not_in : CompOp

-- An attribute of the index: its type and its length.
pub record Attr : Type 0 where
  pub type : AttrType
  pub length : ℕ

-- The float of a bit pattern, `f1 - f2`, `<`, `<=`, and the constants 1e-6, -1e-6 and 0.
pub record Floats : Type 1 where
  pub Float : Type 0
  pub of_bits : ℕ → Float
  pub minus : Float → Float → Float
  pub less : Float → Float → Bool
  pub less_equal : Float → Float → Bool
  pub epsilon : Float
  pub minus_epsilon : Float
  pub nothing : Float

-- `>` and `<` of two signed ints: the order of their patterns with the sign bit flipped.
unfoldable pub compare_int : ℕ → ℕ → Ordering
compare_int a b = compare ((a + 2 ^ 31) % 2 ^ 32) ((b + 2 ^ 31) % 2 ^ 32)

unfoldable pub compare_date : ℕ → ℕ → Ordering
compare_date a b = compare a b

-- `strncmp` from two pointers: the loop ends at a difference, at a zero byte or after `n` bytes.
unfoldable pub strncmp : ℕ → Memory → Memory → ℕ → Ordering
strncmp zero s1 s2 p = Ordering.eq
strncmp (suc n) s1 s2 p =
    let rest = strncmp n s1 s2 (p + 1) in
    elim (compare (s1 p) (s2 p)) [
      | Ordering.lt ↦ Ordering.lt
      | Ordering.gt ↦ Ordering.gt
      | Ordering.eq ↦ if s1 p == 0 then Ordering.eq else rest
    ]

-- `CmpRid` on the identifiers after the attributes; both numbers are signed ints.
unfoldable pub cmp_rid : Memory → Memory → ℕ → Ordering
cmp_rid a b p = elim (compare_int (read_u32 a p) (read_u32 b p)) [
  | Ordering.lt ↦ Ordering.lt
  | Ordering.gt ↦ Ordering.gt
  | Ordering.eq ↦ compare_int (read_u32 a (p + 4)) (read_u32 b (p + 4))
]

abbrev pub total_length : List Attr → ℕ
total_length [] = 0
total_length (attr ∷ attrs) = attr.length + total_length attrs

module _ (floats : Floats) where
  open floats use {of_bits, minus, less, epsilon, minus_epsilon, nothing}

  unfoldable pub float_compare : ℕ → ℕ → Ordering
  float_compare f1 f2 =
      let result = minus (of_bits f1) (of_bits f2) in
      if less result epsilon && less minus_epsilon result
      then Ordering.eq
      else if less nothing result
      then Ordering.gt
      else Ordering.lt

  -- One round of `CompareKey`. A date that compares as equal falls through to the default, which
  -- logs like an unknown type, and the loop goes on.
  unfoldable pub compare_attr : Memory → Memory → Attr → ℕ → Ordering
  compare_attr pdata pkey attr offset = elim (attr.type) [
    | AttrType.ints ↦ compare_int (read_u32 pdata offset) (read_u32 pkey offset)
    | AttrType.floats ↦ float_compare (read_u32 pdata offset) (read_u32 pkey offset)
    | AttrType.chars ↦ strncmp attr.length pdata pkey offset
    | AttrType.date ↦ compare_date (read_u32 pdata offset) (read_u32 pkey offset)
    | _ ↦ Ordering.eq
  ]

  unfoldable pub compare_key : Memory → Memory → List Attr → ℕ → Ordering
  compare_key pdata pkey [] offset = Ordering.eq
  compare_key pdata pkey (attr ∷ attrs) offset =
      let rest = compare_key pdata pkey attrs (offset + attr.length) in
      elim (compare_attr pdata pkey attr offset) [
        | Ordering.lt ↦ Ordering.lt
        | Ordering.gt ↦ Ordering.gt
        | Ordering.eq ↦ rest
      ]

  unfoldable pub cmp_key : List Attr → Memory → Memory → Ordering
  cmp_key attrs pdata pkey = elim (compare_key pdata pkey attrs 0) [
    | Ordering.lt ↦ Ordering.lt
    | Ordering.gt ↦ Ordering.gt
    | Ordering.eq ↦ cmp_rid pdata pkey (total_length attrs)
  ]
