-- ===== src/Index/Condition.antt =====
-- `BplusTreeScanner::satisfy_condition` of bplus_tree.cpp.
use Prim.Native.Nat.{Ordering}
use miniob.Base.{
  ℕ, ◌+◌, ◌%◌, ◌^◌, Bool, true, false, not, ltb, leb, Option, none, some, List, [], ◌∷◌, ◌==◌,
  if◌then◌else◌, Memory, read_u32,
}
use miniob.Rc.{Outcome, ok, fault, ◌>>=◌}
use miniob.Index.{AttrType, Attr, CompOp, Floats, strncmp, float_compare}

-- What a comparison operator asks of the order of two values.
abbrev pub holds : CompOp → Ordering → Bool
holds CompOp.equal_to Ordering.eq = true
holds CompOp.less_than Ordering.lt = true
holds CompOp.great_than Ordering.gt = true
holds CompOp.less_equal Ordering.lt = true
holds CompOp.less_equal Ordering.eq = true
holds CompOp.great_equal Ordering.gt = true
holds CompOp.great_equal Ordering.eq = true
holds CompOp.not_equal Ordering.lt = true
holds CompOp.not_equal Ordering.gt = true
holds _ _ = false

-- `i1 < i2` on the patterns of two signed ints.
abbrev pub int_less : ℕ → ℕ → Bool
int_less i1 i2 = ltb ((i1 + 2 ^ 31) % 2 ^ 32) ((i2 + 2 ^ 31) % 2 ^ 32)

-- The cases of INTS.
unfoldable pub int_flag : CompOp → ℕ → ℕ → Bool
int_flag CompOp.equal_to i1 i2 = i1 == i2
int_flag CompOp.less_than i1 i2 = int_less i1 i2
int_flag CompOp.great_than i1 i2 = int_less i2 i1
int_flag CompOp.less_equal i1 i2 = not (int_less i2 i1)
int_flag CompOp.great_equal i1 i2 = not (int_less i1 i2)
int_flag CompOp.not_equal i1 i2 = not (i1 == i2)
int_flag _ i1 i2 = false

-- The cases of DATE; a date is an unsigned int.
unfoldable pub date_flag : CompOp → ℕ → ℕ → Bool
date_flag CompOp.equal_to d1 d2 = d1 == d2
date_flag CompOp.less_than d1 d2 = ltb d1 d2
date_flag CompOp.great_than d1 d2 = ltb d2 d1
date_flag CompOp.less_equal d1 d2 = leb d1 d2
date_flag CompOp.great_equal d1 d2 = leb d2 d1
date_flag CompOp.not_equal d1 d2 = not (d1 == d2)
date_flag _ d1 d2 = false

-- The signs of a three-way result.
abbrev pub is_less : Ordering → Bool
is_less Ordering.lt = true
is_less _ = false

abbrev pub is_zero : Ordering → Bool
is_zero Ordering.eq = true
is_zero _ = false

abbrev pub is_greater : Ordering → Bool
is_greater Ordering.gt = true
is_greater _ = false

-- The cases of CHARS but EQUAL_TO, which test the sign of what `strncmp` returns.
unfoldable pub sign_flag : CompOp → Ordering → Bool
sign_flag CompOp.less_than sign = is_less sign
sign_flag CompOp.great_than sign = is_greater sign
sign_flag CompOp.less_equal sign = not (is_greater sign)
sign_flag CompOp.great_equal sign = not (is_less sign)
sign_flag CompOp.not_equal sign = not (is_zero sign)
sign_flag _ sign = false

module _ (floats : Floats) where
  open floats use {of_bits, less, less_equal}

  -- The cases of FLOATS; equality is by `float_compare`.
  unfoldable pub float_flag : CompOp → ℕ → ℕ → Bool
  float_flag CompOp.equal_to f1 f2 = is_zero (float_compare floats f1 f2)
  float_flag CompOp.less_than f1 f2 = less (of_bits f1) (of_bits f2)
  float_flag CompOp.great_than f1 f2 = less (of_bits f2) (of_bits f1)
  float_flag CompOp.less_equal f1 f2 = less_equal (of_bits f1) (of_bits f2)
  float_flag CompOp.great_equal f1 f2 = less_equal (of_bits f2) (of_bits f1)
  float_flag CompOp.not_equal f1 f2 = not (is_zero (float_compare floats f1 f2))
  float_flag _ f1 f2 = false

  -- The case of CHARS. For EQUAL_TO it falls through into that of DATE, which compares `d1` and `d2`:
  -- they have a value, `dates`, only after a date attribute, and are uninitialised before.
  unfoldable pub chars_flag : CompOp → Option (ℕ × ℕ) → Ordering → Outcome Bool
  unfolding sign_flag
  chars_flag CompOp.equal_to none sign = fault
  chars_flag CompOp.equal_to (some (d1, d2)) sign = ok (d1 == d2)
  chars_flag comp_op dates sign = ok (sign_flag comp_op sign)

  -- `flag` for one attribute; other types are logged and leave it false.
  unfoldable pub attr_flag :
      CompOp → Memory → Memory → AttrType → ℕ → ℕ → Option (ℕ × ℕ) → Outcome Bool
  attr_flag op pkey value AttrType.ints n p dates =
      ok (int_flag op (read_u32 pkey p) (read_u32 value p))
  attr_flag op pkey value AttrType.floats n p dates =
      ok (float_flag op (read_u32 pkey p) (read_u32 value p))
  attr_flag op pkey value AttrType.chars n p dates = chars_flag op dates (strncmp n pkey value p)
  attr_flag op pkey value AttrType.date n p dates =
      ok (date_flag op (read_u32 pkey p) (read_u32 value p))
  attr_flag op pkey value _ n p dates = ok false

  -- `d1` and `d2` after the values of an attribute are read.
  unfoldable pub read_dates : Memory → Memory → AttrType → ℕ → Option (ℕ × ℕ) → Option (ℕ × ℕ)
  read_dates pkey value AttrType.date p dates = some (read_u32 pkey p, read_u32 value p)
  read_dates pkey value _ p dates = dates

  -- The loop: it returns at the first attribute that satisfies the condition.
  unfoldable pub satisfy_from :
      CompOp → Memory → Memory → List Attr → ℕ → Option (ℕ × ℕ) → Outcome Bool
  satisfy_from op pkey value [] p dates = ok false
  satisfy_from op pkey value (attr ∷ attrs) p dates =
      let rest =
        satisfy_from op pkey value attrs (p + attr.length)
          (read_dates pkey value attr.type p dates) in
      attr_flag op pkey value attr.type attr.length p (read_dates pkey value attr.type p dates)
      >>= (λ flag. if flag then ok true else rest)

  unfoldable pub satisfy_condition : CompOp → Memory → Memory → List Attr → Outcome Bool
  satisfy_condition CompOp.no_op pkey value attrs = ok true
  satisfy_condition op pkey value attrs = satisfy_from op pkey value attrs 0 none
