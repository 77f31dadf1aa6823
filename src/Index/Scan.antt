-- ===== src/Index/Scan.antt =====
-- Which keys an index scan accepts. What it is compared with is `CompareKey`, which orders the tree.
use Prim.Native.Nat.{Ordering}
use miniob.Base.{
  ℕ, ◌+◌, ◌<◌, ap, arith, IsBytes, read_u32_bound, ◌≡◌, ◌≢◌, refl, Bool, true, false, ◌||◌, Option,
  none, List, [], ◌∷◌, Memory, if◌then◌else◌,
}
use miniob.Rc.{ok, fault}
use miniob.Index.{AttrType, Attr, CompOp, Floats, compare_int, compare_date, compare_attr}
use miniob.Index.Condition.{
  holds, int_flag, date_flag, sign_flag, chars_flag, attr_flag, read_dates, satisfy_from,
  satisfy_condition,
}

-- The attribute's type is one that the test reads as it means to.
abbrev pub IsScannable : CompOp → AttrType → Type 0
IsScannable op AttrType.ints = Unit
IsScannable op AttrType.date = Unit
IsScannable op AttrType.chars = op ≢ CompOp.equal_to
IsScannable op _ = ⊥

abbrev pub AllScannable : CompOp → List Attr → Type 0
AllScannable op [] = Unit
AllScannable op (attr ∷ attrs) = IsScannable op attr.type × AllScannable op attrs

module _ (floats : Floats) where
  -- Some attribute of the key compares with the value's as the operator asks.
  unfoldable pub any_holds : CompOp → Memory → Memory → List Attr → ℕ → Bool
  any_holds op pkey value [] p = false
  any_holds op pkey value (attr ∷ attrs) p =
      holds op (compare_attr floats pkey value attr p)
      || any_holds op pkey value attrs (p + attr.length)

  int_flag-holds :
      (op : CompOp) (a b : ℕ)
      → op ≢ CompOp.no_op
      → a < 4294967296
      → b < 4294967296
      → int_flag op a b ≡ holds op (compare_int a b)
  unfolding int_flag compare_int
  int_flag-holds CompOp.no_op a b n l m = absurd (n refl)
  int_flag-holds op a b n l m = ground arith

  date_flag-holds :
      (op : CompOp) (a b : ℕ) → op ≢ CompOp.no_op → date_flag op a b ≡ holds op (compare_date a b)
  unfolding date_flag compare_date
  date_flag-holds CompOp.no_op a b n = absurd (n refl)
  date_flag-holds op a b n = ground arith

  chars_flag-holds :
      (op : CompOp) (dates : Option (ℕ × ℕ)) (sign : Ordering)
      → op ≢ CompOp.no_op
      → op ≢ CompOp.equal_to
      → chars_flag floats op dates sign ≡ ok (holds op sign)
  unfolding chars_flag sign_flag
  chars_flag-holds CompOp.no_op dates sign n h = absurd (n refl)
  chars_flag-holds CompOp.equal_to dates sign n h = absurd (h refl)
  chars_flag-holds op dates sign n h = ground arith

  module _ (op : CompOp) (asks : op ≢ CompOp.no_op) (pkey value : Memory) (k : IsBytes pkey)
      (v : IsBytes value) where
    attr_flag-holds :
        (type : AttrType) (n p : ℕ) (dates : Option (ℕ × ℕ))
        → IsScannable op type
        → attr_flag floats op pkey value type n p dates
          ≡ ok (holds op (compare_attr floats pkey value (record { type = type; length = n }) p))
    unfolding attr_flag compare_attr
    attr_flag-holds AttrType.ints n p dates s =
        ap ok (int_flag-holds op _ _ asks (read_u32_bound pkey p k) (read_u32_bound value p v))
    attr_flag-holds AttrType.date n p dates s = ap ok (date_flag-holds op _ _ asks)
    attr_flag-holds AttrType.chars n p dates s = chars_flag-holds op dates _ asks s
    attr_flag-holds AttrType.undefined n p dates s = absurd s
    attr_flag-holds AttrType.floats n p dates s = absurd s
    attr_flag-holds AttrType.texts n p dates s = absurd s
    attr_flag-holds AttrType.nulls n p dates s = absurd s

    satisfy_from-any :
        (attrs : List Attr) (p : ℕ) (dates : Option (ℕ × ℕ))
        → AllScannable op attrs
        → satisfy_from floats op pkey value attrs p dates ≡ ok (any_holds op pkey value attrs p)
    unfolding satisfy_from any_holds
    satisfy_from-any [] p dates s = refl
    satisfy_from-any (attr ∷ attrs) p dates s =
        rw
          (attr_flag-holds attr.type attr.length p (read_dates floats pkey value attr.type p dates)
            s.0)
          (rw
            (satisfy_from-any attrs (p + attr.length)
              (read_dates floats pkey value attr.type p dates) s.1)
            (either (holds op (compare_attr floats pkey value attr p)) _))
      where
        either : (a b : Bool) → (if a then ok true else ok b) ≡ ok (a || b)
        either true b = refl
        either false b = refl

  -- An index scan accepts a key exactly when some attribute of it stands to the scan's value, in the order
  -- in which the tree keeps its keys, as the operator asks: the tests that `satisfy_condition` makes of
  -- each type agree with `CompareKey`. It is so for an operator that is not NO_OP, for keys and values of
  -- bytes, and attributes that are ints, dates or, unless the operator asks for equality, strings.
  pub satisfy_condition-any :
      (op : CompOp) (pkey value : Memory) (attrs : List Attr)
      → op ≢ CompOp.no_op
      → IsBytes pkey
      → IsBytes value
      → AllScannable op attrs
      → satisfy_condition floats op pkey value attrs ≡ ok (any_holds op pkey value attrs 0)
  unfolding satisfy_condition
  satisfy_condition-any CompOp.no_op pkey value attrs h k v s = absurd (h refl)
  satisfy_condition-any op pkey value attrs h k v s =
      satisfy_from-any op h pkey value k v attrs 0 none s

  -- A scan for equality on an index whose first attribute is a string reads dates that have no value.
  chars_equality_fault :
      (pkey value : Memory) (n : ℕ) (attrs : List Attr)
      → satisfy_condition floats CompOp.equal_to pkey value
          (record { type = AttrType.chars; length = n } ∷ attrs)
        ≡ fault
  unfolding satisfy_condition satisfy_from attr_flag chars_flag read_dates
  chars_equality_fault pkey value n attrs = refl
