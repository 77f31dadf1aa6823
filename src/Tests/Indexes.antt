-- ===== src/Tests/Indexes.antt =====
-- Keys of an index at concrete inputs: an int and a string of three bytes, then the identifier.
use miniob.Base.{arith, ℕ, ◌+◌, ◌≡◌, List, [], ◌∷◌, ltb, leb, Memory}
use miniob.Rc.{ok}
use miniob.Index.{AttrType, Attr, CompOp, Floats}
use miniob.Index.Order.{NoFloats}
use miniob.Index.Condition.{satisfy_condition}
use miniob.Index.Scan.{AllScannable, any_holds, satisfy_condition-any}

abbrev floats : Floats
floats = record {
  Float = ℕ;
  of_bits = λ n. n;
  minus = λ a b. a + b;
  less = ltb;
  less_equal = leb;
  epsilon = 1;
  minus_epsilon = 0;
  nothing = 0;
}

abbrev attrs : List Attr
attrs =
    record { type = AttrType.ints; length = 4 } ∷ record { type = AttrType.chars; length = 3 } ∷ []

abbrev low : Memory
low _ = 1

abbrev middle : Memory
middle i = i + 1

abbrev high : Memory
high _ = 100

attrs-NoFloats : NoFloats attrs
attrs-NoFloats = (λ e. cc, (λ e. cc, tt))

attrs-AllScannable : AllScannable CompOp.great_equal attrs
attrs-AllScannable = (tt, ((λ e. cc), tt))

satisfy_condition-any_example :
    satisfy_condition floats CompOp.great_equal high low attrs
    ≡ ok (any_holds floats CompOp.great_equal high low attrs 0)
satisfy_condition-any_example =
    satisfy_condition-any floats CompOp.great_equal high low attrs (λ e. cc) (λ i. omega arith)
      (λ i. omega arith) attrs-AllScannable
