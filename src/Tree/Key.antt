-- ===== src/Tree/Key.antt =====
-- The keys of an index file as keys of the tree: their bytes, in the order of `CmpKey`.
use miniob.Base.{List, Memory}
use miniob.Index.{Attr, Floats, cmp_key}
use miniob.Index.Order.{NoFloats, cmp_key-flip, cmp_key-agree}
use miniob.Tree.Node.{KeyOrder}

module _ (floats : Floats) (attrs : List Attr) (none_float : NoFloats attrs) where
  abbrev pub key_order : KeyOrder Memory
  key_order = record {
    cmp = cmp_key floats attrs;
    cmp-flip = λ a b. cmp_key-flip floats a b attrs none_float;
    cmp-agree = λ a b c. cmp_key-agree floats a b c attrs none_float;
  }
