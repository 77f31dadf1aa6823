-- ===== src/Tests/Nodes.antt =====
-- The nodes of the B+ tree at concrete inputs. A key is an int of four bytes and the record's
-- identifier.
use Prim.Native.Nat.{Ordering}
use miniob.Base.{
  zero, suc, ℕ, ◌+◌, ◌-◌, ◌≡◌, ◌≢◌, ◌<◌, refl, true, false, some, none, List, [], ◌∷◌, ◌==◌,
  if◌then◌else◌, arith, Memory, read_u32, ltb, leb,
}
use miniob.Index.{AttrType, Attr, Floats, cmp_key, compare_key, compare_attr, compare_int}
use miniob.Index.Order.{is_eq, NoFloats}
use miniob.Record.{Rid}
use miniob.Tree.Key.{key_order}
use miniob.Tree.Node.{Node, KeyOrder, insert_into_leaf, delete_entry_from_node, lookup}
use miniob.Tree.Node.Sorted.{Ascending}
use miniob.Tree.Node.Insert.{Inserts, insert_into_leaf-Inserts}
use miniob.Tree.Node.Delete.{Deletes, delete_entry_from_node-Deletes}
use miniob.Tree.Balance.{split_leaf, leaf_from_left, inner_from_right}
use miniob.Tree.Balance.Cut.{side}
use miniob.Tree.Balance.Split.{split_leaf-lookup}
use miniob.Tree.Balance.Join.{Neighbours}
use miniob.Tree.Balance.Lost.{HasChild, leaf_from_left-lookup, inner_from_right_loses}

abbrev floats : Floats
floats = record {
  Float = ℕ;
  of_bits = λ n. n;
  minus = λ a b. a - b;
  less = ltb;
  less_equal = leb;
  epsilon = 1;
  minus_epsilon = 0;
  nothing = 0;
}

abbrev attrs : List Attr
attrs = record { type = AttrType.ints; length = 4 } ∷ []

pub attrs-NoFloats : NoFloats attrs
attrs-NoFloats = ((λ e. cc), tt)

abbrev pub order : KeyOrder Memory
order = key_order floats attrs attrs-NoFloats

-- The int `n`, with the identifier (1, n).
abbrev pub key : ℕ → Memory
key n i = if i == 0 then n else if i == 4 then 1 else if i == 8 then n else 0

abbrev pub rid : ℕ → Rid
rid n = record { page_num = 1; slot_num = n }

-- A leaf with the keys from `first` on, ten apart.
abbrev pub leaf_of : ℕ → ℕ → Node Memory
leaf_of first n = record {
  is_leaf = true;
  key_num = n;
  parent = none;
  keys = λ i. key (first + i + i);
  rids = λ i. rid (first + i + i);
}

read-key : (n : ℕ) → read_u32 (key n) 0 ≡ n
unfolding read_u32
read-key n = omega arith

key-lt : (a b : ℕ) → a < b → b < 200 → cmp_key floats attrs (key a) (key b) ≡ Ordering.lt
unfolding cmp_key compare_key compare_attr compare_int
key-lt a b l h = ground (arith, read-key a, read-key b)

pub leaf_of-Ascending :
    (first n : ℕ) → first + n + n < 200 → Ascending order (leaf_of first n).keys n
leaf_of-Ascending first n small i j l h =
    key-lt (first + i + i) (first + j + j) (omega arith) (omega arith)

-- No key of a leaf is as small as a key below its first.
pub smaller :
    (k first n : ℕ)
    → k < first
    → first + n + n < 200
    → (j : ℕ) → j < n
    → cmp_key floats attrs (key k) ((leaf_of first n).keys j) ≢ Ordering.eq
smaller k first n l small j h e =
    let less = key-lt k (first + j + j) (omega arith) (omega arith) in cc

insert_into_leaf-Inserts_example :
    Inserts order
      (leaf_of 10 3)
      (key 11)
      (rid 11)
      (insert_into_leaf order.cmp (leaf_of 10 3) (key 11) (rid 11))
insert_into_leaf-Inserts_example =
    insert_into_leaf-Inserts order (leaf_of 10 3) (key 11) (rid 11)
      (leaf_of-Ascending 10 3 (omega arith))

delete_entry_from_node-Deletes_example :
    Deletes order (leaf_of 10 3) (key 12) (delete_entry_from_node order.cmp (leaf_of 10 3) (key 12))
delete_entry_from_node-Deletes_example =
    delete_entry_from_node-Deletes order (leaf_of 10 3) (key 12) refl
      (leaf_of-Ascending 10 3 (omega arith))

abbrev pub blank : Node Memory
blank = leaf_of 0 0

abbrev pub no_keys : ℕ → Memory
no_keys _ = key 0

abbrev pub no_rids : ℕ → Rid
no_rids _ = rid 0

split_leaf-lookup_example :
    let h = split_leaf order.cmp 4 (leaf_of 10 3) blank no_keys no_rids 9 (key 8) (rid 8) in
    Ascending order h.left.keys h.left.key_num
    × Ascending order h.right.keys h.right.key_num
    × (h.left.key_num ≡ 2)
    × (h.left.key_num + h.right.key_num ≡ 4)
    × (h.left.rids 3 ≡ record { page_num = 9; slot_num = 4294967295 })
    × (h.right.rids 3 ≡ rid 16)
    × ((q : Memory)
        → lookup order.cmp (side order q h.left h.right h.middle) q ≡ (
            if is_eq (order.cmp q (key 8))
            then some (rid 8)
            else lookup order.cmp (leaf_of 10 3) q))
split_leaf-lookup_example =
    split_leaf-lookup order 4 (leaf_of 10 3) blank no_keys no_rids 9 (key 8) (rid 8)
      (leaf_of-Ascending 10 3 (omega arith)) (smaller 8 10 3 (omega arith) (omega arith)) refl
      (omega arith)

neighbours : Neighbours order (leaf_of 10 1) (leaf_of 20 2) (key 20)
neighbours = record {
  left_ascending = leaf_of-Ascending 10 1 (omega arith);
  right_ascending = leaf_of-Ascending 20 2 (omega arith);
  left_below = λ j h. key-lt (10 + j + j) 20 (omega arith) (omega arith);
  right_above = above;
}
  where
    above : (j : ℕ) → j < 2 → order.cmp (key 20) ((leaf_of 20 2).keys j) ≢ Ordering.gt
    above zero h e = let same = order.cmp-flip (key 20) (key 20) in ground arith
    above (suc j) h e = let less = key-lt 20 (20 + suc j + suc j) (omega arith) (omega arith) in cc

leaf_from_left-lookup_example :
    lookup order.cmp (leaf_from_left (leaf_of 10 3) (leaf_of 20 1)).right (key 14) ≡ some (rid 20)
leaf_from_left-lookup_example =
    leaf_from_left-lookup order (leaf_of 10 3) (leaf_of 20 1) (omega arith)

-- An inner node whose children are the pages from `first` on.
abbrev pub inner_of : ℕ → ℕ → Node Memory
inner_of first n = record {
  is_leaf = false;
  key_num = n;
  parent = none;
  keys = λ i. key (20 + i);
  rids = λ i. record { page_num = first + i; slot_num = 4294967295 };
}

inner_from_right_loses_example :
    ¬ HasChild
      (inner_of 2 1)
      (inner_of 4 2)
      (key 20)
      (inner_from_right (inner_of 2 1) (inner_of 4 2) (key 20)).left
      6
    × ¬ HasChild
        (inner_of 2 1)
        (inner_of 4 2)
        (key 20)
        (inner_from_right (inner_of 2 1) (inner_of 4 2) (key 20)).right
        6
inner_from_right_loses_example =
    inner_from_right_loses (inner_of 2 1) (inner_of 4 2) (key 20) (omega arith) (λ i h. omega arith)
      (λ i h. omega arith)
