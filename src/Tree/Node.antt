-- ===== src/Tree/Node.antt =====
-- `IndexNode` of bplus_tree.h: a node as the code sees it through `get_index_node`, and what the
-- handler's methods do to the nodes of one page or two. `keys` and `rids` are the two arrays; only the
-- first `key_num` keys count. In a leaf `rids[order - 1]` leads to the next leaf, in an inner node
-- `rids[i]` leads to the child before `keys[i]`. A page number -1 is `none` where it is a parent. A
-- loop recurs on the rounds that it has left.
pub mod Arrays
pub mod Sorted
pub mod Lookup
pub mod Insert
pub mod Delete
use Prim.Native.Nat.{Ordering}
use miniob.Index.Order.{flip, agree}
use miniob.Base.{
  ◌≡◌, ℕ, zero, suc, ◌+◌, ◌-◌, ◌/◌, ◌^◌, Bool, true, false, Option, none, some, ltb, leb, ◌==◌,
  if◌then◌else◌,
}
use miniob.Rc.{Outcome, ok, err, record_duplicate_key, record_invalid_key}
use miniob.Record.{Rid}

pub record Node (K : Type 0) : Type 0 where
  pub is_leaf : Bool
  pub key_num : ℕ
  pub parent : Option ℕ
  pub keys : ℕ → K
  pub rids : ℕ → Rid

-- What the comparison of keys has to be.
pub record KeyOrder (K : Type 0) : Type 0 where
  pub cmp : K → K → Ordering
  pub cmp-flip : (a b : K) → cmp b a ≡ flip (cmp a b)
  pub cmp-agree : (a b c : K) → agree (cmp a b) (cmp b c) (cmp a c) ≡ true

-- An identifier that leads to a page; its slot number is -1, as a 32-bit pattern.
abbrev pub page_rid : ℕ → Rid
page_rid page = record { page_num = page; slot_num = 2 ^ 32 - 1 }

module _ {A : Type 0} where
  abbrev pub put : (ℕ → A) → ℕ → A → ℕ → A
  put a i v j = if i == j then v else a j

  -- `for (i = top; n rounds; i--) a[i] = a[i - 1];`
  unfoldable pub shift_up : ℕ → (ℕ → A) → ℕ → ℕ → A
  shift_up zero a top = a
  shift_up (suc n) a top = shift_up n (put a top (a (top - 1))) (top - 1)

  -- `for (i = from; n rounds; i++) a[i] = a[i + 1];`
  unfoldable pub shift_down : ℕ → (ℕ → A) → ℕ → ℕ → A
  shift_down zero a from = a
  shift_down (suc n) a from = shift_down n (put a from (a (from + 1))) (from + 1)

  -- `for (n rounds; i++, j++) dst[j] = src[i];`
  unfoldable pub copy : ℕ → (ℕ → A) → ℕ → (ℕ → A) → ℕ → ℕ → A
  copy zero dst j src i = dst
  copy (suc n) dst j src i = copy n (put dst j (src i)) (j + 1) src (i + 1)

  -- `for (n rounds; i++, j++) { if (j == gap) j++; dst[j] = src[i]; }`
  unfoldable pub spread : ℕ → (ℕ → A) → ℕ → ℕ → (ℕ → A) → ℕ → ℕ → A
  spread zero dst gap j src i = dst
  spread (suc n) dst gap j src i =
      let k = if j == gap then j + 1 else j in spread n (put dst k (src i)) gap (k + 1) src (i + 1)

-- The loop that looks for a child, over the keys' count and one more.
unfoldable pub find_child : ℕ → (ℕ → Rid) → ℕ → ℕ → ℕ
find_child zero rids page i = i
find_child (suc n) rids page i =
    let rest = find_child n rids page (i + 1) in if (rids i).page_num == page then i else rest

module _ {K : Type 0} where
  -- `insert_into_new_root`: the node that the new root's page holds after it.
  unfoldable pub new_root : Node K → ℕ → K → ℕ → Node K
  new_root fresh left key right = record {
    is_leaf = false;
    key_num = 1;
    parent = none;
    keys = put (fresh.keys) 0 key;
    rids = put (put (fresh.rids) 0 (page_rid left)) 1 (page_rid right);
  }

  -- `insert_intern_node`
  unfoldable pub insert_child : Node K → ℕ → ℕ → K → Node K
  insert_child node left right key =
      let pos = find_child (node.key_num + 1) node.rids left 0 in
      record node {
        keys = put (shift_up (node.key_num - pos) node.keys node.key_num) pos key;
        rids =
            put (shift_up (node.key_num - pos) node.rids (node.key_num + 1)) (pos + 1)
              (page_rid right);
        key_num = node.key_num + 1;
      }

  module _ (cmp : K → K → Ordering) where
    -- The search of `find_leaf` and `insert_into_leaf_after_split` for the first key above `key`.
    unfoldable pub first_above : ℕ → (ℕ → K) → K → ℕ → ℕ
    first_above zero keys key i = i
    first_above (suc n) keys key i =
        let rest = first_above n keys key (i + 1) in
        elim (cmp key (keys i)) [ Ordering.lt ↦ i | Ordering.eq ↦ rest | Ordering.gt ↦ rest ]

    -- The search of `insert_into_leaf`; `none` is RECORD_DUPLICATE_KEY.
    unfoldable pub insert_place : ℕ → (ℕ → K) → K → ℕ → Option ℕ
    insert_place zero keys key i = some i
    insert_place (suc n) keys key i =
        let rest = insert_place n keys key (i + 1) in
        elim (cmp key (keys i)) [ Ordering.eq ↦ none | Ordering.lt ↦ some i | Ordering.gt ↦ rest ]

    -- The search of `get_entry` and `delete_entry_from_node`.
    unfoldable pub find_key : ℕ → (ℕ → K) → K → ℕ → Option ℕ
    find_key zero keys key i = none
    find_key (suc n) keys key i =
        let rest = find_key n keys key (i + 1) in
        elim (cmp key (keys i)) [ Ordering.eq ↦ some i | Ordering.lt ↦ rest | Ordering.gt ↦ rest ]

    -- `get_entry` in its leaf: the identifier of the equal key.
    unfoldable pub lookup : Node K → K → Option Rid
    lookup node key = elim (find_key node.key_num node.keys key 0) [
      | none ↦ none
      | some i ↦ some (node.rids i)
    ]

    unfoldable pub insert_into_leaf : Node K → K → Rid → Outcome (Node K)
    insert_into_leaf node key rid = elim (insert_place node.key_num node.keys key 0) [
      | none ↦ err record_duplicate_key
      | some pos ↦ ok (record node {
        keys = put (shift_up (node.key_num - pos) node.keys node.key_num) pos key;
        rids = put (shift_up (node.key_num - pos) node.rids node.key_num) pos rid;
        key_num = node.key_num + 1;
      })
    ]

    unfoldable pub delete_entry_from_node : Node K → K → Outcome (Node K)
    delete_entry_from_node node key = elim (find_key node.key_num node.keys key 0) [
      | none ↦ err record_invalid_key
      | some index ↦ ok (record node {
        keys = shift_down (node.key_num - 1 - index) node.keys index;
        rids =
            if node.is_leaf
            then shift_down (node.key_num - 1 - index) node.rids index
            else shift_down (node.key_num - (index + 1)) node.rids (index + 1);
        key_num = node.key_num - 1;
      })
    ]
