-- ===== src/Tree/Balance.antt =====
-- What `insert_into_leaf_after_split`, `insert_intern_node_after_split`, `coalesce_node` and
-- `redistribute_nodes` of bplus_tree.cpp do to two neighbouring nodes and the key between them.
pub mod Cut
pub mod Split
pub mod Join
pub mod Lost
use Prim.Native.Nat.{Ordering}
use miniob.Base.{ℕ, ◌+◌, ◌-◌, ◌/◌, true, false, if◌then◌else◌}
use miniob.Record.{Rid}
use miniob.Tree.Node.{
  Node, page_rid, put, shift_up, shift_down, copy, spread, find_child, first_above,
}

-- Two neighbours, and the key that the parent has or gets between them.
pub record Halves (K : Type 0) : Type 0 where
  pub left : Node K
  pub right : Node K
  pub middle : K

module _ {K : Type 0} where
  -- `insert_intern_node_after_split`, without the children's parents. The arguments `temp_keys` and
  -- `temp_pointers` are what the memory from `malloc` holds, `fresh` what the new page holds.
  unfoldable pub split_inner : ℕ → Node K → Node K → (ℕ → K) → (ℕ → Rid) → ℕ → ℕ → K → Halves K
  split_inner order node fresh temp_keys temp_pointers left right key =
      let pos = find_child (node.key_num + 1) node.rids left 0 in
      let keys = put (spread node.key_num temp_keys pos 0 node.keys 0) pos key in
      let rids =
        put (spread (node.key_num + 1) temp_pointers (pos + 1) 0 node.rids 0) (pos + 1)
          (page_rid right) in
      let split = (order + 1) / 2 in
      record {
        left = record node {
          keys = copy (split - 1) node.keys 0 keys 0;
          rids = put (copy (split - 1) node.rids 0 rids 0) (split - 1) (rids (split - 1));
          key_num = split - 1;
        };
        right = record {
          is_leaf = false;
          key_num = order - split;
          parent = node.parent;
          keys = copy (order - split) fresh.keys 0 keys split;
          rids = put (copy (order - split) fresh.rids 0 rids split) (order - split) (rids order);
        };
        middle = keys (split - 1);
      }

  -- `coalesce_node`: the left node with the right one's entries; `separator` is the parent's key
  -- between the two.
  unfoldable pub merge : ℕ → Node K → Node K → K → Node K
  merge order left right separator =
      if left.is_leaf
      then record left {
        keys = copy right.key_num left.keys left.key_num right.keys 0;
        rids =
            put (copy right.key_num left.rids left.key_num right.rids 0) (order - 1)
              (right.rids (order - 1));
        key_num = left.key_num + right.key_num;
      }
      else (let start = left.key_num + 1 in
          record left {
            keys = copy right.key_num (put left.keys left.key_num separator) start right.keys 0;
            rids =
                put (copy right.key_num left.rids start right.rids 0) (start + right.key_num)
                  (right.rids right.key_num);
            key_num = start + right.key_num;
          })

  -- The four cases of `redistribute_nodes`. `middle` is the parent's key between the two nodes.
  unfoldable pub leaf_from_right : Node K → Node K → Halves K
  leaf_from_right left right =
      let keys = shift_down (right.key_num - 1) right.keys 0 in
      record {
        left = record left {
          keys = put (left.keys) left.key_num (right.keys 0);
          rids = put (left.rids) left.key_num (right.rids 0);
          key_num = left.key_num + 1;
        };
        right = record right {
          keys = keys;
          rids = shift_down (right.key_num - 1) right.rids 0;
          key_num = right.key_num - 1;
        };
        middle = keys 0;
      }

  -- The identifier of the key that moves is not copied.
  unfoldable pub leaf_from_left : Node K → Node K → Halves K
  leaf_from_left left right =
      let keys =
        put (shift_up right.key_num right.keys right.key_num) 0 (left.keys (left.key_num - 1)) in
      record {
        left = record left { key_num = left.key_num - 1 };
        right = record right {
          keys = keys;
          rids = shift_up right.key_num right.rids right.key_num;
          key_num = right.key_num + 1;
        };
        middle = keys 0;
      }

  unfoldable pub inner_from_right : Node K → Node K → K → Halves K
  inner_from_right left right separator = record {
    left = record left {
      keys = put (left.keys) left.key_num separator;
      rids = put (left.rids) (left.key_num + 1) (right.rids 0);
      key_num = left.key_num + 1;
    };
    right = record right {
      keys = shift_down (right.key_num - 1) right.keys 0;
      rids = shift_down (right.key_num - 1) right.rids 0;
      key_num = right.key_num - 1;
    };
    middle = right.keys 0;
  }

  unfoldable pub inner_from_left : Node K → Node K → K → Halves K
  inner_from_left left right separator = record {
    left = record left { key_num = left.key_num - 1 };
    right = record right {
      keys = put (shift_up right.key_num right.keys right.key_num) 0 separator;
      rids = put (shift_up right.key_num right.rids right.key_num) 0 (left.rids left.key_num);
      key_num = right.key_num + 1;
    };
    middle = left.keys (left.key_num - 1);
  }

  module _ (cmp : K → K → Ordering) where
    -- `insert_into_leaf_after_split`, which does not look for the key first.
    unfoldable pub split_leaf : ℕ → Node K → Node K → (ℕ → K) → (ℕ → Rid) → ℕ → K → Rid → Halves K
    split_leaf order leaf fresh temp_keys temp_pointers new_page key rid =
        let pos = first_above cmp leaf.key_num leaf.keys key 0 in
        let keys = put (spread leaf.key_num temp_keys pos 0 leaf.keys 0) pos key in
        let rids = put (spread leaf.key_num temp_pointers pos 0 leaf.rids 0) pos rid in
        let split = order / 2 in
        let left_rids = copy split leaf.rids 0 rids 0 in
        let right_keys = copy (order - split) fresh.keys 0 keys split in
        record {
          left = record leaf {
            keys = copy split leaf.keys 0 keys 0;
            rids = put left_rids (order - 1) (page_rid new_page);
            key_num = split;
          };
          right = record {
            is_leaf = true;
            key_num = order - split;
            parent = leaf.parent;
            keys = right_keys;
            rids =
                put (copy (order - split) fresh.rids 0 rids split) (order - 1)
                  (left_rids (order - 1));
          };
          middle = right_keys 0;
        }
