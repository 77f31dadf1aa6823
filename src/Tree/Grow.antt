-- ===== src/Tree/Grow.antt =====
-- `insert_entry` of bplus_tree.cpp and the functions that it calls. `allocate_page` is a parameter: a
-- code, or a page with what it holds. `temp_keys` and `temp_pointers` are what memory from `malloc`
-- holds. The calls up the tree recur on fuel.
pub mod Insert
pub mod Root
use Prim.Native.Nat.{Ordering}
use miniob.Base.{
  ℕ, zero, suc, ◌+◌, ◌-◌, Bool, true, false, Option, none, some, ◌⊎◌, inl, inr, ltb, ◌==◌,
  if◌then◌else◌,
}
use miniob.Rc.{
  Rc, Outcome, ok, err, fault, success, generic_error, bufferpool_invalid_page_num, is_success,
}
use miniob.Record.{Rid}
use miniob.Tree.Node.{Node, new_root, insert_child, insert_into_leaf}
use miniob.Tree.Balance.{Halves, split_leaf, split_inner}
use miniob.Tree.Pages.{BplusTree, Nodes, Reply, set_node, adopt, put_into_leaf, find_leaf}

module _ {K : Type 0} (allocate_page : Nodes K → Rc ⊎ (ℕ × Node K)) where
  -- The root page is set only if both children are there.
  unfoldable pub insert_into_new_root : BplusTree K → ℕ → K → ℕ → Reply K
  insert_into_new_root tree left key right = elim (allocate_page tree.nodes) [
    | inl rc ↦ (rc, tree)
    | inr (root_page, fresh) ↦
        let root = new_root fresh left key right in
        let (rc, after) = adopt 2 (set_node tree root_page root) root.rids root_page 0 in
        if is_success rc then (rc, record after { root_page = root_page }) else (rc, after)
  ]

  module _ (temp_keys : ℕ → K) (temp_pointers : ℕ → Rid) where
    -- `to_parent` is the call of `insert_into_parent` at its end.
    unfoldable pub insert_intern_node_after_split :
        (BplusTree K → Option ℕ → ℕ → K → ℕ → Option (Reply K))
        → BplusTree K
        → ℕ
        → Node K
        → ℕ
        → ℕ
        → K
        → Option (Reply K)
    insert_intern_node_after_split to_parent tree inter_page node left right key =
        elim (allocate_page tree.nodes) [
          | inl rc ↦ some (rc, tree)
          | inr (new_page, fresh) ↦
              let halves =
                split_inner tree.order node fresh temp_keys temp_pointers left right key in
              let written = set_node (set_node tree inter_page halves.left) new_page halves.right in
              let (rc, after) =
                adopt (halves.right.key_num + 1) written halves.right.rids new_page 0 in
              let rest = to_parent after node.parent inter_page halves.middle new_page in
              if is_success rc then rest else some (rc, after)
        ]

    unfoldable pub insert_into_parent : ℕ → BplusTree K → Option ℕ → ℕ → K → ℕ → Option (Reply K)
    insert_into_parent zero tree parent left key right = none
    insert_into_parent (suc fuel) tree none left key right =
        some (insert_into_new_root tree left key right)
    insert_into_parent (suc fuel) tree (some page) left key right = elim (tree.nodes page) [
      | none ↦ some (bufferpool_invalid_page_num, tree)
      | some node ↦
          let split =
            insert_intern_node_after_split (insert_into_parent fuel) tree page node left right
              key in
          if ltb node.key_num (tree.order - 1)
          then some (success, set_node tree page (insert_child node left right key))
          else split
    ]

    module _ (cmp : K → K → Ordering) where
      unfoldable pub insert_into_leaf_after_split :
          ℕ → BplusTree K → ℕ → Node K → K → Rid → Option (Reply K)
      insert_into_leaf_after_split fuel tree leaf_page leaf key rid =
          elim (allocate_page tree.nodes) [
            | inl rc ↦ some (rc, tree)
            | inr (new_page, fresh) ↦
                let halves =
                  split_leaf cmp tree.order leaf fresh temp_keys temp_pointers new_page key rid in
                insert_into_parent fuel
                  (set_node (set_node tree leaf_page halves.left) new_page halves.right) leaf.parent
                  leaf_page halves.middle new_page
          ]

      -- The code that a split returns is dropped.
      unfoldable pub insert_entry : ℕ → BplusTree K → K → Rid → Option (Reply K)
      insert_entry fuel tree key rid = elim (find_leaf cmp fuel tree key) [
        | none ↦ none
        | some (err rc) ↦ some (rc, tree)
        | some fault ↦ none
        | some (ok leaf_page) ↦ elim (tree.nodes leaf_page) [
          | none ↦ some (bufferpool_invalid_page_num, tree)
          | some leaf ↦
              if ltb leaf.key_num (tree.order - 1)
              then some (put_into_leaf tree leaf_page (insert_into_leaf cmp leaf key rid))
              else elim (insert_into_leaf_after_split fuel tree leaf_page leaf key rid) [
                | none ↦ none
                | some (rc, after) ↦ some (success, after)
              ]
        ]
      ]
