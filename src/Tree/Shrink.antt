-- ===== src/Tree/Shrink.antt =====
-- `delete_entry` of bplus_tree.cpp and the functions that it calls. The calls up the tree recur on fuel.
-- The two nodes and their parent are read before any of them is written.
pub mod Delete
use Prim.Native.Nat.{Ordering}
use miniob.Base.{
  ℕ, zero, suc, ◌+◌, ◌-◌, ◌/◌, Bool, true, false, not, ◌&&◌, Option, none, some, ltb, leb, ◌==◌,
  if◌then◌else◌,
}
use miniob.Rc.{
  Rc, Outcome, ok, err, fault, success, generic_error, bufferpool_invalid_page_num, is_success,
}
use miniob.Record.{Rid}
use miniob.Tree.Node.{Node, put, find_child, delete_entry_from_node}
use miniob.Tree.Balance.{
  Halves, merge, leaf_from_right, leaf_from_left, inner_from_right, inner_from_left,
}
use miniob.Tree.Pages.{BplusTree, Reply, set_node, drop_page, set_parent, adopt, find_leaf}

module _ {K : Type 0} where
  -- The fewest keys of a node that is not the root.
  unfoldable pub min_key : ℕ → Node K → ℕ
  min_key order node = if node.is_leaf then order / 2 else (order + 1) / 2 - 1

  -- The parent's page, which is not valid for a node without a parent.
  unfoldable pub parent_node : BplusTree K → Node K → Option (ℕ × Node K)
  parent_node tree node = elim (node.parent) [
    | none ↦ none
    | some page ↦ elim (tree.nodes page) [ none ↦ none | some parent ↦ some (page, parent) ]
  ]

  -- What `redistribute_nodes` makes of the two nodes and the key between them.
  unfoldable pub redistribute : ℕ → Node K → Node K → K → Halves K
  redistribute order left right separator =
      if left.is_leaf
      then if ltb left.key_num (min_key order left)
        then leaf_from_right left right
        else leaf_from_left left right
      else if ltb left.key_num (min_key order left)
      then inner_from_right left right separator
      else inner_from_left left right separator

  -- The child that changes its parent in `redistribute_nodes`.
  unfoldable pub adopt_moved : BplusTree K → Node K → Halves K → ℕ → ℕ → Reply K
  adopt_moved tree left halves left_page right_page =
      if left.is_leaf
      then (success, tree)
      else if ltb left.key_num (min_key tree.order left)
      then adopt 1 tree halves.left.rids left_page halves.left.key_num
      else adopt 1 tree halves.right.rids right_page 0

  unfoldable pub redistribute_nodes : BplusTree K → ℕ → ℕ → Reply K
  redistribute_nodes tree left_page right_page = elim (tree.nodes left_page) [
    | none ↦ (bufferpool_invalid_page_num, tree)
    | some left ↦ elim (tree.nodes right_page) [
      | none ↦ (bufferpool_invalid_page_num, tree)
      | some right ↦ elim (parent_node tree left) [
        | none ↦ (bufferpool_invalid_page_num, tree)
        | some (parent_page, parent) ↦
            let k = find_child parent.key_num parent.rids left_page 0 in
            let halves = redistribute tree.order left right (parent.keys k) in
            let written = set_node (set_node tree left_page halves.left) right_page halves.right in
            adopt_moved
              (set_node written parent_page
                (record parent { keys = put (parent.keys) k halves.middle }))
              left halves left_page right_page
      ]
    ]
  ]

  -- `to_parent` is the call of `delete_entry_internal` at its end.
  unfoldable pub coalesce_node :
      (BplusTree K → ℕ → K → Option (Reply K)) → BplusTree K → ℕ → ℕ → Option (Reply K)
  coalesce_node to_parent tree left_page right_page = elim (tree.nodes left_page) [
    | none ↦ some (bufferpool_invalid_page_num, tree)
    | some left ↦ elim (tree.nodes right_page) [
      | none ↦ some (bufferpool_invalid_page_num, tree)
      | some right ↦ elim (parent_node tree left) [
        | none ↦ some (bufferpool_invalid_page_num, tree)
        | some (parent_page, parent) ↦
            let separator = parent.keys (find_child parent.key_num parent.rids left_page 0) in
            let merged = merge tree.order left right separator in
            let written = set_node tree left_page merged in
            let (rc, after) =
              if left.is_leaf
              then (success, written)
              else adopt (right.key_num + 1) written merged.rids left_page (left.key_num + 1) in
            let rest = to_parent (drop_page after right_page) parent_page separator in
            if is_success rc then rest else some (rc, after)
      ]
    ]
  ]

  -- A root without keys gives way to its only child.
  unfoldable pub shrink_root : BplusTree K → ℕ → Node K → Reply K
  shrink_root tree page node =
      if node.key_num == 0 && not node.is_leaf
      then (let child_page = (node.rids 0).page_num in
          elim (tree.nodes child_page) [
            | none ↦ (bufferpool_invalid_page_num, tree)
            | some child ↦
                let after = record (set_node tree child_page (set_parent child none)) {
                  root_page = child_page;
                } in
                (success, drop_page after page)
          ])
      else (success, tree)

  -- The end of `delete_entry_internal`: a node with too few keys and its neighbour.
  unfoldable pub fill_up :
      (BplusTree K → ℕ → K → Option (Reply K)) → BplusTree K → ℕ → Node K → Option (Reply K)
  fill_up to_parent tree page node = elim (parent_node tree node) [
    | none ↦ some (bufferpool_invalid_page_num, tree)
    | some (parent_page, parent) ↦
        let index = find_child (parent.key_num + 1) parent.rids page 0 in
        let other = (parent.rids (if index == 0 then 1 else index - 1)).page_num in
        let left_page = if index == 0 then page else other in
        let right_page = if index == 0 then other else page in
        elim (tree.nodes other) [
          | none ↦ some (bufferpool_invalid_page_num, tree)
          | some neighbour ↦
              let joined = coalesce_node to_parent tree left_page right_page in
              if ltb (min_key tree.order node) neighbour.key_num
              then some (redistribute_nodes tree left_page right_page)
              else joined
        ]
  ]

  module _ (cmp : K → K → Ordering) where
    unfoldable pub delete_entry_internal : ℕ → BplusTree K → ℕ → K → Option (Reply K)
    delete_entry_internal zero tree page key = none
    delete_entry_internal (suc fuel) tree page key = elim (tree.nodes page) [
      | none ↦ some (bufferpool_invalid_page_num, tree)
      | some before ↦ elim (delete_entry_from_node cmp before key) [
        | err rc ↦ some (rc, tree)
        | fault ↦ none
        | ok node ↦
            let written = set_node tree page node in
            let rest = fill_up (delete_entry_internal fuel) written page node in
            elim (node.parent) [
              | none ↦ some (shrink_root written page node)
              | some _ ↦
                  if leb (min_key tree.order node) node.key_num
                  then some (success, written)
                  else rest
            ]
      ]
    ]

    unfoldable pub delete_entry : ℕ → BplusTree K → K → Option (Reply K)
    delete_entry fuel tree key = elim (find_leaf cmp fuel tree key) [
      | none ↦ none
      | some (err rc) ↦ some (rc, tree)
      | some fault ↦ none
      | some (ok leaf_page) ↦ delete_entry_internal fuel tree leaf_page key
    ]
