-- ===== src/Tree/Pages.antt =====
-- `BplusTreeHandler` of bplus_tree.cpp over the pages of its file: the way from the root to a leaf, and
-- `get_entry`. A page holds a node; `get_this_page` fails on a page without one, and `get_data`,
-- `mark_dirty`, `unpin_page` and `malloc` do not fail. The count of the pins is left out. A key has the
-- record's identifier at its end, as `insert_entry` builds it. A search that does not end is `none`.
pub mod Descend
use Prim.Native.Nat.{Ordering}
use miniob.Base.{ℕ, zero, suc, ◌+◌, Bool, true, false, Option, none, some, ◌==◌, if◌then◌else◌}
use miniob.Rc.{
  Rc, Outcome, ok, err, fault, success, generic_error, bufferpool_invalid_page_num,
  record_invalid_key,
}
use miniob.Record.{Rid}
use miniob.Tree.Node.{Node, first_above, lookup}

module _ (K : Type 0) where
  abbrev pub Nodes : Type 0
  Nodes = ℕ → Option (Node K)

  -- The nodes of the file's pages, and what the handler uses of the file's header.
  pub record BplusTree : Type 0 where
    pub nodes : Nodes
    pub root_page : ℕ
    pub order : ℕ

  -- What an operation that writes returns: the code, and the tree after it.
  abbrev pub Reply : Type 0
  Reply = Rc × BplusTree

-- What a leaf answers to `get_entry`.
abbrev pub answer : Option Rid → Outcome Rid
answer none = err record_invalid_key
answer (some rid) = ok rid

module _ {K : Type 0} where
  abbrev pub set_node : BplusTree K → ℕ → Node K → BplusTree K
  set_node tree page node = record tree {
    nodes = λ p. if page == p then some node else tree.nodes p;
  }

  -- `dispose_page`
  abbrev pub drop_page : BplusTree K → ℕ → BplusTree K
  drop_page tree page = record tree { nodes = λ p. if page == p then none else tree.nodes p }

  abbrev pub set_parent : Node K → Option ℕ → Node K
  set_parent node parent = record node { parent = parent }

  -- `insert_into_leaf` on the page, with what it does to the node.
  abbrev pub put_into_leaf : BplusTree K → ℕ → Outcome (Node K) → Reply K
  put_into_leaf tree leaf_page (ok node) = (success, set_node tree leaf_page node)
  put_into_leaf tree leaf_page (err rc) = (rc, tree)
  put_into_leaf tree leaf_page fault = (generic_error, tree)

  -- The loop that makes `page` the parent of the children from `rids[i]` on.
  unfoldable pub adopt : ℕ → BplusTree K → (ℕ → Rid) → ℕ → ℕ → Reply K
  adopt zero tree rids page i = (success, tree)
  adopt (suc n) tree rids page i = elim (tree.nodes (rids i).page_num) [
    | none ↦ (bufferpool_invalid_page_num, tree)
    | some child ↦
        adopt n (set_node tree (rids i).page_num (set_parent child (some page))) rids page (i + 1)
  ]

  -- The loop of `find_leaf` and of `get_first_leaf_page`, which choose the next page.
  unfoldable pub descend : ℕ → BplusTree K → (Node K → ℕ) → ℕ → Option (Outcome ℕ)
  descend zero tree choose page = none
  descend (suc fuel) tree choose page = elim (tree.nodes page) [
    | none ↦ some (err bufferpool_invalid_page_num)
    | some node ↦
        let next = descend fuel tree choose (choose node) in
        if node.is_leaf then some (ok page) else next
  ]

  unfoldable pub get_first_leaf_page : ℕ → BplusTree K → Option (Outcome ℕ)
  get_first_leaf_page fuel tree = descend fuel tree (λ node. (node.rids 0).page_num) tree.root_page

  module _ (cmp : K → K → Ordering) where
    unfoldable pub child_for : K → Node K → ℕ
    child_for key node = (node.rids (first_above cmp node.key_num node.keys key 0)).page_num

    unfoldable pub find_leaf : ℕ → BplusTree K → K → Option (Outcome ℕ)
    find_leaf fuel tree key = descend fuel tree (child_for key) tree.root_page

    unfoldable pub get_entry : ℕ → BplusTree K → K → Option (Outcome Rid)
    get_entry fuel tree key = elim (find_leaf fuel tree key) [
      | none ↦ none
      | some (ok leaf_page) ↦ elim (tree.nodes leaf_page) [
        | none ↦ some (err bufferpool_invalid_page_num)
        | some leaf ↦ some (answer (lookup cmp leaf key))
      ]
      | some (err rc) ↦ some (err rc)
      | some fault ↦ some fault
    ]
