-- ===== src/Tests/Trees.antt =====
-- The operations of the B+ tree at concrete inputs.
use miniob.Base.{
  zero, suc, Option-cases, ℕ, ◌+◌, ◌≡◌, ◌<◌, ◌≤◌, ◌⊎◌, inl, inr, refl, some, none, Option, ◌==◌,
  if◌then◌else◌, arith, Bool-cases, Memory, read_u32,
}
use miniob.Index.{cmp_key, compare_key, compare_attr, compare_int}
use miniob.Index.Order.{is_eq}
use miniob.Rc.{Rc, ok, success, bufferpool}
use miniob.Tree.Node.{Node, first_above, lookup}
use miniob.Tree.Pages.{BplusTree, find_leaf, descend, child_for, get_entry, answer}
use miniob.Tree.Pages.Descend.{Leveled, ReachesLeaf, find_leaf-Reaches}
use miniob.Tree.Grow.{insert_entry}
use miniob.Tree.Grow.Insert.{Enters, insert_entry-Enters}
use miniob.Tree.Grow.Root.{insert_entry-splits_root}
use miniob.Tree.Shrink.Delete.{Leaves, delete_entry-Leaves}
use miniob.Tree.Shrink.{delete_entry}
use miniob.Tests.Nodes.{
  order, key, rid, leaf_of, leaf_of-Ascending, smaller, blank, no_keys, no_rids, inner_of,
}

-- A root over two leaves, in the pages 1, 2 and 3.
abbrev tree : BplusTree Memory
tree = record {
  nodes = λ page.
      if page == 1
      then some (inner_of 2 1)
      else if page == 2
      then some (leaf_of 10 2)
      else if page == 3
      then some (leaf_of 20 3)
      else none;
  root_page = 1;
  order = 4;
}

-- The root is on level 1.
abbrev level : ℕ → ℕ
level page = if page == 1 then 1 else 0

children :
    (i : ℕ)
    → i ≤ 1
    → ((child : Node Memory) × (tree.nodes (2 + i) ≡ some child)) × (level (2 + i) < 1)
children zero h = ((leaf_of 10 2, refl), omega arith)
children (suc zero) h = ((leaf_of 20 3, refl), omega arith)
children (suc (suc i)) h = absurd (omega arith)

tree-Leveled : Leveled tree level
tree-Leveled page node e inner i h = elim (Bool-cases (page == 1)) [
  | inl t ↦
      let same : inner_of 2 1 ≡ node = ground arith in
      let w : i ≤ 1 = rw (← same) at h in
      let one : page ≡ 1 = ground arith in rw (← same, one) (children i w)
  | inr t ↦ absurd (ground arith)
]

found_low : find_leaf order.cmp 2 tree (key 11) ≡ some (ok 2)
unfolding find_leaf descend child_for first_above cmp_key compare_key compare_attr compare_int
    read_u32
found_low = refl

found_high : find_leaf order.cmp 2 tree (key 22) ≡ some (ok 3)
unfolding find_leaf descend child_for first_above cmp_key compare_key compare_attr compare_int
    read_u32
found_high = refl

find_leaf-Reaches_example : ReachesLeaf tree (find_leaf order.cmp 2 tree (key 11))
find_leaf-Reaches_example =
    find_leaf-Reaches order 2 tree level (inner_of 2 1) (key 11) tree-Leveled (omega arith) refl

abbrev full_file : (ℕ → Option (Node Memory)) → Rc ⊎ (ℕ × Node Memory)
full_file nodes = inl bufferpool

insert_entry-Enters_example :
    Enters order full_file no_keys no_rids 2 tree
      (key 11)
      (rid 11)
      2
      (leaf_of 10 2)
      found_low
      refl
      (insert_entry full_file no_keys no_rids order.cmp 2 tree (key 11) (rid 11))
insert_entry-Enters_example =
    insert_entry-Enters order full_file no_keys no_rids 2 tree (key 11) (rid 11) 2 (leaf_of 10 2)
      found_low refl refl (leaf_of-Ascending 10 2 (omega arith)) (omega arith)

delete_entry-Leaves_example :
    Leaves order 2 tree (key 22) 3 (leaf_of 20 3) (delete_entry order.cmp 3 tree (key 22))
delete_entry-Leaves_example =
    delete_entry-Leaves order 2 tree (key 22) 3 (leaf_of 20 3) found_high refl refl (inl refl)
      (leaf_of-Ascending 20 3 (omega arith))

-- A tree that is one full leaf, in page 1, of a file that has room for the pages 2 and 3.
abbrev small_tree : BplusTree Memory
small_tree = record {
  nodes = λ page. if page == 1 then some (leaf_of 10 3) else none;
  root_page = 1;
  order = 4;
}

abbrev two_pages : (ℕ → Option (Node Memory)) → Rc ⊎ (ℕ × Node Memory)
two_pages nodes = elim (nodes 2) [
  | none ↦ inr (2, blank)
  | some _ ↦ elim (nodes 3) [ none ↦ inr (3, blank) | some _ ↦ inl bufferpool ]
]

two_pages_unused :
    (nodes : ℕ → Option (Node Memory)) (page : ℕ) (fresh : Node Memory)
    → two_pages nodes ≡ inr (page, fresh)
    → nodes page ≡ none
two_pages_unused nodes page fresh e = elim (Option-cases (nodes 2)) [
  | inl f ↦ let same : 2 ≡ page = ground arith in rw (← same) f
  | inr (n, f) ↦ elim (Option-cases (nodes 3)) [
    | inl g ↦ let same : 3 ≡ page = ground arith in rw (← same) g
    | inr (m, g) ↦ absurd (ground arith)
  ]
]

insert_entry-splits_root_example :
    (after : BplusTree Memory) × (insert_entry two_pages no_keys no_rids order.cmp 1 small_tree
        (key 8)
        (rid 8)
      ≡ some (success, after))
    × (after.root_page ≡ 3)
    × ((q : Memory)
        → get_entry order.cmp 2 after q
          ≡ some (
              answer (
                if is_eq (order.cmp q (key 8))
                then some (rid 8)
                else lookup order.cmp (leaf_of 10 3) q)))
insert_entry-splits_root_example =
    insert_entry-splits_root order two_pages no_keys no_rids two_pages_unused small_tree
      (leaf_of 10 3) (key 8) (rid 8) refl refl refl (leaf_of-Ascending 10 3 (omega arith))
      (smaller 8 10 3 (omega arith) (omega arith)) refl (omega arith) 2 3 blank blank refl refl
