-- ===== src/Tree/Grow/Root.antt =====
-- `insert_entry` on a tree that is one full leaf: the leaf is split and gets a new root.
use Prim.Native.Nat.{Ordering}
use miniob.Base.{
  ℕ, ◌+◌, ◌-◌, ◌<◌, ◌≡◌, ◌≢◌, ◌⊎◌, inl, inr, refl, ◌∙◌, ap, Option, none, some, true, false, ltb,
  ◌==◌, if◌then◌else◌, arith, Bool-cases,
}
use miniob.Index.Order.{is_eq, is_lt}
use miniob.Rc.{Rc, ok, success, is_success}
use miniob.Record.{Rid}
use miniob.Tree.Node.{Node, KeyOrder, lookup, first_above, new_root}
use miniob.Tree.Node.Sorted.{Ascending, Ordering-cases}
use miniob.Tree.Balance.{Halves, split_leaf}
use miniob.Tree.Balance.Cut.{side}
use miniob.Tree.Balance.Split.{split_leaf-lookup}
use miniob.Tree.Pages.{
  BplusTree, Nodes, Reply, set_node, set_parent, adopt, descend, child_for, find_leaf, get_entry,
  answer,
}
use miniob.Tree.Pages.Descend.{descend-inner, descend-leaf, get_entry-find_leaf}
use miniob.Tree.Grow.{
  insert_into_new_root, insert_into_parent, insert_into_leaf_after_split, insert_entry,
}

module _ {K : Type 0} (o : KeyOrder K) (tree : BplusTree K) (fresh : Node K) (left right : Node K)
    (middle : K) (left_page right_page root_page : ℕ) (left_held : tree.nodes left_page ≡ some left)
    (right_held : tree.nodes right_page ≡ some right) (unused : tree.nodes root_page ≡ none)
    (apart : left_page ≢ right_page) where
  open o use {cmp}

  abbrev root : Node K
  root = new_root fresh left_page middle right_page

  -- The tree with a new root over the two nodes.
  abbrev rooted : BplusTree K
  rooted =
      record (set_node
        (set_node (set_node tree root_page root) left_page (set_parent left (some root_page)))
        right_page (set_parent right (some root_page))) { root_page = root_page }

  new_left : (root_page == left_page) ≡ false
  new_left = ground arith

  new_right : (root_page == right_page) ≡ false
  new_right = ground arith

  pub new_root-rooted :
      (allocate_page : Nodes K → Rc ⊎ (ℕ × Node K))
      → allocate_page tree.nodes ≡ inr (root_page, fresh)
      → insert_into_new_root allocate_page tree left_page middle right_page ≡ (success, rooted)
  unfolding insert_into_new_root adopt new_root is_success
  new_root-rooted allocate_page e = ground (arith, new_left, new_right)

  rooted-root : rooted.nodes root_page ≡ some root
  rooted-root = ground (arith, new_left, new_right)

  rooted-left : rooted.nodes left_page ≡ some (set_parent left (some root_page))
  rooted-left = ground arith

  rooted-right : rooted.nodes right_page ≡ some (set_parent right (some root_page))
  rooted-right = ground arith

  child-root :
      (q : K) → child_for cmp q root ≡ (if is_lt (cmp q middle) then left_page else right_page)
  unfolding child_for new_root first_above
  child-root q = elim (Ordering-cases (cmp q middle)) [
    | inl e ↦ ground arith
    | inr (inl e) ↦ ground arith
    | inr (inr e) ↦ ground arith
  ]

  descend-rooted :
      (q : K) (page : ℕ) (leaf : Node K)
      → child_for cmp q root ≡ page
      → rooted.nodes page ≡ some leaf
      → leaf.is_leaf ≡ true
      → find_leaf cmp 2 rooted q ≡ some (ok page)
  unfolding find_leaf
  descend-rooted q page leaf c e l =
      descend-inner 1 rooted (child_for cmp q) root_page root rooted-root (unfold new_root in refl)
      ∙ ap (descend 1 rooted (child_for cmp q)) c
      ∙ descend-leaf 0 rooted (child_for cmp q) page leaf e l

  lookup-set_parent :
      (node : Node K) (p : Option ℕ) (q : K) → lookup cmp (set_parent node p) q ≡ lookup cmp node q
  unfolding lookup
  lookup-set_parent node p q = refl

  pub get_entry-rooted :
      (q : K)
      → left.is_leaf ≡ true
      → right.is_leaf ≡ true
      → get_entry cmp 2 rooted q ≡ some (answer (lookup cmp (side o q left right middle) q))
  get_entry-rooted q l r = elim (Bool-cases (is_lt (cmp q middle))) [
    | inl t ↦ rw t (
        get_entry-find_leaf o 2 rooted q left_page (set_parent left (some root_page))
          (descend-rooted q left_page (set_parent left (some root_page)) (child-root q ∙ rw t)
            rooted-left l)
          rooted-left
        ∙ ap (λ x. some (answer x)) (lookup-set_parent left (some root_page) q))
    | inr t ↦ rw t (
        get_entry-find_leaf o 2 rooted q right_page (set_parent right (some root_page))
          (descend-rooted q right_page (set_parent right (some root_page)) (child-root q ∙ rw t)
            rooted-right r)
          rooted-right
        ∙ ap (λ x. some (answer x)) (lookup-set_parent right (some root_page) q))
  ]

module _ {K : Type 0} (o : KeyOrder K) (allocate_page : Nodes K → Rc ⊎ (ℕ × Node K))
    (temp_keys : ℕ → K) (temp_pointers : ℕ → Rid)
    (unused : (nodes : Nodes K) (page : ℕ) (fresh : Node K)
      → allocate_page nodes ≡ inr (page, fresh)
      → nodes page ≡ none)
    (tree : BplusTree K) (leaf : Node K) (key : K) (rid : Rid)
    (held : tree.nodes tree.root_page ≡ some leaf) (is_leaf : leaf.is_leaf ≡ true)
    (top : leaf.parent ≡ none) (asc : Ascending o leaf.keys leaf.key_num)
    (new : (j : ℕ) → j < leaf.key_num → o.cmp key (leaf.keys j) ≢ Ordering.eq)
    (full : leaf.key_num + 1 ≡ tree.order) (two : 1 < tree.order) (page₁ page₂ : ℕ)
    (fresh₁ fresh₂ : Node K) where
  open o use {cmp}

  abbrev halves : Halves K
  halves = split_leaf cmp tree.order leaf fresh₁ temp_keys temp_pointers page₁ key rid

  abbrev divided : BplusTree K
  divided = set_node (set_node tree tree.root_page halves.left) page₁ halves.right

  found_root : find_leaf cmp 1 tree key ≡ some (ok tree.root_page)
  unfolding find_leaf
  found_root = descend-leaf 0 tree (child_for cmp key) tree.root_page leaf held is_leaf

  left_leaf : halves.left.is_leaf ≡ true
  unfolding split_leaf
  left_leaf = is_leaf

  right_leaf : halves.right.is_leaf ≡ true
  unfolding split_leaf
  right_leaf = refl

  module _ (first : allocate_page tree.nodes ≡ inr (page₁, fresh₁))
      (second : allocate_page divided.nodes ≡ inr (page₂, fresh₂)) where
    split_runs :
        insert_entry allocate_page temp_keys temp_pointers cmp 1 tree key rid
        ≡ some (
          success,
          (insert_into_new_root allocate_page divided tree.root_page halves.middle page₁).1,
        )
    unfolding insert_entry insert_into_leaf_after_split insert_into_parent
    split_runs =
        let no_room : ltb leaf.key_num (tree.order - 1) ≡ false = ground arith in
        rw (found_root, insert_entry) (rw (held, no_room) (ground arith))

    apart : tree.root_page ≢ page₁
    apart e = let free = unused tree.nodes page₁ fresh₁ first in ground arith

    left_there : divided.nodes tree.root_page ≡ some halves.left
    left_there = ground (arith, apart)

    right_there : divided.nodes page₁ ≡ some halves.right
    right_there = ground arith

    free_page : divided.nodes page₂ ≡ none
    free_page = unused divided.nodes page₂ fresh₂ second

    -- When the tree is one leaf that is full, and two pages can be allocated, `insert_entry` succeeds
    -- for a key that the leaf does not have: it splits the leaf under a new root, and `get_entry` then
    -- finds, two levels down, the new identifier for every key equal to the new one and for every other
    -- key what the leaf had for it.
    pub insert_entry-splits_root :
        (after : BplusTree K) × (insert_entry allocate_page temp_keys temp_pointers cmp 1 tree key
            rid
          ≡ some (success, after))
        × (after.root_page ≡ page₂)
        × ((q : K)
            → get_entry cmp 2 after q
              ≡ some (answer (if is_eq (cmp q key) then some rid else lookup cmp leaf q)))
    insert_entry-splits_root =
        let made =
          new_root-rooted o divided fresh₂ halves.left halves.right halves.middle tree.root_page
            page₁ page₂ left_there right_there free_page apart allocate_page second in
        let split =
          split_leaf-lookup o tree.order leaf fresh₁ temp_keys temp_pointers page₁ key rid asc new
            full two in
        (
          _,
          split_runs ∙ ap (λ (r : Reply K). some (success, r.1)) made,
          refl,
          λ q.
              get_entry-rooted o divided fresh₂ halves.left halves.right halves.middle
                tree.root_page page₁ page₂ left_there right_there free_page apart q left_leaf
                right_leaf
              ∙ ap (λ x. some (answer x)) (split.6 q),
        )
