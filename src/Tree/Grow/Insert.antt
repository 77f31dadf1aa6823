-- ===== src/Tree/Grow/Insert.antt =====
-- `insert_entry` seen through `get_entry`.
use miniob.Base.{
  ℕ, ◌+◌, ◌-◌, ◌≤◌, ◌<◌, ◌≡◌, ◌⊎◌, inl, inr, refl, sym, ◌∙◌, ap, Option, none, some, true, false,
  ltb, ◌==◌, if◌then◌else◌, arith, Bool-cases,
}
use miniob.Index.Order.{is_eq}
use miniob.Rc.{Rc, Outcome, ok, err, fault, success, record_duplicate_key, record_invalid_key}
use miniob.Record.{Rid}
use miniob.Tree.Node.{Node, KeyOrder, lookup, insert_into_leaf}
use miniob.Tree.Node.Sorted.{Ascending, Ordering-cases}
use miniob.Tree.Node.Lookup.{find_key-at}
use miniob.Tree.Node.Insert.{
  lookup-found, Inserts, insert_into_leaf-is_leaf, insert_into_leaf-Inserts, insert_into_leaf-new,
}
use miniob.Tree.Pages.{
  BplusTree, Nodes, Reply, set_node, find_leaf, get_entry, answer, put_into_leaf,
}
use miniob.Tree.Pages.Descend.{
  ReachesLeaf, find_leaf-congr, find_leaf-set_node, get_entry-find_leaf,
}
use miniob.Tree.Grow.{insert_into_leaf_after_split, insert_entry}

module _ {K : Type 0} (o : KeyOrder K) where
  open o use {cmp}

  module _ (fuel : ℕ) (tree : BplusTree K) (key : K) (at : ℕ) (leaf leaf' : Node K)
      (reached : find_leaf cmp fuel tree key ≡ some (ok at)) (held : tree.nodes at ≡ some leaf)
      (is_leaf : leaf.is_leaf ≡ true) (still : leaf'.is_leaf ≡ true) (change : Option Rid)
      (changed : (q : K)
        → lookup cmp leaf' q ≡ (if is_eq (cmp q key) then change else lookup cmp leaf q)) where
    abbrev written : BplusTree K
    written = set_node tree at leaf'

    here :
        (q : K)
        → find_leaf cmp fuel tree q ≡ some (ok at)
        → get_entry cmp fuel written q
          ≡ some (answer (if is_eq (cmp q key) then change else lookup cmp leaf q))
    here q e =
        get_entry-find_leaf o fuel written q at leaf'
          (find_leaf-set_node o fuel tree q at leaf leaf' held is_leaf still ∙ e) (ground arith)
        ∙ ap (λ r. some (answer r)) (changed q)

    elsewhere :
        (q : K) (page : ℕ) (other : Node K)
        → find_leaf cmp fuel tree q ≡ some (ok page)
        → tree.nodes page ≡ some other
        → (at == page) ≡ false
        → get_entry cmp fuel written q ≡ get_entry cmp fuel tree q
    elsewhere q page other e f ne =
        get_entry-find_leaf o fuel written q page other
          (find_leaf-set_node o fuel tree q at leaf leaf' held is_leaf still ∙ e) (ground arith)
        ∙ sym (get_entry-find_leaf o fuel tree q page other e f)

    -- A change of one leaf for one key changes what `get_entry` returns for that key only.
    pub get_entry_changed :
        (q : K)
        → ReachesLeaf tree (find_leaf cmp fuel tree q)
        → get_entry cmp fuel written q
          ≡ (if is_eq (cmp q key) then some (answer change) else get_entry cmp fuel tree q)
    get_entry_changed q (page, other, e, f, l) = elim (Ordering-cases (cmp q key)) [
      | inr (inl eq) ↦ here q (find_leaf-congr o fuel tree q key eq ∙ reached) ∙ rw eq
      | inl lt ↦ rw lt (others (rw lt))
      | inr (inr gt) ↦ rw gt (others (rw gt))
    ]
      where
        others :
            is_eq (cmp q key) ≡ false → get_entry cmp fuel written q ≡ get_entry cmp fuel tree q
        others ne = elim (Bool-cases (at == page)) [
          | inl t ↦
              let same : at ≡ page = ground arith in
              let e' : find_leaf cmp fuel tree q ≡ some (ok at) = rw same e in
              here q e' ∙ rw ne (sym (get_entry-find_leaf o fuel tree q at leaf e' held))
          | inr t ↦ elsewhere q page other e f t
        ]

  module _ (allocate_page : Nodes K → Rc ⊎ (ℕ × Node K)) (temp_keys : ℕ → K)
      (temp_pointers : ℕ → Rid) (fuel : ℕ) (tree : BplusTree K) (key : K) (rid : Rid) (at : ℕ)
      (leaf : Node K) (reached : find_leaf cmp fuel tree key ≡ some (ok at))
      (held : tree.nodes at ≡ some leaf) where
    -- The key was not there, the entry is in the tree afterwards and no other is changed; or the key was
    -- there before and nothing has changed.
    abbrev pub Enters : Option (Reply K) → Type 0
    Enters none = ⊥
    Enters (some (rc, after)) =
        ((rc ≡ success)
          × (get_entry cmp fuel tree key ≡ some (err record_invalid_key))
          × ((q : K)
              → ReachesLeaf tree (find_leaf cmp fuel tree q)
              → get_entry cmp fuel after q
                ≡ (if is_eq (cmp q key) then some (ok rid) else get_entry cmp fuel tree q)))
        ⊎ ((rc ≡ record_duplicate_key)
            × (after ≡ tree)
            × ((old : Rid) × (get_entry cmp fuel tree key ≡ some (ok old))))

    in_leaf :
        ltb leaf.key_num (tree.order - 1) ≡ true
        → insert_entry allocate_page temp_keys temp_pointers cmp fuel tree key rid
          ≡ some (put_into_leaf tree at (insert_into_leaf cmp leaf key rid))
    unfolding insert_entry
    in_leaf room = rw (reached, held, room, insert_entry)

    -- When the leaf that a key belongs in has room and its keys ascend, `insert_entry` does one of two
    -- things. If the tree has no equal key, as `get_entry` finds, it returns SUCCESS and adds exactly
    -- the entry: `get_entry` then finds the identifier for every key equal to it, and for every other
    -- key that leads to a leaf what it found before. If the tree has an equal key it stays as it is, and
    -- RECORD_DUPLICATE_KEY is returned.
    pub insert_entry-Enters :
        leaf.is_leaf ≡ true
        → Ascending o leaf.keys leaf.key_num
        → leaf.key_num + 1 < tree.order
        → Enters (insert_entry allocate_page temp_keys temp_pointers cmp fuel tree key rid)
    insert_entry-Enters is_leaf asc room = rw (in_leaf (ground arith)) (
        done (insert_into_leaf cmp leaf key rid) refl (insert_into_leaf-Inserts o leaf key rid asc))
      where
        done :
            (r : Outcome (Node K))
            → insert_into_leaf cmp leaf key rid ≡ r
            → Inserts o leaf key rid r
            → Enters (some (put_into_leaf tree at r))
        done (ok node) e (ascending, counted, found) = inl (
          refl,
          get_entry-find_leaf o fuel tree key at leaf reached held
              ∙ ap (λ r. some (answer r)) (insert_into_leaf-new o leaf key rid node asc e),
          get_entry_changed fuel tree key at leaf node reached held is_leaf
              (insert_into_leaf-is_leaf o leaf key rid node e ∙ is_leaf) (some rid) found,
        )
        done (err rc) e (dup, (j, h, eq)) = inr (
          dup,
          refl,
          (
            leaf.rids j,
            get_entry-find_leaf o fuel tree key at leaf reached held
                ∙ ap (λ r. some (answer r))
                    (lookup-found o leaf key j
                      (find_key-at o leaf.key_num leaf.keys key j asc h eq)),
          ),
        )
        done fault e f = absurd f

    -- When the leaf is full and no page can be allocated, `insert_entry` returns SUCCESS and has changed
    -- nothing.
    insert_entry_drops_code :
        (rc : Rc)
        → tree.order ≤ leaf.key_num + 1
        → allocate_page tree.nodes ≡ inl rc
        → insert_entry allocate_page temp_keys temp_pointers cmp fuel tree key rid
          ≡ some (success, tree)
    unfolding insert_entry insert_into_leaf_after_split
    insert_entry_drops_code rc full refused =
        let no_room : ltb leaf.key_num (tree.order - 1) ≡ false = ground arith in
        rw (reached, held, no_room, refused, insert_entry, insert_into_leaf_after_split)
