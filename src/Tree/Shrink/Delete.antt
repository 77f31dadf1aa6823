-- ===== src/Tree/Shrink/Delete.antt =====
-- `delete_entry` seen through `get_entry`, where no node has to be filled up.
use miniob.Base.{
  ℕ, suc, ◌+◌, ◌/◌, ◌<◌, ◌≡◌, ◌⊎◌, inl, inr, refl, ◌∙◌, ap, Option, none, some, true, leb,
  if◌then◌else◌, arith, Option-cases,
}
use miniob.Index.Order.{is_eq}
use miniob.Rc.{Rc, Outcome, ok, err, fault, success, record_invalid_key}
use miniob.Record.{Rid}
use miniob.Tree.Node.{Node, KeyOrder, lookup, find_key, delete_entry_from_node}
use miniob.Tree.Node.Sorted.{Ascending}
use miniob.Tree.Node.Lookup.{find_key-absent}
use miniob.Tree.Node.Insert.{lookup_missing}
use miniob.Tree.Node.Delete.{
  Deletes, delete_entry_from_node-Deletes, delete_entry_from_node-is_leaf,
  delete_entry_from_node-old,
}
use miniob.Tree.Pages.{BplusTree, Reply, set_node, find_leaf, get_entry, answer}
use miniob.Tree.Pages.Descend.{ReachesLeaf, get_entry-find_leaf, find_leaf-suc}
use miniob.Tree.Grow.Insert.{get_entry_changed}
use miniob.Tree.Shrink.{min_key, shrink_root, delete_entry_internal, delete_entry}

module _ {K : Type 0} (o : KeyOrder K) (fuel : ℕ) (tree : BplusTree K) (key : K) (at : ℕ)
    (leaf : Node K) where
  open o use {cmp}

  -- The leaf need not be filled up after a deletion.
  abbrev pub StaysFull : Type 0
  StaysFull = (leaf.parent ≡ none) ⊎ (tree.order / 2 < leaf.key_num)

  -- The entry was there, is gone and no other is changed; or it was not there and nothing has changed.
  abbrev pub Leaves : Option (Reply K) → Type 0
  Leaves none = ⊥
  Leaves (some (rc, after)) =
      ((rc ≡ success)
        × ((old : Rid) × (get_entry cmp fuel tree key ≡ some (ok old)))
        × ((q : K)
            → ReachesLeaf tree (find_leaf cmp fuel tree q)
            → get_entry cmp fuel after q ≡ (
                if is_eq (cmp q key)
                then some (err record_invalid_key)
                else get_entry cmp fuel tree q)))
      ⊎ ((rc ≡ record_invalid_key)
          × (after ≡ tree)
          × (get_entry cmp fuel tree key ≡ some (err record_invalid_key)))

  module _ (reached : find_leaf cmp fuel tree key ≡ some (ok at)) (held : tree.nodes at ≡ some leaf)
      (is_leaf : leaf.is_leaf ≡ true) (full : StaysFull) where
    kept :
        (node : Node K)
        → delete_entry_from_node cmp leaf key ≡ ok node
        → (node.parent ≡ leaf.parent)
    unfolding delete_entry_from_node
    kept node e = elim (Option-cases (find_key cmp leaf.key_num leaf.keys key 0)) [
      | inl f ↦ ground arith
      | inr (i, f) ↦ ground arith
    ]

    deleted :
        (node : Node K)
        → delete_entry_from_node cmp leaf key ≡ ok node
        → node.key_num + 1 ≡ leaf.key_num
        → delete_entry_internal cmp (suc fuel) tree at key ≡ some (success, set_node tree at node)
    unfolding delete_entry_internal shrink_root min_key
    deleted node e counted =
        let leaf_still = delete_entry_from_node-is_leaf o leaf key node e ∙ is_leaf in
        let same = kept node e in
        elim (Option-cases node.parent) [
          | inl f ↦ rw (held, e, delete_entry_internal) (ground arith)
          | inr (p, f) ↦
              let enough : leb (tree.order / 2) node.key_num ≡ true = ground arith in
              rw (held, e, delete_entry_internal) (ground arith)
        ]

    missed :
        (rc : Rc)
        → delete_entry_from_node cmp leaf key ≡ err rc
        → delete_entry_internal cmp (suc fuel) tree at key ≡ some (rc, tree)
    unfolding delete_entry_internal
    missed rc e = rw (held, e, delete_entry_internal)

    started :
        delete_entry cmp (suc fuel) tree key ≡ delete_entry_internal cmp (suc fuel) tree at key
    unfolding delete_entry
    started = rw (more_fuel, delete_entry)
      where
        more_fuel : find_leaf cmp (suc fuel) tree key ≡ some (ok at)
        more_fuel = find_leaf-suc o fuel tree key at reached

    -- When a key's leaf, whose keys ascend, stays half full without one of its entries, or is the root,
    -- `delete_entry` does one of two things. If the tree has an equal key, as `get_entry` finds, it
    -- returns SUCCESS and removes exactly the entry: `get_entry` then finds no key equal to it, and for
    -- every other key that leads to a leaf what it found before. If the tree has no equal key it stays
    -- as it is, and RECORD_INVALID_KEY is returned.
    pub delete_entry-Leaves :
        Ascending o leaf.keys leaf.key_num → Leaves (delete_entry cmp (suc fuel) tree key)
    delete_entry-Leaves asc = rw started (
        done (delete_entry_from_node cmp leaf key) refl
          (delete_entry_from_node-Deletes o leaf key is_leaf asc))
      where
        was_there :
            (old : Rid) × (lookup cmp leaf key ≡ some old)
            → (old : Rid) × (get_entry cmp fuel tree key ≡ some (ok old))
        was_there (old, e) = (
          old,
          get_entry-find_leaf o fuel tree key at leaf reached held ∙ ap (λ r. some (answer r)) e,
        )

        done :
            (r : Outcome (Node K))
            → delete_entry_from_node cmp leaf key ≡ r
            → Deletes o leaf key r
            → Leaves (delete_entry_internal cmp (suc fuel) tree at key)
        done (ok node) e (ascending, counted, found) = rw (deleted node e counted) (
            inl (
              refl,
              was_there (delete_entry_from_node-old o leaf key node e),
              get_entry_changed o fuel tree key at leaf node reached held is_leaf
                  (delete_entry_from_node-is_leaf o leaf key node e ∙ is_leaf) none found,
            ))
        done (err rc) e (invalid, absent) = rw (missed rc e) (
            inr (
              invalid,
              refl,
              get_entry-find_leaf o fuel tree key at leaf reached held
                  ∙ ap (λ r. some (answer r))
                      (lookup_missing o leaf key
                        (find_key-absent o leaf.key_num leaf.keys key absent)),
            ))
        done fault e f = absurd f
