-- ===== src/Tree/Balance/Split.antt =====
-- `insert_into_leaf_after_split` on the leaf and the new node.
use Prim.Native.Nat.{Ordering}
use miniob.Base.{
  ℕ, ◌+◌, ◌-◌, ◌/◌, ◌≤◌, ◌<◌, ◌≡◌, ◌≢◌, inl, inr, refl, ◌∙◌, ap, some, ◌==◌, if◌then◌else◌, arith,
  Bool-cases,
}
use miniob.Index.Order.{is_eq, flip}
use miniob.Record.{Rid}
use miniob.Tree.Node.{Node, KeyOrder, page_rid, put, spread, first_above, lookup}
use miniob.Tree.Node.Arrays.{insert_at, copy-eq, spread-insert_at}
use miniob.Tree.Node.Sorted.{Ascending}
use miniob.Tree.Node.Lookup.{first_above-IsPlace}
use miniob.Tree.Node.Insert.{Entered, Entered-Ascending, lookup-Entered}
use miniob.Tree.Balance.{Halves, split_leaf}
use miniob.Tree.Balance.Cut.{Cut, side, Cut-Ascending, lookup-Cut}

self_flip : (p : Ordering) → p ≡ flip p → p ≡ Ordering.eq
self_flip p h = ground arith

module _ {K : Type 0} (o : KeyOrder K) where
  open o use {cmp, cmp-flip}

  pub eq_refl : (a : K) → cmp a a ≡ Ordering.eq
  eq_refl a = self_flip (cmp a a) (cmp-flip a a)

  -- The leaf with one entry more than a page can hold.
  abbrev overfull : Node K → K → Rid → Node K
  overfull leaf key rid =
      let pos = first_above cmp leaf.key_num leaf.keys key 0 in
      record leaf {
        keys = insert_at leaf.keys pos key;
        rids = insert_at leaf.rids pos rid;
        key_num = leaf.key_num + 1;
      }

  module _ (order : ℕ) (leaf fresh : Node K) (temp_keys : ℕ → K) (temp_pointers : ℕ → Rid)
      (new_page : ℕ) (key : K) (rid : Rid) (asc : Ascending o leaf.keys leaf.key_num)
      (new : (j : ℕ) → j < leaf.key_num → cmp key (leaf.keys j) ≢ Ordering.eq)
      (full : leaf.key_num + 1 ≡ order) (two : 1 < order) where
    abbrev halves : Halves K
    halves = split_leaf cmp order leaf fresh temp_keys temp_pointers new_page key rid

    abbrev whole : Node K
    whole = overfull leaf key rid

    pos : ℕ
    pos = first_above cmp leaf.key_num leaf.keys key 0

    whole-Entered : Entered o leaf key rid pos whole
    unfolding pos
    whole-Entered = record {
      place = first_above-IsPlace o leaf.key_num leaf.keys key asc new;
      counted = refl;
      keys = λ j h. refl;
      rids = λ j h. refl;
    }

    whole-Ascending : Ascending o whole.keys whole.key_num
    whole-Ascending = Entered-Ascending o leaf key rid pos whole asc whole-Entered

    temp_keys-whole :
        (j : ℕ)
        → j < order
        → put (spread leaf.key_num temp_keys pos 0 leaf.keys 0) pos key j ≡ whole.keys j
    unfolding pos
    temp_keys-whole j h =
        spread-insert_at leaf.key_num temp_keys pos leaf.keys key j whole-Entered.place.within
          (omega arith)

    temp_pointers-whole :
        (j : ℕ)
        → j < order
        → put (spread leaf.key_num temp_pointers pos 0 leaf.rids 0) pos rid j ≡ whole.rids j
    unfolding pos
    temp_pointers-whole j h =
        spread-insert_at leaf.key_num temp_pointers pos leaf.rids rid j whole-Entered.place.within
          (omega arith)

    left_keys : (j : ℕ) → j < order / 2 → halves.left.keys j ≡ whole.keys j
    unfolding split_leaf pos
    left_keys j h =
        let t = put (spread leaf.key_num temp_keys pos 0 leaf.keys 0) pos key in
        ground (arith, copy-eq (order / 2) leaf.keys 0 t 0 j, temp_keys-whole j)

    left_rids : (j : ℕ) → j < order / 2 → halves.left.rids j ≡ whole.rids j
    unfolding split_leaf pos
    left_rids j h =
        let t = put (spread leaf.key_num temp_pointers pos 0 leaf.rids 0) pos rid in
        ground (arith, copy-eq (order / 2) leaf.rids 0 t 0 j, temp_pointers-whole j)

    right_keys : (j : ℕ) → j < order - order / 2 → halves.right.keys j ≡ whole.keys (order / 2 + j)
    unfolding split_leaf pos
    right_keys j h =
        let t = put (spread leaf.key_num temp_keys pos 0 leaf.keys 0) pos key in
        ground (
          arith,
          copy-eq (order - order / 2) fresh.keys 0 t (order / 2) j,
          temp_keys-whole (order / 2 + j),
        )

    right_rids : (j : ℕ) → j < order - order / 2 → halves.right.rids j ≡ whole.rids (order / 2 + j)
    unfolding split_leaf pos
    right_rids j h =
        let t = put (spread leaf.key_num temp_pointers pos 0 leaf.rids 0) pos rid in
        ground (
          arith,
          copy-eq (order - order / 2) fresh.rids 0 t (order / 2) j,
          temp_pointers-whole (order / 2 + j),
        )

    middle_key : halves.middle ≡ whole.keys (order / 2)
    unfolding split_leaf
    middle_key = right_keys 0 (omega arith) ∙ ap whole.keys (omega arith)

    halves-Cut : Cut o whole halves.left halves.right halves.middle (order / 2)
    halves-Cut = record {
      left_num = unfold split_leaf in refl;
      right_num = unfold split_leaf in omega arith;
      left_keys = left_keys;
      left_rids = left_rids;
      right_keys = unfold split_leaf in right_keys;
      right_rids = unfold split_leaf in right_rids;
      below = λ j h. rw middle_key (whole-Ascending j (order / 2) h (omega arith));
      above = above;
    }
      where
        above :
            (j : ℕ)
            → order / 2 ≤ j
            → j < whole.key_num
            → cmp halves.middle (whole.keys j) ≢ Ordering.gt
        above j l h = elim (Bool-cases (order / 2 == j)) [
          | inl e ↦
              let same : order / 2 ≡ j = ground arith in
              rw (middle_key, same) (λ f. let r = eq_refl (whole.keys j) in cc)
          | inr e ↦
              let less = whole-Ascending (order / 2) j (ground arith) h in rw middle_key (λ f. cc)
        ]

    chained :
        (halves.left.rids (order - 1) ≡ page_rid new_page)
        × (halves.right.rids (order - 1) ≡ leaf.rids (order - 1))
    unfolding split_leaf pos
    chained =
        let t = put (spread leaf.key_num temp_pointers pos 0 leaf.rids 0) pos rid in
        (ground arith, ground (arith, copy-eq (order / 2) leaf.rids 0 t 0 (order - 1)))

    -- When a leaf that has `order - 1` ascending keys is split for a key that it does not have, the two
    -- leaves ascend, have `order` entries together and half of them each, and the left one leads to the
    -- new page and that one to the old next leaf. A key that is looked up on its side of the key that
    -- goes up is found with the new identifier if it is equal to the new key, else as before.
    pub split_leaf-lookup :
        Ascending o halves.left.keys halves.left.key_num
        × Ascending o halves.right.keys halves.right.key_num
        × (halves.left.key_num ≡ order / 2)
        × (halves.left.key_num + halves.right.key_num ≡ order)
        × (halves.left.rids (order - 1) ≡ page_rid new_page)
        × (halves.right.rids (order - 1) ≡ leaf.rids (order - 1))
        × ((q : K)
            → lookup cmp (side o q halves.left halves.right halves.middle) q
              ≡ (if is_eq (cmp q key) then some rid else lookup cmp leaf q))
    split_leaf-lookup =
        let c = halves-Cut in
        let parts =
          Cut-Ascending o whole halves.left halves.right halves.middle (order / 2) whole-Ascending
            c in
        (
          parts.0,
          parts.1,
          c.left_num,
          omega (arith, c.left_num, c.right_num),
          chained.0,
          chained.1,
          λ q.
              lookup-Cut o whole halves.left halves.right halves.middle (order / 2) whole-Ascending
                c q
              ∙ lookup-Entered o leaf key rid pos whole asc whole-Entered q,
        )
