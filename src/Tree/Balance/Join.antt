-- ===== src/Tree/Balance/Join.antt =====
-- `coalesce_node` and `redistribute_nodes` on two neighbouring leaves.
use Prim.Native.Nat.{Ordering}
use miniob.Base.{
  ℕ, ◌+◌, ◌-◌, ◌≤◌, ◌<◌, ◌≡◌, ◌≢◌, inl, inr, refl, sym, ◌∙◌, ap, true, ltb, ◌==◌, if◌then◌else◌,
  arith, Bool-cases,
}
use miniob.Tree.Node.{Node, KeyOrder, lookup}
use miniob.Tree.Node.Arrays.{copy-eq, shift_down-eq}
use miniob.Tree.Node.Sorted.{Ascending, Ordering-cases, lt_trans}
use miniob.Tree.Node.Lookup.{lt_eq_trans}
use miniob.Tree.Balance.{Halves, merge, leaf_from_right}
use miniob.Tree.Balance.Cut.{Cut, side, Cut-Ascending, lookup-Cut}
use miniob.Tree.Balance.Split.{eq_refl}

module _ {K : Type 0} (o : KeyOrder K) where
  open o use {cmp}

  -- Two leaves with the parent's key between them: the left one's keys are below it, the right one's
  -- are not.
  pub record Neighbours (left right : Node K) (middle : K) : Type 0 where
    pub left_ascending : Ascending o left.keys left.key_num
    pub right_ascending : Ascending o right.keys right.key_num
    pub left_below : (j : ℕ) → j < left.key_num → cmp (left.keys j) middle ≡ Ordering.lt
    pub right_above : (j : ℕ) → j < right.key_num → cmp middle (right.keys j) ≢ Ordering.gt

  -- One node with the entries of both.
  record Joined (left right whole : Node K) : Type 0 where
    counted : whole.key_num ≡ left.key_num + right.key_num
    left_keys : (j : ℕ) → j < left.key_num → left.keys j ≡ whole.keys j
    left_rids : (j : ℕ) → j < left.key_num → left.rids j ≡ whole.rids j
    right_keys : (j : ℕ) → j < right.key_num → right.keys j ≡ whole.keys (left.key_num + j)
    right_rids : (j : ℕ) → j < right.key_num → right.rids j ≡ whole.rids (left.key_num + j)

  module _ (left right : Node K) (middle : K) (n : Neighbours left right middle) (whole : Node K)
      (w : Joined left right whole) where
    across :
        (i j : ℕ)
        → i < left.key_num
        → j < right.key_num
        → cmp (left.keys i) (right.keys j) ≡ Ordering.lt
    across i j h l = elim (Ordering-cases (cmp middle (right.keys j))) [
      | inl e ↦ lt_trans o (left.keys i) middle (right.keys j) (n.left_below i h) e
      | inr (inl e) ↦ lt_eq_trans o (left.keys i) middle (right.keys j) (n.left_below i h) e
      | inr (inr e) ↦ absurd (n.right_above j l e)
    ]

    at_right :
        (j : ℕ)
        → left.key_num ≤ j
        → j < whole.key_num
        → right.keys (j - left.key_num) ≡ whole.keys j
    at_right j l h =
        w.right_keys (j - left.key_num) (omega (arith, w.counted)) ∙ ap whole.keys (omega arith)

    Joined-Ascending : Ascending o whole.keys whole.key_num
    Joined-Ascending i j l h = elim (Bool-cases (ltb j left.key_num)) [
      | inl t ↦
          rw (← w.left_keys i (ground arith), ← w.left_keys j (ground arith))
            (n.left_ascending i j l (ground arith))
      | inr t ↦ elim (Bool-cases (ltb i left.key_num)) [
        | inl u ↦
            rw (← w.left_keys i (ground arith), ← at_right j (ground arith) h)
              (across i (j - left.key_num) (ground arith) (ground (arith, w.counted)))
        | inr u ↦
            rw (← at_right i (ground arith) (omega arith), ← at_right j (ground arith) h)
              (n.right_ascending (i - left.key_num) (j - left.key_num) (ground arith)
                (ground (arith, w.counted)))
      ]
    ]

    Joined-Cut : Cut o whole left right middle left.key_num
    Joined-Cut = record {
      left_num = refl;
      right_num = sym w.counted;
      left_keys = w.left_keys;
      left_rids = w.left_rids;
      right_keys = w.right_keys;
      right_rids = w.right_rids;
      below = λ j h. rw (← w.left_keys j h) (n.left_below j h);
      above = λ j l h.
          rw (← at_right j l h) (n.right_above (j - left.key_num) (omega (arith, w.counted)));
    }

    Joined-lookup : (q : K) → lookup cmp whole q ≡ lookup cmp (side o q left right middle) q
    Joined-lookup q =
        sym (lookup-Cut o whole left right middle left.key_num Joined-Ascending Joined-Cut q)

  module _ (left right : Node K) (middle : K) (n : Neighbours left right middle) where
    merge-Joined :
        (order : ℕ)
        → left.is_leaf ≡ true
        → left.key_num + right.key_num < order
        → Joined left right (merge order left right middle)
    unfolding merge
    merge-Joined order leaf fits =
        rw (leaf, merge)
          (record {
            counted = refl;
            left_keys =
                λ j h. ground (arith, copy-eq right.key_num left.keys left.key_num right.keys 0 j);
            left_rids =
                λ j h. ground (arith, copy-eq right.key_num left.rids left.key_num right.rids 0 j);
            right_keys = λ j h. ground (
              arith,
              copy-eq right.key_num left.keys left.key_num right.keys 0 (left.key_num + j),
            );
            right_rids = λ j h. ground (
              arith,
              copy-eq right.key_num left.rids left.key_num right.rids 0 (left.key_num + j),
            );
          })

    -- When two neighbouring leaves whose entries fit in one are merged, the keys of the merged leaf
    -- ascend and every key is found in it as it was found on its side of the parent's key.
    merge-lookup :
        (order : ℕ)
        → left.is_leaf ≡ true
        → left.key_num + right.key_num < order
        → Ascending o (merge order left right middle).keys (merge order left right middle).key_num
          × ((q : K)
              → lookup cmp (merge order left right middle) q
                ≡ lookup cmp (side o q left right middle) q)
    merge-lookup order leaf fits =
        let w = merge-Joined order leaf fits in
        let whole = merge order left right middle in
        (Joined-Ascending left right middle n whole w, Joined-lookup left right middle n whole w)

    -- The entries of both leaves in one that is as large as it has to be.
    abbrev joined : Node K
    joined = record left {
      keys = λ j. if ltb j left.key_num then left.keys j else right.keys (j - left.key_num);
      rids = λ j. if ltb j left.key_num then left.rids j else right.rids (j - left.key_num);
      key_num = left.key_num + right.key_num;
    }

    joined-Joined : Joined left right joined
    joined-Joined = record {
      counted = refl;
      left_keys = λ j h. ground arith;
      left_rids = λ j h. ground arith;
      right_keys = λ j h. ground arith;
      right_rids = λ j h. ground arith;
    }

    abbrev moved : Halves K
    moved = leaf_from_right left right

    moved_middle : 1 < right.key_num → moved.middle ≡ joined.keys (left.key_num + 1)
    unfolding leaf_from_right
    moved_middle two = ground (arith, shift_down-eq (right.key_num - 1) right.keys 0 0)

    moved-Cut :
        1 < right.key_num → Cut o joined moved.left moved.right moved.middle (left.key_num + 1)
    moved-Cut two = record {
      left_num = unfold leaf_from_right in refl;
      right_num = unfold leaf_from_right in omega arith;
      left_keys = λ j h. unfold leaf_from_right in ground arith;
      left_rids = λ j h. unfold leaf_from_right in ground arith;
      right_keys =
          unfold leaf_from_right in
          (λ j h. ground (arith, shift_down-eq (right.key_num - 1) right.keys 0 j));
      right_rids =
          unfold leaf_from_right in
          (λ j h. ground (arith, shift_down-eq (right.key_num - 1) right.rids 0 j));
      below = λ j h. rw (moved_middle two) (asc j (left.key_num + 1) h (omega arith));
      above = above;
    }
      where
        asc : Ascending o joined.keys joined.key_num
        asc = Joined-Ascending left right middle n joined joined-Joined

        above :
            (j : ℕ)
            → left.key_num + 1 ≤ j
            → j < joined.key_num
            → cmp moved.middle (joined.keys j) ≢ Ordering.gt
        above j l h = elim (Bool-cases (left.key_num + 1 == j)) [
          | inl e ↦
              let same : left.key_num + 1 ≡ j = ground arith in
              rw (moved_middle two, same) (λ f. let r = eq_refl o (joined.keys j) in cc)
          | inr e ↦
              let less = asc (left.key_num + 1) j (ground arith) h in
              rw (moved_middle two) (λ f. cc)
        ]

    -- When the right one of two neighbouring leaves gives its first entry to the left one, both still
    -- ascend and every key is found on its side of the new key between them as it was before.
    leaf_from_right-lookup :
        1 < right.key_num
        → Ascending o moved.left.keys moved.left.key_num
          × Ascending o moved.right.keys moved.right.key_num
          × ((q : K)
              → lookup cmp (side o q moved.left moved.right moved.middle) q
                ≡ lookup cmp (side o q left right middle) q)
    leaf_from_right-lookup two =
        let asc = Joined-Ascending left right middle n joined joined-Joined in
        let c = moved-Cut two in
        let parts =
          Cut-Ascending o joined moved.left moved.right moved.middle (left.key_num + 1) asc c in
        (
          parts.0,
          parts.1,
          λ q.
              lookup-Cut o joined moved.left moved.right moved.middle (left.key_num + 1) asc c q
              ∙ Joined-lookup left right middle n joined joined-Joined q,
        )
