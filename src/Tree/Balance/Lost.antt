-- ===== src/Tree/Balance/Lost.antt =====
-- What `redistribute_nodes` loses in its other cases.
use Prim.Native.Nat.{Ordering}
use miniob.Base.{ℕ, zero, suc, ◌+◌, ◌-◌, ◌≤◌, ◌<◌, ◌≡◌, ◌≢◌, ◌∙◌, ap, some, arith}
use miniob.Tree.Node.{Node, KeyOrder, find_key, lookup}
use miniob.Tree.Node.Arrays.{shift_up-eq, shift_down-eq}
use miniob.Tree.Node.Insert.{lookup-found}
use miniob.Tree.Balance.{Halves, leaf_from_left, inner_from_right}
use miniob.Tree.Balance.Split.{eq_refl}

module _ {K : Type 0} (o : KeyOrder K) (left right : Node K) where
  open o use {cmp}

  find_first :
      (n : ℕ) (m : Node K) (q : K)
      → 0 < n
      → cmp q (m.keys 0) ≡ Ordering.eq
      → find_key cmp n m.keys q 0 ≡ some 0
  unfolding find_key
  find_first zero m q l e = absurd (omega arith)
  find_first (suc n) m q l e = rw (e, find_key)

  first_key :
      (m : Node K) (q : K)
      → 0 < m.key_num
      → cmp q (m.keys 0) ≡ Ordering.eq
      → lookup cmp m q ≡ some (m.rids 0)
  first_key m q h e = lookup-found o m q 0 (find_first m.key_num m q h e)

  abbrev given : Halves K
  given = leaf_from_left left right

  -- When the left one of two leaves gives its last entry to the right one, only the key is copied: the
  -- key is then found with the identifier of the right leaf's first key, not with its own.
  pub leaf_from_left-lookup :
      0 < right.key_num
      → lookup cmp given.right (left.keys (left.key_num - 1)) ≡ some (right.rids 0)
  leaf_from_left-lookup h =
      first_key given.right (left.keys (left.key_num - 1)) (unfold leaf_from_left in omega arith)
        (unfold leaf_from_left in eq_refl o (left.keys (left.key_num - 1)))
      ∙ ap some (
          unfold leaf_from_left in
          ground (arith, shift_up-eq right.key_num right.rids right.key_num 0))

module _ {K : Type 0} (left right : Node K) (separator : K) where
  -- The page is a child of the node.
  abbrev pub HasChild : Node K → ℕ → Type 0
  HasChild node page = (i : ℕ) × (i ≤ node.key_num) × ((node.rids i).page_num ≡ page)

  -- When the right one of two inner nodes gives its first child to the left one, its last child is in
  -- neither of them afterwards, if it was in neither in another place.
  pub inner_from_right_loses :
      0 < right.key_num
      → ((i : ℕ)
          → i < right.key_num
          → (right.rids i).page_num ≢ (right.rids right.key_num).page_num)
      → ((i : ℕ) → i ≤ left.key_num → (left.rids i).page_num ≢ (right.rids right.key_num).page_num)
      → ¬ HasChild (inner_from_right left right separator).left (right.rids right.key_num).page_num
        × ¬ HasChild
            (inner_from_right left right separator).right
            (right.rids right.key_num).page_num
  unfolding inner_from_right
  inner_from_right_loses pos once apart = (in_left, in_right)
    where
      in_left :
          ¬ HasChild
            (inner_from_right left right separator).left
            (right.rids right.key_num).page_num
      in_left (i, h, e) = ground (arith, once 0, apart i)

      in_right :
          ¬ HasChild
            (inner_from_right left right separator).right
            (right.rids right.key_num).page_num
      in_right (i, h, e) =
          ground (arith, once i, once (i + 1), shift_down-eq (right.key_num - 1) right.rids 0 i)
