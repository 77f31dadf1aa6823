-- ===== src/Tree/Balance/Cut.antt =====
-- Two neighbouring leaves as the two parts of one list of entries.
use Prim.Native.Nat.{Ordering}
use miniob.Base.{
  ℕ, ◌+◌, ◌-◌, ◌≤◌, ◌<◌, ◌≡◌, ◌≢◌, inl, inr, sym, ◌∙◌, ap, none, some, true, false, ltb,
  if◌then◌else◌, arith, Bool, Bool-cases, Option-cases,
}
use miniob.Index.Order.{is_lt}
use miniob.Tree.Node.{Node, KeyOrder, find_key, lookup}
use miniob.Tree.Node.Sorted.{Ascending, Ordering-cases, eq-flip, lt-flip}
use miniob.Tree.Node.Lookup.{
  find_key-none, find_key-some, find_key-at, find_key-absent, eq_lt_trans,
}
use miniob.Tree.Node.Insert.{lookup-found, lookup_missing}

module _ {K : Type 0} (o : KeyOrder K) where
  open o use {cmp}

  -- `left` has the entries of `whole` before `at`, `right` the others, and `middle` lies between.
  pub record Cut (whole left right : Node K) (middle : K) (at : ℕ) : Type 0 where
    pub left_num : left.key_num ≡ at
    pub right_num : at + right.key_num ≡ whole.key_num
    pub left_keys : (j : ℕ) → j < at → left.keys j ≡ whole.keys j
    pub left_rids : (j : ℕ) → j < at → left.rids j ≡ whole.rids j
    pub right_keys : (j : ℕ) → j < right.key_num → right.keys j ≡ whole.keys (at + j)
    pub right_rids : (j : ℕ) → j < right.key_num → right.rids j ≡ whole.rids (at + j)
    pub below : (j : ℕ) → j < at → cmp (whole.keys j) middle ≡ Ordering.lt
    pub above : (j : ℕ) → at ≤ j → j < whole.key_num → cmp middle (whole.keys j) ≢ Ordering.gt

  -- The node in which `find_leaf` looks for a key.
  abbrev pub side : K → Node K → Node K → K → Node K
  side q left right middle = if is_lt (cmp q middle) then left else right

  module _ (whole left right : Node K) (middle : K) (at : ℕ)
      (asc : Ascending o whole.keys whole.key_num) (c : Cut whole left right middle at) where
    pub Cut-Ascending : Ascending o left.keys left.key_num × Ascending o right.keys right.key_num
    Cut-Ascending = (left_part, right_part)
      where
        left_part : Ascending o left.keys left.key_num
        left_part i j l h =
            rw
              (c.left_keys i (omega (arith, c.left_num)), c.left_keys j (omega (arith, c.left_num)))
              (asc i j l (omega (arith, c.left_num, c.right_num)))

        right_part : Ascending o right.keys right.key_num
        right_part i j l h =
            rw (c.right_keys i (omega arith), c.right_keys j h)
              (asc (at + i) (at + j) (omega arith) (omega (arith, c.right_num)))

    goes_left :
        (q : K) (i : ℕ) → i < at → cmp q (whole.keys i) ≡ Ordering.eq → cmp q middle ≡ Ordering.lt
    goes_left q i h e = eq_lt_trans o q (whole.keys i) middle e (c.below i h)

    goes_right :
        (q : K) (i : ℕ)
        → at ≤ i
        → i < whole.key_num
        → cmp q (whole.keys i) ≡ Ordering.eq
        → is_lt (cmp q middle) ≡ false
    goes_right q i l h e = elim (Ordering-cases (cmp q middle)) [
      | inr (inl f) ↦ rw f
      | inr (inr f) ↦ rw f
      | inl f ↦
          let less = eq_lt_trans o (whole.keys i) q middle (eq-flip o q (whole.keys i) e) f in
          absurd (c.above i l h (lt-flip o (whole.keys i) middle less))
    ]

    found_left :
        (q : K) (i : ℕ)
        → i < at
        → cmp q (whole.keys i) ≡ Ordering.eq
        → lookup cmp left q ≡ some (whole.rids i)
    found_left q i h e =
        lookup-found o left q i (
          find_key-at o left.key_num left.keys q i Cut-Ascending.0 (omega (arith, c.left_num))
            (rw (c.left_keys i h) e))
        ∙ ap some (c.left_rids i h)

    found_right :
        (q : K) (i : ℕ)
        → i < right.key_num
        → cmp q (whole.keys (at + i)) ≡ Ordering.eq
        → lookup cmp right q ≡ some (whole.rids (at + i))
    found_right q i h e =
        lookup-found o right q i
          (find_key-at o right.key_num right.keys q i Cut-Ascending.1 h (rw (c.right_keys i h) e))
        ∙ ap some (c.right_rids i h)

    found :
        (q : K) (i : ℕ)
        → i < whole.key_num
        → cmp q (whole.keys i) ≡ Ordering.eq
        → lookup cmp (side q left right middle) q ≡ some (whole.rids i)
    found q i h e = elim (Bool-cases (ltb i at)) [
      | inl t ↦ rw (goes_left q i (ground arith) e) (found_left q i (ground arith) e)
      | inr t ↦
          let index : at + (i - at) ≡ i = ground arith in
          let e' : cmp q (whole.keys (at + (i - at))) ≡ Ordering.eq = rw index e in
          rw (goes_right q i (ground arith) h e) (
            found_right q (i - at) (ground (arith, c.right_num)) e'
            ∙ ap (λ k. some (whole.rids k)) index)
    ]

    absent :
        (q : K)
        → ((j : ℕ) → j < whole.key_num → cmp q (whole.keys j) ≢ Ordering.eq)
        → (lookup cmp left q ≡ none) × (lookup cmp right q ≡ none)
    absent q h = (
      lookup_missing o left q (
          find_key-absent o left.key_num left.keys q (λ j l.
            rw (c.left_keys j (omega (arith, c.left_num)))
              (h j (omega (arith, c.left_num, c.right_num))))),
      lookup_missing o right q (
          find_key-absent o right.key_num right.keys q
            (λ j l. rw (c.right_keys j l) (h (at + j) (omega (arith, c.right_num))))),
    )

    -- Looking a key up on its side is looking it up in the whole.
    pub lookup-Cut : (q : K) → lookup cmp (side q left right middle) q ≡ lookup cmp whole q
    lookup-Cut q = elim (Option-cases (find_key cmp whole.key_num whole.keys q 0)) [
      | inl f ↦
          let none_of = absent q (find_key-none o whole.key_num whole.keys q f) in
          either (is_lt (cmp q middle)) none_of.0 none_of.1 ∙ sym (lookup_missing o whole q f)
      | inr (i, f) ↦
          let (h, e) = find_key-some o whole.key_num whole.keys q i f in
          found q i h e ∙ sym (lookup-found o whole q i f)
    ]
      where
        either :
            (b : Bool)
            → lookup cmp left q ≡ none
            → lookup cmp right q ≡ none
            → lookup cmp (if b then left else right) q ≡ none
        either true l r = l
        either false l r = r
