-- ===== src/Tree/Node/Delete.antt =====
-- `delete_entry_from_node` as the deletion of a finite map.
use Prim.Native.Nat.{Ordering}
use miniob.Base.{
  ℕ, ◌+◌, ◌-◌, ◌<◌, ◌≡◌, ◌≢◌, inl, inr, refl, sym, ◌∙◌, ap, none, some, true, ltb, if◌then◌else◌,
  arith, Bool-cases, Option-cases,
}
use miniob.Index.Order.{is_eq}
use miniob.Rc.{Outcome, ok, err, fault, record_invalid_key}
use miniob.Record.{Rid}
use miniob.Tree.Node.{Node, KeyOrder, shift_down, find_key, lookup, delete_entry_from_node}
use miniob.Tree.Node.Arrays.{shift_down-eq}
use miniob.Tree.Node.Sorted.{Ascending, Ordering-cases, eq-flip}
use miniob.Tree.Node.Lookup.{
  find_key-none, find_key-some, find_key-at, find_key-absent, eq_unique, eq_trans,
}
use miniob.Tree.Node.Insert.{lookup-found, lookup_missing}

module _ {K : Type 0} (o : KeyOrder K) where
  open o use {cmp}

  -- A node's entries without the one at `at`.
  pub record Removed (node : Node K) (key : K) (at : ℕ) (node' : Node K) : Type 0 where
    pub within : at < node.key_num
    pub equal : cmp key (node.keys at) ≡ Ordering.eq
    pub counted : node'.key_num + 1 ≡ node.key_num
    pub keys :
        (j : ℕ)
        → j + 1 < node.key_num
        → node'.keys j ≡ (if ltb j at then node.keys j else node.keys (j + 1))
    pub rids :
        (j : ℕ)
        → j + 1 < node.key_num
        → node'.rids j ≡ (if ltb j at then node.rids j else node.rids (j + 1))

  module _ (node : Node K) (key : K) (at : ℕ) (node' : Node K)
      (asc : Ascending o node.keys node.key_num) (r : Removed node key at node') where
    pub Removed-Ascending : Ascending o node'.keys node'.key_num
    Removed-Ascending i j l h =
        ground (arith, r.counted, r.keys i, r.keys j, asc i j, asc i (j + 1), asc (i + 1) (j + 1))

    kept :
        (q : K) (i : ℕ)
        → i < node.key_num
        → i ≢ at
        → cmp q (node.keys i) ≡ Ordering.eq
        → lookup cmp node' q ≡ some (node.rids i)
    kept q i h other eq = elim (Bool-cases (ltb i at)) [
      | inl t ↦
          lookup-found o node' q i (
            find_key-at o node'.key_num node'.keys q i Removed-Ascending
              (ground (arith, r.counted, r.within)) (ground (arith, r.keys i, r.within)))
          ∙ ap some (ground (arith, r.rids i, r.within))
      | inr t ↦
          lookup-found o node' q (i - 1) (
            find_key-at o node'.key_num node'.keys q (i - 1) Removed-Ascending
              (ground (arith, r.counted, r.within)) (ground (arith, r.keys (i - 1), r.within)))
          ∙ ap some (ground (arith, r.rids (i - 1), r.within))
    ]

    absent :
        (q : K)
        → ((j : ℕ) → j < node.key_num → j ≢ at → cmp q (node.keys j) ≢ Ordering.eq)
        → lookup cmp node' q ≡ none
    absent q none_of =
        lookup_missing o node' q (find_key-absent o node'.key_num node'.keys q no_key)
      where
        no_key : (j : ℕ) → j < node'.key_num → cmp q (node'.keys j) ≢ Ordering.eq
        no_key j h =
            rw (r.keys j (omega (arith, r.counted)))
              (ground (arith, none_of j, none_of (j + 1), r.counted))

    lookup-Removed :
        (q : K) → lookup cmp node' q ≡ (if is_eq (cmp q key) then none else lookup cmp node q)
    lookup-Removed q = elim (Ordering-cases (cmp q key)) [
      | inr (inl eq) ↦ rw eq (gone eq)
      | inl lt ↦ rw lt (others (λ f. cc))
      | inr (inr gt) ↦ rw gt (others (λ f. cc))
    ]
      where
        gone : cmp q key ≡ Ordering.eq → lookup cmp node' q ≡ none
        gone eq = absent q (λ j h other f. other (
            eq_unique o node.keys node.key_num q j at asc h r.within f
              (eq_trans o q key (node.keys at) eq r.equal)))

        others : cmp q key ≢ Ordering.eq → lookup cmp node' q ≡ lookup cmp node q
        others other = elim (Option-cases (find_key cmp node.key_num node.keys q 0)) [
          | inl f ↦
              absent q (λ j h _. find_key-none o node.key_num node.keys q f j h)
              ∙ sym (lookup_missing o node q f)
          | inr (i, f) ↦
              let (h, eq) = find_key-some o node.key_num node.keys q i f in
              kept q i h
                (λ e.
                  other (
                    eq_trans o q (node.keys i) key eq
                      (rw e (eq-flip o key (node.keys at) r.equal))))
                eq
              ∙ sym (lookup-found o node q i f)
        ]

  -- What `delete_entry_from_node` does to a leaf.
  abbrev pub Deletes : Node K → K → Outcome (Node K) → Type 0
  Deletes node key (ok node') =
      Ascending o node'.keys node'.key_num
      × (node'.key_num + 1 ≡ node.key_num)
      × ((q : K) → lookup cmp node' q ≡ (if is_eq (cmp q key) then none else lookup cmp node q))
  Deletes node key (err e) =
      (e ≡ record_invalid_key) × ((j : ℕ) → j < node.key_num → cmp key (node.keys j) ≢ Ordering.eq)
  Deletes node key fault = ⊥

  abbrev without : Node K → ℕ → Node K
  without node at = record node {
    keys = shift_down (node.key_num - 1 - at) node.keys at;
    rids =
        if node.is_leaf
        then shift_down (node.key_num - 1 - at) node.rids at
        else shift_down (node.key_num - (at + 1)) node.rids (at + 1);
    key_num = node.key_num - 1;
  }

  without-Removed :
      (node : Node K) (key : K) (at : ℕ)
      → node.is_leaf ≡ true
      → at < node.key_num
      → cmp key (node.keys at) ≡ Ordering.eq
      → Removed node key at (without node at)
  without-Removed node key at leaf h e = record {
    within = h;
    equal = e;
    counted = omega arith;
    keys = λ j l. ground (arith, shift_down-eq (node.key_num - 1 - at) node.keys at j);
    rids = λ j l. rw leaf (ground (arith, shift_down-eq (node.key_num - 1 - at) node.rids at j));
  }

  -- On a leaf whose keys ascend `delete_entry_from_node` removes exactly the key: no key equal to it is
  -- found afterwards, every other key is found as before, and the keys ascend. It returns
  -- RECORD_INVALID_KEY only if no key of the leaf is equal.
  pub delete_entry_from_node-Deletes :
      (node : Node K) (key : K)
      → node.is_leaf ≡ true
      → Ascending o node.keys node.key_num
      → Deletes node key (delete_entry_from_node cmp node key)
  unfolding delete_entry_from_node
  delete_entry_from_node-Deletes node key leaf asc =
      elim (Option-cases (find_key cmp node.key_num node.keys key 0)) [
        | inl e ↦
            rw (e, delete_entry_from_node, Deletes)
              (refl, find_key-none o node.key_num node.keys key e)
        | inr (at, e) ↦
            let (h, eq) = find_key-some o node.key_num node.keys key at e in
            let r = without-Removed node key at leaf h eq in
            rw (e, delete_entry_from_node, Deletes)
              (
                Removed-Ascending node key at (without node at) asc r,
                r.counted,
                lookup-Removed node key at (without node at) asc r,
              )
      ]

  -- What `delete_entry_from_node` deletes was in the leaf.
  pub delete_entry_from_node-old :
      (node : Node K) (key : K) (node' : Node K)
      → delete_entry_from_node cmp node key ≡ ok node'
      → (old : Rid) × (lookup cmp node key ≡ some old)
  unfolding delete_entry_from_node
  delete_entry_from_node-old node key node' e =
      elim (Option-cases (find_key cmp node.key_num node.keys key 0)) [
        | inl f ↦ absurd (cc (rw (f, delete_entry_from_node) at e))
        | inr (i, f) ↦ (node.rids i, lookup-found o node key i f)
      ]

  pub delete_entry_from_node-is_leaf :
      (node : Node K) (key : K) (node' : Node K)
      → delete_entry_from_node cmp node key ≡ ok node'
      → node'.is_leaf ≡ node.is_leaf
  unfolding delete_entry_from_node
  delete_entry_from_node-is_leaf node key node' e =
      elim (Option-cases (find_key cmp node.key_num node.keys key 0)) [
        | inl f ↦ ground arith
        | inr (i, f) ↦ ground arith
      ]
