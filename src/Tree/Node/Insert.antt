-- ===== src/Tree/Node/Insert.antt =====
-- `insert_into_leaf` as the insertion of a finite map.
use Prim.Native.Nat.{Ordering}
use miniob.Base.{
  ℕ, ◌+◌, ◌-◌, ◌≤◌, ◌<◌, ◌≡◌, ◌≢◌, inl, inr, refl, sym, ◌∙◌, ap, none, some, ltb, if◌then◌else◌,
  arith, Bool-cases, Option-cases,
}
use miniob.Index.Order.{is_eq}
use miniob.Rc.{Outcome, ok, err, fault, record_duplicate_key}
use miniob.Record.{Rid}
use miniob.Tree.Node.{
  Node, KeyOrder, put, shift_up, find_key, lookup, insert_place, insert_into_leaf,
}
use miniob.Tree.Node.Arrays.{insert_at, shift_up-eq}
use miniob.Tree.Node.Sorted.{
  Ascending, Ordering-cases, eq-flip, IsPlace, insert_at-Ascending, insert_place-Placed,
}
use miniob.Tree.Node.Lookup.{find_key-none, find_key-some, find_key-at, find_key-absent}

module _ {K : Type 0} (o : KeyOrder K) where
  open o use {cmp}

  -- A node's entries with one more, at its place.
  pub record Entered (node : Node K) (key : K) (rid : Rid) (pos : ℕ) (node' : Node K) : Type 0 where
    pub place : IsPlace o node.keys node.key_num key pos
    pub counted : node'.key_num ≡ node.key_num + 1
    pub keys : (j : ℕ) → j ≤ node.key_num → node'.keys j ≡ insert_at node.keys pos key j
    pub rids : (j : ℕ) → j ≤ node.key_num → node'.rids j ≡ insert_at node.rids pos rid j

  pub Ascending-congr :
      (keys keys' : ℕ → K) (n : ℕ)
      → ((j : ℕ) → j < n → keys' j ≡ keys j)
      → Ascending o keys n
      → Ascending o keys' n
  Ascending-congr keys keys' n same asc i j l h = rw (same i (omega arith), same j h) (asc i j l h)

  pub lookup-found :
      (node : Node K) (key : K) (at : ℕ)
      → find_key cmp node.key_num node.keys key 0 ≡ some at
      → lookup cmp node key ≡ some (node.rids at)
  unfolding lookup
  lookup-found node key at e = rw (e, lookup)

  pub lookup_missing :
      (node : Node K) (key : K)
      → find_key cmp node.key_num node.keys key 0 ≡ none
      → lookup cmp node key ≡ none
  unfolding lookup
  lookup_missing node key e = rw (e, lookup)

  module _ (node : Node K) (key : K) (rid : Rid) (pos : ℕ) (node' : Node K)
      (asc : Ascending o node.keys node.key_num) (e : Entered node key rid pos node') where
    pub Entered-Ascending : Ascending o node'.keys node'.key_num
    Entered-Ascending = rw e.counted (
        Ascending-congr (insert_at node.keys pos key) node'.keys (node.key_num + 1)
          (λ j h. e.keys j (omega arith))
          (insert_at-Ascending o node.keys node.key_num key pos asc e.place))

    -- Where an entry of the old node is in the new one.
    moved :
        (q : K) (i : ℕ)
        → i < node.key_num
        → cmp q (node.keys i) ≡ Ordering.eq
        → lookup cmp node' q ≡ some (node.rids i)
    moved q i h eq = elim (Bool-cases (ltb i pos)) [
      | inl t ↦
          lookup-found node' q i (
            find_key-at o node'.key_num node'.keys q i Entered-Ascending (omega (arith, e.counted))
              (ground (arith, e.keys i)))
          ∙ ap some (ground (arith, e.rids i))
      | inr t ↦
          lookup-found node' q (i + 1) (
            find_key-at o node'.key_num node'.keys q (i + 1) Entered-Ascending
              (omega (arith, e.counted)) (ground (arith, e.keys (i + 1))))
          ∙ ap some (ground (arith, e.rids (i + 1)))
    ]

    entered : (q : K) → cmp q key ≡ Ordering.eq → lookup cmp node' q ≡ some rid
    entered q eq =
        lookup-found node' q pos (
          find_key-at o node'.key_num node'.keys q pos Entered-Ascending
            (omega (arith, e.counted, e.place.within)) (ground (arith, e.keys pos, e.place.within)))
        ∙ ap some (ground (arith, e.rids pos, e.place.within))

    absent :
        (q : K)
        → cmp q key ≢ Ordering.eq
        → ((j : ℕ) → j < node.key_num → cmp q (node.keys j) ≢ Ordering.eq)
        → lookup cmp node' q ≡ none
    absent q other none_of =
        lookup_missing node' q (find_key-absent o node'.key_num node'.keys q no_key)
      where
        no_key : (j : ℕ) → j < node'.key_num → cmp q (node'.keys j) ≢ Ordering.eq
        no_key j h =
            rw (e.keys j (omega (arith, e.counted)))
              (ground (arith, none_of j, none_of (j - 1), e.counted, e.place.within))

    pub lookup-Entered :
        (q : K) → lookup cmp node' q ≡ (if is_eq (cmp q key) then some rid else lookup cmp node q)
    lookup-Entered q = elim (Ordering-cases (cmp q key)) [
      | inr (inl eq) ↦ rw eq (entered q eq)
      | inl lt ↦ rw lt (others (λ f. cc))
      | inr (inr gt) ↦ rw gt (others (λ f. cc))
    ]
      where
        others : cmp q key ≢ Ordering.eq → lookup cmp node' q ≡ lookup cmp node q
        others other = elim (Option-cases (find_key cmp node.key_num node.keys q 0)) [
          | inl f ↦
              absent q other (find_key-none o node.key_num node.keys q f)
              ∙ sym (lookup_missing node q f)
          | inr (i, f) ↦
              let (h, eq) = find_key-some o node.key_num node.keys q i f in
              moved q i h eq ∙ sym (lookup-found node q i f)
        ]

  -- What `insert_into_leaf` does to a node.
  abbrev pub Inserts : Node K → K → Rid → Outcome (Node K) → Type 0
  Inserts node key rid (ok node') =
      Ascending o node'.keys node'.key_num
      × (node'.key_num ≡ node.key_num + 1)
      × ((q : K) → lookup cmp node' q ≡ (if is_eq (cmp q key) then some rid else lookup cmp node q))
  Inserts node key rid (err e) =
      (e ≡ record_duplicate_key)
      × ((j : ℕ) × (j < node.key_num) × (cmp key (node.keys j) ≡ Ordering.eq))
  Inserts node key rid fault = ⊥

  abbrev with_entry : Node K → K → Rid → ℕ → Node K
  with_entry node key rid pos = record node {
    keys = put (shift_up (node.key_num - pos) node.keys node.key_num) pos key;
    rids = put (shift_up (node.key_num - pos) node.rids node.key_num) pos rid;
    key_num = node.key_num + 1;
  }

  with_entry-Entered :
      (node : Node K) (key : K) (rid : Rid) (pos : ℕ)
      → IsPlace o node.keys node.key_num key pos
      → Entered node key rid pos (with_entry node key rid pos)
  with_entry-Entered node key rid pos place = record {
    place = place;
    counted = refl;
    keys = λ j h.
        ground (arith, shift_up-eq (node.key_num - pos) node.keys node.key_num j, place.within);
    rids = λ j h.
        ground (arith, shift_up-eq (node.key_num - pos) node.rids node.key_num j, place.within);
  }

  -- On a leaf whose keys ascend `insert_into_leaf` adds exactly the entry: every key equal to the new
  -- one is then found with its identifier, every other key is found as before, and the keys ascend.
  -- It returns RECORD_DUPLICATE_KEY only if a key of the leaf is equal to the new one.
  pub insert_into_leaf-Inserts :
      (node : Node K) (key : K) (rid : Rid)
      → Ascending o node.keys node.key_num
      → Inserts node key rid (insert_into_leaf cmp node key rid)
  unfolding insert_into_leaf
  insert_into_leaf-Inserts node key rid asc =
      let placed = insert_place-Placed o node.key_num node.keys key asc in
      elim (Option-cases (insert_place cmp node.key_num node.keys key 0)) [
        | inl e ↦ rw (e, insert_into_leaf, Inserts) (refl, rw e at placed)
        | inr (pos, e) ↦
            let place : IsPlace o node.keys node.key_num key pos = rw e at placed in
            let entered = with_entry-Entered node key rid pos place in
            rw (e, insert_into_leaf, Inserts)
              (
                Entered-Ascending node key rid pos (with_entry node key rid pos) asc entered,
                refl,
                lookup-Entered node key rid pos (with_entry node key rid pos) asc entered,
              )
      ]

  -- What `insert_into_leaf` takes has no equal key in the leaf.
  pub insert_into_leaf-new :
      (node : Node K) (key : K) (rid : Rid) (node' : Node K)
      → Ascending o node.keys node.key_num
      → insert_into_leaf cmp node key rid ≡ ok node'
      → lookup cmp node key ≡ none
  unfolding insert_into_leaf
  insert_into_leaf-new node key rid node' asc e =
      let placed = insert_place-Placed o node.key_num node.keys key asc in
      elim (Option-cases (insert_place cmp node.key_num node.keys key 0)) [
        | inl f ↦ absurd (cc (rw (f, insert_into_leaf) at e))
        | inr (pos, f) ↦
            let place : IsPlace o node.keys node.key_num key pos = rw f at placed in
            lookup_missing node key (
              find_key-absent o node.key_num node.keys key λ j h eq. elim (Bool-cases (ltb j pos)) [
                | inl t ↦
                    let less = place.below j (ground arith) in
                    let same = eq-flip o key (node.keys j) eq in cc
                | inr t ↦ let more = place.above j (ground arith) h in cc
              ])
      ]

  pub insert_into_leaf-is_leaf :
      (node : Node K) (key : K) (rid : Rid) (node' : Node K)
      → insert_into_leaf cmp node key rid ≡ ok node'
      → node'.is_leaf ≡ node.is_leaf
  unfolding insert_into_leaf
  insert_into_leaf-is_leaf node key rid node' e =
      elim (Option-cases (insert_place cmp node.key_num node.keys key 0)) [
        | inl f ↦ ground arith
        | inr (i, f) ↦ ground arith
      ]
