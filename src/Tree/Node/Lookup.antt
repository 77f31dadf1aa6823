-- ===== src/Tree/Node/Lookup.antt =====
-- The other searches among the keys of a node: for an equal key, and for the first key above one.
use Prim.Native.Nat.{Ordering, compare}
use miniob.Base.{
  ℕ, zero, suc, ◌+◌, ◌≤◌, ◌<◌, ◌≡◌, ◌≢◌, inl, inr, ◌∙◌, ap, Option, none, some, true, ◌==◌, arith,
  Bool-cases, Option-cases,
}
use miniob.Index.Order.{agree}
use miniob.Tree.Node.{KeyOrder, first_above, find_key}
use miniob.Tree.Node.Sorted.{Ascending, Ordering-cases, lt_trans, gt-flip, IsPlace}

agree_eq : (p : Ordering) → agree Ordering.eq Ordering.eq p ≡ true → p ≡ Ordering.eq
agree_eq p h = ground arith

agree_eq_lt : (p : Ordering) → agree Ordering.eq Ordering.lt p ≡ true → p ≡ Ordering.lt
agree_eq_lt p h = ground arith

agree_lt_eq : (p : Ordering) → agree Ordering.lt Ordering.eq p ≡ true → p ≡ Ordering.lt
agree_lt_eq p h = ground arith

module _ {K : Type 0} (o : KeyOrder K) where
  open o use {cmp, cmp-flip, cmp-agree}

  pub eq_trans : (a b c : K) → cmp a b ≡ Ordering.eq → cmp b c ≡ Ordering.eq → cmp a c ≡ Ordering.eq
  eq_trans a b c h k = agree_eq (cmp a c) (rw (h, k) at (cmp-agree a b c))

  pub eq_lt_trans :
      (a b c : K) → cmp a b ≡ Ordering.eq → cmp b c ≡ Ordering.lt → cmp a c ≡ Ordering.lt
  eq_lt_trans a b c h k = agree_eq_lt (cmp a c) (rw (h, k) at (cmp-agree a b c))

  pub lt_eq_trans :
      (a b c : K) → cmp a b ≡ Ordering.lt → cmp b c ≡ Ordering.eq → cmp a c ≡ Ordering.lt
  lt_eq_trans a b c h k = agree_lt_eq (cmp a c) (rw (h, k) at (cmp-agree a b c))

  -- No two of ascending keys are equal to one.
  pub eq_unique :
      (keys : ℕ → K) (n : ℕ) (key : K) (i j : ℕ)
      → Ascending o keys n
      → i < n
      → j < n
      → cmp key (keys i) ≡ Ordering.eq
      → cmp key (keys j) ≡ Ordering.eq
      → i ≡ j
  eq_unique keys n key i j asc hi hj e f = elim (Ordering-cases (compare i j)) [
    | inl c ↦
        let less = eq_lt_trans key (keys i) (keys j) e (asc i j (ground arith) hj) in
        absurd (ground (arith, less))
    | inr (inl c) ↦ ground arith
    | inr (inr c) ↦
        let less = eq_lt_trans key (keys j) (keys i) f (asc j i (ground arith) hi) in
        absurd (ground (arith, less))
  ]

  -- What `find_key` finds among the keys from `i` on.
  abbrev Finds : (ℕ → K) → ℕ → K → ℕ → Option ℕ → Type 0
  Finds keys n key i none = (j : ℕ) → i ≤ j → j < n → cmp key (keys j) ≢ Ordering.eq
  Finds keys n key i (some at) = (i ≤ at) × (at < n) × (cmp key (keys at) ≡ Ordering.eq)

  Finds-next :
      (keys : ℕ → K) (n : ℕ) (key : K) (i : ℕ) (r : Option ℕ)
      → cmp key (keys i) ≢ Ordering.eq
      → Finds keys n key (i + 1) r
      → Finds keys n key i r
  Finds-next keys n key i none h f = λ j l k. elim (Bool-cases (i == j)) [
    | inl e ↦ let same : i ≡ j = ground arith in rw same at h
    | inr e ↦ f j (ground arith) k
  ]
  Finds-next keys n key i (some at) h (l, w, e) = (omega arith, w, e)

  find_key-Finds :
      (n : ℕ) (keys : ℕ → K) (key : K) (i : ℕ)
      → Finds keys (i + n) key i (find_key cmp n keys key i)
  unfolding find_key
  find_key-Finds zero keys key i = λ j l h. absurd (omega arith)
  find_key-Finds (suc n) keys key i =
      let step : i + 1 + n ≡ i + suc n = omega arith in
      let rest = find_key-Finds n keys key (i + 1) in
      let more = rw step at rest in
      elim (Ordering-cases (cmp key (keys i))) [
        | inl e ↦ rw (e, find_key) (Finds-next keys (i + suc n) key i _ (λ f. cc) more)
        | inr (inl e) ↦ rw (e, find_key) (omega arith, omega arith, e)
        | inr (inr e) ↦ rw (e, find_key) (Finds-next keys (i + suc n) key i _ (λ f. cc) more)
      ]

  pub find_key-none :
      (n : ℕ) (keys : ℕ → K) (key : K)
      → find_key cmp n keys key 0 ≡ none
      → (j : ℕ) → j < n
      → cmp key (keys j) ≢ Ordering.eq
  find_key-none n keys key e j h =
      let f : Finds keys (0 + n) key 0 none = rw e at (find_key-Finds n keys key 0) in
      f j (omega arith) (omega arith)

  pub find_key-some :
      (n : ℕ) (keys : ℕ → K) (key : K) (at : ℕ)
      → find_key cmp n keys key 0 ≡ some at
      → (at < n) × (cmp key (keys at) ≡ Ordering.eq)
  find_key-some n keys key at e =
      let f : Finds keys (0 + n) key 0 (some at) = rw e at (find_key-Finds n keys key 0) in
      (omega (arith, f.1), f.2)

  -- Among ascending keys the search finds the one place of an equal key.
  pub find_key-at :
      (n : ℕ) (keys : ℕ → K) (key : K) (at : ℕ)
      → Ascending o keys n
      → at < n
      → cmp key (keys at) ≡ Ordering.eq
      → find_key cmp n keys key 0 ≡ some at
  find_key-at n keys key at asc h e = elim (Option-cases (find_key cmp n keys key 0)) [
    | inl f ↦ absurd (find_key-none n keys key f at h e)
    | inr (i, f) ↦
        let (l, g) = find_key-some n keys key i f in
        f ∙ ap some (eq_unique keys n key i at asc l h g e)
  ]

  pub find_key-absent :
      (n : ℕ) (keys : ℕ → K) (key : K)
      → ((j : ℕ) → j < n → cmp key (keys j) ≢ Ordering.eq)
      → find_key cmp n keys key 0 ≡ none
  find_key-absent n keys key h = elim (Option-cases (find_key cmp n keys key 0)) [
    | inl f ↦ f
    | inr (i, f) ↦ let (l, g) = find_key-some n keys key i f in absurd (h i l g)
  ]

  -- What `first_above` finds among the keys from `i` on.
  abbrev Above : (ℕ → K) → ℕ → K → ℕ → ℕ → Type 0
  Above keys n key i pos =
      (i ≤ pos)
      × (pos ≤ n)
      × ((j : ℕ) → i ≤ j → j < pos → cmp key (keys j) ≢ Ordering.lt)
      × (pos < n → cmp key (keys pos) ≡ Ordering.lt)

  Above-next :
      (keys : ℕ → K) (n : ℕ) (key : K) (i pos : ℕ)
      → cmp key (keys i) ≢ Ordering.lt
      → Above keys n key (i + 1) pos
      → Above keys n key i pos
  Above-next keys n key i pos h (l, w, below, at) = (omega arith, w, before, at)
    where
      before : (j : ℕ) → i ≤ j → j < pos → cmp key (keys j) ≢ Ordering.lt
      before j a b = elim (Bool-cases (i == j)) [
        | inl e ↦ let same : i ≡ j = ground arith in rw same at h
        | inr e ↦ below j (ground arith) b
      ]

  first_above-Above :
      (n : ℕ) (keys : ℕ → K) (key : K) (i : ℕ)
      → Above keys (i + n) key i (first_above cmp n keys key i)
  unfolding first_above
  first_above-Above zero keys key i =
      (omega arith, omega arith, λ j l h. absurd (omega arith), λ h. absurd (omega arith))
  first_above-Above (suc n) keys key i =
      let step : i + 1 + n ≡ i + suc n = omega arith in
      let rest = first_above-Above n keys key (i + 1) in
      let more = rw step at rest in
      elim (Ordering-cases (cmp key (keys i))) [
        | inl e ↦
            rw (e, first_above) (omega arith, omega arith, λ j l h. absurd (omega arith), λ h. e)
        | inr (inl e) ↦ rw (e, first_above) (Above-next keys (i + suc n) key i _ (λ f. cc) more)
        | inr (inr e) ↦ rw (e, first_above) (Above-next keys (i + suc n) key i _ (λ f. cc) more)
      ]

  pub first_above-le : (n : ℕ) (keys : ℕ → K) (key : K) → first_above cmp n keys key 0 ≤ n
  first_above-le n keys key = omega (arith, (first_above-Above n keys key 0).1)

  -- Among ascending keys none of which is equal to it, the search finds the key's place.
  pub first_above-IsPlace :
      (n : ℕ) (keys : ℕ → K) (key : K)
      → Ascending o keys n
      → ((j : ℕ) → j < n → cmp key (keys j) ≢ Ordering.eq)
      → IsPlace o keys n key (first_above cmp n keys key 0)
  first_above-IsPlace n keys key asc new = record {
    within = omega (arith, f.1);
    below = below;
    above = above;
  }
    where
      pos : ℕ
      pos = first_above cmp n keys key 0

      f : Above keys (0 + n) key 0 pos
      f = first_above-Above n keys key 0

      below : (i : ℕ) → i < pos → cmp (keys i) key ≡ Ordering.lt
      below i h = elim (Ordering-cases (cmp key (keys i))) [
        | inl e ↦ absurd (f.2 i (omega arith) h e)
        | inr (inl e) ↦ absurd (new i (omega (arith, f.1)) e)
        | inr (inr e) ↦ gt-flip o key (keys i) e
      ]

      above : (i : ℕ) → pos ≤ i → i < n → cmp key (keys i) ≡ Ordering.lt
      above i l h = elim (Bool-cases (pos == i)) [
        | inl e ↦ let same : pos ≡ i = ground arith in rw same at (f.3 (omega arith))
        | inr e ↦
            lt_trans o key (keys pos) (keys i) (f.3 (omega arith)) (asc pos i (ground arith) h)
      ]
