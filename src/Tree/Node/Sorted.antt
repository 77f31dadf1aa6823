-- ===== src/Tree/Node/Sorted.antt =====
-- Ascending keys, and what the searches among the keys of a node find.
use Prim.Native.Nat.{Ordering}
use miniob.Base.{
  ℕ, zero, suc, ◌+◌, ◌-◌, ◌≤◌, ◌<◌, ◌≡◌, ◌⊎◌, inl, inr, refl, ◌∙◌, ap, Option, none, some, true,
  ◌==◌, arith, Bool-cases,
}
use miniob.Index.Order.{flip, agree}
use miniob.Tree.Node.{KeyOrder, insert_place}
use miniob.Tree.Node.Arrays.{insert_at}

pub Ordering-cases : (o : Ordering) → (o ≡ Ordering.lt) ⊎ (o ≡ Ordering.eq) ⊎ (o ≡ Ordering.gt)
Ordering-cases Ordering.lt = inl refl
Ordering-cases Ordering.eq = inr (inl refl)
Ordering-cases Ordering.gt = inr (inr refl)

agree_lt : (p : Ordering) → agree Ordering.lt Ordering.lt p ≡ true → p ≡ Ordering.lt
agree_lt p h = ground arith

module _ {K : Type 0} (o : KeyOrder K) where
  open o use {cmp, cmp-flip, cmp-agree}

  -- The first `n` keys ascend strictly.
  abbrev pub Ascending : (ℕ → K) → ℕ → Type 0
  Ascending keys n = (i j : ℕ) → i < j → j < n → cmp (keys i) (keys j) ≡ Ordering.lt

  pub lt_trans : (a b c : K) → cmp a b ≡ Ordering.lt → cmp b c ≡ Ordering.lt → cmp a c ≡ Ordering.lt
  lt_trans a b c h k = agree_lt (cmp a c) (rw (h, k) at (cmp-agree a b c))

  pub gt-flip : (a b : K) → cmp a b ≡ Ordering.gt → cmp b a ≡ Ordering.lt
  gt-flip a b h = cmp-flip a b ∙ ap flip h

  pub lt-flip : (a b : K) → cmp a b ≡ Ordering.lt → cmp b a ≡ Ordering.gt
  lt-flip a b h = cmp-flip a b ∙ ap flip h

  pub eq-flip : (a b : K) → cmp a b ≡ Ordering.eq → cmp b a ≡ Ordering.eq
  eq-flip a b h = cmp-flip a b ∙ ap flip h

  -- Where a key goes: below it only smaller keys, from it on only larger ones.
  pub record IsPlace (keys : ℕ → K) (n : ℕ) (key : K) (pos : ℕ) : Type 0 where
    pub within : pos ≤ n
    pub below : (i : ℕ) → i < pos → cmp (keys i) key ≡ Ordering.lt
    pub above : (i : ℕ) → pos ≤ i → i < n → cmp key (keys i) ≡ Ordering.lt

  pub insert_at-Ascending :
      (keys : ℕ → K) (n : ℕ) (key : K) (pos : ℕ)
      → Ascending keys n
      → IsPlace keys n key pos
      → Ascending (insert_at keys pos key) (n + 1)
  insert_at-Ascending keys n key pos asc place i j l h =
      ground
        (arith, asc i j, asc i (j - 1), asc (i - 1) (j - 1), place.below i, place.above (j - 1))

  -- The search of `insert_into_leaf`, from key `i` on.
  abbrev Places : (ℕ → K) → ℕ → K → ℕ → Option ℕ → Type 0
  Places keys n key i none = (j : ℕ) × (i ≤ j) × (j < n) × (cmp key (keys j) ≡ Ordering.eq)
  Places keys n key i (some pos) =
      (i ≤ pos)
      × (pos ≤ n)
      × ((j : ℕ) → i ≤ j → j < pos → cmp (keys j) key ≡ Ordering.lt)
      × (pos < n → cmp key (keys pos) ≡ Ordering.lt)

  Places-next :
      (keys : ℕ → K) (n : ℕ) (key : K) (i : ℕ) (r : Option ℕ)
      → cmp key (keys i) ≡ Ordering.gt
      → Places keys n key (i + 1) r
      → Places keys n key i r
  Places-next keys n key i none h (j, l, k, e) = (j, omega arith, k, e)
  Places-next keys n key i (some pos) h (l, w, below, at) =
      (omega arith, w, λ j lo hi. ground (arith, below j, gt-flip key (keys i)), at)

  insert_place-Places :
      (n : ℕ) (keys : ℕ → K) (key : K) (i : ℕ)
      → Places keys (i + n) key i (insert_place cmp n keys key i)
  unfolding insert_place
  insert_place-Places zero keys key i =
      (omega arith, omega arith, λ j l h. absurd (omega arith), λ h. absurd (omega arith))
  insert_place-Places (suc n) keys key i = elim (Ordering-cases (cmp key (keys i))) [
    | inl e ↦ rw (e, insert_place) (omega arith, omega arith, λ j l h. absurd (omega arith), λ h. e)
    | inr (inl e) ↦ rw (e, insert_place) (i, omega arith, omega arith, e)
    | inr (inr e) ↦
        let step : i + 1 + n ≡ i + suc n = omega arith in
        let rest = insert_place-Places n keys key (i + 1) in
        rw (e, insert_place) (Places-next keys (i + suc n) key i _ e (rw step at rest))
  ]

  Places-IsPlace :
      (keys : ℕ → K) (n : ℕ) (key : K) (pos : ℕ)
      → Ascending keys n
      → Places keys n key 0 (some pos)
      → IsPlace keys n key pos
  Places-IsPlace keys n key pos asc (l, w, below, at) = record {
    within = w;
    below = λ i h. below i (omega arith) h;
    above = above;
  }
    where
      above : (i : ℕ) → pos ≤ i → i < n → cmp key (keys i) ≡ Ordering.lt
      above i l h = elim (Bool-cases (pos == i)) [
        | inl e ↦ let same : pos ≡ i = ground arith in rw same at (at (omega arith))
        | inr e ↦ lt_trans key (keys pos) (keys i) (at (omega arith)) (asc pos i (ground arith) h)
      ]

  -- Among ascending keys the search finds the key's place, or an equal key.
  abbrev pub Placed : (ℕ → K) → ℕ → K → Option ℕ → Type 0
  Placed keys n key none = (j : ℕ) × (j < n) × (cmp key (keys j) ≡ Ordering.eq)
  Placed keys n key (some pos) = IsPlace keys n key pos

  pub insert_place-Placed :
      (n : ℕ) (keys : ℕ → K) (key : K)
      → Ascending keys n
      → Placed keys n key (insert_place cmp n keys key 0)
  insert_place-Placed n keys key asc =
      go (insert_place cmp n keys key 0) (insert_place-Places n keys key 0)
    where
      go : (r : Option ℕ) → Places keys (0 + n) key 0 r → Placed keys n key r
      go none (j, l, h, e) = (j, omega arith, e)
      go (some pos) (l, w, below, at) =
          Places-IsPlace keys n key pos asc (l, omega arith, below, λ h. at (omega arith))
