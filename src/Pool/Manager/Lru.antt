-- ===== src/Pool/Manager/Lru.antt =====
-- The LRU list: what a use does to it, and which frame `evict` picks.
use miniob.Base.{
  ℕ, ◌+◌, ◌≡◌, ◌<◌, refl, ap, ◌⊎◌, inl, inr, false, Bool-cases, none, some, List, [], ◌∷◌, ◌++◌,
  ◌==◌, if◌then◌else◌, arith,
}
use miniob.Pool.{LruFrame}
use miniob.Pool.Manager.{Manager, list_delete, lru_update, first_unpinned}

-- How often a frame is in the list.
abbrev pub count : ℕ → List ℕ → ℕ
count i [] = 0
count i (j ∷ js) = (if i == j then 1 else 0) + count i js

count-list_delete :
    (is : List ℕ) (i j : ℕ)
    → 0 < count i is
    → count j (list_delete is i) + (if j == i then 1 else 0) ≡ count j is
unfolding list_delete
count-list_delete [] i j h = absurd (omega arith)
count-list_delete (k ∷ is) i j h = ground (arith, count-list_delete is i j)

-- Using a frame that is in the list moves it to the front of the list, and neither adds a frame to
-- the list nor takes one out: every frame is in it as often as before.
lru_update-count :
    (m : Manager) (i : ℕ)
    → 0 < count i m.lru
    → ((rest : List ℕ) × ((lru_update m i).lru ≡ i ∷ rest))
      × ((j : ℕ) → count j (lru_update m i).lru ≡ count j m.lru)
unfolding lru_update
lru_update-count m i h = ((_, refl), λ j. omega (arith, count-list_delete m.lru i j h))

abbrev pub Pinned : (ℕ → LruFrame) → List ℕ → Type 0
Pinned frames [] = Unit
Pinned frames (i ∷ is) = (((frames i).pin_count == 0) ≡ false) × Pinned frames is

-- The search of `evict` along a list returns the first frame of it that is not pinned: all before it
-- are, and if it returns none all of the list are pinned.
first_unpinned-First :
    (frames : ℕ → LruFrame) (is : List ℕ)
    → ((first_unpinned frames is ≡ none) × Pinned frames is)
      ⊎ ((i : ℕ) × (before after : List ℕ) × (first_unpinned frames is ≡ some i)
          × (is ≡ before ++ i ∷ after)
          × Pinned frames before
          × ((frames i).pin_count ≡ 0))
unfolding first_unpinned
first_unpinned-First frames [] = inl (refl, tt)
first_unpinned-First frames (j ∷ is) = elim (Bool-cases ((frames j).pin_count == 0)) [
  | inl t ↦ inr (j, [], is, rw (t, first_unpinned), refl, tt, ground arith)
  | inr t ↦ elim (first_unpinned-First frames is) [
    | inl (e, p) ↦ inl (rw (t, first_unpinned) e, (t, p))
    | inr (i, before, after, e, split, p, idle) ↦
        inr (i, j ∷ before, after, rw (t, first_unpinned) e, ap (◌∷◌ j) split, (t, p), idle)
  ]
]
