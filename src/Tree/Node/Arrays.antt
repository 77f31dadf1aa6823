-- ===== src/Tree/Node/Arrays.antt =====
-- What the loops over the arrays of a node leave behind.
use miniob.Base.{ℕ, zero, suc, ◌+◌, ◌-◌, ◌≤◌, ◌<◌, ◌≡◌, ◌&&◌, ltb, leb, ◌==◌, if◌then◌else◌, arith}
use miniob.Tree.Node.{put, shift_up, shift_down, copy, spread}

-- The array with a value put in between.
abbrev pub insert_at : {A : Type 0} → (ℕ → A) → ℕ → A → ℕ → A
insert_at a pos v j = if ltb j pos then a j else if j == pos then v else a (j - 1)

module _ {A : Type 0} where
  pub shift_up-eq :
      (n : ℕ) (a : ℕ → A) (top j : ℕ)
      → n ≤ top
      → shift_up n a top j ≡ (if ltb (top - n) j && leb j top then a (j - 1) else a j)
  unfolding shift_up
  shift_up-eq zero a top j h = ground arith
  shift_up-eq (suc n) a top j h =
      ground (arith, shift_up-eq n (put a top (a (top - 1))) (top - 1) j)

  pub shift_down-eq :
      (n : ℕ) (a : ℕ → A) (from j : ℕ)
      → shift_down n a from j ≡ (if leb from j && ltb j (from + n) then a (j + 1) else a j)
  unfolding shift_down
  shift_down-eq zero a from j = ground arith
  shift_down-eq (suc n) a from j =
      ground (arith, shift_down-eq n (put a from (a (from + 1))) (from + 1) j)

  pub copy-eq :
      (n : ℕ) (dst : ℕ → A) (to : ℕ) (src : ℕ → A) (from j : ℕ)
      → copy n dst to src from j
        ≡ (if leb to j && ltb j (to + n) then src (from + (j - to)) else dst j)
  unfolding copy
  copy-eq zero dst to src from j = ground arith
  copy-eq (suc n) dst to src from j =
      ground (arith, copy-eq n (put dst to (src from)) (to + 1) src (from + 1) j)

  -- Past the gap.
  spread-after :
      (n : ℕ) (dst : ℕ → A) (gap at : ℕ) (src : ℕ → A) (from j : ℕ)
      → gap < at
      → spread n dst gap at src from j
        ≡ (if leb at j && ltb j (at + n) then src (from + (j - at)) else dst j)
  unfolding spread
  spread-after zero dst gap at src from j h = ground arith
  spread-after (suc n) dst gap at src from j h =
      ground (arith, spread-after n (put dst at (src from)) gap (at + 1) src (from + 1) j)

  -- At or before the gap, which lies `before` rounds ahead.
  spread-before :
      (n : ℕ) (dst : ℕ → A) (gap at : ℕ) (src : ℕ → A) (j : ℕ)
      → at ≤ gap
      → gap ≤ at + n
      → spread n dst gap at src at j ≡ (
          if leb at j && leb j (at + n) && ltb j gap
          then src j
          else if leb at j && leb j (at + n) && ltb gap j
          then src (j - 1)
          else dst j)
  unfolding spread
  spread-before zero dst gap at src j h k = ground arith
  spread-before (suc n) dst gap at src j h k = ground (
    arith,
    spread-before n (put dst at (src at)) gap (at + 1) src j,
    spread-after n (put dst (at + 1) (src at)) gap (at + 1 + 1) src (at + 1) j,
  )

  -- A copy with a gap, which is then filled.
  pub spread-insert_at :
      (n : ℕ) (dst : ℕ → A) (gap : ℕ) (src : ℕ → A) (v : A) (j : ℕ)
      → gap ≤ n
      → j ≤ n
      → put (spread n dst gap 0 src 0) gap v j ≡ insert_at src gap v j
  spread-insert_at n dst gap src v j h k = ground (arith, spread-before n dst gap 0 src j)
