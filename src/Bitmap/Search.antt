-- ===== src/Bitmap/Search.antt =====
-- What the two searches of a bitmap find: the first bit from the start that is as wanted.
use miniob.Base.{
  ℕ, zero, suc, ◌+◌, ◌-◌, ◌*◌, ◌/◌, ◌%◌, ◌^◌, ◌≤◌, ◌<◌, ◌≡◌, refl, Bool, true, false, not, arith,
  bit_and, Option, none, some, Option-cases, ◌==◌, Bool-cases, inl, inr, ◌⊎◌, ◌∙◌,
}
use miniob.Bitmap.{find_zero_from, find_first_zero, find_setted_from, find_first_setted}
use miniob.Bitmap.Byte.{bit}

-- The result is the first place in [lo, hi) where `p` holds, or `none` if there is no such place.
abbrev pub First : (ℕ → Bool) → ℕ → ℕ → Option ℕ → Type 0
First p lo hi none = (j : ℕ) → lo ≤ j → j < hi → p j ≡ false
First p lo hi (some k) =
    (lo ≤ k) × (k < hi) × (p k ≡ true) × ((j : ℕ) → lo ≤ j → j < k → p j ≡ false)

pub First-extend :
    (p : ℕ → Bool) (lo mid hi hi' : ℕ) (r : Option ℕ)
    → lo ≤ mid
    → hi ≡ hi'
    → ((j : ℕ) → lo ≤ j → j < mid → p j ≡ false)
    → First p mid hi r
    → First p lo hi' r
First-extend p lo mid hi hi' none le e before f = λ j l h. ground (arith, before j, f j)
First-extend p lo mid hi hi' (some k) le e before f =
    (omega arith, omega arith, f.2, λ j l h. ground (arith, before j, f.3 j))

-- One more place at the front, at which `p` fails.
pub First-step :
    (p : ℕ → Bool) (n i : ℕ) (r : Option ℕ)
    → p i ≡ false
    → First p (i + 1) (i + 1 + n) r
    → First p i (i + suc n) r
First-step p n i r miss f =
    First-extend p i (i + 1) (i + 1 + n) (i + suc n) r (omega arith) (omega arith)
      (λ j l h. let e : i ≡ j = omega arith in rw (← e) miss) f

pub First-hit : (p : ℕ → Bool) (n i : ℕ) → p i ≡ true → First p i (i + suc n) (some i)
First-hit p n i hit = (omega arith, omega arith, hit, λ j l h. absurd (omega arith))

abbrev pub clear : ℕ → ℕ → Bool
clear byte i = not (bit byte i)

find_zero_from-First : (n byte i : ℕ) → First (clear byte) i (i + n) (find_zero_from n byte i)
unfolding find_zero_from
find_zero_from-First zero byte i = λ j l h. absurd (omega arith)
find_zero_from-First (suc n) byte i = elim (Bool-cases (bit_and byte (2 ^ i) == 0)) [
  | inl e ↦ rw (e, find_zero_from) (First-hit (clear byte) n i (rw e))
  | inr e ↦
      rw (e, find_zero_from)
        (First-step (clear byte) n i _ (rw e) (find_zero_from-First n byte (i + 1)))
]

find_setted_from-First : (n byte i : ℕ) → First (bit byte) i (i + n) (find_setted_from n byte i)
unfolding find_setted_from
find_setted_from-First zero byte i = λ j l h. absurd (omega arith)
find_setted_from-First (suc n) byte i = elim (Bool-cases (bit_and byte (2 ^ i) == 0)) [
  | inl e ↦
      rw (e, find_setted_from)
        (First-step (bit byte) n i _ (rw e) (find_setted_from-First n byte (i + 1)))
  | inr e ↦ rw (e, find_setted_from) (First-hit (bit byte) n i (rw e))
]

-- The search in one byte, from a bit of that byte.
pub find_first_zero-First :
    (byte start : ℕ) → start < 8 → First (clear byte) start 8 (find_first_zero byte start)
unfolding find_first_zero
find_first_zero-First byte start h =
    First-extend (clear byte) start start (start + (8 - start)) 8 _ (omega arith) (omega arith)
      (λ j l k. absurd (omega arith)) (find_zero_from-First (8 - start) byte start)

pub find_first_setted-First :
    (byte start : ℕ) → start < 8 → First (bit byte) start 8 (find_first_setted byte start)
unfolding find_first_setted
find_first_setted-First byte start h =
    First-extend (bit byte) start start (start + (8 - start)) 8 _ (omega arith) (omega arith)
      (λ j l k. absurd (omega arith)) (find_setted_from-First (8 - start) byte start)

-- Both searches have one shape: bytes that `skip` says hold no wanted bit are passed over as they
-- are, and the others are searched by `find`.
module _ (at : ℕ → ℕ) (wanted : ℕ → ℕ → Bool) (skip : ℕ → Bool) (find : ℕ → ℕ → Option ℕ)
    (find_lem : (byte start : ℕ) → start < 8 → First (wanted byte) start 8 (find byte start))
    (skip_lem : (byte i : ℕ) → skip byte ≡ true → i < 8 → wanted byte i ≡ false) where
  -- The bit `j` of the memory is a wanted one.
  abbrev pub place : ℕ → Bool
  place j = wanted (at (j / 8)) (j % 8)

  unfoldable pub scan : ℕ → ℕ → ℕ → Option ℕ
  scan zero iter s = none
  scan (suc n) iter s = elim (skip (at iter)) [
    | true ↦ scan n (iter + 1) s
    | false ↦ elim (find (at iter) s) [ some i ↦ some (iter * 8 + i) | none ↦ scan n (iter + 1) 0 ]
  ]

  -- A bit of byte `iter`, as a place of the memory.
  place_in :
      (iter j : ℕ) → iter * 8 ≤ j → j < iter * 8 + 8 → place j ≡ wanted (at iter) (j - iter * 8)
  place_in iter j l h =
      let e : j / 8 ≡ iter = omega arith in let f : j % 8 ≡ j - iter * 8 = omega arith in rw (e, f)

  -- No wanted bit from bit `s` of byte `iter` on.
  before_next :
      (iter s : ℕ)
      → ((i : ℕ) → s ≤ i → i < 8 → wanted (at iter) i ≡ false)
      → (j : ℕ) → iter * 8 + s ≤ j
      → j < (iter + 1) * 8
      → place j ≡ false
  before_next iter s none_here j l h =
      place_in iter j (omega arith) (omega arith)
      ∙ none_here (j - iter * 8) (omega arith) (omega arith)

  hit_lem :
      (n iter s i : ℕ)
      → First (wanted (at iter)) s 8 (some i)
      → First place (iter * 8 + s) ((iter + suc n) * 8) (some (iter * 8 + i))
  hit_lem n iter s i f = (
    omega arith,
    omega arith,
    place_in iter (iter * 8 + i) (omega arith) (omega arith)
        ∙ (let e : iter * 8 + i - iter * 8 ≡ i = omega arith in rw e f.2),
    λ j l h.
        place_in iter j (omega arith) (omega arith)
        ∙ f.3 (j - iter * 8) (omega arith) (omega arith),
  )

  pub scan-First :
      (n iter s : ℕ)
      → s < 8
      → (s ≡ 0) ⊎ (skip (at iter) ≡ false)
      → First place (iter * 8 + s) ((iter + n) * 8) (scan n iter s)
  unfolding scan
  scan-First zero iter s small ok = λ j l h. absurd (omega arith)
  scan-First (suc n) iter s small ok = elim (Bool-cases (skip (at iter))) [
    | inl e ↦
        let zero_start : s ≡ 0 = ground arith in
        rw (e, scan)
          (First-extend place (iter * 8 + s) ((iter + 1) * 8 + s) _ _ _ (omega arith) (omega arith)
            (λ j l h. before_next iter s (λ i a b. skip_lem (at iter) i e b) j l (omega arith))
            (scan-First n (iter + 1) s small (inl zero_start)))
    | inr e ↦ elim (Option-cases (find (at iter) s)) [
      | inl f ↦
          let g : First (wanted (at iter)) s 8 none = rw f at (find_lem (at iter) s small) in
          rw (e, f, scan)
            (First-extend place (iter * 8 + s) ((iter + 1) * 8 + 0) _ _ _ (omega arith)
              (omega arith) (λ j l h. before_next iter s g j l (omega arith))
              (scan-First n (iter + 1) 0 (omega arith) (inl refl)))
      | inr (i, f) ↦ rw (e, f, scan) (hit_lem n iter s i (rw f at (find_lem (at iter) s small)))
    ]
  ]
