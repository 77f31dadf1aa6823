-- ===== src/Record/Page/Insert.antt =====
-- `insert_record` on a page: the slot that it takes, what it stores there, and what it keeps.
use miniob.Base.{
  ℕ, ◌+◌, ◌*◌, ◌/◌, ◌≤◌, ◌<◌, ◌≡◌, ◌≢◌, ◌⊎◌, ◌∙◌, sym, inl, inr, refl, true, false, ◌||◌, arith,
  ltb, ◌==◌, if◌then◌else◌, Memory, IsBytes, memcpy-inside, memcpy-outside, memcpy-IsBytes,
  Bool-cases, none, some, Option-cases,
}
use native.Mathlib.Nat.{mul-le-mul_right}
use miniob.Bitmap.{get_bit, set_bit, next_unsetted_bit}
use miniob.Bitmap.Write.{get_bit-set_bit, set_bit-IsBytes, set_bit-outside}
use miniob.Bitmap.Search.{First}
use miniob.Bitmap.Next.{next_unsetted_bit-First, unset}
use miniob.Rc.{ok}
use miniob.Record.{Rid, page_fix_size}
use miniob.Record.Page.{RecordPage, bitmap, live, slot_offset, fill_slot, insert_record}
use miniob.Record.Page.Invariant.{IsValid, count, count-all, count-turn_on, byte_within}

-- The bytes that `insert_record` copies.
abbrev pub copied : RecordPage → ℕ → ℕ
copied p len = if len == 0 then p.record_real_size else len

-- The page and the record identifier that come back from inserting `src`.
pub record Inserted (p : RecordPage) (src : Memory) (len : ℕ) (q : RecordPage) (rid : Rid)
    : Type 0 where
  pub in_page : rid.page_num ≡ p.page_num
  pub within : rid.slot_num < p.record_capacity
  pub free : live p rid.slot_num ≡ false
  pub lowest : (j : ℕ) → j < rid.slot_num → live p j ≡ true
  pub lives : (j : ℕ) → j < p.record_capacity → live q j ≡ (rid.slot_num == j || live p j)
  pub stored : (i : ℕ) → i < copied p len → q.content (slot_offset q rid.slot_num + i) ≡ src i
  pub kept :
      (j i : ℕ)
      → rid.slot_num ≢ j
      → i < p.record_size
      → q.content (slot_offset q j + i) ≡ p.content (slot_offset p j + i)
  pub grown : q.record_num ≡ p.record_num + 1
  pub capacity : q.record_capacity ≡ p.record_capacity
  pub valid : IsValid q

-- Two slots do not overlap.
pub slots_apart :
    (base size s j i k : ℕ)
    → s ≢ j
    → i < size
    → k ≤ size
    → (base + j * size + i < base + s * size) ⊎ (base + s * size + k ≤ base + j * size + i)
slots_apart base size s j i k ne hi hk = elim (Bool-cases (ltb j s)) [
  | inl t ↦
      let step : (j + 1) * size ≤ s * size = mul-le-mul_right size (ground arith) in
      inl (omega (arith, step))
  | inr t ↦
      let step : (s + 1) * size ≤ j * size = mul-le-mul_right size (ground arith) in
      inr (omega (arith, step))
]

module _ (p : RecordPage) (src : Memory) (len slot : ℕ) (valid : IsValid p)
    (short : len ≤ p.record_size) where
  copied-le : copied p len ≤ p.record_size
  copied-le = ground (arith, valid.sized)

  -- A byte of the bitmap is not touched by the copy.
  fill-bitmap :
      (j : ℕ)
      → j < p.record_capacity
      → (fill_slot p src len slot).content (page_fix_size + j / 8)
        ≡ set_bit (bitmap p) slot (page_fix_size + j / 8)
  unfolding fill_slot
  fill-bitmap j h =
      memcpy-outside _ _ src _ _
        (inl (omega (arith, byte_within j p.record_capacity h, valid.apart)))

  pub fill_slot-live :
      (j : ℕ) → j < p.record_capacity → live (fill_slot p src len slot) j ≡ (slot == j || live p j)
  unfolding get_bit
  fill_slot-live j h =
      let same = fill-bitmap j h in rw same (get_bit-set_bit (bitmap p) valid.bytes slot j)

  pub fill_slot-kept :
      (j i : ℕ)
      → slot ≢ j
      → slot < p.record_capacity
      → i < p.record_size
      → (fill_slot p src len slot).content (slot_offset p j + i) ≡ p.content (slot_offset p j + i)
  unfolding fill_slot
  fill_slot-kept j i ne l h =
      memcpy-outside _ _ src _ _
        (slots_apart p.first_record_offset p.record_size slot j i (copied p len) ne h copied-le)
      ∙ set_bit-outside (bitmap p) slot _
          (omega (arith, byte_within slot p.record_capacity l, valid.apart))

  fill_slot-counted :
      slot < p.record_capacity
      → live p slot ≡ false
      → p.record_num + 1 ≡ count (live (fill_slot p src len slot)) p.record_capacity
  fill_slot-counted l free =
      let grown =
        count-turn_on (live p) (live (fill_slot p src len slot)) p.record_capacity slot l free
          (fill_slot-live slot l ∙ ground arith) (λ j k ne. sym (fill_slot-live j k ∙ rw ne)) in
      omega (arith, grown, valid.counted)

  pub fill_slot-IsValid :
      IsBytes src
      → slot < p.record_capacity
      → live p slot ≡ false
      → IsValid (fill_slot p src len slot)
  fill_slot-IsValid bytes l free = record {
    bytes =
        unfold fill_slot in
        memcpy-IsBytes _ _ src _ (set_bit-IsBytes (bitmap p) valid.bytes slot) bytes;
    counted = unfold fill_slot in fill_slot-counted l free;
    apart = unfold fill_slot in valid.apart;
    sized = unfold fill_slot in valid.sized;
  }

-- A page with a free slot takes the lowest one.
find_slot :
    (p : RecordPage)
    → IsValid p
    → p.record_num ≢ p.record_capacity
    → (slot : ℕ) × (next_unsetted_bit (bitmap p) 0 ≡ some slot)
      × First (unset (bitmap p) 0) 0 p.record_capacity (some slot)
find_slot p valid room = elim (Option-cases (next_unsetted_bit (bitmap p) 0)) [
  | inl e ↦ absurd (room (valid.counted ∙ count-all (live p) p.record_capacity (none_free e)))
  | inr (slot, e) ↦ (slot, e, rw e at (next_unsetted_bit-First (bitmap p) 0 (inl (omega arith))))
]
  where
    none_free :
        next_unsetted_bit (bitmap p) 0 ≡ none → (j : ℕ) → j < p.record_capacity → live p j ≡ true
    none_free e j h =
        let f : First (unset (bitmap p) 0) 0 p.record_capacity none =
          rw e at (next_unsetted_bit-First (bitmap p) 0 (inl (omega arith))) in
        ground (arith, f j)

module _ (p : RecordPage) (src : Memory) (len slot : ℕ) (valid : IsValid p) (bytes : IsBytes src)
    (short : len ≤ p.record_size)
    (f : First (unset (bitmap p) 0) 0 p.record_capacity (some slot)) where
  fill_slot-stored :
      (i : ℕ)
      → i < copied p len
      → (fill_slot p src len slot).content (slot_offset p slot + i) ≡ src i
  unfolding fill_slot
  fill_slot-stored i h = memcpy-inside _ (slot_offset p slot) src (copied p len) i h

  fill_slot-Inserted :
      Inserted p src len
        (fill_slot p src len slot)
        (record { page_num = p.page_num; slot_num = slot })
  fill_slot-Inserted = record {
    in_page = refl;
    within = f.1;
    free = ground (arith, f.2);
    lowest = λ j h. ground (arith, f.3 j);
    lives = fill_slot-live p src len slot valid short;
    stored = unfold fill_slot in fill_slot-stored;
    kept = λ j i ne h. unfold fill_slot in fill_slot-kept p src len slot valid short j i ne f.1 h;
    grown = unfold fill_slot in refl;
    capacity = unfold fill_slot in refl;
    valid = fill_slot-IsValid p src len slot valid short bytes f.1 (ground (arith, f.2));
  }

-- On a valid page that is not full, for data that is no longer than a slot, `insert_record` succeeds.
-- It takes the lowest free slot, and no other slot becomes live or free; the slot holds the bytes
-- that were copied, every other slot keeps its bytes, the record count grows by one, and the page
-- stays valid.
pub insert_record-Inserted :
    (p : RecordPage) (src : Memory) (len : ℕ)
    → IsValid p
    → IsBytes src
    → len ≤ p.record_size
    → p.record_num ≢ p.record_capacity
    → (q : RecordPage) × (rid : Rid) × (insert_record p src len ≡ ok (q, rid))
      × Inserted p src len q rid
unfolding insert_record
insert_record-Inserted p src len valid bytes short room =
    let (slot, found, f) = find_slot p valid room in
    let not_full : (p.record_num == p.record_capacity) ≡ false = ground arith in
    (
      fill_slot p src len slot,
      record { page_num = p.page_num; slot_num = slot },
      rw (not_full, found),
      fill_slot-Inserted p src len slot valid bytes short f,
    )
