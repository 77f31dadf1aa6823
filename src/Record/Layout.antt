-- ===== src/Record/Layout.antt =====
-- Whether the slots that `init_empty_page` lays out stay within the page's data.
use miniob.Base.{
  ℕ, ◌+◌, ◌*◌, ◌/◌, ◌≤◌, ◌<◌, ◌≡◌, refl, ap, Bool, true, false, ◌||◌, arith, ltb, leb, ◌==◌, leb→le,
  ltb→lt, all_below, all_below_sound, Bool-cases, inl, inr, ◌↔◌,
}
use mathlib.Core.Path.{subst}
use miniob.Record.{align8, page_record_capacity, page_header_size, page_data_size}

-- The first byte after the last slot of a page for records of `size` bytes.
abbrev pub slots_end : ℕ → ℕ
slots_end size =
    let phy = align8 size in
    let capacity = page_record_capacity page_data_size phy in
    page_header_size capacity + capacity * phy

-- `align8 size` in units of eight bytes.
abbrev units_end : ℕ → ℕ
units_end k =
    let capacity = page_record_capacity page_data_size (k * 8) in
    page_header_size capacity + capacity * (k * 8)

abbrev fits_case : ℕ → Bool
fits_case k = (k == 0) || (k == 1) || leb (units_end k) page_data_size

fits_table : all_below 508 fits_case ≡ true
unfolding all_below page_record_capacity page_header_size
fits_table = refl

align8-units : (size : ℕ) → align8 size ≡ (size + 7) / 8 * 8
unfolding align8
align8-units size = ground arith

slots_end-units : (size : ℕ) → slots_end size ≡ units_end ((size + 7) / 8)
slots_end-units size =
    ap
      (λ phy.
        let capacity = page_record_capacity page_data_size phy in
        page_header_size capacity + capacity * phy)
      (align8-units size)

units_end-one : units_end 1 ≡ 4096
unfolding page_record_capacity page_header_size
units_end-one = refl

fits_unless : {k : ℕ} → fits_case k ≡ true → 1 < k → units_end k ≤ page_data_size
fits_unless {k} h two =
    leb→le (units_end k) page_data_size (unless (k == 0) (k == 1) _ (ground arith) (ground arith) h)
  where
    unless : (a b c : Bool) → a ≡ false → b ≡ false → (a || b || c) ≡ true → c ≡ true
    unless a b c p q r = ground arith

-- For every record size that a page is laid out for, the slots fit in the page's data exactly when
-- the record is longer than eight bytes.
pub slots_fit : (size : ℕ) → 0 < size → size ≤ 4056 → (slots_end size ≤ page_data_size) ↔ (8 < size)
slots_fit size pos small = rw (slots_end-units size) (too_short, long_enough)
  where
    k : ℕ
    k = (size + 7) / 8

    too_short : units_end k ≤ page_data_size → 8 < size
    too_short h = elim (Bool-cases (ltb 8 size)) [
      | inl t ↦ ltb→lt 8 size t
      | inr t ↦
          let one : k ≡ 1 = ground arith in
          let h' : units_end 1 ≤ page_data_size = subst (λ n. units_end n ≤ page_data_size) one h in
          absurd (omega (arith, units_end-one))
    ]

    long_enough : 8 < size → units_end k ≤ page_data_size
    long_enough h =
        fits_unless (all_below_sound 508 fits_case k fits_table (omega arith)) (omega arith)

abbrev room_case : ℕ → Bool
room_case k = ltb 0 (page_record_capacity page_data_size (k * 8))

room_table : all_below 508 room_case ≡ true
unfolding all_below page_record_capacity
room_table = refl

-- A page for a record of a size from 1 to 4056 has room for at least one.
pub capacity_pos : (size : ℕ) → size ≤ 4056 → 0 < page_record_capacity page_data_size (align8 size)
unfolding page_record_capacity
capacity_pos size small =
    rw (align8-units size)
      (ltb→lt 0 _ (all_below_sound 508 room_case ((size + 7) / 8) room_table (omega arith)))
