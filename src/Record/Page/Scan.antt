-- ===== src/Record/Page/Scan.antt =====
-- `get_next_record` on a page: which record it returns, and when it misses one.
use miniob.Base.{
  ℕ, ◌+◌, ◌*◌, ◌/◌, ◌%◌, ◌<◌, ◌≡◌, ◌≢◌, ◌⊎◌, inl, inr, refl, true, false, arith, leb, ◌==◌, Option,
  none, some, Option-cases, Bool-cases,
}
use miniob.Bitmap.{get_bit, next_setted_bit}
use miniob.Bitmap.Byte.{bit-empty}
use miniob.Bitmap.Search.{First}
use miniob.Bitmap.Next.{next_setted_bit-First, next_setted_bit_misses}
use miniob.Rc.{Outcome, ok, err, fault, record_eof}
use miniob.Record.{Record, page_fix_size}
use miniob.Record.Page.{RecordPage, bitmap, live, record_at, next_slot, get_next_record}

-- The first live slot after the cursor, or the end of the page.
abbrev pub Next : RecordPage → Option ℕ → Outcome Record → Type 0
Next p cursor (ok rec) =
    (rec ≡ record_at p (record { page_num = p.page_num; slot_num = rec.rid.slot_num }))
    × First (live p) (next_slot cursor) p.record_capacity (some rec.rid.slot_num)
Next p cursor (err e) = (e ≡ record_eof) × First (live p) (next_slot cursor) p.record_capacity none
Next p cursor fault = ⊥

-- The cursor stands before the first slot, or on a slot that is live.
abbrev pub AtLive : RecordPage → Option ℕ → Type 0
AtLive p none = Unit {0}
AtLive p (some slot) = live p slot ≡ true

-- A live slot's byte is not zero.
live_byte :
    (p : RecordPage) (slot : ℕ)
    → live p slot ≡ true
    → (p.content (page_fix_size + slot / 8) == 0) ≡ false
unfolding get_bit
live_byte p slot h = elim (Bool-cases (p.content (page_fix_size + slot / 8) == 0)) [
  | inl e ↦ let none_set = bit-empty _ (slot % 8) e (omega arith) in cc
  | inr e ↦ e
]

start_ok :
    (p : RecordPage) (cursor : Option ℕ)
    → AtLive p cursor
    → (next_slot cursor % 8 ≡ 0) ⊎ ((p.content (page_fix_size + next_slot cursor / 8) == 0) ≡ false)
start_ok p none h = inl (omega arith)
start_ok p (some slot) h = elim (Bool-cases ((slot + 1) % 8 == 0)) [
  | inl e ↦ inl (ground arith)
  | inr e ↦
      let same : (slot + 1) / 8 ≡ slot / 8 = ground arith in inr (rw same (live_byte p slot h))
]

-- From the beginning of a page, or from a record of it that is still live, `get_next_record` returns
-- the first live slot after it with its bytes, and RECORD_EOF exactly when there is none.
pub get_next_record-Next :
    (p : RecordPage) (cursor : Option ℕ)
    → AtLive p cursor
    → Next p cursor (get_next_record p cursor)
unfolding get_next_record
get_next_record-Next p cursor h = elim (Bool-cases (leb p.record_capacity (next_slot cursor))) [
  | inl e ↦ rw e (refl, λ j l k. absurd (ground arith))
  | inr e ↦
      let f = next_setted_bit-First (bitmap p) (next_slot cursor) (start_ok p cursor h) in
      elim (Option-cases (next_setted_bit (bitmap p) (next_slot cursor))) [
        | inl n ↦ rw (e, n) (refl, rw n at f)
        | inr (slot, n) ↦ rw (e, n) (refl, rw n at f)
      ]
]

-- After the record under the cursor is deleted and its byte of the bitmap is zero, a record in the
-- next byte whose bit comes before the cursor's next bit is never returned.
get_next_record_misses :
    (p : RecordPage) (slot t : ℕ)
    → (p.content (page_fix_size + (slot + 1) / 8) == 0) ≡ true
    → t < (slot + 1) % 8
    → get_next_record p (some slot)
      ≢ ok (record_at p (record { page_num = p.page_num; slot_num = ((slot + 1) / 8 + 1) * 8 + t }))
unfolding get_next_record
get_next_record_misses p slot t e h =
    ground (arith, next_setted_bit_misses (bitmap p) (slot + 1) t e h)
