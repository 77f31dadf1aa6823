-- ===== src/Record/Page/Delete.antt =====
-- `delete_record` and `update_record` on a page.
use miniob.Base.{
  ℕ, ◌+◌, ◌-◌, ◌≤◌, ◌<◌, ◌≡◌, ◌⊎◌, ◌∙◌, inl, inr, refl, true, false, not, ◌&&◌, arith, leb, ◌==◌,
  Bool-cases,
}
use miniob.Bitmap.{clear_bit}
use miniob.Bitmap.Write.{get_bit-clear_bit, clear_bit-IsBytes, clear_bit-outside}
use miniob.Rc.{Outcome, ok, err, fault, record_record_not_exist, invalid_argument}
use miniob.Record.{Rid}
use miniob.Record.Page.{RecordPage, bitmap, live, slot_offset, delete_record, get_record}
use miniob.Record.Page.Invariant.{IsValid, count, count-turn_on, byte_within}

-- The page without the record in `slot`.
pub record Deleted (p : RecordPage) (rid : Rid) (q : RecordPage) : Type 0 where
  pub gone : get_record q rid ≡ err record_record_not_exist
  pub lives : (j : ℕ) → j < p.record_capacity → live q j ≡ (not (rid.slot_num == j) && live p j)
  pub kept : (j i : ℕ) → q.content (slot_offset q j + i) ≡ p.content (slot_offset p j + i)
  pub shrunk : q.record_num + 1 ≡ p.record_num
  pub capacity : q.record_capacity ≡ p.record_capacity
  pub valid : IsValid q

module _ (p : RecordPage) (slot : ℕ) (valid : IsValid p) (within : slot < p.record_capacity)
    (held : live p slot ≡ true) where
  abbrev emptied : RecordPage
  emptied = record p {
    header = record (p.header) { record_num = p.record_num - 1 };
    content = clear_bit (bitmap p) slot;
    dirty = true;
  }

  emptied-live : (j : ℕ) → live emptied j ≡ (not (slot == j) && live p j)
  emptied-live = get_bit-clear_bit (bitmap p) valid.bytes slot

  emptied-counted : count (live p) p.record_capacity ≡ count (live emptied) p.record_capacity + 1
  emptied-counted =
      count-turn_on (live emptied) (live p) p.record_capacity slot within
        (emptied-live slot ∙ ground arith) held (λ j h ne. emptied-live j ∙ rw ne)

  emptied-IsValid : IsValid emptied
  emptied-IsValid = record {
    bytes = clear_bit-IsBytes (bitmap p) valid.bytes slot;
    counted = omega (arith, emptied-counted, valid.counted);
    apart = valid.apart;
    sized = valid.sized;
  }

  emptied-get :
      (page_num : ℕ)
      → get_record emptied (record { page_num = page_num; slot_num = slot })
        ≡ err record_record_not_exist
  unfolding get_record
  emptied-get page_num =
      let dead : live emptied slot ≡ false = emptied-live slot ∙ ground arith in
      let below : leb p.record_capacity slot ≡ false = ground arith in rw (below, dead)

  emptied-Deleted :
      (page_num : ℕ) → Deleted p (record { page_num = page_num; slot_num = slot }) emptied
  emptied-Deleted page_num = record {
    gone = emptied-get page_num;
    lives = λ j h. emptied-live j;
    kept = λ j i.
        clear_bit-outside (bitmap p) slot _
          (omega (arith, byte_within slot p.record_capacity within, valid.apart));
    shrunk = omega (arith, emptied-counted, valid.counted);
    capacity = refl;
    valid = emptied-IsValid;
  }

-- What `delete_record` does for a slot number: past the capacity it is refused, a slot without a
-- record is reported, and a live slot is freed.
abbrev pub Deletes : RecordPage → Rid → Outcome RecordPage → Type 0
Deletes p rid (ok q) =
    (rid.slot_num < p.record_capacity) × (live p rid.slot_num ≡ true) × Deleted p rid q
Deletes p rid (err e) =
    ((p.record_capacity ≤ rid.slot_num) × (e ≡ invalid_argument))
    ⊎ ((rid.slot_num < p.record_capacity)
        × (live p rid.slot_num ≡ false)
        × (e ≡ record_record_not_exist))
Deletes p rid fault = ⊥

-- On a valid page `delete_record` frees the slot exactly when it is live and below the capacity:
-- the record is gone, every other slot keeps its state and its bytes, the count falls by one and
-- the page stays valid. Otherwise it returns INVALID_ARGUMENT past the capacity,
-- RECORD_RECORD_NOT_EXIST below.
pub delete_record-Deletes :
    (p : RecordPage) (rid : Rid) → IsValid p → Deletes p rid (delete_record p rid)
unfolding delete_record
delete_record-Deletes p rid valid = elim (Bool-cases (leb p.record_capacity rid.slot_num)) [
  | inl e ↦ rw e (inl (ground arith, refl))
  | inr e ↦ elim (Bool-cases (live p rid.slot_num)) [
    | inl h ↦
        rw (e, h)
          (ground arith, h, emptied-Deleted p rid.slot_num valid (ground arith) h rid.page_num)
    | inr h ↦ rw (e, h) (inr (ground arith, h, refl))
  ]
]
