-- ===== src/Record/File/Room.antt =====
-- `RecordFileHandler::insert_record` on one page that has room, and a page that is new.
use native.Mathlib.Nat.{mul-le-mul_right, le-div_iff_mul-le}
use miniob.Base.{
  ℕ, ◌+◌, ◌-◌, ◌*◌, ◌/◌, ◌<◌, ◌≤◌, ◌≡◌, ◌≢◌, inr, refl, ◌&&◌, Bool, true, false, some, leb, le→leb,
  if◌then◌else◌, arith, Memory, IsBytes,
}
use miniob.Rc.{ok, fault}
use miniob.Record.{Rid, align8, page_record_capacity, page_data_size}
use miniob.Record.Layout.{slots_fit}
use miniob.Record.Page.{RecordPage, is_full, init_empty_page}
use miniob.Record.Page.Invariant.{IsValid, init_empty-IsValid}
use miniob.Record.Page.Insert.{Inserted, insert_record-Inserted}
use miniob.Record.File.{
  RecordFile, Pages, put_page, held_page, insert_here, ends_inside, copy_length, fixed_size,
}

-- A page whose slots end inside its data.
abbrev pub IsLaidOut : RecordPage → Type 0
IsLaidOut page =
    IsValid page
    × (page.first_record_offset + page.record_capacity * page.record_size ≤ page_data_size)

-- A page with room has fewer records than its capacity.
has_room : (page : RecordPage) → is_full page ≡ false → page.record_num ≢ page.record_capacity
unfolding is_full
has_room page h e = ground arith

-- The copy into a slot of the page ends inside its data.
slot_inside :
    (page : RecordPage) (slot : ℕ)
    → IsLaidOut page
    → slot < page.record_capacity
    → ends_inside page slot 0 ≡ true
slot_inside page slot (valid, fits) below =
    let step : (slot + 1) * page.record_size ≤ page.record_capacity * page.record_size =
      mul-le-mul_right page.record_size (omega arith) in
    le→leb _ _ (omega (arith, step, valid.sized))

-- The three tests of `stored_in` hold.
all_hold :
    {A : Type 0} (a b c : Bool) (x y : A)
    → a ≡ true
    → b ≡ true
    → c ≡ true
    → (if a && b && c then x else y) ≡ x
all_hold a b c x y p q r = rw (p, q, r)

pub held_page-some :
    (file : RecordFile) (h : ℕ) (page : RecordPage)
    → file.held ≡ some h
    → file.pages h ≡ inr page
    → held_page file ≡ some page
unfolding held_page
held_page-some file h page held there = rw (held, there, held_page)

-- The record goes into the page that the handler holds, and nowhere else.
pub insert_here-Inserted :
    (file : RecordFile) (src : Memory) (size : ℕ) (page : RecordPage)
    → held_page file ≡ some page
    → file.attached ≡ true
    → is_full page ≡ false
    → IsLaidOut page
    → page.record_real_size ≡ size
    → IsBytes src
    → (q : RecordPage) × (rid : Rid) × Inserted page src 0 q rid
      × (insert_here file src 0 size
          ≡ (ok rid, record file { pages = put_page file.pages rid.page_num q }))
unfolding insert_here
insert_here-Inserted file src size page held attached room laid real bytes =
    let (q, rid, done, inserted) =
      insert_record-Inserted page src 0 laid.0 bytes zero-le (has_room page room) in
    let inside = slot_inside page rid.slot_num laid inserted.within in
    (
      q,
      rid,
      inserted,
      rw (held, insert_here, done)
          (all_hold file.attached (ends_inside page rid.slot_num 0) (leb (copy_length page 0) size)
            (ok rid, record file { pages = put_page file.pages rid.page_num q }) (fault, file)
            attached inside (le→leb _ _ (omega (arith, real)))),
    )
  where
    zero-le : 0 ≤ page.record_size
    zero-le = omega arith

-- A page laid out for records of `size` bytes.
pub fresh_laid :
    (page : RecordPage) (size : ℕ)
    → IsBytes page.content
    → 8 < size
    → size ≤ fixed_size
    → IsLaidOut (init_empty_page page size)
unfolding init_empty_page
fresh_laid page size bytes long small =
    (init_empty-IsValid page size bytes, (slots_fit size (omega arith) small).1 long)

align8_bound : (size : ℕ) → size ≤ fixed_size → align8 size ≤ fixed_size
unfolding align8
align8_bound size small = ground arith

pub fresh_room :
    (page : RecordPage) (size : ℕ) → size ≤ fixed_size → is_full (init_empty_page page size) ≡ false
unfolding is_full init_empty_page page_record_capacity
fresh_room page size small =
    let bound : align8 size ≤ 4056 = align8_bound size small in
    let one : 1 ≤ (page_data_size - 20 - 1) * 8 / (align8 size * 8 + 1) =
      (le-div_iff_mul-le (omega arith)).1 (omega (arith, bound)) in
    ground (arith, one)

pub put_page_self : (pages : Pages) (n : ℕ) (page : RecordPage) → put_page pages n page n ≡ inr page
put_page_self pages n page = ground arith

pub put_page-put :
    (pages : Pages) (n m : ℕ) (a b : RecordPage) (j : ℕ)
    → m ≡ n
    → put_page (put_page pages n a) m b j ≡ put_page pages m b j
put_page-put pages n m a b j e = ground arith

pub fresh-page_num :
    (page : RecordPage) (size : ℕ) → (init_empty_page page size).page_num ≡ page.page_num
unfolding init_empty_page
fresh-page_num page size = refl

pub fresh-real_size :
    (page : RecordPage) (size : ℕ) → (init_empty_page page size).record_real_size ≡ size
unfolding init_empty_page
fresh-real_size page size = refl
