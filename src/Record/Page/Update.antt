-- ===== src/Record/Page/Update.antt =====
-- `update_record` and `get_record` on a page.
use miniob.Base.{
  ℕ, ◌+◌, ◌/◌, ◌≤◌, ◌<◌, ◌≡◌, ◌≢◌, ◌⊎◌, ◌∙◌, sym, inl, inr, refl, true, false, arith, leb, Memory,
  IsBytes, memcpy, memcpy-inside, memcpy-outside, memcpy-IsBytes, Bool-cases,
}
use mathlib.Core.Path.{subst}
use miniob.Bitmap.{get_bit}
use miniob.Rc.{Outcome, ok, err, fault, record_record_not_exist, invalid_argument}
use miniob.Record.{Rid, Record, page_fix_size}
use miniob.Record.Page.{
  RecordPage, live, slot_offset, record_at, insert_record, update_record, get_record,
}
use miniob.Record.Page.Invariant.{IsValid, count-congr, byte_within}
use miniob.Record.Page.Insert.{slots_apart, copied, Inserted, insert_record-Inserted}

-- The page after `src` is written over the record in the slot.
pub record Updated (p : RecordPage) (rec : Record) (q : RecordPage) : Type 0 where
  pub found : get_record q rec.rid ≡ ok (record_at q rec.rid)
  pub stored :
      (i : ℕ)
      → i < p.record_real_size
      → q.content (slot_offset q rec.rid.slot_num + i) ≡ rec.bytes i
  pub kept :
      (j i : ℕ)
      → rec.rid.slot_num ≢ j
      → i < p.record_size
      → q.content (slot_offset q j + i) ≡ p.content (slot_offset p j + i)
  pub lives : (j : ℕ) → j < p.record_capacity → live q j ≡ live p j
  pub same_header : q.header ≡ p.header
  pub valid : IsValid q

module _ (p : RecordPage) (rec : Record) (valid : IsValid p) (bytes : IsBytes rec.bytes)
    (within : rec.rid.slot_num < p.record_capacity) (held : live p rec.rid.slot_num ≡ true) where
  abbrev written : RecordPage
  written = record p {
    content = memcpy p.content (slot_offset p rec.rid.slot_num) rec.bytes p.record_real_size;
    dirty = true;
  }

  written-live : (j : ℕ) → j < p.record_capacity → live written j ≡ live p j
  unfolding get_bit
  written-live j h =
      let same =
        memcpy-outside p.content (slot_offset p rec.rid.slot_num) rec.bytes p.record_real_size
          (page_fix_size + j / 8)
          (inl (omega (arith, byte_within j p.record_capacity h, valid.apart))) in
      rw same

  written-get : get_record written rec.rid ≡ ok (record_at written rec.rid)
  unfolding get_record
  written-get =
      let below : leb p.record_capacity rec.rid.slot_num ≡ false = ground arith in
      let lives : live written rec.rid.slot_num ≡ true =
        written-live rec.rid.slot_num within ∙ held in
      rw (below, lives)

  written-Updated : Updated p rec written
  written-Updated = record {
    found = written-get;
    stored = λ i h. memcpy-inside p.content _ rec.bytes p.record_real_size i h;
    kept = λ j i ne h. memcpy-outside p.content _ rec.bytes p.record_real_size _ (
        slots_apart p.first_record_offset p.record_size rec.rid.slot_num j i p.record_real_size ne h
          valid.sized);
    lives = written-live;
    same_header = refl;
    valid = record {
      bytes = memcpy-IsBytes p.content _ rec.bytes p.record_real_size valid.bytes bytes;
      counted =
          valid.counted
          ∙ count-congr (live p) (live written) p.record_capacity (λ j h. sym (written-live j h));
      apart = valid.apart;
      sized = valid.sized;
    };
  }

abbrev pub Updates : RecordPage → Record → Outcome RecordPage → Type 0
Updates p rec (ok q) =
    (rec.rid.slot_num < p.record_capacity) × (live p rec.rid.slot_num ≡ true) × Updated p rec q
Updates p rec (err e) =
    ((p.record_capacity ≤ rec.rid.slot_num) × (e ≡ invalid_argument))
    ⊎ ((rec.rid.slot_num < p.record_capacity)
        × (live p rec.rid.slot_num ≡ false)
        × (e ≡ record_record_not_exist))
Updates p rec fault = ⊥

-- On a valid page `update_record` writes the record exactly when its slot is live and below the
-- capacity: `get_record` then finds the new bytes, every other slot keeps its bytes, which slots are
-- live and the header stay the same, and the page stays valid. Otherwise it returns INVALID_ARGUMENT
-- past the capacity and RECORD_RECORD_NOT_EXIST below.
pub update_record-Updates :
    (p : RecordPage) (rec : Record)
    → IsValid p
    → IsBytes rec.bytes
    → Updates p rec (update_record p rec)
unfolding update_record
update_record-Updates p rec valid bytes =
    elim (Bool-cases (leb p.record_capacity rec.rid.slot_num)) [
      | inl e ↦ rw e (inl (ground arith, refl))
      | inr e ↦ elim (Bool-cases (live p rec.rid.slot_num)) [
        | inl h ↦ rw (e, h) (ground arith, h, written-Updated p rec valid bytes (ground arith) h)
        | inr h ↦ rw (e, h) (inr (ground arith, h, refl))
      ]
    ]

Inserted-get :
    (p q : RecordPage) (src : Memory) (len : ℕ) (rid : Rid)
    → Inserted p src len q rid
    → get_record q rid ≡ ok (record_at q rid)
unfolding get_record
Inserted-get p q src len rid i =
    let below : leb q.record_capacity rid.slot_num ≡ false = ground (arith, i.capacity, i.within) in
    let lives : live q rid.slot_num ≡ true = i.lives rid.slot_num i.within ∙ ground arith in
    rw (below, lives)

ok-injective : {a b : RecordPage × Rid} → ok a ≡ ok b → a ≡ b
ok-injective e = cc

inserted-room :
    (p q : RecordPage) (src : Memory) (len : ℕ) (rid : Rid)
    → insert_record p src len ≡ ok (q, rid)
    → p.record_num ≢ p.record_capacity
unfolding insert_record
inserted-room p q src len rid done full = ground arith

-- On a valid page, for data that is no longer than a slot, `get_record` finds under the identifier
-- that `insert_record` returned the bytes that it stored.
pub get_record-insert_record :
    (p q : RecordPage) (src : Memory) (len : ℕ) (rid : Rid)
    → IsValid p
    → IsBytes src
    → len ≤ p.record_size
    → insert_record p src len ≡ ok (q, rid)
    → (rec : Record) × (get_record q rid ≡ ok rec)
      × ((i : ℕ) → i < copied p len → rec.bytes i ≡ src i)
get_record-insert_record p q src len rid valid bytes short done =
    let (q', rid', e, i) =
      insert_record-Inserted p src len valid bytes short (inserted-room p q src len rid done) in
    let same : ◌≡◌ {A = RecordPage × Rid} (q', rid') (q, rid) = ok-injective (sym e ∙ done) in
    let j : Inserted p src len q rid = subst (λ r. Inserted p src len r.0 r.1) same i in
    (record_at q rid, Inserted-get p q src len rid j, j.stored)
