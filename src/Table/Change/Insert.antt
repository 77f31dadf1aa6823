-- ===== src/Table/Change/Insert.antt =====
-- The transaction's word in a record that `Table::insert_record` inserts, and the number that the
-- transaction then has.
use miniob.Base.{
  ℕ, ◌<◌, ◌≤◌, ◌≡◌, refl, ◌∙◌, ap, ◌⊎◌, inr, Bool, true, ◌||◌, Option, none, some, ◌==◌,
  if◌then◌else◌, Memory, IsBytes, write_u32-IsBytes, arith, read_u32,
}
use miniob.Rc.{Rc, ok, success, is_success}
use miniob.Record.{Rid, Record}
use miniob.Record.Page.{RecordPage}
use miniob.Record.File
use miniob.Record.File.{RecordFile, fixed_size}
use miniob.Record.File.Search.{Handled}
use miniob.Record.File.Room.{IsLaidOut}
use miniob.Record.File.Insert.{Stored, insert_record-Stored}
use miniob.Record.File.Reads.{get_record-Placed}
use miniob.Trx
use miniob.Trx.{
  OperationType, Trx, init_trx_info, is_visible, find_operation, next_trx_id, start_if_not_started,
}
use miniob.Table.Change.{
  IndexOps, Table, Session, Done, insert_entry_of_indexes, inserted, insert_stored, marked,
  log_insert, insert_indexed, insert_logged, insert_record,
}
use miniob.Table.Change.Marks.{marked-is_visible, logged, queued}

-- Two records that agree on their first four bytes have the same word.
word-agree : (a b : Memory) → ((i : ℕ) → i < 4 → a i ≡ b i) → read_u32 a 0 ≡ read_u32 b 0
unfolding read_u32
word-agree a b h = ground (arith, h 0, h 1, h 2, h 3)

started-trx_id :
    (trx : Trx) (last : ℕ)
    → (start_if_not_started trx last).0.trx_id
      ≡ (if trx.trx_id == 0 then next_trx_id last else trx.trx_id)
unfolding start_if_not_started
started-trx_id trx last = ground arith

numbered :
    (trx : Trx) (last table_id : ℕ) (rid : Rid)
    → find_operation trx.operations table_id rid ≡ none
    → (Trx.insert_record trx last table_id rid 0).trx.trx_id
      ≡ (if trx.trx_id == 0 then next_trx_id last else trx.trx_id)
unfolding Trx.insert_record
numbered trx last table_id rid f = rw (f, Trx.insert_record) (started-trx_id trx last)

module _ (ops : IndexOps) (is_pinned : ℕ → Bool) (table_id : ℕ)
    (allocate_page : RecordFile → Rc ⊎ (RecordPage × ℕ))
    (allocated : (f : RecordFile) (page : RecordPage) (count : ℕ)
      → allocate_page f ≡ inr (page, count)
      → IsBytes page.content) where
  -- The record in the file has the transaction's old number, by which others see it or not; the
  -- transaction has a number, and the INSERT in its queue.
  abbrev pub Numbered : Trx → ℕ → Rid → Option (Done ops) → Type 0
  Numbered trx last rid none = ⊥
  Numbered trx last rid (some (rc, after, session)) =
      (rc ≡ success)
      × ((rec : Record) × (File.get_record after.file rid ≡ ok (some rec))
          × ((other : Trx)
              → is_visible other (read_u32 rec.bytes 0)
                ≡ (trx.trx_id == 0 || trx.trx_id == other.trx_id)))
      × ((trx' : Trx) × (session.trx ≡ some trx')
          × (trx'.trx_id ≡ (if trx.trx_id == 0 then next_trx_id last else trx.trx_id))
          × (find_operation trx'.operations table_id rid ≡ some OperationType.insert))

  module _ (table : Table ops) (session : Session) (trx : Trx) (src : Memory) (size : ℕ) (rid : Rid)
      (file : RecordFile) (running : session.trx ≡ some trx) where
    abbrev rec : Memory
    rec = marked ops (some trx) src

    abbrev filed_table : Table ops
    filed_table = record table { file = file }

    is_success-eq : (rc : Rc) → is_success rc ≡ true → rc ≡ success
    unfolding is_success
    is_success-eq rc h = ground arith

    abbrev indexed : Rc × Table ops
    indexed = insert_entry_of_indexes ops filed_table rec rid

    logs :
        find_operation trx.operations table_id rid ≡ none
        → is_success indexed.0 ≡ true
        → insert_logged ops is_pinned table_id filed_table session rec rid
          ≡ some (indexed.0, indexed.1, (log_insert ops session table_id rid).1)
    unfolding insert_logged insert_indexed
    logs new taken = rw (logged ops table_id session trx rid running new, taken) refl

    inserts :
        File.insert_record allocate_page table.file rec size ≡ some (ok (some rid), file)
        → find_operation trx.operations table_id rid ≡ none
        → is_success indexed.0 ≡ true
        → insert_record ops is_pinned table_id allocate_page table session src size
          ≡ some (indexed.0, indexed.1, (log_insert ops session table_id rid).1)
    unfolding insert_record
    inserts filed new taken =
        ap
          (λ t.
            insert_stored ops is_pinned table_id table session (marked ops t src)
              (inserted (File.insert_record allocate_page table.file (marked ops t src) size)))
          running
        ∙ ap (λ r. insert_stored ops is_pinned table_id table session rec (inserted r)) filed
        ∙ logs new taken

    -- `insert_record` of a record of 9 to 4056 bytes for a transaction, under the conditions under which
    -- `RecordFileHandler::insert_record` is proved to store it, if the file takes the record, the
    -- transaction has no operation for its identifier, and the indexes take its entries. It succeeds, and
    -- `get_record` finds a record whose word another transaction sees if and only if that one is the
    -- transaction itself or the transaction had no number before. Only afterwards it has one, the next of
    -- the shared counter, with the INSERT in its queue. So what a transaction inserts first is visible to
    -- all before the commit. The number that it had is below 2 ^ 31.
    pub insert_record-Numbered :
        trx.trx_id < 2147483648
        → Handled table.file
        → ((n : ℕ) (page : RecordPage)
            → table.file.pages n ≡ inr page
            → IsLaidOut page × (page.page_num ≡ n) × (page.record_real_size ≡ size))
        → IsBytes src
        → 8 < size
        → size ≤ fixed_size
        → File.insert_record allocate_page table.file rec size ≡ some (ok (some rid), file)
        → find_operation trx.operations table_id rid ≡ none
        → is_success indexed.0 ≡ true
        → Numbered trx session.last_id rid
            (insert_record ops is_pinned table_id allocate_page table session src size)
    unfolding insert_entry_of_indexes
    insert_record-Numbered small handled laid bytes long short filed new taken =
        let placed : Stored allocate_page table.file rec size (some (ok (some rid), file)) =
          rw filed at (
            insert_record-Stored allocate_page allocated table.file rec size handled laid
              (write_u32-IsBytes src 0 (init_trx_info trx) bytes) long short) in
        let (found, e, same) =
          get_record-Placed allocate_page table.file file rec size rid laid placed in
        rw (inserts filed new taken) (
          is_success-eq _ taken,
          (
            found,
            e,
            λ other.
                ap (is_visible other) (word-agree found.bytes rec (λ i h. same i (omega arith)))
                ∙ marked-is_visible ops trx other src small,
          ),
          (
            (Trx.insert_record trx session.last_id table_id rid 0).trx,
            rw running refl,
            numbered trx session.last_id table_id rid new,
            (queued trx session.last_id table_id rid new).1,
          ),
        )
