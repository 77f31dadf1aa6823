-- ===== src/Table/Change/Marks.antt =====
-- What a change of a record leaves of the transaction: the word in the record and the queue.
use miniob.Base.{
  ℕ, ◌<◌, ◌≡◌, refl, ap, ◌∙◌, Bool, true, false, ◌||◌, Option, none, some, List, ◌==◌,
  if◌then◌else◌, Memory, arith, read_u32, read-write_u32,
}
use miniob.Rc.{Rc, Outcome, ok, err, fault, success, is_success}
use miniob.Record.{Rid, Record}
use miniob.Record.File
use miniob.Record.File.{RecordFile}
use miniob.Trx
use miniob.Trx.{
  OperationType, OperationSet, Trx, init_trx_info, is_visible, get_record_trx_id, set_record_trx_id,
  find_operation, insert_operation, start_if_not_started,
}
use miniob.Trx.Queue.{find-insert_operation, rid_equal_refl}
use miniob.Table.Change.{
  IndexOps, Table, Session, Done, insert_entry_of_indexes, delete_entry_of_indexes, stored_as,
  file_after, taken_back, marked, log_insert, then_log_update, insert_indexed, insert_logged,
  update_record,
}

word_visible :
    (trx other : Trx)
    → trx.trx_id < 2147483648
    → is_visible other (set_record_trx_id trx.trx_id false)
      ≡ (trx.trx_id == 0 || trx.trx_id == other.trx_id)
unfolding is_visible get_record_trx_id set_record_trx_id
word_visible trx other small = ground arith

word_small : (trx : Trx) → trx.trx_id < 2147483648 → set_record_trx_id trx.trx_id false < 4294967296
unfolding set_record_trx_id
word_small trx small = omega arith

-- A transaction sees the word that `insert_record` puts into a record if and only if it is the
-- transaction that inserts it, or that one has no number yet.
pub marked-is_visible :
    (ops : IndexOps) (trx other : Trx) (src : Memory)
    → trx.trx_id < 2147483648
    → is_visible other (read_u32 (marked ops (some trx) src) 0)
      ≡ (trx.trx_id == 0 || trx.trx_id == other.trx_id)
unfolding init_trx_info
marked-is_visible ops trx other src small =
    ap (is_visible other)
      (read-write_u32 src 0 (set_record_trx_id trx.trx_id false) (word_small trx small))
    ∙ word_visible trx other small

-- The table of a result.
abbrev pub table_of : (ops : IndexOps) → Option (Done ops) → Option (Table ops)
table_of ops none = none
table_of ops (some (rc, table, session)) = some table

same_if :
    (ops : IndexOps) (b : Bool) (x y x' y' : Option (Done ops))
    → table_of ops x ≡ table_of ops x'
    → table_of ops y ≡ table_of ops y'
    → table_of ops (if b then x else y) ≡ table_of ops (if b then x' else y')
same_if ops true x y x' y' e f = e
same_if ops false x y x' y' e f = f

start-operations :
    (trx : Trx) (last : ℕ) → (start_if_not_started trx last).0.operations ≡ trx.operations
unfolding start_if_not_started
start-operations trx last = ground arith

find-inserted :
    (q : List (ℕ × OperationSet)) (table_id : ℕ) (rid : Rid)
    → find_operation q table_id rid ≡ none
    → find_operation (insert_operation q table_id OperationType.insert rid) table_id rid
      ≡ some OperationType.insert
find-inserted q table_id rid f = ground (
  arith,
  find-insert_operation q table_id table_id OperationType.insert rid rid,
  rid_equal_refl rid,
)

-- A transaction that has no operation for an identifier queues the INSERT.
pub queued :
    (trx : Trx) (last table_id : ℕ) (rid : Rid)
    → find_operation trx.operations table_id rid ≡ none
    → ((Trx.insert_record trx last table_id rid 0).rc ≡ success)
      × (find_operation (Trx.insert_record trx last table_id rid 0).trx.operations table_id rid
          ≡ some OperationType.insert)
unfolding Trx.insert_record
queued trx last table_id rid f =
    rw (f, Trx.insert_record)
      (
        refl,
        ap (λ q. find_operation (insert_operation q table_id OperationType.insert rid) table_id rid)
              (start-operations trx last)
            ∙ find-inserted trx.operations table_id rid f,
      )

module _ (ops : IndexOps) (table_id : ℕ) where
  then_log_update-table :
      (rid : Rid) (table : Table ops) (s t : Session) (stored : Option (Rc × RecordFile))
      → table_of ops (then_log_update ops table_id rid (stored_as ops table s stored))
        ≡ table_of ops (then_log_update ops table_id rid (stored_as ops table t stored))
  then_log_update-table rid table s t none = refl
  then_log_update-table rid table s t (some (rc, file)) =
      same_if ops (is_success rc) _ _ _ _ refl refl

  -- An update leaves the same table, its record file and its indexes, in every transaction and in none:
  -- the transaction's word goes into the buffer that has been copied into the file, and no record in
  -- the file is ever marked as updated.
  pub update_record-unmarked :
      (table : Table ops) (s t : Session) (old_record new_record : Record)
      → table_of ops (update_record ops table_id table s old_record new_record)
        ≡ table_of ops (update_record ops table_id table t old_record new_record)
  unfolding update_record
  update_record-unmarked table s t old_record new_record =
      same_if ops (is_success _) _ _ _ _
        (same_if ops (is_success _) _ _ _ _
          (then_log_update-table new_record.rid
            (insert_entry_of_indexes ops
              (delete_entry_of_indexes ops table old_record.bytes old_record.rid false).1
              new_record.bytes new_record.rid).1
            s t _)
          refl)
        refl

  pub logged :
      (session : Session) (trx : Trx) (rid : Rid)
      → session.trx ≡ some trx
      → find_operation trx.operations table_id rid ≡ none
      → is_success (log_insert ops session table_id rid).0 ≡ true
  unfolding is_success
  logged session trx rid t f = rw (t, (queued trx session.last_id table_id rid f).0) refl

  left_queued :
      (session : Session) (trx : Trx) (rid : Rid)
      → session.trx ≡ some trx
      → find_operation trx.operations table_id rid ≡ none
      → (after : Trx) × ((log_insert ops session table_id rid).1.trx ≡ some after)
        × (find_operation after.operations table_id rid ≡ some OperationType.insert)
  left_queued session trx rid t f = (
    (Trx.insert_record trx session.last_id table_id rid 0).trx,
    rw t refl,
    (queued trx session.last_id table_id rid f).1,
  )

  module _ (is_pinned : ℕ → Bool) where
    -- The table after the entries that the indexes took are deleted again, from the other indexes only.
    abbrev pub unindexed : Table ops → Memory → Rid → Table ops
    unindexed table rec rid =
        (delete_entry_of_indexes ops (insert_entry_of_indexes ops table rec rid).1 rec rid true).1

    -- What is left of a refused insertion: the code, the record file after the deletion of the record, an
    -- INSERT in the transaction's queue, in the unique indexes whatever they took, and in the others what
    -- the deletion left. It has no defined end if the deletion of the record has none.
    abbrev pub LeftBehind : Table ops → Memory → Rid → Option (Done ops) → Type 0
    LeftBehind table rec rid none = File.delete_record is_pinned table.file rid ≡ fault
    LeftBehind table rec rid (some (rc, after, session)) =
        (rc ≡ (insert_entry_of_indexes ops table rec rid).0)
        × ((rc' : Rc) × (file_after table.file (File.delete_record is_pinned table.file rid)
              ≡ some (rc', after.file)))
        × (after.indexes ≡ (unindexed table rec rid).indexes)
        × (after.unique_indexes ≡ (insert_entry_of_indexes ops table rec rid).1.unique_indexes)
        × ((trx : Trx) × (session.trx ≡ some trx)
            × (find_operation trx.operations table_id rid ≡ some OperationType.insert))

    taken_back-LeftBehind :
        (table : Table ops) (session : Session) (rec : Memory) (rid : Rid) (r : Outcome RecordFile)
        → File.delete_record is_pinned table.file rid ≡ r
        → ((trx : Trx) × (session.trx ≡ some trx)
            × (find_operation trx.operations table_id rid ≡ some OperationType.insert))
        → LeftBehind table rec rid (
            taken_back ops
              (insert_entry_of_indexes ops table rec rid).0
              (unindexed table rec rid)
              session
              (file_after table.file r))
    unfolding delete_entry_of_indexes
    taken_back-LeftBehind table session rec rid (ok file) e q =
        (refl, (success, rw e refl), refl, refl, q)
    taken_back-LeftBehind table session rec rid (err rc) e q =
        (refl, (rc, rw e refl), refl, refl, q)
    taken_back-LeftBehind table session rec rid fault e q = e

    -- After a transaction's record is stored and an index refuses its entry, `insert_record` calls
    -- `delete_entry_of_indexes` and then `delete_record` for the record, and returns the index's code. The
    -- other indexes and the file are as these two calls leave them; but the unique indexes keep the entries
    -- that they took before the one that refused, and the INSERT stays in the transaction's queue. It ends
    -- unless `delete_record` has no defined end. The record's identifier has no operation in the queue
    -- before.
    pub insert_logged-LeftBehind :
        (table : Table ops) (session : Session) (trx : Trx) (rec : Memory) (rid : Rid)
        → session.trx ≡ some trx
        → find_operation trx.operations table_id rid ≡ none
        → is_success (insert_entry_of_indexes ops table rec rid).0 ≡ false
        → LeftBehind table rec rid (insert_logged ops is_pinned table_id table session rec rid)
    unfolding insert_logged insert_indexed delete_entry_of_indexes insert_entry_of_indexes
    insert_logged-LeftBehind table session trx rec rid t f r =
        rw (logged session trx rid t f, r)
          (taken_back-LeftBehind table (log_insert ops session table_id rid).1 rec rid
            (File.delete_record is_pinned table.file rid) refl (left_queued session trx rid t f))
