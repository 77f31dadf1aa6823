-- ===== src/Table/Change.antt =====
-- How src/observer/storage/common/table.cpp inserts, updates and deletes a record, in its record file, in
-- the indexes and in the transaction. An `Index` is a virtual class: its two operations are a
-- parameter. A result is `none` when a call has no defined behaviour.
pub mod Marks
pub mod Entries
pub mod Insert
use miniob.Base.{
  ℕ, ◌⊎◌, Bool, true, false, not, ◌&&◌, ◌||◌, Option, none, some, List, [], ◌∷◌, if◌then◌else◌,
  Memory, read_u32, write_u32,
}
use miniob.Rc.{Rc, Outcome, ok, err, fault, success, record_invalid_key, is_success}
use miniob.Record.{Rid, Record}
use miniob.Record.File
use miniob.Record.File.{RecordFile, Reply}
use miniob.Record.Page.{RecordPage}
use miniob.Trx
use miniob.Trx.{Trx, Step, init_trx_info}

-- index.h: what an index returns for a record's bytes and identifier, and the index after it.
pub record IndexOps : Type 1 where
  pub Index : Type 0
  pub insert_entry : Index → Memory → Rid → Rc × Index
  pub delete_entry : Index → Memory → Rid → Rc × Index

pub record Table (ops : IndexOps) : Type 0 where
  pub file : RecordFile
  pub indexes : List (IndexOps.Index ops)
  pub unique_indexes : List (IndexOps.Index ops)

-- The session's transaction, or no transaction, and the counter that all transactions share.
pub record Session : Type 0 where
  pub trx : Option Trx
  pub last_id : ℕ

-- What an operation returns, and the table and the session after it.
abbrev pub Done : IndexOps → Type 0
Done ops = Rc × Table ops × Session

-- The file after a call that returned an error is the one before it.
abbrev pub file_after : RecordFile → Outcome RecordFile → Option (Rc × RecordFile)
file_after file (ok after) = some (success, after)
file_after file (err rc) = some (rc, file)
file_after file fault = none

abbrev pub inserted : Option (Reply (Option Rid)) → Option (Outcome Rid × RecordFile)
inserted (some (ok (some rid), file)) = some (ok rid, file)
inserted (some (err rc, file)) = some (err rc, file)
inserted _ = none

abbrev pub is_invalid_key : Rc → Bool
is_invalid_key record_invalid_key = true
is_invalid_key _ = false

module _ (ops : IndexOps) where
  open ops use {Index, insert_entry, delete_entry}

  -- One of the two loops of `insert_entry_of_indexes`, from the code before it.
  unfoldable pub insert_entries : List Index → Memory → Rid → Rc → Rc × List Index
  insert_entries [] rec rid rc = (rc, [])
  insert_entries (index ∷ indexes) rec rid rc =
      let (rc', index') = insert_entry index rec rid in
      let (last, indexes') = insert_entries indexes rec rid rc' in
      if is_success rc' then (last, index' ∷ indexes') else (rc', index' ∷ indexes)

  -- The second loop runs whatever the first one ends with, and starts from its code.
  unfoldable pub insert_entry_of_indexes : Table ops → Memory → Rid → Rc × Table ops
  insert_entry_of_indexes table rec rid =
      let (rc, indexes') = insert_entries table.indexes rec rid success in
      let (rc', unique') = insert_entries table.unique_indexes rec rid rc in
      (rc', record table { indexes = indexes'; unique_indexes = unique' })

  unfoldable pub delete_entries : List Index → Memory → Rid → Bool → Rc → Rc × List Index
  delete_entries [] rec rid error_on_not_exists rc = (rc, [])
  delete_entries (index ∷ indexes) rec rid error_on_not_exists rc =
      let (rc', index') = delete_entry index rec rid in
      let (last, indexes') = delete_entries indexes rec rid error_on_not_exists rc' in
      if not (is_success rc') && (not (is_invalid_key rc') || not error_on_not_exists)
      then (rc', index' ∷ indexes)
      else (last, index' ∷ indexes')

  -- There is no loop over the unique indexes.
  unfoldable pub delete_entry_of_indexes : Table ops → Memory → Rid → Bool → Rc × Table ops
  delete_entry_of_indexes table rec rid error_on_not_exists =
      let (rc, indexes') = delete_entries table.indexes rec rid error_on_not_exists success in
      (rc, record table { indexes = indexes' })

  abbrev pub stored_as : Table ops → Session → Option (Rc × RecordFile) → Option (Done ops)
  stored_as table session none = none
  stored_as table session (some (rc, file)) = some (rc, record table { file = file }, session)

  abbrev pub with_bytes : Memory → Option (Done ops) → Option (Done ops × Memory)
  with_bytes bytes none = none
  with_bytes bytes (some done) = some (done, bytes)

  -- `record_handler_->delete_record` after an error; its own error is logged, and `rc` returned.
  abbrev pub taken_back : Rc → Table ops → Session → Option (Rc × RecordFile) → Option (Done ops)
  taken_back rc table session none = none
  taken_back rc table session (some (_, file)) = some (rc, record table { file = file }, session)

  -- The transaction's word in the record, if there is a transaction.
  abbrev pub marked : Option Trx → Memory → Memory
  marked none src = src
  marked (some trx) src = write_u32 src 0 (init_trx_info trx)

  -- The call of `trx->insert_record`.
  abbrev pub log_insert : Session → ℕ → Rid → Rc × Session
  log_insert session table_id rid = elim (session.trx) [
    | none ↦ (success, session)
    | some trx ↦
        let step = Trx.insert_record trx session.last_id table_id rid 0 in
        (step.rc, record { trx = some step.trx; last_id = step.last_id })
  ]

  -- The call of `trx->update_record`; the word goes into the caller's copy of the record.
  abbrev pub log_update : Session → ℕ → Rid → Rc × Session
  log_update session table_id rid = elim (session.trx) [
    | none ↦ (success, session)
    | some trx ↦
        let step = Trx.update_record trx session.last_id table_id rid 0 in
        (step.rc, record { trx = some step.trx; last_id = step.last_id })
  ]

  module _ (is_pinned : ℕ → Bool) (table_id : ℕ) where
    -- From the insertion into the indexes on.
    unfoldable pub insert_indexed : Table ops → Session → Memory → Rid → Option (Done ops)
    insert_indexed table session rec rid =
        let (rc, after) = insert_entry_of_indexes table rec rid in
        let (_, undone) = delete_entry_of_indexes after rec rid true in
        let back =
          taken_back rc undone session
            (file_after undone.file (File.delete_record is_pinned undone.file rid)) in
        if is_success rc then some (rc, after, session) else back

    -- From the insertion into the transaction on.
    unfoldable pub insert_logged : Table ops → Session → Memory → Rid → Option (Done ops)
    insert_logged table session rec rid =
        let (rc, after) = log_insert session table_id rid in
        let back =
          taken_back rc table after
            (file_after table.file (File.delete_record is_pinned table.file rid)) in
        let rest = insert_indexed table after rec rid in if is_success rc then rest else back

    abbrev pub insert_stored :
        Table ops → Session → Memory → Option (Outcome Rid × RecordFile) → Option (Done ops)
    insert_stored table session rec (some (ok rid, file)) =
        insert_logged (record table { file = file }) session rec rid
    insert_stored table session rec (some (err rc, file)) =
        some (rc, record table { file = file }, session)
    insert_stored table session rec _ = none

    -- `insert_record(Trx *, Record *)`
    unfoldable pub insert_record :
        (RecordFile → Rc ⊎ (RecordPage × ℕ)) → Table ops → Session → Memory → ℕ → Option (Done ops)
    insert_record allocate_page table session src record_size =
        let rec = marked session.trx src in
        insert_stored table session rec
          (inserted (File.insert_record allocate_page table.file rec record_size))

  module _ (table_id : ℕ) where
    abbrev pub then_log_update : Rid → Option (Done ops) → Option (Done ops)
    then_log_update rid none = none
    then_log_update rid (some (rc, table, session)) =
        let (rc', session') = log_update session table_id rid in
        if is_success rc then some (rc', table, session') else some (rc, table, session)

    -- `update_record(Trx *, Record *, Record *)`
    unfoldable pub update_record : Table ops → Session → Record → Record → Option (Done ops)
    update_record table session old_record new_record =
        let (rc, unindexed) = delete_entry_of_indexes table old_record.bytes old_record.rid false in
        let (rc', indexed) = insert_entry_of_indexes unindexed new_record.bytes new_record.rid in
        let stored = then_log_update new_record.rid (
          stored_as indexed session
            (file_after indexed.file (File.update_record indexed.file new_record))) in
        if is_success rc
        then if is_success rc' then stored else some (rc', indexed, session)
        else some (rc, unindexed, session)

  -- `delete_record(Trx *, Record *)` of a record of one part, with the record's bytes after it: the
  -- transaction writes its word into them, where they are.
  module _ (is_pinned : ℕ → Bool) (table_id : ℕ) where
    unfoldable pub delete_record : Table ops → Session → Record → Option (Done ops × Memory)
    delete_record table session rec = elim (session.trx) [
      | some trx ↦
          let step =
            Trx.delete_record trx session.last_id table_id (rec.rid ∷ []) (read_u32 rec.bytes 0) in
          some (
            (step.rc, table, record { trx = some step.trx; last_id = step.last_id }),
            write_u32 rec.bytes 0 step.word,
          )
      | none ↦
          let (rc, unindexed) = delete_entry_of_indexes table rec.bytes rec.rid false in
          let deleted =
            stored_as unindexed session
              (file_after unindexed.file (File.delete_record is_pinned unindexed.file rec.rid)) in
          with_bytes rec.bytes (if is_success rc then deleted else some (rc, unindexed, session))
    ]
