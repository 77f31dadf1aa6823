-- ===== src/Table/Scan.antt =====
-- The two scans of src/observer/storage/common/table.cpp. The records or entries that the scanner
-- answers are a list, with the code that ends it; the reader keeps a state of its own. Left out are the
-- list `rollback_rids`, and a scanner that cannot be opened.
pub mod Limit
use miniob.Base.{
  ℕ, zero, suc, ◌+◌, ◌-◌, ◌/◌, ◌%◌, ◌^◌, ltb, leb, ◌==◌, Bool, true, false, ◌&&◌, ◌⊎◌, inl, inr,
  Option, none, some, List, [], ◌∷◌, if◌then◌else◌, Memory, memcpy,
}
use miniob.Rc.{Rc, success, is_success, is_eof}
use miniob.Record.{Rid, Record}

abbrev pub ends_with : Rc → Rc
ends_with rc = if is_eof rc then success else rc

abbrev pub scan_limit : ℕ → ℕ
scan_limit limit = if leb (2 ^ 31) limit then 2147483647 else limit

-- The parts of a record: 4056 bytes of it in each page.
abbrev pub per_size : ℕ → ℕ
per_size record_size = (record_size + 4055) / 4056

-- The state of the loop for records of several parts: the parts that were read, where the next one goes,
-- the global variable `first`, and the record that is put together.
pub record Parts : Type 0 where
  pub count : ℕ
  pub offset : ℕ
  pub first : ℕ
  pub bytes : Memory

-- A part after the first one begins with the last four bytes of the part before it.
unfoldable pub connect_record : ℕ → Memory → Memory → ℕ → ℕ → Memory
connect_record first r1 r2 offset len =
    if first == 0 then memcpy r1 0 r2 len else memcpy r1 offset (λ i. r2 (i + 4)) len

abbrev pub part_length : ℕ → ℕ → ℕ
part_length record_size offset =
    if ltb 4056 (record_size - offset) then 4056 else record_size - offset

unfoldable pub connected : ℕ → Parts → Record → Parts
connected record_size parts rec = record {
  count = parts.count + 1;
  offset = parts.offset + 4056;
  first = parts.first + 1;
  bytes =
      connect_record parts.first parts.bytes rec.bytes parts.offset
        (part_length record_size parts.offset);
}

-- The variables after a record is put together.
unfoldable pub restarted : Parts → Parts
restarted parts = record { count = parts.count; offset = 0; first = 0; bytes = λ i. 0 }

module _ {S : Type 0} (is_visible : Record → Bool) (record_reader : S → Record → Rc × S) where
  -- The loop of `scan_record` for records of one part, with `limit` records left to read; the scanner applies the filter, and
  -- has looked for the next record when the limit is reached.
  unfoldable pub scan_records : ℕ → List Record → Rc → S → Rc × S
  scan_records limit [] end state = (ends_with end, state)
  scan_records zero (rec ∷ records) end state = (success, state)
  scan_records (suc limit) (rec ∷ records) end state =
      let (rc, state') = record_reader state rec in
      let rest = scan_records limit records end state' in
      let skipped = scan_records (suc limit) records end state in
      if is_visible rec then if is_success rc then rest else (ends_with rc, state') else skipped

  -- The whole record is read if it passes the filter.
  abbrev pub read_whole : (Record → Bool) → S → Record → Rc × S
  read_whole filter state rec =
      let found = record_reader state rec in if filter rec then found else (success, state)

  -- The loop for records of several parts, with `limit` parts left to read: the scanner has no filter.
  unfoldable pub scan_parts : (Record → Bool) → Rid → ℕ → ℕ → Parts → List Record → Rc → S → Rc × S
  scan_parts filter blank record_size limit parts [] end state = (ends_with end, state)
  scan_parts filter blank record_size zero parts (rec ∷ records) end state = (success, state)
  scan_parts filter blank record_size (suc limit) parts (rec ∷ records) end state =
      let next = connected record_size parts rec in
      let more = scan_parts filter blank record_size limit next records end state in
      let (rc, state') = read_whole filter state (record { rid = blank; bytes = next.bytes }) in
      let rest = scan_parts filter blank record_size limit (restarted next) records end state' in
      let read = if is_success rc then rest else (ends_with rc, state') in
      let skipped = scan_parts filter blank record_size (suc limit) parts records end state in
      if is_visible rec
      then if next.count % per_size record_size == 0 then read else more
      else skipped

  -- `scan_record`; a negative limit is INT_MAX. `by_index` is the scan by the index that
  -- `find_index_for_scan` finds, if it finds one, and `answers` what the scanner answers with the filter
  -- or without it. `blank` is the identifier of a new record, and `first` the global variable.
  unfoldable pub scan_record :
      (Record → Bool)
      → Rid
      → ℕ
      → Option (ℕ → S → Rc × S)
      → (Bool → List Record × Rc)
      → ℕ
      → ℕ
      → S
      → Rc × S
  scan_record filter blank record_size by_index answers limit first state =
      let whole = scan_records (scan_limit limit) (answers true).0 (answers true).1 state in
      let parts : Parts = record { count = 0; offset = 0; first = first; bytes = λ i. 0 } in
      let in_parts =
        scan_parts filter blank record_size (scan_limit limit) parts (answers false).0
          (answers false).1 state in
      let by_file = if per_size record_size == 1 then whole else in_parts in
      let found : Rc × S = elim by_index [
        | some scan ↦ scan (scan_limit limit) state
        | none ↦ by_file
      ] in
      if limit == 0 then (success, state) else found

  abbrev pub scan_found : (filter : Record → Bool) → (S → Rc × S) → S → Rc ⊎ Record → Rc × S
  scan_found filter next state (inl rc) = (rc, state)
  scan_found filter next state (inr rec) =
      let (rc, state') = record_reader state rec in
      let rest = next state' in
      let skipped = next state in
      if is_visible rec && filter rec then if is_success rc then rest else (rc, state') else skipped

  -- The loop of `scan_record_by_index`, with `limit` entries left to read; `get_record` is what the
  -- record file answers.
  unfoldable pub scan_entries :
      (Record → Bool) → (Rid → Rc ⊎ Record) → ℕ → List Rid → Rc → S → Rc × S
  scan_entries filter get_record zero rids end state = (success, state)
  scan_entries filter get_record (suc limit) [] end state = (ends_with end, state)
  scan_entries filter get_record (suc limit) (rid ∷ rids) end state =
      scan_found filter (λ s. scan_entries filter get_record limit rids end s) state
        (get_record rid)
