-- ===== src/Tests/Tables.antt =====
-- A table with a number and a nullable name, and indexes that take as many entries as they count.
use Prim.Native.String.{String}
use miniob.Base.{
  Bool, inr, ℕ, ◌+◌, ◌-◌, ◌<◌, ◌≡◌, refl, inl, true, false, not, ◌&&◌, ◌||◌, Option, none, some,
  List, [], ◌∷◌, ◌==◌, if◌then◌else◌, arith, Memory, read_u32, write_u32,
}
use miniob.Rc.{Rc, success, record_eof, ok, record_duplicate_key, bufferpool_nobuf, is_success}
use miniob.Index.{AttrType}
use miniob.Record.{Rid, Record}
use miniob.Record.File.{RecordFile}
use miniob.Filter.{is_null, value_of}
use miniob.Trx.{Trx, find_operation}
use miniob.Meta.{AttrInfo, FieldMeta, TableMeta, init}
use miniob.Meta.Offsets.{trx_field, Laid, init-succeeds}
use miniob.Table.Make.{
  Value, make_record, check_values, check_value, type_match, value_validation, store_values,
  find_if_exist_unique_record, has_unique, update_value,
}
use miniob.Table.Make.Reads.{Made, side, make_record-Made, update_value-null}
use miniob.Table.Scan.{scan_record, scan_entries}
use miniob.Table.Scan.Limit.{keep, first, records_at, length, read_all, scan-limit}
use miniob.Table.Change.{
  IndexOps, Table, Session, insert_entry_of_indexes, insert_entries, insert_logged, update_record,
}
use miniob.Table.Change.Entries.{
  all_insert, is_empty, HalfUpdated, insert_entry_of_indexes-all, update_record-HalfUpdated,
}
use miniob.Table.Change.Marks.{
  LeftBehind, table_of, update_record-unmarked, insert_logged-LeftBehind,
}

abbrev id_attr : AttrInfo
id_attr = record { name = "id"; type = AttrType.ints; length = 4; null_type = 0 }

abbrev name_attr : AttrInfo
name_attr = record { name = "name"; type = AttrType.chars; length = 8; null_type = 1 }

abbrev id_field : FieldMeta
id_field = record {
  name = "id";
  attr_type = AttrType.ints;
  attr_offset = 4;
  attr_len = 4;
  visible = true;
  nullable = false;
}

abbrev name_field : FieldMeta
name_field = record {
  name = "name";
  attr_type = AttrType.chars;
  attr_offset = 8;
  attr_len = 8;
  visible = true;
  nullable = true;
}

abbrev made : List FieldMeta × TableMeta
made = (
  trx_field ∷ [],
  record { name = "t"; fields = trx_field ∷ id_field ∷ name_field ∷ []; record_size = 16 },
)

init-succeeds_example :
    (m : List FieldMeta × TableMeta) × (init [] "t" (id_attr ∷ name_attr ∷ []) ≡ ok m)
    × Laid (id_attr ∷ name_attr ∷ []) m
    × (m.1.record_size ≡ 16)
init-succeeds_example =
    init-succeeds [] "t" id_attr (name_attr ∷ []) 16 (inl refl) refl
      (refl, refl, omega arith, omega arith, (refl, refl, omega arith, omega arith, refl))

abbrev seven : Value
seven = record { type = AttrType.ints; bytes = write_u32 (λ i. 0) 0 7 }

abbrev null_value : Value
null_value = record { type = AttrType.nulls; bytes = λ i. 0 }

abbrev first_rid : Rid
first_rid = record { page_num = 1; slot_num = 0 }

abbrev no_rows : Value → String → Option ℕ
no_rows value name = some 0

abbrev no_date : Memory → Option ℕ
no_date text = none

make_record-stored :
    make_record no_rows ("id" ∷ []) no_date (id_field ∷ name_field ∷ []) (seven ∷ null_value ∷ [])
    ≡ ok (store_values (λ i. 0) (id_field ∷ name_field ∷ []) (seven ∷ null_value ∷ []))
unfolding make_record check_values check_value type_match value_validation
    find_if_exist_unique_record has_unique
make_record-stored = refl

make_record-Made_example :
    Made no_date first_rid
      (id_field ∷ name_field ∷ [])
      (seven ∷ null_value ∷ [])
      (store_values (λ i. 0) (id_field ∷ name_field ∷ []) (seven ∷ null_value ∷ []))
make_record-Made_example =
    make_record-Made no_rows ("id" ∷ []) no_date (id_field ∷ name_field ∷ [])
      (seven ∷ null_value ∷ [])
      (store_values (λ i. 0) (id_field ∷ name_field ∷ []) (seven ∷ null_value ∷ [])) 4 16 first_rid
      (refl, omega arith, (refl, omega arith, refl)) (omega arith, (omega arith, tt))
      make_record-stored

update_value-null_example :
    (is_null
        (record { rid = first_rid; bytes = update_value (λ i. 0) name_field seven })
        (side name_field)
      ≡ not (read_u32 seven.bytes 0 == 0))
    × ((i : ℕ)
        → i + 4 < 8
        → value_of
            (record { rid = first_rid; bytes = update_value (λ i. 0) name_field seven })
            (side name_field)
            i
          ≡ seven.bytes (i + 4))
update_value-null_example = update_value-null first_rid (λ i. 0) name_field seven refl (omega arith)

-- An index with room for as many more entries.
abbrev pub counting : IndexOps
counting = record {
  Index = ℕ;
  insert_entry =
      λ room rec rid. if room == 0 then (record_duplicate_key, room) else (success, room - 1);
  delete_entry = λ room rec rid. (success, room + 1);
}

abbrev file : RecordFile
file = record { pages = λ i. inl bufferpool_nobuf; page_count = 1; held = none; attached = false }

-- The other index has room, the unique one has none.
abbrev table : Table counting
table = record { file = file; indexes = 5 ∷ []; unique_indexes = 0 ∷ [] }

abbrev old_record : Record
old_record = record { rid = first_rid; bytes = λ i. 0 }

abbrev new_record : Record
new_record = record { rid = first_rid; bytes = write_u32 (λ i. 0) 4 7 }

abbrev pub idle : Trx
idle = record { trx_id = 0; operations = [] }

abbrev pub session : Session
session = record { trx = some idle; last_id = 3 }

insert_entry_of_indexes-all_example :
    is_success (insert_entry_of_indexes counting table (λ i. 0) first_rid).0 ≡ (
      all_insert counting (λ i. 0) first_rid (0 ∷ [])
      && (not (is_empty counting (λ i. 0) first_rid (0 ∷ []))
          || all_insert counting (λ i. 0) first_rid (5 ∷ [])))
insert_entry_of_indexes-all_example = insert_entry_of_indexes-all counting (λ i. 0) first_rid table

update_record-HalfUpdated_example :
    HalfUpdated counting 1 table session old_record new_record
      (update_record counting 1 table session old_record new_record)
unfolding is_success
update_record-HalfUpdated_example =
    update_record-HalfUpdated counting 1 table session old_record new_record refl refl refl

update_record-unmarked_example :
    table_of counting (update_record counting 1 table session old_record new_record)
    ≡ table_of counting
        (update_record counting 1 table (record { trx = none; last_id = 3 }) old_record new_record)
update_record-unmarked_example =
    update_record-unmarked counting 1 table session (record { trx = none; last_id = 3 }) old_record
      new_record

refused : is_success (insert_entry_of_indexes counting table (λ i. 0) first_rid).0 ≡ false
unfolding insert_entry_of_indexes insert_entries is_success
refused = refl

no_operation : find_operation [] 1 first_rid ≡ none
unfolding find_operation
no_operation = refl

insert_logged-LeftBehind_example :
    LeftBehind counting 1
      (λ i. false)
      table
      (λ i. 0)
      first_rid
      (insert_logged counting (λ i. false) 1 table session (λ i. 0) first_rid)
insert_logged-LeftBehind_example =
    insert_logged-LeftBehind counting 1 (λ i. false) table session idle (λ i. 0) first_rid refl
      no_operation refused

-- A reader that counts.
abbrev counted : ℕ → Record → Rc × ℕ
counted n rec = (success, n + 1)

abbrev visible : Record → Bool
visible rec = true

abbrev in_first_page : Record → Bool
in_first_page rec = rec.rid.page_num == 1

abbrev record_at : Rid → Record
record_at rid = record { rid = rid; bytes = λ i. 0 }

abbrev elsewhere : Rid
elsewhere = record { page_num = 2; slot_num = 0 }

counted_success : (n : ℕ) (rec : Record) → is_success (counted n rec).0 ≡ true
unfolding is_success
counted_success n rec = refl

abbrev here : Record → Bool
here rec = true && in_first_page rec

-- What the scanner answers, with the filter or without it.
abbrev scanned : List Rid → Bool → List Record × Rc
scanned rids filtered =
    let all = records_at record_at rids in
    (if filtered then keep in_first_page all else all, record_eof)

scan-limit_example :
    let rids = elsewhere ∷ first_rid ∷ [] in
    ((scan_record visible counted in_first_page first_rid 16 none (scanned rids) 1 0 0).1
      ≡ read_all visible counted 0 (first 1 (keep here (records_at record_at rids))))
    × ((scan_entries visible counted in_first_page
          (λ rid. inr (record_at rid))
          1
          rids
          record_eof
          0).1
        ≡ read_all visible counted 0 (keep here (records_at record_at (first 1 rids))))
    × (length (first 1 (keep here (records_at record_at rids))) ≡ 1)
    × (length (keep here (records_at record_at (first 1 rids))) < 1)
scan-limit_example =
    scan-limit visible counted counted_success in_first_page record_at 1
      (elsewhere ∷ first_rid ∷ []) 0 elsewhere first_rid 16 0 (scanned (elsewhere ∷ first_rid ∷ []))
      record_eof 0 refl (omega arith) (omega arith) (omega arith) (omega arith) refl (omega arith)
      refl
