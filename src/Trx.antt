-- ===== src/Trx.antt =====
-- src/observer/storage/trx/trx.cpp and trx.h: a transaction's queue of operations and the
-- transaction word of a record, with the calls that `Table` (table.cpp) makes for it.
-- A `Table *` is a number. An unordered map or set is the list of its entries in iteration order.
pub mod Queue
pub mod Visible
pub mod Steps
pub mod Commit
use miniob.Base.{
  ℕ, ◌+◌, ◌/◌, ◌%◌, ◌^◌, Bool, true, false, not, ◌&&◌, ◌||◌, Option, none, some, List, [], ◌∷◌,
  ◌==◌, if◌then◌else◌,
}
use miniob.Rc.{Rc, success, generic_error, record_record_not_exist, is_success}
use miniob.Record.{Rid, rid_equal}

-- `Operation::Type`
pub data OperationType : Type 0 where
  insert update delete undefined : OperationType

pub record Operation : Type 0 where
  pub type : OperationType
  pub rid : Rid

abbrev pub OperationSet : Type 0
OperationSet = List Operation

pub record Trx : Type 0 where
  pub trx_id : ℕ
  pub operations : List (ℕ × OperationSet)

-- The transaction word of each record that the record file of a table holds; `none` for an
-- identifier without a record.
abbrev pub Words : Type 0
Words = ℕ → Rid → Option ℕ

abbrev pub put_word : Words → ℕ → Rid → Option ℕ → Words
put_word words table rid w t r = if table == t && rid_equal rid r then w else words t r

-- `++trx_id` on the counter that all transactions share, on 32-bit patterns.
unfoldable pub next_trx_id : ℕ → ℕ
next_trx_id last = (last + 1) % 2 ^ 32

-- The word with the bit DELETED_FLAG_BIT_MASK set if the record is deleted.
unfoldable pub set_record_trx_id : ℕ → Bool → ℕ
set_record_trx_id trx_id deleted = if deleted then trx_id % 2 ^ 31 + 2 ^ 31 else trx_id

-- The word without its top bit, and its top bit.
unfoldable pub get_record_trx_id : ℕ → ℕ × Bool
get_record_trx_id word = (word % 2 ^ 31, not (word / 2 ^ 31 % 2 == 0))

unfoldable pub init_trx_info : Trx → ℕ
init_trx_info trx = set_record_trx_id trx.trx_id false

unfoldable pub is_visible : Trx → ℕ → Bool
is_visible trx word =
    let (record_trx_id, record_deleted) = get_record_trx_id word in
    if record_trx_id == 0 || record_trx_id == trx.trx_id then not record_deleted else record_deleted

-- OperationEqualer compares the identifiers only.
unfoldable pub find_in_set : OperationSet → Rid → Option OperationType
find_in_set [] rid = none
find_in_set (op ∷ ops) rid = if rid_equal op.rid rid then some op.type else find_in_set ops rid

unfoldable pub find_operation : List (ℕ × OperationSet) → ℕ → Rid → Option OperationType
find_operation [] table rid = none
find_operation ((t, ops) ∷ rest) table rid =
    if t == table then find_in_set ops rid else find_operation rest table rid

-- `emplace` leaves the set as it is if it has an operation for the identifier.
unfoldable pub emplace : OperationSet → OperationType → Rid → OperationSet
emplace [] type rid = record { type = type; rid = rid } ∷ []
emplace (op ∷ ops) type rid = if rid_equal op.rid rid then op ∷ ops else op ∷ emplace ops type rid

-- `operations_[table]` makes an empty set for a table that has none.
unfoldable pub insert_operation :
    List (ℕ × OperationSet) → ℕ → OperationType → Rid → List (ℕ × OperationSet)
insert_operation [] table type rid = (table, emplace [] type rid) ∷ []
insert_operation ((t, ops) ∷ rest) table type rid =
    if t == table
    then (t, emplace ops type rid) ∷ rest
    else (t, ops) ∷ insert_operation rest table type rid

unfoldable pub erase : OperationSet → Rid → OperationSet
erase [] rid = []
erase (op ∷ ops) rid = if rid_equal op.rid rid then ops else op ∷ erase ops rid

unfoldable pub delete_operation : List (ℕ × OperationSet) → ℕ → Rid → List (ℕ × OperationSet)
delete_operation [] table rid = []
delete_operation ((t, ops) ∷ rest) table rid =
    if t == table then (t, erase ops rid) ∷ rest else (t, ops) ∷ delete_operation rest table rid

-- The transaction with an id, and the counter after it.
unfoldable pub start_if_not_started : Trx → ℕ → Trx × ℕ
start_if_not_started trx last =
    if trx.trx_id == 0
    then (record trx { trx_id = next_trx_id last }, next_trx_id last)
    else (trx, last)

-- The state that a transaction's operation changes: the transaction, the shared counter, and the
-- word of the record that it is called with.
pub record Step : Type 0 where
  pub rc : Rc
  pub trx : Trx
  pub last_id : ℕ
  pub word : ℕ

unfoldable pub insert_record : Trx → ℕ → ℕ → Rid → ℕ → Step
insert_record trx last table rid word = elim (find_operation trx.operations table rid) [
  | some old ↦ record { rc = generic_error; trx = trx; last_id = last; word = word }
  | none ↦
      let (started, last') = start_if_not_started trx last in
      record {
        rc = success;
        trx = record started {
          operations = insert_operation started.operations table OperationType.insert rid;
        };
        last_id = last';
        word = word;
      }
]

-- What the loop of `delete_record` does when the identifier has an operation: the queue, and the
-- code that it returns. Only an INSERT is taken out of the queue.
unfoldable pub delete_found :
    OperationType
    → List (ℕ × OperationSet)
    → List (ℕ × OperationSet)
    → List (ℕ × OperationSet) × Option Rc
delete_found OperationType.insert operations removed = (removed, some success)
delete_found _ operations removed = (operations, some generic_error)

-- The loop of `delete_record` over the identifiers: the queue, and the code to return if the loop
-- returns.
unfoldable pub queue_deletes :
    List (ℕ × OperationSet) → ℕ → List Rid → List (ℕ × OperationSet) × Option Rc
queue_deletes operations table [] = (operations, none)
queue_deletes operations table (rid ∷ rids) =
    let rest =
      queue_deletes (insert_operation operations table OperationType.delete rid) table rids in
    elim (find_operation operations table rid) [
      | some type ↦ delete_found type operations (delete_operation operations table rid)
      | none ↦ rest
    ]

unfoldable pub delete_record : Trx → ℕ → ℕ → List Rid → ℕ → Step
delete_record trx last table rids word =
    let (started, last') = start_if_not_started trx last in
    let (operations, returned) = queue_deletes started.operations table rids in
    let after = record started { operations = operations } in
    elim returned [
      | some rc ↦ record { rc = rc; trx = after; last_id = last'; word = word }
      | none ↦ record {
        rc = success;
        trx = after;
        last_id = last';
        word = set_record_trx_id started.trx_id true;
      }
    ]

unfoldable pub update_record : Trx → ℕ → ℕ → Rid → ℕ → Step
update_record trx last table rid word =
    let unchanged : Rc → Step = λ rc. record { rc = rc; trx = trx; last_id = last; word = word } in
    elim (find_operation trx.operations table rid) [
      | some OperationType.insert ↦ unchanged success
      | some OperationType.update ↦ unchanged success
      | some OperationType.delete ↦ unchanged generic_error
      | some OperationType.undefined ↦ unchanged generic_error
      | none ↦
          let (started, last') = start_if_not_started trx last in
          record {
            rc = success;
            trx = record started {
              operations = insert_operation started.operations table OperationType.update rid;
            };
            last_id = last';
            word = set_record_trx_id started.trx_id false;
          }
    ]
