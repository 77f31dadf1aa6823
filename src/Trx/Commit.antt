-- ===== src/Trx/Commit.antt =====
-- `Trx::commit` and `Trx::rollback` of trx.cpp with the calls of `Table` (table.cpp) that they make,
-- over the transaction words of the records. `index_rc` is what `delete_entry_of_indexes` returns for
-- a record. `has_page` tells whether `get_this_page` has the page of an identifier without a record:
-- if it has, the record is reported as RECORD_RECORD_NOT_EXIST; if not, `get_record` returns SUCCESS,
-- and what the callers do with a record that was never set has no defined effect.
pub mod Effect
use miniob.Base.{ℕ, Bool, true, false, Option, none, some, List, [], ◌∷◌, if◌then◌else◌}
use miniob.Rc.{Rc, Outcome, ok, err, fault, ◌>>=◌, success, record_record_not_exist, is_success}
use miniob.Record.{Rid}
use miniob.Trx.{OperationType, Operation, OperationSet, Trx, Words, put_word, set_record_trx_id}

-- The words after a call, and its code.
abbrev pub Coded : Type 0
Coded = Outcome (Words × Rc)

module _ (index_rc : ℕ → Rid → Rc) (has_page : Words → ℕ → Rid → Bool) where
  -- `record_handler_->get_record` for an identifier without a record, and the caller's next step.
  abbrev pub missing_record : Words → ℕ → Rid → Coded
  missing_record words table rid =
      if has_page words table rid then ok (words, record_record_not_exist) else fault

  -- `Table::commit_insert`, `Table::commit_update` and `Table::rollback_delete`: the record is found,
  -- and the transaction writes the committed word into it.
  abbrev pub release_record : Words → ℕ → Rid → Coded
  release_record words table rid = elim (words table rid) [
    | none ↦ missing_record words table rid
    | some w ↦ ok (put_word words table rid (some (set_record_trx_id 0 false)), success)
  ]

  -- An error of the indexes is logged and the record deleted all the same.
  abbrev pub commit_delete : Words → ℕ → Rid → Coded
  commit_delete words table rid = elim (words table rid) [
    | none ↦ missing_record words table rid
    | some w ↦ ok (put_word words table rid none, success)
  ]

  abbrev pub rollback_insert : Words → ℕ → Rid → Coded
  rollback_insert words table rid = elim (words table rid) [
    | none ↦ missing_record words table rid
    | some w ↦
        if is_success (index_rc table rid)
        then ok (put_word words table rid none, success)
        else ok (words, index_rc table rid)
  ]

  -- One round of the loop of `commit`; an unknown type is logged and leaves the code as it is.
  unfoldable pub commit_operation : Words → ℕ → OperationType → Rid → Rc → Coded
  commit_operation words table OperationType.insert rid rc = release_record words table rid
  commit_operation words table OperationType.delete rid rc = commit_delete words table rid
  commit_operation words table OperationType.update rid rc = release_record words table rid
  commit_operation words table OperationType.undefined rid rc = ok (words, rc)

  -- One round of the loop of `rollback`, which has no case for UPDATE.
  unfoldable pub rollback_operation : Words → ℕ → OperationType → Rid → Rc → Coded
  rollback_operation words table OperationType.insert rid rc = rollback_insert words table rid
  rollback_operation words table OperationType.delete rid rc = release_record words table rid
  rollback_operation words table OperationType.update rid rc = ok (words, rc)
  rollback_operation words table OperationType.undefined rid rc = ok (words, rc)

-- The two nested loops, over what a round does.
module _ (round : Words → ℕ → OperationType → Rid → Rc → Coded) where
  unfoldable pub run_set : Words → ℕ → OperationSet → Rc → Coded
  run_set words table [] rc = ok (words, rc)
  run_set words table (op ∷ ops) rc =
      round words table op.type op.rid rc >>= λ s. run_set s.0 table ops s.1

  unfoldable pub run_operations : Words → List (ℕ × OperationSet) → Rc → Coded
  run_operations words [] rc = ok (words, rc)
  run_operations words ((table, ops) ∷ rest) rc =
      run_set words table ops rc >>= λ s. run_operations s.0 rest s.1

-- What `commit` and `rollback` leave of the transaction.
abbrev pub ended : Trx
ended = record { trx_id = 0; operations = [] }

abbrev pub end_with : Words × Rc → Outcome (Trx × Words × Rc)
end_with (words, rc) = ok (ended, words, rc)

module _ (index_rc : ℕ → Rid → Rc) (has_page : Words → ℕ → Rid → Bool) where
  unfoldable pub commit : Trx → Words → Outcome (Trx × Words × Rc)
  commit trx words =
      run_operations (commit_operation index_rc has_page) words trx.operations success >>= end_with

  unfoldable pub rollback : Trx → Words → Outcome (Trx × Words × Rc)
  rollback trx words =
      run_operations (rollback_operation index_rc has_page) words trx.operations success
      >>= end_with
