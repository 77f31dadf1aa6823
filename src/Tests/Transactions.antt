-- ===== src/Tests/Transactions.antt =====
-- Transactions at concrete inputs.
use miniob.Base.{
  Bool, false, ℕ, ◌≡◌, refl, true, ◌&&◌, some, none, List, [], ◌∷◌, ◌==◌, if◌then◌else◌, arith,
}
use miniob.Rc.{Rc, success}
use miniob.Record.{Rid, rid_equal}
use miniob.Trx.{
  OperationType, OperationSet, Trx, Words, set_record_trx_id, get_record_trx_id, find_in_set,
  find_operation, insert_operation, delete_operation, delete_record, is_visible,
}
use miniob.Trx.Queue.{IsQueue, kept_or_new, IsQueue-map}
use miniob.Trx.Visible.{get-set_record_trx_id}
use miniob.Trx.Steps.{delete_own_insert}

abbrev first : Rid
first = record { page_num = 1; slot_num = 0 }

abbrev second : Rid
second = record { page_num = 1; slot_num = 1 }

-- A transaction that has inserted one record of table 7 and deleted another.
abbrev queue : List (ℕ × OperationSet)
queue =
    (
      7,
      record { type = OperationType.insert; rid = first }
          ∷ record { type = OperationType.delete; rid = second }
          ∷ [],
    )
    ∷ []

queue-IsQueue : IsQueue queue
unfolding find_in_set rid_equal
queue-IsQueue = ((refl, (refl, tt)), refl, tt)

abbrev writer : Trx
writer = record { trx_id = 5; operations = queue }

abbrev words : Words
words t r = some 5

abbrev indexes : ℕ → Rid → Rc
indexes t r = success

abbrev pages : Words → ℕ → Rid → Bool
pages _ _ _ = true

IsQueue-map_example :
    IsQueue (insert_operation queue 7 OperationType.update first)
    × IsQueue (delete_operation queue 7 first)
    × ((t : ℕ) (r : Rid)
        → find_operation (insert_operation queue 7 OperationType.update first) t r ≡ (
            if 7 == t && rid_equal first r
            then some (kept_or_new (find_operation queue 7 first) OperationType.update)
            else find_operation queue t r))
    × ((t : ℕ) (r : Rid)
        → find_operation (delete_operation queue 7 first) t r
          ≡ (if 7 == t && rid_equal first r then none else find_operation queue t r))
IsQueue-map_example = IsQueue-map queue 7 OperationType.update first queue-IsQueue

get-set_record_trx_id_example : get_record_trx_id (set_record_trx_id 5 true) ≡ (5, true)
get-set_record_trx_id_example = get-set_record_trx_id 5 true (omega arith)

first_inserted : find_operation queue 7 first ≡ some OperationType.insert
unfolding find_operation find_in_set rid_equal
first_inserted = refl

delete_own_insert_example :
    let s = delete_record writer 5 7 (first ∷ []) (set_record_trx_id 5 false) in
    (s.rc ≡ success)
    × (is_visible s.trx s.word ≡ true)
    × (find_operation s.trx.operations 7 first ≡ none)
delete_own_insert_example =
    delete_own_insert writer 5 7 first [] queue-IsQueue (omega arith) (omega arith) first_inserted
