-- ===== src/Trx/Steps.antt =====
-- The operations that a transaction queues, and the invariant of its queue.
use miniob.Base.{
  ℕ, ◌^◌, ◌<◌, ◌≡◌, ◌≢◌, refl, ◌∙◌, inl, inr, true, false, Option-cases, none, some, List, [], ◌∷◌,
  arith,
}
use miniob.Rc.{success}
use miniob.Record.{Rid}
use miniob.Trx.{
  OperationType, OperationSet, Trx, find_operation, set_record_trx_id, start_if_not_started,
  insert_record, delete_record, update_record, queue_deletes, delete_found, insert_operation,
  delete_operation, is_visible,
}
use miniob.Trx.Visible.{is_visible-set_record_trx_id}
use miniob.Trx.Queue.{
  find-delete_operation, rid_equal_refl, IsQueue, insert_operation-IsQueue,
  delete_operation-IsQueue,
}

started-operations :
    (trx : Trx) (last : ℕ) → (start_if_not_started trx last).0.operations ≡ trx.operations
unfolding start_if_not_started
started-operations trx last = ground arith

delete_found-IsQueue :
    (type : OperationType) (q removed : List (ℕ × OperationSet))
    → IsQueue q
    → IsQueue removed
    → IsQueue (delete_found type q removed).0
unfolding delete_found
delete_found-IsQueue OperationType.insert q removed u v = v
delete_found-IsQueue _ q removed u v = u

queue_deletes-IsQueue :
    (q : List (ℕ × OperationSet)) (table : ℕ) (rids : List Rid)
    → IsQueue q
    → IsQueue (queue_deletes q table rids).0
unfolding queue_deletes
queue_deletes-IsQueue q table [] u = u
queue_deletes-IsQueue q table (rid ∷ rids) u = elim (Option-cases (find_operation q table rid)) [
  | inl e ↦
      rw (e, queue_deletes)
        (queue_deletes-IsQueue (insert_operation q table OperationType.delete rid) table rids
          (insert_operation-IsQueue q table OperationType.delete rid u))
  | inr (type, e) ↦
      rw (e, queue_deletes)
        (delete_found-IsQueue type q _ u (delete_operation-IsQueue q table rid u))
]

started-IsQueue :
    (trx : Trx) (last : ℕ)
    → IsQueue trx.operations
    → IsQueue (start_if_not_started trx last).0.operations
started-IsQueue trx last u = rw (started-operations trx last) u

insert_record-IsQueue :
    (trx : Trx) (last table : ℕ) (rid : Rid) (word : ℕ)
    → IsQueue trx.operations
    → IsQueue (insert_record trx last table rid word).trx.operations
unfolding insert_record
insert_record-IsQueue trx last table rid word u =
    elim (Option-cases (find_operation trx.operations table rid)) [
      | inl e ↦
          rw (e, insert_record)
            (insert_operation-IsQueue _ table OperationType.insert rid (started-IsQueue trx last u))
      | inr (type, e) ↦ rw (e, insert_record) u
    ]

update_record-IsQueue :
    (trx : Trx) (last table : ℕ) (rid : Rid) (word : ℕ)
    → IsQueue trx.operations
    → IsQueue (update_record trx last table rid word).trx.operations
unfolding update_record
update_record-IsQueue trx last table rid word u =
    elim (Option-cases (find_operation trx.operations table rid)) [
      | inl e ↦
          rw (e, update_record)
            (insert_operation-IsQueue _ table OperationType.update rid (started-IsQueue trx last u))
      | inr (OperationType.insert, e) ↦ rw (e, update_record) u
      | inr (OperationType.update, e) ↦ rw (e, update_record) u
      | inr (OperationType.delete, e) ↦ rw (e, update_record) u
      | inr (OperationType.undefined, e) ↦ rw (e, update_record) u
    ]

delete_record-IsQueue :
    (trx : Trx) (last table : ℕ) (rids : List Rid) (word : ℕ)
    → IsQueue trx.operations
    → IsQueue (delete_record trx last table rids word).trx.operations
unfolding delete_record
delete_record-IsQueue trx last table rids word u =
    let s = (start_if_not_started trx last).0 in
    let v = queue_deletes-IsQueue s.operations table rids (started-IsQueue trx last u) in
    elim (Option-cases (queue_deletes s.operations table rids).1) [
      | inl e ↦ rw (e, delete_record) v
      | inr (rc, e) ↦ rw (e, delete_record) v
    ]

-- Every operation of a transaction keeps its queue without a table or an identifier twice.
steps-IsQueue :
    (trx : Trx) (last table : ℕ) (rid : Rid) (rids : List Rid) (word : ℕ)
    → IsQueue trx.operations
    → IsQueue (insert_record trx last table rid word).trx.operations
      × IsQueue (update_record trx last table rid word).trx.operations
      × IsQueue (delete_record trx last table rids word).trx.operations
steps-IsQueue trx last table rid rids word u = (
  insert_record-IsQueue trx last table rid word u,
  update_record-IsQueue trx last table rid word u,
  delete_record-IsQueue trx last table rids word u,
)

already_started :
    (trx : Trx) (last : ℕ) → trx.trx_id ≢ 0 → start_if_not_started trx last ≡ (trx, last)
unfolding start_if_not_started
already_started trx last h = ground arith

queue_deletes-own :
    (q : List (ℕ × OperationSet)) (table : ℕ) (rid : Rid) (rids : List Rid)
    → find_operation q table rid ≡ some OperationType.insert
    → queue_deletes q table (rid ∷ rids) ≡ (delete_operation q table rid, some success)
unfolding queue_deletes delete_found
queue_deletes-own q table rid rids e = rw (e, queue_deletes)

delete_record-own :
    (trx : Trx) (last table : ℕ) (rid : Rid) (rids : List Rid) (word : ℕ)
    → trx.trx_id ≢ 0
    → find_operation trx.operations table rid ≡ some OperationType.insert
    → delete_record trx last table (rid ∷ rids) word ≡ record {
      rc = success;
      trx = record trx { operations = delete_operation trx.operations table rid };
      last_id = last;
      word = word;
    }
unfolding delete_record
delete_record-own trx last table rid rids word started e = ground (
  arith,
  already_started trx last started,
  queue_deletes-own trx.operations table rid rids e,
  queue_deletes-own (start_if_not_started trx last).0.operations table rid rids,
)

sees_own :
    (trx : Trx) (operations : List (ℕ × OperationSet))
    → trx.trx_id < 2 ^ 31
    → is_visible (record trx { operations = operations }) (set_record_trx_id trx.trx_id false)
      ≡ true
sees_own trx operations small =
    is_visible-set_record_trx_id (record trx { operations = operations }) trx.trx_id false small
    ∙ ground arith

-- A started transaction with an id below 2^31, and a queue without a table or an identifier twice,
-- deletes a record for which it has queued an INSERT and whose word is its own. It is told that it
-- succeeded, but the record keeps its word, so the transaction still sees it, and no operation for it is
-- left in the queue, neither the INSERT nor a DELETE.
pub delete_own_insert :
    (trx : Trx) (last table : ℕ) (rid : Rid) (rids : List Rid)
    → IsQueue trx.operations
    → trx.trx_id < 2 ^ 31
    → trx.trx_id ≢ 0
    → find_operation trx.operations table rid ≡ some OperationType.insert
    → let s = delete_record trx last table (rid ∷ rids) (set_record_trx_id trx.trx_id false) in
      (s.rc ≡ success)
      × (is_visible s.trx s.word ≡ true)
      × (find_operation s.trx.operations table rid ≡ none)
delete_own_insert trx last table rid rids u small started e =
    let gone = find-delete_operation trx.operations table table rid rid u in
    let word = set_record_trx_id trx.trx_id false in
    rw (delete_record-own trx last table rid rids word started e)
      (refl, sees_own trx _ small, gone ∙ ground (arith, rid_equal_refl rid))
