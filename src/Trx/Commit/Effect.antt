-- ===== src/Trx/Commit/Effect.antt =====
-- What `commit` and `rollback` do to each record.
use miniob.Base.{
  ℕ, ◌≡◌, ◌≢◌, ◌&&◌, Bool, false, Option, none, some, List, ◌∷◌, ◌==◌, if◌then◌else◌, arith,
}
use miniob.Rc.{Rc, Outcome, ok, fault, is_success}
use miniob.Record.{Rid, rid_equal}
use miniob.Trx.{OperationType, OperationSet, Trx, Words, find_in_set, find_operation}
use miniob.Trx.Commit.{
  Coded, commit_operation, rollback_operation, run_set, run_operations, commit, rollback, ended,
}

-- What becomes of the word of a record, given the operation that is queued for it.
abbrev Fate : Type 0
Fate = ℕ → Rid → Option OperationType → Option ℕ → Option ℕ

-- A call that ends, with the words that `after` says.
abbrev Leads : Coded → (ℕ → Rid → Option ℕ) → Type 0
Leads r after =
    (words : Words) × (rc : Rc) × (r ≡ ok (words, rc)) × ((t : ℕ) (r : Rid) → words t r ≡ after t r)

-- A round on a record that is there changes its word only, as `fate` says.
abbrev IsRound : (Words → ℕ → OperationType → Rid → Rc → Coded) → Fate → Type 0
IsRound round fate =
    (words : Words) (table : ℕ) (type : OperationType) (rid : Rid) (rc : Rc)
    → words table rid ≢ none
    → Leads (round words table type rid rc) (λ t r.
      if table == t && rid_equal rid r then fate t r (some type) (words t r) else words t r)

-- The records of a set of operations are there.
abbrev HasSet : Words → ℕ → OperationSet → Type 0
HasSet words table ops = (r : Rid) → find_in_set ops r ≢ none → words table r ≢ none

-- The record of every queued operation is there.
abbrev pub HasRecords : Words → List (ℕ × OperationSet) → Type 0
HasRecords words q = (t : ℕ) (r : Rid) → find_operation q t r ≢ none → words t r ≢ none

module _ (round : Words → ℕ → OperationType → Rid → Rc → Coded) (fate : Fate)
    (is_round : IsRound round fate)
    (fate-none : (t : ℕ) (r : Rid) (w : Option ℕ) → fate t r none w ≡ w) where
  abbrev set_fate : Words → ℕ → OperationSet → ℕ → Rid → Option ℕ
  set_fate words table ops t r =
      if table == t then fate t r (find_in_set ops r) (words t r) else words t r

-- The word of a committed record.
abbrev pub released : Option ℕ → Option ℕ
released none = none
released (some w) = some 0

abbrev pub commit_fate : Option OperationType → Option ℕ → Option ℕ
commit_fate none w = w
commit_fate (some OperationType.insert) w = released w
commit_fate (some OperationType.update) w = released w
commit_fate (some OperationType.delete) w = none
commit_fate (some OperationType.undefined) w = w

abbrev pub rollback_fate : Rc → Option OperationType → Option ℕ → Option ℕ
rollback_fate rc none w = w
rollback_fate rc (some OperationType.insert) w = if is_success rc then none else w
rollback_fate rc (some OperationType.update) w = w
rollback_fate rc (some OperationType.delete) w = released w
rollback_fate rc (some OperationType.undefined) w = w

-- What comes back from `commit` or `rollback`: the ended transaction, and the word of each record.
abbrev pub Ends : Outcome (Trx × Words × Rc) → (ℕ → Rid → Option ℕ) → Type 0
Ends r after =
    (words : Words) × (rc : Rc) × (r ≡ ok (ended, words, rc))
    × ((t : ℕ) (r : Rid) → words t r ≡ after t r)

module _ (index_rc : ℕ → Rid → Rc) (has_page : Words → ℕ → Rid → Bool) where
  -- A queue whose first operation is an INSERT of a record that is gone, with the page it was on: both
  -- go on with a record that was never set.
  commit_gone :
      (trx : Trx) (words : Words) (table : ℕ) (rid : Rid) (ops : OperationSet)
      (rest : List (ℕ × OperationSet))
      → trx.operations ≡ (table, record { type = OperationType.insert; rid = rid } ∷ ops) ∷ rest
      → words table rid ≡ none
      → has_page words table rid ≡ false
      → (commit index_rc has_page trx words ≡ fault)
        × (rollback index_rc has_page trx words ≡ fault)
  unfolding commit rollback run_operations run_set commit_operation rollback_operation
  commit_gone trx words table rid ops rest q gone page =
      (rw (q, commit) (ground arith), rw (q, rollback) (ground arith))
