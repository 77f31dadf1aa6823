-- ===== src/Trx/Queue.antt =====
-- The queue of operations as a finite map from a table and an identifier to an operation's type.
use miniob.Base.{
  ℕ, ◌≡◌, refl, ◌∙◌, inl, inr, Bool, true, false, ◌&&◌, Bool-cases, Option, none, some, List, [],
  ◌∷◌, ◌==◌, if◌then◌else◌, arith,
}
use miniob.Record.{Rid, rid_equal}
use miniob.Trx.{
  OperationType, OperationSet, find_in_set, find_operation, emplace, insert_operation, erase,
  delete_operation,
}

pub rid_equal-eq : (a b : Rid) → rid_equal a b ≡ true → a ≡ b
unfolding rid_equal
rid_equal-eq a b h = ground arith

pub rid_equal_refl : (a : Rid) → rid_equal a a ≡ true
unfolding rid_equal
rid_equal_refl a = ground arith

-- No identifier twice in a set.
abbrev pub IsRidSet : OperationSet → Type 0
IsRidSet [] = Unit
IsRidSet (op ∷ ops) = (find_in_set ops op.rid ≡ none) × IsRidSet ops

abbrev pub has_table : List (ℕ × OperationSet) → ℕ → Bool
has_table [] table = false
has_table ((t, ops) ∷ rest) table = if t == table then true else has_table rest table

-- No table twice, and each set is one.
abbrev pub IsQueue : List (ℕ × OperationSet) → Type 0
IsQueue [] = Unit
IsQueue ((t, ops) ∷ rest) = IsRidSet ops × (has_table rest t ≡ false) × IsQueue rest

abbrev pub kept_or_new : Option OperationType → OperationType → OperationType
kept_or_new none type = type
kept_or_new (some old) type = old

find-emplace :
    (ops : OperationSet) (type : OperationType) (rid r : Rid)
    → find_in_set (emplace ops type rid) r ≡ (
        if rid_equal rid r
        then some (kept_or_new (find_in_set ops rid) type)
        else find_in_set ops r)
unfolding find_in_set emplace
find-emplace [] type rid r = refl
find-emplace (op ∷ ops) type rid r = ground (
  arith,
  find-emplace ops type rid r,
  rid_equal-eq op.rid rid,
  rid_equal-eq op.rid r,
  rid_equal-eq rid r,
  rid_equal_refl rid,
  rid_equal_refl r,
)

emplace-IsRidSet :
    (ops : OperationSet) (type : OperationType) (rid : Rid)
    → IsRidSet ops
    → IsRidSet (emplace ops type rid)
unfolding find_in_set emplace
emplace-IsRidSet [] type rid u = (refl, tt)
emplace-IsRidSet (op ∷ ops) type rid u = ground (
  arith,
  emplace-IsRidSet ops type rid u.1,
  find-emplace ops type rid op.rid,
  rid_equal-eq rid op.rid,
  rid_equal_refl op.rid,
)

find-erase :
    (ops : OperationSet) (rid r : Rid)
    → IsRidSet ops
    → find_in_set (erase ops rid) r ≡ (if rid_equal rid r then none else find_in_set ops r)
unfolding find_in_set erase
find-erase [] rid r u = ground arith
find-erase (op ∷ ops) rid r u = ground (
  arith,
  find-erase ops rid r u.1,
  rid_equal-eq op.rid rid,
  rid_equal-eq op.rid r,
  rid_equal-eq rid r,
  rid_equal_refl rid,
  rid_equal_refl r,
)

erase-IsRidSet : (ops : OperationSet) (rid : Rid) → IsRidSet ops → IsRidSet (erase ops rid)
unfolding find_in_set erase
erase-IsRidSet [] rid u = tt
erase-IsRidSet (op ∷ ops) rid u = ground (
  arith,
  erase-IsRidSet ops rid u.1,
  find-erase ops rid op.rid u.1,
  rid_equal-eq rid op.rid,
  rid_equal_refl op.rid,
)

empty_emplace :
    (type : OperationType) (rid r : Rid)
    → find_in_set (emplace [] type rid) r ≡ (if rid_equal rid r then some type else none)
unfolding find_in_set emplace
empty_emplace type rid r = refl

pub find-insert_operation :
    (q : List (ℕ × OperationSet)) (table t : ℕ) (type : OperationType) (rid r : Rid)
    → find_operation (insert_operation q table type rid) t r ≡ (
        if table == t && rid_equal rid r
        then some (kept_or_new (find_operation q table rid) type)
        else find_operation q t r)
unfolding find_operation insert_operation
find-insert_operation [] table t type rid r = ground (arith, empty_emplace type rid r)
find-insert_operation ((u, ops) ∷ q) table t type rid r =
    ground (arith, find-insert_operation q table t type rid r, find-emplace ops type rid r)

has_table-insert :
    (q : List (ℕ × OperationSet)) (table t : ℕ) (type : OperationType) (rid : Rid)
    → has_table (insert_operation q table type rid) t ≡ (if table == t then true else has_table q t)
unfolding insert_operation
has_table-insert [] table t type rid = refl
has_table-insert ((u, ops) ∷ q) table t type rid =
    ground (arith, has_table-insert q table t type rid)

pub insert_operation-IsQueue :
    (q : List (ℕ × OperationSet)) (table : ℕ) (type : OperationType) (rid : Rid)
    → IsQueue q
    → IsQueue (insert_operation q table type rid)
unfolding insert_operation
insert_operation-IsQueue [] table type rid u = (emplace-IsRidSet [] type rid tt, refl, tt)
insert_operation-IsQueue ((t, ops) ∷ q) table type rid u = elim (Bool-cases (t == table)) [
  | inl e ↦ rw e (emplace-IsRidSet ops type rid u.0, u.1, u.2)
  | inr e ↦ rw e (
    u.0,
    has_table-insert q table t type rid ∙ ground arith,
    insert_operation-IsQueue q table type rid u.2,
  )
]

has_table-delete :
    (q : List (ℕ × OperationSet)) (table t : ℕ) (rid : Rid)
    → has_table (delete_operation q table rid) t ≡ has_table q t
unfolding delete_operation
has_table-delete [] table t rid = refl
has_table-delete ((u, ops) ∷ q) table t rid = ground (arith, has_table-delete q table t rid)

pub delete_operation-IsQueue :
    (q : List (ℕ × OperationSet)) (table : ℕ) (rid : Rid)
    → IsQueue q
    → IsQueue (delete_operation q table rid)
unfolding delete_operation
delete_operation-IsQueue [] table rid u = tt
delete_operation-IsQueue ((t, ops) ∷ q) table rid u = elim (Bool-cases (t == table)) [
  | inl e ↦ rw e (erase-IsRidSet ops rid u.0, u.1, u.2)
  | inr e ↦
      rw e (u.0, has_table-delete q table t rid ∙ u.1, delete_operation-IsQueue q table rid u.2)
]

pub find-delete_operation :
    (q : List (ℕ × OperationSet)) (table t : ℕ) (rid r : Rid)
    → IsQueue q
    → find_operation (delete_operation q table rid) t r
      ≡ (if table == t && rid_equal rid r then none else find_operation q t r)
unfolding find_operation delete_operation
find-delete_operation [] table t rid r u = ground arith
find-delete_operation ((v, ops) ∷ q) table t rid r u =
    ground (arith, find-delete_operation q table t rid r u.2, find-erase ops rid r u.0)

-- A queue without a table has no operation for it.
pub find_operation-no_table :
    (q : List (ℕ × OperationSet)) (table : ℕ) (rid : Rid)
    → has_table q table ≡ false
    → find_operation q table rid ≡ none
unfolding find_operation
find_operation-no_table [] table rid h = refl
find_operation-no_table ((t, ops) ∷ q) table rid h =
    ground (arith, find_operation-no_table q table rid)

-- A queue without a table or an identifier twice behaves as a finite map: `insert_operation` adds
-- an operation and keeps one that is there already, `delete_operation` takes the operation of its
-- identifier away, neither touches another table or identifier, and no table or identifier is ever
-- in the queue twice.
pub IsQueue-map :
    (q : List (ℕ × OperationSet)) (table : ℕ) (type : OperationType) (rid : Rid)
    → IsQueue q
    → IsQueue (insert_operation q table type rid)
      × IsQueue (delete_operation q table rid)
      × ((t : ℕ) (r : Rid)
          → find_operation (insert_operation q table type rid) t r ≡ (
              if table == t && rid_equal rid r
              then some (kept_or_new (find_operation q table rid) type)
              else find_operation q t r))
      × ((t : ℕ) (r : Rid)
          → find_operation (delete_operation q table rid) t r
            ≡ (if table == t && rid_equal rid r then none else find_operation q t r))
IsQueue-map q table type rid u = (
  insert_operation-IsQueue q table type rid u,
  delete_operation-IsQueue q table rid u,
  λ t r. find-insert_operation q table t type rid r,
  λ t r. find-delete_operation q table t rid r u,
)
