-- ===== src/Tree/Seek.antt =====
-- `find_first_index_satisfied` of bplus_tree.cpp over the pages of the tree: where a scan begins. A page
-- number is a 32-bit pattern, of which -1 is the largest. `against` is what `CompareKey` answers for
-- the attributes of a key and of the value, and `lowest` the value with the identifier (-1, -1).
use Prim.Native.Nat.{Ordering}
use miniob.Base.{
  ℕ, zero, suc, ◌+◌, ◌-◌, ◌^◌, Bool, true, false, ◌&&◌, Option, none, some, ltb, if◌then◌else◌,
}
use miniob.Index.{CompOp}
use miniob.Rc.{Outcome, ok, err, fault, bufferpool_invalid_page_num, record_eof}
use miniob.Tree.Node.{Node}
use miniob.Tree.Pages.{BplusTree, find_leaf, get_first_leaf_page}

-- The pattern of -1.
abbrev pub no_page : ℕ
no_page = 2 ^ 32 - 1

-- `page > 0` on the signed int.
abbrev pub is_page : ℕ → Bool
is_page page = ltb 0 page && ltb page (2 ^ 31)

-- Where a scan begins.
pub record Start : Type 0 where
  pub page : ℕ
  pub index : ℕ

-- What the loop asks of a comparison; for every other operator it finds nothing.
abbrev pub start_test : CompOp → Ordering → Bool
start_test CompOp.equal_to Ordering.lt = false
start_test CompOp.equal_to _ = true
start_test CompOp.great_equal Ordering.lt = false
start_test CompOp.great_equal _ = true
start_test CompOp.great_than Ordering.gt = true
start_test _ _ = false

-- The operators for which a scan begins at the first leaf.
abbrev pub from_first : CompOp → Bool
from_first CompOp.less_than = true
from_first CompOp.less_equal = true
from_first CompOp.not_equal = true
from_first _ = false

abbrev pub at_start : Option (Outcome ℕ) → Option (Outcome Start)
at_start none = none
at_start (some (ok page)) = some (ok (record { page = page; index = 0 }))
at_start (some (err rc)) = some (err rc)
at_start (some fault) = some fault

module _ {K : Type 0} where
  -- The first key of the node from `i` on that passes a test, with `n` keys left.
  unfoldable pub first_passing : ℕ → (K → Bool) → Node K → ℕ → Option ℕ
  first_passing zero test node i = none
  first_passing (suc n) test node i =
      let rest = first_passing n test node (i + 1) in if test (node.keys i) then some i else rest

  abbrev pub next_leaf : BplusTree K → Node K → ℕ
  next_leaf tree node = (node.rids (tree.order - 1)).page_num

  -- The loop of `find_first_index_satisfied` over the leaves.
  unfoldable pub seek : ℕ → BplusTree K → (K → Bool) → ℕ → Option (Outcome Start)
  seek zero tree test page = none
  seek (suc fuel) tree test page = elim (tree.nodes page) [
    | none ↦ if is_page page then some (err bufferpool_invalid_page_num) else some (err record_eof)
    | some node ↦
        let rest = seek fuel tree test (next_leaf tree node) in
        let found : Option (Outcome Start) = elim (first_passing node.key_num test node 0) [
          | none ↦ rest
          | some i ↦ some (ok (record { page = page; index = i }))
        ] in
        if is_page page then found else some (err record_eof)
  ]

  unfoldable pub find_first_index_satisfied :
      (K → K → Ordering) → (K → Ordering) → K → ℕ → BplusTree K → CompOp → Option (Outcome Start)
  find_first_index_satisfied cmp against lowest fuel tree comp_op =
      let from_leaf : Option (Outcome Start) = elim (find_leaf cmp fuel tree lowest) [
        | none ↦ none
        | some (err rc) ↦ some (err rc)
        | some fault ↦ some fault
        | some (ok page) ↦ seek fuel tree (λ key. start_test comp_op (against key)) page
      ] in
      if from_first comp_op then at_start (get_first_leaf_page fuel tree) else from_leaf
