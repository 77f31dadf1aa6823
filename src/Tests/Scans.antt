-- ===== src/Tests/Scans.antt =====
-- A scan over two leaves, whose keys are numbers, at concrete inputs.
use Prim.Native.Nat.{Ordering}
use miniob.Base.{ℕ, ◌+◌, ◌≡◌, refl, true, false, none, some, [], ltb, arith, ◌==◌, if◌then◌else◌}
use miniob.Index.{CompOp}
use miniob.Rc.{ok, success}
use miniob.Record.{Rid}
use miniob.Tree.Node.{Node, first_above}
use miniob.Tree.Pages.{BplusTree, find_leaf, descend, child_for, get_first_leaf_page}
use miniob.Tree.Seek.{no_page, first_passing, seek, find_first_index_satisfied}
use miniob.Tree.Scanner.{Scanner, open_scan, close_scan, next_entry}
use miniob.Tree.Scanner.Entries.{holding, NextEntry, next_entry-NextEntry}

abbrev cmp : ℕ → ℕ → Ordering
cmp a b = if ltb a b then Ordering.lt else if a == b then Ordering.eq else Ordering.gt

abbrev rid : ℕ → ℕ → Rid
rid page slot = record { page_num = page; slot_num = slot }

-- A leaf with the keys from `first` on, and the page after it.
abbrev leaf : ℕ → ℕ → Node ℕ
leaf first next = record {
  is_leaf = true;
  key_num = 2;
  parent = some 1;
  keys = λ i. first + i;
  rids = λ i. if i == 3 then rid next 0 else rid 7 (first + i);
}

abbrev root : Node ℕ
root = record {
  is_leaf = false;
  key_num = 1;
  parent = none;
  keys = λ i. 20;
  rids = λ i. rid (i + 2) 0;
}

abbrev tree : BplusTree ℕ
tree = record {
  nodes = λ page.
      if page == 1
      then some root
      else if page == 2
      then some (leaf 10 3)
      else if page == 3
      then some (leaf 20 no_page)
      else none;
  root_page = 1;
  order = 4;
}

abbrev fresh : Scanner
fresh = record {
  opened = false;
  pages = [];
  next_handle = 0;
  index_in_node = none;
  next_page_num = no_page;
  num_fixed_pages = 1;
}

above_eleven :
    find_first_index_satisfied cmp (λ key. cmp key 11) 11 5 tree CompOp.great_than
    ≡ some (ok (record { page = 3; index = 0 }))
unfolding find_first_index_satisfied find_leaf descend child_for first_above seek first_passing
above_eleven = refl

opens :
    open_scan fresh (find_first_index_satisfied cmp (λ key. cmp key 11) 11 5 tree CompOp.not_equal)
    ≡ some (success, record fresh { opened = true; index_in_node = some 0; next_page_num = 2 })
unfolding open_scan find_first_index_satisfied get_first_leaf_page descend first_above seek
    first_passing
opens = refl

closes : close_scan (holding 2 0 3) ≡ (success, record (holding 2 0 3) { opened = false })
unfolding close_scan
closes = refl

next_entry-NextEntry_example :
    NextEntry
      (λ key. ltb 12 key)
      tree
      2
      0
      3
      (leaf 10 3)
      (next_entry (λ key. ltb 12 key) tree (holding 2 0 3))
next_entry-NextEntry_example =
    next_entry-NextEntry (λ key. ltb 12 key) tree 2 0 3 (leaf 10 3) refl (omega arith)
