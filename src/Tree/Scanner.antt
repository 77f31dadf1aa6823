-- ===== src/Tree/Scanner.antt =====
-- `BplusTreeScanner` of bplus_tree.cpp over the pages of the tree. An index of -1 is `none`, and
-- `satisfies` is what `satisfy_condition` answers for a key.
pub mod Entries
use Prim.Native.Nat.{Ordering}
use mathlib.Core.List.{length}
use miniob.Base.{
  ℕ, zero, suc, ◌+◌, ◌-◌, ◌^◌, Bool, true, false, ◌&&◌, ◌||◌, Option, none, some, List, [], ◌∷◌,
  ◌++◌, ltb, leb, ◌==◌, if◌then◌else◌,
}
use miniob.Index.{CompOp}
use miniob.Rc.{
  Rc, Outcome, ok, err, fault, success, bufferpool_invalid_page_num, record_eof, record_closed,
  record_openned, record_scanclosed, record_no_more_idx_in_mem,
}
use miniob.Record.{Rid}
use miniob.Tree.Node.{Node}
use miniob.Tree.Pages.{BplusTree, find_leaf, get_first_leaf_page}
use miniob.Tree.Seek.{no_page, is_page, Start, first_passing, next_leaf}

-- `pages` are the pages that `page_handles_` holds, `next_handle` and `index_in_node` the place in them.
pub record Scanner : Type 0 where
  pub opened : Bool
  pub pages : List ℕ
  pub next_handle : ℕ
  pub index_in_node : Option ℕ
  pub next_page_num : ℕ
  pub num_fixed_pages : ℕ

-- `open`, which keeps RECORD_EOF for the first `next_entry`. `none` if the search does not end.
abbrev pub opened_at : Scanner → Outcome Start → Rc × Scanner
opened_at scanner (ok start) = (
  success,
  record scanner {
    opened = true;
    pages = [];
    next_handle = 0;
    index_in_node = some (start.index);
    next_page_num = start.page;
    num_fixed_pages = 1;
  },
)
opened_at scanner (err record_eof) = (
  success,
  record scanner {
    opened = true;
    pages = [];
    next_handle = 0;
    index_in_node = none;
    next_page_num = no_page;
    num_fixed_pages = 1;
  },
)
opened_at scanner (err rc) = (rc, scanner)
opened_at scanner fault = (bufferpool_invalid_page_num, scanner)

unfoldable pub open_scan : Scanner → Option (Outcome Start) → Option (Rc × Scanner)
open_scan scanner start =
    let begun : Option (Rc × Scanner) = elim start [
      | none ↦ none
      | some r ↦ some (opened_at scanner r)
    ] in
    if scanner.opened then some (record_openned, scanner) else begun

unfoldable pub close_scan : Scanner → Rc × Scanner
close_scan scanner =
    if scanner.opened
    then (success, record scanner { opened = false })
    else (record_scanclosed, scanner)

abbrev pub has_pages : Rc → List ℕ → Rc
has_pages success [] = record_eof
has_pages rc _ = rc

abbrev pub hold : Scanner → Rc × List ℕ × ℕ → Rc × Scanner
hold scanner (rc, pages, next) =
    (has_pages rc pages, record scanner { pages = pages; next_handle = 0; next_page_num = next })

module _ {K : Type 0} where
  -- The loop of `find_idx_pages` with `n` pages left to hold.
  unfoldable pub load_pages : ℕ → BplusTree K → List ℕ → ℕ → Rc × List ℕ × ℕ
  load_pages zero tree pages page = (success, pages, page)
  load_pages (suc n) tree pages page = elim (tree.nodes page) [
    | none ↦
        if is_page page then (bufferpool_invalid_page_num, pages, page) else (success, pages, page)
    | some node ↦
        let rest = load_pages n tree (pages ++ (page ∷ [])) (next_leaf tree node) in
        if is_page page then rest else (success, pages, page)
  ]

  unfoldable pub find_idx_pages : BplusTree K → Scanner → Rc × Scanner
  find_idx_pages tree scanner =
      hold scanner (load_pages scanner.num_fixed_pages tree [] scanner.next_page_num)

  module _ (satisfies : K → Bool) (tree : BplusTree K) where
    -- A page of the list is held, so that it is there.
    abbrev pub Found : Type 0
    Found = Rc × Option Rid × Scanner

    -- The loop of `get_next_idx_in_memory` over the pages from `next_handle` on.
    unfoldable pub scan_pages : Scanner → List ℕ → ℕ → ℕ → Found
    scan_pages scanner [] handle i = (
      record_no_more_idx_in_mem,
      none,
      record scanner { next_handle = handle; index_in_node = some i },
    )
    scan_pages scanner (page ∷ pages) handle i = elim (tree.nodes page) [
      | none ↦ (bufferpool_invalid_page_num, none, scanner)
      | some node ↦ elim (first_passing (node.key_num - i) satisfies node i) [
        | some k ↦ (
          success,
          some (node.rids k),
          record scanner { next_handle = handle; index_in_node = some (k + 1) },
        )
        | none ↦ scan_pages scanner pages (handle + 1) 0
      ]
    ]

    abbrev drop : ℕ → List ℕ → List ℕ
    drop zero pages = pages
    drop (suc n) [] = []
    drop (suc n) (page ∷ pages) = drop n pages

    abbrev pub scan_from : Scanner → List ℕ → Option ℕ → Found
    scan_from scanner [] i = (record_no_more_idx_in_mem, none, scanner)
    scan_from scanner (page ∷ pages) none = (record_eof, none, scanner)
    scan_from scanner (page ∷ pages) (some i) =
        scan_pages scanner (page ∷ pages) scanner.next_handle i

    -- With `index_in_node` at -1 `next_page_num` is -1 too: `open` sets both.
    unfoldable pub get_next_idx_in_memory : Scanner → Found
    get_next_idx_in_memory scanner =
        scan_from scanner (drop scanner.next_handle scanner.pages) scanner.index_in_node

    abbrev pub look_again : Rc × Scanner → Found
    look_again (success, scanner) = get_next_idx_in_memory scanner
    look_again (rc, scanner) = (rc, none, scanner)

    -- What `next_entry` does after a first look in memory.
    unfoldable pub next_pages : Found → Found
    next_pages (record_no_more_idx_in_mem, rid, scanner) = look_again (find_idx_pages tree scanner)
    next_pages (rc, rid, scanner) = (rc, rid, scanner)

    unfoldable pub next_entry : Scanner → Found
    next_entry scanner =
        if scanner.opened
        then next_pages (get_next_idx_in_memory scanner)
        else (record_closed, none, scanner)
