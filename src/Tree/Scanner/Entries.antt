-- ===== src/Tree/Scanner/Entries.antt =====
-- Which entry `next_entry` returns.
use miniob.Base.{
  ℕ, zero, suc, ◌+◌, ◌-◌, ◌≤◌, ◌≡◌, ◌⊎◌, inl, inr, refl, ◌∙◌, ap, Bool, true, false, Option, none,
  some, List, [], ◌∷◌, arith, Bool-cases, Option-cases,
}
use miniob.Bitmap.Search.{First, First-step, First-hit}
use miniob.Rc.{Rc, success, bufferpool_invalid_page_num, record_eof, record_no_more_idx_in_mem}
use miniob.Tree.Node.{Node}
use miniob.Tree.Pages.{BplusTree}
use miniob.Tree.Seek.{first_passing, is_page, next_leaf}
use miniob.Tree.Scanner.{
  Scanner, Found, load_pages, find_idx_pages, scan_pages, hold, look_again, get_next_idx_in_memory,
  next_pages, next_entry,
}

-- A scanner that holds one page, as `open` and `next_entry` leave it.
abbrev pub holding : ℕ → ℕ → ℕ → Scanner
holding page i next = record {
  opened = true;
  pages = page ∷ [];
  next_handle = 0;
  index_in_node = some i;
  next_page_num = next;
  num_fixed_pages = 1;
}

module _ {K : Type 0} (satisfies : K → Bool) where
  -- The key satisfies the condition of the scan.
  abbrev pub passes : Node K → ℕ → Bool
  passes node j = satisfies (node.keys j)

  first_passing-First :
      (n : ℕ) (node : Node K) (i : ℕ)
      → First (passes node) i (i + n) (first_passing n satisfies node i)
  unfolding first_passing
  first_passing-First zero node i = λ j l h. absurd (omega arith)
  first_passing-First (suc n) node i = elim (Bool-cases (satisfies (node.keys i))) [
    | inl e ↦ rw e (First-hit (passes node) n i e)
    | inr e ↦ rw e (
        First-step (passes node) n i (first_passing n satisfies node (i + 1)) e
          (first_passing-First n node (i + 1)))
  ]

  module _ (tree : BplusTree K) (page i next : ℕ) (node : Node K) where
    -- The first entry of the leaf from `i` on that passes, or the first of the next leaf; or what it
    -- says if there is none.
    abbrev pub NextEntry : Found satisfies tree → Type 0
    NextEntry (rc, some rid, after) =
        (rc ≡ success)
        × (((k : ℕ) × First (passes node) i node.key_num (some k)
              × (rid ≡ node.rids k)
              × (after ≡ holding page (k + 1) next))
            ⊎ (First (passes node) i node.key_num none
                × ((leaf : Node K) × (k : ℕ) × (is_page next ≡ true)
                    × (tree.nodes next ≡ some leaf)
                    × First (passes leaf) 0 leaf.key_num (some k)
                    × (rid ≡ leaf.rids k)
                    × (after ≡ holding next (k + 1) (next_leaf tree leaf)))))
    NextEntry (rc, none, after) =
        First (passes node) i node.key_num none
        × (((is_page next ≡ false) × (rc ≡ record_eof))
            ⊎ ((is_page next ≡ true)
                × (tree.nodes next ≡ none)
                × (rc ≡ bufferpool_invalid_page_num))
            ⊎ ((leaf : Node K) × (is_page next ≡ true)
                × (tree.nodes next ≡ some leaf)
                × First (passes leaf) 0 leaf.key_num none
                × (rc ≡ record_no_more_idx_in_mem)))

  module _ (tree : BplusTree K) (page i next : ℕ) (node : Node K)
      (held : tree.nodes page ≡ some node) (within : i ≤ node.key_num) where
    here : First (passes node) i node.key_num (first_passing (node.key_num - i) satisfies node i)
    here =
        let e : i + (node.key_num - i) ≡ node.key_num = omega arith in
        rw e at (first_passing-First (node.key_num - i) node i)

    in_next :
        (leaf : Node K)
        → First (passes leaf) 0 leaf.key_num (first_passing (leaf.key_num - 0) satisfies leaf 0)
    in_next leaf =
        let e : 0 + (leaf.key_num - 0) ≡ leaf.key_num = omega arith in
        rw e at (first_passing-First (leaf.key_num - 0) leaf 0)

    here_at :
        (r : Option ℕ)
        → first_passing (node.key_num - i) satisfies node i ≡ r
        → First (passes node) i node.key_num r
    here_at r e = rw (← e) here

    in_next_at :
        (leaf : Node K) (r : Option ℕ)
        → first_passing (leaf.key_num - 0) satisfies leaf 0 ≡ r
        → First (passes leaf) 0 leaf.key_num r
    in_next_at leaf r e = rw (← e) (in_next leaf)

    -- What a scanner on a leaf that has no entry left does.
    abbrev moved_on : Found satisfies tree
    moved_on = next_pages satisfies tree (
      record_no_more_idx_in_mem,
      none,
      record (holding page i next) { next_handle = 1; index_in_node = some 0 },
    )

    found_here :
        (k : ℕ)
        → first_passing (node.key_num - i) satisfies node i ≡ some k
        → next_entry satisfies tree (holding page i next)
          ≡ (success, some (node.rids k), holding page (k + 1) next)
    unfolding next_entry get_next_idx_in_memory scan_pages next_pages
    found_here k e = rw (held, e, scan_pages)

    none_here :
        first_passing (node.key_num - i) satisfies node i ≡ none
        → next_entry satisfies tree (holding page i next) ≡ moved_on
    unfolding next_entry get_next_idx_in_memory scan_pages
    none_here e = rw (held, e, scan_pages)

    loaded_none : is_page next ≡ false → load_pages 1 tree [] next ≡ (success, [], next)
    unfolding load_pages
    loaded_none e = elim (Option-cases (tree.nodes next)) [
      | inl n ↦ rw (n, e, load_pages)
      | inr (leaf, n) ↦ rw (n, e, load_pages)
    ]

    loaded_missing :
        is_page next ≡ true
        → tree.nodes next ≡ none
        → load_pages 1 tree [] next ≡ (bufferpool_invalid_page_num, [], next)
    unfolding load_pages
    loaded_missing e n = rw (n, e, load_pages)

    loaded_leaf :
        (leaf : Node K)
        → is_page next ≡ true
        → tree.nodes next ≡ some leaf
        → load_pages 1 tree [] next ≡ (success, next ∷ [], next_leaf tree leaf)
    unfolding load_pages
    loaded_leaf leaf e n = rw (n, e, load_pages)

    abbrev past : Scanner
    past = record (holding page i next) { next_handle = 1; index_in_node = some 0 }

    -- What follows once the next page is there.
    moved_by :
        (r : Rc × List ℕ × ℕ)
        → load_pages 1 tree [] next ≡ r
        → moved_on ≡ look_again satisfies tree (hold past r)
    unfolding next_pages find_idx_pages
    moved_by r e = ap (λ r. look_again satisfies tree (hold past r)) e

    moved_found :
        (leaf : Node K) (k : ℕ)
        → tree.nodes next ≡ some leaf
        → first_passing (leaf.key_num - 0) satisfies leaf 0 ≡ some k
        → look_again satisfies tree (hold past (success, next ∷ [], next_leaf tree leaf))
          ≡ (success, some (leaf.rids k), holding next (k + 1) (next_leaf tree leaf))
    unfolding get_next_idx_in_memory scan_pages
    moved_found leaf k n s = rw (n, s, scan_pages)

    moved_missed :
        (leaf : Node K)
        → tree.nodes next ≡ some leaf
        → first_passing (leaf.key_num - 0) satisfies leaf 0 ≡ none
        → look_again satisfies tree (hold past (success, next ∷ [], next_leaf tree leaf)) ≡ (
          record_no_more_idx_in_mem,
          none,
          record (holding next 0 (next_leaf tree leaf)) { next_handle = 1 },
        )
    unfolding get_next_idx_in_memory scan_pages
    moved_missed leaf n s = rw (n, s, scan_pages)

    moved_on-NextEntry :
        First (passes node) i node.key_num none → NextEntry tree page i next node moved_on
    moved_on-NextEntry f = elim (Bool-cases (is_page next)) [
      | inr e ↦ rw (moved_by _ (loaded_none e)) (f, inl (e, refl))
      | inl e ↦ elim (Option-cases (tree.nodes next)) [
        | inl n ↦ rw (moved_by _ (loaded_missing e n)) (f, inr (inl (e, n, refl)))
        | inr (leaf, n) ↦ elim (Option-cases (first_passing (leaf.key_num - 0) satisfies leaf 0)) [
          | inl miss ↦
              rw (moved_by _ (loaded_leaf leaf e n) ∙ moved_missed leaf n miss)
                (f, inr (inr (leaf, e, n, in_next_at leaf none miss, refl)))
          | inr (k, hit) ↦
              rw (moved_by _ (loaded_leaf leaf e n) ∙ moved_found leaf k n hit)
                (refl, inr (f, (leaf, k, e, n, in_next_at leaf (some k) hit, refl, refl)))
        ]
      ]
    ]

    -- A scanner that holds one leaf, at an index within it: `next_entry` returns the first entry from
    -- there on that satisfies the condition, or if the leaf has none the first of the next leaf that
    -- does, and the scanner then stands behind it. Otherwise it returns RECORD_EOF if there is no next
    -- leaf, BUFFERPOOL_INVALID_PAGE_NUM if its page is not there, and RECORD_NO_MORE_IDX_IN_MEM if it
    -- has no such entry.
    pub next_entry-NextEntry :
        NextEntry tree page i next node (next_entry satisfies tree (holding page i next))
    next_entry-NextEntry = elim (Option-cases (first_passing (node.key_num - i) satisfies node i)) [
      | inl miss ↦ rw (none_here miss) (moved_on-NextEntry (here_at none miss))
      | inr (k, hit) ↦ rw (found_here k hit) (refl, inl (k, here_at (some k) hit, refl, refl))
    ]
