-- ===== src/Record/File/Search.antt =====
-- The search of `RecordFileHandler::insert_record` for a page with room.
use miniob.Base.{
  ℕ, zero, suc, ◌+◌, ◌%◌, ◌<◌, ◌≤◌, ◌≡◌, ◌≢◌, ◌⊎◌, inl, inr, refl, ◌∙◌, Bool, true, false, none,
  some, leb, ◌==◌, arith, Bool-cases, Option-cases, ap,
}
use native.Mathlib.Nat.{mod-eq_of_lt, add-zero}
use miniob.Rc.{Rc, ok, err, fault, is_success}
use miniob.Record.Page.{RecordPage, is_full}
use miniob.Record.File.{
  RecordFile, Reply, holds, begin_with, open_page, reach_page, held_page, goes_on, find_page,
  look_at, start_page, search_from, search_page,
}

-- The handler points to a page of the file that is full, or to the one that the search looks at next.
abbrev pub Ready : RecordFile → ℕ → Type 0
Ready file next =
    (h : ℕ) × (page : RecordPage) × (file.held ≡ some h)
    × (file.pages h ≡ inr page)
    × ((is_full page ≡ true) ⊎ ((file.attached ≡ true) × (next ≡ h) × (h ≢ 0)))

-- The handler holds a page of the file that has room.
abbrev pub HoldsRoom : RecordFile → Type 0
HoldsRoom file =
    (h : ℕ) × (page : RecordPage) × (file.held ≡ some h)
    × (file.pages h ≡ inr page)
    × (file.attached ≡ true)
    × (is_full page ≡ false)

-- The pages stay as they are, and a page that is found has room.
abbrev pub Found : RecordFile → Reply Bool → Type 0
Found file (ok true, after) = (after.pages ≡ file.pages) × HoldsRoom after
Found file (ok false, after) = after.pages ≡ file.pages
Found file (err rc, after) = after.pages ≡ file.pages
Found file (fault, after) = ⊥

Found-same :
    (file file' : RecordFile) (r : Reply Bool)
    → file'.pages ≡ file.pages
    → Found file' r
    → Found file r
Found-same file file' (ok true, after) e (same, room) = (same ∙ e, room)
Found-same file file' (ok false, after) e same = same ∙ e
Found-same file file' (err rc, after) e same = same ∙ e
Found-same file file' (fault, after) e h = h

-- A round looks at the page that the handler points to now.
look_at-Found :
    (file reached : RecordFile) (rest : Reply Bool) (next h : ℕ) (page : RecordPage)
    → reached.pages ≡ file.pages
    → reached.held ≡ some h
    → reached.pages h ≡ inr page
    → (is_full page ≡ true) ⊎ (reached.attached ≡ true)
    → (Ready reached next → Found reached rest)
    → Found file (look_at rest reached)
unfolding look_at held_page
look_at-Found file reached rest next h page same held there or_full ready =
    elim (Bool-cases (is_full page)) [
      | inl t ↦
          rw (held, there, t, look_at)
            (Found-same file reached rest same (ready (h, page, held, there, inl t)))
      | inr t ↦
          let attached : reached.attached ≡ true = elim or_full [ inl f ↦ cc | inr a ↦ a ] in
          rw (held, there, t, look_at) (same, (h, page, held, there, attached, t))
    ]

-- `init` fails with a code that ends the search, or the handler points to a page of the file.
abbrev Reached : RecordFile → Rc × RecordFile → Type 0
Reached file r =
    (r.1.pages ≡ file.pages)
    × ((goes_on r.0 ≡ false)
        ⊎ ((goes_on r.0 ≡ true)
            × ((h : ℕ) × (page : RecordPage) × (r.1.held ≡ some h)
                × (r.1.pages h ≡ inr page)
                × ((is_full page ≡ true) ⊎ (r.1.attached ≡ true)))))

open_page-Reached :
    (file : RecordFile) (next h : ℕ) (page : RecordPage)
    → file.held ≡ some h
    → file.pages h ≡ inr page
    → is_full page ≡ true
    → Reached file (open_page file next)
unfolding open_page
open_page-Reached file next h page held there full = go (file.pages next) refl
  where
    go : (r : Rc ⊎ RecordPage) → file.pages next ≡ r → Reached file (open_page file next)
    go (inr other) e = rw (e, open_page) (refl, inr (refl, (next, other, refl, e, inr refl)))
    go (inl rc) e = elim (Bool-cases (goes_on rc)) [
      | inl t ↦ rw (e, open_page) (refl, inr (t, (h, page, held, there, inl full)))
      | inr t ↦ rw (e, open_page) (refl, inl t)
    ]

reach_page-Reached :
    (file : RecordFile) (next : ℕ) → Ready file next → Reached file (reach_page file next)
unfolding reach_page
reach_page-Reached file next (h, page, held, there, or_next) =
    elim (Bool-cases (holds file.held next)) [
      | inl t ↦ rw t (refl, inr (refl, (h, page, held, there, now or_next)))
      | inr t ↦ rw t (open_page-Reached file next h page held there (full t or_next))
    ]
  where
    now :
        (is_full page ≡ true) ⊎ ((file.attached ≡ true) × (next ≡ h) × (h ≢ 0))
        → (is_full page ≡ true) ⊎ (file.attached ≡ true)
    now (inl f) = inl f
    now (inr (a, e, ne)) = inr a

    full :
        holds file.held next ≡ false
        → (is_full page ≡ true) ⊎ ((file.attached ≡ true) × (next ≡ h) × (h ≢ 0))
        → is_full page ≡ true
    full t (inl f) = f
    full t (inr (a, e, ne)) =
        let other : (h == next) ≡ false = rw held at t in absurd (ground arith)

-- The page is full if the next one is the file's header.
full_before_header :
    (file : RecordFile) (next h : ℕ) (page : RecordPage)
    → (next == 0) ≡ true
    → (is_full page ≡ true) ⊎ ((file.attached ≡ true) × (next ≡ h) × (h ≢ 0))
    → is_full page ≡ true
full_before_header file next h page t (inl full) = full
full_before_header file next h page t (inr (a, e, ne)) = absurd (ne (ground arith))

find_page-Found :
    (n : ℕ) (file : RecordFile) (i current : ℕ)
    → Ready file ((current + i) % file.page_count)
    → Found file (find_page n file i current)
unfolding find_page
find_page-Found zero file i current ready = refl
find_page-Found (suc n) file i current (h, page, held, there, or_next) =
    let next = (current + i) % file.page_count in
    elim (Bool-cases (next == 0)) [
      | inl t ↦ rw t (
          find_page-Found n file (i + 1) next
            (h, page, held, there, inl (full_before_header file next h page t or_next)))
      | inr t ↦
          let r = reach_page file next in
          let (same, reached) = reach_page-Reached file next (h, page, held, there, or_next) in
          elim reached [
            | inl stop ↦ rw (t, stop) same
            | inr (goes, (h', page', held', there', or_full)) ↦
                rw (t, goes)
                  (look_at-Found file r.1 _ ((next + (i + 1)) % r.1.page_count) h' page' same held'
                    there' or_full (λ ready. find_page-Found n r.1 (i + 1) next ready))
          ]
    ]

-- A file without data pages has nothing to look at.
find_page-empty :
    (file : RecordFile) (current : ℕ)
    → file.page_count ≤ 1
    → find_page file.page_count file 0 current ≡ (ok false, file)
unfolding find_page
find_page-empty file current few = elim (Bool-cases (file.page_count == 0)) [
  | inl t ↦
      let none_left : file.page_count ≡ 0 = ground arith in
      ap (λ n. find_page n file 0 current) none_left
  | inr t ↦
      let one : file.page_count ≡ 1 = ground arith in
      let header : ((current + 0) % file.page_count == 0) ≡ true =
        header_only current file.page_count one in
      ap (λ n. find_page n file 0 current) one ∙ rw (header, find_page)
]
  where
    header_only : (current count : ℕ) → count ≡ 1 → ((current + 0) % count == 0) ≡ true
    header_only current count one = rw one (ground arith)

-- A file as the handler keeps it: it points to a data page that is there, which it holds or which is
-- full; and before it has looked at one there are none, or it will begin with the first.
pub record Handled (file : RecordFile) : Type 0 where
  pub loaded :
      (h : ℕ)
      → file.held ≡ some h
      → (page : RecordPage) × (file.pages h ≡ inr page)
        × (h ≢ 0)
        × (h < file.page_count)
        × ((file.attached ≡ true) ⊎ (is_full page ≡ true))
  pub failing : (n : ℕ) (rc : Rc) → file.pages n ≡ inl rc → is_success rc ≡ false

search_held :
    (file : RecordFile) (h : ℕ) → Handled file → file.held ≡ some h → Found file (search_page file)
unfolding search_page start_page
search_held file h handled held =
    let (page, there, nonzero, inside, or_full) = handled.loaded h held in
    let here : (h + 0) % file.page_count ≡ h = rw add-zero (mod-eq_of_lt inside) in
    let started : start_page file ≡ (ok h, file) = rw held in
    let ready : Ready file ((h + 0) % file.page_count) =
      (h, page, held, there, elim or_full [ inl a ↦ inr (a, here, nonzero) | inr f ↦ inl f ]) in
    rw started (find_page-Found file.page_count file 0 h ready)

-- The first page is opened.
search_opened :
    (file : RecordFile)
    → 2 ≤ file.page_count
    → ((rc : Rc) → file.pages 1 ≡ inl rc → is_success rc ≡ false)
    → Found file (search_from (begin_with (open_page file 1)))
unfolding open_page is_success
search_opened file several failing = go (file.pages 1) refl
  where
    go :
        (r : Rc ⊎ RecordPage)
        → file.pages 1 ≡ r
        → Found file (search_from (begin_with (open_page file 1)))
    go (inl rc) e = let bad = failing rc e in rw (e, open_page) (rw bad refl)
    go (inr page) e =
        let opened = record file { held = some 1; attached = true } in
        let here : (1 + 0) % file.page_count ≡ 1 = mod-eq_of_lt several in
        rw (e, open_page)
          (Found-same file opened _ refl (
            find_page-Found file.page_count opened 0 1
              (1, page, refl, e, inr (refl, here, omega arith))))

search_first : (file : RecordFile) → Handled file → file.held ≡ none → Found file (search_page file)
unfolding search_page
search_first file handled held = elim (Bool-cases (leb 2 file.page_count)) [
  | inl t ↦
      let started : start_page file ≡ begin_with (open_page file 1) =
        unfold start_page in rw (held, t) in
      rw started (search_opened file (ground arith) (handled.failing 1))
  | inr t ↦
      let few : file.page_count ≤ 1 = ground arith in
      let started : start_page file ≡ (ok 0, file) = unfold start_page in rw (held, t) in
      rw (started, find_page-empty file 0 few) refl
]

-- Whatever the handler held, the search leaves the pages as they are; it ends with a page that has
-- room and that the handler holds, with none, or with the code of a page that cannot be read.
pub search_page-Found : (file : RecordFile) → Handled file → Found file (search_page file)
search_page-Found file handled = elim (Option-cases file.held) [
  | inl held ↦ search_first file handled held
  | inr (h, held) ↦ search_held file h handled held
]
