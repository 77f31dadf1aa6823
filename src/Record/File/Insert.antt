-- ===== src/Record/File/Insert.antt =====
-- `RecordFileHandler::insert_record` of a record that fits in one page.
use miniob.Base.{
  ℕ, zero, suc, ◌+◌, ◌-◌, ◌<◌, ◌≤◌, ◌≡◌, ◌⊎◌, inl, inr, refl, sym, ◌∙◌, ap, Bool, true, false,
  Option, none, some, leb, ltb, le→leb, arith, Memory, IsBytes,
}
use miniob.Rc.{Rc, ok, err, fault}
use miniob.Record.{Rid}
use miniob.Record.Page.{RecordPage, is_full, init_empty_page}
use miniob.Record.Page.Insert.{Inserted}
use miniob.Record.File.{
  RecordFile, Reply, put_page, held_page, search_page, insert_here, add_page, ensure_page,
  insert_found, insert_part, insert_parts, insert_record, fixed_size,
}
use miniob.Record.File.Search.{Found, HoldsRoom, Handled, search_page-Found}
use miniob.Record.File.Room.{
  IsLaidOut, held_page-some, insert_here-Inserted, fresh_laid, fresh_room, put_page_self,
  put_page-put, fresh-page_num, fresh-real_size,
}

-- Where a record goes: the page as it was, which had room or is new, and the page after it.
abbrev pub Placed :
    (RecordFile → Rc ⊎ (RecordPage × ℕ)) → RecordFile → Memory → ℕ → Reply Rid → Type 0
Placed allocate_page file src size (ok rid, after) =
    (before q : RecordPage) × (((file.pages rid.page_num ≡ inr before) × (is_full before ≡ false))
      ⊎ ((searched : RecordFile) × (page : RecordPage) × (count : ℕ) × (searched.pages ≡ file.pages)
          × (allocate_page searched ≡ inr (page, count))
          × (before ≡ init_empty_page page size)))
    × Inserted before src 0 q rid
    × ((j : ℕ) → after.pages j ≡ put_page file.pages rid.page_num q j)
Placed allocate_page file src size (err rc, after) = after.pages ≡ file.pages
Placed allocate_page file src size (fault, after) = ⊥

abbrev pub Stored :
    (RecordFile → Rc ⊎ (RecordPage × ℕ))
    → RecordFile
    → Memory
    → ℕ
    → Option (Reply (Option Rid))
    → Type 0
Stored allocate_page file src size (some (ok (some rid), after)) =
    Placed allocate_page file src size (ok rid, after)
Stored allocate_page file src size (some (err rc, after)) = after.pages ≡ file.pages
Stored allocate_page file src size _ = ⊥

module _ (allocate_page : RecordFile → Rc ⊎ (RecordPage × ℕ))
    (allocated : (f : RecordFile) (page : RecordPage) (count : ℕ)
      → allocate_page f ≡ inr (page, count)
      → IsBytes page.content) where
  -- The search found a page with room.
  found-Placed :
      (file after : RecordFile) (src : Memory) (size : ℕ)
      → ((n : ℕ) (page : RecordPage)
          → file.pages n ≡ inr page
          → IsLaidOut page × (page.page_num ≡ n) × (page.record_real_size ≡ size))
      → IsBytes src
      → after.pages ≡ file.pages
      → HoldsRoom after
      → Placed allocate_page file src size (insert_here after src 0 size)
  found-Placed file after src size laid bytes same (h, page, held, there, attached, room) =
      let there' : file.pages h ≡ inr page = ap (λ pages. pages h) (sym same) ∙ there in
      let (laid_out, number, real) = laid h page there' in
      let (q, rid, inserted, done) =
        insert_here-Inserted after src size page (held_page-some after h page held there) attached
          room laid_out real bytes in
      let at : file.pages rid.page_num ≡ inr page =
        ap file.pages (inserted.in_page ∙ number) ∙ there' in
      rw done
        (page, q, inl (at, room), inserted, λ j. ap (λ pages. put_page pages rid.page_num q j) same)

  fresh-Placed :
      (file after : RecordFile) (src : Memory) (size : ℕ)
      → IsBytes src
      → 8 < size
      → size ≤ fixed_size
      → after.pages ≡ file.pages
      → Placed allocate_page file src size
          (insert_found allocate_page src 0 size (add_page allocate_page after size))
  unfolding add_page
  fresh-Placed file after src size bytes long small same = go (allocate_page after) refl
    where
      go :
          (r : Rc ⊎ (RecordPage × ℕ))
          → allocate_page after ≡ r
          → Placed allocate_page file src size
              (insert_found allocate_page src 0 size (add_page allocate_page after size))
      go (inl rc) e = rw (e, add_page) same
      go (inr (page, count)) e =
          let before = init_empty_page page size in
          let n = page.page_num in
          let made = record after {
            pages = put_page after.pages n before;
            page_count = count;
            held = some n;
            attached = true;
          } in
          let here : held_page made ≡ some before =
            held_page-some made n before refl (put_page_self after.pages n before) in
          let (q, rid, inserted, done) =
            insert_here-Inserted made src size before here refl (fresh_room page size small)
              (fresh_laid page size (allocated after page count e) long small)
              (fresh-real_size page size) bytes in
          let there : rid.page_num ≡ n = inserted.in_page ∙ fresh-page_num page size in
          rw (e, add_page)
            (rw done (
              before,
              q,
              inr (after, page, count, same, e, refl),
              inserted,
              λ j.
                  put_page-put after.pages n rid.page_num before q j there
                  ∙ ap (λ pages. put_page pages rid.page_num q j) same,
            ))

  -- One round of `insert_record`, for a record that fits in a page.
  insert_part-Placed :
      (file : RecordFile) (src : Memory) (size : ℕ)
      → Handled file
      → ((n : ℕ) (page : RecordPage)
          → file.pages n ≡ inr page
          → IsLaidOut page × (page.page_num ≡ n) × (page.record_real_size ≡ size))
      → IsBytes src
      → 8 < size
      → size ≤ fixed_size
      → Placed allocate_page file src size (insert_part allocate_page file src size 0)
  unfolding insert_part
  insert_part-Placed file src size handled laid bytes long small =
      let fits : ltb fixed_size size ≡ false = ground arith in
      let whole : size - 0 ≡ size = omega arith in
      rw (fits, whole) (go (search_page file) (search_page-Found file handled))
    where
      go :
          (r : Reply Bool)
          → Found file r
          → Placed allocate_page file src size
              (insert_found allocate_page src 0 size (ensure_page allocate_page size r))
      go (ok true, after) (same, room) = found-Placed file after src size laid bytes same room
      go (ok false, after) same = fresh-Placed file after src size bytes long small same
      go (err rc, after) same = same
      go (fault, after) h = absurd h

  last_round :
      (fuel : ℕ) (file : RecordFile) (src : Memory) (size cur : ℕ) (rid : Option Rid)
      → 0 < fuel
      → leb size cur ≡ true
      → insert_parts allocate_page fuel file src size cur rid ≡ some (ok rid, file)
  unfolding insert_parts
  last_round zero file src size cur rid some_fuel done = absurd (omega arith)
  last_round (suc fuel) file src size cur rid some_fuel done = rw (done, insert_parts)

  round_ok :
      (fuel : ℕ) (file after : RecordFile) (src : Memory) (size cur : ℕ) (rid : Option Rid)
      (at : Rid)
      → leb size cur ≡ false
      → insert_part allocate_page file src size cur ≡ (ok at, after)
      → insert_parts allocate_page (suc fuel) file src size cur rid
        ≡ insert_parts allocate_page fuel after src size (cur + fixed_size) (some at)
  unfolding insert_parts
  round_ok fuel file after src size cur rid at more e = rw (more, e, insert_parts)

  round_err :
      (fuel : ℕ) (file after : RecordFile) (src : Memory) (size cur : ℕ) (rid : Option Rid)
      (rc : Rc)
      → leb size cur ≡ false
      → insert_part allocate_page file src size cur ≡ (err rc, after)
      → insert_parts allocate_page (suc fuel) file src size cur rid ≡ some (err rc, after)
  unfolding insert_parts
  round_err fuel file after src size cur rid rc more e = rw (more, e, insert_parts)

  pub insert_record-Stored :
      (file : RecordFile) (src : Memory) (size : ℕ)
      → Handled file
      → ((n : ℕ) (page : RecordPage)
          → file.pages n ≡ inr page
          → IsLaidOut page × (page.page_num ≡ n) × (page.record_real_size ≡ size))
      → IsBytes src
      → 8 < size
      → size ≤ fixed_size
      → Stored allocate_page file src size (insert_record allocate_page file src size)
  unfolding insert_record
  insert_record-Stored file src size handled laid bytes long small =
      go (insert_part allocate_page file src size 0) refl
        (insert_part-Placed file src size handled laid bytes long small)
    where
      begun : leb size 0 ≡ false
      begun = ground arith

      done : leb size (0 + fixed_size) ≡ true
      done = le→leb _ _ (omega arith)

      go :
          (r : Reply Rid)
          → insert_part allocate_page file src size 0 ≡ r
          → Placed allocate_page file src size r
          → Stored allocate_page file src size (insert_record allocate_page file src size)
      go (ok rid, after) e placed =
          rw
            (round_ok size file after src size 0 none rid begun e
              ∙ last_round size after src size (0 + fixed_size) (some rid) (omega arith) done)
            placed
      go (err rc, after) e placed = rw (round_err size file after src size 0 none rc begun e) placed
      go (fault, after) e placed = absurd placed
