-- ===== src/Record/Scanner/Hits.antt =====
-- Which record a scan finds on one page.
use miniob.Base.{
  ℕ, zero, suc, ◌+◌, ◌≤◌, ◌<◌, ◌≡◌, inl, inr, refl, sym, ap, Bool, true, false, ◌&&◌, Option, none,
  some, ◌==◌, arith, Bool-cases,
}
use miniob.Bitmap.Search.{First, First-extend}
use miniob.Rc.{Outcome, ok, err, fault, record_eof}
use miniob.Record.{Record}
use miniob.Record.Page
use miniob.Record.Page.{RecordPage, live, record_at, next_slot}
use miniob.Record.Page.Scan.{Next, AtLive, get_next_record-Next}
use miniob.Record.Scanner.{next_in_page}

-- The record in a slot of a page.
abbrev pub record_in : RecordPage → ℕ → Record
record_in page slot = record_at page (record { page_num = page.page_num; slot_num = slot })

module _ (test : Record → Bool) where
  -- The slot holds a record that passes the filter.
  abbrev pub hit : RecordPage → ℕ → Bool
  hit page slot = live page slot && test (record_in page slot)

  abbrev pub NextHit : RecordPage → ℕ → Outcome Record → Type 0
  NextHit page from (ok rec) =
      (slot : ℕ) × (rec ≡ record_in page slot)
      × First (hit page) from page.record_capacity (some slot)
  NextHit page from (err rc) = (rc ≡ record_eof) × First (hit page) from page.record_capacity none
  NextHit page from fault = ⊥

  NextHit-extend :
      (page : RecordPage) (from mid : ℕ) (r : Outcome Record)
      → from ≤ mid
      → ((j : ℕ) → from ≤ j → j < mid → hit page j ≡ false)
      → NextHit page mid r
      → NextHit page from r
  NextHit-extend page from mid (ok rec) le before (slot, e, f) =
      (slot, e, First-extend (hit page) from mid _ _ (some slot) le refl before f)
  NextHit-extend page from mid (err rc) le before (e, f) =
      (e, First-extend (hit page) from mid _ _ none le refl before f)
  NextHit-extend page from mid fault le before h = h

  not_live : (page : RecordPage) (j : ℕ) → live page j ≡ false → hit page j ≡ false
  not_live page j h = rw h

  -- A slot up to one whose record fails the filter, if those before it are not live.
  before :
      (page : RecordPage) (slot j : ℕ)
      → test (record_in page slot) ≡ false
      → j < slot + 1
      → (j < slot → live page j ≡ false)
      → hit page j ≡ false
  before page slot j fails below dead = elim (Bool-cases (j == slot)) [
    | inl e ↦ let same : j ≡ slot = ground arith in rw same (rw fails (and-false (live page slot)))
    | inr e ↦ not_live page j (dead (ground arith))
  ]
    where
      and-false : (b : Bool) → (b && false) ≡ false
      and-false true = refl
      and-false false = refl

  -- The page's own search, in the order of its slots.
  pub next_in_page-NextHit :
      (n : ℕ) (page : RecordPage) (cursor : Option ℕ)
      → AtLive page cursor
      → page.record_capacity ≤ next_slot cursor + n
      → NextHit page (next_slot cursor) (next_in_page n test page cursor)
  unfolding next_in_page
  next_in_page-NextHit zero page cursor at enough = (refl, λ j l h. absurd (omega arith))
  next_in_page-NextHit (suc n) page cursor at enough =
      go (Page.get_next_record page cursor) refl (get_next_record-Next page cursor at)
        (λ slot l le. next_in_page-NextHit n page (some slot) l (omega (arith, le)))
    where
      go :
          (r : Outcome Record)
          → Page.get_next_record page cursor ≡ r
          → Next page cursor r
          → ((slot : ℕ)
              → live page slot ≡ true
              → next_slot cursor ≤ slot
              → NextHit page (slot + 1) (next_in_page n test page (some slot)))
          → NextHit page (next_slot cursor) (next_in_page (suc n) test page cursor)
      go (err rc) e (eof, f) rest = rw (e, next_in_page) (eof, λ j l h. not_live page j (f j l h))
      go fault e h rest = absurd h
      go (ok rec) e (at_slot, f) rest =
          let slot = rec.rid.slot_num in
          let same : test (record_in page slot) ≡ test rec = sym (ap test at_slot) in
          elim (Bool-cases (test rec)) [
            | inl t ↦
                rw (e, t, next_in_page)
                  (
                    slot,
                    at_slot,
                    (f.0, f.1, rw (f.2, same, t), λ j l h. not_live page j (f.3 j l h)),
                  )
            | inr t ↦
                rw (e, t, next_in_page)
                  (NextHit-extend page (next_slot cursor) (slot + 1) _ (omega (arith, f.0))
                    (λ j l h. before page slot j (rw (same, t)) (omega arith) (f.3 j l))
                    (rest slot f.2 f.0))
          ]
