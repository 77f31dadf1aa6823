-- ===== src/Table/Scan/Limit.antt =====
-- Which records the two scans read under a limit.
use miniob.Base.{
  ◌==◌, arith, ℕ, zero, suc, ◌^◌, ◌<◌, ◌≤◌, ◌≡◌, refl, ap, ◌∙◌, Option, none, some, inl, Bool, true,
  false, Bool-cases, ◌&&◌, inr, List, [], ◌∷◌, if◌then◌else◌,
}
use miniob.Rc.{Rc, is_success}
use miniob.Record.{Rid, Record}
use miniob.Table.Scan.{scan_limit, per_size, scan_record, scan_records, scan_entries}

-- The records that a test keeps, and the first ones of a list.
abbrev pub keep : (Record → Bool) → List Record → List Record
keep test [] = []
keep test (rec ∷ records) = if test rec then rec ∷ keep test records else keep test records

abbrev pub first {ℓ} : {A : Type ℓ} → ℕ → List A → List A
first zero l = []
first (suc n) [] = []
first (suc n) (a ∷ l) = a ∷ first n l

abbrev pub records_at : (Rid → Record) → List Rid → List Record
records_at record_at [] = []
records_at record_at (rid ∷ rids) = record_at rid ∷ records_at record_at rids

abbrev pub length {ℓ} : {A : Type ℓ} → List A → ℕ
length [] = 0
length (a ∷ l) = suc (length l)

abbrev pub get_elem? {ℓ} : {A : Type ℓ} → List A → ℕ → Option A
get_elem? [] i = none
get_elem? (a ∷ l) zero = some a
get_elem? (a ∷ l) (suc i) = get_elem? l i

-- Two filters one after the other.
keep-keep :
    (p q : Record → Bool) (records : List Record)
    → keep p (keep q records) ≡ keep (λ rec. p rec && q rec) records
keep-keep p q [] = refl
keep-keep p q (rec ∷ records) = elim (Bool-cases (q rec)) [
  | inl e ↦ elim (Bool-cases (p rec)) [
    | inl d ↦ rw (e, d) (ap (λ l. rec ∷ l) (keep-keep p q records))
    | inr d ↦ rw (e, d) (keep-keep p q records)
  ]
  | inr e ↦ elim (Bool-cases (p rec)) [
    | inl d ↦ rw (e, d) (keep-keep p q records)
    | inr d ↦ rw (e, d) (keep-keep p q records)
  ]
]

length-first {ℓ} : {A : Type ℓ} (n : ℕ) (l : List A) → n ≤ length l → length (first n l) ≡ n
length-first zero l h = refl
length-first (suc n) [] h = absurd (omega arith)
length-first (suc n) (a ∷ l) h = ap suc (length-first n l (omega arith))

length-keep-first :
    (test : Record → Bool) (record_at : Rid → Record) (n : ℕ) (rids : List Rid)
    → length (keep test (records_at record_at (first n rids))) ≤ n
length-keep-first test record_at zero rids = omega arith
length-keep-first test record_at (suc n) [] = omega arith
length-keep-first test record_at (suc n) (rid ∷ rids) =
    ground (arith, length-keep-first test record_at n rids)

-- Among the first entries is one that the test rejects.
keep-first-lt :
    (test : Record → Bool) (record_at : Rid → Record) (n : ℕ) (rids : List Rid) (i : ℕ) (rid : Rid)
    → get_elem? rids i ≡ some rid
    → i < n
    → test (record_at rid) ≡ false
    → length (keep test (records_at record_at (first n rids))) < n
keep-first-lt test record_at n [] i rid e h f = absurd (cc e)
keep-first-lt test record_at zero (r ∷ rids) i rid e h f = absurd (omega arith)
keep-first-lt test record_at (suc n) (r ∷ rids) zero rid e h f =
    let same : r ≡ rid = ground arith in
    let rejected : test (record_at r) ≡ false = rw same f in
    rw rejected (omega (arith, length-keep-first test record_at n rids))
keep-first-lt test record_at (suc n) (r ∷ rids) (suc i) rid e h f =
    ground (arith, keep-first-lt test record_at n rids i rid e)

module _ {S : Type 0} (is_visible : Record → Bool) (record_reader : S → Record → Rc × S) where
  -- The reader's state after a list of records.
  abbrev pub read_all : S → List Record → S
  read_all state [] = state
  read_all state (rec ∷ records) = read_all (record_reader state rec).1 records

  module _ (accepts : (s : S) (rec : Record) → is_success (record_reader s rec).0 ≡ true) where
    scan_records-state :
        (limit : ℕ) (records : List Record) (end : Rc) (state : S)
        → (scan_records is_visible record_reader limit records end state).1
          ≡ read_all state (first limit (keep is_visible records))
    unfolding scan_records
    scan_records-state zero [] end state = refl
    scan_records-state (suc limit) [] end state = refl
    scan_records-state zero (rec ∷ records) end state = refl
    scan_records-state (suc limit) (rec ∷ records) end state = elim (Bool-cases (is_visible rec)) [
      | inl e ↦
          rw (e, accepts state rec)
            (scan_records-state limit records end (record_reader state rec).1)
      | inr e ↦ rw e (scan_records-state (suc limit) records end state)
    ]

    scan_record-state :
        (filter : Record → Bool) (blank : Rid) (record_size : ℕ) (answers : Bool → List Record × Rc)
        (limit started : ℕ) (state : S)
        → 0 < record_size
        → record_size ≤ 4056
        → 0 < limit
        → (scan_record is_visible record_reader filter blank record_size none answers limit started
            state).1
          ≡ read_all state (first (scan_limit limit) (keep is_visible (answers true).0))
    unfolding scan_record
    scan_record-state filter blank record_size answers limit started state some_size one_part h =
        let one : (per_size record_size == 1) ≡ true = ground arith in
        let asked : (limit == 0) ≡ false = ground arith in
        rw (one, asked)
          (scan_records-state (scan_limit limit) (answers true).0 (answers true).1 state)

    scan_entries-state :
        (filter : Record → Bool) (record_at : Rid → Record) (limit : ℕ) (rids : List Rid) (end : Rc)
        (state : S)
        → (scan_entries is_visible record_reader filter
            (λ rid. inr (record_at rid))
            limit
            rids
            end
            state).1
          ≡ read_all state
              (keep (λ rec. is_visible rec && filter rec) (records_at record_at (first limit rids)))
    unfolding scan_entries
    scan_entries-state filter record_at zero rids end state = refl
    scan_entries-state filter record_at (suc limit) [] end state = refl
    scan_entries-state filter record_at (suc limit) (rid ∷ rids) end state =
        elim (Bool-cases (is_visible (record_at rid) && filter (record_at rid))) [
          | inl e ↦
              rw (e, accepts state (record_at rid))
                (scan_entries-state filter record_at limit rids end
                  (record_reader state (record_at rid)).1)
          | inr e ↦ rw e (scan_entries-state filter record_at limit rids end state)
        ]

    -- A table whose records have one part, that is at most 4056 bytes, is scanned under a limit below
    -- 2 ^ 31 that is at most the number of records which are visible and pass the filter. If one of the
    -- first `limit` entries of an index is not visible or does not pass, the two scans of the same
    -- records in the same order differ: `scan_record` without an index, whose scanner applies the filter,
    -- reads the first `limit` records that are visible and pass it; `scan_record_by_index` reads only
    -- those among the first `limit` entries, and so fewer. It is so whatever the reader does as long as
    -- it accepts the records. The record file has each entry's record.
    pub scan-limit :
        (filter : Record → Bool) (record_at : Rid → Record) (limit : ℕ) (rids : List Rid) (i : ℕ)
        (rid blank : Rid) (record_size started : ℕ) (answers : Bool → List Record × Rc) (end : Rc)
        (state : S)
        → (answers true).0 ≡ keep filter (records_at record_at rids)
        → 0 < record_size
        → record_size ≤ 4056
        → limit < 2 ^ 31
        → limit ≤ length (keep (λ rec. is_visible rec && filter rec) (records_at record_at rids))
        → get_elem? rids i ≡ some rid
        → i < limit
        → is_visible (record_at rid) && filter (record_at rid) ≡ false
        → let test = λ (rec : Record). is_visible rec && filter rec in
          let by_file = first limit (keep test (records_at record_at rids)) in
          let by_index = keep test (records_at record_at (first limit rids)) in
          ((scan_record is_visible record_reader filter blank record_size none answers limit started
              state).1
            ≡ read_all state by_file)
          × ((scan_entries is_visible record_reader filter
                (λ rid. inr (record_at rid))
                limit
                rids
                end
                state).1
              ≡ read_all state by_index)
          × (length by_file ≡ limit)
          × (length by_index < limit)
    scan-limit filter record_at limit rids i rid blank record_size started answers end state
          filtered some_size one_part small enough there early rejected =
        let test = λ (rec : Record). is_visible rec && filter rec in
        let all = records_at record_at rids in
        let unchanged : scan_limit limit ≡ limit = ground arith in
        (
          scan_record-state filter blank record_size answers limit started state some_size one_part
                (omega arith)
              ∙ ap (λ l. read_all state (first (scan_limit limit) (keep is_visible l))) filtered
              ∙ ap (λ n. read_all state (first n (keep is_visible (keep filter all)))) unchanged
              ∙ ap (λ l. read_all state (first limit l)) (keep-keep is_visible filter all),
          scan_entries-state filter record_at limit rids end state,
          length-first limit (keep test all) enough,
          keep-first-lt test record_at limit rids i rid there early rejected,
        )
