-- ===== src/Tests/Parts.antt =====
-- A scan of one record in two parts, with a reader that counts the records.
use miniob.Base.{ℕ, ◌+◌, ◌≡◌, refl, Bool, true, none, List, [], ◌∷◌, Memory, memcpy}
use miniob.Rc.{Rc, success, record_eof, is_success}
use miniob.Record.{Record}
use miniob.Table.Scan.{scan_record, scan_parts, connected, connect_record, restarted}

abbrev part : ℕ → Record
part page = record { rid = record { page_num = page; slot_num = 0 }; bytes = λ i. page }

abbrev counted : ℕ → Record → Rc × ℕ
counted n rec = (success, n + 1)

abbrev every : Record → Bool
every rec = true

abbrev parts : Bool → List Record × Rc
parts filtered = (part 1 ∷ part 2 ∷ [], record_eof)

read_once : (scan_record every counted every (part 0).rid 5000 none parts 2 0 0).1 ≡ 1
unfolding scan_record scan_parts connected restarted is_success
read_once = refl

-- The limit of one is used up by the first part.
never_read : (scan_record every counted every (part 0).rid 5000 none parts 1 0 0).1 ≡ 0
unfolding scan_record scan_parts connected restarted is_success
never_read = refl

abbrev joined : Memory
joined = connect_record 1 (connect_record 0 (λ i. 0) (part 1).bytes 0 4056) (part 2).bytes 4056 944

first_of_second : joined 4056 ≡ 2
unfolding connect_record memcpy
first_of_second = refl

last_of_first : joined 4055 ≡ 1
unfolding connect_record memcpy
last_of_first = refl
