-- ===== src/Trx/Visible.antt =====
-- The transaction word of a record, and which transactions see the record.
use miniob.Base.{ℕ, ◌^◌, ◌<◌, ◌≡◌, Bool, true, false, not, ◌==◌, if◌then◌else◌, arith, ◌||◌}
use miniob.Trx.{Trx, set_record_trx_id, get_record_trx_id, is_visible}

-- Reading a word gives back the id and the mark that were written.
pub get-set_record_trx_id :
    (trx_id : ℕ) (deleted : Bool)
    → trx_id < 2 ^ 31
    → get_record_trx_id (set_record_trx_id trx_id deleted) ≡ (trx_id, deleted)
unfolding get_record_trx_id set_record_trx_id
get-set_record_trx_id trx_id true h = ground arith
get-set_record_trx_id trx_id false h = ground arith

-- What a transaction sees of a record that a transaction, whose id is below 2^31, has written or
-- marked as deleted:
-- a committed record that is not deleted and its own writes are seen, its own deletions and the
-- uncommitted writes of others are not, and the uncommitted deletions of others still are.
pub is_visible-set_record_trx_id :
    (trx : Trx) (writer : ℕ) (deleted : Bool)
    → writer < 2 ^ 31
    → is_visible trx (set_record_trx_id writer deleted)
      ≡ (if writer == 0 || writer == trx.trx_id then not deleted else deleted)
unfolding is_visible
is_visible-set_record_trx_id trx writer deleted h = rw (get-set_record_trx_id writer deleted h)
