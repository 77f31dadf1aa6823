-- ===== src/Rc.antt =====
-- src/observer/rc.h: the return codes, under the source's names.
pub mod Text
pub mod Results
use miniob.Base.{Bool, true, false, ◌≡◌, ◌≢◌, refl, ap}

pub data Rc : Type 0 where
  success generic_error invalid_argument sql_syntax bufferpool record_rc internal perm abort busy :
      Rc
  locked nomem readonly interrupt ioerr corrupt notfound full cantopen protocol empty schema : Rc
  toobig constraint mismatch misuse nolfs auth format range notadb notice bufferpool_exist : Rc
  bufferpool_fileerr bufferpool_invalidname bufferpool_windows bufferpool_closed : Rc
  bufferpool_open bufferpool_nobuf bufferpool_eof bufferpool_invalid_page_num : Rc
  bufferpool_notinbuf bufferpool_page_pinned bufferpool_open_too_many_files : Rc
  bufferpool_illegal_file_id record_closed record_openned record_invalidrecsize : Rc
  record_invalidrid record_nomorerecinmem record_open record_no_more_idx_in_mem : Rc
  record_invalid_key record_duplicate_key record_nomem record_scanclosed record_scanopenned : Rc
  record_eof record_record_not_exist schema_db_exist schema_db_not_exist schema_db_not_opened : Rc
  schema_table_not_exist schema_table_exist schema_table_name_illegal schema_field_not_exist : Rc
  schema_field_exist schema_field_name_illegal schema_field_missing schema_field_redundan : Rc
  schema_field_type_mismatch schema_index_name_repeat schema_index_exist schema_index_not_exist : Rc
  schema_index_name_illegal ioerr_read ioerr_short_read ioerr_write ioerr_fsync ioerr_dir_fsync : Rc
  ioerr_truncate ioerr_fstat ioerr_delete ioerr_blocked ioerr_access ioerr_checkreservedlock : Rc
  ioerr_close ioerr_dir_close ioerr_shmopen ioerr_shmsize ioerr_shmlock ioerr_shmmap ioerr_seek : Rc
  ioerr_delete_noent ioerr_mmap ioerr_gettemppath ioerr_convpath ioerr_vnode ioerr_begin_atomic : Rc
  ioerr_commit_atomic ioerr_rollback_atomic ioerr_data ioerr_corruptfs : Rc
  ioerr_open_too_many_files locked_lock locked_unlock locked_sharedcache locked_virt : Rc
  locked_need_wait locked_resource_deleted busy_recovery busy_snapshot busy_timeout : Rc
  cantopen_notempdir cantopen_isdir cantopen_fullpath cantopen_convpath cantopen_dirtywal : Rc
  cantopen_symlink readonly_recovery readonly_cantlock readonly_rollback readonly_dbmoved : Rc
  readonly_cantinit readonly_directory abort_rollback constraint_check constraint_commithook : Rc
  constraint_foreignkey constraint_function constraint_notnull constraint_primarykey : Rc
  constraint_trigger constraint_unique constraint_virt constraint_rowid constraint_pinned : Rc
  notice_recover_wal notice_recover_rollback notice_autoindex auth_user : Rc

-- `rc == RC::SUCCESS`
unfoldable pub is_success : Rc → Bool
is_success success = true
is_success _ = false

-- What an operation does: a value under RC::SUCCESS, an error code that leaves its object as it
-- was, or behaviour that C++ leaves undefined.
pub data Outcome {ℓ} (A : Type ℓ) : Type ℓ where
  ok : A → Outcome A
  err : Rc → Outcome A
  fault : Outcome A

infixl 5 ◌>>=◌
abbrev pub ◌>>=◌ {ℓ κ} : {A : Type ℓ} {B : Type κ} → Outcome A → (A → Outcome B) → Outcome B
ok a >>= f = f a
err e >>= f = err e
fault >>= f = fault

-- `rc == RC::RECORD_EOF`
abbrev pub is_eof : Rc → Bool
is_eof record_eof = true
is_eof _ = false

-- `rc == RC::BUFFERPOOL_INVALID_PAGE_NUM`
abbrev pub is_invalid_page : Rc → Bool
is_invalid_page bufferpool_invalid_page_num = true
is_invalid_page _ = false

pub is_invalid_page-eq : (rc : Rc) → is_invalid_page rc ≡ true → rc ≡ bufferpool_invalid_page_num
is_invalid_page-eq bufferpool_invalid_page_num h = refl
is_invalid_page-eq _ h = cc

pub is_invalid_page-ne : (rc : Rc) → is_invalid_page rc ≡ false → rc ≢ bufferpool_invalid_page_num
is_invalid_page-ne rc h e = cc (ap is_invalid_page e)
