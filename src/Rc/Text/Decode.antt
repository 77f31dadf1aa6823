-- ===== src/Rc/Text/Decode.antt =====
-- The codes can be told apart by their names.
use Prim.Native.String.{String}
use text.Mathlib.Text.{◌==◌}
use miniob.Base.{◌≡◌, refl, Option, none, some, List, [], ◌∷◌, if◌then◌else◌}
use miniob.Rc.{Rc}
use miniob.Rc.Text.{strrc}

-- The codes in the order of `strrc`.
abbrev all_codes : List Rc
all_codes =
    Rc.success ∷ Rc.generic_error ∷ Rc.invalid_argument ∷ Rc.sql_syntax ∷ Rc.bufferpool
    ∷ Rc.record_rc ∷ Rc.internal ∷ Rc.perm ∷ Rc.abort ∷ Rc.busy ∷ Rc.locked ∷ Rc.nomem ∷ Rc.readonly
    ∷ Rc.interrupt ∷ Rc.ioerr ∷ Rc.corrupt ∷ Rc.notfound ∷ Rc.full ∷ Rc.cantopen ∷ Rc.protocol
    ∷ Rc.empty ∷ Rc.schema ∷ Rc.toobig ∷ Rc.constraint ∷ Rc.mismatch ∷ Rc.misuse ∷ Rc.nolfs
    ∷ Rc.auth ∷ Rc.format ∷ Rc.range ∷ Rc.notadb ∷ Rc.notice ∷ Rc.bufferpool_exist
    ∷ Rc.bufferpool_fileerr ∷ Rc.bufferpool_invalidname ∷ Rc.bufferpool_windows
    ∷ Rc.bufferpool_closed ∷ Rc.bufferpool_open ∷ Rc.bufferpool_nobuf ∷ Rc.bufferpool_eof
    ∷ Rc.bufferpool_invalid_page_num ∷ Rc.bufferpool_notinbuf ∷ Rc.bufferpool_page_pinned
    ∷ Rc.bufferpool_open_too_many_files ∷ Rc.bufferpool_illegal_file_id ∷ Rc.record_closed
    ∷ Rc.record_openned ∷ Rc.record_invalidrecsize ∷ Rc.record_invalidrid ∷ Rc.record_nomorerecinmem
    ∷ Rc.record_open ∷ Rc.record_no_more_idx_in_mem ∷ Rc.record_invalid_key
    ∷ Rc.record_duplicate_key ∷ Rc.record_nomem ∷ Rc.record_scanclosed ∷ Rc.record_scanopenned
    ∷ Rc.record_eof ∷ Rc.record_record_not_exist ∷ Rc.schema_db_exist ∷ Rc.schema_db_not_exist
    ∷ Rc.schema_db_not_opened ∷ Rc.schema_table_not_exist ∷ Rc.schema_table_exist
    ∷ Rc.schema_table_name_illegal ∷ Rc.schema_field_not_exist ∷ Rc.schema_field_exist
    ∷ Rc.schema_field_name_illegal ∷ Rc.schema_field_missing ∷ Rc.schema_field_redundan
    ∷ Rc.schema_field_type_mismatch ∷ Rc.schema_index_name_repeat ∷ Rc.schema_index_exist
    ∷ Rc.schema_index_not_exist ∷ Rc.schema_index_name_illegal ∷ Rc.ioerr_read ∷ Rc.ioerr_short_read
    ∷ Rc.ioerr_write ∷ Rc.ioerr_fsync ∷ Rc.ioerr_dir_fsync ∷ Rc.ioerr_truncate ∷ Rc.ioerr_fstat
    ∷ Rc.ioerr_delete ∷ Rc.ioerr_blocked ∷ Rc.ioerr_access ∷ Rc.ioerr_checkreservedlock
    ∷ Rc.ioerr_close ∷ Rc.ioerr_dir_close ∷ Rc.ioerr_shmopen ∷ Rc.ioerr_shmsize ∷ Rc.ioerr_shmlock
    ∷ Rc.ioerr_shmmap ∷ Rc.ioerr_seek ∷ Rc.ioerr_delete_noent ∷ Rc.ioerr_mmap ∷ Rc.ioerr_gettemppath
    ∷ Rc.ioerr_convpath ∷ Rc.ioerr_vnode ∷ Rc.ioerr_begin_atomic ∷ Rc.ioerr_commit_atomic
    ∷ Rc.ioerr_rollback_atomic ∷ Rc.ioerr_data ∷ Rc.ioerr_corruptfs ∷ Rc.ioerr_open_too_many_files
    ∷ Rc.locked_lock ∷ Rc.locked_unlock ∷ Rc.locked_sharedcache ∷ Rc.locked_virt
    ∷ Rc.locked_need_wait ∷ Rc.locked_resource_deleted ∷ Rc.busy_recovery ∷ Rc.busy_snapshot
    ∷ Rc.busy_timeout ∷ Rc.cantopen_notempdir ∷ Rc.cantopen_isdir ∷ Rc.cantopen_fullpath
    ∷ Rc.cantopen_convpath ∷ Rc.cantopen_dirtywal ∷ Rc.cantopen_symlink ∷ Rc.readonly_recovery
    ∷ Rc.readonly_cantlock ∷ Rc.readonly_rollback ∷ Rc.readonly_dbmoved ∷ Rc.readonly_cantinit
    ∷ Rc.readonly_directory ∷ Rc.abort_rollback ∷ Rc.constraint_check ∷ Rc.constraint_commithook
    ∷ Rc.constraint_foreignkey ∷ Rc.constraint_function ∷ Rc.constraint_notnull
    ∷ Rc.constraint_primarykey ∷ Rc.constraint_trigger ∷ Rc.constraint_unique ∷ Rc.constraint_virt
    ∷ Rc.constraint_rowid ∷ Rc.constraint_pinned ∷ Rc.notice_recover_wal
    ∷ Rc.notice_recover_rollback ∷ Rc.notice_autoindex ∷ Rc.auth_user ∷ []

unfoldable pub find_code : List Rc → String → Option Rc
find_code [] name = none
find_code (rc ∷ rcs) name =
    let rest = find_code rcs name in if strrc rc == name then some rc else rest

unfoldable pub decode : String → Option Rc
decode name = find_code all_codes name

-- The name of a code leads back to the code: no two codes have the same name.
decode-strrc : (rc : Rc) → decode (strrc rc) ≡ some rc
unfolding decode find_code strrc
decode-strrc Rc.success = refl
decode-strrc Rc.generic_error = refl
decode-strrc Rc.invalid_argument = refl
decode-strrc Rc.sql_syntax = refl
decode-strrc Rc.bufferpool = refl
decode-strrc Rc.record_rc = refl
decode-strrc Rc.internal = refl
decode-strrc Rc.perm = refl
decode-strrc Rc.abort = refl
decode-strrc Rc.busy = refl
decode-strrc Rc.locked = refl
decode-strrc Rc.nomem = refl
decode-strrc Rc.readonly = refl
decode-strrc Rc.interrupt = refl
decode-strrc Rc.ioerr = refl
decode-strrc Rc.corrupt = refl
decode-strrc Rc.notfound = refl
decode-strrc Rc.full = refl
decode-strrc Rc.cantopen = refl
decode-strrc Rc.protocol = refl
decode-strrc Rc.empty = refl
decode-strrc Rc.schema = refl
decode-strrc Rc.toobig = refl
decode-strrc Rc.constraint = refl
decode-strrc Rc.mismatch = refl
decode-strrc Rc.misuse = refl
decode-strrc Rc.nolfs = refl
decode-strrc Rc.auth = refl
decode-strrc Rc.format = refl
decode-strrc Rc.range = refl
decode-strrc Rc.notadb = refl
decode-strrc Rc.notice = refl
decode-strrc Rc.bufferpool_exist = refl
decode-strrc Rc.bufferpool_fileerr = refl
decode-strrc Rc.bufferpool_invalidname = refl
decode-strrc Rc.bufferpool_windows = refl
decode-strrc Rc.bufferpool_closed = refl
decode-strrc Rc.bufferpool_open = refl
decode-strrc Rc.bufferpool_nobuf = refl
decode-strrc Rc.bufferpool_eof = refl
decode-strrc Rc.bufferpool_invalid_page_num = refl
decode-strrc Rc.bufferpool_notinbuf = refl
decode-strrc Rc.bufferpool_page_pinned = refl
decode-strrc Rc.bufferpool_open_too_many_files = refl
decode-strrc Rc.bufferpool_illegal_file_id = refl
decode-strrc Rc.record_closed = refl
decode-strrc Rc.record_openned = refl
decode-strrc Rc.record_invalidrecsize = refl
decode-strrc Rc.record_invalidrid = refl
decode-strrc Rc.record_nomorerecinmem = refl
decode-strrc Rc.record_open = refl
decode-strrc Rc.record_no_more_idx_in_mem = refl
decode-strrc Rc.record_invalid_key = refl
decode-strrc Rc.record_duplicate_key = refl
decode-strrc Rc.record_nomem = refl
decode-strrc Rc.record_scanclosed = refl
decode-strrc Rc.record_scanopenned = refl
decode-strrc Rc.record_eof = refl
decode-strrc Rc.record_record_not_exist = refl
decode-strrc Rc.schema_db_exist = refl
decode-strrc Rc.schema_db_not_exist = refl
decode-strrc Rc.schema_db_not_opened = refl
decode-strrc Rc.schema_table_not_exist = refl
decode-strrc Rc.schema_table_exist = refl
decode-strrc Rc.schema_table_name_illegal = refl
decode-strrc Rc.schema_field_not_exist = refl
decode-strrc Rc.schema_field_exist = refl
decode-strrc Rc.schema_field_name_illegal = refl
decode-strrc Rc.schema_field_missing = refl
decode-strrc Rc.schema_field_redundan = refl
decode-strrc Rc.schema_field_type_mismatch = refl
decode-strrc Rc.schema_index_name_repeat = refl
decode-strrc Rc.schema_index_exist = refl
decode-strrc Rc.schema_index_not_exist = refl
decode-strrc Rc.schema_index_name_illegal = refl
decode-strrc Rc.ioerr_read = refl
decode-strrc Rc.ioerr_short_read = refl
decode-strrc Rc.ioerr_write = refl
decode-strrc Rc.ioerr_fsync = refl
decode-strrc Rc.ioerr_dir_fsync = refl
decode-strrc Rc.ioerr_truncate = refl
decode-strrc Rc.ioerr_fstat = refl
decode-strrc Rc.ioerr_delete = refl
decode-strrc Rc.ioerr_blocked = refl
decode-strrc Rc.ioerr_access = refl
decode-strrc Rc.ioerr_checkreservedlock = refl
decode-strrc Rc.ioerr_close = refl
decode-strrc Rc.ioerr_dir_close = refl
decode-strrc Rc.ioerr_shmopen = refl
decode-strrc Rc.ioerr_shmsize = refl
decode-strrc Rc.ioerr_shmlock = refl
decode-strrc Rc.ioerr_shmmap = refl
decode-strrc Rc.ioerr_seek = refl
decode-strrc Rc.ioerr_delete_noent = refl
decode-strrc Rc.ioerr_mmap = refl
decode-strrc Rc.ioerr_gettemppath = refl
decode-strrc Rc.ioerr_convpath = refl
decode-strrc Rc.ioerr_vnode = refl
decode-strrc Rc.ioerr_begin_atomic = refl
decode-strrc Rc.ioerr_commit_atomic = refl
decode-strrc Rc.ioerr_rollback_atomic = refl
decode-strrc Rc.ioerr_data = refl
decode-strrc Rc.ioerr_corruptfs = refl
decode-strrc Rc.ioerr_open_too_many_files = refl
decode-strrc Rc.locked_lock = refl
decode-strrc Rc.locked_unlock = refl
decode-strrc Rc.locked_sharedcache = refl
decode-strrc Rc.locked_virt = refl
decode-strrc Rc.locked_need_wait = refl
decode-strrc Rc.locked_resource_deleted = refl
decode-strrc Rc.busy_recovery = refl
decode-strrc Rc.busy_snapshot = refl
decode-strrc Rc.busy_timeout = refl
decode-strrc Rc.cantopen_notempdir = refl
decode-strrc Rc.cantopen_isdir = refl
decode-strrc Rc.cantopen_fullpath = refl
decode-strrc Rc.cantopen_convpath = refl
decode-strrc Rc.cantopen_dirtywal = refl
decode-strrc Rc.cantopen_symlink = refl
decode-strrc Rc.readonly_recovery = refl
decode-strrc Rc.readonly_cantlock = refl
decode-strrc Rc.readonly_rollback = refl
decode-strrc Rc.readonly_dbmoved = refl
decode-strrc Rc.readonly_cantinit = refl
decode-strrc Rc.readonly_directory = refl
decode-strrc Rc.abort_rollback = refl
decode-strrc Rc.constraint_check = refl
decode-strrc Rc.constraint_commithook = refl
decode-strrc Rc.constraint_foreignkey = refl
decode-strrc Rc.constraint_function = refl
decode-strrc Rc.constraint_notnull = refl
decode-strrc Rc.constraint_primarykey = refl
decode-strrc Rc.constraint_trigger = refl
decode-strrc Rc.constraint_unique = refl
decode-strrc Rc.constraint_virt = refl
decode-strrc Rc.constraint_rowid = refl
decode-strrc Rc.constraint_pinned = refl
decode-strrc Rc.notice_recover_wal = refl
decode-strrc Rc.notice_recover_rollback = refl
decode-strrc Rc.notice_autoindex = refl
decode-strrc Rc.auth_user = refl
