-- ===== src/Rc/Text.antt =====
-- src/observer/rc.cpp: the names of the codes, as the clients and the log see them. Every code has a
-- case, so that the default is never reached.
pub mod Decode
use Prim.Native.String.{String}
use miniob.Rc.{Rc}

unfoldable pub strrc : Rc → String
strrc Rc.success = "SUCCESS"
strrc Rc.generic_error = "GENERIC_ERROR"
strrc Rc.invalid_argument = "INVALID_ARGUMENT"
strrc Rc.sql_syntax = "SQL_SYNTAX"
strrc Rc.bufferpool = "BUFFERPOOL"
strrc Rc.record_rc = "RECORD"
strrc Rc.internal = "INTERNAL"
strrc Rc.perm = "PERM"
strrc Rc.abort = "ABORT"
strrc Rc.busy = "BUSY"
strrc Rc.locked = "LOCKED"
strrc Rc.nomem = "NOMEM"
strrc Rc.readonly = "READONLY"
strrc Rc.interrupt = "INTERRUPT"
strrc Rc.ioerr = "IOERR"
strrc Rc.corrupt = "CORRUPT"
strrc Rc.notfound = "NOTFOUND"
strrc Rc.full = "FULL"
strrc Rc.cantopen = "CANTOPEN"
strrc Rc.protocol = "PROTOCOL"
strrc Rc.empty = "EMPTY"
strrc Rc.schema = "SCHEMA"
strrc Rc.toobig = "TOOBIG"
strrc Rc.constraint = "CONSTRAINT"
strrc Rc.mismatch = "MISMATCH"
strrc Rc.misuse = "MISUSE"
strrc Rc.nolfs = "NOLFS"
strrc Rc.auth = "AUTH"
strrc Rc.format = "FORMAT"
strrc Rc.range = "RANGE"
strrc Rc.notadb = "NOTADB"
strrc Rc.notice = "NOTICE"
strrc Rc.bufferpool_exist = "BUFFERPOOL_EXIST"
strrc Rc.bufferpool_fileerr = "BUFFERPOOL_FILEERR"
strrc Rc.bufferpool_invalidname = "BUFFERPOOL_INVALIDNAME"
strrc Rc.bufferpool_windows = "BUFFERPOOL_WINDOWS"
strrc Rc.bufferpool_closed = "BUFFERPOOL_CLOSED"
strrc Rc.bufferpool_open = "BUFFERPOOL_OPEN"
strrc Rc.bufferpool_nobuf = "BUFFERPOOL_NOBUF"
strrc Rc.bufferpool_eof = "BUFFERPOOL_EOF"
strrc Rc.bufferpool_invalid_page_num = "BUFFERPOOL_INVALID_PAGE_NUM"
strrc Rc.bufferpool_notinbuf = "BUFFERPOOL_NOTINBUF"
strrc Rc.bufferpool_page_pinned = "BUFFERPOOL_PAGE_PINNED"
strrc Rc.bufferpool_open_too_many_files = "BUFFERPOOL_OPEN_TOO_MANY_FILES"
strrc Rc.bufferpool_illegal_file_id = "BUFFERPOOL_ILLEGAL_FILE_ID"
strrc Rc.record_closed = "RECORD_CLOSED"
strrc Rc.record_openned = "RECORD_OPENNED"
strrc Rc.record_invalidrecsize = "RECORD_INVALIDRECSIZE"
strrc Rc.record_invalidrid = "RECORD_INVALIDRID"
strrc Rc.record_nomorerecinmem = "RECORD_NOMORERECINMEM"
strrc Rc.record_open = "RECORD_OPEN"
strrc Rc.record_no_more_idx_in_mem = "RECORD_NO_MORE_IDX_IN_MEM"
strrc Rc.record_invalid_key = "RECORD_INVALID_KEY"
strrc Rc.record_duplicate_key = "RECORD_DUPLICATE_KEY"
strrc Rc.record_nomem = "RECORD_NOMEM"
strrc Rc.record_scanclosed = "RECORD_SCANCLOSED"
strrc Rc.record_scanopenned = "RECORD_SCANOPENNED"
strrc Rc.record_eof = "RECORD_EOF"
strrc Rc.record_record_not_exist = "RECORD_RECORD_NOT_EXIST"
strrc Rc.schema_db_exist = "SCHEMA_DB_EXIST"
strrc Rc.schema_db_not_exist = "SCHEMA_DB_NOT_EXIST"
strrc Rc.schema_db_not_opened = "SCHEMA_DB_NOT_OPENED"
strrc Rc.schema_table_not_exist = "SCHEMA_TABLE_NOT_EXIST"
strrc Rc.schema_table_exist = "SCHEMA_TABLE_EXIST"
strrc Rc.schema_table_name_illegal = "SCHEMA_TABLE_NAME_ILLEGAL"
strrc Rc.schema_field_not_exist = "SCHEMA_FIELD_NOT_EXIST"
strrc Rc.schema_field_exist = "SCHEMA_FIELD_EXIST"
strrc Rc.schema_field_name_illegal = "SCHEMA_FIELD_NAME_ILLEGAL"
strrc Rc.schema_field_missing = "SCHEMA_FIELD_MISSING"
strrc Rc.schema_field_redundan = "SCHEMA_FIELD_REDUNDAN"
strrc Rc.schema_field_type_mismatch = "SCHEMA_FIELD_TYPE_MISMATCH"
strrc Rc.schema_index_name_repeat = "SCHEMA_INDEX_NAME_REPEAT"
strrc Rc.schema_index_exist = "SCHEMA_INDEX_EXIST"
strrc Rc.schema_index_not_exist = "SCHEMA_INDEX_NOT_EXIST"
strrc Rc.schema_index_name_illegal = "SCHEMA_INDEX_NAME_ILLEGAL"
strrc Rc.ioerr_read = "IOERR_READ"
strrc Rc.ioerr_short_read = "IOERR_SHORT_READ"
strrc Rc.ioerr_write = "IOERR_WRITE"
strrc Rc.ioerr_fsync = "IOERR_FSYNC"
strrc Rc.ioerr_dir_fsync = "IOERR_DIR_FSYNC"
strrc Rc.ioerr_truncate = "IOERR_TRUNCATE"
strrc Rc.ioerr_fstat = "IOERR_FSTAT"
strrc Rc.ioerr_delete = "IOERR_DELETE"
strrc Rc.ioerr_blocked = "IOERR_BLOCKED"
strrc Rc.ioerr_access = "IOERR_ACCESS"
strrc Rc.ioerr_checkreservedlock = "IOERR_CHECKRESERVEDLOCK"
strrc Rc.ioerr_close = "IOERR_CLOSE"
strrc Rc.ioerr_dir_close = "IOERR_DIR_CLOSE"
strrc Rc.ioerr_shmopen = "IOERR_SHMOPEN"
strrc Rc.ioerr_shmsize = "IOERR_SHMSIZE"
strrc Rc.ioerr_shmlock = "IOERR_SHMLOCK"
strrc Rc.ioerr_shmmap = "IOERR_SHMMAP"
strrc Rc.ioerr_seek = "IOERR_SEEK"
strrc Rc.ioerr_delete_noent = "IOERR_DELETE_NOENT"
strrc Rc.ioerr_mmap = "IOERR_MMAP"
strrc Rc.ioerr_gettemppath = "IOERR_GETTEMPPATH"
strrc Rc.ioerr_convpath = "IOERR_CONVPATH"
strrc Rc.ioerr_vnode = "IOERR_VNODE"
strrc Rc.ioerr_begin_atomic = "IOERR_BEGIN_ATOMIC"
strrc Rc.ioerr_commit_atomic = "IOERR_COMMIT_ATOMIC"
strrc Rc.ioerr_rollback_atomic = "IOERR_ROLLBACK_ATOMIC"
strrc Rc.ioerr_data = "IOERR_DATA"
strrc Rc.ioerr_corruptfs = "IOERR_CORRUPTFS"
strrc Rc.ioerr_open_too_many_files = "IOERR_OPEN_TOO_MANY_FILES"
strrc Rc.locked_lock = "LOCKED_LOCK"
strrc Rc.locked_unlock = "LOCKED_UNLOCK"
strrc Rc.locked_sharedcache = "LOCKED_SHAREDCACHE"
strrc Rc.locked_virt = "LOCKED_VIRT"
strrc Rc.locked_need_wait = "LOCKED_NEED_WAIT"
strrc Rc.locked_resource_deleted = "LOCKED_RESOURCE_DELETED"
strrc Rc.busy_recovery = "BUSY_RECOVERY"
strrc Rc.busy_snapshot = "BUSY_SNAPSHOT"
strrc Rc.busy_timeout = "BUSY_TIMEOUT"
strrc Rc.cantopen_notempdir = "CANTOPEN_NOTEMPDIR"
strrc Rc.cantopen_isdir = "CANTOPEN_ISDIR"
strrc Rc.cantopen_fullpath = "CANTOPEN_FULLPATH"
strrc Rc.cantopen_convpath = "CANTOPEN_CONVPATH"
strrc Rc.cantopen_dirtywal = "CANTOPEN_DIRTYWAL"
strrc Rc.cantopen_symlink = "CANTOPEN_SYMLINK"
strrc Rc.readonly_recovery = "READONLY_RECOVERY"
strrc Rc.readonly_cantlock = "READONLY_CANTLOCK"
strrc Rc.readonly_rollback = "READONLY_ROLLBACK"
strrc Rc.readonly_dbmoved = "READONLY_DBMOVED"
strrc Rc.readonly_cantinit = "READONLY_CANTINIT"
strrc Rc.readonly_directory = "READONLY_DIRECTORY"
strrc Rc.abort_rollback = "ABORT_ROLLBACK"
strrc Rc.constraint_check = "CONSTRAINT_CHECK"
strrc Rc.constraint_commithook = "CONSTRAINT_COMMITHOOK"
strrc Rc.constraint_foreignkey = "CONSTRAINT_FOREIGNKEY"
strrc Rc.constraint_function = "CONSTRAINT_FUNCTION"
strrc Rc.constraint_notnull = "CONSTRAINT_NOTNULL"
strrc Rc.constraint_primarykey = "CONSTRAINT_PRIMARYKEY"
strrc Rc.constraint_trigger = "CONSTRAINT_TRIGGER"
strrc Rc.constraint_unique = "CONSTRAINT_UNIQUE"
strrc Rc.constraint_virt = "CONSTRAINT_VIRT"
strrc Rc.constraint_rowid = "CONSTRAINT_ROWID"
strrc Rc.constraint_pinned = "CONSTRAINT_PINNED"
strrc Rc.notice_recover_wal = "NOTICE_RECOVER_WAL"
strrc Rc.notice_recover_rollback = "NOTICE_RECOVER_ROLLBACK"
strrc Rc.notice_autoindex = "NOTICE_AUTOINDEX"
strrc Rc.auth_user = "AUTH_USER"
