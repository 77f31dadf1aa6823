-- ===== src/Lib.antt =====
-- Verification of the storage core of miniob.
--
-- A statement reaches `Table`, which keeps records in a `RecordFileHandler` and index entries in a
-- `BplusTreeHandler`. Both work on pages of the `DiskBufferPool`, whose frames `BPManager` hands out,
-- and every change of a record is queued in the session's `Trx`, which commits or rolls it back.
--
-- The parts, and the files that model them:
-- - Rc, Rc/Text: src/observer/rc.h and rc.cpp, the codes and `strrc`. `Outcome` is a value, a code, or
--   behaviour that C++ leaves undefined.
-- - Bitmap: deps/common/lang/bitmap.cpp. A bitmap is a memory, the offset of its first byte and its
--   size in bits; Byte, Write, Search and Next hold what is proved of it.
-- - Record: src/observer/storage/common/record_manager.cpp, `align8` to `page_header_size`;
--   Record/Page: `RecordPageHandler`, a function per method, from the page to the page after it;
--   Record/File: `RecordFileHandler` over the pages of a file, where `pages` is what `get_this_page`
--   answers and `allocate_page` a parameter; Record/Scanner: `RecordFileScanner`.
-- - Pool: src/observer/storage/default/disk_buffer_pool.h; Pool/Manager: bp_manager.cpp, a function
--   per method of `BPManager`; Pool/Files: disk_buffer_pool.cpp, `get_this_page`, `allocate_page`,
--   `dispose_page` and the rest. A frame is named by its index; `lseek`, `read` and `write` are the
--   parameter `Io`.
-- - Trx: src/observer/storage/trx/trx.cpp, the word in a record and the queue; Trx/Commit: `commit` and
--   `rollback` with `commit_delete`, `rollback_insert` and the others of common/table.cpp. What
--   `delete_entry_of_indexes` returns, and whether the page of a missing record is there, are parameters.
-- - Index: src/observer/storage/common/bplus_tree.cpp, `CmpKey` and what it calls; Index/Condition:
--   `BplusTreeScanner::satisfy_condition`. The arithmetic of floats is the parameter `Floats`.
-- - Tree: the B+ tree of the same file. Tree/Node: `IndexNode` and what the methods do to one node;
--   Tree/Balance: what splits, `coalesce_node` and `redistribute_nodes` do to two neighbours; Tree/Pages:
--   the file's pages as nodes, `find_leaf` and `get_entry`; Tree/Grow: `insert_entry`; Tree/Shrink:
--   `delete_entry`; Tree/Seek: `find_first_index_satisfied`; Tree/Scanner: `BplusTreeScanner`, with
--   what `satisfy_condition` answers as a parameter. The order of keys is the record `KeyOrder`, which
--   Tree/Key fills with `CmpKey`; the nodes' arrays are functions, and `allocate_page` is a parameter.
-- - Filter: src/observer/storage/common/condition_filter.cpp, `DefaultConditionFilter::filter` and
--   `CompositeConditionFilter::filter`. `strcmp`, `subquery_filter` and the set of an IN are parameters.
-- - Meta: src/observer/storage/common/field_meta.cpp and table_meta.cpp, the fields of a table.
--   Table: common/table.cpp. Table/Make: `make_record`, `RecordUpdater::make_record` and
--   `value_validation` of sql/parser/parse.cpp; Table/Change: `insert_record`, `update_record` and
--   `delete_record` of a record, and the loops over the indexes, whose operations are the record
--   `IndexOps`; Table/Scan: `scan_record` and `scan_record_by_index` over what the scanners answer.
--   `do_unique_select` and the day of a text are parameters.
-- - Base, Rc/Results: memory as a byte at each offset, Boolean tests and shared lemmas.
--   Tests: concrete inputs.
--
-- Loops run over a count of the bits, bytes, frames or pages that are left, which starts at all of
-- them, or over a list. The ways down and up the tree recur on fuel: more than the root's level is
-- enough on the way down. Native numbers stand for ints that are never negative; where one can
-- wrap, the remainder is written out.
--
-- A copy past the page's data, or of more than the caller has, is undefined in Record/File; in
-- Record/Page, which knows neither the page's end nor the length of the caller's data, it is not.
--
-- Not modelled: the counts of pins in the B+ tree; creation of tables, the deletion of records over
-- several pages from a table, the choice of an index for a scan, the metadata of indexes, the init
-- functions of conditions and their subqueries; opening, creating and closing files; the parser, the
-- executor, the network, the sessions and the rest of the common library.
pub mod Base
pub mod Rc
pub mod Bitmap
pub mod Record
pub mod Trx
pub mod Pool
pub mod Index
pub mod Tree
pub mod Filter
pub mod Meta
pub mod Table
pub mod Tests
