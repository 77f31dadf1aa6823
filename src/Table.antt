-- ===== src/Table.antt =====
-- src/observer/storage/common/table.cpp: the records of a table and the entries of its indexes.
pub mod Make
pub mod Change
pub mod Scan
