-- ===== src/Tree.antt =====
-- The B+ tree of src/observer/storage/common/bplus_tree.cpp: its nodes, and what the handler does with
-- them.
pub mod Node
pub mod Key
pub mod Balance
pub mod Pages
pub mod Grow
pub mod Shrink
pub mod Seek
pub mod Scanner
