-- ===== src/Tests.antt =====
-- The theorems at concrete inputs.
mod Records
mod Files
mod Inserts
mod Bitmaps
mod Transactions
mod Buffers
mod Indexes
mod Nodes
mod Trees
mod Filters
mod Scans
mod Tables
mod Parts
