-- ===== src/Pool.antt =====
-- src/observer/storage/default/disk_buffer_pool.h: pages, frames and the calls to the file system.
-- The field `acc_time` of a frame is written once and never read: it is left out.
pub mod Manager
pub mod Files
use miniob.Base.{ℕ, ◌+◌, ◌*◌, ◌%◌, ◌^◌, Bool, Option, none, some, ◌==◌, if◌then◌else◌, Memory}

pub record Page : Type 0 where
  pub page_num : ℕ
  pub bytes : Memory

pub record Frame : Type 0 where
  pub dirty : Bool
  pub pin_count : ℕ
  pub file_desc : ℕ
  pub page : Page

-- `BPManager::LRUFrame`, without its links in the list.
pub record LruFrame : Type 0 where
  pub frame : Frame
  pub open frame use *
  pub allocated : Bool

-- The system calls: `lseek` to a page and `write` or `read` of `sizeof(Page)` bytes, on an open
-- descriptor, where `lseek` does not fail. `write` tells whether it transferred the
-- whole page, and what is on the disk afterwards, also when it did not; the result of `read` is `none`
-- if it did not transfer a whole page.
pub record Io : Type 1 where
  pub Disk : Type 0
  pub write : Disk → ℕ → ℕ → Page → Bool × Disk
  pub read : Disk → ℕ → ℕ → Option Page

-- `BPManager::key`, an unsigned long.
unfoldable pub key : ℕ → ℕ → ℕ
key file_desc page_num = (file_desc * 2 ^ 32 + page_num) % 2 ^ 64
