-- ===== src/Pool/Manager/Stale.antt =====
-- `dispose_page` frees a frame but leaves the page in the map.
use miniob.Base.{ℕ, ◌≡◌, ◌≢◌, refl, true, false, some, arith}
use miniob.Rc.{success}
use miniob.Pool.{Io, key}
use miniob.Pool.Manager.{
  Manager, set_frame, lru_update, find, find_unallocated, get, take_frame, alloc, dispose_page,
}
use miniob.Pool.Manager.Alloc.{alloc-free}

module _ (m : Manager) (file_desc p i : ℕ) (held : find m file_desc p ≡ some i)
    (idle : (m.frames i).pin_count ≡ 0) where
  abbrev freed : Manager
  freed = set_frame m i (record (m.frames i) { allocated = false })

  dispose_page-freed : dispose_page m file_desc p ≡ (success, freed)
  unfolding dispose_page
  dispose_page-freed = ground arith

  abbrev retaken : Io → ℕ → Manager
  retaken io q =
      take_frame io (set_frame freed i (record (freed.frames i) { allocated = true })) i file_desc q

  both_mapped :
      (io : Io) (q : ℕ)
      → key file_desc q ≢ key file_desc p
      → find (retaken io q) file_desc p ≡ some i
  unfolding find take_frame lru_update
  both_mapped io q other = ground arith

  own_mapped : (io : Io) (q : ℕ) → find (retaken io q) file_desc q ≡ some i
  unfolding find take_frame lru_update
  own_mapped io q = ground arith

get-found :
    (m : Manager) (file_desc p i : ℕ) → find m file_desc p ≡ some i → (get m file_desc p).0 ≡ some i
unfolding get
get-found m file_desc p i e = ground arith

-- After a cached page is disposed of, its frame is given to the next page that is loaded, if it is
-- the first free one. The map then leads from both pages to that frame: `get` answers a request for
-- the disposed page, once it is allocated again, with the other page's frame.
pub dispose_page_aliases :
    (io : Io) (disk : io.Disk) (m : Manager) (file_desc p q i : ℕ)
    → find m file_desc p ≡ some i
    → (m.frames i).pin_count ≡ 0
    → key file_desc q ≢ key file_desc p
    → find_unallocated (dispose_page m file_desc p).1 ≡ some i
    → let r = alloc io disk (dispose_page m file_desc p).1 file_desc q in
      (r.0 ≡ some i) × ((get r.1 file_desc q).0 ≡ some i) × ((get r.1 file_desc p).0 ≡ some i)
dispose_page_aliases io disk m file_desc p q i held idle other free =
    let same = dispose_page-freed m file_desc p i held idle in
    let free' : find_unallocated (freed m file_desc p i held idle) ≡ some i = rw same at free in
    rw (same, alloc-free io disk (freed m file_desc p i held idle) file_desc q i free')
      (
        refl,
        get-found (retaken m file_desc p i held idle io q) file_desc q i
            (own_mapped m file_desc p i held idle io q),
        get-found (retaken m file_desc p i held idle io q) file_desc p i
            (both_mapped m file_desc p i held idle io q other),
      )
