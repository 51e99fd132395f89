-- ===== src/Memory/SizePool.antt =====
-- mountpoint-s3-fs/src/memory/pool.rs: `SizePool`, the pages with buffers of one size, and its part of `trim`.
--
-- The address of a new page is an argument, what the allocator gives.
pub mod Steps
pub mod Slots
pub mod Counts
pub mod Scans
pub mod Returns
pub mod Trims
pub mod Safe
pub mod Grows
pub mod Drops
pub mod Runs
mod Tests
use mountpoint_s.Prelude.{
  ℕ, ◌+◌, ◌*◌, ◌≤◌, ◌<◌, ◌-◌, List, [], ◌∷◌, ◌++◌, Bool, true, false, Option, none, some, ◌⊎◌,
  length, ltb, ◌==◌, ◌≡◌, if◌then◌else◌,
}
use mountpoint_s.Memory.Stats.{BufferKind, PoolStats}
use mountpoint_s.Memory.SizeStats
use mountpoint_s.Memory.SizeStats.{SizePoolStats}
use mountpoint_s.Memory.Pages
use mountpoint_s.Memory.Pages.{Page, PagedBufferPtr, buffers_per_page}

pub record SizePool : Type 0 where
  pub pages : List Page
  pub stats : SizePoolStats

unfoldable pub new : ℕ → PoolStats → SizePool
new buffer_size pool_stats = record { pages = []; stats = SizeStats.new buffer_size pool_stats }

-- `find_map` goes on to the other pages if there is no buffer in the first.
abbrev pub tried :
    Page
    → List Page
    → Option (PagedBufferPtr × Page × SizePoolStats)
    → Option (PagedBufferPtr × List Page × SizePoolStats)
    → Option (PagedBufferPtr × List Page × SizePoolStats)
tried p ps (some (b, p', stats)) others = some (b, p' ∷ ps, stats)
tried p ps none none = none
tried p ps none (some (b, ps', stats)) = some (b, p ∷ ps', stats)

unfoldable pub try_get_buffer_ptr :
    BufferKind → List Page → SizePoolStats → Option (PagedBufferPtr × List Page × SizePoolStats)
try_get_buffer_ptr kind [] stats = none
try_get_buffer_ptr kind (p ∷ ps) stats =
    tried p ps (Pages.try_reserve kind p stats) (try_get_buffer_ptr kind ps stats)

abbrev pub in_pool :
    Option (PagedBufferPtr × List Page × SizePoolStats) → Option (PagedBufferPtr × SizePool)
in_pool none = none
in_pool (some (b, pages, stats)) = some (b, record { pages = pages; stats = stats })

-- The fast path of `reserve`.
unfoldable pub reserve_fast : BufferKind → SizePool → Option (PagedBufferPtr × SizePool)
reserve_fast kind pool = in_pool (try_get_buffer_ptr kind pool.pages pool.stats)

-- The new page, pushed after its first buffer is reserved.
abbrev pub pushed :
    List Page → Option (PagedBufferPtr × Page × SizePoolStats) → Option (PagedBufferPtr × SizePool)
pushed pages none = none
pushed pages (some (b, p, stats)) = some (b, record { pages = pages ++ (p ∷ []); stats = stats })

abbrev pub allocated :
    BufferKind → List Page → Option (Page × SizePoolStats) → Option (PagedBufferPtr × SizePool)
allocated kind pages none = none
allocated kind pages (some (p, stats)) = pushed pages (Pages.try_reserve kind p stats)

-- The slow path, with the address of a new page if there has to be one; `none` is a panic.
unfoldable pub reserve_slow : BufferKind → ℕ → SizePool → Option (PagedBufferPtr × SizePool)
reserve_slow kind address pool = elim (reserve_fast kind pool) [
  | some reserved ↦ some reserved
  | none ↦ allocated kind pool.pages (Pages.new address pool.stats)
]

unfoldable pub reserve : BufferKind → ℕ → SizePool → Option (PagedBufferPtr × SizePool)
reserve kind address pool = elim (reserve_fast kind pool) [
  | some reserved ↦ some reserved
  | none ↦ reserve_slow kind address pool
]

abbrev pub released : List Page → Option (Page × SizePoolStats) → Option (List Page × SizePoolStats)
released ps none = none
released ps (some (p, stats)) = some (p ∷ ps, stats)

abbrev pub passed : Page → Option (List Page × SizePoolStats) → Option (List Page × SizePoolStats)
passed p none = none
passed p (some (ps, stats)) = some (p ∷ ps, stats)

-- The release of a buffer by its page, which is a page of the pool as long as one of its buffers is in use.
unfoldable pub release_in :
    PagedBufferPtr → List Page → SizePoolStats → Option (List Page × SizePoolStats)
release_in b [] stats = none
release_in b (p ∷ ps) stats =
    let others = release_in b ps stats in
    if p.bytes == b.pool_page then released ps (Pages.release b p stats) else passed p others

abbrev pub retained : List Page × SizePoolStats → SizePool
retained (pages, stats) = record { pages = pages; stats = stats }

-- `retain` of `trim`: the pages that are not invalidated.
unfoldable pub retain : List Page → SizePoolStats → List Page × SizePoolStats
retain [] stats = ([], stats)
retain (p ∷ ps) stats =
    let (invalid, p', stats') = Pages.invalidate_if_empty p stats in
    let (ps', stats'') = retain ps stats' in ((if invalid then ps' else p' ∷ ps'), stats'')

-- The body of the loop of `trim`: whether pages are freed, and the pool after.
unfoldable pub trim : SizePool → Bool × SizePool
trim pool =
    let pool' = retained (retain pool.pages pool.stats) in
    if pool.stats.empty_pages == 0
    then (false, pool)
    else (ltb 0 (length pool.pages - length pool'.pages), pool')
