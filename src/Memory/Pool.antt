-- ===== src/Memory/Pool.antt =====
-- mountpoint-s3-fs/src/memory/pool.rs and memory/buffers.rs: `PagedPool`, a `SizePool` for each size, and the buffers
-- it gives.
--
-- A size pool is known by its index. `PoolStats` is one object that all share: it is put into the statistics of a
-- size pool for an operation on that, and taken out after it. The contents of the buffers are left out.
pub mod Sorting
pub mod Sizes
mod Tests
use mountpoint_s.Prelude.{
  ℕ, zero, suc, ◌+◌, ◌*◌, List, [], ◌∷◌, map, Bool, true, false, ◌&&◌, ◌||◌, Option, none, some,
  length, ltb, leb, ◌==◌, if◌then◌else◌,
}
use mountpoint_s.Memory.Stats
use mountpoint_s.Memory.Stats.{BufferKind, PoolStats}
use mountpoint_s.Memory.SizeStats
use mountpoint_s.Memory.SizeStats.{SizePoolStats}
use mountpoint_s.Memory.Pages.{Page, PagedBufferPtr}
use mountpoint_s.Memory.SizePool.{SizePool}
use mountpoint_s.Memory.SizePool

abbrev pub max_buffer_size : ℕ
max_buffer_size = 64 * 1024 * 1024

abbrev pub default_buffer_size : ℕ
default_buffer_size = 8 * 1024 * 1024

pub record PagedPool : Type 0 where
  pub ordered_size_pools : List SizePool
  pub stats : PoolStats

-- `retain`, `dedup` and `sort` of `Vec`, as `new_with_candidate_sizes` calls them.
abbrev pub retain_valid : List ℕ → List ℕ
retain_valid [] = []
retain_valid (n ∷ ns) =
    let rest = retain_valid ns in if ltb 0 n && leb n max_buffer_size then n ∷ rest else rest

-- The first of each run of equal elements; `n` is the element before.
abbrev pub dedup_after : ℕ → List ℕ → List ℕ
dedup_after n [] = []
dedup_after n (m ∷ ms) = let rest = dedup_after m ms in if m == n then rest else m ∷ rest

abbrev pub dedup : List ℕ → List ℕ
dedup [] = []
dedup (n ∷ ns) = n ∷ dedup_after n ns

abbrev pub insert : ℕ → List ℕ → List ℕ
insert n [] = n ∷ []
insert n (m ∷ ms) = let rest = insert n ms in if leb n m then n ∷ m ∷ ms else m ∷ rest

abbrev pub sort : List ℕ → List ℕ
sort [] = []
sort (n ∷ ns) = insert n (sort ns)

abbrev pub or_default : List ℕ → List ℕ
or_default [] = default_buffer_size ∷ []
or_default (n ∷ ns) = n ∷ ns

unfoldable pub ordered_sizes : List ℕ → List ℕ
ordered_sizes buffer_sizes = or_default (sort (dedup (retain_valid buffer_sizes)))

abbrev pub pools_of : List ℕ → List SizePool
pools_of [] = []
pools_of (n ∷ ns) = SizePool.new n SizeStats.zero_stats ∷ pools_of ns

unfoldable pub new_with_candidate_sizes : List ℕ → PagedPool
new_with_candidate_sizes buffer_sizes = record {
  ordered_size_pools = pools_of (ordered_sizes buffer_sizes);
  stats = SizeStats.zero_stats;
}

-- `partition_point` of a slice, for the test that the buffers are too small.
abbrev pub partition_point : ℕ → List SizePool → ℕ
partition_point size [] = 0
partition_point size (p ∷ ps) =
    let rest = suc (partition_point size ps) in if ltb p.stats.buffer_size size then rest else 0

-- The index of the size pool.
unfoldable pub get_pool_for_size : ℕ → PagedPool → Option ℕ
get_pool_for_size size pool =
    let index = partition_point size pool.ordered_size_pools in
    if size == 0 then none else if index == length pool.ordered_size_pools then none else some index

-- `PoolBuffer`: a part of a page, with the index of its size pool, or an allocation of its own.
pub data PoolBuffer : Type 0 where
  primary : ℕ → PagedBufferPtr → ℕ → PoolBuffer
  secondary : ℕ → BufferKind → PoolBuffer

abbrev pub capacity : PoolBuffer → ℕ
capacity (primary index b size) = size
capacity (secondary size kind) = size

-- The size pool, with the statistics that are shared.
abbrev pub sharing : PoolStats → SizePool → SizePool
sharing stats p = record p { stats = record p.stats { pool_stats = stats } }

abbrev pub pool_at : ℕ → List SizePool → Option SizePool
pool_at n [] = none
pool_at zero (p ∷ ps) = some p
pool_at (suc n) (p ∷ ps) = pool_at n ps

abbrev pub set_pool : ℕ → SizePool → List SizePool → List SizePool
set_pool n p [] = []
set_pool zero p (q ∷ qs) = p ∷ qs
set_pool (suc n) p (q ∷ qs) = q ∷ set_pool n p qs

-- The pool, after an operation on the size pool at an index.
abbrev pub update : ℕ → SizePool → PagedPool → PagedPool
update index p pool = record {
  ordered_size_pools = set_pool index p pool.ordered_size_pools;
  stats = p.stats.pool_stats;
}

-- `PoolBuffer::new_primary` of what the size pool at an index gives; `none` is a panic.
abbrev pub new_primary :
    ℕ → ℕ → PagedPool → Option (PagedBufferPtr × SizePool) → Option (PoolBuffer × PagedPool)
new_primary index size pool none = none
new_primary index size pool (some (b, p)) =
    if leb size p.stats.buffer_size then some (primary index b size, update index p pool) else none

abbrev pub reserve_at :
    ℕ → ℕ → BufferKind → ℕ → PagedPool → Option SizePool → Option (PoolBuffer × PagedPool)
reserve_at index size kind address pool none = none
reserve_at index size kind address pool (some p) =
    new_primary index size pool (SizePool.reserve kind address (sharing pool.stats p))

-- `get_buffer`, with the address of a new page if there has to be one.
unfoldable pub get_buffer : ℕ → BufferKind → ℕ → PagedPool → Option (PoolBuffer × PagedPool)
get_buffer size kind address pool = elim (get_pool_for_size size pool) [
  | some index ↦ reserve_at index size kind address pool (pool_at index pool.ordered_size_pools)
  | none ↦
      some (secondary size kind, record pool { stats = Stats.reserve_bytes pool.stats size kind })
]

abbrev pub released_at : ℕ → PagedPool → Option (List Page × SizePoolStats) → Option PagedPool
released_at index pool none = none
released_at index pool (some (pages, stats)) =
    some (update index (record { pages = pages; stats = stats }) pool)

abbrev pub release_at : ℕ → PagedBufferPtr → PagedPool → Option SizePool → Option PagedPool
release_at index b pool none = none
release_at index b pool (some p) =
    released_at index pool
      (SizePool.release_in b p.pages (record p.stats { pool_stats = pool.stats }))

-- The drop of a buffer.
unfoldable pub drop_buffer : PoolBuffer → PagedPool → Option PagedPool
drop_buffer (primary index b size) pool =
    release_at index b pool (pool_at index pool.ordered_size_pools)
drop_buffer (secondary size kind) pool =
    some (record pool { stats = Stats.release_bytes pool.stats size kind })

-- `trim`: whether pages are freed, and the size pools after; the shared statistics are of buffers, which it does not
-- change.
unfoldable pub trim_all : List SizePool → Bool × List SizePool
trim_all [] = (false, [])
trim_all (p ∷ ps) =
    let (removed, p') = SizePool.trim p in
    let (others, ps') = trim_all ps in (removed || others, p' ∷ ps')

unfoldable pub trim : PagedPool → Bool × PagedPool
trim pool =
    let (removed, pools) = trim_all pool.ordered_size_pools in
    (removed, record pool { ordered_size_pools = pools })
