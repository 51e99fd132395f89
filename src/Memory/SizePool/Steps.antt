-- ===== src/Memory/SizePool/Steps.antt =====
-- mountpoint-s3-fs/src/memory/pool.rs: what may happen to a `SizePool` and the buffers in use, in any order. The two
-- parts of `reserve` hold a lock each, so they are steps of their own. The memory of a new page is
-- beside that of all pages that are allocated. What a call does to the pages is taken as a whole.
use mountpoint_s.Prelude.{ℕ, ◌+◌, ◌*◌, ◌≤◌, List, [], ◌∷◌, ◌++◌, some, ◌⊎◌, ◌≡◌}
use mountpoint_s.Memory.Stats.{BufferKind}
use mountpoint_s.Memory.SizeStats.{SizePoolStats}
use mountpoint_s.Memory.Pages.{Page, PagedBufferPtr, buffers_per_page}
use mountpoint_s.Memory.SizePool.{SizePool, reserve_fast, reserve_slow, release_in, trim}

-- The memory of two pages with buffers of a size is apart.
abbrev pub Apart : ℕ → ℕ → ℕ → Type 0
Apart size a b = (a + size ≤ b) ⊎ (b + size ≤ a)

-- The memory is apart from that of the pages.
abbrev pub IsFresh : ℕ → ℕ → List Page → Type 0
IsFresh size address [] = Unit
IsFresh size address (p ∷ ps) =
    Apart (buffers_per_page * size) address p.bytes × IsFresh size address ps

-- A pool and the buffers in use.
pub record World : Type 0 where
  pub pool : SizePool
  pub live : List PagedBufferPtr

pub data Step : World → World → Type 0 where
  fast :
      {pool pool' : SizePool} {live : List PagedBufferPtr} (kind : BufferKind) (b : PagedBufferPtr)
      → reserve_fast kind pool ≡ some (b, pool')
      → Step (record { pool = pool; live = live }) (record { pool = pool'; live = b ∷ live })
  slow :
      {pool pool' : SizePool} {live : List PagedBufferPtr} (kind : BufferKind) (address : ℕ)
      (b : PagedBufferPtr)
      → IsFresh pool.stats.buffer_size address pool.pages
      → reserve_slow kind address pool ≡ some (b, pool')
      → Step (record { pool = pool; live = live }) (record { pool = pool'; live = b ∷ live })
  drop :
      {pool : SizePool} {pages : List Page} {stats : SizePoolStats}
      (before after : List PagedBufferPtr) (b : PagedBufferPtr)
      → release_in b pool.pages pool.stats ≡ some (pages, stats)
      → Step
          (record { pool = pool; live = before ++ (b ∷ after) })
          (record { pool = record { pages = pages; stats = stats }; live = before ++ after })
  free :
      {pool : SizePool} {live : List PagedBufferPtr}
      → Step (record { pool = pool; live = live }) (record { pool = (trim pool).1; live = live })

-- Any number of steps.
pub data Steps : World → World → Type 0 where
  done : {w : World} → Steps w w
  more : {u v w : World} → Steps u v → Step v w → Steps u w
