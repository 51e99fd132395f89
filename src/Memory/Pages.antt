-- ===== src/Memory/Pages.antt =====
-- mountpoint-s3-fs/src/memory/pages.rs: a page of 16 buffers of one size, and which of them are in use.
--
-- A pointer is an address. The address of a page is what the allocator gives, an argument of `new`; it also stands
-- for the page where a buffer refers to it. The statistics of the size pool that the page shares are a state
-- that the operations take and give back.
pub mod Consume
use mountpoint_s.Prelude.{
  ℕ, zero, suc, ◌+◌, ◌-◌, ◌*◌, ◌/◌, List, [], ◌∷◌, Bool, true, false, ◌&&◌, ◌||◌, ◌^◌, Option, none,
  some, leb, ltb, ◌==◌, if◌then◌else◌,
}
use mountpoint_s.Memory.Bits.{Bits, zeros, ones, one_shl, and, or, complement, is_zero, is_max}
use mountpoint_s.Memory.Stats.{BufferKind}
use mountpoint_s.Memory.SizeStats
use mountpoint_s.Memory.SizeStats.{SizePoolStats}

abbrev pub buffers_per_page : ℕ
buffers_per_page = 16

abbrev pub full_mask : Bits
full_mask = ones buffers_per_page

-- `PageInner`; `last_buffer` is `last_buffer` below, as in `new`.
pub record Page : Type 0 where
  pub bytes : ℕ
  pub reserved_bitmask : Bits

abbrev pub last_buffer : Page → SizePoolStats → ℕ
last_buffer p stats = p.bytes + (buffers_per_page - 1) * stats.buffer_size

pub data PageStatus : Type 0 where
  empty non_empty : PageStatus

-- `PagedBufferPtr`: the page is known by its address.
pub record PagedBufferPtr : Type 0 where
  pub ptr : ℕ
  pub pool_page : ℕ
  pub kind : BufferKind

-- The page. `none` is a panic: the buffers have no size, or the layout of a page is larger than
-- `isize::MAX`.
unfoldable pub new : ℕ → SizePoolStats → Option (Page × SizePoolStats)
new address stats =
    if stats.buffer_size == 0 || ltb (2 ^ 63 - 1) (buffers_per_page * stats.buffer_size)
    then none
    else some (
      record { bytes = address; reserved_bitmask = zeros buffers_per_page },
      SizeStats.add_empty_page stats,
    )

-- The loop of `consume`, over the `n` indices from `index` on.
unfoldable pub consume_loop : ℕ → ℕ → Bits → Option (ℕ × Bits)
consume_loop zero index bitmask = none
consume_loop (suc n) index bitmask =
    let mask = one_shl buffers_per_page index in
    let rest = consume_loop n (suc index) bitmask in
    if is_zero (and bitmask mask) then some (index, or bitmask mask) else rest

-- The index of the buffer, the status of the page before, and the bits after.
unfoldable pub consume : Bits → Option (ℕ × PageStatus × Bits)
consume bitmask = if is_max bitmask then none else elim (consume_loop buffers_per_page 0 bitmask) [
  | none ↦ none
  | some (index, bitmask') ↦
      some (index, (if is_zero bitmask then PageStatus.empty else PageStatus.non_empty), bitmask')
]

abbrev pub leave : PageStatus → SizePoolStats → SizePoolStats
leave PageStatus.empty stats = SizeStats.remove_empty_page stats
leave PageStatus.non_empty stats = stats

-- What a page gives for the answer of `consume`.
abbrev pub consumed :
    BufferKind
    → Page
    → SizePoolStats
    → Option (ℕ × PageStatus × Bits)
    → Option (PagedBufferPtr × Page × SizePoolStats)
consumed kind p stats none = none
consumed kind p stats (some (index, status, bitmask)) = some (
  record { ptr = p.bytes + index * stats.buffer_size; pool_page = p.bytes; kind = kind },
  record p { reserved_bitmask = bitmask },
  SizeStats.add_reserved_buffer (leave status stats) kind,
)

unfoldable pub try_reserve :
    BufferKind → Page → SizePoolStats → Option (PagedBufferPtr × Page × SizePoolStats)
try_reserve kind p stats = consumed kind p stats (consume p.reserved_bitmask)

-- `Page::release`, when the buffer is dropped; `none` is the panic for a pointer that is not of this page.
unfoldable pub release : PagedBufferPtr → Page → SizePoolStats → Option (Page × SizePoolStats)
release b p stats =
    if leb p.bytes b.ptr && leb b.ptr (last_buffer p stats)
    then (let index = (b.ptr - p.bytes) / stats.buffer_size in
        let bitmask = and p.reserved_bitmask (complement (one_shl buffers_per_page index)) in
        let stats' = SizeStats.remove_reserved_buffer stats b.kind in
        some (
          record p { reserved_bitmask = bitmask },
          (if is_zero bitmask then SizeStats.add_empty_page stats' else stats'),
        ))
    else none

-- Whether the page is invalidated.
unfoldable pub invalidate_if_empty : Page → SizePoolStats → Bool × Page × SizePoolStats
invalidate_if_empty p stats =
    if is_zero p.reserved_bitmask
    then (true, record p { reserved_bitmask = full_mask }, SizeStats.remove_empty_page stats)
    else (false, p, stats)
