-- ===== src/Memory/SizePool/Safe.antt =====
-- What holds of a pool and its buffers at any time, and that `reserve` keeps it.
use mathlib.Core.Path.{subst}
use mountpoint_s.Prelude.{
  ℕ, ◌+◌, ◌*◌, ◌%◌, ◌^◌, ◌<◌, List, ◌∷◌, Option, none, some, inl, inr, ◌≡◌, refl, sym, ap, ◌∙◌,
  arith,
}
use mountpoint_s.Memory.Stats.{BufferKind}
use mountpoint_s.Memory.SizeStats
use mountpoint_s.Memory.SizeStats.{SizePoolStats}
use mountpoint_s.Memory.Pages.{Page, PageStatus, PagedBufferPtr, leave}
use mountpoint_s.Memory.SizePool.{SizePool, in_pool, try_get_buffer_ptr, reserve_fast}
use mountpoint_s.Memory.SizePool.Steps.{Apart, World}
use mountpoint_s.Memory.SizePool.Slots.{
  Slot, IsTidy, count_empty, Everywhere, Everywhere-map, IsSeparate, Uses, Placed, two_slots,
  same_page,
}
use mountpoint_s.Memory.SizePool.Counts.{count, same_kind, reserved-reserve_bytes}
use mountpoint_s.Memory.SizePool.Scans.{Takes, Scanned, weight, scan_lem}

-- The pages are apart in memory, and so are the buffers; each buffer lies in a page of the pool, at a place whose
-- bit is set, and each such place is in use; and the statistics count, modulo 2^64, the empty pages and the buffers.
pub record Sound (w : World) : Type 0 where
  pub positive : 0 < w.pool.stats.buffer_size
  pub tidy : IsTidy w.pool.stats.buffer_size w.pool.pages
  pub placed : Everywhere (Placed w.pool.stats.buffer_size w.pool.pages) w.live
  pub separate : IsSeparate w.pool.stats.buffer_size w.live
  pub used : (a j : ℕ) → Slot w.pool.pages a j → Uses w.pool.stats.buffer_size w.live a j
  pub empty : w.pool.stats.empty_pages ≡ count_empty w.pool.pages % 2 ^ 64
  pub counted :
      (kind : BufferKind)
      → SizeStats.reserved_buffers_of w.pool.stats kind ≡ count kind w.live % 2 ^ 64

-- The statistics after a buffer is reserved.
abbrev now : PageStatus → SizePoolStats → BufferKind → SizePoolStats
now status stats kind = SizeStats.add_reserved_buffer (leave status stats) kind

now_size :
    (status : PageStatus) (stats : SizePoolStats) (kind : BufferKind)
    → (now status stats kind).buffer_size ≡ stats.buffer_size
unfolding SizeStats.add_reserved_buffer SizeStats.remove_empty_page
now_size PageStatus.empty stats kind = refl
now_size PageStatus.non_empty stats kind = refl

now_empty :
    (status : PageStatus) (stats : SizePoolStats) (kind : BufferKind) (n m : ℕ)
    → stats.empty_pages ≡ n % 2 ^ 64
    → n ≡ weight status + m
    → (now status stats kind).empty_pages ≡ m % 2 ^ 64
unfolding SizeStats.add_reserved_buffer SizeStats.remove_empty_page
now_empty PageStatus.empty stats kind n m h e = omega (arith, h, e)
now_empty PageStatus.non_empty stats kind n m h e = omega (arith, h, e)

now_counted :
    (status : PageStatus) (stats : SizePoolStats) (kind kind' : BufferKind) (n : ℕ)
    → SizeStats.reserved_buffers_of stats kind' ≡ n % 2 ^ 64
    → SizeStats.reserved_buffers_of (now status stats kind) kind'
      ≡ (same_kind kind kind' + n) % 2 ^ 64
unfolding SizeStats.add_reserved_buffer SizeStats.remove_empty_page SizeStats.reserved_buffers_of
now_counted PageStatus.empty stats kind kind' n h =
    reserved-reserve_bytes stats.reserved_buffers kind kind' n h
now_counted PageStatus.non_empty stats kind kind' n h =
    reserved-reserve_bytes stats.reserved_buffers kind kind' n h

reserved_away :
    (kind : BufferKind) (pages : List Page) (stats : SizePoolStats) (b : PagedBufferPtr)
    (pages' : List Page) (stats' : SizePoolStats) (c : PagedBufferPtr)
    → Takes kind pages stats b pages' stats'
    → Placed stats.buffer_size pages c
    → Apart stats.buffer_size b.ptr c.ptr
reserved_away kind pages stats b pages' stats' c t (j, lt, at, slot) =
    let size : ℕ = stats.buffer_size in
    let apart : Apart size (b.pool_page + t.index * size) (c.pool_page + j * size) =
      elim (two_slots size b.pool_page t.index c.pool_page j pages' t.tidy t.set
        (t.keeps c.pool_page j slot) t.bound lt) [
          | inl same ↦
              subst (λ k. Apart size (b.pool_page + t.index * size) (k + j * size)) same
                (same_page size b.pool_page t.index j (λ e. t.unset (
                  subst (λ k. Slot pages k t.index) (sym same)
                    (subst (Slot pages c.pool_page) (sym e) slot))))
          | inr apart ↦ apart
        ] in
    subst (λ k. Apart size k c.ptr) (sym t.at)
      (subst (Apart size (b.pool_page + t.index * size)) (sym at) apart)

pub take-Sound :
    (kind : BufferKind) (pages : List Page) (stats : SizePoolStats) (b : PagedBufferPtr)
    (pages' : List Page) (stats' : SizePoolStats) (live : List PagedBufferPtr)
    → Takes kind pages stats b pages' stats'
    → Sound (record { pool = record { pages = pages; stats = stats }; live = live })
    → Sound (record { pool = record { pages = pages'; stats = stats' }; live = b ∷ live })
take-Sound kind pages stats b pages' stats' live t s =
    let size : ℕ = stats.buffer_size in
    let same : stats'.buffer_size ≡ size =
      ap (λ k. k.buffer_size) t.after ∙ now_size t.status stats kind in
    record {
      positive = omega (arith, same, s.positive);
      tidy = subst (λ k. IsTidy k pages') (sym same) t.tidy;
      placed =
          subst (λ k. Everywhere (Placed k pages') (b ∷ live)) (sym same)
            (
              (t.index, t.bound, t.at, t.set),
              Everywhere-map (Placed size pages) (Placed size pages) (Placed size pages') live
                  (λ c (j, lt, at, slot) p. (j, lt, at, t.keeps c.pool_page j slot)) s.placed
                  s.placed,
            );
      separate =
          subst (λ k. IsSeparate k (b ∷ live)) (sym same)
            (
              Everywhere-map (Placed size pages) (Placed size pages) (λ c. Apart size b.ptr c.ptr)
                  live (λ c p q. reserved_away kind pages stats b pages' stats' c t p) s.placed
                  s.placed,
              s.separate,
            );
      used = λ a j h.
          subst (λ k. Uses k (b ∷ live) a j) (sym same)
            (elim (t.only a j h) [
              | inl h' ↦ inr (s.used a j h')
              | inr (e, eq) ↦
                  inl (e, t.at ∙ ap (λ k. k + t.index * size) e ∙ ap (λ k. a + k * size) (sym eq))
            ]);
      empty =
          ap (λ k. k.empty_pages) t.after
          ∙ now_empty t.status stats kind (count_empty pages) (count_empty pages') s.empty
              t.counted;
      counted = λ kind'.
          ap (λ k. SizeStats.reserved_buffers_of k kind') t.after
          ∙ now_counted t.status stats kind kind' (count kind' live) (s.counted kind')
          ∙ ap (λ k. (same_kind k kind' + count kind' live) % 2 ^ 64) (sym t.of_kind);
    }

abbrev pub Reserved : List PagedBufferPtr → Option (PagedBufferPtr × SizePool) → Type 0
Reserved live none = Unit
Reserved live (some (b, pool)) = Sound (record { pool = pool; live = b ∷ live })

in_pool-Sound :
    (kind : BufferKind) (pages : List Page) (stats : SizePoolStats) (live : List PagedBufferPtr)
    (x : Option (PagedBufferPtr × List Page × SizePoolStats))
    → Scanned kind pages stats x
    → Sound (record { pool = record { pages = pages; stats = stats }; live = live })
    → Reserved live (in_pool x)
in_pool-Sound kind pages stats live none t s = tt
in_pool-Sound kind pages stats live (some (b, pages', stats')) t s =
    take-Sound kind pages stats b pages' stats' live t s

pub fast-Sound :
    (kind : BufferKind) (pool : SizePool) (live : List PagedBufferPtr)
    → Sound (record { pool = pool; live = live })
    → Reserved live (reserve_fast kind pool)
unfolding reserve_fast
fast-Sound kind pool live s =
    in_pool-Sound kind pool.pages pool.stats live (try_get_buffer_ptr kind pool.pages pool.stats)
      (scan_lem kind pool.pages pool.stats s.tidy s.positive) s
