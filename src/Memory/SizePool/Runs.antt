-- ===== src/Memory/SizePool/Runs.antt =====
-- A pool and its buffers after any number of steps.
use mathlib.Core.Path.{subst}
use mathlib.Core.Option.{some-injective}
use mountpoint_s.Prelude.{
  ℕ, ◌*◌, ◌%◌, ◌^◌, ◌<◌, List, [], ◌∷◌, ◌++◌, Option, none, some, inl, inr, length, ◌==◌, ◌≡◌, refl,
  sym, ap, ◌∙◌, arith, Bool-cases,
}
use mountpoint_s.Memory.Stats
use mountpoint_s.Memory.Stats.{BufferKind, PoolStats}
use mountpoint_s.Memory.SizeStats
use mountpoint_s.Memory.SizeStats.{SizePoolStats}
use mountpoint_s.Memory.Bits.{is_zero, is_zero-bit}
use mountpoint_s.Memory.Pages
use mountpoint_s.Memory.Pages.{Page, PagedBufferPtr}
use mountpoint_s.Memory.SizePool
use mountpoint_s.Memory.SizePool.{
  retain, retained, release_in, reserve_fast, reserve_slow, reserve, trim,
}
use mountpoint_s.Memory.SizePool.Steps.{
  IsFresh, World, Step, fast, slow, drop, free, Steps, done, more,
}
use mountpoint_s.Memory.SizePool.Slots.{
  Slot, IsTidy, count_empty, count_empty_free, count_empty_used, count_empty-le, Everywhere,
  Everywhere-map, Everywhere-drop, IsSeparate, Uses, Placed,
}
use mountpoint_s.Memory.SizePool.Returns.{dropped, return_lem}
use mountpoint_s.Memory.SizePool.Trims.{retain_lem}
use mountpoint_s.Memory.SizePool.Safe.{Sound, Reserved, fast-Sound}
use mountpoint_s.Memory.SizePool.Drops.{return-Sound}
use mountpoint_s.Memory.SizePool.Grows.{Given, slow-Given, slow-Reserved}

drop-Sound :
    (pool : SizePool.SizePool) (pages : List Page) (stats : SizePoolStats)
    (before after : List PagedBufferPtr) (b : PagedBufferPtr)
    → release_in b pool.pages pool.stats ≡ some (pages, stats)
    → Sound (record { pool = pool; live = before ++ (b ∷ after) })
    → Sound (record { pool = record { pages = pages; stats = stats }; live = before ++ after })
drop-Sound pool pages stats before after b gives s =
    let (i, lt, at, slot) =
      (Everywhere-drop (Placed pool.stats.buffer_size pool.pages) before after b s.placed).1 in
    let r = return_lem b i pool.pages pool.stats at lt s.positive s.tidy slot in
    subst
      (λ k. Sound (record { pool = record { pages = k.0; stats = k.1 }; live = before ++ after }))
      (some-injective _ _ (sym r.gives ∙ gives))
      (return-Sound pool.pages pool.stats before after b i at r s)

retain-Sound :
    (pool : SizePool.SizePool) (live : List PagedBufferPtr)
    → Sound (record { pool = pool; live = live })
    → Sound (record { pool = retained (retain pool.pages pool.stats); live = live })
unfolding SizeStats.reserved_buffers_of
retain-Sound pool live s =
    let size : ℕ = pool.stats.buffer_size in
    let after : List Page × SizePoolStats = retain pool.pages pool.stats in
    let t = retain_lem pool.pages pool.stats in
    record {
      positive = omega (arith, t.same_size, s.positive);
      tidy = subst (λ k. IsTidy k after.0) (sym t.same_size) (t.tidy s.tidy);
      placed =
          subst (λ k. Everywhere (Placed k after.0) live) (sym t.same_size)
            (Everywhere-map (Placed size pool.pages) (Placed size pool.pages) (Placed size after.0)
              live (λ c (j, lt, at, slot) p. (j, lt, at, t.keeps c.pool_page j slot)) s.placed
              s.placed);
      separate = subst (λ k. IsSeparate k live) (sym t.same_size) s.separate;
      used = λ a j h. subst (λ k. Uses k live a j) (sym t.same_size) (s.used a j (t.only a j h));
      empty = t.counted s.empty ∙ ap (λ k. k % 2 ^ 64) (sym t.none_empty);
      counted = λ kind. ap (λ k. Stats.reserved_bytes k kind) t.same_buffers ∙ s.counted kind;
    }

trim-Sound :
    (pool : SizePool.SizePool) (live : List PagedBufferPtr)
    → Sound (record { pool = pool; live = live })
    → Sound (record { pool = (trim pool).1; live = live })
unfolding trim
trim-Sound pool live s = elim (Bool-cases (pool.stats.empty_pages == 0)) [
  | inl e ↦ rw e s
  | inr e ↦ rw e (retain-Sound pool live s)
]

Step-Sound : (v w : World) → Step v w → Sound v → Sound w
Step-Sound v w (fast {pool} {pool'} {live} kind b e) s =
    subst (Reserved live) e (fast-Sound kind pool live s)
Step-Sound v w (slow {pool} {pool'} {live} kind address b f e) s =
    subst (Reserved live) e (slow-Reserved kind address pool live f s)
Step-Sound v w (drop {pool} {pages} {stats} before after b e) s =
    drop-Sound pool pages stats before after b e s
Step-Sound v w (free {pool} {live}) s = trim-Sound pool live s

Steps-Sound : (v w : World) → Steps v w → Sound v → Sound w
Steps-Sound v w done s = s
Steps-Sound v w (more {u = u} {v = mid} steps step) s =
    Step-Sound mid w step (Steps-Sound v mid steps s)

new-Sound :
    (size : ℕ) (stats : PoolStats)
    → 0 < size
    → Sound (record { pool = SizePool.new size stats; live = [] })
unfolding SizePool.new SizeStats.new SizeStats.reserved_buffers_of Stats.reserved_bytes
new-Sound size stats pos = record {
  positive = pos;
  tidy = tt;
  placed = tt;
  separate = tt;
  used = λ a j h. absurd h;
  empty = omega arith;
  counted = λ kind. ground arith;
}

-- After any number of steps from a new pool with buffers of some size, in any order: the pages are apart in
-- memory, and so are the buffers in use; each of them lies in a page of the pool, at a place whose bit is set, and
-- each such place is in use; and the statistics count, modulo 2^64, the empty pages and the buffers of each kind.
pub pool_safe :
    (size : ℕ) (stats : PoolStats) (w : World)
    → 0 < size
    → Steps (record { pool = SizePool.new size stats; live = [] }) w
    → Sound w
pool_safe size stats w pos steps =
    Steps-Sound (record { pool = SizePool.new size stats; live = [] }) w steps
      (new-Sound size stats pos)

-- After any number of steps from a new pool with buffers of some size, `reserve` does not panic, where a page of
-- 16 buffers has less than 2^63 bytes and the allocator gives memory that is apart from the pages, and with the
-- buffer it gives the pool is as before: apart in memory, each buffer at a place whose bit is set, and counted.
pub reserve_gives :
    (size : ℕ) (stats : PoolStats) (w : World) (kind : BufferKind) (address : ℕ)
    → 0 < size
    → Steps (record { pool = SizePool.new size stats; live = [] }) w
    → IsFresh w.pool.stats.buffer_size address w.pool.pages
    → 16 * w.pool.stats.buffer_size < 2 ^ 63
    → Given w.live (reserve kind address w.pool)
unfolding reserve
reserve_gives size stats w kind address pos steps f small =
    given (reserve_fast kind w.pool)
      (fast-Sound kind w.pool w.live (pool_safe size stats w pos steps))
  where
    given :
        (x : Option (PagedBufferPtr × SizePool.SizePool))
        → Reserved w.live x
        → Given w.live (elim x as (λ y. Option (PagedBufferPtr × SizePool.SizePool)) [
          | some reserved ↦ some reserved
          | none ↦ reserve_slow kind address w.pool
        ])
    given (some (b, pool)) r = r
    given none r = slow-Given kind address w.pool w.live f (pool_safe size stats w pos steps) small

-- After any number of steps from a new pool with buffers of some size, the release of a buffer in use does not
-- panic: its page is in the pool, and its pointer is one of the page.
pub release_gives :
    (size : ℕ) (stats : PoolStats) (w : World) (before after : List PagedBufferPtr)
    (b : PagedBufferPtr)
    → 0 < size
    → Steps (record { pool = SizePool.new size stats; live = [] }) w
    → w.live ≡ before ++ (b ∷ after)
    → (pages : List Page) × (stats' : SizePoolStats) × (release_in b w.pool.pages w.pool.stats
        ≡ some (pages, stats'))
release_gives size stats w before after b pos steps e =
    let s = pool_safe size stats w pos steps in
    let (i, lt, at, slot) =
      (Everywhere-drop (Placed w.pool.stats.buffer_size w.pool.pages) before after b
        (subst (Everywhere (Placed w.pool.stats.buffer_size w.pool.pages)) e s.placed)).1 in
    let r = return_lem b i w.pool.pages w.pool.stats at lt s.positive s.tidy slot in
    (r.after, dropped r.empty w.pool.stats b, r.gives)

unused_pages :
    (size : ℕ) (pages : List Page)
    → ((a j : ℕ) → Slot pages a j → ⊥)
    → IsTidy size pages
    → count_empty pages ≡ length pages
unused_pages size [] unused t = refl
unused_pages size (p ∷ ps) unused (f, n, t) =
    let rest = unused_pages size ps (λ a j h. unused a j (inr h)) t in
    elim (Bool-cases (is_zero p.reserved_bitmask)) [
      | inl z ↦ omega (arith, count_empty_free p ps z, rest)
      | inr nz ↦
          let (j, on) = is_zero-bit p.reserved_bitmask nz in
          absurd (unused p.bytes j (inl (refl, on)))
    ]

retain_free :
    (pages : List Page) (stats : SizePoolStats)
    → count_empty pages ≡ length pages
    → (retain pages stats).0 ≡ []
unfolding retain Pages.invalidate_if_empty
retain_free [] stats e = refl
retain_free (p ∷ ps) stats e = elim (Bool-cases (is_zero p.reserved_bitmask)) [
  | inl z ↦ rw z (
      retain_free ps (SizeStats.remove_empty_page stats)
        (omega (arith, e, count_empty_free p ps z)))
  | inr nz ↦ absurd (omega (arith, e, count_empty_used p ps nz, count_empty-le ps))
]

-- After any number of steps from a new pool with buffers of some size, once no buffer is in use, `trim` frees all pages,
-- if there are less than 2^64.
pub trim_frees :
    (size : ℕ) (stats : PoolStats) (w : World)
    → 0 < size
    → Steps (record { pool = SizePool.new size stats; live = [] }) w
    → w.live ≡ []
    → length w.pool.pages < 2 ^ 64
    → (trim w.pool).1.pages ≡ []
unfolding trim
trim_frees size stats w pos steps none_live small =
    let s = pool_safe size stats w pos steps in
    let all_free =
      unused_pages w.pool.stats.buffer_size w.pool.pages
        (λ a j h. subst (λ k. Uses w.pool.stats.buffer_size k a j) none_live (s.used a j h))
        s.tidy in
    elim (Bool-cases (w.pool.stats.empty_pages == 0)) [
      | inl e ↦
          let zero_pages : w.pool.stats.empty_pages ≡ 0 = ground (arith, e) in
          rw e (no_pages w.pool.pages (omega (arith, s.empty, all_free, small, zero_pages)))
      | inr e ↦ rw e (retain_free w.pool.pages w.pool.stats all_free)
    ]
  where
    no_pages : (pages : List Page) → length pages ≡ 0 → pages ≡ []
    no_pages [] h = refl
    no_pages (p ∷ ps) h = absurd (omega (arith, h))
