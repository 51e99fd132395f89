-- ===== src/Memory/SizePool/Grows.antt =====
-- The slow path of `reserve`: a new page is pushed, and its first buffer is taken.
use mathlib.Core.Path.{subst}
use mathlib.Core.Bool.{true≢false}
use mountpoint_s.Prelude.{
  ℕ, ◌+◌, ◌-◌, ◌*◌, ◌^◌, ◌<◌, List, [], ◌∷◌, ◌++◌, true, false, ◌||◌, Option, none, some, inl, inr,
  ◌==◌, ltb, ltb→lt, ltb→le, Bool-cases, ◌≡◌, refl, sym, ◌∙◌, arith, if◌then◌else◌,
}
use mountpoint_s.Memory.Bits.{Bits, zeros, bit-zeros}
use mountpoint_s.Memory.Stats.{BufferKind}
use mountpoint_s.Memory.SizeStats
use mountpoint_s.Memory.SizeStats.{SizePoolStats}
use mountpoint_s.Memory.Pages
use mountpoint_s.Memory.Pages.{Page, PageStatus, PagedBufferPtr, consume, consumed}
use mountpoint_s.Memory.Pages.Consume.{Consumed, consume_lem}
use mountpoint_s.Memory.SizePool.{SizePool, allocated, pushed, reserve_fast, reserve_slow}
use mountpoint_s.Memory.SizePool.Steps.{Apart, IsFresh}
use mountpoint_s.Memory.SizePool.Slots.{
  Slot, IsTidy, count_empty, Everywhere-map, Placed, Apart-sym,
}
use mountpoint_s.Memory.SizePool.Scans.{Takes, Takes-cons, from_page}
use mountpoint_s.Memory.SizePool.Safe.{Sound, Reserved, fast-Sound, take-Sound}

abbrev fresh_page : ℕ → Page
fresh_page address = record { bytes = address; reserved_bitmask = zeros 16 }

Slot-push : (pages : List Page) (p : Page) (a j : ℕ) → Slot pages a j → Slot (pages ++ (p ∷ [])) a j
Slot-push [] p a j h = absurd h
Slot-push (q ∷ qs) p a j (inl h) = inl h
Slot-push (q ∷ qs) p a j (inr h) = inr (Slot-push qs p a j h)

Slot-fresh :
    (pages : List Page) (address a j : ℕ)
    → Slot (pages ++ (fresh_page address ∷ [])) a j
    → Slot pages a j
Slot-fresh [] address a j (inl (e, on)) = absurd (true≢false (sym on ∙ bit-zeros 16 j))
Slot-fresh [] address a j (inr h) = absurd h
Slot-fresh (q ∷ qs) address a j (inl h) = inl h
Slot-fresh (q ∷ qs) address a j (inr h) = inr (Slot-fresh qs address a j h)

IsFresh-push :
    (size a address : ℕ) (pages : List Page)
    → IsFresh size a pages
    → Apart (16 * size) a address
    → IsFresh size a (pages ++ (fresh_page address ∷ []))
IsFresh-push size a address [] f away = (away, tt)
IsFresh-push size a address (q ∷ qs) (away', f) away =
    (away', IsFresh-push size a address qs f away)

IsTidy-push :
    (size address : ℕ) (pages : List Page)
    → IsTidy size pages
    → IsFresh size address pages
    → IsTidy size (pages ++ (fresh_page address ∷ []))
IsTidy-push size address [] t f = (tt, omega arith, tt)
IsTidy-push size address (q ∷ qs) (g, n, t) (away, f) = (
  IsFresh-push size q.bytes address qs g (Apart-sym (16 * size) address q.bytes away),
  n,
  IsTidy-push size address qs t f,
)

count_empty-push :
    (pages : List Page) (address : ℕ)
    → count_empty (pages ++ (fresh_page address ∷ [])) ≡ 1 + count_empty pages
count_empty-push [] address = omega arith
count_empty-push (q ∷ qs) address = omega (arith, count_empty-push qs address)

push-Sound :
    (address : ℕ) (pages : List Page) (stats : SizePoolStats) (live : List PagedBufferPtr)
    → IsFresh stats.buffer_size address pages
    → Sound (record { pool = record { pages = pages; stats = stats }; live = live })
    → Sound (record {
      pool = record {
        pages = pages ++ (fresh_page address ∷ []);
        stats = SizeStats.add_empty_page stats;
      };
      live = live;
    })
unfolding SizeStats.add_empty_page SizeStats.reserved_buffers_of
push-Sound address pages stats live f s = record {
  positive = s.positive;
  tidy = IsTidy-push stats.buffer_size address pages s.tidy f;
  placed =
      Everywhere-map (Placed stats.buffer_size pages) (Placed stats.buffer_size pages)
        (Placed stats.buffer_size (pages ++ (fresh_page address ∷ []))) live
        (λ c (j, lt, at, slot) p.
          (j, lt, at, Slot-push pages (fresh_page address) c.pool_page j slot))
        s.placed s.placed;
  separate = s.separate;
  used = λ a j h. s.used a j (Slot-fresh pages address a j h);
  empty = omega (arith, s.empty, count_empty-push pages address);
  counted = s.counted;
}

Takes-push :
    (kind : BufferKind) (pages : List Page) (p p' : Page) (stats stats' : SizePoolStats)
    (b : PagedBufferPtr)
    → IsTidy stats.buffer_size (pages ++ (p ∷ []))
    → 0 < stats.buffer_size
    → Takes kind (p ∷ []) stats b (p' ∷ []) stats'
    → Takes kind (pages ++ (p ∷ [])) stats b (pages ++ (p' ∷ [])) stats'
Takes-push kind [] p p' stats stats' b t pos k = k
Takes-push kind (q ∷ qs) p p' stats stats' b (f, n, t) pos k =
    Takes-cons kind q (qs ++ (p ∷ [])) stats b (qs ++ (p' ∷ [])) stats' (f, n, t) pos
      (Takes-push kind qs p p' stats stats' b t pos k)

-- What a call gives that cannot panic.
abbrev pub Given : List PagedBufferPtr → Option (PagedBufferPtr × SizePool) → Type 0
Given live none = ⊥
Given live (some (b, pool)) = Sound (record { pool = pool; live = b ∷ live })

first_buffer :
    (kind : BufferKind) (address : ℕ) (pages : List Page) (stats : SizePoolStats)
    (live : List PagedBufferPtr) (x : Option (ℕ × PageStatus × Bits))
    → Consumed (zeros 16) x
    → IsFresh stats.buffer_size address pages
    → Sound (record { pool = record { pages = pages; stats = stats }; live = live })
    → Given live
        (pushed pages (consumed kind (fresh_page address) (SizeStats.add_empty_page stats) x))
unfolding SizeStats.add_empty_page
first_buffer kind address pages stats live none c f s = true≢false (sym c)
first_buffer kind address pages stats live (some (i, status, m)) c f s =
    let p : Page = fresh_page address in
    let stats' : SizePoolStats = SizeStats.add_empty_page stats in
    let s' = push-Sound address pages stats live f s in
    take-Sound kind (pages ++ (p ∷ [])) stats'
      (record { ptr = address + i * stats.buffer_size; pool_page = address; kind = kind })
      (pages ++ (record p { reserved_bitmask = m } ∷ []))
      (SizeStats.add_reserved_buffer (Pages.leave status stats') kind) live
      (Takes-push kind pages p (record p { reserved_bitmask = m }) stats'
        (SizeStats.add_reserved_buffer (Pages.leave status stats') kind)
        (record { ptr = address + i * stats.buffer_size; pool_page = address; kind = kind }) s'.tidy
        s'.positive
        (from_page kind p [] stats' (some (i, status, m)) none c (tt, omega arith, tt) s'.positive
          tt))
      s'

allocated-Given :
    (kind : BufferKind) (address : ℕ) (pages : List Page) (stats : SizePoolStats)
    (live : List PagedBufferPtr)
    → IsFresh stats.buffer_size address pages
    → Sound (record { pool = record { pages = pages; stats = stats }; live = live })
    → 16 * stats.buffer_size < 2 ^ 63
    → Given live (allocated kind pages (Pages.new address stats))
unfolding Pages.new Pages.try_reserve
allocated-Given kind address pages stats live f s small =
    let good : (stats.buffer_size == 0 || ltb (2 ^ 63 - 1) (16 * stats.buffer_size)) ≡ false =
      ground (arith, s.positive) in
    subst
      (λ k. Given live (
        allocated kind pages
          (if k then none else some (fresh_page address, SizeStats.add_empty_page stats))))
      (sym good)
      (first_buffer kind address pages stats live (consume (zeros 16))
        (consume_lem (zeros 16) (omega arith)) f s)

Given-Reserved :
    (live : List PagedBufferPtr) (x : Option (PagedBufferPtr × SizePool))
    → Given live x
    → Reserved live x
Given-Reserved live none g = tt
Given-Reserved live (some (b, pool)) g = g

allocated-Reserved :
    (kind : BufferKind) (address : ℕ) (pages : List Page) (stats : SizePoolStats)
    (live : List PagedBufferPtr)
    → IsFresh stats.buffer_size address pages
    → Sound (record { pool = record { pages = pages; stats = stats }; live = live })
    → Reserved live (allocated kind pages (Pages.new address stats))
unfolding Pages.new
allocated-Reserved kind address pages stats live f s =
    elim (Bool-cases (ltb (16 * stats.buffer_size) (2 ^ 63))) [
      | inl small ↦
          Given-Reserved live (allocated kind pages (Pages.new address stats))
            (allocated-Given kind address pages stats live f s (ltb→lt _ _ small))
      | inr large ↦
          let bad : (stats.buffer_size == 0 || ltb (2 ^ 63 - 1) (16 * stats.buffer_size)) ≡ true =
            ground (arith, ltb→le _ _ large) in
          subst
            (λ k. Reserved live (
              allocated kind pages
                (if k then none else some (fresh_page address, SizeStats.add_empty_page stats))))
            (sym bad) tt
    ]

-- The slow path, for any property that the fast path and the new page give.
slow_path :
    (P : Option (PagedBufferPtr × SizePool) → Type 0) (kind : BufferKind) (address : ℕ)
    (pool : SizePool)
    → ((b : PagedBufferPtr) (pool' : SizePool)
        → reserve_fast kind pool ≡ some (b, pool')
        → P (some (b, pool')))
    → P (allocated kind pool.pages (Pages.new address pool.stats))
    → P (reserve_slow kind address pool)
unfolding reserve_slow
slow_path P kind address pool fast new_page = slow (reserve_fast kind pool) refl
  where
    slow :
        (x : Option (PagedBufferPtr × SizePool))
        → reserve_fast kind pool ≡ x
        → P (elim x as (λ y. Option (PagedBufferPtr × SizePool)) [
          | some reserved ↦ some reserved
          | none ↦ allocated kind pool.pages (Pages.new address pool.stats)
        ])
    slow (some (b, pool')) e = fast b pool' e
    slow none e = new_page

-- Where the layout of a page is not too large, there is no panic.
pub slow-Given :
    (kind : BufferKind) (address : ℕ) (pool : SizePool) (live : List PagedBufferPtr)
    → IsFresh pool.stats.buffer_size address pool.pages
    → Sound (record { pool = pool; live = live })
    → 16 * pool.stats.buffer_size < 2 ^ 63
    → Given live (reserve_slow kind address pool)
slow-Given kind address pool live f s small =
    slow_path (Given live) kind address pool
      (λ b pool' e. subst (Reserved live) e (fast-Sound kind pool live s))
      (allocated-Given kind address pool.pages pool.stats live f s small)

pub slow-Reserved :
    (kind : BufferKind) (address : ℕ) (pool : SizePool) (live : List PagedBufferPtr)
    → IsFresh pool.stats.buffer_size address pool.pages
    → Sound (record { pool = pool; live = live })
    → Reserved live (reserve_slow kind address pool)
slow-Reserved kind address pool live f s =
    slow_path (Reserved live) kind address pool
      (λ b pool' e. subst (Reserved live) e (fast-Sound kind pool live s))
      (allocated-Reserved kind address pool.pages pool.stats live f s)
