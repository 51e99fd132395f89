-- ===== src/Memory/SizePool/Returns.antt =====
-- What the release of a buffer does to the pages: the buffer is not in use any more, and the others are as they were.
use mathlib.Core.Path.{subst}
use mathlib.Core.Bool.{true≢false}
use mountpoint_s.Prelude.{
  ℕ, ◌+◌, ◌*◌, ◌<◌, List, [], ◌∷◌, Bool, true, false, some, ◌⊎◌, inl, inr, ◌==◌, ◌≡◌, ◌≢◌, sym, ap,
  ◌∙◌, arith, Bool-cases, if◌then◌else◌,
}
use mountpoint_s.Memory.Bits.{Bits, is_zero, bit, bit-is_zero}
use mountpoint_s.Memory.SizeStats
use mountpoint_s.Memory.SizeStats.{SizePoolStats}
use mountpoint_s.Memory.Pages.{Page, PagedBufferPtr}
use mountpoint_s.Memory.Pages.Consume.{release_lem}
use mountpoint_s.Memory.SizePool.{released, passed, release_in}
use mountpoint_s.Memory.SizePool.Steps.{IsFresh}
use mountpoint_s.Memory.SizePool.Slots.{Slot, IsTidy, count_empty, count_empty_used, Slot-IsFresh}
use mountpoint_s.Memory.SizePool.Scans.{decide}

-- The statistics after a release, by whether the page is empty then.
abbrev pub dropped : Bool → SizePoolStats → PagedBufferPtr → SizePoolStats
dropped empty stats b =
    if empty
    then SizeStats.add_empty_page (SizeStats.remove_reserved_buffer stats b.kind)
    else SizeStats.remove_reserved_buffer stats b.kind

-- The buffer `b` at the index `i` has been given back to the pages.
pub record Returns (b : PagedBufferPtr) (i : ℕ) (pages : List Page) (stats : SizePoolStats)
    : Type 0 where
  pub after : List Page
  pub empty : Bool
  pub gives : release_in b pages stats ≡ some (after, dropped empty stats b)
  pub keeps : (a j : ℕ) → Slot pages a j → Slot after a j ⊎ ((b.pool_page ≡ a) × (j ≡ i))
  pub only : (a j : ℕ) → Slot after a j → Slot pages a j
  pub cleared : Slot after b.pool_page i → ⊥
  pub tidy : IsTidy stats.buffer_size after
  pub fresh : (a : ℕ) → IsFresh stats.buffer_size a pages → IsFresh stats.buffer_size a after
  pub counted : count_empty after ≡ (if empty then 1 else 0) + count_empty pages

not_empty : (m : Bits) (i : ℕ) → bit m i ≡ true → is_zero m ≡ false
not_empty m i on = elim (Bool-cases (is_zero m)) [
  | inl z ↦ absurd (true≢false (sym on ∙ bit-is_zero m i z))
  | inr nz ↦ nz
]

return_here :
    (b : PagedBufferPtr) (i : ℕ) (p : Page) (ps : List Page) (stats : SizePoolStats)
    → b.ptr ≡ b.pool_page + i * stats.buffer_size
    → i < 16
    → 0 < stats.buffer_size
    → IsTidy stats.buffer_size (p ∷ ps)
    → p.bytes ≡ b.pool_page
    → bit p.reserved_bitmask i ≡ true
    → Returns b i (p ∷ ps) stats
unfolding release_in
return_here b i p ps stats at lt pos (f, n, t) same on =
    let (m, c, gives) =
      release_lem b p stats i (at ∙ ap (λ k. k + i * stats.buffer_size) (sym same)) lt pos n in
    let found : (p.bytes == b.pool_page) ≡ true = ground (arith, same) in
    record {
      after = record p { reserved_bitmask = m } ∷ ps;
      empty = is_zero m;
      gives = rw found (ap (λ k. released ps k) gives);
      keeps = λ a j h. elim h [
        | inl (e, on') ↦ elim (decide j i) [
          | inl eq ↦ inr (sym same ∙ e, eq)
          | inr ne ↦ inl (inl (e, c.other j ne ∙ on'))
        ]
        | inr h' ↦ inl (inr h')
      ];
      only = λ a j h. elim h [
        | inl (e, on') ↦ elim (decide j i) [
          | inl eq ↦ absurd (true≢false (sym on' ∙ subst (λ k. bit m k ≡ false) (sym eq) c.here))
          | inr ne ↦ inl (e, sym (c.other j ne) ∙ on')
        ]
        | inr h' ↦ inr h'
      ];
      cleared = λ h. elim h [
        | inl (e, on') ↦ true≢false (sym on' ∙ c.here)
        | inr h' ↦ Slot-IsFresh stats.buffer_size p.bytes b.pool_page i ps pos f h' same
      ];
      tidy = (f, omega (arith, c.same_length, n), t);
      fresh = λ a (away, g). (away, g);
      counted =
          ap (λ k. (if is_zero m then 1 else 0) + k)
            (sym (count_empty_used p ps (not_empty p.reserved_bitmask i on)));
    }

return_later :
    (b : PagedBufferPtr) (i : ℕ) (p : Page) (ps : List Page) (stats : SizePoolStats)
    → IsTidy stats.buffer_size (p ∷ ps)
    → p.bytes ≢ b.pool_page
    → Returns b i ps stats
    → Returns b i (p ∷ ps) stats
unfolding release_in
return_later b i p ps stats (f, n, t) other r =
    let not_found : (p.bytes == b.pool_page) ≡ false = ground (arith, other) in
    record {
      after = p ∷ r.after;
      empty = r.empty;
      gives = rw not_found (ap (λ k. passed p k) r.gives);
      keeps = λ a j h. elim h [
        | inl h' ↦ inl (inl h')
        | inr h' ↦ elim (r.keeps a j h') [ inl g ↦ inl (inr g) | inr g ↦ inr g ]
      ];
      only = λ a j h. elim h [ inl h' ↦ inl h' | inr h' ↦ inr (r.only a j h') ];
      cleared = λ h. elim h [ inl (e, on) ↦ other e | inr h' ↦ r.cleared h' ];
      tidy = (r.fresh p.bytes f, n, r.tidy);
      fresh = λ a (away, g). (away, r.fresh a g);
      counted = omega (arith, r.counted);
    }

pub return_lem :
    (b : PagedBufferPtr) (i : ℕ) (pages : List Page) (stats : SizePoolStats)
    → b.ptr ≡ b.pool_page + i * stats.buffer_size
    → i < 16
    → 0 < stats.buffer_size
    → IsTidy stats.buffer_size pages
    → Slot pages b.pool_page i
    → Returns b i pages stats
return_lem b i [] stats at lt pos t s = absurd s
return_lem b i (p ∷ ps) stats at lt pos t (inl (e, on)) =
    return_here b i p ps stats at lt pos t e on
return_lem b i (p ∷ ps) stats at lt pos (f, n, t) (inr s) =
    return_later b i p ps stats (f, n, t)
      (Slot-IsFresh stats.buffer_size p.bytes b.pool_page i ps pos f s)
      (return_lem b i ps stats at lt pos t s)
