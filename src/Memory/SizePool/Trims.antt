-- ===== src/Memory/SizePool/Trims.antt =====
-- What `trim` does to the pages: those with no buffer in use are gone, and the others are as they were.
use mathlib.Core.Bool.{true≢false}
use mountpoint_s.Prelude.{
  ℕ, ◌%◌, ◌^◌, List, [], ◌∷◌, true, false, inl, inr, ◌≡◌, refl, sym, ap, ◌∙◌, arith, Bool-cases,
}
use mountpoint_s.Memory.Bits.{is_zero, bit-is_zero}
use mountpoint_s.Memory.SizeStats
use mountpoint_s.Memory.SizeStats.{SizePoolStats}
use mountpoint_s.Memory.Pages
use mountpoint_s.Memory.Pages.{Page, PageStatus, PagedBufferPtr}
use mountpoint_s.Memory.SizePool.{retain}
use mountpoint_s.Memory.SizePool.Steps.{IsFresh}
use mountpoint_s.Memory.SizePool.Slots.{
  Slot, IsTidy, count_empty, count_empty_free, count_empty_used,
}

pub record Trims (pages : List Page) (stats : SizePoolStats) (after : List Page × SizePoolStats)
    : Type 0 where
  pub keeps : (a j : ℕ) → Slot pages a j → Slot after.0 a j
  pub only : (a j : ℕ) → Slot after.0 a j → Slot pages a j
  pub tidy : IsTidy stats.buffer_size pages → IsTidy stats.buffer_size after.0
  pub fresh : (a : ℕ) → IsFresh stats.buffer_size a pages → IsFresh stats.buffer_size a after.0
  pub none_empty : count_empty after.0 ≡ 0
  pub same_size : after.1.buffer_size ≡ stats.buffer_size
  pub same_buffers : after.1.reserved_buffers ≡ stats.reserved_buffers
  pub counted : stats.empty_pages ≡ count_empty pages % 2 ^ 64 → after.1.empty_pages ≡ 0

trim_empty :
    (p : Page) (ps : List Page) (stats : SizePoolStats)
    → is_zero p.reserved_bitmask ≡ true
    → Trims ps (SizeStats.remove_empty_page stats) (retain ps (SizeStats.remove_empty_page stats))
    → Trims (p ∷ ps) stats (retain (p ∷ ps) stats)
unfolding retain Pages.invalidate_if_empty SizeStats.remove_empty_page
trim_empty p ps stats z r = rw z (record {
  keeps = λ a j h. elim h [
    | inl (e, on) ↦ absurd (true≢false (sym on ∙ bit-is_zero p.reserved_bitmask j z))
    | inr h' ↦ r.keeps a j h'
  ];
  only = λ a j h. inr (r.only a j h);
  tidy = λ (f, n, t). r.tidy t;
  fresh = λ a (away, g). r.fresh a g;
  none_empty = r.none_empty;
  same_size = r.same_size;
  same_buffers = r.same_buffers;
  counted = λ e. r.counted (omega (arith, e, count_empty_free p ps z));
})

trim_used :
    (p : Page) (ps : List Page) (stats : SizePoolStats)
    → is_zero p.reserved_bitmask ≡ false
    → Trims ps stats (retain ps stats)
    → Trims (p ∷ ps) stats (retain (p ∷ ps) stats)
unfolding retain Pages.invalidate_if_empty
trim_used p ps stats nz r = rw nz (record {
  keeps = λ a j h. elim h [ inl h' ↦ inl h' | inr h' ↦ inr (r.keeps a j h') ];
  only = λ a j h. elim h [ inl h' ↦ inl h' | inr h' ↦ inr (r.only a j h') ];
  tidy = λ (f, n, t). (r.fresh p.bytes f, n, r.tidy t);
  fresh = λ a (away, g). (away, r.fresh a g);
  none_empty = count_empty_used p (retain ps stats).0 nz ∙ r.none_empty;
  same_size = r.same_size;
  same_buffers = r.same_buffers;
  counted = λ e. r.counted (e ∙ ap (λ k. k % 2 ^ 64) (count_empty_used p ps nz));
})

pub retain_lem :
    (pages : List Page) (stats : SizePoolStats) → Trims pages stats (retain pages stats)
unfolding retain
retain_lem [] stats = record {
  keeps = λ a j h. h;
  only = λ a j h. h;
  tidy = λ t. t;
  fresh = λ a f. f;
  none_empty = refl;
  same_size = refl;
  same_buffers = refl;
  counted = λ e. omega (arith, e);
}
retain_lem (p ∷ ps) stats = elim (Bool-cases (is_zero p.reserved_bitmask)) [
  | inl z ↦ trim_empty p ps stats z (retain_lem ps (SizeStats.remove_empty_page stats))
  | inr nz ↦ trim_used p ps stats nz (retain_lem ps stats)
]
