-- ===== src/Memory/SizePool/Scans.antt =====
-- What `reserve` does to the pages: it takes a buffer that was not in use, and no other.
use mathlib.Core.Path.{subst}
use mathlib.Core.Bool.{true≢false}
use mountpoint_s.Prelude.{
  ℕ, ◌+◌, ◌*◌, ◌<◌, List, [], ◌∷◌, true, false, Option, none, some, ◌⊎◌, inl, inr, ◌==◌, ◌≡◌, ◌≢◌,
  refl, sym, ap, ◌∙◌, arith, Bool-cases, if◌then◌else◌,
}
use mountpoint_s.Memory.Bits.{Bits, is_zero, bit, Changes, bit-is_zero}
use mountpoint_s.Memory.Stats.{BufferKind}
use mountpoint_s.Memory.SizeStats
use mountpoint_s.Memory.SizeStats.{SizePoolStats}
use mountpoint_s.Memory.Pages
use mountpoint_s.Memory.Pages.{Page, PageStatus, PagedBufferPtr, leave, consumed, consume}
use mountpoint_s.Memory.Pages.Consume.{Consumed, consume_lem}
use mountpoint_s.Memory.SizePool.{tried, try_get_buffer_ptr}
use mountpoint_s.Memory.SizePool.Steps.{IsFresh}
use mountpoint_s.Memory.SizePool.Slots.{Slot, IsTidy, count_empty, Slot-IsFresh}

abbrev pub weight : PageStatus → ℕ
weight PageStatus.empty = 1
weight PageStatus.non_empty = 0

-- The buffer `b` has been taken from the pages.
pub record Takes (kind : BufferKind) (pages : List Page) (stats : SizePoolStats)
    (b : PagedBufferPtr) (pages' : List Page) (stats' : SizePoolStats) : Type 0 where
  pub index : ℕ
  pub bound : index < 16
  pub at : b.ptr ≡ b.pool_page + index * stats.buffer_size
  pub of_kind : b.kind ≡ kind
  pub set : Slot pages' b.pool_page index
  pub unset : Slot pages b.pool_page index → ⊥
  pub keeps : (a j : ℕ) → Slot pages a j → Slot pages' a j
  pub only : (a j : ℕ) → Slot pages' a j → Slot pages a j ⊎ ((b.pool_page ≡ a) × (j ≡ index))
  pub tidy : IsTidy stats.buffer_size pages'
  pub fresh : (a : ℕ) → IsFresh stats.buffer_size a pages → IsFresh stats.buffer_size a pages'
  pub status : PageStatus
  pub counted : count_empty pages ≡ weight status + count_empty pages'
  pub after : stats' ≡ SizeStats.add_reserved_buffer (leave status stats) kind

abbrev pub Scanned :
    BufferKind
    → List Page
    → SizePoolStats
    → Option (PagedBufferPtr × List Page × SizePoolStats)
    → Type 0
Scanned kind pages stats none = Unit
Scanned kind pages stats (some (b, pages', stats')) = Takes kind pages stats b pages' stats'

-- A page whose bit at `i` is set now was not full, and is not empty.
page_weight :
    (m m' : Bits) (i : ℕ) (status : PageStatus)
    → Changes m i true m'
    → status ≡ (if is_zero m then PageStatus.empty else PageStatus.non_empty)
    → (if is_zero m then 1 else 0) ≡ weight status + (if is_zero m' then 1 else 0)
page_weight m m' i status c e = elim (Bool-cases (is_zero m')) [
  | inl z ↦ absurd (true≢false (sym c.here ∙ bit-is_zero m' i z))
  | inr nz ↦ elim (Bool-cases (is_zero m)) [
    | inl z ↦ rw z (
        rw nz (
          ap weight (sym (e ∙ ap (λ k. if k then PageStatus.empty else PageStatus.non_empty) z))
          ∙ omega arith))
    | inr z ↦ rw z (
        rw nz (
          ap weight (sym (e ∙ ap (λ k. if k then PageStatus.empty else PageStatus.non_empty) z))
          ∙ omega arith))
  ]
]

pub decide : (j i : ℕ) → (j ≡ i) ⊎ (j ≢ i)
decide j i = elim (Bool-cases (j == i)) [
  | inl e ↦ inl (ground (arith, e))
  | inr e ↦ inr (ground (arith, e))
]

-- A page in front of those that the buffer is taken from.
pub Takes-cons :
    (kind : BufferKind) (p : Page) (ps : List Page) (stats : SizePoolStats) (b : PagedBufferPtr)
    (ps' : List Page) (stats' : SizePoolStats)
    → IsTidy stats.buffer_size (p ∷ ps)
    → 0 < stats.buffer_size
    → Takes kind ps stats b ps' stats'
    → Takes kind (p ∷ ps) stats b (p ∷ ps') stats'
Takes-cons kind p ps stats b ps' stats' (f, n, t) pos s = record {
  index = s.index;
  bound = s.bound;
  at = s.at;
  of_kind = s.of_kind;
  set = inr s.set;
  unset = λ h. elim h [
    | inl (e, on) ↦
        Slot-IsFresh stats.buffer_size p.bytes b.pool_page s.index ps' pos (s.fresh p.bytes f) s.set
          e
    | inr h' ↦ s.unset h'
  ];
  keeps = λ a j h. elim h [ inl h' ↦ inl h' | inr h' ↦ inr (s.keeps a j h') ];
  only = λ a j h. elim h [
    | inl h' ↦ inl (inl h')
    | inr h' ↦ elim (s.only a j h') [ inl g ↦ inl (inr g) | inr g ↦ inr g ]
  ];
  tidy = (s.fresh p.bytes f, n, s.tidy);
  fresh = λ a (away, g). (away, s.fresh a g);
  status = s.status;
  counted = omega (arith, s.counted);
  after = s.after;
}

pub from_page :
    (kind : BufferKind) (p : Page) (ps : List Page) (stats : SizePoolStats)
    (x : Option (ℕ × PageStatus × Bits))
    (others : Option (PagedBufferPtr × List Page × SizePoolStats))
    → Consumed p.reserved_bitmask x
    → IsTidy stats.buffer_size (p ∷ ps)
    → 0 < stats.buffer_size
    → Scanned kind ps stats others
    → Scanned kind (p ∷ ps) stats (tried p ps (consumed kind p stats x) others)
from_page kind p ps stats none none c (f, n, t) pos s = tt
from_page kind p ps stats none (some (b, ps', stats')) c t pos s =
    Takes-cons kind p ps stats b ps' stats' t pos s
from_page kind p ps stats (some (i, status, m)) others (lt, clear, c, e) (f, n, t) pos s = record {
  index = i;
  bound = lt;
  at = refl;
  of_kind = refl;
  set = inl (refl, c.here);
  unset = λ h. elim h [
    | inl (_, on) ↦ true≢false (sym on ∙ clear)
    | inr h' ↦ Slot-IsFresh stats.buffer_size p.bytes p.bytes i ps pos f h' refl
  ];
  keeps = λ a j h. elim h [
    | inl (same, on) ↦ elim (decide j i) [
      | inl eq ↦
          absurd
            (true≢false (sym on ∙ subst (λ k. bit p.reserved_bitmask k ≡ false) (sym eq) clear))
      | inr ne ↦ inl (same, c.other j ne ∙ on)
    ]
    | inr h' ↦ inr h'
  ];
  only = λ a j h. elim h [
    | inl (same, on) ↦ elim (decide j i) [
      | inl eq ↦ inr (same, eq)
      | inr ne ↦ inl (inl (same, sym (c.other j ne) ∙ on))
    ]
    | inr h' ↦ inl (inr h')
  ];
  tidy = (f, omega (arith, c.same_length, n), t);
  fresh = λ a (away, g). (away, g);
  status = status;
  counted = omega (arith, page_weight p.reserved_bitmask m i status c e);
  after = refl;
}

pub scan_lem :
    (kind : BufferKind) (pages : List Page) (stats : SizePoolStats)
    → IsTidy stats.buffer_size pages
    → 0 < stats.buffer_size
    → Scanned kind pages stats (try_get_buffer_ptr kind pages stats)
unfolding try_get_buffer_ptr Pages.try_reserve
scan_lem kind [] stats t pos = tt
scan_lem kind (p ∷ ps) stats (f, n, t) pos =
    from_page kind p ps stats (consume p.reserved_bitmask) (try_get_buffer_ptr kind ps stats)
      (consume_lem p.reserved_bitmask n) (f, n, t) pos (scan_lem kind ps stats t pos)
