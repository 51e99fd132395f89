-- ===== src/Memory/Pages/Consume.antt =====
-- Which bit of a page `consume` sets, and which `release` clears.
use mathlib.Core.Bool.{true≢false}
use native.Mathlib.Nat.{mul-div_cancel, mul-le-mul_right}
use mountpoint_s.Prelude.{
  ℕ, zero, suc, ◌+◌, ◌-◌, ◌*◌, ◌/◌, ◌≤◌, ◌<◌, true, false, not, Option, none, some, ◌⊎◌, inl, inr,
  length, leb, ◌≡◌, refl, sym, ap, ◌∙◌, arith, Bool-cases, if◌then◌else◌,
}
use mountpoint_s.Memory.Bits.{
  Bits, one_shl, and, complement, is_zero, is_max, bit, Changes, and-one_shl, or-one_shl,
  and_complement_of-one_shl, is_max-bit,
}
use mountpoint_s.Memory.SizeStats
use mountpoint_s.Memory.SizeStats.{SizePoolStats}
use mountpoint_s.Memory.Pages.{
  Page, PageStatus, PagedBufferPtr, last_buffer, consume_loop, consume, release,
}

-- What the loop of `consume` gives, from an index on.
abbrev Found : ℕ → Bits → Option (ℕ × Bits) → Type 0
Found index m none = (i : ℕ) → index ≤ i → i < 16 → bit m i ≡ true
Found index m (some (i, m')) = (i < 16) × (bit m i ≡ false) × Changes m i true m'

consume_loop_lem :
    (n index : ℕ) (m : Bits)
    → length m ≡ 16
    → index + n ≡ 16
    → Found index m (consume_loop n index m)
unfolding consume_loop
consume_loop_lem zero index m h e = λ i le lt. absurd (omega (arith, e, le, lt))
consume_loop_lem (suc n) index m h e =
    let test = and-one_shl 16 index m h (omega (arith, e)) in
    elim (Bool-cases (bit m index)) [
      | inl taken ↦
          let busy : is_zero (and m (one_shl 16 index)) ≡ false = test ∙ ap not taken in
          rw busy (
            later taken (consume_loop n (suc index) m)
              (consume_loop_lem n (suc index) m h (omega (arith, e))))
      | inr unused ↦
          let here : is_zero (and m (one_shl 16 index)) ≡ true = test ∙ ap not unused in
          rw here (omega (arith, e), unused, or-one_shl 16 index m h (omega (arith, e)))
    ]
  where
    later : bit m index ≡ true → (x : Option (ℕ × Bits)) → Found (suc index) m x → Found index m x
    later taken (some (i, m')) f = f
    later taken none f = λ i le lt. at i le lt (same-or i le)
      where
        same-or : (i : ℕ) → index ≤ i → (i ≡ index) ⊎ (suc index ≤ i)
        same-or i le = ground arith

        at : (i : ℕ) → index ≤ i → i < 16 → (i ≡ index) ⊎ (suc index ≤ i) → bit m i ≡ true
        at i le lt (inl e) = ap (λ k. bit m k) e ∙ taken
        at i le lt (inr le') = f i le' lt

-- What `consume` gives: a bit that was not set, if there is one.
abbrev pub Consumed : Bits → Option (ℕ × PageStatus × Bits) → Type 0
Consumed m none = is_max m ≡ true
Consumed m (some (i, status, m')) =
    (i < 16)
    × (bit m i ≡ false)
    × Changes m i true m'
    × (status ≡ (if is_zero m then PageStatus.empty else PageStatus.non_empty))

pub consume_lem : (m : Bits) → length m ≡ 16 → Consumed m (consume m)
unfolding consume
consume_lem m h = elim (Bool-cases (is_max m)) [
  | inl full ↦ rw full full
  | inr open_bits ↦
      rw open_bits (found open_bits (consume_loop 16 0 m) (consume_loop_lem 16 0 m h (omega arith)))
]
  where
    found :
        is_max m ≡ false
        → (x : Option (ℕ × Bits)) → Found 0 m x
        → Consumed m (elim x as (λ y. Option (ℕ × PageStatus × Bits)) [
          | none ↦ none
          | some (index, bitmask') ↦
              some (index, (if is_zero m then PageStatus.empty else PageStatus.non_empty), bitmask')
        ])
    found h' none f =
        let (i, lt, e) = is_max-bit m h' in
        absurd (true≢false (sym (f i (omega arith) (omega (arith, lt, h))) ∙ e))
    found h' (some (i, m')) (lt, e, c) = (lt, e, c, refl)

-- A pointer of a buffer of the page is not refused, and its index is found again.
pub release_lem :
    (b : PagedBufferPtr) (p : Page) (stats : SizePoolStats) (i : ℕ)
    → b.ptr ≡ p.bytes + i * stats.buffer_size
    → i < 16
    → 0 < stats.buffer_size
    → length p.reserved_bitmask ≡ 16
    → (m : Bits) × Changes p.reserved_bitmask i false m
      × (release b p stats
          ≡ some (
            record p { reserved_bitmask = m },
            (if is_zero m
                then SizeStats.add_empty_page (SizeStats.remove_reserved_buffer stats b.kind)
                else SizeStats.remove_reserved_buffer stats b.kind),
          ))
unfolding release
release_lem b p stats i at lt pos h =
    let index : (b.ptr - p.bytes) / stats.buffer_size ≡ i =
      ap (λ k. k / stats.buffer_size) (omega (arith, at)) ∙ mul-div_cancel i pos in
    let above : leb p.bytes b.ptr ≡ true = ground (arith, at) in
    let le : i ≤ 15 = omega (arith, lt) in
    let below : leb b.ptr (last_buffer p stats) ≡ true =
      ground (arith, at, mul-le-mul_right stats.buffer_size le) in
    (
      and p.reserved_bitmask (complement (one_shl 16 i)),
      and_complement_of-one_shl 16 i p.reserved_bitmask h lt,
      rw above (rw below (rw index refl)),
    )
