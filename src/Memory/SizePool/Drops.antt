-- ===== src/Memory/SizePool/Drops.antt =====
-- The release of a buffer keeps what holds of a pool.
use mathlib.Core.Path.{subst}
use mountpoint_s.Prelude.{
  ℕ, ◌+◌, ◌*◌, ◌%◌, ◌^◌, List, ◌∷◌, ◌++◌, Bool, true, false, inl, inr, ◌≡◌, refl, sym, ap, ◌∙◌,
  arith, if◌then◌else◌,
}
use mountpoint_s.Memory.Stats.{BufferKind}
use mountpoint_s.Memory.SizeStats
use mountpoint_s.Memory.SizeStats.{SizePoolStats}
use mountpoint_s.Memory.Pages.{Page, PagedBufferPtr}
use mountpoint_s.Memory.SizePool.Steps.{Apart}
use mountpoint_s.Memory.SizePool.Slots.{
  Slot, IsTidy, count_empty, Everywhere, Everywhere-map, Everywhere-drop, IsSeparate,
  IsSeparate-drop, Uses, Uses-drop, Placed, Apart-irrefl, index_unique,
}
use mountpoint_s.Memory.SizePool.Counts.{count, same_kind, count-drop, reserved-release_bytes}
use mountpoint_s.Memory.SizePool.Returns.{Returns, dropped}
use mountpoint_s.Memory.SizePool.Safe.{Sound}

dropped_size :
    (empty : Bool) (stats : SizePoolStats) (b : PagedBufferPtr)
    → (dropped empty stats b).buffer_size ≡ stats.buffer_size
unfolding SizeStats.remove_reserved_buffer SizeStats.add_empty_page
dropped_size true stats b = refl
dropped_size false stats b = refl

dropped_empty :
    (empty : Bool) (stats : SizePoolStats) (b : PagedBufferPtr) (n m : ℕ)
    → stats.empty_pages ≡ n % 2 ^ 64
    → m ≡ (if empty then 1 else 0) + n
    → (dropped empty stats b).empty_pages ≡ m % 2 ^ 64
unfolding SizeStats.remove_reserved_buffer SizeStats.add_empty_page
dropped_empty true stats b n m h e = omega (arith, h, e)
dropped_empty false stats b n m h e = omega (arith, h, e)

dropped_counted :
    (empty : Bool) (stats : SizePoolStats) (b : PagedBufferPtr) (kind : BufferKind) (n : ℕ)
    → SizeStats.reserved_buffers_of stats kind ≡ (same_kind b.kind kind + n) % 2 ^ 64
    → SizeStats.reserved_buffers_of (dropped empty stats b) kind ≡ n % 2 ^ 64
unfolding SizeStats.remove_reserved_buffer SizeStats.add_empty_page SizeStats.reserved_buffers_of
dropped_counted true stats b kind n h =
    reserved-release_bytes stats.reserved_buffers b.kind kind n h
dropped_counted false stats b kind n h =
    reserved-release_bytes stats.reserved_buffers b.kind kind n h

pub return-Sound :
    (pages : List Page) (stats : SizePoolStats) (before after : List PagedBufferPtr)
    (b : PagedBufferPtr) (i : ℕ)
    → b.ptr ≡ b.pool_page + i * stats.buffer_size
    → (r : Returns b i pages stats)
    → Sound
        (record { pool = record { pages = pages; stats = stats }; live = before ++ (b ∷ after) })
    → Sound (record {
      pool = record { pages = r.after; stats = dropped r.empty stats b };
      live = before ++ after;
    })
return-Sound pages stats before after b i at r s =
    let size : ℕ = stats.buffer_size in
    let same : (dropped r.empty stats b).buffer_size ≡ size = dropped_size r.empty stats b in
    let live : List PagedBufferPtr = before ++ after in
    let (separate, away) = IsSeparate-drop size before after b s.separate in
    let kept : (c : PagedBufferPtr)
        → Apart size b.ptr c.ptr
        → Placed size pages c
        → Placed size r.after c =
      λ c apart (j, lt, here, slot). (
        j,
        lt,
        here,
        elim (r.keeps c.pool_page j slot) [
          | inl h ↦ h
          | inr (e, eq) ↦ absurd (
              Apart-irrefl size b.ptr c.ptr s.positive apart (
                at
                ∙ ap (λ k. k + i * size) e
                ∙ ap (λ k. c.pool_page + k * size) (sym eq)
                ∙ sym here))
        ],
      ) in
    record {
      positive = omega (arith, same, s.positive);
      tidy = subst (λ k. IsTidy k r.after) (sym same) r.tidy;
      placed =
          subst (λ k. Everywhere (Placed k r.after) live) (sym same)
            (Everywhere-map (λ c. Apart size b.ptr c.ptr) (Placed size pages) (Placed size r.after)
              live kept away (Everywhere-drop (Placed size pages) before after b s.placed).0);
      separate = subst (λ k. IsSeparate k live) (sym same) separate;
      used = λ a j h.
          subst (λ k. Uses k live a j) (sym same)
            (elim (Uses-drop size before after b a j (s.used a j (r.only a j h))) [
              | inl (e, here) ↦ absurd (still_set a j h e here)
              | inr u ↦ u
            ]);
      empty =
          dropped_empty r.empty stats b (count_empty pages) (count_empty r.after) s.empty r.counted;
      counted = λ kind.
          dropped_counted r.empty stats b kind (count kind live)
            (s.counted kind ∙ ap (λ k. k % 2 ^ 64) (count-drop kind before after b));
    }
  where
    still_set :
        (a j : ℕ) → Slot r.after a j → b.pool_page ≡ a → b.ptr ≡ a + j * stats.buffer_size → ⊥
    still_set a j h e here =
        r.cleared (subst (λ k. Slot r.after k i) (sym e) (subst (Slot r.after a) eq h))
      where
        eq : j ≡ i
        eq =
            index_unique stats.buffer_size j i s.positive
              (omega (arith, here, at, e, ap (λ k. k + i * stats.buffer_size) e))
