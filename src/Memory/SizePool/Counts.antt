-- ===== src/Memory/SizePool/Counts.antt =====
-- How many buffers of a kind are in use.
use mountpoint_s.Prelude.{ℕ, ◌+◌, ◌%◌, ◌^◌, List, [], ◌∷◌, ◌++◌, ◌≡◌, refl, arith}
use mountpoint_s.Memory.Stats
use mountpoint_s.Memory.Stats.{BufferKind, PoolStats}
use mountpoint_s.Memory.Pages.{PagedBufferPtr}

abbrev pub same_kind : BufferKind → BufferKind → ℕ
same_kind BufferKind.get_object BufferKind.get_object = 1
same_kind BufferKind.put_object BufferKind.put_object = 1
same_kind BufferKind.disk_cache BufferKind.disk_cache = 1
same_kind BufferKind.append BufferKind.append = 1
same_kind BufferKind.other BufferKind.other = 1
same_kind _ _ = 0

abbrev pub count : BufferKind → List PagedBufferPtr → ℕ
count kind [] = 0
count kind (b ∷ bs) = same_kind b.kind kind + count kind bs

pub count-drop :
    (kind : BufferKind) (before after : List PagedBufferPtr) (b : PagedBufferPtr)
    → count kind (before ++ (b ∷ after)) ≡ same_kind b.kind kind + count kind (before ++ after)
count-drop kind [] after b = refl
count-drop kind (c ∷ before) after b = omega (arith, count-drop kind before after b)

pub reserved-reserve_bytes :
    (s : PoolStats) (k k' : BufferKind) (n : ℕ)
    → Stats.reserved_bytes s k' ≡ n % 2 ^ 64
    → Stats.reserved_bytes (Stats.reserve_bytes s 1 k) k' ≡ (same_kind k k' + n) % 2 ^ 64
unfolding Stats.reserved_bytes Stats.reserve_bytes
reserved-reserve_bytes s k k' n h = ground (arith, h)

pub reserved-release_bytes :
    (s : PoolStats) (k k' : BufferKind) (n : ℕ)
    → Stats.reserved_bytes s k' ≡ (same_kind k k' + n) % 2 ^ 64
    → Stats.reserved_bytes (Stats.release_bytes s 1 k) k' ≡ n % 2 ^ 64
unfolding Stats.reserved_bytes Stats.release_bytes
reserved-release_bytes s k k' n h = ground (arith, h)
