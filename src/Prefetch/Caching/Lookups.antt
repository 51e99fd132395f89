-- ===== src/Prefetch/Caching/Lookups.antt =====
-- The loop over the blocks of a range: the blocks that are cached, and the client from the first miss on.
use mathlib.Core.Path.{subst}
use native.Mathlib.Nat.{lt_of_mul-lt-mul_right, div-add-mod', mod-lt}
use mountpoint_s.Prelude.{
  ℕ, zero, suc, ◌+◌, ◌-◌, ◌*◌, ◌/◌, ◌%◌, ◌≤◌, ◌<◌, min, ◌≡◌, refl, sym, ap, ap₂, ◌∙◌, List, [], ◌∷◌,
  false, Option, none, some, Outcome-cases, inl, inr, arith, length, slice, length-slice,
  Bool-cases, ◌==◌, eqb→eq, eqb→ne, ne→eqb, ◌+w◌, ◌*w◌,
}
use mountpoint_s.Checksums
use mountpoint_s.Checksums.{Crc, ChecksummedBytes}
use mountpoint_s.Checksums.Content.{length-content}
use mountpoint_s.DataCache.{DataCache, IsFaithful}
use mountpoint_s.Prefetch.Errors.{read_window_increment}
use mountpoint_s.Prefetch.Part.{ObjectId, Part, cache}
use mountpoint_s.Prefetch.PartQueue.{failure}
use mountpoint_s.Prefetch.PartQueue.Honest.{Delivers}
use mountpoint_s.Prefetch.Backpressure.Producer.{Producer, wait_for_read_window_increment}
use mountpoint_s.Prefetch.Range.{RequestRange, end_offset}
use mountpoint_s.Prefetch.Range.Cut.{mark}
use mountpoint_s.Prefetch.Compose.{Item, Waits, next_wait}
use mountpoint_s.Prefetch.Compose.Honest.{KeepsTo}
use mountpoint_s.Prefetch.Caching.{Sent, end_block, get_blocks, get_from_cache, try_make_part}
use mountpoint_s.Prefetch.Caching.Parts.{Made, Made-Delivers, try_make_part_lem}
use mountpoint_s.Prefetch.Caching.Blocks.{AllBlocks}
use mountpoint_s.Prefetch.Caching.Composed.{Streams}
use mountpoint_s.Prefetch.Caching.Filling.{Setting}
use mountpoint_s.Prefetch.Caching.Requests.{
  GoodBlock, At, Answers-cases, index_le, end_split, fall_back_lem,
}

module _ {S : Type 0} (data_cache : DataCache S) (crc : Crc) (id : ObjectId)
    (objects : ObjectId → List ℕ) where
  block_lem :
      (range : RequestRange) (n index block_offset : ℕ) (block : ChecksummedBytes)
      → Setting crc id data_cache.block_size (objects id) range
      → At data_cache crc id objects range (suc n) index block_offset
      → GoodBlock data_cache crc objects id index block
      → (p : Part) × (try_make_part block block_offset id range cache ≡ some (some p))
        × Made crc id
            (objects id)
            range
            block_offset
            (block_offset +w data_cache.block_size)
            (some p)
  block_lem range n index block_offset block s a good =
      let k : ℕ = data_cache.block_size in
      let object : List ℕ = objects id in
      let end : ℕ = min (index * k + k) (length object) in
      let size : Checksums.len block ≡ end - index * k = omega (
        arith,
        length-content good.valid,
        ap length good.bytes,
        length-slice object (index * k) end (omega arith),
      ) in
      let whole : block_offset + Checksums.len block ≡ end =
        omega (arith, size, a.start, good.inside) in
      let split : (index + suc n) * k ≡ index * k + k + n * k = end_split index n k in
      let before : block_offset < range.offset + range.size = omega (arith, split, a) in
      let (made, e, m) =
        try_make_part_lem crc id object range block block_offset cache good.valid good.intact
          (good.bytes ∙ ap₂ (slice object) (sym a.start) (sym whole)) (omega (arith, whole))
          s.range_le s.object_small in
      let reach : mark range (block_offset + Checksums.len block) ≡ mark range (block_offset +w k) =
        omega (arith, whole, a.start, s) in
      let moves : mark range block_offset < mark range (block_offset +w k) =
        omega (arith, before, a.later, a.some_bytes, s) in
      chosen made e m reach moves
    where
      chosen :
          (made : Option Part)
          → try_make_part block block_offset id range cache ≡ some made
          → Made crc id (objects id) range block_offset (block_offset + Checksums.len block) made
          → mark range (block_offset + Checksums.len block)
            ≡ mark range (block_offset +w data_cache.block_size)
          → mark range block_offset < mark range (block_offset +w data_cache.block_size)
          → (p : Part) × (try_make_part block block_offset id range cache ≡ some (some p))
            × Made crc id
                (objects id)
                range
                block_offset
                (block_offset +w data_cache.block_size)
                (some p)
      chosen none e m reach lt = absurd (omega (arith, m, reach))
      chosen (some p) e (holds, at, bytes, ends) reach lt = (p, e, (holds, at, bytes, ends ∙ reach))

  -- For a faithful cache and a client that sends bytes of the object: from a block on, the parts of the
  -- rest of the range are pushed, of blocks that are cached and then of the client's bytes.
  get_blocks_lem :
      (Keeps : S → Type 0) (client : RequestRange → List Item) (initial_end : ℕ)
      (range : RequestRange) (n index block_offset : ℕ) (p : Producer) (waits : Waits) (s : S)
      → IsFaithful data_cache (GoodBlock data_cache crc objects) Keeps
      → KeepsTo crc id (objects id) client
      → Setting crc id data_cache.block_size (objects id) range
      → At data_cache crc id objects range n index block_offset
      → Keeps s
      → let r =
          get_blocks data_cache crc id client initial_end range n index block_offset p waits s in
        Streams crc id data_cache.block_size (objects id) range block_offset r.0 × Keeps r.1
  unfolding get_blocks
  get_blocks_lem Keeps client initial_end range zero index block_offset p waits s f keeps set a k =
      (record { delivers = inl refl; blocks = tt }, k)
  get_blocks_lem Keeps client initial_end range (suc n) index block_offset p waits s f keeps set a
        k =
      let bs : ℕ = data_cache.block_size in
      let object : List ℕ = objects id in
      let asked = data_cache.get_block s id index block_offset range.object_size in
      let (answers, kept) = f.get s id index block_offset range.object_size k in
      let next : ℕ = block_offset +w bs in
      let split : (index + suc n) * bs ≡ index * bs + bs + n * bs = end_split index n bs in
      let e_next : next ≡ block_offset + bs = omega (arith, split, a, set) in
      let e_index : index +w 1 ≡ index + 1 =
        omega (arith, index_le (index + suc n) bs set.block_pos, a, set) in
      let miss =
        fall_back_lem data_cache crc id objects client initial_end range n index block_offset p
          waits set keeps a in
      elim (Answers-cases (GoodBlock data_cache crc objects) id index asked.0 answers) [
        | inr (inl none_there) ↦ rw (none_there, get_blocks) (miss, kept)
        | inr (inr (e, failed)) ↦ rw (failed, get_blocks) (miss, kept)
        | inl (block, found, good) ↦
            let (made, made_is, m) = block_lem range n index block_offset block set a good in
            let (queued, later, waits') = next_wait waits in
            let step = Made-Delivers crc id object range block_offset next (some made) in
            elim (Outcome-cases (wait_for_read_window_increment p next queued later)) [
              | inr (inl (e, closed)) ↦
                  rw (found, get_blocks, made_is, closed)
                    (
                      record {
                        delivers = step (failure read_window_increment ∷ []) m refl;
                        blocks = tt;
                      },
                      kept,
                    )
              | inr (inr broken) ↦
                  rw (found, get_blocks, made_is, broken)
                    (record { delivers = step [] m (inl refl); blocks = tt }, kept)
              | inl ((x, p', y), waited) ↦
                  let tail : Sent × S =
                    get_blocks data_cache crc id client initial_end range n (index +w 1) next p'
                      waits' asked.1 in
                  let (rest, kept') =
                    get_blocks_lem Keeps client initial_end range n (index +w 1) next p' waits'
                      asked.1 f keeps set
                      (record {
                        start = e_next ∙ grind (arith, a.start) ∙ ap (λ j. j * bs) (sym e_index);
                        later = omega (arith, a.later, e_next);
                        ends =
                            subst (λ j. j * bs < range.offset + range.size + bs)
                              (omega (arith, e_index)) a.ends;
                        some_bytes = a.some_bytes;
                      })
                      kept in
                  rw (found, get_blocks, made_is, waited)
                    (
                      record {
                        delivers = step tail.0.messages m rest.delivers;
                        blocks = rest.blocks;
                      },
                      kept',
                    )
            ]
      ]

  end_block_lem :
      (range : RequestRange) (start : ℕ)
      → Setting crc id data_cache.block_size (objects id) range
      → start ≡ range.offset / data_cache.block_size
      → 0 < range.size
      → start ≤ end_block data_cache.block_size range
        × end_block data_cache.block_size range * data_cache.block_size
          < range.offset + range.size + data_cache.block_size
  unfolding end_block
  end_block_lem range start s e some_bytes =
      let k : ℕ = data_cache.block_size in
      let at : ℕ = end_offset range in
      let sum : at ≡ range.offset + range.size = omega (arith, s) in
      let q : ℕ = at / k in
      let split : q * k + at % k ≡ at = div-add-mod' at k in
      let start_split : range.offset / k * k + range.offset % k ≡ range.offset =
        div-add-mod' range.offset k in
      let start_le : start * k ≤ range.offset = rw e (omega (arith, start_split)) in
      let some_size : (range.size == 0) ≡ false = ne→eqb _ _ (omega (arith, some_bytes)) in
      let q_le : q ≤ q * k = index_le q k s.block_pos in
      elim (Bool-cases (at % k == 0)) [
        | inl even ↦
            let all : q * k ≡ at = omega (arith, eqb→eq _ _ even, split) in
            let lt : start < q =
              lt_of_mul-lt-mul_right k (omega (arith, all, start_le, sum, some_bytes)) in
            rw (some_size, even) (omega (arith, lt), omega (arith, all, sum, s.block_pos))
        | inr odd ↦
            let up : q +w 1 ≡ q + 1 = omega (arith, split, q_le, sum, s) in
            let next : (q + 1) * k ≡ q * k + k = grind arith in
            let m : at % k < k = mod-lt at s.block_pos in
            let lt : start < q + 1 =
              lt_of_mul-lt-mul_right k (omega (arith, split, m, next, start_le, sum, some_bytes)) in
            rw (some_size, odd, up)
              (omega (arith, lt), omega (arith, next, split, sum, eqb→ne _ _ odd))
      ]

  no_block :
      (range : RequestRange)
      → Setting crc id data_cache.block_size (objects id) range
      → range.size ≡ 0
      → end_block data_cache.block_size range - range.offset / data_cache.block_size ≡ 0
  unfolding end_block
  no_block range s e =
      let at : range.offset +w 0 ≡ range.offset = omega (arith, s) in rw (e, at) (omega arith)

  pub get_from_cache_lem :
      (Keeps : S → Type 0) (client : RequestRange → List Item) (initial_end : ℕ)
      (range : RequestRange) (p : Producer) (waits : Waits) (s : S)
      → IsFaithful data_cache (GoodBlock data_cache crc objects) Keeps
      → KeepsTo crc id (objects id) client
      → Setting crc id data_cache.block_size (objects id) range
      → Keeps s
      → let r = get_from_cache data_cache crc id client initial_end range p waits s in
        Delivers crc id (objects id) false r.0.messages range.offset
        × AllBlocks crc id data_cache.block_size (objects id) r.0.updates
        × Keeps r.1
  unfolding get_from_cache get_blocks
  get_from_cache_lem Keeps client initial_end range p waits s f keeps set k =
      let bs : ℕ = data_cache.block_size in
      let start : ℕ = range.offset / bs in
      let split : start * bs + range.offset % bs ≡ range.offset = div-add-mod' range.offset bs in
      let m : range.offset % bs < bs = mod-lt range.offset set.block_pos in
      let some_size : (bs == 0) ≡ false = ne→eqb _ _ (omega (arith, set.block_pos)) in
      let e : start *w bs ≡ start * bs = omega (arith, split, set) in
      elim (Bool-cases (range.size == 0)) [
        | inl empty ↦
            let same : end_block bs range - start ≡ 0 = no_block range set (eqb→eq _ _ empty) in
            rw (some_size, same) (inl refl, tt, k)
        | inr full ↦
            let some_bytes : 0 < range.size = omega (arith, eqb→ne _ _ full) in
            let (before, ends) = end_block_lem range start set refl some_bytes in
            let (streams, kept) =
              get_blocks_lem Keeps client initial_end range (end_block bs range - start) start
                (start * bs) p waits s f keeps set
                (record {
                  start = refl;
                  later = omega (arith, split, m);
                  ends =
                      subst (λ j. j * bs < range.offset + range.size + bs) (omega (arith, before))
                        ends;
                  some_bytes = some_bytes;
                })
                k in
            let r =
              get_blocks data_cache crc id client initial_end range (end_block bs range - start)
                start (start * bs) p waits s in
            let here : mark range (start * bs) ≡ range.offset =
              omega (arith, split, m, some_bytes) in
            rw (some_size, e)
              (
                subst (λ j. Delivers crc id (objects id) false r.0.messages j) here
                    streams.delivers,
                streams.blocks,
                kept,
              )
      ]
