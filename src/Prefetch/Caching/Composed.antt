-- ===== src/Prefetch/Caching/Composed.antt =====
-- The composer of the caching stream: it pushes the parts of the range, and spawns updates with whole blocks.
use mountpoint_s.Prelude.{
  ℕ, zero, suc, ◌+◌, ◌-◌, ◌*◌, ◌≤◌, ◌<◌, min, ◌≡◌, refl, sym, ap, ap₂, ◌∙◌, List, [], ◌∷◌, ◌++◌,
  false, ok, inl, inr, arith, length, slice, take, drop, length-take, length-drop, Bool-cases, ltb,
  ltb→lt, ltb→le, ◌==◌, eqb→eq, eq→eqb, lt→ltb, ◌+w◌,
}
use mathlib.Core.List.{append_assoc}
use mathlib.Core.Path.{subst}
use mountpoint_s.Checksums
use mountpoint_s.Checksums.{Crc, ChecksummedBytes}
use mountpoint_s.DataCache.Multilevel.{Update}
use mountpoint_s.Prefetch.Part.{ObjectId, s3}
use mountpoint_s.Prefetch.PartQueue.{Message}
use mountpoint_s.Prefetch.PartQueue.Honest.{Delivers}
use mountpoint_s.Prefetch.Range.{RequestRange}
use mountpoint_s.Prefetch.Range.Cut.{mark}
use mountpoint_s.Prefetch.Compose.{Item, body, broken}
use mountpoint_s.Prefetch.Compose.Honest.{Bodies}
use mountpoint_s.Prefetch.Compose.Splits.{split_lem}
use mountpoint_s.Prefetch.Caching.{
  Composer, Composed, Sent, split_blocks, last_block, compose_parts, messages_of, update, and_then,
}
use mountpoint_s.Prefetch.Caching.Parts.{Made, Made-Delivers, try_make_part_lem}
use mountpoint_s.Prefetch.Caching.Blocks.{AllBlocks, AllBlocks-append}
use mountpoint_s.Prefetch.Caching.Filling.{
  Filling, Setting, Extended, extended, default-Filling, full_block, chunk_lem,
}

module _ (crc : Crc) (id : ObjectId) (block_size : ℕ) (object : List ℕ) (range : RequestRange) where
  -- How a body is composed: what it pushes leads from the mark of `pos` to that of `end`.
  pub record Fed (pos end : ℕ) (r : List Message × List Update × Composed) : Type 0 where
    pub c : Composer
    pub result : r.2 ≡ ok c
    pub filling : Filling crc id block_size object range c end
    pub blocks : AllBlocks crc id block_size object r.1
    pub delivers :
        (after : List Message)
        → Delivers crc id object false after (mark range end)
        → Delivers crc id object false (r.0 ++ after) (mark range pos)

  split_blocks_lem :
      (fuel : ℕ) (c : Composer) (pos : ℕ) (bytes : List ℕ)
      → Setting crc id block_size object range
      → Filling crc id block_size object range c pos
      → bytes ≡ slice object pos (pos + length bytes)
      → pos + length bytes ≤ length object
      → length bytes ≤ fuel
      → Fed pos (pos + length bytes) (split_blocks crc id block_size range fuel c pos bytes)
  unfolding split_blocks
  split_blocks_lem fuel c pos [] s f e le enough = record {
    c = c;
    result = refl;
    filling = subst (λ k. Filling crc id block_size object range c k) (omega arith) f;
    blocks = tt;
    delivers =
        λ after d. subst (λ k. Delivers crc id object false after (mark range k)) (omega arith) d;
  }
  split_blocks_lem zero c pos (b ∷ bs) s f e le enough = absurd (omega arith)
  split_blocks_lem (suc fuel) c pos (b ∷ bs) s f e le enough =
      let bytes : List ℕ = b ∷ bs in
      let n : ℕ = min (block_size - Checksums.len c.buffer) (length bytes) in
      let (front, back) = split_lem crc id object bytes pos n e (omega arith) in
      let size : length (take n bytes) ≡ n = omega (arith, length-take n bytes) in
      let front' : take n bytes ≡ slice object pos (pos + length (take n bytes)) =
        front ∙ ap (λ k. slice object pos (pos + k)) (sym size) in
      let left : length (drop n bytes) ≡ length bytes - n = length-drop n bytes in
      let chunk : ChecksummedBytes = Checksums.new crc (take n bytes) in
      let x : Extended crc id block_size object range c pos n chunk =
        extended crc id block_size object range c pos n (take n bytes) s f front size
          (omega arith) in
      let total : pos + n + length (drop n bytes) ≡ pos + length bytes = omega arith in
      let l : Checksums.len chunk ≡ n =
        (chunk_lem crc id block_size object range (take n bytes) pos front' (omega (arith, s))).0
        ∙ size in
      let (_, valid, intact, same) =
        chunk_lem crc id block_size object range (take n bytes) pos front' (omega (arith, s)) in
      let (made, made_eq, m) =
        try_make_part_lem crc id object range chunk pos s3 valid intact same (omega arith)
          s.range_le s.object_small in
      let m' : Made crc id object range pos (pos + n) made =
        subst (λ k. Made crc id object range pos (pos + k) made) l m in
      elim (Bool-cases (ltb (Checksums.len x.buffer) block_size)) [
        | inl room ↦
            let all : n ≡ length bytes = omega (arith, x.size, ltb→lt _ _ room) in
            rw (made_eq, split_blocks, x.step, room)
              (record {
                c = record c { buffer = x.buffer };
                result = refl;
                filling = record {
                  valid = x.valid;
                  intact = x.intact;
                  bytes = x.bytes ∙ ap (λ k. slice object c.block_offset (pos + k)) all;
                  start = f.start;
                  index_small = f.index_small;
                  filled = omega (arith, x.size, f);
                  room = ltb→lt _ _ room;
                };
                blocks = tt;
                delivers = λ after d.
                    Made-Delivers crc id object range pos (pos + n) made after m' (
                      subst (λ k. Delivers crc id object false after (mark range (pos + k)))
                        (sym all) d);
              })
        | inr full ↦
            let filled : Checksums.len c.buffer + n ≡ block_size =
              omega (arith, x.size, ltb→le _ _ full, f) in
            let at : c.block_offset +w block_size ≡ pos + n = omega (arith, f, s) in
            let index : c.block_index +w 1 ≡ c.block_index + 1 = omega (arith, f, s) in
            let next : pos +w Checksums.len chunk ≡ pos + n = omega (arith, s) in
            let c' : Composer = record {
              block_index = c.block_index + 1;
              block_offset = pos + n;
              buffer = Checksums.default;
            } in
            let start : pos + n ≡ (c.block_index + 1) * block_size = grind (arith, f) in
            let rest : Fed (pos + n) (pos + n + length (drop n bytes))
                (split_blocks crc id block_size range fuel c' (pos + n) (drop n bytes)) =
              split_blocks_lem fuel c' (pos + n) (drop n bytes) s
                (default-Filling crc id block_size object range (c.block_index + 1) (pos + n) s
                  start (omega (arith, f, s)))
                (back ∙ ap (slice object (pos + n)) (sym total)) (omega (arith, total))
                (omega (arith, left)) in
            rw (made_eq, split_blocks, x.step, full, at, index, next)
              (record {
                c = rest.c;
                result = rest.result;
                filling =
                    subst (λ k. Filling crc id block_size object range rest.c k) total rest.filling;
                blocks =
                    AllBlocks-append crc id block_size object
                      (update crc id block_size range c x.buffer ∷ []) _
                      (full_block crc id block_size object range c pos n chunk x s f (omega arith)
                        (omega arith) filled)
                      rest.blocks;
                delivers = λ after d.
                    subst (λ k. Delivers crc id object false k (mark range pos))
                      (sym (append_assoc (messages_of made) _ after))
                      (Made-Delivers crc id object range pos (pos + n) made _ m' (
                        rest.delivers after (
                          subst (λ k. Delivers crc id object false after (mark range k)) (sym total)
                            d)));
              })
      ]

  -- The messages of the rest of the stream, after its error.
  pub record Streams (pos : ℕ) (r : Sent) : Type 0 where
    pub delivers : Delivers crc id object false r.messages (mark range pos)
    pub blocks : AllBlocks crc id block_size object r.updates

  last_block_lem :
      (c : Composer) (pos : ℕ)
      → Setting crc id block_size object range
      → Filling crc id block_size object range c pos
      → pos ≤ length object
      → Streams pos (last_block crc id block_size range c)
  unfolding last_block
  last_block_lem c pos s f le = elim (Bool-cases (Checksums.is_empty c.buffer)) [
    | inl empty ↦ rw empty (record { delivers = inl refl; blocks = tt })
    | inr some_left ↦
        elim (Bool-cases (c.block_offset +w Checksums.len c.buffer == range.object_size)) [
          | inr short ↦ rw (some_left, short) (record { delivers = inl refl; blocks = tt })
          | inl at_end ↦
              let e : pos ≡ length object = omega (arith, eqb→eq _ _ at_end, f, s) in
              let nonempty : 0 < Checksums.len c.buffer = ground (arith, some_left) in
              rw (some_left, at_end)
                (record {
                  delivers = inl refl;
                  blocks = (
                    (
                      refl,
                      f.start,
                      s.size_is,
                      record {
                        valid = f.valid;
                        intact = f.intact;
                        inside = omega (arith, f);
                        bytes = f.bytes ∙ ap₂ (slice object) f.start (omega (arith, f));
                      },
                    ),
                    tt,
                  );
                })
        ]
  ]

  and_then_lem :
      (pos end : ℕ) (messages : List Message) (updates : List Update) (rest : Sent)
      → AllBlocks crc id block_size object updates
      → ((after : List Message)
          → Delivers crc id object false after (mark range end)
          → Delivers crc id object false (messages ++ after) (mark range pos))
      → Streams end rest
      → Streams pos (and_then messages updates rest)
  and_then_lem pos end messages updates rest b d s = record {
    delivers = d rest.messages s.delivers;
    blocks = AllBlocks-append crc id block_size object updates rest.updates b s.blocks;
  }

  -- For a stream that sends bytes of the object from `pos` on, or stops early or fails: the composer
  -- pushes the parts of them in the range of the request, in order, and stores whole blocks only.
  pub compose_parts_lem :
      (items : List Item) (c : Composer) (pos to : ℕ)
      → Setting crc id block_size object range
      → Filling crc id block_size object range c pos
      → to ≤ length object
      → pos ≤ length object
      → Bodies crc id object items pos to
      → Streams pos (compose_parts crc id block_size range c items)
  unfolding compose_parts
  compose_parts_lem [] c pos to s f le here b = last_block_lem c pos s f here
  compose_parts_lem (broken e ∷ items) c pos to s f le here b = record {
    delivers = refl;
    blocks = tt;
  }
  compose_parts_lem (body offset bytes ∷ items) c pos to s f le here (at, within, same, b) =
      let expected : pos ≡ c.block_offset +w Checksums.len c.buffer = omega (arith, f, s) in
      let fed : Fed pos (pos + length bytes)
          (split_blocks crc id block_size range (length bytes) c pos bytes) =
        split_blocks_lem (length bytes) c pos bytes s f same (omega arith) (omega arith) in
      let split = split_blocks crc id block_size range (length bytes) c pos bytes in
      subst (λ k. Streams pos (compose_parts crc id block_size range c (body k bytes ∷ items)))
        (sym at)
        (rw (lt→ltb _ _ f.room, compose_parts, eq→eqb _ _ expected, fed.result)
          (and_then_lem pos (pos + length bytes) split.0 split.1
            (compose_parts crc id block_size range fed.c items) fed.blocks fed.delivers
            (compose_parts_lem items fed.c (pos + length bytes) to s fed.filling le (omega arith)
              b)))
