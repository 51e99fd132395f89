-- ===== src/Prefetch/Caching/Parts.antt =====
-- `try_make_part`: the part of a stretch of the object that lies in the range of the request.
use mountpoint_s.Prelude.{
  ℕ, ◌+◌, ◌-◌, ◌≤◌, ◌<◌, ◌^◌, ◌≡◌, refl, sym, ap, ap₂, ◌∙◌, List, ◌++◌, false, Option, none, some,
  ok, inl, inr, arith, length, slice, slice-slice, Bool-cases, ◌==◌, eqb→eq, eqb→ne, ◌+w◌,
}
use mountpoint_s.Checksums
use mountpoint_s.Checksums.{Crc, ChecksummedBytes, included, excluded}
use mountpoint_s.Checksums.Content
use mountpoint_s.Checksums.Content.{IsIntact, content}
use mountpoint_s.Prefetch.Part.{ObjectId, Part, PartSource, len}
use mountpoint_s.Prefetch.Stream.{Holds}
use mountpoint_s.Prefetch.PartQueue.{Message}
use mountpoint_s.Prefetch.PartQueue.Honest.{Delivers}
use mountpoint_s.Prefetch.Range.{RequestRange}
use mountpoint_s.Prefetch.Range.Cut.{mark, trim_start_lem, trim_end_lem}
use mountpoint_s.Prefetch.Caching.{cut_part, try_make_part, messages_of}

slice_lem :
    (c : ChecksummedBytes) (s e : ℕ)
    → Content.IsValid c
    → s ≤ e
    → e ≤ Checksums.len c
    → Checksums.slice_range c (included s) (excluded e)
      ≡ ok (record c { start = c.start + s; end = c.start + e })
unfolding Checksums.slice_range
slice_lem c s e v p q = ground arith

module _ (crc : Crc) (id : ObjectId) (object : List ℕ) (range : RequestRange) where
  -- What may be made of the bytes from `o` up to `e`: the part of them in the range, or nothing if they
  -- have none.
  abbrev pub Made : ℕ → ℕ → Option Part → Type 0
  Made o e none = mark range o ≡ mark range e
  Made o e (some p) =
      Holds crc id object p
      × (p.offset ≡ mark range o)
      × (0 < len p)
      × (mark range o + len p ≡ mark range e)

  pub Made-Delivers :
      (o e : ℕ) (made : Option Part) (after : List Message)
      → Made o e made
      → Delivers crc id object false after (mark range e)
      → Delivers crc id object false (messages_of made ++ after) (mark range o)
  Made-Delivers o e none after m d = rw m d
  Made-Delivers o e (some p) after m d = (m.0, m.1, m.2, rw m.3 d)

  pub try_make_part_lem :
      (bytes : ChecksummedBytes) (o : ℕ) (source : PartSource)
      → Content.IsValid bytes
      → IsIntact crc bytes
      → content bytes ≡ slice object o (o + Checksums.len bytes)
      → o + Checksums.len bytes ≤ length object
      → range.offset + range.size ≤ length object
      → length object < 2 ^ 61
      → (made : Option Part) × (try_make_part bytes o id range source ≡ some made)
        × Made o (o + Checksums.len bytes) made
  unfolding try_make_part cut_part
  try_make_part_lem bytes o source v intact same within range_le small =
      let l : ℕ = Checksums.len bytes in
      let e : o +w l ≡ o + l = omega arith in
      let a : ℕ = mark range o in
      let b : ℕ = mark range (o + l) in
      let from : RequestRange = record range { offset = a; size = range.offset + range.size - a } in
      let ts = trim_start_lem range o (omega arith) in
      let te = trim_end_lem from (o + l) (omega arith) in
      let me : mark from (o + l) ≡ b = omega arith in
      elim (Bool-cases (b - a == 0)) [
        | inl empty ↦ (
          none,
          rw (ts, try_make_part, e, te, me, cut_part, empty),
          omega (arith, eqb→eq _ _ empty),
        )
        | inr full ↦
            let lt : a < b = omega (arith, eqb→ne _ _ full) in
            let ends : a +w (b - a) - o ≡ b - o = omega arith in
            let cut : ChecksummedBytes = record bytes {
              start = bytes.start + (a - o);
              end = bytes.start + (b - o);
            } in
            (
              some (record { id = id; offset = a; checksummed_bytes = cut; source = source }),
              rw (
                ts,
                try_make_part,
                e,
                te,
                me,
                cut_part,
                full,
                ends,
                slice_lem bytes (a - o) (b - o) v (omega arith) (omega arith),
              ),
              (
                record {
                  id_same = refl;
                  valid = omega (arith, v);
                  intact = intact;
                  within = omega arith;
                  bytes =
                      sym (
                        slice-slice bytes.buffer bytes.start bytes.end (a - o) (b - o) (omega arith)
                          (omega (arith, v)))
                      ∙ ap (λ t. slice t (a - o) (b - o)) same
                      ∙ slice-slice object o (o + l) (a - o) (b - o) (omega arith) (omega arith)
                      ∙ ap₂ (slice object) (omega arith) (omega arith);
                },
                refl,
                omega arith,
                omega arith,
              ),
            )
      ]
