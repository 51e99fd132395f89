-- ===== src/Prefetch/Stream.antt =====
-- Parts that hold bytes of one object, and runs of such parts that follow on from one another. This
-- is the specification that the queue, the seek window and the reader are proved against.
use mountpoint_s.Prelude.{
  ℕ, ◌+◌, ◌-◌, ◌≤◌, ◌<◌, ◌^◌, ◌≡◌, ap, ◌∙◌, List, [], ◌∷◌, ◌++◌, true, ◌+w◌, some, ok, arith,
  length, slice, slice-slice, eq_iff, ap₂,
}
use mountpoint_s.Checksums.{Crc}
use mountpoint_s.Checksums.Content.{IsValid, IsIntact, content, split_off-content, kept, rest}
use mountpoint_s.Prefetch.Part.{ObjectId, Part, id_eq, len, check, split_off}

id_eq_self : (id : ObjectId) → id_eq id id ≡ true
unfolding id_eq
id_eq_self id = ground (arith, eq_iff id.key id.key, eq_iff id.etag id.etag)

-- `check` accepts a part exactly at its own object and offset.
pub check_self : (p : Part) (offset : ℕ) → p.offset ≡ offset → check p p.id offset ≡ ok tt
unfolding check
check_self p offset h = ground (arith, id_eq_self p.id)

-- The two parts of a split.
abbrev pub front : Part → ℕ → Part
front p at = record p { checksummed_bytes = kept p.checksummed_bytes at }

abbrev pub back : Part → ℕ → Part
back p at = record p { offset = p.offset +w at; checksummed_bytes = rest p.checksummed_bytes at }

module _ (crc : Crc) (id : ObjectId) (object : List ℕ) where
  -- The part holds the bytes of `object` at its offset, and says so.
  pub record Holds (p : Part) : Type 0 where
    pub id_same : p.id ≡ id
    pub valid : IsValid p.checksummed_bytes
    pub intact : IsIntact crc p.checksummed_bytes
    pub within : p.offset + len p ≤ length object
    pub bytes : content p.checksummed_bytes ≡ slice object p.offset (p.offset + len p)

  -- Parts that hold the bytes of `object` from `from` up to `to`, none of them empty.
  abbrev pub Run : List Part → ℕ → ℕ → Type 0
  Run [] from to = from ≡ to
  Run (p ∷ ps) from to = Holds p × (p.offset ≡ from) × (0 < len p) × Run ps (from + len p) to

  pub Run-le : (ps : List Part) (from to : ℕ) → Run ps from to → from ≤ to
  Run-le [] from to r = omega arith
  Run-le (p ∷ ps) from to r = omega (arith, Run-le ps (from + len p) to r.3)

  pub Run-append : (ps qs : List Part) (a b c : ℕ) → Run ps a b → Run qs b c → Run (ps ++ qs) a c
  Run-append [] qs a b c r s = rw r s
  Run-append (p ∷ ps) qs a b c r s = (r.0, r.1, r.2, Run-append ps qs (a + len p) b c r.3 s)

  -- Splitting a part that holds bytes of the object gives two that do.
  pub split_off-Holds :
      (p : Part) (at : ℕ)
      → length object < 2 ^ 63
      → Holds p
      → at < len p
      → (split_off p at ≡ some (front p at, back p at))
        × Holds (front p at)
        × Holds (back p at)
        × (len (front p at) ≡ at)
        × ((back p at).offset ≡ p.offset + at)
        × (len (back p at) ≡ len p - at)
  unfolding split_off
  split_off-Holds p at small h lt =
      let (e, bytes_a, bytes_b, va, vb) = split_off-content at h.valid lt in
      let la : len (front p at) ≡ at = omega (arith, h.valid) in
      let lb : len (back p at) ≡ len p - at = omega (arith, h.valid) in
      let o : (back p at).offset ≡ p.offset + at = omega (arith, h) in
      (
        rw (e, split_off),
        record {
          id_same = h.id_same;
          valid = va;
          intact = h.intact;
          within = omega (arith, h);
          bytes =
              bytes_a
              ∙ ap (λ t. slice t 0 at) h.bytes
              ∙ slice-slice object p.offset (p.offset + len p) 0 at (omega arith) (omega arith)
              ∙ ap₂ (slice object) (omega arith) (omega arith);
        },
        record {
          id_same = h.id_same;
          valid = vb;
          intact = h.intact;
          within = omega (arith, h);
          bytes =
              bytes_b
              ∙ ap (λ t. slice t at (len p)) h.bytes
              ∙ slice-slice object p.offset (p.offset + len p) at (len p) (omega arith)
                  (omega arith)
              ∙ ap₂ (slice object) (omega arith) (omega arith);
        },
        la,
        o,
        lb,
      )
