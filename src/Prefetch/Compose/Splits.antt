-- ===== src/Prefetch/Compose/Splits.antt =====
-- What `split_body` makes of a body that holds bytes of the object.
use mathlib.Core.Path.{subst}
use native.Mathlib.Nat.{mod-lt}
use mountpoint_s.Prelude.{
  ℕ, zero, suc, ◌+◌, ◌-◌, ◌%◌, ◌≤◌, ◌<◌, ◌^◌, min, ◌≡◌, refl, sym, ◌∙◌, ap, List, [], ◌∷◌, ◌++◌,
  false, arith, length, take, drop, take_all, slice, slice-slice, length-take, length-drop, ◌+w◌,
  ◌-w◌,
}
use mountpoint_s.Checksums
use mountpoint_s.Checksums.{Crc}
use mountpoint_s.Checksums.Content.{new-content}
use mountpoint_s.Prefetch.Part.{ObjectId, len}
use mountpoint_s.Prefetch.Stream.{Holds}
use mountpoint_s.Prefetch.PartQueue.{Message}
use mountpoint_s.Prefetch.PartQueue.Honest.{Delivers}
use mountpoint_s.Prefetch.Compose.{chunk_part, split_body}

module _ (crc : Crc) (id : ObjectId) (object : List ℕ) where
  pub split_lem :
      (bytes : List ℕ) (from n : ℕ)
      → bytes ≡ slice object from (from + length bytes)
      → n ≤ length bytes
      → (take n bytes ≡ slice object from (from + n))
        × (drop n bytes ≡ slice object (from + n) (from + length bytes))
  unfolding slice
  split_lem bytes from n e le =
      let front : take n bytes ≡ slice bytes 0 n = ap (λ k. take k bytes) (omega arith) in
      let back : drop n bytes ≡ slice bytes n (length bytes) =
        sym (take_all (length bytes - n) (drop n bytes) (omega (arith, length-drop n bytes))) in
      (
        front
            ∙ ap (λ t. slice t 0 n) e
            ∙ slice-slice object from (from + length bytes) 0 n (omega arith) (omega arith)
            ∙ ap (λ k. slice object k (from + n)) (omega arith),
        back
            ∙ ap (λ t. slice t n (length bytes)) e
            ∙ slice-slice object from (from + length bytes) n (length bytes) le (omega arith),
      )

  chunk-Holds :
      (offset : ℕ) (chunk : List ℕ)
      → chunk ≡ slice object offset (offset + length chunk)
      → offset + length chunk ≤ length object
      → length object < 2 ^ 61
      → Holds crc id object (chunk_part crc id offset chunk)
  unfolding Checksums.new
  chunk-Holds offset chunk e le small =
      let (same, valid, intact) = new-content crc chunk (omega arith) in
      record {
        id_same = refl;
        valid = valid;
        intact = intact;
        within = omega arith;
        bytes = same ∙ e ∙ ap (slice object offset) (omega arith);
      }

  -- The parts of one body, and what comes after them.
  pub split_body_lem :
      (fuel alignment from : ℕ) (bytes : List ℕ) (after : List Message)
      → bytes ≡ slice object from (from + length bytes)
      → from + length bytes ≤ length object
      → length object < 2 ^ 61
      → 0 < alignment
      → alignment < 2 ^ 64
      → length bytes ≤ fuel
      → Delivers crc id object false after (from + length bytes)
      → Delivers crc id object false (split_body crc id fuel alignment from bytes ++ after) from
  unfolding split_body Checksums.new
  split_body_lem fuel alignment from [] after e le small pos fits enough d =
      subst (λ k. Delivers crc id object false after k) (omega arith) d
  split_body_lem zero alignment from (b ∷ bs) after e le small pos fits enough d =
      absurd (omega arith)
  split_body_lem (suc fuel) alignment from (b ∷ bs) after e le small pos fits enough d =
      let bytes : List ℕ = b ∷ bs in
      let n : ℕ = min (alignment -w from % alignment) (length bytes) in
      let m : from % alignment < alignment = mod-lt from pos in
      let some_n : 0 < n = omega arith in
      let n_le : n ≤ length bytes = omega arith in
      let size : length (take n bytes) ≡ n = omega (arith, length-take n bytes) in
      let left : length (drop n bytes) ≡ length bytes - n = length-drop n bytes in
      let (front, back) = split_lem bytes from n e n_le in
      let next : from +w n ≡ from + n = omega arith in
      (
        chunk-Holds from (take n bytes) (front ∙ ap (λ k. slice object from (from + k)) (sym size))
            (omega arith) small,
        refl,
        omega arith,
        subst
            (λ k.
              Delivers crc id object false
                (split_body crc id fuel alignment k (drop n bytes) ++ after)
                (from + len (chunk_part crc id from (take n bytes))))
            (sym next)
            (subst
              (λ k.
                Delivers crc id object false
                  (split_body crc id fuel alignment (from + n) (drop n bytes) ++ after) k)
              (omega arith)
              (split_body_lem fuel alignment (from + n) (drop n bytes) after
                (back ∙ ap (slice object (from + n)) (omega arith)) (omega arith) small pos fits
                (omega arith) (subst (λ k. Delivers crc id object false after k) (omega arith) d))),
      )
