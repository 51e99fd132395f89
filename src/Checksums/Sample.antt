-- ===== src/Checksums/Sample.antt =====
-- A concrete checksum for examples: the sum of the bytes, with validation on.
use mountpoint_s.Prelude.{ℕ, ◌+◌, ◌≡◌, refl, List, [], ◌∷◌, ◌++◌, false, arith}
use mountpoint_s.Checksums.{Crc}

abbrev pub sum : List ℕ → ℕ
sum [] = 0
sum (x ∷ xs) = x + sum xs

pub sum-append : (a b : List ℕ) → sum a + sum b ≡ sum (a ++ b)
sum-append [] b = omega arith
sum-append (x ∷ a) b = omega (arith, sum-append a b)

abbrev pub sum_crc : Crc
sum_crc = record {
  disabled = false;
  checksum = sum;
  crc32c_combine = λ a b n. a + b;
  combine_law = sum-append;
  checksum_empty = refl;
}
