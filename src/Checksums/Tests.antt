-- ===== src/Checksums/Tests.antt =====
-- Small runs, and the theorems at concrete inputs. The checksum here is the sum of the bytes.
use mountpoint_s.Prelude.{◌≡◌, refl, [], ◌∷◌, ◌++◌, some, arith, ok, err, inr, ◌⊎◌, slice}
use mountpoint_s.Checksums.{
  ChecksummedBytes, checksum_mismatch, new, split_off, extend, extend_both, assert_fits, join,
  into_bytes, shrink_to_fit, into_inner,
}
use mountpoint_s.Checksums.Sample.{sum_crc}
use mountpoint_s.Checksums.Content.{
  IsValid, IsIntact, content, kept, rest, split_off-content, into_bytes-content,
}
use mountpoint_s.Checksums.Extend.{extend-content, corrupt_refused}

abbrev abc : ChecksummedBytes
abc = record { buffer = 1 ∷ 2 ∷ 3 ∷ []; start = 1; end = 3; checksum = 6 }

abbrev bad : ChecksummedBytes
bad = record { buffer = 1 ∷ 2 ∷ 3 ∷ []; start = 1; end = 3; checksum = 7 }

extend_runs : extend sum_crc abc (new sum_crc (9 ∷ [])) ≡ ok (new sum_crc (2 ∷ 3 ∷ 9 ∷ []))
unfolding extend extend_both assert_fits join shrink_to_fit slice new
extend_runs = refl

split_off-content_example :
    (split_off abc 1 ≡ some (kept abc 1, rest abc 1))
    × (content (kept abc 1) ≡ slice (content abc) 0 1)
    × (content (rest abc 1) ≡ slice (content abc) 1 2)
    × IsValid (kept abc 1)
    × IsValid (rest abc 1)
split_off-content_example = split_off-content {c = abc} 1 (omega arith) (omega arith)

into_bytes-content_example :
    (IsIntact sum_crc abc × (into_bytes sum_crc abc ≡ ok (content abc)))
    ⊎ (¬ IsIntact sum_crc abc × (into_bytes sum_crc abc ≡ err (checksum_mismatch 6 6)))
into_bytes-content_example = into_bytes-content sum_crc {c = abc} (omega arith)

extend-content_example :
    (r : ChecksummedBytes) × (extend sum_crc abc abc ≡ ok r)
    × (content r ≡ content abc ++ content abc)
    × IsValid r
    × IsIntact sum_crc r
extend-content_example =
    extend-content sum_crc abc abc (omega arith) (omega arith) (inr refl) (inr refl) (omega arith)

corrupt_refused_example :
    (shrink_to_fit sum_crc bad ≡ err (checksum_mismatch 7 6))
    × (extend sum_crc bad abc ≡ err (checksum_mismatch 7 6))
    × (into_inner sum_crc bad ≡ err (checksum_mismatch 7 6))
corrupt_refused_example =
    corrupt_refused sum_crc bad abc (omega arith) (omega arith) (omega arith) (omega arith) refl
      (omega arith)
