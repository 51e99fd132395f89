-- ===== src/Upload/Buffer/Tests.antt =====
-- Upload buffers at concrete inputs.
use mountpoint_s.Prelude.{
  ℕ, ◌+◌, ◌%◌, List, [], ◌∷◌, ◌++◌, some, inr, arith, ◌≡◌, refl, sym, ap, ◌∙◌, String, ◌==◌,
  if◌then◌else◌,
}
use mathlib.Core.Option.{some-injective}
use mountpoint_s.Memory.Limiter
use mountpoint_s.Memory.Limiter.{MemoryLimiter}
use mountpoint_s.Upload.Hasher
use mountpoint_s.Upload.Hasher.{ChecksumAlgorithm, Digests, hasher, crc32c}
use mountpoint_s.Upload.Buffer.{UploadBuffer, write, freeze}
use mountpoint_s.Upload.Buffer.Sums.{IsDigest}
use mountpoint_s.Upload.Buffer.Frozen.{frozen_after, Frozen, freeze-write-new}
use mountpoint_s.Upload.Buffer

-- A digest that tells whether the sum of the bytes is even, by the algorithms with a name.
abbrev sum : List ℕ → ℕ
sum [] = 0
sum (x ∷ xs) = x + sum xs

sum-append : (xs ys : List ℕ) → sum (xs ++ ys) ≡ sum xs + sum ys
sum-append [] ys = omega arith
sum-append (x ∷ xs) ys = omega (arith, sum-append xs ys)

abbrev parity : ℕ → String
parity n = if n % 2 == 0 then "even" else "odd"

abbrev digests : Digests ℕ
digests = record {
  start = λ a. some 0;
  take_in = λ a n bytes. some (n + sum bytes);
  finish = λ a n. some (parity n);
}

abbrev digest : ChecksumAlgorithm → List ℕ → String
digest a bytes = parity (sum bytes)

abbrev Holds : ChecksumAlgorithm → List ℕ → ℕ → Type 0
Holds a bytes n = n ≡ sum bytes

digests-IsDigest : IsDigest digests digest Holds
digests-IsDigest = record {
  first = λ a st e. some-injective _ _ (sym e);
  next = λ a xs ys st st' h e.
      sym (some-injective _ _ e) ∙ ap (λ k. k + sum ys) h ∙ sym (sum-append xs ys);
  last = λ a xs st c h e. some-injective _ _ (sym e) ∙ ap parity h;
}

abbrev buffer : UploadBuffer ℕ
buffer = record { bytes = 1 ∷ []; capacity = 3; hasher = hasher crc32c 1 }

abbrev limiter : MemoryLimiter
limiter = record {
  mem_limit = 1000;
  mem_reserved = 100;
  additional_mem_reserved = 70;
  pool = record { get_object = 0; put_object = 0; disk_cache = 0; append = 0; other = 0 };
}

abbrev slice : List ℕ
slice = 2 ∷ 3 ∷ 4 ∷ []

abbrev full : UploadBuffer ℕ
full = record { bytes = 1 ∷ 2 ∷ 3 ∷ []; capacity = 3; hasher = hasher crc32c 6 }

-- The third slice does not fit: the checksum is that of the first three bytes.
abbrev slices : List (List ℕ)
slices = (1 ∷ 2 ∷ []) ∷ (4 ∷ 5 ∷ []) ∷ (3 ∷ []) ∷ []

frozen_slices :
    frozen_after digests slices (Buffer.new digests 3 (some crc32c) limiter).0
    ≡ inr (1 ∷ 2 ∷ 4 ∷ [], some (crc32c, "odd"))
unfolding Buffer.new Hasher.new write freeze Hasher.update Hasher.finalize Limiter.reserve
frozen_slices = refl

freeze-write-new_example :
    Frozen digests digest Holds
      (some crc32c)
      (1 ∷ 2 ∷ 4 ∷ [])
      (frozen_after digests slices (Buffer.new digests 3 (some crc32c) limiter).0)
freeze-write-new_example =
    freeze-write-new digests digest Holds 3 (some crc32c) limiter slices digests-IsDigest
