-- ===== src/Upload/Buffer/Frozen.antt =====
-- A buffer from `new` on: slices are written to it, and it is frozen.
use mathlib.Core.List.{append_assoc, append-nil}
use mathlib.Core.Path.{subst}
use mountpoint_s.Prelude.{
  ℕ, zero, suc, ◌-◌, ◌≤◌, min, Bool-cases, ltb, ltb→lt, ltb→le, List, [], ◌∷◌, ◌++◌, Option, none,
  some, ◌⊎◌, inl, inr, arith, length, take, drop, take_all, ◌≡◌, refl, sym, ap, ◌∙◌, String,
}
use mountpoint_s.Memory.Limiter
use mountpoint_s.Memory.Limiter.{MemoryLimiter}
use mountpoint_s.Upload.Hasher
use mountpoint_s.Upload.Hasher.{
  ChecksumAlgorithm, ChecksumHasherError, ChecksumHasher, no_hasher, hasher, Digests, started,
  crt_error, unsupported_checksum_algorithm, unknown,
}
use mountpoint_s.Upload.Buffer
use mountpoint_s.Upload.Buffer.{UploadBuffer, frozen}
use mountpoint_s.Upload.Buffer.Sums.{IsDigest}
use mountpoint_s.Upload.Buffer.Hashes.{Fails, Hashes, Hashing, new_lem, update_lem}

-- All the bytes of the slices, the first slice first.
abbrev concat : List (List ℕ) → List ℕ
concat [] = []
concat (slice ∷ slices) = slice ++ concat slices

take-nil : (n : ℕ) → take {A = ℕ} n [] ≡ []
take-nil n = take_all n [] (omega arith)

take-min : (n : ℕ) (ys : List ℕ) → take (min (n - 0) (length ys)) ys ≡ take n ys
take-min n ys = elim (Bool-cases (ltb n (length ys))) [
  | inl short ↦ ap (λ k. take k ys) (omega (arith, ltb→lt _ _ short))
  | inr long ↦
      let h : length ys ≤ n = ltb→le _ _ long in
      take_all (min (n - 0) (length ys)) ys (omega arith) ∙ sym (take_all n ys h)
]

-- A full buffer takes no more: what it holds are the first bytes that came.
take-append :
    (n : ℕ) (xs ys : List ℕ)
    → take n xs ++ take (min (n - length (take n xs)) (length ys)) ys ≡ take n (xs ++ ys)
take-append zero xs ys =
    let none_left : min (0 - length (take 0 xs)) (length ys) ≡ 0 = omega arith in
    ap (λ k. take k ys) none_left
take-append (suc n) [] ys = take-min (suc n) ys
take-append (suc n) (x ∷ xs) ys =
    let room : suc n - suc (length (take n xs)) ≡ n - length (take n xs) = omega arith in
    ap (λ k. x ∷ (take n xs ++ take (min k (length ys)) ys)) room
    ∙ ap (λ t. x ∷ t) (take-append n xs ys)

module _ {St : Type 0} (digests : Digests St) where
  -- The slices written one after the other; what a write gives back is left out.
  abbrev buffer_of :
      ChecksumHasherError ⊎ (UploadBuffer St × List ℕ) → ChecksumHasherError ⊎ UploadBuffer St
  buffer_of (inl e) = inl e
  buffer_of (inr (b, rest)) = inr b

  abbrev pub frozen_after :
      List (List ℕ)
      → ChecksumHasherError ⊎ UploadBuffer St
      → ChecksumHasherError ⊎ (List ℕ × Option (ChecksumAlgorithm × String))
  frozen_after [] (inl e) = inl e
  frozen_after [] (inr b) = Buffer.freeze digests b
  frozen_after (slice ∷ slices) (inl e) = inl e
  frozen_after (slice ∷ slices) (inr b) =
      frozen_after slices (buffer_of (Buffer.write digests b slice))

module _ {St : Type 0} (digests : Digests St) (digest : ChecksumAlgorithm → List ℕ → String)
    (Holds : ChecksumAlgorithm → List ℕ → St → Type 0) where
  -- The checksum that belongs to the bytes.
  abbrev sum_of : Option ChecksumAlgorithm → List ℕ → Option (ChecksumAlgorithm × String)
  sum_of none bytes = none
  sum_of (some a) bytes = some (a, digest a bytes)

  abbrev pub Frozen :
      Option ChecksumAlgorithm
      → List ℕ
      → ChecksumHasherError ⊎ (List ℕ × Option (ChecksumAlgorithm × String))
      → Type 0
  Frozen algorithm bytes (inl e) = Fails digests algorithm
  Frozen algorithm bytes (inr result) = result ≡ (bytes, sum_of algorithm bytes)

  -- What the buffer holds after the bytes `all` have come.
  abbrev Filling :
      ℕ → Option ChecksumAlgorithm → List ℕ → ChecksumHasherError ⊎ UploadBuffer St → Type 0
  Filling capacity algorithm all (inl e) = Fails digests algorithm
  Filling capacity algorithm all (inr b) =
      (b.bytes ≡ take capacity all)
      × (b.capacity ≡ capacity)
      × Hashes digests digest Holds algorithm (take capacity all) b.hasher

  -- The rest of a write, with what the hasher gives for the bytes that are taken.
  hashed_lem :
      (capacity n : ℕ) (algorithm : Option ChecksumAlgorithm) (all slice : List ℕ)
      (b : UploadBuffer St) (x : ChecksumHasherError ⊎ ChecksumHasher St)
      → b.bytes ++ take n slice ≡ take capacity (all ++ slice)
      → b.capacity ≡ capacity
      → Hashing digests digest Holds algorithm (take capacity (all ++ slice)) x
      → Filling capacity algorithm (all ++ slice) (
          buffer_of digests (elim x as (λ y. ChecksumHasherError ⊎ (UploadBuffer St × List ℕ)) [
            | inr h ↦ inr (record b { bytes = b.bytes ++ take n slice; hasher = h }, drop n slice)
            | inl e ↦ inl e
          ]))
  hashed_lem capacity n algorithm all slice b (inl e) bytes room i = i
  hashed_lem capacity n algorithm all slice b (inr h) bytes room i = (bytes, room, i)

  write-Filling :
      (capacity : ℕ) (algorithm : Option ChecksumAlgorithm) (all slice : List ℕ)
      (b : UploadBuffer St)
      → IsDigest digests digest Holds
      → Filling capacity algorithm all (inr b)
      → Filling capacity algorithm (all ++ slice) (buffer_of digests (Buffer.write digests b slice))
  unfolding Buffer.write
  write-Filling capacity algorithm all slice b d (bytes, room, i) =
      let n : ℕ = min (b.capacity - length b.bytes) (length slice) in
      let m : ℕ = min (capacity - length (take capacity all)) (length slice) in
      let same : n ≡ m =
        ap (λ k. min (b.capacity - length k) (length slice)) bytes ∙ omega (arith, room) in
      let grown : b.bytes ++ take n slice ≡ take capacity (all ++ slice) =
        ap (λ k. k ++ take n slice) bytes
        ∙ ap (λ k. take capacity all ++ take k slice) same
        ∙ take-append capacity all slice in
      let sum : take capacity all ++ take n slice ≡ take capacity (all ++ slice) =
        ap (λ k. take capacity all ++ take k slice) same ∙ take-append capacity all slice in
      hashed_lem capacity n algorithm all slice b (Hasher.update digests b.hasher (take n slice))
        grown room
        (subst
          (λ k.
            Hashing digests digest Holds algorithm k
              (Hasher.update digests b.hasher (take n slice)))
          sum
          (update_lem digests digest Holds algorithm (take capacity all) (take n slice) b.hasher d
            i))

  finalize_lem :
      (algorithm : Option ChecksumAlgorithm) (bytes : List ℕ) (b : UploadBuffer St)
      → IsDigest digests digest Holds
      → b.bytes ≡ bytes
      → Hashes digests digest Holds algorithm bytes b.hasher
      → Frozen algorithm bytes (frozen digests b (Hasher.finalize digests b.hasher))
  unfolding Hasher.finalize
  finalize_lem none bytes b d e i = rw i (ap (λ k. (k, none)) e)
  finalize_lem (some a) bytes b d e (st, h, i) = rw h (finished (digests.finish a st) refl)
    where
      finished :
          (x : Option String)
          → digests.finish a st ≡ x
          → Frozen (some a) bytes (
              frozen digests b
                (elim x as (λ y. ChecksumHasherError ⊎ (Option (ChecksumAlgorithm × String))) [
                  | none ↦ inl crt_error
                  | some c ↦ inr (some (a, c))
                ]))
      finished none f = inr (inr (inr (st, f)))
      finished (some c) f =
          ap (λ k. (k, some (a, c))) e ∙ ap (λ k. (bytes, some (a, k))) (d.last a bytes st c i f)

  frozen_after_lem :
      (capacity : ℕ) (algorithm : Option ChecksumAlgorithm) (slices : List (List ℕ)) (all : List ℕ)
      (x : ChecksumHasherError ⊎ UploadBuffer St)
      → IsDigest digests digest Holds
      → Filling capacity algorithm all x
      → Frozen algorithm (take capacity (all ++ concat slices)) (frozen_after digests slices x)
  unfolding Buffer.freeze
  frozen_after_lem capacity algorithm [] all (inl e) d i = i
  frozen_after_lem capacity algorithm [] all (inr b) d (bytes, room, i) =
      subst (λ k. Frozen algorithm (take capacity k) (frozen_after digests [] (inr b)))
        (sym (append-nil all)) (finalize_lem algorithm (take capacity all) b d bytes i)
  frozen_after_lem capacity algorithm (slice ∷ slices) all (inl e) d i = i
  frozen_after_lem capacity algorithm (slice ∷ slices) all (inr b) d i =
      subst
        (λ k.
          Frozen algorithm (take capacity k)
            (frozen_after digests slices (buffer_of digests (Buffer.write digests b slice))))
        (append_assoc all slice (concat slices))
        (frozen_after_lem capacity algorithm slices (all ++ slice)
          (buffer_of digests (Buffer.write digests b slice)) d
          (write-Filling capacity algorithm all slice b d i))

  new-Filling :
      (capacity : ℕ) (algorithm : Option ChecksumAlgorithm) (limiter : MemoryLimiter)
      → IsDigest digests digest Holds
      → Filling capacity algorithm [] (Buffer.new digests capacity algorithm limiter).0
  unfolding Buffer.new
  new-Filling capacity algorithm limiter d =
      made (Hasher.new digests algorithm) (new_lem digests digest Holds algorithm d)
    where
      made :
          (x : ChecksumHasherError ⊎ ChecksumHasher St)
          → Hashing digests digest Holds algorithm [] x
          → Filling capacity algorithm []
              (elim x as (λ y. (ChecksumHasherError ⊎ UploadBuffer St) × MemoryLimiter) [
                | inr h ↦ (
                  inr (record { bytes = []; capacity = capacity; hasher = h }),
                  Limiter.reserve limiter capacity,
                )
                | inl e ↦ (inl e, limiter)
              ]).0
      made (inl e) i = i
      made (inr h) i = (
        sym (take-nil capacity),
        refl,
        subst (λ k. Hashes digests digest Holds algorithm k h) (sym (take-nil capacity)) i,
      )

  -- Where the digests keep their law: a new buffer to which any slices are written, one after the other,
  -- and that is then frozen gives the first bytes of the slices, as many as it has room for, and with an
  -- algorithm their checksum by it, with none no checksum. There is an error only if there is an
  -- algorithm that is not supported or for which a call of the digests fails.
  pub freeze-write-new :
      (capacity : ℕ) (algorithm : Option ChecksumAlgorithm) (limiter : MemoryLimiter)
      (slices : List (List ℕ))
      → IsDigest digests digest Holds
      → Frozen algorithm
          (take capacity (concat slices))
          (frozen_after digests slices (Buffer.new digests capacity algorithm limiter).0)
  freeze-write-new capacity algorithm limiter slices d =
      frozen_after_lem capacity algorithm slices []
        (Buffer.new digests capacity algorithm limiter).0 d
        (new-Filling capacity algorithm limiter d)
