-- ===== src/Upload/Buffer/Sums.antt =====
-- What a buffer holds, and its checksum.
use mathlib.Core.List.{append_assoc}
use mathlib.Core.Sum.{inl-ne-inr, inr-injective}
use mathlib.Core.Path.{subst}
use mountpoint_s.Prelude.{
  ℕ, ◌+◌, ◌-◌, ◌≤◌, min, List, [], ◌++◌, Option, none, some, ◌⊎◌, inl, inr, arith, length, take,
  drop, length-take, length-append, take-append-drop, ◌≡◌, refl, ap, ◌∙◌, String,
}
use mountpoint_s.Upload.Hasher
use mountpoint_s.Upload.Hasher.{
  ChecksumAlgorithm, ChecksumHasherError, ChecksumHasher, no_hasher, hasher, Digests, started,
  crt_error,
}
use mountpoint_s.Upload.Buffer.{UploadBuffer, write}

-- The law of the digests: where `Holds` says which bytes a state has taken in, their checksum is `digest`.
pub record IsDigest {St : Type 0} (digests : Digests St)
    (digest : ChecksumAlgorithm → List ℕ → String)
    (Holds : ChecksumAlgorithm → List ℕ → St → Type 0) : Type 0 where
  pub first : (a : ChecksumAlgorithm) (st : St) → digests.start a ≡ some st → Holds a [] st
  pub next :
      (a : ChecksumAlgorithm) (xs ys : List ℕ) (st st' : St)
      → Holds a xs st
      → digests.take_in a st ys ≡ some st'
      → Holds a (xs ++ ys) st'
  pub last :
      (a : ChecksumAlgorithm) (xs : List ℕ) (st : St) (c : String)
      → Holds a xs st
      → digests.finish a st ≡ some c
      → c ≡ digest a xs

module _ {St : Type 0} (digests : Digests St) (digest : ChecksumAlgorithm → List ℕ → String)
    (Holds : ChecksumAlgorithm → List ℕ → St → Type 0) where
  abbrev pub Hashes : List ℕ → ChecksumHasher St → Type 0
  Hashes bytes no_hasher = Unit
  Hashes bytes (hasher a st) = Holds a bytes st

  -- A buffer whose hasher has taken in its bytes, and that has room for them.
  pub record IsFilled (b : UploadBuffer St) : Type 0 where
    pub hashed : Hashes b.bytes b.hasher
    pub fits : length b.bytes ≤ b.capacity

  update_lem :
      (xs ys : List ℕ) (h h' : ChecksumHasher St)
      → IsDigest digests digest Holds
      → Hashes xs h
      → Hasher.update digests h ys ≡ inr h'
      → Hashes (xs ++ ys) h'
  unfolding Hasher.update
  update_lem xs ys no_hasher h' d i e = subst (Hashes (xs ++ ys)) (inr-injective _ _ e) tt
  update_lem xs ys (hasher a st) h' d i e =
      taken (digests.take_in a st ys) (λ st' t. d.next a xs ys st st' i t) e
    where
      taken :
          (x : Option St)
          → ((st' : St) → x ≡ some st' → Holds a (xs ++ ys) st')
          → started digests a x ≡ inr h'
          → Hashes (xs ++ ys) h'
      taken none rest f = absurd (inl-ne-inr f)
      taken (some st') rest f = subst (Hashes (xs ++ ys)) (inr-injective _ _ f) (rest st' refl)

  pub write_lem :
      (b b' : UploadBuffer St) (slice rest : List ℕ)
      → IsDigest digests digest Holds
      → IsFilled b
      → write digests b slice ≡ inr (b', rest)
      → IsFilled b'
        × (b'.bytes ++ rest ≡ b.bytes ++ slice)
        × (b'.capacity ≡ b.capacity)
        × (length b'.bytes ≡ min b.capacity (length b.bytes + length slice))
  unfolding write
  write_lem b b' slice rest d i e =
      let n : ℕ = min (b.capacity - length b.bytes) (length slice) in
      hashed (Hasher.update digests b.hasher (take n slice))
        (λ h f. update_lem b.bytes (take n slice) b.hasher h d i.hashed f) e
    where
      hashed :
          (x : ChecksumHasherError ⊎ ChecksumHasher St)
          → ((h : ChecksumHasher St)
              → x ≡ inr h
              → Hashes (b.bytes ++ take (min (b.capacity - length b.bytes) (length slice)) slice) h)
          → elim x as (λ y. ChecksumHasherError ⊎ (UploadBuffer St × List ℕ)) [
            | inr h ↦ inr (
              record b {
                bytes = b.bytes ++ take (min (b.capacity - length b.bytes) (length slice)) slice;
                hasher = h;
              },
              drop (min (b.capacity - length b.bytes) (length slice)) slice,
            )
            | inl e ↦ inl e
          ]
            ≡ inr (b', rest)
          → IsFilled b'
            × (b'.bytes ++ rest ≡ b.bytes ++ slice)
            × (b'.capacity ≡ b.capacity)
            × (length b'.bytes ≡ min b.capacity (length b.bytes + length slice))
      hashed (inl f) sums e = absurd (inl-ne-inr e)
      hashed (inr h) sums e =
          let n : ℕ = min (b.capacity - length b.bytes) (length slice) in
          let size : length (b.bytes ++ take n slice)
              ≡ min b.capacity (length b.bytes + length slice) =
            omega (arith, length-append b.bytes (take n slice), length-take n slice, i.fits) in
          subst
            (λ k.
              IsFilled k.0
              × (k.0.bytes ++ k.1 ≡ b.bytes ++ slice)
              × (k.0.capacity ≡ b.capacity)
              × (length k.0.bytes ≡ min b.capacity (length b.bytes + length slice)))
            (inr-injective _ _ e)
            (
              record { hashed = sums h refl; fits = omega (arith, size) },
              append_assoc b.bytes (take n slice) (drop n slice)
                  ∙ ap (λ k. b.bytes ++ k) (take-append-drop n slice),
              refl,
              size,
            )
