-- ===== src/Upload/Buffer/Hashes.antt =====
-- What a hasher has taken in, from its start on.
use mountpoint_s.Prelude.{ℕ, List, [], ◌++◌, Option, none, some, ◌⊎◌, inl, inr, ◌≡◌, refl, String}
use mountpoint_s.Upload.Hasher
use mountpoint_s.Upload.Hasher.{
  ChecksumAlgorithm, ChecksumHasherError, ChecksumHasher, no_hasher, hasher, Digests, started,
  unknown,
}
use mountpoint_s.Upload.Buffer.Sums.{IsDigest}

module _ {St : Type 0} (digests : Digests St) where
  -- The algorithm is not supported, or one of its calls fails.
  abbrev pub Fails : Option ChecksumAlgorithm → Type 0
  Fails none = ⊥
  Fails (some a) =
      ((name : String) × (a ≡ unknown name))
      ⊎ (digests.start a ≡ none)
      ⊎ ((st : St) × (xs : List ℕ) × (digests.take_in a st xs ≡ none))
      ⊎ ((st : St) × (digests.finish a st ≡ none))

module _ {St : Type 0} (digests : Digests St) (digest : ChecksumAlgorithm → List ℕ → String)
    (Holds : ChecksumAlgorithm → List ℕ → St → Type 0) where
  abbrev pub Hashes : Option ChecksumAlgorithm → List ℕ → ChecksumHasher St → Type 0
  Hashes none bytes h = h ≡ no_hasher
  Hashes (some a) bytes h = (st : St) × (h ≡ hasher a st) × Holds a bytes st

  abbrev pub Hashing :
      Option ChecksumAlgorithm → List ℕ → ChecksumHasherError ⊎ (ChecksumHasher St) → Type 0
  Hashing algorithm bytes (inl e) = Fails digests algorithm
  Hashing algorithm bytes (inr h) = Hashes algorithm bytes h

  started_lem :
      (a : ChecksumAlgorithm)
      → IsDigest digests digest Holds
      → Hashing (some a) [] (started digests a (digests.start a))
  started_lem a d = begun (digests.start a) refl
    where
      begun : (x : Option St) → digests.start a ≡ x → Hashing (some a) [] (started digests a x)
      begun none e = inr (inl e)
      begun (some st) e = (st, refl, d.first a st e)

  pub new_lem :
      (algorithm : Option ChecksumAlgorithm)
      → IsDigest digests digest Holds
      → Hashing algorithm [] (Hasher.new digests algorithm)
  unfolding Hasher.new
  new_lem none d = refl
  new_lem (some (unknown name)) d = inl (name, refl)
  new_lem (some ChecksumAlgorithm.crc64nvme) d = started_lem ChecksumAlgorithm.crc64nvme d
  new_lem (some ChecksumAlgorithm.crc32) d = started_lem ChecksumAlgorithm.crc32 d
  new_lem (some ChecksumAlgorithm.crc32c) d = started_lem ChecksumAlgorithm.crc32c d
  new_lem (some ChecksumAlgorithm.sha1) d = started_lem ChecksumAlgorithm.sha1 d
  new_lem (some ChecksumAlgorithm.sha256) d = started_lem ChecksumAlgorithm.sha256 d

  pub update_lem :
      (algorithm : Option ChecksumAlgorithm) (xs ys : List ℕ) (h : ChecksumHasher St)
      → IsDigest digests digest Holds
      → Hashes algorithm xs h
      → Hashing algorithm (xs ++ ys) (Hasher.update digests h ys)
  unfolding Hasher.update
  update_lem none xs ys h d i = rw i refl
  update_lem (some a) xs ys h d (st, e, i) = rw e (taken (digests.take_in a st ys) refl)
    where
      taken :
          (x : Option St)
          → digests.take_in a st ys ≡ x
          → Hashing (some a) (xs ++ ys) (started digests a x)
      taken none f = inr (inr (inl (st, ys, f)))
      taken (some st') f = (st', refl, d.next a xs ys st st' i f)
