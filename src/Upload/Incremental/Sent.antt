-- ===== src/Upload/Incremental/Sent.antt =====
-- A put that has been answered adds the bytes of its buffer to the object.
use mathlib.Core.Path.{subst}
use mathlib.Core.Sum.{inl-ne-inr, inr-injective}
use mountpoint_s.Prelude.{
  ℕ, List, [], ◌∷◌, ◌++◌, true, Option, none, some, ◌⊎◌, inl, inr, arith, length, ◌==◌, ◌≡◌, refl,
  sym, ap, ◌∙◌, String, Bool-cases, eq_iff, eqb→eq, eq→eqb,
}
use mountpoint_s.Upload.Hasher
use mountpoint_s.Upload.Hasher.{ChecksumAlgorithm, Digests}
use mountpoint_s.Upload.Buffer
use mountpoint_s.Upload.Buffer.{UploadBuffer}
use mountpoint_s.Upload.Incremental.{
  UploadError, Put, PutObjectResult, Client, AppendUploadQueueParams, Upload, append, put_answered,
  put_encrypted, put_frozen, put_of,
}
use mountpoint_s.Upload.Incremental.Object.{Object, apply, apply_all, apply_all-append, matches}

module _ {St : Type 0} (digests : Digests St) (client : Client) (params : AppendUploadQueueParams)
    (initial : Object) where
  -- What a put that has been answered is, of a buffer with these bytes.
  abbrev PutIs : ℕ → Option String → List ℕ → Put × PutObjectResult → Type 0
  PutIs offset etag bytes put =
      (checksum : Option (ChecksumAlgorithm × String)) × (sse : Option String × Option String)
      × (put.0 ≡ put_of digests client params offset etag bytes checksum sse)

  answered_put :
      (offset : ℕ) (etag : Option String) (bytes : List ℕ)
      (checksum : Option (ChecksumAlgorithm × String)) (sse : Option String × Option String)
      (put : Put × PutObjectResult) (x : UploadError ⊎ PutObjectResult)
      → put_answered digests client params
          (put_of digests client params offset etag bytes checksum sse)
          x
        ≡ inr put
      → PutIs offset etag bytes put
  answered_put offset etag bytes checksum sse put (inl e) h = absurd (inl-ne-inr h)
  answered_put offset etag bytes checksum sse put (inr result) h =
      (checksum, sse, sym (ap (λ k. k.0) (inr-injective _ _ h)))

  encrypted_put :
      (puts : List (Put × PutObjectResult)) (offset : ℕ) (etag : Option String) (bytes : List ℕ)
      (checksum : Option (ChecksumAlgorithm × String)) (put : Put × PutObjectResult)
      (x : UploadError ⊎ (Option String × Option String))
      → put_encrypted digests client params puts offset etag bytes checksum x ≡ inr put
      → PutIs offset etag bytes put
  encrypted_put puts offset etag bytes checksum put (inl e) h = absurd (inl-ne-inr h)
  encrypted_put puts offset etag bytes checksum put (inr sse) h =
      answered_put offset etag bytes checksum sse put
        (client.put_object_single puts
          (put_of digests client params offset etag bytes checksum sse))
        h

  frozen_put :
      (puts : List (Put × PutObjectResult)) (offset : ℕ) (etag : Option String)
      (b : UploadBuffer St) (put : Put × PutObjectResult)
      (x : Hasher.ChecksumHasherError ⊎ (Option (ChecksumAlgorithm × String)))
      → put_frozen digests client params puts offset etag (Buffer.frozen digests b x) ≡ inr put
      → PutIs offset etag b.bytes put
  frozen_put puts offset etag b put (inl e) h = absurd (inl-ne-inr h)
  frozen_put puts offset etag b put (inr checksum) h =
      encrypted_put puts offset etag b.bytes checksum put params.server_side_encryption h

  matches_self : (etag : Option String) → matches etag etag ≡ true
  matches_self none = refl
  matches_self (some etag) = ground (arith, eq_iff etag etag)

  empty_list : (xs : List ℕ) → length xs ≡ 0 → xs ≡ []
  empty_list [] e = refl
  empty_list (x ∷ xs) e = absurd (omega (arith, e))

  apply_put :
      (o : Object) (etag : Option String) (bytes : List ℕ)
      (checksum : Option (ChecksumAlgorithm × String)) (sse : Option String × Option String)
      (result : PutObjectResult)
      → apply
          (record { content = o.content; etag = etag })
          (put_of digests client params (length o.content) etag bytes checksum sse, result)
        ≡ some (record { content = o.content ++ bytes; etag = some result.etag })
  unfolding apply
  apply_put o etag bytes checksum sse result = elim (Bool-cases (length o.content == 0)) [
    | inl empty ↦ rw empty (
        ap (λ k. some (record { content = k ++ bytes; etag = some result.etag }))
          (sym (empty_list o.content (eqb→eq _ _ empty))))
    | inr full ↦
        rw (full, eq→eqb (length o.content) (length o.content) refl, matches_self etag) refl
  ]

  -- A put that has been answered adds the bytes of its buffer to the object.
  pub sent :
      (u : Upload St) (o : Object) (offset : ℕ) (etag : Option String) (b : UploadBuffer St)
      (put : Put × PutObjectResult)
      → apply_all initial u.puts ≡ some o
      → append digests client params u.puts b offset etag ≡ inr put
      → o ≡ record { content = o.content; etag = etag }
      → offset ≡ length o.content
      → apply_all initial (u.puts ++ (put ∷ []))
        ≡ some (record { content = o.content ++ b.bytes; etag = some put.1.etag })
  unfolding append Buffer.freeze
  sent u o offset etag b put applied e tag at =
      let (checksum, sse, is) =
        frozen_put u.puts offset etag b put (Hasher.finalize digests b.hasher) e in
      apply_all-append u.puts put initial o _ applied (
        subst
          (λ k.
            apply k put ≡ some (record { content = o.content ++ b.bytes; etag = some put.1.etag }))
          (sym tag)
          (subst
            (λ k.
              apply (record { content = o.content; etag = etag }) (k, put.1)
              ≡ some (record { content = o.content ++ b.bytes; etag = some put.1.etag }))
            (ap (λ k. put_of digests client params k etag b.bytes checksum sse) (sym at) ∙ sym is)
            (apply_put o etag b.bytes checksum sse put.1)))
