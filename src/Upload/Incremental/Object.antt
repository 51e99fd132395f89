-- ===== src/Upload/Incremental/Object.antt =====
-- The object that an upload writes, as S3 keeps it: what the requests of the task do to it.
use mountpoint_s.Prelude.{
  ℕ, List, [], ◌∷◌, ◌++◌, Bool, true, false, ◌&&◌, Option, none, some, length, ◌==◌, ◌≡◌, refl, ap,
  ◌∙◌, if◌then◌else◌, String, str_eq,
}
use mathlib.Core.Option.{some-injective, none-ne-some}
use mountpoint_s.Upload.Incremental.{Put, PutObjectResult}

pub record Object : Type 0 where
  pub content : List ℕ
  pub etag : Option String

-- Whether an ETag is the one that is asked for, if one is.
abbrev pub matches : Option String → Option String → Bool
matches none etag = true
matches (some expected) none = false
matches (some expected) (some etag) = str_eq expected etag

-- A put without an offset replaces the object; an append must begin at its end, and meet its ETag.
unfoldable pub apply : Object → Put × PutObjectResult → Option Object
apply o (put, result) = elim put.write_offset [
  | none ↦ some (record { content = put.bytes; etag = some result.etag })
  | some offset ↦
      if offset == length o.content && matches put.if_match o.etag
      then some (record { content = o.content ++ put.bytes; etag = some result.etag })
      else none
]

unfoldable pub apply_all : Object → List (Put × PutObjectResult) → Option Object
apply_all o [] = some o
apply_all o (put ∷ puts) = elim (apply o put) [ none ↦ none | some o' ↦ apply_all o' puts ]

pub apply_all-append :
    (puts : List (Put × PutObjectResult)) (put : Put × PutObjectResult) (o mid last : Object)
    → apply_all o puts ≡ some mid
    → apply mid put ≡ some last
    → apply_all o (puts ++ (put ∷ [])) ≡ some last
unfolding apply_all
apply_all-append [] put o mid last e f =
    let here : apply o put ≡ some last = ap (λ k. apply k put) (some-injective _ _ e) ∙ f in
    rw (here, apply_all) refl
apply_all-append (p ∷ puts) put o mid last e f =
    after (apply o p) (λ o' h. apply_all-append puts put o' mid last h f) e
  where
    after :
        (x : Option Object)
        → ((o' : Object)
            → apply_all o' puts ≡ some mid
            → apply_all o' (puts ++ (put ∷ [])) ≡ some last)
        → elim x as (λ y. Option Object) [ none ↦ none | some o' ↦ apply_all o' puts ] ≡ some mid
        → elim x as (λ y. Option Object) [
          | none ↦ none
          | some o' ↦ apply_all o' (puts ++ (put ∷ []))
        ]
          ≡ some last
    after none rest h = absurd (none-ne-some _ h)
    after (some o') rest h = rest o' h
