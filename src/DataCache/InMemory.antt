-- ===== src/DataCache/InMemory.antt =====
-- mountpoint-s3-fs/src/data_cache/in_memory_data_cache.rs: `InMemoryDataCache`.
--
-- The two maps are one association list of entries, the last one put first.
use mountpoint_s.Prelude.{
  ℕ, ◌+◌, ◌≡◌, ◌≢◌, refl, inl, inr, List, [], ◌∷◌, Bool, true, ◌&&◌, not, Option, none, some,
  Outcome, ok, err, arith, ◌==◌, if◌then◌else◌, ◌*w◌, Bool-cases, eq_iff,
}
use mountpoint_s.Checksums.{ChecksummedBytes}
use mountpoint_s.Prefetch.Part.{ObjectId, id_eq}
use mountpoint_s.DataCache.{DataCache, DataCacheError, invalid_block_offset, IsFaithful, Answers}

pub record Entry : Type 0 where
  pub key : ObjectId
  pub index : ℕ
  pub bytes : ChecksummedBytes

pub record InMemoryDataCache : Type 0 where
  pub entries : List Entry
  pub block_size : ℕ

abbrev pub is_at : Entry → ObjectId → ℕ → Bool
unfolding id_eq
is_at e key index = id_eq e.key key && e.index == index

unfoldable pub find : List Entry → ObjectId → ℕ → Option ChecksummedBytes
unfolding id_eq
find [] key index = none
find (e ∷ entries) key index = if is_at e key index then some e.bytes else find entries key index

unfoldable pub insert : List Entry → ObjectId → ℕ → ChecksummedBytes → List Entry
unfolding id_eq
insert [] key index bytes = record { key = key; index = index; bytes = bytes } ∷ []
insert (e ∷ entries) key index bytes =
    if is_at e key index
    then record { key = key; index = index; bytes = bytes } ∷ entries
    else e ∷ insert entries key index bytes

unfoldable pub new : ℕ → InMemoryDataCache
new block_size = record { entries = []; block_size = block_size }

unfoldable pub get_block :
    InMemoryDataCache
    → ObjectId
    → ℕ
    → ℕ
    → ℕ
    → Outcome DataCacheError (Option ChecksummedBytes) × InMemoryDataCache
unfolding find
get_block c key index offset size =
    if not (offset == index *w c.block_size)
    then (err invalid_block_offset, c)
    else (ok (find c.entries key index), c)

unfoldable pub put_block :
    InMemoryDataCache
    → ObjectId
    → ℕ
    → ℕ
    → ChecksummedBytes
    → ℕ
    → Outcome DataCacheError (Unit {0}) × InMemoryDataCache
unfolding insert
put_block c key index offset bytes size =
    if not (offset == index *w c.block_size)
    then (err invalid_block_offset, c)
    else (ok tt, record c { entries = insert c.entries key index bytes })

-- How many blocks of an object there are.
unfoldable pub count : List Entry → ObjectId → ℕ
count [] key = 0
count (e ∷ entries) key = let rest = count entries key in if id_eq e.key key then rest + 1 else rest

unfoldable pub block_count : InMemoryDataCache → ObjectId → ℕ
unfolding count
block_count c key = count c.entries key

-- The cache whose block size is `block_size`.
abbrev pub in_memory : ℕ → DataCache InMemoryDataCache
in_memory block_size = record {
  get_block = get_block;
  put_block = put_block;
  block_size = block_size;
}

-- A block that is put is what a lookup finds, and no other block changes.
find-insert :
    (entries : List Entry) (key k : ObjectId) (index i : ℕ) (bytes : ChecksummedBytes)
    → find (insert entries key index bytes) k i
      ≡ (if id_eq key k && index == i then some bytes else find entries k i)
unfolding find insert id_eq
find-insert [] key k index i bytes = refl
find-insert (e ∷ entries) key k index i bytes = ground (
  arith,
  eq_iff e.key.key key.key,
  eq_iff e.key.etag key.etag,
  eq_iff e.key.key k.key,
  eq_iff e.key.etag k.etag,
  eq_iff key.key k.key,
  eq_iff key.etag k.etag,
  find-insert entries key k index i bytes,
)

-- For a block offset that fits the index: after a block is put, a lookup of the same object and index
-- finds it, and a lookup of any other object or index answers what it answered before.
pub get_block-put_block :
    (c : InMemoryDataCache) (key k : ObjectId) (index i : ℕ) (bytes : ChecksummedBytes) (size s : ℕ)
    → let put = put_block c key index (index *w c.block_size) bytes size in
      (put.0 ≡ ok tt)
      × ((get_block put.1 k i (i *w c.block_size) s).0 ≡ (
          if id_eq key k && index == i
          then ok (some bytes)
          else (get_block c k i (i *w c.block_size) s).0))
unfolding get_block put_block
get_block-put_block c key k index i bytes size s = (
  ground arith,
  elim (Bool-cases (id_eq key k && index == i)) [
    | inl same ↦ rw (same) (ground (arith, same, find-insert c.entries key k index i bytes))
    | inr other ↦ rw (other) (ground (arith, other, find-insert c.entries key k index i bytes))
  ],
)

-- An offset that does not fit the index is refused, by both calls, and nothing changes.
pub offset_refused :
    (c : InMemoryDataCache) (key : ObjectId) (index offset : ℕ) (bytes : ChecksummedBytes)
    (size : ℕ)
    → offset ≢ index *w c.block_size
    → (get_block c key index offset size ≡ (err invalid_block_offset, c))
      × (put_block c key index offset bytes size ≡ (err invalid_block_offset, c))
unfolding get_block put_block
offset_refused c key index offset bytes size h = (ground arith, ground arith)

id_eq→eq : (a b : ObjectId) → id_eq a b ≡ true → a ≡ b
unfolding id_eq
id_eq→eq a b h = ground (arith, eq_iff a.key b.key, eq_iff a.etag b.etag)

is_at→eq :
    (e : Entry) (key : ObjectId) (index : ℕ)
    → is_at e key index ≡ true
    → (e.key ≡ key) × (e.index ≡ index)
unfolding id_eq
is_at→eq e key index h = (ground (arith, id_eq→eq e.key key), ground arith)

module _ (Good : ObjectId → ℕ → ChecksummedBytes → Type 0) where
  abbrev pub AllGood : List Entry → Type 0
  AllGood [] = Unit
  AllGood (e ∷ entries) = Good e.key e.index e.bytes × AllGood entries

  find-AllGood :
      (entries : List Entry) (key : ObjectId) (index : ℕ)
      → AllGood entries
      → Answers Good key index (ok (find entries key index))
  unfolding find id_eq
  find-AllGood [] key index g = tt
  find-AllGood (e ∷ entries) key index g = elim (Bool-cases (is_at e key index)) [
    | inl here ↦ let (k, i) = is_at→eq e key index here in rw here (rw (← k, ← i) g.0)
    | inr away ↦ rw away (find-AllGood entries key index g.1)
  ]

  insert-AllGood :
      (entries : List Entry) (key : ObjectId) (index : ℕ) (bytes : ChecksummedBytes)
      → AllGood entries
      → Good key index bytes
      → AllGood (insert entries key index bytes)
  unfolding insert id_eq
  insert-AllGood [] key index bytes g b = (b, tt)
  insert-AllGood (e ∷ entries) key index bytes g b = elim (Bool-cases (is_at e key index)) [
    | inl here ↦ rw here (b, g.1)
    | inr away ↦ rw away (g.0, insert-AllGood entries key index bytes g.1 b)
  ]

  -- Whatever makes a block good: a cache in memory of good blocks gives back good blocks only, as long as
  -- good blocks only are put into it, and it does not panic.
  pub in_memory-IsFaithful :
      (block_size : ℕ) → IsFaithful (in_memory block_size) Good (λ c. AllGood c.entries)
  unfolding get_block put_block
  in_memory-IsFaithful block_size = record {
    get = λ c key index offset size g. elim (Bool-cases (offset == index *w c.block_size)) [
      | inl fits ↦ rw fits (find-AllGood c.entries key index g, g)
      | inr off ↦ rw off (tt, g)
    ];
    put = λ c key index offset bytes size g b. elim (Bool-cases (offset == index *w c.block_size)) [
      | inl fits ↦ rw fits (tt, insert-AllGood c.entries key index bytes g b)
      | inr off ↦ rw off (tt, g)
    ];
  }
