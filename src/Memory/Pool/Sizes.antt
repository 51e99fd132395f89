-- ===== src/Memory/Pool/Sizes.antt =====
-- Which size pool a buffer comes from.
use mountpoint_s.Prelude.{
  ℕ, suc, ◌≤◌, ◌<◌, List, [], ◌∷◌, true, false, Option, none, some, ◌⊎◌, inl, inr, length, ltb,
  ◌==◌, ◌≡◌, refl, ap, arith, Bool-cases,
}
use mountpoint_s.Memory.SizePool
use mountpoint_s.Memory.SizePool.{SizePool}
use mountpoint_s.Memory.SizeStats
use mountpoint_s.Memory.Pool.{
  default_buffer_size, retain_valid, dedup, sort, or_default, ordered_sizes, pools_of,
  new_with_candidate_sizes, partition_point, get_pool_for_size, pool_at,
}
use mountpoint_s.Memory.Pool.Sorting.{
  Has, IsSorted, IsValid, retain_valid-Has, Has-retain_valid, dedup_after-Has, Has-dedup_after,
  sort-IsSorted, sort-Has, Has-sort,
}

-- The sizes that a new pool has buffers of.
abbrev pub Offers : List ℕ → ℕ → Type 0
Offers candidates n =
    (Has n candidates × IsValid n)
    ⊎ (((m : ℕ) → Has m candidates → IsValid m → ⊥) × (n ≡ default_buffer_size))

Has-valid :
    (candidates : List ℕ) (n : ℕ)
    → Has n (sort (dedup (retain_valid candidates)))
    → Has n candidates × IsValid n
Has-valid candidates n h =
    Has-retain_valid candidates n (before (retain_valid candidates) (Has-sort n _ h))
  where
    before : (ns : List ℕ) → Has n (dedup ns) → Has n ns
    before [] g = g
    before (m ∷ ms) (inl e) = inl e
    before (m ∷ ms) (inr g) = inr (Has-dedup_after m ms n g)

valid-Has :
    (candidates : List ℕ) (n : ℕ)
    → Has n candidates
    → IsValid n
    → Has n (sort (dedup (retain_valid candidates)))
valid-Has candidates n h v =
    sort-Has n (dedup (retain_valid candidates))
      (kept (retain_valid candidates) (retain_valid-Has candidates n v h))
  where
    kept : (ns : List ℕ) → Has n ns → Has n (dedup ns)
    kept [] g = g
    kept (m ∷ ms) (inl e) = inl e
    kept (m ∷ ms) (inr g) = dedup_after-Has m ms n g

or_default-Offers :
    (candidates : List ℕ) (n : ℕ)
    → (Has n (ordered_sizes candidates) → Offers candidates n)
      × (Offers candidates n → Has n (ordered_sizes candidates))
unfolding ordered_sizes
or_default-Offers candidates n =
    offered (sort (dedup (retain_valid candidates))) (λ m. Has-valid candidates m)
      (λ m. valid-Has candidates m)
  where
    offered :
        (ns : List ℕ)
        → ((m : ℕ) → Has m ns → Has m candidates × IsValid m)
        → ((m : ℕ) → Has m candidates → IsValid m → Has m ns)
        → (Has n (or_default ns) → Offers candidates n)
          × (Offers candidates n → Has n (or_default ns))
    offered [] valid has = (
      λ h. elim h [ inl e ↦ inr (λ m g v. has m g v, e) | inr g ↦ absurd g ],
      λ o. elim o [ inl (g, v) ↦ absurd (has n g v) | inr (g, e) ↦ inl e ],
    )
    offered (m ∷ ms) valid has = (
      λ h. inl (valid n h),
      λ o. elim o [
        | inl (g, v) ↦ has n g v
        | inr (g, e) ↦ let (first, v) = valid m (inl refl) in absurd (g m first v)
      ],
    )

ordered_sizes-IsSorted : (candidates : List ℕ) → IsSorted (ordered_sizes candidates)
unfolding ordered_sizes
ordered_sizes-IsSorted candidates =
    default_sorted (sort (dedup (retain_valid candidates)))
      (sort-IsSorted (dedup (retain_valid candidates)))
  where
    default_sorted : (ns : List ℕ) → IsSorted ns → IsSorted (or_default ns)
    default_sorted [] s = (λ m h. absurd h, tt)
    default_sorted (n ∷ ns) s = s

-- The size of the buffers of a size pool, if there is one at the index.
abbrev pub size_at : ℕ → List SizePool → Option ℕ
size_at index pools = elim (pool_at index pools) [ none ↦ none | some p ↦ some p.stats.buffer_size ]

-- The first pool whose buffers are large enough, if there is one.
record Fits (size : ℕ) (ns : List ℕ) (index : ℕ) : Type 0 where
  fitting : ℕ
  at : size_at index (pools_of ns) ≡ some fitting
  enough : size ≤ fitting
  one_of : Has fitting ns
  least : (m : ℕ) → Has m ns → size ≤ m → fitting ≤ m

partition_point_lem :
    (size : ℕ) (ns : List ℕ)
    → IsSorted ns
    → ((partition_point size (pools_of ns) ≡ length (pools_of ns))
        × ((m : ℕ) → Has m ns → m < size))
      ⊎ ((partition_point size (pools_of ns) < length (pools_of ns))
          × Fits size ns (partition_point size (pools_of ns)))
unfolding SizePool.new SizeStats.new
partition_point_lem size [] s = inl (refl, λ m h. absurd h)
partition_point_lem size (n ∷ ns) (low, s) =
    let ih = partition_point_lem size ns s in
    elim (Bool-cases (ltb n size)) [
      | inl e ↦
          let small : n < size = ground (arith, e) in
          rw e (elim ih [
            | inl (at, none_fit) ↦ inl (
              ap suc at,
              λ m h. elim h [ inl h' ↦ omega (arith, h', small) | inr h' ↦ none_fit m h' ],
            )
            | inr (lt, f) ↦ inr (
              omega (arith, lt),
              record {
                fitting = f.fitting;
                at = f.at;
                enough = f.enough;
                one_of = inr f.one_of;
                least = λ m h le. elim h [
                  | inl h' ↦ absurd (omega (arith, h', small, le))
                  | inr h' ↦ f.least m h' le
                ];
              },
            )
          ])
      | inr e ↦
          let large : size ≤ n = ground (arith, e) in
          rw e (
            inr (
              omega arith,
              record {
                fitting = n;
                at = refl;
                enough = large;
                one_of = inl refl;
                least = λ m h le. elim h [ inl h' ↦ omega (arith, h') | inr h' ↦ low m h' ];
              },
            ))
    ]

-- Which size pool is chosen: that with the smallest buffers that are large enough.
abbrev pub Chosen : List ℕ → ℕ → Option ℕ → Type 0
Chosen candidates size none = (size ≡ 0) ⊎ ((m : ℕ) → Offers candidates m → m < size)
Chosen candidates size (some index) =
    (0 < size)
    × (n : ℕ) × (size_at index (new_with_candidate_sizes candidates).ordered_size_pools ≡ some n)
    × (size ≤ n)
    × Offers candidates n
    × ((m : ℕ) → Offers candidates m → size ≤ m → n ≤ m)

-- A new pool offers buffers of the candidate sizes above 0 and up to the maximum, or, if there are none, of the
-- default size. A request is served by the size pool with the smallest buffers that are large enough; there is
-- none for a request of size 0 or above all sizes.
pub get_pool_for_size_lem :
    (candidates : List ℕ) (size : ℕ)
    → Chosen candidates size (get_pool_for_size size (new_with_candidate_sizes candidates))
unfolding get_pool_for_size new_with_candidate_sizes
get_pool_for_size_lem candidates size = elim (Bool-cases (size == 0)) [
  | inl e ↦ let zero_size : size ≡ 0 = ground (arith, e) in rw e (inl zero_size)
  | inr e ↦ rw e (elim (partition_point_lem size ns (ordered_sizes-IsSorted candidates)) [
    | inl (at, none_fit) ↦
        let last : (partition_point size (pools_of ns) == length (pools_of ns)) ≡ true =
          ground (arith, at) in
        rw last (inr (λ m o. none_fit m ((or_default-Offers candidates m).1 o)))
    | inr (lt, f) ↦
        let found : (partition_point size (pools_of ns) == length (pools_of ns)) ≡ false =
          ground (arith, lt) in
        let not_zero : 0 < size = ground (arith, e) in
        rw found (
          not_zero,
          f.fitting,
          f.at,
          f.enough,
          (or_default-Offers candidates f.fitting).0 f.one_of,
          λ m o le. f.least m ((or_default-Offers candidates m).1 o) le,
        )
  ])
]
  where
    ns : List ℕ
    ns = ordered_sizes candidates
