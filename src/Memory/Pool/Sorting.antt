-- ===== src/Memory/Pool/Sorting.antt =====
-- What the list functions keep that order the sizes of a pool.
use mathlib.Core.Path.{subst}
use mountpoint_s.Prelude.{
  ℕ, ◌≤◌, ◌<◌, List, [], ◌∷◌, true, ◌&&◌, ◌⊎◌, inl, inr, ltb, leb, ◌==◌, ◌≡◌, ◌∙◌, arith,
  Bool-cases, if◌then◌else◌,
}
use mountpoint_s.Memory.Pool.{max_buffer_size, retain_valid, dedup_after, insert, sort}

abbrev pub Has : ℕ → List ℕ → Type 0
Has n [] = ⊥
Has n (m ∷ ms) = (n ≡ m) ⊎ Has n ms

abbrev pub IsSorted : List ℕ → Type 0
IsSorted [] = Unit
IsSorted (n ∷ ns) = ((m : ℕ) → Has m ns → n ≤ m) × IsSorted ns

abbrev pub IsValid : ℕ → Type 0
IsValid n = (0 < n) × (n ≤ max_buffer_size)

pub retain_valid-Has : (ns : List ℕ) (n : ℕ) → IsValid n → Has n ns → Has n (retain_valid ns)
retain_valid-Has (m ∷ ms) n (pos, le) (inl e) =
    let valid : (ltb 0 m && leb m max_buffer_size) ≡ true = ground (arith, pos, le, e) in
    rw valid (inl e)
retain_valid-Has (m ∷ ms) n v (inr h) = elim (Bool-cases (ltb 0 m && leb m max_buffer_size)) [
  | inl valid ↦ rw valid (inr (retain_valid-Has ms n v h))
  | inr invalid ↦ rw invalid (retain_valid-Has ms n v h)
]
retain_valid-Has [] n v h = absurd h

pub Has-retain_valid : (ns : List ℕ) (n : ℕ) → Has n (retain_valid ns) → Has n ns × IsValid n
Has-retain_valid [] n h = absurd h
Has-retain_valid (m ∷ ms) n h = elim (Bool-cases (ltb 0 m && leb m max_buffer_size)) [
  | inl valid ↦
      elim (subst (λ k. Has n (if k then m ∷ retain_valid ms else retain_valid ms)) valid h) [
        | inl e ↦ (inl e, (ground (arith, valid, e), ground (arith, valid, e)))
        | inr h' ↦ let (has, v) = Has-retain_valid ms n h' in (inr has, v)
      ]
  | inr invalid ↦
      let (has, v) =
        Has-retain_valid ms n
          (subst (λ k. Has n (if k then m ∷ retain_valid ms else retain_valid ms)) invalid h) in
      (inr has, v)
]

pub dedup_after-Has : (m : ℕ) (ns : List ℕ) (n : ℕ) → Has n ns → (n ≡ m) ⊎ Has n (dedup_after m ns)
dedup_after-Has m [] n h = absurd h
dedup_after-Has m (k ∷ ks) n (inl h) = elim (Bool-cases (k == m)) [
  | inl e ↦ let same : k ≡ m = ground (arith, e) in rw e (inl (h ∙ same))
  | inr e ↦ rw e (inr (inl h))
]
dedup_after-Has m (k ∷ ks) n (inr h) =
    let ih = dedup_after-Has k ks n h in
    elim (Bool-cases (k == m)) [
      | inl e ↦
          let same : k ≡ m = ground (arith, e) in
          rw e (elim ih [ inl g ↦ inl (g ∙ same) | inr g ↦ inr g ])
      | inr e ↦ rw e (inr ih)
    ]

pub Has-dedup_after : (m : ℕ) (ns : List ℕ) (n : ℕ) → Has n (dedup_after m ns) → Has n ns
Has-dedup_after m [] n h = h
Has-dedup_after m (k ∷ ks) n h = elim (Bool-cases (k == m)) [
  | inl e ↦ inr (
      Has-dedup_after k ks n
        (subst (λ c. Has n (if c then dedup_after k ks else k ∷ dedup_after k ks)) e h))
  | inr e ↦ elim (subst (λ c. Has n (if c then dedup_after k ks else k ∷ dedup_after k ks)) e h) [
    | inl h' ↦ inl h'
    | inr h' ↦ inr (Has-dedup_after k ks n h')
  ]
]

insert-Has : (m n : ℕ) (ns : List ℕ) → (n ≡ m) ⊎ Has n ns → Has n (insert m ns)
insert-Has m n [] h = h
insert-Has m n (k ∷ ks) (inl h) =
    let ih = insert-Has m n ks (inl h) in
    elim (Bool-cases (leb m k)) [ inl e ↦ rw e (inl h) | inr e ↦ rw e (inr ih) ]
insert-Has m n (k ∷ ks) (inr (inl h)) = elim (Bool-cases (leb m k)) [
  | inl e ↦ rw e (inr (inl h))
  | inr e ↦ rw e (inl h)
]
insert-Has m n (k ∷ ks) (inr (inr h)) =
    let ih = insert-Has m n ks (inr h) in
    elim (Bool-cases (leb m k)) [ inl e ↦ rw e (inr (inr h)) | inr e ↦ rw e (inr ih) ]

Has-insert : (m n : ℕ) (ns : List ℕ) → Has n (insert m ns) → (n ≡ m) ⊎ Has n ns
Has-insert m n [] h = h
Has-insert m n (k ∷ ks) h = elim (Bool-cases (leb m k)) [
  | inl e ↦ subst (λ c. Has n (if c then m ∷ k ∷ ks else k ∷ insert m ks)) e h
  | inr e ↦ elim (subst (λ c. Has n (if c then m ∷ k ∷ ks else k ∷ insert m ks)) e h) [
    | inl h' ↦ inr (inl h')
    | inr h' ↦ elim (Has-insert m n ks h') [ inl g ↦ inl g | inr g ↦ inr (inr g) ]
  ]
]

insert-IsSorted : (m : ℕ) (ns : List ℕ) → IsSorted ns → IsSorted (insert m ns)
insert-IsSorted m [] s = (λ n h. absurd h, tt)
insert-IsSorted m (k ∷ ks) (low, s) = elim (Bool-cases (leb m k)) [
  | inl e ↦
      let le : m ≤ k = ground (arith, e) in
      rw e (
        λ n h. elim h [ inl h' ↦ omega (arith, le, h') | inr h' ↦ omega (arith, le, low n h') ],
        (low, s),
      )
  | inr e ↦
      let le : k ≤ m = ground (arith, e) in
      rw e (
        λ n h. elim (Has-insert m n ks h) [ inl h' ↦ omega (arith, le, h') | inr h' ↦ low n h' ],
        insert-IsSorted m ks s,
      )
]

pub sort-IsSorted : (ns : List ℕ) → IsSorted (sort ns)
sort-IsSorted [] = tt
sort-IsSorted (n ∷ ns) = insert-IsSorted n (sort ns) (sort-IsSorted ns)

pub sort-Has : (n : ℕ) (ns : List ℕ) → Has n ns → Has n (sort ns)
sort-Has n [] h = h
sort-Has n (m ∷ ms) (inl e) = insert-Has m n (sort ms) (inl e)
sort-Has n (m ∷ ms) (inr h) = insert-Has m n (sort ms) (inr (sort-Has n ms h))

pub Has-sort : (n : ℕ) (ns : List ℕ) → Has n (sort ns) → Has n ns
Has-sort n [] h = h
Has-sort n (m ∷ ms) h = elim (Has-insert m n (sort ms) h) [
  | inl e ↦ inl e
  | inr h' ↦ inr (Has-sort n ms h')
]
