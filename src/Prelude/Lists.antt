-- ===== src/Prelude/Lists.antt =====
-- Lists measured by native numbers, and slices of them.
use Prim.Native.Nat.{ℕ, zero, suc, ◌+◌, ◌-◌, ◌≤◌, min}
use mathlib.Core.Path.{◌≡◌, refl, sym, ap, ◌∙◌}
use mathlib.Core.List.{List, [], ◌∷◌, ◌++◌, reverse, reverse-append}
use native.Mathlib.Omega.{arith}

module _ {ℓ} {A : Type ℓ} where
  abbrev pub length : List A → ℕ
  length [] = 0
  length (x ∷ xs) = suc (length xs)

  abbrev pub take : ℕ → List A → List A
  take zero xs = []
  take (suc n) [] = []
  take (suc n) (x ∷ xs) = x ∷ take n xs

  abbrev pub drop : ℕ → List A → List A
  drop zero xs = xs
  drop (suc n) [] = []
  drop (suc n) (x ∷ xs) = drop n xs

module _ {ℓ} {A : Type ℓ} where
  pub length-append : (xs ys : List A) → length (xs ++ ys) ≡ length xs + length ys
  length-append [] ys = omega arith
  length-append (x ∷ xs) ys = omega (arith, length-append xs ys)

  pub length-reverse : (xs : List A) → length (reverse xs) ≡ length xs
  length-reverse [] = refl
  length-reverse (x ∷ xs) =
      ap length (reverse-append (x ∷ []) xs)
      ∙ omega (arith, length-append (reverse xs) (x ∷ []), length-reverse xs)

  pub length-take : (n : ℕ) (xs : List A) → length (take n xs) ≡ min n (length xs)
  length-take zero xs = omega arith
  length-take (suc n) [] = omega arith
  length-take (suc n) (x ∷ xs) = omega (arith, length-take n xs)

  pub length-drop : (n : ℕ) (xs : List A) → length (drop n xs) ≡ length xs - n
  length-drop zero xs = omega arith
  length-drop (suc n) [] = omega arith
  length-drop (suc n) (x ∷ xs) = omega (arith, length-drop n xs)

  pub take_all : (n : ℕ) (xs : List A) → length xs ≤ n → take n xs ≡ xs
  take_all zero [] h = refl
  take_all zero (x ∷ xs) h = absurd (omega arith)
  take_all (suc n) [] h = refl
  take_all (suc n) (x ∷ xs) h = ap (λ t. x ∷ t) (take_all n xs (omega arith))

  pub take-take : (m n : ℕ) (xs : List A) → m ≤ n → take m (take n xs) ≡ take m xs
  take-take zero n xs h = refl
  take-take (suc m) zero xs h = absurd (omega arith)
  take-take (suc m) (suc n) [] h = refl
  take-take (suc m) (suc n) (x ∷ xs) h = ap (λ t. x ∷ t) (take-take m n xs (omega arith))

  -- The offsets are variables with equations, since sums of variables do not compute.
  pub drop-drop : (m n k : ℕ) (xs : List A) → k ≡ m + n → drop n (drop m xs) ≡ drop k xs
  drop-drop zero n k xs e = ap (λ j. drop j xs) (omega arith)
  drop-drop (suc m) zero zero [] e = refl
  drop-drop (suc m) zero (suc k) [] e = refl
  drop-drop (suc m) (suc n) zero [] e = refl
  drop-drop (suc m) (suc n) (suc k) [] e = refl
  drop-drop (suc m) n zero (x ∷ xs) e = absurd (omega arith)
  drop-drop (suc m) n (suc k) (x ∷ xs) e = drop-drop m n k xs (omega arith)

  pub drop-take : (m n k : ℕ) (xs : List A) → k ≡ n - m → drop m (take n xs) ≡ take k (drop m xs)
  drop-take zero n k xs e = ap (λ j. take j xs) (omega arith)
  drop-take (suc m) zero zero xs e = refl
  drop-take (suc m) zero (suc k) xs e = absurd (omega arith)
  drop-take (suc m) (suc n) zero [] e = refl
  drop-take (suc m) (suc n) (suc k) [] e = refl
  drop-take (suc m) (suc n) k (x ∷ xs) e = drop-take m n k xs (omega arith)

  pub take-append-take :
      (m n k : ℕ) (xs : List A) → k ≡ m + n → take m xs ++ take n (drop m xs) ≡ take k xs
  take-append-take zero n k xs e = ap (λ j. take j xs) (omega arith)
  take-append-take (suc m) zero k [] e = sym (take_all k [] (omega arith))
  take-append-take (suc m) (suc n) k [] e = sym (take_all k [] (omega arith))
  take-append-take (suc m) n zero (x ∷ xs) e = absurd (omega arith)
  take-append-take (suc m) n (suc k) (x ∷ xs) e =
      ap (λ t. x ∷ t) (take-append-take m n k xs (omega arith))

  pub take-append-drop : (n : ℕ) (xs : List A) → take n xs ++ drop n xs ≡ xs
  take-append-drop zero xs = refl
  take-append-drop (suc n) [] = refl
  take-append-drop (suc n) (x ∷ xs) = ap (λ t. x ∷ t) (take-append-drop n xs)

-- The elements at the indices from `start` up to `end`, the end not included.
module _ {ℓ} {A : Type ℓ} where
  unfoldable pub slice : List A → ℕ → ℕ → List A
  slice xs start end = take (end - start) (drop start xs)

  pub length-slice :
      (xs : List A) (start end : ℕ) → end ≤ length xs → length (slice xs start end) ≡ end - start
  unfolding slice
  length-slice xs start end h =
      omega (arith, length-take (end - start) (drop start xs), length-drop start xs)

  pub slice_all :
      (xs : List A) (start end : ℕ) → start ≡ 0 → length xs ≤ end → slice xs start end ≡ xs
  unfolding slice
  slice_all xs start end e h =
      ap (λ k. take (end - k) (drop k xs)) e ∙ take_all (end - 0) xs (omega arith)

  pub slice_empty : (xs : List A) (start end : ℕ) → end ≤ start → slice xs start end ≡ []
  unfolding slice
  slice_empty xs start end h =
      let e : end - start ≡ 0 = omega arith in ap (λ k. take k (drop start xs)) e

  -- Two slices that meet make up one.
  pub slice-append :
      (xs : List A) (a b c : ℕ) → a ≤ b → b ≤ c → slice xs a b ++ slice xs b c ≡ slice xs a c
  unfolding slice
  slice-append xs a b c p q =
      ap (λ t. take (b - a) (drop a xs) ++ take (c - b) t)
        (sym (drop-drop a (b - a) b xs (omega arith)))
      ∙ take-append-take (b - a) (c - b) (c - a) (drop a xs) (omega arith)

  -- A slice of a slice.
  pub slice-slice :
      (xs : List A) (a b i j : ℕ)
      → i ≤ j
      → a + j ≤ b
      → slice (slice xs a b) i j ≡ slice xs (a + i) (a + j)
  unfolding slice
  slice-slice xs a b i j p q =
      ap (take (j - i)) (drop-take i (b - a) (b - a - i) (drop a xs) refl)
      ∙ take-take (j - i) (b - a - i) (drop i (drop a xs)) (omega arith)
      ∙ ap (take (j - i)) (drop-drop a i (a + i) xs refl)
      ∙ ap (λ k. take k (drop (a + i) xs)) (omega arith)
