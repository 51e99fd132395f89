-- ===== src/Memory/Bits.antt =====
-- `u16` as its 16 bits, the lowest first, with the operations on bits that memory/pages.rs uses. The
-- definitions and lemmas are for any number of bits.
use mountpoint_s.Prelude.{
  ℕ, zero, suc, ◌<◌, List, [], ◌∷◌, Bool, true, false, not, ◌&&◌, ◌||◌, length, ◌≡◌, ◌≢◌, refl, sym,
  ap, arith,
}
use mathlib.Core.Bool.{true≢false}

abbrev pub Bits : Type 0
Bits = List Bool

abbrev pub zeros : ℕ → Bits
zeros zero = []
zeros (suc n) = false ∷ zeros n

abbrev pub ones : ℕ → Bits
ones zero = []
ones (suc n) = true ∷ ones n

-- `1 << index`, with `n` bits.
abbrev pub one_shl : ℕ → ℕ → Bits
one_shl zero index = []
one_shl (suc n) zero = true ∷ zeros n
one_shl (suc n) (suc index) = false ∷ one_shl n index

abbrev pub and : Bits → Bits → Bits
and [] ys = []
and (x ∷ xs) [] = []
and (x ∷ xs) (y ∷ ys) = (x && y) ∷ and xs ys

abbrev pub or : Bits → Bits → Bits
or [] ys = ys
or (x ∷ xs) [] = x ∷ xs
or (x ∷ xs) (y ∷ ys) = (x || y) ∷ or xs ys

abbrev pub complement : Bits → Bits
complement [] = []
complement (x ∷ xs) = not x ∷ complement xs

-- Whether the number is 0, and whether it is the greatest.
abbrev pub is_zero : Bits → Bool
is_zero [] = true
is_zero (x ∷ xs) = not x && is_zero xs

abbrev pub is_max : Bits → Bool
is_max [] = true
is_max (x ∷ xs) = x && is_max xs

-- The bit at an index.
abbrev pub bit : Bits → ℕ → Bool
bit [] index = false
bit (x ∷ xs) zero = x
bit (x ∷ xs) (suc index) = bit xs index

pub is_zero-zeros : (n : ℕ) → is_zero (zeros n) ≡ true
is_zero-zeros zero = refl
is_zero-zeros (suc n) = is_zero-zeros n

pub bit-zeros : (n index : ℕ) → bit (zeros n) index ≡ false
bit-zeros zero index = refl
bit-zeros (suc n) zero = refl
bit-zeros (suc n) (suc index) = bit-zeros n index

pub bit-ones : (n index : ℕ) → index < n → bit (ones n) index ≡ true
bit-ones zero index h = absurd (omega (arith, h))
bit-ones (suc n) zero h = refl
bit-ones (suc n) (suc index) h = bit-ones n index (omega (arith, h))

pub bit-is_zero : (xs : Bits) (index : ℕ) → is_zero xs ≡ true → bit xs index ≡ false
bit-is_zero [] index h = refl
bit-is_zero (true ∷ xs) index h = absurd (true≢false (sym h))
bit-is_zero (false ∷ xs) zero h = refl
bit-is_zero (false ∷ xs) (suc index) h = bit-is_zero xs index h

pub bit-is_max :
    (xs : Bits) (index : ℕ) → is_max xs ≡ true → index < length xs → bit xs index ≡ true
bit-is_max [] index h lt = absurd (omega (arith, lt))
bit-is_max (false ∷ xs) index h lt = absurd (true≢false (sym h))
bit-is_max (true ∷ xs) zero h lt = refl
bit-is_max (true ∷ xs) (suc index) h lt = bit-is_max xs index h (omega (arith, lt))

-- A bit that is set, where the number is not 0.
pub is_zero-bit : (xs : Bits) → is_zero xs ≡ false → (index : ℕ) × (bit xs index ≡ true)
is_zero-bit [] h = absurd (true≢false h)
is_zero-bit (true ∷ xs) h = (0, refl)
is_zero-bit (false ∷ xs) h = let (index, e) = is_zero-bit xs h in (suc index, e)

-- A bit that is not set, where the number is not the greatest.
pub is_max-bit :
    (xs : Bits) → is_max xs ≡ false → (index : ℕ) × (index < length xs) × (bit xs index ≡ false)
is_max-bit [] h = absurd (true≢false h)
is_max-bit (false ∷ xs) h = (0, omega arith, refl)
is_max-bit (true ∷ xs) h = let (index, lt, e) = is_max-bit xs h in (suc index, omega (arith, lt), e)

and-zeros : (n : ℕ) (xs : Bits) → length xs ≡ n → is_zero (and xs (zeros n)) ≡ true
and-zeros n [] h = refl
and-zeros zero (x ∷ xs) h = absurd (omega (arith, h))
and-zeros (suc n) (true ∷ xs) h = and-zeros n xs (omega (arith, h))
and-zeros (suc n) (false ∷ xs) h = and-zeros n xs (omega (arith, h))

-- The test of a bit.
pub and-one_shl :
    (n index : ℕ) (xs : Bits)
    → length xs ≡ n
    → index < n
    → is_zero (and xs (one_shl n index)) ≡ not (bit xs index)
and-one_shl n index [] h lt = refl
and-one_shl zero index (x ∷ xs) h lt = absurd (omega (arith, h))
and-one_shl (suc n) zero (true ∷ xs) h lt = refl
and-one_shl (suc n) zero (false ∷ xs) h lt = and-zeros n xs (omega (arith, h))
and-one_shl (suc n) (suc index) (true ∷ xs) h lt =
    and-one_shl n index xs (omega (arith, h)) (omega (arith, lt))
and-one_shl (suc n) (suc index) (false ∷ xs) h lt =
    and-one_shl n index xs (omega (arith, h)) (omega (arith, lt))

or-zeros : (n : ℕ) (xs : Bits) → length xs ≡ n → or xs (zeros n) ≡ xs
or-zeros zero [] h = refl
or-zeros (suc n) [] h = absurd (omega (arith, h))
or-zeros zero (x ∷ xs) h = absurd (omega (arith, h))
or-zeros (suc n) (true ∷ xs) h = ap (λ k. true ∷ k) (or-zeros n xs (omega (arith, h)))
or-zeros (suc n) (false ∷ xs) h = ap (λ k. false ∷ k) (or-zeros n xs (omega (arith, h)))

complement_of-zeros : (n : ℕ) (xs : Bits) → length xs ≡ n → and xs (complement (zeros n)) ≡ xs
complement_of-zeros zero [] h = refl
complement_of-zeros (suc n) [] h = refl
complement_of-zeros zero (x ∷ xs) h = absurd (omega (arith, h))
complement_of-zeros (suc n) (true ∷ xs) h =
    ap (λ k. true ∷ k) (complement_of-zeros n xs (omega (arith, h)))
complement_of-zeros (suc n) (false ∷ xs) h =
    ap (λ k. false ∷ k) (complement_of-zeros n xs (omega (arith, h)))

-- `xs` with the bit at `index` as it is told, and the others as they are.
pub record Changes (xs : Bits) (index : ℕ) (value : Bool) (ys : Bits) : Type 0 where
  pub same_length : length ys ≡ length xs
  pub here : bit ys index ≡ value
  pub other : (i : ℕ) → i ≢ index → bit ys i ≡ bit xs i

Changes-cons :
    (x : Bool) (xs : Bits) (index : ℕ) (value : Bool) (ys : Bits)
    → Changes xs index value ys
    → Changes (x ∷ xs) (suc index) value (x ∷ ys)
Changes-cons x xs index value ys c = record {
  same_length = omega (arith, c.same_length);
  here = c.here;
  other = others;
}
  where
    others : (i : ℕ) → i ≢ suc index → bit (x ∷ ys) i ≡ bit (x ∷ xs) i
    others zero ne = refl
    others (suc i) ne = c.other i (λ e. ne (ap suc e))

Changes-head : (x y : Bool) (xs : Bits) → Changes (x ∷ xs) 0 y (y ∷ xs)
Changes-head x y xs = record { same_length = refl; here = refl; other = others }
  where
    others : (i : ℕ) → i ≢ 0 → bit (y ∷ xs) i ≡ bit (x ∷ xs) i
    others zero ne = absurd (ne refl)
    others (suc i) ne = refl

-- The bit is set.
pub or-one_shl :
    (n index : ℕ) (xs : Bits)
    → length xs ≡ n
    → index < n
    → Changes xs index true (or xs (one_shl n index))
or-one_shl zero index xs h lt = absurd (omega (arith, lt))
or-one_shl (suc n) index [] h lt = absurd (omega (arith, h))
or-one_shl (suc n) zero (true ∷ xs) h lt =
    rw (or-zeros n xs (omega (arith, h))) (Changes-head true true xs)
or-one_shl (suc n) zero (false ∷ xs) h lt =
    rw (or-zeros n xs (omega (arith, h))) (Changes-head false true xs)
or-one_shl (suc n) (suc index) (true ∷ xs) h lt =
    Changes-cons true xs index true (or xs (one_shl n index))
      (or-one_shl n index xs (omega (arith, h)) (omega (arith, lt)))
or-one_shl (suc n) (suc index) (false ∷ xs) h lt =
    Changes-cons false xs index true (or xs (one_shl n index))
      (or-one_shl n index xs (omega (arith, h)) (omega (arith, lt)))

-- The bit is cleared.
pub and_complement_of-one_shl :
    (n index : ℕ) (xs : Bits)
    → length xs ≡ n
    → index < n
    → Changes xs index false (and xs (complement (one_shl n index)))
and_complement_of-one_shl zero index xs h lt = absurd (omega (arith, lt))
and_complement_of-one_shl (suc n) index [] h lt = absurd (omega (arith, h))
and_complement_of-one_shl (suc n) zero (true ∷ xs) h lt =
    rw (complement_of-zeros n xs (omega (arith, h))) (Changes-head true false xs)
and_complement_of-one_shl (suc n) zero (false ∷ xs) h lt =
    rw (complement_of-zeros n xs (omega (arith, h))) (Changes-head false false xs)
and_complement_of-one_shl (suc n) (suc index) (true ∷ xs) h lt =
    Changes-cons true xs index false (and xs (complement (one_shl n index)))
      (and_complement_of-one_shl n index xs (omega (arith, h)) (omega (arith, lt)))
and_complement_of-one_shl (suc n) (suc index) (false ∷ xs) h lt =
    Changes-cons false xs index false (and xs (complement (one_shl n index)))
      (and_complement_of-one_shl n index xs (omega (arith, h)) (omega (arith, lt)))
