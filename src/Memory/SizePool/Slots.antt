-- ===== src/Memory/SizePool/Slots.antt =====
-- Which buffers of the pages of a pool are in use, by the address of the page and the index in it.
use mathlib.Core.Path.{subst}
use native.Mathlib.Nat.{mul-le-mul_right, mul-div_cancel}
use mathlib.Core.Bool.{true≢false}
use mountpoint_s.Prelude.{
  ℕ, zero, suc, ◌+◌, ◌*◌, ◌/◌, ◌≤◌, ◌<◌, List, [], ◌∷◌, ◌++◌, true, false, ◌⊎◌, inl, inr, length,
  ◌≡◌, ◌≢◌, sym, ap, ◌∙◌, arith, if◌then◌else◌, Bool-cases,
}
use mountpoint_s.Memory.Bits.{Bits, is_zero, bit}
use mountpoint_s.Memory.Pages.{Page, PagedBufferPtr}
use mountpoint_s.Memory.SizePool.Steps.{Apart, IsFresh}

-- The buffer at an index of the page at an address is in use.
abbrev pub Slot : List Page → ℕ → ℕ → Type 0
Slot [] address i = ⊥
Slot (p ∷ ps) address i =
    ((p.bytes ≡ address) × (bit p.reserved_bitmask i ≡ true)) ⊎ Slot ps address i

-- The pages are apart from each other, and have 16 buffers.
abbrev pub IsTidy : ℕ → List Page → Type 0
IsTidy size [] = Unit
IsTidy size (p ∷ ps) = IsFresh size p.bytes ps × (length p.reserved_bitmask ≡ 16) × IsTidy size ps

abbrev pub count_empty : List Page → ℕ
count_empty [] = 0
count_empty (p ∷ ps) = (if is_zero p.reserved_bitmask then 1 else 0) + count_empty ps

pub count_empty_free :
    (p : Page) (ps : List Page)
    → is_zero p.reserved_bitmask ≡ true
    → count_empty (p ∷ ps) ≡ 1 + count_empty ps
count_empty_free p ps e = ap (λ k. (if k then 1 else 0) + count_empty ps) e

pub count_empty_used :
    (p : Page) (ps : List Page)
    → is_zero p.reserved_bitmask ≡ false
    → count_empty (p ∷ ps) ≡ count_empty ps
count_empty_used p ps e = ap (λ k. (if k then 1 else 0) + count_empty ps) e ∙ omega arith

pub count_empty-le : (pages : List Page) → count_empty pages ≤ length pages
count_empty-le [] = omega arith
count_empty-le (p ∷ ps) = elim (Bool-cases (is_zero p.reserved_bitmask)) [
  | inl z ↦ omega (arith, count_empty_free p ps z, count_empty-le ps)
  | inr nz ↦ omega (arith, count_empty_used p ps nz, count_empty-le ps)
]

abbrev pub Everywhere : (PagedBufferPtr → Type 0) → List PagedBufferPtr → Type 0
Everywhere P [] = Unit
Everywhere P (b ∷ bs) = P b × Everywhere P bs

-- The buffers are apart from each other in memory.
abbrev pub IsSeparate : ℕ → List PagedBufferPtr → Type 0
IsSeparate size [] = Unit
IsSeparate size (b ∷ bs) = Everywhere (λ c. Apart size b.ptr c.ptr) bs × IsSeparate size bs

-- The buffer is the one at the index of the page.
abbrev pub IsAt : ℕ → ℕ → ℕ → PagedBufferPtr → Type 0
IsAt size address i b = (b.pool_page ≡ address) × (b.ptr ≡ address + i * size)

abbrev pub Uses : ℕ → List PagedBufferPtr → ℕ → ℕ → Type 0
Uses size [] address i = ⊥
Uses size (b ∷ bs) address i = IsAt size address i b ⊎ Uses size bs address i

abbrev pub Placed : ℕ → List Page → PagedBufferPtr → Type 0
Placed size pages b =
    (i : ℕ) × (i < 16) × (b.ptr ≡ b.pool_page + i * size) × Slot pages b.pool_page i

pub Everywhere-map :
    (P Q R : PagedBufferPtr → Type 0) (bs : List PagedBufferPtr)
    → ((b : PagedBufferPtr) → P b → Q b → R b)
    → Everywhere P bs
    → Everywhere Q bs
    → Everywhere R bs
Everywhere-map P Q R [] f p q = tt
Everywhere-map P Q R (b ∷ bs) f (p, ps) (q, qs) = (f b p q, Everywhere-map P Q R bs f ps qs)

pub Everywhere-drop :
    (P : PagedBufferPtr → Type 0) (before after : List PagedBufferPtr) (b : PagedBufferPtr)
    → Everywhere P (before ++ (b ∷ after))
    → Everywhere P (before ++ after) × P b
Everywhere-drop P [] after b (p, ps) = (ps, p)
Everywhere-drop P (c ∷ before) after b (p, ps) =
    let (rest, here) = Everywhere-drop P before after b ps in ((p, rest), here)

pub Apart-sym : (size a b : ℕ) → Apart size a b → Apart size b a
Apart-sym size a b (inl h) = inr h
Apart-sym size a b (inr h) = inl h

pub Apart-irrefl : (size a b : ℕ) → 0 < size → Apart size a b → a ≢ b
Apart-irrefl size a b pos (inl h) e = absurd (omega (arith, pos, h, e))
Apart-irrefl size a b pos (inr h) e = absurd (omega (arith, pos, h, e))

-- Without one of them the buffers are apart still, and it is apart from the others.
pub IsSeparate-drop :
    (size : ℕ) (before after : List PagedBufferPtr) (b : PagedBufferPtr)
    → IsSeparate size (before ++ (b ∷ after))
    → IsSeparate size (before ++ after) × Everywhere (λ c. Apart size b.ptr c.ptr) (before ++ after)
IsSeparate-drop size [] after b (away, s) = (s, away)
IsSeparate-drop size (c ∷ before) after b (away, s) =
    let (rest, others) = IsSeparate-drop size before after b s in
    let (away', here) = Everywhere-drop (λ d. Apart size c.ptr d.ptr) before after b away in
    ((away', rest), (Apart-sym size c.ptr b.ptr here, others))

pub Uses-drop :
    (size : ℕ) (before after : List PagedBufferPtr) (b : PagedBufferPtr) (address i : ℕ)
    → Uses size (before ++ (b ∷ after)) address i
    → IsAt size address i b ⊎ Uses size (before ++ after) address i
Uses-drop size [] after b address i u = u
Uses-drop size (c ∷ before) after b address i (inl h) = inr (inl h)
Uses-drop size (c ∷ before) after b address i (inr u) =
    elim (Uses-drop size before after b address i u) [ inl h ↦ inl h | inr h ↦ inr (inr h) ]

-- Memory that is fresh is that of no page.
pub Slot-IsFresh :
    (size a address i : ℕ) (pages : List Page)
    → 0 < size
    → IsFresh size a pages
    → Slot pages address i
    → a ≢ address
Slot-IsFresh size a address i [] pos f s same = absurd s
Slot-IsFresh size a address i (p ∷ ps) pos (away, f) (inl (e, t)) same =
    Apart-irrefl (16 * size) a p.bytes (omega (arith, pos)) away (same ∙ sym e)
Slot-IsFresh size a address i (p ∷ ps) pos (away, f) (inr s) same =
    Slot-IsFresh size a address i ps pos f s same

bit-bound : (xs : Bits) (i : ℕ) → bit xs i ≡ true → i < length xs
bit-bound [] i e = absurd (true≢false (sym e))
bit-bound (x ∷ xs) zero e = omega arith
bit-bound (x ∷ xs) (suc i) e = omega (arith, bit-bound xs i e)

pub Slot-bound :
    (size address i : ℕ) (pages : List Page) → IsTidy size pages → Slot pages address i → i < 16
Slot-bound size address i [] t s = absurd s
Slot-bound size address i (p ∷ ps) (f, n, t) (inl (e, h)) =
    omega (arith, bit-bound p.reserved_bitmask i h, n)
Slot-bound size address i (p ∷ ps) (f, n, t) (inr s) = Slot-bound size address i ps t s

within :
    (size a b i j : ℕ)
    → i < 16
    → j < 16
    → Apart (16 * size) a b
    → Apart size (a + i * size) (b + j * size)
within size a b i j lt lt' away = elim away [
  | inl h ↦ let le : i ≤ 15 = omega (arith, lt) in inl (omega (arith, h, mul-le-mul_right size le))
  | inr h ↦ let le : j ≤ 15 = omega (arith, lt') in inr (omega (arith, h, mul-le-mul_right size le))
]

-- Buffers of two pages are apart.
pub Slot-Apart :
    (size a i address j : ℕ) (pages : List Page)
    → IsFresh size a pages
    → Slot pages address j
    → i < 16
    → j < 16
    → Apart size (a + i * size) (address + j * size)
Slot-Apart size a i address j [] f s lt lt' = absurd s
Slot-Apart size a i address j (p ∷ ps) (away, f) (inl (e, t)) lt lt' =
    subst (λ k. Apart size (a + i * size) (k + j * size)) e (within size a p.bytes i j lt lt' away)
Slot-Apart size a i address j (p ∷ ps) (away, f) (inr s) lt lt' =
    Slot-Apart size a i address j ps f s lt lt'

-- Two buffers of a page are apart.
pub same_page : (size a i j : ℕ) → i ≢ j → Apart size (a + i * size) (a + j * size)
same_page size a i j ne = elim (less i j ne) [
  | inl lt ↦ inl (omega (arith, mul-le-mul_right size lt))
  | inr lt ↦ inr (omega (arith, mul-le-mul_right size lt))
]
  where
    less : (m n : ℕ) → m ≢ n → (suc m ≤ n) ⊎ (suc n ≤ m)
    less m n ne = ground (arith, ne)

-- Two buffers in use are of the same page, or apart.
pub two_slots :
    (size a i c j : ℕ) (pages : List Page)
    → IsTidy size pages
    → Slot pages a i
    → Slot pages c j
    → i < 16
    → j < 16
    → (a ≡ c) ⊎ Apart size (a + i * size) (c + j * size)
two_slots size a i c j [] t s s' lt lt' = absurd s
two_slots size a i c j (p ∷ ps) (f, n, t) (inl (e, on)) (inl (e', on')) lt lt' = inl (sym e ∙ e')
two_slots size a i c j (p ∷ ps) (f, n, t) (inl (e, on)) (inr s') lt lt' = inr (
    subst (λ k. Apart size (k + i * size) (c + j * size)) e
      (Slot-Apart size p.bytes i c j ps f s' lt lt'))
two_slots size a i c j (p ∷ ps) (f, n, t) (inr s) (inl (e, on)) lt lt' = inr (
    Apart-sym size (c + j * size) (a + i * size) (
      subst (λ k. Apart size (k + j * size) (a + i * size)) e
        (Slot-Apart size p.bytes j a i ps f s lt' lt)))
two_slots size a i c j (p ∷ ps) (f, n, t) (inr s) (inr s') lt lt' =
    two_slots size a i c j ps t s s' lt lt'

pub index_unique : (size i j : ℕ) → 0 < size → i * size ≡ j * size → i ≡ j
index_unique size i j pos e =
    sym (mul-div_cancel i pos) ∙ ap (λ k. k / size) e ∙ mul-div_cancel j pos
