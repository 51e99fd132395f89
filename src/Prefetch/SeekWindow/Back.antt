-- ===== src/Prefetch/SeekWindow/Back.antt =====
-- `read_back`: the bytes right before the end of the window, in object order.
use mathlib.Core.Path.{subst}
use mathlib.Core.List.{reverse-append}
use mountpoint_s.Prelude.{
  ℕ, zero, suc, ◌+◌, ◌-◌, ◌≤◌, ◌<◌, ◌^◌, ◌≡◌, refl, sym, List, [], ◌∷◌, ◌++◌, reverse, ◌⊎◌, inl,
  inr, none, some, arith, length, length-reverse, Bool-cases, ltb, ltb→le, ltb→lt, ◌-w◌,
}
use mountpoint_s.Checksums.{Crc}
use mountpoint_s.Prefetch.Part.{ObjectId, Part, len}
use mountpoint_s.Prefetch.Stream.{Holds, Run, Run-append, split_off-Holds, front, back}
use mountpoint_s.Prefetch.SeekWindow.{SeekWindow, take_back, read_back_loop, read_back}
use mountpoint_s.Prefetch.SeekWindow.Inv.{EndsAt}

module _ (crc : Crc) (id : ObjectId) (object : List ℕ) where
  -- A run read from its end: `parts` has the newest part first.
  abbrev pub RunBack : List Part → ℕ → ℕ → Type 0
  RunBack [] from to = from ≡ to
  RunBack (p ∷ ps) from to =
      Holds crc id object p × (p.offset + len p ≡ to) × (0 < len p) × RunBack ps from p.offset

  RunBack-append :
      (ps qs : List Part) (a b c : ℕ) → RunBack ps b c → RunBack qs a b → RunBack (ps ++ qs) a c
  RunBack-append [] qs a b c r s = subst (λ k. RunBack qs a k) r s
  RunBack-append (p ∷ ps) qs a b c r s = (r.0, r.1, r.2, RunBack-append ps qs a b p.offset r.3 s)

  pub RunBack-reverse :
      (ps : List Part) (a b : ℕ) → Run crc id object ps a b → RunBack (reverse ps) a b
  RunBack-reverse [] a b r = r
  RunBack-reverse (p ∷ ps) a b r =
      subst (λ l. RunBack l a b) (sym (reverse-append (p ∷ []) ps))
        (RunBack-append (reverse ps) (p ∷ []) a (a + len p) b (RunBack-reverse ps (a + len p) b r.3)
          (r.0, omega arith, r.2, omega arith))

  Run-reverse : (ps : List Part) (a b : ℕ) → RunBack ps a b → Run crc id object (reverse ps) a b
  Run-reverse [] a b r = r
  Run-reverse (p ∷ ps) a b r =
      subst (λ l. Run crc id object l a b) (sym (reverse-append (p ∷ []) ps))
        (Run-append crc id object (reverse ps) (p ∷ []) a p.offset b (Run-reverse ps a p.offset r.3)
          (r.0, refl, r.2, r.1))

  pub RunBack-le : (ps : List Part) (from to : ℕ) → RunBack ps from to → from ≤ to
  RunBack-le [] from to r = omega arith
  RunBack-le (p ∷ ps) from to r = omega (arith, RunBack-le ps from p.offset r.3)

  -- What the loop is left with, when `n` bytes are to be read from the end `to` of a window that
  -- starts at `from`, and the bytes from `to` to `end` have been taken.
  record Loop (from to end size n : ℕ) (newest result : List Part) : Type 0 where
    left : RunBack newest from to
    taken : Run crc id object result to end
    size_is : from + size ≡ to
    enough : n ≤ size
    small : to < 2 ^ 63

  -- One round takes bytes away, and the round that needs part of a part is the last.
  take_back_lem :
      (newest result : List Part) (from to end size n : ℕ)
      → length object < 2 ^ 63
      → Loop from to end size n newest result
      → 0 < n
      → (newest' : List Part) × (n' : ℕ) × (size' : ℕ) × (result' : List Part) × (to' : ℕ)
        × (take_back newest n size result ≡ some (newest', n', size', result'))
        × Loop from to' end size' n' newest' result'
        × (to' + n ≡ to + n')
        × ((length newest' < length newest) ⊎ (n' ≡ 0))
  unfolding take_back
  take_back_lem [] result from to end size n fits l pos = absurd (omega (arith, l))
  take_back_lem (p ∷ newest) result from to end size n fits l pos =
      elim (Bool-cases (ltb n (len p))) [
        | inl part ↦
            let at : ℕ = len p -w n in
            let short : at ≡ len p - n = omega (arith, l, ltb→lt _ _ part) in
            let (e, ha, hb, la, ob, lb) =
              split_off-Holds crc id object p at fits l.left.0 (omega (arith, ltb→lt _ _ part)) in
            (
              front p at ∷ newest,
              n -w len (back p at),
              size -w len (back p at),
              back p at ∷ result,
              to - n,
              ground (arith, e),
              record {
                left = (ha, omega (arith, l), omega (arith, ltb→lt _ _ part), l.left.3);
                taken = (
                  hb,
                  omega (arith, l),
                  omega arith,
                  subst (λ k. Run crc id object result k end) (omega (arith, l)) l.taken,
                );
                size_is = omega (arith, l);
                enough = omega (arith, l);
                small = omega (arith, l);
              },
              omega (arith, l),
              inr (omega arith),
            )
        | inr whole ↦
            let r = l.left in
            let le : from ≤ p.offset = RunBack-le newest from p.offset r.3 in
            (
              newest,
              n -w len p,
              size -w len p,
              p ∷ result,
              p.offset,
              ground arith,
              record {
                left = r.3;
                taken =
                    (r.0, refl, r.2, subst (λ k. Run crc id object result k end) (sym r.1) l.taken);
                size_is = omega (arith, l);
                enough = omega (arith, l, ltb→le _ _ whole);
                small = omega (arith, l);
              },
              omega (arith, l, ltb→le _ _ whole),
              inl (omega arith),
            )
      ]

  -- The loop reads exactly `n` bytes, and the fuel that `read_back` gives it is enough.
  read_back_loop_lem :
      (fuel : ℕ) (newest result : List Part) (from to end size n : ℕ)
      → length object < 2 ^ 63
      → Loop from to end size n newest result
      → (length newest + 2 ≤ fuel) ⊎ (n ≡ 0)
      → (newest' : List Part) × (size' : ℕ) × (result' : List Part) × (read_back_loop fuel newest n
            size result
          ≡ some (newest', size', result'))
        × Loop from (to - n) end size' 0 newest' result'
  unfolding read_back_loop
  read_back_loop_lem fuel newest result from to end size zero fits l f = (
    newest,
    size,
    result,
    refl,
    subst (λ k. Loop from k end size 0 newest result) (omega arith) l,
  )
  read_back_loop_lem zero newest result from to end size (suc n) fits l f = absurd (omega arith)
  read_back_loop_lem (suc fuel) newest result from to end size (suc n) fits l f =
      let (newest', n', size', result', to', e, l', fewer, f') =
        take_back_lem newest result from to end size (suc n) fits l (omega arith) in
      let (a, b, c, e', l'') =
        read_back_loop_lem fuel newest' result' from to' end size' n' fits l' (fuel_left f') in
      (
        a,
        b,
        c,
        rw (e, read_back_loop) e',
        subst (λ k. Loop from k end b 0 a c) (omega (arith, l')) l'',
      )
    where
      fuel_left : {a b : ℕ} → (a < length newest) ⊎ (b ≡ 0) → (a + 2 ≤ fuel) ⊎ (b ≡ 0)
      fuel_left h = ground arith

  -- For an object of less than 2^63 bytes and a window that ends at `to`: with enough data in the
  -- window, `read_back` takes out exactly the last `n` bytes before `to`, as a run of parts in
  -- object order, and leaves a window that ends where they begin; it does not panic. With too
  -- little data it gives nothing and leaves the window alone.
  pub read_back_lem :
      (w : SeekWindow) (to n : ℕ)
      → length object < 2 ^ 63
      → EndsAt crc id object w to
      → ((n ≤ w.current_size)
          × (parts : List Part) × (w' : SeekWindow) × (read_back w n ≡ some (some parts, w'))
          × Run crc id object parts (to - n) to
          × EndsAt crc id object w' (to - n)
          × (w'.max_size ≡ w.max_size))
        ⊎ ((w.current_size < n) × (read_back w n ≡ some (none, w)))
  unfolding read_back
  read_back_lem w to n fits v = elim (Bool-cases (ltb w.current_size n)) [
    | inl little ↦ inr (ltb→lt _ _ little, rw little)
    | inr enough ↦
        let start : Loop (to - w.current_size) to to w.current_size n (reverse w.parts) [] =
          record {
            left = RunBack-reverse w.parts (to - w.current_size) to v.run;
            taken = refl;
            size_is = omega (arith, v);
            enough = ltb→le _ _ enough;
            small = v.to_small;
          } in
        let (newest, size, parts, e, l) =
          read_back_loop_lem (length w.parts + 2) (reverse w.parts) [] (to - w.current_size) to to
            w.current_size n fits start (inl (omega (arith, length-reverse w.parts))) in
        inl (
          ltb→le _ _ enough,
          parts,
          record w { parts = reverse newest; current_size = size },
          ground (arith, e),
          l.taken,
          record {
            run =
                subst (λ k. Run crc id object (reverse newest) k (to - n)) (omega (arith, l))
                  (Run-reverse newest (to - w.current_size) (to - n) l.left);
            size_le = omega (arith, v, l);
            size_max = omega (arith, v, l);
            max_small = v.max_small;
            to_small = omega (arith, v);
          },
          refl,
        )
  ]
