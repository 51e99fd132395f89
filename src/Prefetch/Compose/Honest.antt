-- ===== src/Prefetch/Compose/Honest.antt =====
-- What a client that keeps to the bytes of the object makes the composer push.
use mathlib.Core.Path.{subst}
use mountpoint_s.Prelude.{
  ℕ, ◌+◌, ◌≤◌, ◌<◌, ◌^◌, ◌≡◌, refl, sym, ◌∙◌, ap, inl, inr, List, [], ◌∷◌, ◌++◌, false, Option,
  Outcome, ok, err, panic, arith, length, slice, ltb, ltb→le, ◌==◌, ◌+w◌, Bool-cases,
}
use mountpoint_s.Checksums.{Crc}
use mountpoint_s.Prefetch.Errors.{read_window_increment}
use mountpoint_s.Prefetch.Part.{ObjectId}
use mountpoint_s.Prefetch.PartQueue.Honest.{Delivers}
use mountpoint_s.Prefetch.Backpressure.Producer.{
  Producer, WaitError, wait_for_read_window_increment,
}
use mountpoint_s.Prefetch.Range.{RequestRange, end_offset}
use mountpoint_s.Prefetch.Range.Trim
use mountpoint_s.Prefetch.Range.Trim.{trim_meets}
use mountpoint_s.Prefetch.Compose.{
  Item, body, broken, split_body, compose_parts, Waits, next_wait, read_from_request, last_end,
  has_failed, second_request, first_request, read_from_client_stream,
}
use mountpoint_s.Prefetch.Compose.Splits.{split_body_lem}

module _ (crc : Crc) (id : ObjectId) (object : List ℕ) where
  -- The bodies are bytes of the object, one after another from `from` on and not past `to`; they may stop
  -- early, or at an error.
  abbrev pub Bodies : List Item → ℕ → ℕ → Type 0
  Bodies [] from to = Unit
  Bodies (broken e ∷ items) from to = Unit
  Bodies (body offset bytes ∷ items) from to =
      (offset ≡ from)
      × (from + length bytes ≤ to)
      × (bytes ≡ slice object from (from + length bytes))
      × Bodies items (from + length bytes) to

  pub compose_parts-Delivers :
      (items : List Item) (alignment from to : ℕ)
      → 0 < alignment
      → alignment < 2 ^ 64
      → to ≤ length object
      → length object < 2 ^ 61
      → Bodies items from to
      → Delivers crc id object false (compose_parts crc id alignment items) from
  unfolding compose_parts
  compose_parts-Delivers [] alignment from to pos fits le small b = inl refl
  compose_parts-Delivers (broken e ∷ items) alignment from to pos fits le small b = refl
  compose_parts-Delivers (body offset bytes ∷ items) alignment from to pos fits le small
        (at, within, same, b) =
      subst
        (λ k.
          Delivers crc id object false
            (split_body crc id (length bytes) alignment k bytes
              ++ compose_parts crc id alignment items)
            from)
        (sym at)
        (split_body_lem crc id object (length bytes) alignment from bytes
          (compose_parts crc id alignment items) same (omega arith) small pos fits (omega arith)
          (compose_parts-Delivers items alignment (from + length bytes) to pos fits le small b))

  read_from_request_lem :
      (items : List Item) (p : Producer) (waits : Waits) (end from to : ℕ)
      → Bodies items from to
      → Bodies (read_from_request p waits end items).0 from to
  unfolding read_from_request
  read_from_request_lem [] p waits end from to b = tt
  read_from_request_lem (broken e ∷ items) p waits end from to b = tt
  read_from_request_lem (body offset bytes ∷ items) p waits end from to (at, within, same, b) =
      let next : ℕ = offset +w length bytes in
      let (queued, later, waits') = next_wait waits in
      elim (Bool-cases (next == end)) [
        | inl reached ↦ rw reached (at, within, same, tt)
        | inr before ↦ rw before (
            waited (wait_for_read_window_increment p next queued later) waits'
              (λ p'. read_from_request_lem items p' waits' end (from + length bytes) to b))
      ]
    where
      waited :
          (answer : Outcome WaitError (Option ℕ × Producer × List (List ℕ))) (waits' : Waits)
          → ((p' : Producer)
              → Bodies (read_from_request p' waits' end items).0 (from + length bytes) to)
          → Bodies
              (elim answer as (λ x. List Item × Producer × Waits) [
                | err e ↦ (body offset bytes ∷ broken read_window_increment ∷ [], p, waits')
                | panic ↦ (body offset bytes ∷ [], p, waits')
                | ok (_, p', _) ↦
                    let rest = read_from_request p' waits' end items in
                    (body offset bytes ∷ rest.0, rest.1, rest.2)
              ]).0
              from
              to
      waited (err e) waits' rest = (at, within, same, tt)
      waited panic waits' rest = (at, within, same, tt)
      waited (ok (a, p', l)) waits' rest = (at, within, same, rest p')

  -- Bodies up to an offset, and those after the last of them.
  Bodies-append :
      (xs ys : List Item) (from mid to : ℕ)
      → Bodies xs from mid
      → from ≤ mid
      → mid ≤ to
      → to < 2 ^ 61
      → ((at : ℕ) → at ≡ last_end from xs → at ≤ mid → Bodies ys at to)
      → Bodies (xs ++ ys) from to
  Bodies-append [] ys from mid to b before le small rest = rest from refl before
  Bodies-append (broken e ∷ xs) ys from mid to b before le small rest = tt
  Bodies-append (body offset bytes ∷ xs) ys from mid to (at, within, same, b) before le small rest =
      let next : offset +w length bytes ≡ from + length bytes = omega arith in
      (
        at,
        omega arith,
        same,
        Bodies-append xs ys (from + length bytes) mid to b within le small
            (λ k e. rest k (e ∙ ap (λ t. last_end t xs) (sym next))),
      )

  Bodies-le : (xs : List Item) (from mid to : ℕ) → Bodies xs from mid → mid ≤ to → Bodies xs from to
  Bodies-le [] from mid to b le = tt
  Bodies-le (broken e ∷ xs) from mid to b le = tt
  Bodies-le (body offset bytes ∷ xs) from mid to b le =
      (b.0, omega (arith, b), b.2, Bodies-le xs (from + length bytes) mid to b.3 le)

  -- For each range of the object, what the client sends are bytes of the object from its start on.
  abbrev pub KeepsTo : (RequestRange → List Item) → Type 0
  KeepsTo client =
      (range : RequestRange)
      → range.offset + range.size ≤ length object
      → Bodies (client range) range.offset (range.offset + range.size)

  first_lem :
      (client : RequestRange → List Item) (p : Producer) (waits : Waits) (range : RequestRange)
      → KeepsTo client
      → range.offset + range.size ≤ length object
      → Bodies (first_request client p waits range).0 range.offset (range.offset + range.size)
  unfolding first_request
  first_lem client p waits range keeps le = elim (Bool-cases (range.size == 0)) [
    | inl empty ↦ rw empty tt
    | inr bytes ↦ rw bytes (
        read_from_request_lem (client range) p waits (end_offset range) range.offset
          (range.offset + range.size) (keeps range le))
  ]

  second_lem :
      (client : RequestRange → List Item) (p : Producer) (waits : Waits) (range : RequestRange)
      (at : ℕ)
      → KeepsTo client
      → range.offset + range.size ≤ length object
      → at ≤ range.offset
      → Bodies (second_request client p waits at range) at (range.offset + range.size)
  unfolding second_request
  second_lem client p waits range at keeps le before = elim (Bool-cases (range.size == 0)) [
    | inl empty ↦ rw empty tt
    | inr bytes ↦ elim (Bool-cases (ltb at range.offset)) [
      | inl short ↦ rw (bytes, short) tt
      | inr reached ↦
          let (queued, later, waits') = next_wait waits in
          rw (bytes, reached)
            (subst
              (λ k.
                Bodies
                  (elim (wait_for_read_window_increment p range.offset queued later)
                    as (λ x. List Item) [
                      | err e ↦ broken read_window_increment ∷ []
                      | panic ↦ []
                      | ok (_, p', _) ↦
                          (read_from_request p' waits' (end_offset range) (client range)).0
                    ])
                  k (range.offset + range.size))
              (omega (arith, ltb→le _ _ reached))
              (waited (wait_for_read_window_increment p range.offset queued later) waits'))
    ]
  ]
    where
      waited :
          (answer : Outcome WaitError (Option ℕ × Producer × List (List ℕ))) (waits' : Waits)
          → Bodies
              (elim answer as (λ x. List Item) [
                | err e ↦ broken read_window_increment ∷ []
                | panic ↦ []
                | ok (_, p', _) ↦ (read_from_request p' waits' (end_offset range) (client range)).0
              ])
              range.offset
              (range.offset + range.size)
      waited (err e) waits' = tt
      waited panic waits' = tt
      waited (ok (a, p', l)) waits' =
          read_from_request_lem (client range) p' waits' (end_offset range) range.offset
            (range.offset + range.size) (keeps range le)

  -- For a valid range of an object of less than 2^61 bytes, and a client that sends bytes of the object for
  -- each range: two requests, one up to the end of the initial request and one from there on, give the
  -- bytes of the whole range in order, each of them once, or stop early, whatever the waits meet.
  pub read_from_client_stream-Bodies :
      (client : RequestRange → List Item) (p : Producer) (waits : Waits) (at : ℕ)
      (range : RequestRange)
      → KeepsTo client
      → Trim.IsValid range
      → range.offset + range.size ≤ length object
      → length object < 2 ^ 61
      → Bodies
          (read_from_client_stream client p waits at range)
          range.offset
          (range.offset + range.size)
  unfolding read_from_client_stream
  read_from_client_stream-Bodies client p waits at range keeps v le small =
      let (a, b, ea, eb, start, meet, finish, sizes, _, va, vb) = trim_meets range at v in
      let x = first_request client p waits a in
      let first : Bodies x.0 a.offset (a.offset + a.size) =
        first_lem client p waits a keeps (omega arith) in
      rw (ea, read_from_client_stream, eb)
        (elim (Bool-cases (has_failed x.0)) [
          | inl failed ↦ rw failed (
              subst (λ k. Bodies x.0 k (range.offset + range.size)) start
                (Bodies-le x.0 a.offset (a.offset + a.size) (range.offset + range.size) first
                  (omega arith)))
          | inr fine ↦ rw fine (
              subst
                (λ k.
                  Bodies (x.0 ++ second_request client x.1 x.2 (last_end a.offset x.0) b) k
                    (range.offset + range.size))
                start
                (Bodies-append x.0 (second_request client x.1 x.2 (last_end a.offset x.0) b)
                  a.offset (a.offset + a.size) (range.offset + range.size) first (omega arith)
                  (omega arith) (omega arith)
                  (λ k e before.
                    subst
                      (λ j.
                        Bodies (second_request client x.1 x.2 j b) k (range.offset + range.size))
                      e
                      (subst (λ j. Bodies (second_request client x.1 x.2 k b) k j)
                        (omega (arith, va, vb, v))
                        (second_lem client x.1 x.2 b k keeps (omega (arith, va, vb, v))
                          (omega (arith, va, vb, v)))))))
        ])
