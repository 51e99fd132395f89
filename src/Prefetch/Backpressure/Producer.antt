-- ===== src/Prefetch/Backpressure/Producer.antt =====
-- The producer's side of backpressure_controller.rs: `BackpressureLimiter` and the queue of increments.
--
-- A call of `wait_for_read_window_increment` may block. What it meets is an argument: `queued`, the
-- increments that are in the queue, and `later`, what the queue holds each time the call has waited
-- for it; after the last of them the channel is closed. A drain takes all that is there.
use mountpoint_s.Prelude.{
  ℕ, ◌+◌, ◌≤◌, ◌<◌, ◌^◌, ◌≡◌, refl, ◌⊎◌, inl, inr, List, [], ◌∷◌, Bool, true, false, ◌&&◌, Option,
  none, some, Outcome, ok, err, arith, ltb, leb, ltb→lt, ltb→le, if◌then◌else◌, ◌+w◌, Bool-cases,
  panic,
}
use mountpoint_s.Prefetch.Backpressure.{Config}

pub record Producer : Type 0 where
  pub read_window_end_offset : ℕ
  pub request_end_offset : ℕ

-- The limiter that `new_backpressure_controller` makes.
unfoldable pub new : Config → Producer
new config = record {
  read_window_end_offset = config.request_start +w config.initial_read_window_size;
  request_end_offset = config.request_end;
}

-- The total of the increments that a drain takes.
unfoldable pub drain : List ℕ → ℕ
drain [] = 0
drain (len ∷ queued) = len +w drain queued

unfoldable pub try_recv_drain : List ℕ → Option ℕ
try_recv_drain queued = if ltb 0 (drain queued) then some (drain queued) else none

pub data WaitError : Type 0 where
  read_window_increment : WaitError

abbrev pub advance : Producer → ℕ → Producer
advance p n = record p { read_window_end_offset = p.read_window_end_offset +w n }

-- The test of the loop that blocks.
unfoldable pub blocked : Producer → ℕ → Bool
blocked p offset =
    leb p.read_window_end_offset offset && ltb p.read_window_end_offset p.request_end_offset

-- The loop that blocks: each element of `batches` is what one `recv_drain` takes. The producer, and the
-- batches that are left.
unfoldable pub wait_loop :
    Producer → ℕ → List (List ℕ) → Outcome WaitError (Producer × List (List ℕ))
wait_loop p offset [] = if blocked p offset then err read_window_increment else ok (p, [])
wait_loop p offset (batch ∷ batches) =
    if blocked p offset
    then wait_loop (advance p (drain batch)) offset batches
    else ok (p, batch ∷ batches)

-- `recv_drain` takes what is queued, if there is anything, before it waits.
abbrev pub batches_of : List ℕ → List (List ℕ) → List (List ℕ)
batches_of [] later = later
batches_of (n ∷ ns) later = (n ∷ ns) ∷ later

-- The new end of the window, if it has changed, the producer, and the batches that are left.
unfoldable pub wait_for_read_window_increment :
    Producer → ℕ → List ℕ → List (List ℕ) → Outcome WaitError (Option ℕ × Producer × List (List ℕ))
wait_for_read_window_increment p offset queued later =
    if ltb offset p.read_window_end_offset
    then elim (try_recv_drain queued) [
      | some n ↦ ok (some (advance p n).read_window_end_offset, advance p n, later)
      | none ↦ ok (none, p, later)
    ]
    else elim (wait_loop p offset (batches_of queued later)) [
      | ok (p', rest) ↦ ok (some p'.read_window_end_offset, p', rest)
      | err e ↦ err e
      | panic ↦ panic
    ]

abbrev pub total : List ℕ → ℕ
total [] = 0
total (n ∷ ns) = n + total ns

abbrev pub grand_total : List (List ℕ) → ℕ
grand_total [] = 0
grand_total (b ∷ bs) = total b + grand_total bs

drain-total : (ns : List ℕ) → total ns < 2 ^ 64 → drain ns ≡ total ns
unfolding drain
drain-total [] h = refl
drain-total (n ∷ ns) h = omega (arith, drain-total ns (omega arith))

-- What a returning wait leaves: a window that reaches beyond `offset` or to the end of the request, and
-- no increment lost.
abbrev pub Waited : Producer → ℕ → ℕ → Outcome WaitError (Producer × List (List ℕ)) → Type 0
Waited p offset all (ok (p', rest)) =
    ((offset < p'.read_window_end_offset) ⊎ (p'.request_end_offset ≤ p'.read_window_end_offset))
    × (p'.read_window_end_offset + grand_total rest ≡ p.read_window_end_offset + all)
    × (p'.request_end_offset ≡ p.request_end_offset)
Waited p offset all (err e) =
    (p.read_window_end_offset + all ≤ offset)
    × (p.read_window_end_offset + all < p.request_end_offset)
Waited p offset all panic = ⊥

blocked-cases :
    (p : Producer) (offset : ℕ)
    → ((blocked p offset ≡ true)
        × (p.read_window_end_offset ≤ offset)
        × (p.read_window_end_offset < p.request_end_offset))
      ⊎ ((blocked p offset ≡ false)
          × ((offset < p.read_window_end_offset)
              ⊎ (p.request_end_offset ≤ p.read_window_end_offset)))
unfolding blocked
blocked-cases p offset = ground arith

Waited-advance :
    (p : Producer) (offset n all all' : ℕ) (r : Outcome WaitError (Producer × List (List ℕ)))
    → all' ≡ n + all
    → p.read_window_end_offset + n < 2 ^ 64
    → Waited (advance p n) offset all r
    → Waited p offset all' r
Waited-advance p offset n all all' (ok (p', rest)) e h w = (w.0, omega arith, w.2)
Waited-advance p offset n all all' (err x) e h w = omega arith
Waited-advance p offset n all all' panic e h w = w

wait_loop_lem :
    (p : Producer) (offset : ℕ) (batches : List (List ℕ))
    → p.read_window_end_offset + grand_total batches < 2 ^ 64
    → Waited p offset (grand_total batches) (wait_loop p offset batches)
unfolding wait_loop
wait_loop_lem p offset [] h = elim (blocked-cases p offset) [
  | inl (b, e, r) ↦ rw b (omega arith)
  | inr (b, done) ↦ rw b (done, omega arith, refl)
]
wait_loop_lem p offset (batch ∷ batches) h = elim (blocked-cases p offset) [
  | inl (b, e, r) ↦
      let n : drain batch ≡ total batch = drain-total batch (omega arith) in
      rw b (
        Waited-advance p offset (drain batch) (grand_total batches)
          (total batch + grand_total batches) (wait_loop (advance p (drain batch)) offset batches)
          (omega arith) (omega arith)
          (wait_loop_lem (advance p (drain batch)) offset batches (omega arith)))
  | inr (b, done) ↦ rw b (done, refl, refl)
]

-- The answer of a wait for a position within the window: the new end if an increment of at least a byte was
-- queued, and nothing if not.
abbrev Drained : Producer → ℕ → Option ℕ → Producer → Type 0
Drained p queued answer p' =
    ((queued ≡ 0) × (answer ≡ none) × (p'.read_window_end_offset ≡ p.read_window_end_offset))
    ⊎ ((0 < queued)
        × (answer ≡ some p'.read_window_end_offset)
        × (p'.read_window_end_offset ≡ p.read_window_end_offset + queued))

abbrev pub Answered :
    Producer → ℕ → ℕ → ℕ → Outcome WaitError (Option ℕ × Producer × List (List ℕ)) → Type 0
Answered p offset queued all (ok (answer, p', rest)) =
    Waited p offset all (ok (p', rest))
    × (((offset < p.read_window_end_offset) × Drained p queued answer p')
        ⊎ ((p.read_window_end_offset ≤ offset) × (answer ≡ some p'.read_window_end_offset)))
Answered p offset queued all (err e) =
    (p.read_window_end_offset ≤ offset) × Waited p offset all (err e)
Answered p offset queued all panic = ⊥

grand_total-batches_of :
    (queued : List ℕ) (later : List (List ℕ))
    → grand_total (batches_of queued later) ≡ total queued + grand_total later
grand_total-batches_of [] later = omega arith
grand_total-batches_of (n ∷ ns) later = refl

answer_of :
    (p : Producer) (offset queued all : ℕ) (r : Outcome WaitError (Producer × List (List ℕ)))
    → p.read_window_end_offset ≤ offset
    → Waited p offset all r
    → Answered p offset queued all (elim r [
      | ok (p', rest) ↦ ok (some p'.read_window_end_offset, p', rest)
      | err e ↦ err e
      | panic ↦ panic
    ])
answer_of p offset queued all (ok (p', rest)) b w = (w, inr (b, refl))
answer_of p offset queued all (err e) b w = (b, w)
answer_of p offset queued all panic b w = w

-- If the end of the window and the increments add up to a `u64`: a wait that returns leaves a
-- window that reaches beyond `offset` or to the end of the request, and has counted every increment
-- once (those taken are in the window, the others are left). If `offset` is before the end of the
-- window already, exactly the queued increments are taken, and the answer is the new end if they
-- have at least a byte, and nothing if not. If it is not, the answer is the end of the window, also
-- where that is unchanged. It fails only if `offset` is not before the end of the window and the
-- channel is closed with increments that reach neither beyond `offset` nor to the end of the
-- request, and it never panics.
pub wait_lem :
    (p : Producer) (offset : ℕ) (queued : List ℕ) (later : List (List ℕ))
    → p.read_window_end_offset + (total queued + grand_total later) < 2 ^ 64
    → Answered p offset
        (total queued)
        (total queued + grand_total later)
        (wait_for_read_window_increment p offset queued later)
unfolding wait_for_read_window_increment try_recv_drain
wait_lem p offset queued later h = elim (Bool-cases (ltb offset p.read_window_end_offset)) [
  | inl ahead ↦
      let d : drain queued ≡ total queued = drain-total queued (omega arith) in
      let open_window : offset < p.read_window_end_offset = ltb→lt _ _ ahead in
      elim (Bool-cases (ltb 0 (drain queued))) [
        | inl some_queued ↦
            let some_bytes : 0 < drain queued = ltb→lt _ _ some_queued in
            rw (ahead, some_queued)
              (
                (inl (omega arith), omega arith, refl),
                inl (open_window, inr (omega arith, refl, omega arith)),
              )
        | inr none_queued ↦
            let no_bytes : drain queued ≡ 0 = omega (arith, ltb→le _ _ none_queued) in
            rw (ahead, none_queued)
              (
                (inl open_window, omega arith, refl),
                inl (open_window, inl (omega arith, refl, refl)),
              )
      ]
  | inr behind ↦
      let g : grand_total (batches_of queued later) ≡ total queued + grand_total later =
        grand_total-batches_of queued later in
      rw behind (
        answer_of p offset (total queued) (total queued + grand_total later)
          (wait_loop p offset (batches_of queued later)) (ltb→le _ _ behind)
          (rw (← g) (wait_loop_lem p offset (batches_of queued later) (omega arith))))
]
