-- ===== src/Upload/Incremental/Pops.antt =====
-- What an event stands for that is taken out of the channel of events.
use mathlib.Core.Path.{subst}
use mountpoint_s.Prelude.{
  ℕ, ◌+◌, ◌-◌, ◌<◌, List, [], ◌∷◌, ◌++◌, true, false, Option, none, some, inl, inr, arith, length,
  String, ◌≡◌, ◌≢◌, refl, Bool, sym, ap, ◌∙◌,
}
use mathlib.Core.Option.{none-ne-some}
use mountpoint_s.Upload.Hasher.{ChecksumAlgorithm, Digests}
use mountpoint_s.Upload.Incremental.{
  Client, AppendUploadQueueParams, AppendUploadEvent, checksum_algorithm, put_response, error, Task,
  starting, looping, finished, Upload,
}
use mountpoint_s.Upload.Incremental.Queue.{one_less, Received, event, closed, never}
use mountpoint_s.Upload.Incremental.Object.{Object}
use mountpoint_s.Upload.Incremental.Events.{Pending, PendingFailing}
use mountpoint_s.Upload.Incremental.Invariant.{joined, Written, Goes, Ended, Failed, After}

pub cons_not_nil : {A : Type 0} {x : A} {xs : List A} → x ∷ xs ≡ [] → ⊥
cons_not_nil e = absurd (omega (arith, ap length e))

pub some_not_none : {A : Type 0} {x : A} → some x ≢ none
some_not_none e = none-ne-some _ (sym e)

pub one_less-pos : (n : ℕ) → 0 < n → one_less n ≡ n - 1
one_less-pos n pos = ground arith

module _ {St : Type 0} (digests : Digests St) (client : Client) (params : AppendUploadQueueParams)
    (initial : Object) (shut : Bool) (tail all : List ℕ) where
  abbrev pub Stands : Upload St → Type 0
  Stands u = After digests client params initial shut u tail all

  -- What a receive gives, with the algorithm as it was known before; `n` requests have no response yet.
  abbrev pub Gives : Option (Option ChecksumAlgorithm) → ℕ → Received × Upload St → Type 0
  Gives a n (event (put_response r), u) =
      (a ≢ none)
      × (0 < n)
      × (u.requests_in_queue ≡ n)
      × Stands (record u {
        requests_in_queue = one_less u.requests_in_queue;
        last_known_result = some r;
      })
  Gives a n (event (checksum_algorithm x), u) =
      (a ≡ none) × (u.requests_in_queue ≡ n) × Stands (record u { algorithm = some x })
  Gives a n (event (error e), u) = Failed digests client params initial false u all
  Gives a n (closed, u) = Ended digests client params initial u tail all
  Gives a n (never, u) = (shut ≡ false) × (n ≡ 0) × (a ≢ none)

  pop_looping :
      (u : Upload St) (o : Object) (etag : Option String) (offset n : ℕ)
      (a : Option (Option ChecksumAlgorithm)) (e : AppendUploadEvent)
      (events : List AppendUploadEvent)
      → u.algorithm ≡ a
      → u.task ≡ looping etag offset
      → (w : Written initial u.puts (joined u.buffers ++ tail) all) → u.closed ≡ shut
      → w.object ≡ record { content = w.object.content; etag = etag }
      → offset ≡ length w.object.content
      → u.requests_in_queue ≡ n + length u.buffers
      → Pending a (e ∷ events) n
      → Gives a u.requests_in_queue (event e, record u { events = events })
  pop_looping u o etag offset n (some x) (put_response r) events known t w c tag at queued
        (pos, rest) =
      (
        some_not_none,
        omega (arith, queued),
        refl,
        inl (record {
          written = w;
          is_closed = c;
          goes =
              subst
                (Goes digests client params initial w.object (record u {
                  events = events;
                  requests_in_queue = one_less u.requests_in_queue;
                  last_known_result = some r;
                }))
                (sym t)
                (
                  tag,
                  at,
                  n - 1,
                  one_less-pos u.requests_in_queue (omega (arith, queued, pos))
                      ∙ omega (arith, queued, pos),
                  subst (λ k. Pending k events (n - 1)) (sym known) rest,
                );
        }),
      )
  pop_looping u o etag offset n (some x) (checksum_algorithm y) events known t w c tag at queued p =
      absurd p
  pop_looping u o etag offset n (some x) (error y) events known t w c tag at queued p = absurd p
  pop_looping u o etag offset n none (checksum_algorithm x) events known t w c tag at queued p = (
    refl,
    refl,
    inl (record {
      written = w;
      is_closed = c;
      goes =
          subst
            (Goes digests client params initial w.object
              (record u { events = events; algorithm = some x }))
            (sym t) (tag, at, n, queued, p);
    }),
  )
  pop_looping u o etag offset n none (put_response x) events known t w c tag at queued p = absurd p
  pop_looping u o etag offset n none (error x) events known t w c tag at queued p = absurd p

  pop-Ended :
      (u : Upload St) (a : Option (Option ChecksumAlgorithm)) (e : AppendUploadEvent)
      (events : List AppendUploadEvent)
      → shut ≡ true
      → u.algorithm ≡ a
      → Ended digests client params initial u tail all
      → Pending a (e ∷ events) u.requests_in_queue
      → Gives a u.requests_in_queue (event e, record u { events = events })
  pop-Ended u (some x) (put_response r) events c known i (pos, rest) = (
    some_not_none,
    pos,
    refl,
    inr (
        inl (
          c,
          record {
            written = i.written;
            is_closed = i.is_closed;
            task = i.task;
            buffers = i.buffers;
            pending =
                subst (λ k. Pending u.algorithm events k)
                  (sym (one_less-pos u.requests_in_queue pos))
                  (subst (λ k. Pending k events (u.requests_in_queue - 1)) (sym known) rest);
          },
        )),
  )
  pop-Ended u (some x) (checksum_algorithm y) events c known i p = absurd p
  pop-Ended u (some x) (error y) events c known i p = absurd p
  pop-Ended u none (checksum_algorithm x) events c known i p = (
    refl,
    refl,
    inr (
        inl (
          c,
          record {
            written = i.written;
            is_closed = i.is_closed;
            task = i.task;
            buffers = i.buffers;
            pending = p;
          },
        )),
  )
  pop-Ended u none (put_response x) events c known i p = absurd p
  pop-Ended u none (error x) events c known i p = absurd p

  read_all : (a : Option (Option ChecksumAlgorithm)) (n : ℕ) → PendingFailing false a [] n
  read_all none n = refl
  read_all (some x) n = refl

  pop-Failed :
      (u : Upload St) (a : Option (Option ChecksumAlgorithm)) (e : AppendUploadEvent)
      (events : List AppendUploadEvent)
      → u.algorithm ≡ a
      → Failed digests client params initial true u all
      → PendingFailing true a (e ∷ events) u.requests_in_queue
      → Gives a u.requests_in_queue (event e, record u { events = events })
  pop-Failed u (some x) (put_response r) events known i (pos, rest) = (
    some_not_none,
    pos,
    refl,
    inr (
        inr (record {
          rest = i.rest;
          written = i.written;
          is_closed = i.is_closed;
          task = i.task;
          buffers = i.buffers;
          failing =
              subst (λ k. PendingFailing true u.algorithm events k)
                (sym (one_less-pos u.requests_in_queue pos))
                (subst (λ k. PendingFailing true k events (u.requests_in_queue - 1)) (sym known)
                  rest);
        })),
  )
  pop-Failed u none (put_response r) events known i p = absurd p
  pop-Failed u (some x) (checksum_algorithm y) events known i p = absurd p
  pop-Failed u none (checksum_algorithm x) events known i p = (
    refl,
    refl,
    inr (
        inr (record {
          rest = i.rest;
          written = i.written;
          is_closed = i.is_closed;
          task = i.task;
          buffers = i.buffers;
          failing = p;
        })),
  )
  pop-Failed u a (error e) [] known i p = record {
    rest = i.rest;
    written = i.written;
    is_closed = i.is_closed;
    task = i.task;
    buffers = i.buffers;
    failing = read_all u.algorithm u.requests_in_queue;
  }
  pop-Failed u (some x) (error e) (f ∷ events) known i p = absurd p
  pop-Failed u none (error e) (f ∷ events) known i p = absurd p

  -- The first event of an upload.
  pub pop_lem :
      (u : Upload St) (e : AppendUploadEvent) (events : List AppendUploadEvent)
      → u.events ≡ e ∷ events
      → Stands u
      → Gives u.algorithm u.requests_in_queue (event e, record u { events = events })
  pop_lem u e events is (inl r) = running u.task refl
    where
      running :
          (t : Task)
          → u.task ≡ t
          → Gives u.algorithm u.requests_in_queue (event e, record u { events = events })
      running starting at = absurd (
          cons_not_nil
            (sym is ∙ (subst (Goes digests client params initial r.written.object u) at r.goes).0))
      running (looping etag offset) at =
          let (tag, here, n, queued, pending) =
            subst (Goes digests client params initial r.written.object u) at r.goes in
          pop_looping u r.written.object etag offset n u.algorithm e events refl at r.written
            r.is_closed tag here queued (subst (λ k. Pending u.algorithm k n) is pending)
      running finished at =
          absurd (subst (Goes digests client params initial r.written.object u) at r.goes)
  pop_lem u e events is (inr (inl (c, i))) =
      pop-Ended u u.algorithm e events c refl i
        (subst (λ k. Pending u.algorithm k u.requests_in_queue) is i.pending)
  pop_lem u e events is (inr (inr i)) =
      pop-Failed u u.algorithm e events refl i
        (subst (λ k. PendingFailing true u.algorithm k u.requests_in_queue) is i.failing)
