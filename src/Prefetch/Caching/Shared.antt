-- ===== src/Prefetch/Caching/Shared.antt =====
-- mountpoint-s3-fs/src/prefetch/caching_stream.rs: a cache that many requests share. The updates that
-- `update_cache` spawns run later, one at a time, in any order between the requests.
use mountpoint_s.Prelude.{ℕ, zero, suc, sym, List, [], ◌∷◌, ◌++◌, Option, none, some}
use mathlib.Core.Path.{subst}
use mountpoint_s.Checksums.{Crc}
use mountpoint_s.DataCache.{DataCache, IsFaithful}
use mountpoint_s.DataCache.Multilevel.{Update}
use mountpoint_s.Prefetch.Part.{ObjectId}
use mountpoint_s.Prefetch.Backpressure.Producer.{Producer}
use mountpoint_s.Prefetch.Range.{RequestRange}
use mountpoint_s.Prefetch.Compose.{Item, Waits}
use mountpoint_s.Prefetch.Compose.Honest.{KeepsTo}
use mountpoint_s.Prefetch.Caching.{Sent, get_from_cache}
use mountpoint_s.Prefetch.Caching.Blocks.{AllBlocks}
use mountpoint_s.Prefetch.Caching.Filling.{Setting}
use mountpoint_s.Prefetch.Caching.Requests.{GoodBlock}
use mountpoint_s.Prefetch.Caching.Lookups.{get_from_cache_lem}

-- One request, with what its client sends and what its waits meet.
pub record Request : Type 0 where
  pub id : ObjectId
  pub client : RequestRange → List Item
  pub initial_end : ℕ
  pub range : RequestRange
  pub producer : Producer
  pub waits : Waits

-- The cache, and the updates that are spawned and have not run.
pub record SharedCache (S : Type 0) : Type 0 where
  pub state : S
  pub spawned : List Update

-- A request runs, or the spawned update of the given number does.
pub data Event : Type 0 where
  request : Request → Event
  run_update : ℕ → Event

unfoldable pub nth : ℕ → List Update → Option (Update × List Update)
nth n [] = none
nth zero (u ∷ us) = some (u, us)
nth (suc n) (u ∷ us) = elim (nth n us) [ none ↦ none | some (v, rest) ↦ some (v, u ∷ rest) ]

module _ {S : Type 0} (data_cache : DataCache S) (crc : Crc) where
  abbrev pub answer : Request → S → Sent × S
  answer r s =
      get_from_cache data_cache crc r.id r.client r.initial_end r.range r.producer r.waits s

  -- A failed update is logged only.
  unfoldable pub happen : Event → SharedCache S → SharedCache S
  happen (request r) c =
      let (sent, state) = answer r c.state in
      record { state = state; spawned = c.spawned ++ sent.updates }
  happen (run_update n) c = elim (nth n c.spawned) [
    | none ↦ c
    | some (u, rest) ↦ record {
      state = (data_cache.put_block c.state u.key u.index u.offset u.bytes u.size).1;
      spawned = rest;
    }
  ]

  unfoldable pub run : List Event → SharedCache S → SharedCache S
  run [] c = c
  run (e ∷ events) c = run events (happen e c)

  module _ (objects : ObjectId → List ℕ) (Keeps : S → Type 0) where
    -- The clients send bytes of the objects, and the ranges lie in them.
    abbrev pub AllHonest : List Event → Type 0
    AllHonest [] = Unit
    AllHonest (run_update n ∷ events) = AllHonest events
    AllHonest (request r ∷ events) =
        KeepsTo crc r.id (objects r.id) r.client
        × Setting crc r.id data_cache.block_size (objects r.id) r.range
        × AllHonest events

    abbrev pub AllGood : List Update → Type 0
    AllGood [] = Unit
    AllGood (u ∷ us) = GoodBlock data_cache crc objects u.key u.index u.bytes × AllGood us

    AllGood-append : (us vs : List Update) → AllGood us → AllGood vs → AllGood (us ++ vs)
    AllGood-append [] vs a b = b
    AllGood-append (u ∷ us) vs a b = (a.0, AllGood-append us vs a.1 b)

    AllBlocks→AllGood :
        (id : ObjectId) (us : List Update)
        → AllBlocks crc id data_cache.block_size (objects id) us
        → AllGood us
    AllBlocks→AllGood id [] b = tt
    AllBlocks→AllGood id (u ∷ us) ((key, _, _, block), b) = (
      subst (λ k. GoodBlock data_cache crc objects k u.index u.bytes) (sym key) block,
      AllBlocks→AllGood id us b,
    )

    -- How taking one of the updates goes.
    abbrev Taken : Option (Update × List Update) → Type 0
    Taken none = Unit
    Taken (some (u, rest)) = GoodBlock data_cache crc objects u.key u.index u.bytes × AllGood rest

    nth-AllGood : (n : ℕ) (us : List Update) → AllGood us → Taken (nth n us)
    unfolding nth
    nth-AllGood n [] g = tt
    nth-AllGood zero (u ∷ us) g = g
    nth-AllGood (suc n) (u ∷ us) g = later (nth n us) (nth-AllGood n us g.1)
      where
        later :
            (x : Option (Update × List Update))
            → Taken x
            → Taken (elim x [ none ↦ none | some (v, rest) ↦ some (v, u ∷ rest) ])
        later none t = tt
        later (some (v, rest)) t = (t.0, (g.0, t.1))

    pub record IsCoherent (c : SharedCache S) : Type 0 where
      pub keeps : Keeps c.state
      pub good : AllGood c.spawned

    happen-IsCoherent :
        (e : Event) (c : SharedCache S)
        → IsFaithful data_cache (GoodBlock data_cache crc objects) Keeps
        → AllHonest (e ∷ [])
        → IsCoherent c
        → IsCoherent (happen e c)
    unfolding happen
    happen-IsCoherent (request r) c f h i =
        let (delivers, blocks, kept) =
          get_from_cache_lem data_cache crc r.id objects Keeps r.client r.initial_end r.range
            r.producer r.waits c.state f h.0 h.1 i.keeps in
        record {
          keeps = kept;
          good = AllGood-append c.spawned _ i.good (AllBlocks→AllGood r.id _ blocks);
        }
    happen-IsCoherent (run_update n) c f h i =
        ran (nth n c.spawned) (nth-AllGood n c.spawned i.good)
      where
        ran :
            (x : Option (Update × List Update))
            → Taken x
            → IsCoherent (elim x as (λ y. SharedCache S) [
              | none ↦ c
              | some (u, rest) ↦ record {
                state = (data_cache.put_block c.state u.key u.index u.offset u.bytes u.size).1;
                spawned = rest;
              }
            ])
        ran none t = i
        ran (some (u, rest)) t = record {
          keeps = (f.put c.state u.key u.index u.offset u.bytes u.size i.keeps t.0).1;
          good = t.1;
        }

    -- For a faithful cache, whatever requests and updates run in any order, with clients that send bytes
    -- of the objects for ranges in them: the cache holds only blocks of the objects, at their places, with
    -- checksums that fit, and so do the updates that have not run.
    pub run-IsCoherent :
        (events : List Event) (c : SharedCache S)
        → IsFaithful data_cache (GoodBlock data_cache crc objects) Keeps
        → AllHonest events
        → IsCoherent c
        → IsCoherent (run events c)
    unfolding run
    run-IsCoherent [] c f h i = i
    run-IsCoherent (request r ∷ events) c f h i =
        run-IsCoherent events (happen (request r) c) f h.2
          (happen-IsCoherent (request r) c f (h.0, h.1, tt) i)
    run-IsCoherent (run_update n ∷ events) c f h i =
        run-IsCoherent events (happen (run_update n) c) f h
          (happen-IsCoherent (run_update n) c f tt i)
