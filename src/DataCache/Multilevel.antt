-- ===== src/DataCache/Multilevel.antt =====
-- mountpoint-s3-fs/src/data_cache/multilevel_cache.rs: `MultilevelDataCache`, over any two caches.
--
-- A block that is found in the express cache only is put into the disk cache by a future that is spawned:
-- it waits in `pending` until `run_pending` runs it. The warnings and the traces are left out.
use mountpoint_s.Prelude.{
  ℕ, List, [], ◌∷◌, ◌++◌, Option, some, none, Outcome, ok, err, panic, ◌==◌, if◌then◌else◌,
}
use mountpoint_s.Checksums.{ChecksummedBytes}
use mountpoint_s.Prefetch.Part.{ObjectId}
use mountpoint_s.DataCache.{DataCache, DataCacheError, IsFaithful, Answers, Stores}

pub record Update : Type 0 where
  pub key : ObjectId
  pub index : ℕ
  pub offset : ℕ
  pub bytes : ChecksummedBytes
  pub size : ℕ

pub record Multilevel (D E : Type 0) : Type 0 where
  pub disk_cache : D
  pub express_cache : E
  pub pending : List Update

module _ {D E : Type 0} (disk : DataCache D) (express : DataCache E) where
  -- `none` is the panic of the assertion.
  unfoldable pub new : D → E → Option (Multilevel D E)
  new d e =
      if disk.block_size == express.block_size
      then some (record { disk_cache = d; express_cache = e; pending = [] })
      else none

  -- What the express cache answers, and the state after it.
  unfoldable pub from_express :
      Multilevel D E
      → ObjectId
      → ℕ
      → ℕ
      → ℕ
      → Outcome DataCacheError (Option ChecksummedBytes) × E
      → Outcome DataCacheError (Option ChecksummedBytes) × Multilevel D E
  from_express c key index offset size (ok (some bytes), e) = (
    ok (some bytes),
    record c {
      express_cache = e;
      pending =
          c.pending
          ++ (record { key = key; index = index; offset = offset; bytes = bytes; size = size }
              ∷ []);
    },
  )
  from_express c key index offset size (ok none, e) = (ok none, record c { express_cache = e })
  from_express c key index offset size (err x, e) = (err x, record c { express_cache = e })
  from_express c key index offset size (panic, e) = (panic, record c { express_cache = e })

  unfoldable pub after_disk :
      Multilevel D E
      → ObjectId
      → ℕ
      → ℕ
      → ℕ
      → Outcome DataCacheError (Option ChecksummedBytes) × D
      → Outcome DataCacheError (Option ChecksummedBytes) × Multilevel D E
  after_disk c key index offset size (ok (some bytes), d) =
      (ok (some bytes), record c { disk_cache = d })
  after_disk c key index offset size (panic, d) = (panic, record c { disk_cache = d })
  after_disk c key index offset size (ok none, d) =
      from_express (record c { disk_cache = d }) key index offset size
        (express.get_block c.express_cache key index offset size)
  after_disk c key index offset size (err x, d) =
      from_express (record c { disk_cache = d }) key index offset size
        (express.get_block c.express_cache key index offset size)

  unfoldable pub get_block :
      Multilevel D E
      → ObjectId
      → ℕ
      → ℕ
      → ℕ
      → Outcome DataCacheError (Option ChecksummedBytes) × Multilevel D E
  get_block c key index offset size =
      after_disk c key index offset size (disk.get_block c.disk_cache key index offset size)

  -- An error of the disk cache is logged only.
  unfoldable pub put_express :
      Multilevel D E
      → ObjectId
      → ℕ
      → ℕ
      → ChecksummedBytes
      → ℕ
      → Outcome DataCacheError (Unit {0}) × D
      → Outcome DataCacheError (Unit {0}) × Multilevel D E
  put_express c key index offset bytes size (panic, d) = (panic, record c { disk_cache = d })
  put_express c key index offset bytes size (ok u, d) =
      let (result, e) = express.put_block c.express_cache key index offset bytes size in
      (result, record c { disk_cache = d; express_cache = e })
  put_express c key index offset bytes size (err x, d) =
      let (result, e) = express.put_block c.express_cache key index offset bytes size in
      (result, record c { disk_cache = d; express_cache = e })

  unfoldable pub put_block :
      Multilevel D E
      → ObjectId
      → ℕ
      → ℕ
      → ChecksummedBytes
      → ℕ
      → Outcome DataCacheError (Unit {0}) × Multilevel D E
  put_block c key index offset bytes size =
      put_express c key index offset bytes size
        (disk.put_block c.disk_cache key index offset bytes size)

  abbrev pub multilevel : DataCache (Multilevel D E)
  multilevel = record { get_block = get_block; put_block = put_block; block_size = disk.block_size }

  -- The first of the spawned updates of the disk cache.
  unfoldable pub run_first : Multilevel D E → List Update → Multilevel D E
  run_first c [] = c
  run_first c (u ∷ pending) = record c {
    disk_cache = (disk.put_block c.disk_cache u.key u.index u.offset u.bytes u.size).1;
    pending = pending;
  }

  unfoldable pub run_pending : Multilevel D E → Multilevel D E
  run_pending c = run_first c c.pending

  module _ (Good : ObjectId → ℕ → ChecksummedBytes → Type 0) (KeepsD : D → Type 0)
      (KeepsE : E → Type 0) where
    abbrev pub AllGood : List Update → Type 0
    AllGood [] = Unit
    AllGood (u ∷ pending) = Good u.key u.index u.bytes × AllGood pending

    AllGood-append :
        (us : List Update) (u : Update)
        → AllGood us
        → Good u.key u.index u.bytes
        → AllGood (us ++ (u ∷ []))
    AllGood-append [] u g h = (h, tt)
    AllGood-append (v ∷ us) u g h = (g.0, AllGood-append us u g.1 h)

    pub record Keeps (c : Multilevel D E) : Type 0 where
      pub disk_keeps : KeepsD c.disk_cache
      pub express_keeps : KeepsE c.express_cache
      pub pending_good : AllGood c.pending

    from_express-Answers :
        (c : Multilevel D E) (key : ObjectId) (index offset size : ℕ)
        (x : Outcome DataCacheError (Option ChecksummedBytes) × E)
        → Keeps c
        → Answers Good key index x.0
        → KeepsE x.1
        → Answers Good key index (from_express c key index offset size x).0
          × Keeps (from_express c key index offset size x).1
    unfolding from_express
    from_express-Answers c key index offset size (ok (some bytes), e) k a ke = (
      a,
      record {
        disk_keeps = k.disk_keeps;
        express_keeps = ke;
        pending_good = AllGood-append c.pending _ k.pending_good a;
      },
    )
    from_express-Answers c key index offset size (ok none, e) k a ke = (
      tt,
      record { disk_keeps = k.disk_keeps; express_keeps = ke; pending_good = k.pending_good },
    )
    from_express-Answers c key index offset size (err x, e) k a ke = (
      tt,
      record { disk_keeps = k.disk_keeps; express_keeps = ke; pending_good = k.pending_good },
    )
    from_express-Answers c key index offset size (panic, e) k a ke = absurd a

    after_disk-Answers :
        (c : Multilevel D E) (key : ObjectId) (index offset size : ℕ)
        (x : Outcome DataCacheError (Option ChecksummedBytes) × D)
        → IsFaithful express Good KeepsE
        → Keeps c
        → Answers Good key index x.0
        → KeepsD x.1
        → Answers Good key index (after_disk c key index offset size x).0
          × Keeps (after_disk c key index offset size x).1
    unfolding after_disk
    after_disk-Answers c key index offset size (ok (some bytes), d) fe k a kd = (
      a,
      record { disk_keeps = kd; express_keeps = k.express_keeps; pending_good = k.pending_good },
    )
    after_disk-Answers c key index offset size (panic, d) fe k a kd = absurd a
    after_disk-Answers c key index offset size (ok none, d) fe k a kd =
        let (b, ke) = fe.get c.express_cache key index offset size k.express_keeps in
        from_express-Answers (record c { disk_cache = d }) key index offset size
          (express.get_block c.express_cache key index offset size)
          (record {
            disk_keeps = kd;
            express_keeps = k.express_keeps;
            pending_good = k.pending_good;
          })
          b ke
    after_disk-Answers c key index offset size (err x, d) fe k a kd =
        let (b, ke) = fe.get c.express_cache key index offset size k.express_keeps in
        from_express-Answers (record c { disk_cache = d }) key index offset size
          (express.get_block c.express_cache key index offset size)
          (record {
            disk_keeps = kd;
            express_keeps = k.express_keeps;
            pending_good = k.pending_good;
          })
          b ke

    put_express-Stores :
        (c : Multilevel D E) (key : ObjectId) (index offset : ℕ) (bytes : ChecksummedBytes)
        (size : ℕ) (x : Outcome DataCacheError (Unit {0}) × D)
        → IsFaithful express Good KeepsE
        → Keeps c
        → Good key index bytes
        → Stores x.0
        → KeepsD x.1
        → Stores (put_express c key index offset bytes size x).0
          × Keeps (put_express c key index offset bytes size x).1
    unfolding put_express
    put_express-Stores c key index offset bytes size (panic, d) fe k g a kd = absurd a
    put_express-Stores c key index offset bytes size (ok u, d) fe k g a kd =
        let (b, ke) = fe.put c.express_cache key index offset bytes size k.express_keeps g in
        (b, record { disk_keeps = kd; express_keeps = ke; pending_good = k.pending_good })
    put_express-Stores c key index offset bytes size (err e, d) fe k g a kd =
        let (b, ke) = fe.put c.express_cache key index offset bytes size k.express_keeps g in
        (b, record { disk_keeps = kd; express_keeps = ke; pending_good = k.pending_good })

    -- Over two caches that give back good blocks only, the multilevel cache gives back good blocks only, as
    -- long as good blocks only are put into it; it does not panic, and the updates that it leaves pending
    -- are good blocks too.
    pub multilevel-IsFaithful :
        IsFaithful disk Good KeepsD
        → IsFaithful express Good KeepsE
        → IsFaithful multilevel Good Keeps
    unfolding get_block put_block
    multilevel-IsFaithful fd fe = record {
      get = λ c key index offset size k.
          let (a, kd) = fd.get c.disk_cache key index offset size k.disk_keeps in
          after_disk-Answers c key index offset size
            (disk.get_block c.disk_cache key index offset size) fe k a kd;
      put = λ c key index offset bytes size k g.
          let (a, kd) = fd.put c.disk_cache key index offset bytes size k.disk_keeps g in
          put_express-Stores c key index offset bytes size
            (disk.put_block c.disk_cache key index offset bytes size) fe k g a kd;
    }

    -- Running the first of the pending updates keeps that.
    pub run_pending-Keeps :
        (c : Multilevel D E) → IsFaithful disk Good KeepsD → Keeps c → Keeps (run_pending c)
    unfolding run_pending run_first
    run_pending-Keeps c fd k = kept c.pending k.pending_good
      where
        kept : (us : List Update) → AllGood us → Keeps (run_first c us)
        kept [] g = k
        kept (u ∷ us) g = record {
          disk_keeps =
              (fd.put c.disk_cache u.key u.index u.offset u.bytes u.size k.disk_keeps g.0).1;
          express_keeps = k.express_keeps;
          pending_good = g.1;
        }
