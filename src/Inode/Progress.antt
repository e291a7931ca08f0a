-- ===== src/Inode/Progress.antt =====
-- Reads that are sure to succeed: with a working adapter, and from the cache.
use mathlib.Core.Option.{some-injective}
use webfs.Base.{
  ℕ, ◌+◌, ◌^◌, ◌<◌, ◌≡◌, ◌≢◌, refl, sym, ap, subst, ◌∙◌, inl, inr, Option, none, some, List, length,
  take, drop, replicate, length-replicate, arith, take_all,
}
use webfs.Base.Int.{ℤ, pos}
use webfs.Base.Result.{Result, ok, err, panics}
use webfs.External.{Env}
use webfs.Cache
use webfs.Cache.{slice}
use webfs.Cache.Coherence.{window, Answers, get-coherent}
use webfs.Cache.Behaviour.{is_cached-get, get-store_part}
use webfs.Pool.{AdapterPool}
use webfs.Pool.Failover.{members}
use webfs.Pool.Availability.{HasHealthy, try_operation_known}
use webfs.Inode.{
  Inode, read_operation, keep_read, after_fetch, fetch, after_lookup, read_with, read,
}
use webfs.Inode.Reads.{KeepsBuffer, IsServing, Filled, slice_front, fetched}

module _ (env : Env) (file : List ℕ) (keeps : KeepsBuffer env) (offset size : ℕ) where
  open env use {World}

  after_fetch_ok :
      (n : Inode) (r : Result (Unit {0})) (pool : AdapterPool) (s : ℤ × List ℕ) (w : World)
      → r ≡ ok tt
      → Filled env file keeps offset size s
      → (after_fetch env (pos offset) n (r, pool, s, w)).0 ≡ ok (window file offset size)
  unfolding after_fetch
  after_fetch_ok n (ok u) pool s w e (c, count, room, front) =
      rw (count, slice_front env file keeps offset size s.1 c room, keep_read, front)
  after_fetch_ok n (err x) pool s w e filled = cc
  after_fetch_ok n panics pool s w e filled = cc

  module _ (small : length file < 2 ^ 63) (fits : offset + size < 2 ^ 63)
      (going : (w : World) → env.ctx_err w ≡ none)
      (calm : (a : ℕ) (buf : List ℕ) (w : World)
        → length buf ≡ size
        → (env.read a (pos offset) (pos size) buf w).1 ≢ panics)
      (good : ℕ)
      (works : (buf : List ℕ) (w : World)
        → length buf ≡ size
        → (env.read good (pos offset) (pos size) buf w).1 ≡ ok tt) where
    fetch_available :
        (pool : AdapterPool) (n : Inode) (w : World)
        → n.adapter_pool ≡ some pool
        → IsServing env file n
        → HasHealthy good (members pool)
        → (fetch env pool (pos offset) (pos size) n w).0 ≡ ok (window file offset size)
    unfolding fetch read_operation
    fetch_available pool n w e h healthy =
        let success =
          try_operation_known env (read_operation env (pos offset) (pos size)) going
            (λ s. length s.1 ≡ size)
            (λ a s w' known. keeps a (pos offset) (pos size) s.1 w' ∙ known)
            (λ a s w' known. calm a s.1 w' known) good (λ s w' known. works s.1 w' known) pool
            (pos 0, replicate size 0) w (length-replicate size 0) healthy in
        after_fetch_ok n _ _ _ _ success
          (fetched env file keeps offset size pool w fits (h.serving pool e) success)

    after_lookup_available :
        (pool : AdapterPool) (n : Inode) (w : World) (r : Result (Option (List ℕ)))
        → n.adapter_pool ≡ some pool
        → IsServing env file n
        → HasHealthy good (members pool)
        → Answers file offset size r
        → (after_lookup env pool (pos offset) (pos size) n w r).0 ≡ ok (window file offset size)
    unfolding after_lookup
    after_lookup_available pool n w r e h healthy (inl miss) =
        rw (miss, after_lookup) (fetch_available pool n w e h healthy)
    after_lookup_available pool n w r e h healthy (inr (hit, _)) = rw (hit, after_lookup)

    read_with_available :
        (o : Option AdapterPool) (pool : AdapterPool) (n : Inode) (w : World)
        → n.adapter_pool ≡ o
        → o ≡ some pool
        → IsServing env file n
        → HasHealthy good (members pool)
        → (read_with env o (pos offset) (pos size) n w).0 ≡ ok (window file offset size)
    unfolding read_with
    read_with_available none pool n w e o h healthy = cc
    read_with_available (some p) pool n w e o h healthy =
        let healthy' : HasHealthy good (members p) =
          subst (λ (q : AdapterPool). HasHealthy good (members q)) (sym (some-injective p pool o))
            healthy in
        after_lookup_available p n w _ e h healthy'
          (get-coherent file n.data_cache offset size small fits h.coherent)

    -- The file has fewer than 2^63 bytes, the request ends below 2^63, no adapter changes the
    -- length of a buffer, and the inode's cache and adapters stand for the file. If the context is
    -- never done, no adapter panics on this request and a healthy member of the pool succeeds on
    -- it in every world, each with any buffer of the requested size, then Read returns exactly the
    -- requested window of the file, whichever members fail before it.
    pub read_available :
        (pool : AdapterPool) (n : Inode) (w : World)
        → n.adapter_pool ≡ some pool
        → IsServing env file n
        → HasHealthy good (members pool)
        → (read env (pos offset) (pos size) n w).0 ≡ ok (window file offset size)
    unfolding read
    read_available pool n w e h healthy =
        read_with_available n.adapter_pool pool n w refl e h healthy

module _ (env : Env) (offset size : ℕ) (bytes : List ℕ) (full : length bytes ≡ size)
    (some_bytes : 0 < size) (fits : offset + size < 2 ^ 63) where
  open env use {World}

  -- The inode answers the request from its cache.
  abbrev IsHit : Inode → Type 0
  IsHit n =
      (Cache.get n.data_cache (pos offset) (pos size) ≡ ok (some bytes))
      × ((pool : AdapterPool) × (n.adapter_pool ≡ some pool))

  get-store_self :
      (dc : Cache.DataCache)
      → Cache.get dc (pos offset) (pos size) ≡ ok none
      → Cache.get (Cache.store dc (pos offset) bytes) (pos offset) (pos size) ≡ ok (some bytes)
  get-store_self dc miss =
      let here : offset + 0 ≡ offset = omega arith in
      let uncached = (is_cached-get dc (pos offset) (pos size)).1 miss in
      let found =
        get-store_part dc offset bytes 0 size (rw here uncached) (omega (arith, full))
          (omega (arith, full)) (omega (arith, full)) in
      let whole : take size (drop 0 bytes) ≡ bytes = take_all size bytes (omega (arith, full)) in
      rw here at found ∙ ap (λ b. ok (some b)) whole

  keep_read-IsHit :
      (n n1 : Inode) (pool : AdapterPool) (r : Result (List ℕ))
      → n.adapter_pool ≡ some pool
      → Cache.get n.data_cache (pos offset) (pos size) ≡ ok none
      → keep_read env (pos offset) n r ≡ (ok bytes, n1)
      → IsHit n1
  unfolding keep_read
  keep_read-IsHit n n1 pool (ok b) e miss h =
      let same : b ≡ bytes = cc (ap (λ x. x.0) h) in
      subst IsHit (ap (λ x. x.1) h) (rw same (get-store_self n.data_cache miss), (pool, e))
  keep_read-IsHit n n1 pool (err x) e miss h = cc (ap (λ y. y.0) h)
  keep_read-IsHit n n1 pool panics e miss h = cc (ap (λ y. y.0) h)

  after_fetch-IsHit :
      (n n1 : Inode) (r : Result (Unit {0})) (pool : AdapterPool) (s : ℤ × List ℕ) (w w1 : World)
      → Cache.get n.data_cache (pos offset) (pos size) ≡ ok none
      → after_fetch env (pos offset) n (r, pool, s, w) ≡ (ok bytes, n1, w1)
      → IsHit n1
  unfolding after_fetch
  after_fetch-IsHit n n1 (ok u) pool s w w1 miss h =
      keep_read-IsHit (record n { adapter_pool = some pool }) n1 pool (slice s.1 (pos 0) s.0) refl
        miss (ap (λ x. (x.0, x.1)) h)
  after_fetch-IsHit n n1 (err e) pool s w w1 miss h = cc (ap (λ x. x.0) h)
  after_fetch-IsHit n n1 panics pool s w w1 miss h = cc (ap (λ x. x.0) h)

  after_lookup-IsHit :
      (pool : AdapterPool) (n n1 : Inode) (w w1 : World) (r : Result (Option (List ℕ)))
      → n.adapter_pool ≡ some pool
      → Cache.get n.data_cache (pos offset) (pos size) ≡ r
      → after_lookup env pool (pos offset) (pos size) n w r ≡ (ok bytes, n1, w1)
      → IsHit n1
  unfolding after_lookup fetch
  after_lookup-IsHit pool n n1 w w1 (ok (some b)) e found h =
      let same : b ≡ bytes = cc (ap (λ x. x.0) h) in
      subst IsHit (ap (λ x. x.1) h) (found ∙ ap (λ x. ok (some x)) same, (pool, e))
  after_lookup-IsHit pool n n1 w w1 (ok none) e miss h = after_fetch-IsHit n n1 _ _ _ _ w1 miss h
  after_lookup-IsHit pool n n1 w w1 (err x) e found h = cc (ap (λ y. y.0) h)
  after_lookup-IsHit pool n n1 w w1 panics e found h = cc (ap (λ y. y.0) h)

  read_with-IsHit :
      (o : Option AdapterPool) (n n1 : Inode) (w w1 : World)
      → n.adapter_pool ≡ o
      → read_with env o (pos offset) (pos size) n w ≡ (ok bytes, n1, w1)
      → IsHit n1
  unfolding read_with
  read_with-IsHit none n n1 w w1 e h = cc (ap (λ x. x.0) h)
  read_with-IsHit (some pool) n n1 w w1 e h = after_lookup-IsHit pool n n1 w w1 _ e refl h

  -- For a request of at least one byte that ends below 2^63: once a read has returned as many
  -- bytes as were asked for, the same read returns the same bytes from the cache in every later
  -- world, also when all adapters fail by then: no adapter is called, and neither the inode nor
  -- the world changes.
  pub read_again :
      (n n1 : Inode) (w w1 later : World)
      → read env (pos offset) (pos size) n w ≡ (ok bytes, n1, w1)
      → read env (pos offset) (pos size) n1 later ≡ (ok bytes, n1, later)
  unfolding read
  read_again n n1 w w1 later h =
      let (hit, (pool, e)) = read_with-IsHit n.adapter_pool n n1 w w1 refl h in
      subst (λ o. read_with env o (pos offset) (pos size) n1 later ≡ (ok bytes, n1, later)) (sym e)
        (unfold read_with after_lookup in
          ap (after_lookup env pool (pos offset) (pos size) n1 later) hit)
