-- ===== src/Inode/Reads.antt =====
-- Reads of an inode against the file that its adapters serve.
use webfs.Base.{
  ℕ, ◌+◌, ◌-◌, ◌^◌, ◌≤◌, ◌<◌, ◌≡◌, refl, sym, ap, subst, ◌∙◌, inl, inr, true, Option, none, some,
  List, [], ◌∷◌, length, take, drop, replicate, leb, All, arith, length-take, length-drop,
  length-replicate, take-length-take,
}
use mathlib.Core.Option.{some-injective}
use webfs.Base.Int.{ℤ, pos}
use webfs.Base.Result.{Result, ok, err, panics}
use webfs.External.{Env}
use webfs.Cache
use webfs.Cache.{slice}
use webfs.Cache.Coherence.{window, IsCoherent, Answers, get-coherent, store-IsCoherent}
use webfs.Pool.{AdapterPool, try_operation}
use webfs.Pool.Failover.{refs, members, Among, Succeeded, try_operation-ok, refs-try_operation}
use webfs.Inode.{Inode, read_operation, after_fetch, fetch, after_lookup, read_with, read}

-- Adapter `a` serves the file: a successful read of `size` bytes at `offset`, where the end is an
-- int64, returns the number of
-- bytes of that window, has put them at the front of the buffer, and keeps the buffer's length.
pub record ServesRead (file : List ℕ) (offset size : ℕ) (count : ℤ) (buf buf' : List ℕ)
    : Type 0 where
  pub bytes_read : ℕ
  pub count_eq : count ≡ pos bytes_read
  pub same_length : length buf' ≡ length buf
  pub fits : bytes_read ≤ length buf'
  pub front : take bytes_read buf' ≡ window file offset size

abbrev pub Serves : (env : Env) → List ℕ → ℕ → Type 0
Serves env file a =
    (offset size : ℕ) (buf : List ℕ) (w : env.World)
    → offset + size < 2 ^ 63
    → size ≤ length buf
    → (env.read a (pos offset) (pos size) buf w).1 ≡ ok tt
    → ServesRead file offset size (env.read a (pos offset) (pos size) buf w).0 buf
        (env.read a (pos offset) (pos size) buf w).2

-- A slice is passed by value: whatever an adapter does, the buffer keeps its length.
abbrev pub KeepsBuffer : Env → Type 0
KeepsBuffer env =
    (a : ℕ) (offset size : ℤ) (buf : List ℕ) (w : env.World)
    → length (env.read a offset size buf w).2 ≡ length buf

-- The cache holds bytes of the file, and every adapter of the pool serves the file.
pub record IsServing (env : Env) (file : List ℕ) (n : Inode) : Type 0 where
  pub coherent : All (IsCoherent file) n.data_cache
  pub serving :
      (pool : AdapterPool)
      → n.adapter_pool ≡ some pool
      → All (Serves env file) (refs (members pool))

All-Among {κ} : (P : ℕ → Type κ) (a : ℕ) (l : List ℕ) → All P l → Among a l → P a
All-Among P a [] h m = absurd m
All-Among P a (b ∷ bs) h (inl e) = subst P (sym e) h.0
All-Among P a (b ∷ bs) h (inr m) = All-Among P a bs h.1 m

module _ (env : Env) (file : List ℕ) (keeps : KeepsBuffer env) (offset size : ℕ) where
  open env use {World}

  -- What the closure's variables hold after a successful attempt.
  abbrev pub Filled : ℤ × List ℕ → Type 0
  Filled s = (c : ℕ) × (s.0 ≡ pos c) × (c ≤ length s.1) × (take c s.1 ≡ window file offset size)

  abbrev pub HasRoom : ℤ × List ℕ → Type 0
  HasRoom s = size ≤ length s.1

  attempt_fills :
      (adapters : List ℕ) (s : ℤ × List ℕ) (w : World)
      → offset + size < 2 ^ 63
      → All (Serves env file) adapters
      → Succeeded env (read_operation env (pos offset) (pos size)) HasRoom adapters s w
      → Filled s
  unfolding read_operation
  attempt_fills adapters s w bounded serves (a, s0, w0, among, room, e) =
      let served =
        All-Among (Serves env file) a adapters serves among offset size s0.1 w0 bounded room
          (ap (λ x. x.0) e) in
      subst Filled (ap (λ x. x.1) e) (served.bytes_read, served.count_eq, served.fits, served.front)

  operation_keeps :
      (a : ℕ) (s : ℤ × List ℕ) (w : World)
      → HasRoom s
      → HasRoom (read_operation env (pos offset) (pos size) a s w).1
  unfolding read_operation
  operation_keeps a s w room = omega (arith, keeps a (pos offset) (pos size) s.1 w)

  pub fetched :
      (pool : AdapterPool) (w : World)
      → offset + size < 2 ^ 63
      → All (Serves env file) (refs (members pool))
      → let t =
          try_operation env
            (read_operation env (pos offset) (pos size))
            pool
            (pos 0, replicate size 0)
            w in
        t.0 ≡ ok tt → Filled t.2
  fetched pool w bounded serves h = attempt_fills (refs (members pool)) _ _ bounded serves (
      try_operation-ok env _ HasRoom operation_keeps pool (pos 0, replicate size 0) w
        (omega (arith, length-replicate {A = ℕ} size 0)) h)

  -- What a call of Read may have done: bytes that it returns are the window of the file, and the
  -- inode still serves the file.
  pub record IsCorrect (out : Result (List ℕ) × Inode × World) : Type 0 where
    pub window_eq : (bytes : List ℕ) → out.0 ≡ ok bytes → bytes ≡ window file offset size
    pub serving : IsServing env file out.1

  pub slice_front :
      (buf : List ℕ) (c : ℕ) → c ≤ length buf → slice buf (pos 0) (pos c) ≡ ok (take c buf)
  unfolding slice
  slice_front buf c h =
      let below : leb c (length buf) ≡ true = ground arith in
      let above : leb 0 c ≡ true = ground arith in
      let same : c - 0 ≡ c = omega arith in rw (above, below, same)

  module _ (small : length file < 2 ^ 63) (fits : offset + size < 2 ^ 63) where
    pub window-IsCoherent :
        (dc : Cache.DataCache) (bytes : List ℕ)
        → bytes ≡ window file offset size
        → All (IsCoherent file) dc
        → All (IsCoherent file) (Cache.store dc (pos offset) bytes)
    unfolding Cache.store
    window-IsCoherent dc [] e h = h
    window-IsCoherent dc (b ∷ bs) e h =
        let len : length (b ∷ bs) ≡ length (window file offset size) = ap length e in
        let inside : offset + length (b ∷ bs) ≤ length file =
          omega (arith, length-take size (drop offset file), length-drop offset file) in
        let same : b ∷ bs ≡ window file offset (length (b ∷ bs)) =
          e
          ∙ sym (take-length-take size (drop offset file))
          ∙ ap (λ k. take k (drop offset file)) (sym len) in
        store-IsCoherent file dc offset (b ∷ bs) small inside same h

    -- The pool is the only thing that an attempt changes in the inode.
    pub with_pool :
        (n : Inode) (pool : AdapterPool)
        → IsServing env file n
        → All (Serves env file) (refs (members pool))
        → IsServing env file (record n { adapter_pool = some pool })
    with_pool n pool h serves = record {
      coherent = h.coherent;
      serving = λ p e.
          subst (λ (q : AdapterPool). All (Serves env file) (refs (members q)))
            (some-injective pool p e) serves;
    }

    after_fetch-IsCorrect :
        (n : Inode) (r : Result (Unit {0})) (pool : AdapterPool) (s : ℤ × List ℕ) (w : World)
        → IsServing env file n
        → All (Serves env file) (refs (members pool))
        → (r ≡ ok tt → Filled s)
        → IsCorrect (after_fetch env (pos offset) n (r, pool, s, w))
    unfolding after_fetch
    after_fetch-IsCorrect n (ok u) pool s w h serves filled =
        let (c, count, room, front) = filled refl in
        let cut = slice_front s.1 c room in
        let n' = with_pool n pool h serves in
        rw (count, cut)
          (record {
            window_eq = λ bytes e. cc front;
            serving = record {
              coherent = window-IsCoherent n.data_cache (take c s.1) front h.coherent;
              serving = n'.serving;
            };
          })
    after_fetch-IsCorrect n (err e) pool s w h serves filled = record {
      window_eq = λ bytes x. cc;
      serving = with_pool n pool h serves;
    }
    after_fetch-IsCorrect n panics pool s w h serves filled = record {
      window_eq = λ bytes x. cc;
      serving = with_pool n pool h serves;
    }

    fetch-IsCorrect :
        (pool : AdapterPool) (n : Inode) (w : World)
        → n.adapter_pool ≡ some pool
        → IsServing env file n
        → IsCorrect (fetch env pool (pos offset) (pos size) n w)
    unfolding fetch
    fetch-IsCorrect pool n w e h =
        after_fetch-IsCorrect n _ _ _ _ h
          (subst (All (Serves env file))
            (sym (refs-try_operation env _ pool (pos 0, replicate size 0) w)) (h.serving pool e))
          (fetched pool w fits (h.serving pool e))

    after_lookup-IsCorrect :
        (pool : AdapterPool) (n : Inode) (w : World) (r : Result (Option (List ℕ)))
        → n.adapter_pool ≡ some pool
        → IsServing env file n
        → Answers file offset size r
        → IsCorrect (after_lookup env pool (pos offset) (pos size) n w r)
    unfolding after_lookup
    after_lookup-IsCorrect pool n w r e h (inl miss) =
        rw (miss, after_lookup) (fetch-IsCorrect pool n w e h)
    after_lookup-IsCorrect pool n w r e h (inr (hit, _)) =
        rw (hit, after_lookup) (record { window_eq = λ bytes x. cc; serving = h })

    read_with-IsCorrect :
        (pool : Option AdapterPool) (n : Inode) (w : World)
        → n.adapter_pool ≡ pool
        → IsServing env file n
        → IsCorrect (read_with env pool (pos offset) (pos size) n w)
    unfolding read_with
    read_with-IsCorrect none n w e h = record { window_eq = λ bytes x. cc; serving = h }
    read_with-IsCorrect (some pool) n w e h =
        after_lookup-IsCorrect pool n w _ e h
          (get-coherent file n.data_cache offset size small fits h.coherent)

    -- The file has fewer than 2^63 bytes, the request ends below 2^63, and no adapter changes the
    -- length of a buffer. On an inode whose cache and adapters stand for the file, Read then
    -- returns no bytes but those of the file in the requested window, from the cache or from an
    -- adapter, and leaves an inode that stands for the file.
    pub read-IsCorrect :
        (n : Inode) (w : World)
        → IsServing env file n
        → IsCorrect (read env (pos offset) (pos size) n w)
    unfolding read
    read-IsCorrect n w h = read_with-IsCorrect n.adapter_pool n w refl h
