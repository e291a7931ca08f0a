-- ===== src/Inode/Interleaved.antt =====
-- filesystem/inode.go: any number of calls of Inode.Read on one inode at the same time. A step of a
-- reader is the look into the cache, tryOperation as a whole with the slice expression after it, or
-- the store into the cache; the cache's lock is held within its methods only.
pub mod Windows
pub mod Alone
use webfs.Base.{ℕ, suc, zero, Option, none, some, List, replicate}
use webfs.Base.Int.{ℤ, pos, negsuc}
use webfs.Base.Result.{Result, ok, err, panics, no_adapters}
use webfs.External.{Env}
use webfs.Cache
use webfs.Cache.{slice}
use webfs.Pool.{AdapterPool, try_operation}
use webfs.Inode.{Inode, read_operation}
use webfs.Node.{update}

-- What a reader does next, and what it returned
pub data Reader : Type 0 where
  asking : (offset size : ℤ) → Reader
  missed : (offset size : ℤ) → Reader
  fetched : (offset : ℤ) → List ℕ → Reader
  answered : Result (List ℕ) → Reader

looked_up : ℤ → ℤ → Result (Option (List ℕ)) → Reader
looked_up offset size (ok (some cached)) = answered (ok cached)
looked_up offset size (ok none) = missed offset size
looked_up offset size (err e) = answered (err e)
looked_up offset size panics = answered panics

sliced : ℤ → Result (List ℕ) → Reader
sliced offset (ok bytes) = fetched offset bytes
sliced offset (err e) = answered (err e)
sliced offset panics = answered panics

module _ (env : Env) where
  open env use {World}

  look : ℤ → ℤ → Option AdapterPool → Inode → Reader
  unfolding looked_up
  look offset size none n = answered (err no_adapters)
  look offset size (some pool) n = looked_up offset size (Cache.get n.data_cache offset size)

  took : ℤ → Inode → Result (Unit {0}) × AdapterPool × (ℤ × List ℕ) × World → Inode × World × Reader
  unfolding sliced
  took offset n (ok _, pool, (bytes_read, buf), w) =
      (record n { adapter_pool = some pool }, w, sliced offset (slice buf (pos 0) bytes_read))
  took offset n (err e, pool, captured, w) =
      (record n { adapter_pool = some pool }, w, answered (err e))
  took offset n (panics, pool, captured, w) =
      (record n { adapter_pool = some pool }, w, answered panics)

  take_from : ℤ → ℤ → Option AdapterPool → Inode → World → Inode × World × Reader
  unfolding took
  take_from offset size none n w = (n, w, answered (err no_adapters))
  take_from offset (negsuc size) (some pool) n w = (n, w, answered panics)
  take_from offset (pos size) (some pool) n w =
      took offset n
        (try_operation env (read_operation env offset (pos size)) pool (pos 0, replicate size 0) w)

  -- The next step of a reader
  unfoldable pub advance : Inode → World → Reader → Inode × World × Reader
  unfolding look take_from
  advance n w (asking offset size) = (n, w, look offset size n.adapter_pool n)
  advance n w (missed offset size) = take_from offset size n.adapter_pool n w
  advance n w (fetched offset bytes) =
      (record n { data_cache = Cache.store n.data_cache offset bytes }, w, answered (ok bytes))
  advance n w (answered r) = (n, w, answered r)

  pub record Readers : Type 0 where
    pub inode : Inode
    pub world : World
    pub readers : ℕ → Reader

  abbrev pub move : ℕ → Readers → Readers
  move i r =
      let (n, w, c) = advance r.inode r.world (r.readers i) in
      record { inode = n; world = w; readers = update r.readers i c }

  -- Reader i reads at the offset and of the size that `wanted` gives; the readers move in any order.
  pub data Interleaved (wanted : ℕ → ℕ × ℕ) (n : Inode) (w : World) : Readers → Type 0 where
    begun : Interleaved wanted n w (record {
      inode = n;
      world = w;
      readers = λ i. asking (pos (wanted i).0) (pos (wanted i).1);
    })
    moved : (i : ℕ) {r : Readers} → Interleaved wanted n w r → Interleaved wanted n w (move i r)

  -- A reader that is alone takes at most three steps.
  unfoldable pub alone : ℕ → Inode → World → Reader → Inode × World × Reader
  unfolding advance
  alone zero n w c = (n, w, c)
  alone (suc k) n w c = let (n', w', c') = advance n w c in alone k n' w' c'
