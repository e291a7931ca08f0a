-- ===== src/Inode.antt =====
-- filesystem/inode.go: Inode, its links, its attributes, and reads through the cache and the
-- adapter pool. Nodes are addresses in the store of webfs.Node. Read holds no lock of the inode
-- between its look into the cache and its write to it; here it runs without another call between.
pub mod Reads
pub mod Interleaved
pub mod Progress
pub mod Attributes
pub mod Refresh
use webfs.Base.{
  ℕ, ◌+◌, ◌%◌, ◌^◌, Option, none, some, List, [], ◌∷◌, ◌++◌, Bool, replicate, if◌then◌else◌,
}
use webfs.Base.Int.{ℤ, pos, negsuc}
use webfs.Base.Result.{Result, Error, ok, err, panics, no_adapters}
use webfs.External.{Env, Attr, FileMetadata, background}
use webfs.Cache
use webfs.Cache.{DataCache, CachedRange, slice}
use webfs.Pool.{AdapterPool, new_adapter_pool, try_operation}

pub record Inode : Type 0 where
  pub attr : Attr
  pub adapter_pool : Option AdapterPool
  pub h_links : List ℕ
  pub s_links : List ℕ
  pub data_cache : DataCache

-- NewInode
unfoldable pub new_inode : Attr → List ℕ → Inode
new_inode attr adapters = record {
  attr = attr;
  adapter_pool = new_adapter_pool adapters;
  h_links = [];
  s_links = [];
  data_cache = Cache.empty;
}

-- AddHardLink with addHardLinkLocked; Nlink is a uint32
unfoldable pub add_hard_link : ℕ → Inode → Inode
add_hard_link node n = record n {
  h_links = n.h_links ++ node ∷ [];
  attr = record n.attr { nlink = (n.attr.nlink + 1) % 2 ^ 32 };
}

abbrev pub copy_attr : Inode → Attr
copy_attr n = n.attr

-- IsCached, GetCachedRanges, ClearCache
unfoldable pub is_cached : Inode → ℤ → ℤ → Bool
is_cached n offset size = Cache.is_cached n.data_cache offset size

unfoldable pub get_cached_ranges : Inode → List CachedRange
get_cached_ranges n = Cache.get_ranges n.data_cache

unfoldable pub clear_cache : Inode → Inode
unfolding Cache.clear
clear_cache n = record n { data_cache = Cache.clear n.data_cache }

module _ (env : Env) where
  open env use {World}

  -- The closure in Read: it writes bytesRead and the bytes of buf.
  unfoldable pub read_operation :
      ℤ → ℤ → ℕ → ℤ × List ℕ → World → Result (Unit {0}) × (ℤ × List ℕ) × World
  read_operation offset size a (bytes_read, buf) w =
      let (n, r, buf', w') = env.read a offset size buf w in (r, (n, buf'), w')

  -- The end of Read: `buf[:bytesRead]` is stored and returned.
  unfoldable pub keep_read : ℤ → Inode → Result (List ℕ) → Result (List ℕ) × Inode
  keep_read offset n (ok bytes) =
      (ok bytes, record n { data_cache = Cache.store n.data_cache offset bytes })
  keep_read offset n (err e) = (err e, n)
  keep_read offset n panics = (panics, n)

  unfoldable pub after_fetch :
      ℤ
      → Inode
      → Result (Unit {0}) × AdapterPool × (ℤ × List ℕ) × World
      → Result (List ℕ) × Inode × World
  unfolding keep_read
  after_fetch offset n (ok _, pool, (bytes_read, buf), w) =
      let n' = record n { adapter_pool = some pool } in
      let (r, n'') = keep_read offset n' (slice buf (pos 0) bytes_read) in (r, n'', w)
  after_fetch offset n (err e, pool, captured, w) =
      (err e, record n { adapter_pool = some pool }, w)
  after_fetch offset n (panics, pool, captured, w) =
      (panics, record n { adapter_pool = some pool }, w)

  -- The cache miss in Read. `make([]byte, size)` panics at a negative size.
  unfoldable pub fetch : AdapterPool → ℤ → ℤ → Inode → World → Result (List ℕ) × Inode × World
  unfolding after_fetch
  fetch pool offset (negsuc size) n w = (panics, n, w)
  fetch pool offset (pos size) n w =
      after_fetch offset n
        (try_operation env (read_operation offset (pos size)) pool (pos 0, replicate size 0) w)

  unfoldable pub after_lookup :
      AdapterPool
      → ℤ
      → ℤ
      → Inode
      → World
      → Result (Option (List ℕ))
      → Result (List ℕ) × Inode × World
  unfolding fetch
  after_lookup pool offset size n w (ok (some cached)) = (ok cached, n, w)
  after_lookup pool offset size n w (ok none) = fetch pool offset size n w
  after_lookup pool offset size n w (err e) = (err e, n, w)
  after_lookup pool offset size n w panics = (panics, n, w)

  read_with : Option AdapterPool → ℤ → ℤ → Inode → World → Result (List ℕ) × Inode × World
  unfolding after_lookup
  read_with none offset size n w = (err no_adapters, n, w)
  read_with (some pool) offset size n w =
      after_lookup pool offset size n w (Cache.get n.data_cache offset size)

  -- Inode.Read
  unfoldable pub read : ℤ → ℤ → Inode → World → Result (List ℕ) × Inode × World
  unfolding read_with
  read offset size n w = read_with n.adapter_pool offset size n w

  -- The closure in RefreshMeta: size and modification time of the attributes.
  unfoldable pub set_meta : FileMetadata → Attr → Attr
  set_meta meta attr = env.set_times none meta.last_modified none (record attr { size = meta.size })

  after_meta : Attr → Result FileMetadata × World → Result (Unit {0}) × Attr × World
  unfolding set_meta
  after_meta attr (ok meta, w) = (ok tt, set_meta meta attr, w)
  after_meta attr (err e, w) = (err e, attr, w)
  after_meta attr (panics, w) = (panics, attr, w)

  unfoldable pub meta_operation : ℕ → Attr → World → Result (Unit {0}) × Attr × World
  unfolding after_meta
  meta_operation a attr w = after_meta attr (env.get_meta a w)

  -- The goroutine that RefreshMeta starts, when it runs, with its own context; the error is only
  -- logged.
  unfoldable pub refresh_meta_with :
      Option AdapterPool → Inode → World → Result (Unit {0}) × Inode × World
  refresh_meta_with none n w = (ok tt, n, w)
  refresh_meta_with (some pool) n w =
      let (r, pool', attr, w') = try_operation (background env) meta_operation pool n.attr w in
      (r, record n { attr = attr; adapter_pool = some pool' }, w')

  unfoldable pub refresh_meta : Inode → World → Result (Unit {0}) × Inode × World
  unfolding refresh_meta_with
  refresh_meta n w = refresh_meta_with n.adapter_pool n w
