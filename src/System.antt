-- ===== src/System.antt =====
-- The running file system: the FUSE handlers of fuse/server.go, the two methods of filesystem/fs.go
-- that add nodes and the goroutines of inode.go's RefreshMeta, in any order, on the state of
-- FuseRaw and the outside. A step is one whole call. The counters of 64 bits are taken not to wrap.
pub mod Safety
pub mod Visible
use webfs.Base.{ℕ, ◌+◌, ◌<◌, ◌≤◌, ◌^◌, ◌≡◌, Option, none, some, List, [], ◌∷◌, ◌++◌, length}
use webfs.Base.Maps.{Map, Text, load, nat_eq}
use webfs.External.{Env}
use webfs.Inode.{refresh_meta}
use webfs.Node.{FileSystem, set_inode}
use webfs.Fs.{NodeRequest, FileCreateRequest, new_fs, add_dir_node, add_file_node}
use webfs.Fuse
use webfs.Fuse.{
  FuseRaw, Snapshot, DirEntry, EntryOut, new_fuse_raw, lookup, forget, get_attr, open_dir,
  release_dir, open_file, release,
}
use webfs.Fuse.ReadDir.{read_dir, read_dir_plus}

module _ (env : Env) (range : Map Text ℕ → List ℕ) where
  open env use {World}

  -- The goroutine that refreshes the inode `i` has run.
  unfoldable pub run_refresh : ℕ → List ℕ → FileSystem → World → FileSystem × World
  run_refresh i pending s w =
      let (_, n, w') = refresh_meta env (s.inodes i) w in
      (record (set_inode i n s) { pending = pending }, w')

  -- A call of the system
  pub data Step (r : FuseRaw) (w : World) : FuseRaw → World → Type 1 where
    lookup_step :
        (parent_id : ℕ) (name : Text)
        → r.fs.last_node_id + 1 < 2 ^ 64
        → Step r w (lookup parent_id name r).2 w
    forget_step : (id : ℕ) → Step r w (forget id r) w
    get_attr_step : (id : ℕ) → Step r w (get_attr id r).2 w
    open_dir_step : (id : ℕ) → r.next_dir_fh + 1 < 2 ^ 64 → Step r w (open_dir range id r).2 w
    release_dir_step : (fh : ℕ) → Step r w (release_dir fh r) w
    open_step : (id : ℕ) → r.next_file_fh + 1 < 2 ^ 64 → Step r w (open_file id r).2 w
    release_step : (fh : ℕ) → Step r w (release fh r) w
    read_dir_step :
        {O : Type 0} (add : DirEntry → O → Option O) (id fh offset : ℕ) (out : O)
        → Step r w (read_dir add id fh offset out r).2 w
    -- At most one number is given out for each entry of the snapshot.
    read_dir_plus_step :
        {O : Type 0} (add_lookup : DirEntry → O → Option (EntryOut → O)) (id fh offset : ℕ)
        (out : O)
        → ((snapshot : Snapshot)
            → load fh r.open_dirs ≡ some snapshot
            → r.fs.last_node_id + length snapshot < 2 ^ 64)
        → Step r w (read_dir_plus add_lookup id fh offset out r).2 w
    read_step :
        (fh offset size : ℕ)
        → Step r w (Fuse.read env fh offset size r w).1 (Fuse.read env fh offset size r w).2
    add_dir_step :
        (req : NodeRequest)
        → Step r w
            (record r { fs = (add_dir_node env req r.fs w).1 })
            (add_dir_node env req r.fs w).2
    add_file_step :
        (req : FileCreateRequest)
        → Step r w
            (record r { fs = (add_file_node env req r.fs w).1 })
            (add_file_node env req r.fs w).2
    refresh_step :
        (i : ℕ) (before after : List ℕ)
        → r.fs.pending ≡ before ++ i ∷ after
        → Step r w
            (record r { fs = (run_refresh i (before ++ after) r.fs w).0 })
            (run_refresh i (before ++ after) r.fs w).1

  -- The states that NewFuseRaw of NewFS leads to
  pub data Reachable : FuseRaw → World → Type 1 where
    started : (w : World) → Reachable (new_fuse_raw (new_fs env w).0) (new_fs env w).1
    stepped : {r r' : FuseRaw} {w w' : World} → Reachable r w → Step r w r' w' → Reachable r' w'

  -- Calls one after another
  pub data Steps (r : FuseRaw) (w : World) : FuseRaw → World → Type 1 where
    no_step : Steps r w r w
    one_more :
        {r' : FuseRaw} {w' : World} {r'' : FuseRaw} {w'' : World}
        → Steps r w r' w'
        → Step r' w' r'' w''
        → Steps r w r'' w''
