-- ===== src/Fuse/ReadDir.antt =====
-- fuse/server.go, ReadDir and ReadDirPlus. The FUSE library's buffer of directory entries is the
-- type `O` with the operation that adds an entry or reports that the buffer is full.
pub mod Listed
pub mod ListedPlus
pub mod Pages
use webfs.Base.{ℕ, Option, none, some, [], ◌∷◌, ◌++◌, length, take, drop, leb, if◌then◌else◌}
use webfs.Base.Maps.{load, store, nat_eq}
use webfs.Node.{FileSystem, name_of, is_deleted, inode_of}
use webfs.Session.{NodeContext, close, closed, get_node_ctx, ensure_node_id}
use webfs.Fuse.{
  Status, status_ok, enoent, default_attr_timeout, default_entry_timeout, EntryOut, DirEntry,
  Snapshot, FuseRaw,
}

-- The entry that both directory readers write for a node.
unfoldable pub entry_of : FileSystem → ℕ → DirEntry
entry_of s p =
    let attr = (inode_of s p).attr in
    record { name = name_of s p; mode = attr.mode; ino = attr.ino }

module _ {O : Type 0} (add : DirEntry → O → Option O) where
  unfoldable pub after_add : ℕ → Snapshot → O → Option O → (O → Snapshot × O) → Snapshot × O
  after_add p rest out none go = (some p ∷ rest, out)
  after_add p rest out (some out') go = let (rest', out2) = go out' in (some p ∷ rest', out2)

  -- The loop of ReadDir: nil entries are skipped, deleted nodes become nil, and the loop stops at
  -- the first entry that the buffer refuses. It writes into the stored snapshot.
  unfoldable pub list_entries : FileSystem → Snapshot → O → Snapshot × O
  unfolding after_add
  list_entries s [] out = ([], out)
  list_entries s (none ∷ rest) out =
      let (rest', out') = list_entries s rest out in (none ∷ rest', out')
  list_entries s (some p ∷ rest) out =
      if is_deleted s p
      then (let (rest', out') = list_entries s rest out in (none ∷ rest', out'))
      else after_add p rest out (add (entry_of s p) out) (list_entries s rest)

  list_from : ℕ → ℕ → Option Snapshot → O → FuseRaw → Status × O × FuseRaw
  list_from fh offset none out r = (enoent, out, r)
  list_from fh offset (some children) out r =
      if leb (length children) offset
      then (status_ok, out, r)
      else let (rest, out') = list_entries r.fs (drop offset children) out in
        (
          status_ok,
          out',
          record r { open_dirs = store fh (take offset children ++ rest) r.open_dirs },
        )

  read_dir_found : ℕ → ℕ → Option NodeContext × FileSystem → O → FuseRaw → Status × O × FuseRaw
  unfolding list_from
  read_dir_found fh offset (none, s) out r = (enoent, out, record r { fs = closed none s })
  read_dir_found fh offset (some ctx, s) out r =
      let (status, out', r') =
        list_from fh offset (load fh r.open_dirs) out (record r { fs = s }) in
      (status, out', record r' { fs = closed (some ctx) r'.fs })

  -- ReadDir
  unfoldable pub read_dir : ℕ → ℕ → ℕ → O → FuseRaw → Status × O × FuseRaw
  unfolding read_dir_found close
  read_dir id fh offset out r = read_dir_found fh offset (get_node_ctx id r.fs) out r

-- What ReadDirPlus fills in for a node that has the NodeID `id`.
unfoldable pub entry_out_of : ℕ → FileSystem → ℕ → EntryOut
entry_out_of id s p = record {
  node_id = id;
  generation = 0;
  attr = (inode_of s p).attr;
  entry_timeout = default_entry_timeout;
  attr_timeout = default_attr_timeout;
}

-- The buffer's other operation adds an entry and then has its EntryOut filled in.
module _ {O : Type 0} (add_lookup : DirEntry → O → Option (EntryOut → O)) where
  abbrev pub Listed : Type 0
  Listed = Snapshot × O × FileSystem

  after_lookup_entry :
      ℕ → Snapshot → O → FileSystem → Option (EntryOut → O) → (O → FileSystem → Listed) → Listed
  unfolding entry_out_of
  after_lookup_entry p rest out s none go = (some p ∷ rest, out, s)
  after_lookup_entry p rest out s (some fill) go =
      let (id, s1) = ensure_node_id p s in
      let (rest', out', s2) = go (fill (entry_out_of id s p)) s1 in (some p ∷ rest', out', s2)

  -- The loop of ReadDirPlus
  unfoldable pub list_entries_plus : Snapshot → O → FileSystem → Listed
  unfolding after_lookup_entry
  list_entries_plus [] out s = ([], out, s)
  list_entries_plus (none ∷ rest) out s =
      let (rest', out', s') = list_entries_plus rest out s in (none ∷ rest', out', s')
  list_entries_plus (some p ∷ rest) out s =
      if is_deleted s p
      then (let (rest', out', s') = list_entries_plus rest out s in (none ∷ rest', out', s'))
      else after_lookup_entry p rest out s (add_lookup (entry_of s p) out) (list_entries_plus rest)

  plus_from : ℕ → ℕ → Option Snapshot → O → FuseRaw → Status × O × FuseRaw
  plus_from fh offset none out r = (enoent, out, r)
  plus_from fh offset (some children) out r =
      if leb (length children) offset
      then (status_ok, out, r)
      else let (rest, out', s) = list_entries_plus (drop offset children) out r.fs in
        (
          status_ok,
          out',
          record r { fs = s; open_dirs = store fh (take offset children ++ rest) r.open_dirs },
        )

  plus_found : ℕ → ℕ → Option NodeContext × FileSystem → O → FuseRaw → Status × O × FuseRaw
  unfolding plus_from
  plus_found fh offset (none, s) out r = (enoent, out, record r { fs = closed none s })
  plus_found fh offset (some ctx, s) out r =
      let (status, out', r') =
        plus_from fh offset (load fh r.open_dirs) out (record r { fs = s }) in
      (status, out', record r' { fs = closed (some ctx) r'.fs })

  -- ReadDirPlus
  unfoldable pub read_dir_plus : ℕ → ℕ → ℕ → O → FuseRaw → Status × O × FuseRaw
  unfolding plus_found close
  read_dir_plus id fh offset out r = plus_found fh offset (get_node_ctx id r.fs) out r
