-- ===== src/Fs.antt =====
-- filesystem/fs.go with request.go's NodeRequest, FileCreateRequest and DirCreateRequest: creating
-- the file system, directories and files. A method runs without another between its steps.
pub mod Growth
pub mod Dirs
pub mod Files
pub mod Contents
pub mod Mkdir
pub mod Inos
use Prim.Native.Nat.{bit_or}
use webfs.Base.{
  ℕ, ◌+◌, ◌%◌, ◌^◌, Bool, Option, none, some, List, [], ◌∷◌, ◌++◌, if◌then◌else◌, nat_beq, String,
}
use webfs.Base.Int.{ℤ}
use webfs.Base.Maps.{Map, Text, load, store, delete, nat_eq, text_eq}
use webfs.Base.Result.{
  Result, Error, ok, err, panics, file_exists, no_valid_adapters, node_not_found,
}
use webfs.External.{Env, Attr, Time, FileSource, unix_u64, nanosecond, source_adapter}
use webfs.Inode
use webfs.Inode.{Inode, new_inode, add_hard_link}
use webfs.Paths.{split, path_split}
use webfs.Node.{Node, FileSystem, fresh_node, get_child, make_child}

-- request.go
pub record NodeRequest : Type 0 where
  pub path : Text
  pub kind : Text
  pub uuid : Text
  pub size : ℕ
  pub atime : Time
  pub mtime : Time
  pub ctime : Time
  pub perms : ℕ
  pub owner_uid : ℕ
  pub owner_gid : ℕ
  pub blksize : ℕ

pub record FileCreateRequest : Type 0 where
  pub node : NodeRequest
  pub sources : List FileSource

abbrev pub fuse_root_id : ℕ
fuse_root_id = 1

-- filesystem/consts.go
abbrev pub dir_attr : ℕ
dir_attr = 0o040000

abbrev pub file_attr : ℕ
file_attr = 0o100000

-- newDefaultAttr, for the time that time.Now returned
unfoldable pub new_default_attr : Env → Time → ℕ → Attr
new_default_attr env now ino = record {
  ino = ino;
  size = 0;
  atime = unix_u64 now;
  mtime = unix_u64 now;
  ctime = unix_u64 now;
  atimensec = nanosecond now;
  mtimensec = nanosecond now;
  ctimensec = nanosecond now;
  mode = 0;
  nlink = 1;
  uid = env.getuid;
  gid = env.getgid;
  rdev = 0;
  blksize = 4096;
  padding = 0;
}

-- NewFS: the root is a directory with mode r-xr-xr-x, registered under its own number.
unfoldable pub new_fs : (env : Env) → env.World → FileSystem × env.World
unfolding new_default_attr new_inode add_hard_link
new_fs env w =
    let (now, w') = env.now w in
    let attr = record (new_default_attr env now fuse_root_id) { mode = bit_or dir_attr 0o555 } in
    (
      record {
        nodes = λ p. record (fresh_node [] 0) { node_id = fuse_root_id };
        next_node = 1;
        inodes = λ i. add_hard_link 0 (new_inode attr []);
        next_inode = 1;
        root = 0;
        last_ino = fuse_root_id;
        last_node_id = fuse_root_id;
        node_registry = (fuse_root_id, 0) ∷ [];
        pending = [];
        readers = λ p. 0;
      },
      w',
    )

-- atomic.Uint64.Add(1)
abbrev pub add_one64 : ℕ → ℕ
add_one64 n = (n + 1) % 2 ^ 64

module _ (env : Env) where
  open env use {World}

  -- The attributes of a new directory.
  unfoldable pub new_dir_attr : NodeRequest → Time → ℕ → Attr
  new_dir_attr req now ino =
      let base = record (new_default_attr env now ino) { mode = bit_or dir_attr req.perms } in
      record (env.set_times (some req.atime) (some req.mtime) (some req.ctime) base) {
        gid = req.owner_gid;
        uid = req.owner_uid;
        size = 0;
      }

  -- The branch of AddDirNode's loop that makes a directory.
  unfoldable pub make_dir :
      NodeRequest → ℕ → Text → FileSystem → World → Result ℕ × FileSystem × World
  make_dir req cur name s w =
      let ino = add_one64 s.last_ino in
      let (now, w') = env.now w in
      let n = new_inode (new_dir_attr req now ino) [] in
      let (r, s') = make_child cur name n (record s { last_ino = ino }) in (r, s', w')

  -- The other branch: an existing child of that name, of whatever kind, is entered.
  unfoldable pub enter :
      NodeRequest → ℕ → Text → Option ℕ → FileSystem → World → Result ℕ × FileSystem × World
  unfolding make_dir
  enter req cur name (some child) s w = (ok child, s, w)
  enter req cur name none s w = make_dir req cur name s w

  abbrev pub then_in :
      Result ℕ × FileSystem × World
      → (ℕ → FileSystem → World → Result ℕ × FileSystem × World)
      → Result ℕ × FileSystem × World
  then_in (ok p, s, w) k = k p s w
  then_in (err e, s, w) k = (err e, s, w)
  then_in (panics, s, w) k = (panics, s, w)

  -- The loop of AddDirNode over the parts of the path, at the node `cur`.
  unfoldable pub add_dirs :
      NodeRequest → List Text → ℕ → FileSystem → World → Result ℕ × FileSystem × World
  add_dirs req [] cur s w = (ok cur, s, w)
  add_dirs req ([] ∷ rest) cur s w = add_dirs req rest cur s w
  add_dirs req ((c ∷ name) ∷ rest) cur s w =
      then_in (enter req cur (c ∷ name) (load (c ∷ name) (s.nodes cur).children) s w)
        (add_dirs req rest)

  -- AddDirNode
  unfoldable pub add_dir_node : NodeRequest → FileSystem → World → Result ℕ × FileSystem × World
  unfolding add_dirs
  add_dir_node req s w = add_dirs req (split req.path) s.root s w

  abbrev pub cons_adapter : ℕ → Result (List ℕ) × World → Result (List ℕ) × World
  cons_adapter a (ok rest, w) = (ok (a ∷ rest), w)
  cons_adapter a (err e, w) = (err e, w)
  cons_adapter a (panics, w) = (panics, w)

  after_source : Result ℕ × World → (World → Result (List ℕ) × World) → Result (List ℕ) × World
  after_source (ok a, w) continue = cons_adapter a (continue w)
  after_source (err e, w) continue = continue w
  after_source (panics, w) continue = (panics, w)

  -- The loop over the sources: a source whose adapter cannot be made is skipped.
  unfoldable pub source_adapters : List FileSource → World → Result (List ℕ) × World
  unfolding after_source
  source_adapters [] w = (ok [], w)
  source_adapters (src ∷ rest) w = after_source (source_adapter env src w) (source_adapters rest)

  -- The end of AddFileNode, with the adapters that could be made. RefreshMeta starts its goroutine
  -- on the new inode before the node is there.
  unfoldable pub make_file :
      ℕ → Text → Attr → Result (List ℕ) × World → FileSystem → Result ℕ × FileSystem × World
  make_file parent name attr (ok [], w) s = (err no_valid_adapters, s, w)
  make_file parent name attr (ok (a ∷ adapters), w) s =
      let (r, s') =
        make_child parent name (new_inode attr (a ∷ adapters))
          (record s { pending = s.pending ++ s.next_inode ∷ [] }) in
      (r, s', w)
  make_file parent name attr (err e, w) s = (err e, s, w)
  make_file parent name attr (panics, w) s = (panics, s, w)

  -- AddFileNode below its directory
  unfoldable pub add_file_in :
      FileCreateRequest → Text → Option ℕ → ℕ → FileSystem → World → Result ℕ × FileSystem × World
  unfolding make_file
  add_file_in req name (some existing) parent s w = (err (file_exists req.node.path), s, w)
  add_file_in req name none parent s w =
      let ino = add_one64 s.last_ino in
      let (now, w1) = env.now w in
      let attr = record (new_default_attr env now ino) { mode = bit_or file_attr req.node.perms } in
      make_file parent name attr (source_adapters req.sources w1) (record s { last_ino = ino })

  -- The directory of a file request: the root, or what AddDirNode makes of the request's fields.
  unfoldable pub file_dir :
      FileCreateRequest → Text → FileSystem → World → Result ℕ × FileSystem × World
  file_dir req [] s w = (ok s.root, s, w)
  file_dir req (c ∷ dir) s w = add_dir_node (record req.node { path = c ∷ dir }) s w

  -- AddFileNode
  unfoldable pub add_file_node :
      FileCreateRequest → FileSystem → World → Result ℕ × FileSystem × World
  unfolding file_dir add_file_in
  add_file_node req s w =
      let (dir, name) = path_split req.node.path in
      then_in (file_dir req dir s w)
        (λ parent s' w'. add_file_in req name (get_child s' parent name) parent s' w')
