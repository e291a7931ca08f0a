-- ===== src/Session/Reads.antt =====
-- FileSystem.Read: the node's inode reads, or there is no node.
use webfs.Base.{ℕ, ◌≡◌, none, some}
use webfs.Base.Int.{ℤ}
use webfs.Base.Maps.{load, nat_eq}
use webfs.Base.Result.{err, node_not_found}
use webfs.External.{Env}
use webfs.Inode
use webfs.Node.{FileSystem}
use webfs.Session.{open_found, read_in, read}

module _ (env : Env) (id : ℕ) (offset size : ℤ) (s : FileSystem) (w : env.World) where
  pub read_registered :
      (p : ℕ)
      → load id s.node_registry ≡ some p
      → (read env id offset size s w).0
        ≡ (Inode.read env offset size (s.inodes (s.nodes p).inode) w).0
  unfolding read
  read_registered p registered = rw (registered, open_found, read_in)

  pub read_unregistered :
      load id s.node_registry ≡ none → read env id offset size s w ≡ (err (node_not_found id), s, w)
  unfolding read
  read_unregistered missing = rw (missing, open_found, read_in)
