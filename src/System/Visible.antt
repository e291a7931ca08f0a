-- ===== src/System/Visible.antt =====
-- From AddDirNode and AddFileNode of filesystem/fs.go to what the handlers of fuse/server.go show:
-- Lookup along the path, Open and Read.
use webfs.Base.{
  ℕ, ◌+◌, ◌^◌, ◌<◌, ◌≡◌, ◌≢◌, refl, sym, ap, subst, ◌∙◌, true, some, List, length, arith, nat_beq,
}
use webfs.Base.Int.{pos}
use webfs.Base.Maps.{load, nat_eq}
use webfs.Base.Result.{ok, panics}
use webfs.External.{Env, background}
use webfs.Cache.Coherence.{window}
use webfs.Pool.{AdapterPool}
use webfs.Pool.Failover.{members}
use webfs.Pool.Availability.{HasHealthy}
use webfs.Inode.{Inode}
use webfs.Inode.Reads.{KeepsBuffer, IsServing}
use webfs.Node.{FileSystem}
use webfs.Node.Walks.{Walk, Walk-unique}
use webfs.Fs.{FileCreateRequest, add_file_node}
use webfs.Fs.Growth.{Grows}
use webfs.Fs.Files.{Added, file_names, add_file_node-Added}
use webfs.Session.Sound.{add_file_node-IsSoundFs}
use webfs.Session.Ids.Complete.{IsComplete, KeepsNumbers-IsComplete}
use webfs.Fuse.{FuseRaw, status_ok, open_file, read}
use webfs.Fuse.Invariant.{IsSound, with_fs-IsSound}
use webfs.Fuse.Handles.{open_file-Opened, fs-open_file}
use webfs.Fuse.Reads.{read_file}
use webfs.Fuse.Resolve.{resolve, resolve-Resolved, Resolved}

-- A state in which the handlers find every node: it is sound, no NodeID was forgotten, and the
-- root is number 1.
pub record IsOpen (r : FuseRaw) : Type 0 where
  pub sound : IsSound r
  pub complete : IsComplete r.fs
  pub root : load 1 r.fs.node_registry ≡ some r.fs.root

Grows-IsOpen :
    (r : FuseRaw) (s : FileSystem)
    → Grows r.fs s
    → IsSound (record r { fs = s })
    → IsOpen r
    → IsOpen (record r { fs = s })
Grows-IsOpen r s g sound o = record {
  sound = sound;
  complete = KeepsNumbers-IsComplete r.fs s g.numbers o.complete;
  root =
      subst (λ m. load 1 m ≡ some s.root) (sym g.numbers.same_registry)
        (o.root ∙ ap some (sym g.same_root));
}

module _ (env : Env) (req : FileCreateRequest) (r : FuseRaw) (w : env.World) (o : IsOpen r) where
  -- The state when AddFileNode has returned
  abbrev pub added : FuseRaw
  added = record r { fs = (add_file_node env req r.fs w).1 }

  abbrev done :
      Added env.World r.fs r.fs.root (file_names req.node.path) (add_file_node env req r.fs w)
  done = add_file_node-Added env req r.fs w o.sound.fs.tree

  added-IsOpen : IsOpen added
  added-IsOpen =
      let more = done.grows.more in
      Grows-IsOpen r added.fs done.grows
        (with_fs-IsSound r added.fs o.sound (add_file_node-IsSoundFs env req r.fs w o.sound.fs)
          more)
        o

  module _ (room : added.fs.last_node_id + length (file_names req.node.path) < 2 ^ 64) (c : ℕ)
      (made : (add_file_node env req r.fs w).0 ≡ ok c) where
    resolved :
        Resolved added added.fs.root
          (file_names req.node.path)
          (resolve (file_names req.node.path) 1 added)
    resolved =
        let a = added-IsOpen in
        resolve-Resolved (file_names req.node.path) 1 added.fs.root added a.sound a.complete room
          a.root

    to_c : Walk added.fs added.fs.root (file_names req.node.path) c
    to_c =
        subst (λ p. Walk added.fs p (file_names req.node.path) c) (sym done.grows.same_root)
          (done.found c made)

    -- The lookups along the path end at the new node.
    found :
        let (id, r') = resolve (file_names req.node.path) 1 added in
        (j : ℕ) × (id ≡ some j) × (load j r'.fs.node_registry ≡ some c)
    found =
        let (j, e) = resolved.reached c to_c in
        let (d, w, registered) = resolved.led j e in
        let same = Walk-unique added.fs added.fs.root d c (file_names req.node.path) w to_c in
        (j, e, registered ∙ ap some same)

    -- The inode of the new node, in a state with the same file system as after the lookups
    inode_kept :
        (r' : FuseRaw)
        → r'.fs ≡ (resolve (file_names req.node.path) 1 added).1.fs
        → r'.fs.inodes (r'.fs.nodes c).inode ≡ added.fs.inodes (added.fs.nodes c).inode
    inode_kept r' same =
        let keeps = resolved.same_tree in
        ap (λ (s : FileSystem). s.inodes (s.nodes c).inode) same
        ∙ ap
            (λ (f : ℕ → Inode). f ((resolve (file_names req.node.path) 1 added).1.fs.nodes c).inode)
            resolved.same_inodes
        ∙ ap added.fs.inodes (keeps.inode c)

    module _ (file : List ℕ) (keeps : KeepsBuffer env) (offset size : ℕ)
        (small : length file < 2 ^ 63) (fits : offset + size < 2 ^ 63)
        (calm : (a : ℕ) (buf : List ℕ) (v : env.World)
          → length buf ≡ size
          → (env.read a (pos offset) (pos size) buf v).1 ≢ panics)
        (good : ℕ)
        (works : (buf : List ℕ) (v : env.World)
          → length buf ≡ size
          → (env.read good (pos offset) (pos size) buf v).1 ≡ ok tt) where
      -- After AddFileNode has returned a node, in a sound state in which no NodeID was forgotten:
      -- lookups from the root along the names of the path lead to a NodeID, Open of it returns a
      -- handle, and Read of this handle is OK with exactly the requested window of the file. The
      -- adapters of the new inode stand for the file, and with any buffer of the requested size a
      -- healthy one of them succeeds on this request in every world and none panics; no adapter
      -- changes the length of a buffer, the file has fewer than 2^63 bytes, the request ends below
      -- 2^63, and the 64-bit counter of NodeIDs does not wrap.
      pub added_file_served :
          (pool : AdapterPool) (v : env.World)
          → let n = added.fs.inodes (added.fs.nodes c).inode in
            n.adapter_pool ≡ some pool
            → IsServing (background env) file n
            → HasHealthy good (members pool)
            → let (id, r1) = resolve (file_names req.node.path) 1 added in
              (j : ℕ) × (id ≡ some j)
              × (let (_, fh, r2) = open_file j r1 in
                  (h : ℕ) × (fh ≡ some h)
                  × ((read env h offset size r2 v).0 ≡ ok (status_ok, window file offset size)))
      added_file_served pool v has serving healthy =
          let (j, e, registered) = found in
          let r1 = (resolve (file_names req.node.path) 1 added).1 in
          let r2 = (open_file j r1).2 in
          let (h, _, opened, handles, _) = open_file-Opened j c r1 registered in
          let same_fs = fs-open_file j r1 in
          let kept = inode_kept r2 same_fs in
          let self : nat_beq h h ≡ true = ground arith in
          (
            j,
            e,
            (
              h,
              opened,
              read_file env file keeps offset size small fits calm good works h j c pool r2 v
                  (handles h ∙ rw self refl)
                  (subst (λ (s : FileSystem). load j s.node_registry ≡ some c) (sym same_fs)
                    registered)
                  (ap (λ (n : Inode). n.adapter_pool) kept ∙ has)
                  (subst (IsServing (background env) file) (sym kept) serving) healthy,
            ),
          )
