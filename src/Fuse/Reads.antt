-- ===== src/Fuse/Reads.antt =====
-- fuse/server.go, Read: from a file handle down to the adapters.
use webfs.Base.{
  ℕ, ◌+◌, ◌^◌, ◌<◌, ◌≡◌, ◌≢◌, refl, ◌∙◌, true, none, some, List, [], length, arith, nat_beq,
}
use webfs.Base.Int.{pos, of_u64}
use webfs.Base.Maps.{load, nat_eq}
use webfs.Base.Result.{Result, ok, err, panics}
use webfs.External.{Env, background}
use webfs.Cache.Coherence.{window}
use webfs.Pool.{AdapterPool}
use webfs.Pool.Failover.{members}
use webfs.Pool.Availability.{HasHealthy}
use webfs.Inode.Reads.{KeepsBuffer, IsServing}
use webfs.Inode.Progress.{read_available}
use webfs.Node.{FileSystem}
use webfs.Session
use webfs.Session.{forget_node_id}
use webfs.Session.Forget.{load-forget_node_id}
use webfs.Session.Reads.{read_registered, read_unregistered}
use webfs.Fuse.{FuseRaw, status_ok, eio, forget, read_reply, read_handle, read}

-- Where an offset of a request leads, as an int64
signed : (offset : ℕ) → offset < 2 ^ 63 → of_u64 offset ≡ pos offset
signed offset h = ground arith

reply_ok :
    (env : Env) (r : FuseRaw) (bytes : List ℕ) (o : Result (List ℕ) × FileSystem × env.World)
    → o.0 ≡ ok bytes
    → (read_reply env r o).0 ≡ ok (status_ok, bytes)
unfolding read_reply
reply_ok env r bytes (ok b, s, w) e = cc e
reply_ok env r bytes (err x, s, w) e = absurd (cc e)
reply_ok env r bytes (panics, s, w) e = absurd (cc e)

-- Once the NodeID of an open handle is forgotten, Read of the handle is EIO, whatever the request,
-- and changes nothing.
pub forget_then_read :
    (env : Env) (fh id offset size : ℕ) (r : FuseRaw) (w : env.World)
    → load fh r.open_files ≡ some id
    → read env fh offset size (forget id r) w ≡ (ok (eio, []), forget id r, w)
unfolding read forget
forget_then_read env fh id offset size r w opened =
    let self : nat_beq id id ≡ true = ground arith in
    let missing : load id (forget_node_id id r.fs).node_registry ≡ none =
      load-forget_node_id id r.fs id ∙ rw self in
    let refused =
      read_unregistered (background env) id (of_u64 offset) (pos size) (forget_node_id id r.fs) w
        missing in
    rw (opened, read_handle, refused, read_reply)

module _ (env : Env) (file : List ℕ) (keeps : KeepsBuffer env) (offset size : ℕ)
    (small : length file < 2 ^ 63) (fits : offset + size < 2 ^ 63)
    (calm : (a : ℕ) (buf : List ℕ) (w : env.World)
      → length buf ≡ size
      → (env.read a (pos offset) (pos size) buf w).1 ≢ panics)
    (good : ℕ)
    (works : (buf : List ℕ) (w : env.World)
      → length buf ≡ size
      → (env.read good (pos offset) (pos size) buf w).1 ≡ ok tt) where
  -- The file has fewer than 2^63 bytes, the request ends below 2^63, and no adapter changes the
  -- length of a buffer. If the handle is open, its NodeID is in the registry, the cache and the
  -- adapters of the node's inode stand for the file, no adapter panics on this request and a
  -- healthy member of the inode's pool succeeds on it in every world, each with any buffer of the
  -- requested size, then Read of the handle is OK with exactly the requested window of the file.
  pub read_file :
      (fh id p : ℕ) (pool : AdapterPool) (r : FuseRaw) (w : env.World)
      → load fh r.open_files ≡ some id
      → load id r.fs.node_registry ≡ some p
      → (r.fs.inodes (r.fs.nodes p).inode).adapter_pool ≡ some pool
      → IsServing (background env) file (r.fs.inodes (r.fs.nodes p).inode)
      → HasHealthy good (members pool)
      → (read env fh offset size r w).0 ≡ ok (status_ok, window file offset size)
  unfolding read
  read_file fh id p pool r w opened registered has serving healthy =
      let n = r.fs.inodes (r.fs.nodes p).inode in
      let bg = background env in
      let start : of_u64 offset ≡ pos offset = signed offset (omega arith) in
      let got =
        read_registered bg id (pos offset) (pos size) r.fs w p registered
        ∙ read_available bg file keeps offset size small fits (λ w'. refl) calm good works pool n w
            has serving healthy in
      rw (opened, read_handle, start)
        (reply_ok env r _ (Session.read bg id (pos offset) (pos size) r.fs w) got)
