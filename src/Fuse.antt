-- ===== src/Fuse.antt =====
-- fuse/server.go: the handlers of FuseRaw. A handler returns the status, what it writes through its
-- `out` argument, and the new state; the handlers run one at a time here. The order in which a
-- children map is ranged over is the argument `range`. ReadDir and ReadDirPlus are in Fuse/ReadDir.
pub mod Handles
pub mod ReadDir
pub mod Listing
pub mod Reads
pub mod Lookup
pub mod Resolve
pub mod Invariant
pub mod Soundness
use webfs.Base.{
  ℕ, suc, ◌+◌, ◌*◌, ◌^◌, Bool, true, false, Option, none, some, List, [], ◌∷◌, ◌++◌, map, length,
  take, drop, leb, if◌then◌else◌,
}
use webfs.Base.Int.{ℤ, pos, of_u64}
use webfs.Base.Maps.{Map, Text, load, store, delete, nat_eq}
use webfs.Base.Result.{Result, Error, ok, err, panics}
use webfs.External.{Env, Attr, background}
use webfs.Node.{Node, FileSystem}
use webfs.Fs.{add_one64}
use webfs.Session
use webfs.Session.{
  NodeContext, close, closed, ctx_node_id, ctx_attr, get_node_ctx, get_child_ctx, forget_node_id,
  ensure_node_id,
}

pub data Status : Type 0 where
  status_ok enoent ebadf eio enosys : Status

-- time.Duration in nanoseconds
abbrev pub default_attr_timeout : ℕ
default_attr_timeout = 1 * 10 ^ 9

abbrev pub default_entry_timeout : ℕ
default_entry_timeout = 60 * 10 ^ 9

pub record EntryOut : Type 0 where
  pub node_id : ℕ
  pub generation : ℕ
  pub attr : Attr
  pub entry_timeout : ℕ
  pub attr_timeout : ℕ

pub record AttrOut : Type 0 where
  pub attr : Attr
  pub timeout : ℕ

pub record DirEntry : Type 0 where
  pub name : Text
  pub mode : ℕ
  pub ino : ℕ

-- A nil entry of a snapshot is `none`.
abbrev pub Snapshot : Type 0
Snapshot = List (Option ℕ)

pub record FuseRaw : Type 0 where
  pub fs : FileSystem
  pub next_dir_fh : ℕ
  pub open_dirs : Map ℕ Snapshot
  pub next_file_fh : ℕ
  pub open_files : Map ℕ ℕ

-- NewFuseRaw
unfoldable pub new_fuse_raw : FileSystem → FuseRaw
new_fuse_raw s = record {
  fs = s;
  next_dir_fh = 1;
  open_dirs = [];
  next_file_fh = 1;
  open_files = [];
}

-- Access and SetAttr
unfoldable pub access : FuseRaw → Status × FuseRaw
access r = (status_ok, r)

unfoldable pub set_attr : FuseRaw → Status × FuseRaw
set_attr r = (enosys, r)

lookup_found : Option NodeContext × FileSystem → FuseRaw → Status × Option EntryOut × FuseRaw
lookup_found (none, s) r = (enoent, none, record r { fs = closed none s })
lookup_found (some ctx, s) r = (
  status_ok,
  some (record {
    node_id = ctx_node_id ctx s;
    generation = 0;
    attr = ctx_attr ctx s;
    entry_timeout = default_entry_timeout;
    attr_timeout = default_attr_timeout;
  }),
  record r { fs = closed (some ctx) s },
)

-- Lookup; the handler leaves the generation of a zeroed `out` as it is.
unfoldable pub lookup : ℕ → Text → FuseRaw → Status × Option EntryOut × FuseRaw
unfolding lookup_found close
lookup parent_id name r = lookup_found (get_child_ctx parent_id name r.fs) r

-- Forget
unfoldable pub forget : ℕ → FuseRaw → FuseRaw
forget id r = record r { fs = forget_node_id id r.fs }

attr_found : Option NodeContext × FileSystem → FuseRaw → Status × Option AttrOut × FuseRaw
attr_found (none, s) r = (enoent, none, record r { fs = closed none s })
attr_found (some ctx, s) r = (
  status_ok,
  some (record { attr = ctx_attr ctx s; timeout = default_attr_timeout }),
  record r { fs = closed (some ctx) s },
)

-- GetAttr
unfoldable pub get_attr : ℕ → FuseRaw → Status × Option AttrOut × FuseRaw
unfolding attr_found close
get_attr id r = attr_found (get_node_ctx id r.fs) r

module _ (range : Map Text ℕ → List ℕ) where
  -- filesystem/context.go, UnsafeChildren
  unfoldable pub unsafe_children : NodeContext → FileSystem → List ℕ
  unsafe_children ctx s = range (s.nodes ctx.node).children

  dir_found : Option NodeContext × FileSystem → FuseRaw → Status × Option ℕ × FuseRaw
  unfolding unsafe_children
  dir_found (none, s) r = (enoent, none, record r { fs = closed none s })
  dir_found (some ctx, s) r =
      let fh = add_one64 r.next_dir_fh in
      (
        status_ok,
        some fh,
        record r {
          fs = closed (some ctx) s;
          next_dir_fh = fh;
          open_dirs = store fh (map some (unsafe_children ctx s)) r.open_dirs;
        },
      )

  -- OpenDir, with the handle that it returns
  unfoldable pub open_dir : ℕ → FuseRaw → Status × Option ℕ × FuseRaw
  unfolding dir_found close
  open_dir id r = dir_found (get_node_ctx id r.fs) r

-- ReleaseDir
unfoldable pub release_dir : ℕ → FuseRaw → FuseRaw
release_dir fh r = record r { open_dirs = delete fh r.open_dirs }

file_found : ℕ → Option NodeContext × FileSystem → FuseRaw → Status × Option ℕ × FuseRaw
file_found id (none, s) r = (enoent, none, record r { fs = s })
file_found id (some ctx, s) r =
    let fh = add_one64 r.next_file_fh in
    (
      status_ok,
      some fh,
      record r {
        fs = closed (some ctx) s;
        next_file_fh = fh;
        open_files = store fh id r.open_files;
      },
    )

-- Open, with the handle that it returns
unfoldable pub open_file : ℕ → FuseRaw → Status × Option ℕ × FuseRaw
unfolding file_found close
open_file id r = file_found id (get_node_ctx id r.fs) r

-- Release
unfoldable pub release : ℕ → FuseRaw → FuseRaw
release fh r = record r { open_files = delete fh r.open_files }

module _ (env : Env) where
  open env use {World}

  -- A panic of the handler ends the process: it is no status.
  read_reply :
      FuseRaw → Result (List ℕ) × FileSystem × World → Result (Status × List ℕ) × FuseRaw × World
  read_reply r (ok bytes, s, w) = (ok (status_ok, bytes), record r { fs = s }, w)
  read_reply r (err e, s, w) = (ok (eio, []), record r { fs = s }, w)
  read_reply r (panics, s, w) = (panics, record r { fs = s }, w)

  read_handle : Option ℕ → ℕ → ℕ → FuseRaw → World → Result (Status × List ℕ) × FuseRaw × World
  unfolding read_reply
  read_handle none offset size r w = (ok (ebadf, []), r, w)
  read_handle (some id) offset size r w =
      read_reply r (Session.read (background env) id (of_u64 offset) (pos size) r.fs w)

  -- Read, with a new context, at a 64-bit offset and a 32-bit size; nil data is the empty list.
  unfoldable pub read : ℕ → ℕ → ℕ → FuseRaw → World → Result (Status × List ℕ) × FuseRaw × World
  unfolding read_handle
  read fh offset size r w = read_handle (load fh r.open_files) offset size r w
