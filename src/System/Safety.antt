-- ===== src/System/Safety.antt =====
-- What holds in every state that the running file system can reach.
use webfs.Base.{ℕ, ◌<◌, ◌≡◌, none, some, List, ◌++◌, All, arith, ◌+◌, ◌^◌, inl, inr, Option-cases}
use webfs.Base.Maps.{Map, Text, load, nat_eq, text_eq}
use webfs.External.{Env}
use webfs.Inode.Attributes.{SetsTimes, ino-refresh_meta}
use webfs.Node.{FileSystem}
use webfs.Fs.{new_fs, add_dir_node, add_file_node}
use webfs.Fs.Dirs.{add_dir_node-Arrived}
use webfs.Fs.Files.{add_file_node-Added}
use webfs.Session.Sound.{
  IsSoundFs, new_fs-IsSoundFs, add_dir_node-IsSoundFs, add_file_node-IsSoundFs, set_inode-IsSoundFs,
}
use webfs.Fuse.{FuseRaw, new_fuse_raw, release_dir, release, open_file, open_dir}
use webfs.Fuse.Handles.{handle-open_file, handle-open_dir}
use webfs.Fuse.Invariant.{IsSound, with_fs-IsSound, release_dir-IsSound, release-IsSound}
use webfs.Fuse.Soundness.{
  lookup-IsSound, forget-IsSound, get_attr-IsSound, open_dir-IsSound, open_file-IsSound,
  read-IsSound,
}
use webfs.Fuse.ReadDir.Listed.{read_dir-IsSound}
use webfs.Fuse.ReadDir.ListedPlus.{read_dir_plus-IsSound}
use webfs.System.{
  run_refresh, Step, Reachable, lookup_step, forget_step, get_attr_step, open_dir_step,
  release_dir_step, open_step, release_step, read_dir_step, read_dir_plus_step, read_step,
  add_dir_step, add_file_step, refresh_step, started, stepped, Steps, no_step, one_more,
}

-- Ranging over a map yields values of the map.
abbrev pub RangesOver : (Map Text ℕ → List ℕ) → Type 0
RangesOver range = (m : Map Text ℕ) → All (λ c. (name : Text) × (load name m ≡ some c)) (range m)

pub new_fuse_raw-IsSound : (s : FileSystem) → IsSoundFs s → IsSound (new_fuse_raw s)
unfolding new_fuse_raw load
new_fuse_raw-IsSound s h = record {
  fs = h;
  dirs = λ fh snapshot e. absurd (cc e);
  files = λ fh id e. absurd (cc e);
}

module _ {env : Env} {range : Map Text ℕ → List ℕ} (sets : SetsTimes env)
    (ranged : RangesOver range) where
  open env use {World}

  Step-IsSound :
      {r : FuseRaw} {w : World} {r' : FuseRaw} {w' : World}
      → Step env range r w r' w'
      → IsSound r
      → IsSound r'
  unfolding release_dir release run_refresh
  Step-IsSound {r} (lookup_step parent_id name room) h = lookup-IsSound r h parent_id name room
  Step-IsSound {r} (forget_step id) h = forget-IsSound r h id
  Step-IsSound {r} (get_attr_step id) h = get_attr-IsSound r h id
  Step-IsSound {r} (open_dir_step id room) h = open_dir-IsSound r h range ranged id room
  Step-IsSound {r} (release_dir_step fh) h = release_dir-IsSound r fh h
  Step-IsSound {r} (open_step id room) h = open_file-IsSound r h id room
  Step-IsSound {r} (release_step fh) h = release-IsSound r fh h
  Step-IsSound {r} (read_dir_step add id fh offset out) h =
      read_dir-IsSound add id fh offset out r h
  Step-IsSound {r} (read_dir_plus_step add_lookup id fh offset out room) h =
      read_dir_plus-IsSound add_lookup id fh offset out r h room
  Step-IsSound {r} {w} (read_step fh offset size) h = read-IsSound env r fh offset size w h
  Step-IsSound {r} {w} (add_dir_step req) h =
      let more = (add_dir_node-Arrived env req r.fs w h.fs.tree).grows.more in
      with_fs-IsSound r (add_dir_node env req r.fs w).1 h
        (add_dir_node-IsSoundFs env req r.fs w h.fs) more
  Step-IsSound {r} {w} (add_file_step req) h =
      let more = (add_file_node-Added env req r.fs w h.fs.tree).grows.more in
      with_fs-IsSound r (add_file_node env req r.fs w).1 h
        (add_file_node-IsSoundFs env req r.fs w h.fs) more
  Step-IsSound {r} {w} (refresh_step i before after waiting) h =
      with_fs-IsSound r _ h
        (set_inode-IsSoundFs i _ (before ++ after) r.fs
          (ino-refresh_meta env sets (r.fs.inodes i) w) h.fs)
        (omega arith)

  pub Steps-IsSound :
      {r : FuseRaw} {w : World} {r' : FuseRaw} {w' : World}
      → Steps env range r w r' w'
      → IsSound r
      → IsSound r'
  Steps-IsSound no_step h = h
  Steps-IsSound (one_more before step) h = Step-IsSound step (Steps-IsSound before h)

  -- In every state that a new file system reaches through lookups, forgets, reads, directory
  -- listings, opens and releases, added directories and files, and refreshes, in any order: the
  -- nodes form a tree, the registry is sound, no lock is held, every open handle has been given
  -- out, and the snapshots hold nodes of the file system. The adapters may do anything; SetTimes
  -- keeps the inode number, ranging over a map yields its values, and the 64-bit counters of
  -- NodeIDs and handles do not wrap.
  pub Reachable-IsSound : {r : FuseRaw} {w : World} → Reachable env range r w → IsSound r
  Reachable-IsSound (started w) = new_fuse_raw-IsSound (new_fs env w).0 (new_fs-IsSoundFs env w)
  Reachable-IsSound (stepped before step) = Step-IsSound step (Reachable-IsSound before)

  -- In every state that a new file system reaches: a handle that Open returns is that of no open
  -- file, and a handle that OpenDir returns is that of no open directory. SetTimes keeps the inode
  -- number, ranging over a map yields its values, and the 64-bit counters do not wrap.
  pub Reachable-fresh_handle :
      {r : FuseRaw} {w : World}
      → Reachable env range r w
      → (id fh : ℕ)
      → ((open_file id r).1 ≡ some fh → r.next_file_fh + 1 < 2 ^ 64 → load fh r.open_files ≡ none)
        × ((open_dir range id r).1 ≡ some fh
            → r.next_dir_fh + 1 < 2 ^ 64
            → load fh r.open_dirs ≡ none)
  Reachable-fresh_handle {r} reach id fh =
      let h = Reachable-IsSound reach in
      (
        λ e room. elim (Option-cases (load fh r.open_files)) [
          | inl free ↦ free
          | inr (j, taken) ↦
              let given = h.files fh j taken in
              let next = handle-open_file id fh r e in absurd (omega arith)
        ],
        λ e room. elim (Option-cases (load fh r.open_dirs)) [
          | inl free ↦ free
          | inr (snapshot, taken) ↦
              let given = (h.dirs fh snapshot taken).0 in
              let next = handle-open_dir range id fh r e in absurd (omega arith)
        ],
      )
