-- ===== src/Fuse/Handles.antt =====
-- fuse/server.go, Open and Release: the table of open file handles.
use webfs.Base.{
  ℕ, ◌≡◌, refl, sym, subst, none, some, List, inl, inr, arith, nat_beq, if◌then◌else◌, Option-cases,
}
use mathlib.Core.Option.{some-injective}
use webfs.Base.Maps.{Map, Text, load, store, nat_eq, load-store, load-delete}
use webfs.Fs.{add_one64}
use webfs.Session.{new_node_context, open_found, get_node_ctx}
use webfs.Session.Kept.{r_unlock-r_lock}
use webfs.Fuse.{FuseRaw, status_ok, open_file, file_found, release, dir_found, open_dir}

-- What Open returned is a handle of the node, the other handles are as they were, and Release
-- takes this handle away and no other.
abbrev pub Opened : ℕ → FuseRaw → Type 0
Opened id r =
    let (status, fh, r') = open_file id r in
    (h : ℕ) × (status ≡ status_ok)
    × (fh ≡ some h)
    × ((k : ℕ) → load k r'.open_files ≡ (if nat_beq h k then some id else load k r.open_files))
    × ((k : ℕ)
        → load k (release h r').open_files ≡ (if nat_beq h k then none else load k r.open_files))

-- Open of a NodeID that is in the registry succeeds and returns a handle of that NodeID, the other
-- handles are as they were, and Release of the handle takes it away and no other.
pub open_file-Opened : (id p : ℕ) (r : FuseRaw) → load id r.fs.node_registry ≡ some p → Opened id r
unfolding open_file file_found get_node_ctx open_found release
open_file-Opened id p r registered =
    let h = add_one64 r.next_file_fh in
    let opened : (k : ℕ)
        → load k (store h id r.open_files)
          ≡ (if nat_beq h k then some id else load k r.open_files) =
      λ k. load-store h k id r.open_files in
    rw registered (
      (
        h,
        refl,
        refl,
        opened,
        λ k. ground (arith, load-delete h k (store h id r.open_files), opened k),
      ))

-- A handle that is returned is the next one.
pub handle-open_file :
    (id fh : ℕ) (r : FuseRaw) → (open_file id r).1 ≡ some fh → fh ≡ add_one64 r.next_file_fh
unfolding open_file get_node_ctx
handle-open_file id fh r e = elim (Option-cases (load id r.fs.node_registry)) [
  | inl missing ↦
      absurd (cc (subst (λ o. (file_found id (open_found o r.fs) r).1 ≡ some fh) missing e))
  | inr (p, found) ↦
      sym (
        some-injective _ fh
          (subst (λ o. (file_found id (open_found o r.fs) r).1 ≡ some fh) found e))
]

pub handle-open_dir :
    (range : Map Text ℕ → List ℕ) (id fh : ℕ) (r : FuseRaw)
    → (open_dir range id r).1 ≡ some fh
    → fh ≡ add_one64 r.next_dir_fh
unfolding open_dir get_node_ctx
handle-open_dir range id fh r e = elim (Option-cases (load id r.fs.node_registry)) [
  | inl missing ↦
      absurd (cc (subst (λ o. (dir_found range (open_found o r.fs) r).1 ≡ some fh) missing e))
  | inr (p, found) ↦ sym (
      some-injective _ fh
        (subst (λ o. (dir_found range (open_found o r.fs) r).1 ≡ some fh) found e))
]

-- Open leaves the file system as it is.
pub fs-open_file : (id : ℕ) (r : FuseRaw) → (open_file id r).2.fs ≡ r.fs
unfolding open_file get_node_ctx new_node_context
fs-open_file id r = elim (Option-cases (load id r.fs.node_registry)) [
  | inl missing ↦ rw (missing, open_found, file_found) refl
  | inr (p, found) ↦ rw (found, open_found, file_found) (r_unlock-r_lock p r.fs)
]
