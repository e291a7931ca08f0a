-- ===== src/Fuse/Soundness.antt =====
-- The handlers of fuse/server.go other than the directory readers, and the invariant of FuseRaw.
use webfs.Base.{
  ℕ, ◌+◌, ◌<◌, ◌^◌, ◌≡◌, sym, subst, some, List, [], ◌∷◌, map, All, arith, inl, inr, Option-cases,
}
use webfs.Base.Int.{pos, of_u64}
use webfs.Base.Maps.{Map, Text, load, store, nat_eq, text_eq}
use webfs.Base.Result.{Result, ok, err, panics}
use webfs.External.{Env, background}
use webfs.Node.{FileSystem}
use webfs.Fs.{add_one64}
use webfs.Session.{r_lock, r_unlock, new_node_context, ensure_node_id, open_found, get_node_ctx}
use webfs.Session.Kept.{r_unlock-r_lock, ensure_node_id-KeepsTree, get_child_ctx_cases}
use webfs.Session.Sound.{
  ensure_node_id-IsSoundFs, forget_node_id-IsSoundFs, read-IsSoundFs, next_node-read,
}
use webfs.Session.Forget.{forget_keeps}
use webfs.Fuse
use webfs.Fuse.{
  FuseRaw, Snapshot, lookup, lookup_found, forget, get_attr, attr_found, open_dir, dir_found,
  unsafe_children, open_file, file_found, read_reply, read_handle,
}
use webfs.Fuse.Invariant.{
  IsSound, AreEntries-map, with_fs-IsSound, store_dir-IsSound, store_file-IsSound,
}

-- A context that is closed at once leaves the state as it was.
pub reclosed-IsSound :
    (p : ℕ) (s : FileSystem) (r : FuseRaw)
    → IsSound (record r { fs = s })
    → IsSound (record r { fs = r_unlock p (r_lock p s) })
reclosed-IsSound p s r h = subst (λ t. IsSound (record r { fs = t })) (sym (r_unlock-r_lock p s)) h

module _ (r : FuseRaw) (h : IsSound r) where
  pub ensured-IsSound :
      (p : ℕ)
      → p < r.fs.next_node
      → r.fs.last_node_id + 1 < 2 ^ 64
      → IsSound (record r { fs = (ensure_node_id p r.fs).1 })
  ensured-IsSound p here room =
      let same = (ensure_node_id-KeepsTree p r.fs).same_next in
      with_fs-IsSound r _ h (ensure_node_id-IsSoundFs p r.fs here room h.fs) (omega arith)

  pub lookup-IsSound :
      (parent_id : ℕ) (name : Text)
      → r.fs.last_node_id + 1 < 2 ^ 64
      → IsSound (lookup parent_id name r).2
  unfolding lookup new_node_context
  lookup-IsSound parent_id name room = elim (get_child_ctx_cases parent_id name r.fs) [
    | inl missing ↦ rw (missing, lookup_found) h
    | inr (p, child, found, entry, e) ↦
        let here = h.fs.registry.allocated parent_id p found in
        let there = (h.fs.tree.entries p name child here entry).allocated in
        rw (e, lookup_found)
          (reclosed-IsSound child (ensure_node_id child r.fs).1 r
            (ensured-IsSound child there room))
  ]

  pub forget-IsSound : (id : ℕ) → IsSound (forget id r)
  unfolding forget
  forget-IsSound id =
      let same = (forget_keeps id r.fs).1 in
      with_fs-IsSound r _ h (forget_node_id-IsSoundFs id r.fs h.fs) (omega arith)

  pub get_attr-IsSound : (id : ℕ) → IsSound (get_attr id r).2
  unfolding get_attr get_node_ctx
  get_attr-IsSound id = elim (Option-cases (load id r.fs.node_registry)) [
    | inl missing ↦ rw (missing, open_found, attr_found) h
    | inr (p, found) ↦ rw (found, open_found, attr_found) (reclosed-IsSound p r.fs r h)
  ]

  pub open_file-IsSound : (id : ℕ) → r.next_file_fh + 1 < 2 ^ 64 → IsSound (open_file id r).2
  unfolding open_file get_node_ctx
  open_file-IsSound id room = elim (Option-cases (load id r.fs.node_registry)) [
    | inl missing ↦ rw (missing, open_found, file_found) h
    | inr (p, found) ↦
        let fh = add_one64 r.next_file_fh in
        rw (found, open_found, file_found)
          (reclosed-IsSound p r.fs
            (record r { next_file_fh = fh; open_files = store fh id r.open_files })
            (store_file-IsSound r fh id h (omega arith)))
  ]

  module _ (range : Map Text ℕ → List ℕ)
      (ranged : (m : Map Text ℕ)
        → All (λ c. (name : Text) × (load name m ≡ some c)) (range m)) where
    children-All :
        (p : ℕ) (l : List ℕ)
        → p < r.fs.next_node
        → All (λ c. (name : Text) × (load name (r.fs.nodes p).children ≡ some c)) l
        → All (λ c. c < r.fs.next_node) l
    children-All p [] here es = tt
    children-All p (c ∷ l) here ((name, e), es) =
        ((h.fs.tree.entries p name c here e).allocated, children-All p l here es)

    pub open_dir-IsSound : (id : ℕ) → r.next_dir_fh + 1 < 2 ^ 64 → IsSound (open_dir range id r).2
    unfolding open_dir get_node_ctx
    open_dir-IsSound id room = elim (Option-cases (load id r.fs.node_registry)) [
      | inl missing ↦ rw (missing, open_found, dir_found) h
      | inr (p, found) ↦
          let fh = add_one64 r.next_dir_fh in
          let children = range (r.fs.nodes p).children in
          let here = h.fs.registry.allocated id p found in
          rw (found, open_found, dir_found)
            (reclosed-IsSound p r.fs
              (record r { next_dir_fh = fh; open_dirs = store fh (map some children) r.open_dirs })
              (store_dir-IsSound r fh fh (map some children) h (omega arith) (omega arith) (
                AreEntries-map r.fs.next_node children
                  (children-All p children here (ranged (r.fs.nodes p).children)))))
    ]

module _ (env : Env) where
  open env use {World}

  read_reply-IsSound :
      (r : FuseRaw) (o : Result (List ℕ) × FileSystem × World)
      → IsSound (record r { fs = o.1 })
      → IsSound (read_reply env r o).1
  unfolding read_reply
  read_reply-IsSound r (ok bytes, s, w) h = h
  read_reply-IsSound r (err e, s, w) h = h
  read_reply-IsSound r (panics, s, w) h = h

  pub read-IsSound :
      (r : FuseRaw) (fh offset size : ℕ) (w : World)
      → IsSound r
      → IsSound (Fuse.read env fh offset size r w).1
  unfolding Fuse.read
  read-IsSound r fh offset size w h = elim (Option-cases (load fh r.open_files)) [
    | inl missing ↦ rw (missing, read_handle) h
    | inr (id, found) ↦
        let same = next_node-read (background env) id (of_u64 offset) (pos size) r.fs w in
        rw (found, read_handle)
          (read_reply-IsSound r _ (
            with_fs-IsSound r _ h (read-IsSoundFs (background env) id _ _ r.fs w h.fs)
              (omega (arith, same))))
  ]
