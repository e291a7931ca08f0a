-- ===== src/Fuse/ReadDir/Listed.antt =====
-- ReadDir of fuse/server.go and the invariant of FuseRaw.
use webfs.Base.{
  ℕ, ◌≡◌, Option, none, some, [], ◌∷◌, ◌++◌, take, drop, length, All-append, arith, inl, inr, leb,
  Bool-cases, Option-cases,
}
use webfs.Base.Maps.{load, store, nat_eq}
use webfs.Node.{FileSystem}
use webfs.Session.{r_lock, new_node_context, open_found, get_node_ctx}
use webfs.Fuse.{FuseRaw, Snapshot, DirEntry}
use webfs.Fuse.ReadDir.{entry_of, after_add, list_entries, list_from, read_dir_found, read_dir}
use webfs.Fuse.Invariant.{IsSound, AreEntries, AreEntries-split, store_dir-IsSound}
use webfs.Fuse.Soundness.{reclosed-IsSound}

module _ {O : Type 0} (add : DirEntry → O → Option O) where
  list_entries-AreEntries :
      (n : ℕ) (s : FileSystem) (snapshot : Snapshot) (out : O)
      → AreEntries n snapshot
      → AreEntries n (list_entries add s snapshot out).0
  unfolding list_entries after_add
  list_entries-AreEntries n s [] out es = tt
  list_entries-AreEntries n s (none ∷ rest) out (e, es) =
      (tt, list_entries-AreEntries n s rest out es)
  list_entries-AreEntries n s (some p ∷ rest) out (e, es) = elim (Bool-cases (s.nodes p).is_del) [
    | inl gone ↦ rw gone ((tt, list_entries-AreEntries n s rest out es))
    | inr here ↦ elim (Option-cases (add (entry_of s p) out)) [
      | inl full ↦ rw (here, full) ((e, es))
      | inr (out', added) ↦ rw (here, added) ((e, list_entries-AreEntries n s rest out' es))
    ]
  ]

  rewritten :
      (fh offset : ℕ) (s : FileSystem) (children : Snapshot) (out : O) (r : FuseRaw)
      → IsSound r
      → load fh r.open_dirs ≡ some children
      → IsSound (record r {
        open_dirs =
            store fh
              (take offset children ++ (list_entries add s (drop offset children) out).0)
              r.open_dirs;
      })
  rewritten fh offset s children out r h opened =
      let (given, es) = h.dirs fh children opened in
      let (front, back) = AreEntries-split r.fs.next_node offset children es in
      store_dir-IsSound r fh r.next_dir_fh _ h given (omega arith) (
        All-append _ (take offset children) _ front
          (list_entries-AreEntries r.fs.next_node s (drop offset children) out back))

  pub read_dir-IsSound :
      (id fh offset : ℕ) (out : O) (r : FuseRaw)
      → IsSound r
      → IsSound (read_dir add id fh offset out r).2
  unfolding read_dir get_node_ctx new_node_context
  read_dir-IsSound id fh offset out r h = elim (Option-cases (load id r.fs.node_registry)) [
    | inl missing ↦ rw (missing, open_found, read_dir_found) h
    | inr (p, found) ↦ elim (Option-cases (load fh r.open_dirs)) [
      | inl closed ↦
          rw (found, open_found, read_dir_found, closed, list_from) (reclosed-IsSound p r.fs r h)
      | inr (children, opened) ↦ elim (Bool-cases (leb (length children) offset)) [
        | inl past ↦
            rw (found, open_found, read_dir_found, opened, list_from, past)
              (reclosed-IsSound p r.fs r h)
        | inr within ↦
            rw (found, open_found, read_dir_found, opened, list_from, within)
              (reclosed-IsSound p r.fs
                (record r {
                  open_dirs =
                      store fh
                        (take offset children
                          ++ (list_entries add (r_lock p r.fs) (drop offset children) out).0)
                        r.open_dirs;
                })
                (rewritten fh offset (r_lock p r.fs) children out r h opened))
      ]
    ]
  ]
