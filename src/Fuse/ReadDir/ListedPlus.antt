-- ===== src/Fuse/ReadDir/ListedPlus.antt =====
-- ReadDirPlus of fuse/server.go and the invariant of FuseRaw.
use webfs.Base.{
  ℕ, ◌+◌, ◌-◌, ◌<◌, ◌^◌, ◌≡◌, refl, sym, ap, subst, ◌∙◌, Option, none, some, [], ◌∷◌, ◌++◌, take,
  drop, length, All-append, length-drop, arith, inl, inr, leb, Bool-cases, Option-cases,
}
use webfs.Base.Maps.{load, store, nat_eq}
use webfs.Node.{FileSystem, update}
use webfs.Node.Tree.{IsTree}
use webfs.Node.Kept.{KeepsTree-IsTree}
use webfs.Session.{r_lock, r_unlock, new_node_context, ensure_node_id, open_found, get_node_ctx}
use webfs.Session.Ids.{IsRegistry, ensure_node_id-IsRegistry}
use webfs.Session.Kept.{
  ensure_node_id-KeepsTree, readers-ensure_node_id, last-ensure_node_id, r_unlock-r_lock,
}
use webfs.Session.Sound.{relocked}
use webfs.Fuse.{FuseRaw, Snapshot, DirEntry, EntryOut}
use webfs.Fuse.ReadDir.{
  entry_of, entry_out_of, after_lookup_entry, list_entries_plus, plus_from, plus_found,
  read_dir_plus,
}
use webfs.Fuse.Invariant.{IsSound, AreEntries, AreEntries-split, with_fs-IsSound, store_dir-IsSound}
use webfs.Fuse.Soundness.{reclosed-IsSound}

module _ {O : Type 0} (add_lookup : DirEntry → O → Option (EntryOut → O)) where
  -- What the loop of ReadDirPlus leaves of a state
  pub record IsListedPlus (s : FileSystem) (out : Snapshot × O × FileSystem) : Type 0 where
    pub tree : IsTree out.2
    pub registry : IsRegistry out.2
    pub same_next : out.2.next_node ≡ s.next_node
    pub same_readers : out.2.readers ≡ s.readers
    pub entries : AreEntries s.next_node out.0

  list_entries_plus-IsListedPlus :
      (snapshot : Snapshot) (out : O) (s : FileSystem)
      → IsTree s
      → IsRegistry s
      → AreEntries s.next_node snapshot
      → s.last_node_id + length snapshot < 2 ^ 64
      → IsListedPlus s (list_entries_plus add_lookup snapshot out s)
  unfolding list_entries_plus after_lookup_entry
  list_entries_plus-IsListedPlus [] out s t r es room = record {
    tree = t;
    registry = r;
    same_next = refl;
    same_readers = refl;
    entries = tt;
  }
  list_entries_plus-IsListedPlus (none ∷ rest) out s t r (e, es) room =
      let l = list_entries_plus-IsListedPlus rest out s t r es (omega arith) in
      record {
        tree = l.tree;
        registry = l.registry;
        same_next = l.same_next;
        same_readers = l.same_readers;
        entries = (tt, l.entries);
      }
  list_entries_plus-IsListedPlus (some p ∷ rest) out s t r (e, es) room =
      elim (Bool-cases (s.nodes p).is_del) [
        | inl gone ↦
            let l = list_entries_plus-IsListedPlus rest out s t r es (omega arith) in
            rw gone (record {
              tree = l.tree;
              registry = l.registry;
              same_next = l.same_next;
              same_readers = l.same_readers;
              entries = (tt, l.entries);
            })
        | inr here ↦ elim (Option-cases (add_lookup (entry_of s p) out)) [
          | inl full ↦
              rw (here, full)
                (record {
                  tree = t;
                  registry = r;
                  same_next = refl;
                  same_readers = refl;
                  entries = (e, es);
                })
          | inr (fill, added) ↦
              let s1 = (ensure_node_id p s).1 in
              let k = ensure_node_id-KeepsTree p s in
              let r1 = (ensure_node_id-IsRegistry p s r e (omega arith)).0 in
              let few = last-ensure_node_id p s (omega arith) in
              let filled = fill (entry_out_of (ensure_node_id p s).0 s p) in
              let l =
                list_entries_plus-IsListedPlus rest filled s1 (KeepsTree-IsTree s s1 k t) r1
                  (subst (λ n. AreEntries n rest) (sym k.same_next) es) (omega arith) in
              rw (here, added)
                (record {
                  tree = l.tree;
                  registry = l.registry;
                  same_next = l.same_next ∙ k.same_next;
                  same_readers = l.same_readers ∙ readers-ensure_node_id p s;
                  entries = (
                    e,
                    subst (λ n. AreEntries n (list_entries_plus add_lookup rest filled s1).0)
                        k.same_next l.entries,
                  );
                })
        ]
      ]

  renumbered :
      (p fh offset : ℕ) (children : Snapshot) (out : O) (r : FuseRaw)
      → IsSound r
      → load fh r.open_dirs ≡ some children
      → r.fs.last_node_id + length children < 2 ^ 64
      → let (rest, _, s) =
          list_entries_plus add_lookup (drop offset children) out (r_lock p r.fs) in
        IsSound (record r {
          fs = r_unlock p s;
          open_dirs = store fh (take offset children ++ rest) r.open_dirs;
        })
  renumbered p fh offset children out r h opened room =
      let (given, es) = h.dirs fh children opened in
      let (front, back) = AreEntries-split r.fs.next_node offset children es in
      let (tree, registry) = relocked (r_lock p r.fs).readers r.fs h.fs.tree h.fs.registry in
      let fewer = length-drop offset children in
      let l =
        list_entries_plus-IsListedPlus (drop offset children) out (r_lock p r.fs) tree registry back
          (omega arith) in
      let (rest, _, s) = list_entries_plus add_lookup (drop offset children) out (r_lock p r.fs) in
      let (tree', registry') = relocked (r_unlock p s).readers s l.tree l.registry in
      let same = l.same_next in
      with_fs-IsSound (record r { open_dirs = store fh (take offset children ++ rest) r.open_dirs })
        (r_unlock p s)
        (store_dir-IsSound r fh r.next_dir_fh _ h given (omega arith)
          (All-append _ (take offset children) rest front l.entries))
        (record {
          tree = tree';
          registry = registry';
          unlocked =
              ap (λ f. update f p (f p - 1)) l.same_readers
              ∙ ap (λ t. t.readers) (r_unlock-r_lock p r.fs)
              ∙ h.fs.unlocked;
        })
        (omega arith)

  pub read_dir_plus-IsSound :
      (id fh offset : ℕ) (out : O) (r : FuseRaw)
      → IsSound r
      → ((snapshot : Snapshot)
          → load fh r.open_dirs ≡ some snapshot
          → r.fs.last_node_id + length snapshot < 2 ^ 64)
      → IsSound (read_dir_plus add_lookup id fh offset out r).2
  unfolding read_dir_plus get_node_ctx new_node_context
  read_dir_plus-IsSound id fh offset out r h room =
      elim (Option-cases (load id r.fs.node_registry)) [
        | inl missing ↦ rw (missing, open_found, plus_found) h
        | inr (p, found) ↦ elim (Option-cases (load fh r.open_dirs)) [
          | inl closed ↦
              rw (found, open_found, plus_found, closed, plus_from) (reclosed-IsSound p r.fs r h)
          | inr (children, opened) ↦ elim (Bool-cases (leb (length children) offset)) [
            | inl past ↦
                rw (found, open_found, plus_found, opened, plus_from, past)
                  (reclosed-IsSound p r.fs r h)
            | inr within ↦
                rw (found, open_found, plus_found, opened, plus_from, within)
                  (renumbered p fh offset children out r h opened (room children opened))
          ]
        ]
      ]
