-- ===== src/Session/Sound.antt =====
-- The invariant of the file system between two calls of filesystem/fs.go.
use webfs.Base.{ℕ, ◌+◌, ◌<◌, ◌^◌, ◌≡◌, refl, sym, ap, subst, ◌∙◌, List, inl, inr, Option-cases}
use webfs.Base.Int.{ℤ}
use webfs.Base.Maps.{load, nat_eq, text_eq}
use webfs.External.{Env}
use webfs.Inode
use webfs.Inode.{refresh_meta}
use webfs.Inode.Attributes.{attr-read}
use webfs.Node.{FileSystem, set_inode}
use webfs.Node.Tree.{IsTree}
use webfs.Node.Kept.{KeepsTree, KeepsTree-same, KeepsTree-IsTree, set_inode-KeepsTree}
use webfs.Fs.{NodeRequest, FileCreateRequest, new_fs, add_dir_node, add_file_node}
use webfs.Fs.Dirs.{add_dir_node-Arrived}
use webfs.Fs.Growth.{Grows}
use webfs.Fs.Files.{add_file_node-Added}
use webfs.Session.{ensure_node_id, forget_node_id, open_found, forget_with, read_in, read}
use webfs.Session.Ids.{IsRegistry, ensure_node_id-IsRegistry}
use webfs.Session.Forget.{forget_node_id-IsRegistry}
use webfs.Session.Locks.{readers-forget_node_id}
use webfs.Session.Start.{new_fs_sound}
use webfs.Session.Kept.{
  KeepsNumbers-IsRegistry, ensure_node_id-KeepsTree, readers-ensure_node_id, r_unlock-r_lock,
}

-- The nodes form a tree, the registry is sound, and no node is locked.
pub record IsSoundFs (s : FileSystem) : Type 0 where
  pub tree : IsTree s
  pub registry : IsRegistry s
  pub unlocked : s.readers ≡ λ p. 0

pub new_fs-IsSoundFs : (env : Env) (w : env.World) → IsSoundFs (new_fs env w).0
unfolding new_fs
new_fs-IsSoundFs env w =
    let (tree, registry, _) = new_fs_sound env w in
    record { tree = tree; registry = registry; unlocked = refl }

pub Grows-IsSoundFs : (s s' : FileSystem) → Grows s s' → IsTree s' → IsSoundFs s → IsSoundFs s'
Grows-IsSoundFs s s' g t h = record {
  tree = t;
  registry = KeepsNumbers-IsRegistry s s' g.numbers h.registry;
  unlocked = g.numbers.same_readers ∙ h.unlocked;
}

pub ensure_node_id-IsSoundFs :
    (p : ℕ) (s : FileSystem)
    → p < s.next_node
    → s.last_node_id + 1 < 2 ^ 64
    → IsSoundFs s
    → IsSoundFs (ensure_node_id p s).1
ensure_node_id-IsSoundFs p s here room h = record {
  tree = KeepsTree-IsTree s (ensure_node_id p s).1 (ensure_node_id-KeepsTree p s) h.tree;
  registry = (ensure_node_id-IsRegistry p s h.registry here room).0;
  unlocked = readers-ensure_node_id p s ∙ h.unlocked;
}

forget_node_id-KeepsTree : (id : ℕ) (s : FileSystem) → KeepsTree s (forget_node_id id s)
unfolding forget_node_id
forget_node_id-KeepsTree id s = elim (Option-cases (load id s.node_registry)) [
  | inl missing ↦
      rw (missing, open_found, forget_with) (KeepsTree-same s s refl refl refl refl refl)
  | inr (p, found) ↦
      rw (found, open_found, forget_with) (KeepsTree-same s _ refl refl refl refl refl)
]

pub forget_node_id-IsSoundFs :
    (id : ℕ) (s : FileSystem) → IsSoundFs s → IsSoundFs (forget_node_id id s)
forget_node_id-IsSoundFs id s h = record {
  tree = KeepsTree-IsTree s (forget_node_id id s) (forget_node_id-KeepsTree id s) h.tree;
  registry = forget_node_id-IsRegistry id s h.registry;
  unlocked = readers-forget_node_id id s ∙ h.unlocked;
}

-- The tree and the registry do not depend on the locks.
pub relocked :
    (readers : ℕ → ℕ) (s : FileSystem)
    → IsTree s
    → IsRegistry s
    → IsTree (record s { readers = readers }) × IsRegistry (record s { readers = readers })
relocked readers s t r = (
  KeepsTree-IsTree s (record s { readers = readers }) (KeepsTree-same s _ refl refl refl refl refl)
      t,
  record {
    carried = r.carried;
    bounded = r.bounded;
    unique = r.unique;
    nonzero = r.nonzero;
    allocated = r.allocated;
  },
)

-- Writing an inode with the number that it had.
pub set_inode-IsSoundFs :
    (i : ℕ) (n : Inode.Inode) (pending : List ℕ) (s : FileSystem)
    → n.attr.ino ≡ (s.inodes i).attr.ino
    → IsSoundFs s
    → IsSoundFs (record (set_inode i n s) { pending = pending })
set_inode-IsSoundFs i n pending s same h =
    let s1 = set_inode i n s in
    let s2 = record s1 { pending = pending } in
    record {
      tree =
          KeepsTree-IsTree s1 s2 (KeepsTree-same s1 s2 refl refl refl refl refl)
            (KeepsTree-IsTree s s1 (set_inode-KeepsTree i n s same) h.tree);
      registry = record {
        carried = h.registry.carried;
        bounded = h.registry.bounded;
        unique = h.registry.unique;
        nonzero = h.registry.nonzero;
        allocated = h.registry.allocated;
      };
      unlocked = h.unlocked;
    }

module _ (env : Env) where
  open env use {World}

  pub add_dir_node-IsSoundFs :
      (req : NodeRequest) (s : FileSystem) (w : World)
      → IsSoundFs s
      → IsSoundFs (add_dir_node env req s w).1
  add_dir_node-IsSoundFs req s w h =
      let a = add_dir_node-Arrived env req s w h.tree in
      Grows-IsSoundFs s (add_dir_node env req s w).1 a.grows a.tree h

  pub add_file_node-IsSoundFs :
      (req : FileCreateRequest) (s : FileSystem) (w : World)
      → IsSoundFs s
      → IsSoundFs (add_file_node env req s w).1
  add_file_node-IsSoundFs req s w h =
      let a = add_file_node-Added env req s w h.tree in
      Grows-IsSoundFs s (add_file_node env req s w).1 a.grows a.tree h

  pub read-IsSoundFs :
      (id : ℕ) (offset size : ℤ) (s : FileSystem) (w : World)
      → IsSoundFs s
      → IsSoundFs (read env id offset size s w).1
  unfolding read
  read-IsSoundFs id offset size s w h = elim (Option-cases (load id s.node_registry)) [
    | inl missing ↦ rw (missing, open_found, read_in) h
    | inr (p, found) ↦
        let i = (s.nodes p).inode in
        let n = (Inode.read env offset size (s.inodes i) w).1 in
        rw (found, open_found, read_in)
          (subst IsSoundFs (sym (r_unlock-r_lock p (set_inode i n s))) (
            set_inode-IsSoundFs i n s.pending s
              (ap (λ a. a.ino) (attr-read env offset size (s.inodes i) w)) h))
  ]

  pub next_node-read :
      (id : ℕ) (offset size : ℤ) (s : FileSystem) (w : World)
      → (read env id offset size s w).1.next_node ≡ s.next_node
  unfolding read
  next_node-read id offset size s w = elim (Option-cases (load id s.node_registry)) [
    | inl missing ↦ rw (missing, open_found, read_in)
    | inr (p, found) ↦ rw (found, open_found, read_in)
  ]
