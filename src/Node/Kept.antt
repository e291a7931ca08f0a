-- ===== src/Node/Kept.antt =====
-- Steps that leave the tree of nodes as it is: they write NodeIDs, locks, caches and times only.
use webfs.Base.{ℕ, ◌≡◌, refl, sym, ap, subst, ◌∙◌, some, arith}
use webfs.Base.Maps.{Map, Text, load, text_eq}
use webfs.Inode.{Inode}
use webfs.Node.{Node, FileSystem, set_inode, ino_of}
use webfs.Node.Tree.{IsTree}

pub record KeepsTree (s s' : FileSystem) : Type 0 where
  pub same_root : s'.root ≡ s.root
  pub same_next : s'.next_node ≡ s.next_node
  pub same_next_inode : s'.next_inode ≡ s.next_inode
  pub name : (q : ℕ) → (s'.nodes q).name ≡ (s.nodes q).name
  pub parent : (q : ℕ) → (s'.nodes q).parent ≡ (s.nodes q).parent
  pub children : (q : ℕ) → (s'.nodes q).children ≡ (s.nodes q).children
  pub is_del : (q : ℕ) → (s'.nodes q).is_del ≡ (s.nodes q).is_del
  pub inode : (q : ℕ) → (s'.nodes q).inode ≡ (s.nodes q).inode
  pub ino : (i : ℕ) → (s'.inodes i).attr.ino ≡ (s.inodes i).attr.ino

-- A change of the registry, the counters and the locks.
pub KeepsTree-same :
    (s s' : FileSystem)
    → s'.nodes ≡ s.nodes
    → s'.inodes ≡ s.inodes
    → s'.root ≡ s.root
    → s'.next_node ≡ s.next_node
    → s'.next_inode ≡ s.next_inode
    → KeepsTree s s'
KeepsTree-same s s' nodes inodes root next next_inode = record {
  same_root = root;
  same_next = next;
  same_next_inode = next_inode;
  name = λ q. ap (λ (f : ℕ → Node). (f q).name) nodes;
  parent = λ q. ap (λ (f : ℕ → Node). (f q).parent) nodes;
  children = λ q. ap (λ (f : ℕ → Node). (f q).children) nodes;
  is_del = λ q. ap (λ (f : ℕ → Node). (f q).is_del) nodes;
  inode = λ q. ap (λ (f : ℕ → Node). (f q).inode) nodes;
  ino = λ i. ap (λ (f : ℕ → Inode). (f i).attr.ino) inodes;
}

pub KeepsTree-trans : (s t u : FileSystem) → KeepsTree s t → KeepsTree t u → KeepsTree s u
KeepsTree-trans s t u g h = record {
  same_root = h.same_root ∙ g.same_root;
  same_next = h.same_next ∙ g.same_next;
  same_next_inode = h.same_next_inode ∙ g.same_next_inode;
  name = λ q. h.name q ∙ g.name q;
  parent = λ q. h.parent q ∙ g.parent q;
  children = λ q. h.children q ∙ g.children q;
  is_del = λ q. h.is_del q ∙ g.is_del q;
  inode = λ q. h.inode q ∙ g.inode q;
  ino = λ i. h.ino i ∙ g.ino i;
}

-- Writing an inode with the number that it had.
pub set_inode-KeepsTree :
    (i : ℕ) (n : Inode) (s : FileSystem)
    → n.attr.ino ≡ (s.inodes i).attr.ino
    → KeepsTree s (set_inode i n s)
set_inode-KeepsTree i n s same = record {
  same_root = refl;
  same_next = refl;
  same_next_inode = refl;
  name = λ q. refl;
  parent = λ q. refl;
  children = λ q. refl;
  is_del = λ q. refl;
  inode = λ q. refl;
  ino = λ j. ground (arith, same);
}

pub ino_of-KeepsTree : (s s' : FileSystem) (p : ℕ) → KeepsTree s s' → ino_of s' p ≡ ino_of s p
ino_of-KeepsTree s s' p k = ap (λ i. (s'.inodes i).attr.ino) (k.inode p) ∙ k.ino (s.nodes p).inode

-- Such a step keeps the tree.
pub KeepsTree-IsTree : (s s' : FileSystem) → KeepsTree s s' → IsTree s → IsTree s'
KeepsTree-IsTree s s' k t = record {
  root_allocated = rw (k.same_root, k.same_next) t.root_allocated;
  root_parent = rw k.same_root (k.parent s.root ∙ t.root_parent);
  root_ino = rw k.same_root (ino_of-KeepsTree s s' s.root k ∙ t.root_ino);
  inode_allocated =
      λ p h. rw (k.inode p, k.same_next_inode) (t.inode_allocated p (rw k.same_next at h));
  parents = λ p q h e. t.parents p q (rw k.same_next at h) (sym (k.parent p) ∙ e);
  entries = λ p name c h e.
      let old =
        t.entries p name c (rw k.same_next at h)
          (subst (λ (m : Map Text ℕ). load name m ≡ some c) (k.children p) e) in
      record {
        later = old.later;
        allocated = rw k.same_next old.allocated;
        named = k.name c ∙ old.named;
        parented = k.parent c ∙ old.parented;
        live = k.is_del c ∙ old.live;
      };
}
