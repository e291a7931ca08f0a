-- ===== src/Fs/Growth.antt =====
-- The file system of filesystem/fs.go grows: what a new child keeps, on the whole tree.
use webfs.Base.{ℕ, ◌≤◌, ◌<◌, ◌≡◌, refl, ◌∙◌, none, List, [], ◌∷◌, arith}
use webfs.Base.Maps.{Text, load, text_eq}
use webfs.Inode.{Inode}
use webfs.Node.{FileSystem, make_child}
use webfs.Node.Tree.{IsTree}
use webfs.Node.Tree.Child.{after-next_node, after-root}
use webfs.Node.Numbers.{
  KeepsNumbers, KeepsNumbers-refl, KeepsNumbers-trans, make_child-KeepsNumbers,
}
use webfs.Node.Walks.{Walk, Walk-kept}

-- The tree has grown: what names led to before, they lead to now, and the numbers of the registry
-- are as they were.
pub record Grows (s s' : FileSystem) : Type 0 where
  pub same_root : s'.root ≡ s.root
  pub more : s.next_node ≤ s'.next_node
  pub walks : (p c : ℕ) (ks : List Text) → p < s.next_node → Walk s p ks c → Walk s' p ks c
  pub numbers : KeepsNumbers s s'

pub Grows-refl : (s : FileSystem) → Grows s s
Grows-refl s = record {
  same_root = refl;
  more = omega arith;
  walks = λ p c ks h w. w;
  numbers = KeepsNumbers-refl s;
}

pub Grows-trans : (s t u : FileSystem) → Grows s t → Grows t u → Grows s u
Grows-trans s t u g h =
    let more_g = g.more in
    let more_h = h.more in
    record {
      same_root = h.same_root ∙ g.same_root;
      more = omega arith;
      walks = λ p c ks lt w. h.walks p c ks (omega arith) (g.walks p c ks lt w);
      numbers = KeepsNumbers-trans s t u g.numbers h.numbers;
    }

-- The counter of inode numbers and the started goroutines are no part of the tree.
abbrev pub recount : ℕ → List ℕ → FileSystem → FileSystem
recount ino pending s = record s { last_ino = ino; pending = pending }

pub recount-IsTree :
    (ino : ℕ) (pending : List ℕ) (s : FileSystem) → IsTree s → IsTree (recount ino pending s)
recount-IsTree ino pending s t = record {
  root_allocated = t.root_allocated;
  root_parent = t.root_parent;
  root_ino = t.root_ino;
  inode_allocated = t.inode_allocated;
  parents = t.parents;
  entries = λ p k c h e.
      let entry = t.entries p k c h e in
      record {
        later = entry.later;
        allocated = entry.allocated;
        named = entry.named;
        parented = entry.parented;
        live = entry.live;
      };
}

pub Walk-recount :
    (ino : ℕ) (pending : List ℕ) (s : FileSystem) (p c : ℕ) (ks : List Text)
    → Walk s p ks c
    → Walk (recount ino pending s) p ks c
Walk-recount ino pending s p c [] w = w
Walk-recount ino pending s p c (k ∷ ks) (q, e, w) = (q, e, Walk-recount ino pending s q c ks w)

-- A child made under a free name, in a state that is numbered anew.
pub make_child-Grows :
    (p : ℕ) (name : Text) (n : Inode) (ino : ℕ) (pending : List ℕ) (s : FileSystem)
    → IsTree s
    → p < s.next_node
    → load name (s.nodes p).children ≡ none
    → Grows s (make_child p name n (recount ino pending s)).1
make_child-Grows p name n ino pending s t here absent =
    let s' = recount ino pending s in
    let kept = make_child-KeepsNumbers p name n s' here absent in
    let next = after-next_node p name n s' here absent in
    record {
      same_root = after-root p name n s' here absent;
      more = omega (arith, next);
      walks = λ q c ks h w.
          Walk-kept p name n s' here absent (recount-IsTree ino pending s t) q c ks h
            (Walk-recount ino pending s q c ks w);
      numbers = record {
        more = kept.more;
        numbers = kept.numbers;
        unnumbered = kept.unnumbered;
        same_registry = kept.same_registry;
        same_last = kept.same_last;
        same_readers = kept.same_readers;
      };
    }
