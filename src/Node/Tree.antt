-- ===== src/Node/Tree.antt =====
-- The tree that the nodes form: its invariant.
pub mod Child
pub mod Kept
use mathlib.Core.Option.{some-injective}
use webfs.Base.{
  ℕ, ◌+◌, ◌<◌, ◌≡◌, ◌≢◌, refl, sym, ap, subst, ◌∙◌, inl, inr, true, false, ◌&&◌, Option, none, some,
  arith, nat_beq, Bool-cases, if◌then◌else◌,
}
use webfs.Base.Maps.{Text, load, store, text_eq, text_beq, text_beq_iff, load-store}
use webfs.Base.Result.{ok}
use webfs.Inode.{Inode, add_hard_link}
use webfs.Node.{
  Node, FileSystem, ino_of, alloc_inode, fresh_node, new_node, add_child, replace_existing,
  set_parent, link, make_child,
}

-- The entry `name ↦ c` in the children of p: c was made after p, knows its name and its parent, and
-- is not deleted.
pub record IsChild (s : FileSystem) (p : ℕ) (name : Text) (c : ℕ) : Type 0 where
  pub later : p < c
  pub allocated : c < s.next_node
  pub named : (s.nodes c).name ≡ name
  pub parented : (s.nodes c).parent ≡ some p
  pub live : (s.nodes c).is_del ≡ false

pub record IsTree (s : FileSystem) : Type 0 where
  pub root_allocated : s.root < s.next_node
  pub root_parent : (s.nodes s.root).parent ≡ none
  pub root_ino : ino_of s s.root ≡ 1
  pub inode_allocated : (p : ℕ) → p < s.next_node → (s.nodes p).inode < s.next_inode
  pub parents : (p q : ℕ) → p < s.next_node → (s.nodes p).parent ≡ some q → q < p
  pub entries :
      (p : ℕ) (name : Text) (c : ℕ)
      → p < s.next_node
      → load name (s.nodes p).children ≡ some c
      → IsChild s p name c
