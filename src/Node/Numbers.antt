-- ===== src/Node/Numbers.antt =====
-- The numbers of the registry when nodes are made (filesystem/node.go).
use webfs.Base.{ℕ, ◌≤◌, ◌<◌, ◌≡◌, refl, ap, ◌∙◌, inl, inr, none, arith, ltb, Bool-cases}
use webfs.Base.Maps.{Text, load, text_eq}
use webfs.Inode.{Inode}
use webfs.Node.{Node, FileSystem, new_node, make_child}
use webfs.Node.Tree.Child.{after_lem, after-next_node, kept, new_node_lem}

-- Old nodes keep their numbers, new ones have none, and neither the registry nor the read locks
-- have changed.
pub record KeepsNumbers (s s' : FileSystem) : Type 0 where
  pub more : s.next_node ≤ s'.next_node
  pub numbers : (q : ℕ) → q < s.next_node → (s'.nodes q).node_id ≡ (s.nodes q).node_id
  pub unnumbered : (q : ℕ) → s.next_node ≤ q → q < s'.next_node → (s'.nodes q).node_id ≡ 0
  pub same_registry : s'.node_registry ≡ s.node_registry
  pub same_last : s'.last_node_id ≡ s.last_node_id
  pub same_readers : s'.readers ≡ s.readers

pub KeepsNumbers-refl : (s : FileSystem) → KeepsNumbers s s
KeepsNumbers-refl s = record {
  more = omega arith;
  numbers = λ q h. refl;
  unnumbered = λ q h k. absurd (omega arith);
  same_registry = refl;
  same_last = refl;
  same_readers = refl;
}

pub KeepsNumbers-trans :
    (s t u : FileSystem) → KeepsNumbers s t → KeepsNumbers t u → KeepsNumbers s u
KeepsNumbers-trans s t u g h =
    let first = g.more in
    let second = h.more in
    record {
      more = omega arith;
      numbers = λ q k. h.numbers q (omega arith) ∙ g.numbers q k;
      unnumbered = λ q old new. elim (Bool-cases (ltb q t.next_node)) [
        | inl early ↦ h.numbers q (ground arith) ∙ g.unnumbered q old (ground arith)
        | inr late ↦ h.unnumbered q (ground arith) new
      ];
      same_registry = h.same_registry ∙ g.same_registry;
      same_last = h.same_last ∙ g.same_last;
      same_readers = h.same_readers ∙ g.same_readers;
    }

pub make_child-KeepsNumbers :
    (p : ℕ) (name : Text) (n : Inode) (s : FileSystem)
    → p < s.next_node
    → load name (s.nodes p).children ≡ none
    → KeepsNumbers s (make_child p name n s).1
unfolding new_node
make_child-KeepsNumbers p name n s here absent =
    let next = after-next_node p name n s here absent in
    let same = after_lem p name n s here absent in
    record {
      more = omega (arith, next);
      numbers = λ q h. (kept p name n s here absent q h).4;
      unnumbered = λ q old new.
          let last : q ≡ s.next_node = omega (arith, next) in
          ap (λ k. ((make_child p name n s).1.nodes k).node_id) last
          ∙ ap (λ (m : Node). m.node_id) (new_node_lem p name n s here absent);
      same_registry = ap (λ t. t.node_registry) same;
      same_last = ap (λ t. t.last_node_id) same;
      same_readers = ap (λ t. t.readers) same;
    }
