-- ===== src/Node/Removal.antt =====
-- RemoveChild of filesystem/node.go.
use mathlib.Core.Option.{some-injective}
use webfs.Base.{
  ℕ, suc, ◌<◌, ◌≡◌, ◌≢◌, refl, sym, ap, ◌∙◌, inl, inr, true, false, ◌&&◌, none, some, arith,
  nat_beq, Bool-cases, if◌then◌else◌,
}
use webfs.Base.Maps.{Text, load, delete, text_eq, text_beq, text_beq_iff, load-delete}
use webfs.Base.Result.{detached_node}
use webfs.Node.{
  FileSystem, ino_of, is_root, path_from, path, get_child, set_parent, unlink, remove_found,
  remove_child,
}
use webfs.Node.Tree.{IsTree, IsChild}

module _ (p c : ℕ) (name : Text) (s : FileSystem) (t : IsTree s) (here : p < s.next_node)
    (entry : load name (s.nodes p).children ≡ some c) where
  abbrev pub after : FileSystem
  after = set_parent none c (unlink p name s)

  removed : remove_child p name s ≡ (true, after)
  unfolding remove_child
  removed = rw (entry, remove_found)

  abbrev child : IsChild s p name c
  child = t.entries p name c here entry

  apart : nat_beq p c ≡ false
  apart = let later = child.later in ground arith

  nodes-after :
      (q : ℕ)
      → after.nodes q ≡ (
          if nat_beq c q
          then record (s.nodes c) { parent = none }
          else if nat_beq p q
          then record (s.nodes p) { children = delete name (s.nodes p).children }
          else s.nodes q)
  nodes-after q = rw apart

  -- All but the parent of the child and the children of its parent is kept.
  fields :
      (q : ℕ)
      → ((after.nodes q).name ≡ (s.nodes q).name)
        × ((after.nodes q).is_del ≡ (s.nodes q).is_del)
        × ((after.nodes q).inode ≡ (s.nodes q).inode)
  fields q = ground (arith, nodes-after q)

  parent-after :
      (q : ℕ) → (after.nodes q).parent ≡ (if nat_beq c q then none else (s.nodes q).parent)
  parent-after q = ground (arith, nodes-after q)

  load-after :
      (q : ℕ) (k : Text)
      → load k (after.nodes q).children
        ≡ (if nat_beq p q && text_beq name k then none else load k (s.nodes q).children)
  load-after q k = ground (arith, apart, nodes-after q, load-delete name k (s.nodes p).children)

  entries-after :
      (q : ℕ) (k : Text) (d : ℕ)
      → q < s.next_node
      → load k (after.nodes q).children ≡ some d
      → IsChild after q k d
  entries-after q k d hq e = elim (Bool-cases (nat_beq p q && text_beq name k)) [
    | inl gone ↦ absurd (ground (arith, load-after q k))
    | inr kept ↦
        let old = t.entries q k d hq (ground (arith, load-after q k)) in
        let other : nat_beq c d ≡ false = elim (Bool-cases (nat_beq c d)) [
          | inl same ↦
              let cd : c ≡ d = ground arith in
              let pq : p ≡ q =
                some-injective p q
                  (sym child.parented ∙ ap (λ x. (s.nodes x).parent) cd ∙ old.parented) in
              let nk : name ≡ k = sym child.named ∙ ap (λ x. (s.nodes x).name) cd ∙ old.named in
              let same_name : text_beq name k ≡ true = (text_beq_iff name k).1 nk in
              absurd (ground arith)
          | inr differ ↦ differ
        ] in
        let (name_eq, del_eq, _) = fields d in
        record {
          later = old.later;
          allocated = old.allocated;
          named = name_eq ∙ old.named;
          parented = parent-after d ∙ rw other old.parented;
          live = del_eq ∙ old.live;
        }
  ]

  IsTree-after : IsTree after
  IsTree-after = record {
    root_allocated = t.root_allocated;
    root_parent = let root = t.root_parent in ground (arith, parent-after s.root);
    root_ino = ap (λ i. (s.inodes i).attr.ino) (fields s.root).2 ∙ t.root_ino;
    inode_allocated = λ q h. rw (fields q).2 (t.inode_allocated q h);
    parents = λ q r h e. ground (arith, parent-after q, t.parents q r h);
    entries = entries-after;
  }

  path-after :
      (fuel : ℕ) → ino_of s c ≢ 1 → path (suc fuel) after c ≡ some (name, some (detached_node name))
  unfolding path path_from is_root
  path-after fuel not_root =
      let self : nat_beq c c ≡ true = ground arith in
      let other : nat_beq (ino_of s c) 1 ≡ false = ground arith in
      let named = child.named in
      let live = child.live in
      let number : ino_of after c ≡ ino_of s c = ap (λ i. (s.inodes i).attr.ino) (fields c).2 in
      let not_deleted : (after.nodes c).is_del ≡ false = (fields c).1 ∙ live in
      let same_name : (after.nodes c).name ≡ name = (fields c).0 ∙ named in
      let not_one : nat_beq (ino_of after c) 1 ≡ false = ground (arith, number) in
      let detached : (after.nodes c).parent ≡ none = parent-after c ∙ rw self in
      rw (is_root, path_from, detached, not_one, not_deleted, same_name)

  -- On a tree, RemoveChild of a name that has an entry reports true and leaves a tree, in which the
  -- name has no entry and all other entries are as before. The removed node is detached: Path of it
  -- is its name, with an error, unless its inode has the number 1.
  pub remove_child-IsTree :
      (fuel : ℕ)
      → ino_of s c ≢ 1
      → let (found, s') = remove_child p name s in
        (found ≡ true)
        × IsTree s'
        × ((q : ℕ) (k : Text)
            → get_child s' q k ≡ (if nat_beq p q && text_beq name k then none else get_child s q k))
        × (path (suc fuel) s' c ≡ some (name, some (detached_node name)))
  unfolding get_child
  remove_child-IsTree fuel not_root =
      rw removed ((refl, IsTree-after, load-after, path-after fuel not_root))
