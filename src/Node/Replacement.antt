-- ===== src/Node/Replacement.antt =====
-- AddChild of filesystem/node.go under a name that has an entry, and Del of the node it replaces.
use mathlib.Core.Option.{some-injective}
use webfs.Base.{
  ℕ, suc, ◌<◌, ◌≡◌, ◌≢◌, refl, sym, ap, subst, ◌∙◌, inl, inr, true, false, ◌&&◌, none, some, [],
  arith, nat_beq, Bool-cases, if◌then◌else◌,
}
use webfs.Base.Maps.{
  Text, load, store, delete, text_eq, text_beq, text_beq_iff, load-delete, load-store,
}
use webfs.Base.Result.{deleted_node}
use webfs.Inode.{clear_cache}
use webfs.Node.{
  FileSystem, ino_of, is_root, path_from, path, get_child, set_parent, unlink, link, del,
  replace_existing, add_child,
}
use webfs.Node.Tree.{IsTree, IsChild}

module _ (p c d : ℕ) (s : FileSystem) (t : IsTree s) (here : p < s.next_node)
    (new : c < s.next_node) (later : p < c) (live : (s.nodes c).is_del ≡ false)
    (detached : (s.nodes c).parent ≡ none)
    (entry : load (s.nodes c).name (s.nodes p).children ≡ some d) where
  abbrev name : Text
  name = (s.nodes c).name

  abbrev after : FileSystem
  after = set_parent (some p) c (link p name c (del d (unlink p name s)))

  replaced : add_child p c s ≡ after
  unfolding add_child
  replaced = rw (entry, replace_existing) refl

  old : IsChild s p name d
  old = t.entries p name d here entry

  -- The child is not the one it replaces, which has a parent.
  different : nat_beq c d ≡ false
  different = elim (Bool-cases (nat_beq c d)) [
    | inl same ↦
        let e : c ≡ d = ground arith in
        let up = ap (λ x. (s.nodes x).parent) e ∙ old.parented in absurd (cc (detached, up))
    | inr apart ↦ apart
  ]

  nodes-after :
      (q : ℕ)
      → after.nodes q ≡ (
          if nat_beq c q
          then record (s.nodes c) { parent = some p }
          else if nat_beq p q
          then record (s.nodes p) { children = store name c (delete name (s.nodes p).children) }
          else if nat_beq d q
          then record (s.nodes d) { is_del = true; parent = none }
          else s.nodes q)
  unfolding del
  nodes-after q =
      let above = old.later in
      let pd : nat_beq p d ≡ false = ground arith in
      let dp : nat_beq d p ≡ false = ground arith in
      let pc : nat_beq p c ≡ false = ground arith in
      let dc : nat_beq d c ≡ false = ground (arith, different) in
      let pp : nat_beq p p ≡ true = ground arith in
      rw (pp, pd, dp, pc, dc)
        (elim (Bool-cases (nat_beq p q)) [ inl at_p ↦ rw at_p refl | inr off_p ↦ rw off_p refl ])

  fields :
      (q : ℕ)
      → ((after.nodes q).name ≡ (s.nodes q).name) × ((after.nodes q).inode ≡ (s.nodes q).inode)
  fields q = ground (arith, nodes-after q)

  parent-after :
      (q : ℕ)
      → (after.nodes q).parent
        ≡ (if nat_beq c q then some p else if nat_beq d q then none else (s.nodes q).parent)
  parent-after q = let above = old.later in ground (arith, nodes-after q)

  del-after : (q : ℕ) → (after.nodes q).is_del ≡ (if nat_beq d q then true else (s.nodes q).is_del)
  del-after q = let above = old.later in ground (arith, nodes-after q, different)

  load-after :
      (q : ℕ) (k : Text)
      → load k (after.nodes q).children
        ≡ (if nat_beq p q && text_beq name k then some c else load k (s.nodes q).children)
  load-after q k = ground (
    arith,
    later,
    nodes-after q,
    load-store name k c (delete name (s.nodes p).children),
    load-delete name k (s.nodes p).children,
  )

  -- The cache of the replaced node's inode is cleared, and nothing else of the inodes changes.
  inodes-after :
      (i : ℕ)
      → after.inodes i
        ≡ (if nat_beq (s.nodes d).inode i then clear_cache (s.inodes i) else s.inodes i)
  unfolding del
  inodes-after i =
      let above = old.later in
      let pd : nat_beq p d ≡ false = ground arith in
      rw pd (elim (Bool-cases (nat_beq (s.nodes d).inode i)) [
        | inl same ↦
            let e : (s.nodes d).inode ≡ i = ground arith in
            rw same (ap (λ x. clear_cache (s.inodes x)) e)
        | inr other ↦ rw other refl
      ])

  attr-after : (i : ℕ) → (after.inodes i).attr ≡ (s.inodes i).attr
  unfolding clear_cache
  attr-after i = ground (arith, inodes-after i)

  ino_of-after : (q : ℕ) → ino_of after q ≡ ino_of s q
  ino_of-after q =
      ap (λ i. (after.inodes i).attr.ino) (fields q).1
      ∙ ap (λ a. a.ino) (attr-after (s.nodes q).inode)

  -- The other entries: none of them is of the new child, nor of the replaced one.
  IsChild-kept :
      (q : ℕ) (k : Text) (e : ℕ)
      → (nat_beq p q && text_beq name k) ≡ false
      → IsChild s q k e
      → IsChild after q k e
  unfolding del
  IsChild-kept q k e other h =
      let not_new : nat_beq c e ≡ false = elim (Bool-cases (nat_beq c e)) [
        | inl same ↦
            let ce : c ≡ e = ground arith in
            let up = ap (λ x. (s.nodes x).parent) ce ∙ h.parented in absurd (cc (detached, up))
        | inr apart ↦ apart
      ] in
      let not_old : nat_beq d e ≡ false = elim (Bool-cases (nat_beq d e)) [
        | inl same ↦
            let de : d ≡ e = ground arith in
            let pq : p ≡ q =
              some-injective p q
                (sym old.parented ∙ ap (λ x. (s.nodes x).parent) de ∙ h.parented) in
            let nk : name ≡ k = sym old.named ∙ ap (λ x. (s.nodes x).name) de ∙ h.named in
            let same_name : text_beq name k ≡ true = (text_beq_iff name k).1 nk in
            absurd (ground arith)
        | inr apart ↦ apart
      ] in
      record {
        later = h.later;
        allocated = h.allocated;
        named = (fields e).0 ∙ h.named;
        parented = parent-after e ∙ rw (not_new, not_old) h.parented;
        live = del-after e ∙ rw not_old h.live;
      }

  IsChild-new : IsChild after p name c
  unfolding del
  IsChild-new =
      let self : nat_beq c c ≡ true = ground arith in
      let not_old : nat_beq d c ≡ false = ground (arith, different) in
      record {
        later = later;
        allocated = new;
        named = (fields c).0;
        parented = parent-after c ∙ rw self refl;
        live = del-after c ∙ rw not_old live;
      }

  entries-after :
      (q : ℕ) (k : Text) (e : ℕ)
      → q < s.next_node
      → load k (after.nodes q).children ≡ some e
      → IsChild after q k e
  entries-after q k e h found = elim (Bool-cases (nat_beq p q && text_beq name k)) [
    | inl added ↦
        let pq : p ≡ q = ground arith in
        let nk : name ≡ k = (text_beq_iff name k).0 (ground arith) in
        let ce : c ≡ e = ground (arith, load-after q k) in
        subst (λ x. IsChild after x k e) pq
          (subst (λ x. IsChild after p x e) nk (subst (λ x. IsChild after p name x) ce IsChild-new))
    | inr other ↦ IsChild-kept q k e other (t.entries q k e h (ground (arith, load-after q k)))
  ]

  IsTree-after : c ≢ s.root → IsTree after
  unfolding del
  IsTree-after not_root =
      let other : nat_beq c s.root ≡ false = ground arith in
      record {
        root_allocated = t.root_allocated;
        root_parent = let root = t.root_parent in ground (arith, other, parent-after s.root);
        root_ino = ino_of-after s.root ∙ t.root_ino;
        inode_allocated = λ q h. rw (fields q).1 (t.inode_allocated q h);
        parents = λ q r h e. ground (arith, later, parent-after q, t.parents q r h);
        entries = entries-after;
      }

  path-after :
      (fuel : ℕ) → ino_of s d ≢ 1 → path (suc fuel) after d ≡ some ([], some (deleted_node name))
  unfolding path path_from is_root
  path-after fuel not_root =
      let self : nat_beq d d ≡ true = ground arith in
      let named = (fields d).0 ∙ old.named in
      let number = ino_of-after d in
      let not_one : nat_beq (ino_of after d) 1 ≡ false = ground arith in
      let gone : (after.nodes d).is_del ≡ true = del-after d ∙ rw self refl in
      let detached_too : (after.nodes d).parent ≡ none =
        parent-after d ∙ rw (different, self) refl in
      rw (is_root, path_from, detached_too, not_one, gone, named) refl

  cleared : after.inodes (s.nodes d).inode ≡ clear_cache (s.inodes (s.nodes d).inode)
  cleared =
      let self : nat_beq (s.nodes d).inode (s.nodes d).inode ≡ true = ground arith in
      inodes-after (s.nodes d).inode ∙ rw self refl

  -- On a tree, AddChild of a detached node that is not deleted, is not the root and was made after
  -- the parent, under a name that has an entry: the result is a tree in which the name's entry is
  -- the new child and all other entries are as before. The replaced node is deleted: the cache of
  -- its inode is cleared, and Path of it is empty, with an error that names it, unless its inode has
  -- the number 1.
  pub add_child_replacing :
      (fuel : ℕ)
      → c ≢ s.root
      → ino_of s d ≢ 1
      → let s' = add_child p c s in
        IsTree s'
        × ((q : ℕ) (k : Text)
            → get_child s' q k
              ≡ (if nat_beq p q && text_beq name k then some c else get_child s q k))
        × (s'.inodes (s.nodes d).inode ≡ clear_cache (s.inodes (s.nodes d).inode))
        × (path (suc fuel) s' d ≡ some ([], some (deleted_node name)))
  unfolding get_child
  add_child_replacing fuel not_root not_one =
      rw replaced ((IsTree-after not_root, load-after, cleared, path-after fuel not_one))
