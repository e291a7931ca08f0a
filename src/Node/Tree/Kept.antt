-- ===== src/Node/Tree/Kept.antt =====
-- The tree that the nodes form: adding a child keeps its invariant.
use mathlib.Core.Option.{some-injective}
use webfs.Base.{
  ℕ, ◌+◌, ◌<◌, ◌≡◌, sym, ap, subst, ◌∙◌, inl, inr, ◌&&◌, Option, none, some, arith, nat_beq,
  Bool-cases,
}
use webfs.Base.Maps.{Text, load, text_eq, text_beq, text_beq_iff}
use webfs.Inode.{Inode}
use webfs.Node.{Node, FileSystem, ino_of, make_child}
use webfs.Node.Tree.{IsChild, IsTree}
use webfs.Node.Tree.Child.{
  after-next_node, after-next_inode, after-root, after-inodes, new_node_lem, load-after, kept,
}

module _ (p : ℕ) (name : Text) (n : Inode) (s : FileSystem) (here : p < s.next_node)
    (absent : load name (s.nodes p).children ≡ none) where
  abbrev after : FileSystem
  after = (make_child p name n s).1

  IsChild-kept : (q c : ℕ) (k : Text) → IsChild s q k c → IsChild after q k c
  IsChild-kept q c k h =
      let allocated = h.allocated in
      let (name_eq, parent_eq, del_eq, _, _) = (kept p name n s here absent) c allocated in
      record {
        later = h.later;
        allocated = omega (arith, (after-next_node p name n s here absent));
        named = name_eq ∙ h.named;
        parented = parent_eq ∙ h.parented;
        live = del_eq ∙ h.live;
      }

  IsChild-new : IsChild after p name s.next_node
  IsChild-new = record {
    later = here;
    allocated = omega (arith, (after-next_node p name n s here absent));
    named = ap (λ (m : Node). m.name) (new_node_lem p name n s here absent);
    parented = ap (λ (m : Node). m.parent) (new_node_lem p name n s here absent);
    live = ap (λ (m : Node). m.is_del) (new_node_lem p name n s here absent);
  }

  module _ (t : IsTree s) where
    entries-new :
        (q c : ℕ) (k : Text)
        → q < s.next_node
        → load k (after.nodes q).children ≡ some c
        → IsChild after q k c
    entries-new q c k h e = elim (Bool-cases (nat_beq p q && text_beq name k)) [
      | inl added ↦
          let same_parent : p ≡ q = ground arith in
          let same_name : name ≡ k = (text_beq_iff name k).0 (ground arith) in
          let same_child : s.next_node ≡ c =
            ground (arith, (load-after p name n s here absent) q k h) in
          subst (λ x. IsChild after q k x) same_child
            (subst (λ x. IsChild after q x s.next_node) same_name
              (subst (λ x. IsChild after x name s.next_node) same_parent IsChild-new))
      | inr old ↦
          IsChild-kept q c k
            (t.entries q k c h (ground (arith, (load-after p name n s here absent) q k h)))
    ]

    entries-after :
        (q c : ℕ) (k : Text)
        → q < after.next_node
        → load k (after.nodes q).children ≡ some c
        → IsChild after q k c
    unfolding load
    entries-after q c k h e = elim (Bool-cases (nat_beq s.next_node q)) [
      | inl new ↦
          let same : s.next_node ≡ q = ground arith in
          let none_there : ◌≡◌ {A = Option ℕ} none (some c) =
            subst (λ (m : Node). load k m.children ≡ some c) (new_node_lem p name n s here absent)
              (subst (λ x. load k (after.nodes x).children ≡ some c) (sym same) e) in
          cc none_there
      | inr old ↦
          let h' : q < s.next_node + 1 =
            subst (λ x. q < x) (after-next_node p name n s here absent) h in
          entries-new q c k (ground (arith, h')) e
    ]

    inode_allocated-after : (q : ℕ) → q < after.next_node → (after.nodes q).inode < after.next_inode
    inode_allocated-after q h = elim (Bool-cases (nat_beq s.next_node q)) [
      | inl new ↦
          let same : s.next_node ≡ q = ground arith in
          let e : (after.nodes q).inode ≡ s.next_inode =
            subst (λ x. (after.nodes x).inode ≡ s.next_inode) same
              (ap (λ (m : Node). m.inode) (new_node_lem p name n s here absent)) in
          omega (arith, e, (after-next_inode p name n s here absent))
      | inr old ↦
          let h' : q < s.next_node + 1 =
            subst (λ x. q < x) (after-next_node p name n s here absent) h in
          let q_old : q < s.next_node = ground (arith, h') in
          let old_inode = t.inode_allocated q q_old in
          let e = ((kept p name n s here absent) q q_old).3 in
          omega (arith, old_inode, e, (after-next_inode p name n s here absent))
    ]

    parents-after : (q r : ℕ) → q < after.next_node → (after.nodes q).parent ≡ some r → r < q
    parents-after q r h e = elim (Bool-cases (nat_beq s.next_node q)) [
      | inl new ↦
          let same : s.next_node ≡ q = ground arith in
          let up : p ≡ r = some-injective p r (
            sym (ap (λ (m : Node). m.parent) (new_node_lem p name n s here absent))
            ∙ ap (λ x. (after.nodes x).parent) same
            ∙ e) in
          omega arith
      | inr old ↦
          let h' : q < s.next_node + 1 =
            subst (λ x. q < x) (after-next_node p name n s here absent) h in
          let q_old : q < s.next_node = ground (arith, h') in
          t.parents q r q_old (sym ((kept p name n s here absent) q q_old).1 ∙ e)
    ]

    -- Adding a child under a free name keeps the tree.
    pub make_child-IsTree : IsTree after
    make_child-IsTree =
        let root_old = t.root_allocated in
        let root_kept = (kept p name n s here absent) s.root root_old in
        let inode_old = t.inode_allocated s.root root_old in
        record {
          root_allocated =
              rw ((after-root p name n s here absent), (after-next_node p name n s here absent))
                (omega (arith, root_old));
          root_parent = rw (after-root p name n s here absent) (root_kept.1 ∙ t.root_parent);
          root_ino =
              subst (λ r. ino_of after r ≡ 1) (sym (after-root p name n s here absent))
                (ap (λ i. (after.inodes i).attr.ino) root_kept.3
                  ∙ ap (λ (m : Inode). m.attr.ino)
                      ((after-inodes p name n s here absent) (s.nodes s.root).inode inode_old)
                  ∙ t.root_ino);
          parents = parents-after;
          inode_allocated = inode_allocated-after;
          entries = λ q k c h e. entries-after q c k h e;
        }
