-- ===== src/Node/Tree/Child.antt =====
-- A new child under a free name: the state that NewNode and AddChild of filesystem/node.go leave.
use webfs.Base.{
  ℕ, ◌+◌, ◌<◌, ◌≡◌, ◌≢◌, refl, ap, ◌∙◌, inl, inr, true, false, ◌&&◌, none, some, arith, nat_beq,
  Bool-cases, if◌then◌else◌,
}
use webfs.Base.Maps.{Text, load, store, text_eq, text_beq, load-store}
use webfs.Base.Result.{ok}
use webfs.Inode.{Inode, add_hard_link}
use webfs.Node.{
  Node, FileSystem, alloc_inode, fresh_node, new_node, add_child, replace_existing, set_parent,
  link, make_child,
}

-- Without an entry of that name, AddChild links the child and sets its parent.
add_child_absent :
    (p c : ℕ) (s : FileSystem)
    → load (s.nodes c).name (s.nodes p).children ≡ none
    → add_child p c s ≡ set_parent (some p) c (link p (s.nodes c).name c s)
unfolding add_child
add_child_absent p c s e = rw (e, replace_existing)

-- The same, for the nodes: the child has a parent, the parent an entry.
nodes-add_child_absent :
    (p c : ℕ) (s : FileSystem) (q : ℕ)
    → p ≢ c
    → load (s.nodes c).name (s.nodes p).children ≡ none
    → (add_child p c s).nodes q ≡ (
        if nat_beq c q
        then record (s.nodes c) { parent = some p }
        else if nat_beq p q
        then record (s.nodes p) { children = store (s.nodes c).name c (s.nodes p).children }
        else s.nodes q)
nodes-add_child_absent p c s q ne e =
    let apart : nat_beq p c ≡ false = ground arith in rw (add_child_absent p c s e) (rw apart)

module _ (p : ℕ) (name : Text) (n : Inode) (s : FileSystem) (here : p < s.next_node)
    (absent : load name (s.nodes p).children ≡ none) where
  abbrev pub after : FileSystem
  after = (make_child p name n s).1

  pub make_child_ok : (make_child p name n s).0 ≡ ok s.next_node
  unfolding make_child
  make_child_ok = refl

  abbrev pub new_child : Node
  new_child = record (fresh_node name s.next_inode) { parent = some p }

  -- The state between NewNode and AddChild.
  abbrev pub made : FileSystem
  made = (new_node name (some s.next_inode) (alloc_inode n s)).1

  pub nodes-make_child :
      (q : ℕ)
      → after.nodes q ≡ (
          if nat_beq s.next_node q
          then new_child
          else if nat_beq p q
          then record (s.nodes p) { children = store name s.next_node (s.nodes p).children }
          else s.nodes q)
  unfolding make_child
  nodes-make_child q =
      let self : nat_beq s.next_node s.next_node ≡ true = ground arith in
      let apart : nat_beq s.next_node p ≡ false = ground arith in
      nodes-add_child_absent p s.next_node made q (λ e. omega arith) (rw (self, apart) absent)
      ∙ (elim (Bool-cases (nat_beq s.next_node q)) [
        | inl new ↦ rw (new, self)
        | inr old ↦ rw (old, self, apart)
      ])

  -- Beside the nodes, only the new inode and the two counters differ.
  pub after_lem :
      after
      ≡ set_parent (some p) s.next_node (link p (made.nodes s.next_node).name s.next_node made)
  unfolding make_child
  after_lem =
      let self : nat_beq s.next_node s.next_node ≡ true = ground arith in
      let apart : nat_beq s.next_node p ≡ false = ground arith in
      add_child_absent p s.next_node made (rw (self, apart) absent)

  pub after-next_node : after.next_node ≡ s.next_node + 1
  unfolding new_node
  after-next_node = ap (λ t. t.next_node) after_lem

  pub after-next_inode : after.next_inode ≡ s.next_inode + 1
  unfolding new_node
  after-next_inode = ap (λ t. t.next_inode) after_lem

  pub after-root : after.root ≡ s.root
  unfolding new_node
  after-root = ap (λ t. t.root) after_lem

  pub after-inodes : (i : ℕ) → i < s.next_inode → after.inodes i ≡ s.inodes i
  unfolding new_node
  after-inodes i h =
      let apart : nat_beq s.next_inode i ≡ false = ground arith in
      ap (λ t. t.inodes i) after_lem ∙ rw apart

  pub after-new_inode : after.inodes s.next_inode ≡ add_hard_link s.next_node n
  unfolding new_node
  after-new_inode =
      let self : nat_beq s.next_inode s.next_inode ≡ true = ground arith in
      ap (λ t. t.inodes s.next_inode) after_lem ∙ rw self

  -- A node that was there keeps all but, for the parent, the children.
  pub kept :
      (q : ℕ)
      → q < s.next_node
      → ((after.nodes q).name ≡ (s.nodes q).name)
        × ((after.nodes q).parent ≡ (s.nodes q).parent)
        × ((after.nodes q).is_del ≡ (s.nodes q).is_del)
        × ((after.nodes q).inode ≡ (s.nodes q).inode)
        × ((after.nodes q).node_id ≡ (s.nodes q).node_id)
  kept q h = ground (arith, nodes-make_child q)

  pub new_node_lem : after.nodes s.next_node ≡ new_child
  new_node_lem =
      let self : nat_beq s.next_node s.next_node ≡ true = ground arith in
      nodes-make_child s.next_node ∙ rw self

  -- The entries of the nodes that were there: one more for the parent.
  pub load-after :
      (q : ℕ) (k : Text)
      → q < s.next_node
      → load k (after.nodes q).children
        ≡ (if nat_beq p q && text_beq name k then some s.next_node else load k (s.nodes q).children)
  load-after q k h =
      ground (arith, nodes-make_child q, load-store name k s.next_node (s.nodes p).children)
