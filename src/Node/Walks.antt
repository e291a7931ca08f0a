-- ===== src/Node/Walks.antt =====
-- Walks down the tree by name, and the paths that Path prints.
use mathlib.Core.Option.{some-injective}
use webfs.Base.{
  ℕ, zero, suc, ◌+◌, ◌-◌, ◌≤◌, ◌<◌, ◌≡◌, ◌≢◌, refl, sym, ap, subst, ◌∙◌, inl, inr, true, false,
  ◌&&◌, Option, none, some, List, [], ◌∷◌, ◌++◌, arith, length, nat_beq, Bool-cases, Option-cases,
}
use webfs.Base.Maps.{Text, load, text_eq, text_beq, text_beq_iff}
use webfs.Base.Result.{Error}
use webfs.Inode.{Inode}
use webfs.Paths.{child_path, join_from}
use webfs.Paths.Laws.{joined, join_from-joined}
use webfs.Node.{FileSystem, path, path_from, is_root, under_parent, make_child}
use webfs.Node.Tree.{IsTree, IsChild}
use webfs.Node.Tree.Child.{load-after}

-- The names lead from p down to c.
abbrev pub Walk : FileSystem → ℕ → List Text → ℕ → Type 0
Walk s p [] c = p ≡ c
Walk s p (k ∷ ks) c = (q : ℕ) × (load k (s.nodes p).children ≡ some q) × Walk s q ks c

pub Walk-snoc :
    (s : FileSystem) (p q c : ℕ) (ks : List Text) (k : Text)
    → Walk s p ks q
    → load k (s.nodes q).children ≡ some c
    → Walk s p (ks ++ k ∷ []) c
Walk-snoc s p q c [] k w e = (c, subst (λ x. load k (s.nodes x).children ≡ some c) (sym w) e, refl)
Walk-snoc s p q c (j ∷ ks) k (r, found, w) e = (r, found, Walk-snoc s r q c ks k w e)

pub Walk-unique :
    (s : FileSystem) (p c d : ℕ) (ks : List Text) → Walk s p ks c → Walk s p ks d → c ≡ d
Walk-unique s p c d [] w v = sym w ∙ v
Walk-unique s p c d (k ∷ ks) (q, e, w) (r, f, v) =
    let same : q ≡ r = some-injective q r (sym e ∙ f) in
    Walk-unique s r c d ks (subst (λ x. Walk s x ks c) same w) v

module _ (p : ℕ) (name : Text) (n : Inode) (s : FileSystem) (here : p < s.next_node)
    (absent : load name (s.nodes p).children ≡ none) where
  entry-kept :
      (q c : ℕ) (k : Text)
      → q < s.next_node
      → load k (s.nodes q).children ≡ some c
      → load k ((make_child p name n s).1.nodes q).children ≡ some c
  entry-kept q c k h e = elim (Bool-cases (nat_beq p q && text_beq name k)) [
    | inl here_too ↦
        let same_parent : p ≡ q = ground arith in
        let same_name : name ≡ k = (text_beq_iff name k).0 (ground arith) in
        let clash : ◌≡◌ {A = Option ℕ} none (some c) =
          sym absent
          ∙ ap (λ x. load x (s.nodes p).children) same_name
          ∙ ap (λ x. load k (s.nodes x).children) same_parent
          ∙ e in
        cc clash
    | inr other ↦ load-after p name n s here absent q k h ∙ rw other e
  ]

  -- Adding a child under a free name keeps every walk.
  pub Walk-kept :
      (t : IsTree s) (q c : ℕ) (ks : List Text)
      → q < s.next_node
      → Walk s q ks c
      → Walk (make_child p name n s).1 q ks c
  Walk-kept t q c [] h w = w
  Walk-kept t q c (k ∷ ks) h (r, e, w) =
      (r, entry-kept q r k h e, Walk-kept t r c ks (t.entries q k r h e).allocated w)

  -- The new child is found under its name.
  pub entry-new : load name ((make_child p name n s).1.nodes p).children ≡ some s.next_node
  entry-new =
      let self : nat_beq p p ≡ true = ground arith in
      let same : text_beq name name ≡ true = (text_beq_iff name name).1 refl in
      load-after p name n s here absent p name here ∙ rw (self, same)

abbrev Answer : Type 0
Answer = Option (Text × Option Error)

under_parent-some :
    (name : Text) (o : Answer) (r : Text × Option Error)
    → under_parent name o ≡ some r
    → (u : Text × Option Error) × (o ≡ some u)
unfolding under_parent
under_parent-some name none r e = cc
under_parent-some name (some u) r e = (u, refl)

path_from_mono :
    (s : FileSystem) (p : ℕ) (k l : ℕ → Answer) (r : Text × Option Error)
    → ((q : ℕ) (u : Text × Option Error) → k q ≡ some u → l q ≡ some u)
    → path_from s p k ≡ some r
    → path_from s p l ≡ some r
unfolding path_from
path_from_mono s p k l r mono = elim (Bool-cases (is_root s p)) [
  | inl root ↦ rw root (λ e. e)
  | inr below ↦ rw below (elim (Bool-cases (s.nodes p).is_del) [
    | inl gone ↦ rw gone (λ e. e)
    | inr live ↦ rw live (elim (Option-cases (s.nodes p).parent) [
      | inl detached ↦ rw detached (λ e. e)
      | inr (q, up) ↦ rw up (λ e.
          let (u, found) = under_parent-some (s.nodes p).name (k q) r e in
          let same : l q ≡ k q = mono q u found ∙ sym found in
          ap (under_parent (s.nodes p).name) same ∙ e)
    ])
  ])
]

path-suc :
    (f : ℕ) (s : FileSystem) (p : ℕ) (r : Text × Option Error)
    → path f s p ≡ some r
    → path (suc f) s p ≡ some r
unfolding path
path-suc zero s p r e = cc
path-suc (suc f) s p r e = path_from_mono s p (path f s) (path (suc f) s) r (path-suc f s) e

path-add :
    (d f : ℕ) (s : FileSystem) (p : ℕ) (r : Text × Option Error)
    → path f s p ≡ some r
    → path (d + f) s p ≡ some r
path-add zero f s p r e = let z : zero + f ≡ f = omega arith in rw z e
path-add (suc d) f s p r e =
    let z : suc d + f ≡ suc (d + f) = omega arith in
    rw z (path-suc (d + f) s p r (path-add d f s p r e))

-- More fuel gives the same path.
path_mono :
    (f g : ℕ) (s : FileSystem) (p : ℕ) (r : Text × Option Error)
    → f ≤ g
    → path f s p ≡ some r
    → path g s p ≡ some r
path_mono f g s p r h e =
    let z : g - f + f ≡ g = omega arith in
    subst (λ n. path n s p ≡ some r) z (path-add (g - f) f s p r e)

-- On a tree a node's parent was made before it, so fuel above a node's address is enough for Path
-- to return.
pub path_total :
    (fuel : ℕ) (s : FileSystem) (p : ℕ)
    → IsTree s
    → p < s.next_node
    → p < fuel
    → (r : Text × Option Error) × (path fuel s p ≡ some r)
unfolding path path_from under_parent
path_total zero s p t h lt = elim lt [ ]
path_total (suc f) s p t h lt = elim (Bool-cases (is_root s p)) [
  | inl root ↦ rw root ((_, refl))
  | inr below ↦ rw below (elim (Bool-cases (s.nodes p).is_del) [
    | inl gone ↦ rw gone ((_, refl))
    | inr live ↦ rw live (elim (Option-cases (s.nodes p).parent) [
      | inl detached ↦ rw detached ((_, refl))
      | inr (q, up) ↦
          let smaller = t.parents p q h up in
          let (r, e) = path_total f s q t (omega (arith, smaller)) (omega (arith, smaller)) in
          rw (up, e, under_parent) ((_, refl))
    ])
  ])
]

is_root_below : (s : FileSystem) (p q : ℕ) → (s.nodes p).parent ≡ some q → is_root s p ≡ false
unfolding is_root
is_root_below s p q e = rw (e, is_root)

is_root_root : (s : FileSystem) → IsTree s → is_root s s.root ≡ true
unfolding is_root
is_root_root s t = rw (t.root_parent, is_root) (ground (arith, t.root_ino))

path-child :
    (f : ℕ) (s : FileSystem) (p c : ℕ) (k parent_path : Text)
    → IsChild s p k c
    → path f s p ≡ some (parent_path, none)
    → path (suc f) s c ≡ some (child_path parent_path k, none)
unfolding path path_from under_parent
path-child f s p c k parent_path h e =
    rw (is_root_below s c p h.parented, h.live, h.parented, e, under_parent, h.named)

path-root : (f : ℕ) (s : FileSystem) → IsTree s → path (suc f) s s.root ≡ some ([], none)
unfolding path path_from
path-root f s t = rw (is_root_root s t)

path-Walk_from :
    (f g : ℕ) (s : FileSystem) (p c : ℕ) (ks : List Text) (above : Text)
    → IsTree s
    → p < s.next_node
    → Walk s p ks c
    → g ≡ length ks + f
    → path f s p ≡ some (above, none)
    → path g s c ≡ some (join_from above ks, none)
unfolding join_from
path-Walk_from f g s p c [] above t h w size e =
    let same : f ≡ g = omega arith in
    subst (λ x. path g s x ≡ some (above, none)) w
      (subst (λ n. path n s p ≡ some (above, none)) same e)
path-Walk_from f g s p c (k ∷ ks) above t h (q, found, w) size e =
    let entry = t.entries p k q h found in
    path-Walk_from (suc f) g s q c ks (child_path above k) t entry.allocated w (omega arith)
      (path-child f s p q k above entry e)

pub path-join_from :
    (fuel : ℕ) (s : FileSystem) (c : ℕ) (ks : List Text)
    → IsTree s
    → Walk s s.root ks c
    → length ks < fuel
    → path fuel s c ≡ some (join_from [] ks, none)
path-join_from fuel s c ks t w enough =
    path_mono (length ks + 1) fuel s c _ (omega arith) (
      path-Walk_from 1 (length ks + 1) s s.root c ks [] t t.root_allocated w refl (path-root 0 s t))

-- On a tree, with more fuel than there are names, Path of a node that the names lead to from the
-- root is those names with a slash between each and the next, and no error. The first name, if
-- there is one, is not empty.
pub path-Walk :
    (fuel : ℕ) (s : FileSystem) (c : ℕ) (ks : List Text)
    → IsTree s
    → Walk s s.root ks c
    → ((rest : List Text) → ks ≢ [] ∷ rest)
    → length ks < fuel
    → path fuel s c ≡ some (joined ks, none)
path-Walk fuel s c ks t w named enough =
    path-join_from fuel s c ks t w enough ∙ ap (λ u. some (u, none)) (join_from-joined ks named)
