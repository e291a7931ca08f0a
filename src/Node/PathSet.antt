-- ===== src/Node/PathSet.antt =====
-- An abstract view of the tree of filesystem/node.go: the set of the paths that lead somewhere, as
-- a test on lists of names. Addresses, inodes and the order of the children are forgotten.
pub mod Child
use mathlib.Core.Option.{some-injective}
use webfs.Base.{
  ℕ, zero, suc, ◌<◌, ◌≡◌, ◌↔◌, ◌⊎◌, refl, sym, ap, subst, fun_ext, ◌∙◌, inl, inr, Bool, true, false,
  ◌&&◌, ◌||◌, Option, none, some, List, [], ◌∷◌, ◌++◌, arith, nat_beq, Bool-cases, Option-cases,
}
use webfs.Base.Maps.{Text, load, text_eq, text_beq, text_beq_iff}
use webfs.Inode.{Inode}
use webfs.Node.{FileSystem, make_child}
use webfs.Node.Tree.{IsTree, IsChild}
use webfs.Node.Tree.Child.{after-root, after-next_node, load-after, new_node_lem}
use webfs.Node.Walks.{Walk, Walk-snoc, Walk-kept, entry-new}

abbrev pub PathSet : Type 0
PathSet = List Text → Bool

unfoldable pub leads_from : FileSystem → ℕ → PathSet
leads_from s p [] = true
leads_from s p (k ∷ ks) = elim (load k (s.nodes p).children) [
  | none ↦ false
  | some q ↦ leads_from s q ks
]

-- The paths that exist.
abbrev pub paths : FileSystem → PathSet
paths s = leads_from s s.root

abbrev pub path_beq : List Text → List Text → Bool
path_beq (k ∷ ks) (j ∷ js) = text_beq k j && path_beq ks js
path_beq (k ∷ ks) [] = false
path_beq [] (j ∷ js) = false
path_beq [] [] = true

abbrev pub is_prefix : List Text → List Text → Bool
is_prefix [] js = true
is_prefix (k ∷ ks) [] = false
is_prefix (k ∷ ks) (j ∷ js) = text_beq k j && is_prefix ks js

-- `mkdir -p`: the path and all the paths above it are added.
abbrev pub mkdir_p : List Text → PathSet → PathSet
mkdir_p path t ks = t ks || is_prefix ks path

pub path_beq_iff : (ks js : List Text) → (path_beq ks js ≡ true) ↔ (ks ≡ js)
path_beq_iff (k ∷ ks) (j ∷ js) = ground (arith, text_beq_iff k j, path_beq_iff ks js)
path_beq_iff (k ∷ ks) [] = ground arith
path_beq_iff [] (j ∷ js) = ground arith
path_beq_iff [] [] = ground arith

-- A path exists if and only if its names lead to some node.
pub leads_from_iff :
    (s : FileSystem) (p : ℕ) (ks : List Text)
    → (leads_from s p ks ≡ true) ↔ ((c : ℕ) × Walk s p ks c)
unfolding leads_from
leads_from_iff s p [] = (λ e. (p, refl), λ w. refl)
leads_from_iff s p (k ∷ ks) = elim (Option-cases (load k (s.nodes p).children)) [
  | inl absent ↦ (λ e. absurd (ground arith), λ (c, (q, found, w)). absurd (cc (absent, found)))
  | inr (q, here) ↦
      let (there, back) = leads_from_iff s q ks in
      rw (here, leads_from)
        ((
          λ e. let (c, w) = there e in (c, (q, refl, w)),
          λ (c, (r, found, w)).
              back (c, subst (λ x. Walk s x ks c) (sym (some-injective q r found)) w),
        ))
]

-- A prefix of a path that exists, exists.
pub paths_above :
    (s : FileSystem) (p c : ℕ) (ks js : List Text)
    → Walk s p js c
    → is_prefix ks js ≡ true
    → leads_from s p ks ≡ true
unfolding leads_from
paths_above s p c [] js w e = refl
paths_above s p c (k ∷ ks) [] w e = absurd (cc e)
paths_above s p c (k ∷ ks) (j ∷ js) (q, found, w) e =
    let same : j ≡ k = sym ((text_beq_iff k j).0 (ground arith)) in
    rw (subst (λ x. load x (s.nodes p).children ≡ some q) same found, leads_from)
      (paths_above s q c ks js w (ground arith))

-- A path that exists makes `mkdir_p` do nothing.
pub mkdir_p_existing :
    (s : FileSystem) (c : ℕ) (js ks : List Text)
    → Walk s s.root js c
    → paths s ks ≡ mkdir_p js (paths s) ks
mkdir_p_existing s c js ks w = elim (Bool-cases (is_prefix ks js)) [
  | inl below ↦ let there = paths_above s s.root c ks js w below in ground arith
  | inr apart ↦ ground arith
]

pub prefix-++ : (ks js rest : List Text) → is_prefix ks js ≡ true → is_prefix ks (js ++ rest) ≡ true
prefix-++ [] js rest e = refl
prefix-++ (k ∷ ks) [] rest e = absurd (cc e)
prefix-++ (k ∷ ks) (j ∷ js) rest e = ground (arith, prefix-++ ks js rest)

-- The prefixes of a path with one more name.
pub prefix-snoc :
    (ks js : List Text) (k : Text)
    → is_prefix ks (js ++ k ∷ []) ≡ (is_prefix ks js || path_beq ks (js ++ k ∷ []))
prefix-snoc [] js k = refl
prefix-snoc (i ∷ []) [] k = ground arith
prefix-snoc (i ∷ (h ∷ ks)) [] k = ground arith
prefix-snoc (i ∷ ks) (j ∷ js) k = ground (arith, prefix-snoc ks js k)

-- Making a path after one of its prefixes.
pub mkdir_p-++ :
    (t : PathSet) (js rest ks : List Text)
    → mkdir_p (js ++ rest) (mkdir_p js t) ks ≡ mkdir_p (js ++ rest) t ks
mkdir_p-++ t js rest ks = elim (Bool-cases (is_prefix ks js)) [
  | inl below ↦ let longer = prefix-++ ks js rest below in ground arith
  | inr apart ↦ ground arith
]
