-- ===== src/Fs/Inos.antt =====
-- The inode numbers that filesystem/fs.go gives out: every node has one of its own.
pub mod Given
use webfs.Base.{
  ℕ, suc, ◌+◌, ◌%◌, ◌^◌, ◌≤◌, ◌<◌, ◌≡◌, refl, sym, ap, subst, ◌∙◌, inl, inr, Option, none, some,
  List, [], ◌∷◌, ◌++◌, length, arith, nat_beq, Bool-cases, ◌⊎◌,
}
use webfs.Base.Maps.{Text, load, text_eq}
use webfs.Base.Result.{Result, ok, err, panics}
use webfs.External.{Env, Attr}
use webfs.Inode.{Inode, new_inode, add_hard_link}
use webfs.Inode.Attributes.{SetsTimes}
use webfs.Paths.{split, nonempty, names, path_split}
use webfs.Node.{Node, FileSystem, ino_of, new_node, get_child, make_child}
use webfs.Node.Tree.{IsTree}
use webfs.Node.Tree.Child.{
  after_lem, after-next_node, after-inodes, after-new_inode, kept, new_node_lem,
}
use webfs.Fs.{
  NodeRequest, FileCreateRequest, add_one64, new_dir_attr, new_default_attr, new_fs, enter, then_in,
  add_dirs, add_dir_node, make_file, add_file_in, file_dir, add_file_node,
}
use webfs.Fs.Dirs.{Arrived, enter-Arrived}
use webfs.Fs.Growth.{recount}
use webfs.Fs.Files.{file_dir-Arrived}

-- Every node has an inode number that was given out, and no other node has it.
pub record HasInos (s : FileSystem) : Type 0 where
  pub bounded : (p : ℕ) → p < s.next_node → ino_of s p ≤ s.last_ino
  pub unique : (p q : ℕ) → p < s.next_node → q < s.next_node → ino_of s p ≡ ino_of s q → p ≡ q

-- So it is afterwards, and at most k numbers were given out.
pub record GivesInos (k : ℕ) (s s' : FileSystem) : Type 0 where
  pub inos : HasInos s'
  pub count : s'.last_ino ≤ s.last_ino + k

module _ (p : ℕ) (name : Text) (n : Inode) (pending : List ℕ) (s : FileSystem) (t : IsTree s)
    (here : p < s.next_node) (absent : load name (s.nodes p).children ≡ none)
    (room : s.last_ino + 1 < 2 ^ 64) (numbered : n.attr.ino ≡ add_one64 s.last_ino)
    (h : HasInos s) where
  abbrev from : FileSystem
  from = recount (add_one64 s.last_ino) pending s

  abbrev after : FileSystem
  after = (make_child p name n from).1

  old_ino : (q : ℕ) → q < s.next_node → ino_of after q ≡ ino_of s q
  old_ino q old =
      ap (λ i. (after.inodes i).attr.ino) (kept p name n from here absent q old).3
      ∙ ap (λ (m : Inode). m.attr.ino)
          (after-inodes p name n from here absent (s.nodes q).inode (t.inode_allocated q old))

  new_ino : ino_of after s.next_node ≡ s.last_ino + 1
  unfolding add_hard_link
  new_ino =
      let small : (s.last_ino + 1) % 2 ^ 64 ≡ s.last_ino + 1 = omega arith in
      ap (λ (m : Node). (after.inodes m.inode).attr.ino) (new_node_lem p name n from here absent)
      ∙ ap (λ (i : Inode). i.attr.ino) (after-new_inode p name n from here absent)
      ∙ numbered
      ∙ small

  last : after.last_ino ≡ s.last_ino + 1
  unfolding new_node
  last =
      let small : (s.last_ino + 1) % 2 ^ 64 ≡ s.last_ino + 1 = omega arith in
      ap (λ u. u.last_ino) (after_lem p name n from here absent) ∙ small

  new_or_old :
      (q : ℕ)
      → q < after.next_node
      → ((q ≡ s.next_node) × (ino_of after q ≡ s.last_ino + 1))
        ⊎ ((q < s.next_node) × (ino_of after q ≡ ino_of s q))
  new_or_old q hq = elim (Bool-cases (nat_beq s.next_node q)) [
    | inl new ↦
        let same : q ≡ s.next_node = ground arith in inl (same, ap (ino_of after) same ∙ new_ino)
    | inr other ↦
        let hq' : q < s.next_node + 1 =
          subst (λ x. q < x) (after-next_node p name n from here absent) hq in
        let old : q < s.next_node = ground (arith, hq') in inr (old, old_ino q old)
  ]

  -- A child whose inode has the next number.
  pub make_child-GivesInos : GivesInos 1 s after
  make_child-GivesInos = record {
    inos = record {
      bounded = λ q hq. elim (new_or_old q hq) [
        | inl (_, e) ↦ omega (arith, e, last)
        | inr (old, e) ↦ let b = h.bounded q old in omega (arith, e, last)
      ];
      unique = λ q r hq hr same. elim (new_or_old q hq) [
        | inl (new, e) ↦ elim (new_or_old r hr) [
          | inl (new_too, _) ↦ new ∙ sym new_too
          | inr (old, f) ↦ let b = h.bounded r old in absurd (omega (arith, e, f, same))
        ]
        | inr (old, e) ↦ elim (new_or_old r hr) [
          | inl (_, f) ↦ let b = h.bounded q old in absurd (omega (arith, e, f, same))
          | inr (old_too, f) ↦ h.unique q r old old_too (sym e ∙ same ∙ f)
        ]
      ];
    };
    count = omega (arith, last);
  }

pub GivesInos-refl : (k : ℕ) (s : FileSystem) → HasInos s → GivesInos k s s
GivesInos-refl k s h = record { inos = h; count = omega arith }

pub GivesInos-trans :
    (j k : ℕ) (s t u : FileSystem) → GivesInos j s t → GivesInos k t u → GivesInos (j + k) s u
GivesInos-trans j k s t u g h =
    let first = g.count in
    let second = h.count in record { inos = h.inos; count = omega (arith, first, second) }

pub new_fs-HasInos : (env : Env) (w : env.World) → HasInos (new_fs env w).0
unfolding new_fs new_default_attr new_inode add_hard_link
new_fs-HasInos env w = record { bounded = λ p hp. omega arith; unique = λ p q hp hq e. omega arith }
