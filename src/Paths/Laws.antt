-- ===== src/Paths/Laws.antt =====
-- Splitting a path and joining its names.
use mathlib.Core.List.{append_assoc, append-nil}
use webfs.Base.{
  ℕ, ◌≡◌, ◌≢◌, refl, ap, sym, ◌∙◌, inl, inr, false, List, [], ◌∷◌, ◌++◌, All, arith, nat_beq,
  Bool-cases,
}
use webfs.Base.Maps.{Text}
use webfs.Paths.{
  slash, split, cons_head, path_split, prepend, nonempty, names, child_path, join_from,
}

-- No byte is a slash.
abbrev pub HasNoSlash : Text → Type 0
HasNoSlash = All (λ c. c ≢ slash)

-- A file name: some bytes, none of them a slash.
abbrev pub IsName : Text → Type 0
IsName t = (t ≢ []) × HasNoSlash t

cons_head-HasNoSlash :
    (c : ℕ) (ts : List Text) → c ≢ slash → All HasNoSlash ts → All HasNoSlash (cons_head c ts)
unfolding cons_head
cons_head-HasNoSlash c [] h hs = ((h, tt), tt)
cons_head-HasNoSlash c (t ∷ ts) h hs = ((h, hs.0), hs.1)

split-HasNoSlash : (path : Text) → All HasNoSlash (split path)
unfolding split
split-HasNoSlash [] = (tt, tt)
split-HasNoSlash (c ∷ s) = elim (Bool-cases (nat_beq c slash)) [
  | inl is_slash ↦ rw is_slash (tt, split-HasNoSlash s)
  | inr other ↦ rw other (cons_head-HasNoSlash c (split s) (ground arith) (split-HasNoSlash s))
]

nonempty-IsName : (ts : List Text) → All HasNoSlash ts → All IsName (nonempty ts)
unfolding nonempty
nonempty-IsName [] h = tt
nonempty-IsName ([] ∷ ts) h = nonempty-IsName ts h.1
nonempty-IsName ((c ∷ t) ∷ ts) h = ((λ e. cc, h.0), nonempty-IsName ts h.1)

-- Every name of a path is a file name.
pub names-IsName : (path : Text) → All IsName (names path)
names-IsName path = nonempty-IsName (split path) (split-HasNoSlash path)

-- path.Split loses nothing: directory and file make up the path.
pub path_split-append : (path : Text) → (path_split path).0 ++ (path_split path).1 ≡ path
unfolding path_split
path_split-append [] = refl
path_split-append (c ∷ s) = prepend-append c (path_split s) ∙ ap (◌∷◌ c) (path_split-append s)
  where
    prepend-append :
        (c : ℕ) (p : Text × Text) → (prepend c p).0 ++ (prepend c p).1 ≡ c ∷ (p.0 ++ p.1)
    prepend-append c ([], file) = ground arith
    prepend-append c (d ∷ dir, file) = refl

prepend-file : (c : ℕ) (p : Text × Text) → HasNoSlash p.1 → HasNoSlash (prepend c p).1
unfolding prepend
prepend-file c ([], file) h = elim (Bool-cases (nat_beq c slash)) [
  | inl is_slash ↦ rw is_slash h
  | inr other ↦ rw other (ground arith, h)
]
prepend-file c (d ∷ dir, file) h = h

-- The file part holds no slash.
pub path_split-file : (path : Text) → HasNoSlash (path_split path).1
unfolding path_split
path_split-file [] = tt
path_split-file (c ∷ s) = prepend-file c (path_split s) (path_split-file s)

split-ne-nil : (s : Text) → split s ≢ []
unfolding split cons_head
split-ne-nil [] = λ h. cc
split-ne-nil (c ∷ s) = elim (Bool-cases (nat_beq c slash)) [
  | inl is_slash ↦ rw is_slash (λ h. cc)
  | inr other ↦ rw other (cons_head-ne-nil c (split s))
]
  where
    cons_head-ne-nil : (c : ℕ) (ts : List Text) → cons_head c ts ≢ []
    cons_head-ne-nil c [] h = cc
    cons_head-ne-nil c (t ∷ ts) h = cc

cons_head-append : (c : ℕ) (l m : List Text) → l ≢ [] → cons_head c (l ++ m) ≡ cons_head c l ++ m
unfolding cons_head
cons_head-append c [] m h = absurd (h refl)
cons_head-append c (t ∷ ts) m h = refl

split-slash : (a b : Text) → split (a ++ slash ∷ b) ≡ split a ++ split b
unfolding split
split-slash [] b = refl
split-slash (c ∷ a) b = elim (Bool-cases (nat_beq c slash)) [
  | inl is_slash ↦ rw (is_slash, split-slash a b)
  | inr other ↦
      rw (other, split-slash a b) (cons_head-append c (split a) (split b) (split-ne-nil a))
]

nonempty-append : (l m : List Text) → nonempty (l ++ m) ≡ nonempty l ++ nonempty m
unfolding nonempty
nonempty-append [] m = refl
nonempty-append ([] ∷ l) m = nonempty-append l m
nonempty-append ((c ∷ t) ∷ l) m = ap (◌∷◌ (c ∷ t)) (nonempty-append l m)

split_name : (t : Text) → HasNoSlash t → split t ≡ t ∷ []
unfolding split cons_head
split_name [] h = refl
split_name (c ∷ t) h =
    let other : nat_beq c slash ≡ false = ground (arith, h.0) in rw (other, split_name t h.1)

names_name : (t : Text) → IsName t → names t ≡ t ∷ []
unfolding nonempty
names_name [] h = absurd (h.0 refl)
names_name (c ∷ t) h = rw (split_name (c ∷ t) h.1)

-- The names of a joined path are the names of the first part and then those of the second.
pub names-slash : (a b : Text) → names (a ++ slash ∷ b) ≡ names a ++ names b
names-slash a b = ap nonempty (split-slash a b) ∙ nonempty-append (split a) (split b)

names-child_path :
    (parent t : Text) → IsName t → names (child_path parent t) ≡ names parent ++ t ∷ []
unfolding child_path split nonempty
names-child_path [] t h = names_name t h
names-child_path (c ∷ parent) t h =
    names-slash (c ∷ parent) t ∙ ap (◌++◌ (names (c ∷ parent))) (names_name t h)

names-join_from :
    (parent : Text) (ts : List Text)
    → All IsName ts
    → names (join_from parent ts) ≡ names parent ++ ts
unfolding join_from
names-join_from parent [] h = sym (append-nil (names parent))
names-join_from parent (t ∷ ts) h =
    names-join_from (child_path parent t) ts h.1
    ∙ ap (λ l. l ++ ts) (names-child_path parent t h.0)
    ∙ append_assoc (names parent) (t ∷ []) ts

-- Names with a slash in front of each
abbrev pub with_slashes : List Text → Text
with_slashes [] = []
with_slashes (t ∷ ts) = b'/' ∷ (t ++ with_slashes ts)

-- Names with a slash between each and the next
abbrev pub joined : List Text → Text
joined [] = []
joined (t ∷ ts) = t ++ with_slashes ts

join_from-with_slashes :
    (c : ℕ) (parent : Text) (ts : List Text)
    → join_from (c ∷ parent) ts ≡ c ∷ (parent ++ with_slashes ts)
unfolding join_from child_path
join_from-with_slashes c parent [] = ap (◌∷◌ c) (sym (append-nil parent))
join_from-with_slashes c parent (t ∷ ts) =
    join_from-with_slashes c (parent ++ slash ∷ t) ts
    ∙ ap (◌∷◌ c) (append_assoc parent (slash ∷ t) (with_slashes ts))

-- Joining names one at a time, when the first one is not empty.
pub join_from-joined :
    (ts : List Text) → ((rest : List Text) → ts ≢ [] ∷ rest) → join_from [] ts ≡ joined ts
unfolding join_from child_path
join_from-joined [] named = refl
join_from-joined ([] ∷ ts) named = absurd (named ts refl)
join_from-joined ((c ∷ t) ∷ ts) named = join_from-with_slashes c t ts

-- Joining names that are not empty and have no slash, and splitting the path again, gives the
-- names.
pub names-join : (ts : List Text) → All IsName ts → names (join_from [] ts) ≡ ts
unfolding split nonempty
names-join ts h = names-join_from [] ts h
