-- ===== src/Fs/Mkdir.antt =====
-- AddDirNode and AddFileNode of filesystem/fs.go against the abstract view of the tree: the set of
-- its paths.
use mathlib.Core.List.{append_assoc, append-nil}
use webfs.Base.{
  ℕ, ◌<◌, ◌≡◌, refl, sym, ap, subst, fun_ext, ◌∙◌, inl, inr, ◌||◌, Option, none, some, List, [],
  ◌∷◌, ◌++◌, arith, Bool-cases, Option-cases,
}
use webfs.Base.Maps.{Text, load, text_eq}
use webfs.Base.Result.{Result, ok, err, panics}
use webfs.External.{Env, Attr}
use webfs.Inode.{Inode, new_inode}
use webfs.Paths.{split, nonempty, names, path_split}
use webfs.Node.{FileSystem, get_child, make_child}
use webfs.Node.Tree.{IsTree}
use webfs.Node.Tree.Child.{make_child_ok}
use webfs.Node.Walks.{Walk, Walk-snoc}
use webfs.Node.PathSet.{
  PathSet, leads_from, paths, path_beq, is_prefix, mkdir_p, paths_above, mkdir_p_existing,
  prefix-snoc, mkdir_p-++,
}
use webfs.Node.PathSet.Child.{paths-make_child}
use webfs.Fs.{
  NodeRequest, FileCreateRequest, add_one64, enter, then_in, add_dirs, add_dir_node, make_file,
  add_file_in, file_dir, add_file_node,
}
use webfs.Fs.Dirs.{Arrived, enter-Arrived}
use webfs.Fs.Growth.{Walk-recount, recount, recount-IsTree}
use webfs.Fs.Files.{file_dir-Arrived}

leads-recount :
    (ino : ℕ) (pending : List ℕ) (s : FileSystem) (p : ℕ) (ks : List Text)
    → leads_from (recount ino pending s) p ks ≡ leads_from s p ks
unfolding leads_from
leads-recount ino pending s p [] = refl
leads-recount ino pending s p (k ∷ ks) = elim (Option-cases (load k (s.nodes p).children)) [
  | inl absent ↦ rw (absent, leads_from) refl
  | inr (q, here) ↦ rw (here, leads_from) (leads-recount ino pending s q ks)
]

-- A child made under a free name, in a state that is numbered anew.
paths-new :
    (p : ℕ) (name : Text) (n : Inode) (ino : ℕ) (pending : List ℕ) (s : FileSystem)
    (above ks : List Text)
    → IsTree s
    → p < s.next_node
    → load name (s.nodes p).children ≡ none
    → Walk s s.root above p
    → paths (make_child p name n (recount ino pending s)).1 ks
      ≡ mkdir_p (above ++ name ∷ []) (paths s) ks
paths-new p name n ino pending s above ks t here absent w =
    let s' = recount ino pending s in
    paths-make_child p name n s' here absent (recount-IsTree ino pending s t) above ks
      (Walk-recount ino pending s s.root p above w)
    ∙ ap (λ b. b || path_beq ks (above ++ name ∷ [])) (leads-recount ino pending s s.root ks)
    ∙ (elim (Bool-cases (is_prefix ks above)) [
      | inl below ↦
          let there = paths_above s s.root p ks above w below in
          ground (arith, prefix-snoc ks above name)
      | inr apart ↦ ground (arith, prefix-snoc ks above name)
    ])

-- What an attempt at a file says of the paths: all of its path if it succeeds, and otherwise the
-- path of the directory.
abbrev pub entry_effect : Result ℕ → List Text → Text → PathSet → PathSet
entry_effect (ok c) above name = mkdir_p (above ++ name ∷ [])
entry_effect (err e) above name = mkdir_p above
entry_effect panics above name = mkdir_p above

module _ (env : Env) where
  open env use {World}

  module _ (req : NodeRequest) where
    paths-enter :
        (cur : ℕ) (name : Text) (o : Option ℕ) (s : FileSystem) (w : World) (above ks : List Text)
        → IsTree s
        → cur < s.next_node
        → load name (s.nodes cur).children ≡ o
        → Walk s s.root above cur
        → paths (enter env req cur name o s w).1 ks ≡ mkdir_p (above ++ name ∷ []) (paths s) ks
    unfolding enter
    paths-enter cur name (some child) s w above ks t here e to_cur =
        mkdir_p_existing s child (above ++ name ∷ []) ks
          (Walk-snoc s s.root cur child above name to_cur e)
    paths-enter cur name none s w above ks t here absent to_cur =
        paths-new cur name _ (add_one64 s.last_ino) s.pending s above ks t here absent to_cur

    -- What a step leaves to the next one: the node that the longer path leads to.
    paths-then_in :
        (s : FileSystem) (cur : ℕ) (k : Text) (above rest ks : List Text)
        (o : Result ℕ × FileSystem × World)
        (next : ℕ → FileSystem → World → Result ℕ × FileSystem × World)
        → cur < s.next_node
        → s.root < s.next_node
        → Walk s s.root above cur
        → Arrived World s cur (k ∷ []) o
        → paths o.1 ks ≡ mkdir_p (above ++ k ∷ []) (paths s) ks
        → ((p : ℕ) (s' : FileSystem) (w' : World)
            → IsTree s'
            → p < s'.next_node
            → Walk s' s'.root (above ++ k ∷ []) p
            → paths (next p s' w').1 ks ≡ mkdir_p ((above ++ k ∷ []) ++ rest) (paths s') ks)
        → paths (then_in env o next).1 ks ≡ mkdir_p (above ++ k ∷ rest) (paths s) ks
    paths-then_in s cur k above rest ks (ok p, s', w') next here root to_cur a made go =
        let same : a.node ≡ p = cc (a.returned) in
        let (q, entry, last) = a.walk in
        let to_p : Walk s' s.root (above ++ k ∷ []) p =
          Walk-snoc s' s.root cur p above k (a.grows.walks s.root cur above root to_cur)
            (entry ∙ ap some (last ∙ same)) in
        let allocated = subst (λ x. x < s'.next_node) same a.allocated in
        go p s' w' a.tree allocated
          (subst (λ r. Walk s' r (above ++ k ∷ []) p) (sym a.grows.same_root) to_p)
        ∙ ap (λ b. b || is_prefix ks ((above ++ k ∷ []) ++ rest)) made
        ∙ mkdir_p-++ (paths s) (above ++ k ∷ []) rest ks
        ∙ ap (λ l. mkdir_p l (paths s) ks) (append_assoc above (k ∷ []) rest)
    paths-then_in s cur k above rest ks (err x, s', w') next here root to_cur a made go =
        absurd (cc (a.returned))
    paths-then_in s cur k above rest ks (panics, s', w') next here root to_cur a made go =
        absurd (cc (a.returned))

    paths-add_dirs :
        (parts : List Text) (cur : ℕ) (s : FileSystem) (w : World) (above ks : List Text)
        → IsTree s
        → cur < s.next_node
        → Walk s s.root above cur
        → paths (add_dirs env req parts cur s w).1 ks
          ≡ mkdir_p (above ++ nonempty parts) (paths s) ks
    unfolding add_dirs nonempty
    paths-add_dirs [] cur s w above ks t here to_cur =
        mkdir_p_existing s cur above ks to_cur
        ∙ ap (λ l. mkdir_p l (paths s) ks) (sym (append-nil above))
    paths-add_dirs ([] ∷ rest) cur s w above ks t here to_cur =
        paths-add_dirs rest cur s w above ks t here to_cur
    paths-add_dirs ((c ∷ name) ∷ rest) cur s w above ks t here to_cur =
        paths-then_in s cur (c ∷ name) above (nonempty rest) ks _ (add_dirs env req rest) here
          t.root_allocated to_cur (enter-Arrived env req cur (c ∷ name) _ s w t here refl)
          (paths-enter cur (c ∷ name) _ s w above ks t here refl to_cur)
          (λ p s' w' t' h v. paths-add_dirs rest p s' w' (above ++ (c ∷ name) ∷ []) ks t' h v)

    -- On a tree, AddDirNode adds to the set of existing paths the path of the request, without its
    -- empty names, and all the paths above it, and no other path.
    pub paths-add_dir_node :
        (s : FileSystem) (w : World)
        → IsTree s
        → paths (add_dir_node env req s w).1 ≡ mkdir_p (names req.path) (paths s)
    unfolding add_dir_node
    paths-add_dir_node s w t =
        fun_ext λ ks. paths-add_dirs (split req.path) s.root s w [] ks t t.root_allocated refl

  paths-file_dir :
      (req : FileCreateRequest) (dir : Text) (s : FileSystem) (w : World)
      → IsTree s
      → paths (file_dir env req dir s w).1 ≡ mkdir_p (names dir) (paths s)
  unfolding file_dir split nonempty
  paths-file_dir req [] s w t = fun_ext λ ks. mkdir_p_existing s s.root [] ks refl
  paths-file_dir req (c ∷ dir) s w t = paths-add_dir_node (record req.node { path = c ∷ dir }) s w t

  paths-make_file :
      (p : ℕ) (name : Text) (attr : Attr) (r : Result (List ℕ)) (w : World) (ino : ℕ)
      (s : FileSystem) (above ks : List Text)
      → IsTree s
      → p < s.next_node
      → load name (s.nodes p).children ≡ none
      → Walk s s.root above p
      → let out = make_file env p name attr (r, w) (record s { last_ino = ino }) in
        paths out.1 ks ≡ entry_effect out.0 above name (paths s) ks
  unfolding make_file
  paths-make_file p name attr (ok (a ∷ adapters)) w ino s above ks t here absent to_p =
      let pending = s.pending ++ s.next_inode ∷ [] in
      rw (make_child_ok p name (new_inode attr (a ∷ adapters)) (recount ino pending s) here absent)
        (paths-new p name (new_inode attr (a ∷ adapters)) ino pending s above ks t here absent to_p)
  paths-make_file p name attr (ok []) w ino s above ks t here absent to_p =
      leads-recount ino s.pending s s.root ks ∙ mkdir_p_existing s p above ks to_p
  paths-make_file p name attr (err e) w ino s above ks t here absent to_p =
      leads-recount ino s.pending s s.root ks ∙ mkdir_p_existing s p above ks to_p
  paths-make_file p name attr panics w ino s above ks t here absent to_p =
      leads-recount ino s.pending s s.root ks ∙ mkdir_p_existing s p above ks to_p

  paths-add_file_in :
      (req : FileCreateRequest) (name : Text) (o : Option ℕ) (p : ℕ) (s : FileSystem) (w : World)
      (above ks : List Text)
      → IsTree s
      → p < s.next_node
      → load name (s.nodes p).children ≡ o
      → Walk s s.root above p
      → let out = add_file_in env req name o p s w in
        paths out.1 ks ≡ entry_effect out.0 above name (paths s) ks
  unfolding add_file_in
  paths-add_file_in req name (some existing) p s w above ks t here e to_p =
      mkdir_p_existing s p above ks to_p
  paths-add_file_in req name none p s w above ks t here absent to_p =
      paths-make_file p name _ _ _ (add_one64 s.last_ino) s above ks t here absent to_p

  entry_effect-mkdir_p :
      (r : Result ℕ) (above : List Text) (name : Text) (t : PathSet) (ks : List Text)
      → entry_effect r above name (mkdir_p above t) ks ≡ entry_effect r above name t ks
  entry_effect-mkdir_p (ok c) above name t ks = mkdir_p-++ t above (name ∷ []) ks
  entry_effect-mkdir_p (err e) above name t ks = ground arith
  entry_effect-mkdir_p panics above name t ks = ground arith

  paths-file_in_dir :
      (req : FileCreateRequest) (name : Text) (above : List Text) (s : FileSystem)
      (o : Result ℕ × FileSystem × World) (ks : List Text)
      → s.root < s.next_node
      → Arrived World s s.root above o
      → paths o.1 ≡ mkdir_p above (paths s)
      → let out =
          then_in env o (λ p s' w'. add_file_in env req name (get_child s' p name) p s' w') in
        paths out.1 ks ≡ entry_effect out.0 above name (paths s) ks
  unfolding get_child
  paths-file_in_dir req name above s (ok p, s', w') ks root a made =
      let same : a.node ≡ p = cc (a.returned) in
      let allocated = subst (λ x. x < s'.next_node) same a.allocated in
      let to_p : Walk s' s'.root above p =
        subst (λ x. Walk s' s'.root above x) same
          (subst (λ r. Walk s' r above a.node) (sym a.grows.same_root) a.walk) in
      let r = (add_file_in env req name (get_child s' p name) p s' w').0 in
      paths-add_file_in req name _ p s' w' above ks a.tree allocated refl to_p
      ∙ ap (λ t. entry_effect r above name t ks) made
      ∙ entry_effect-mkdir_p r above name (paths s) ks
  paths-file_in_dir req name above s (err x, s', w') ks root a made = absurd (cc (a.returned))
  paths-file_in_dir req name above s (panics, s', w') ks root a made = absurd (cc (a.returned))

  -- On a tree, AddFileNode adds to the set of existing paths: if it succeeds, the path of the file
  -- and all the paths above it; if it fails or panics, the path of the file's directory and all the
  -- paths above that. It adds no other path.
  pub paths-add_file_node :
      (req : FileCreateRequest) (s : FileSystem) (w : World)
      → IsTree s
      → let (dir, name) = path_split req.node.path in
        let out = add_file_node env req s w in
        paths out.1 ≡ entry_effect out.0 (names dir) name (paths s)
  unfolding add_file_node
  paths-add_file_node req s w t =
      let (dir, name) = path_split req.node.path in
      fun_ext λ ks.
        paths-file_in_dir req name (names dir) s (file_dir env req dir s w) ks t.root_allocated
          (file_dir-Arrived env req dir s w t) (paths-file_dir req dir s w t)
