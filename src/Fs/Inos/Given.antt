-- ===== src/Fs/Inos/Given.antt =====
-- The inode numbers that AddDirNode and AddFileNode of filesystem/fs.go give out.
use webfs.Base.{
  ℕ, suc, ◌+◌, ◌%◌, ◌^◌, ◌<◌, ◌≡◌, refl, subst, Option, none, some, List, [], ◌∷◌, ◌++◌, length,
  arith,
}
use webfs.Base.Maps.{Text, load, text_eq}
use webfs.Base.Result.{Result, ok, err, panics}
use webfs.External.{Env, Attr}
use webfs.Inode.{new_inode}
use webfs.Inode.Attributes.{SetsTimes}
use webfs.Paths.{split, nonempty, names, path_split}
use webfs.Node.{FileSystem, get_child}
use webfs.Node.Tree.{IsTree}
use webfs.Fs.{
  NodeRequest, FileCreateRequest, add_one64, new_dir_attr, new_default_attr, enter, then_in,
  add_dirs, add_dir_node, make_file, add_file_in, file_dir, add_file_node,
}
use webfs.Fs.Dirs.{Arrived, enter-Arrived}
use webfs.Fs.Growth.{recount}
use webfs.Fs.Files.{file_dir-Arrived}
use webfs.Fs.Inos.{HasInos, GivesInos, make_child-GivesInos, GivesInos-refl, GivesInos-trans}

-- The names of a file's path, at most: those of its directory and its own.
abbrev pub file_depth : FileCreateRequest → ℕ
file_depth req = length (names (path_split req.node.path).0) + 1

module _ (env : Env) (sets : SetsTimes env) where
  open env use {World}

  then_in-GivesInos :
      (s : FileSystem) (cur j k : ℕ) (ks : List Text) (o : Result ℕ × FileSystem × World)
      (next : ℕ → FileSystem → World → Result ℕ × FileSystem × World)
      → Arrived World s cur ks o
      → GivesInos j s o.1
      → s.last_ino + (j + k) < 2 ^ 64
      → ((p : ℕ) (s' : FileSystem) (w' : World)
          → IsTree s'
          → p < s'.next_node
          → s'.last_ino + k < 2 ^ 64
          → HasInos s'
          → GivesInos k s' (next p s' w').1)
      → GivesInos (j + k) s (then_in env o next).1
  then_in-GivesInos s cur j k ks (ok p, s', w') next a g room go =
      let same : a.node ≡ p = cc (a.returned) in
      let count = g.count in
      GivesInos-trans j k s s' (next p s' w').1 g (
        go p s' w' a.tree (subst (λ x. x < s'.next_node) same a.allocated) (omega (arith, count))
          g.inos)
  then_in-GivesInos s cur j k ks (err x, s', w') next a g room go = absurd (cc (a.returned))
  then_in-GivesInos s cur j k ks (panics, s', w') next a g room go = absurd (cc (a.returned))

  module _ (req : NodeRequest) where
    enter-GivesInos :
        (cur : ℕ) (name : Text) (o : Option ℕ) (s : FileSystem) (w : World)
        → IsTree s
        → cur < s.next_node
        → load name (s.nodes cur).children ≡ o
        → s.last_ino + 1 < 2 ^ 64
        → HasInos s
        → GivesInos 1 s (enter env req cur name o s w).1
    unfolding enter new_dir_attr new_default_attr new_inode
    enter-GivesInos cur name (some child) s w t here e room h = GivesInos-refl 1 s h
    enter-GivesInos cur name none s w t here absent room h =
        make_child-GivesInos cur name _ s.pending s t here absent room (sets _ _ _ _) h

    add_dirs-GivesInos :
        (parts : List Text) (cur : ℕ) (s : FileSystem) (w : World)
        → IsTree s
        → cur < s.next_node
        → s.last_ino + length (nonempty parts) < 2 ^ 64
        → HasInos s
        → GivesInos (length (nonempty parts)) s (add_dirs env req parts cur s w).1
    unfolding add_dirs nonempty
    add_dirs-GivesInos [] cur s w t here room h = GivesInos-refl 0 s h
    add_dirs-GivesInos ([] ∷ rest) cur s w t here room h =
        add_dirs-GivesInos rest cur s w t here room h
    add_dirs-GivesInos ((c ∷ name) ∷ rest) cur s w t here room h =
        let one_more : 1 + length (nonempty rest) ≡ suc (length (nonempty rest)) = omega arith in
        subst (λ k. GivesInos k s (add_dirs env req ((c ∷ name) ∷ rest) cur s w).1) one_more
          (then_in-GivesInos s cur 1 (length (nonempty rest)) ((c ∷ name) ∷ []) _
            (add_dirs env req rest) (enter-Arrived env req cur (c ∷ name) _ s w t here refl)
            (enter-GivesInos cur (c ∷ name) _ s w t here refl (omega arith) h) (omega arith)
            (λ p s' w' t' here' room' h'. add_dirs-GivesInos rest p s' w' t' here' room' h'))

    pub add_dir_node-GivesInos :
        (s : FileSystem) (w : World)
        → IsTree s
        → s.last_ino + length (names req.path) < 2 ^ 64
        → HasInos s
        → GivesInos (length (names req.path)) s (add_dir_node env req s w).1
    unfolding add_dir_node
    add_dir_node-GivesInos s w t room h =
        add_dirs-GivesInos (split req.path) s.root s w t t.root_allocated room h

  -- A number that no node took is lost.
  GivesInos-recount :
      (s : FileSystem)
      → s.last_ino + 1 < 2 ^ 64
      → HasInos s
      → GivesInos 1 s (recount (add_one64 s.last_ino) s.pending s)
  GivesInos-recount s room h =
      let small : (s.last_ino + 1) % 2 ^ 64 ≡ s.last_ino + 1 = omega arith in
      record {
        inos = record {
          bounded = λ p hp. let b = h.bounded p hp in omega (arith, b, small);
          unique = h.unique;
        };
        count = omega (arith, small);
      }

  make_file-GivesInos :
      (p : ℕ) (name : Text) (attr : Attr) (r : Result (List ℕ)) (w : World) (s : FileSystem)
      → IsTree s
      → p < s.next_node
      → load name (s.nodes p).children ≡ none
      → s.last_ino + 1 < 2 ^ 64
      → attr.ino ≡ add_one64 s.last_ino
      → HasInos s
      → GivesInos 1 s
          (make_file env p name attr (r, w) (record s { last_ino = add_one64 s.last_ino })).1
  unfolding make_file new_inode
  make_file-GivesInos p name attr (ok []) w s t here absent room e h = GivesInos-recount s room h
  make_file-GivesInos p name attr (ok (a ∷ adapters)) w s t here absent room e h =
      make_child-GivesInos p name (new_inode attr (a ∷ adapters)) (s.pending ++ s.next_inode ∷ []) s
        t here absent room e h
  make_file-GivesInos p name attr (err x) w s t here absent room e h = GivesInos-recount s room h
  make_file-GivesInos p name attr panics w s t here absent room e h = GivesInos-recount s room h

  add_file_in-GivesInos :
      (req : FileCreateRequest) (name : Text) (o : Option ℕ) (p : ℕ) (s : FileSystem) (w : World)
      → IsTree s
      → p < s.next_node
      → load name (s.nodes p).children ≡ o
      → s.last_ino + 1 < 2 ^ 64
      → HasInos s
      → GivesInos 1 s (add_file_in env req name o p s w).1
  unfolding add_file_in new_default_attr
  add_file_in-GivesInos req name (some existing) p s w t here e room h = GivesInos-refl 1 s h
  add_file_in-GivesInos req name none p s w t here absent room h =
      make_file-GivesInos p name _ _ _ s t here absent room refl h

  file_dir-GivesInos :
      (req : FileCreateRequest) (dir : Text) (s : FileSystem) (w : World)
      → IsTree s
      → s.last_ino + length (names dir) < 2 ^ 64
      → HasInos s
      → GivesInos (length (names dir)) s (file_dir env req dir s w).1
  unfolding file_dir
  file_dir-GivesInos req [] s w t room h = GivesInos-refl _ s h
  file_dir-GivesInos req (c ∷ dir) s w t room h =
      add_dir_node-GivesInos (record req.node { path = c ∷ dir }) s w t room h

  pub add_file_node-GivesInos :
      (req : FileCreateRequest) (s : FileSystem) (w : World)
      → IsTree s
      → s.last_ino + file_depth req < 2 ^ 64
      → HasInos s
      → GivesInos (file_depth req) s (add_file_node env req s w).1
  unfolding add_file_node get_child
  add_file_node-GivesInos req s w t room h =
      let (dir, name) = path_split req.node.path in
      then_in-GivesInos s s.root (length (names dir)) 1 (names dir) (file_dir env req dir s w) _
        (file_dir-Arrived env req dir s w t) (file_dir-GivesInos req dir s w t (omega arith) h) room
        (λ p s' w' t' here room' h'. add_file_in-GivesInos req name _ p s' w' t' here refl room' h')
