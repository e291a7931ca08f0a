-- ===== src/Fs/Files.antt =====
-- AddFileNode: where the file is found, when it is refused, and what its inode holds.
use webfs.Base.{ℕ, ◌<◌, ◌≡◌, refl, ap, subst, ◌∙◌, Option, none, some, List, [], ◌∷◌, ◌++◌, arith}
use webfs.Base.Maps.{Text, load, text_eq}
use webfs.Base.Result.{Result, ok, err, panics, file_exists}
use webfs.External.{Env, Attr}
use webfs.Inode.{new_inode}
use webfs.Paths.{split, nonempty, names, path_split}
use webfs.Node.{FileSystem, get_child, make_child}
use webfs.Node.Tree.{IsTree}
use webfs.Node.Walks.{Walk, Walk-snoc}
use webfs.Fs.{
  FileCreateRequest, add_one64, then_in, make_file, add_file_in, file_dir, add_file_node,
}
use webfs.Fs.Dirs.{Arrived, make_child-Arrived, add_dir_node-Arrived, add_dir_node_existing}
use webfs.Fs.Growth.{Grows, Grows-refl, Grows-trans, recount, recount-IsTree}

-- The names that lead to a file: those of its directory, and its own.
abbrev pub file_names : Text → List Text
file_names path = names (path_split path).0 ++ (path_split path).1 ∷ []

-- What an attempt to add a file under `ks`, seen from `cur`, has done.
pub record Added (W : Type 0) (s : FileSystem) (cur : ℕ) (ks : List Text)
    (out : Result ℕ × FileSystem × W) : Type 0 where
  pub tree : IsTree out.1
  pub grows : Grows s out.1
  pub found : (c : ℕ) → out.0 ≡ ok c → Walk out.1 cur ks c

Walk-unsnoc :
    (s : FileSystem) (p c : ℕ) (ks : List Text) (k : Text)
    → Walk s p (ks ++ k ∷ []) c
    → (q : ℕ) × Walk s p ks q × (load k (s.nodes q).children ≡ some c)
Walk-unsnoc s p c [] k (q, e, w) = (p, refl, e ∙ ap some w)
Walk-unsnoc s p c (j ∷ ks) k (q, e, w) =
    let (r, v, f) = Walk-unsnoc s q c ks k w in (r, (q, e, v), f)

Grows-recount : (ino : ℕ) (pending : List ℕ) (s : FileSystem) → Grows s (recount ino pending s)
Grows-recount ino pending s = record {
  same_root = refl;
  more = omega arith;
  walks = λ p c ks h w. walk p c ks w;
  numbers = record {
    more = omega arith;
    numbers = λ q h. refl;
    unnumbered = λ q h k. absurd (omega arith);
    same_registry = refl;
    same_last = refl;
    same_readers = refl;
  };
}
  where
    walk : (p c : ℕ) (ks : List Text) → Walk s p ks c → Walk (recount ino pending s) p ks c
    walk p c [] w = w
    walk p c (k ∷ ks) (q, e, w) = (q, e, walk q c ks w)

module _ (env : Env) where
  open env use {World}

  make_file-Added :
      (p : ℕ) (name : Text) (attr : Attr) (r : Result (List ℕ)) (w : World) (ino : ℕ)
      (s : FileSystem)
      → IsTree s
      → p < s.next_node
      → load name (s.nodes p).children ≡ none
      → Added World s p (name ∷ []) (make_file env p name attr (r, w) (record s { last_ino = ino }))
  unfolding make_file
  make_file-Added p name attr (ok []) w ino s t here absent = record {
    tree = recount-IsTree ino s.pending s t;
    grows = Grows-recount ino s.pending s;
    found = λ c e. absurd (cc e);
  }
  make_file-Added p name attr (ok (a ∷ adapters)) w ino s t here absent =
      let added =
        make_child-Arrived World w p name (new_inode attr (a ∷ adapters)) ino
          (s.pending ++ s.next_inode ∷ []) s t here absent in
      record {
        tree = added.tree;
        grows = added.grows;
        found = λ c e.
            let same : added.node ≡ c = cc (added.returned, e) in
            subst
              (λ x.
                Walk
                  (make_child p name (new_inode attr (a ∷ adapters))
                    (recount ino (s.pending ++ s.next_inode ∷ []) s)).1
                  p (name ∷ []) x)
              same added.walk;
      }
  make_file-Added p name attr (err e) w ino s t here absent = record {
    tree = recount-IsTree ino s.pending s t;
    grows = Grows-recount ino s.pending s;
    found = λ c x. absurd (cc x);
  }
  make_file-Added p name attr panics w ino s t here absent = record {
    tree = recount-IsTree ino s.pending s t;
    grows = Grows-recount ino s.pending s;
    found = λ c x. absurd (cc x);
  }

  add_file_in-Added :
      (req : FileCreateRequest) (name : Text) (o : Option ℕ) (p : ℕ) (s : FileSystem) (w : World)
      → IsTree s
      → p < s.next_node
      → load name (s.nodes p).children ≡ o
      → Added World s p (name ∷ []) (add_file_in env req name o p s w)
  unfolding add_file_in
  add_file_in-Added req name (some existing) p s w t here e = record {
    tree = t;
    grows = Grows-refl s;
    found = λ c x. absurd (cc x);
  }
  add_file_in-Added req name none p s w t here absent =
      make_file-Added p name _ _ _ (add_one64 s.last_ino) s t here absent

  pub file_dir-Arrived :
      (req : FileCreateRequest) (dir : Text) (s : FileSystem) (w : World)
      → IsTree s
      → Arrived World s s.root (names dir) (file_dir env req dir s w)
  unfolding file_dir split nonempty
  file_dir-Arrived req [] s w t = record {
    node = s.root;
    returned = refl;
    tree = t;
    grows = Grows-refl s;
    allocated = t.root_allocated;
    walk = refl;
  }
  file_dir-Arrived req (c ∷ dir) s w t =
      add_dir_node-Arrived env (record req.node { path = c ∷ dir }) s w t

  then_in-Added :
      (s : FileSystem) (ks : List Text) (name : Text) (o : Result ℕ × FileSystem × World)
      (next : ℕ → FileSystem → World → Result ℕ × FileSystem × World)
      → Arrived World s s.root ks o
      → s.root < s.next_node
      → ((p : ℕ) (s' : FileSystem) (w' : World)
          → IsTree s'
          → p < s'.next_node
          → Added World s' p (name ∷ []) (next p s' w'))
      → Added World s s.root (ks ++ name ∷ []) (then_in env o next)
  then_in-Added s ks name (ok p, s', w') next a here go =
      let same : a.node ≡ p = cc (a.returned) in
      let more = a.grows.more in
      let b = go p s' w' a.tree (subst (λ x. x < s'.next_node) same a.allocated) in
      record {
        tree = b.tree;
        grows = Grows-trans s s' (next p s' w').1 a.grows b.grows;
        found = λ c e.
            let (d, entry, last) = b.found c e in
            Walk-snoc (next p s' w').1 s.root p c ks name
              (b.grows.walks s.root p ks (omega arith)
                (subst (λ x. Walk s' s.root ks x) same a.walk))
              (entry ∙ ap some last);
      }
  then_in-Added s ks name (err x, s', w') next a here go = absurd (cc (a.returned))
  then_in-Added s ks name (panics, s', w') next a here go = absurd (cc (a.returned))

  -- On a tree, AddFileNode leaves a tree in every case, also when it fails after it made the
  -- directories; whatever names led to before, they still lead to. If it returns a node, the names
  -- of the directory and then the file's name lead from the root to that node.
  pub add_file_node-Added :
      (req : FileCreateRequest) (s : FileSystem) (w : World)
      → IsTree s
      → Added World s s.root (file_names req.node.path) (add_file_node env req s w)
  unfolding add_file_node get_child
  add_file_node-Added req s w t =
      let (dir, name) = path_split req.node.path in
      then_in-Added s (names dir) name (file_dir env req dir s w) _ (file_dir-Arrived req dir s w t)
        t.root_allocated (λ p s' w' t' h. add_file_in-Added req name _ p s' w' t' h refl)

  file_dir_existing :
      (req : FileCreateRequest) (dir : Text) (c : ℕ) (s : FileSystem) (w : World)
      → Walk s s.root (names dir) c
      → file_dir env req dir s w ≡ (ok c, s, w)
  unfolding file_dir split nonempty
  file_dir_existing req [] c s w walk = rw walk
  file_dir_existing req (x ∷ dir) c s w walk =
      add_dir_node_existing env (record req.node { path = x ∷ dir }) c s w walk

  -- If the names of the path already lead to a node, AddFileNode fails with an error that names the
  -- path, and changes nothing.
  pub add_file_node_exists :
      (req : FileCreateRequest) (c : ℕ) (s : FileSystem) (w : World)
      → Walk s s.root (file_names req.node.path) c
      → add_file_node env req s w ≡ (err (file_exists req.node.path), s, w)
  unfolding add_file_node get_child
  add_file_node_exists req c s w walk =
      let (dir, name) = path_split req.node.path in
      let (p, to_dir, entry) = Walk-unsnoc s s.root c (names dir) name walk in
      rw (file_dir_existing req dir p s w to_dir, entry, add_file_in)
