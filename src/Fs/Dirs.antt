-- ===== src/Fs/Dirs.antt =====
-- AddDirNode as `mkdir -p`: what it returns, what it keeps, and when it changes nothing.
use webfs.Base.{
  ℕ, ◌<◌, ◌≡◌, refl, sym, subst, ◌∙◌, Option, none, some, List, [], ◌∷◌, arith, length,
}
use webfs.Base.Maps.{Text, load, text_eq}
use webfs.Base.Result.{Result, ok, err, panics}
use webfs.External.{Env}
use webfs.Inode.{Inode}
use webfs.Paths.{split, nonempty, names, join_from}
use webfs.Node.{FileSystem, path, make_child}
use webfs.Node.Tree.{IsTree}
use webfs.Node.Tree.Kept.{make_child-IsTree}
use webfs.Node.Tree.Child.{make_child_ok, after-next_node}
use webfs.Node.Walks.{Walk, entry-new, path-join_from}
use webfs.Fs.{NodeRequest, add_one64, enter, then_in, add_dirs, add_dir_node}
use webfs.Fs.Growth.{Grows, Grows-refl, Grows-trans, recount, recount-IsTree, make_child-Grows}

-- What one round of the loop, or AddDirNode, has done: it returned a node to which the names lead
-- from `cur`, and the tree has grown.
pub record Arrived (W : Type 0) (s : FileSystem) (cur : ℕ) (ks : List Text)
    (out : Result ℕ × FileSystem × W) : Type 0 where
  pub node : ℕ
  pub returned : out.0 ≡ ok node
  pub tree : IsTree out.1
  pub grows : Grows s out.1
  pub allocated : node < out.1.next_node
  pub walk : Walk out.1 cur ks node

pub make_child-Arrived :
    (W : Type 0) (w : W) (p : ℕ) (name : Text) (n : Inode) (ino : ℕ) (pending : List ℕ)
    (s : FileSystem)
    → IsTree s
    → p < s.next_node
    → load name (s.nodes p).children ≡ none
    → let out = make_child p name n (recount ino pending s) in
      Arrived W s p (name ∷ []) (out.0, out.1, w)
make_child-Arrived W w p name n ino pending s t here absent =
    let s' = recount ino pending s in
    let next = after-next_node p name n s' here absent in
    record {
      node = s.next_node;
      returned = make_child_ok p name n s' here absent;
      tree = make_child-IsTree p name n s' here absent (recount-IsTree ino pending s t);
      grows = make_child-Grows p name n ino pending s t here absent;
      allocated = omega (arith, next);
      walk = (s.next_node, entry-new p name n s' here absent, refl);
    }

module _ (env : Env) (req : NodeRequest) where
  open env use {World}

  pub enter-Arrived :
      (cur : ℕ) (name : Text) (o : Option ℕ) (s : FileSystem) (w : World)
      → IsTree s
      → cur < s.next_node
      → load name (s.nodes cur).children ≡ o
      → Arrived World s cur (name ∷ []) (enter env req cur name o s w)
  unfolding enter
  enter-Arrived cur name (some child) s w t here e = record {
    node = child;
    returned = refl;
    tree = t;
    grows = Grows-refl s;
    allocated = (t.entries cur name child here e).allocated;
    walk = (child, e, refl);
  }
  enter-Arrived cur name none s w t here e =
      make_child-Arrived World (env.now w).1 cur name _ (add_one64 s.last_ino) s.pending s t here e

  -- A step that arrived hands its node to the next.
  then_in-Arrived :
      (s : FileSystem) (cur : ℕ) (k : Text) (ks : List Text) (o : Result ℕ × FileSystem × World)
      (next : ℕ → FileSystem → World → Result ℕ × FileSystem × World)
      → cur < s.next_node
      → Arrived World s cur (k ∷ []) o
      → ((p : ℕ) (s' : FileSystem) (w' : World)
          → IsTree s'
          → p < s'.next_node
          → Arrived World s' p ks (next p s' w'))
      → Arrived World s cur (k ∷ ks) (then_in env o next)
  then_in-Arrived s cur k ks (ok p, s', w') next here a go =
      let same : p ≡ a.node = cc (a.returned) in
      let b = go p s' w' a.tree (subst (λ x. x < s'.next_node) (sym same) a.allocated) in
      let more = a.grows.more in
      let (q, e, to_node) = a.walk in
      let back : q ≡ p = to_node ∙ sym same in
      record {
        node = b.node;
        returned = b.returned;
        tree = b.tree;
        grows = Grows-trans s s' (next p s' w').1 a.grows b.grows;
        allocated = b.allocated;
        walk =
            let (r, found, done) = b.grows.walks cur q (k ∷ []) (omega arith) (q, e, refl) in
            (
              q,
              subst (λ x. load k ((next p s' w').1.nodes cur).children ≡ some x) done found,
              subst (λ x. Walk (next p s' w').1 x ks b.node) (sym back) b.walk,
            );
      }
  then_in-Arrived s cur k ks (err x, s', w') next here a go = absurd (cc (a.returned))
  then_in-Arrived s cur k ks (panics, s', w') next here a go = absurd (cc (a.returned))

  add_dirs-Arrived :
      (parts : List Text) (cur : ℕ) (s : FileSystem) (w : World)
      → IsTree s
      → cur < s.next_node
      → Arrived World s cur (nonempty parts) (add_dirs env req parts cur s w)
  unfolding add_dirs nonempty
  add_dirs-Arrived [] cur s w t here = record {
    node = cur;
    returned = refl;
    tree = t;
    grows = Grows-refl s;
    allocated = here;
    walk = refl;
  }
  add_dirs-Arrived ([] ∷ rest) cur s w t here = add_dirs-Arrived rest cur s w t here
  add_dirs-Arrived ((c ∷ name) ∷ rest) cur s w t here =
      then_in-Arrived s cur (c ∷ name) (nonempty rest) _ (add_dirs env req rest) here
        (enter-Arrived cur (c ∷ name) _ s w t here refl)
        (λ p s' w' t' h. add_dirs-Arrived rest p s' w' t' h)

  -- On a tree, AddDirNode returns a node, leaves a tree, and the names of the path lead from the
  -- root to that node. Whatever names led to before, they still lead to.
  pub add_dir_node-Arrived :
      (s : FileSystem) (w : World)
      → IsTree s
      → Arrived World s s.root (names req.path) (add_dir_node env req s w)
  unfolding add_dir_node
  add_dir_node-Arrived s w t = add_dirs-Arrived (split req.path) s.root s w t t.root_allocated

  add_dirs_existing :
      (parts : List Text) (cur c : ℕ) (s : FileSystem) (w : World)
      → Walk s cur (nonempty parts) c
      → add_dirs env req parts cur s w ≡ (ok c, s, w)
  unfolding add_dirs nonempty enter
  add_dirs_existing [] cur c s w walk = rw walk
  add_dirs_existing ([] ∷ rest) cur c s w walk = add_dirs_existing rest cur c s w walk
  add_dirs_existing ((x ∷ name) ∷ rest) cur c s w (q, e, walk) =
      rw (e, enter) (add_dirs_existing rest q c s w walk)

  -- If the names of the path already lead to a node, a directory or a file, AddDirNode returns that
  -- node and changes nothing: it reads no clock and uses no inode number.
  pub add_dir_node_existing :
      (c : ℕ) (s : FileSystem) (w : World)
      → Walk s s.root (names req.path) c
      → add_dir_node env req s w ≡ (ok c, s, w)
  unfolding add_dir_node
  add_dir_node_existing c s w walk = add_dirs_existing (split req.path) s.root c s w walk

  -- On a tree, with more fuel than the path has names, AddDirNode returns a node, and Path of it
  -- is the request's path without empty names, with no error.
  pub path-add_dir_node :
      (fuel : ℕ) (s : FileSystem) (w : World)
      → IsTree s
      → length (names req.path) < fuel
      → let out = add_dir_node env req s w in
        (c : ℕ) × (out.0 ≡ ok c) × (path fuel out.1 c ≡ some (join_from [] (names req.path), none))
  path-add_dir_node fuel s w t enough =
      let a = add_dir_node-Arrived s w t in
      let out = add_dir_node env req s w in
      (
        a.node,
        a.returned,
        path-join_from fuel out.1 a.node (names req.path) a.tree
            (subst (λ r. Walk out.1 r (names req.path) a.node) (sym a.grows.same_root) a.walk)
            enough,
      )
