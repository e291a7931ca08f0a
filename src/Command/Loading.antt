-- ===== src/Command/Loading.antt =====
-- What loading a nodes file does to the file system: the part of cmd/wfs/main.go that adds the
-- collected requests.
use webfs.Base.{ℕ, ◌+◌, sym, subst, ◌∙◌, List, [], ◌∷◌, arith}
use webfs.Base.Maps.{Text}
use webfs.Base.Result.{Result, ok, err, panics}
use webfs.External.{Env}
use webfs.Paths.{names}
use webfs.Node.{FileSystem}
use webfs.Node.Tree.{IsTree}
use webfs.Node.Walks.{Walk}
use webfs.Fs.{NodeRequest, FileCreateRequest, add_dir_node, add_file_node}
use webfs.Fs.Dirs.{Arrived, add_dir_node-Arrived}
use webfs.Fs.Growth.{Grows, Grows-refl, Grows-trans}
use webfs.Fs.Files.{add_file_node-Added}
use webfs.Adapters.{Registry}
use webfs.Requests.{Decoder}
use webfs.Command.{
  Added, NodeRequests, after_dir, after_file, add_file_requests, add_dir_requests, add_requests,
  add_collected, load_text, load_nodes, Loaded,
}

-- Every request's names lead from the root to some node.
abbrev pub LeadSomewhere : List NodeRequest → FileSystem → Type 0
LeadSomewhere [] s = Unit
LeadSomewhere (req ∷ rest) s = ((c : ℕ) × Walk s s.root (names req.path) c) × LeadSomewhere rest s

-- The result is a tree in which names lead where they led before, and the names of `dirs` lead
-- somewhere.
pub record IsLoaded (W : Type 0) (s : FileSystem) (dirs : List NodeRequest)
    (out : Result Added × FileSystem × W) : Type 0 where
  pub tree : IsTree out.1
  pub grows : Grows s out.1
  pub found : LeadSomewhere dirs out.1

IsLoaded-step :
    {W : Type 0} (s s' : FileSystem) (out : Result Added × FileSystem × W)
    → Grows s s'
    → IsLoaded W s' [] out
    → IsLoaded W s [] out
IsLoaded-step s s' out g l = record {
  tree = l.tree;
  grows = Grows-trans s s' out.1 g l.grows;
  found = tt;
}

unchanged :
    {W : Type 0} (s : FileSystem) (r : Result Added) (w : W) → IsTree s → IsLoaded W s [] (r, s, w)
unchanged s r w t = record { tree = t; grows = Grows-refl s; found = tt }

module _ (env : Env) where
  open env use {World}

  after_file-IsLoaded :
      (n : Added) (s : FileSystem) (o : Result ℕ × FileSystem × World)
      (next : Added → FileSystem → World → Loaded env)
      → IsTree o.1
      → Grows s o.1
      → ((m : Added) (t : FileSystem) (w : World) → IsTree t → IsLoaded World t [] (next m t w))
      → IsLoaded World s [] (after_file env n o next)
  unfolding after_file
  after_file-IsLoaded n s (ok p, s', w) next t g go = IsLoaded-step s s' _ g (go _ s' w t)
  after_file-IsLoaded n s (err e, s', w) next t g go = IsLoaded-step s s' _ g (go _ s' w t)
  after_file-IsLoaded n s (panics, s', w) next t g go = IsLoaded-step s s' _ g (unchanged s' _ w t)

  add_file_requests-IsLoaded :
      (files : List FileCreateRequest) (n : Added) (s : FileSystem) (w : World)
      → IsTree s
      → IsLoaded World s [] (add_file_requests env files n s w)
  unfolding add_file_requests
  add_file_requests-IsLoaded [] n s w t = unchanged s (ok n) w t
  add_file_requests-IsLoaded (req ∷ rest) n s w t =
      let a = add_file_node-Added env req s w t in
      after_file-IsLoaded n s (add_file_node env req s w) (add_file_requests env rest) a.tree
        a.grows (add_file_requests-IsLoaded rest)

  after_dir-IsLoaded :
      (n : Added) (s : FileSystem) (req : NodeRequest) (rest : List NodeRequest)
      (o : Result ℕ × FileSystem × World) (next : Added → FileSystem → World → Loaded env)
      → IsTree s
      → Arrived World s s.root (names req.path) o
      → ((m : Added) (t : FileSystem) (w : World) → IsTree t → IsLoaded World t rest (next m t w))
      → IsLoaded World s (req ∷ rest) (after_dir env n o next)
  unfolding after_dir
  after_dir-IsLoaded n s req rest (ok p, s', w) next t a go =
      let m = record n { dirs = n.dirs + 1 } in
      let l = go m s' w a.tree in
      let more = a.grows.more in
      let here = t.root_allocated in
      let out = next m s' w in
      record {
        tree = l.tree;
        grows = Grows-trans s s' out.1 a.grows l.grows;
        found = (
          (
            a.node,
            subst (λ r. Walk out.1 r (names req.path) a.node)
                (sym (l.grows.same_root ∙ a.grows.same_root))
                (l.grows.walks s.root a.node (names req.path) (omega arith) a.walk),
          ),
          l.found,
        );
      }
  after_dir-IsLoaded n s req rest (err x, s', w) next t a go = absurd (cc (a.returned))
  after_dir-IsLoaded n s req rest (panics, s', w) next t a go = absurd (cc (a.returned))

  add_dir_requests-IsLoaded :
      (dirs : List NodeRequest) (files : List FileCreateRequest) (n : Added) (s : FileSystem)
      (w : World)
      → IsTree s
      → IsLoaded World s dirs (add_dir_requests env dirs files n s w)
  unfolding add_dir_requests
  add_dir_requests-IsLoaded [] files n s w t = add_file_requests-IsLoaded files n s w t
  add_dir_requests-IsLoaded (req ∷ rest) files n s w t =
      after_dir-IsLoaded n s req rest (add_dir_node env req s w) (add_dir_requests env rest files) t
        (add_dir_node-Arrived env req s w t) (add_dir_requests-IsLoaded rest files)

  -- On a tree, adding the collected requests leaves a tree in every case, also when making an
  -- adapter panics: whatever names led to before, they still lead to, and the names of every
  -- directory request lead from the root to some node.
  pub add_requests-IsLoaded :
      (reqs : NodeRequests) (s : FileSystem) (w : World)
      → IsTree s
      → IsLoaded World s reqs.dirs (add_requests env reqs s w)
  unfolding add_requests
  add_requests-IsLoaded reqs s w t = add_dir_requests-IsLoaded reqs.dirs reqs.files _ s w t

module _ (env : Env) (decoder : Decoder env.World) (registry : Registry)
    (read_file : Text → Result Text) (raw_nodes : Text → List Text) where
  open env use {World}

  forget_found :
      (s : FileSystem) (dirs : List NodeRequest) (out : Loaded env)
      → IsLoaded World s dirs out
      → IsLoaded World s [] out
  forget_found s dirs out l = record { tree = l.tree; grows = l.grows; found = tt }

  add_collected-IsLoaded :
      (o : Result NodeRequests × World) (s : FileSystem)
      → IsTree s
      → IsLoaded World s [] (add_collected env decoder registry read_file raw_nodes o s)
  unfolding add_collected
  add_collected-IsLoaded (ok reqs, w) s t =
      forget_found s reqs.dirs (add_requests env reqs s w) (add_requests-IsLoaded env reqs s w t)
  add_collected-IsLoaded (err e, w) s t = unchanged s (err e) w t
  add_collected-IsLoaded (panics, w) s t = unchanged s panics w t

  load_text-IsLoaded :
      (o : Result Text) (s : FileSystem) (w : World)
      → IsTree s
      → IsLoaded World s [] (load_text env decoder registry read_file raw_nodes o s w)
  unfolding load_text
  load_text-IsLoaded (ok text) s w t = add_collected-IsLoaded _ s t
  load_text-IsLoaded (err e) s w t = unchanged s (err e) w t
  load_text-IsLoaded panics s w t = unchanged s panics w t

  -- Whatever the nodes file holds, and whatever its decoding and its adapters do, loading it into a
  -- tree leaves a tree in which names lead where they led before.
  pub load_nodes-IsLoaded :
      (path : Text) (s : FileSystem) (w : World)
      → IsTree s
      → IsLoaded World s [] (load_nodes env decoder registry read_file raw_nodes path s w)
  unfolding load_nodes
  load_nodes-IsLoaded [] s w t = unchanged s _ w t
  load_nodes-IsLoaded (c ∷ path) s w t = load_text-IsLoaded _ s w t
