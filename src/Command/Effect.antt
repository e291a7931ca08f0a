-- ===== src/Command/Effect.antt =====
-- Loading a nodes file, the part of cmd/wfs/main.go that adds the collected requests, against the
-- abstract view of the tree.
use webfs.Base.{ℕ, ◌+◌, ◌≡◌, refl, ap, subst, ◌∙◌, List, [], ◌∷◌, ◌++◌, map, arith, length}
use webfs.Base.Maps.{Text}
use webfs.Base.Result.{Result, ok, err, panics}
use webfs.External.{Env}
use webfs.Paths.{names, path_split}
use webfs.Node.{FileSystem}
use webfs.Node.Tree.{IsTree}
use webfs.Node.PathSet.{PathSet, paths, mkdir_p}
use webfs.Fs.{NodeRequest, FileCreateRequest, add_dir_node, add_file_node}
use webfs.Fs.Dirs.{add_dir_node-Arrived, Arrived}
use webfs.Fs.Files.{file_names, add_file_node-Added}
use webfs.Fs.Mkdir.{entry_effect, paths-add_dir_node, paths-add_file_node}
use webfs.Command.{
  Added, NodeRequests, Loaded, after_dir, after_file, add_file_requests, add_dir_requests,
  add_requests, nothing_added,
}

-- `mkdir -p` for each path in turn.
abbrev pub mkdir_all : List (List Text) → PathSet → PathSet
mkdir_all [] t = t
mkdir_all (path ∷ rest) t = mkdir_all rest (mkdir_p path t)

abbrev pub dir_names : FileCreateRequest → List Text
dir_names req = names (path_split req.node.path).0

-- How the file requests went, from the counters before them to the result, with the paths they made:
-- a request that is refused makes the path of its directory, and a panic ends the loop there.
pub data FileRun : Added → List FileCreateRequest → Result Added → List (List Text) → Type 0 where
  finished : (n : Added) → FileRun n [] (ok n) []
  added :
      (n : Added) (req : FileCreateRequest) (rest : List FileCreateRequest) (r : Result Added)
      (made : List (List Text))
      → FileRun (record n { files = n.files + 1 }) rest r made
      → FileRun n (req ∷ rest) r (file_names req.node.path ∷ made)
  refused :
      (n : Added) (req : FileCreateRequest) (rest : List FileCreateRequest) (r : Result Added)
      (made : List (List Text))
      → FileRun n rest r made
      → FileRun n (req ∷ rest) r (dir_names req ∷ made)
  stopped :
      (n : Added) (req : FileCreateRequest) (rest : List FileCreateRequest)
      → FileRun n (req ∷ rest) panics (dir_names req ∷ [])

-- The requests made their paths, the directories' first.
pub record HasEffect (W : Type 0) (n : Added) (dirs : List NodeRequest)
    (files : List FileCreateRequest) (s : FileSystem) (out : Result Added × FileSystem × W)
    : Type 0 where
  pub made : List (List Text)
  pub run : FileRun (record n { dirs = n.dirs + length dirs }) files out.0 made
  pub effect : paths out.1 ≡ mkdir_all (map (λ req. names req.path) dirs ++ made) (paths s)

module _ (env : Env) where
  open env use {World}

  after_file-HasEffect :
      (n : Added) (req : FileCreateRequest) (rest : List FileCreateRequest) (s : FileSystem)
      (o : Result ℕ × FileSystem × World) (next : Added → FileSystem → World → Loaded env)
      → IsTree o.1
      → paths o.1 ≡ entry_effect o.0 (dir_names req) (path_split req.node.path).1 (paths s)
      → ((m : Added) (t : FileSystem) (w : World)
          → IsTree t
          → HasEffect World m [] rest t (next m t w))
      → HasEffect World n [] (req ∷ rest) s (after_file env n o next)
  unfolding after_file
  after_file-HasEffect n req rest s (ok p, s', w) next t e go =
      let m = record n { files = n.files + 1 } in
      let h = go m s' w t in
      record {
        made = file_names req.node.path ∷ h.made;
        run = added _ req rest _ h.made h.run;
        effect = h.effect ∙ ap (mkdir_all h.made) e;
      }
  after_file-HasEffect n req rest s (err x, s', w) next t e go =
      let h = go n s' w t in
      record {
        made = dir_names req ∷ h.made;
        run = refused _ req rest _ h.made h.run;
        effect = h.effect ∙ ap (mkdir_all h.made) e;
      }
  after_file-HasEffect n req rest s (panics, s', w) next t e go = record {
    made = dir_names req ∷ [];
    run = stopped _ req rest;
    effect = e;
  }

  add_file_requests-HasEffect :
      (files : List FileCreateRequest) (n : Added) (s : FileSystem) (w : World)
      → IsTree s
      → HasEffect World n [] files s (add_file_requests env files n s w)
  unfolding add_file_requests
  add_file_requests-HasEffect [] n s w t =
      let none_more : n.dirs ≡ n.dirs + 0 = omega arith in
      record {
        made = [];
        run = subst (λ d. FileRun (record n { dirs = d }) [] (ok n) []) none_more (finished n);
        effect = refl;
      }
  add_file_requests-HasEffect (req ∷ rest) n s w t =
      after_file-HasEffect n req rest s (add_file_node env req s w) (add_file_requests env rest)
        (add_file_node-Added env req s w t).tree (paths-add_file_node env req s w t)
        (add_file_requests-HasEffect rest)

  after_dir-HasEffect :
      (n : Added) (req : NodeRequest) (rest : List NodeRequest) (files : List FileCreateRequest)
      (s : FileSystem) (o : Result ℕ × FileSystem × World)
      (next : Added → FileSystem → World → Loaded env)
      → Arrived World s s.root (names req.path) o
      → paths o.1 ≡ mkdir_p (names req.path) (paths s)
      → ((m : Added) (t : FileSystem) (w : World)
          → IsTree t
          → HasEffect World m rest files t (next m t w))
      → HasEffect World n (req ∷ rest) files s (after_dir env n o next)
  unfolding after_dir
  after_dir-HasEffect n req rest files s (ok p, s', w) next a e go =
      let m = record n { dirs = n.dirs + 1 } in
      let h = go m s' w a.tree in
      let count : m.dirs + length rest ≡ n.dirs + length (req ∷ rest) = omega arith in
      record {
        made = h.made;
        run = subst (λ d. FileRun (record n { dirs = d }) files (next m s' w).0 h.made) count h.run;
        effect =
            h.effect ∙ ap (mkdir_all (map (λ (r : NodeRequest). names r.path) rest ++ h.made)) e;
      }
  after_dir-HasEffect n req rest files s (err x, s', w) next a e go = absurd (cc (a.returned))
  after_dir-HasEffect n req rest files s (panics, s', w) next a e go = absurd (cc (a.returned))

  add_dir_requests-HasEffect :
      (dirs : List NodeRequest) (files : List FileCreateRequest) (n : Added) (s : FileSystem)
      (w : World)
      → IsTree s
      → HasEffect World n dirs files s (add_dir_requests env dirs files n s w)
  unfolding add_dir_requests
  add_dir_requests-HasEffect [] files n s w t = add_file_requests-HasEffect files n s w t
  add_dir_requests-HasEffect (req ∷ rest) files n s w t =
      after_dir-HasEffect n req rest files s (add_dir_node env req s w)
        (add_dir_requests env rest files) (add_dir_node-Arrived env req s w t)
        (paths-add_dir_node env req s w t) (add_dir_requests-HasEffect rest files)

  pub add_requests-HasEffect :
      (reqs : NodeRequests) (s : FileSystem) (w : World)
      → IsTree s
      → HasEffect World (nothing_added env) reqs.dirs reqs.files s (add_requests env reqs s w)
  unfolding add_requests
  add_requests-HasEffect reqs s w t = add_dir_requests-HasEffect reqs.dirs reqs.files _ s w t
