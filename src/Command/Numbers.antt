-- ===== src/Command/Numbers.antt =====
-- The inode numbers that loading a nodes file gives out: the part of cmd/wfs/main.go that adds the
-- collected requests.
use webfs.Base.{ℕ, ◌+◌, ◌^◌, ◌<◌, List, [], ◌∷◌, arith, length}
use webfs.Base.Result.{Result, ok, err, panics}
use webfs.External.{Env}
use webfs.Inode.Attributes.{SetsTimes}
use webfs.Paths.{names}
use webfs.Node.{FileSystem}
use webfs.Node.Tree.{IsTree}
use webfs.Fs.{NodeRequest, FileCreateRequest, add_dir_node, add_file_node}
use webfs.Fs.Dirs.{add_dir_node-Arrived}
use webfs.Fs.Files.{add_file_node-Added}
use webfs.Fs.Inos.{HasInos, GivesInos, GivesInos-refl, GivesInos-trans}
use webfs.Fs.Inos.Given.{file_depth, add_dir_node-GivesInos, add_file_node-GivesInos}
use webfs.Command.{
  Added, NodeRequests, Loaded, after_dir, after_file, add_file_requests, add_dir_requests,
  add_requests,
}

abbrev file_depths : List FileCreateRequest → ℕ
file_depths [] = 0
file_depths (req ∷ rest) = file_depth req + file_depths rest

-- The names in the directory requests, and those in the file requests
abbrev pub depths : List NodeRequest → List FileCreateRequest → ℕ
depths [] files = file_depths files
depths (req ∷ rest) files = length (names req.path) + depths rest files

module _ (env : Env) (sets : SetsTimes env) where
  open env use {World}

  -- A call that may give out k numbers, and what follows it.
  then-GivesInos :
      (j k : ℕ) (s s' u : FileSystem)
      → GivesInos j s s'
      → s.last_ino + (j + k) < 2 ^ 64
      → (s'.last_ino + k < 2 ^ 64 → HasInos s' → GivesInos k s' u)
      → GivesInos (j + k) s u
  then-GivesInos j k s s' u g room go =
      let count = g.count in GivesInos-trans j k s s' u g (go (omega (arith, count)) g.inos)

  after_file-GivesInos :
      (j k : ℕ) (n : Added) (s : FileSystem) (o : Result ℕ × FileSystem × World)
      (next : Added → FileSystem → World → Loaded env)
      → IsTree o.1
      → GivesInos j s o.1
      → s.last_ino + (j + k) < 2 ^ 64
      → ((m : Added) (t : FileSystem) (w : World)
          → IsTree t
          → t.last_ino + k < 2 ^ 64
          → HasInos t
          → GivesInos k t (next m t w).1)
      → GivesInos (j + k) s (after_file env n o next).1
  unfolding after_file
  after_file-GivesInos j k n s (ok p, s', w) next t g room go =
      then-GivesInos j k s s' (next (record n { files = n.files + 1 }) s' w).1 g room
        (go (record n { files = n.files + 1 }) s' w t)
  after_file-GivesInos j k n s (err e, s', w) next t g room go =
      then-GivesInos j k s s' (next n s' w).1 g room (go n s' w t)
  after_file-GivesInos j k n s (panics, s', w) next t g room go =
      then-GivesInos j k s s' s' g room (λ r h. GivesInos-refl k s' h)

  add_file_requests-GivesInos :
      (files : List FileCreateRequest) (n : Added) (s : FileSystem) (w : World)
      → IsTree s
      → s.last_ino + file_depths files < 2 ^ 64
      → HasInos s
      → GivesInos (file_depths files) s (add_file_requests env files n s w).1
  unfolding add_file_requests
  add_file_requests-GivesInos [] n s w t room h = GivesInos-refl 0 s h
  add_file_requests-GivesInos (req ∷ rest) n s w t room h =
      after_file-GivesInos (file_depth req) (file_depths rest) n s (add_file_node env req s w)
        (add_file_requests env rest) (add_file_node-Added env req s w t).tree
        (add_file_node-GivesInos env sets req s w t (omega arith) h) room
        (add_file_requests-GivesInos rest)

  after_dir-GivesInos :
      (j k : ℕ) (n : Added) (s : FileSystem) (o : Result ℕ × FileSystem × World)
      (next : Added → FileSystem → World → Loaded env)
      → IsTree o.1
      → GivesInos j s o.1
      → s.last_ino + (j + k) < 2 ^ 64
      → ((m : Added) (t : FileSystem) (w : World)
          → IsTree t
          → t.last_ino + k < 2 ^ 64
          → HasInos t
          → GivesInos k t (next m t w).1)
      → GivesInos (j + k) s (after_dir env n o next).1
  unfolding after_dir
  after_dir-GivesInos j k n s (ok p, s', w) next t g room go =
      then-GivesInos j k s s' (next (record n { dirs = n.dirs + 1 }) s' w).1 g room
        (go (record n { dirs = n.dirs + 1 }) s' w t)
  after_dir-GivesInos j k n s (err e, s', w) next t g room go =
      then-GivesInos j k s s' (next (record n { dirs = n.dirs + 1 }) s' w).1 g room
        (go (record n { dirs = n.dirs + 1 }) s' w t)
  after_dir-GivesInos j k n s (panics, s', w) next t g room go =
      then-GivesInos j k s s' s' g room (λ r h. GivesInos-refl k s' h)

  add_dir_requests-GivesInos :
      (dirs : List NodeRequest) (files : List FileCreateRequest) (n : Added) (s : FileSystem)
      (w : World)
      → IsTree s
      → s.last_ino + depths dirs files < 2 ^ 64
      → HasInos s
      → GivesInos (depths dirs files) s (add_dir_requests env dirs files n s w).1
  unfolding add_dir_requests
  add_dir_requests-GivesInos [] files n s w t room h =
      add_file_requests-GivesInos files n s w t room h
  add_dir_requests-GivesInos (req ∷ rest) files n s w t room h =
      after_dir-GivesInos (length (names req.path)) (depths rest files) n s
        (add_dir_node env req s w) (add_dir_requests env rest files)
        (add_dir_node-Arrived env req s w t).tree
        (add_dir_node-GivesInos env sets req s w t (omega arith) h) room
        (add_dir_requests-GivesInos rest files)

  -- On a tree whose nodes have different inode numbers, none above the counter, adding the collected
  -- requests keeps this in every case, errors and panics included, and moves the counter by no more
  -- than there are names in the paths of the requests, if this many numbers are left of 64 bits.
  -- SetTimes keeps the inode number.
  pub add_requests-GivesInos :
      (reqs : NodeRequests) (s : FileSystem) (w : World)
      → IsTree s
      → s.last_ino + depths reqs.dirs reqs.files < 2 ^ 64
      → HasInos s
      → GivesInos (depths reqs.dirs reqs.files) s (add_requests env reqs s w).1
  unfolding add_requests
  add_requests-GivesInos reqs s w t room h =
      add_dir_requests-GivesInos reqs.dirs reqs.files _ s w t room h
