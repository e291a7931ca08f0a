-- ===== src/Command.antt =====
-- cmd/wfs/main.go: loading the nodes file. main's calls of logger.Fatal end the process: they are the
-- error result. request.go's types of nodes.
pub mod Loading
pub mod Served
pub mod Effect
pub mod Order
pub mod Numbers
pub mod Main
use webfs.Base.{
  ℕ, suc, ◌+◌, Bool, true, false, Option, none, some, List, [], ◌∷◌, ◌++◌, nat_beq, if◌then◌else◌,
}
use webfs.Base.Int.{ℤ, pos}
use webfs.Base.Maps.{Text, text_beq}
use webfs.Base.Result.{Result, Error, ok, err, panics}
use webfs.External.{Env}
use webfs.Paths.{codes}
use webfs.Node.{FileSystem}
use webfs.Fs.{NodeRequest, FileCreateRequest, add_dir_node, add_file_node}
use webfs.Adapters.{Registry}
use webfs.Requests.{Decoder, get_node_type, unmarshal_file_request, unmarshal_dir_request}

-- request.go, FileNodeType and DirNodeType
abbrev pub file_node_type : Text
file_node_type = codes "file"

abbrev pub dir_node_type : Text
dir_node_type = codes "dir"

-- The two slices of requests that main collects
pub record NodeRequests : Type 0 where
  pub files : List FileCreateRequest
  pub dirs : List NodeRequest

-- The counters of added nodes
pub record Added : Type 0 where
  pub dirs : ℕ
  pub files : ℕ

module _ (env : Env) (decoder : Decoder env.World) (registry : Registry) where
  open env use {World}

  -- What a raw node adds to the slices. An error of a step passes the node over.
  with_file : NodeRequests → Result FileCreateRequest × World → Result NodeRequests × World
  with_file reqs (ok req, w) = (ok (record reqs { files = reqs.files ++ req ∷ [] }), w)
  with_file reqs (err e, w) = (ok reqs, w)
  with_file reqs (panics, w) = (panics, w)

  with_dir : NodeRequests → Result NodeRequest × World → Result NodeRequests × World
  with_dir reqs (ok req, w) = (ok (record reqs { dirs = reqs.dirs ++ req ∷ [] }), w)
  with_dir reqs (err e, w) = (ok reqs, w)
  with_dir reqs (panics, w) = (panics, w)

  collect_of : Text → NodeRequests → Result Text → World → Result NodeRequests × World
  unfolding with_file with_dir
  collect_of raw reqs (ok kind) w =
      if text_beq kind file_node_type
      then with_file reqs (unmarshal_file_request env decoder raw registry w)
      else if text_beq kind dir_node_type
      then with_dir reqs (unmarshal_dir_request env decoder raw w)
      else (ok reqs, w)
  collect_of raw reqs (err e) w = (ok reqs, w)
  collect_of raw reqs panics w = (panics, w)

  -- The body of the loop over the raw nodes
  unfoldable pub collect_node : Text → NodeRequests → World → Result NodeRequests × World
  unfolding collect_of
  collect_node raw reqs w = collect_of raw reqs (get_node_type env decoder raw) w

  after_collected :
      Result NodeRequests × World
      → (NodeRequests → World → Result NodeRequests × World)
      → Result NodeRequests × World
  after_collected (ok reqs, w) continue = continue reqs w
  after_collected (err e, w) continue = (err e, w)
  after_collected (panics, w) continue = (panics, w)

  unfoldable pub collect_nodes : List Text → NodeRequests → World → Result NodeRequests × World
  unfolding collect_node after_collected
  collect_nodes [] reqs w = (ok reqs, w)
  collect_nodes (raw ∷ rest) reqs w = after_collected (collect_node raw reqs w) (collect_nodes rest)

module _ (env : Env) where
  open env use {World}

  abbrev pub Loaded : Type 0
  Loaded = Result Added × FileSystem × World

  -- What follows a call that adds a node: a panic ends the process, an error does not.
  after_dir : Added → Result ℕ × FileSystem × World → (Added → FileSystem → World → Loaded) → Loaded
  after_dir n (ok p, s, w) continue = continue (record n { dirs = n.dirs + 1 }) s w
  after_dir n (err e, s, w) continue = continue (record n { dirs = n.dirs + 1 }) s w
  after_dir n (panics, s, w) continue = (panics, s, w)

  after_file :
      Added → Result ℕ × FileSystem × World → (Added → FileSystem → World → Loaded) → Loaded
  after_file n (ok p, s, w) continue = continue (record n { files = n.files + 1 }) s w
  after_file n (err e, s, w) continue = continue n s w
  after_file n (panics, s, w) continue = (panics, s, w)

  unfoldable pub add_file_requests : List FileCreateRequest → Added → FileSystem → World → Loaded
  unfolding after_file
  add_file_requests [] n s w = (ok n, s, w)
  add_file_requests (req ∷ rest) n s w =
      after_file n (add_file_node env req s w) (add_file_requests rest)

  -- The directories are added first, then the files.
  unfoldable pub add_dir_requests :
      List NodeRequest → List FileCreateRequest → Added → FileSystem → World → Loaded
  unfolding after_dir
  add_dir_requests [] files n s w = add_file_requests files n s w
  add_dir_requests (req ∷ rest) files n s w =
      after_dir n (add_dir_node env req s w) (add_dir_requests rest files)

  abbrev pub nothing_added : Added
  nothing_added = record { dirs = 0; files = 0 }

  unfoldable pub add_requests : NodeRequests → FileSystem → World → Loaded
  unfolding add_dir_requests add_file_requests
  add_requests reqs s w = add_dir_requests reqs.dirs reqs.files nothing_added s w

module _ (env : Env) (decoder : Decoder env.World) (registry : Registry)
    (read_file : Text → Result Text) (raw_nodes : Text → List Text) where
  open env use {World}

  add_collected : Result NodeRequests × World → FileSystem → Loaded env
  add_collected (ok reqs, w) s = add_requests env reqs s w
  add_collected (err e, w) s = (err e, s, w)
  add_collected (panics, w) s = (panics, s, w)

  load_text : Result Text → FileSystem → World → Loaded env
  unfolding add_collected
  load_text (ok text) s w =
      add_collected
        (collect_nodes env decoder registry (raw_nodes text) (record { files = []; dirs = [] }) w) s
  load_text (err e) s w = (err e, s, w)
  load_text panics s w = (panics, s, w)

  -- The part of main that loads the nodes file; an empty flag loads nothing. `raw_nodes` is what
  -- json.Unmarshal leaves in the slice, also when it reports an error, which is only logged.
  unfoldable pub load_nodes : Text → FileSystem → World → Loaded env
  unfolding load_text
  load_nodes [] s w = (ok (nothing_added env), s, w)
  load_nodes (c ∷ path) s w = load_text (read_file (c ∷ path)) s w
