-- ===== src/Command/Served.antt =====
-- From NewFS over the nodes file to the handlers: the course of cmd/wfs/main.go.
use webfs.Base.{ℕ, List, []}
use webfs.Base.Maps.{Text}
use webfs.Base.Result.{Result}
use webfs.External.{Env}
use webfs.Fs.{new_fs}
use webfs.Session.Sound.{new_fs-IsSoundFs, Grows-IsSoundFs}
use webfs.Fuse.{new_fuse_raw}
use webfs.Fuse.Invariant.{IsSound}
use webfs.System.Safety.{new_fuse_raw-IsSound}
use webfs.Adapters.{register_builtins, new_registry}
use webfs.Requests.{Decoder}
use webfs.Command.{load_nodes}
use webfs.Command.Loading.{load_nodes-IsLoaded}

-- Whatever the nodes file holds, and whatever reading it, decoding it and making adapters give,
-- errors and panics included: the handlers start on a sound state, when the file system of NewFS is
-- loaded with the built-in adapters registered.
pub load_nodes-IsSound :
    (env : Env) (decoder : Decoder env.World) (http : ℕ) (read_file : Text → Result Text)
    (raw_nodes : Text → List Text) (path : Text) (w : env.World)
    → let registry = register_builtins http [] new_registry in
      let (s, w1) = new_fs env w in
      IsSound (new_fuse_raw (load_nodes env decoder registry read_file raw_nodes path s w1).1)
load_nodes-IsSound env decoder http read_file raw_nodes path w =
    let registry = register_builtins http [] new_registry in
    let (s, w1) = new_fs env w in
    let start = new_fs-IsSoundFs env w in
    let out = load_nodes env decoder registry read_file raw_nodes path s w1 in
    let l = load_nodes-IsLoaded env decoder registry read_file raw_nodes path s w1 start.tree in
    new_fuse_raw-IsSound out.1 (Grows-IsSoundFs s out.1 l.grows l.tree start)
