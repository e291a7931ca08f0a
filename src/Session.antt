-- ===== src/Session.antt =====
-- filesystem/context.go, NodeContext, and the methods of filesystem/fs.go that work by registry
-- NodeID. `readers p` counts the read locks held on node p; write locks are held within single
-- steps only. A context's callbacks are functions on the state. The methods run one at a time here.
pub mod Ids
pub mod Locks
pub mod Forget
pub mod Start
pub mod Reads
pub mod Kept
pub mod Children
pub mod Log
pub mod Race
pub mod Sound
use webfs.Base.{
  ℕ, ◌+◌, ◌-◌, Bool, Option, none, some, List, [], ◌∷◌, ◌++◌, map, nat_beq, if◌then◌else◌,
}
use webfs.Base.Int.{ℤ}
use webfs.Base.Maps.{Map, Text, load, store, delete, nat_eq}
use webfs.Base.Result.{Result, Error, ok, err, panics, node_not_found}
use webfs.External.{Env, Attr}
use webfs.Inode
use webfs.Inode.{Inode}
use webfs.Node.{
  node_id_of, name_of, inode_of, Node, FileSystem, update, set_node, set_inode, path, get_child,
}
use webfs.Fs.{add_one64}

pub record NodeContext : Type 0 where
  pub node : ℕ
  pub close_fns : List (FileSystem → FileSystem)

abbrev pub r_lock : ℕ → FileSystem → FileSystem
r_lock p s = record s { readers = update s.readers p (s.readers p + 1) }

abbrev pub r_unlock : ℕ → FileSystem → FileSystem
r_unlock p s = record s { readers = update s.readers p (s.readers p - 1) }

-- AddClose
unfoldable pub add_close : (FileSystem → FileSystem) → NodeContext → NodeContext
add_close f ctx = record ctx { close_fns = ctx.close_fns ++ f ∷ [] }

-- NewNodeContext
unfoldable pub new_node_context : ℕ → FileSystem → NodeContext × FileSystem
unfolding add_close
new_node_context p s = (add_close (r_unlock p) (record { node = p; close_fns = [] }), r_lock p s)

-- RootCtx
unfoldable pub root_ctx : FileSystem → NodeContext × FileSystem
unfolding new_node_context
root_ctx s = new_node_context s.root s

-- The loop of Close: the callback that was pushed last runs first.
unfoldable pub run_close_fns : List (FileSystem → FileSystem) → FileSystem → FileSystem
run_close_fns [] s = s
run_close_fns (f ∷ fs) s = f (run_close_fns fs s)

-- Close, which does nothing on a nil context, and leaves a context without callbacks
unfoldable pub close : Option NodeContext → FileSystem → Option NodeContext × FileSystem
unfolding run_close_fns
close none s = (none, s)
close (some ctx) s = (some (record ctx { close_fns = [] }), run_close_fns ctx.close_fns s)

abbrev pub closed : Option NodeContext → FileSystem → FileSystem
closed ctx s = (close ctx s).1

-- Name, NodeID, Attr, HardLinkCount, Path and UpdateAttr of a context
unfoldable pub ctx_name : NodeContext → FileSystem → Text
ctx_name ctx s = name_of s ctx.node

unfoldable pub ctx_node_id : NodeContext → FileSystem → ℕ
ctx_node_id ctx s = node_id_of s ctx.node

unfoldable pub ctx_attr : NodeContext → FileSystem → Attr
ctx_attr ctx s = (inode_of s ctx.node).attr

unfoldable pub hard_link_count : NodeContext → FileSystem → ℕ
unfolding ctx_attr
hard_link_count ctx s = (ctx_attr ctx s).nlink

unfoldable pub ctx_path : ℕ → NodeContext → FileSystem → Option (Text × Option Error)
ctx_path fuel ctx s = path fuel s ctx.node

unfoldable pub update_attr : NodeContext → (Attr → Attr) → FileSystem → FileSystem
update_attr ctx f s =
    let i = (s.nodes ctx.node).inode in
    set_inode i (record (s.inodes i) { attr = f (s.inodes i).attr }) s

unfoldable pub open_found : Option ℕ → FileSystem → Option NodeContext × FileSystem
open_found none s = (none, s)
open_found (some p) s = let (ctx, s') = new_node_context p s in (some ctx, s')

-- GetNodeCtx
unfoldable pub get_node_ctx : ℕ → FileSystem → Option NodeContext × FileSystem
unfolding open_found new_node_context
get_node_ctx id s = open_found (load id s.node_registry) s

-- ForgetNodeID: the context is closed when the function returns.
forget_with : ℕ → Option NodeContext × FileSystem → FileSystem
forget_with id (none, s) = closed none s
forget_with id (some ctx, s) =
    closed (some ctx) (record s { node_registry = delete id s.node_registry })

unfoldable pub forget_node_id : ℕ → FileSystem → FileSystem
unfolding forget_with get_node_ctx close
forget_node_id id s = forget_with id (get_node_ctx id s)

-- EnsureNodeID, when no other call runs at the same time: the compare-and-swap succeeds.
unfoldable pub ensure_node_id : ℕ → FileSystem → ℕ × FileSystem
ensure_node_id p s =
    let n = s.nodes p in
    let id = add_one64 s.last_node_id in
    if nat_beq n.node_id 0
    then (
      id,
      record s {
        nodes = update s.nodes p (record n { node_id = id });
        last_node_id = id;
        node_registry = store id p s.node_registry;
      },
    )
    else (n.node_id, s)

child_ctx : Option ℕ → FileSystem → Option NodeContext × FileSystem
child_ctx none s = (none, s)
child_ctx (some child) s =
    let (id, s1) = ensure_node_id child s in
    let (ctx, s2) = new_node_context child s1 in (some ctx, s2)

child_of : Option ℕ → Text → FileSystem → Option NodeContext × FileSystem
child_of none name s = (none, s)
child_of (some parent) name s = child_ctx (get_child s parent name) s

-- GetChildCtx
unfoldable pub get_child_ctx : ℕ → Text → FileSystem → Option NodeContext × FileSystem
unfolding child_of child_ctx new_node_context
get_child_ctx parent_id name s = child_of (load parent_id s.node_registry) name s

module _ (env : Env) where
  open env use {World}

  -- Read of a context: the node's inode reads.
  unfoldable pub ctx_read :
      NodeContext → ℤ → ℤ → FileSystem → World → Result (List ℕ) × FileSystem × World
  ctx_read ctx offset size s w =
      let i = (s.nodes ctx.node).inode in
      let (r, n, w') = Inode.read env offset size (s.inodes i) w in (r, set_inode i n s, w')

  read_in :
      ℕ → ℤ → ℤ → Option NodeContext × FileSystem → World → Result (List ℕ) × FileSystem × World
  unfolding ctx_read
  read_in id offset size (none, s) w = (err (node_not_found id), s, w)
  read_in id offset size (some ctx, s) w =
      let (r, s', w') = ctx_read ctx offset size s w in (r, closed (some ctx) s', w')

  -- FileSystem.Read
  unfoldable pub read : ℕ → ℤ → ℤ → FileSystem → World → Result (List ℕ) × FileSystem × World
  unfolding read_in get_node_ctx close
  read id offset size s w = read_in id offset size (get_node_ctx id s) w
