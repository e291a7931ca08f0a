-- ===== src/Session/Log.antt =====
-- filesystem/context.go, LogNodeBuilder and LogNodeTreeBuilder: what a log event of zerolog holds, as
-- data. The order in which a children map is ranged over is the argument `range`. The recursion and
-- Path run on fuel; `none` says that it ran out.
pub mod Whole
use webfs.Base.{ℕ, zero, suc, Option, none, some, List, [], ◌∷◌}
use webfs.Base.Maps.{Map, Text}
use webfs.Base.Result.{Error}
use webfs.External.{Attr}
use webfs.Node.{FileSystem}
use webfs.Session.{NodeContext, ctx_node_id, ctx_attr, ctx_path}
use webfs.Session.Children.{iter_children}

-- The fields nodeID, path, path_err and attr
pub record NodeLog : Type 0 where
  pub node_id : ℕ
  pub path : Text
  pub path_err : Option Error
  pub attr : Attr

-- An event with its children array, and the arrays
mutual
  pub data LogTree : Type 0 where
    logged : NodeLog → LogArray → LogTree

  pub data LogArray : Type 0 where
    no_logs : LogArray
    then_log : LogArray → LogTree → LogArray

event_fields : ℕ → Attr → Option (Text × Option Error) → Option NodeLog
event_fields id attr none = none
event_fields id attr (some (path, e)) =
    some (record { node_id = id; path = path; path_err = e; attr = attr })

-- LogNodeBuilder
unfoldable pub log_node : ℕ → NodeContext → FileSystem → Option NodeLog
unfolding event_fields
log_node fuel ctx s = event_fields (ctx_node_id ctx s) (ctx_attr ctx s) (ctx_path fuel ctx s)

-- chn.Dict
append_log : Option LogArray → Option LogTree → Option LogArray
append_log (some logs) (some t) = some (then_log logs t)
append_log (some logs) none = none
append_log none t = none

-- log.Array
with_array : Option NodeLog → Option LogArray → Option LogTree
with_array (some log) (some logs) = some (logged log logs)
with_array (some log) none = none
with_array none logs = none

module _ (range : Map Text ℕ → List ℕ) (path_fuel : ℕ) where
  -- LogNodeTreeBuilder
  unfoldable pub log_node_tree : ℕ → NodeContext → FileSystem → Option LogTree × FileSystem
  unfolding append_log with_array
  log_node_tree zero ctx s = (none, s)
  log_node_tree (suc fuel) ctx s =
      let log = log_node path_fuel ctx s in
      let (chn, s') =
        iter_children range
          (λ ch acc t. let (tree, t') = log_node_tree fuel ch t in (append_log acc tree, t')) ctx
          (some no_logs) s in
      (with_array log chn, s')
