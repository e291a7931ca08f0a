-- ===== src/Session/Log/Whole.antt =====
-- LogNodeTreeBuilder of filesystem/context.go: the event that it makes, against the tree.
use mathlib.Core.List.{append_assoc, append-nil}
use webfs.Base.{
  ℕ, zero, suc, ◌-◌, ◌≤◌, ◌<◌, ◌≡◌, refl, sym, ap, fun_ext, ◌∙◌, ◌++◌, Pairwise, Option, none, some,
  List, [], ◌∷◌, All, All-map, arith,
}
use webfs.Base.Maps.{Map, Text, load, text_eq}
use webfs.Node.{FileSystem, path, path_from, is_root}
use webfs.Node.Tree.{IsTree}
use webfs.Node.Walks.{path_total}
use webfs.Session.{
  NodeContext, r_lock, r_unlock, add_close, new_node_context, close, ctx_node_id, ctx_attr,
  ctx_path,
}
use webfs.Session.Kept.{r_unlock-r_lock}
use webfs.Session.Children.{visit_all, iter_children}
use webfs.Session.Log.{
  LogTree, LogArray, logged, no_logs, then_log, event_fields, log_node, append_log, with_array,
  log_node_tree,
}

-- Path does not look at the locks.
path-r_lock : (fuel c : ℕ) (s : FileSystem) (p : ℕ) → path fuel (r_lock c s) p ≡ path fuel s p
unfolding path path_from is_root
path-r_lock zero c s p = refl
path-r_lock (suc fuel) c s p = ap (path_from s p) (fun_ext λ q. path-r_lock fuel c s q)

-- The events of an array, in order
abbrev pub logs_in : LogArray → List LogTree
logs_in no_logs = []
logs_in (then_log logs t) = logs_in logs ++ t ∷ []

module _ (range : Map Text ℕ → List ℕ) (path_fuel : ℕ) where
  -- The logs of nodes, one after another
  pub logs_of : (ℕ → Option LogTree) → List ℕ → Option LogArray → Option LogArray
  logs_of log [] acc = acc
  logs_of log (c ∷ rest) acc = logs_of log rest (append_log acc (log c))

  -- The log of a node: its fields, and the logs of its children in the order of the range
  pub tree_log : ℕ → FileSystem → ℕ → Option LogTree
  tree_log zero s p = none
  tree_log (suc fuel) s p =
      with_array
        (event_fields (s.nodes p).node_id (s.inodes (s.nodes p).inode).attr (path path_fuel s p))
        (logs_of (tree_log fuel s) (range (s.nodes p).children) (some no_logs))

  tree_log-r_lock :
      (fuel c : ℕ) (s : FileSystem) (p : ℕ) → tree_log fuel (r_lock c s) p ≡ tree_log fuel s p
  unfolding tree_log
  tree_log-r_lock zero c s p = refl
  tree_log-r_lock (suc fuel) c s p =
      ap
        (λ x.
          with_array (event_fields (s.nodes p).node_id (s.inodes (s.nodes p).inode).attr x)
            (logs_of (tree_log fuel (r_lock c s)) (range (s.nodes p).children) (some no_logs)))
        (path-r_lock path_fuel c s p)
      ∙ ap
          (λ g.
            with_array
              (event_fields (s.nodes p).node_id (s.inodes (s.nodes p).inode).attr
                (path path_fuel s p))
              (logs_of g (range (s.nodes p).children) (some no_logs)))
          (fun_ext (tree_log-r_lock fuel c s))

  abbrev log_child : ℕ → NodeContext → Option LogArray → FileSystem → Option LogArray × FileSystem
  log_child fuel ch acc t =
      let (tree, t') = log_node_tree range path_fuel fuel ch t in (append_log acc tree, t')

  visited :
      (fuel : ℕ) (l : List ℕ) (acc : Option LogArray) (s : FileSystem)
      → ((ctx : NodeContext) (t : FileSystem)
          → log_node_tree range path_fuel fuel ctx t ≡ (tree_log fuel t ctx.node, t))
      → visit_all range (log_child fuel) l acc s ≡ (logs_of (tree_log fuel s) l acc, s)
  unfolding visit_all logs_of close new_node_context add_close
  visited fuel [] acc s same = refl
  visited fuel (c ∷ rest) acc s same =
      let (ch, locked) = new_node_context c s in
      ap
        (λ (o : Option LogTree × FileSystem).
          visit_all range (log_child fuel) rest (append_log acc o.0) (r_unlock c o.1))
        (same ch locked)
      ∙ ap (λ t. visit_all range (log_child fuel) rest (append_log acc (tree_log fuel locked c)) t)
          (r_unlock-r_lock c s)
      ∙ ap (λ o. visit_all range (log_child fuel) rest (append_log acc o) s)
          (tree_log-r_lock fuel c s c)
      ∙ visited fuel rest (append_log acc (tree_log fuel s c)) s same

  log_node_tree_eq :
      (fuel : ℕ) (ctx : NodeContext) (s : FileSystem)
      → log_node_tree range path_fuel fuel ctx s ≡ (tree_log fuel s ctx.node, s)
  unfolding log_node_tree tree_log iter_children log_node ctx_node_id ctx_attr ctx_path
  log_node_tree_eq zero ctx s = refl
  log_node_tree_eq (suc fuel) ctx s =
      rw (visited fuel (range (s.nodes ctx.node).children) (some no_logs) s (log_node_tree_eq fuel))
        refl

  -- The tree is the log of the node: its fields, and for each child, in the order of the range, the
  -- log of that child. The fuel is above the number of levels.
  abbrev pub IsLog : ℕ → FileSystem → ℕ → LogTree → Type 0
  IsLog zero s p t = ⊥
  IsLog (suc fuel) s p (logged log logs) =
      (log.node_id ≡ (s.nodes p).node_id)
      × (log.attr ≡ (s.inodes (s.nodes p).inode).attr)
      × (path path_fuel s p ≡ some (log.path, log.path_err))
      × Pairwise (IsLog fuel s) (range (s.nodes p).children) (logs_in logs)

  logs_of_total :
      (R : ℕ → LogTree → Type 0) (log : ℕ → Option LogTree) (l : List ℕ) (acc : LogArray)
      → All (λ c. (t : LogTree) × (log c ≡ some t) × R c t) l
      → (logs : LogArray) × (ts : List LogTree) × (logs_of log l (some acc) ≡ some logs)
        × (logs_in logs ≡ logs_in acc ++ ts)
        × Pairwise R l ts
  unfolding logs_of append_log
  logs_of_total R log [] acc h = (acc, [], refl, sym (append-nil (logs_in acc)), tt)
  logs_of_total R log (c ∷ rest) acc ((t, e, r), h) =
      let (logs, ts, made, all, rs) = logs_of_total R log rest (then_log acc t) h in
      (logs, t ∷ ts, rw (e, append_log) made, all ∙ append_assoc (logs_in acc) (t ∷ []) ts, (r, rs))

  -- Ranging over a map yields values of the map.
  abbrev RangesOver : Type 0
  RangesOver = (m : Map Text ℕ) → All (λ c. (name : Text) × (load name m ≡ some c)) (range m)

  tree_log_total :
      (fuel : ℕ) (s : FileSystem) (p : ℕ)
      → RangesOver
      → IsTree s
      → p < s.next_node
      → s.next_node ≤ path_fuel
      → s.next_node - p ≤ fuel
      → (t : LogTree) × (tree_log fuel s p ≡ some t) × IsLog fuel s p t
  unfolding tree_log event_fields with_array
  tree_log_total zero s p ranged t here deep enough = absurd (omega arith)
  tree_log_total (suc fuel) s p ranged t here deep enough =
      let (r, printed) = path_total path_fuel s p t here (omega arith) in
      let below : (c : ℕ)
          → (name : Text) × (load name (s.nodes p).children ≡ some c)
          → (log : LogTree) × (tree_log fuel s c ≡ some log) × IsLog fuel s c log =
        λ c (name, found).
          let entry = t.entries p name c here found in
          let later = entry.later in
          tree_log_total fuel s c ranged t entry.allocated deep (omega arith) in
      let (logs, ts, e, all, each) =
        logs_of_total (IsLog fuel s) (tree_log fuel s) (range (s.nodes p).children) no_logs
          (All-map (range (s.nodes p).children) below (ranged (s.nodes p).children)) in
      (
        logged
            (record {
              node_id = (s.nodes p).node_id;
              path = r.0;
              path_err = r.1;
              attr = (s.inodes (s.nodes p).inode).attr;
            })
            logs,
        rw (printed, e, event_fields, with_array) refl,
        (refl, refl, printed, rw all each),
      )

  -- On a tree, LogNodeTreeBuilder of a node returns, and gives back every lock that it takes: the
  -- state is as before. The event holds the NodeID, the attributes and the Path of the node, and an
  -- array with one event for each child, in the order of the range, which holds the same of the
  -- child and its children, down to the leaves. Fuel for as many levels as there are nodes made
  -- from this one on is enough. Ranging over a map yields its values.
  pub log_node_tree-IsLog :
      (fuel : ℕ) (ctx : NodeContext) (s : FileSystem)
      → RangesOver
      → IsTree s
      → ctx.node < s.next_node
      → s.next_node ≤ path_fuel
      → s.next_node - ctx.node ≤ fuel
      → (t : LogTree) × IsLog fuel s ctx.node t
        × (log_node_tree range path_fuel fuel ctx s ≡ (some t, s))
  log_node_tree-IsLog fuel ctx s ranged t here deep enough =
      let (log, e, is_log) = tree_log_total fuel s ctx.node ranged t here deep enough in
      (log, is_log, log_node_tree_eq fuel ctx s ∙ ap (λ o. (o, s)) e)
