-- ===== src/Session/Children.antt =====
-- filesystem/context.go: Children, IterChildren and IsCached of a context. The order in which a
-- children map is ranged over is the argument `range`; `fn` works on a state `S` of its caller.
use webfs.Base.{ℕ, ◌-◌, ◌≡◌, refl, ap, ◌∙◌, Bool, some, List, [], ◌∷◌}
use webfs.Base.Int.{ℤ}
use webfs.Base.Maps.{Map, Text}
use webfs.Inode
use webfs.Node.{FileSystem, update}
use webfs.Session.{NodeContext, r_lock, r_unlock, add_close, new_node_context, close, closed}
use webfs.Session.Kept.{r_unlock-r_lock}

-- IsCached
unfoldable pub ctx_is_cached : NodeContext → ℤ → ℤ → FileSystem → Bool
ctx_is_cached ctx offset size s = Inode.is_cached (s.inodes (s.nodes ctx.node).inode) offset size

-- The callback of Children: a context on each child, which is locked.
unfoldable pub open_all : List ℕ → FileSystem → List NodeContext × FileSystem
unfolding new_node_context
open_all [] s = ([], s)
open_all (c ∷ rest) s =
    let (ctx, s1) = new_node_context c s in
    let (others, s2) = open_all rest s1 in (ctx ∷ others, s2)

module _ (range : Map Text ℕ → List ℕ) where
  -- Children
  unfoldable pub children : NodeContext → FileSystem → List NodeContext × FileSystem
  unfolding open_all
  children ctx s = open_all (range (s.nodes ctx.node).children) s

  module _ {S : Type 0} (fn : NodeContext → S → FileSystem → S × FileSystem) where
    -- The callback of IterChildren, for each child in turn
    unfoldable pub visit_all : List ℕ → S → FileSystem → S × FileSystem
    unfolding close new_node_context
    visit_all [] a s = (a, s)
    visit_all (c ∷ rest) a s =
        let (nc, s1) = new_node_context c s in
        let (a', s2) = fn nc a s1 in visit_all rest a' (closed (some nc) s2)

    -- IterChildren
    unfoldable pub iter_children : NodeContext → S → FileSystem → S × FileSystem
    unfolding visit_all
    iter_children ctx a s = visit_all (range (s.nodes ctx.node).children) a s

    module _
        (keeps : (ctx : NodeContext) (a : S) (s : FileSystem)
          → (fn ctx a s).1.readers ≡ s.readers) where
      readers-visit_all :
          (l : List ℕ) (a : S) (s : FileSystem) → (visit_all l a s).1.readers ≡ s.readers
      unfolding visit_all close new_node_context add_close
      readers-visit_all [] a s = refl
      readers-visit_all (c ∷ rest) a s =
          let (nc, s1) = new_node_context c s in
          let (a', s2) = fn nc a s1 in
          readers-visit_all rest a' (r_unlock c s2)
          ∙ ap (λ f. update f c (f c - 1)) (keeps nc a s1)
          ∙ ap (λ t. t.readers) (r_unlock-r_lock c s)

      -- IterChildren gives back every lock that it takes, whatever the map's order, if the callback
      -- leaves the locks as it finds them.
      pub readers-iter_children :
          (ctx : NodeContext) (a : S) (s : FileSystem)
          → (iter_children ctx a s).1.readers ≡ s.readers
      unfolding iter_children
      readers-iter_children ctx a s = readers-visit_all (range (s.nodes ctx.node).children) a s

-- Closing the contexts that Children returned, the last one first.
unfoldable pub close_all : List NodeContext → FileSystem → FileSystem
close_all [] s = s
close_all (ctx ∷ rest) s = closed (some ctx) (close_all rest s)

close_all-open_all :
    (l : List ℕ) (s : FileSystem) → let (ctxs, s') = open_all l s in close_all ctxs s' ≡ s
unfolding open_all close_all close new_node_context
close_all-open_all [] s = refl
close_all-open_all (c ∷ rest) s =
    ap (r_unlock c) (close_all-open_all rest (r_lock c s)) ∙ r_unlock-r_lock c s
