-- ===== src/Session/Locks.antt =====
-- The read locks that the methods take are given back.
use webfs.Base.{
  ℕ, ◌+◌, ◌-◌, ◌≡◌, refl, ap, fun_ext, inl, inr, Option, none, some, List, [], ◌∷◌, ◌++◌, arith,
  Option-cases,
}
use webfs.Base.Int.{ℤ}
use webfs.Base.Maps.{load, nat_eq}
use webfs.External.{Env}
use webfs.Node.{FileSystem, update}
use webfs.Session.{
  NodeContext, add_close, run_close_fns, close, closed, open_found, forget_with, forget_node_id,
  read_in, read,
}

-- Close runs the callbacks in the reverse order of their AddClose: the last one pushed runs first,
-- on the state before, and the others run on what it leaves.
pub close-add_close :
    (f : FileSystem → FileSystem) (ctx : NodeContext) (s : FileSystem)
    → closed (some (add_close f ctx)) s ≡ closed (some ctx) (f s)
unfolding close add_close
close-add_close f ctx s = run ctx.close_fns
  where
    run :
        (fs : List (FileSystem → FileSystem))
        → run_close_fns (fs ++ f ∷ []) s ≡ run_close_fns fs (f s)
    run [] = refl
    run (g ∷ fs) = ap g (run fs)

lock_unlock :
    (readers : ℕ → ℕ) (p : ℕ)
    → update (update readers p (readers p + 1)) p (update readers p (readers p + 1) p - 1) ≡ readers
lock_unlock readers p = fun_ext λ q. ground arith

-- A second Close does nothing.
pub close-close :
    (ctx : Option NodeContext) (s : FileSystem)
    → let (ctx', s') = close ctx s in closed ctx' s' ≡ s'
unfolding close
close-close none s = refl
close-close (some ctx) s = refl

-- ForgetNodeID holds no lock when it returns.
pub readers-forget_node_id : (id : ℕ) (s : FileSystem) → (forget_node_id id s).readers ≡ s.readers
unfolding forget_node_id
readers-forget_node_id id s = elim (Option-cases (load id s.node_registry)) [
  | inl missing ↦ rw (missing, open_found, forget_with)
  | inr (p, found) ↦ rw (found, open_found, forget_with) (lock_unlock s.readers p)
]

-- FileSystem.Read holds no lock when it returns, with a result or an error.
pub readers-read :
    (env : Env) (id : ℕ) (offset size : ℤ) (s : FileSystem) (w : env.World)
    → (read env id offset size s w).1.readers ≡ s.readers
unfolding read
readers-read env id offset size s w = elim (Option-cases (load id s.node_registry)) [
  | inl missing ↦ rw (missing, open_found, read_in)
  | inr (p, found) ↦ rw (found, open_found, read_in) (lock_unlock s.readers p)
]
