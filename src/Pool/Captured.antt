-- ===== src/Pool/Captured.antt =====
-- The variables that the closure given to tryOperation (filesystem/inode.go) captures.
use webfs.Base.{inl, inr, Bool, true, false, List, [], ◌∷◌, Option-cases, ℕ}
use webfs.Base.Result.{Result, ok, err, panics}
use webfs.External.{Env}
use webfs.Pool.{
  InodeAdapter, AdapterPool, mark_usable, last_resort, Outcome, after_attempt, try_each,
  try_operation,
}

module _ (env : Env) {S : Type 0}
    (operation : ℕ → S → env.World → Result (Unit {0}) × S × env.World) (P : S → Type 0)
    (keeps : (a : ℕ) (s : S) (w : env.World) → P s → P (operation a s w).1) where
  open env use {World}

  after_attempt-keeps :
      (a : InodeAdapter) (rest : List (Bool × InodeAdapter))
      (continue : Result (Unit {0}) → S → World → Outcome env operation)
      (o : Result (Unit {0}) × S × World)
      → P o.1
      → ((r : Result (Unit {0})) (s : S) (w : World) → P s → P (continue r s w).2)
      → P (after_attempt env operation a rest continue o).2
  unfolding after_attempt
  after_attempt-keeps a rest continue (ok u, s, w) h go = h
  after_attempt-keeps a rest continue (err e, s, w) h go = go (err e) s (env.now w).1 h
  after_attempt-keeps a rest continue (panics, s, w) h go = h

  try_each-keeps :
      (ms : List (Bool × InodeAdapter)) (last : Result (Unit {0})) (s : S) (w : World)
      → P s
      → P (try_each env operation ms last s w).2
  unfolding try_each
  try_each-keeps [] last s w h = h
  try_each-keeps ((false, a) ∷ rest) last s w h = try_each-keeps rest last s w h
  try_each-keeps ((true, a) ∷ rest) last s w h = elim (Option-cases (env.ctx_err w)) [
    | inl going ↦
        rw (going, try_each)
          (after_attempt-keeps a rest (try_each env operation rest) (operation a.adapter s w)
            (keeps a.adapter s w h) (try_each-keeps rest))
    | inr (e, stopped) ↦ rw (stopped, try_each) h
  ]

  -- A predicate that the operation keeps, whatever its result, holds after the loop too.
  pub try_operation-keeps :
      (p : AdapterPool) (s : S) (w : World) → P s → P (try_operation env operation p s w).2
  unfolding try_operation
  try_operation-keeps p s w h =
      try_each-keeps (last_resort (mark_usable env (p.primary ∷ p.backups) w).0) (ok tt) s _ h
