-- ===== src/Pool/Availability.antt =====
-- When tryOperation succeeds.
use webfs.Base.{ℕ, ◌≡◌, ◌≢◌, refl, ◌⊎◌, inl, inr, Bool, true, false, none, List, [], ◌∷◌}
use webfs.Base.Result.{Result, Error, ok, err, panics}
use webfs.External.{Env}
use webfs.Pool.{
  InodeAdapter, AdapterPool, mark_healthy, usable, mark_usable, any_marked, last_resort, unmark,
  Outcome, after_attempt, try_each, try_operation,
}
use webfs.Pool.Failover.{members}
use webfs.Pool.Retry.{unmark-mark_usable}

-- A member that is to be tried refers to the adapter `good`.
abbrev IsOffered : ℕ → List (Bool × InodeAdapter) → Type 0
IsOffered good [] = ⊥
IsOffered good ((false, a) ∷ rest) = IsOffered good rest
IsOffered good ((true, a) ∷ rest) = (a.adapter ≡ good) ⊎ IsOffered good rest

-- A healthy member refers to the adapter `good`.
abbrev pub HasHealthy : ℕ → List InodeAdapter → Type 0
HasHealthy good [] = ⊥
HasHealthy good (a ∷ rest) = ((a.adapter ≡ good) × (a.is_healthy ≡ true)) ⊎ HasHealthy good rest

IsOffered-skip :
    (good : ℕ) (b : Bool) (a : InodeAdapter) (rest : List (Bool × InodeAdapter))
    → IsOffered good rest
    → IsOffered good ((b, a) ∷ rest)
IsOffered-skip good false a rest h = h
IsOffered-skip good true a rest h = inr h

IsOffered-mark_usable :
    (env : Env) (good : ℕ) (l : List InodeAdapter) (w : env.World)
    → HasHealthy good l
    → IsOffered good (mark_usable env l w).0
unfolding mark_usable usable
IsOffered-mark_usable env good [] w h = h
IsOffered-mark_usable env good (a ∷ rest) w (inl (e, healthy)) = rw healthy (inl e)
IsOffered-mark_usable env good (a ∷ rest) w (inr h) =
    IsOffered-skip good (usable env a w).0 a (mark_usable env rest (usable env a w).1).0
      (IsOffered-mark_usable env good rest (usable env a w).1 h)

any_marked-IsOffered :
    (good : ℕ) (ms : List (Bool × InodeAdapter)) → IsOffered good ms → any_marked ms ≡ true
any_marked-IsOffered good [] h = absurd h
any_marked-IsOffered good ((false, a) ∷ rest) h = any_marked-IsOffered good rest h
any_marked-IsOffered good ((true, a) ∷ rest) h = refl

IsOffered-last_resort :
    (good : ℕ) (ms : List (Bool × InodeAdapter))
    → IsOffered good ms
    → IsOffered good (last_resort ms)
unfolding last_resort
IsOffered-last_resort good [] h = h
IsOffered-last_resort good ((b, a) ∷ rest) h = rw (any_marked-IsOffered good ((b, a) ∷ rest) h) h

mark_healthy_first :
    (env : Env) (a : InodeAdapter) (rest : List InodeAdapter) (w : env.World)
    → a.is_healthy ≡ true
    → mark_usable env (a ∷ rest) w
      ≡ ((true, a) ∷ (mark_usable env rest w).0, (mark_usable env rest w).1)
unfolding mark_usable usable
mark_healthy_first env a rest w healthy = rw healthy

module _ (env : Env) {S : Type 0}
    (operation : ℕ → S → env.World → Result (Unit {0}) × S × env.World)
    (going : (w : env.World) → env.ctx_err w ≡ none) where
  open env use {World}

  -- What is known of the captured state, before each attempt
  module _ (Known : S → Type 0)
      (kept : (a : ℕ) (s : S) (w : World) → Known s → Known (operation a s w).1)
      (calm : (a : ℕ) (s : S) (w : World) → Known s → (operation a s w).0 ≢ panics) (good : ℕ)
      (works : (s : S) (w : World) → Known s → (operation good s w).0 ≡ ok tt) where
    after_attempt_available :
        (a : InodeAdapter) (rest : List (Bool × InodeAdapter))
        (continue : Result (Unit {0}) → S → World → Outcome env operation) (r : Result (Unit {0}))
        (s : S) (w : World)
        → r ≢ panics
        → (r ≡ ok tt) ⊎ ((e : Error) (w' : World) → (continue (err e) s w').0 ≡ ok tt)
        → (after_attempt env operation a rest continue (r, s, w)).0 ≡ ok tt
    unfolding after_attempt
    after_attempt_available a rest continue (ok u) s w calm' h = refl
    after_attempt_available a rest continue (err e) s w calm' (inl x) = cc
    after_attempt_available a rest continue (err e) s w calm' (inr k) = k e (env.now w).1
    after_attempt_available a rest continue panics s w calm' h = absurd (calm' refl)

    try_each_available :
        (ms : List (Bool × InodeAdapter)) (last : Result (Unit {0})) (s : S) (w : World)
        → Known s
        → IsOffered good ms
        → (try_each env operation ms last s w).0 ≡ ok tt
    unfolding try_each
    try_each_available [] last s w known h = absurd h
    try_each_available ((false, a) ∷ rest) last s w known h =
        try_each_available rest last s w known h
    try_each_available ((true, a) ∷ rest) last s w known (inl e) =
        rw (going w, try_each)
          (after_attempt_available a rest _ _ _ _ (calm a.adapter s w known)
            (inl (rw e (works s w known))))
    try_each_available ((true, a) ∷ rest) last s w known (inr h) =
        rw (going w, try_each)
          (after_attempt_available a rest _ _ _ _ (calm a.adapter s w known)
            (inr (λ e w'. try_each_available rest (err e) _ w' (kept a.adapter s w known) h)))

    -- The same as below, for what is known of the captured state.
    pub try_operation_known :
        (p : AdapterPool) (s : S) (w : World)
        → Known s
        → HasHealthy good (members p)
        → (try_operation env operation p s w).0 ≡ ok tt
    unfolding try_operation
    try_operation_known p s w known h =
        try_each_available _ (ok tt) s _ known
          (IsOffered-last_resort good _ (IsOffered-mark_usable env good (members p) w h))

  module _ (calm : (a : ℕ) (s : S) (w : World) → (operation a s w).0 ≢ panics) (good : ℕ)
      (works : (s : S) (w : World) → (operation good s w).0 ≡ ok tt) where
    -- If the context is never done, no adapter panics, and a healthy member always succeeds, then
    -- tryOperation succeeds, whichever members fail before it.
    pub try_operation_available :
        (p : AdapterPool) (s : S) (w : World)
        → HasHealthy good (members p)
        → (try_operation env operation p s w).0 ≡ ok tt
    try_operation_available p s w h =
        try_operation_known (λ s'. Unit) (λ a s' w' known. tt) (λ a s' w' known. calm a s' w') good
          (λ s' w' known. works s' w') p s w tt h

  try_each_first :
      (a : InodeAdapter) (rest : List (Bool × InodeAdapter)) (last : Result (Unit {0})) (s s' : S)
      (w w' : World)
      → operation a.adapter s w ≡ (ok tt, s', w')
      → try_each env operation ((true, a) ∷ rest) last s w
        ≡ (ok tt, mark_healthy a ∷ unmark rest, s', w')
  unfolding try_each after_attempt
  try_each_first a rest last s s' w w' e = rw (going w, try_each, e, after_attempt)

  -- If the context is never done, a healthy primary that works is the only member tried: the
  -- backups are as they were, and the captured state and the world are those that the one call
  -- left behind.
  pub primary_first :
      (p : AdapterPool) (s s' : S) (w w' : World)
      → p.primary.is_healthy ≡ true
      → operation p.primary.adapter s (mark_usable env p.backups w).1 ≡ (ok tt, s', w')
      → try_operation env operation p s w
        ≡ (ok tt, record p { primary = mark_healthy p.primary }, s', w')
  unfolding try_operation last_resort
  primary_first p s s' w w' healthy e = rw (
    mark_healthy_first env p.primary p.backups w healthy,
    try_each_first p.primary _ _ s s' _ w' e,
    unmark-mark_usable env p.backups w,
  )
