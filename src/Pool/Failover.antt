-- ===== src/Pool/Failover.antt =====
-- What tryOperation returns, and what it does to the members.
use webfs.Base.{
  ℕ, ◌≡◌, refl, ap, sym, subst, ◌∙◌, ◌⊎◌, inl, inr, Bool, true, false, ◌||◌, List, [], ◌∷◌, map,
  arith, Bool-cases, Option-cases, All,
}
use webfs.Base.Result.{Result, Error, ok, err, panics}
use webfs.External.{Env}
use webfs.Pool.{
  InodeAdapter, AdapterPool, mark_failed, mark_healthy, mark_usable, any_marked, last_resort,
  unmark, Outcome, after_attempt, try_each, with_members, try_operation,
}
use webfs.Pool.Retry.{unmark-mark_usable, IsSane, mark_failed-IsSane, mark_healthy-IsSane}

abbrev pub members : AdapterPool → List InodeAdapter
members p = p.primary ∷ p.backups

abbrev pub refs : List InodeAdapter → List ℕ
refs = map λ a. a.adapter

abbrev pub Among : ℕ → List ℕ → Type 0
Among a [] = ⊥
Among a (b ∷ bs) = (a ≡ b) ⊎ Among a bs

unmark-last_resort : (ms : List (Bool × InodeAdapter)) → unmark (last_resort ms) ≡ unmark ms
unfolding last_resort
unmark-last_resort [] = refl
unmark-last_resort ((b, a) ∷ rest) = ground arith

any_marked-last_resort :
    (b : Bool) (a : InodeAdapter) (rest : List (Bool × InodeAdapter))
    → any_marked (last_resort ((b, a) ∷ rest)) ≡ true
unfolding last_resort
any_marked-last_resort b a rest = elim (Bool-cases (b || any_marked rest)) [
  | inl some_marked ↦ rw (some_marked) some_marked
  | inr none_marked ↦ rw none_marked
]

module _ (env : Env) {S : Type 0}
    (operation : ℕ → S → env.World → Result (Unit {0}) × S × env.World) where
  open env use {World}

  -- A success of the operation on one of the adapters, from a captured state with P, that left
  -- the captured state and the world as given.
  abbrev pub Succeeded : (S → Type 0) → List ℕ → S → World → Type 0
  Succeeded P adapters s w =
      (a : ℕ) × (s0 : S) × (w0 : World) × Among a adapters
      × P s0
      × (operation a s0 w0 ≡ (ok tt, s, w))

  module _ (P : S → Type 0)
      (keeps : (a : ℕ) (s : S) (w : World) → P s → P (operation a s w).1) where
    -- An ok result comes from such a success.
    abbrev Justified : List ℕ → Outcome env operation → Type 0
    Justified adapters out = out.0 ≡ ok tt → Succeeded P adapters out.2 out.3

    later :
        (a : ℕ) (adapters : List ℕ) (s : S) (w : World)
        → Succeeded P adapters s w
        → Succeeded P (a ∷ adapters) s w
    later a adapters s w (b, s0, w0, among, before, e) = (b, s0, w0, inr among, before, e)

    after_attempt-Justified :
        (a : InodeAdapter) (rest : List (Bool × InodeAdapter))
        (continue : Result (Unit {0}) → S → World → Outcome env operation)
        → ((e : Error) (s : S) (w : World)
            → P s
            → Justified (refs (unmark rest)) (continue (err e) s w))
        → (s0 : S) (w0 : World) (r : Result (Unit {0})) (s : S) (w : World) → P s0
        → operation a.adapter s0 w0 ≡ (r, s, w)
        → Justified
            (a.adapter ∷ refs (unmark rest))
            (after_attempt env operation a rest continue (r, s, w))
    unfolding after_attempt
    after_attempt-Justified a rest continue ih s0 w0 (ok u) s w before e h =
        (a.adapter, s0, w0, inl refl, before, e)
    after_attempt-Justified a rest continue ih s0 w0 (err x) s w before e h =
        let before' : P s = subst (λ o. P o.1) e (keeps a.adapter s0 w0 before) in
        later a.adapter (refs (unmark rest)) _ _ (ih x s (env.now w).1 before' h)
    after_attempt-Justified a rest continue ih s0 w0 panics s w before e h = cc

    try_each-Justified :
        (ms : List (Bool × InodeAdapter)) (last : Result (Unit {0})) (s : S) (w : World)
        → (last ≡ ok tt → any_marked ms ≡ true)
        → P s
        → Justified (refs (unmark ms)) (try_each env operation ms last s w)
    unfolding try_each
    try_each-Justified [] last s w some_marked before = λ h. cc (some_marked h)
    try_each-Justified ((false, a) ∷ rest) last s w some_marked before = λ h.
        later a.adapter (refs (unmark rest)) _ _
          (try_each-Justified rest last s w some_marked before h)
    try_each-Justified ((true, a) ∷ rest) last s w some_marked before =
        elim (Option-cases (env.ctx_err w)) [
          | inl going ↦
              rw (going, try_each)
                (after_attempt-Justified a rest (try_each env operation rest)
                  (λ e s' w'. try_each-Justified rest (err e) s' w' (λ x. cc)) s w _ _ _ before
                  refl)
          | inr (e, stopped) ↦ rw (stopped, try_each) (λ h. cc)
        ]

    -- An ok result of tryOperation comes from a call of the operation on a member of the pool that
    -- succeeded, and the captured state and the world are those that this call left behind. What
    -- every call keeps of the captured state holds at that call.
    pub try_operation-ok :
        (p : AdapterPool) (s : S) (w : World)
        → P s
        → (try_operation env operation p s w).0 ≡ ok tt
        → Succeeded P
            (refs (members p))
            (try_operation env operation p s w).2
            (try_operation env operation p s w).3
    unfolding try_operation mark_usable
    try_operation-ok p s w before h =
        let ms = (mark_usable env (members p) w).0 in
        let same = unmark-last_resort ms ∙ unmark-mark_usable env (members p) w in
        subst
          (λ l.
            Succeeded P (refs l) (try_operation env operation p s w).2
              (try_operation env operation p s w).3)
          same
          (try_each-Justified (last_resort ms) (ok tt) s _ (λ _. any_marked-last_resort _ _ _)
            before h)

  -- What a mark does not change, the walk over the members does not change.
  module _ {ℓ} {B : Type ℓ} (f : InodeAdapter → B)
      (failed : (t : ℕ) (a : InodeAdapter) → f (mark_failed t a) ≡ f a)
      (healthy : (a : InodeAdapter) → f (mark_healthy a) ≡ f a) where
    after_attempt-map :
        (a : InodeAdapter) (rest : List (Bool × InodeAdapter))
        (continue : Result (Unit {0}) → S → World → Outcome env operation)
        → ((e : Error) (s : S) (w : World) → map f (continue (err e) s w).1 ≡ map f (unmark rest))
        → (r : Result (Unit {0})) (s : S) (w : World)
        → map f (after_attempt env operation a rest continue (r, s, w)).1
          ≡ f a ∷ map f (unmark rest)
    unfolding after_attempt
    after_attempt-map a rest continue ih (ok u) s w = rw (healthy a)
    after_attempt-map a rest continue ih (err e) s w =
        rw (failed (env.now w).0 a, ih e s (env.now w).1)
    after_attempt-map a rest continue ih panics s w = refl

    try_each-map :
        (ms : List (Bool × InodeAdapter)) (last : Result (Unit {0})) (s : S) (w : World)
        → map f (try_each env operation ms last s w).1 ≡ map f (unmark ms)
    unfolding try_each
    try_each-map [] last s w = refl
    try_each-map ((false, a) ∷ rest) last s w = ap (◌∷◌ (f a)) (try_each-map rest last s w)
    try_each-map ((true, a) ∷ rest) last s w = elim (Option-cases (env.ctx_err w)) [
      | inl going ↦
          rw (going, try_each)
            (after_attempt-map a rest (try_each env operation rest)
              (λ e s' w'. try_each-map rest (err e) s' w') _ _ _)
      | inr (e, stopped) ↦ rw (stopped, try_each)
    ]

  after_attempt-IsSane :
      (a : InodeAdapter) (rest : List (Bool × InodeAdapter))
      (continue : Result (Unit {0}) → S → World → Outcome env operation)
      → IsSane a
      → All IsSane (unmark rest)
      → ((e : Error) (s : S) (w : World) → All IsSane (continue (err e) s w).1)
      → (r : Result (Unit {0})) (s : S) (w : World)
      → All IsSane (after_attempt env operation a rest continue (r, s, w)).1
  unfolding after_attempt
  after_attempt-IsSane a rest continue h hs ih (ok u) s w = (mark_healthy-IsSane a, hs)
  after_attempt-IsSane a rest continue h hs ih (err e) s w =
      (mark_failed-IsSane (env.now w).0 a, ih e s (env.now w).1)
  after_attempt-IsSane a rest continue h hs ih panics s w = (h, hs)

  try_each-IsSane :
      (ms : List (Bool × InodeAdapter)) (last : Result (Unit {0})) (s : S) (w : World)
      → All IsSane (unmark ms)
      → All IsSane (try_each env operation ms last s w).1
  unfolding try_each
  try_each-IsSane [] last s w h = tt
  try_each-IsSane ((false, a) ∷ rest) last s w h = (h.0, try_each-IsSane rest last s w h.1)
  try_each-IsSane ((true, a) ∷ rest) last s w h = elim (Option-cases (env.ctx_err w)) [
    | inl going ↦
        rw (going, try_each)
          (after_attempt-IsSane a rest (try_each env operation rest) h.0 h.1
            (λ e s' w'. try_each-IsSane rest (err e) s' w' h.1) _ _ _)
    | inr (e, stopped) ↦ rw (stopped, try_each) h
  ]

  members-with_members :
      (p : AdapterPool) (l : List InodeAdapter) (a : ℕ) (others : List ℕ)
      → refs l ≡ a ∷ others
      → members (with_members env operation p l) ≡ l
  members-with_members p [] a others e = cc
  members-with_members p (x ∷ xs) a others e = refl

  chosen-members :
      (p : AdapterPool) (w : World)
      → unmark (last_resort (mark_usable env (members p) w).0) ≡ members p
  chosen-members p w =
      unmark-last_resort (mark_usable env (members p) w).0 ∙ unmark-mark_usable env (members p) w

  kept-refs :
      (p : AdapterPool) (s : S) (w : World)
      → let chosen = last_resort (mark_usable env (members p) w).0 in
        refs (try_each env operation chosen (ok tt) s (mark_usable env (members p) w).1).1
        ≡ refs (members p)
  unfolding mark_failed mark_healthy
  kept-refs p s w =
      try_each-map (λ a. a.adapter) (λ t a. refl) (λ a. refl) _ (ok tt) s _
      ∙ ap refs (chosen-members p w)

  -- tryOperation keeps the adapters of a pool and their order.
  pub refs-try_operation :
      (p : AdapterPool) (s : S) (w : World)
      → refs (members (try_operation env operation p s w).1) ≡ refs (members p)
  unfolding try_operation
  refs-try_operation p s w =
      ap refs (members-with_members p _ _ _ (kept-refs p s w)) ∙ kept-refs p s w

  -- tryOperation keeps the adapters of a pool and their order, and after it every healthy member
  -- has a failure count of zero, if that was so before.
  pub try_operation-members :
      (p : AdapterPool) (s : S) (w : World)
      → All IsSane (members p)
      → (refs (members (try_operation env operation p s w).1) ≡ refs (members p))
        × All IsSane (members (try_operation env operation p s w).1)
  unfolding try_operation
  try_operation-members p s w sane = (
    refs-try_operation p s w,
    subst (All IsSane) (sym (members-with_members p _ _ _ (kept-refs p s w)))
        (try_each-IsSane _ (ok tt) s _ (subst (All IsSane) (sym (chosen-members p w)) sane)),
  )
