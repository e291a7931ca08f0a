-- ===== src/Pool.antt =====
-- filesystem/inode.go: inodeAdapter and adapterPool. `members` lists the primary and the backups;
-- tryOperation collects pointers to some of them and updates those in place, so the model marks
-- the members that are to be tried and walks the whole list. The pool holds its read lock for the
-- whole of tryOperation.
pub mod Captured
pub mod Retry
pub mod Failover
pub mod Availability
use webfs.Base.{
  ℕ, ◌+◌, ◌*◌, ◌^◌, Bool, true, false, ◌||◌, Option, none, some, List, [], ◌∷◌, map, if◌then◌else◌,
}
use webfs.Base.Int.{ℤ, pos, negsuc, ◌+ℤ◌, ◌-ℤ◌, leb_ℤ, ltb_ℤ, wrap32}
use webfs.Base.Result.{Result, Error, ok, err, panics}
use webfs.External.{Env, Time}

pub record InodeAdapter : Type 0 where
  pub adapter : ℕ
  pub is_healthy : Bool
  pub fail_count : ℤ
  pub max_retries : ℤ
  pub last_attempt : Time

pub record AdapterPool : Type 0 where
  pub primary : InodeAdapter
  pub backups : List InodeAdapter
  pub retry_delay : ℕ

abbrev pub default_max_retries : ℤ
default_max_retries = pos 3

-- 30 seconds in nanoseconds; nothing reads it
abbrev pub default_retry_delay : ℕ
default_retry_delay = 30 * 10 ^ 9

abbrev pub new_member : ℕ → InodeAdapter
new_member a = record {
  adapter = a;
  is_healthy = true;
  fail_count = pos 0;
  max_retries = default_max_retries;
  last_attempt = 0;
}

-- newAdapterPool: `none` is the nil pool of an inode without adapters.
unfoldable pub new_adapter_pool : List ℕ → Option AdapterPool
new_adapter_pool [] = none
new_adapter_pool (a ∷ rest) = some (record {
  primary = new_member a;
  backups = map new_member rest;
  retry_delay = default_retry_delay;
})

unfoldable pub mark_failed : Time → InodeAdapter → InodeAdapter
mark_failed now a = record a {
  is_healthy = false;
  fail_count = wrap32 (a.fail_count +ℤ pos 1);
  last_attempt = now;
}

unfoldable pub mark_healthy : InodeAdapter → InodeAdapter
mark_healthy a = record a { is_healthy = true; fail_count = pos 0 }

-- A number of seconds as nanoseconds. The product stays within int64 for every int32.
abbrev pub seconds : ℤ → ℤ
seconds (pos n) = pos (n * 10 ^ 9)
seconds (negsuc n) = negsuc (n * 10 ^ 9 + 999_999_999)

-- time.Since(lastAttempt) > failCount seconds, at the time `now`. Go caps the difference at the
-- largest int64, which is above every product on the right.
unfoldable pub waited : Time → InodeAdapter → Bool
waited now a = ltb_ℤ (seconds a.fail_count) (pos now -ℤ pos a.last_attempt)

module _ (env : Env) where
  open env use {World}

  -- shouldRetry: the clock is read on the last path only
  unfoldable pub should_retry : InodeAdapter → World → Bool × World
  unfolding waited
  should_retry a w =
      if a.is_healthy
      then (true, w)
      else if leb_ℤ a.max_retries a.fail_count
      then (false, w)
      else let (now, w') = env.now w in (waited now a, w')

  -- isHealthy.Load() || shouldRetry()
  unfoldable pub usable : InodeAdapter → World → Bool × World
  unfolding should_retry
  usable a w = if a.is_healthy then (true, w) else should_retry a w

  -- The first part of tryOperation: which members are to be tried.
  unfoldable pub mark_usable : List InodeAdapter → World → List (Bool × InodeAdapter) × World
  mark_usable [] w = ([], w)
  mark_usable (a ∷ rest) w =
      let (b, w1) = usable a w in let (marked, w2) = mark_usable rest w1 in ((b, a) ∷ marked, w2)

abbrev pub any_marked : List (Bool × InodeAdapter) → Bool
any_marked [] = false
any_marked ((b, a) ∷ rest) = b || any_marked rest

-- `if len(adapters) == 0`: the primary is the last resort
unfoldable pub last_resort : List (Bool × InodeAdapter) → List (Bool × InodeAdapter)
last_resort [] = []
last_resort ((b, a) ∷ rest) = if any_marked ((b, a) ∷ rest) then (b, a) ∷ rest else (true, a) ∷ rest

abbrev pub unmark : List (Bool × InodeAdapter) → List InodeAdapter
unmark = map λ m. m.1

-- The loop over the adapters. `S` is what the operation's closure captures and writes.
module _ (env : Env) {S : Type 0}
    (operation : ℕ → S → env.World → Result (Unit {0}) × S × env.World) where
  open env use {World}

  abbrev pub Outcome : Type 0
  Outcome = Result (Unit {0}) × List InodeAdapter × S × World

  -- What follows an attempt on `a`; `continue` is the rest of the loop.
  unfoldable pub after_attempt :
      InodeAdapter
      → List (Bool × InodeAdapter)
      → (Result (Unit {0}) → S → World → Outcome)
      → Result (Unit {0}) × S × World
      → Outcome
  after_attempt a rest continue (ok _, s, w) = (ok tt, mark_healthy a ∷ unmark rest, s, w)
  after_attempt a rest continue (err e, s, w) =
      let (now, w1) = env.now w in
      let (r, others, s', w') = continue (err e) s w1 in (r, mark_failed now a ∷ others, s', w')
  after_attempt a rest continue (panics, s, w) = (panics, a ∷ unmark rest, s, w)

  -- `last` is lastErr, with `ok tt` for nil.
  unfoldable pub try_each : List (Bool × InodeAdapter) → Result (Unit {0}) → S → World → Outcome
  try_each [] last s w = (last, [], s, w)
  try_each ((false, a) ∷ rest) last s w =
      let (r, others, s', w') = try_each rest last s w in (r, a ∷ others, s', w')
  try_each ((true, a) ∷ rest) last s w = elim (env.ctx_err w) [
    | some e ↦ (err e, a ∷ unmark rest, s, w)
    | none ↦ after_attempt a rest (try_each rest) (operation a.adapter s w)
  ]

  abbrev pub with_members : AdapterPool → List InodeAdapter → AdapterPool
  with_members p [] = p
  with_members p (a ∷ rest) = record p { primary = a; backups = rest }

  unfoldable pub try_operation :
      AdapterPool → S → World → Result (Unit {0}) × AdapterPool × S × World
  try_operation p s w =
      let (marked, w1) = mark_usable env (p.primary ∷ p.backups) w in
      let (r, members, s', w2) = try_each (last_resort marked) (ok tt) s w1 in
      (r, with_members p members, s', w2)
