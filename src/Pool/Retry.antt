-- ===== src/Pool/Retry.antt =====
-- The health of a member: when it may be tried again after failures.
use webfs.Base.{
  ℕ, ◌+◌, ◌*◌, ◌^◌, ◌≤◌, ◌<◌, ◌≡◌, refl, ap, ◌∙◌, true, false, not, ◌&&◌, List, [], ◌∷◌, arith,
  length, leb, ltb,
}
use webfs.Base.Int.{pos, ◌+ℤ◌, wrap32}
use webfs.External.{Env, Time}
use webfs.Pool.{InodeAdapter, new_member, mark_failed, mark_healthy, usable, mark_usable, unmark}

-- A member that has just failed at time t, as its (k+1)-st failure in a row with k+1 below 2^31,
-- is tried again exactly when k+1 is below its limit and more than k+1 seconds have passed.
pub retry_after_failure :
    (env : Env) (a : InodeAdapter) (t : Time) (w : env.World) (k m : ℕ)
    → a.fail_count ≡ pos k
    → a.max_retries ≡ pos m
    → k + 1 < 2 ^ 31
    → (usable env (mark_failed t a) w).0
      ≡ (not (leb m (k + 1)) && ltb (t + (k + 1) * 10 ^ 9) (env.now w).0)
unfolding usable mark_failed
retry_after_failure env a t w k m ek em small =
    let c : wrap32 (pos k +ℤ pos 1) ≡ pos (k + 1) = ground arith in rw (ek, em, c) (ground arith)

-- Failures in a row, the first of the list first.
abbrev pub fail_all : List Time → InodeAdapter → InodeAdapter
fail_all [] a = a
fail_all (t ∷ ts) a = fail_all ts (mark_failed t a)

fail_all-count :
    (ts : List Time) (a : InodeAdapter) (k : ℕ)
    → a.fail_count ≡ pos k
    → k + length ts < 2 ^ 31
    → (fail_all ts a).fail_count ≡ pos (k + length ts)
unfolding mark_failed
fail_all-count [] a k e small = rw e (ap pos (omega arith))
fail_all-count (t ∷ ts) a k e small =
    let c : wrap32 (a.fail_count +ℤ pos 1) ≡ pos (k + 1) = rw e (ground arith) in
    fail_all-count ts (mark_failed t a) (k + 1) c (omega arith) ∙ ap pos (omega arith)

fail_all-max : (ts : List Time) (a : InodeAdapter) → (fail_all ts a).max_retries ≡ a.max_retries
unfolding mark_failed
fail_all-max [] a = refl
fail_all-max (t ∷ ts) a = fail_all-max ts (mark_failed t a)

fail_all-unhealthy :
    (t : Time) (ts : List Time) (a : InodeAdapter) → (fail_all (t ∷ ts) a).is_healthy ≡ false
unfolding mark_failed
fail_all-unhealthy t [] a = refl
fail_all-unhealthy t (u ∷ ts) a = fail_all-unhealthy u ts (mark_failed t a)

-- A new member that has failed at least three times in a row, and so often that the int32 count
-- has not wrapped, is not usable, whatever time has passed, and the clock is not read.
pub exhausted :
    (env : Env) (adapter : ℕ) (t : Time) (ts : List Time) (w : env.World)
    → 2 ≤ length ts
    → length ts + 1 < 2 ^ 31
    → usable env (fail_all (t ∷ ts) (new_member adapter)) w ≡ (false, w)
unfolding usable
exhausted env adapter t ts w enough small =
    let unhealthy = fail_all-unhealthy t ts (new_member adapter) in
    let limit = fail_all-max (t ∷ ts) (new_member adapter) in
    let count = fail_all-count (t ∷ ts) (new_member adapter) 0 refl (omega arith) in
    rw (unhealthy, limit, count) (ground arith)

-- A healthy member has no failures on its count.
abbrev pub IsSane : InodeAdapter → Type 0
IsSane a = a.is_healthy ≡ true → a.fail_count ≡ pos 0

pub mark_failed-IsSane : (t : Time) (a : InodeAdapter) → IsSane (mark_failed t a)
unfolding mark_failed
mark_failed-IsSane t a h = cc

pub mark_healthy-IsSane : (a : InodeAdapter) → IsSane (mark_healthy a)
unfolding mark_healthy
mark_healthy-IsSane a h = refl

-- The choice of members reads the clock only: the list behind the marks is the list of members.
pub unmark-mark_usable :
    (env : Env) (members : List InodeAdapter) (w : env.World)
    → unmark (mark_usable env members w).0 ≡ members
unfolding mark_usable
unmark-mark_usable env [] w = refl
unmark-mark_usable env (a ∷ rest) w = ap (◌∷◌ a) (unmark-mark_usable env rest (usable env a w).1)
