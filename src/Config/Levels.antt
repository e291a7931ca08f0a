-- ===== src/Config/Levels.antt =====
-- Verbosity and log levels.
use Prim.Native.Nat.{min, max}
use webfs.Base.{ℕ, zero, suc, ◌-◌, ◌≤◌, ◌≡◌, ◌≢◌, refl, ap, some, arith}
use webfs.Base.Int.{ℤ, pos, negsuc, ◌-ℤ◌}
use webfs.Base.Result.{ok}
use webfs.Config.{
  Config, trace_level, log_lvls, at_index, clamp_verbose, level_of_verbose, clamp_flag, flag_level,
  merge, only_level, main_config, default_config,
}

-- The clamped verbosity, by cases.
clamp_cases : (v : ℤ) → (n : ℕ) × (n ≤ 4) × (clamp_verbose v ≡ pos (suc n))
unfolding clamp_verbose
clamp_cases (negsuc v) = (0, omega arith, refl)
clamp_cases (pos v) = (min (max v 1) 5 - 1, omega arith, ap pos (omega arith))

level_at : (n : ℕ) → n ≤ 4 → at_index log_lvls (pos n) ≡ ok (pos (4 - n))
unfolding at_index
level_at zero h = refl
level_at (suc zero) h = refl
level_at (suc (suc zero)) h = refl
level_at (suc (suc (suc zero))) h = refl
level_at (suc (suc (suc (suc zero)))) h = refl
level_at (suc (suc (suc (suc (suc n))))) h = absurd (omega arith)

clamp_flag-clamp_verbose : (v : ℤ) → clamp_flag v ≡ clamp_verbose v
unfolding clamp_flag clamp_verbose
clamp_flag-clamp_verbose (pos v) = ground arith
clamp_flag-clamp_verbose (negsuc v) = ground arith

-- The index into the array of levels is in range for every verbosity: the level is 4 for the
-- lowest verbosity and falls by one with each step to the highest.
pub level_of_verbose_lem :
    (v : ℤ)
    → (n : ℕ) × (n ≤ 4) × (clamp_verbose v ≡ pos (suc n)) × (level_of_verbose v ≡ ok (pos (4 - n)))
unfolding level_of_verbose
level_of_verbose_lem v =
    let (n, h, e) = clamp_cases v in
    let back : pos (suc n) -ℤ pos 1 ≡ pos n = ground arith in (n, h, e, rw (e, back) (level_at n h))

-- The command clamps its flag as merge clamps its verbosity, so both give the same level.
pub flag_level-level_of_verbose : (v : ℤ) → flag_level v ≡ level_of_verbose v
unfolding flag_level level_of_verbose
flag_level-level_of_verbose v =
    ap (λ c. at_index log_lvls (c -ℤ pos 1)) (clamp_flag-clamp_verbose v)

module _ {F : Type 0} where
  merge_level :
      (c : Config F) (v : ℤ) (l : ℤ)
      → level_of_verbose v ≡ ok l
      → merge c (some (only_level v)) ≡ ok (record c { log_lvl = l })
  unfolding merge
  merge_level c v l e = rw e

  -- With a level as the override the code converts twice: the configured level follows from the
  -- flag's level as if that were a verbosity.
  main_config_lem :
      (one : F) (v : ℤ)
      → (n : ℕ) × (n ≤ 4)
        × (clamp_verbose v ≡ pos (suc n))
        × (m : ℕ) × (m ≤ 4)
        × (clamp_verbose (pos (4 - n)) ≡ pos (suc m))
        × (main_config one v ≡ ok (record (default_config one) { log_lvl = pos (4 - m) }))
  unfolding main_config
  main_config_lem one v =
      let (n, h, cl, level) = level_of_verbose_lem v in
      let (m, k, cl', level') = level_of_verbose_lem (pos (4 - n)) in
      (
        n,
        h,
        cl,
        m,
        k,
        cl',
        (rw (flag_level-level_of_verbose v, level)
            (merge_level (default_config one) (pos (4 - n)) _ level')),
      )

  -- Whatever verbosity is given on the command line, the configuration is made, and its log level
  -- is never the trace level: the test for it that turns on FUSE debugging always fails.
  pub main_never_traces :
      (one : F) (v : ℤ) → (c : Config F) × (main_config one v ≡ ok c) × (c.log_lvl ≢ trace_level)
  unfolding clamp_verbose
  main_never_traces one v =
      let (n, h, cl, m, k, cl', e) = main_config_lem one v in
      (
        record (default_config one) { log_lvl = pos (4 - m) },
        e,
        λ t.
            let zero_level : 4 - m ≡ 0 = ground arith in
            let top : min (max (4 - n) 1) 5 ≡ suc m = ground arith in omega arith,
      )
