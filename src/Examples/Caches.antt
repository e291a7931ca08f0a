-- ===== src/Examples/Caches.antt =====
-- A cache of two ranges, and configurations.
use webfs.Base.{some, ℕ, ◌-◌, ◌^◌, ◌≡◌, refl, false, [], ◌∷◌, arith}
use webfs.Base.Int.{pos}
use webfs.Base.Result.{ok, panics}
use webfs.Cache.{CachedRange, DataCache, empty, get, store, is_cached}
use webfs.Cache.Coherence.{IsCoherent, Answers, get-coherent}
use webfs.Cache.Behaviour.{IsStored, get-store, get_overflow}
use webfs.Config.{Config, main_config}
use webfs.Server.{mount_options}
use webfs.Server.Mounting.{mount_options-main_config}
use webfs.Examples.Server.{served_file}

abbrev first_two : CachedRange
first_two = record { start = pos 0; end = pos 2; bytes = 10 ∷ 20 ∷ [] }

abbrev last_three : CachedRange
last_three = record { start = pos 2; end = pos 5; bytes = 30 ∷ 40 ∷ 50 ∷ [] }

abbrev two_ranges : DataCache
two_ranges = first_two ∷ last_three ∷ []

first_two-IsCoherent : IsCoherent served_file first_two
first_two-IsCoherent = record {
  first = 0;
  count = 2;
  start_eq = refl;
  end_eq = refl;
  inside = omega arith;
  bytes_eq = refl;
}

last_three-IsCoherent : IsCoherent served_file last_three
last_three-IsCoherent = record {
  first = 2;
  count = 3;
  start_eq = refl;
  end_eq = refl;
  inside = omega arith;
  bytes_eq = refl;
}

get-coherent_example : Answers served_file 3 2 (get two_ranges (pos 3) (pos 2))
get-coherent_example =
    get-coherent served_file two_ranges 3 2 (omega arith) (omega arith)
      (first_two-IsCoherent, (last_three-IsCoherent, tt))

get-store_example :
    get (store two_ranges (pos 5) (60 ∷ 70 ∷ [])) (pos 6) (pos 1) ≡ ok (some (70 ∷ []))
unfolding is_cached webfs.Cache.contains
get-store_example =
    get-store two_ranges 5 (60 ∷ 70 ∷ []) 6 1 (omega arith) (omega arith) (omega arith)

abbrev first_two-IsStored : IsStored first_two
first_two-IsStored = record { first = 0; start_eq = refl; end_eq = refl; small = omega arith }

get_overflow_example : get two_ranges (pos 1) (pos (2 ^ 63 - 1)) ≡ panics
get_overflow_example =
    get_overflow first_two (last_three ∷ []) first_two-IsStored 1 (2 ^ 63 - 1) (omega arith)
      (omega arith) (omega arith) (omega arith)

mount_options-main_config_example :
    (c : Config ℕ) × (main_config 1 (pos 5) ≡ ok c) × ((mount_options c).debug ≡ false)
mount_options-main_config_example = mount_options-main_config 1 (pos 5)
