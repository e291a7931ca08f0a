-- ===== src/Logger/Messages.antt =====
-- What the writer of NewLogLogger logs.
use webfs.Base.{
  ℕ, suc, ◌+◌, ◌≡◌, refl, true, none, some, [], ◌∷◌, ◌++◌, length, drop, ltb, arith, length-append,
}
use webfs.Base.Int.{ℤ}
use webfs.Base.Maps.{Text}
use webfs.Logger.{zerolog_level, new_log_logger, last_colon_space, without_prefix, write}

-- The last occurrence, when none follows.
last_at :
    (pre body : Text)
    → last_colon_space body ≡ none
    → last_colon_space (pre ++ b':' ∷ b' ' ∷ body) ≡ some (length pre)
unfolding last_colon_space
last_at [] [] absent = refl
last_at [] (c ∷ body) absent = rw (last_colon_space, absent)
last_at (c ∷ pre) body absent = rw (last_at pre body absent)

drop_two : (pre body : Text) → drop (length pre + 2) (pre ++ b':' ∷ b' ' ∷ body) ≡ body
drop_two [] body = refl
drop_two (c ∷ pre) body =
    let next : suc (length pre) + 2 ≡ suc (length pre + 2) = omega arith in
    rw next (drop_two pre body)

-- Let a message, once trimmed, end in a colon, a space and a text that is not empty and in which no
-- colon is followed by a space. The writer of NewLogLogger then logs that text alone, under the
-- component and at the level that NewLogLogger was given, and reports that all bytes were written.
pub write_prefixed :
    (trim_space : Text → Text) (component : Text) (lvl : ℤ) (p pre body : Text) (c : ℕ)
    → trim_space p ≡ pre ++ b':' ∷ b' ' ∷ c ∷ body
    → last_colon_space (c ∷ body) ≡ none
    → write trim_space (new_log_logger component lvl) p
      ≡ ((zerolog_level lvl, component, c ∷ body), length p)
unfolding write new_log_logger
write_prefixed trim_space component lvl p pre body c e absent =
    let long : ltb (length pre + 2) (length (pre ++ b':' ∷ b' ' ∷ c ∷ body)) ≡ true =
      ground (arith, length-append pre (b':' ∷ b' ' ∷ c ∷ body)) in
    rw (e, last_at pre (c ∷ body) absent, without_prefix, long, drop_two pre (c ∷ body))
