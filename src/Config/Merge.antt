-- ===== src/Config/Merge.antt =====
-- merge: that it never fails, and how overrides combine.
use webfs.Base.{◌-◌, ◌≡◌, refl, ap, sym, ◌∙◌, Option, none, some}
use webfs.Base.Int.{ℤ, pos}
use webfs.Base.Result.{ok, ◌>>=◌}
use webfs.Config.{Config, ConfigOverride, or_keep, merge, merge_fields, override_level}
use webfs.Config.Levels.{level_of_verbose_lem}

-- A field that a second override sets wins over the first.
abbrev pub prefer {ℓ} : {A : Type ℓ} → Option A → Option A → Option A
prefer first none = first
prefer first (some b) = some b

or_keep-prefer {ℓ} :
    {A : Type ℓ} (first second : Option A) (old : A)
    → or_keep (prefer first second) old ≡ or_keep second (or_keep first old)
or_keep-prefer first none old = refl
or_keep-prefer first (some b) old = refl

override_level_ok : (o : Option ℤ) (old : ℤ) → (l : ℤ) × (override_level o old ≡ ok l)
unfolding override_level
override_level_ok none old = (old, refl)
override_level_ok (some v) old = let (n, h, c, e) = level_of_verbose_lem v in (pos (4 - n), e)

override_level-prefer :
    (first second : Option ℤ) (old l : ℤ)
    → override_level first old ≡ ok l
    → override_level (prefer first second) old ≡ override_level second l
unfolding override_level
override_level-prefer first none old l e = e
override_level-prefer first (some v) old l e = refl

module _ {F : Type 0} where
  abbrev pub combine : ConfigOverride F → ConfigOverride F → ConfigOverride F
  combine a b = record {
    chunk_size = prefer a.chunk_size b.chunk_size;
    cache_max_size = prefer a.cache_max_size b.cache_max_size;
    max_prefetch_ahead = prefer a.max_prefetch_ahead b.max_prefetch_ahead;
    prefetch_batch_size = prefer a.prefetch_batch_size b.prefetch_batch_size;
    max_fh = prefer a.max_fh b.max_fh;
    max_write = prefer a.max_write b.max_write;
    attr_timeout = prefer a.attr_timeout b.attr_timeout;
    entry_timeout = prefer a.entry_timeout b.entry_timeout;
    direct_io = prefer a.direct_io b.direct_io;
    log_lvl = prefer a.log_lvl b.log_lvl;
    fs_name = prefer a.fs_name b.fs_name;
    name = prefer a.name b.name;
  }

  fields-combine :
      (c : Config F) (a b : ConfigOverride F) (k l : ℤ)
      → merge_fields c (combine a b) l ≡ merge_fields (merge_fields c a k) b l
  unfolding merge_fields
  fields-combine c a b k l = simp or_keep-prefer

  -- merge never fails, whatever the configuration and the override hold: the index of the log level
  -- is always in range.
  pub merge_ok :
      (c : Config F) (o : Option (ConfigOverride F)) → (c' : Config F) × (merge c o ≡ ok c')
  unfolding merge
  merge_ok c none = (c, refl)
  merge_ok c (some o) =
      let (l, e) = override_level_ok o.log_lvl c.log_lvl in (merge_fields c o l, rw e)

  -- Merging one override and then another is merging the two combined, field by field, where the
  -- second wins.
  pub merge-merge :
      (c : Config F) (a b : ConfigOverride F)
      → (merge c (some a) >>= λ c'. merge c' (some b)) ≡ merge c (some (combine a b))
  unfolding merge
  merge-merge c a b =
      let (k, first) = override_level_ok a.log_lvl c.log_lvl in
      let (l, second) = override_level_ok b.log_lvl k in
      let both : override_level (prefer a.log_lvl b.log_lvl) c.log_lvl ≡ ok l =
        override_level-prefer a.log_lvl b.log_lvl c.log_lvl k first ∙ second in
      rw (first, both, second) (ap ok (sym (fields-combine c a b k l)))
