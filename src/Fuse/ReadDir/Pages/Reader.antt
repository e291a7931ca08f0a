-- ===== src/Fuse/ReadDir/Pages/Reader.antt =====
-- A reader that calls ReadDir of fuse/server.go until it gets no more entries.
use webfs.Base.{
  ℕ, zero, suc, ◌+◌, ◌≤◌, ◌<◌, ◌≡◌, refl, sym, ap, ◌∙◌, inl, inr, true, Option, none, some, List,
  [], ◌∷◌, ◌++◌, map, length, length-map, length-take, length-drop, drop-drop, take, drop, arith,
  Option-cases,
}
use mathlib.Core.List.{append_assoc, append-nil}
use webfs.Base.Maps.{nat_eq}
use webfs.Node.{FileSystem}
use webfs.Fuse.{FuseRaw, Snapshot, DirEntry}
use webfs.Fuse.Listing.{add_all}
use webfs.Fuse.ReadDir.{entry_of, list_entries, read_dir}
use webfs.Fuse.ReadDir.Pages.{
  Buffer, take-++, map-drop, AreLive, AreLive-drop, Lists, listed, page, page_of,
}

module _ {O : Type 0} (b : Buffer O) where
  -- What a buffer has after entries were added: those that it had, and the first n of the new ones.
  added_all :
      (es : List DirEntry) (o : O)
      → (n : ℕ) × (n ≤ length es) × (b.entries (add_all b.add es o) ≡ b.entries o ++ take n es)
  unfolding add_all
  added_all [] o = (0, omega arith, sym (append-nil _))
  added_all (e ∷ es) o = elim (Option-cases (b.add e o)) [
    | inl full ↦ rw (full, add_all) ((0, omega arith, sym (append-nil _)))
    | inr (o', fits) ↦
        let (n, less, same) = added_all es o' in
        rw (fits, add_all)
          ((
            suc n,
            omega arith,
            same
                ∙ ap (λ l. l ++ take n es) (b.added e o o' fits)
                ∙ append_assoc (b.entries o) (e ∷ []) (take n es),
          ))
  ]

  -- The first page is not empty if there is an entry.
  first_page :
      (e : DirEntry) (es : List DirEntry)
      → (n : ℕ) × (n ≤ length es) × (b.entries (add_all b.add (e ∷ es) b.empty) ≡ e ∷ take n es)
  unfolding add_all
  first_page e es =
      let (o, fits) = b.room e in
      let (n, less, same) = added_all es o in
      rw (fits, add_all)
        ((
          n,
          less,
          same
              ∙ ap (λ l. l ++ take n es)
                  (b.added e b.empty o fits ∙ ap (λ l. l ++ e ∷ []) b.entries-empty),
        ))

  next_page : List DirEntry → Option (List DirEntry) → Option (List DirEntry)
  next_page [] more = some []
  next_page (e ∷ es) none = none
  next_page (e ∷ es) (some more) = some (e ∷ es ++ more)

  -- A reader that calls ReadDir with an empty buffer, continues at the offset after the entries that
  -- it got, and stops when it gets none; `none` says that the fuel ran out.
  unfoldable pub read_pages : ℕ → ℕ → ℕ → ℕ → FuseRaw → Option (List DirEntry)
  unfolding next_page
  read_pages zero id fh offset r = none
  read_pages (suc fuel) id fh offset r =
      let (status, out, r') = read_dir b.add id fh offset b.empty r in
      next_page (b.entries out) (read_pages fuel id fh (offset + length (b.entries out)) r')

  read_pages_from :
      (fuel id fh offset : ℕ) (s : FileSystem) (snapshot : Snapshot) (qs : List ℕ) (r : FuseRaw)
      (left : List DirEntry)
      → drop offset snapshot ≡ map some qs
      → AreLive s qs
      → Lists id fh s snapshot r
      → map (entry_of s) qs ≡ left
      → length left < fuel
      → read_pages fuel id fh offset r ≡ some left
  unfolding read_pages add_all
  read_pages_from zero id fh offset s snapshot qs r left at h l e lt = elim lt [ ]
  read_pages_from (suc fuel) id fh offset s snapshot qs r [] at h l e lt =
      let (_, out, _) = page b.add id fh offset s snapshot qs b.empty r at h l in
      let done = ap b.entries (out ∙ ap (λ es. add_all b.add es b.empty) e) ∙ b.entries-empty in
      rw (done, next_page) refl
  read_pages_from (suc fuel) id fh offset s snapshot qs r (d ∷ left) at h l e lt =
      let (_, out, l') = page b.add id fh offset s snapshot qs b.empty r at h l in
      let (n, less, first) = first_page d left in
      let got = ap b.entries (out ∙ ap (λ es. add_all b.add es b.empty) e) ∙ first in
      let size : length (take n left) ≡ n = ground (arith, length-take n left) in
      let rest =
        read_pages_from fuel id fh (offset + suc n) s snapshot (drop (suc n) qs)
          (read_dir b.add id fh offset b.empty r).2 (drop n left)
          (sym (drop-drop offset (suc n) snapshot)
            ∙ ap (drop (suc n)) at
            ∙ sym (map-drop some (suc n) qs))
          (AreLive-drop s (suc n) qs h) l' (map-drop (entry_of s) (suc n) qs ∙ ap (drop (suc n)) e)
          (ground (arith, length-drop n left)) in
      rw (got, size, rest, next_page) (ap (λ l. some (d ∷ l)) (take-++ n left))

  -- If no node of an open directory is deleted, a reader that always continues at the offset after
  -- the entries that it got, with an empty buffer in each call, gets in the end the entry of every
  -- node of the directory, each once and in order; one call more than there are nodes is enough.
  pub read_pages_lem :
      (fuel id fh : ℕ) (ps : List ℕ) (r : FuseRaw)
      → AreLive r.fs ps
      → Lists id fh r.fs (map some ps) r
      → length ps < fuel
      → read_pages fuel id fh 0 r ≡ some (map (entry_of r.fs) ps)
  read_pages_lem fuel id fh ps r h l enough =
      read_pages_from fuel id fh 0 r.fs (map some ps) ps r _ refl h l refl
        (ground (arith, length-map (entry_of r.fs) ps))

  -- The first call, if the first node was deleted and a live one follows.
  first_skips :
      (id fh gone p : ℕ) (ps : List ℕ) (r : FuseRaw)
      → (r.fs.nodes gone).is_del ≡ true
      → AreLive r.fs (p ∷ ps)
      → Lists id fh r.fs (some gone ∷ map some (p ∷ ps)) r
      → let (_, out, r') = read_dir b.add id fh 0 b.empty r in
        (out ≡ add_all b.add (map (entry_of r.fs) (p ∷ ps)) b.empty)
        × Lists id fh r.fs (none ∷ map some (p ∷ ps)) r'
  unfolding list_entries
  first_skips id fh gone p ps r deleted h l =
      let (_, out, l') =
        page_of b.add id fh 0 r.fs (some gone ∷ map some (p ∷ ps)) (none ∷ map some (p ∷ ps))
          b.empty _ r (ground arith) l
          (λ k. rw deleted (
            ap (λ (o : Snapshot × O). (none ∷ o.0, o.1))
              (listed b.add id fh k r.fs _ (p ∷ ps) b.empty r h l))) in
      (out, l')

  -- If the first node of an open directory is deleted before it is read, and the others are not:
  -- a reader that continues at the offset after the entries that it got, with an empty buffer in
  -- each call, gets the entries of the others up to the end of its first page, and then again from
  -- the last entry of this page on, so it gets one entry twice.
  pub read_pages_repeats :
      (fuel id fh gone p : ℕ) (ps : List ℕ) (r : FuseRaw)
      → (r.fs.nodes gone).is_del ≡ true
      → AreLive r.fs (p ∷ ps)
      → Lists id fh r.fs (some gone ∷ map some (p ∷ ps)) r
      → length ps + 2 < fuel
      → let all = map (entry_of r.fs) (p ∷ ps) in
        (n : ℕ) × (n < length all)
        × (read_pages fuel id fh 0 r ≡ some (take (suc n) all ++ drop n all))
  unfolding read_pages
  read_pages_repeats zero id fh gone p ps r deleted h l enough = absurd (omega arith)
  read_pages_repeats (suc fuel) id fh gone p ps r deleted h l enough =
      let (out, l') = first_skips id fh gone p ps r deleted h l in
      let all = map (entry_of r.fs) (p ∷ ps) in
      let (n, less, first) = first_page (entry_of r.fs p) (map (entry_of r.fs) ps) in
      let got = ap b.entries out ∙ first in
      let size : length (take n (map (entry_of r.fs) ps)) ≡ n =
        ground (arith, length-take n (map (entry_of r.fs) ps)) in
      let rest =
        read_pages_from fuel id fh (suc n) r.fs (none ∷ map some (p ∷ ps)) (drop n (p ∷ ps))
          (read_dir b.add id fh 0 b.empty r).2 (drop n all) (sym (map-drop some n (p ∷ ps)))
          (AreLive-drop r.fs n (p ∷ ps) h) l' (map-drop (entry_of r.fs) n (p ∷ ps))
          (ground (arith, length-drop n all, length-map (entry_of r.fs) ps)) in
      let from_zero : 0 + suc n ≡ suc n = omega arith in
      (
        n,
        ground (arith, length-map (entry_of r.fs) ps),
        (rw (got, size, from_zero, rest, next_page) refl),
      )
