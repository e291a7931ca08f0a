-- ===== src/Fuse/Listing.antt =====
-- fuse/server.go, the loop of ReadDir.
use webfs.Base.{
  ℕ, suc, ◌≡◌, refl, ap, inl, inr, Option, none, some, List, [], ◌∷◌, map, length, if◌then◌else◌,
  Option-cases, Bool-cases,
}
use webfs.Node.{FileSystem}
use webfs.Fuse.{Snapshot, DirEntry}
use webfs.Fuse.ReadDir.{entry_of, after_add, list_entries}

-- The entries of a snapshot that are neither nil nor deleted
unfoldable pub live : FileSystem → Snapshot → List ℕ
live s [] = []
live s (none ∷ rest) = live s rest
live s (some p ∷ rest) = if (s.nodes p).is_del then live s rest else p ∷ live s rest

module _ {O : Type 0} (add : DirEntry → O → Option O) where
  -- The entries are added in order, up to the first that the buffer refuses.
  unfoldable pub add_all : List DirEntry → O → O
  add_all [] out = out
  add_all (e ∷ es) out = elim (add e out) [ none ↦ out | some out1 ↦ add_all es out1 ]

  abbrev pub IsListed : FileSystem → Snapshot → O → Type 0
  IsListed s snapshot out =
      let (snapshot', out') = list_entries add s snapshot out in
      (out' ≡ add_all (map (entry_of s) (live s snapshot)) out)
      × (live s snapshot' ≡ live s snapshot)
      × (length snapshot' ≡ length snapshot)

  -- The loop of ReadDir adds the entries of the nodes of the snapshot that are neither nil nor
  -- deleted, in order and up to the first that the buffer refuses; what it writes into the snapshot
  -- keeps those nodes and the snapshot's length.
  pub list_entries-IsListed :
      (s : FileSystem) (snapshot : Snapshot) (out : O) → IsListed s snapshot out
  unfolding list_entries after_add live add_all
  list_entries-IsListed s [] out = (refl, refl, refl)
  list_entries-IsListed s (none ∷ rest) out =
      let (a, b, c) = list_entries-IsListed s rest out in (a, b, ap suc c)
  list_entries-IsListed s (some p ∷ rest) out = elim (Bool-cases (s.nodes p).is_del) [
    | inl gone ↦ let (a, b, c) = list_entries-IsListed s rest out in rw gone ((a, b, ap suc c))
    | inr here ↦ elim (Option-cases (add (entry_of s p) out)) [
      | inl full ↦ rw (here, full) ((refl, rw here, refl))
      | inr (out', added) ↦
          let (a, b, c) = list_entries-IsListed s rest out' in
          rw (here, added) ((a, (rw here (ap (λ l. p ∷ l) b)), ap suc c))
    ]
  ]
