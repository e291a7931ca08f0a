-- ===== src/Fuse/ReadDir/Pages.antt =====
-- ReadDir of fuse/server.go, called again and again by a reader that continues at the offset after
-- the entries it got.
pub mod Reader
use webfs.Base.{
  ℕ, zero, suc, ◌+◌, ◌≤◌, ◌<◌, ◌≡◌, refl, sym, ap, subst, ◌∙◌, inl, inr, Bool, true, false, Option,
  none, some, List, [], ◌∷◌, ◌++◌, map, length, length-map, length-take, length-drop, drop-drop,
  take, drop, All, leb, arith, nat_beq, fun_ext, Option-cases, Bool-cases,
}
use mathlib.Core.List.{append_assoc, append-nil}
use webfs.Base.Maps.{load, store, nat_eq, load-store}
use webfs.Node.{FileSystem}
use webfs.Session.{r_lock, new_node_context, open_found, get_node_ctx}
use webfs.Fuse.{FuseRaw, Status, status_ok, Snapshot, DirEntry}
use webfs.Fuse.Listing.{add_all, live, list_entries-IsListed}
use webfs.Fuse.ReadDir.{entry_of, after_add, list_entries, list_from, read_dir_found, read_dir}

-- What ReadDir relies on of the buffer of the FUSE library: an empty one has room for any entry, and
-- an entry that is added goes to the end.
pub record Buffer (O : Type 0) : Type 0 where
  pub add : DirEntry → O → Option O
  pub empty : O
  pub entries : O → List DirEntry
  pub entries-empty : entries empty ≡ []
  pub added : (e : DirEntry) (o o' : O) → add e o ≡ some o' → entries o' ≡ entries o ++ e ∷ []
  pub room : (e : DirEntry) → (o : O) × (add e empty ≡ some o)

take-++ : {A : Type 0} (n : ℕ) (xs : List A) → take n xs ++ drop n xs ≡ xs
take-++ zero xs = refl
take-++ (suc n) [] = refl
take-++ (suc n) (x ∷ xs) = ap (◌∷◌ x) (take-++ n xs)

drop_all : {A : Type 0} (n : ℕ) (xs : List A) → length xs ≤ n → drop n xs ≡ []
drop_all zero [] h = refl
drop_all zero (x ∷ xs) h = elim h [ ]
drop_all (suc n) [] h = refl
drop_all (suc n) (x ∷ xs) h = drop_all n xs (omega arith)

map-drop : {A B : Type 0} (f : A → B) (n : ℕ) (xs : List A) → map f (drop n xs) ≡ drop n (map f xs)
map-drop f zero xs = refl
map-drop f (suc n) [] = refl
map-drop f (suc n) (x ∷ xs) = map-drop f n xs

map_nil : (qs : List ℕ) → ◌≡◌ {A = Snapshot} [] (map some qs) → qs ≡ []
map_nil [] e = refl
map_nil (q ∷ qs) e = absurd (cc e)

-- No node of the list is deleted.
abbrev pub AreLive : FileSystem → List ℕ → Type 0
AreLive s = All (λ p. (s.nodes p).is_del ≡ false)

AreLive-drop : (s : FileSystem) (n : ℕ) (ps : List ℕ) → AreLive s ps → AreLive s (drop n ps)
AreLive-drop s zero ps h = h
AreLive-drop s (suc n) [] h = h
AreLive-drop s (suc n) (p ∷ ps) (h, hs) = AreLive-drop s n ps hs

live-map : (s : FileSystem) (ps : List ℕ) → AreLive s ps → live s (map some ps) ≡ ps
unfolding live
live-map s [] h = refl
live-map s (p ∷ ps) (h, hs) = rw h (ap (◌∷◌ p) (live-map s ps hs))

-- The handle `fh` has the snapshot, the NodeID is registered, and the nodes are those of `s`.
pub record Lists (id fh : ℕ) (s : FileSystem) (snapshot : Snapshot) (r : FuseRaw) : Type 0 where
  pub node : ℕ
  pub found : load id r.fs.node_registry ≡ some node
  pub opened : load fh r.open_dirs ≡ some snapshot
  pub same_nodes : r.fs.nodes ≡ s.nodes
  pub same_inodes : r.fs.inodes ≡ s.inodes

AreLive-Lists :
    (id fh : ℕ) (s : FileSystem) (snapshot : Snapshot) (r : FuseRaw)
    → Lists id fh s snapshot r
    → (qs : List ℕ) → AreLive s qs
    → AreLive r.fs qs
AreLive-Lists id fh s snapshot r l [] h = tt
AreLive-Lists id fh s snapshot r l (q ∷ qs) (h, hs) =
    (rw l.same_nodes h, AreLive-Lists id fh s snapshot r l qs hs)

entry_of-Lists :
    (id fh : ℕ) (s : FileSystem) (snapshot : Snapshot) (r : FuseRaw)
    → Lists id fh s snapshot r
    → (q : ℕ) → entry_of r.fs q ≡ entry_of s q
unfolding entry_of
entry_of-Lists id fh s snapshot r l q = rw (l.same_nodes, l.same_inodes) refl

module _ {O : Type 0} (add : DirEntry → O → Option O) where
  -- Live entries stay in the snapshot.
  list_entries_live :
      (s : FileSystem) (ps : List ℕ) (out : O)
      → AreLive s ps
      → (list_entries add s (map some ps) out).0 ≡ map some ps
  unfolding list_entries after_add
  list_entries_live s [] out h = refl
  list_entries_live s (p ∷ ps) out (h, hs) = elim (Option-cases (add (entry_of s p) out)) [
    | inl full ↦ rw (h, full) refl
    | inr (out', done) ↦ rw (h, done) (ap (◌∷◌ (some p)) (list_entries_live s ps out' hs))
  ]

  -- The loop over live nodes, seen from a state with the same nodes.
  listed :
      (id fh p : ℕ) (s : FileSystem) (snapshot : Snapshot) (qs : List ℕ) (out : O) (r : FuseRaw)
      → AreLive s qs
      → Lists id fh s snapshot r
      → list_entries add (r_lock p r.fs) (map some qs) out
        ≡ (map some qs, add_all add (map (entry_of s) qs) out)
  unfolding entry_of
  listed id fh p s snapshot qs out r h l =
      let locked = r_lock p r.fs in
      let h' = AreLive-Lists id fh s snapshot r l qs h in
      let e = (list_entries-IsListed add locked (map some qs) out).0 in
      ap (λ a. (a, (list_entries add locked (map some qs) out).1))
        (list_entries_live locked qs out h')
      ∙ ap (λ b. (map some qs, b))
          (e
            ∙ ap (λ ns. add_all add (map (entry_of locked) ns) out) (live-map locked qs h')
            ∙ ap (λ g. add_all add (map g qs) out) (fun_ext (entry_of-Lists id fh s snapshot r l)))

  -- A call from an offset inside of the snapshot, by what the loop makes of the rest.
  page_of :
      (id fh offset : ℕ) (s : FileSystem) (snapshot rest : Snapshot) (out out' : O) (r : FuseRaw)
      → leb (length snapshot) offset ≡ false
      → Lists id fh s snapshot r
      → ((p : ℕ) → list_entries add (r_lock p r.fs) (drop offset snapshot) out ≡ (rest, out'))
      → let (status, out1, r') = read_dir add id fh offset out r in
        (status ≡ status_ok) × (out1 ≡ out') × Lists id fh s (take offset snapshot ++ rest) r'
  unfolding read_dir get_node_ctx new_node_context
  page_of id fh offset s snapshot rest out out' r within l loop =
      let same_handle : nat_beq fh fh ≡ true = ground arith in
      let stored : load fh (store fh (take offset snapshot ++ rest) r.open_dirs)
          ≡ some (take offset snapshot ++ rest) =
        load-store fh fh (take offset snapshot ++ rest) r.open_dirs ∙ rw same_handle refl in
      rw (l.found, open_found, read_dir_found, l.opened, list_from, within, loop l.node)
        ((
          refl,
          refl,
          record {
            node = l.node;
            found = l.found;
            opened = stored;
            same_nodes = l.same_nodes;
            same_inodes = l.same_inodes;
          },
        ))

  page_past :
      (id fh offset : ℕ) (s : FileSystem) (snapshot : Snapshot) (out : O) (r : FuseRaw)
      → leb (length snapshot) offset ≡ true
      → Lists id fh s snapshot r
      → let (status, out1, r') = read_dir add id fh offset out r in
        (status ≡ status_ok) × (out1 ≡ out) × Lists id fh s snapshot r'
  unfolding read_dir get_node_ctx new_node_context
  page_past id fh offset s snapshot out r past l =
      rw (l.found, open_found, read_dir_found, l.opened, list_from, past)
        ((
          refl,
          refl,
          record {
            node = l.node;
            found = l.found;
            opened = l.opened;
            same_nodes = l.same_nodes;
            same_inodes = l.same_inodes;
          },
        ))

  -- A call from an offset after which all nodes are live.
  page :
      (id fh offset : ℕ) (s : FileSystem) (snapshot : Snapshot) (qs : List ℕ) (out : O)
      (r : FuseRaw)
      → drop offset snapshot ≡ map some qs
      → AreLive s qs
      → Lists id fh s snapshot r
      → let (status, out', r') = read_dir add id fh offset out r in
        (status ≡ status_ok)
        × (out' ≡ add_all add (map (entry_of s) qs) out)
        × Lists id fh s snapshot r'
  unfolding add_all
  page id fh offset s snapshot qs out r e h l = elim (Bool-cases (leb (length snapshot) offset)) [
    | inl past ↦
        let (status, same, l') = page_past id fh offset s snapshot out r past l in
        let empty = map_nil qs (sym (drop_all offset snapshot (ground arith)) ∙ e) in
        (status, same ∙ ap (λ ns. add_all add (map (entry_of s) ns) out) (sym empty), l')
    | inr within ↦
        let (status, same, l') =
          page_of id fh offset s snapshot (map some qs) out _ r within l (λ p.
            ap (λ d. list_entries add (r_lock p r.fs) d out) e
            ∙ listed id fh p s snapshot qs out r h l) in
        (
          status,
          same,
          subst (λ d. Lists id fh s d (read_dir add id fh offset out r).2)
              (ap (λ d. take offset snapshot ++ d) (sym e) ∙ take-++ offset snapshot) l',
        )
  ]
