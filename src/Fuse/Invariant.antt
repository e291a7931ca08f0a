-- ===== src/Fuse/Invariant.antt =====
-- The invariant of FuseRaw between two calls: a sound file system, and tables whose handles were
-- given out and whose snapshots hold nodes.
use webfs.Base.{
  ℕ, zero, suc, ◌≤◌, ◌<◌, ◌≡◌, sym, subst, ◌∙◌, Option, none, some, List, [], ◌∷◌, map, take, drop,
  All, arith, nat_beq, inl, inr, Bool-cases,
}
use mathlib.Core.Option.{some-injective}
use webfs.Base.Maps.{load, store, delete, nat_eq, text_eq, load-store, load-delete}
use webfs.Node.{FileSystem}
use webfs.Fuse.{FuseRaw, Snapshot}
use webfs.Session.Sound.{IsSoundFs}

-- The entry of a snapshot is nil, or a node of the file system.
abbrev pub IsEntry : ℕ → Option ℕ → Type 0
IsEntry n none = Unit
IsEntry n (some p) = p < n

abbrev pub AreEntries : ℕ → Snapshot → Type 0
AreEntries n = All (IsEntry n)

pub record IsSound (r : FuseRaw) : Type 0 where
  pub fs : IsSoundFs r.fs
  pub dirs :
      (fh : ℕ) (snapshot : Snapshot)
      → load fh r.open_dirs ≡ some snapshot
      → (fh ≤ r.next_dir_fh) × AreEntries r.fs.next_node snapshot
  pub files : (fh id : ℕ) → load fh r.open_files ≡ some id → fh ≤ r.next_file_fh

AreEntries-more : (n m : ℕ) (l : Snapshot) → n ≤ m → AreEntries n l → AreEntries m l
AreEntries-more n m [] h es = tt
AreEntries-more n m (none ∷ l) h (e, es) = (tt, AreEntries-more n m l h es)
AreEntries-more n m (some p ∷ l) h (e, es) = (omega arith, AreEntries-more n m l h es)

pub AreEntries-split :
    (n k : ℕ) (l : Snapshot) → AreEntries n l → AreEntries n (take k l) × AreEntries n (drop k l)
AreEntries-split n zero l es = (tt, es)
AreEntries-split n (suc k) [] es = (tt, tt)
AreEntries-split n (suc k) (p ∷ l) (e, es) =
    let (front, back) = AreEntries-split n k l es in ((e, front), back)

pub AreEntries-map : (n : ℕ) (l : List ℕ) → All (λ p. p < n) l → AreEntries n (map some l)
AreEntries-map n [] h = tt
AreEntries-map n (p ∷ l) (h, hs) = (h, AreEntries-map n l hs)

-- A new file system with all the old nodes
pub with_fs-IsSound :
    (r : FuseRaw) (s : FileSystem)
    → IsSound r
    → IsSoundFs s
    → r.fs.next_node ≤ s.next_node
    → IsSound (record r { fs = s })
with_fs-IsSound r s h sound more = record {
  fs = sound;
  dirs = λ fh snapshot e.
      let (given, es) = h.dirs fh snapshot e in
      (given, AreEntries-more r.fs.next_node s.next_node snapshot more es);
  files = h.files;
}

-- A snapshot written under a handle that is given out
pub store_dir-IsSound :
    (r : FuseRaw) (fh next : ℕ) (snapshot : Snapshot)
    → IsSound r
    → fh ≤ next
    → r.next_dir_fh ≤ next
    → AreEntries r.fs.next_node snapshot
    → IsSound (record r { next_dir_fh = next; open_dirs = store fh snapshot r.open_dirs })
store_dir-IsSound r fh next snapshot h given more es = record {
  fs = h.fs;
  dirs = λ k l e. elim (Bool-cases (nat_beq fh k)) [
    | inl same ↦
        let now : snapshot ≡ l =
          some-injective snapshot l (sym (load-store fh k snapshot r.open_dirs ∙ rw same) ∙ e) in
        ((ground arith), subst (AreEntries r.fs.next_node) now es)
    | inr other ↦
        let (old, es') = h.dirs k l (sym (load-store fh k snapshot r.open_dirs ∙ rw other) ∙ e) in
        (omega arith, es')
  ];
  files = h.files;
}

pub release_dir-IsSound :
    (r : FuseRaw) (fh : ℕ) → IsSound r → IsSound (record r { open_dirs = delete fh r.open_dirs })
release_dir-IsSound r fh h = record {
  fs = h.fs;
  dirs = λ k l e. h.dirs k l (ground (arith, load-delete fh k r.open_dirs));
  files = h.files;
}

pub store_file-IsSound :
    (r : FuseRaw) (fh id : ℕ)
    → IsSound r
    → r.next_file_fh ≤ fh
    → IsSound (record r { next_file_fh = fh; open_files = store fh id r.open_files })
store_file-IsSound r fh id h more = record {
  fs = h.fs;
  dirs = h.dirs;
  files = λ k j e. elim (Bool-cases (nat_beq fh k)) [
    | inl same ↦ ground arith
    | inr other ↦
        let old = h.files k j (sym (load-store fh k id r.open_files ∙ rw other) ∙ e) in omega arith
  ];
}

pub release-IsSound :
    (r : FuseRaw) (fh : ℕ) → IsSound r → IsSound (record r { open_files = delete fh r.open_files })
release-IsSound r fh h = record {
  fs = h.fs;
  dirs = h.dirs;
  files = λ k j e. h.files k j (ground (arith, load-delete fh k r.open_files));
}
