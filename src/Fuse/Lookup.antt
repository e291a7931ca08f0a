-- ===== src/Fuse/Lookup.antt =====
-- Lookup of fuse/server.go, as long as no NodeID was forgotten.
use mathlib.Core.Option.{some-injective}
use webfs.Base.{
  ℕ, ◌+◌, ◌^◌, ◌<◌, ◌≤◌, ◌≡◌, refl, sym, ap, subst, ◌∙◌, inl, inr, Option, none, some, arith,
  Option-cases,
}
use webfs.Base.Maps.{Text, load, nat_eq, text_eq}
use webfs.Inode.{Inode}
use webfs.Node.{FileSystem}
use webfs.Node.Kept.{KeepsTree, KeepsTree-same}
use webfs.Session.{new_node_context, ensure_node_id, ctx_node_id, ctx_attr}
use webfs.Session.Kept.{
  r_unlock-r_lock, ensure_node_id-KeepsTree, last-ensure_node_id, get_child_ctx_found,
  get_child_ctx_absent,
}
use webfs.Session.Ids.{ensure_node_id-IsRegistry}
use webfs.Session.Ids.Complete.{IsComplete, ensure_node_id-IsComplete, ensure_node_id_registered}
use webfs.Fuse.{
  FuseRaw, Status, enoent, status_ok, EntryOut, default_entry_timeout, default_attr_timeout, lookup,
  lookup_found,
}
use webfs.Fuse.Invariant.{IsSound}
use webfs.Fuse.Soundness.{ensured-IsSound}

-- What a lookup of a name in the directory p has done, if no number was forgotten.
pub record Found (r : FuseRaw) (child : Option ℕ) (out : Status × Option EntryOut × FuseRaw)
    : Type 0 where
  pub sound : IsSound out.2
  pub complete : IsComplete out.2.fs
  pub same_tree : KeepsTree r.fs out.2.fs
  pub same_inodes : out.2.fs.inodes ≡ r.fs.inodes
  pub count : out.2.fs.last_node_id ≤ r.fs.last_node_id + 1
  pub missing : child ≡ none → (out.0 ≡ enoent) × (out.1 ≡ none)
  pub entry :
      (c : ℕ)
      → child ≡ some c
      → (e : EntryOut) × (out.0 ≡ status_ok)
        × (out.1 ≡ some e)
        × (load e.node_id out.2.fs.node_registry ≡ some c)
        × (e.attr ≡ (r.fs.inodes (r.fs.nodes c).inode).attr)

-- The state after a lookup that found the child c
abbrev after : ℕ → FuseRaw → FuseRaw
after c r = record r { fs = (ensure_node_id c r.fs).1 }

-- A lookup that finds its child, written out.
lookup_eq :
    (id p c : ℕ) (name : Text) (r : FuseRaw)
    → load id r.fs.node_registry ≡ some p
    → load name (r.fs.nodes p).children ≡ some c
    → lookup id name r ≡ (
      status_ok,
      some (record {
        node_id = ((ensure_node_id c r.fs).1.nodes c).node_id;
        generation = 0;
        attr = ((ensure_node_id c r.fs).1.inodes ((ensure_node_id c r.fs).1.nodes c).inode).attr;
        entry_timeout = default_entry_timeout;
        attr_timeout = default_attr_timeout;
      }),
      after c r,
    )
unfolding lookup new_node_context ctx_node_id ctx_attr
lookup_eq id p c name r found entry =
    rw (get_child_ctx_found id p c name r.fs found entry, lookup_found)
      (ap
        (λ s. (
          status_ok,
          some (record {
            node_id = ((ensure_node_id c r.fs).1.nodes c).node_id;
            generation = 0;
            attr =
                ((ensure_node_id c r.fs).1.inodes ((ensure_node_id c r.fs).1.nodes c).inode).attr;
            entry_timeout = default_entry_timeout;
            attr_timeout = default_attr_timeout;
          }),
          record r { fs = s },
        ))
        (r_unlock-r_lock c (ensure_node_id c r.fs).1))

lookup_missing :
    (id p : ℕ) (name : Text) (r : FuseRaw)
    → load id r.fs.node_registry ≡ some p
    → load name (r.fs.nodes p).children ≡ none
    → lookup id name r ≡ (enoent, none, r)
unfolding lookup
lookup_missing id p name r found absent =
    rw (get_child_ctx_absent id p name r.fs found absent, lookup_found) refl

inodes-ensure_node_id : (p : ℕ) (s : FileSystem) → (ensure_node_id p s).1.inodes ≡ s.inodes
unfolding ensure_node_id
inodes-ensure_node_id p s = ground arith

pub lookup-Found :
    (id p : ℕ) (name : Text) (r : FuseRaw)
    → IsSound r
    → IsComplete r.fs
    → r.fs.last_node_id + 1 < 2 ^ 64
    → load id r.fs.node_registry ≡ some p
    → Found r (load name (r.fs.nodes p).children) (lookup id name r)
lookup-Found id p name r h complete room found =
    elim (Option-cases (load name (r.fs.nodes p).children)) [
      | inl absent ↦
          subst (λ o. Found r (load name (r.fs.nodes p).children) o)
            (sym (lookup_missing id p name r found absent))
            (record {
              sound = h;
              complete = complete;
              same_tree = KeepsTree-same r.fs r.fs refl refl refl refl refl;
              same_inodes = refl;
              count = omega arith;
              missing = λ _. (refl, refl);
              entry = λ c e. absurd (cc (absent, e));
            })
      | inr (c, entry) ↦
          let here = h.fs.registry.allocated id p found in
          let there = (h.fs.tree.entries p name c here entry).allocated in
          let (_, given, _, _) = ensure_node_id-IsRegistry c r.fs h.fs.registry there room in
          let keeps = ensure_node_id-KeepsTree c r.fs in
          subst (λ o. Found r (load name (r.fs.nodes p).children) o)
            (sym (lookup_eq id p c name r found entry))
            (record {
              sound = ensured-IsSound r h c there room;
              complete = ensure_node_id-IsComplete c r.fs h.fs.registry there room complete;
              same_tree = keeps;
              same_inodes = inodes-ensure_node_id c r.fs;
              count = last-ensure_node_id c r.fs room;
              missing = λ e. absurd (cc (entry, e));
              entry = λ d e.
                  let same : c ≡ d = some-injective c d (sym entry ∙ e) in
                  (
                    _,
                    refl,
                    refl,
                    subst
                        (λ x.
                          load ((ensure_node_id c r.fs).1.nodes c).node_id
                            (ensure_node_id c r.fs).1.node_registry
                          ≡ some x)
                        same
                        (subst (λ n. load n (ensure_node_id c r.fs).1.node_registry ≡ some c) given
                          (ensure_node_id_registered c r.fs h.fs.registry there room complete)),
                    ap (λ (f : ℕ → Inode). (f ((ensure_node_id c r.fs).1.nodes c).inode).attr)
                          (inodes-ensure_node_id c r.fs)
                        ∙ ap (λ i. (r.fs.inodes i).attr) (keeps.inode c)
                        ∙ ap (λ x. (r.fs.inodes (r.fs.nodes x).inode).attr) same,
                  );
            })
    ]
