-- ===== src/Fuse/Resolve.antt =====
-- Lookup of fuse/server.go, called for one name of a path after the other, against the tree.
use mathlib.Core.Option.{some-injective}
use webfs.Base.{
  ℕ, ◌+◌, ◌^◌, ◌<◌, ◌≡◌, refl, sym, subst, ◌∙◌, Option, none, some, List, [], ◌∷◌, length, arith,
}
use webfs.Base.Maps.{Map, Text, load, nat_eq, text_eq}
use webfs.Node.{FileSystem}
use webfs.Node.Kept.{KeepsTree, KeepsTree-same, KeepsTree-trans}
use webfs.Node.Walks.{Walk}
use webfs.Session.Ids.Complete.{IsComplete}
use webfs.Fuse.{FuseRaw, Status, EntryOut, lookup}
use webfs.Fuse.Invariant.{IsSound}
use webfs.Fuse.Lookup.{Found, lookup-Found}

-- Names lead where they led before, after a step that keeps the tree.
Walk-KeepsTree :
    (s s' : FileSystem) (p c : ℕ) (ks : List Text) → KeepsTree s s' → Walk s p ks c → Walk s' p ks c
Walk-KeepsTree s s' p c [] keeps w = w
Walk-KeepsTree s s' p c (k ∷ ks) keeps (q, e, w) = (
  q,
  subst (λ (m : Map Text ℕ). load k m ≡ some q) (sym (keeps.children p)) e,
  Walk-KeepsTree s s' q c ks keeps w,
)

Walk-KeptTree :
    (s s' : FileSystem) (p c : ℕ) (ks : List Text) → KeepsTree s s' → Walk s' p ks c → Walk s p ks c
Walk-KeptTree s s' p c [] keeps w = w
Walk-KeptTree s s' p c (k ∷ ks) keeps (q, e, w) = (
  q,
  subst (λ (m : Map Text ℕ). load k m ≡ some q) (keeps.children p) e,
  Walk-KeptTree s s' q c ks keeps w,
)

-- How the kernel resolves a path: a lookup in the directory `id` for each name in turn, up to the
-- first that fails; the result is the NodeID of the last entry.
resolve_in : Option EntryOut → FuseRaw → (ℕ → FuseRaw → Option ℕ × FuseRaw) → Option ℕ × FuseRaw
resolve_in none r go = (none, r)
resolve_in (some e) r go = go e.node_id r

unfoldable pub resolve : List Text → ℕ → FuseRaw → Option ℕ × FuseRaw
unfolding resolve_in
resolve [] id r = (some id, r)
resolve (name ∷ names) id r =
    let (status, entry, r') = lookup id name r in resolve_in entry r' (resolve names)

-- What was resolved is what the names lead to.
pub record Resolved (r : FuseRaw) (p : ℕ) (names : List Text) (out : Option ℕ × FuseRaw)
    : Type 0 where
  pub sound : IsSound out.1
  pub complete : IsComplete out.1.fs
  pub same_tree : KeepsTree r.fs out.1.fs
  pub same_inodes : out.1.fs.inodes ≡ r.fs.inodes
  pub led :
      (id : ℕ)
      → out.0 ≡ some id
      → (c : ℕ) × Walk r.fs p names c × (load id out.1.fs.node_registry ≡ some c)
  pub reached : (c : ℕ) → Walk r.fs p names c → (id : ℕ) × (out.0 ≡ some id)

resolve_in-Resolved :
    (r : FuseRaw) (p : ℕ) (k : Text) (ks : List Text) (child : Option ℕ)
    (out : Status × Option EntryOut × FuseRaw)
    → load k (r.fs.nodes p).children ≡ child
    → Found r child out
    → ((id c : ℕ)
        → load id out.2.fs.node_registry ≡ some c
        → Resolved out.2 c ks (resolve ks id out.2))
    → Resolved r p (k ∷ ks) (resolve_in out.1 out.2 (resolve ks))
unfolding resolve_in
resolve_in-Resolved r p k ks none (_, entry, r') absent f go =
    let (_, nothing) = f.missing refl in
    rw (nothing, resolve_in)
      (record {
        sound = f.sound;
        complete = f.complete;
        same_tree = f.same_tree;
        same_inodes = f.same_inodes;
        led = λ id e. absurd (cc e);
        reached = λ c (q, found, w). absurd (cc (absent, found));
      })
resolve_in-Resolved r p k ks (some c) (_, entry, r') found f go =
    let (e, _, there, registered, _) = f.entry c refl in
    let rest = go e.node_id c registered in
    let out = resolve ks e.node_id r' in
    rw (there, resolve_in)
      (record {
        sound = rest.sound;
        complete = rest.complete;
        same_tree = KeepsTree-trans r.fs r'.fs out.1.fs f.same_tree rest.same_tree;
        same_inodes = rest.same_inodes ∙ f.same_inodes;
        led = λ id result.
            let (d, w, last) = rest.led id result in
            (d, (c, found, Walk-KeptTree r.fs r'.fs c d ks f.same_tree w), last);
        reached = λ d (q, found_too, w).
            let same : q ≡ c = some-injective q c (sym found_too ∙ found) in
            rest.reached d
              (Walk-KeepsTree r.fs r'.fs c d ks f.same_tree (subst (λ x. Walk r.fs x ks d) same w));
      })

-- In a sound state in which no NodeID was forgotten, looking up the names of a path one after the
-- other, from a registered directory, leads to the registered NodeID of the node that the names lead
-- to, and fails if they lead nowhere. The state stays such a state, with the same tree. The 64-bit
-- counter of NodeIDs must not wrap.
pub resolve-Resolved :
    (names : List Text) (id p : ℕ) (r : FuseRaw)
    → IsSound r
    → IsComplete r.fs
    → r.fs.last_node_id + length names < 2 ^ 64
    → load id r.fs.node_registry ≡ some p
    → Resolved r p names (resolve names id r)
unfolding resolve
resolve-Resolved [] id p r h complete room found = record {
  sound = h;
  complete = complete;
  same_tree = KeepsTree-same r.fs r.fs refl refl refl refl refl;
  same_inodes = refl;
  led = λ j e.
      (p, refl, subst (λ k. load k r.fs.node_registry ≡ some p) (some-injective id j e) found);
  reached = λ c w. (id, refl);
}
resolve-Resolved (k ∷ ks) id p r h complete room found =
    let f = lookup-Found id p k r h complete (omega arith) found in
    let count = f.count in
    resolve_in-Resolved r p k ks _ (lookup id k r) refl f (λ j c registered.
      resolve-Resolved ks j c (lookup id k r).2 f.sound f.complete (omega (arith, count))
        registered)
