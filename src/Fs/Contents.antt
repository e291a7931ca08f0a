-- ===== src/Fs/Contents.antt =====
-- AddFileNode: what the inode of a new file holds, and what the sources' priorities change.
use webfs.Base.{
  ℕ, ◌+◌, ◌%◌, ◌^◌, ◌<◌, ◌≡◌, refl, ap, sym, subst, ◌⊎◌, inl, inr, fun_ext, ◌∙◌, Option, none, some,
  List, [], ◌∷◌, ◌++◌, map,
}
use mathlib.Core.Path.{ap₂}
use webfs.Base.Int.{ℤ}
use webfs.Base.Maps.{Text, load, text_eq}
use webfs.Base.Result.{Result, Error, ok, err, panics, ok-injective}
use webfs.External.{Env, Attr, FileSource, source_adapter}
use webfs.Inode.{Inode, new_inode, add_hard_link}
use webfs.Pool.{new_adapter_pool}
use webfs.Paths.{path_split, names}
use webfs.Node.{Node, FileSystem, get_child, new_node}
use webfs.Node.Tree.Child.{after-new_inode, after_lem, make_child_ok, new_node_lem}
use webfs.Node.Tree.{IsTree}
use webfs.Fs.Dirs.{Arrived}
use webfs.Fs.Files.{file_dir-Arrived}
use webfs.Fs.{
  FileCreateRequest, add_one64, new_default_attr, then_in, cons_adapter, after_source,
  source_adapters, make_file, add_file_in, file_dir, add_file_node,
}

-- What the state says of a file made under `c` for adapters `as`: its inode has a fresh number, the
-- pool of those adapters, one hard link, and a link count of two.
pub record IsNewFile (s : FileSystem) (c ino : ℕ) (adapters : List ℕ) : Type 0 where
  pub inode : ℕ
  pub inode_eq : (s.nodes c).inode ≡ inode
  pub number : (s.inodes inode).attr.ino ≡ ino
  pub pool : (s.inodes inode).adapter_pool ≡ new_adapter_pool adapters
  pub links : (s.inodes inode).h_links ≡ c ∷ []
  pub link_count : (s.inodes inode).attr.nlink ≡ 2

module _ (env : Env) where
  open env use {World}

  make_file-IsNewFile :
      (p : ℕ) (name : Text) (attr : Attr) (a : ℕ) (adapters : List ℕ) (w : World) (s : FileSystem)
      → p < s.next_node
      → load name (s.nodes p).children ≡ none
      → attr.nlink ≡ 1
      → let out = make_file env p name attr (ok (a ∷ adapters), w) s in
        (out.0 ≡ ok s.next_node) × IsNewFile out.1 s.next_node attr.ino (a ∷ adapters)
  unfolding make_file new_inode add_hard_link
  make_file-IsNewFile p name attr a adapters w s here absent one =
      let n = new_inode attr (a ∷ adapters) in
      let s' = record s { pending = s.pending ++ s.next_inode ∷ [] } in
      let made = after-new_inode p name n s' here absent in
      (
        make_child_ok p name n s' here absent,
        record {
          inode = s.next_inode;
          inode_eq = ap (λ (m : Node). m.inode) (new_node_lem p name n s' here absent);
          number = ap (λ (i : Inode). i.attr.ino) made;
          pool = ap (λ (i : Inode). i.adapter_pool) made;
          links = ap (λ (i : Inode). i.h_links) made;
          link_count = ap (λ (i : Inode). i.attr.nlink) made ∙ ap (λ k. (k + 1) % 2 ^ 32) one;
        },
      )

  -- The adapters are those that could be made for the sources, in the order of the sources: each
  -- source has given its adapter, or an error. The calls lead from the one world to the other.
  abbrev pub AreAdapters : List FileSource → World → List ℕ → World → Type 0
  AreAdapters [] w adapters w' = (adapters ≡ []) × (w' ≡ w)
  AreAdapters (src ∷ rest) w adapters w' =
      ((a : ℕ) × (others : List ℕ) × (w1 : World) × (env.new_adapter src.provider src.config w
          ≡ (ok a, w1))
        × (adapters ≡ a ∷ others)
        × AreAdapters rest w1 others w')
      ⊎ ((e : Error) × (w1 : World) × (env.new_adapter src.provider src.config w ≡ (err e, w1))
          × AreAdapters rest w1 adapters w')

  cons_adapter-ok :
      (a : ℕ) (o : Result (List ℕ) × World) (adapters : List ℕ) (w' : World)
      → cons_adapter env a o ≡ (ok adapters, w')
      → (others : List ℕ) × (adapters ≡ a ∷ others) × (o ≡ (ok others, w'))
  cons_adapter-ok a (ok rest, w) adapters w' e =
      (rest, sym (ok-injective (ap (λ x. x.0) e)), ap (λ v. (ok rest, v)) (ap (λ x. x.1) e))
  cons_adapter-ok a (err x, w) adapters w' e = absurd (cc (ap (λ y. y.0) e))
  cons_adapter-ok a (panics, w) adapters w' e = absurd (cc (ap (λ y. y.0) e))

  source_adapters-AreAdapters :
      (sources : List FileSource) (w : World) (adapters : List ℕ) (w' : World)
      → source_adapters env sources w ≡ (ok adapters, w')
      → AreAdapters sources w adapters w'
  unfolding source_adapters after_source source_adapter
  source_adapters-AreAdapters [] w adapters w' e =
      (sym (ok-injective (ap (λ x. x.0) e)), sym (ap (λ x. x.1) e))
  source_adapters-AreAdapters (src ∷ rest) w adapters w' e =
      first (λ w1 others. source_adapters-AreAdapters rest w1 others w')
        (env.new_adapter src.provider src.config w) refl e
    where
      first :
          ((w1 : World) (others : List ℕ)
            → source_adapters env rest w1 ≡ (ok others, w')
            → AreAdapters rest w1 others w')
          → (o : Result ℕ × World) → env.new_adapter src.provider src.config w ≡ o
          → after_source env o (source_adapters env rest) ≡ (ok adapters, w')
          → AreAdapters (src ∷ rest) w adapters w'
      first below (ok a, w1) made e =
          let (others, same, tail) =
            cons_adapter-ok a (source_adapters env rest w1) adapters w' e in
          inl (a, others, w1, made, same, below w1 others tail)
      first below (err x, w1) made e = inr (x, w1, made, below w1 adapters e)
      first below (panics, w1) made e = absurd (cc (ap (λ y. y.0) e))

  -- What AddFileNode returned below its directory, if it returned a node.
  abbrev pub NewFile : List FileSource → Result ℕ × FileSystem × World → ℕ → Type 0
  NewFile sources out c =
      (w : World) × (a : ℕ) × (adapters : List ℕ) × AreAdapters sources w (a ∷ adapters) out.2
      × IsNewFile out.1 c out.1.last_ino (a ∷ adapters)

  made_file :
      (sources : List FileSource) (p : ℕ) (name : Text) (attr : Attr) (w : World)
      (o : Result (List ℕ) × World) (s : FileSystem) (c : ℕ)
      → p < s.next_node
      → load name (s.nodes p).children ≡ none
      → attr.nlink ≡ 1
      → attr.ino ≡ s.last_ino
      → source_adapters env sources w ≡ o
      → (make_file env p name attr o s).0 ≡ ok c
      → NewFile sources (make_file env p name attr o s) c
  unfolding make_file new_node
  made_file sources p name attr w (ok [], w') s c here absent one number made e = absurd (cc e)
  made_file sources p name attr w (ok (a ∷ adapters), w') s c here absent one number made e =
      let s' = record s { pending = s.pending ++ s.next_inode ∷ [] } in
      let (returned, new) = make_file-IsNewFile p name attr a adapters w' s here absent one in
      let same : s.next_node ≡ c = ok-injective (sym returned ∙ e) in
      let out = make_file env p name attr (ok (a ∷ adapters), w') s in
      let last : out.1.last_ino ≡ s.last_ino =
        ap (λ u. u.last_ino) (after_lem p name (new_inode attr (a ∷ adapters)) s' here absent) in
      (
        w,
        a,
        adapters,
        source_adapters-AreAdapters sources w (a ∷ adapters) w' made,
        subst (λ k. IsNewFile out.1 k out.1.last_ino (a ∷ adapters)) same
            (subst (λ i. IsNewFile out.1 s.next_node i (a ∷ adapters)) (number ∙ sym last) new),
      )
  made_file sources p name attr w (err x, w') s c here absent one number made e = absurd (cc e)
  made_file sources p name attr w (panics, w') s c here absent one number made e = absurd (cc e)

  added_in :
      (req : FileCreateRequest) (name : Text) (o : Option ℕ) (p : ℕ) (s : FileSystem) (w : World)
      (c : ℕ)
      → p < s.next_node
      → load name (s.nodes p).children ≡ o
      → (add_file_in env req name o p s w).0 ≡ ok c
      → NewFile req.sources (add_file_in env req name o p s w) c
  unfolding add_file_in new_default_attr
  added_in req name (some x) p s w c here found e = absurd (cc e)
  added_in req name none p s w c here absent e =
      made_file req.sources p name _ (env.now w).1 _ (record s { last_ino = add_one64 s.last_ino })
        c here absent refl refl refl e

  added_below :
      (req : FileCreateRequest) (dir name : Text) (s : FileSystem) (w : World)
      (o : Result ℕ × FileSystem × World) (c : ℕ)
      → Arrived World s s.root (names dir) o
      → let out = then_in env o (λ p t v. add_file_in env req name (get_child t p name) p t v) in
        out.0 ≡ ok c → NewFile req.sources out c
  unfolding get_child
  added_below req dir name s w (ok p, s', w') c a e =
      let same : a.node ≡ p = ok-injective (sym a.returned) in
      added_in req name _ p s' w' c (subst (λ x. x < s'.next_node) same a.allocated) refl e
  added_below req dir name s w (err x, s', w') c a e = absurd (cc e)
  added_below req dir name s w (panics, s', w') c a e = absurd (cc e)

  -- On a tree, when AddFileNode returns a node: its inode has the number that was given out last,
  -- a single hard link and nevertheless a link count of two; and its pool is made of at least one
  -- adapter, namely of those that could be made for the sources, in the order of the sources.
  pub add_file_node-IsNewFile :
      (req : FileCreateRequest) (s : FileSystem) (w : World) (c : ℕ)
      → IsTree s
      → (add_file_node env req s w).0 ≡ ok c
      → NewFile req.sources (add_file_node env req s w) c
  unfolding add_file_node
  add_file_node-IsNewFile req s w c t e =
      let (dir, name) = path_split req.node.path in
      added_below req dir name s w (file_dir env req dir s w) c (file_dir-Arrived env req dir s w t)
        e

  -- The same source with another priority.
  abbrev pub reprioritise : (FileSource → ℤ) → FileSource → FileSource
  reprioritise f src = record src { priority = f src }

  source_adapters-reprioritise :
      (f : FileSource → ℤ) (sources : List FileSource) (w : World)
      → source_adapters env (map (reprioritise f) sources) w ≡ source_adapters env sources w
  unfolding source_adapters source_adapter
  source_adapters-reprioritise f [] w = refl
  source_adapters-reprioritise f (src ∷ rest) w = rw (fun_ext (source_adapters-reprioritise f rest))

  module _ (f : FileSource → ℤ) (req : FileCreateRequest) where
    abbrev pub other : FileCreateRequest
    other = record req { sources = map (reprioritise f) req.sources }

    file_dir-reprioritise :
        (dir : Text) (s : FileSystem) (w : World)
        → file_dir env other dir s w ≡ file_dir env req dir s w
    unfolding file_dir
    file_dir-reprioritise [] s w = refl
    file_dir-reprioritise (c ∷ dir) s w = refl

    add_file_in-reprioritise :
        (name : Text) (o : Option ℕ) (p : ℕ) (s : FileSystem) (w : World)
        → add_file_in env other name o p s w ≡ add_file_in env req name o p s w
    unfolding add_file_in
    add_file_in-reprioritise name (some c) p s w = refl
    add_file_in-reprioritise name none p s w =
        rw (source_adapters-reprioritise f req.sources (env.now w).1)

    -- Whatever priorities the sources have, AddFileNode does the same: their order in the list alone
    -- decides which adapter is the primary.
    pub add_file_node-reprioritise :
        (s : FileSystem) (w : World) → add_file_node env other s w ≡ add_file_node env req s w
    unfolding add_file_node
    add_file_node-reprioritise s w =
        let (dir, name) = path_split req.node.path in
        ap₂ (then_in env) (file_dir-reprioritise dir s w) (
          fun_ext λ p.
            fun_ext λ s'. fun_ext λ w'. add_file_in-reprioritise name (get_child s' p name) p s' w')
