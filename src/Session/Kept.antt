-- ===== src/Session/Kept.antt =====
-- What the methods by NodeID and by context leave of the tree, the registry and the locks.
use webfs.Base.{
  ℕ, ◌+◌, ◌≤◌, ◌<◌, ◌^◌, ◌≡◌, ◌≢◌, refl, sym, ap, subst, ◌∙◌, inl, inr, ltb, none, some, arith,
  fun_ext, nat_beq, ◌⊎◌, Option-cases, Bool-cases,
}
use webfs.Base.Maps.{Text, load, nat_eq, text_eq}
use webfs.Node.{FileSystem, get_child}
use webfs.Node.Numbers.{KeepsNumbers}
use webfs.Node.Kept.{KeepsTree, KeepsTree-same}
use webfs.Session.{
  r_lock, r_unlock, ensure_node_id, new_node_context, get_child_ctx, child_of, child_ctx,
}
use webfs.Session.Ids.{IsRegistry}

-- Making nodes, and writing to inodes, keeps the registry sound.
pub KeepsNumbers-IsRegistry : (s s' : FileSystem) → KeepsNumbers s s' → IsRegistry s → IsRegistry s'
KeepsNumbers-IsRegistry s s' k r =
    let more = k.more in
    let old : (p : ℕ) → (s'.nodes p).node_id ≢ 0 → p < s'.next_node → p < s.next_node =
      λ p set here. elim (Bool-cases (ltb p s.next_node)) [
        | inl early ↦ ground arith
        | inr late ↦ absurd (set (k.unnumbered p (ground arith) here))
      ] in
    let there : (id p : ℕ) → load id s'.node_registry ≡ some p → load id s.node_registry ≡ some p =
      λ id p e. subst (λ m. load id m ≡ some p) k.same_registry e in
    record {
      carried =
          λ id p e. k.numbers p (r.allocated id p (there id p e)) ∙ r.carried id p (there id p e);
      bounded = λ p h. elim (Bool-cases (ltb p s.next_node)) [
        | inl early ↦
            let here : p < s.next_node = ground arith in
            rw (k.numbers p here, k.same_last) (r.bounded p here)
        | inr late ↦ rw (k.unnumbered p (ground arith) h) (omega arith)
      ];
      unique = λ p q hp hq e ne.
          let p_old = old p ne hp in
          let q_old = old q (λ z. ne (e ∙ z)) hq in
          let p_same = k.numbers p p_old in
          r.unique p q p_old q_old (sym p_same ∙ e ∙ k.numbers q q_old) (λ z. ne (p_same ∙ z));
      nonzero = λ p e. r.nonzero p (there 0 p e);
      allocated = λ id p e. let here = r.allocated id p (there id p e) in omega arith;
    }

pub ensure_node_id-KeepsTree : (p : ℕ) (s : FileSystem) → KeepsTree s (ensure_node_id p s).1
unfolding ensure_node_id
ensure_node_id-KeepsTree p s = elim (Bool-cases (nat_beq (s.nodes p).node_id 0)) [
  | inl fresh ↦ rw fresh (record {
    same_root = refl;
    same_next = refl;
    same_next_inode = refl;
    name = λ q. ground arith;
    parent = λ q. ground arith;
    children = λ q. ground arith;
    is_del = λ q. ground arith;
    inode = λ q. ground arith;
    ino = λ i. refl;
  })
  | inr numbered ↦ rw numbered (KeepsTree-same s s refl refl refl refl refl)
]

pub readers-ensure_node_id : (p : ℕ) (s : FileSystem) → (ensure_node_id p s).1.readers ≡ s.readers
unfolding ensure_node_id
readers-ensure_node_id p s = ground arith

pub last-ensure_node_id :
    (p : ℕ) (s : FileSystem)
    → s.last_node_id + 1 < 2 ^ 64
    → (ensure_node_id p s).1.last_node_id ≤ s.last_node_id + 1
unfolding ensure_node_id
last-ensure_node_id p s room = ground arith

-- A read lock that is given back leaves no trace.
pub r_unlock-r_lock : (p : ℕ) (s : FileSystem) → r_unlock p (r_lock p s) ≡ s
r_unlock-r_lock p s = ap (λ f. record s { readers = f }) (fun_ext λ q. ground arith)

-- GetChildCtx finds a child, and opens a context on it, when it has a number.
pub get_child_ctx_found :
    (parent_id p child : ℕ) (name : Text) (s : FileSystem)
    → load parent_id s.node_registry ≡ some p
    → load name (s.nodes p).children ≡ some child
    → get_child_ctx parent_id name s ≡ (
      some (new_node_context child (ensure_node_id child s).1).0,
      (new_node_context child (ensure_node_id child s).1).1,
    )
unfolding get_child_ctx get_child
get_child_ctx_found parent_id p child name s found entry = rw (found, child_of, entry, child_ctx)

pub get_child_ctx_absent :
    (parent_id p : ℕ) (name : Text) (s : FileSystem)
    → load parent_id s.node_registry ≡ some p
    → load name (s.nodes p).children ≡ none
    → get_child_ctx parent_id name s ≡ (none, s)
unfolding get_child_ctx get_child
get_child_ctx_absent parent_id p name s found absent = rw (found, child_of, absent, child_ctx)

-- GetChildCtx finds no child, or a context on the child, which then has a number.
pub get_child_ctx_cases :
    (parent_id : ℕ) (name : Text) (s : FileSystem)
    → (get_child_ctx parent_id name s ≡ (none, s))
      ⊎ ((p : ℕ) × (child : ℕ) × (load parent_id s.node_registry ≡ some p)
          × (load name (s.nodes p).children ≡ some child)
          × (get_child_ctx parent_id name s ≡ (
            some (new_node_context child (ensure_node_id child s).1).0,
            (new_node_context child (ensure_node_id child s).1).1,
          )))
unfolding get_child_ctx get_child
get_child_ctx_cases parent_id name s = elim (Option-cases (load parent_id s.node_registry)) [
  | inl missing ↦ inl (rw (missing, child_of))
  | inr (p, found) ↦ elim (Option-cases (load name (s.nodes p).children)) [
    | inl absent ↦ inl (get_child_ctx_absent parent_id p name s found absent)
    | inr (child, entry) ↦
        inr (p, child, found, entry, get_child_ctx_found parent_id p child name s found entry)
  ]
]
