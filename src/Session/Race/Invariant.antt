-- ===== src/Session/Race/Invariant.antt =====
-- The invariant of the callers of EnsureNodeID (filesystem/fs.go).
pub mod Counted
pub mod Registered
pub mod Given
pub mod Steps
use webfs.Base.{
  ℕ, ◌+◌, ◌≤◌, ◌<◌, ◌^◌, ◌≡◌, ◌≢◌, refl, sym, ap, subst, ◌∙◌, ◌⊎◌, inl, inr, true, false, some,
  List, arith, nat_beq, if◌then◌else◌, Bool-cases,
}
use webfs.Base.Maps.{load, store, nat_eq, load-store}
use webfs.Node.{FileSystem, update, set_node}
use webfs.Fs.{add_one64}
use webfs.Session.Ids.{IsRegistry}
use webfs.Session.Race.{
  Caller, begin, allocate, reload, compare, register, returned, advance, Race, Raced, begun, moved,
}

-- What a caller knows of the state
unfoldable pub IsFine : ℕ → FileSystem → Caller → Type 0
IsFine p s begin = Unit
IsFine p s allocate = Unit
IsFine p s (compare id) =
    (id ≤ s.last_node_id) × (id ≢ 0) × ((q : ℕ) → q < s.next_node → (s.nodes q).node_id ≢ id)
IsFine p s (register id) = (id ≡ (s.nodes p).node_id) × (id ≢ 0)
IsFine p s reload = (s.nodes p).node_id ≢ 0
IsFine p s (returned id) = (id ≡ (s.nodes p).node_id) × (id ≢ 0)

-- The number of the node q is registered, or some caller is about to register it.
abbrev pub IsRegistering : (ℕ → ℕ) → ℕ → Race → Type 0
IsRegistering target q r =
    let id = (r.fs.nodes q).node_id in
    (load id r.fs.node_registry ≡ some q) ⊎ ((j : ℕ) × (target j ≡ q) × (r.callers j ≡ register id))

pub record Inv (target : ℕ → ℕ) (s : FileSystem) (r : Race) : Type 0 where
  pub same_next : r.fs.next_node ≡ s.next_node
  pub registry : IsRegistry r.fs
  pub fine : (i : ℕ) → IsFine (target i) r.fs (r.callers i)
  pub distinct : (i j id : ℕ) → r.callers i ≡ compare id → r.callers j ≡ compare id → i ≡ j
  pub registering :
      (q : ℕ) → (s.nodes q).node_id ≡ 0 → (r.fs.nodes q).node_id ≢ 0 → IsRegistering target q r

pub begun-Inv :
    (target : ℕ → ℕ) (s : FileSystem)
    → IsRegistry s
    → Inv target s (record { fs = s; callers = λ i. begin })
unfolding IsFine
begun-Inv target s r = record {
  same_next = refl;
  registry = r;
  fine = λ i. tt;
  distinct = λ i j id e. absurd (cc e);
  registering = λ q unset set. absurd (set unset);
}

-- The callers after a move, seen one by one
IsFine-update :
    (target : ℕ → ℕ) (i : ℕ) (s : FileSystem) (callers : ℕ → Caller) (c : Caller)
    → IsFine (target i) s c
    → ((j : ℕ) → nat_beq i j ≡ false → IsFine (target j) s (callers j))
    → (j : ℕ) → IsFine (target j) s (update callers i c j)
IsFine-update target i s callers c own others j = elim (Bool-cases (nat_beq i j)) [
  | inl same ↦ let e : i ≡ j = ground arith in rw same (subst (λ k. IsFine (target k) s c) e own)
  | inr other ↦ rw other (others j other)
]

-- A move to a state other than `compare` keeps the numbers distinct.
distinct-update :
    (i : ℕ) (callers : ℕ → Caller) (c : Caller)
    → ((id : ℕ) → c ≢ compare id)
    → ((j k id : ℕ) → callers j ≡ compare id → callers k ≡ compare id → j ≡ k)
    → (j k id : ℕ) → update callers i c j ≡ compare id
    → update callers i c k ≡ compare id
    → j ≡ k
distinct-update i callers c not_compare distinct j k id ej ek = elim (Bool-cases (nat_beq i j)) [
  | inl first ↦ absurd (not_compare id (sym (rw first) ∙ ej))
  | inr other ↦ elim (Bool-cases (nat_beq i k)) [
    | inl second ↦ absurd (not_compare id (sym (rw second) ∙ ek))
    | inr others ↦ distinct j k id (sym (rw other) ∙ ej) (sym (rw others) ∙ ek)
  ]
]

module _ (target : ℕ → ℕ) (s : FileSystem) (i : ℕ) (r : Race) (h : Inv target s r) where
  -- A caller that has not come to its store leaves the store of another as it is.
  kept_registering :
      (c : Caller)
      → ((id : ℕ) → r.callers i ≢ register id)
      → (q id : ℕ) → (j : ℕ) × (target j ≡ q) × (r.callers j ≡ register id)
      → (j : ℕ) × (target j ≡ q) × (update r.callers i c j ≡ register id)
  kept_registering c other q id (j, at, e) = elim (Bool-cases (nat_beq i j)) [
    | inl same ↦
        let ij : i ≡ j = ground arith in
        absurd (other id (subst (λ k. r.callers k ≡ register id) (sym ij) e))
    | inr apart ↦ (j, at, rw apart e)
  ]

  -- A move that leaves the file system as it is
  quiet-Inv :
      (c : Caller)
      → IsFine (target i) r.fs c
      → ((id : ℕ) → c ≢ compare id)
      → ((id : ℕ) → r.callers i ≢ register id)
      → Inv target s (record { fs = r.fs; callers = update r.callers i c })
  quiet-Inv c own not_compare not_register = record {
    same_next = h.same_next;
    registry = h.registry;
    fine = IsFine-update target i r.fs r.callers c own (λ j _. h.fine j);
    distinct = distinct-update i r.callers c not_compare h.distinct;
    registering = λ q unset set. elim (h.registering q unset set) [
      | inl there ↦ inl there
      | inr waiting ↦ inr (kept_registering c not_register q _ waiting)
    ];
  }
