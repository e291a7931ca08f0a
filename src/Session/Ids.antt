-- ===== src/Session/Ids.antt =====
-- The registry of NodeIDs: its invariant, and what ForgetNodeID leaves behind.
pub mod Complete
use webfs.Base.{
  ℕ, ◌+◌, ◌^◌, ◌≤◌, ◌<◌, ◌≡◌, ◌≢◌, ap, sym, subst, ◌∙◌, ◌⊎◌, inl, inr, true, some, arith, nat_beq,
  if◌then◌else◌, Bool-cases,
}
use webfs.Base.Maps.{load, store, nat_eq, text_eq, load-store}
use webfs.Node.{FileSystem, update}
use webfs.Fs.{add_one64}
use webfs.Session.{ensure_node_id}

-- Every entry of the registry names a node that carries the entry's number; no two nodes carry one
-- number, other than 0, and no number is above the last one given out.
pub record IsRegistry (s : FileSystem) : Type 0 where
  pub carried : (id p : ℕ) → load id s.node_registry ≡ some p → (s.nodes p).node_id ≡ id
  pub bounded : (p : ℕ) → p < s.next_node → (s.nodes p).node_id ≤ s.last_node_id
  pub unique :
      (p q : ℕ)
      → p < s.next_node
      → q < s.next_node
      → (s.nodes p).node_id ≡ (s.nodes q).node_id
      → (s.nodes p).node_id ≢ 0
      → p ≡ q
  pub nonzero : (p : ℕ) → load 0 s.node_registry ≢ some p
  pub allocated : (id p : ℕ) → load id s.node_registry ≡ some p → p < s.next_node

module _ (p : ℕ) (s : FileSystem) where
  abbrev pub after : FileSystem
  after = (ensure_node_id p s).1

  pub ensure_old : (s.nodes p).node_id ≢ 0 → ensure_node_id p s ≡ ((s.nodes p).node_id, s)
  unfolding ensure_node_id
  ensure_old h = ground arith

  numbered_lem :
      (q : ℕ)
      → (s.nodes p).node_id ≡ 0
      → (after.nodes q).node_id
        ≡ (if nat_beq p q then add_one64 s.last_node_id else (s.nodes q).node_id)
  unfolding ensure_node_id
  numbered_lem q h = ground arith

  ensure_new :
      (s.nodes p).node_id ≡ 0
      → ensure_node_id p s ≡ (
        add_one64 s.last_node_id,
        record s {
          nodes = update s.nodes p (record (s.nodes p) { node_id = add_one64 s.last_node_id });
          last_node_id = add_one64 s.last_node_id;
          node_registry = store (add_one64 s.last_node_id) p s.node_registry;
        },
      )
  unfolding ensure_node_id
  ensure_new h =
      let unset : nat_beq (s.nodes p).node_id 0 ≡ true = ground arith in rw (unset, ensure_node_id)

  load-ensure_node_id :
      (id : ℕ)
      → (s.nodes p).node_id ≡ 0
      → load id after.node_registry
        ≡ (if nat_beq (add_one64 s.last_node_id) id then some p else load id s.node_registry)
  load-ensure_node_id id h =
      ap (λ o. load id o.1.node_registry) (ensure_new h)
      ∙ load-store (add_one64 s.last_node_id) id p s.node_registry

  last_lem : (s.nodes p).node_id ≡ 0 → after.last_node_id ≡ add_one64 s.last_node_id
  unfolding ensure_node_id
  last_lem h = ground arith

  next_lem : after.next_node ≡ s.next_node
  unfolding ensure_node_id
  next_lem = ground arith

  module _ (r : IsRegistry s) (here : p < s.next_node) (room : s.last_node_id + 1 < 2 ^ 64)
      (unset : (s.nodes p).node_id ≡ 0) where
    next_id : add_one64 s.last_node_id ≡ s.last_node_id + 1
    next_id = omega arith

    carried-after : (id q : ℕ) → load id after.node_registry ≡ some q → (after.nodes q).node_id ≡ id
    carried-after id q e = ground (
      arith,
      load-ensure_node_id id unset,
      numbered_lem q unset,
      next_id,
      r.carried id q,
      r.nonzero q,
    )

    bounded-after : (q : ℕ) → q < s.next_node → (after.nodes q).node_id ≤ after.last_node_id
    bounded-after q h = ground (arith, numbered_lem q unset, last_lem unset, next_id, r.bounded q h)

    unique-after :
        (q t : ℕ)
        → q < s.next_node
        → t < s.next_node
        → (after.nodes q).node_id ≡ (after.nodes t).node_id
        → (after.nodes q).node_id ≢ 0
        → q ≡ t
    unique-after q t hq ht e ne = ground (
      arith,
      numbered_lem q unset,
      numbered_lem t unset,
      next_id,
      r.bounded q hq,
      r.bounded t ht,
      r.unique q t hq ht,
    )

    nonzero-after : (q : ℕ) → load 0 after.node_registry ≢ some q
    nonzero-after q e = ground (arith, load-ensure_node_id 0 unset, next_id, r.nonzero q)

    allocated-after : (id q : ℕ) → load id after.node_registry ≡ some q → q < s.next_node
    allocated-after id q e = ground (arith, load-ensure_node_id id unset, r.allocated id q)

    ensure_new-IsRegistry : IsRegistry after
    ensure_new-IsRegistry = record {
      carried = carried-after;
      bounded = λ q h. bounded-after q (rw next_lem at h);
      unique = λ q t hq ht. unique-after q t (rw next_lem at hq) (rw next_lem at ht);
      nonzero = nonzero-after;
      allocated = λ id q e. rw next_lem (allocated-after id q e);
    }

  -- For a node of a state with a sound registry, EnsureNodeID keeps the registry sound, as long as
  -- the 64-bit counter does not wrap, and returns the number, not 0, that the node carries from
  -- then on. A node that carried none is registered under it.
  pub ensure_node_id-IsRegistry :
      IsRegistry s
      → p < s.next_node
      → s.last_node_id + 1 < 2 ^ 64
      → IsRegistry after
        × ((ensure_node_id p s).0 ≡ (after.nodes p).node_id)
        × ((ensure_node_id p s).0 ≢ 0)
        × (((s.nodes p).node_id ≢ 0) ⊎ (load (ensure_node_id p s).0 after.node_registry ≡ some p))
  ensure_node_id-IsRegistry r here room = elim (Bool-cases (nat_beq (s.nodes p).node_id 0)) [
    | inl fresh ↦
        let unset : (s.nodes p).node_id ≡ 0 = ground arith in
        let id_eq : (ensure_node_id p s).0 ≡ add_one64 s.last_node_id =
          ap (λ o. o.0) (ensure_new unset) in
        let next = next_id r here room unset in
        let self : nat_beq p p ≡ true = ground arith in
        let same : nat_beq (add_one64 s.last_node_id) (add_one64 s.last_node_id) ≡ true =
          ground arith in
        (
          ensure_new-IsRegistry r here room unset,
          id_eq ∙ sym (numbered_lem p unset ∙ rw self),
          (λ e. omega (arith, id_eq, next)),
          inr (rw id_eq (load-ensure_node_id (add_one64 s.last_node_id) unset ∙ rw same)),
        )
    | inr numbered ↦
        let set : (s.nodes p).node_id ≢ 0 = ground arith in
        let e = ensure_old set in
        (
          subst (λ o. IsRegistry o.1) (sym e) r,
          ap (λ o. o.0) e ∙ sym (ap (λ o. (o.1.nodes p).node_id) e),
          (λ z. set (sym (ap (λ o. o.0) e) ∙ z)),
          inl set,
        )
  ]
