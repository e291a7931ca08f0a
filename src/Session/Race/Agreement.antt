-- ===== src/Session/Race/Agreement.antt =====
-- What concurrent calls of EnsureNodeID for one node return, and what a single call does.
use webfs.Base.{
  ℕ, ◌<◌, ◌≡◌, ◌≢◌, ◌↔◌, ap, sym, subst, ◌∙◌, ◌⊎◌, inl, inr, true, some, arith, nat_beq, Bool-cases,
}
use webfs.Base.Maps.{load, nat_eq}
use webfs.Node.{FileSystem}
use webfs.Session.{ensure_node_id}
use webfs.Session.Ids.{IsRegistry}
use webfs.Session.Race.{begin, register, returned, advance, Race, Raced, alone}
use webfs.Session.Race.Invariant.{IsFine}
use webfs.Session.Race.Invariant.Steps.{Raced-Inv}

-- What the callers have returned, and what the registry holds.
pub record IsSettled (target : ℕ → ℕ) (s : FileSystem) (r : Race) (i id : ℕ) : Type 0 where
  pub nonzero : id ≢ 0
  pub own : (r.fs.nodes (target i)).node_id ≡ id
  pub agreed : (j k : ℕ) → r.callers j ≡ returned k → (k ≡ id) ↔ (target j ≡ target i)
  pub only : (k : ℕ) → load k r.fs.node_registry ≡ some (target i) → k ≡ id
  pub registered :
      (s.nodes (target i)).node_id ≡ 0
      → (load id r.fs.node_registry ≡ some (target i))
        ⊎ ((j : ℕ) × (target j ≡ target i) × (r.callers j ≡ register id))

-- Let any number of goroutines call EnsureNodeID, each for some node of a state with a sound
-- registry, interleaved at each atomic operation, while the 64-bit counter does not wrap, and let
-- one of them have returned a number. Then the registry is sound. The number is not 0 and is that of
-- the caller's node; another call that has returned has returned the same number if and only if it
-- was for the same node; and the node is registered under no other number. If the node had no
-- number before, it is registered under this one, or a caller for it is still to register it.
pub Raced-IsSettled :
    {target : ℕ → ℕ} {s : FileSystem} {r : Race}
    → IsRegistry s
    → ((i : ℕ) → target i < s.next_node)
    → Raced target s r
    → (i id : ℕ) → r.callers i ≡ returned id
    → IsRegistry r.fs × IsSettled target s r i id
unfolding IsFine
Raced-IsSettled {target} {s} {r} sound here raced i id was =
    let h = Raced-Inv sound here raced in
    let settled : (j k : ℕ)
        → r.callers j ≡ returned k
        → (k ≡ (r.fs.nodes (target j)).node_id) × (k ≢ 0) =
      λ j k e. subst (IsFine (target j) r.fs) e (h.fine j) in
    let (own, set) = settled i id was in
    let allocated : (j : ℕ) → target j < r.fs.next_node =
      λ j. subst (λ n. target j < n) (sym h.same_next) (here j) in
    (
      h.registry,
      record {
        nonzero = set;
        own = sym own;
        agreed = λ j k e.
            let (own_j, set_j) = settled j k e in
            (
              λ same.
                  h.registry.unique (target j) (target i) (allocated j) (allocated i)
                    (sym own_j ∙ same ∙ own) (λ z. set_j (own_j ∙ z)),
              λ same. own_j ∙ ap (λ q. (r.fs.nodes q).node_id) same ∙ sym own,
            );
        only = λ k e. sym (h.registry.carried k (target i) e) ∙ sym own;
        registered = λ unset.
            subst
              (λ n.
                (load n r.fs.node_registry ≡ some (target i))
                ⊎ ((j : ℕ) × (target j ≡ target i) × (r.callers j ≡ register n)))
              (sym own) (h.registering (target i) unset (λ z. set (own ∙ z)));
      },
    )

-- The four atomic operations of a caller of EnsureNodeID that is alone do what the one step of
-- ensure_node_id does: the same state, and the same number returned.
pub alone-ensure_node_id :
    (p : ℕ) (s : FileSystem)
    → alone 4 p s begin ≡ ((ensure_node_id p s).1, returned (ensure_node_id p s).0)
unfolding alone advance ensure_node_id
alone-ensure_node_id p s = elim (Bool-cases (nat_beq (s.nodes p).node_id 0)) [
  | inl unset ↦ rw unset (let self : nat_beq p p ≡ true = ground arith in rw unset)
  | inr set ↦ rw set
]
