-- ===== src/Session/Race/Invariant/Registered.antt =====
-- The store into the registry, by one of the callers of EnsureNodeID.
use webfs.Base.{
  ℕ, ◌<◌, ◌≡◌, ◌≢◌, ap, subst, ◌∙◌, inl, inr, true, false, some, List, arith, nat_beq, Bool-cases,
}
use webfs.Base.Maps.{load, store, nat_eq, load-store}
use webfs.Node.{FileSystem, update}
use webfs.Session.Race.{Caller, begin, allocate, reload, compare, register, returned, Race}
use webfs.Session.Race.Invariant.{Inv, IsFine, IsFine-update, IsRegistering, distinct-update}

module _ (target : ℕ → ℕ) (s : FileSystem) (i : ℕ) (r : Race) (h : Inv target s r) where
  -- The node of the caller that moves
  abbrev p : ℕ
  p = target i

  -- The store: the caller's number is the node's.
  stored-IsFine :
      (q : ℕ) (c : Caller) (registry : List (ℕ × ℕ))
      → IsFine q r.fs c
      → IsFine q (record r.fs { node_registry = registry }) c
  unfolding IsFine
  stored-IsFine q begin m f = tt
  stored-IsFine q allocate m f = tt
  stored-IsFine q reload m f = f
  stored-IsFine q (compare id) m f = f
  stored-IsFine q (register id) m f = f
  stored-IsFine q (returned id) m f = f

  -- The entry of the caller's node is there; those of the other nodes have other numbers.
  stored-IsRegistering :
      (id q : ℕ)
      → p < r.fs.next_node
      → id ≡ (r.fs.nodes p).node_id
      → id ≢ 0
      → (s.nodes q).node_id ≡ 0
      → (r.fs.nodes q).node_id ≢ 0
      → IsRegistering target q (record {
        fs = record r.fs { node_registry = store id p r.fs.node_registry };
        callers = update r.callers i (returned id);
      })
  stored-IsRegistering id q here own set unset number = elim (Bool-cases (nat_beq p q)) [
    | inl same ↦
        let pq : p ≡ q = ground arith in
        let self : nat_beq id id ≡ true = ground arith in
        let found : load id (store id p r.fs.node_registry) ≡ some q =
          load-store id id p r.fs.node_registry ∙ rw self (ap some pq) in
        inl (
          subst (λ k. load k (store id p r.fs.node_registry) ≡ some q)
            (own ∙ ap (λ x. (r.fs.nodes x).node_id) pq) found)
    | inr apart ↦ elim (h.registering q unset number) [
      | inl there ↦
          let q_here = h.registry.allocated _ q there in
          let other : nat_beq id (r.fs.nodes q).node_id ≡ false =
            ground (arith, h.registry.unique p q here q_here) in
          inl (load-store id (r.fs.nodes q).node_id p r.fs.node_registry ∙ rw other there)
      | inr (j, at, e) ↦ elim (Bool-cases (nat_beq i j)) [
        | inl same ↦
            let ij : i ≡ j = ground arith in
            let pq : p ≡ q = ap target ij ∙ at in absurd (ground arith)
        | inr others ↦ inr (j, at, rw others e)
      ]
    ]
  ]

  pub stored-Inv :
      (id : ℕ)
      → p < r.fs.next_node
      → r.callers i ≡ register id
      → Inv target s (record {
        fs = record r.fs { node_registry = store id p r.fs.node_registry };
        callers = update r.callers i (returned id);
      })
  unfolding IsFine
  stored-Inv id here was =
      let (own, set) : IsFine p r.fs (register id) = subst (IsFine p r.fs) was (h.fine i) in
      let m = r.fs.node_registry in
      let t = record r.fs { node_registry = store id p m } in
      record {
        same_next = h.same_next;
        registry = record {
          carried = λ j q e. ground (arith, load-store id j p m, h.registry.carried j q, own);
          bounded = h.registry.bounded;
          unique = h.registry.unique;
          nonzero = λ q e. ground (arith, load-store id 0 p m, h.registry.nonzero q);
          allocated = λ j q e. ground (arith, load-store id j p m, h.registry.allocated j q);
        };
        fine =
            IsFine-update target i t r.callers (returned id) (own, set)
              (λ j _. stored-IsFine (target j) (r.callers j) (store id p m) (h.fine j));
        distinct = distinct-update i r.callers (returned id) (λ j e. cc e) h.distinct;
        registering = λ q unset number. stored-IsRegistering id q here own set unset number;
      }
