-- ===== src/Session/Race/Invariant/Given.antt =====
-- The compare-and-swap that succeeds, by one of the callers of EnsureNodeID.
use webfs.Base.{
  ℕ, ◌<◌, ◌≡◌, ◌≢◌, refl, sym, ap, subst, ◌∙◌, ◌⊎◌, some, inl, inr, true, arith, nat_beq,
  if◌then◌else◌, Bool-cases,
}
use webfs.Base.Maps.{load, nat_eq}
use webfs.Node.{FileSystem, update, set_node}
use webfs.Session.Race.{Caller, begin, allocate, reload, compare, register, returned, Race}
use webfs.Session.Race.Invariant.{
  Inv, IsFine, IsFine-update, IsRegistering, distinct-update, kept_registering,
}

module _ (target : ℕ → ℕ) (s : FileSystem) (i : ℕ) (r : Race) (h : Inv target s r) where
  -- The node of the caller that moves
  abbrev p : ℕ
  p = target i

  -- The compare-and-swap that succeeds: no other node, no other caller has the number.
  abbrev given : ℕ → FileSystem
  given id = set_node p (record (r.fs.nodes p) { node_id = id }) r.fs

  node_id-given :
      (id q : ℕ)
      → ((given id).nodes q).node_id ≡ (if nat_beq p q then id else (r.fs.nodes q).node_id)
  node_id-given id q = ground arith

  -- What a caller for the node q knows, holds afterwards.
  given-IsFine :
      (id q : ℕ) (c : Caller)
      → (r.fs.nodes p).node_id ≡ 0
      → id ≢ 0
      → c ≢ compare id
      → IsFine q r.fs c
      → IsFine q (given id) c
  unfolding IsFine
  given-IsFine id q begin unset set other f = tt
  given-IsFine id q allocate unset set other f = tt
  given-IsFine id q reload unset set other f = λ e. ground (arith, node_id-given id q)
  given-IsFine id q (compare k) unset set other (low, k_set, unused) = (
    low,
    k_set,
    λ t here e. elim (Bool-cases (nat_beq p t)) [
      | inl same ↦ other (ap compare (sym (sym (rw same) ∙ e)))
      | inr apart ↦ unused t here (sym (rw apart) ∙ e)
    ],
  )
  given-IsFine id q (register k) unset set other (own, k_set) =
      (ground (arith, node_id-given id q), k_set)
  given-IsFine id q (returned k) unset set other (own, k_set) =
      (ground (arith, node_id-given id q), k_set)

  -- The number is now to be registered; for the other nodes nothing has changed.
  given-IsRegistering :
      (id q : ℕ)
      → r.callers i ≡ compare id
      → (s.nodes q).node_id ≡ 0
      → ((given id).nodes q).node_id ≢ 0
      → IsRegistering target q
          (record { fs = given id; callers = update r.callers i (register id) })
  given-IsRegistering id q was unset set = elim (Bool-cases (nat_beq p q)) [
    | inl same ↦
        let turn : nat_beq i i ≡ true = ground arith in
        let number : ((given id).nodes q).node_id ≡ id = node_id-given id q ∙ rw same refl in
        inr (i, (ground arith), rw turn (ap register (sym number)))
    | inr apart ↦
        let number : ((given id).nodes q).node_id ≡ (r.fs.nodes q).node_id =
          node_id-given id q ∙ rw apart refl in
        subst
          (λ n.
            (load n r.fs.node_registry ≡ some q)
            ⊎ ((j : ℕ) × (target j ≡ q) × (update r.callers i (register id) j ≡ register n)))
          (sym number)
          (elim (h.registering q unset (λ z. set (number ∙ z))) [
            | inl there ↦ inl there
            | inr waiting ↦
                inr (kept_registering target s i r h (register id) (λ k e. cc (was, e)) q _ waiting)
          ])
  ]

  pub given-Inv :
      (id : ℕ)
      → p < r.fs.next_node
      → (r.fs.nodes p).node_id ≡ 0
      → r.callers i ≡ compare id
      → Inv target s (record { fs = given id; callers = update r.callers i (register id) })
  unfolding IsFine
  given-Inv id here unset was =
      let (low, set, unused) : IsFine p r.fs (compare id) = subst (IsFine p r.fs) was (h.fine i) in
      let self : nat_beq p p ≡ true = ground arith in
      let own : id ≡ ((given id).nodes p).node_id = sym (node_id-given id p ∙ rw self) in
      record {
        same_next = h.same_next;
        registry = record {
          carried = λ j q e.
              ground (arith, node_id-given id q, h.registry.carried j q, h.registry.nonzero q);
          bounded = λ q there. ground (arith, node_id-given id q, h.registry.bounded q there);
          unique = λ q t hq ht e ne. ground (
            arith,
            node_id-given id q,
            node_id-given id t,
            unused q hq,
            unused t ht,
            h.registry.unique q t hq ht,
          );
          nonzero = h.registry.nonzero;
          allocated = h.registry.allocated;
        };
        fine =
            IsFine-update target i (given id) r.callers (register id) (own, set)
              (λ j apart.
                given-IsFine id (target j) (r.callers j) unset set
                  (λ e. let same = h.distinct i j id was e in ground arith) (h.fine j));
        distinct = distinct-update i r.callers (register id) (λ j e. cc e) h.distinct;
        registering = λ q unset_then set_now. given-IsRegistering id q was unset_then set_now;
      }
