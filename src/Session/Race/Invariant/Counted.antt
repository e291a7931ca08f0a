-- ===== src/Session/Race/Invariant/Counted.antt =====
-- The addition to the counter, by one of the callers of EnsureNodeID.
use webfs.Base.{ℕ, ◌+◌, ◌<◌, ◌^◌, ◌≡◌, ◌≢◌, sym, subst, ◌∙◌, inl, inr, arith, nat_beq, Bool-cases}
use webfs.Base.Maps.{nat_eq}
use webfs.Node.{FileSystem, update}
use webfs.Fs.{add_one64}
use webfs.Session.Race.{Caller, begin, allocate, reload, compare, register, returned, Race}
use webfs.Session.Race.Invariant.{Inv, IsFine, IsFine-update, kept_registering}

module _ (target : ℕ → ℕ) (s : FileSystem) (i : ℕ) (r : Race) (h : Inv target s r) where
  counted-IsFine :
      (p : ℕ) (c : Caller)
      → r.fs.last_node_id + 1 < 2 ^ 64
      → IsFine p r.fs c
      → IsFine p (record r.fs { last_node_id = add_one64 r.fs.last_node_id }) c
  unfolding IsFine
  counted-IsFine p begin room f = tt
  counted-IsFine p allocate room f = tt
  counted-IsFine p reload room f = f
  counted-IsFine p (compare id) room (low, set, unused) = (omega arith, set, unused)
  counted-IsFine p (register id) room f = f
  counted-IsFine p (returned id) room f = f

  pub counted-Inv :
      r.callers i ≡ allocate
      → r.fs.last_node_id + 1 < 2 ^ 64
      → let id = add_one64 r.fs.last_node_id in
        Inv target s (record {
          fs = record r.fs { last_node_id = id };
          callers = update r.callers i (compare id);
        })
  unfolding IsFine
  counted-Inv was room =
      let id = add_one64 r.fs.last_node_id in
      let next : id ≡ r.fs.last_node_id + 1 = omega arith in
      let t = record r.fs { last_node_id = id } in
      let above : (j k : ℕ) → r.callers j ≡ compare k → k ≢ id = λ j k e same.
        let f : IsFine (target j) r.fs (compare k) = subst (IsFine (target j) r.fs) e (h.fine j) in
        let low = f.0 in omega arith in
      record {
        same_next = h.same_next;
        registry = record {
          carried = h.registry.carried;
          bounded = λ q here. let low = h.registry.bounded q here in omega arith;
          unique = h.registry.unique;
          nonzero = h.registry.nonzero;
          allocated = h.registry.allocated;
        };
        fine =
            IsFine-update target i t r.callers (compare id)
              (
                omega arith,
                (λ z. omega arith),
                (λ q here e. let low = h.registry.bounded q here in omega arith),
              )
              (λ j _. counted-IsFine (target j) (r.callers j) room (h.fine j));
        distinct = λ j k n ej ek. elim (Bool-cases (nat_beq i j)) [
          | inl first ↦ elim (Bool-cases (nat_beq i k)) [
            | inl second ↦ ground arith
            | inr others ↦
                let n_is : compare id ≡ compare n = sym (rw first) ∙ ej in
                let e : r.callers k ≡ compare n = sym (rw others) ∙ ek in
                absurd (above k n e (cc n_is))
          ]
          | inr other ↦ elim (Bool-cases (nat_beq i k)) [
            | inl second ↦
                let n_is : compare id ≡ compare n = sym (rw second) ∙ ek in
                let e : r.callers j ≡ compare n = sym (rw other) ∙ ej in
                absurd (above j n e (cc n_is))
            | inr others ↦ h.distinct j k n (sym (rw other) ∙ ej) (sym (rw others) ∙ ek)
          ]
        ];
        registering = λ q unset set. elim (h.registering q unset set) [
          | inl there ↦ inl there
          | inr waiting ↦ inr (kept_registering target s i r h _ (λ id e. cc (was, e)) q _ waiting)
        ];
      }
