-- ===== src/Session/Race/Invariant/Steps.antt =====
-- Every atomic operation of the callers of EnsureNodeID.
use webfs.Base.{ℕ, ◌+◌, ◌<◌, ◌^◌, ◌≡◌, refl, sym, subst, inl, inr, arith, nat_beq, Bool-cases}
use webfs.Base.Maps.{nat_eq}
use webfs.Node.{FileSystem, update}
use webfs.Session.Ids.{IsRegistry}
use webfs.Session.Race.{
  Caller, begin, allocate, reload, compare, register, returned, advance, Race, Raced, begun, moved,
}
use webfs.Session.Race.Invariant.Counted.{counted-Inv}
use webfs.Session.Race.Invariant.Registered.{stored-Inv}
use webfs.Session.Race.Invariant.Given.{given-Inv}
use webfs.Session.Race.Invariant.{Inv, IsFine, begun-Inv, quiet-Inv}

module _ (target : ℕ → ℕ) (s : FileSystem) (i : ℕ) (r : Race) (h : Inv target s r) where
  abbrev p : ℕ
  p = target i

  -- Every atomic operation keeps the invariant.
  advance-Inv :
      (c : Caller)
      → r.callers i ≡ c
      → p < r.fs.next_node
      → r.fs.last_node_id + 1 < 2 ^ 64
      → let (t, c') = advance p r.fs c in
        Inv target s (record { fs = t; callers = update r.callers i c' })
  unfolding advance IsFine
  advance-Inv begin was here room = elim (Bool-cases (nat_beq (r.fs.nodes p).node_id 0)) [
    | inl unset ↦ rw unset (quiet-Inv target s i r h allocate tt (λ k e. cc e) (λ k e. cc (was, e)))
    | inr set ↦ rw set (
        quiet-Inv target s i r h (returned (r.fs.nodes p).node_id) (refl, (ground arith))
          (λ k e. cc e) (λ k e. cc (was, e)))
  ]
  advance-Inv allocate was here room = counted-Inv target s i r h was room
  advance-Inv (compare id) was here room = elim (Bool-cases (nat_beq (r.fs.nodes p).node_id 0)) [
    | inl unset ↦ rw unset (given-Inv target s i r h id here (ground arith) was)
    | inr set ↦
        rw set (quiet-Inv target s i r h reload (ground arith) (λ k e. cc e) (λ k e. cc (was, e)))
  ]
  advance-Inv (register id) was here room = stored-Inv target s i r h id here was
  advance-Inv reload was here room =
      let set : IsFine p r.fs reload = subst (IsFine p r.fs) was (h.fine i) in
      quiet-Inv target s i r h (returned (r.fs.nodes p).node_id) (refl, set) (λ k e. cc e)
        (λ k e. cc (was, e))
  advance-Inv (returned id) was here room =
      quiet-Inv target s i r h (returned id) (subst (IsFine p r.fs) was (h.fine i)) (λ k e. cc e)
        (λ k e. cc (was, e))

pub Raced-Inv :
    {target : ℕ → ℕ} {s : FileSystem} {r : Race}
    → IsRegistry s
    → ((i : ℕ) → target i < s.next_node)
    → Raced target s r
    → Inv target s r
Raced-Inv {target} {s} sound here begun = begun-Inv target s sound
Raced-Inv {target} {s} sound here (moved i {r} before room) =
    let h = Raced-Inv sound here before in
    advance-Inv target s i r h (r.callers i) refl
      (subst (λ n. target i < n) (sym h.same_next) (here i)) room
