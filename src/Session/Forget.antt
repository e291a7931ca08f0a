-- ===== src/Session/Forget.antt =====
-- ForgetNodeID, and a lookup of the forgotten node afterwards.
use webfs.Base.{
  ℕ, ◌≡◌, ◌≢◌, refl, ap, sym, subst, ◌∙◌, inl, inr, true, false, Option, none, some, arith, nat_beq,
  if◌then◌else◌, Option-cases, Bool-cases,
}
use webfs.Base.Maps.{Text, load, nat_eq, text_eq, load-delete}
use webfs.Node.{Node, FileSystem, get_child}
use webfs.Session.{
  NodeContext, new_node_context, ctx_node_id, open_found, get_node_ctx, forget_with, forget_node_id,
  child_ctx, child_of, get_child_ctx,
}
use webfs.Session.Ids.{IsRegistry, ensure_old}

module _ (id : ℕ) (s : FileSystem) where
  abbrev gone : FileSystem
  gone = forget_node_id id s

  -- ForgetNodeID touches neither the nodes nor the counters.
  pub forget_keeps :
      (gone.nodes ≡ s.nodes) × (gone.next_node ≡ s.next_node) × (gone.last_node_id ≡ s.last_node_id)
  unfolding forget_node_id
  forget_keeps = elim (Option-cases (load id s.node_registry)) [
    | inl missing ↦ rw (missing, open_found, forget_with) ((refl, refl, refl))
    | inr (p, found) ↦ rw (found, open_found, forget_with) ((refl, refl, refl))
  ]

  -- It removes the entry of its number and no other.
  pub load-forget_node_id :
      (j : ℕ) → load j gone.node_registry ≡ (if nat_beq id j then none else load j s.node_registry)
  unfolding forget_node_id
  load-forget_node_id j = elim (Option-cases (load id s.node_registry)) [
    | inl missing ↦
        rw (missing, open_found, forget_with)
          (elim (Bool-cases (nat_beq id j)) [
            | inl same ↦
                let e : id ≡ j = ground arith in
                rw same (subst (λ k. load k s.node_registry ≡ none) e missing)
            | inr other ↦ rw other
          ])
    | inr (p, found) ↦ rw (found, open_found, forget_with) (load-delete id j s.node_registry)
  ]

  -- ForgetNodeID keeps the registry sound.
  pub forget_node_id-IsRegistry : IsRegistry s → IsRegistry gone
  forget_node_id-IsRegistry r =
      let (nodes_eq, next_eq, last_eq) = forget_keeps in
      let there : (j p : ℕ) → load j gone.node_registry ≡ some p → load j s.node_registry ≡ some p =
        λ j p e. ground (arith, load-forget_node_id j) in
      record {
        carried = λ j p e. rw nodes_eq (r.carried j p (there j p e));
        bounded = λ p h. rw (nodes_eq, last_eq) (r.bounded p (rw next_eq at h));
        unique = λ p q hp hq. rw nodes_eq (r.unique p q (rw next_eq at hp) (rw next_eq at hq));
        nonzero = λ p e. r.nonzero p (there 0 p e);
        allocated = λ j p e. rw next_eq (r.allocated j p (there j p e));
      }

-- The node keeps its number when the number is forgotten.
module _ (parent_id parent child id : ℕ) (name : Text) (s : FileSystem) (apart : parent_id ≢ id)
    (registered : load parent_id s.node_registry ≡ some parent)
    (entry : get_child s parent name ≡ some child) (numbered : (s.nodes child).node_id ≡ id)
    (nonzero : id ≢ 0) where
  abbrev pub later : Option NodeContext × FileSystem
  later = get_child_ctx parent_id name (forget_node_id id s)

  found_again : later ≡ child_of (some parent) name (forget_node_id id s)
  unfolding get_child_ctx
  found_again =
      let other : nat_beq id parent_id ≡ false = ground arith in
      let still : load parent_id (forget_node_id id s).node_registry ≡ some parent =
        load-forget_node_id id s parent_id ∙ rw other registered in
      rw still

  entry_again : get_child (forget_node_id id s) parent name ≡ some child
  unfolding get_child
  entry_again =
      ap (λ (nodes : ℕ → Node). load name (nodes parent).children) (forget_keeps id s).0 ∙ entry

  numbered_again : ((forget_node_id id s).nodes child).node_id ≡ id
  numbered_again = ap (λ (nodes : ℕ → Node). (nodes child).node_id) (forget_keeps id s).0 ∙ numbered

  resolved : later ≡ (
    some (new_node_context child (forget_node_id id s)).0,
    (new_node_context child (forget_node_id id s)).1,
  )
  resolved =
      let kept_id =
        ensure_old child (forget_node_id id s) (λ z. nonzero (sym numbered_again ∙ z)) in
      found_again ∙ (unfold child_of child_ctx in rw (entry_again, child_ctx, kept_id))

  -- Let a registered directory have an entry for a child that carries a number, other than 0 and
  -- than the directory's. After ForgetNodeID of the child's number, a new lookup of the child by
  -- name succeeds and hands out the forgotten number, under which the file system then finds no
  -- node.
  pub forget_then_lookup :
      (ctx : NodeContext) × (later.0 ≡ some ctx)
      × (ctx.node ≡ child)
      × (ctx_node_id ctx later.1 ≡ id)
      × ((get_node_ctx id later.1).0 ≡ none)
  unfolding get_node_ctx ctx_node_id
  forget_then_lookup =
      let self : nat_beq id id ≡ true = ground arith in
      let missing : load id (forget_node_id id s).node_registry ≡ none =
        load-forget_node_id id s id ∙ rw self in
      (
        (new_node_context child (forget_node_id id s)).0,
        ap (λ o. o.0) resolved,
        refl,
        (ap (λ o. (o.1.nodes child).node_id) resolved ∙ numbered_again),
        (rw (resolved, missing, open_found)),
      )
