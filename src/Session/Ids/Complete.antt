-- ===== src/Session/Ids/Complete.antt =====
-- The registry of NodeIDs of filesystem/fs.go as long as no number was forgotten.
use webfs.Base.{
  ℕ, ◌+◌, ◌^◌, ◌<◌, ◌≡◌, ◌≢◌, sym, ap, subst, ◌∙◌, inl, inr, some, arith, nat_beq, ltb, Bool-cases,
}
use webfs.Base.Maps.{load, nat_eq}
use webfs.External.{Env}
use webfs.Node.{FileSystem}
use webfs.Node.Numbers.{KeepsNumbers}
use webfs.Fs.{new_fs}
use webfs.Session.{ensure_node_id}
use webfs.Session.Ids.{
  IsRegistry, ensure_old, numbered_lem, load-ensure_node_id, next_lem, ensure_node_id-IsRegistry,
}

-- Every node that carries a number is registered under it.
pub record IsComplete (s : FileSystem) : Type 0 where
  pub complete :
      (p : ℕ)
      → p < s.next_node
      → (s.nodes p).node_id ≢ 0
      → load (s.nodes p).node_id s.node_registry ≡ some p

pub new_fs-IsComplete : (env : Env) (w : env.World) → IsComplete (new_fs env w).0
unfolding new_fs load
new_fs-IsComplete env w = record { complete = λ p h ne. ground arith }

module _ (p : ℕ) (s : FileSystem) (r : IsRegistry s) (here : p < s.next_node)
    (room : s.last_node_id + 1 < 2 ^ 64) (c : IsComplete s) where
  pub ensure_node_id-IsComplete : IsComplete (ensure_node_id p s).1
  ensure_node_id-IsComplete = elim (Bool-cases (nat_beq (s.nodes p).node_id 0)) [
    | inl fresh ↦
        let unset : (s.nodes p).node_id ≡ 0 = ground arith in
        record {
          complete = λ q hq ne.
              let hq' : q < s.next_node = subst (λ n. q < n) (next_lem p s) hq in
              ground (
                arith,
                numbered_lem p s q unset,
                load-ensure_node_id p s ((ensure_node_id p s).1.nodes q).node_id unset,
                r.bounded q hq',
                c.complete q hq',
              );
        }
    | inr set ↦ subst IsComplete (sym (ap (λ o. o.1) (ensure_old p s (ground arith)))) c
  ]

  -- EnsureNodeID registers the node under the number that it returns.
  pub ensure_node_id_registered :
      load (ensure_node_id p s).0 (ensure_node_id p s).1.node_registry ≡ some p
  ensure_node_id_registered =
      let (_, _, _, either) = ensure_node_id-IsRegistry p s r here room in
      elim either [
        | inl old ↦
            subst (λ (o : ℕ × FileSystem). load o.0 o.1.node_registry ≡ some p)
              (sym (ensure_old p s old)) (c.complete p here old)
        | inr new ↦ new
      ]

-- New nodes carry no number.
pub KeepsNumbers-IsComplete : (s s' : FileSystem) → KeepsNumbers s s' → IsComplete s → IsComplete s'
KeepsNumbers-IsComplete s s' k c = record {
  complete = λ p h ne. elim (Bool-cases (ltb p s.next_node)) [
    | inl early ↦
        let here : p < s.next_node = ground arith in
        let same = k.numbers p here in
        subst (λ m. load (s'.nodes p).node_id m ≡ some p) (sym k.same_registry)
          (subst (λ n. load n s.node_registry ≡ some p) (sym same)
            (c.complete p here (λ z. ne (same ∙ z))))
    | inr late ↦ absurd (ne (k.unnumbered p (ground arith) h))
  ];
}
