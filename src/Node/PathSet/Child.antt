-- ===== src/Node/PathSet/Child.antt =====
-- A child that is made in the tree of filesystem/node.go, and the set of the paths that exist.
use mathlib.Core.Option.{some-injective}
use webfs.Base.{
  ℕ, zero, suc, ◌<◌, ◌≡◌, ◌↔◌, ◌⊎◌, refl, sym, ap, subst, ◌∙◌, inl, inr, Bool, true, false, ◌&&◌,
  ◌||◌, Option, none, some, List, [], ◌∷◌, ◌++◌, arith, nat_beq, Bool-cases,
}
use webfs.Base.Maps.{Text, load, text_eq, text_beq, text_beq_iff}
use webfs.Inode.{Inode}
use webfs.Node.{FileSystem, make_child}
use webfs.Node.Tree.{IsTree, IsChild}
use webfs.Node.Tree.Child.{after-root, load-after, new_node_lem}
use webfs.Node.Walks.{Walk, Walk-snoc, Walk-kept, entry-new}
use webfs.Node.PathSet.{leads_from, leads_from_iff, paths, path_beq, path_beq_iff}

-- A list is empty or has a last element.
last_cases {ℓ} :
    {A : Type ℓ} (l : List A) → (l ≡ []) ⊎ ((init : List A) × (x : A) × (l ≡ init ++ x ∷ []))
last_cases [] = inl refl
last_cases (x ∷ l) = elim (last_cases l) [
  | inl e ↦ inr ([], x, ap (λ m. x ∷ m) e)
  | inr (init, y, e) ↦ inr (x ∷ init, y, ap (λ m. x ∷ m) e)
]

module _ (s : FileSystem) (t : IsTree s) where
  -- Names that end in a node: it is the root, or its parent's entry.
  Walk-last :
      (p c : ℕ) (ks : List Text) (k : Text)
      → p < s.next_node
      → Walk s p (ks ++ k ∷ []) c
      → (q : ℕ) × Walk s p ks q × IsChild s q k c
  Walk-last p c [] k h (q, e, w) = (p, refl, subst (λ x. IsChild s p k x) w (t.entries p k q h e))
  Walk-last p c (j ∷ ks) k h (q, e, w) =
      let entry = t.entries p j q h e in
      let (r, v, last) = Walk-last q c ks k entry.allocated w in (r, (q, e, v), last)

  not_root : (q : ℕ) (k : Text) → IsChild s q k s.root → ⊥
  not_root q k c = let none_there = t.root_parent in cc (c.parented)

  -- Different names lead to different nodes.
  Walk-injective_below :
      (fuel c : ℕ) (ks js : List Text)
      → c < fuel
      → Walk s s.root ks c
      → Walk s s.root js c
      → ks ≡ js
  Walk-injective_below zero c ks js lt w v = elim lt [ ]
  Walk-injective_below (suc fuel) c ks js lt w v = elim (last_cases ks) [
    | inl empty ↦ elim (last_cases js) [
      | inl empty_too ↦ empty ∙ sym empty_too
      | inr (init, j, e) ↦
          let (q, _, last) = last_of js init j c e v in
          let root : s.root ≡ c = subst (λ x. Walk s s.root x c) empty w in
          absurd (not_root q j (subst (λ x. IsChild s q j x) (sym root) last))
    ]
    | inr (above, k, d) ↦ elim (last_cases js) [
      | inl empty ↦
          let (q, _, last) = last_of ks above k c d w in
          let root : s.root ≡ c = subst (λ x. Walk s s.root x c) empty v in
          absurd (not_root q k (subst (λ x. IsChild s q k x) (sym root) last))
      | inr (init, j, e) ↦
          let (q, to_q, last) = last_of ks above k c d w in
          let (r, to_r, last_too) = last_of js init j c e v in
          let parents : q ≡ r = some-injective q r (sym last.parented ∙ last_too.parented) in
          let later = last_too.later in
          let same =
            Walk-injective_below fuel r above init (omega arith)
              (subst (λ x. Walk s s.root above x) parents to_q) to_r in
          let names_too : k ≡ j = sym last.named ∙ last_too.named in
          d ∙ ap (λ l. l ++ k ∷ []) same ∙ ap (λ x. init ++ x ∷ []) names_too ∙ sym e
    ]
  ]
    where
      last_of :
          (ls init : List Text) (k : Text) (c : ℕ)
          → ls ≡ init ++ k ∷ []
          → Walk s s.root ls c
          → (q : ℕ) × Walk s s.root init q × IsChild s q k c
      last_of ls init k c e w =
          Walk-last s.root c init k t.root_allocated (subst (λ x. Walk s s.root x c) e w)

  pub Walk-injective :
      (c : ℕ) (ks js : List Text) → Walk s s.root ks c → Walk s s.root js c → ks ≡ js
  Walk-injective c ks js = Walk-injective_below (suc c) c ks js (omega arith)

-- Boolean tests with the same meaning are equal.
same_test : (b c : Bool) → (b ≡ true) ↔ (c ≡ true) → b ≡ c
same_test true true h = refl
same_test true false h = sym (h.0 refl)
same_test false true h = h.1 refl
same_test false false h = refl

module _ (p : ℕ) (name : Text) (n : Inode) (s : FileSystem) (here : p < s.next_node)
    (absent : load name (s.nodes p).children ≡ none) (t : IsTree s) where
  abbrev after : FileSystem
  after = (make_child p name n s).1

  -- The new node has no children.
  below_new : (ks : List Text) (c : ℕ) → Walk after s.next_node ks c → ks ≡ []
  unfolding load
  below_new [] c w = refl
  below_new (k ∷ ks) c (r, e, w) =
      let none_there : ◌≡◌ {A = Option ℕ} none (some r) =
        subst (λ m. load k m.children ≡ some r) (new_node_lem p name n s here absent) e in
      absurd (cc none_there)

  -- Names that lead somewhere after a child was made led there before, or they lead to the child.
  old_or_new :
      (q c : ℕ) (ks : List Text)
      → q < s.next_node
      → Walk after q ks c
      → ((d : ℕ) × Walk s q ks d) ⊎ ((ls : List Text) × Walk s q ls p × (ks ≡ ls ++ name ∷ []))
  old_or_new q c [] h w = inl (q, refl)
  old_or_new q c (k ∷ ks) h (r, e, w) = elim (Bool-cases (nat_beq p q && text_beq name k)) [
    | inl added ↦
        let same_parent : p ≡ q = ground arith in
        let same_name : name ≡ k = (text_beq_iff name k).0 (ground arith) in
        let new : s.next_node ≡ r = ground (arith, load-after p name n s here absent q k h) in
        let done = below_new ks c (subst (λ x. Walk after x ks c) (sym new) w) in
        inr ([], sym same_parent, ap (λ x. x ∷ ks) (sym same_name) ∙ ap (λ l. name ∷ l) done)
    | inr old ↦
        let found : load k (s.nodes q).children ≡ some r =
          ground (arith, load-after p name n s here absent q k h) in
        elim (old_or_new r c ks (t.entries q k r h found).allocated w) [
          | inl (d, v) ↦ inl (d, (r, found, v))
          | inr (ls, v, e) ↦ inr (k ∷ ls, (r, found, v), ap (λ l. k ∷ l) e)
        ]
  ]

  new_path :
      (above : List Text)
      → Walk s s.root above p
      → Walk after s.root (above ++ name ∷ []) s.next_node
  new_path above to_p =
      Walk-snoc after s.root p s.next_node above name
        (Walk-kept p name n s here absent t s.root p above t.root_allocated to_p)
        (entry-new p name n s here absent)

  leads-make_child :
      (above ks : List Text)
      → Walk s s.root above p
      → (leads_from after s.root ks ≡ true)
        ↔ ((paths s ks || path_beq ks (above ++ name ∷ [])) ≡ true)
  leads-make_child above ks to_p = (there, back)
    where
      there :
          leads_from after s.root ks ≡ true
          → (paths s ks || path_beq ks (above ++ name ∷ [])) ≡ true
      there e =
          let (c, w) = (leads_from_iff after s.root ks).0 e in
          elim (old_or_new s.root c ks t.root_allocated w) [
            | inl was ↦
                let old : paths s ks ≡ true = (leads_from_iff s s.root ks).1 was in rw old refl
            | inr (ls, v, names) ↦
                let same = Walk-injective s t p ls above v to_p in
                let new =
                  (path_beq_iff ks (above ++ name ∷ [])).1
                    (names ∙ ap (λ l. l ++ name ∷ []) same) in
                ground arith
          ]

      back :
          (paths s ks || path_beq ks (above ++ name ∷ [])) ≡ true
          → leads_from after s.root ks ≡ true
      back e = elim (Bool-cases (paths s ks)) [
        | inl old ↦
            let (c, w) = (leads_from_iff s s.root ks).0 old in
            (leads_from_iff after s.root ks).1
              (c, Walk-kept p name n s here absent t s.root c ks t.root_allocated w)
        | inr absent_path ↦
            let new = (path_beq_iff ks (above ++ name ∷ [])).0 (ground arith) in
            (leads_from_iff after s.root ks).1 (
              s.next_node,
              subst (λ l. Walk after s.root l s.next_node) (sym new) (new_path above to_p),
            )
      ]

  -- A child made under a free name adds its own path, and no other.
  pub paths-make_child :
      (above ks : List Text)
      → Walk s s.root above p
      → paths after ks ≡ (paths s ks || path_beq ks (above ++ name ∷ []))
  paths-make_child above ks to_p =
      ap (λ r. leads_from after r ks) (after-root p name n s here absent)
      ∙ same_test _ _ (leads-make_child above ks to_p)
