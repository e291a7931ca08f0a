-- ===== src/Command/Order.antt =====
-- The order of the directory requests that cmd/wfs/main.go collects from the nodes file.
use mathlib.Core.List.{Perm, Permᴰ, append-nil}
use mathlib.Core.Logic.{∥∥₁_elim}
use mathlib.Core.Bool.{Bool-set}
use webfs.Base.{◌≡◌, refl, sym, ap, fun_ext, ◌∙◌, false, ◌||◌, List, [], ◌∷◌, ◌++◌, map, arith}
use webfs.External.{Env}
use webfs.Paths.{names}
use webfs.Node.{FileSystem}
use webfs.Node.Tree.{IsTree}
use webfs.Node.PathSet.{PathSet, paths, is_prefix, mkdir_p}
use webfs.Fs.{NodeRequest}
use webfs.Base.Maps.{Text}
use webfs.Base.Result.{Result}
use webfs.Command.{Added, NodeRequests, add_requests}
use webfs.Command.Effect.{mkdir_all, FileRun, add_requests-HasEffect}

-- The path is a prefix of one of the requests' paths.
abbrev is_made : List NodeRequest → PathSet
is_made [] ks = false
is_made (req ∷ rest) ks = is_prefix ks (names req.path) || is_made rest ks

is_made-Perm : (ks : List Text) {a b : List NodeRequest} → Permᴰ a b → is_made a ks ≡ is_made b ks
is_made-Perm ks Permᴰ.nil = refl
is_made-Perm ks (Permᴰ.cons {a = req} {l₂ = l} e p) =
    ap (λ b. is_prefix ks (names req.path) || b) (is_made-Perm ks p)
    ∙ ap (λ r. is_prefix ks (names r.path) || is_made l ks) e
is_made-Perm ks (Permᴰ.swap {a = x} {b = y} {a' = z} {l = l} e f) =
    let other : is_made (x ∷ y ∷ l) ks ≡ is_made (y ∷ x ∷ l) ks = ground arith in
    other ∙ ap (λ r. is_made (r ∷ x ∷ l) ks) f ∙ ap (λ r. is_made (z ∷ r ∷ l) ks) e
is_made-Perm ks (Permᴰ.trans p q) = is_made-Perm ks p ∙ is_made-Perm ks q

mkdir_all-is_made :
    (dirs : List NodeRequest) (t : PathSet) (ks : List Text)
    → mkdir_all (map (λ req. names req.path) dirs) t ks ≡ (t ks || is_made dirs ks)
mkdir_all-is_made [] t ks = ground arith
mkdir_all-is_made (req ∷ dirs) t ks =
    ground (arith, mkdir_all-is_made dirs (mkdir_p (names req.path) t) ks)

no_files :
    (env : Env) (n : Added) (r : Result Added) (made : List (List Text))
    → FileRun n [] r made
    → made ≡ []
no_files env n r made (FileRun.finished m) = refl

module _ (env : Env) where
  open env use {World}

  abbrev pub only_dirs : List NodeRequest → NodeRequests
  only_dirs dirs = record { dirs = dirs; files = [] }

  paths-only_dirs :
      (dirs : List NodeRequest) (s : FileSystem) (w : World) (ks : List Text)
      → IsTree s
      → paths (add_requests env (only_dirs dirs) s w).1 ks ≡ (paths s ks || is_made dirs ks)
  paths-only_dirs dirs s w ks t =
      let h = add_requests-HasEffect env (only_dirs dirs) s w t in
      let e = no_files env _ _ h.made h.run in
      ap (λ (f : PathSet). f ks) h.effect
      ∙ ap (λ l. mkdir_all l (paths s) ks)
          (ap (λ l. map (λ (req : NodeRequest). names req.path) dirs ++ l) e ∙ append-nil _)
      ∙ mkdir_all-is_made dirs (paths s) ks

  -- On a tree, the order in which directory requests are added, and what the clock says, do not
  -- matter for the set of paths that exist afterwards.
  pub paths-Perm :
      (a b : List NodeRequest) (s : FileSystem) (w w' : World)
      → IsTree s
      → Perm a b
      → paths (add_requests env (only_dirs a) s w).1 ≡ paths (add_requests env (only_dirs b) s w').1
  paths-Perm a b s w w' t p = fun_ext λ ks.
      paths-only_dirs a s w ks t
      ∙ ap (λ c. paths s ks || c) (∥∥₁_elim p (Bool-set _ _) (is_made-Perm ks))
      ∙ sym (paths-only_dirs b s w' ks t)
