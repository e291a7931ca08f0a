-- ===== src/Paths.antt =====
-- Go's path functions as filesystem/fs.go uses them, on the bytes of a path: strings.Split at "/",
-- path.Split, and the names that AddDirNode's loop does not skip.
pub mod Laws
use Prim.Native.Char.{code}
use Prim.Native.String.{String}
use webfs.Base.{ℕ, List, [], ◌∷◌, ◌++◌, nat_beq, if◌then◌else◌}
use webfs.Base.Maps.{Text}

-- The code points of a literal.
abbrev pub codes : String → Text
codes String.[] = []
codes (String.◌∷◌ c s) = code c ∷ codes s

abbrev pub slash : ℕ
slash = b'/'

cons_head : ℕ → List Text → List Text
cons_head c [] = (c ∷ []) ∷ []
cons_head c (t ∷ ts) = (c ∷ t) ∷ ts

-- strings.Split(path, "/")
unfoldable pub split : Text → List Text
unfolding cons_head
split [] = [] ∷ []
split (c ∷ s) = let rest = split s in if nat_beq c slash then [] ∷ rest else cons_head c rest

prepend : ℕ → Text × Text → Text × Text
prepend c ([], file) = if nat_beq c slash then (c ∷ [], file) else ([], c ∷ file)
prepend c (d ∷ dir, file) = (c ∷ d ∷ dir, file)

-- path.Split: the directory with its final slash, and the file
unfoldable pub path_split : Text → Text × Text
unfolding prepend
path_split [] = ([], [])
path_split (c ∷ s) = prepend c (path_split s)

-- The loop of AddDirNode skips empty names.
unfoldable pub nonempty : List Text → List Text
nonempty [] = []
nonempty ([] ∷ ts) = nonempty ts
nonempty ((c ∷ t) ∷ ts) = (c ∷ t) ∷ nonempty ts

abbrev pub names : Text → List Text
names path = nonempty (split path)

-- What Node.Path puts together from an ancestor's path and a name.
unfoldable pub child_path : Text → Text → Text
child_path [] name = name
child_path (c ∷ parent) name = (c ∷ parent) ++ slash ∷ name

-- The path that the names below an ancestor make.
unfoldable pub join_from : Text → List Text → Text
join_from parent [] = parent
join_from parent (t ∷ ts) = join_from (child_path parent t) ts
