-- ===== src/Session/Race.antt =====
-- filesystem/fs.go, EnsureNodeID, called by any number of goroutines at the same time, each for a
-- node of its own or the same as another's: `target i` is the node of caller i. A step of a caller is one atomic operation: the load of the node's number, the addition to the
-- counter, the compare-and-swap, the store into the registry, and the last load.
mod Invariant
pub mod Agreement
use webfs.Base.{ℕ, suc, zero, ◌+◌, ◌<◌, ◌^◌, Bool, nat_beq, if◌then◌else◌}
use webfs.Base.Maps.{load, store, nat_eq}
use webfs.Node.{Node, FileSystem, update, set_node}
use webfs.Fs.{add_one64}

-- What a caller does next; `compare` and `register` hold newID, `returned` what it returned.
pub data Caller : Type 0 where
  begin allocate reload : Caller
  compare register returned : ℕ → Caller

-- The next atomic operation of a caller of EnsureNodeID for the node p
unfoldable pub advance : ℕ → FileSystem → Caller → FileSystem × Caller
advance p s begin =
    let id = (s.nodes p).node_id in if nat_beq id 0 then (s, allocate) else (s, returned id)
advance p s allocate =
    let id = add_one64 s.last_node_id in (record s { last_node_id = id }, compare id)
advance p s (compare id) =
    if nat_beq (s.nodes p).node_id 0
    then (set_node p (record (s.nodes p) { node_id = id }) s, register id)
    else (s, reload)
advance p s (register id) = (record s { node_registry = store id p s.node_registry }, returned id)
advance p s reload = (s, returned (s.nodes p).node_id)
advance p s (returned id) = (s, returned id)

-- The callers are numbered; those that never move have not called yet.
pub record Race : Type 0 where
  pub fs : FileSystem
  pub callers : ℕ → Caller

abbrev pub move : (ℕ → ℕ) → ℕ → Race → Race
move target i r =
    let (s, c) = advance (target i) r.fs (r.callers i) in
    record { fs = s; callers = update r.callers i c }

-- Any caller moves next; the counter of NodeIDs does not wrap.
pub data Raced (target : ℕ → ℕ) (s : FileSystem) : Race → Type 0 where
  begun : Raced target s (record { fs = s; callers = λ i. begin })
  moved :
      (i : ℕ) {r : Race}
      → Raced target s r
      → r.fs.last_node_id + 1 < 2 ^ 64
      → Raced target s (move target i r)

-- A caller that is alone takes at most four steps.
unfoldable pub alone : ℕ → ℕ → FileSystem → Caller → FileSystem × Caller
unfolding advance
alone zero p s c = (s, c)
alone (suc n) p s c = let (s', c') = advance p s c in alone n p s' c'
