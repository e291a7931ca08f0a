-- ===== src/Examples/Running.antt =====
-- A running file system: directories are added, looked up and opened, in some order.
use webfs.Base.{
  ℕ, ◌+◌, ◌<◌, ◌^◌, ◌≡◌, refl, Option, none, some, List, [], ◌∷◌, All, arith, nat_beq,
  if◌then◌else◌,
}
use webfs.Base.Maps.{Map, Text, load, nat_eq, text_eq}
use webfs.Paths.{codes, split}
use webfs.Inode.Attributes.{SetsTimes}
use webfs.Node.{make_child}
use webfs.Fs.{new_fs, enter, add_dir_node}
use webfs.Session.Ids.{IsRegistry}
use webfs.Session.Race.{begin, advance, Race, Raced, begun, moved, move}
use webfs.Session.Race.Agreement.{IsSettled, Raced-IsSettled}
use webfs.Fuse.{FuseRaw, new_fuse_raw, lookup, open_file, open_dir}
use webfs.Fuse.Invariant.{IsSound}
use webfs.System.{Reachable, started, stepped, add_dir_step, lookup_step}
use webfs.System.Safety.{RangesOver, Reachable-IsSound, Reachable-fresh_handle}
use webfs.Command.{NodeRequests}
use webfs.Examples.Server.{server}
use webfs.Examples.Trees.{start, with_docs, a_txt, docs}
use webfs.Examples.Handlers.{two_nodes, two_nodes-IsRegistry}

pub server-SetsTimes : SetsTimes server
server-SetsTimes atime none ctime attr = refl
server-SetsTimes atime (some t) ctime attr = refl

-- The values of a map, in the order of its entries
abbrev pub put : Option ℕ → List ℕ → List ℕ
put none l = l
put (some d) l = d ∷ l

abbrev pub values_of : Map Text ℕ → Map Text ℕ → List ℕ
values_of whole [] = []
values_of whole ((k, c) ∷ rest) = put (load k whole) (values_of whole rest)

abbrev pub values : Map Text ℕ → List ℕ
values m = values_of m m

put-All :
    (whole : Map Text ℕ) (k : Text) (o : Option ℕ) (l : List ℕ)
    → load k whole ≡ o
    → All (λ c. (name : Text) × (load name whole ≡ some c)) l
    → All (λ c. (name : Text) × (load name whole ≡ some c)) (put o l)
put-All whole k none l e h = h
put-All whole k (some d) l e h = ((k, e), h)

values_of-All :
    (whole l : Map Text ℕ)
    → All (λ c. (name : Text) × (load name whole ≡ some c)) (values_of whole l)
values_of-All whole [] = tt
values_of-All whole ((k, c) ∷ rest) =
    put-All whole k (load k whole) (values_of whole rest) refl (values_of-All whole rest)

pub values-RangesOver : RangesOver values
values-RangesOver m = values_of-All m m

abbrev added : FuseRaw
added = record (new_fuse_raw start) { fs = with_docs }

abbrev looked_up : FuseRaw
looked_up = (lookup 1 (codes "docs") added).2

looked_up-Reachable : Reachable server values looked_up 2
unfolding new_fuse_raw add_dir_node enter split new_fs load make_child
looked_up-Reachable =
    stepped (stepped (started 0) (add_dir_step docs)) (lookup_step 1 (codes "docs") (omega arith))

Reachable-IsSound_example : IsSound looked_up
Reachable-IsSound_example = Reachable-IsSound server-SetsTimes values-RangesOver looked_up-Reachable

Reachable-fresh_handle_example :
    ((open_file 1 looked_up).1 ≡ some 2
      → looked_up.next_file_fh + 1 < 2 ^ 64
      → load 2 looked_up.open_files ≡ none)
    × ((open_dir values 1 looked_up).1 ≡ some 2
        → looked_up.next_dir_fh + 1 < 2 ^ 64
        → load 2 looked_up.open_dirs ≡ none)
Reachable-fresh_handle_example =
    Reachable-fresh_handle server-SetsTimes values-RangesOver looked_up-Reachable 1 2

-- Two callers for one node take numbers, the second wins the compare-and-swap, the first loses it;
-- a third caller is for the root.
abbrev targets : ℕ → ℕ
targets i = if nat_beq i 2 then 0 else 1

abbrev started_race : Race
started_race = record { fs = two_nodes; callers = λ i. begin }

abbrev won : Race
won = move targets 1 (move targets 1 (move targets 0 (move targets 0 started_race)))

abbrev settled : Race
settled = move targets 0 (move targets 0 (move targets 2 (move targets 1 (move targets 1 won))))

settled-Raced : Raced targets two_nodes settled
unfolding advance
settled-Raced =
    moved 0
      (moved 0
        (moved 2
          (moved 1
            (moved 1
              (moved 1 (moved 1 (moved 0 (moved 0 begun (omega arith)) (omega arith)) (omega arith))
                (omega arith))
              (omega arith))
            (omega arith))
          (omega arith))
        (omega arith))
      (omega arith)

targets_allocated : (i : ℕ) → targets i < two_nodes.next_node
targets_allocated i = ground arith

Raced-IsSettled_example : IsRegistry settled.fs × IsSettled targets two_nodes settled 0 3
unfolding advance
Raced-IsSettled_example =
    Raced-IsSettled two_nodes-IsRegistry targets_allocated settled-Raced 0 3 refl

abbrev both : NodeRequests
both = record { files = a_txt ∷ []; dirs = docs ∷ [] }
