-- ===== src/Examples/Mounted.antt =====
-- A run of the command with a FUSE library that always mounts.
use mathlib.Core.Option.{some-injective}
use webfs.Base.{ℕ, ◌+◌, ◌≡◌, refl, subst, some, [], ◌∷◌, true}
use webfs.Base.Int.{pos}
use webfs.Base.Result.{ok}
use webfs.Paths.{codes}
use webfs.Fuse.{FuseRaw, release}
use webfs.Server.{FuseLibrary}
use webfs.System.{Steps, no_step, one_more, release_step}
use webfs.Command.Main.{Flags, Outside, main}
use webfs.Command.Main.Course.{EndsWell, main-EndsWell}
use webfs.Command.Main.Unmounting.{Unmounts, main-Unmounts}
use webfs.Examples.Server.{server}
use webfs.Examples.Https.{dir_decoder}
use webfs.Examples.Running.{server-SetsTimes, values, values-RangesOver}

abbrev mounting : FuseLibrary ℕ
mounting = record {
  new_server = λ raw path options w. (ok 1, w + 1);
  wait_mount = λ srv w. (ok tt, w + 1);
  unmount = λ srv w. (ok tt, w + 1);
}

-- Before the signal one handle is released.
abbrev outside : Outside ℕ
outside = record {
  library = mounting;
  fusermount = λ path w. w + 1;
  read_file = λ path. ok path;
  raw_nodes = λ text. text ∷ [];
  await_signal = λ r w. (some (release 2 r), w);
}

released :
    (r raw : FuseRaw) (w : ℕ)
    → (outside.await_signal r w).0 ≡ some raw
    → Steps server values r w raw (outside.await_signal r w).1
released r raw w e =
    subst (λ x. Steps server values r w x w) (some-injective (release 2 r) raw e)
      (one_more no_step (release_step 2))

-- What stands for the number 1.0
abbrev one : ℕ
one = 1

abbrev flags : Flags
flags = record {
  verbose = pos 5;
  nodes = codes "nodes.json";
  umount = true;
  mount_point = codes "/mnt";
}

main-EndsWell_example :
    EndsWell outside (codes "/mnt") (main one server dir_decoder outside 3 flags 0)
main-EndsWell_example =
    main-EndsWell one server dir_decoder outside 3 values server-SetsTimes values-RangesOver
      released flags 0

abbrev without_nodes : Flags
without_nodes = record flags { nodes = [] }

main-Unmounts_example :
    Unmounts one server dir_decoder outside 3 1
      (main one server dir_decoder outside 3 without_nodes 0)
main-Unmounts_example =
    main-Unmounts one server dir_decoder outside 3 1 (λ raw path options w. refl) (λ w. refl)
      (λ r w. (release 2 r, refl)) (λ w. refl) without_nodes b'/' (codes "mnt") 0 refl refl
