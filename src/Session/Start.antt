-- ===== src/Session/Start.antt =====
-- NewFS: the state that every file system starts from.
use webfs.Base.{◌≡◌, refl, some, arith}
use webfs.Base.Maps.{load, nat_eq, text_eq}
use webfs.External.{Env}
use webfs.Inode.{new_inode, add_hard_link}
use webfs.Node.Tree.{IsTree}
use webfs.Fs.{new_fs, new_default_attr}
use webfs.Session.Ids.{IsRegistry}

-- NewFS makes a tree and a sound registry, in which number 1 is the root's.
pub new_fs_sound :
    (env : Env) (w : env.World)
    → let s = (new_fs env w).0 in IsTree s × IsRegistry s × (load 1 s.node_registry ≡ some s.root)
unfolding new_fs load new_default_attr new_inode add_hard_link
new_fs_sound env w = (
  record {
    root_allocated = omega arith;
    root_parent = refl;
    root_ino = refl;
    inode_allocated = λ p h. omega arith;
    parents = λ p q h e. absurd (cc e);
    entries = λ p name c h e. absurd (cc e);
  },
  record {
    carried = λ id p e. ground arith;
    bounded = λ p h. omega arith;
    unique = λ p q hp hq e ne. omega arith;
    nonzero = λ p e. cc e;
    allocated = λ id p e. ground arith;
  },
  refl,
)
