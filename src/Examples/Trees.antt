-- ===== src/Examples/Trees.antt =====
-- A new file system, with the directory docs and the file docs/a.txt.
use webfs.Base.{ℕ, ◌≡◌, refl, none, some, List, [], ◌∷◌, arith, true, ◌&&◌, nat_beq, if◌then◌else◌}
use webfs.Base.Int.{pos}
use webfs.Base.Maps.{Text, text_beq, load, store, nat_eq, text_eq}
use webfs.Base.Result.{ok, err, file_exists, detached_node}
use webfs.External.{FileSource, source_adapter}
use webfs.Inode.{new_inode, add_hard_link}
use webfs.Paths.{codes, names, split, nonempty, path_split}
use webfs.Node.{FileSystem, path, make_child, get_child, remove_child}
use webfs.Node.Removal.{remove_child-IsTree}
use webfs.Node.Tree.{IsTree}
use webfs.Node.Walks.{Walk, path-Walk}
use webfs.Fs.{
  NodeRequest, FileCreateRequest, new_fs, enter, add_dir_node, add_file_node, source_adapters,
  new_dir_attr, new_default_attr,
}
use webfs.Fs.Dirs.{Arrived, add_dir_node-Arrived, add_dir_node_existing}
use webfs.Fs.Files.{Added, file_names, add_file_node-Added, add_file_node_exists}
use webfs.Fs.Contents.{NewFile, add_file_node-IsNewFile}
use webfs.Session.Start.{new_fs_sound}
use webfs.Examples.Server.{server}

abbrev pub start : FileSystem
start = (new_fs server 0).0

abbrev pub request : Text → NodeRequest
request path = record {
  path = path;
  kind = codes "dir";
  uuid = codes "u";
  size = 0;
  atime = 1;
  mtime = 2;
  ctime = 3;
  perms = 0o555;
  owner_uid = 1000;
  owner_gid = 1000;
  blksize = 4096;
}

abbrev pub docs : NodeRequest
docs = request (codes "/docs/")

abbrev sources : List FileSource
sources =
    record { provider = 0; config = []; priority = pos 1 }
    ∷ record { provider = 7; config = []; priority = pos 2 }
    ∷ []

abbrev pub a_txt : FileCreateRequest
a_txt = record { node = request (codes "docs/a.txt"); sources = sources }

abbrev pub with_docs : FileSystem
with_docs = (add_dir_node server docs start 1).1

abbrev with_file : FileSystem
with_file = (add_file_node server a_txt start 1).1

pub start-IsTree : IsTree start
start-IsTree = (new_fs_sound server 0).0

add_dir_node-Arrived_example :
    Arrived ℕ start start.root (names (codes "/docs/")) (add_dir_node server docs start 1)
add_dir_node-Arrived_example = add_dir_node-Arrived server docs start 1 start-IsTree

pub with_docs-IsTree : IsTree with_docs
with_docs-IsTree = (add_dir_node-Arrived server docs start 1 start-IsTree).tree

docs-Walk : Walk with_docs with_docs.root (names (codes "/docs/")) 1
unfolding nonempty split load add_dir_node enter new_fs make_child store
docs-Walk = (1, refl, refl)

path-Walk_example : path 2 with_docs 1 ≡ some (codes "docs", none)
unfolding nonempty split
path-Walk_example =
    path-Walk 2 with_docs 1 (names (codes "/docs/")) with_docs-IsTree docs-Walk (λ rest e. cc e)
      (omega arith)

add_dir_node_existing_example : add_dir_node server docs with_docs 5 ≡ (ok 1, with_docs, 5)
add_dir_node_existing_example = add_dir_node_existing server docs 1 with_docs 5 docs-Walk

add_file_node-Added_example :
    Added ℕ start start.root (file_names (codes "docs/a.txt")) (add_file_node server a_txt start 1)
add_file_node-Added_example = add_file_node-Added server a_txt start 1 start-IsTree

file-Walk : Walk with_file with_file.root (file_names (codes "docs/a.txt")) 2
unfolding nonempty split path_split load add_file_node add_dir_node enter new_fs make_child
    get_child source_adapters source_adapter store
file-Walk = (1, refl, (2, refl, refl))

add_file_node_exists_example :
    add_file_node server a_txt with_file 9 ≡ (err (file_exists (codes "docs/a.txt")), with_file, 9)
add_file_node_exists_example = add_file_node_exists server a_txt 2 with_file 9 file-Walk

add_file_node-IsNewFile_example :
    NewFile server a_txt.sources (add_file_node server a_txt start 1) 2
unfolding add_file_node add_dir_node split nonempty path_split enter new_fs make_child get_child
    load store source_adapters source_adapter
add_file_node-IsNewFile_example = add_file_node-IsNewFile server a_txt start 1 2 start-IsTree refl

remove_child-IsTree_example :
    let (found, s) = remove_child 0 (codes "docs") with_docs in
    (found ≡ true)
    × IsTree s
    × ((q : ℕ) (k : Text)
        → get_child s q k
          ≡ (if nat_beq 0 q && text_beq (codes "docs") k then none else get_child with_docs q k))
    × (path 1 s 1 ≡ some (codes "docs", some (detached_node (codes "docs"))))
unfolding load add_dir_node split enter new_fs make_child store new_dir_attr new_inode add_hard_link
    new_default_attr
remove_child-IsTree_example =
    remove_child-IsTree 0 1 (codes "docs") with_docs with_docs-IsTree (omega arith) refl 0
      (λ e. omega (arith, e))
