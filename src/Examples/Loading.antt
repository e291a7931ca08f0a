-- ===== src/Examples/Loading.antt =====
-- Requests on a new file system: the paths, the inode numbers, and a name that is used again.
use webfs.Base.{ℕ, ◌≡◌, refl, some, [], ◌∷◌, arith, ◌&&◌, nat_beq, if◌then◌else◌}
use mathlib.Core.List.Perm
use webfs.Base.Maps.{Text, text_beq, load, store, delete, text_eq}
use webfs.Base.Result.{deleted_node}
use webfs.Inode.{new_inode, add_hard_link, clear_cache}
use webfs.Paths.{codes, names, path_split, split, nonempty}
use webfs.Node.{FileSystem, path, get_child, add_child, remove_child, make_child}
use webfs.Node.Tree.{IsTree}
use webfs.Node.PathSet.{paths}
use webfs.Node.Removal.{remove_child-IsTree}
use webfs.Node.Replacement.{add_child_replacing}
use webfs.Fs.{
  NodeRequest, new_fs, new_dir_attr, new_default_attr, enter, add_dir_node, add_file_node,
}
use webfs.Fs.Dirs.{add_dir_node-Arrived}
use webfs.Fs.Mkdir.{entry_effect, paths-add_file_node}
use webfs.Fs.Inos.{GivesInos, new_fs-HasInos}
use webfs.Command.{NodeRequests, add_requests}
use webfs.Command.Order.{only_dirs, paths-Perm}
use webfs.Command.Numbers.{depths, add_requests-GivesInos}
use webfs.Examples.Server.{server}
use webfs.Examples.Running.{server-SetsTimes}
use webfs.Examples.Trees.{start, request, docs, a_txt, with_docs, start-IsTree, with_docs-IsTree}

paths-add_file_node_example :
    let out = add_file_node server a_txt start 1 in
    paths out.1 ≡ entry_effect out.0 (names (codes "docs")) (codes "a.txt") (paths start)
unfolding path_split split nonempty
paths-add_file_node_example = paths-add_file_node server a_txt start 1 start-IsTree

abbrev both : NodeRequests
both = record { files = a_txt ∷ []; dirs = docs ∷ [] }

abbrev media : NodeRequest
media = request (codes "media/2024")

paths-Perm_example :
    paths (add_requests server (only_dirs server (docs ∷ media ∷ [])) start 1).1
    ≡ paths (add_requests server (only_dirs server (media ∷ docs ∷ [])) start 8).1
paths-Perm_example =
    paths-Perm server (docs ∷ media ∷ []) (media ∷ docs ∷ []) start 1 8 start-IsTree
      (Perm.swap media docs [])

add_requests-GivesInos_example :
    GivesInos (depths (docs ∷ []) (a_txt ∷ [])) start (add_requests server both start 1).1
unfolding new_fs path_split split nonempty
add_requests-GivesInos_example =
    add_requests-GivesInos server server-SetsTimes both start 1 start-IsTree (omega arith)
      (new_fs-HasInos server 0)

-- docs is taken out of the root, made again as another node, and then the first one is put back.
abbrev without_docs : FileSystem
without_docs = (remove_child 0 (codes "docs") with_docs).1

abbrev docs_again : FileSystem
docs_again = (add_dir_node server docs without_docs 5).1

without_docs-IsTree : IsTree without_docs
unfolding load add_dir_node split enter new_fs make_child store new_dir_attr new_inode add_hard_link
    new_default_attr
without_docs-IsTree =
    (remove_child-IsTree 0 1 (codes "docs") with_docs with_docs-IsTree (omega arith) refl 0
      (λ e. omega (arith, e))).1

docs_again-IsTree : IsTree docs_again
docs_again-IsTree = (add_dir_node-Arrived server docs without_docs 5 without_docs-IsTree).tree

add_child_replacing_example :
    let s = add_child 0 1 docs_again in
    IsTree s
    × ((q : ℕ) (k : Text)
        → get_child s q k
          ≡ (if nat_beq 0 q && text_beq (codes "docs") k then some 1 else get_child docs_again q k))
    × (s.inodes (docs_again.nodes 2).inode
        ≡ clear_cache (docs_again.inodes (docs_again.nodes 2).inode))
    × (path 1 s 2 ≡ some ([], some (deleted_node (codes "docs"))))
unfolding load add_dir_node split enter new_fs make_child store delete remove_child new_dir_attr
    new_inode add_hard_link new_default_attr
add_child_replacing_example =
    add_child_replacing 0 1 2 docs_again docs_again-IsTree (omega arith) (omega arith) (omega arith)
      refl refl refl 0 (λ e. omega (arith, e)) (λ e. omega (arith, e))
