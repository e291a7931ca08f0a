-- ===== src/Examples/Visible.antt =====
-- A file that was added, seen through the handlers; a listing in pages; the log of a tree.
use webfs.Base.{
  ℕ, suc, ◌*◌, ◌^◌, ◌<◌, ◌≡◌, refl, inl, none, some, Option, List, [], ◌∷◌, ◌++◌, map, take, drop,
  arith, length, leb, if◌then◌else◌,
}
use webfs.Base.Maps.{load, store, nat_eq, text_eq}
use webfs.Base.Result.{ok}
use webfs.External.{Env, source_adapter}
use webfs.Pool.{AdapterPool, new_member, new_adapter_pool}
use webfs.Pool.Failover.{refs, members}
use webfs.Inode.{new_inode, add_hard_link}
use webfs.Inode.Reads.{IsServing}
use webfs.Paths.{codes, split, nonempty, path_split}
use webfs.Node.{get_child, make_child, del}
use webfs.Fs.{
  new_fs, enter, add_dir_node, add_file_node, source_adapters, new_dir_attr, new_default_attr,
}
use webfs.Fs.Files.{file_names}
use webfs.Session.{NodeContext, new_node_context}
use webfs.Session.Sound.{new_fs-IsSoundFs}
use webfs.Session.Ids.Complete.{new_fs-IsComplete}
use webfs.Session.Log.{LogTree, log_node_tree}
use webfs.Session.Log.Whole.{IsLog, log_node_tree-IsLog}
use webfs.Fuse
use webfs.Fuse.{FuseRaw, DirEntry, new_fuse_raw, status_ok, open_file}
use webfs.Fuse.Invariant.{IsSound}
use webfs.Fuse.Resolve.{Resolved, resolve, resolve-Resolved}
use webfs.Fuse.ReadDir.{entry_of}
use webfs.Fuse.ReadDir.Pages.{Buffer}
use webfs.Fuse.ReadDir.Pages.Reader.{read_pages, read_pages_lem, read_pages_repeats}
use webfs.System.Safety.{new_fuse_raw-IsSound}
use webfs.System.Visible.{IsOpen, added_file_served}
use webfs.Examples.Server.{server, served_file}
use webfs.Http.Served.{http_env, http-KeepsBuffer}
use webfs.Examples.Https.{client, source, http_calm, http_works, All-http-Serves}
use webfs.Examples.Running.{values, values-RangesOver}
use webfs.Examples.Trees.{start, a_txt, with_docs, with_docs-IsTree}

abbrev opened : FuseRaw
opened = new_fuse_raw start

opened-IsSound : IsSound opened
opened-IsSound = new_fuse_raw-IsSound start (new_fs-IsSoundFs server 0)

opened-IsOpen : IsOpen opened
unfolding new_fuse_raw new_fs load
opened-IsOpen = record {
  sound = opened-IsSound;
  complete = new_fs-IsComplete server 0;
  root = refl;
}

-- The listing of the root, twice, and of docs, in a buffer of two entries
abbrev add_two : DirEntry → List DirEntry → Option (List DirEntry)
add_two e out = if leb 2 (length out) then none else some (out ++ e ∷ [])

add_two-some : (e : DirEntry) (o o' : List DirEntry) → add_two e o ≡ some o' → o' ≡ o ++ e ∷ []
add_two-some e o o' h = ground arith

add_two_room : (e : DirEntry) → (o : List DirEntry) × (add_two e [] ≡ some o)
add_two_room e = (e ∷ [], ground arith)

abbrev two_entries : Buffer (List DirEntry)
two_entries = record {
  add = add_two;
  empty = [];
  entries = λ out. out;
  entries-empty = refl;
  added = add_two-some;
  room = add_two_room;
}

abbrev listing : FuseRaw
listing = record (new_fuse_raw with_docs) { open_dirs = (2, map some (1 ∷ 0 ∷ 1 ∷ [])) ∷ [] }

read_pages_lem_example :
    read_pages two_entries 4 1 2 0 listing ≡ some (map (entry_of with_docs) (1 ∷ 0 ∷ 1 ∷ []))
unfolding new_fuse_raw load add_dir_node split enter new_fs make_child store
read_pages_lem_example =
    read_pages_lem two_entries 4 1 2 (1 ∷ 0 ∷ 1 ∷ []) listing (refl, (refl, (refl, tt)))
      (record { node = 0; found = refl; opened = refl; same_nodes = refl; same_inodes = refl })
      (omega arith)

-- The node docs is deleted while the root is listed three times after it.
abbrev gone_first : FuseRaw
gone_first = record (new_fuse_raw (del 1 with_docs)) {
  open_dirs = (2, map some (1 ∷ 0 ∷ 0 ∷ 0 ∷ [])) ∷ [];
}

read_pages_repeats_example :
    let all = map (entry_of gone_first.fs) (0 ∷ 0 ∷ 0 ∷ []) in
    (n : ℕ) × (n < length all)
    × (read_pages two_entries 5 1 2 0 gone_first ≡ some (take (suc n) all ++ drop n all))
unfolding new_fuse_raw load add_dir_node split enter new_fs make_child store del
read_pages_repeats_example =
    read_pages_repeats two_entries 5 1 2 1 0 (0 ∷ 0 ∷ []) gone_first refl (refl, (refl, (refl, tt)))
      (record { node = 0; found = refl; opened = refl; same_nodes = refl; same_inodes = refl })
      (omega arith)

abbrev root_context : NodeContext
root_context = (new_node_context 0 with_docs).0

log_node_tree-IsLog_example :
    (t : LogTree) × IsLog values 2 2 with_docs 0 t
    × (log_node_tree values 2 2 root_context with_docs ≡ (some t, with_docs))
unfolding new_node_context add_dir_node split enter new_fs make_child load
log_node_tree-IsLog_example =
    log_node_tree-IsLog values 2 2 root_context with_docs values-RangesOver with_docs-IsTree
      (omega arith) (omega arith) (omega arith)

resolve-Resolved_example :
    Resolved opened 0 (codes "docs" ∷ []) (resolve (codes "docs" ∷ []) 1 opened)
unfolding new_fuse_raw new_fs load
resolve-Resolved_example =
    resolve-Resolved (codes "docs" ∷ []) 1 0 opened opened-IsSound (new_fs-IsComplete server 0)
      (omega arith) refl

abbrev http : Env
http = http_env server client source

-- The file docs/a.txt, whose one adapter is an HTTP adapter that serves the file
abbrev with_a : FuseRaw
with_a = record opened { fs = (add_file_node http a_txt start 1).1 }

-- The pool of the new file: its first source has no adapter.
abbrev one_member : AdapterPool
one_member = record { primary = new_member 7; backups = []; retry_delay = 30 * 10 ^ 9 }

new_file-IsServing : IsServing http served_file (with_a.fs.inodes (with_a.fs.nodes 2).inode)
unfolding new_fuse_raw add_file_node add_dir_node split nonempty path_split enter new_fs make_child
    get_child load store new_dir_attr new_inode add_hard_link new_default_attr source_adapters
    source_adapter new_adapter_pool
new_file-IsServing = record {
  coherent = tt;
  serving = λ pool e. All-http-Serves (refs (members pool));
}

added_file_served_example :
    let (id, r1) = resolve (file_names (codes "docs/a.txt")) 1 with_a in
    (j : ℕ) × (id ≡ some j)
    × (let (_, fh, r2) = open_file j r1 in
        (h : ℕ) × (fh ≡ some h)
        × ((Fuse.read http h 1 3 r2 9).0 ≡ ok (status_ok, 20 ∷ 30 ∷ 40 ∷ [])))
unfolding new_fuse_raw add_file_node add_dir_node split nonempty path_split enter new_fs make_child
    get_child load store new_dir_attr new_inode add_hard_link new_default_attr source_adapters
    source_adapter new_adapter_pool
added_file_served_example =
    added_file_served http a_txt opened 1 opened-IsOpen (omega arith) 2 refl served_file
      (http-KeepsBuffer server client source) 1 3 (omega arith) (omega arith) http_calm 7
      (http_works 7) one_member 9 refl new_file-IsServing (inl (refl, refl))
