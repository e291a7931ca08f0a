-- ===== src/Examples/Handlers.antt =====
-- The registry, the locks and the handlers on small states.
use webfs.Base.{
  ◌≡◌, refl, inl, inr, none, some, Option, List, [], ◌∷◌, ◌++◌, length, leb, nat_beq, if◌then◌else◌,
  arith,
}
use webfs.Base.Maps.{load, store, nat_eq, text_eq}
use webfs.Paths.{codes, split}
use webfs.Base.Result.{ok}
use webfs.Pool.Failover.{refs, members}
use webfs.Fuse
use webfs.Fuse.{FuseRaw, status_ok, eio, forget}
use webfs.Fuse.Reads.{read_file}
use webfs.Http.Served.{http_env, http-KeepsBuffer}
use webfs.Examples.Server.{served_file}
use webfs.Examples.Https.{client, source, http_calm, http_works, All-http-Serves}
use webfs.Examples.Reads.{two_members, two_sources}
use webfs.Node.{FileSystem, fresh_node, get_child, make_child}
use webfs.Fs.{add_dir_node, enter, new_fs}
use webfs.Session.{
  NodeContext, get_child_ctx, get_node_ctx, ctx_node_id, forget_node_id, ensure_node_id,
}
use webfs.Session.Ids.{IsRegistry}
use webfs.Session.Forget.{forget_then_lookup}
use webfs.Fuse.{DirEntry, new_fuse_raw}
use webfs.Examples.Server.{server}
use webfs.Examples.Trees.{start, with_docs}

-- The root and one node that has no number yet.
abbrev pub two_nodes : FileSystem
two_nodes = record start {
  nodes = λ p. record (fresh_node [] 0) { node_id = if nat_beq p 0 then 1 else 0 };
  next_node = 2;
  last_node_id = 1;
  node_registry = (1, 0) ∷ [];
}

pub two_nodes-IsRegistry : IsRegistry two_nodes
unfolding load
two_nodes-IsRegistry = record {
  carried = λ id p e. ground arith;
  bounded = λ p h. ground arith;
  unique = λ p q hp hq e ne. ground arith;
  nonzero = λ p e. cc e;
  allocated = λ id p e. ground arith;
}

-- The directory docs has been looked up, and carries number 2.
abbrev numbered : FileSystem
numbered = (ensure_node_id 1 with_docs).1

forget_then_lookup_example :
    let later = get_child_ctx 1 (codes "docs") (forget_node_id 2 numbered) in
    (ctx : NodeContext) × (later.0 ≡ some ctx)
    × (ctx.node ≡ 1)
    × (ctx_node_id ctx later.1 ≡ 2)
    × ((get_node_ctx 2 later.1).0 ≡ none)
unfolding load store ensure_node_id add_dir_node split enter new_fs make_child get_child
forget_then_lookup_example =
    forget_then_lookup 1 0 1 2 (codes "docs") numbered (λ e. omega (arith, e)) refl refl refl
      (λ e. omega (arith, e))

-- A buffer for two entries.
abbrev add_two : DirEntry → List DirEntry → Option (List DirEntry)
add_two e out = if leb 2 (length out) then none else some (out ++ e ∷ [])

-- The file system with one file, opened under handle 2.
abbrev opened_file : FuseRaw
opened_file = record (new_fuse_raw (record start { inodes = λ i. two_sources })) {
  open_files = (2, 1) ∷ [];
}

read_file_example :
    (Fuse.read (http_env server client source) 2 1 3 opened_file 0).0
    ≡ ok (status_ok, 20 ∷ 30 ∷ 40 ∷ [])
unfolding new_fuse_raw load new_fs
read_file_example =
    read_file (http_env server client source) served_file (http-KeepsBuffer server client source) 1
      3 (omega arith) (omega arith) http_calm 7 (http_works 7) 2 1 0 two_members opened_file 0 refl
      refl refl
      (record { coherent = tt; serving = λ pool e. All-http-Serves (refs (members pool)) })
      (inr (inl (refl, refl)))
