-- ===== src/Node.antt =====
-- filesystem/node.go: nodes, on an explicit store. A *Node is an address in `nodes`, an *Inode one
-- in `inodes`; addresses from `next_node` and `next_inode` on are free. The state is that of the
-- FileSystem of filesystem/fs.go, which owns every node. A method that takes a node's lock for its
-- body is one step; the reader counts that a NodeContext holds are in `readers`.
pub mod Tree
pub mod Walks
pub mod PathSet
pub mod Numbers
pub mod Kept
pub mod Removal
pub mod Replacement
use webfs.Base.{
  ℕ, zero, suc, ◌+◌, Bool, true, false, Option, none, some, List, [], ◌∷◌, ◌++◌, nat_beq,
  if◌then◌else◌,
}
use webfs.Base.Maps.{Map, Text, load, store, delete, text_eq}
use webfs.Base.Result.{Result, Error, ok, err, panics, nil_inode, deleted_node, detached_node}
use webfs.Inode.{Inode, add_hard_link, clear_cache}
use webfs.Paths.{child_path}

pub record Node : Type 0 where
  pub name : Text
  pub parent : Option ℕ
  -- 0 if not registered
  pub node_id : ℕ
  pub children : Map Text ℕ
  pub is_del : Bool
  pub inode : ℕ

-- filesystem/fs.go, FileSystem; `pending` lists the inodes whose RefreshMeta goroutine has not run.
pub record FileSystem : Type 0 where
  pub nodes : ℕ → Node
  pub next_node : ℕ
  pub inodes : ℕ → Inode
  pub next_inode : ℕ
  pub root : ℕ
  pub last_ino : ℕ
  pub last_node_id : ℕ
  pub node_registry : Map ℕ ℕ
  pub pending : List ℕ
  pub readers : ℕ → ℕ

abbrev pub update {ℓ} : {A : Type ℓ} → (ℕ → A) → ℕ → A → ℕ → A
update f p v q = if nat_beq p q then v else f q

-- Writes through a pointer.
abbrev pub set_node : ℕ → Node → FileSystem → FileSystem
set_node p n s = record s { nodes = update s.nodes p n }

abbrev pub set_inode : ℕ → Inode → FileSystem → FileSystem
set_inode i n s = record s { inodes = update s.inodes i n }

-- &Inode{…}: a new inode stands at the next free address.
abbrev pub alloc_inode : Inode → FileSystem → FileSystem
alloc_inode n s = record s {
  inodes = update s.inodes s.next_inode n;
  next_inode = s.next_inode + 1;
}

abbrev pub fresh_node : Text → ℕ → Node
fresh_node name inode = record {
  name = name;
  parent = none;
  node_id = 0;
  children = [];
  is_del = false;
  inode = inode;
}

-- NewNode: the node and its inode's new hard link
unfoldable pub new_node : Text → Option ℕ → FileSystem → Result ℕ × FileSystem
new_node name none s = (err nil_inode, s)
new_node name (some inode) s = (
  ok s.next_node,
  record s {
    nodes = update s.nodes s.next_node (fresh_node name inode);
    next_node = s.next_node + 1;
    inodes = update s.inodes inode (add_hard_link s.next_node (s.inodes inode));
  },
)

-- NodeID, Name (with NameSafe and nameLocked), IsDel and Inode, each under its own lock or none
abbrev pub node_id_of : FileSystem → ℕ → ℕ
node_id_of s p = (s.nodes p).node_id

abbrev pub name_of : FileSystem → ℕ → Text
name_of s p = (s.nodes p).name

abbrev pub is_deleted : FileSystem → ℕ → Bool
is_deleted s p = (s.nodes p).is_del

abbrev pub inode_of : FileSystem → ℕ → Inode
inode_of s p = s.inodes (s.nodes p).inode

abbrev pub ino_of : FileSystem → ℕ → ℕ
ino_of s p = (s.inodes (s.nodes p).inode).attr.ino

-- isRootLocked: a node without parent, with inode number 1
unfoldable pub is_root : FileSystem → ℕ → Bool
is_root s p = elim (s.nodes p).parent [ none ↦ nat_beq (ino_of s p) 1 | some q ↦ false ]

-- What pathLocked makes of the parent's path and error.
abbrev pub under : Text → Text × Option Error → Text × Option Error
under name (parent_path, e) = (child_path parent_path name, e)

pub under_parent : Text → Option (Text × Option Error) → Option (Text × Option Error)
under_parent name none = none
under_parent name (some r) = some (under name r)

-- The body of pathLocked; `above` is the call of the parent's Path, which takes the parent's read
-- lock for the call.
unfoldable pub path_from :
    FileSystem → ℕ → (ℕ → Option (Text × Option Error)) → Option (Text × Option Error)
unfolding under_parent
path_from s p above =
    let n = s.nodes p in
    if is_root s p
    then some ([], none)
    else if n.is_del
    then some ([], some (deleted_node n.name))
    else elim n.parent [
      | none ↦ some (n.name, some (detached_node n.name))
      | some q ↦ under_parent n.name (above q)
    ]

-- Path and pathLocked, on fuel; `none` says that the fuel ran out.
unfoldable pub path : ℕ → FileSystem → ℕ → Option (Text × Option Error)
unfolding path_from
path zero s p = none
path (suc fuel) s p = path_from s p (path fuel s)

-- Del: the flag, the parent, and the cache of the inode. The parent's map is not touched.
unfoldable pub del : ℕ → FileSystem → FileSystem
del p s =
    let n = s.nodes p in
    set_inode n.inode (clear_cache (s.inodes n.inode))
      (set_node p (record n { is_del = true; parent = none }) s)

-- LoadAndDelete on a node's children, as a state change
abbrev pub unlink : ℕ → Text → FileSystem → FileSystem
unlink p name s = set_node p (record (s.nodes p) { children = delete name (s.nodes p).children }) s

-- The first part of AddChild: an existing child of that name is taken out and deleted.
pub replace_existing : ℕ → Text → Option ℕ → FileSystem → FileSystem
replace_existing p name none s = s
replace_existing p name (some existing) s = del existing (unlink p name s)

abbrev pub link : ℕ → Text → ℕ → FileSystem → FileSystem
link p name child s =
    set_node p (record (s.nodes p) { children = store name child (s.nodes p).children }) s

abbrev pub set_parent : Option ℕ → ℕ → FileSystem → FileSystem
set_parent q child s = set_node child (record (s.nodes child) { parent = q }) s

-- AddChild
unfoldable pub add_child : ℕ → ℕ → FileSystem → FileSystem
unfolding replace_existing
add_child p child s =
    let name = (s.nodes child).name in
    let s1 = replace_existing p name (load name (s.nodes p).children) s in
    set_parent (some p) child (link p name child s1)

-- GetChild
unfoldable pub get_child : FileSystem → ℕ → Text → Option ℕ
get_child s p name = load name (s.nodes p).children

remove_found : ℕ → Text → Option ℕ → FileSystem → Bool × FileSystem
remove_found p name none s = (false, s)
remove_found p name (some child) s = (true, set_parent none child (unlink p name s))

-- RemoveChild
unfoldable pub remove_child : ℕ → Text → FileSystem → Bool × FileSystem
unfolding remove_found
remove_child p name s = remove_found p name (load name (s.nodes p).children) s

attach : ℕ → Result ℕ × FileSystem → Result ℕ × FileSystem
attach p (ok child, s) = (ok child, add_child p child s)
attach p (err e, s) = (err e, s)
attach p (panics, s) = (panics, s)

-- What AddFileNode and AddDirNode do with a new inode: &Inode, NewNode, then parent.AddChild.
unfoldable pub make_child : ℕ → Text → Inode → FileSystem → Result ℕ × FileSystem
unfolding attach new_node add_child
make_child p name n s = attach p (new_node name (some s.next_inode) (alloc_inode n s))
