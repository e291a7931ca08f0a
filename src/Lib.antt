-- ===== src/Lib.antt =====
-- A model of WebFS, a FUSE file system whose files are served by adapters, with its theorems.
--
-- cmd/wfs/main.go reads a nodes file, decodes it with requests/unmarshal.go, which looks up
-- providers in adapters/registry.go, adds the nodes and mounts the file system through
-- server/webfs.go. The kernel then calls the handlers of fuse/server.go. They find nodes by their
-- registry number through filesystem/fs.go, hold a node's read lock with a NodeContext of
-- filesystem/context.go, and read the node's inode. An inode (filesystem/inode.go) answers from
-- its cache of byte ranges, or asks the adapters of its pool in turn and keeps what it read; the
-- built-in adapter is that of adapters/http.go. AddDirNode and AddFileNode of filesystem/fs.go
-- build the tree of filesystem/node.go.
--
--   Base           integers with Go's wrap-around, maps, results with errors and panics
--   External       adapter.go; `Env` is what the code takes from outside: clock, context,
--                  adapters
--   Cache          filesystem/inode.go: dataCache (get, store, isCached, getRanges, clear)
--   Pool           filesystem/inode.go: inodeAdapter and adapterPool (tryOperation, shouldRetry)
--   Inode          filesystem/inode.go: Inode (Read, RefreshMeta, AddHardLink); Read with
--                  concurrent readers is Inode/Interleaved
--   Paths          Go's strings.Split and path.Split as the code uses them
--   Node           filesystem/node.go on a store of nodes and inodes; Node/PathSet is the
--                  abstract view, the set of the paths that exist
--   Fs             filesystem/fs.go: NewFS, AddDirNode, AddFileNode; request.go. Fs/Mkdir
--                  compares the two with `mkdir -p` on sets of paths
--   Session        filesystem/context.go and the registry methods of filesystem/fs.go;
--                  EnsureNodeID with concurrent callers is Session/Race, the log events are
--                  Session/Log
--   Fuse           fuse/server.go: the handlers (ReadDir and ReadDirPlus in Fuse/ReadDir). A
--                  client that calls ReadDir or Lookup again and again is in
--                  Fuse/ReadDir/Pages/Reader and Fuse/Resolve
--   System         the calls of the handlers, of fs.go and of the refreshes as a step relation;
--                  System/Visible goes from AddFileNode to what the handlers show
--   Http           adapters/http.go (bodies in Http/Stream, the Range header in Http/Range)
--   Adapters       adapters/registry.go, adapters/builtins.go
--   Requests       requests/dto.go, requests/unmarshal.go
--   Command        cmd/wfs/main.go: loading the nodes file; the function main is Command/Main
--   Server         server/webfs.go
--   Logger         internal/util/logger.go
--   Config         config/config.go, internal/util/logger.go's levels, cmd/wfs/main.go's
--                  verbosity
--   Examples       runs on concrete inputs
--
-- A Go method is a function from the state to its result and the new state; a call outside of the
-- repository also takes and returns a `World`. A pointer to a node or an inode is an address in
-- the store. Loops are structural, but for three that take fuel. `path` climbs to nodes with
-- lower addresses, so fuel above the address is enough on a tree. `log_node_tree` goes down to
-- nodes with higher addresses, so as many levels as there are nodes made since are enough.
-- `read_pages`, a client of ReadDir, gets an entry with each call but the last.
--
-- Not modelled: calls that run at the same time, except those of EnsureNodeID and of Read on one
-- inode; what is logged, except by the writer of NewLogLogger and by the builders of log events;
-- the parsing of the command's flags; the mocks. net/http, encoding/json, the UUIDs and the FUSE
-- library are the records `Client`, `Decoder` and `FuseLibrary`. An adapter's behaviour is a
-- named hypothesis of the theorems on reads.
pub mod Base
pub mod Cache
pub mod External
pub mod Pool
pub mod Inode
pub mod Paths
pub mod Node
pub mod Fs
pub mod Session
pub mod Config
pub mod Fuse
pub mod System
pub mod Http
pub mod Adapters
pub mod Requests
pub mod Command
pub mod Server
pub mod Logger
pub mod Examples
