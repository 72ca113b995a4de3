-- ===== src/Lib.antt =====
-- A model of the embedded key/value store bolt (Go package `bolt`).
--
-- The store is one file of pages. Two meta pages, 0 and 1, take turns: the transaction with an even
-- id writes page 0, the one with an odd id page 1, and the reader picks the newer valid one. A page
-- of the tree that a transaction changes is loaded as a node, changed in memory, and at the commit
-- split and written to new pages. The freelist says which pages may be reused: the pages that a
-- transaction frees are pending until no reader can see them, then they are free.
--
-- Which file models what:
--   Words         the integers of the source: `uint64` sums and differences wrap around
--   Bytes         `bytes.Compare` and `bytes.Equal` on lists of byte values
--   GoSort        `sort.Search` and `sort.Sort` of Go's standard library, on which page.go,
--                 freelist.go and node.go rest
--   Page          page.go: the page header, its flags, `typ`
--   Pgids         page.go: `pgids.merge`, `mergepgids`. Below it: Merge (the loop) and Union
--                 (the merge of two ascending lists)
--   Freelist      freelist.go: all operations but those on a page; Freelist/Disk has `read`, `write`
--                 and `reload`, with `reindex`. TxMap is the map from transaction ids to page ids,
--                 Valid the invariant, Runs the runs of free pages, and Allocate, Free, Release and
--                 Disk/RoundTrip are named for the operations that they are about
--   Node          node.go: `put`, `del`, `size`, `sizeLessThan`, `childIndex`, with Keys and Update
--                 (the order of keys, look-ups) and Sizes; Node/Split has `splitIndex`, `splitTwo`
--                 and `split`, with Parts (one cut) and Whole (all cuts)
--   Meta          db.go: the `meta` record, `sum64`, `validate`, `write`, and `DB.meta`; Choice is
--                 about the two meta pages
--   Db            db.go: `mmapSize`, `mmap`, `allocate` and `grow`; Db/Sizes is about the sizes, and
--                 Db/Allocate about where pages come from, and Db/Growth about `grow`. What the
--                 system calls of bolt_unix.go and of the file answer is an argument (the
--                 record Os)
--   Txs           db.go and tx.go: `beginTx`, `beginRWTx`, `removeTx` and what `tx.init` copies;
--                 Txs/Close has `close`, `rollback`, `Rollback` and `DB.View`. Txs/Snapshots is about
--                 the pages that readers see, Txs/Removal about `removeTx`, Txs/Views about `View`
--                 and `rollback`. Txs/Write has `tx.write`; Chunks is about its inner loop, Pages
--                 about all pages. What the file answers is an argument (the record FileOps)
--   Stats         db.go and tx.go: `Stats` and `TxStats`, with `add` and `Sub`
--   Memory        the memory behind a pointer: fields of a struct and slices, as bytes
--   Page/Elements page.go: the elements of leaf and branch pages, `key` and `value`
--   Node/Disk     node.go: `read` and `write` on the bytes of a page; Layout says where `write` puts
--                 what, RoundTrip is about both
--   Pages         page.go, cursor.go: a page of the tree with its elements, and `elemRef`'s view of a
--                 page or a node
--   Cursor        cursor.go: the stack, `First`, `Last`, `Next`, `Prev` and their loops; Cursor/Search
--                 has `search`, `seek` and `Seek`. Tree says what a tree of pages and a path in it
--                 are, Position what a cursor has behind it, Forward and Enumeration are about
--                 `Next` and `First`, Backward about `Last`, Search/Choice about the child that a
--                 search takes, Search/Order, Sought and Seek about what it finds, Search/Chain
--                 about the pages on its way
--   Bucket        bucket.go: the bucket, `pageNode` and `ForEach`; Bucket/Nodes has `node` with
--                 `read` and `childAt` of node.go and `Cursor.node`, Bucket/Pairs `Get`, `Put`,
--                 `Delete`, `Cursor.Delete` and the sequence, Bucket/Inline `inlineable`. Each is
--                 about `ForEach`, Found and Entries about `Get` and when `Put` and `Delete` refuse,
--                 Loaded about `node`, Path about `Cursor.node`, Changed and Kept about the bucket
--                 after a leaf was changed, Written about one `Put` or `Delete`, Model has the
--                 map from keys to elements that a bucket is, and Runs is about sequences of them.
--                 Bucket/Value has `write` and `openBucket`, Bucket/Create `Bucket`, `CreateBucket`
--                 and `CreateBucketIfNotExists`, and Created is about `CreateBucket`
--   Errors        errors.go: the errors that functions return
--   Panics        the panics, which are values here: a function that may panic returns a `Result`
--   Prelude       shared names, tests, lists, and the counts of items in lists
--   Tests         runs at concrete inputs
--
-- How state and operations correspond: a Go struct is a record, and a method that changes it returns
-- the new record, beside a result if it returns or panics; what a panic leaves behind is part of
-- that. The cache of the freelist is a function from page ids to Booleans, and the map of pending
-- pages is an association list with one entry for each transaction. Go iterates over a map in any
-- order; here the order is that of the list, and what depends on it is sorted in the source at once.
-- The memory behind a page header is a list of 64-bit words for the freelist, and of bytes for the
-- elements of the tree.
--
-- Loops: a loop over a slice is a recursion on the list. `sort.Search` halves the range, and has as
-- many rounds as it has items; the merge has the length of both lists, since each round copies at
-- least one item; `split` has one round more than the node has inodes, since each round leaves fewer.
-- The cursor goes down one level in each round, so that the height of the tree and one more is enough
-- for `first`, `last` and `search`; the loop of `next` goes on to another page in each round, so that
-- it needs at most a round for each leaf; `ForEach` has a round for each pair and one more.
-- `read` has a round for each element that the header counts, and the inner loop of `tx.write` one for
-- each `maxAllocSize - 1` bytes of a page and one more.
-- A loop that ran out of rounds would give the panic `diverged`, or `none`.
--
-- What the model leaves out: the fill percentage of a page is a float in the source, so the
-- threshold that `splitTwo` computes from it is an argument; parents and children of nodes are
-- addresses, and in Node/Split only the parent's list of children is kept, while in Bucket/Nodes
-- they are page ids; a page id that reaches 2^64 in `free` would wrap around in the source and loop
-- on, and here the loop has the rounds of the ids without a wrap. Before it unmaps, `mmap` copies
-- keys and values of loaded nodes out of the map, which has no effect here. File sizes are taken to
-- be below 2^63. Of the locks, the writer's lock and the count of readers of the map are kept. For
-- the cursor and the bucket the elements of a page of the tree are a list of inodes; Node/Disk has
-- their bytes, with numbers in the order of bytes of the machines that bolt runs on, the low byte
-- first. What would lie behind the last byte of a page or of a value is not there in the model. A
-- cursor finds its pages by a function from page ids to pages or nodes, which `pageNode` gives. The
-- counter of cursors is left out. Of `tx.writeMeta` only the meta page that it changes is kept, without
-- the errors of the write and the sync. Not modelled are the deletion of buckets, their spilling
-- and statistics, the rebalancing of nodes, and the commit of a transaction. The command
-- line tool (cmd/) only prints what the library finds, and example/ holds example programs.
pub mod Prelude
pub mod GoSort
pub mod Panics
pub mod Words
pub mod Memory
pub mod Page
pub mod Pgids
pub mod Freelist
pub mod Bytes
pub mod Node
pub mod Errors
pub mod Meta
pub mod Db
pub mod Txs
pub mod Stats
pub mod Pages
pub mod Cursor
pub mod Bucket
mod Tests
