-- ===== src/Lib.antt =====
-- GoNFS: an NFS version 3 server over the transactions of GoJournal.
--
-- The program has two servers. The simple one (simple/) serves two fixed files of one block
-- each; the full one (nfs/) has inodes with direct and indirect blocks, directories and links.
-- Both run each request in a transaction of the journal and lock inodes by number.
--
-- Files and code:
-- - Nfstypes: nfstypes/nfs_types.go, the types of the protocol. Replies and Procs have
--   arguments, and the parts of replies that handlers set; Args and Results have the other
--   arguments and the whole structs of the results; Zeros has their zero values.
-- - Xdr: nfstypes/nfs_xdr.go, the methods Xdr of the NFS program: Attributes, Args, Replies,
--   Lists and Results have the methods, Sends says when a written value arrives, Travels has the
--   lemmas on what fits a message.
-- - Simple: simple/. Layout is 0super.go and fh.go, Inode is inode.go, Ops is mkfs.go and the
--   procedures of ops.go that touch files, Procs the procedures with fixed answers and mount.go.
--   Codec, Loops, Blocks, Files, Server, Init, Names and Runs hold the proofs: the codecs, the
--   copying loops, which bytes hold a file, operations on inodes as operations on contents,
--   procedures against an abstract server, the start, the directory and whole runs.
-- - Kvs: kvs/kvs.go; Kvs/Puts compares it with a map from keys to blocks.
-- - Super: super/super.go; Super/Regions has the theorems on the regions.
-- - Fh: fh/nfs_fh.go; Fh/Codec has the round trips.
-- - Cache: cache/cache.go; Lists, Laws and Moves have the invariant, Lookup is about LookupSlot.
-- - Dcache: dcache/dcache.go; Dcache/Laws compares it with a map.
-- - Alloctxn: alloctxn/alloctxn.go; Reserved, Calls and Ends follow which numbers the shared
--   allocators hold, to the commit or the abort; Numbers says which numbers a sequence of calls
--   frees and takes.
-- - Inode: inode/. Layout is the inode and its code, Blocks is indbmap and bmap, Data is Read
--   and Write, Sizes is Resize and shrink.go, Codec the round trip; Direct follows bmap on
--   direct blocks; Contents, Reading, Rounds, Filled, Writing, Whole and Updates compare Read
--   and Write with the file as bytes, and Resizing follows Resize within the last block; Fuel
--   and Shrinking are about the fuel of the loops.
-- - Programs: programs over a state that return, panic, wait or run out of rounds; Keeps has the
--   rules for what they keep.
-- - Fstxn: fstxn/. State is fsstate.go and the transaction, Inodes the locked inodes of
--   fstxn.go, Commit is commit.go. Owned, Quiet, Releases, Acquires and Locks follow the locks
--   that a transaction holds, Handles and Fresh are about what GetInodeFh and AllocInode give.
-- - Shrinker: shrinker/shrinker.go; Threads has the threads and the callers of Shutdown as
--   steps, Shutdown is about their ends, Locks about the locks of DoShrink.
-- - Dir: dir/. Entries is the code of an entry with its round trip, Scan the loops over a
--   directory, Apply is Apply with the making of the name cache, Names is dcache.go and the rest
--   of dir.go; Inums and Locks are about numbers and locks.
-- - Nfs: nfs/. Lorder and Locking are lorder.go, Session the state of the server and the ends of
--   a request, Files, Creating, Removing, Renaming and Listing the procedures of nfs_ops.go and
--   nfs_ls.go, Mkfs and Start the start of nfs.go, Ending ShutdownNfs and Crash, Mount is
--   mount.go, Requests puts the procedures behind one another. Results makes the struct of a
--   result out of what a handler sets, Methods is the wrapper of nfstypes/nfs_xdr.go that reads
--   the arguments of a call, Wire its table of procedures and what a client writes; Arrival and
--   Delivery in Wire are about calls and replies in messages, Locks about any calls. Locks
--   follows the locks through every procedure.
-- - External: what comes from other repositories, as the parameter World: constants, the
--   journal, the encoder, the lock map, the allocator; WorldLaws states their documented
--   behaviour. Examples/World gives concrete ones. External/Xdr is the state of a message with
--   the functions of the XDR library on one value; XdrLaws states that what was written is read
--   back. Examples/Message gives a concrete one.
-- - Prelude: tests on numbers, lists and slices, panics.
--
-- A function of the source is a definition of the same name in snake_case. A method takes the
-- state that it changes and returns it anew; a panic is the outcome `panic`, and an index out of
-- range panics, as does a `make` of more than 2^48 bytes, which is the limit of Go's runtime on
-- a 64-bit machine; memory that runs out below it is not modelled. uint64 arithmetic wraps where
-- it is written add64, sub64. A buffer that the journal returns is its bytes, and an edit
-- followed by SetDirty is `set_dirty`. In simple/ a handler returns the reply and the server
-- after it; one request runs at a time, so `Acquire` and `Release` change the lock map and do
-- not wait. In fstxn/, dir/, shrinker/ and nfs/ an operation is a program over the transaction
-- or the server: an inode is a pointer into a store that the cache and the transaction share,
-- one request runs at a time, and a lock that the transaction itself holds is never given
-- (`waits`).
--
-- Loops are recursion on the rounds left. The loops over blocks of Inode/Data and Inode/Sizes
-- run on fuel: a round of Read and Write takes a byte or more, so that the count is enough, and
-- a round of Shrink lowers the shrink size by one, so that the shrink size is enough. The loops
-- of Dir/Scan and Dir/Apply have a round for each entry. The loops that begin again (getShrink,
-- getAlloc, getInodesLocked, RENAME, DoShrink) have `rounds`, an argument of the procedure,
-- since nothing bounds them in the source; without rounds left the outcome is `unfinished`, not
-- a reply.
--
-- A method Xdr takes the value that is there and gives the value after it, so that the same
-- definition writes and reads. A list of entries, which the source links by pointers, is a List;
-- `rounds` bounds the entries that are read. A result has the parts for NFS3_OK and for other
-- statuses, of which one travels and the other is zero.
--
-- Left out: the XDR methods of the mount program; logging, the network and the command line
-- programs (cmd/), statistics, and the clients used by tests. Requests that run at the same
-- time, and with them the waiting of one request for the lock of another, are not modelled, but
-- for the threads of the shrinker.
mod Prelude
pub mod External
pub mod Nfstypes
pub mod Shrinker
pub mod Simple
pub mod Kvs
pub mod Cache
pub mod Dcache
pub mod Super
pub mod Fh
pub mod Alloctxn
pub mod Inode
pub mod Programs
pub mod Fstxn
pub mod Dir
pub mod Xdr
pub mod Nfs
mod Examples
