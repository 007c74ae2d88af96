-- ===== src/Lib.antt =====
-- p4fuse: a FUSE file system over a Perforce server.
--
-- The program is one process on an io_uring event loop. The kernel's requests are read into a ring
-- of bytes; `process_commands` takes them out one by one, looks at the table of inodes, asks the
-- server for the listing of a directory or the text of a file where that is not known yet, and
-- queues one write for each reply. The replies, the entries of a directory and the texts stand in
-- a buffer that is emptied when no write is in flight.
--
-- Files:
--   Base       numbers of fixed width, lists, text; shared by all parts.
--   Buffer     main.cpp, `alloc_chunk` on the buffer of replies. Buffer/Laws: its chunks.
--   Ring       main.cpp, `queue_read` and `copyin_wrap`. Ring/Laws: the bytes that they read and
--              offer.
--   Wire       fuse_kernel.h: Wire/Layout packs fields, Wire/Opcode is `enum fuse_opcode`,
--              Wire/Request and Wire/Reply are the structs.
--   Inode      inode_store.cpp: Inode/Store is the table and its arena of names, Inode/Compare
--              `cmp_node`, Inode/Search `find_path` and `find_all_with_parent`, Inode/Arena and
--              Inode/Create the operations that insert, Inode/Path `path_size` and `build_path`.
--              Inode/Key, Tree, SearchTree, Find, List, Bounds and Path/Laws hold the proofs about
--              searches; Inode/Insertion, Relink and Walk follow an insertion in the tree, its links
--              and the loop; Inode/Names, Created and Labels the new entry and its name in the arena.
--              Inode/Invariant is the invariant of the whole table, Inode/Alike the changes that it
--              does not see, Inode/Copies copies of the same bytes.
--   Client     main.cpp, `MyClientUser`: the callbacks that enter a listing into the table.
--              Client/Fill, Enter and Stores follow a name that is entered; Client/View is the map
--              from keys to indices that the table stands for, and Client/Insert the results.
--              Client/Lookup is about a search behind it, and Client/Refill, Keeping, Lines and Lists
--              about a whole listing; Client/Named and Given about the names in it, and Client/Syncs
--              about the sync of a file.
--   Daemon     main.cpp: Daemon/State has the globals, Daemon/Init, Files, Open and Dirs the cases
--              of `process_commands`, Daemon/DirsPlus the entries of FUSE_READDIRPLUS,
--              Daemon/Commands the loop. Daemon/Answer, Cases, Runs and
--              Listing follow each case's effect on the counters; Daemon/Invariant, Lookups and
--              Replies state what comes of it. Daemon/Stores is about the table behind a listing, and
--              Daemon/Listed about FUSE_LOOKUP behind one; Daemon/Holds, Paths, Sends, Listers and
--              Turns follow the table through the cases and the loop.
--   Loop       main.cpp, the event loop of `main`, as a step relation on completions. Loop/Invariant,
--              Stall and Numbers state what its states have in common.
--   Older      diff.cpp, the daemon before main.cpp, where it differs: Older/Client has its callbacks,
--              Older/Files, Open and Dirs the cases, Older/Commands the loop. Older/Links and Relist
--              hold the proofs.
--   RedBlack   inode.hpp and inode.cpp, a table of inodes as a red-black tree that is not finished: the
--              comparison of keys and the rotation. RedBlack/Compare, Turned and Rotation hold the
--              proofs.
--   Allocator  allocator.cpp, an arena over a file that the daemon does not use yet.
--              Allocator/Ends is about the loop of `arena_alloc`.
--   Pool       threadpool.cpp, tp.hpp and exec.hpp: threads that run the Perforce commands, with an array
--              of results each. Pool/Results, Counts, Actions and Waiting hold the proofs.
--   Executor   executor.cpp, the event loop for these threads: its reads and the completions of reads
--              and writes. Executor/Reads is about what the reads may fill.
--   Tests      concrete inputs.
--
-- Correspondence. A C function is the definition of the same name; a case of the switch is
-- `do_<opcode>`. A write through NULL is the outcome `fault`, `exit_group` is `exit`, -1 is `wait`
-- and -2 is `full`. Integers are natural numbers with their wrap-around written out. The pieces
-- of memory that the program shares by pointers are one record, `Daemon`, since one thread runs
-- all of it.
--
-- Fuel. `find_path`, `find_or_insert_path`, `path_size`, `build_path` and the walk of a directory
-- get 2 ^ 32 rounds, which is the number of entries that a table can have; the theorems on them show
-- that these are enough where the links form a tree that is no deeper. The loop of FUSE_READLINK
-- gets 64 rounds, and ends before; the loops of `arena_alloc` and of the older FUSE_OPEN get 64, since
-- each doubles a 64-bit size.
-- `process_commands` counts its turns, and what is shown holds for every fuel.
--
-- What the Perforce client library and the system calls answer is a parameter, `Host`, which may
-- differ from turn to turn; of the library it is assumed that a text is shorter than 2 ^ 31.
--
-- What the two files of the inode table hold when `init_table` maps them is an argument of it, since
-- they are opened without being cut to 0. A callback of main.cpp that writes behind the object of the
-- client, or behind an entry of the table, or reads behind its line, is a fault: a name of more than
-- 4096 bytes, a line shorter than the directory's path, and a name of more than 255 bytes whose length
-- modulo 256 is at most 8. The callbacks of diff.cpp have no such faults here.
--
-- In threadpool.cpp the parent of a thread is a parameter: the value that it stores in `num_res` to
-- wake the thread, if any, which depends on the messages queued before. `tp_wait_for_nval` gets the
-- values of its loads, its fuel counts them, and its result has its stores to `*wait` and its system
-- calls, the last one first.
--
-- Not modelled: the case `sync_finished` of executor.cpp, which calls `arena_alloc` without one of
-- its arguments, and the loop of `thread_main`; the rest of inode.cpp, which calls functions that are
-- not there; the locks of inode_store.cpp, which stand
-- under #if 0; the set-up of io_uring and of the mount; the printing; the library under p4/.
pub mod Base
pub mod Buffer
pub mod Ring
pub mod Wire
pub mod Inode
pub mod Client
pub mod Daemon
pub mod Older
pub mod RedBlack
pub mod Loop
pub mod Allocator
pub mod Pool
pub mod Executor
mod Tests
