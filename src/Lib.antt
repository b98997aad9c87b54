-- ===== src/Lib.antt =====
-- Verification of programs of this repository: the data base library, the multi-threaded and the
-- multi-process copier, the reference-counted objects in a hash table, the open server, the passing
-- of descriptors, full reads and writes, memory streams, the reader-writer job queue, and the
-- printer daemon's list of jobs.
--
-- How the parts are modelled:
--
-- Db (db/db.c, db/apue_db.h, the lock macros of include/apue.h). The index file and the data file
-- are lists of bytes in the record Db, with the fields of the DB structure and the record locks
-- that the process holds. Each function of db.c has the name of the source without the leading
-- underscore: Db.Index (_db_readptr, _db_writeptr, _db_readidx, _db_writeidx), Db.Data
-- (_db_readdat, _db_writedat), Db.Find (_db_hash, _db_find_and_lock, db_fetch), Db.Delete,
-- Db.Store, Db.Scan (db_open, db_rewind, db_nextrec). They are programs of Process: a call returns,
-- or it ends the process (err_dump, err_quit), or a loop runs out of fuel. The loops over a chain
-- and over the free list have one round more than the index file has bytes, which is enough for any
-- chain with at most that many records. Db.Record says what bytes a record is, Db.Record.Read and
-- Db.Record.Write are about reading and writing them, Db.Append is about the append of a record,
-- Db.Locks about the locks. Db.Chain is about the hash chains: a fetch, an insertion, a deletion
-- (DeleteKey; Unlink and Blank are its two halves), a replacement (Replace; Overwrite for data of
-- the same length, Renew for others) and the refusals of db_store (Refuse). The reuse of a free
-- record is in StoreFree: TakeFree takes it off the free list, and Reuse, FreeList and Rewrite are
-- about the two files. Layout says that the records of the two lists share no byte. Calls of fcntl,
-- lseek and writev are taken to succeed; a short read at the end of a file is modelled. Other
-- processes are not: a function runs alone.
--
-- Rsync (Multi_thread_rsync_task/sync_util.c). Rsync has the file list and the threads of
-- perform_sync: a thread's loop is cut at its critical sections, and a schedule says which thread
-- takes the next step and what sync_file returns when that step is its call. Rsync.Traverse is the
-- walk that fills the list, Rsync.Compare is compare_files, Rsync.Copy create_directory and
-- sync_file, but for the setting of the file times at its end, which changes neither the contents
-- nor the result, Rsync.Paths the path functions. File system calls are parameters. The content
-- loop of compare_files has one round more than the first file has bytes.
--
-- MultiProcess (Multi_process_rsync_task/sync_util.c). MultiProcess has the file list, the walk,
-- the paths and the loop of fork in perform_sync. Disk has the files and directories and, as the
-- record Os, what the system permits, how many bytes a write takes, how many bytes of a file are
-- read before a read fails, and how many of the bytes written are in the file when fclose has
-- returned; compare_files, create_directory and sync_file are there. A system is Reliable on which
-- no read fails and no fclose loses bytes; the code looks at neither. The conditions on the names
-- of the files and the size of a directory are the record Job. Run is the rest of perform_sync: the
-- children's calls of sync_file are steps, and `order` says which child takes the next. Lists,
-- Walk, Shares, Paths, Directories, CopyLoop, Sync, Structure, Copied, Turns and Perform are about
-- these parts, Outcomes about the whole. The copy and the comparison have one round more than the
-- source has bytes, since each but the last moves a byte. A child's memory is its own copy, as fork
-- gives it.
--
-- FooTable (threads/mutex3.c). Table is the array fh and the objects at their addresses; a call of
-- foo_alloc, foo_hold, foo_find or foo_rele is one step under the table's lock. The count of an
-- object is an int of 32 bits that wraps around, which it does not do in fewer than INT_MAX calls.
-- A loop over a chain needs one round more than the chain has objects, and a chain has at most one
-- for each call so far.
--
-- Opend (ipc2/opend/client.c, request.c, cliargs.c, loop.select.c, loop.poll.c, ipc2/open/open.c,
-- lib/bufargs.c). Opend has the table of clients, Opend.Args the splitting of a request into words,
-- at most 49 of them, so that 50 rounds of fuel are enough, Opend.Request the server's answer and
-- the client's request. open(2) is a parameter. Opend.SelectLoop is the loop of loop.select.c, a
-- round at a time: what the kernel says in a round is a parameter. Opend.PollLoop is the loop of
-- loop.poll.c in the same way; its scan of the array has one round more than there are entries, and
-- an entry that is packed is looked at again. Polled and Table count the descriptors of the array
-- and of the table, Scan and Agree compare them.
--
-- MemStream (exercises/fmemopen.c). The record MemStream is struct memstream with its buffer; the
-- callbacks return a result or an error number, or the access outside the buffer is undefined.
-- size_t and fpos_t have 64 bits; mstream_write and mstream_seek keep their position in an int of
-- 32 bits, so that the theorems are about buffers of at most INT_MAX bytes.
--
-- DoubleList, RwQueue and PrintQueue (threads/rwlock.c, printer/printd.c). Jobs are nodes of a heap
-- that is shared by both programs' queues; following a null pointer is the result none. A queue
-- that stands for a list of addresses is IsQueue. Each function runs under a lock and is one step.
--
-- FdPassing (lib/sendfd.c, senderr.c, recvfd.c) and FullIo (lib/readn.c, writen.c). Messages are
-- lists of bytes with the descriptor of their control data, each what one recvmsg gives, which in
-- recv_fd is at most MAXLINE bytes; the theorems are for any way to cut the text. What read and
-- write do is a list of limits, and a transfer of n bytes needs at most n + 1 calls that move
-- something.
--
-- Common, CString, Bytes and Process are shared: numbers and lists, the text functions of the C
-- library, reading and writing of byte lists, and the programs with error exits.
--
-- Not modelled: the main functions; the copier of one process in rsync_task; programs that only
-- show a system call, the generated build directory, the printer daemon's network protocol, and
-- wrappers of system calls in lib.
pub mod Common
pub mod CString
pub mod Bytes
pub mod Process
pub mod Db
pub mod MultiProcess
pub mod FooTable
pub mod MemStream
pub mod DoubleList
pub mod RwQueue
pub mod PrintQueue
pub mod Opend
pub mod Rsync
pub mod FdPassing
pub mod FullIo
