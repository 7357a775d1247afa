-- ===== src/Lib.antt =====
-- yacet, an editor of shared files by named ranges of bytes: a client that locks the intervals
-- of a range in ZooKeeper, copies the files with marks ("oracles") round the intervals into
-- swap files, runs a text editor, and writes the changed intervals back, shifting the offsets
-- of all other ranges in MySQL. The program is a set of C files at the repository's root; this
-- library models its own code and takes ZooKeeper's client, the editor and memory allocation as
-- parameters.
--
-- Each module names the C file it is about:
--  * Base: the shared names; lists and Boolean tests over the native numbers (Base/Lists,
--   Base/Tests), C strings (Base/Text), signed integers (Base/Int) and the bit test of list.h
--   (Base/Bits).
--  * IntervalTree: interval_tree.h and interval_tree.c. A list of slots stands for the linked
--   list: a slot is a node or memory that was freed, and following a link to freed memory is a
--   result of its own. Shape has the invariant, Insert the proofs.
--  * AList: list.h, the array that doubles. The result of malloc, calloc and realloc is an
--   argument, and so is what the memory holds that realloc adds.
--  * Pcq: pcq.h. Order and Stack have what goes in and comes out; Wakeup has any number of
--   threads as a step relation over the buffer and its two condition variables.
--  * Range: range.h and range.c over AList and IntervalTree. Memory, Count and Paths have the
--   proofs.
--  * Options: options.h, the oracles of ~/.oraclerc, with pull_string of common.h. Words has
--   the reading of one oracle, Lines the choice of a line, Entries a whole line.
--  * Zk: zkclient.h and zkclient.c over an interface of ZooKeeper's C client (the record
--   Zookeeper: a state and the five calls the source makes). Zk/Names has the names of lock
--   nodes, Zk/Master the eligibility tests of the master locks, Zk/Interval that of the
--   interval locks, Zk/Acquire zk_acquire_lock and its callers, Zk/Watcher the watcher,
--   Zk/Release the release. Waits, below Zk/Acquire, has the mutex that zk_acquire_master_lock
--   makes and locks. qsort and bsearch of the C library stand in Base/Qsort and Base/Bsearch;
--   this qsort keeps the order of equal elements, which C leaves open, and no result below
--   speaks of the order of interval locks with one id.
--  * Sql: sql.h and sql.c. The statements are those of sql.c, run on tables as MySQL documents
--   them (assignments of an UPDATE from left to right); the server may fail any call, by a list
--   of its next answers. Outside a transaction a statement takes effect at once; START
--   TRANSACTION keeps the tables of its moment for ROLLBACK. Sql/Resize is query_resize_file,
--   Sql/Intervals query_select_file_intervals, Sql/Insert query_insert_named_range and
--   Sql/Select query_select_named_range, each with its proofs below it; Sql/Stored has what the
--   SELECT reads of a range that was stored; Sql/Keeps and Sql/Untouched follow what a rollback
--   goes back to, Sql/Answered is about servers that answer every call. Texts compare byte by
--   byte, as with a binary collation. Zk/Interval/Database and Zk/Interval/Exclusion join the
--   interval locks to their query.
--  * Files: file.h and file.c. A file is a list of bytes with the offset of its descriptor;
--   sendfile moves at most a given number of bytes at once. Files/Swap has the swap files,
--   Files/Backing the rewriting of the backing file, Files/Editor the argument vector of the
--   editor, Files/Threads the threads of the files and the master that waits for them (the
--   answers of the system and the order of the messages come in as lists); Copy, Pull, Splice,
--   Search, Push, RoundTrip and Places have the proofs.
--  * Bo: nosql/bo.c, the tool that turns the marks of a text into regions of a list of ranges.
--   Regions has add_range, Places and Marks the loop over the text, Length, Lines and Reread
--   the list.
--  * Cli: main.c. get_range, with the proofs in Cli/Regions; the modes -r and -w of opts in
--   Cli/Edit (Ascending and Names have the files that are kept), -g and -n in Cli/NewRange, -p
--   in Cli/Print, with getopt as they call it in Cli/Getopt.
--
-- Numbers: size_t and unsigned long are native numbers; wrap-around of 64 bits is written out
-- where the code can meet it (sub64 and to_size in Sql/Resize). A `long` is an integer of
-- Base/Int. Sequence numbers are taken below 2^31, as ZooKeeper gives them, so that the
-- conversion to int changes nothing.
--
-- Fuel: the walk of it_insert_new takes two rounds more than the list has nodes, one for the
-- end and one for the visit of a freed node; the theorems on it show that this is enough.
-- bsearch takes one round more than there are elements, and halves its range in each. The retry
-- loops of zkclient.c run on the number of rounds that the source allows. The loop of the mode
-- -g takes two rounds more than there are arguments, since a string that is read twice ends it;
-- the loop of the mode -p takes its rounds as an argument, and does not always end.
--
-- Not modelled: the start-up of the libraries in main.c, and the printing of ranges and files;
-- the connections to MySQL and ZooKeeper themselves, the processes of the editor, the stubs
-- nosql/sql.c and nosql/zkclient.h, and the directory test_sql, an earlier version of the same
-- files.
pub mod Base
pub mod IntervalTree
pub mod AList
pub mod Pcq
pub mod Range
pub mod Options
pub mod Zk
pub mod Sql
pub mod Files
pub mod Cli
pub mod Bo
