-- ===== src/Lib.antt =====
-- Verification of fuzz-monitor, which runs a program under test on the inputs that a fuzzer
-- makes and records the branches that each of them takes.
--
-- Util.antt models c_monitor/util.c: util_CRC64, by which an input is recognised, and
-- util_CRC64Rev. Util/Table is the table, Util/Bitwise the CRC bit by bit, Util/Crc and
-- Util/Detect the proofs. A buffer is the list of its bytes; a read outside of it gives `none`.
--
-- Collections.antt is the interface of Collections-C, a git submodule whose code is not part of
-- the repository: the functions of its array, list, queue and hash table are fields of a record
-- that every definition takes, and its documented behaviour is a record of laws that every
-- theorem takes. Allocating functions take the number of the call, so that memory may be found
-- in one call and not in the next. Collections/Lists has containers that meet the laws.
--
-- Graph.antt models c_monitor/graph.c: graph_new, graph_add, graph_foreach, graph_nodes,
-- graph_edges and graph_find_node_index. The array of lists holds numbers of lists that stand in
-- a store, as the C array holds pointers. Graph/Rows says what a graph stands for, Graph/Add and
-- Graph/Edges are about graph_add, Graph/Traverse about the loops over a graph. Graph/Depth.antt
-- models graph_depth and graph_depth_conn, whose queue loop has fuel for n_nodes + 1 rounds:
-- each round takes one element off the queue, and each node enters it once, the start twice at
-- most. Under it, Trace is the search on plain lists, Invariant and Rounds its invariant,
-- Nearest what the depth means, Refine the step from lists to containers, and Correct the
-- results.
--
-- Text.antt has the stdio and stdlib functions on texts that the code uses, with what they print
-- and read in Text/Decimal, and what strstr finds in Text/Search. Sections.antt models
-- c_monitor/sections.c: a file is the list of its bytes, read from a position, and the table of
-- section headers is a block of memory. Sections/Memory and Sections/Layout show that the table
-- in memory is the one of the file, Sections/Names is about the loop over the names, and
-- Sections/First says which section section_find finds. `malloc` is an argument, which says what
-- a new block happens to hold.
--
-- Monitor.antt models c_monitor/main.c. Its state is `monitor_t`, with the counters that the
-- table of branches points to as a heap; Monitor/Counters is about such tables.
-- Monitor/Branches.antt is process_branches, with its parts as functions: Branches/Address takes
-- a branch to its basic blocks and its key, Branches/Print is the callback that prints and
-- frees. `opens` says whether fopen succeeds, and every malloc of main.c itself is taken to.
-- Branches/Blocks, Keys, Heap, Steps, Runs and Names have the lemmas, one part each,
-- Branches/Whole the theorems on the call, and Branches/Invariant what it keeps true where
-- memory is not found. The two ends and the key of a branch are followed as blocks on the heap.
-- Monitor/Tables.antt is free_hashtable, which writes the graph of all branches at the end, by
-- the entries that the table's iterator yields, and frees their keys and counters; there a key's
-- block is named by its text and a counter's by its number. Tables/Rounds and Tables/Written
-- have the proofs.
--
-- Monitor/Seen.antt is the table of the inputs that have been seen, a part of monitor_loop, with
-- its invariant in Seen/Invariant. Monitor/Inotify.antt is inotify_maybe_read and
-- inotify_wait4_creation, where `read` and `open` answer from an argument. Monitor/Loop.antt is
-- the loop of monitor_loop, one turn after the other: what a turn meets, ZeroMQ, inotify, the
-- tracer and memory, is a record, and the loop runs on a list of turns, so that it has no fuel.
-- Loop/Invariant holds for all turns, Loop/Works and Loop/Accumulates are about turns in which
-- no call fails, as Loop/Turns has it, and Loop/Bounds about the size of a message.
-- Monitor/Session.antt is monitor_loop as a whole, from the watch on the corpus to what it logs
-- at the end, and Monitor/Program.antt is main, which calls section_find, basic_blocks_find,
-- monitor_loop and free_hashtable; the options are those that getopt hands out. Program/Runs
-- follows a run in which no call fails up to free_hashtable, and Program/Lines and
-- Program/Dumped say what is then in the file of -g.
--
-- Perf.antt models perf/perf.c: analyze_bts and the loop of perf_parent that waits for the child
-- under BTS, with the signal handler. Perf/Parent is the whole of perf_parent, and perf_close.
-- What the system answers, and the order of signals and of returns of waitpid, is an argument;
-- descriptors, mappings, signals to the child and the file with the input are a list of actions.
-- Where the difference of two pointers is undefined, it is what gcc computes. The fcntl and
-- ioctl calls, whose results are not read, and the writes into the mapped control page are left
-- out. Perf/Wait and Perf/Ends are about the loop, Perf/Logged about analyze_bts, Perf/Release
-- about what is acquired and released. Perf/Api models perf_init, perf_child and
-- perf_monitor_api around them, Perf/Session is about a whole run, and Perf/Untouched and
-- Perf/Input about the file with the input; what the child does with its own descriptors is left
-- out. Perf/Traced says what it is for all calls of a run to succeed, which the theorems on the
-- monitor's loop take.
--
-- Log.antt models perf/log.h and perf/log.c. Perf/Tool.antt models the tool of perf/main.c and
-- perf_monitor, Perf/Reader.antt the lines of trace2 in src/myperf.rs that read the tool's
-- output, and Perf/Reader/RoundTrip takes the one to the other.
--
-- Bb.antt models c_monitor/bb.c, which reads the basic blocks of a program off a stream of
-- lines, by fgets and strtok; Bb/Columns and Bb/Lines have the proofs, for the lines that r2.sh
-- prints. Preload.antt models the wrappers of open, open64 and write in preloads/preload.c,
-- which are loaded into the fuzzer; Preload/Writes is about sequences of their calls, and
-- Preload/Start models the constructor and the destructor.
--
-- Numbers are natural numbers. uint64_t values that are combined by `^` and `>>` stay below 2^64
-- by a theorem; counters of blocks on the heap cannot reach 2^64 and are not wrapped. The test
-- of the quotient of two doubles in monitor_loop is written on whole numbers, which agrees below
-- 2^52. Not modelled: graph_destroy and free_monitor, which only free; usage and the times and
-- averages that are only logged; and the call of popen in c_monitor/bb.c. The Rust program under
-- src/ is another program, which starts tools and prints what they return; but for its reading
-- of the tool's output it is left out.
pub mod Base
pub mod Collections
pub mod Util
pub mod Graph
pub mod Bb
pub mod Log
pub mod Monitor
pub mod Perf
pub mod Preload
pub mod Sections
pub mod Text
