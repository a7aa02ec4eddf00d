-- ===== src/Lib.antt =====
-- Verification of a user-level distributed shared memory. Nodes share pages of memory over a network;
-- a directory says which node owns a page and which have copies of it, locks and barriers order the
-- nodes' work, and a page table on each node gives the pages of an allocation their addresses and
-- their global page IDs. The Game of Life is a program that runs on it.
--
-- Prelude: names of the libraries, Boolean tests, lists over the native numbers.
-- Types: include/dsm/types.h, and what src/core/dsm_context.h says of a node's role.
-- Directory: src/consistency/directory.c. A chained hash table from pages to entries. `Chain` and
--   `Table` say what a search finds after a write, `Valid` and `History` have the invariant and the
--   operations as calls in any order, `Refine` the specification as a map, `Invalidate` the
--   nodes that lose their copies, `Access` and `Ownership` what the operations leave behind, `Replica`
--   the entry that a backup makes of what it is told.
-- Lock: src/sync/lock.c. The table of locks and the manager's side of the protocol; `Client` has the
--   calls of a program. `Fifo` describes each lock as a queue of its own, `Order` and
--   `Exclusion` follow one lock through a history of events, `Local` and `Stranded` are about the
--   calls of a program. `Delivery` has the lock messages of src/network/handlers.c, `Passing` is about
--   the way of a lock from node to node.
-- Barrier: src/sync/barrier.c. `Rounds` counts arrivals, `Waits` is about the end of a wait. `Delivery`
--   has the barrier messages of src/network/handlers.c, `Opening` is about the nodes after the last
--   arrival, `Limits` about a table of barriers that is full.
-- PageTable: src/memory/page_table.c. `Lookup`: addresses and page IDs. `Ranges`: the IDs of different
--   allocations. `Valid`: the setters. `Places`: the entry that a search finds. `References`: the
--   reference count.
-- Coherence: the messages on pages of src/network/handlers.c, and src/memory/permission.c. `Request`,
--   `Reply` and `Invalidation` have the handlers, `Transfer` the dispatcher and one step of a page,
--   `Handover` the way of a page from node to node. `Spaces` is about the two searches for a page,
--   `Doomed` about invalidations, `Stale` about requests and answers that come late.
-- Alloc: src/memory/allocator.c, and the messages on allocations of src/network/handlers.c. `Memory` has
--   `dsm_malloc` and `dsm_free`, `Notices` the handlers and the wait for acknowledgements. `Ranges` is
--   about the page IDs that a reservation takes, `Reserved` about what it has done when the broadcast
--   begins, `Aborted` about memory that is given back, `Reuse` about the IDs of later allocations,
--   `Acks` about the wait, `Tables` about the table that a notice makes, `Owners` about what the
--   directory says of the pages.
-- Migration: src/consistency/page_migration.c, with the queries of the directory and of sharers of
--   src/network/handlers.c and `query_directory_manager` of src/consistency/directory.c. `Queries`
--   has these, `Fetch` what both fetches share, `Read` and `Write` the fetches. `Ends` is about their
--   waits, `Attempts` about how many attempts they make, `Answers` about a query, `Doomed` about the
--   nodes that lose their copies, `Known`, `Claims` and `Skipped` about a manager that fetches a page
--   twice.
-- Membership: joining, heartbeats and the failure of a node in src/network/handlers.c. `Heartbeat` has
--   a round of the heartbeat thread, `Silence` is about which nodes are taken for failed.
-- Fault: src/memory/fault_handler.c, what a fault at an address does; `Ends` is about its end.
-- Failover: replication and promotion in src/network/handlers.c. The manager's messages and the
--   backup's shadows; `Order` is about old messages, `Copies` about what the shadows hold,
--   `Promotion` has the change of roles and in `Takeover` what the new manager serves.
-- Wire: src/network/protocol.h and src/network/network.c, messages as bytes. `Framing` has the length
--   prefix and the reader, `Sending` the writer with its retries, `Bytes` and `Framing/Delivery` what
--   arrives. `Sockets` has the sockets of a node and the accept thread, `Sockets/Closing` the sockets
--   that the end of a node closes; dsm_context_cleanup of src/core/dsm_context.c is a part of it.
-- Life: game_of_life/gol_state.c. `Partition`: rows and nodes. `Cells`: the addresses of the cells.
--   `Writes`: what a write of a cell changes. `Rules`: game_of_life/gol_rules.c, the rules and a
--   generation of one node's rows, with its `Buffers`, the current and the next grid. `Rules/Cell`,
--   `Rules/Generation` and `Rules/Torus` go from one cell to the rows of a node and to all nodes, which
--   is the work of game_of_life/gol_main.c between two barriers. `Setup` has the allocation of the
--   partitions and the search for those of other nodes, `Setup/Ready` what they leave; `Patterns` has
--   the patterns that a game starts with.
-- A function of the source keeps its name; its result is a record or a pair that ends in the state
-- that it leaves. The messages that it sends are a list in the order of the calls. The theorems' runs
-- at one input stand in the module `Tests` of each part.
--
-- Bounds. Addresses and page IDs are 64 bits wide and wrap where the source lets them. Counts of a C
-- `int` are natural numbers: the program keeps them small. All recursion is structural, on a list or
-- on a count, so no fuel is used. A wait on a condition variable is driven by the list of the wake-ups
-- that it gets, and has no result where the list ends first. A fetch makes at most three attempts,
-- each given by what it meets.
--
-- The loops that read and write a socket are driven by the list of what `recv` and `send` answer, and
-- the at most two further attempts of `network_send` are a count.
--
-- Not modelled. msg_queue.c, whose queue nothing fills or empties, perf_log.c, the matrix
-- multiplication, the drawing of the game, the loop of its main program, which passes barriers whose
-- failure it ignores, and the loop of the dispatcher thread are left out, as are the calls that start
-- and stop a node, but for the sockets that these close. A function between two waits is one step, so
-- its mutexes are left out, and with them data races. Threads, logs, the installation of the signal
-- handler and the calls of the operating system are left out; what
-- `network_send`, `mmap`, `mprotect`, `socket`, `bind`, `accept`, `send`, `recv` and `malloc` answer are
-- parameters. The Game of Life stands on memory that all nodes see alike: its grids are one state, and
-- what the pages do under it is in Coherence and Migration.
pub mod Prelude
pub mod Types
pub mod Wire
pub mod Directory
pub mod Lock
pub mod Barrier
pub mod PageTable
pub mod Coherence
pub mod Failover
pub mod Life
pub mod Alloc
pub mod Fault
pub mod Membership
pub mod Migration
