-- ===== src/Lib.antt =====
-- nt_shm: the data structures under a shared-memory task queue server, and what holds of them.
--
-- The program starts processes that share a segment of memory. nt_mem.c divides the segment,
-- nt_cycle.c keeps in it a bounded queue of tasks under semaphores, and the containers that the
-- tasks use are the hash map (nt_hashmap.c), the binary heap (nt_binaryheap.c) and the hash set
-- (hashset.c), on the hash functions, comparisons and primes of nt_algodefs.c.
--
-- Common is shared by all: Boolean tests, lists over the native numbers (Common/Lists), the outcome
-- of a call (Common/Run) and the sum of a weight over a list (Common/Weigh), by which two tables
-- are shown to hold the same entries.
-- Algo is nt_algodefs.c: is_prime() and next_prime() (Algo/Primes), the hash functions (Algo/Hash),
-- the comparisons (Algo/Compare) and nt_isqrt32() (Algo/Sqrt).
-- Hashmap is nt_hashmap.c: `HashMap` is nt_hashmap_t, and each function of the file has the
-- definition of its name. nt_hashmap_set() is cut at its blocks: `set_located` is the search,
-- `add_entry` the new entry, `grow_if_loaded` the test of the load, `rehash`, `rehash_slot` and
-- `move_entry` the redistribution. Hashmap/Contents and Hashmap/Rehash hold the lemmas on a slot
-- and on the redistribution, Hashmap/Refines the finite map that a table stands for,
-- Hashmap/Grow, Update and Remove the operations, Hashmap/Strings the access by strings.
--
-- BinaryHeap is nt_binaryheap.c: `BinaryHeap` is nt_binary_heap_t, `bubble_up` and `bubble_down` are
-- the sift loops, `place`, `fill_root` and `fill_index` what insert, remove_min and remove_direct do
-- after their tests. Its index of keys is a `HashMap`, called through the definitions of Hashmap.
-- BinaryHeap/Keyed holds the operations by key,
-- BinaryHeap/Swap the exchange of two elements, BinaryHeap/Order the order with a gap,
-- BinaryHeap/Sift the loops, BinaryHeap/Queue the operations without the direct option, and
-- BinaryHeap/Direct the duplicate test.
-- Cycle is nt_cycle.c: `Cycle` is cycle_t, `task_queue_create` the function of that name, and `step`
-- executes one statement of task_queue_push() or task_queue_pop(); `Step` lets any process start a
-- call and any thread run its next statement. Cycle/Ring holds the arithmetic of the indices,
-- Cycle/Counts how many threads stand where, Cycle/Invariant, Critical, Fifo and Reach the invariant
-- and that every statement keeps it, and Cycle/Guarantees and Cycle/Progress what follows for a
-- created queue.
-- Mem is nt_mem.c: `MemInfo` is nt_mem_info_t, and the functions have the definitions of their
-- names without leading underscores. __mem_malloc() is cut: `find_bucket`, `first_fit` and
-- `find_chunk` are the search, `take_chunk` what follows it. Mem/Links and Relink hold the lists of
-- free chunks in memory, Mem/Tiles the segment as a sequence of chunks, Mem/Heap and Members how
-- these two fit, Mem/Moves, Loose and Claim what one step of an operation does to both, Mem/Search,
-- Find and Choice the search, Mem/Valid the invariant, Mem/Malloc, Neighbours, Coalesce, Free and
-- Requests the operations, Mem/Reallocation is __mem_realloc(), cut at its blocks (`shrink`,
-- `grow`, `relocate`, `recycle`), with its lemmas in Mem/Resize, Relocate and Realloc; Mem/Frame,
-- Keeps and KeepsFree hold which words the operations leave alone, and Mem/Content and Carry what
-- becomes of the words of a block; Mem/Segment is nt_mem_create() and nt_mem_required_size(), with
-- Mem/Create; Mem/Clear is the first chunk and Mem/Stats the counters. The memory is a function
-- from addresses to words; the words in the used chunks are the caller's.
-- Ddl is ddl.c: `Ddlh` and `Node` are ddlh and ddl, and the functions have the definitions of their
-- names; `delete_from` is the loop of ddl_delete(), `unlink` what it does at the node, `print_next` and
-- `print_prev` are the iterators. Ddl/Chain holds the nodes of a list in memory, Ddl/Append the
-- insertion, Ddl/Delete the search and the last node, Ddl/Inner a node between two others.
--
-- Hashset is hashset.c: `Hashset` is nt_hashset_t, `Funcs` its functions, and the functions have the
-- definitions of their names. nt_hashset_insert_ext() is cut at its blocks: `insert_located` is the
-- search, `grow_if_full`, `move_slots` and `move_chain` the growth, `link_entry` the new entry; the
-- removals share `remove_from`. Each call is told what its allocations give. Hashset/Chain holds the
-- lemmas on one chain, Move the redistribution, Refines the invariant and the finite set, Grow new
-- and grown sets, Alike data that compare as equal, Link, Insert, Remove, Direct and Clear the
-- operations; Hashset/Iterate is the iterator, Iterate/Visit the loop over it and Iterate/Erase the
-- removal through it.
--
-- A pointer to an array is the list of its elements. An access outside it, or through a NULL
-- pointer, is the outcome `fault`; exit(EXIT_FAILURE) is `exit_failure`. `Returns P run` says that
-- the run returns, with a result that satisfies P, so it excludes these, and `out_of_fuel`.
-- An int that leaves its range is the outcome `overflow` where it can be reached: the products of
-- is_prime(), the step of next_prime(), the tests of the load of the tables and the number of chunks
-- of nt_mem_required_size(). Algo/Primes/Large is about primes that is_prime() cannot tell, and about
-- sizes that are converted to int.
-- Fuel: is_prime() has n rounds, one for each candidate divisor; next_prime() has 2 ^ 31, since n
-- grows in each round and stays an int; the redistribution of a slot has one round more than the slot
-- has entries, since each round moves an entry or passes it; the loops of the heap have one round
-- more than the index or the number of elements, since an index falls or rises in each round;
-- first fit has a round for each byte of the segment, which has fewer chunks; the loops of the list
-- take the rounds as an argument, and more rounds than nodes are enough; the scan of the iterator has
-- one round more than there are slots.
--
-- Not modelled: the memory functions that the containers are given (those of the hash map and the
-- heap return memory or end the process), the overflow of an int counter of entries, the variants
-- of the hash set for keys with values (nt_hashset_insert_kv, nt_hashset_get_kv), the framing of
-- packets (nt_ptcl.c), the string helpers (common.c), logging, signals, threads and sockets.
pub mod Common
pub mod Algo
pub mod Hashmap
pub mod BinaryHeap
pub mod Cycle
pub mod Ddl
pub mod Hashset
pub mod Mem
