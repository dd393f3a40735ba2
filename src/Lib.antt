-- ===== src/Lib.antt =====
-- A model of the RMA analyzer: the library that records the memory accesses of an MPI process to
-- its windows as intervals of addresses, exchanges those of one-sided communications between the
-- processes, and aborts the program at the first two accesses that race.
--
-- The parts and their files:
-- - Interval (include/core/interval.h, src/core/interval.c): access types, intervals and the test
--   that two of them race (`if_intersects`). Interval/Conflict describes races.
-- - Avl: the tree that src/core/interval_avl_tree.c and src/core/notif_avl_tree.c both spell out,
--   over the type of its contents and the record `Keys` of what the two files write differently.
--   Its modules are the search order (Order, Search, Distinct), the balance (Balance), the number
--   of nodes (Count), the sorted list that is its specification (Contents, Sorted, Refine), and the
--   search for a key (Find, Map), and equal keys (Equal). `rightRotate` is `right_rotate`,
--   `minValueNode` is `min_value_node`, and the ends of the two recursive functions are
--   `settle_insert` and `settle_delete`.
-- - IntervalTree: the tree of intervals and `overlap_search`. IntervalTree/Overlap and
--   IntervalTree/Missed say what the search finds and what it passes by, IntervalTree/Removal which
--   interval a deletion takes out.
-- - NotifTree: the tree of notified intervals, as a map from notification ids.
-- - PlainTree (src/core/interval_tree.c): the tree without balance, its contents and its sizes; Bag
--   forgets the order of the contents (Avl/Bag).
-- - Printing: what the printing functions of the intervals, the list and the trees write. Order is
--   about the order of the intervals, Stats about the statistics of the trees.
-- - IntervalList (src/core/interval_list.c): the list that a build without the tree uses.
-- - Analyzer (include/rma_analyzer.h, src/core/rma_analyzer.c): the state of a window and of a
--   process (State), routines as functions on that state (Monad), saving and deleting intervals
--   (Save), the thread that receives intervals (Thread), epochs (Epoch), windows, tags and
--   communications (Window), the wrappers that choose the binding of MPI (Bindings). Run has the
--   calls of a process as steps in any order; Invariant, Protocol, Tags, Lifetime, Notified,
--   Forgotten, Sending, Account, Broadcast, Restart, Frame and Barrier have the proofs.
-- - Cluster: the processes of a communicator, each with its analyzer, and the messages in flight
--   between them, as one transition system for the epochs of a window (Step, Restarts, Reach).
--   Balance is the account of the Messages, Steps and Fresh show that each step keeps it, Closing
--   is the end of the epoch.
-- - Overload: the routines that a program calls in place of loads, stores and those of MPI
--   (src/static/lib/rma_analyzer_load_store_overload.c, src/dynamic/rma_analyzer_mpi_c_overload.c
--   as `mpi_*`, in Overload/Static src/static/lib/rma_analyzer_mpi_c_overload.c as `new_*`, and in
--   Overload/Fortran src/static/lib/rma_analyzer_mpi_fort_overload.c as `new_*_`). A pointer that a
--   program in Fortran passes is a `Ref`: its address and what it holds. Overload/Fence,
--   Overload/Barrier and Overload/Free are about fences, barriers and the end of windows.
-- - Instrument (src/static/src/parcoachRMA.cpp): the pass that has a program call the overloads.
--   Its chains of comparisons with names are lists (Tables). Provided, Given, Overloads, Names and
--   Missed are about the names that it gives and does not give, Accesses and Execution about loads
--   and stores. Statistics has the run on the functions of a module and what is printed for each;
--   Calls and Totals are about what that says.
-- - Examples: tests, a table of states to run on, and an application of each property.
--
-- How the parts interact: an overloaded MPI routine or an instrumented load or store calls a
-- routine of the analyzer, which finds the window's state in a hash table, builds an interval,
-- looks for a conflict in the window's tree and inserts it. An announced communication is also sent
-- to its target, whose thread saves it. At the end of an epoch the processes sum up how many
-- intervals were sent to each, and each waits until its thread has received that many.
--
-- Choices of the model. Integers of 64 bits wrap around (`% 2 ^ 64`); the counters of the type int
-- are numbers without a bound. A routine returns, or ends in a `Fault`: an exit, a failed
-- assertion, an abort with the two racing intervals, a NULL dereference, an access out of bounds,
-- or a thread that is never joined. The model has at most one thread for a window, and an epoch
-- that ends has one: what is shown is about the code where an epoch begins only while no thread of
-- the window runs, and ends only after it has begun. Target ranks and what Fortran passes by
-- reference are not negative, so MPI_PROC_NULL is left out. The table of states is the interface
-- `StateTable`, which names what the analyzer needs of uthash. MPI_Send puts a message into a list;
-- what MPI_Reduce and the receptions give are arguments. The lock of a tree makes the saving of an
-- interval one step, so a thread is a function of the messages that arrive for it and its rounds
-- are steps between the calls of the program. Freeing a tree runs on the number of its nodes as
-- fuel, which is enough since each round deletes a node; every other loop is a recursion on its
-- data.
--
-- What LLVM does for the pass is that a name set is the name read, and that an instruction is
-- inserted in front of the one at hand. The routines of MPI behind the wrappers are the interface
-- `Mpi`, over any memory.
--
-- What printf writes is a list of texts and of the values between them; `sizeof` of a node is a
-- parameter, and LOG writes where __DEBUG is set.
--
-- Not modelled: what the analyzer logs; memory that is allocated and freed, but for the pointers
-- that the code follows after it; a cluster in which epochs of several windows run at the same
-- time, or in which a process begins an epoch while another is still in the one before.
pub mod Common
pub mod Interval
pub mod Avl
pub mod IntervalTree
pub mod NotifTree
pub mod IntervalList
pub mod PlainTree
pub mod Printing
pub mod Analyzer
pub mod Overload
pub mod Cluster
pub mod Instrument
pub mod Examples
