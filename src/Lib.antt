-- ===== src/Lib.antt =====
-- The core of the Lustre simulator (the C++ sources in lustre/): definitions that run, translated
-- from the sources, and the theorems about them.
--
-- Base holds what the other modules share: Boolean tests on the native numbers, lists measured by
-- them, machine words, and `Run`, the end of a call: a value, a fault (a failed assertion, a division
-- by zero, a null pointer), or fuel that has run out.
--
-- Heap (lustre/heap.cpp, lustre/heap.h) is the binary heap of libcfs. A node is its address; a state
-- has the array's places in the three levels of indirection, the nodes' `chn_index`, and which
-- fragments are allocated. Heap/Growth is `cfs_binheap_grow` with the allocator as an argument;
-- Heap/Queue is `cfs_binheap_insert`, `cfs_binheap_remove` and `cfs_binheap_remove_root`. The loops of
-- `cfs_binheap_bubble` and `cfs_binheap_sink` have as many rounds of fuel as the index, or the count
-- of nodes, and one more. Heap/Hole is the invariant of both loops: an order with a hole in it.
--
-- Stripe/Raid0 (lustre/raid0device.cpp) and Stripe/Lov (lustre/lov.cpp, the objects of
-- lustre/event.h, `OSC::Create` of lustre/osc.cpp) spread requests over disks and over the objects of
-- a file. `LOV::ReadWrite` has a round of fuel for each byte and one more, since a piece has a byte at
-- least; the device that a piece is handed to is an argument.
--
-- Nrs has the schedulers of requests: Nrs/Fifo (lustre/nrsfifo.cpp, with the size of
-- lustre/scheduler.cpp), Nrs/Prio (lustre/nrsprio.cpp), which holds two of those queues, and Nrs/Epoch
-- (lustre/nrsepoch.cpp), which holds one for each class of clients. Pool (lustre/processor.cpp) is the
-- pool of threads that takes requests from any scheduler: the record `Scheduler` has the operations
-- of lustre/scheduler.h that it calls, and Pool/Tests fills it with the queue of Nrs/Fifo. The pool's
-- state machine has a round of fuel for each idle thread and one more; the search of Nrs/Epoch has one
-- for each class.
--
-- Elevator (lustre/elevator.cpp, lustre/elvnoop.cpp) merges the requests of a disk, under the policy
-- that leaves them in order. `enqueue` returns what it tells the disk, to plug or to unplug; taking
-- the next request needs two rounds of fuel, one that moves a request and one that takes it.
-- Disk (lustre/disk.cpp, with what it calls of lustre/timer.cpp and lustre/event.cpp) takes requests
-- from it when it is unplugged, and serves them one at a time. Its thread and its timer are the times
-- at which they run next; Disk/Reach has the orders in which they and new I/O requests may come. A
-- call's own completion callbacks into the layers above are recorded, not run. `Unplug` has a round
-- of fuel for each request and one more.
--
-- Numbers are the native ones. 64-bit unsigned arithmetic wraps (`u64`, `sub_u64`); the heap's
-- indices stay below 2 ^ 28, so that no computation on its 32-bit indices wraps; a quantum of
-- Nrs/Prio is a signed integer, without the end of its 32 bits. The product of a duration with the `float` of lustre/nrsprio.cpp
-- is the argument `scale`.
--
-- Interval (lustre/intervaltree.cpp) is the tree of intervals with its searches and its insertion: the
-- search without recursion has a round of fuel for each node and one more. Interval/Order has the
-- recursive search of the comment in the source, as the reference. Ldlm (lustre/ldlm.cpp,
-- lustre/ldlm.h) is the manager of extent locks: the modes, the extent that a lock is given
-- (`ldlm_extent_policy`, with Ldlm/Mask, Ldlm/Fixup, Ldlm/Granted and Ldlm/Waiting for its steps), and in
-- Ldlm/Grant the second look at a waiting lock, which may grant it (`ldlm_process_extent_lock` when it
-- is not the first enqueue). The granted locks are in one interval tree for each mode. Fifty-two
-- rounds shift the mask of an extent from 2 ^ 12 through all 64 bits.
--
-- Not modelled: the deadline elevator, a disk's statistics and benchmarks, the first enqueue of a lock with its callbacks, the removal
-- from an interval tree, the token bucket scheduler and the older heap and tree schedulers, the
-- events, the messages and the network, the
-- RPC layer, the file system, and the start of the simulation; printing and statistics; the copies
-- of the kernel's red-black tree and hash tables.
pub mod Base
pub mod Stripe
pub mod Heap
pub mod Nrs
pub mod Pool
pub mod Elevator
pub mod Disk
pub mod Interval
pub mod Ldlm
