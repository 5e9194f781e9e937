-- ===== src/Lib.antt =====
-- A verification library of flinter, a C++ library of networking and utility classes. It models
-- the parts that carry logic of their own; paths are from the repository's root, and each file names
-- the code that it is about.
--
-- Linkage models flinter/linkage/linkage.cpp, linkage.h and linkage_handler.h, with the attach and
-- detach of linkage_worker.cpp. A linkage is a connection between a transport and a protocol. Its worker
-- calls OnEvent() when the transport is ready; bytes that are read go to OnReceived(), which cuts them into
-- messages for the handler, and bytes to be sent go to Send(), which writes them or queues
-- them for the next write event.
--   Linkage.Io: the transport, flinter/linkage/abstract_io.h, as a record of functions on a state.
--   Linkage.State: the fields of the class, and the handler as a record of functions.
--   Linkage.Framing: what receiving is for, a plain parser; Linkage.Receive: OnReceived() and DoReceived(),
--     with Loop, Total, Refines and Chunks for their proofs.
--   Linkage.Send: Send() and the sending buffer; Linkage.Event: OnEvent(), Disconnect() and Shutdown();
--     Linkage.Life: the constructor, Attach(), Detach() and Cleanup(), the health check.
-- The transport (sockets, OpenSSL) and the handler (the user's class) are parameters. What is
-- asked of them is a hypothesis: IsFraming, a length once known does not change when more bytes come;
-- IsHonest, the transport logs what it says it wrote; Drains, it does not ask forever to be read again.
-- The tests have a transport and a protocol for which these hold. A callback acts on the linkage
-- through the state of the connection. The clock stands still within one event.
--
-- ReadWriteLock models flinter/thread/read_write_lock.cpp as it is built without POSIX locks, ObjectPool and
-- ObjectMap flinter/object_pool.h and flinter/object_map.h, TimeoutPool flinter/timeout_pool.h. A
-- function is what a thread does under the mutex of the class. The orders in which threads come are
-- step relations, in the files Exclusion and Sharing. Objects are addresses; what goes to `delete` or
-- Destroy() is a result or a log; Create() is the subclass's, so that what it gives is an argument. Keys
-- are natural numbers, since only their order is used. std::map is the ascending list of Base.Map.
-- ObjectMap.Accounts weighs what Create() gave against what went to Destroy(); ObjectMap.Waking follows the threads
-- that sleep in EraseAll() on `_condition`, as the number that sleeps and the number that is woken.
--
-- AsyncRouter models flinter/linkage/async_router.h over the models of ObjectMap and TimeoutPool: a track of a
-- pending call stands at an address of a store. Calls has the orders of its calls, Pending their proofs.
--
-- LinkageWorker models flinter/linkage/linkage_worker.cpp: its table of clients, timers and commands, and the
-- watchers that it has started in libev. Calls has the orders in which libev and users call it, Release the loops over
-- many clients, and Watchers, Ledger and Commands the proofs.
--
-- FixedThreadPool models flinter/thread/fixed_thread_pool.cpp with what it uses of thread.cpp and
-- abstract_thread_pool.cpp. Calls are the steps of its threads and users, Ledger counts its jobs.
--
-- EasyServer models the channels of flinter/linkage/easy_server.cpp: the tables of each thread's context, the
-- numbers of channels and the counters of connections. Calls has the orders of its calls; Kept is what one context
-- keeps, Counts the sums over all, Books both together; Accepts, Releases and Reconnects are the calls by
-- kind, Reached all their orders; Sends compares Send() and Disconnect() with their jobs. Jobs are the
-- queues of the job workers, with Order for their proofs. No counter of connections reaches 2^64 - 1 there, and no
-- number of a channel 2^63.
--
-- Encode, Explode and Trim model flinter/encode.cpp, flinter/explode.cpp and flinter/trim.cpp on
-- lists of bytes. A range that ends at INT_MAX, at which the `int` of explode_list()'s loop overflows, is undefined and
-- gives no result.
--
-- Base has the shared names, tests on numbers, lists measured by native numbers, integers and maps.
--
-- Loops on fuel: DoReceived() takes a byte in each round and has one round more than bytes; explode()
-- and explode_list() likewise, and explode_lists() takes a list and its end mark in each round. The loop
-- of OnEvent() has as much fuel as it is given, and ends where the transport drains. A loop that runs
-- out of fuel has a result of its own, which no theorem takes for one of the code.
--
-- Not modelled: the loop of libev, the transports, the listeners and the start of the threads of EasyServer,
-- the resolver and the other classes of flinter/linkage, the other thread pools, flinter/types, flinter/zookeeper,
-- flinter/fastcgi, implode() of flinter/explode.h, and the C files, which call the system.
pub mod AsyncRouter
pub mod Base
pub mod EasyServer
pub mod Encode
pub mod Explode
pub mod FixedThreadPool
pub mod Linkage
pub mod LinkageWorker
pub mod ObjectMap
pub mod ObjectPool
pub mod ReadWriteLock
pub mod TimeoutPool
pub mod Trim
