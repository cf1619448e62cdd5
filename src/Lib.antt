-- ===== src/Lib.antt =====
-- Verification of the core of Shuttlesock, a framework for servers of one master, one manager and
-- several worker processes, each with an event loop.
--
-- The parts and how they interact. Every process allocates from page pools. Processes send
-- messages through ring buffers in shared memory: a sender writes to the ring of the receiver and
-- notifies it, buffers what the ring has no room for, and retries on a timer; the master and the
-- workers reach each other by way of the manager. The notices, as all reads and writes, are
-- operations on a descriptor with a watcher of the loop. Modules are tied together by events,
-- which listeners may pause, delay or cancel.
--
-- The modules and the code:
--   Base: shared names, tests into Bool, lists over native numbers, 64-bit words.
--   Pool: src/pool.c and src/include/shuttlesock/pool.h. `Pool` is `shuso_pool_t`; Pool has
--     `add_page`, `remove_last_page` and the allocation in the current or a new page, Pool.Alloc
--     `shuso_palloc`, `shuso_pool_mark_level`, `shuso_pool_drain_to_level`, `shuso_pool_empty` and
--     `shuso_pool_space`. Pool.Books says what right accounts are, Pool.Outcome how an
--     allocation ends, Pool.Region where it lies, Pool.Levels to Pool.Rollback the round trip of a level,
--     Pool.Empty the start and the end of a pool.
--   Ipc.Ring: the ring buffer of src/ipc.c, with `ipc_send_direct` as `send_direct` and
--     `ipc_receive` as `receive`. Ipc.Ring.Window says what consecutive slots hold, Refine and Receive
--     relate the ring to a queue.
--   Ipc.Send: `shuso_ipc_send`, its buffer, its retry and its proxy in src/ipc.c, and the handlers
--     of proxied messages in src/ipc_commands.c. Ipc.Send.Order says what is pending, Step and Retry are
--     about one call, Fifo about runs, Proxy about the way through the manager.
--   Io: `shuso_io_t` of src/include/shuttlesock/io.h and the parts of src/io/io.c that all operations
--     share. Io.Iovec is the progress of an operation on several buffers, Io.Ev is
--     src/io/io_libev.c, Io.Ops the functions that start and stop an operation,
--     with Io.Ops.Wait on the wait for a descriptor.
--   Event: `fire_event` and the interruptions of src/event.c.
--   Ipc.Handlers, Ipc.Channel: `shuso_ipc_add_handler` of src/ipc.c and `shuso_ipc_commands_init` of
--     src/ipc_commands.c; `shuso_ipc_channel_shared_create` and `shuso_ipc_channel_shared_destroy`.
--   Buffer: src/buffer.c and src/include/shuttlesock/buffer.h, a list of links in memory; Buffer.Queue
--     relates it to a queue.
--   Procs: the processes in src/shuttlesock.c and src/modules/core/core.c. Procs.Number is their numbers, Procs.Check
--     `shuso_runstate_check`, Procs.State the functions that change run states, with Stop what ends a
--     manager, Steps the calls in any order, Keep and Life what they keep; Procs.Run is what is held on
--     each path of `shuso_run` and `shuso_initialize_worker`.
--   Errors: `shuso_set_error` and the capture of errors in src/shuttlesock.c.
--   Llist: src/include/shuttlesock/llist.h, and the timers of src/watchers.c.
--   Instring: src/instring.c, the interpolation and the values of an instring, and Instring.Copy the copy
--     for a worker.
--   Setup: `shuso_create_with_lua`, `shuso_configure_finish` and `shuso_destroy` of src/shuttlesock.c, with
--     the creation and the end of the mapping in src/shared_slab.c;
--     Held, Finish and Life on what an instance holds behind each of them.
--   Modules: the loops of src/module.c that initialise the modules, Loops on a loop, Order for the master and
--     Worker for a worker.
--   Log: `shuso_log_level_vararg` of src/log.c. Log.Print is what the buffer holds, Prefix the
--     length of the text in front, Line the line that is written.
-- Each component has its witnesses in a module Tests of its own.
--
-- How it is modelled. The build is one for 64-bit little-endian Linux with libev, without
-- io_uring, valgrind and sanitizers, and with SHUTTLESOCK_POOL_TRACK_SPACE. A `size_t`, `ssize_t`
-- or `int64_t` is its bit pattern, a natural number below 2^64, and arithmetic wraps where the
-- code's does. Addresses are numbers. State is passed explicitly; a failed assertion, an access
-- outside of an array or a dereference of NULL is a result of its own. The answers of malloc, of
-- the shared slab and of system calls are arguments. User callbacks are arguments too. Calls run
-- one at a time: the interleaving of two processes inside of a call on a ring is not modelled.
--
-- Bounds and fuel. Deleting timers takes a round for each and one more; fewer than 2^31 errors
-- are set. A number in a line of the log has at most ten digits, as an int has. `receive` is
-- given a number of rounds; 257 are enough for a ring, which holds at most 256 messages. The
-- indices of a ring are taken to be below 2^62. The loop that stands for the event loop in
-- Io.Ops.Whole is given a number of rounds; one for each answer of the kernel is enough. An
-- allocation is of less than 2^62 bytes, and an event has fewer than 2^16 listeners.
--
-- Not modelled: the slab allocator (an adaptation of that of nginx, whose answers are arguments),
-- io_uring, the resolver, and everything that is a binding to Lua: the registration of modules,
-- the settings, the server, the registration of events, the reading of an instring's tokens, of
-- which none is taken to be a constant variable. Descriptors sent over a socket are not modelled,
-- and neither are the values of settings.
pub mod Base
pub mod Pool
pub mod Ipc
pub mod Io
pub mod Event
pub mod Buffer
pub mod Procs
pub mod Errors
pub mod Llist
pub mod Instring
pub mod Log
pub mod Modules
pub mod Setup
