-- ===== src/Lib.antt =====
-- ebot, a small asynchronous network library in C (ebot.c and ebot.h): a model of the library, and
-- theorems about it.
--
-- The program. A server (`ebot_srv`) accepts connections in a master reactor and gives each one
-- through a pipe to one of its slave reactors. A reactor waits for events with `epoll`
-- (`ebot_base`), reads from its clients, and pushes what it has read as packages (`pack_data`) into
-- the ring (`ringq`) of one of the worker threads (`wunit`), which it wakes through an event
-- descriptor. The worker pops the packages and calls the user's callbacks. The events of all
-- reactors come from one memory pool (`mpool`).
--
-- The files. Each top-level file names the C code that it is about; the modules below it hold the
-- further operations and the theorems.
--   Base      outcomes of C code (`Run`), tests and lists on native numbers, `int` with its sign,
--             lists up to order (Bags)
--   Bytes     memory as bytes at offsets, with a four-byte `int`
--   Ring      `ringq_new`, `ringq_push`, `ringq_pop`, byte by byte in the three layouts of an item;
--             Ring/Layout says when a ring holds a list of items, Ring/Queue is the specification, a
--             bounded queue, Ring/Push and Ring/Pop the operations against it, Ring/Locked the calls
--             under the mutex, Ring/Refine a whole client; Ring/Demo has `test_ringq` and
--             `test_ringq_mulit`, with a turn for each round of a thread, and the dumps
--   Pool      `mpool_new`, `mpool_get`, `mpool_put` on the doubly linked list of slabs; Pool/Valid
--             is the invariant, with the free slabs in front and the busy ones behind; Pool/Locked
--             the calls under the mutex, Pool/Session what the pool promises, an allocator over two
--             bags of slabs, Pool/Serve a whole client, Pool/Dump `mpool_dump`
--   Event     `struct event` and `struct ebot_base`; Event/Ctl has `ebot_add_event` and
--             `ebot_del_event`, Event/Loop has `queued_event_readies`, `dispatch_events` and
--             `ebot_loop`, Event/Dump has `ebot_dump`; Event/Tables, Removal, Opening, Closing,
--             Resize, Queue, Waking, Dispatch and Round the theorems
--   Err       `err_doit` and its buffer, the functions and macros around it
--   Vec       `vec_expand`, `vec_splice` and the macros of `Vec`
--   Io        `set_nonblock`, `readn` and `writen`
--   Workers   `wunit` and `wpool`; Workers/Protocol is a step relation of one worker, the reactors
--             that push to it, and `wpool_stop`, with a step for each access to what they share
--   Server    the types of ebot.h, the callbacks of the reactors (Client), `reactor_pool`
--             (Reactors), `ebot_srv_accept` (Accept), `eb_srv_factory_exec` (Factory), `eb_srv_new`
--             and `eb_srv_listen` (Setup), `eb_srv_start` and `eb_srv_destroy` (Run); the theorems
--             follow a message (Handover, Path), a connection (Joining, Hangup, Visit, Closed,
--             Stale), a reactor with its clients (Clients, Arriving, Leaving, Life), a
--             call of `ebot_loop` with the callbacks of a reactor (React, Manned, Reading, Between,
--             Middle, Passing, Stepping, Reported, Round), reactors that share the pool of events,
--             with the accesses of their threads in any order (Threads), what is accepted up to its
--             reactor (Spread, Reach) and the server (New, Starting, Ending)
--   Chat      the callbacks `on_connect`, `on_close` and `on_recv` of chat_server_example.c, and its
--             `main` (Main)
--   Test      the callbacks of test.c, with what they print, and its `main`
--
-- Conventions. A definition has the name of the C function without its prefix where the module says
-- the prefix (`Ring.push` is `ringq_push`), and the C name else. A state is a record that is passed
-- on. A result 0 or -1 is `true` or `false`. `Run` has the outcomes of C code: a result, a call of
-- `exit` or a failed assert, undefined behaviour, and a call that waits for another thread. An
-- address is a number, `NULL` is 0, and a function pointer is a number as well. The numbers are
-- natural numbers; an `int` that can overflow is tested against `INT_MAX`, `slab_used` wraps at
-- `2 ^ 32`, and settings have the type of numbers with a sign.
--
-- Parameters. What the system gives is an argument: whether `malloc` has memory, what `fcntl`,
-- `recv`, `send`, `accept` and `epoll_wait` answer. `epoll_ctl` is the record `Epoll`, whose laws
-- are those of its manual page (`Obeys` and `Accepts` say that it also works where it should); the
-- `TAILQ` macros are the record `TailQueue`; threads, pipes, event descriptors and the user's
-- callbacks are the records `Threads` and `Net`, which have no laws, and a theorem that needs one of
-- a thread (that it can be made, that it ends when it is told) or of a pipe (`Pipes`, which take what
-- they have room for) has it as a hypothesis.
--
-- Threads. A worker with its reactors and its end is Workers/Protocol, and reactors at the pool of
-- events are Server/Threads, with the steps of several threads in any order; there the slabs are
-- memory that all see. In `eb_srv_start` any number of the reactors that it has started have come to
-- the pool before the server takes its slab. Elsewhere the callbacks of one thread run with no other
-- in between.
--
-- Fuel. `Pool.new_loop` has a round for each slab and one more, and so has `Pool.Dump.walk`;
-- `dispatch_events` has one for each event that waits and one for the test: the theorems on them show
-- that these are enough. The loops without an end (of a reactor, a server, `test_ringq_mulit`) run
-- over a list of what they get.
--
-- Not modelled: the messages that other parts print by `err_debug`, the first line of `ebot_dump`
-- and its headings, the overflow of `mem_sz` in `ringq_new` (the library asks for 10240 bytes, the
-- demonstrations for 5120 and fewer), `free` and what only frees
-- (`mpool_destroy`, `vec_deinit`), the PHP clients, and the headers of other projects (sys/queue.h,
-- sys/tree.h, sys/_time.h, include/hashtable.h).
pub mod Base
pub mod Bytes
pub mod Ring
pub mod Pool
pub mod Event
pub mod Vec
pub mod Err
pub mod Io
pub mod Workers
pub mod Server
pub mod Chat
pub mod Test
