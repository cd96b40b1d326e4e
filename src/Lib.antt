-- ===== src/Lib.antt =====
-- Verification of shm2-rs: a shared-memory transport for media frames between one writer and one reader,
-- the GStreamer elements on top of it, the backends below it, and the relay daemon.
--
-- The parts and how they interact. A writer (src/transport.rs, `Writer`) maps a region through a backend
-- (src/platform), lays it out as a header, a ready ring, a recycle ring and a payload arena, and keeps
-- the arena's free-list allocator (src/allocator.rs) to itself. `publish` allocates, copies the payload
-- and queues a descriptor on the ready ring. A reader (`Reader`) takes descriptors off that ring and
-- gives buffers back on the recycle ring, which the writer drains into its allocator. The writer emits
-- timeline snapshots, from which the source element (src/shm2src.rs) computes presentation times. The
-- sink element (src/shm2sink.rs) owns a writer, hands arena memory to upstream elements and publishes
-- what they render. The relay daemon (src/bin/shm2_relayd.rs) switches pipelines by its clients. The
-- producer and the consumer (src/bin/shm2_producer.rs, shm2_consumer.rs) are a writer and a reader on the
-- command line.
--
-- Which file models what:
--   Base/            lists, maps, text, comparisons, `u64` and `i64` arithmetic with its wrap-around
--                    written out
--   Platform         src/platform/mod.rs: `ShmError`, and `Result` with `?` as a do block
--   Platform/Resolve src/platform/mod.rs: `resolve_backend`
--   Platform/Posix, Named, Ivshmem
--                    src/platform/posix_file.rs, windows_named.rs, windows_ivshmem.rs: `create` and
--                    `open` of each backend, and the drop of its region
--   Allocator        src/allocator.rs: `FreeListAllocator::{new, alloc, free_by_id, used_bytes}`. Valid
--                    has the invariant; FirstFit and Alloc are about `alloc`, Coalesce, Merge and Free
--                    about `free_by_id`, Align about `align_up`, Ids about the ids that are handed out,
--                    Reserve about how long requests succeed while nothing is freed
--   Transport/Types, Layout, Create, Timeline, Writer, Reader
--                    src/transport.rs: types, `map_layout`, `init_header`, `validate_header`,
--                    `Writer::create`, `impl Writer`, `impl Reader`, each operation under its own name
--   Transport/Ring, Queues
--                    a ring as the list of its entries: `ready_queue` and `recycle_queue` are the
--                    abstract state against which the operations are specified
--   Transport/Publish, Receive, Latest, Live, Lease, Drain, Return, Attach, Payload, RoundTrip, Deliver
--                    proofs about the operations, and about writer and reader together
--   Transport/Owners writer, reader and those who hold buffers as a step relation: Ledger and Books say
--                    who has which buffer, Grant, Moves, Reads and Latest are about single operations,
--                    System about their sequences, Hold about the bytes of a frame that a
--                    consumer holds
--   Transport/Channel
--                    writer, reader and producers as a queue of frames, each with its bytes and its time,
--                    from which the oldest may be lost: Steps is about single operations, Order about
--                    their sequences, Alone about `publish` while nobody has a buffer
--   Transport/Atomic `publish_lease` and `try_recv_desc` a load, a store or a copy at a time, in any
--                    interleaving, of leases that are live: Slots is about single stores, Fifo and
--                    Order about the order of the frames, Overrun about `drop_oldest_ready` in the
--                    middle of `try_recv_desc`
--   Src              src/shm2src.rs: `set_property`, `start`, `stop`, `unlock`, `unlock_stop`, `create`,
--                    `update_clock_sync`. Src/Create has `create`, Src/Properties `properties` and
--                    `property`; Src/Sync, Src/Stamp and Src/Unlock have the proofs, Src/Owners
--                    the life of a buffer that is handed on
--   Sink             src/shm2sink.rs: `set_property`, `start`, `stop`, `unlock`, `unlock_stop`, the
--                    collector thread's round; Sink/Tracker has `AllocTracker` and the allocator,
--                    Sink/Render has `render`; Running, Render/Fast, Copied, Blocked and Oversized
--                    the proofs, Owners the pending leases as owners of buffers, with Sharing the
--                    orders of the operations and Delivery the frames that come out,
--                    Properties `properties` and `property`
--   Relay            src/bin/shm2_relayd.rs: Listen has `parse_listen`, Pipeline `normalize_pipeline`,
--                    Args `parse_args`, with the proofs in Args/Written, Lines `hold_connection`,
--                    Clients the counter of the listeners and `notify_client_count` as a step
--                    relation, Samples the callback `new_sample` of the two pipelines,
--                    Setup how a pipeline is built, Sockets the two listeners, Daemon `main`
--   Bin              src/bin/shm2_producer.rs, shm2_consumer.rs: Args has the command line, Producer and
--                    Consumer each `main`; Producer/Frames, Producer/Whole and Consumer/Order the proofs,
--                    Session the two programs on one region
--   Tests            in each part, concrete inputs
--
-- How state is modelled. `Region` is the mapped memory that both ends share; an operation takes it and
-- returns it, so each is one run of the code between two points at which the peer acts. The calls that
-- poll take the peer's actions during their sleeps as a list of functions on the region, and return
-- `none` when the list ends before they do. In Transport/Owners
-- the operations of both ends come in any order; in Transport/Atomic the single accesses of a publishing
-- writer and a receiving reader do. The counters are stored with release and loaded with acquire there, so
-- steps on one memory are what each end sees. The other operations are not taken apart in this way.
-- `render` and `create` take what the other threads do during their sleeps as functions on the element's
-- state, which they cannot change while a round holds the mutex. The reader of the source element has a
-- mutex of its own: a round of `create` also takes the drops of buffers that get it first. Clock readings,
-- the process id, the target system, the system calls and the regions that they map are
-- arguments. Addresses into the arena are relative to its base.
--
-- Fuel. `alloc_loop` has a round more than there are frames queued, since each round but the last drops
-- one; `drain_loop` a round more than there are buffers to free; `drain_lines` has a round
-- for each byte, since a line has one at least. That it is enough is proved. `render_loop` has a round for
-- each sleep that it is given, and returns `none` when it has not returned after them; `create_loop`
-- likewise, with `polling` and, while it waits for the reader's mutex, `blocked`.
--
-- The loops of the producer and the consumer have the attempts, the turns and the sleeps that they are
-- given, and return `none` when they have not ended after these.
--
-- Bounds. The theorems on rings take counters below 2 ^ 63 (`IsRing`), an arena of at most 2 ^ 63 bytes
-- and alignments of at most 2 ^ 62. Sums that overflow wrap, as in a release build.
--
-- Not modelled: what GStreamer does with the pipelines of the daemon and with the elements, the sockets
-- themselves, the lines on the console, the plugin glue (src/lib.rs, src/main.rs), the classes of the
-- elements with the nicknames and blurbs of their properties, the texts of the errors, and poisoned
-- mutexes. These are calls of libraries, or text that nothing reads.
pub mod Base
pub mod Allocator
pub mod Platform
pub mod Transport
pub mod Sink
pub mod Src
pub mod Relay
pub mod Bin
