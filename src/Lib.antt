-- ===== src/Lib.antt =====
-- UniBus Toy: a toy interconnect in Rust with a global address space, reliable transport and a
-- managed memory layer. This library models its wire format, its reliable transport, its
-- devices, memory regions and jetties, its control plane and its verb engine, and of the
-- managed layer the writer locks, the allocator, the region table and the cache pool.
--
-- The parts, and the files that model them:
--
--   Base         Boolean tests, lists, bits and association lists over native numbers.
--   Core         crates/ub-core/src. Core/Addr is `UbAddr` (addr.rs), Core/Va is `UbVa` and
--                Core/Verb is `Verb` (types.rs), Core/Error is `UbError` (error.rs) with the type
--                of results, Core/Bytes the big-endian bytes of a number. The other bytes of
--                types.rs are Core/DeviceKind, StorageTier, AccessPattern, LatencyClass,
--                CapacityClass and Perms. Core/Device is the `Device` trait (device.rs) over
--                Core/Device/Memory and Npu (device/memory.rs, device/npu.rs), whose common
--                accesses are in Core/Device/Backing, on slices of Core/Buffer. Core/Mr is the
--                table of memory regions and Core/MrCache that of remote ones (mr.rs); Covering,
--                Kept and Registered have the proofs. Core/Verbs is verbs.rs, with Regions on its
--                verbs. Core/Jetty is `Jetty` and Core/Jetty/Table `JettyTable` (jetty.rs), with
--                Order, Depths and Defaults on them.
--   Wire         crates/ub-wire/src. Wire/Frame has the headers and flags of frame.rs, and
--                Wire/Codec the encoders and decoders of codec.rs under their names. Below
--                Wire/Codec, RoundTrip and Acks prove the round trips, with lemmas in Reading,
--                Header and Ext, and Rejection proves what the decoder accepts.
--   Transport    crates/ub-transport/src. Transport/Dedup is `DedupWindow` (dedup.rs): Bitset has
--                the shift of its words, Invariant its validity, Refinement its meaning as a set.
--                Transport/ReadCache is `ReadResponseCache` (read_cache.rs). Transport/Session is
--                `ReliableSession` (session.rs): State has its record, Sending and Receiving its
--                operations; Deliveries, Acks, Sack, Queue and Timeout have the proofs.
--                Transport/Manager is `TransportManager` (manager.rs): State has its record, Frames
--                the frames it builds, Send, Operations and Handlers its methods, Timer the tick
--                of its timer task; Effects, Delivery, AtMostOnce, Acks and Calls have the proofs.
--   Control      crates/ub-control/src. Control/Message has a module for each payload of
--                message.rs, Control/Cursor its strings and vectors, Control/Framing the length
--                and type in front, Control/ControlMsg the messages, with RoundTrip, Total and
--                Rejection. Control/Member is `MemberTable` (member.rs), with Entries. Of
--                control.rs, Control/Plane has the state and what is sent, Control/Plane/Process
--                `process_control_message`, Control/Heartbeat the heartbeat loop of `start`;
--                Joining, Detection and Rejoin have the proofs.
--   Dataplane    crates/ub-dataplane/src/lib.rs. Dataplane/Frames builds its frames, State is
--                `DataPlaneEngine`, Handlers and Atomics the `handle_*` functions of the
--                requests, Dispatch `handle_verb_frame` and `disconnect_peer`, Calls the methods
--                `ub_*_remote`; Holds, GivesBack, Returned, Remote, Errors, Answers, Sessions and
--                Replays have the proofs.
--   Managed      crates/ub-managed/src. Managed/Coherence is `CoherenceManager` (coherence.rs), with
--                Lease, Runs and Exclusive on its writer lock; Managed/SubAlloc is `SubAllocator`
--                (sub_alloc.rs), with Disjoint on its ranges; Managed/Region is `RegionTable`
--                (region.rs); Managed/CachePool is `CachePool` (cache_pool.rs), with Budget and
--                Insert on its count of bytes.
--   Tests        runs at concrete inputs.
--
-- A session owns a dedup window and a read cache: `receive_frame` asks the window about a number
-- and marks it, `build_ack_payload` reads the window, and the payload it returns is what the
-- codec carries to the peer, whose session applies it with `process_ack`. A manager keeps the
-- sessions by local node, peer and epoch, stamps and sends frames through them, and hands an
-- incoming frame to the session it belongs to and to the layer above.
--
-- A region of memory lies on a device; a local verb finds the region of an address in the table,
-- asks for its permission, and reaches the device through the pointer of the entry. The region
-- table sends its events to the control plane, which publishes them to the members and enters
-- those of others in the cache of remote regions. The heartbeat loop moves the states of the
-- members that the messages enter. The verb engine takes the frames that the transport delivers,
-- serves the requests among them on the regions, devices and jetties of the node, and gives the
-- responses to the calls that wait for them.
--
-- State is a record, and a method that changes it returns the new record with its result. A
-- fallible method returns `Result`, which has a third case for a slice out of bounds. Integers are
-- natural numbers that wrap at their width, as in a release build, where the code can reach it;
-- saturating operations saturate. Instants are nanoseconds, and every reading of the clock is an
-- argument; readings in one loop are one argument. The operations on `f64` are a parameter of
-- which nothing is assumed. A buffer is the list of its bytes, and a hash map an association list.
--
-- The loop of `mark_and_advance` runs on fuel 1025. A slide drops the lowest of 1024 bits, so that
-- a valid window ends within 1024 rounds. The loop of the cache pool's `insert` runs on one round
-- more than there are entries, each of which evicts one. All other loops are structural recursion.
--
-- A method of the manager is one step: its locks are held within it. The bounded channels to the
-- peers are a parameter, a type of senders with a test of whether one takes a frame at the moment.
--
-- A word of an atomic operation lies in memory lowest byte first. A String is the list of its
-- bytes, which pass the test of UTF-8; running out of memory is not modelled. The channels of the
-- control plane are numbers, with a test of which still have their reader. A panic in a handler of
-- the verb engine ends the task that dispatches its frames.
--
-- Not modelled: the spawning of tasks and the TCP connections of crates/ub-control, the wait of an
-- asynchronous deregistration, the rest of the managed layer (placement, fetching and registry of
-- crates/ub-managed), the tasks and sockets of the verb engine, and the parts that are I/O,
-- configuration or wiring (crates/ub-obs, crates/ub-fabric, crates/unibusd, crates/unibusctl).
pub mod Base
pub mod Core
pub mod Wire
pub mod Transport
pub mod Control
pub mod Dataplane
pub mod Managed
mod Tests
