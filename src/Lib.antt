-- ===== src/Lib.antt =====
-- The core of sio, a library of senders for input and output (source/sio).
--
-- Parts. Buffers and spans of buffers (const_buffer, const_buffer_span) describe the bytes of a
-- transfer; partial transfers cut them with prefix, suffix and without_prefix. Intrusive containers
-- (intrusive_queue, intrusive_list) link operations that wait. async_mutex completes the operations
-- of a queue one at a time, and memory_pool gives out blocks of memory and lets allocations wait in
-- an intrusive_list, one for each size class. buffered_sequence repeats transfers over buffers until
-- they are used up. The algorithms on sequences compose several of them (merge_each, zip), run the
-- items of one at the same time (fork), or keep one value of its items (first, last, scan). An
-- async_channel passes on items to its subscriptions, and async_resource opens resources, hands on their
-- tokens as items and closes them. Addresses, endpoints and protocols are the values
-- that sockets are opened, bound and connected with, and async::resolve looks them up by name.
--
-- Files, with paths from the root of the repository:
-- Prelude: shared names, Boolean tests on numbers, lists, 64-bit words, arrays as functions.
-- Buffer: source/sio/const_buffer.hpp (operator+= is `advance_by`, operator+ is `plus`);
--   Buffer.Mutable: source/sio/mutable_buffer.hpp, with the prefix `mutable_`.
-- BufferSpan: source/sio/const_buffer_span.hpp and const_buffer_span.cpp, and without_prefix of
--   source/sio/buffer_algorithms.hpp. The constructors are `of_span` and `make_subspan`, the
--   iterator's operator* is `deref`. A pointer to buffers is the list of the buffers from there on.
--   BufferSpan.Step has its ++ and --. source/sio/mutable_buffer_span.* are the same text.
-- Intrusive: source/sio/intrusive_queue.hpp (Intrusive/Queue) and source/sio/intrusive_list.hpp
--   (Intrusive/DoublyLinked, whose methods are called list_..., and erase) over a heap of links.
-- AsyncMutex: source/sio/async_mutex.hpp. `advance` is one atomic action of lock_operation::start,
--   `Step` an action of some run, a new call, or the delay of the release store of locked_ past the look
--   at the queue that follows it, `Reach` the states that follow, with such delays or without.
-- MemoryPool: source/sio/memory_pool.hpp and memory_pool.cpp. `start_allocate`, `start_deallocate`,
--   `on_receiver_stop`, `reclaim_memory` and `destroy` are the operations of the pool, and
--   MemoryPool/Log2 has log2_64 and memory_pool::allocate.
-- Ip: source/sio/ip/address.hpp (address_v4 in Ip/V4, address_v6 in Ip/V6, address in Ip/Address) and
--   source/sio/ip/endpoint.hpp (Ip/Endpoint), on a little-endian host.
-- BufferedSequence: source/sio/sequence/buffered_sequence.hpp. `advance` and `advance_vector` are the
--   two classes buffer_span, `run` the course of sequence_op over the items that it is given.
-- MergeEach: source/sio/sequence/merge_each.hpp. `advance` is one atomic action of the receiver of one
--   of the sequences.
-- First, Fork: source/sio/sequence/first.hpp and fork.hpp, with the interleaved runs of Interleaving;
--   an `advance` of a run is one atomic access or what it does under a mutex.
-- AsyncChannel: source/sio/async_channel.hpp, one subscription and the requests that the mutex orders.
-- Zip: source/sio/sequence/zip.hpp. `advance` has the steps of notify_result_completion as the source
--   counts them, and notify_stop; Zip/End has how the sequences end, each with its own actions.
-- Items: source/sio/sequence/last.hpp (Items/Last) and source/sio/sequence/scan.hpp (Items/Scan);
--   Items/Reduce is source/sio/sequence/reduce.hpp, which composes the two.
-- Ip/Protocol, Ip/Resolve: source/sio/ip/tcp.hpp, udp.hpp and source/sio/ip/resolve.hpp. `notify`
--   is the callback of getaddrinfo_a, `start_next` the walk over the results.
-- AsyncResource: source/sio/async_resource.hpp, several resources at the same time.
-- IoUring: source/sio/io_uring/file_handle.hpp, file_handle.cpp and socket_handle.hpp. `submit_...`
--   is the entry that an operation submits, `complete_...` how it takes the result.
--
-- Bounds and fuel. std::size_t is a number below 2^64, with `add64` and `sub64` where the source adds
-- and subtracts. The loop of make_reversed and that of the pool's destructor run on fuel, and their
-- theorems give a result for every fuel above the number of items. A read through nullptr, outside of
-- an array, a failed assertion, an undefined shift and a second lock of a locked mutex are `none`.
-- A run of zip alone has fuel for the eight actions that make a row and for its end, and its theorem
-- gives a result. ref_counter_ of fork and n_ready_next_items_ of zip wrap around; atomics are taken
-- as sequentially consistent, but for the release store of locked_ of async_mutex, which may be late.
--
-- Parameters. The atomic queue of stdexec is a record of operations and laws (AtomicQueue), and the
-- upstream resource of the pool is a record of functions over a state of its own (MemoryResource).
-- exec::finally is a function of the completions of its two senders.
--
-- Not modelled. Senders, receivers and environments of stdexec, the ring of io_uring and its stop
-- requests, tap, finally, repeat and the sequence adaptors without state of their own, how an
-- item of a zipped sequence completes, the variants for lock-step sequences, the text
-- forms of addresses, the container iterators, and the concepts, which exist at compile time only. A
-- destructor that a deallocation calls is taken not to touch the pool.
pub mod Prelude
pub mod Buffer
pub mod BufferSpan
pub mod First
pub mod Fork
pub mod Interleaving
pub mod Intrusive
pub mod AsyncChannel
pub mod AsyncMutex
pub mod AsyncResource
pub mod MemoryPool
pub mod Ip
pub mod BufferedSequence
pub mod MergeEach
pub mod Items
pub mod IoUring
pub mod Zip
