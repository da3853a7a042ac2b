-- ===== src/Lib.antt =====
-- A verification library for myclib, a C library of containers, timers, parsers and small services.
--
-- Parts of the program that are modelled, and the files that model them:
--
-- * include/ring.h (Ring): the record `Ring` is `struct ring_s`, and `ring_new`, `ring_expand`,
--   `ring_push`, `ring_push_h`, `ring_tighten` and the macro `ring_for_each_idx` are the functions
--   of those names. Ring/Bounds has the representation invariant, Ring/Refine the queue that a ring
--   holds, Ring/Run sequences of calls as in src/ring.c.
-- * src/arr.c and include/arr.h (Arr): the growing array, with `arr_push`, `arr_pop`, `arr_del` and
--   `arr_for_each`. Arr/Contents and Arr/Push relate an array to the list of its elements,
--   Arr/Delete does so for `arr_del`.
-- * src/table.c (Table): the chained hash table. `cmp` and `hash` are arguments with the laws of
--   Table/View (`KeyLaws`): being the same is an equivalence, and keys that are the same have one
--   hash. Table/Put, Table/Remove, Table/Collect and Table/Visit have the operations, Table/Destroy
--   has `table_free` over the addresses of the entries. `table_to_array` fills an array of Arr.
-- * src/mpool.c and include/mpool.h (Mpool): the memory pool. Mpool/Blocks and Mpool/Alloc have one
--   allocation, Mpool/Regions and Mpool/Run sequences of them, Mpool/Free the large allocations,
--   Mpool/Overflow the call that does not bound its request. An address is a block and an offset.
-- * include/buf.h (Buf), src/com_msg.c and include/com_msg.h (Cmsg): messages framed in a stream.
--   `cmsg_send` gives the octets that are written, `cmsg_recv_and_deal` takes the results of its
--   reads. Cmsg/Frames has the frames in the cache of the receiver, Cmsg/Reads messages that arrive
--   in two reads, Cmsg/Stuck a message larger than the cache. The inner loop has fuel, a round more
--   than octets in the cache, which is enough since a round takes at least eight.
-- * src/timer_wheel.c and include/timer_wheel.h (TimerWheel): the timers. A callback is a function
--   that tells which timers it adds and deletes. TimerWheel/Order has the slots and the invariant,
--   TimerWheel/Tick and TimerWheel/OnTime a tick, TimerWheel/Armed a timer over many ticks.
-- * src/timer_list.c and include/timer_list.h (TimerList): timers in one sorted list.
--   TimerList/Order has the order, TimerList/Tick the tick. Callbacks are as in TimerWheel.
-- * src/dns.c and include/dns.h (Dns): the parser of DNS messages, over a packet of any bytes. A
--   result (Outcome) is a value, the return of -1, or a fault. Dns/Reads has the accesses,
--   Dns/Safety and Dns/Names the names, Dns/Message the records and the message. The loop over the
--   labels of a name has fuel, a round more than bytes in the packet, which is enough since a round
--   reads at least one.
-- * src/trie.c and include/trie.h (Trie): domains with values and wildcards. Trie/Domain has the
--   labels of a domain, Trie/Paths the map from paths to values that a trie stands for, and
--   Trie/Insert, Trie/Get and Trie/Remove have the operations on that map.
-- * src/thread_pool.c (ThreadPool): workers and callers as a step relation, one access of shared
--   memory to a step. ThreadPool/Threads sums over the threads, ThreadPool/Invariant has what every
--   step keeps, ThreadPool/Safety what follows over all interleavings.
-- * src/fmt.c (Fmt): the formatter over any sink; whether `fmt_put` can read the fields of a
--   `fmt_buf_t` through the pointer of the sink is an argument. Fmt/Numbers reads the texts of numbers back,
--   Fmt/Sinks has the output of a format, Fmt/Bounded the buffer of `fmt_snprint`, Fmt/RoundTrip the
--   formats of one number. The room that is left in the buffer of digits counts the rounds of a loop,
--   which faults without room; the buffers have 43 bytes or more, and a number needs at most twenty.
-- * include/tlv.h (Tlv): typed values in a payload. Tlv/Octets has the octets of numbers and memory,
--   Tlv/RoundTrip a value on both sides, Tlv/Limits what is lost or not checked.
-- * src/str.c and include/str.h (Str): search and comparison of strings with a length; Str/Find has
--   the search.
-- * src/async_work.c (AsyncWork): works with deadlines, as one sorted list and a clock.
--   `async_work_work` is followed to the call of the work. AsyncWork/Order has the order,
--   AsyncWork/Deadlines the checks.
-- * src/logger.c (Logger): the log file that is kept short.
-- * src/memchk.c (Memchk): the allocator that checks its callers. Memchk/Chains, Memchk/Free and
--   Memchk/Calls have one call, Memchk/Blocks the list of the blocks that are given out and
--   Memchk/Run sequences of calls, Memchk/Guards the guards and the memory that mem_realloc loses.
--   The lists of list_head.h are an interface, `Hlist`, with the laws that the code relies on.
-- * tools/muniq/muniq.c (Muniq): the filter for repeated blocks of lines, over the octets of a
--   mapped file. Muniq/Lines has the lines that are marked, Muniq/Repeats and Muniq/Found the
--   search, Muniq/Blocks and Muniq/Twice the same as lists, Muniq/Ends and Muniq/Copy the loop,
--   Muniq/Edges and Muniq/WholePages files that are not expected, Muniq/Ints the range of its ints. The
--   length of the file and `max_repeat_line * 2 + 1` are ints: a file that is empty or has 2 ^ 31 octets
--   or more, and a larger limit, are faults. The loop has fuel, a round more
--   than octets, since a round copies at least one.
-- * src/trace.c (Trace): the executable regions of the process and the search for an address.
--   Trace/Numbers and Trace/Regions have a line that describes a region, Trace/Lookup the lines and
--   the search.
-- * src/bitmap.c (Bitmap): a set of numbers in words. Bitmap/Bits has the bits of a number, Bitmap/Words
--   one call, Bitmap/Run sequences of calls.
-- * src/task.c (Task): the daemon that restarts its child, as a step relation. Task/Child has the
--   process that the parent takes for its child. Whether the file of the pid can be written is an
--   argument. A handler of a signal runs to its end before another one begins.
-- * src/crypto.c (Crypto): data of any length by RSA and by AES, over the functions of OpenSSL.
--   Crypto/Rsa has the rounds of RSA, Crypto/Padding that of PKCS#7, Crypto/Buffers the buffers. A loop
--   has fuel, a round more than octets, which is enough since a round takes at least one. The length of
--   the data for AES is an int; a sum that no int holds is a fault.
--
-- Common conventions (Prelude): numbers are natural numbers, an `unsigned int` keeps its
-- wrap-around (`u32`, `% 2 ^ 32`). A block that `malloc` returned is a `Block` of Prelude/Memory,
-- with its room and its cells, one cell to an element; a read or write outside it, a read of a cell
-- that was never written, and a failed `assert` are a fault, the `none` of an option. Pointers into
-- a block are indices; the other parts say how they represent memory. A pointer whose target the
-- code does not read is a number, 0 for `NULL`. State that a function changes through a pointer is
-- returned. Every loop but those above that have fuel is structural recursion over the remaining
-- elements or rounds.
--
-- Not modelled: printing and logging, tests and demonstrations, locks inside one operation (each
-- operation of the table holds the lock of one bucket from its lookup to its last write), the parts
-- of the library that only call the operating system, what is copied from other projects (lists,
-- locks, RCU, exceptions), the functions of OpenSSL, and the padding with
-- zeros of src/crypto.c, which gives OpenSSL a last block that is not whole.
pub mod Arr
pub mod AsyncWork
pub mod Bitmap
pub mod Buf
pub mod Cmsg
pub mod Crypto
pub mod Dns
pub mod Fmt
pub mod Logger
pub mod Memchk
pub mod Mpool
pub mod Muniq
pub mod Outcome
pub mod Prelude
pub mod Ring
pub mod Str
pub mod Table
pub mod Task
pub mod ThreadPool
pub mod TimerList
pub mod TimerWheel
pub mod Tlv
pub mod Trace
pub mod Trie
