-- ===== src/Lib.antt =====
-- The brickred server library in C++: models of its buffer, its codecs, its string functions, its
-- timers, its ranked set, its HTTP parser, its web socket frames, its command line and its shared
-- queue, with the theorems that make them correct.
--
-- The program is a library for network servers. Connections read into and write from a
-- `DynamicBuffer`; the protocols build on it with the codecs (base64, URL, SHA-1, SHA-256, MD5) and
-- the string functions, for the web socket handshake and for HTTP headers; threads pass items
-- through a `ConcurrentQueue`, which the asynchronous log sink and the message queue wrap.
--
-- Files, with the paths of the code from the repository's root:
--   Base             helpers: tests on numbers, lists, bit operations, integers. No code.
--   DynamicBuffer    src/brickred/dynamic_buffer.cc and .h, the class `DynamicBuffer`. The record
--                    `Buffer` has its four fields; a method that changes the object returns the new
--                    one. Integers has `peekInt*`, `readInt*`, `writeInt*`, `readBytes` and
--                    `writeBytes`; Queue is the specification, and Refine runs sequences of calls.
--   Codec            what the text codecs share. A codec's int result is `none` for -1, and else
--                    the list of the bytes written; `to_int` is the conversion of its length.
--   Codec.Base64     src/brickred/codec/base64.cc: `base64Encode` is `encode` on buffers and
--                    `encode_string` on strings, and so for `base64Decode`.
--   Codec.Url        src/brickred/codec/url.cc, in the same way. Percent has the encoding as RFC 3986
--                    has it.
--   Digest           src/brickred/codec/sha256.cc, sha1.cc and md5.cc. The three classes repeat the
--                    text of `update` and `digest`, which is written once, over the block function
--                    and the byte order; Sha256, Sha1 and Md5 have the block functions, the
--                    constants, and the operations of each class under its own name. Padding has the
--                    padding and Text the hexadecimal text of the standards; the block functions
--                    are tested on known answers only.
--   StringUtil       src/brickred/string_util.cc but for `toString`.
--   ConcurrentQueue  src/brickred/concurrent_queue.h. Each method is one atomic section under the
--                    mutex; a call that would wait is `none`. Fifo runs the calls of all threads.
--   Timestamp        src/brickred/timestamp.cc. An operation on int64_t that may overflow wraps
--                    around, where C++ leaves the result undefined. Order has the moments as
--                    numbers of nanoseconds, Distance as numbers of milliseconds.
--   WebSocketProtocol
--                    src/brickred/protocol/web_socket_protocol.cc. Frame has the frames as bytes;
--                    the parent has the states of a connection, `readFrame` and the loop of
--                    `recvMessage`, whose result -1, 0, 1 or 2 of a handler is `Next`. A
--                    `DynamicBuffer` is its readable bytes here, which is what the theorem on
--                    DynamicBuffer.Refine allows. RoundTrip and Delivery follow a message, Limits,
--                    Outcomes, Turns and Loop what `recvMessage` leaves.
--   HttpProtocol     src/brickred/protocol/http_protocol.cc, the class `HttpProtocol::Impl` but for
--                    `writeMessage` and `sendMessage`. Message has the classes of http_message.cc,
--                    http_request.cc and http_response.cc, as one record with a kind; a null
--                    `message_` or `chunk_buffer_` is `none`, and following it makes a handler
--                    `none`. `atoi`, `sscanf` of "%x" and `toString` are arguments. Turns and Bodies
--                    show what a status handler leaves, Chunks that the fuel of the chunk loop is
--                    enough, and Returning and Retrieving the calls. The size of the two buffers of
--                    `readBody` is added without wrapping around.
--   CommandLineOption
--                    src/brickred/command_line_option.cc. Items is what a command line says, and
--                    Parsing, Errors, Returning and Collected what `parse` makes of it.
--   TimerHeap        src/brickred/timer_heap.cc, the class `TimerHeap::Impl`. A `Timer *` is the
--                    timer's id. Slots has the binary heap, with the timers' heap positions, and
--                    the parent the timers themselves; HeapOrder, ShiftUp, ShiftDown and Erase
--                    show the heap operations right, and Valid, Adding, Next, Timeout and Stuck the calls
--                    of the event loop, which asks for the next timeout before it waits and then
--                    lets the timers that are due call back.
--   RankSet          src/brickred/rank_set.h, the class template `RankSet`. Nodes has the nodes, the
--                    rotations, the counts, the iterators and the searches, Rebalance the two fixups,
--                    and the parent `insertNode`, `eraseNode` and the calls. A node with its parent
--                    pointers is a place in the tree, and a pointer that is kept is the value of its
--                    node. Balance, Inserting, Siblings, Erasing and Unlinking show the tree right,
--                    Order has the specification by sorted lists, and Searching, Neighbours, Lookup,
--                    Bounds, Insert, Erase, Walk and Run show the calls right.
--   Mt19937          src/brickred/codec/mt19937.cc, the class `Mt19937::Impl`, but for `nextDouble`.
--                    Range has the indices, and Below what `nextInt(max)` returns.
--
-- A byte is a number below 256, a `size_t` and a `uint64_t` are numbers below 2 ^ 64 and a
-- `uint32_t` is one below 2 ^ 32, with the remainder written where the code may wrap around.
-- Memory that a constructor leaves as it is, the work block of a digest, is an argument.
--
-- Loops on fuel: the block loop of a digest has one round for each whole block, and `split` and
-- `replace` one round for each character and one more; the theorems show that this is enough, since
-- they state the result without a condition on the fuel. The rejection loop of `nextInt(max)` has
-- fuel too, and is `none` without it: no bound on it holds for all states of a generator, but one
-- round for each word drawn is enough. The loops
-- of the timer heap have one round for each place of the heap; `check_timeout` is `none` when its
-- fuel runs out, which a theorem excludes for timers that are not to come again, and another one
-- shows to be inevitable for a timer that comes again at once. The loops of the web socket's
-- `recvMessage` and of `parse` have one round for each byte and for each argument, and one more;
-- theorems state that they return. Four rounds are enough for the `recvMessage` of HTTP, which a
-- theorem states, and one round for each byte and one more for its chunks. The loop of
-- `eraseNodeFixup` has two rounds more than there are nodes above node_x, which is enough since
-- the theorems state that the calls of the set return. All other loops are structural recursion.
--
-- Not modelled: the wrappers of system calls (sockets, threads, locks, signals, files), the
-- writing of HTTP messages and the handshake of the web socket; the reading and printing of the
-- system's time; failure of an allocation; `toString` of the string functions; which waiting thread a
-- condition variable wakes.
pub mod Base
pub mod DynamicBuffer
pub mod Codec
pub mod CommandLineOption
pub mod Digest
pub mod StringUtil
pub mod ConcurrentQueue
pub mod HttpProtocol
pub mod Mt19937
pub mod RankSet
pub mod TimerHeap
pub mod Timestamp
pub mod WebSocketProtocol
