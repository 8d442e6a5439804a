-- ===== src/Lib.antt =====
-- A verification library for the TinyKVCache server: its protocol, its store, its connections and its
-- shutdown.
--
-- A client sends frames: four bytes of length, then a command line. A reactor reads a connection, splits
-- the bytes into frames (src/core/frame_codec.cpp), parses each line (src/core/command_parser.cpp), runs it
-- on the shared store (src/core/command_executor.cpp, src/core/kv_store.cpp), and queues the response in
-- the connection's write buffer (src/net/output_buffer.cpp), under watermarks and a hard limit
-- (src/net/sub_reactor.cpp). An acceptor (src/net/tcp_server.cpp) hands new clients round the reactors and
-- leads the shutdown. The configuration is read by src/config/config_loader.cpp, and
-- src/observability/server_metrics.cpp counts.
--
-- Prelude holds what the parts share: Boolean tests on numbers, lists over the native numbers, equality as
-- an interface, association lists for std::unordered_map, wrap-around arithmetic and string literals.
--
-- Core/FrameCodec: `encode` and `decode` are the two overloads of src/core/frame_codec.cpp. The loop of
-- Decode runs on as much fuel as the buffer has bytes, and each round removes at least four.
-- Core/KvStore: the methods of src/core/kv_store.cpp on a record of its members; the time of the call is an
-- argument. KvStore/Sweep has the removal of expired keys and the rebuilding of the heap. Trace has the
-- sequences of calls, Spec the contract, Refinement the proof that joins them.
-- Core/CommandParser and Core/CommandExecutor: src/core/command_parser.cpp and command_executor.cpp.
-- Net/OutputBuffer, Net/IoEvent: src/net/output_buffer.cpp and include/tinykv/net/poll/io_event.h.
-- Net/Connection, Net/ClientEvents: one connection in src/net/sub_reactor.cpp, its handlers in the second.
-- The result of recv and send, and the clock, are arguments of the handlers.
-- Net/Poller: src/net/poll. Poller/Command is the interface that PollPoller (Poller/Poll) and EpollPoller
-- (Poller/Epoll) implement: their calls, and what each promises. The flags of the system and the answers
-- of its calls are parameters.
-- Net/ScopedFd, Net/Signals: src/net/scoped_fd.cpp and src/net/wakeup/termination_signal_handler.cpp.
-- Net/SubReactor: a reactor's control requests, its set of clients and its shutdown; SubReactor/Loop has one
-- round of EventLoop, and the steps that the reactor's thread and its callers take, in any order. An
-- exception of the poller's Modity ends the round; the operations that call it are modelled where it is taken.
-- Net/TcpServer: the checks of the constructor, accepting, and the shutdown of the whole server;
-- TcpServer/Loop has one round of Run and the steps of the whole server, in which the acceptor and the
-- reactors take turns in any order; TcpServer/Sweeper has the sweeper thread. The rounds of a wake-up of
-- the sweeper run on one unit of fuel more than the heap has records, and each takes one away.
-- Config: src/config/config_loader.cpp and config_parser.cpp, on a document that is a parameter;
-- Config/CommandLine is src/config/command_line.cpp, whose loops run on as much fuel as there are arguments,
-- each round taking one; Config/Startup is app/server_main.cpp, up to the construction of the server.
-- Observability/ServerMetrics: src/observability/server_metrics.cpp.
--
-- Numbers: std::size_t and std::uint64_t counters wrap around where the source may make them (the counters
-- of keys, generations and metrics); sizes of buffers are plain numbers. Times are counts of nanoseconds
-- that do not overflow. Bytes are numbers, and the text functions are those of the C locale.
--
-- Not modelled: threads below the level of whole calls under a mutex and single atomic updates; sockets and
-- wakeup channels, which are system calls; the logger and the console client; allocation failures; the
-- calls of clients between the rounds of one wake-up of the sweeper; the text of the response to STATS on a
-- connection, in which std::ostringstream formats floating-point numbers: it is a parameter.
mod Prelude
pub mod Core
pub mod Net
pub mod Observability
pub mod Config
