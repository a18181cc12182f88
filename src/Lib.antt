-- ===== src/Lib.antt =====
-- rnet is a TCP and Unix socket server library: an engine starts event loops, an acceptor or the
-- loops themselves accept connections, a balancer picks the loop, and each loop reads into and
-- writes from its connections, runs the commands that are sent to it, and calls the user's handler.
-- This library models all of it but the threads: each part by itself, and an event loop as a whole.
--
-- Files and the code they are about:
--   Gfd             src/gfd.rs: Gfd::new, the accessors, validate, the derived ==. MONO_SEQ is state.
--   SocketAddr      src/socket_addr.rs: NetworkAddress, from_str, Display, both TryFrom.
--   Options         src/options.rs: Options, OptionsBuilder and its build, normalize, the sizes.
--   Options.Cores   src/options.rs: get_core_ids and the topology keys.
--   Socket          src/socket.rs: the dispatch of Socket over its two streams.
--   Command         src/command.rs: Command and its priority.
--   Codec           src/codec.rs: the trait Codec and RawCodec.
--   Connection      src/connection.rs: Connection, new, reset, set_codec, close.
--   Connection.Input   next_contiguous, next_vectored, peek, discard, read, next_message.
--   Connection.Output  write, write_bytes, write_vectored, write_vectored_bytes, flush, send.
--   Balancer        src/balancer.rs: RoundRobin and LeastConnections.
--   Poller          src/poller.rs: the tokens, the requests of Poller, and Waker.
--   Handler         src/handler.rs: Action, and EventHandler with what its callbacks may change.
--   Listener        src/listener.rs: Listener, accept, and in Listener.Binding bind and its calls.
--   EventLoop       src/event_loop.rs: process_write, and in EventLoop.Reading process_read.
--   EventLoop.Handle    EventLoopHandle: trigger, shutdown, and the two queues at both ends.
--   EventLoop.State     the fields of EventLoop; EventLoop.Starting is new, listener and build.
--   EventLoop.Closing   reregister, close_connection, shutdown; EventLoop.Opening is register.
--   EventLoop.Serving   read_socket, write_socket, process_io; EventLoop.Accepting accept_process.
--   EventLoop.Commands  process_command and what each command does; EventLoop.Running is run.
--   EventLoop.Method    methods on the loop with `?`; EventLoop.Invariant the loop's invariant.
--   Acceptor        src/acceptor.rs: Acceptor, its handle, accept_loop; Acceptor.Running is run.
--   Engine          src/engine.rs: EngineBuilder and EngineHandler.
--   Prelude, Io     numbers, lists, texts; io::Error by its kind, and panics (Run).
--   Extern          what is not in the repository: the crates bytes, slab, crossbeam, socket2, mio.
--
-- The module Effect below a module of the loop proves what its methods do to a loop whose invariant
-- holds; EventLoop.Preserving says what holds of it, and joins such methods.
--
-- State: a method on `&mut self` takes the connection and returns it. A call that may panic returns
-- `Run`, a call that may fail `IoResult` inside of it. BytesApi, StreamApi, CodecApi and the other
-- records named Api are operations and the laws that their documentation gives; Extern/Lists,
-- Script, Tables and Devices fill them, so the laws can hold. A method of the event loop takes the
-- loop and returns it with the result, also with an error. The user's code has a state of its own,
-- beside the queues and the waker (`Shared`): it may send commands to the loop. Of its callbacks it
-- is assumed that they leave the handle alone and a socket where there is one (Handler.Keeps): a
-- handler that calls `Connection::reset`, which is public, on a connection that it is lent, or
-- swaps two connections of those lent to on_tick, is excluded. The user's code runs to its end in
-- each call; what other threads send while the loop runs is not modelled, only what waits when it
-- does. A stream keeps what it has accepted and has a bound on the interruptions that are still to
-- come: without one, the loops that retry an interrupted call need not end.
-- `Connection.Output.Wire.wire` is the abstract view of sending: the bytes the stream has accepted,
-- and behind them those that wait. `Connection.unread` is that of receiving: the in buffer, and
-- behind it the io buffer.
--
-- Fuel and bounds: `flush_loop` and `write_batch` run on fuel and return none without; the theorems
-- give the fuel that is enough, one more than the bytes that wait and the interruptions to come.
-- `read_loop` needs one round more than the bytes of a batch, since each round reads at least one.
-- An accept loop needs one round more than the connections that its listener can still give
-- (`pending`), which is assumed to be bounded, since a loop that peers feed for ever need not end.
-- The methods of the event loop compute the fuel themselves and panic without, so a theorem that
-- excludes a panic says that it is enough. `run_loop` runs over a list of turns, each what the poll
-- and the clock answer, and reports whether it has returned or would go on behind the list;
-- `run_rounds` of the acceptor does so over rounds. An instant behind the latest that the clock can
-- represent panics, so a theorem on ticks bounds the handler's delays. Searching a power of two
-- takes 64 steps, the exponents of a usize. Numbers of fixed width wrap around where the source
-- does: the sequence counter and the packed word of a Gfd at 2^32, the counter of RoundRobin and a
-- listener token at 2^64. Lengths of data in memory are not bounded.
--
-- Not modelled: the start and the end of the threads in src/engine.rs, src/worker.rs, `init` of a
-- handler, and the examples. The io_buffer of the loop and the thread-local slice lists of
-- src/connection.rs and src/event_loop.rs keep nothing between calls. Closing a descriptor by
-- dropping its socket is not seen by the poll.
pub mod Prelude
pub mod Gfd
pub mod Io
pub mod Extern
pub mod SocketAddr
pub mod Options
pub mod Socket
pub mod Command
pub mod Codec
pub mod Connection
pub mod Balancer
pub mod Poller
pub mod Handler
pub mod Listener
pub mod EventLoop
pub mod Acceptor
pub mod Engine
