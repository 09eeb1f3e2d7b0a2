-- ===== src/Lib.antt =====
-- mcpbridge: the wrapper, a C program that stands between an MCP agent on its standard input and
-- output and an MCP server (the child), and that can swap the server without ending the agent's
-- session.
--
-- The parts and how they interact:
--
-- - The line reader (wrapper/src/mcp.c) cuts the bytes of the agent into lines. The message parser
--   (wrapper/src/mcp.c) turns a line into a request, a response or a notification, with a
--   scanner of its own and with the library cJSON for ids and methods that have escapes.
-- - The state machine (wrapper/src/fsm.c) is STARTING, RUNNING, DRAINING, SWAPPING or FAILED.
-- - The dispatch layer (wrapper/src/dispatch.c) forwards messages in RUNNING, queues them in the
--   other states, counts the requests in flight, and replays the handshake to a new child. It sends
--   and raises events through a sink of three callbacks.
-- - The HTTP transport (wrapper/src/transport_http.c) posts each message to a server on this host. A
--   response is a head and a body; the body is chunked, of a given length, or up to the end of the
--   connection, and holds one message or a stream of events. The messages wait in a queue until the
--   loop pumps them.
-- - The stdio transport (wrapper/src/transport_stdio.c) runs the server as a child process and cuts its
--   output into lines with the line reader.
-- - The configuration (wrapper/src/config.c) names the server and says how to reach it. The client of
--   the daemon (wrapper/src/daemon_client.c) registers the wrapper and reads the reloads that the daemon asks for.
-- - The bridge (wrapper/src/main.c) is that sink, the swap of the transport, and the loop that
--   feeds the handlers. An event may lead the state machine into a state in which the dispatch layer
--   raises another event.
--
-- The files:
--
-- - Base: the shared library names, tests on numbers, lists, bytes, and signed integers.
-- - CLib: what the C library does with text (strchr, strcmp, strstr, strtol, printed decimals). Transport: the
--   errors of wrapper/src/transport.h.
-- - Fsm: wrapper/src/fsm.c (fsm_step is step). Fsm/Diagram has the diagram of the header as a
--   relation, Fsm/Cycle runs of the machine.
-- - Mcp/Message, Scan, Values, Envelope, Parse: the parser, from mcp_id_eq to mcp_msg_parse. The
--   functions keep the names of the source without the prefix mcp_. A cursor is the bytes that are
--   left and the depth. Mcp/Envelope/Int64 has the proofs on numbers, Mcp/Scan/Progress, Mcp/Values/Progress
--   and Mcp/Values/Fuel those on the scanner's way through a line.
--   Mcp/CJson is the interface of the library, a parameter.
-- - Mcp/Build: mcp_build_list_changed and mcp_build_error_response.
-- - Mcp/Reader: mcp_reader_*. Mcp/Reader/Lines has the specification, the split of bytes into lines;
--   Reserve, Feed, Drain, Framing, Overflow and Lost have the proofs.
-- - Dispatch: the state and its helpers; Dispatch/Upstream, Child and Recovery have the operations;
--   Posts has the lists of messages that the results speak of, spelled out without the code's
--   functions; Tracking, Forwarding, Settling and Replay have the proofs.
-- - Http/Url, State, Buffer, Sse, Chunk, Input, Response, Body, Connect, Post: wrapper/src/transport_http.c,
--   in this order, with its function names; the loops and branches of a long function have names
--   of their own. State has the queue, the start, the stop and the pump. Input is what can be read
--   from the connection. Http/Sse/Events says which events a stream of lines has, without the parser's functions, Http/Sse/Refine, with Sizes, Handling and Pieces, the
--   parser's agreement with it, Http/Sse/Render its text; Http/Chunk/Bytewise is a decoder of single bytes, Pieces and Map its laws,
--   Http/Chunk/Decode has the encoding; Response/Bounds and Until, Body/Framing, Chunked and Events,
--   Connect/Deadline, and Post/Outcomes, Delivery, Chunks, Plain and Total have the proofs.
-- - Stdio: wrapper/src/transport_stdio.c, and Stdio/Pump its lines.
-- - Config: wrapper/src/config.c, and Config/Loaded what it accepts. Daemon: wrapper/src/daemon_client.c, and
--   Daemon/Drain the loop of drain_daemon with the client that it reads from, Daemon/Hidden the lines
--   that a read leaves behind.
-- - Bridge: the loop context and the sink; Bridge/Handlers has the swap and the handlers; Effects
--   the lists of what is done to the outside; Depth, Invariant, Swap, Reload, Stale, Refused, Unreachable, Early and Backoff
--   the proofs.
-- - The modules named Tests run the definitions on concrete inputs.
--
-- State and errors: a World is the host (what the sink acts on), the state of the machine, and the
-- dispatch object; each operation takes one and returns the next. Results of calls that may fail are
-- options, flags or data types with the source's cases. What leaves the program (the
-- transport, standard output, the daemon's socket, the clock) is a parameter.
--
-- Bounds and fuel: sizes are natural numbers; the doubling of the reader's buffer keeps its wrap at
-- 2 ^ 64, and the numbers of the scanner their bounds of 64 bits. The loop that grows the buffer has one
-- unit of fuel for each byte that is required, and a round doubles the size. The loop of the feed has one unit for each
-- byte, and each round takes a byte. The scanner has three units for each byte and some more, and a
-- call takes a byte or goes from a value to its members. The calls of sink_emit_event are nested two
-- deep at most. A capacity of the HTTP buffers doubles below 2 ^ 22 and has as much fuel as bytes are
-- needed; the loops that read from a connection have one unit for each byte to come or that the
-- buffer takes, and one more, since a read brings a byte at least; so does the chunk decoder for its
-- input. Connecting goes over the attempts that are given.
--
-- Simplified: the self-pipe counts its bytes and has no bound, and the queue is the list of its
-- messages.
--
-- Not modelled: the options of main and the poll loop around the handlers; what a child process does
-- before it runs the server, and the flags of file descriptors; logging and memory management, which have no effect on what is modelled; the vendored
-- cJSON; and the daemon, which is another program.
pub mod Base
pub mod CLib
pub mod Transport
pub mod Fsm
pub mod Mcp
pub mod Dispatch
pub mod Http
pub mod Config
pub mod Stdio
pub mod Bridge
pub mod Daemon
