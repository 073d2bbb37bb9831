-- ===== src/Lib.antt =====
-- OmniSocket: a file transfer and a relay in C over one interface to TCP, UDP and KCP.
--
-- The program. An application holds contexts of the network layer (src/core/network.c), each with the table of
-- functions of one protocol (src/protocols/tcp_impl.c, udp_impl.c, kcp_impl.c). The layer times each call and
-- reports it to the logger (src/core/logger.c). Messages have a header of 16 bytes (include/common.h): TCP puts
-- one before each payload, and the applications put another inside. The client (src/apps/client_main.c) sends a
-- file in chunks and prints commands; the server (src/apps/server_main.c) writes the file; the relay
-- (src/apps/relay_main.c) forwards messages to a target that a second thread can switch.
--
-- Where it is modelled:
--   Base         shared names, comparisons, lists, and C's signed results as the integers pos and negsuc
--   Wire         include/common.h: MsgHeader, the byte orders, the codes, the clock
--   Runtime      the clock and the calls made of the logger, with the state of a connection
--   Host         descriptors, blocks and calls of the kernel, whose answers are given
--   Logger       src/core/logger.c: Stats (OmniStats and the report), level_to_int, json_escape, logger_log;
--                Order forgets the order of calls, each taken as a whole one
--   Network      src/core/network.c: omni_init, omni_send, omni_recv, omni_close;
--                Types has the tables, Select the choice
--   Tcp          src/protocols/tcp_impl.c: Stream is the kernel's side of the socket, Setup the connection,
--                Faults, Frames and Feed are about streams that are cut or meet an error
--   Datagram     the kernel's side of a datagram socket, and its creation, which UDP and KCP share
--   Udp          src/protocols/udp_impl.c
--   Kcp          src/protocols/kcp_impl.c, over a record of the functions of ikcp; Reliable is what a file needs of it
--   App          what the programs share: messages, lines of a terminal, Options (the loop over getopt, parse_proto)
--                and Numbers (atoi, strtoul, sscanf); Channel is what they need of a protocol that keeps messages apart,
--                and Feed the less that they get of one whose calls may fail
--   Client       src/apps/client_main.c: the sending loop, FILE_END, the receiving thread; Process has `main`
--                behind omni_init, the thread and the signal handler as steps; Attempts and Beginning are about
--                transfers that fail
--   Server       src/apps/server_main.c: the receiving thread and the prompt; Process as for the client, Arrivals
--                what each datagram should do, Stdio what fwrite and fflush leave in the buffer, Writing, Rounds and
--                Beginning are about transfers that fail
--   Relay        src/apps/relay_main.c: the threads as steps, Loop the main loop with its calls on one target,
--                Refinement its place in the steps, Commands the lines of the control thread, its options
--   Echo         src/apps/test_main.c: the loops of its server and its client, its options
--   EndToEnd     client and server on one TCP connection and over UDP, also where anything fails (Beginning: TCP and
--                KCP, Relayed: through the relay), and from their options on
--   Tests        the theorems at concrete inputs
--
-- How. The state of a protocol is the `conn` of a World: the context that its functions get as a pointer (`none`
-- is NULL), the kernel's side of the socket, and the process. A function of the source is a function of the
-- world with the same name, and its result is an integer as in C. What the kernel answers is data: a stream
-- socket is a list of events that the next calls meet (segments, EINTR, errors), a datagram socket a list of
-- arrivals and of refusals, and the fallible calls of a creation read a list of answers. An out parameter is a
-- component of the result. Unsigned arithmetic of the source that can wrap is written modulo 2^32 or 2^64.
--
-- Bounds. The loops of tcp_read_n and tcp_write_n run on fuel, one more than the events left: each round but the
-- last uses one up. The sending loop runs on one round more than the file has bytes, since each round that goes
-- on takes one. The receiving threads and, with its calls, the main loop of the relay run for a number of rounds
-- that is an argument. The processes of client, server and relay run through a list of steps of either thread, split
-- where the source locks, unlocks, waits, calls or tests a flag; there the messages are only what decides the way that is taken, and the functions of
-- Client and Server say what each round does with them.
--
-- Parameters. ikcp is a library of another project: its functions are a record, and what is assumed of them is, for
-- the count of retransmissions, that the count of transmissions starts at 0, that none lowers it and that its send and
-- recv leave it, and for files, that it is reliable (Kcp.Reliable). The arithmetic of `double` is a record of operations of which nothing is assumed.
--
-- Two threads of a process on one context are not interleaved inside the calls of a protocol, which take no lock, and
-- neither are they inside the calls of the logger, which takes none for its statistics.
--
-- The file of the server is a stream of stdio: what fwrite has taken, how much of it is in the file, how much the
-- library moves there in each call, which is given, and what still fits the disk. fflush at FILE_END moves the rest as far
-- as it fits, and the source does not look at its result.
--
-- Not modelled: the text of log lines and the readings of the clock that go only there; how long a pause takes;
-- the usage texts and how getopt takes the command line apart; a build for another system than Linux, which
-- leaves tcp_log_info out; the answer of setsockopt, which the source does not look at; the library ikcp
-- (src/protocols/ikcp.c), which is another project's.
pub mod Base
pub mod Wire
pub mod Logger
pub mod Runtime
pub mod Host
pub mod Network
pub mod Tcp
pub mod App
pub mod Datagram
pub mod Udp
pub mod Kcp
pub mod Relay
pub mod Echo
pub mod Client
pub mod Server
pub mod EndToEnd
pub mod Tests
