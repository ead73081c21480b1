-- ===== src/Lib.antt =====
-- A server of the Redis protocol with streams and replication, and what its parts keep.
--
-- The handler of a connection (src/handler.cpp) reads bytes, from which a parser (src/message_parser.cpp)
-- makes messages, hands these to a talker and writes what this says. The talker of a client
-- (src/server_talker.cpp) parses a message as a command (src/command.cpp, src/command_storage.cpp),
-- which works on the storage (src/storage.cpp) through a middleware (src/storage_middleware.cpp). The
-- middleware pushes each SET to the replicas and counts their acknowledgements for WAIT. A server
-- that is a replica has a talker (src/replica_talker.cpp), which does the handshake with the master,
-- loads its file (src/rdb_parser.cpp) and then processes the commands that the master pushes. Jobs that
-- run later go through the event loop (src/events.cpp), as does the poller (src/poller.cpp), which tells
-- the handlers (src/handlers_manager.cpp) and the server (src/server.cpp) of their descriptors by signals.
--
-- Prelude: names, Boolean tests and lists over native numbers; no part of the program.
-- Outcome: what code that may throw returns. `err` holds the text of the exception, `undefined` is
-- undefined behaviour.
-- Text, Text/Decimal: std::string as a list of bytes, std::to_string and std::from_chars, and
-- parseInt, parseUInt64, to_lower_case and to_upper_case of src/utils.cpp. `digits` has fuel: a
-- number n is printed with n + 1, and each digit takes one.
-- Stream/Id: StreamId, InputStreamId, BoundStreamId and ReadStreamId of src/storage.h and
-- src/storage.cpp. A `std::size_t` is a number with its wrap-around at 2 ^ 64 written out.
-- Stream/Value: StreamValue. The std::map is the list of its entries in order, an iterator is the
-- number of entries before it; `entries` is the loop of a caller over a StreamRange.
-- Dict: std::unordered_map as an association list.
-- Storage/Keyspace: Storage. The clock is an argument: nanoseconds, where PX and the identifiers
-- count milliseconds.
-- Storage/Blocking: Storage with WaitHandle: the readers of a blocking XREAD, the wait lists of the
-- keys, and the jobs that XADD posts. A reader is a number, which stands for its address.
-- Message: Message of src/message.h and src/message.cpp.
-- MessageParser, MessageParser/Raw: MessageParser of src/message_parser.h and src/message_parser.cpp.
-- The buffer is a list of bytes. `rounds` has fuel for the loop of try_parse: two rounds for each byte
-- of the buffer and two more, as a round that takes no byte is followed by one that does. `parse` has
-- depth for the elements of arrays: each takes a raw message. MessageParser/Helper is ParseHelper with its
-- unget_stack.
-- RdbParser, RdbParser/Load: src/rdb_parser.cpp on a list of bytes, little-endian as the machines that
-- the program is built for. The loops have as fuel one more than the bytes that are left, as each round
-- takes one. Storage/Restore: the calls of `restore` on the storage. The clock is a function of the number
-- of entries that were met. Memory is taken to suffice.
-- Command, Command/Parse (with a module for each group of commands), Command/Construct: the commands
-- of src/command.h and src/command_storage.h, try_parse and construct.
-- Middleware/Replicas, Middleware/WaitList: StorageMiddleware with its ReplicaHandle and WaitHandle. A
-- slot to a client is a number and each call of a slot is an entry of `sent`; Middleware/Steps has the
-- calls in any order, timeouts among them. The calls that are only handed on to the storage (xrange,
-- xread, type, keys) are those of the storage.
-- Talker, Talker/Replica: src/talker.cpp and ReplicaTalker; Talker/Arrives has it on a connection.
-- Server: ServerInfo of src/server.cpp. Server/Acceptor: Server of the same file, with the results of the
-- system calls as arguments. Talker/Server: ServerTalker of src/server_talker.cpp; the queues
-- of all talkers stand in `sent` of the middleware, which Talker/Server/Connection splits again. What a
-- file holds and the decoder of base64 (src/base64.h, a copy) are arguments.
-- EventLoop: src/events.h and src/events.cpp. What a job does is an argument. The loop over the jobs that
-- were posted, the one over those that are repeated and the one over the timeouts may be fed by the jobs
-- that they call for ever; `round` bounds each by fuel and is `none` where this runs out.
-- Handler: src/handler.cpp, for any talker. The results of ::read and ::write are arguments, finitely many
-- of each: that the loops over these calls end is taken for granted, but for Handler/Terminates. The loop over
-- the messages in the buffer has two rounds for each byte and two more as fuel, like that of the parser.
-- Handler/Events: its slot and its start, and what becomes of an exception. HandlersManager, Replica:
-- src/handlers_manager.cpp and src/replica.cpp.
-- Descriptors: std::unordered_map with descriptors as keys. Poller, Poller/Rounds: src/poller.cpp. The
-- answer of ::poll, what an uninitialised variable holds and what the slots of a signal do are arguments.
-- An entry of the map has a number for its address, so that a reference to one that is gone shows.
-- Signal: src/signal_slot.h. `emit` has the depth of signals behind signals as fuel; any depth above the rank
-- of the signal is enough. Wiring: the signals that src/main.cpp connects.
-- Network: these parts as src/main.cpp puts them together, with each thing that happens as a step; the
-- connection of a replica to its master is left out of it, and so are the references that the loop of the
-- poller holds meanwhile, which Poller/Rounds has. A handler that closes is erased under its own close,
-- which is undefined. Boot: the start of src/main.cpp.
-- EventLoop/Handles: JobHandle of src/events.h.
-- Tests: runs, and the theorems at concrete inputs.
--
-- Not modelled: src/base64.h, a copy; the printing templates of src/utils.h; EventLoop::connect, which cannot
-- be instantiated; accessors and constructors that only store their arguments; and the output for debugging.
pub mod Prelude
pub mod Text
pub mod Outcome
pub mod Stream
pub mod Descriptors
pub mod Dict
pub mod Storage
pub mod Message
pub mod Command
pub mod Middleware
pub mod MessageParser
pub mod RdbParser
pub mod Server
pub mod Handler
pub mod Poller
pub mod HandlersManager
pub mod Network
pub mod Signal
pub mod Wiring
pub mod Replica
pub mod Boot
pub mod EventLoop
pub mod Talker
pub mod Tests
