-- ===== src/Lib.antt =====
-- The verification library of log-transfer-analyzer, a client that uploads log files and a server
-- that analyses them while they arrive.
--
-- Parts and how they interact. A session of the server (server/src/session) feeds the bytes of a
-- socket to a framer until a message is whole, decodes it, checks the payload that follows against
-- a checksum, and copies the payload to the slots of a ring. The parser thread takes the chunks
-- out of the ring; a reassembler cuts them into lines, a parser judges each line, a collector
-- counts the accepted ones and a reporter the others; the result is a table of text. The client
-- encodes the same messages, and reads a summary out of the table.
--
--   Prelude       shared names: Boolean tests on numbers, lists with a native length, parts of a
--                 buffer, words, bits, searches in a text
--   Crc32         common/util/Crc32.cpp: `crc32`, over the table of `makeTable`
--   Protocol      common/protocol/protocol.h: constants and messages
--   Protocol/Wire, Protocol/Codec
--                 common/protocol/Codec.cpp: the big-endian helpers, `encode`, `decode`
--                 (`encode_upload_header`, `decode_ack`, ...), `expectedMessageSize`
--   Protocol/Framer
--                 common/protocol/Framer.h and Framer.cpp: `feed`, `reset`; a round of the loop
--                 is `judge`, which ends with a status or with the size to reach
--   Ring          common/util/SpscRingBuffer.h and SpscRingBuffer.cpp: `tryAcquire`, `commit`,
--                 `tryPeek`, `release`, `full`, `empty`, `ringSlotCountFor`; Ring/Interleaving has
--                 the steps of the two threads
--   Reassembler   server/src/parser/LineReassembler.h: `feed`, `finish`, `reset`; the callback's
--                 calls are the list that each operation returns
--   LineParser    server/src/parser/LogLineParser.h and LogLineParser.cpp: Calendar has the
--                 timestamp, Fields the numbers and the fields of a message, Stages `parse`
--   Stats         server/src/stats/StatsCollector.h and StatsCollector.cpp: `record` is
--                 `record_line`, its first part `counted`, its second `sampled`
--   Skips         server/src/parser/SkipReporter.h and SkipReporter.cpp: `record` is `record_skip`,
--                 the text of `writeReport` is `report_text`
--   Table         server/src/csv/CsvBuilder.cpp: `buildResultCsv` is `build_result_csv`; the calls
--                 of `forEachBucket` are `for_each_bucket`
--   Analysis      server/src/parser/ParserThread.cpp: the callback of `consumeReadySlots` and
--                 `finishSession` is `on_line`
--   Net           common/net/Timer.cpp and TcpSocket.cpp: the timer, and the reads, writes and close of
--                 a socket
--   Session       server/src/session/Session.cpp: Messages has `consumeHeader` to `consumeDone`,
--                 Payload the two ways to the ring, Callbacks `onRead` and the other callbacks; Trace
--                 says which order of effects a session has
--   Manager       server/src/session/SessionManager.cpp with the flags of ParserThread.cpp: which
--                 connection becomes a session, and when
--   Transfer      client/src/service/TransferService.cpp: Upload has `pumpUpload` and `finishUpload`,
--                 Download what is done with the server's bytes, Commands the commands of the
--                 windows and the callbacks of the socket
--   Resumption    TransferService.cpp and Session.cpp together: the request for a result whose transfer
--                 was cut, and its answer
--   Config        server/src/app/ServerConfig.cpp: `parseCommandLine` is `parse_arguments`, then
--                 `parse_config_text` and `build_config`
--   Summary       client/src/service/ResultSummary.cpp: `summarizeResultCsv` and
--                 `formatSkipWarning`, with the loop over lines as a list of lines
--   Doubles       what is used of the type `double`, a parameter of the parser and the collector
--
-- Conventions. A byte string is the list of its bytes as numbers. A 64-bit sum is written with its
-- wrap-around. An operation of a class is a function from its state, and returns the new state
-- with what the C++ function returns. A `DecodeStatus` with its `out` parameter is `Decoded`, a
-- `Result` of the line parser is `Outcome`. An ordered map is the list of its entries. A pointer
-- into the ring is a position in its storage. Days of the calendar are counted from an origin
-- before the year 0, so that they are natural numbers; the source uses only differences of them.
--
-- Sessions. What the loop thread gets from outside is an input: the return codes of libuv, the answers
-- of the ring to `tryAcquireSlot` and `ringFull`, and the order of the callbacks, which is any list
-- of events. The pointers of a session to its parser and its observer are not null, as the manager
-- passes them. In Manager a session is what its manager sees of it, and the parser thread's round is
-- cut where the loop thread can come between; of a connection in the backlog `uv_accept` makes a
-- socket.
--
-- Bounds. There is fuel in the loop of `Framer::feed`, in that of `Session::onRead` and in the copies
-- of `Session::consumePayload`: a round that does not end the loop takes a byte, so the number of
-- bytes, and one more for `feed`, is enough; in Session/Reads the loop of `onRead` is a relation that
-- knows no fuel. In that of
-- `TransferService::onBytes` it is the number of bytes too. The digits of a 64-bit number are at most
-- 20. The other loops are structural. Offsets and indices of the ring are taken below 2 ^ 64 where a
-- statement says so: a stream of so many bytes does not happen.
--
-- Not modelled. Connecting and listening of sockets, memory orders, the start and the end of the
-- parser thread and of the server; the files that are written and the log; the client's
-- windows, and of its transfers the texts, the progress and the clock.
pub mod Analysis
pub mod Config
pub mod Crc32
pub mod Doubles
pub mod LineParser
pub mod Manager
pub mod Net
pub mod Prelude
pub mod Protocol
pub mod Reassembler
pub mod Resumption
pub mod Ring
pub mod Session
pub mod Skips
pub mod Stats
pub mod Summary
pub mod Table
pub mod Transfer
