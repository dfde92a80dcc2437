-- ===== src/Resumption/Runs.antt =====
-- A table of 18 bytes whose first seven the client has, and the server that retains it.
use log_transfer_analyzer.Prelude.{refl, true, false, [], codes, Bytes, arith}
use log_transfer_analyzer.Crc32.{crc32, bit_round, bit_rounds, table_from, table, update, crc_loop}
use log_transfer_analyzer.Net.TcpSocket
use log_transfer_analyzer.Net.TcpSocket.{Socket}
use log_transfer_analyzer.Protocol.Codec.{encode_result_request, is_valid_filename, no_forbidden}
use log_transfer_analyzer.Session
use log_transfer_analyzer.Session.{Session, RetainedResult, SessionTimeouts}
use log_transfer_analyzer.Session.Messages.{consume_header}
use log_transfer_analyzer.Transfer
use log_transfer_analyzer.Transfer.{Transfer}
use log_transfer_analyzer.Transfer.Commands.{claimed_request, request_result}
use log_transfer_analyzer.Transfer.Download.{on_bytes}
use log_transfer_analyzer.Transfer.Remainder.{Delivered}
use log_transfer_analyzer.Resumption.{resumed}
use log_transfer_analyzer.Resumption.Answers.{replies}
use log_transfer_analyzer.Prelude.{some}

abbrev reading : Socket
reading = record {
  has_handle = true;
  reading = true;
  closing = false;
  closed = false;
  pending_writes = 0;
  uv = [];
}

abbrev result : Bytes
result = codes "module,hour,count\n"

abbrev kept : RetainedResult
kept = record {
  filename = codes "a.log";
  file_size = 3;
  upload_crc32 = 5;
  csv = result;
  csv_crc32 = crc32 0 result;
}

abbrev client : Transfer
client = record (Transfer.init reading) {
  has_socket = true;
  csv = codes "module,";
  has_claim = true;
  claim = record { filename = codes "a.log"; file_size = 3; crc32 = 5; received = 7 };
}

abbrev server : Session
server =
    Session.init (record { idle_ms = 30000; response_ms = 120000 }) 65536 reading
      (record { slots = []; fulls = [] })

resumed_example : Delivered result (
    on_bytes (request_result client) (
      replies
        (consume_header
          (some kept)
          server
          (encode_result_request (claimed_request client.claim))).0.effects))
unfolding TcpSocket.send crc32 crc_loop update table_from bit_rounds bit_round table
    is_valid_filename no_forbidden
resumed_example =
    resumed client server kept refl refl refl (omega arith)
      (record { same_name = refl; same_size = refl; same_crc = refl })
      (record {
        size_allowed = omega arith;
        crc_fits = omega arith;
        offset_allowed = omega arith;
        name_allowed = refl;
      })
      (omega arith) refl (omega arith) refl refl refl refl refl refl refl
