-- ===== src/Transfer/Runs.antt =====
-- An upload of three bytes whose connection is lost, and the next connection, which is cancelled.
use log_transfer_analyzer.Prelude.{refl, ◌≡◌, true, false, List, [], ◌∷◌, Bytes, codes, length}
use log_transfer_analyzer.Crc32.{crc32}
use log_transfer_analyzer.Protocol.{ok_status}
use log_transfer_analyzer.Protocol.Codec.{encode_ack, encode_result_header}
use log_transfer_analyzer.Net.TcpSocket
use log_transfer_analyzer.Net.TcpSocket.{Socket}
use log_transfer_analyzer.Transfer.{init, send}
use log_transfer_analyzer.Transfer.Upload.{pump_loop, pump_upload}
use log_transfer_analyzer.Transfer.Commands.{
  Event, connects, connected_with, uploads, read_chunk, read_ends, written, arrives, fails, closes,
  requests, disconnects, run, step, on_connect, start_upload, on_send_complete,
}
use log_transfer_analyzer.Transfer.Keeps.{IsTransfer}
use log_transfer_analyzer.Transfer.Claims.{run-IsTransfer}

abbrev socket : Socket
socket = record {
  has_handle = true;
  reading = false;
  closing = false;
  closed = false;
  pending_writes = 0;
  uv = [];
}

abbrev file : Bytes
file = codes "a\nb"

abbrev table : Bytes
table = codes "module,hour,count\n"

abbrev lost_and_resumed : List Event
lost_and_resumed =
    connects socket true
    ∷ connected_with true
    ∷ uploads (codes "a.log") (length file) true
    ∷ written true
    ∷ read_chunk file
    ∷ read_ends
    ∷ arrives (encode_ack (record { status = ok_status; received_bytes = length file }))
    ∷ arrives (encode_result_header (record { csv_size = length table; crc32 = crc32 0 table }))
    ∷ arrives (codes "module,")
    ∷ fails
    ∷ closes
    ∷ connects socket true
    ∷ connected_with true
    ∷ requests
    ∷ disconnects
    ∷ []

run-IsTransfer_example : IsTransfer (run (init socket) lost_and_resumed)
run-IsTransfer_example = run-IsTransfer socket lost_and_resumed

-- The end of the write of the header counts as one of a chunk: the service then counts eight writes,
-- and the socket has nine.
abbrev ten_chunks : List Event
ten_chunks =
    connects socket true
    ∷ connected_with true
    ∷ uploads (codes "a.log") 10 true
    ∷ read_chunk (codes "a")
    ∷ read_chunk (codes "a")
    ∷ read_chunk (codes "a")
    ∷ read_chunk (codes "a")
    ∷ read_chunk (codes "a")
    ∷ read_chunk (codes "a")
    ∷ read_chunk (codes "a")
    ∷ read_chunk (codes "a")
    ∷ read_chunk (codes "a")
    ∷ read_chunk (codes "a")
    ∷ written true
    ∷ []

nine_writes :
    ((run (init socket) ten_chunks).in_flight_writes ≡ 8)
    × ((run (init socket) ten_chunks).socket.pending_writes ≡ 9)
unfolding run step on_connect start_upload pump_upload pump_loop send on_send_complete
    TcpSocket.send TcpSocket.start_read TcpSocket.write_done
nine_writes = (refl, refl)
