-- ===== src/Transfer/Commands.antt =====
-- client/service/TransferService.cpp: the commands of the windows, the callbacks of the socket, and
-- any sequence of them. The timer of the connect is left out but for its expiry.
use log_transfer_analyzer.Prelude.{
  ℕ, ◌-◌, Bool, true, false, not, ◌&&◌, ◌||◌, ◌==◌, if◌then◌else◌, List, [], ◌∷◌, ◌++◌, Bytes,
}
use log_transfer_analyzer.Protocol.{MessageType, ResultRequest}
use log_transfer_analyzer.Protocol.Codec.{encode_upload_header, encode_result_request}
use log_transfer_analyzer.Protocol.Framer.{reset}
use log_transfer_analyzer.Net.TcpSocket
use log_transfer_analyzer.Net.TcpSocket.{Socket}
use log_transfer_analyzer.Transfer.{
  Transfer, Expecting, ResultClaim, resume_reply, idle, sending_header, streaming,
  requesting_result, stage, link, reader_aborted, disconnected, reconnecting, connected, push, send,
  close_socket, drain_ring, drop_result_claim, fail_session, abort_upload,
}
use log_transfer_analyzer.Transfer.Upload.{pump_upload}
use log_transfer_analyzer.Transfer.Download.{on_bytes}

abbrev pub is_expecting : Expecting → Bool
is_expecting Expecting.nothing = false
is_expecting _ = true

-- `handle(ConnectCommand)` and `beginConnect`, for the socket that is created and whether its connect
-- was accepted.
abbrev pub connect : Socket → Bool → Transfer → Transfer
connect socket accepted t =
    let trying =
      push (link reconnecting)
        (record t { session_completed = false; has_socket = true; socket = socket }) in
    if t.has_socket
    then t
    else if accepted
    then trying
    else push (link disconnected) (record trying { has_socket = false })

-- The callback of the timer that `beginConnect` starts.
unfoldable pub connect_expires : Transfer → Transfer
unfolding close_socket
connect_expires t =
    if t.has_socket && not t.socket.closing
    then push (stage idle) (close_socket (push (link disconnected) t))
    else t

-- `handle(DisconnectCommand)`.
unfoldable pub disconnect : Transfer → Transfer
unfolding abort_upload fail_session close_socket
disconnect t =
    if not t.has_socket
    then push (link disconnected) t
    else if t.uploading
    then abort_upload t
    else if is_expecting t.expecting
    then fail_session t
    else close_socket t

-- The state that `handle(StartUploadCommand)` sets up for a file of that name and size.
abbrev pub upload_begun : Bytes → ℕ → Transfer → Transfer
upload_begun filename size t =
    record (drop_result_claim (record t { uploading = true; upload_filename = filename })) {
      upload_total = size;
      upload_sent = 0;
      upload_crc = 0;
      in_flight_writes = 0;
      trailer_sent = false;
      expecting = Expecting.nothing;
      csv = [];
      csv_size = 0;
      csv_expected_crc = 0;
      result_csv = [];
      reader = record { chunks = []; failed = false; read_complete = false };
    }

-- `handle(StartUploadCommand)`, with what `beginUpload` of the reader returns.
unfoldable pub start_upload : Bytes → ℕ → Bool → Transfer → Transfer
unfolding send abort_upload pump_upload
start_upload filename size begun t =
    let header = encode_upload_header (record { file_size = size; filename = filename }) in
    let (t', accepted) = send header (push (stage sending_header) (upload_begun filename size t)) in
    if t.uploading
    then t
    else if not t.has_socket || t.socket.closing
    then t
    else if not begun
    then drain_ring t
    else if accepted
    then pump_upload (push (stage streaming) t')
    else abort_upload t'

-- `handle(CancelUploadCommand)`.
unfoldable pub cancel_upload : Transfer → Transfer
unfolding abort_upload
cancel_upload t = if t.uploading then abort_upload t else t

-- The request that `handle(RequestResultCommand)` sends.
abbrev pub claimed_request : ResultClaim → ResultRequest
claimed_request claim = record {
  file_size = claim.file_size;
  crc32 = claim.crc32;
  start_offset = claim.received;
  filename = claim.filename;
}

-- `handle(RequestResultCommand)`.
unfoldable pub request_result : Transfer → Transfer
unfolding send fail_session
request_result t =
    let request = encode_result_request (claimed_request t.claim) in
    let (t', accepted) = send request t in
    if not t.has_claim
    then t
    else if not t.has_socket
    then t
    else if accepted
    then push (stage requesting_result) (record t' {
      framer = reset t'.framer MessageType.ack MessageType.result_header;
      expecting = resume_reply;
      session_completed = false;
    })
    else fail_session t'

-- `SocketCallback::onConnect`.
unfoldable pub on_connect : Bool → Transfer → Transfer
unfolding close_socket
on_connect accepted t =
    let (socket, rc) = TcpSocket.start_read t.socket in
    let t' = push (link connected) (record t { socket = socket }) in
    if not accepted
    then close_socket (push (link disconnected) t)
    else if rc == 0
    then t'
    else close_socket t'

-- `SocketCallback::onSendComplete`.
unfoldable pub on_send_complete : Bool → Transfer → Transfer
unfolding abort_upload pump_upload
on_send_complete accepted t =
    let t' : Transfer = record t { in_flight_writes = t.in_flight_writes - 1 } in
    if accepted then pump_upload t' else if t.uploading then abort_upload t' else t'

-- `SocketCallback::onError`.
unfoldable pub on_error : Transfer → Transfer
unfolding abort_upload fail_session close_socket
on_error t =
    let t' =
      if t.uploading
      then abort_upload t
      else if is_expecting t.expecting
      then fail_session t
      else t in
    close_socket (push (link disconnected) t')

-- `SocketCallback::onClosed`.
abbrev pub on_closed : Transfer → Transfer
on_closed t = push (link disconnected) (record t { has_socket = false })

-- `handle(QuitCommand)`, less the handles that it closes in the end.
unfoldable pub quit : Transfer → Transfer
unfolding close_socket
quit t = close_socket (push reader_aborted (record t { uploading = false }))

-- What the loop thread gets: the commands, the callbacks, the wake-ups, and the reader's chunks and
-- flags, with which it wakes the loop. A write that fails is an error of the socket too.
pub data Event : Type 0 where
  connects : Socket → Bool → Event
  expires disconnects cancels requests fails closes quits wakes : Event
  uploads : Bytes → ℕ → Bool → Event
  connected_with written : Bool → Event
  arrives : Bytes → Event
  read_chunk : Bytes → Event
  read_ends read_fails : Event

unfoldable pub step : Transfer → Event → Transfer
unfolding connect_expires disconnect start_upload cancel_upload request_result on_connect
    on_send_complete on_error on_bytes pump_upload quit
step t (connects socket accepted) = connect socket accepted t
step t expires = connect_expires t
step t disconnects = disconnect t
step t cancels = cancel_upload t
step t requests = request_result t
step t fails = on_error t
step t closes = on_closed t
step t quits = quit t
step t wakes = pump_upload t
step t (uploads filename size begun) = start_upload filename size begun t
step t (connected_with accepted) = on_connect accepted t
step t (written accepted) =
    let t' = on_send_complete accepted (record t { socket = TcpSocket.write_done t.socket }) in
    if accepted then t' else on_error t'
step t (arrives data') = on_bytes t data'
step t (read_chunk chunk) =
    pump_upload (record t { reader = record t.reader { chunks = t.reader.chunks ++ (chunk ∷ []) } })
step t read_ends = pump_upload (record t { reader = record t.reader { read_complete = true } })
step t read_fails = pump_upload (record t { reader = record t.reader { failed = true } })

unfoldable pub run : Transfer → List Event → Transfer
run t [] = t
run t (event ∷ events) = run (step t event) events
