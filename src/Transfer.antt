-- ===== src/Transfer.antt =====
-- client/service/TransferService.h and TransferService.cpp: the state of a transfer on the loop
-- thread and what ends it. Texts of the log, progress and the clock are left out. What the service
-- does to its socket and its reader and tells the windows is a list, the latest first.
pub mod Upload
pub mod Download
pub mod Commands
pub mod Keeps
pub mod Arrivals
pub mod Claims
pub mod Remainder
pub mod Resume
mod Runs
use log_transfer_analyzer.Prelude.{
  ℕ, ◌+◌, Bool, true, false, not, ◌&&◌, ◌==◌, if◌then◌else◌, List, [], ◌∷◌, Bytes, length,
}
use log_transfer_analyzer.Net.TcpSocket
use log_transfer_analyzer.Net.TcpSocket.{Socket}
use log_transfer_analyzer.Protocol.{MessageType}
use log_transfer_analyzer.Protocol.Framer.{Framer, fresh}

-- `LinkState` and `SessionState` of the windows.
pub data LinkState : Type 0 where
  disconnected reconnecting connected : LinkState

pub data Stage : Type 0 where
  idle sending_header streaming wait_ack wait_result receiving_result : Stage
  requesting_result completed : Stage

-- `Expecting`.
pub data Expecting : Type 0 where
  nothing ack result_header csv_payload resume_reply : Expecting

-- `ResultClaim`.
pub record ResultClaim : Type 0 where
  pub filename : Bytes
  pub file_size : ℕ
  pub crc32 : ℕ
  pub received : ℕ

abbrev pub no_claim : ResultClaim
no_claim = record { filename = []; file_size = 0; crc32 = 0; received = 0 }

pub data Effect : Type 0 where
  sent : Bytes → Effect
  link : LinkState → Effect
  stage : Stage → Effect
  claim_available : Bool → Effect
  socket_closed reader_aborted : Effect

-- What the loop thread sees of `FileReader`: the chunks of its ring, and its flags.
pub record Reader : Type 0 where
  pub chunks : List Bytes
  pub failed : Bool
  pub read_complete : Bool

-- `TransferService`; `has_socket` tells whether `_socket` is set.
pub record Transfer : Type 0 where
  pub has_socket : Bool
  pub socket : Socket
  pub session_completed : Bool
  pub reader : Reader
  pub uploading : Bool
  pub in_flight_writes : ℕ
  pub trailer_sent : Bool
  pub upload_total : ℕ
  pub upload_sent : ℕ
  pub upload_crc : ℕ
  pub upload_filename : Bytes
  pub expecting : Expecting
  pub framer : Framer
  pub csv : Bytes
  pub csv_size : ℕ
  pub csv_expected_crc : ℕ
  pub has_claim : Bool
  pub claim : ResultClaim
  pub result_csv : Bytes
  pub effects : List Effect

-- `kMaxInFlightWrites`.
abbrev pub max_in_flight_writes : ℕ
max_in_flight_writes = 8

-- The constructor, with the socket that is created first.
abbrev pub init : Socket → Transfer
init socket = record {
  has_socket = false;
  socket = socket;
  session_completed = false;
  reader = record { chunks = []; failed = false; read_complete = false };
  uploading = false;
  in_flight_writes = 0;
  trailer_sent = false;
  upload_total = 0;
  upload_sent = 0;
  upload_crc = 0;
  upload_filename = [];
  expecting = nothing;
  framer = fresh MessageType.ack MessageType.ack;
  csv = [];
  csv_size = 0;
  csv_expected_crc = 0;
  has_claim = false;
  claim = no_claim;
  result_csv = [];
  effects = [];
}

abbrev pub push : Effect → Transfer → Transfer
push e t = record t { effects = e ∷ t.effects }

-- `_socket->send(bytes)`: the service after it, and whether it was accepted.
unfoldable pub send : Bytes → Transfer → Transfer × Bool
send bytes t =
    let (socket, rc) = TcpSocket.send t.socket in
    let t' = record t { socket = socket } in
    if rc == 0 then (push (sent bytes) t', true) else (t', false)

-- `closeSocket`.
unfoldable pub close_socket : Transfer → Transfer
close_socket t =
    if t.has_socket && not t.socket.closing
    then push socket_closed (record t { socket = TcpSocket.close t.socket })
    else t

-- `drainRing`.
abbrev pub drain_ring : Transfer → Transfer
drain_ring t = record t { reader = record t.reader { chunks = [] } }

-- `dropResultClaim`.
abbrev pub drop_result_claim : Transfer → Transfer
drop_result_claim t =
    push (claim_available false) (record t { has_claim = false; claim = no_claim })

-- The first part of `failSession`.
abbrev pub upload_stopped : Transfer → Transfer
upload_stopped t =
    if t.uploading then drain_ring (push reader_aborted (record t { uploading = false })) else t

-- Its second part: the place to resume at, or nothing to resume.
abbrev pub claim_kept : Transfer → Transfer
claim_kept t =
    if t.has_claim
    then record t { expecting = nothing; claim = record t.claim { received = length t.csv } }
    else record t { expecting = nothing; csv = [] }

-- `failSession`.
unfoldable pub fail_session : Transfer → Transfer
unfolding close_socket
fail_session t = push (stage idle) (close_socket (claim_kept (upload_stopped t)))

-- `abortUpload`.
unfoldable pub abort_upload : Transfer → Transfer
unfolding close_socket
abort_upload t =
    push (stage idle)
      (close_socket (drain_ring (push reader_aborted (record t { uploading = false }))))
