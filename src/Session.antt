-- ===== src/Session.antt =====
-- server/session/Session.h and Session.cpp: one upload session as a state machine. The server's
-- manager passes an observer and a parser, so those pointers are not null here. What the parser
-- thread answers at the calls of `tryAcquireSlot` and `ringFull` is an input: that thread runs
-- between them. What the session does to its socket, the parser and the observer is a list, the
-- latest first.
pub mod Retained
pub mod Messages
pub mod Payload
pub mod Callbacks
pub mod Trace
pub mod Facts
pub mod Steps
pub mod Endings
pub mod Accepts
pub mod Trailers
pub mod Copies
pub mod Reading
pub mod Sound
pub mod Timed
pub mod Timely
pub mod Held
pub mod Alive
pub mod Fuel
pub mod Reads
mod Runs
use log_transfer_analyzer.Prelude.{
  ℕ, ◌+◌, Bool, true, false, not, ◌&&◌, ◌||◌, ◌==◌, ltb, if◌then◌else◌, List, [], ◌∷◌, get_or, drop,
  Bytes,
}
use log_transfer_analyzer.Net.Timer
use log_transfer_analyzer.Net.Timer.{Timer}
use log_transfer_analyzer.Net.TcpSocket
use log_transfer_analyzer.Net.TcpSocket.{Socket}
use log_transfer_analyzer.Protocol.{AckStatus, MessageType}
use log_transfer_analyzer.Protocol.Codec.{encode_ack}
use log_transfer_analyzer.Protocol.Framer.{Framer, fresh}

-- `SessionState`.
pub data SessionState : Type 0 where
  wait_header receiving verifying analyzing sending_result wait_done cleaned_up : SessionState

-- The value of the enumerator, by which two states are compared.
abbrev pub state_code : SessionState → ℕ
state_code wait_header = 0
state_code receiving = 1
state_code verifying = 2
state_code analyzing = 3
state_code sending_result = 4
state_code wait_done = 5
state_code cleaned_up = 6

abbrev pub same_state : SessionState → SessionState → Bool
same_state a b = state_code a == state_code b

-- `SessionTimeouts`.
pub record SessionTimeouts : Type 0 where
  pub idle_ms : ℕ
  pub response_ms : ℕ

-- `RetainedResult`.
pub record RetainedResult : Type 0 where
  pub filename : Bytes
  pub file_size : ℕ
  pub upload_crc32 : ℕ
  pub csv : Bytes
  pub csv_crc32 : ℕ

-- The texts of `_finishReason` and `_pendingFailReason`.
pub data Reason : Type 0 where
  no_reason start_read_failed bad_header_preamble header_out_of_range invalid_header : Reason
  header_decode_failed invalid_request request_decode_failed no_retained : Reason
  offset_beyond_csv header_send_failed csv_send_failed no_slot invalid_trailer : Reason
  bad_trailer_preamble trailer_decode_failed payload_crc_mismatch ack_send_failed : Reason
  bad_download_done completed : Reason
  timeout_in unexpected_data_in : SessionState → Reason
  failed : ℕ → Reason

-- What a session does to the parser thread, the socket and the observer.
pub data Effect : Type 0 where
  session_begun upload_completed session_aborted : Effect
  committed : Bytes → Effect
  read_stopped : Bool → Effect
  sent : Bytes → Effect
  socket_closed : Effect
  result_retained : RetainedResult → Effect
  session_finished : Effect

-- The rest of what `tryAcquireSlot` and `ringFull` answer; past the end a slot is refused and the
-- ring is not full.
pub record Answers : Type 0 where
  pub slots : List Bool
  pub fulls : List Bool

-- `Session`. `chunk_size` is both the size of `_readBuffer` and that of a slot of the ring.
pub record Session : Type 0 where
  pub state : SessionState
  pub framer : Framer
  pub timer : Timer
  pub timeouts : SessionTimeouts
  pub socket : Socket
  pub chunk_size : ℕ
  pub slot_acquired : Bool
  pub file_size : ℕ
  pub received_bytes : ℕ
  pub payload_crc : ℕ
  pub filename : Bytes
  pub csv : Bytes
  pub finish_reason : Reason
  pub close_after_send : Bool
  pub pending_fail_reason : Reason
  pub cleanup_started : Bool
  pub finished : Bool
  pub answers : Answers
  pub effects : List Effect

-- The constructor.
abbrev pub init : SessionTimeouts → ℕ → Socket → Answers → Session
init timeouts chunk_size socket answers = record {
  state = wait_header;
  framer = fresh MessageType.upload_header MessageType.result_request;
  timer = Timer.idle;
  timeouts = timeouts;
  socket = socket;
  chunk_size = chunk_size;
  slot_acquired = false;
  file_size = 0;
  received_bytes = 0;
  payload_crc = 0;
  filename = [];
  csv = [];
  finish_reason = no_reason;
  close_after_send = false;
  pending_fail_reason = no_reason;
  cleanup_started = false;
  finished = false;
  answers = answers;
  effects = [];
}

abbrev pub emit : Effect → Session → Session
emit e s = record s { effects = e ∷ s.effects }

-- `_parser->ringFull()` and `_parser->tryAcquireSlot(...)`: the answer, and the session after it.
abbrev pub ring_full : Session → Bool
ring_full s = get_or s.answers.fulls 0 false

abbrev pub asked_full : Session → Session
asked_full s = record s { answers = record s.answers { fulls = drop 1 s.answers.fulls } }

abbrev pub slot_free : Session → Bool
slot_free s = get_or s.answers.slots 0 false

abbrev pub asked_slot : Session → Session
asked_slot s = record s { answers = record s.answers { slots = drop 1 s.answers.slots } }

-- `timeoutForState`.
abbrev pub timeout_for_state : SessionState → SessionTimeouts → ℕ
timeout_for_state wait_header timeouts = timeouts.response_ms
timeout_for_state wait_done timeouts = timeouts.response_ms
timeout_for_state receiving timeouts = timeouts.idle_ms
timeout_for_state sending_result timeouts = timeouts.idle_ms
timeout_for_state verifying timeouts = 0
timeout_for_state analyzing timeouts = 0
timeout_for_state cleaned_up timeouts = 0

-- `armTimer`.
unfoldable pub arm_timer : Session → Session
arm_timer s =
    let timeout = timeout_for_state s.state s.timeouts in
    if timeout == 0
    then record s { timer = Timer.stop s.timer }
    else record s { timer = Timer.start timeout s.timer }

-- `resumeReading`.
unfoldable pub resume_reading : Session → Session
resume_reading s =
    let resumed = λ (s' : Session).
      emit (read_stopped false) (record s' { socket = (TcpSocket.start_read s'.socket).0 }) in
    if s.cleanup_started || s.socket.reading
    then s
    else if same_state s.state receiving && ltb s.received_bytes s.file_size
    then (if ring_full s then asked_full s else resumed (asked_full s))
    else resumed s

-- `transition`.
unfoldable pub transition : SessionState → Session → Session
unfolding arm_timer resume_reading
transition next s =
    let armed = arm_timer (record s { state = next }) in
    if same_state s.state next
    then s
    else if same_state next receiving || same_state next cleaned_up
    then armed
    else resume_reading armed

-- `cleanup`.
unfoldable pub cleanup : Reason → Session → Session
cleanup reason s =
    if s.cleanup_started
    then s
    else emit socket_closed (
        emit session_aborted (record s {
          cleanup_started = true;
          finish_reason = reason;
          state = cleaned_up;
          timer = Timer.stop s.timer;
          socket = TcpSocket.close s.socket;
        }))

-- `closeSilently`.
unfoldable pub close_silently : Reason → Session → Session
unfolding cleanup
close_silently reason s = cleanup reason s

-- `_socket->send(bytes)`: the session after it, and what it returned.
unfoldable pub send : Bytes → Session → Session × ℕ
send bytes s =
    let (socket, rc) = TcpSocket.send s.socket in
    let s' = record s { socket = socket } in (if rc == 0 then emit (sent bytes) s' else s', rc)

-- `failWithAck`.
unfoldable pub fail_with_ack : AckStatus → Reason → Session → Session
unfolding send cleanup
fail_with_ack status reason s =
    let (s', rc) =
      send (encode_ack (record { status = status; received_bytes = s.received_bytes })) s in
    if rc == 0
    then record s' {
      socket = (TcpSocket.stop_read s'.socket).0;
      close_after_send = true;
      pending_fail_reason = reason;
    }
    else cleanup reason s'

-- `applyBackpressure`.
unfoldable pub apply_backpressure : Session → Session
unfolding resume_reading
apply_backpressure s =
    let asked = asked_full s in
    let stopped =
      emit (read_stopped true) (record asked { socket = (TcpSocket.stop_read asked.socket).0 }) in
    if ring_full s && asked.socket.reading
    then (if ring_full stopped then asked_full stopped else resume_reading (asked_full stopped))
    else asked
