-- ===== src/Session/Callbacks.antt =====
-- server/session/Session.cpp: the callbacks of the socket, the timer and the parser thread, and
-- any sequence of them.
use log_transfer_analyzer.Prelude.{
  ℕ, zero, suc, Bool, true, false, not, ◌&&◌, ◌||◌, ◌==◌, ltb, if◌then◌else◌, List, [], ◌∷◌, length,
  take, drop, Bytes, min, Option, none, some,
}
use log_transfer_analyzer.Protocol.{MessageType}
use log_transfer_analyzer.Protocol.Codec.{encode_result_header}
use log_transfer_analyzer.Protocol.Framer.{reset}
use log_transfer_analyzer.Net.Timer
use log_transfer_analyzer.Net.Timer.{Timer}
use log_transfer_analyzer.Net.TcpSocket
use log_transfer_analyzer.Net.TcpSocket.{Socket}
use log_transfer_analyzer.Session.{
  Session, SessionState, SessionTimeouts, Answers, init, wait_header, receiving, analyzing,
  sending_result, wait_done, same_state, RetainedResult, start_read_failed, timeout_in,
  unexpected_data_in, failed, session_begun, result_retained, session_finished, emit, slot_free,
  asked_slot, arm_timer, resume_reading, transition, cleanup, close_silently,
}
use log_transfer_analyzer.Session.Messages.{
  send_result, consume_header, consume_trailer, consume_done,
}
use log_transfer_analyzer.Session.Payload.{consume_payload, consume_slot}

-- `start`: the session after it, and what it returns.
unfoldable pub start : Session → Session × Bool
unfolding cleanup arm_timer
start s =
    let (socket, rc) = TcpSocket.start_read s.socket in
    let s' = record s { socket = socket } in
    if rc == 0
    then (arm_timer (emit session_begun s'), true)
    else (cleanup start_read_failed s', false)

-- `onTimeout`, after the timer that fired has become inactive.
unfoldable pub on_timeout : Session → Session
unfolding cleanup
on_timeout s = cleanup (timeout_in s.state) (record s { timer = Timer.stop s.timer })

-- `onAllocate`: the session after it, and the size of the buffer.
unfoldable pub on_allocate : ℕ → Session → Session × ℕ
on_allocate suggested_size s =
    let free = record s { slot_acquired = false } in
    let general = min suggested_size s.chunk_size in
    if same_state s.state receiving && ltb s.received_bytes s.file_size
    then (if slot_free free
        then (record (asked_slot free) { slot_acquired = true }, s.chunk_size)
        else (asked_slot free, general))
    else (free, general)

-- The `switch` of the loop of `onRead`; none where it closes the session and returns.
unfoldable pub consume_in :
    SessionState → Option RetainedResult → Session → Bytes → Option (Session × ℕ)
unfolding consume_header consume_payload consume_trailer consume_done
consume_in wait_header kept s data' = some (consume_header kept s data')
consume_in receiving kept s data' =
    some (
      if ltb s.received_bytes s.file_size then consume_payload s data' else consume_trailer s data')
consume_in wait_done kept s data' = some (consume_done s data')
consume_in _ kept s data' = none

unfoldable pub consume : Option RetainedResult → Session → Bytes → Option (Session × ℕ)
unfolding consume_in
consume kept s data' = consume_in s.state kept s data'

-- The loop of `onRead`. A round that does not end it consumes a byte, so the length of the bytes
-- is enough fuel.
unfoldable pub read_loop : ℕ → Option RetainedResult → Session → Bytes → Session
unfolding close_silently
read_loop zero kept s data' = s
read_loop (suc fuel) kept s data' =
    if length data' == 0 || s.cleanup_started || s.close_after_send
    then s
    else elim (consume kept s data') [
      | none ↦ close_silently (unexpected_data_in s.state) s
      | some round ↦
          let rest = read_loop fuel kept round.0 (drop round.1 data') in
          if round.1 == 0 then round.0 else rest
    ]

-- `onRead`.
unfoldable pub on_read : Option RetainedResult → Session → Bytes → Session
unfolding consume_slot
on_read kept s data' =
    let active = record s { timer = Timer.restart s.timer; slot_acquired = false } in
    if s.slot_acquired
    then consume_slot active data'
    else read_loop (length data') kept active data'

-- `AnalysisResult`.
pub record AnalysisResult : Type 0 where
  pub csv : Bytes
  pub crc32 : ℕ
  pub total_lines : ℕ
  pub skipped_lines : ℕ

-- The `RetainedResult` of `onAnalysisComplete`.
abbrev pub retained_from : AnalysisResult → Session → RetainedResult
retained_from result s = record {
  filename = s.filename;
  file_size = s.file_size;
  upload_crc32 = s.payload_crc;
  csv = result.csv;
  csv_crc32 = result.crc32;
}

-- `onAnalysisComplete`.
unfoldable pub on_analysis_complete : AnalysisResult → Session → Session
unfolding transition send_result
on_analysis_complete result s =
    let header =
      encode_result_header (record { csv_size = length result.csv; crc32 = result.crc32 }) in
    if s.cleanup_started || not (same_state s.state analyzing)
    then s
    else send_result header result.csv (
        transition sending_result
          (emit (result_retained (retained_from result s)) (record s { csv = result.csv })))

-- `onError`.
unfoldable pub on_error : ℕ → Session → Session
unfolding cleanup
on_error status s = cleanup (failed status) s

-- `onSendComplete`.
unfoldable pub on_send_complete : ℕ → Session → Session
unfolding cleanup transition
on_send_complete status s =
    let active = record s { timer = Timer.restart s.timer } in
    if not (status == 0)
    then s
    else if s.close_after_send
    then cleanup s.pending_fail_reason s
    else if same_state s.state sending_result
    then transition wait_done (record active {
      framer = reset s.framer MessageType.download_done MessageType.download_done;
    })
    else active

-- `onClosed`.
unfoldable pub on_closed : Session → Session
on_closed s = if s.finished then s else emit session_finished (record s { finished = true })

-- What the loop thread hands to a session. `arrive` is a call of `onAllocCb` and the call of
-- `onReadCb` that libuv makes next: no more bytes than the buffer has room for.
pub data Event : Type 0 where
  arrive : ℕ → Bytes → Option RetainedResult → Event
  write_completes read_fails : ℕ → Event
  expire resume close : Event
  analysed : AnalysisResult → Event

-- `onReadCb` drops a read of no bytes; `onWriteCb` passes a failed write to `onError` too; a timer
-- that is not active does not expire.
unfoldable pub step : Session → Event → Session
unfolding on_timeout resume_reading on_error
step s (arrive suggested_size data' kept) =
    let (s', size) = on_allocate suggested_size s in
    let read = take size data' in if length read == 0 then s' else on_read kept s' read
step s (write_completes status) =
    let s' = on_send_complete status (record s { socket = TcpSocket.write_done s.socket }) in
    if status == 0 then s' else on_error status s'
step s (read_fails status) = on_error status s
step s expire = if s.timer.active then on_timeout s else s
step s resume = resume_reading s
step s close = on_closed (record s { socket = TcpSocket.close_done s.socket })
step s (analysed result) = on_analysis_complete result s

unfoldable pub run : Session → List Event → Session
run s [] = s
run s (event ∷ events) = run (step s event) events

-- The session that `events` lead to from `start`.
abbrev pub reached : SessionTimeouts → ℕ → Socket → Answers → List Event → Session
reached timeouts chunk_size socket answers events =
    run (start (init timeouts chunk_size socket answers)).0 events
