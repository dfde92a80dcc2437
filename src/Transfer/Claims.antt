-- ===== src/Transfer/Claims.antt =====
-- The claim to a result knows how much of it was received, whatever the windows, the socket and the
-- reader do.
use log_transfer_analyzer.Prelude.{
  ℕ, zero, suc, ◌-◌, ◌≡◌, refl, subst, Bool, true, false, not, ◌&&◌, ◌||◌, ◌==◌, if◌then◌else◌,
  List, [], ◌∷◌, ◌++◌, Bytes, length, drop, Option, none, some, arith,
}
use log_transfer_analyzer.Net.TcpSocket
use log_transfer_analyzer.Net.TcpSocket.{Socket}
use log_transfer_analyzer.Protocol.{MessageType}
use log_transfer_analyzer.Protocol.Codec.{encode_upload_header}
use log_transfer_analyzer.Protocol.Framer.{reset}
use log_transfer_analyzer.Session.Steps.{if_any, if_cases}
use log_transfer_analyzer.Transfer.{
  Transfer, Expecting, csv_payload, resume_reply, link, connected, disconnected, stage, streaming,
  sending_header, requesting_result, reader_aborted, sent, push, fail_session, abort_upload, init,
}
use log_transfer_analyzer.Transfer.Upload.{pump_upload}
use log_transfer_analyzer.Transfer.Download.{
  fed, fed_bytes, handle_ack_bytes, handle_result_header_bytes, handle_resume_reply_bytes,
  handle_bytes, bytes_loop, on_bytes,
}
use log_transfer_analyzer.Transfer.Commands.{
  is_expecting, connect, connect_expires, disconnect, upload_begun, start_upload, cancel_upload,
  request_result, on_connect, on_send_complete, on_error, Event, connects, expires, disconnects,
  cancels, requests, fails, closes, quits, wakes, quit, uploads, connected_with, written, arrives,
  read_chunk, read_ends, read_fails, step, run,
}
use log_transfer_analyzer.Transfer.Keeps.{
  Arriving, Uploading, IsTransfer, Uploading-off, without_upload, close_socket-IsTransfer, send-any,
  fail_session-IsTransfer, abort_upload-IsTransfer, pump_upload-IsTransfer,
}
use log_transfer_analyzer.Transfer.Arrivals.{
  header_fed-IsTransfer, ack_fed-IsTransfer, reply_fed-IsTransfer, handle_csv_bytes-IsTransfer,
}

-- A service that expects something does not upload.
expecting_off :
    (expecting : Expecting) (t : Transfer)
    → is_expecting expecting ≡ true
    → t.expecting ≡ expecting
    → IsTransfer t
    → t.uploading ≡ false
expecting_off expecting t some_kind at h =
    without_upload t.uploading t.has_claim expecting (length t.csv) (rw some_kind (ground arith))
      (subst (λ k. Uploading t.uploading t.has_claim k (length t.csv)) at h.3)

expecting-Arriving :
    (expecting : Expecting) (t : Transfer)
    → t.expecting ≡ expecting
    → IsTransfer t
    → Arriving expecting (length t.csv) t.csv_size
expecting-Arriving expecting t at h = subst (λ k. Arriving k (length t.csv) t.csv_size) at h.1

-- What a round of the loop of `onBytes` leaves, if it does not fail the session itself.
abbrev Handled : Option (Transfer × ℕ) → Type 0
Handled none = Unit
Handled (some p) = IsTransfer p.0

handle_bytes-IsTransfer :
    (expecting : Expecting) (t : Transfer) (data' : Bytes)
    → t.expecting ≡ expecting
    → IsTransfer t
    → Handled (handle_bytes expecting t data')
unfolding handle_bytes handle_ack_bytes handle_result_header_bytes handle_resume_reply_bytes
handle_bytes-IsTransfer Expecting.nothing t data' at h = tt
handle_bytes-IsTransfer Expecting.ack t data' at h =
    ack_fed-IsTransfer (fed t data').framer.status (fed_bytes t data') (fed t data')
      (expecting_off Expecting.ack t refl at h, h.2, h.0, expecting-Arriving Expecting.ack t at h)
      h.1
handle_bytes-IsTransfer Expecting.result_header t data' at h =
    header_fed-IsTransfer (fed t data').framer.status (fed_bytes t data') (fed t data')
      (
        expecting_off Expecting.result_header t refl at h,
        h.2,
        h.0,
        expecting-Arriving Expecting.result_header t at h,
      )
      h.1
handle_bytes-IsTransfer csv_payload t data' at h = handle_csv_bytes-IsTransfer t data' at h
handle_bytes-IsTransfer resume_reply t data' at h =
    reply_fed-IsTransfer (fed t data').framer.status (fed_bytes t data') (fed t data')
      (expecting_off resume_reply t refl at h, h.2, h.0, tt) h.1

round-IsTransfer :
    (t : Transfer) (data' : Bytes) (next : Transfer → Bytes → Transfer) (r : Option (Transfer × ℕ))
    → IsTransfer t
    → ((t' : Transfer) (rest : Bytes) → IsTransfer t' → IsTransfer (next t' rest))
    → Handled r
    → IsTransfer (elim r [
      | none ↦ fail_session t
      | some round ↦ if round.1 == 0 then round.0 else next round.0 (drop round.1 data')
    ])
round-IsTransfer t data' next none h ih _ = fail_session-IsTransfer t h.2
round-IsTransfer t data' next (some round) h ih h' =
    if_any IsTransfer (round.1 == 0) h' (ih round.0 (drop round.1 data') h')

bytes_loop-IsTransfer :
    (fuel : ℕ) (t : Transfer) (data' : Bytes) → IsTransfer t → IsTransfer (bytes_loop fuel t data')
unfolding bytes_loop
bytes_loop-IsTransfer zero t data' h = h
bytes_loop-IsTransfer (suc fuel) t data' h = if_any IsTransfer (length data' == 0) h (
    round-IsTransfer t data' (bytes_loop fuel) (handle_bytes t.expecting t data') h
      (λ t' rest h'. bytes_loop-IsTransfer fuel t' rest h')
      (handle_bytes-IsTransfer t.expecting t data' refl h))

start_upload-IsTransfer :
    (filename : Bytes) (size : ℕ) (begun : Bool) (t : Transfer)
    → IsTransfer t
    → IsTransfer (start_upload filename size begun t)
unfolding start_upload
start_upload-IsTransfer filename size begun t h = if_any IsTransfer t.uploading h (
    if_any IsTransfer (not t.has_socket || t.socket.closing) h (
      if_any IsTransfer (not begun) h (
        send-any
          (λ p.
            IsTransfer (if p.1 then pump_upload (push (stage streaming) p.0) else abort_upload p.0))
          header begun'
          (λ socket.
            pump_upload-IsTransfer
              (push (stage streaming) (push (sent header) (record begun' { socket = socket })))
              begun_right)
          (λ socket. abort_upload-IsTransfer (record begun' { socket = socket }) begun_right))))
  where
    header : Bytes
    header = encode_upload_header (record { file_size = size; filename = filename })

    begun' : Transfer
    begun' = push (stage sending_header) (upload_begun filename size t)

    begun_right : IsTransfer begun'
    begun_right = (tt, tt, omega arith, (refl, refl, refl))

request_result-IsTransfer : (t : Transfer) → IsTransfer t → IsTransfer (request_result t)
unfolding request_result
request_result-IsTransfer t h =
    if_cases IsTransfer (not t.has_claim) (λ _. h)
      λ claimed.
        let off =
          without_upload t.uploading t.has_claim t.expecting (length t.csv) (ground arith) h.3 in
        if_any IsTransfer (not t.has_socket) h (
          send-any
            (λ p. IsTransfer (
              if p.1
              then push (stage requesting_result) (record p.0 {
                framer = reset p.0.framer MessageType.ack MessageType.result_header;
                expecting = resume_reply;
                session_completed = false;
              })
              else fail_session p.0))
            _ t (λ socket. (h.0, tt, h.2, Uploading-off t.uploading t.has_claim resume_reply _ off))
            (λ socket. fail_session-IsTransfer (record t { socket = socket }) h.2))

connect-IsTransfer :
    (socket : Socket) (accepted : Bool) (t : Transfer)
    → IsTransfer t
    → IsTransfer (connect socket accepted t)
connect-IsTransfer socket accepted t h =
    if_any IsTransfer t.has_socket h (if_any IsTransfer accepted h h)

on_error-IsTransfer : (t : Transfer) → IsTransfer t → IsTransfer (on_error t)
unfolding on_error
on_error-IsTransfer t h =
    let failed =
      if t.uploading
      then abort_upload t
      else if is_expecting t.expecting
      then fail_session t
      else t in
    close_socket-IsTransfer (push (link disconnected) failed) (
      if_any IsTransfer t.uploading (abort_upload-IsTransfer t h)
        (if_any IsTransfer (is_expecting t.expecting) (fail_session-IsTransfer t h.2) h))

on_send_complete-IsTransfer :
    (accepted : Bool) (t : Transfer) → IsTransfer t → IsTransfer (on_send_complete accepted t)
unfolding on_send_complete
on_send_complete-IsTransfer accepted t h =
    let t' : Transfer = record t { in_flight_writes = t.in_flight_writes - 1 } in
    let h' : IsTransfer t' = (h.0, h.1, omega (arith, h.2), h.3) in
    if_any IsTransfer accepted (pump_upload-IsTransfer t' h')
      (if_any IsTransfer t.uploading (abort_upload-IsTransfer t' h') h')

step-IsTransfer : (t : Transfer) (event : Event) → IsTransfer t → IsTransfer (step t event)
unfolding step connect_expires disconnect cancel_upload on_connect on_send_complete on_error
    on_bytes quit
step-IsTransfer t (connects socket accepted) h = connect-IsTransfer socket accepted t h
step-IsTransfer t expires h =
    if_any IsTransfer (t.has_socket && not t.socket.closing)
      (close_socket-IsTransfer (push (link disconnected) t) h) h
step-IsTransfer t disconnects h = if_any IsTransfer (not t.has_socket) h (
    if_any IsTransfer t.uploading (abort_upload-IsTransfer t h) (
      if_any IsTransfer (is_expecting t.expecting) (fail_session-IsTransfer t h.2)
        (close_socket-IsTransfer t h)))
step-IsTransfer t cancels h = if_any IsTransfer t.uploading (abort_upload-IsTransfer t h) h
step-IsTransfer t requests h = request_result-IsTransfer t h
step-IsTransfer t fails h = on_error-IsTransfer t h
step-IsTransfer t closes h = h
step-IsTransfer t quits h =
    close_socket-IsTransfer (push reader_aborted (record t { uploading = false }))
      (h.0, h.1, h.2, tt)
step-IsTransfer t wakes h = pump_upload-IsTransfer t h
step-IsTransfer t (uploads filename size begun) h = start_upload-IsTransfer filename size begun t h
step-IsTransfer t (connected_with accepted) h =
    let reply = TcpSocket.start_read t.socket in
    let t' = push (link connected) (record t { socket = reply.0 }) in
    if_any IsTransfer (not accepted) (close_socket-IsTransfer (push (link disconnected) t) h)
      (if_any IsTransfer (reply.1 == 0) h (close_socket-IsTransfer t' h))
step-IsTransfer t (written accepted) h =
    let done : Transfer = record t { socket = TcpSocket.write_done t.socket } in
    let t' = on_send_complete accepted done in
    let h' : IsTransfer t' = on_send_complete-IsTransfer accepted done h in
    if_any IsTransfer accepted h' (on_error-IsTransfer t' h')
step-IsTransfer t (arrives data') h = bytes_loop-IsTransfer (length data') t data' h
step-IsTransfer t (read_chunk chunk) h =
    pump_upload-IsTransfer
      (record t { reader = record t.reader { chunks = t.reader.chunks ++ (chunk ∷ []) } }) h
step-IsTransfer t read_ends h =
    pump_upload-IsTransfer (record t { reader = record t.reader { read_complete = true } }) h
step-IsTransfer t read_fails h =
    pump_upload-IsTransfer (record t { reader = record t.reader { failed = true } }) h

run-kept : (t : Transfer) (events : List Event) → IsTransfer t → IsTransfer (run t events)
unfolding run
run-kept t [] h = h
run-kept t (event ∷ events) h = run-kept (step t event) events (step-IsTransfer t event h)

-- After any commands, callbacks and wake-ups of the reader: a claim to a result asks for the bytes
-- behind those that are there; while a table arrives, some of it is missing and its size is at most
-- the limit; the count of writes that the service keeps is at most eight; and an upload has neither a
-- claim nor bytes of a table, and expects nothing.
pub run-IsTransfer : (socket : Socket) (events : List Event) → IsTransfer (run (init socket) events)
run-IsTransfer socket events = run-kept (init socket) events (tt, tt, omega arith, tt)
