-- ===== src/Transfer/Keeps.antt =====
-- The claim to a result knows how much of it was received, and what is received stays within what
-- was announced.
use log_transfer_analyzer.Prelude.{
  ℕ, ◌+◌, ◌≡◌, ◌≤◌, ◌<◌, refl, sym, subst, Bool, true, false, not, ◌&&◌, ◌||◌, ltb, ◌==◌,
  if◌then◌else◌, List, [], ◌∷◌, Bytes, length, arith, add_u64,
}
use log_transfer_analyzer.Crc32.{crc32}
use log_transfer_analyzer.Net.TcpSocket
use log_transfer_analyzer.Net.TcpSocket.{Socket}
use log_transfer_analyzer.Protocol.{MessageType, max_csv_size}
use log_transfer_analyzer.Protocol.Codec.{encode_upload_trailer, encode_download_done}
use log_transfer_analyzer.Protocol.Framer.{reset}
use log_transfer_analyzer.Session.Steps.{if_any, if_cases}
use log_transfer_analyzer.Transfer.{
  Transfer, Expecting, csv_payload, stage, wait_ack, completed, reader_aborted, sent, push, send,
  close_socket, drain_ring, upload_stopped, claim_kept, fail_session, abort_upload,
  max_in_flight_writes,
}
use log_transfer_analyzer.Transfer.Upload.{finish_upload, pumped, pump_loop, is_pumped, pump_upload}
use log_transfer_analyzer.Transfer.Download.{distrusted, verified, finish_download}
use log_transfer_analyzer.Transfer.Commands.{is_expecting}

-- The place to resume at is the length of what was received.
abbrev pub ClaimOf : Bool → ℕ → ℕ → Type 0
ClaimOf false received size = Unit
ClaimOf true received size = received ≡ size

-- While the table arrives, some of it is missing, and its size is below the limit; before its header
-- arrives for the first time, nothing is there.
abbrev pub Arriving : Expecting → ℕ → ℕ → Type 0
Arriving csv_payload size announced = (size < announced) × (announced ≤ max_csv_size)
Arriving Expecting.ack size announced = size ≡ 0
Arriving Expecting.result_header size announced = size ≡ 0
Arriving _ size announced = Unit

-- An upload has no claim, and nothing is expected or there.
abbrev pub Uploading : Bool → Bool → Expecting → ℕ → Type 0
Uploading true has_claim expecting size =
    (has_claim ≡ false) × (is_expecting expecting ≡ false) × (size ≡ 0)
Uploading false has_claim expecting size = Unit

-- The count of writes is at most the limit.
abbrev pub IsTransfer : Transfer → Type 0
IsTransfer t =
    ClaimOf t.has_claim t.claim.received (length t.csv)
    × Arriving t.expecting (length t.csv) t.csv_size
    × (t.in_flight_writes ≤ max_in_flight_writes)
    × Uploading t.uploading t.has_claim t.expecting (length t.csv)

pub Uploading-off :
    (uploading has_claim : Bool) (expecting : Expecting) (size : ℕ)
    → uploading ≡ false
    → Uploading uploading has_claim expecting size
Uploading-off uploading has_claim expecting size e =
    subst (λ u. Uploading u has_claim expecting size) (sym e) tt

-- An upload that has a claim or expects something would contradict itself.
pub without_upload :
    (uploading has_claim : Bool) (expecting : Expecting) (size : ℕ)
    → (has_claim || is_expecting expecting) ≡ true
    → Uploading uploading has_claim expecting size
    → uploading ≡ false
without_upload false has_claim expecting size e u = refl
without_upload true has_claim expecting size e (unclaimed, silent, _) = absurd (ground arith)

-- `P` does not speak of the socket.
pub close_socket-IsTransfer : (t : Transfer) → IsTransfer t → IsTransfer (close_socket t)
unfolding close_socket
close_socket-IsTransfer t h = if_any IsTransfer (t.has_socket && not t.socket.closing) h h

-- A send, and any continuation of it.
pub send-any :
    (R : Transfer × Bool → Type 0) (bytes : Bytes) (t : Transfer)
    → ((socket : Socket) → R (push (sent bytes) (record t { socket = socket }), true))
    → ((socket : Socket) → R (record t { socket = socket }, false))
    → R (send bytes t)
unfolding send
send-any R bytes t accepted refused =
    let reply = TcpSocket.send t.socket in
    if_any R (reply.1 == 0) (accepted reply.0) (refused reply.0)

pub ClaimOf-self : (claimed : Bool) (size : ℕ) → ClaimOf claimed size size
ClaimOf-self true size = refl
ClaimOf-self false size = tt

pub ClaimOf-none :
    (claimed : Bool) (received size : ℕ) → claimed ≡ false → ClaimOf claimed received size
ClaimOf-none claimed received size e = subst (λ c. ClaimOf c received size) (sym e) tt

-- `failSession` establishes it, and `abortUpload` keeps it.
claim_kept-IsTransfer :
    (t : Transfer)
    → t.uploading ≡ false
    → t.in_flight_writes ≤ max_in_flight_writes
    → IsTransfer (claim_kept t)
claim_kept-IsTransfer t off h =
    if_cases IsTransfer t.has_claim
      (λ _.
        (ClaimOf-self t.has_claim (length t.csv), tt, h, Uploading-off _ _ Expecting.nothing _ off))
      (λ e. (ClaimOf-none t.has_claim _ 0 e, tt, h, Uploading-off _ _ Expecting.nothing 0 off))

pub fail_session-IsTransfer :
    (t : Transfer) → t.in_flight_writes ≤ max_in_flight_writes → IsTransfer (fail_session t)
unfolding fail_session
fail_session-IsTransfer t h = close_socket-IsTransfer (claim_kept (upload_stopped t)) (
    if_cases (λ (t' : Transfer). IsTransfer (claim_kept t')) t.uploading
      (λ _.
        claim_kept-IsTransfer (drain_ring (push reader_aborted (record t { uploading = false })))
          refl h)
      (λ off. claim_kept-IsTransfer t off h))

pub abort_upload-IsTransfer : (t : Transfer) → IsTransfer t → IsTransfer (abort_upload t)
unfolding abort_upload
abort_upload-IsTransfer t h =
    close_socket-IsTransfer (drain_ring (push reader_aborted (record t { uploading = false })))
      (h.0, h.1, h.2, tt)

-- The upload.
finish_upload-IsTransfer :
    (t : Transfer) → length t.csv ≡ 0 → IsTransfer t → IsTransfer (finish_upload t)
unfolding finish_upload
finish_upload-IsTransfer t none_yet h =
    let trailer = encode_upload_trailer (record { crc32 = t.upload_crc }) in
    let t' : Transfer = record t { trailer_sent = true } in
    send-any
      (λ p. IsTransfer (
        if p.1
        then record (push (stage wait_ack) (record p.0 { uploading = false })) {
          expecting = Expecting.ack;
          framer = reset p.0.framer MessageType.ack MessageType.ack;
        }
        else abort_upload p.0))
      trailer t' (λ socket. (h.0, none_yet, h.2, tt))
      (λ socket. abort_upload-IsTransfer (record t' { socket = socket }) h)

-- The same for a service that holds nothing of a table.
abbrev Empty : Transfer → Type 0
Empty t = IsTransfer t × (length t.csv ≡ 0)

Empty-abort_upload : (t : Transfer) → Empty t → Empty (abort_upload t)
unfolding abort_upload close_socket
Empty-abort_upload t (h, none_yet) =
    if_any Empty (t.has_socket && not t.socket.closing) ((h.0, h.1, h.2, tt), none_yet)
      ((h.0, h.1, h.2, tt), none_yet)

pumped-Empty :
    (chunk : Bytes) (chunks : List Bytes) (t : Transfer)
    → t.in_flight_writes < max_in_flight_writes
    → Empty t
    → Empty (pumped chunk chunks t).0
unfolding send
pumped-Empty chunk chunks t room (h, none_yet) =
    if_any
      (λ (p : Transfer × Bool). Empty (record p.0 {
        in_flight_writes = p.0.in_flight_writes + 1;
        reader = record p.0.reader { chunks = chunks };
      }))
      ((TcpSocket.send t.socket).1 == 0) ((h.0, h.1, omega (arith, room), h.3), none_yet)
      ((h.0, h.1, omega (arith, room), h.3), none_yet)

abbrev Empty₀ : Transfer × Bool → Type 0
Empty₀ p = Empty p.0

pump_loop-Empty : (chunks : List Bytes) (t : Transfer) → Empty t → Empty₀ (pump_loop chunks t)
unfolding pump_loop
pump_loop-Empty [] t h = h
pump_loop-Empty (chunk ∷ chunks) t h =
    let t' = (pumped chunk chunks t).0 in
    if_cases Empty₀ (not (ltb t.in_flight_writes max_in_flight_writes)) (λ _. h)
      λ room.
        let h' : Empty t' = pumped-Empty chunk chunks t (ground arith) h in
        let next : Transfer = record t' { upload_sent = add_u64 t'.upload_sent (length chunk) } in
        let rest : Empty₀ (pump_loop chunks next) = pump_loop-Empty chunks next h' in
        if_any Empty₀ (pumped chunk chunks t).1 rest (Empty-abort_upload t' h')

pub pump_upload-IsTransfer : (t : Transfer) → IsTransfer t → IsTransfer (pump_upload t)
unfolding pump_upload
pump_upload-IsTransfer t h =
    let p = pump_loop t.reader.chunks t in
    if_cases IsTransfer (not t.uploading || not t.has_socket || t.socket.closing) (λ _. h)
      λ on.
        let u : Uploading true t.has_claim t.expecting (length t.csv) =
          subst (λ u. Uploading u t.has_claim t.expecting (length t.csv)) {y = true} (ground arith)
            h.3 in
        let h' : Empty p.0 = pump_loop-Empty t.reader.chunks t (h, u.2) in
        if_any IsTransfer t.reader.failed (abort_upload-IsTransfer t h)
          (if_any IsTransfer (p.1 && is_pumped p.0) (finish_upload-IsTransfer p.0 h'.1 h'.0) h'.0)

-- The download.
pub finish_download-IsTransfer :
    (t : Transfer)
    → t.uploading ≡ false
    → t.in_flight_writes ≤ max_in_flight_writes
    → IsTransfer (finish_download t)
unfolding finish_download
finish_download-IsTransfer t off h =
    if_any IsTransfer (not (crc32 0 t.csv == t.csv_expected_crc))
      (fail_session-IsTransfer (distrusted t) h)
      (send-any
        (λ p. IsTransfer (
          if p.1
          then push (stage completed) (record p.0 { session_completed = true })
          else fail_session p.0))
        encode_download_done (verified t)
        (λ socket. (tt, tt, h, Uploading-off t.uploading false Expecting.nothing 0 off))
        (λ socket. fail_session-IsTransfer (record (verified t) { socket = socket }) h))
