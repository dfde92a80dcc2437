-- ===== src/Resumption/Answers.antt =====
-- server/session/Session.cpp: what a session that waits for its first message answers to a request for
-- the retained result.
use log_transfer_analyzer.Prelude.{
  ℕ, ◌≡◌, ◌≤◌, refl, sym, ap, subst, ◌∙◌, Bool, true, false, not, ◌||◌, ltb, ◌==◌, if◌then◌else◌,
  List, [], ◌∷◌, ◌++◌, Bytes, length, drop, append-nil, append_assoc, some, inr, arith, tests,
}
use log_transfer_analyzer.Net.TcpSocket
use log_transfer_analyzer.Net.TcpSocket.{Socket}
use log_transfer_analyzer.Protocol.{MessageType, ResultRequest, type_code}
use log_transfer_analyzer.Protocol.Codec.{
  ok, encode_result_header, encode_result_request, decode_result_request,
}
use log_transfer_analyzer.Protocol.Codec.RoundTrip.{
  IsResultRequest, decode-encode_result_request, length-is_valid_filename,
}
use log_transfer_analyzer.Protocol.Codec.Sizes.{Message, byte_at-encode}
use log_transfer_analyzer.Protocol.Framer.{Framer, fresh, feed, type_byte}
use log_transfer_analyzer.Protocol.Framer.Whole.{feed-encode}
use log_transfer_analyzer.Session.{
  Session, RetainedResult, Effect, sent, sending_result, header_send_failed, csv_send_failed, emit,
  transition, resume_reading, arm_timer, same_state, cleanup, send,
}
use log_transfer_analyzer.Session.Messages.{
  send_result, send_header_only, answer_request, claim_result, request_decoded,
  handle_result_request, header_fed, consume_header,
}
use log_transfer_analyzer.Session.Retained.{same_bytes, retained_result}
use log_transfer_analyzer.Session.Steps.{if_any, if_cases}
use log_transfer_analyzer.Transfer.{ResultClaim}
use log_transfer_analyzer.Transfer.Commands.{claimed_request}
use log_transfer_analyzer.Transfer.Remainder.{differs}

-- The bytes that a session has sent, in their order.
abbrev pub replies : List Effect → Bytes
replies [] = []
replies (sent bytes ∷ es) = replies es ++ bytes
replies (e ∷ es) = replies es

-- The session after a write that is accepted.
abbrev wrote : Bytes → Session → Session
wrote bytes s = emit (sent bytes) (record s { socket = (TcpSocket.send s.socket).0 })

send-accepted :
    (bytes : Bytes) (s : Session)
    → (TcpSocket.send s.socket).1 ≡ 0
    → send bytes s ≡ (wrote bytes s, 0)
unfolding send
send-accepted bytes s accepted =
    if_cases P ((TcpSocket.send s.socket).1 == 0) (λ _ i. (wrote bytes s, accepted i))
      (λ refused. absurd (differs accepted refused))
  where
    P : Session → Type 0
    P s' = ◌≡◌ {A = Session × ℕ} (s', (TcpSocket.send s.socket).1) (wrote bytes s, 0)

send_header_only-accepted :
    (header : Bytes) (s : Session)
    → (TcpSocket.send s.socket).1 ≡ 0
    → send_header_only header s ≡ wrote header s
unfolding send_header_only
send_header_only-accepted header s accepted =
    ap (λ (p : Session × ℕ). if p.1 == 0 then p.0 else cleanup header_send_failed p.0)
      (send-accepted header s accepted)

send_result-accepted :
    (header body : Bytes) (s : Session)
    → (TcpSocket.send s.socket).1 ≡ 0
    → (TcpSocket.send (TcpSocket.send s.socket).0).1 ≡ 0
    → send_result header body s ≡ wrote body (wrote header s)
unfolding send_result
send_result-accepted header body s accepted told =
    ap
      (λ (p : Session × ℕ).
        if not (p.1 == 0)
        then cleanup header_send_failed p.0
        else if (send body p.0).1 == 0
        then (send body p.0).0
        else cleanup csv_send_failed (send body p.0).0)
      (send-accepted header s accepted)
    ∙ ap (λ (p : Session × ℕ). if p.1 == 0 then p.0 else cleanup csv_send_failed p.0)
        (send-accepted body (wrote header s) told)

one_holds : (a b : Bool) → b ≡ true → (a || b) ≡ false → ⊥
one_holds a b e neither = ground arith

nothing_there : (xs : Bytes) → (length xs == 0) ≡ true → xs ≡ []
nothing_there [] e = refl
nothing_there (x ∷ xs) e = absurd (ground arith)

-- A session that reads has nothing to do for a new state but its timer.
transition-quiet :
    (s : Session)
    → s.socket.reading ≡ true
    → ((transition sending_result s).effects ≡ s.effects)
      × ((transition sending_result s).socket ≡ s.socket)
unfolding transition resume_reading arm_timer
transition-quiet s reading =
    if_any Q (same_state s.state sending_result) (refl, refl)
      (if_cases Q (armed.cleanup_started || armed.socket.reading) (λ _. armed_quiet)
        (λ off. absurd (
          one_holds armed.cleanup_started armed.socket.reading
            (ap (λ (k : Socket). k.reading) armed_quiet.1 ∙ reading) off)))
  where
    Q : Session → Type 0
    Q s' = (s'.effects ≡ s.effects) × (s'.socket ≡ s.socket)

    armed : Session
    armed = arm_timer (record s { state = sending_result })

    armed_quiet : Q armed
    armed_quiet = if_any Q (s.timeouts.idle_ms == 0) (refl, refl) (refl, refl)

-- The answer to a request whose offset is within the result.
pub answer_request-replies :
    (request : ResultRequest) (kept : RetainedResult) (s : Session)
    → request.start_offset ≤ length kept.csv
    → s.socket.reading ≡ true
    → (TcpSocket.send s.socket).1 ≡ 0
    → (TcpSocket.send (TcpSocket.send s.socket).0).1 ≡ 0
    → replies (answer_request request kept s).effects
      ≡ replies s.effects
        ++ (encode_result_header (record { csv_size = length kept.csv; crc32 = kept.csv_crc32 })
            ++ drop request.start_offset kept.csv)
unfolding answer_request
answer_request-replies request kept s within reading accepted told =
    if_cases P (ltb (length kept.csv) request.start_offset) (λ beyond. absurd (grind tests))
      λ _.
        if_cases P (length body == 0)
          (λ none_left.
            ap (λ (s' : Session). replies s'.effects)
              (send_header_only-accepted header ready
                (at_ready (λ k. (TcpSocket.send k).1 ≡ 0) accepted))
            ∙ ap (λ es. replies es ++ header) quiet.0
            ∙ ap (λ b. replies s.effects ++ b)
                (sym (ap (λ b. header ++ b) (nothing_there body none_left) ∙ append-nil header)))
          (λ _.
            ap (λ (s' : Session). replies s'.effects)
              (send_result-accepted header body ready
                (at_ready (λ k. (TcpSocket.send k).1 ≡ 0) accepted)
                (at_ready (λ k. (TcpSocket.send (TcpSocket.send k).0).1 ≡ 0) told))
            ∙ ap (λ es. (replies es ++ header) ++ body) quiet.0
            ∙ append_assoc (replies s.effects) header body)
  where
    header : Bytes
    header = encode_result_header (record { csv_size = length kept.csv; crc32 = kept.csv_crc32 })

    body : Bytes
    body = drop request.start_offset kept.csv

    P : Session → Type 0
    P s' = replies s'.effects ≡ replies s.effects ++ (header ++ body)

    named : Session
    named = record s { filename = request.filename; csv = kept.csv }

    ready : Session
    ready = transition sending_result named

    quiet : (ready.effects ≡ s.effects) × (ready.socket ≡ s.socket)
    quiet = transition-quiet named reading

    at_ready : (R : Socket → Type 0) → R s.socket → R ready.socket
    at_ready R = subst R (sym quiet.1)

same_bytes_self : (xs : Bytes) → same_bytes xs xs ≡ true
unfolding same_bytes
same_bytes_self [] = refl
same_bytes_self (x ∷ xs) = ground (arith, same_bytes_self xs)

-- The result that the claim is about, less what of it was received.
pub record IsClaimOn (kept : RetainedResult) (claim : ResultClaim) : Type 0 where
  pub same_name : kept.filename ≡ claim.filename
  pub same_size : kept.file_size ≡ claim.file_size
  pub same_crc : kept.upload_crc32 ≡ claim.crc32

retained_result-claimed :
    (kept : RetainedResult) (claim : ResultClaim)
    → IsClaimOn kept claim
    → retained_result (some kept) claim.filename claim.file_size claim.crc32 ≡ some kept
unfolding retained_result
retained_result-claimed kept claim on =
    rw (sym on.same_name, sym on.same_size, sym on.same_crc, same_bytes_self kept.filename)
      (ground arith)

-- The session with the request in its framer.
abbrev pub asked : Session → ResultRequest → Session
asked s request = record s {
  framer = record (fresh MessageType.upload_header MessageType.result_request) {
    buffer = encode_result_request request;
    status = ok tt;
  };
}

pub consume_header-request :
    (kept : RetainedResult) (claim : ResultClaim) (s : Session)
    → IsClaimOn kept claim
    → IsResultRequest (claimed_request claim)
    → s.framer ≡ fresh MessageType.upload_header MessageType.result_request
    → (consume_header (some kept) s (encode_result_request (claimed_request claim))).0
      ≡ answer_request (claimed_request claim) kept (asked s (claimed_request claim))
unfolding consume_header header_fed handle_result_request request_decoded claim_result
consume_header-request kept claim s on valid at_header =
    ap (λ (r : Framer × ℕ). (header_fed (some kept) r.0.status r.1 (record s { framer = r.0 })).0)
      (ap (λ fr. feed fr (encode_result_request request)) at_header ∙ taken)
    ∙ if_cases (λ (p : Session × ℕ). p.0 ≡ answer_request request kept (asked s request))
        (type_byte (encode_result_request request) == type_code MessageType.result_request)
        (λ _. handled) (λ other. absurd (differs (byte_at-encode (Message.request request)) other))
  where
    request : ResultRequest
    request = claimed_request claim

    taken :
        feed
          (fresh MessageType.upload_header MessageType.result_request)
          (encode_result_request request)
        ≡ ((asked s request).framer, length (encode_result_request request))
    taken = rw append-nil at (
        feed-encode (Message.request request) MessageType.upload_header MessageType.result_request
          [] (length-is_valid_filename claim.filename valid.name_allowed) (inr refl))

    decoded : decode_result_request (encode_result_request request) ≡ ok request
    decoded = rw append-nil at (decode-encode_result_request request [] valid)

    handled :
        handle_result_request (some kept) (asked s request)
        ≡ answer_request request kept (asked s request)
    handled =
        ap (λ d. request_decoded (some kept) d (asked s request)) decoded
        ∙ ap (λ found. claim_result request found (asked s request))
            (retained_result-claimed kept claim on)
