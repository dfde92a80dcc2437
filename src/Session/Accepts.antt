-- ===== src/Session/Accepts.antt =====
-- What a session does with the bytes of each message keeps its invariant.
use log_transfer_analyzer.Prelude.{
  ℕ, ◌≡◌, ◌≤◌, ◌==◌, ltb, false, refl, Bytes, sym, ap, subst, length, drop, Option, none, some,
  arith,
}
use log_transfer_analyzer.Protocol.{UploadHeader, ResultRequest, type_code, MessageType}
use log_transfer_analyzer.Protocol.Codec.{
  Decoded, ok, err, DecodeStatus, need_more_data, bad_magic, bad_version, bad_type, bad_value,
}
use log_transfer_analyzer.Protocol.Framer.{type_byte}
use log_transfer_analyzer.Session.{
  Session, RetainedResult, wait_header, receiving, sending_result, same_state, transition,
}
use log_transfer_analyzer.Session.Messages.{
  fed, fed_bytes, answer_request, claim_result, request_decoded, handle_result_request,
  header_decoded, header_fed, consume_header,
}
use log_transfer_analyzer.Session.Trace.{visible, is_completed}
use log_transfer_analyzer.Session.Facts.{IsSession, At}
use log_transfer_analyzer.Session.Steps.{if_any}
use log_transfer_analyzer.Session.Endings.{
  Open-Kept, fail_with_ack-At, close_silently-At, At-IsSession, transition-At, transition-IsSession,
  send_header_only-IsSession, send_result-IsSession,
}

-- A session that waits for a header has received nothing.
abbrev pub Waiting : Session → Type 0
Waiting s = At wait_header s × (s.received_bytes ≡ 0) × (is_completed (visible s.effects) ≡ false)

answer_request-IsSession :
    (request : ResultRequest) (kept : RetainedResult) (s : Session)
    → Waiting s
    → IsSession (answer_request request kept s)
unfolding answer_request
answer_request-IsSession request kept s (at, none_yet, before) =
    if_any IsSession (ltb (length kept.csv) request.start_offset)
      (fail_with_ack-At _ _ wait_header s at refl (none_yet, before))
      (if_any IsSession (length (drop request.start_offset kept.csv) == 0)
        (send_header_only-IsSession _ _ ready) (send_result-IsSession _ _ _ ready))
  where
    ready :
        At sending_result
          (transition sending_result (record s { filename = request.filename; csv = kept.csv }))
    ready = transition-At wait_header sending_result _ at refl

claim_result-IsSession :
    (request : ResultRequest) (found : Option RetainedResult) (s : Session)
    → Waiting s
    → IsSession (claim_result request found s)
unfolding claim_result
claim_result-IsSession request none s (at, none_yet, before) =
    fail_with_ack-At _ _ wait_header s at refl (none_yet, before)
claim_result-IsSession request (some kept) s w = answer_request-IsSession request kept s w

request_decoded-IsSession :
    (kept : Option RetainedResult) (request : Decoded ResultRequest) (s : Session)
    → Waiting s
    → IsSession (request_decoded kept request s)
unfolding request_decoded
request_decoded-IsSession kept (ok request) s w = claim_result-IsSession request _ s w
request_decoded-IsSession kept (err bad_value) s (at, none_yet, before) =
    fail_with_ack-At _ _ wait_header s at refl (none_yet, before)
request_decoded-IsSession kept (err need_more_data) s w = close_silently-At _ wait_header s w.0
request_decoded-IsSession kept (err bad_magic) s w = close_silently-At _ wait_header s w.0
request_decoded-IsSession kept (err bad_version) s w = close_silently-At _ wait_header s w.0
request_decoded-IsSession kept (err bad_type) s w = close_silently-At _ wait_header s w.0

header_decoded-IsSession :
    (header : Decoded UploadHeader) (consumed : ℕ) (s : Session)
    → Waiting s
    → IsSession (header_decoded header consumed s).0
unfolding header_decoded
header_decoded-IsSession (ok header) consumed s ((live, at, v), none_yet, before) =
    transition-IsSession receiving _ (ap (λ st. same_state st receiving) at) (
      Open-Kept opened live (record {
        within = subst (λ n. n ≤ header.file_size) (sym none_yet) (omega arith);
        sums = v.sums;
        close_flag = v.close_flag;
        abort_flag = v.abort_flag;
        finish_flag = v.finish_flag;
        orderly = v.orderly;
      }),
      sym live,
      before,
    )
  where
    opened : Session
    opened = record s { file_size = header.file_size }
header_decoded-IsSession (err bad_value) consumed s (at, none_yet, before) =
    fail_with_ack-At _ _ wait_header s at refl (none_yet, before)
header_decoded-IsSession (err need_more_data) consumed s w = close_silently-At _ wait_header s w.0
header_decoded-IsSession (err bad_magic) consumed s w = close_silently-At _ wait_header s w.0
header_decoded-IsSession (err bad_version) consumed s w = close_silently-At _ wait_header s w.0
header_decoded-IsSession (err bad_type) consumed s w = close_silently-At _ wait_header s w.0

header_fed-IsSession :
    (kept : Option RetainedResult) (reply : DecodeStatus) (consumed : ℕ) (s : Session)
    → Waiting s
    → IsSession (header_fed kept reply consumed s).0
unfolding header_fed handle_result_request
header_fed-IsSession kept (ok _) consumed s w =
    if_any (λ (p : Session × ℕ). IsSession p.0)
      (type_byte s.framer.buffer == type_code MessageType.result_request)
      (request_decoded-IsSession kept _ s w) (header_decoded-IsSession _ consumed s w)
header_fed-IsSession kept (err need_more_data) consumed s (at, none_yet, before) =
    At-IsSession wait_header s at refl (none_yet, before)
header_fed-IsSession kept (err bad_value) consumed s (at, none_yet, before) =
    fail_with_ack-At _ _ wait_header s at refl (none_yet, before)
header_fed-IsSession kept (err bad_magic) consumed s w = close_silently-At _ wait_header s w.0
header_fed-IsSession kept (err bad_version) consumed s w = close_silently-At _ wait_header s w.0
header_fed-IsSession kept (err bad_type) consumed s w = close_silently-At _ wait_header s w.0

pub consume_header-IsSession :
    (kept : Option RetainedResult) (s : Session) (data' : Bytes)
    → Waiting s
    → IsSession (consume_header kept s data').0
unfolding consume_header
consume_header-IsSession kept s data' w =
    header_fed-IsSession kept (fed s data').framer.status (fed_bytes s data') (fed s data') w
