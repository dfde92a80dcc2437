-- ===== src/Resumption.antt =====
-- client/service/TransferService.cpp and server/session/Session.cpp together: a result that the client
-- asks for again, with what the server answers.
pub mod Answers
mod Runs
use log_transfer_analyzer.Prelude.{
  ℕ, ◌≡◌, ◌≤◌, ◌<◌, refl, sym, ap, subst, ◌∙◌, ◌^◌, Bool, true, false, not, ◌||◌, ◌&&◌, ltb, ◌==◌,
  if◌then◌else◌, List, [], ◌∷◌, ◌++◌, Bytes, length, drop, take, append-nil, append_assoc, Option,
  none, some, inl, inr, arith, tests,
}
use log_transfer_analyzer.Crc32.{crc32}
use log_transfer_analyzer.Net.TcpSocket
use log_transfer_analyzer.Net.TcpSocket.{Socket}
use log_transfer_analyzer.Protocol.{MessageType, AckStatus, ResultRequest, max_csv_size, type_code}
use log_transfer_analyzer.Protocol.Codec.{
  ok, encode_result_header, encode_result_request, decode_result_request,
}
use log_transfer_analyzer.Protocol.Codec.RoundTrip.{
  IsResultRequest, decode-encode_result_request, length-is_valid_filename,
}
use log_transfer_analyzer.Protocol.Codec.Sizes.{Message, encode, byte_at-encode}
use log_transfer_analyzer.Protocol.Framer.{Framer, fresh, feed, type_byte}
use log_transfer_analyzer.Protocol.Framer.Whole.{feed-encode}
use log_transfer_analyzer.Session.{
  Session, RetainedResult, Effect, sent, sending_result, header_send_failed, csv_send_failed,
  offset_beyond_csv, emit, transition, resume_reading, arm_timer, same_state, cleanup,
  fail_with_ack, send,
}
use log_transfer_analyzer.Session.Messages.{
  send_result, send_header_only, answer_request, claim_result, request_decoded,
  handle_result_request, header_fed, consume_header,
}
use log_transfer_analyzer.Session.Retained.{same_bytes, retained_result}
use log_transfer_analyzer.Session.Steps.{if_any, if_cases}
use log_transfer_analyzer.Transfer.{Transfer, ResultClaim}
use log_transfer_analyzer.Transfer.Commands.{claimed_request, request_result}
use log_transfer_analyzer.Transfer.Download.{on_bytes}
use log_transfer_analyzer.Transfer.Remainder.{Delivered, differs, announced}
use log_transfer_analyzer.Transfer.Resume.{request_result-delivered}
use log_transfer_analyzer.Resumption.Answers.{
  replies, IsClaimOn, asked, answer_request-replies, consume_header-request,
}

-- A client that holds a claim, the first bytes of the result and their count asks for the result. The
-- server retains that result, of at most the size that a client takes, and the checksum with it; its
-- session waits for a first message, reads, and has sent nothing yet; the name of the file is one
-- that the protocol allows; and each side's next two writes are accepted. Then the answer of the
-- server leaves the client with the whole result for the windows, and with the end of the session.
pub resumed :
    (t : Transfer) (s : Session) (kept : RetainedResult)
    → t.has_claim ≡ true
    → t.has_socket ≡ true
    → t.csv ≡ take t.claim.received kept.csv
    → t.claim.received ≤ length kept.csv
    → IsClaimOn kept t.claim
    → IsResultRequest (claimed_request t.claim)
    → length kept.csv ≤ max_csv_size
    → kept.csv_crc32 ≡ crc32 0 kept.csv
    → kept.csv_crc32 < 2 ^ 32
    → s.framer ≡ fresh MessageType.upload_header MessageType.result_request
    → s.socket.reading ≡ true
    → replies s.effects ≡ []
    → (TcpSocket.send t.socket).1 ≡ 0
    → (TcpSocket.send (TcpSocket.send t.socket).0).1 ≡ 0
    → (TcpSocket.send s.socket).1 ≡ 0
    → (TcpSocket.send (TcpSocket.send s.socket).0).1 ≡ 0
    → Delivered kept.csv (
        on_bytes (request_result t) (
          replies
            (consume_header
              (some kept)
              s
              (encode_result_request (claimed_request t.claim))).0.effects))
resumed t s kept claimed connected prefix within on valid fits sum word waiting reading silent
      asked_ok told_ok answered_ok sent_ok =
    subst (λ bytes. Delivered kept.csv (on_bytes (request_result t) bytes)) (sym answer)
      (request_result-delivered t kept.csv claimed connected prefix fits (omega arith) asked_ok
        told_ok)
  where
    request : ResultRequest
    request = claimed_request t.claim

    answer :
        replies (consume_header (some kept) s (encode_result_request request)).0.effects
        ≡ encode_result_header (announced kept.csv) ++ drop t.claim.received kept.csv
    answer =
        ap (λ (s' : Session). replies s'.effects)
          (consume_header-request kept t.claim s on valid waiting)
        ∙ answer_request-replies request kept (asked s request) within reading answered_ok sent_ok
        ∙ ap (λ bytes. bytes ++ (header kept.csv_crc32 ++ drop t.claim.received kept.csv)) silent
        ∙ ap (λ crc. header crc ++ drop t.claim.received kept.csv) sum
      where
        header : ℕ → Bytes
        header crc = encode_result_header (record { csv_size = length kept.csv; crc32 = crc })
