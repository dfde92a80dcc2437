-- ===== src/Transfer/Resume.antt =====
-- client/service/TransferService.cpp: a result that is asked for again, from where its first transfer
-- was cut.
use log_transfer_analyzer.Prelude.{
  ℕ, ◌-◌, ◌^◌, ◌≡◌, ◌≤◌, ◌<◌, refl, sym, ap, subst, ◌∙◌, Bool, true, false, not, ltb, ◌==◌,
  if◌then◌else◌, [], ◌++◌, Bytes, length, length-append, length-take, take, drop, append-nil, some,
  inr, arith, tests,
}
use log_transfer_analyzer.Crc32.{crc32}
use log_transfer_analyzer.Net.TcpSocket
use log_transfer_analyzer.Net.TcpSocket.{Socket}
use native.Mathlib.Decide.{dec_lt}
use log_transfer_analyzer.Protocol.{MessageType, ResultHeader, max_csv_size}
use log_transfer_analyzer.Protocol.Codec.{ok, encode_result_header, encode_result_request}
use log_transfer_analyzer.Protocol.Codec.RoundTrip.{decode-encode_result_header}
use log_transfer_analyzer.Protocol.Codec.Sizes.{Message, byte_at-encode, length-encode_bounds}
use log_transfer_analyzer.Protocol.Framer.{Framer, reset, fresh}
use log_transfer_analyzer.Protocol.Framer.Whole.{feed-encode}
use log_transfer_analyzer.Session.Steps.{if_cases}
use log_transfer_analyzer.Transfer.{
  Transfer, csv_payload, resume_reply, receiving_result, requesting_result, sent, stage, push, send,
  fail_session,
}
use log_transfer_analyzer.Transfer.Commands.{claimed_request, request_result}
use log_transfer_analyzer.Transfer.Download.{
  finish_download, begin_csv_receive, header_decoded, reply_fed, handle_resume_reply_bytes,
  handle_bytes, bytes_loop, on_bytes,
}
use log_transfer_analyzer.Transfer.Remainder.{
  Delivered, announced, differs, finish_download-Delivered, bytes_loop_end, bytes_loop_round,
  drop_all, drop_front, take_all, rest-Delivered,
}

-- The service that has asked, and received the message.
abbrev answered : Transfer → ResultHeader → Bytes → Transfer
answered t header csv = record t {
  framer = record (fresh MessageType.ack MessageType.result_header) {
    buffer = encode_result_header header;
    status = ok tt;
  };
  expecting = resume_reply;
  csv = csv;
}

abbrev asked : Transfer → Bytes → Transfer
asked t csv = record t {
  framer = fresh MessageType.ack MessageType.result_header;
  expecting = resume_reply;
  csv = csv;
}

handle-announced :
    (t : Transfer) (full csv rest : Bytes)
    → length full < 2 ^ 64
    → crc32 0 full < 2 ^ 32
    → handle_resume_reply_bytes (asked t csv) (encode_result_header (announced full) ++ rest)
      ≡ header_decoded true
          (ok (announced full))
          (length (encode_result_header (announced full)))
          (answered t (announced full) csv)
unfolding handle_resume_reply_bytes reply_fed header_decoded
handle-announced t full csv rest small sum =
    let decoded = rw append-nil at (decode-encode_result_header (announced full) [] small sum) in
    ap (λ (r : Framer × ℕ). reply_fed r.0.status r.1 (record (asked t csv) { framer = r.0 }))
      (feed-encode (Message.result (announced full)) MessageType.ack MessageType.result_header rest
        tt (inr refl))
    ∙ rw (byte_at-encode (Message.result (announced full)), decoded) refl

-- The service that has taken the header.
abbrev receiving : Transfer → Bytes → Bytes → Transfer
receiving t full csv = push (stage receiving_result) (record (answered t (announced full) csv) {
  csv_size = length full;
  csv_expected_crc = crc32 0 full;
  expecting = csv_payload;
})

-- What the header makes of it.
abbrev arrived : Transfer → Bytes → Bytes → Transfer
arrived t full csv =
    if length csv == length full
    then finish_download (receiving t full csv)
    else receiving t full csv

begin-announced :
    (t : Transfer) (full csv : Bytes)
    → length full ≤ max_csv_size
    → length csv ≤ length full
    → begin_csv_receive (announced full) true (answered t (announced full) csv)
      ≡ (arrived t full csv, true)
unfolding begin_csv_receive
begin-announced t full csv fits shorter =
    if_cases P (ltb max_csv_size (length full)) (λ above. absurd (grind tests))
      λ _.
        if_cases P (ltb (length full) (length csv)) (λ above. absurd (grind tests))
          λ _.
            if_cases (λ (p : Transfer × Bool). P p) (length csv == length full) (λ e. rw e refl)
              (λ e. rw e refl)
  where
    P : Transfer × Bool → Type 0
    P p = p ≡ (arrived t full csv, true)

asked-Delivered :
    (t : Transfer) (full : Bytes) (k : ℕ)
    → length full ≤ max_csv_size
    → crc32 0 full < 2 ^ 32
    → (TcpSocket.send t.socket).1 ≡ 0
    → Delivered full
        (on_bytes (asked t (take k full)) (encode_result_header (announced full) ++ drop k full))
unfolding on_bytes handle_bytes header_decoded
asked-Delivered t full k fits sum accepted =
    subst (Delivered full) (sym looped) (either (dec_lt k (length full)))
  where
    header : Bytes
    header = encode_result_header (announced full)

    csv : Bytes
    csv = take k full

    rest : Bytes
    rest = drop k full

    long : 8 ≤ length header
    long = (length-encode_bounds (Message.result (announced full)) tt).0

    handled :
        handle_bytes resume_reply (asked t csv) (header ++ rest)
        ≡ some (arrived t full csv, length header)
    handled = ap some (
        handle-announced t full csv rest (omega arith) sum
        ∙ ap (λ (p : Transfer × Bool). (p.0, if p.1 then length header else 0))
            (begin-announced t full csv fits (omega (arith, length-take k full))))

    looped :
        on_bytes (asked t csv) (header ++ rest)
        ≡ bytes_loop (length (header ++ rest) - 1) (arrived t full csv) rest
    looped =
        bytes_loop_round (length (header ++ rest)) (length header) (asked t csv)
          (arrived t full csv) (header ++ rest) (omega (arith, length-append header rest, long))
          (omega (arith, length-append header rest, long)) (omega (arith, long)) handled
        ∙ ap (bytes_loop (length (header ++ rest) - 1) (arrived t full csv))
            (drop_front header rest)

    either :
        Dec (k < length full)
        → Delivered full (bytes_loop (length (header ++ rest) - 1) (arrived t full csv) rest)
    either (yes some_left) =
        subst (λ t'. Delivered full (bytes_loop (length (header ++ rest) - 1) t' rest))
          (sym (
            if_cases (λ u. u ≡ receiving t full csv) (length csv == length full)
              (λ e. absurd (grind (tests, arith, length-take k full))) (λ _. refl)))
          (rest-Delivered (receiving t full csv) full k (length (header ++ rest) - 1)
            (omega (arith, length-append header rest, long)) some_left accepted refl refl refl refl)
    either (no none_left) =
        subst (Delivered full) (sym ended)
          (finish_download-Delivered full (receiving t full csv) all_there refl accepted)
      where
        all_there : csv ≡ full
        all_there = take_all k full (omega arith)

        ended :
            bytes_loop (length (header ++ rest) - 1) (arrived t full csv) rest
            ≡ finish_download (receiving t full csv)
        ended =
            ap (bytes_loop (length (header ++ rest) - 1) (arrived t full csv))
              (drop_all k full (omega arith))
            ∙ bytes_loop_end (length (header ++ rest) - 1) (arrived t full csv)
            ∙ if_cases (λ u. u ≡ finish_download (receiving t full csv)) (length csv == length full)
                (λ _. refl) (λ e. absurd (differs (ap length all_there) e))

-- A client that holds a claim, the first bytes of the result and their count asks for the result on
-- a socket that accepts the request and the last message. If the server's reply is the header of
-- that result, which is at most as long as the limit, and the bytes behind the count, then the
-- client ends with the whole result for the windows, and has told the server so.
pub request_result-delivered :
    (t : Transfer) (full : Bytes)
    → t.has_claim ≡ true
    → t.has_socket ≡ true
    → t.csv ≡ take t.claim.received full
    → length full ≤ max_csv_size
    → crc32 0 full < 2 ^ 32
    → (TcpSocket.send t.socket).1 ≡ 0
    → (TcpSocket.send (TcpSocket.send t.socket).0).1 ≡ 0
    → Delivered full (
        on_bytes
          (request_result t)
          (encode_result_header (announced full) ++ drop t.claim.received full))
unfolding request_result send fresh reset
request_result-delivered t full claimed connected prefix fits sum accepted told =
    subst
      (λ (t' : Transfer).
        Delivered full
          (on_bytes t' (encode_result_header (announced full) ++ drop t.claim.received full)))
      (sym requested) (asked-Delivered waiting full t.claim.received fits sum told)
  where
    request : Bytes
    request = encode_result_request (claimed_request t.claim)

    waiting : Transfer
    waiting =
        push (stage requesting_result)
          (record (push (sent request) (record t { socket = (TcpSocket.send t.socket).0 })) {
            session_completed = false;
          })

    P : Transfer → Type 0
    P t' = t' ≡ asked waiting t.csv

    requested : request_result t ≡ asked waiting (take t.claim.received full)
    requested =
        if_cases P (not t.has_claim) (λ e. absurd (ground arith))
          (λ _.
            if_cases P (not t.has_socket) (λ e. absurd (ground arith))
              λ _.
                if_cases
                  (λ (p : Transfer × Bool). P (
                    if p.1
                    then push (stage requesting_result) (record p.0 {
                      framer = reset p.0.framer MessageType.ack MessageType.result_header;
                      expecting = resume_reply;
                      session_completed = false;
                    })
                    else fail_session p.0))
                  ((TcpSocket.send t.socket).1 == 0) (λ _. refl)
                  (λ refused. absurd (differs accepted refused)))
        ∙ ap (asked waiting) prefix
