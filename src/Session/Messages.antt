-- ===== src/Session/Messages.antt =====
-- server/session/Session.cpp: what a session does with the bytes of each message. Each function
-- returns the session and the count of bytes consumed.
use log_transfer_analyzer.Prelude.{
  ℕ, not, ◌==◌, ltb, if◌then◌else◌, length, drop, Bytes, Option, none, some,
}
use log_transfer_analyzer.Protocol.{
  AckStatus, MessageType, type_code, UploadHeader, UploadTrailer, ResultRequest,
}
use log_transfer_analyzer.Protocol.Codec.{
  Decoded, ok, err, need_more_data, bad_value, DecodeStatus, encode_ack, encode_result_header,
  decode_upload_header, decode_upload_trailer, decode_result_request,
}
use log_transfer_analyzer.Protocol.Framer.{feed, reset, type_byte}
use log_transfer_analyzer.Session.{
  Session, RetainedResult, receiving, verifying, analyzing, sending_result, bad_header_preamble,
  header_out_of_range, invalid_header, header_decode_failed, invalid_request, request_decode_failed,
  no_retained, offset_beyond_csv, header_send_failed, csv_send_failed, invalid_trailer,
  bad_trailer_preamble, trailer_decode_failed, payload_crc_mismatch, ack_send_failed,
  bad_download_done, completed, upload_completed, emit, transition, cleanup, close_silently, send,
  fail_with_ack,
}
use log_transfer_analyzer.Session.Retained.{retained_result}

-- The session after `_framer.feed(data)`.
abbrev pub fed : Session → Bytes → Session
fed s data' = record s { framer = (feed s.framer data').0 }

abbrev pub fed_bytes : Session → Bytes → ℕ
fed_bytes s data' = (feed s.framer data').1

-- The two `send` calls for a result: its header, then the bytes of the CSV, if there are any.
unfoldable pub send_result : Bytes → Bytes → Session → Session
unfolding send cleanup
send_result header body s =
    let (s', rc) = send header s in
    let (s'', rc') = send body s' in
    if not (rc == 0)
    then cleanup header_send_failed s'
    else if rc' == 0
    then s''
    else cleanup csv_send_failed s''

unfoldable pub send_header_only : Bytes → Session → Session
unfolding send cleanup
send_header_only header s =
    let (s', rc) = send header s in if rc == 0 then s' else cleanup header_send_failed s'

-- `handleResultRequest` when the request decodes and a result is found.
unfoldable pub answer_request : ResultRequest → RetainedResult → Session → Session
unfolding fail_with_ack transition send_result send_header_only
answer_request request kept s =
    let header =
      encode_result_header (record { csv_size = length kept.csv; crc32 = kept.csv_crc32 }) in
    let body = drop request.start_offset kept.csv in
    let ready =
      transition sending_result (record s { filename = request.filename; csv = kept.csv }) in
    if ltb (length kept.csv) request.start_offset
    then fail_with_ack AckStatus.protocol_error offset_beyond_csv s
    else if length body == 0
    then send_header_only header ready
    else send_result header body ready

-- `handleResultRequest` when the request decodes, with what the lookup returns.
unfoldable pub claim_result : ResultRequest → Option RetainedResult → Session → Session
unfolding fail_with_ack answer_request
claim_result request none s = fail_with_ack AckStatus.no_such_result no_retained s
claim_result request (some found) s = answer_request request found s

-- `handleResultRequest`, with the result that the manager retains.
unfoldable pub request_decoded : Option RetainedResult → Decoded ResultRequest → Session → Session
unfolding fail_with_ack close_silently claim_result
request_decoded kept (err bad_value) s = fail_with_ack AckStatus.protocol_error invalid_request s
request_decoded kept (err _) s = close_silently request_decode_failed s
request_decoded kept (ok request) s =
    claim_result request (retained_result kept request.filename request.file_size request.crc32) s

unfoldable pub handle_result_request : Option RetainedResult → Session → Session
unfolding request_decoded
handle_result_request kept s = request_decoded kept (decode_result_request s.framer.buffer) s

-- `consumeHeader` for an upload header.
unfoldable pub header_decoded : Decoded UploadHeader → ℕ → Session → Session × ℕ
unfolding fail_with_ack close_silently transition
header_decoded (err bad_value) consumed s =
    (fail_with_ack AckStatus.protocol_error invalid_header s, 0)
header_decoded (err _) consumed s = (close_silently header_decode_failed s, 0)
header_decoded (ok header) consumed s = (
  transition receiving (record s {
    file_size = header.file_size;
    filename = header.filename;
    framer = reset s.framer MessageType.upload_trailer MessageType.upload_trailer;
  }),
  consumed,
)

-- `consumeHeader` after the framer was fed, by the status that it returned.
unfoldable pub header_fed : Option RetainedResult → DecodeStatus → ℕ → Session → Session × ℕ
unfolding fail_with_ack close_silently handle_result_request header_decoded
header_fed kept (err need_more_data) consumed s = (s, consumed)
header_fed kept (err bad_value) consumed s =
    (fail_with_ack AckStatus.protocol_error header_out_of_range s, 0)
header_fed kept (err _) consumed s = (close_silently bad_header_preamble s, 0)
header_fed kept (ok _) consumed s =
    if type_byte s.framer.buffer == type_code MessageType.result_request
    then (handle_result_request kept s, consumed)
    else header_decoded (decode_upload_header s.framer.buffer) consumed s

-- `consumeHeader`.
unfoldable pub consume_header : Option RetainedResult → Session → Bytes → Session × ℕ
unfolding feed header_fed
consume_header kept s data' =
    header_fed kept (fed s data').framer.status (fed_bytes s data') (fed s data')

-- `analyzeAndSendResult`.
unfoldable pub analyze_and_send_result : Session → Session
unfolding transition
analyze_and_send_result s = emit upload_completed (transition analyzing s)

-- `verifyAndAck` for the trailer that the framer holds.
unfoldable pub ack_upload : UploadTrailer → Session → Session
unfolding fail_with_ack send cleanup analyze_and_send_result
ack_upload trailer s =
    let ack =
      encode_ack (record { status = AckStatus.ok_status; received_bytes = s.received_bytes }) in
    let (s', rc) = send ack s in
    if not (trailer.crc32 == s.payload_crc)
    then fail_with_ack AckStatus.crc_mismatch payload_crc_mismatch s
    else if rc == 0
    then analyze_and_send_result s'
    else cleanup ack_send_failed s'

-- `verifyAndAck`.
unfoldable pub trailer_decoded : Decoded UploadTrailer → Session → Session
unfolding close_silently ack_upload
trailer_decoded (ok trailer) s = ack_upload trailer s
trailer_decoded (err _) s = close_silently trailer_decode_failed s

unfoldable pub verify_and_ack : Session → Session
unfolding transition trailer_decoded
verify_and_ack s =
    let s' = transition verifying s in trailer_decoded (decode_upload_trailer s'.framer.buffer) s'

-- `consumeTrailer` after the framer was fed, by the status that it returned.
unfoldable pub trailer_fed : DecodeStatus → ℕ → Session → Session × ℕ
unfolding fail_with_ack close_silently verify_and_ack
trailer_fed (err need_more_data) consumed s = (s, consumed)
trailer_fed (err bad_value) consumed s =
    (fail_with_ack AckStatus.protocol_error invalid_trailer s, 0)
trailer_fed (err _) consumed s = (close_silently bad_trailer_preamble s, 0)
trailer_fed (ok _) consumed s = (verify_and_ack s, consumed)

-- `consumeTrailer`.
unfoldable pub consume_trailer : Session → Bytes → Session × ℕ
unfolding feed trailer_fed
consume_trailer s data' = trailer_fed (fed s data').framer.status (fed_bytes s data') (fed s data')

-- `consumeDone`.
unfoldable pub done_fed : DecodeStatus → ℕ → Session → Session × ℕ
unfolding close_silently cleanup
done_fed (err need_more_data) consumed s = (s, consumed)
done_fed (err _) consumed s = (close_silently bad_download_done s, 0)
done_fed (ok _) consumed s = (cleanup completed s, consumed)

unfoldable pub consume_done : Session → Bytes → Session × ℕ
unfolding feed done_fed
consume_done s data' = done_fed (fed s data').framer.status (fed_bytes s data') (fed s data')
