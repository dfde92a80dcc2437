-- ===== src/Transfer/Download.antt =====
-- client/service/TransferService.cpp: what the service does with the bytes of the server. A handler
-- returns the service and the count of bytes consumed.
use log_transfer_analyzer.Prelude.{
  ℕ, zero, suc, ◌-◌, Bool, true, false, not, ◌&&◌, ltb, ◌==◌, if◌then◌else◌, [], ◌++◌, Bytes,
  length, take, drop, min, Option, none, some,
}
use log_transfer_analyzer.Crc32.{crc32}
use log_transfer_analyzer.Protocol.{
  MessageType, type_code, AckStatus, Ack, ResultHeader, max_csv_size, ok_status,
}
use log_transfer_analyzer.Protocol.Codec.{
  Decoded, ok, err, need_more_data, DecodeStatus, decode_ack, decode_result_header,
  encode_download_done,
}
use log_transfer_analyzer.Protocol.Framer.{feed, reset, type_byte}
use log_transfer_analyzer.Transfer.{
  Transfer, Expecting, csv_payload, resume_reply, stage, wait_result, receiving_result, completed,
  claim_available, push, send, drop_result_claim, fail_session,
}

-- `finishDownload` when the checksum is wrong: what was received is dropped.
abbrev pub distrusted : Transfer → Transfer
distrusted t = record t {
  csv = [];
  claim = if t.has_claim then record t.claim { received = 0 } else t.claim;
}

-- `finishDownload` when the checksum is right, up to the last message.
abbrev pub verified : Transfer → Transfer
verified t =
    drop_result_claim (record t { result_csv = t.csv; csv = []; expecting = Expecting.nothing })

-- `finishDownload`.
unfoldable pub finish_download : Transfer → Transfer
unfolding fail_session send
finish_download t =
    let (t', accepted) = send encode_download_done (verified t) in
    if not (crc32 0 t.csv == t.csv_expected_crc)
    then fail_session (distrusted t)
    else if accepted
    then push (stage completed) (record t' { session_completed = true })
    else fail_session t'

-- `beginCsvReceive`, with what it returns.
unfoldable pub begin_csv_receive : ResultHeader → Bool → Transfer → Transfer × Bool
unfolding fail_session finish_download
begin_csv_receive header resuming t =
    let t' = push (stage receiving_result) (record t {
      csv_size = header.csv_size;
      csv_expected_crc = header.crc32;
      csv = if resuming then t.csv else [];
      expecting = csv_payload;
    }) in
    if ltb max_csv_size header.csv_size
    then (fail_session t, false)
    else if resuming && ltb header.csv_size (length t.csv)
    then (fail_session t, false)
    else if length t'.csv == header.csv_size
    then (finish_download t', true)
    else (t', true)

-- The service after `_framer.feed(data)`.
abbrev pub fed : Transfer → Bytes → Transfer
fed t data' = record t { framer = (feed t.framer data').0 }

abbrev pub fed_bytes : Transfer → Bytes → ℕ
fed_bytes t data' = (feed t.framer data').1

-- `handleAckBytes` for the status of an acknowledgement.
unfoldable pub acknowledged : AckStatus → ℕ → Transfer → Transfer × ℕ
unfolding fail_session
acknowledged ok_status consumed t = (
  record (push (stage wait_result) (
      push (claim_available true) (record t {
        has_claim = true;
        claim = record {
          filename = t.upload_filename;
          file_size = t.upload_total;
          crc32 = t.upload_crc;
          received = 0;
        };
      }))) {
        expecting = Expecting.result_header;
        framer = reset t.framer MessageType.result_header MessageType.result_header;
      },
  consumed,
)
acknowledged _ consumed t = (fail_session t, 0)

unfoldable pub ack_decoded : Decoded Ack → ℕ → Transfer → Transfer × ℕ
unfolding fail_session acknowledged
ack_decoded (ok ack) consumed t = acknowledged ack.status consumed t
ack_decoded (err _) consumed t = (fail_session t, 0)

-- `handleAckBytes` after the framer was fed, by the status that it returned.
unfoldable pub ack_fed : DecodeStatus → ℕ → Transfer → Transfer × ℕ
unfolding fail_session ack_decoded
ack_fed (err need_more_data) consumed t = (t, consumed)
ack_fed (err _) consumed t = (fail_session t, 0)
ack_fed (ok _) consumed t = ack_decoded (decode_ack t.framer.buffer) consumed t

-- `handleAckBytes`.
unfoldable pub handle_ack_bytes : Transfer → Bytes → Transfer × ℕ
unfolding feed ack_fed
handle_ack_bytes t data' = ack_fed (fed t data').framer.status (fed_bytes t data') (fed t data')

-- `handleResultHeaderBytes` and the end of `handleResumeReplyBytes`.
unfoldable pub header_decoded : Bool → Decoded ResultHeader → ℕ → Transfer → Transfer × ℕ
unfolding fail_session begin_csv_receive
header_decoded resuming (ok header) consumed t =
    let (t', begun) = begin_csv_receive header resuming t in (t', if begun then consumed else 0)
header_decoded resuming (err _) consumed t = (fail_session t, 0)

unfoldable pub header_fed : DecodeStatus → ℕ → Transfer → Transfer × ℕ
unfolding fail_session header_decoded
header_fed (err need_more_data) consumed t = (t, consumed)
header_fed (err _) consumed t = (fail_session t, 0)
header_fed (ok _) consumed t =
    header_decoded false (decode_result_header t.framer.buffer) consumed t

unfoldable pub handle_result_header_bytes : Transfer → Bytes → Transfer × ℕ
unfolding feed header_fed
handle_result_header_bytes t data' =
    header_fed (fed t data').framer.status (fed_bytes t data') (fed t data')

-- `handleResumeReplyBytes`: a refusal, or the header.
unfoldable pub reply_fed : DecodeStatus → ℕ → Transfer → Transfer × ℕ
unfolding fail_session header_decoded
reply_fed (err need_more_data) consumed t = (t, consumed)
reply_fed (err _) consumed t = (fail_session t, 0)
reply_fed (ok _) consumed t =
    if type_byte t.framer.buffer == type_code MessageType.ack
    then (fail_session (record (drop_result_claim t) { csv = [] }), 0)
    else header_decoded true (decode_result_header t.framer.buffer) consumed t

unfoldable pub handle_resume_reply_bytes : Transfer → Bytes → Transfer × ℕ
unfolding feed reply_fed
handle_resume_reply_bytes t data' =
    reply_fed (fed t data').framer.status (fed_bytes t data') (fed t data')

-- `handleCsvBytes`.
abbrev pub csv_share : Transfer → Bytes → ℕ
csv_share t data' = min (length data') (t.csv_size - length t.csv)

abbrev pub csv_appended : Transfer → Bytes → Transfer
csv_appended t data' =
    let csv = t.csv ++ take (csv_share t data') data' in
    record t {
      csv = csv;
      claim = if t.has_claim then record t.claim { received = length csv } else t.claim;
    }

unfoldable pub handle_csv_bytes : Transfer → Bytes → Transfer × ℕ
unfolding finish_download
handle_csv_bytes t data' =
    let t' = csv_appended t data' in
    (if length t'.csv == t.csv_size then finish_download t' else t', csv_share t data')

-- The `switch` of `onBytes`; none where it fails the session and returns.
unfoldable pub handle_bytes : Expecting → Transfer → Bytes → Option (Transfer × ℕ)
unfolding handle_ack_bytes handle_result_header_bytes handle_csv_bytes handle_resume_reply_bytes
handle_bytes Expecting.ack t data' = some (handle_ack_bytes t data')
handle_bytes Expecting.result_header t data' = some (handle_result_header_bytes t data')
handle_bytes csv_payload t data' = some (handle_csv_bytes t data')
handle_bytes resume_reply t data' = some (handle_resume_reply_bytes t data')
handle_bytes Expecting.nothing t data' = none

-- The loop of `onBytes`. A round that does not end it consumes a byte, so the length of the bytes is
-- enough fuel.
unfoldable pub bytes_loop : ℕ → Transfer → Bytes → Transfer
unfolding fail_session handle_bytes
bytes_loop zero t data' = t
bytes_loop (suc fuel) t data' =
    if length data' == 0 then t else elim (handle_bytes t.expecting t data') [
      | none ↦ fail_session t
      | some round ↦
          let rest = bytes_loop fuel round.0 (drop round.1 data') in
          if round.1 == 0 then round.0 else rest
    ]

-- `onBytes`.
unfoldable pub on_bytes : Transfer → Bytes → Transfer
unfolding bytes_loop
on_bytes t data' = bytes_loop (length data') t data'
