-- ===== src/Transfer/Arrivals.antt =====
-- The claim of a transfer through the messages of the server.
use log_transfer_analyzer.Prelude.{
  ℕ, ◌≡◌, ◌≤◌, ◌<◌, refl, sym, subst, Bool, true, false, ◌&&◌, ltb, ◌==◌, if◌then◌else◌, [], Bytes,
  length, length-append, length-take, take, arith, tests,
}
use log_transfer_analyzer.Protocol.{
  MessageType, type_code, AckStatus, Ack, ResultHeader, max_csv_size, ok_status, crc_mismatch,
  size_mismatch, protocol_error, server_error, no_such_result,
}
use log_transfer_analyzer.Protocol.Codec.{
  Decoded, ok, err, need_more_data, bad_magic, bad_version, bad_type, bad_value, DecodeStatus,
  decode_ack, decode_result_header,
}
use log_transfer_analyzer.Protocol.Framer.{type_byte}
use log_transfer_analyzer.Session.Steps.{if_any, if_cases}
use log_transfer_analyzer.Transfer.{
  Transfer, Expecting, ResultClaim, csv_payload, stage, receiving_result, push, drop_result_claim,
  fail_session, max_in_flight_writes,
}
use log_transfer_analyzer.Transfer.Download.{
  begin_csv_receive, acknowledged, ack_decoded, ack_fed, header_decoded, header_fed, reply_fed,
  csv_share, csv_appended, handle_csv_bytes,
}
use log_transfer_analyzer.Transfer.Keeps.{
  ClaimOf, Arriving, Uploading, IsTransfer, Uploading-off, without_upload, fail_session-IsTransfer,
  finish_download-IsTransfer,
}

abbrev pub NoneYet : Bool → ℕ → Type 0
NoneYet true size = Unit
NoneYet false size = size ≡ 0

-- A service that does not upload, its claim right, and nothing of a table there unless it resumes.
abbrev pub Receives : Bool → Transfer → Type 0
Receives resuming t =
    (t.uploading ≡ false)
    × (t.in_flight_writes ≤ max_in_flight_writes)
    × ClaimOf t.has_claim t.claim.received (length t.csv)
    × NoneYet resuming (length t.csv)

abbrev pub Received : Transfer × ℕ → Type 0
Received p = IsTransfer p.0

kept_size :
    (resuming : Bool) (csv : Bytes)
    → NoneYet resuming (length csv)
    → length (if resuming then csv else []) ≡ length csv
kept_size true csv none_yet = refl
kept_size false csv none_yet = sym none_yet

kept_fits :
    (resuming : Bool) (csv : Bytes) (announced : ℕ)
    → (resuming && ltb announced (length csv)) ≡ false
    → (length (if resuming then csv else []) == announced) ≡ false
    → length (if resuming then csv else []) < announced
kept_fits true csv announced less more = ground arith
kept_fits false csv announced less more = ground arith

begin_csv_receive-IsTransfer :
    (header : ResultHeader) (resuming : Bool) (t : Transfer)
    → Receives resuming t
    → IsTransfer (begin_csv_receive header resuming t).0
unfolding begin_csv_receive
begin_csv_receive-IsTransfer header resuming t (off, room, claimed, none_yet) =
    let P = λ (p : Transfer × Bool). IsTransfer p.0 in
    let failed : IsTransfer (fail_session t) = fail_session-IsTransfer t room in
    if_cases P (ltb max_csv_size header.csv_size) (λ _. failed)
      λ below.
        if_cases P (resuming && ltb header.csv_size (length t.csv)) (λ _. failed)
          λ less.
            if_cases P (length t'.csv == header.csv_size)
              (λ _. finish_download-IsTransfer t' off room)
              λ more. (
                subst (ClaimOf t.has_claim t.claim.received)
                    (sym (kept_size resuming t.csv none_yet)) claimed,
                (kept_fits resuming t.csv header.csv_size less more, grind tests),
                room,
                Uploading-off t.uploading t.has_claim csv_payload _ off,
              )
  where
    t' : Transfer
    t' = push (stage receiving_result) (record t {
      csv_size = header.csv_size;
      csv_expected_crc = header.crc32;
      csv = if resuming then t.csv else [];
      expecting = csv_payload;
    })

header_decoded-IsTransfer :
    (resuming : Bool) (header : Decoded ResultHeader) (consumed : ℕ) (t : Transfer)
    → Receives resuming t
    → Received (header_decoded resuming header consumed t)
unfolding header_decoded begin_csv_receive
header_decoded-IsTransfer resuming (ok header) consumed t r =
    begin_csv_receive-IsTransfer header resuming t r
header_decoded-IsTransfer resuming (err _) consumed t r = fail_session-IsTransfer t r.1

-- A service that waits for a message and holds its claim.
Receives-IsTransfer :
    (resuming : Bool) (t : Transfer)
    → Receives resuming t
    → Arriving t.expecting (length t.csv) t.csv_size
    → IsTransfer t
Receives-IsTransfer resuming t (off, room, claimed, _) arriving =
    (claimed, arriving, room, Uploading-off t.uploading t.has_claim t.expecting _ off)

pub header_fed-IsTransfer :
    (reply : DecodeStatus) (consumed : ℕ) (t : Transfer)
    → Receives false t
    → Arriving t.expecting (length t.csv) t.csv_size
    → Received (header_fed reply consumed t)
unfolding header_fed
header_fed-IsTransfer (ok _) consumed t r a =
    header_decoded-IsTransfer false (decode_result_header t.framer.buffer) consumed t r
header_fed-IsTransfer (err need_more_data) consumed t r a = Receives-IsTransfer false t r a
header_fed-IsTransfer (err bad_magic) consumed t r a = fail_session-IsTransfer t r.1
header_fed-IsTransfer (err bad_version) consumed t r a = fail_session-IsTransfer t r.1
header_fed-IsTransfer (err bad_type) consumed t r a = fail_session-IsTransfer t r.1
header_fed-IsTransfer (err bad_value) consumed t r a = fail_session-IsTransfer t r.1

acknowledged-IsTransfer :
    (code : AckStatus) (consumed : ℕ) (t : Transfer)
    → Receives false t
    → Received (acknowledged code consumed t)
unfolding acknowledged
acknowledged-IsTransfer ok_status consumed t (off, room, _, none_yet) =
    (sym none_yet, none_yet, room, Uploading-off t.uploading true Expecting.result_header _ off)
acknowledged-IsTransfer crc_mismatch consumed t r = fail_session-IsTransfer t r.1
acknowledged-IsTransfer size_mismatch consumed t r = fail_session-IsTransfer t r.1
acknowledged-IsTransfer protocol_error consumed t r = fail_session-IsTransfer t r.1
acknowledged-IsTransfer server_error consumed t r = fail_session-IsTransfer t r.1
acknowledged-IsTransfer no_such_result consumed t r = fail_session-IsTransfer t r.1

ack_decoded-IsTransfer :
    (ack : Decoded Ack) (consumed : ℕ) (t : Transfer)
    → Receives false t
    → Received (ack_decoded ack consumed t)
unfolding ack_decoded
ack_decoded-IsTransfer (ok ack) consumed t r = acknowledged-IsTransfer ack.status consumed t r
ack_decoded-IsTransfer (err _) consumed t r = fail_session-IsTransfer t r.1

pub ack_fed-IsTransfer :
    (reply : DecodeStatus) (consumed : ℕ) (t : Transfer)
    → Receives false t
    → Arriving t.expecting (length t.csv) t.csv_size
    → Received (ack_fed reply consumed t)
unfolding ack_fed
ack_fed-IsTransfer (ok _) consumed t r a =
    ack_decoded-IsTransfer (decode_ack t.framer.buffer) consumed t r
ack_fed-IsTransfer (err need_more_data) consumed t r a = Receives-IsTransfer false t r a
ack_fed-IsTransfer (err bad_magic) consumed t r a = fail_session-IsTransfer t r.1
ack_fed-IsTransfer (err bad_version) consumed t r a = fail_session-IsTransfer t r.1
ack_fed-IsTransfer (err bad_type) consumed t r a = fail_session-IsTransfer t r.1
ack_fed-IsTransfer (err bad_value) consumed t r a = fail_session-IsTransfer t r.1

pub reply_fed-IsTransfer :
    (reply : DecodeStatus) (consumed : ℕ) (t : Transfer)
    → Receives true t
    → Arriving t.expecting (length t.csv) t.csv_size
    → Received (reply_fed reply consumed t)
unfolding reply_fed
reply_fed-IsTransfer (ok _) consumed t r a =
    if_any Received (type_byte t.framer.buffer == type_code MessageType.ack)
      (fail_session-IsTransfer (record (drop_result_claim t) { csv = [] }) r.1)
      (header_decoded-IsTransfer true (decode_result_header t.framer.buffer) consumed t r)
reply_fed-IsTransfer (err need_more_data) consumed t r a = Receives-IsTransfer true t r a
reply_fed-IsTransfer (err bad_magic) consumed t r a = fail_session-IsTransfer t r.1
reply_fed-IsTransfer (err bad_version) consumed t r a = fail_session-IsTransfer t r.1
reply_fed-IsTransfer (err bad_type) consumed t r a = fail_session-IsTransfer t r.1
reply_fed-IsTransfer (err bad_value) consumed t r a = fail_session-IsTransfer t r.1

ClaimOf-appended :
    (has_claim : Bool) (claim : ResultClaim) (size : ℕ)
    → ClaimOf has_claim
        (if has_claim then record claim { received = size } else claim).received
        size
ClaimOf-appended true claim size = refl
ClaimOf-appended false claim size = tt

pub handle_csv_bytes-IsTransfer :
    (t : Transfer) (data' : Bytes)
    → t.expecting ≡ csv_payload
    → IsTransfer t
    → Received (handle_csv_bytes t data')
unfolding handle_csv_bytes
handle_csv_bytes-IsTransfer t data' at (claimed, arriving, room, uploading) =
    if_cases IsTransfer (length t'.csv == t.csv_size) (λ _. finish_download-IsTransfer t' off room)
      λ more. (
        ClaimOf-appended t.has_claim t.claim (length t'.csv),
        subst (λ k. Arriving k (length t'.csv) t.csv_size) (sym at) (fits more, (now.1)),
        room,
        Uploading-off t.uploading t.has_claim t.expecting (length t'.csv) off,
      )
  where
    t' : Transfer
    t' = csv_appended t data'

    now : (length t.csv < t.csv_size) × (t.csv_size ≤ max_csv_size)
    now = subst (λ k. Arriving k (length t.csv) t.csv_size) at arriving

    off : t.uploading ≡ false
    off =
        without_upload t.uploading t.has_claim csv_payload (length t.csv) (ground arith)
          (subst (λ k. Uploading t.uploading t.has_claim k (length t.csv)) at uploading)

    fits : (length t'.csv == t.csv_size) ≡ false → length t'.csv < t.csv_size
    fits more = grind (
      tests,
      length-append t.csv (take (csv_share t data') data'),
      length-take (csv_share t data') data',
    )
