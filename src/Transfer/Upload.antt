-- ===== src/Transfer/Upload.antt =====
-- client/service/TransferService.cpp: `finishUpload` and `pumpUpload`.
use log_transfer_analyzer.Prelude.{
  ◌+◌, Bool, true, false, not, ◌&&◌, ◌||◌, ltb, leb, ◌==◌, if◌then◌else◌, List, [], ◌∷◌, Bytes,
  length, add_u64,
}
use log_transfer_analyzer.Crc32.{crc32}
use log_transfer_analyzer.Protocol.{MessageType}
use log_transfer_analyzer.Protocol.Codec.{encode_upload_trailer}
use log_transfer_analyzer.Protocol.Framer.{reset}
use log_transfer_analyzer.Transfer.{
  Transfer, Expecting, stage, wait_ack, push, send, abort_upload, max_in_flight_writes,
}

-- `finishUpload`.
unfoldable pub finish_upload : Transfer → Transfer
unfolding send abort_upload
finish_upload t =
    let trailer = encode_upload_trailer (record { crc32 = t.upload_crc }) in
    let (t', accepted) = send trailer (record t { trailer_sent = true }) in
    if accepted
    then record (push (stage wait_ack) (record t' { uploading = false })) {
      expecting = Expecting.ack;
      framer = reset t'.framer MessageType.ack MessageType.ack;
    }
    else abort_upload t'

-- A round of the loop of `pumpUpload` for a chunk of the ring, up to the test of the send.
abbrev pub pumped : Bytes → List Bytes → Transfer → Transfer × Bool
pumped chunk chunks t =
    let (t', accepted) = send chunk (record t { upload_crc = crc32 t.upload_crc chunk }) in
    (
      record t' {
        in_flight_writes = t'.in_flight_writes + 1;
        reader = record t'.reader { chunks = chunks };
      },
      accepted,
    )

-- The loop of `pumpUpload`, and whether it got to its end: not where a send fails.
unfoldable pub pump_loop : List Bytes → Transfer → Transfer × Bool
unfolding send abort_upload
pump_loop [] t = (t, true)
pump_loop (chunk ∷ chunks) t =
    let (t', accepted) = pumped chunk chunks t in
    let rest =
      pump_loop chunks (record t' { upload_sent = add_u64 t'.upload_sent (length chunk) }) in
    if not (ltb t.in_flight_writes max_in_flight_writes)
    then (t, true)
    else if accepted
    then rest
    else (abort_upload t', false)

-- The test behind the loop.
abbrev pub is_pumped : Transfer → Bool
is_pumped t =
    not t.trailer_sent
    && t.reader.read_complete
    && length t.reader.chunks == 0
    && leb t.upload_total t.upload_sent

-- `pumpUpload`.
unfoldable pub pump_upload : Transfer → Transfer
unfolding abort_upload pump_loop finish_upload
pump_upload t =
    let (t', done) = pump_loop t.reader.chunks t in
    if not t.uploading || not t.has_socket || t.socket.closing
    then t
    else if t.reader.failed
    then abort_upload t
    else if done && is_pumped t'
    then finish_upload t'
    else t'
