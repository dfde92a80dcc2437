-- ===== src/Session/Payload.antt =====
-- server/session/Session.cpp: the payload of an upload, received into a slot of the ring or
-- copied to slots, and what a session does with each callback.
use log_transfer_analyzer.Prelude.{
  ℕ, zero, suc, ◌+◌, ◌-◌, Bool, true, false, ◌==◌, if◌then◌else◌, length, take, drop, Bytes, min,
}
use log_transfer_analyzer.Crc32.{crc32}
use log_transfer_analyzer.Session.{
  Session, no_slot, committed, emit, slot_free, asked_slot, cleanup, apply_backpressure,
}
use log_transfer_analyzer.Session.Messages.{consume_trailer}

-- `std::min(_fileSize - _receivedBytes, data.size())`.
abbrev pub payload_share : Session → Bytes → ℕ
payload_share s data' = min (s.file_size - s.received_bytes) (length data')

-- `_payloadCrc` and `_receivedBytes` over the payload's share of the bytes.
abbrev pub counted : Session → Bytes → Session
counted s data' = record s {
  payload_crc = crc32 s.payload_crc (take (payload_share s data') data');
  received_bytes = s.received_bytes + payload_share s data';
}

-- The copy loop of `consumePayload`: the session after it, and whether every byte found a slot.
-- A round takes `chunk_size` bytes, so that with `chunk_size` above 0 the length of the payload is
-- enough fuel.
unfoldable pub copy_to_slots : ℕ → Bytes → Session → Session × Bool
copy_to_slots zero payload s = (s, length payload == 0)
copy_to_slots (suc fuel) payload s =
    let rest =
      copy_to_slots fuel (drop s.chunk_size payload)
        (emit (committed (take s.chunk_size payload)) (asked_slot s)) in
    if length payload == 0 then (s, true) else if slot_free s then rest else (asked_slot s, false)

-- `consumePayload`.
unfoldable pub consume_payload : Session → Bytes → Session × ℕ
unfolding cleanup apply_backpressure
consume_payload s data' =
    let payload = take (payload_share s data') data' in
    let (s', done) = copy_to_slots (length payload) payload (counted s data') in
    if done then (apply_backpressure s', payload_share s data') else (cleanup no_slot s', 0)

-- `onRead` for bytes that lie in a slot of the ring: the tail behind the payload is the trailer's.
unfoldable pub consume_slot : Session → Bytes → Session
unfolding apply_backpressure consume_trailer
consume_slot s data' =
    let payload = take (payload_share s data') data' in
    let tail = drop (payload_share s data') data' in
    let s' = apply_backpressure (emit (committed payload) (counted s data')) in
    if length tail == 0 then s' else (consume_trailer s' tail).0
