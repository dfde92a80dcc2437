-- ===== src/Protocol/Framer.antt =====
-- common/protocol/Framer.h and Framer.cpp: one message out of the bytes of a stream.
-- `buffer` holds the first `_size` bytes of `_buffer`; the C++ array has room for 285.
pub mod Judge
pub mod Loop
pub mod Chunks
pub mod Whole
mod Runs
use log_transfer_analyzer.Prelude.{
  ℕ, zero, suc, ◌+◌, ◌-◌, Bool, true, false, not, ◌&&◌, List, [], ◌∷◌, ◌++◌, ◌==◌, ltb, leb,
  if◌then◌else◌, length, take, drop, Bytes, min, Option, none, some,
}
use log_transfer_analyzer.Protocol.{
  MessageType, type_code, preamble_size, offset_type, upload_header_fixed_size,
  upload_header_max_size, result_request_fixed_size, result_request_max_size,
}
use log_transfer_analyzer.Protocol.Wire.{byte_at}
use log_transfer_analyzer.Protocol.Codec.{
  DecodeStatus, DecodeError, need_more_data, bad_type, bad_value, bad_magic, bad_version, Decoded,
  ok, err, expected_message_size,
}

-- `kFramerBufferSize`.
abbrev pub framer_buffer_size : ℕ
framer_buffer_size =
    if ltb upload_header_max_size result_request_max_size
    then result_request_max_size
    else upload_header_max_size

-- `Framer`.
pub record Framer : Type 0 where
  pub buffer : Bytes
  pub expected : MessageType
  pub alternate : MessageType
  pub status : DecodeStatus

-- The constructor with two types; that with one type passes it twice.
unfoldable pub fresh : MessageType → MessageType → Framer
fresh expected alternate = record {
  buffer = [];
  expected = expected;
  alternate = alternate;
  status = err need_more_data;
}

-- `reset`.
unfoldable pub reset : Framer → MessageType → MessageType → Framer
reset fr expected alternate = record fr {
  buffer = [];
  expected = expected;
  alternate = alternate;
  status = err need_more_data;
}

-- `messageType`, as the byte that is cast.
abbrev pub type_byte : Bytes → ℕ
type_byte buffer = byte_at buffer offset_type

-- `fixedSizeFor`.
unfoldable pub fixed_size_for : ℕ → ℕ
fixed_size_for code =
    if code == 1
    then upload_header_fixed_size
    else if code == 7
    then result_request_fixed_size
    else preamble_size

-- What one round of the loop of `feed` does before it copies: it ends with a status, or goes on
-- to the size that the buffer has to reach.
pub data Verdict : Type 0 where
  stop : DecodeStatus → Verdict
  aim : ℕ → Verdict

-- `target <= _size` is refused: the loop would not advance.
unfoldable pub advance : ℕ → ℕ → Verdict
advance size target = if leb target size then stop (err bad_value) else aim target

-- Steps 2 and 3, with the size of the message if it is known.
unfoldable pub target_of : Framer → Option ℕ → Verdict
unfolding advance fixed_size_for
target_of fr none = advance (length fr.buffer) (
    if ltb (length fr.buffer) preamble_size
    then preamble_size
    else fixed_size_for (type_byte fr.buffer))
target_of fr (some total) =
    if ltb framer_buffer_size total
    then stop (err bad_value)
    else if length fr.buffer == total
    then stop (ok tt)
    else advance (length fr.buffer) total

unfoldable pub wrong_type : Framer → Bool
wrong_type fr =
    leb preamble_size (length fr.buffer)
    && not (type_byte fr.buffer == type_code fr.expected)
    && not (type_byte fr.buffer == type_code fr.alternate)

unfoldable pub checked : Framer → Option ℕ → Verdict
unfolding wrong_type target_of
checked fr total = if wrong_type fr then stop (err bad_type) else target_of fr total

unfoldable pub judge_size : Framer → Decoded ℕ → Verdict
unfolding checked
judge_size fr (ok total) = checked fr (some total)
judge_size fr (err need_more_data) = checked fr none
judge_size fr (err e) = stop (err e)

unfoldable pub judge : Framer → Verdict
unfolding judge_size
judge fr = judge_size fr (expected_message_size fr.buffer)

-- The loop of `feed` over the bytes that are not consumed, with the count of the consumed ones.
-- A round that does not end the loop takes a byte, so `length data' + 1` rounds are enough.
unfoldable pub feed_loop : ℕ → Framer → Bytes → ℕ → Framer × ℕ
feed_loop zero fr data' consumed = (fr, consumed)
feed_loop (suc fuel) fr data' consumed = elim (judge fr) [
  | stop st ↦ (record fr { status = st }, consumed)
  | aim target ↦
      let n = min (target - length fr.buffer) (length data') in
      elim (length data' == 0) [
        | true ↦ (fr, consumed)
        | false ↦
            feed_loop fuel (record fr { buffer = fr.buffer ++ take n data' }) (drop n data')
              (consumed + n)
      ]
]

unfoldable pub is_waiting : DecodeStatus → Bool
is_waiting (err need_more_data) = true
is_waiting _ = false

-- `feed`: the new state, whose `status` is the one returned, and the bytes consumed.
unfoldable pub feed : Framer → Bytes → Framer × ℕ
unfolding is_waiting
feed fr data' =
    let fed = feed_loop (length data' + 1) fr data' 0 in
    if is_waiting fr.status then fed else (fr, 0)
