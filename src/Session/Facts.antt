-- ===== src/Session/Facts.antt =====
-- The invariant of a session, on the values that it speaks of: two sessions that agree on them
-- have the same invariant by computation.
use log_transfer_analyzer.Prelude.{ℕ, ◌≡◌, ◌≤◌, Bool, true, false, List, length, Bytes}
use log_transfer_analyzer.Crc32.{crc32}
use log_transfer_analyzer.Protocol.Codec.{ok, decode_upload_trailer}
use log_transfer_analyzer.Session.{
  Session, SessionState, wait_header, receiving, verifying, analyzing, cleaned_up, same_state,
  Effect,
}
use log_transfer_analyzer.Session.Trace.{
  visible, payload, is_closed, is_aborted, is_completed, is_finished, IsOrderly,
}

-- What the state says of the upload. A session that has found the trailer but not acknowledged it
-- waits for the end of a send.
abbrev pub Phase : SessionState → Bytes → ℕ → ℕ → ℕ → Bool → Bool → Type 0
Phase wait_header buffer file_size received crc closing done = (received ≡ 0) × (done ≡ false)
Phase receiving buffer file_size received crc closing done = done ≡ false
Phase verifying buffer file_size received crc closing done = (closing ≡ true) × (done ≡ false)
Phase analyzing buffer file_size received crc closing done =
    (done ≡ true)
    × (received ≡ file_size)
    × (decode_upload_trailer buffer ≡ ok (record { crc32 = crc }))
Phase _ buffer file_size received crc closing done = Unit

-- The checksum and the count of the payload are those of what the parser thread has got, unless
-- the session has given up.
abbrev pub Sums : Bool → ℕ → ℕ → Bytes → Type 0
Sums true received crc bytes = Unit
Sums false received crc bytes = (received ≡ length bytes) × (crc ≡ crc32 0 bytes)

pub record Facts (file_size received crc : ℕ) (given_up closed finished : Bool)
    (trace : List Effect) : Type 0 where
  pub within : received ≤ file_size
  pub sums : Sums given_up received crc (payload trace)
  pub close_flag : is_closed trace ≡ closed
  pub abort_flag : is_aborted trace ≡ closed
  pub finish_flag : is_finished trace ≡ finished
  pub orderly : IsOrderly trace

abbrev pub Kept : Session → Type 0
Kept s =
    Facts s.file_size s.received_bytes s.payload_crc s.cleanup_started s.cleanup_started s.finished
      (visible s.effects)

-- The same of an open session, with or without the sums.
abbrev pub Open : Bool → Session → Type 0
Open given_up s =
    Facts s.file_size s.received_bytes s.payload_crc given_up false s.finished (visible s.effects)

abbrev pub InPhase : Session → Type 0
InPhase s =
    Phase s.state s.framer.buffer s.file_size s.received_bytes s.payload_crc s.close_after_send
      (is_completed (visible s.effects))

-- An open session in a state.
abbrev pub At : SessionState → Session → Type 0
At state s = (s.cleanup_started ≡ false) × (s.state ≡ state) × Open false s

abbrev pub Flagged : Session → Type 0
Flagged s = same_state s.state cleaned_up ≡ s.cleanup_started

-- The invariant between two callbacks.
abbrev pub IsSession : Session → Type 0
IsSession s = Kept s × Flagged s × InPhase s
