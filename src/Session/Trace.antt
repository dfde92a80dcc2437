-- ===== src/Session/Trace.antt =====
-- What the parser thread, the peer and the manager see of a session: a specification of the order
-- of a session's effects.
use log_transfer_analyzer.Prelude.{
  ℕ, ◌≡◌, Bool, true, false, List, [], ◌∷◌, ◌++◌, length, get_elem?, Bytes, some,
}
use log_transfer_analyzer.Crc32.{crc32}
use log_transfer_analyzer.Protocol.{AckStatus}
use log_transfer_analyzer.Protocol.Codec.{encode_ack}
use log_transfer_analyzer.Session.{
  Effect, upload_completed, session_aborted, committed, read_stopped, sent, socket_closed,
  result_retained, session_finished,
}

-- The effects without the stops and starts of reading.
abbrev pub visible : List Effect → List Effect
visible [] = []
visible (read_stopped b ∷ es) = visible es
visible (e ∷ es) = e ∷ visible es

-- The bytes that the parser thread has got, in their order.
abbrev pub payload : List Effect → Bytes
payload [] = []
payload (committed bytes ∷ es) = payload es ++ bytes
payload (e ∷ es) = payload es

abbrev pub is_closed : List Effect → Bool
is_closed [] = false
is_closed (socket_closed ∷ es) = true
is_closed (e ∷ es) = is_closed es

abbrev pub is_aborted : List Effect → Bool
is_aborted [] = false
is_aborted (session_aborted ∷ es) = true
is_aborted (e ∷ es) = is_aborted es

abbrev pub is_completed : List Effect → Bool
is_completed [] = false
is_completed (upload_completed ∷ es) = true
is_completed (e ∷ es) = is_completed es

abbrev pub is_finished : List Effect → Bool
is_finished [] = false
is_finished (session_finished ∷ es) = true
is_finished (e ∷ es) = is_finished es

-- The acknowledgement of an upload of which the parser thread has got `n` bytes.
abbrev pub ok_ack : ℕ → Bytes
ok_ack n = encode_ack (record { status = AckStatus.ok_status; received_bytes = n })

-- What has to hold of the effects `es` for the effect to be next.
abbrev pub IsAllowed : Effect → List Effect → Type 0
IsAllowed (committed bytes) es = (is_closed es ≡ false) × (is_completed es ≡ false)
IsAllowed (sent bytes) es = is_closed es ≡ false
IsAllowed upload_completed es =
    (is_closed es ≡ false)
    × (is_completed es ≡ false)
    × (get_elem? es 0 ≡ some (sent (ok_ack (length (payload es)))))
IsAllowed (result_retained kept) es =
    (is_closed es ≡ false)
    × (is_completed es ≡ true)
    × (kept.file_size ≡ length (payload es))
    × (kept.upload_crc32 ≡ crc32 0 (payload es))
IsAllowed session_aborted es = is_aborted es ≡ false
IsAllowed socket_closed es = is_closed es ≡ false
IsAllowed session_finished es = is_finished es ≡ false
IsAllowed e es = Unit

-- Every effect was allowed when it happened: the parser thread gets payload before the upload is
-- complete and before the session is closed, the upload is complete once, right behind the
-- acknowledgement of as many bytes as the parser thread has got, a result is retained under the
-- size and the checksum of those bytes and behind the completion, nothing is sent behind the
-- close, and the session is aborted, closed and reported as finished once.
abbrev pub IsOrderly : List Effect → Type 0
IsOrderly [] = Unit
IsOrderly (e ∷ es) = IsAllowed e es × IsOrderly es
