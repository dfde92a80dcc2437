-- ===== src/Net/TcpSocket.antt =====
-- common/net/TcpSocket.h and TcpSocket.cpp: the state of a socket and what its calls return.
-- `uv` holds what the next calls of libuv return: 0, or the absolute value of an error code; calls
-- past its end succeed.
use log_transfer_analyzer.Prelude.{
  ℕ, ◌+◌, ◌-◌, Bool, true, false, not, ◌||◌, ◌==◌, if◌then◌else◌, List, get_or, drop,
}

-- `TcpSocket`: `_handle` is there or not, `_pendingWrites` is counted.
pub record Socket : Type 0 where
  pub has_handle : Bool
  pub reading : Bool
  pub closing : Bool
  pub closed : Bool
  pub pending_writes : ℕ
  pub uv : List ℕ

-- `UV_EINVAL`.
abbrev pub uv_einval : ℕ
uv_einval = 22

-- What the next call of libuv returns, and the socket after it.
abbrev pub next_rc : Socket → ℕ
next_rc s = get_or s.uv 0 0

unfoldable pub called : Socket → Socket
called s = record s { uv = drop 1 s.uv }

unfoldable pub start_read : Socket → Socket × ℕ
unfolding called
start_read s =
    if not s.has_handle || s.closing
    then (s, uv_einval)
    else if s.reading
    then (s, 0)
    else if next_rc s == 0
    then (record (called s) { reading = true }, 0)
    else (called s, next_rc s)

unfoldable pub stop_read : Socket → Socket × ℕ
unfolding called
stop_read s =
    if not s.has_handle || not s.reading
    then (s, 0)
    else if next_rc s == 0
    then (record (called s) { reading = false }, 0)
    else (called s, next_rc s)

-- `send`, less the bytes: the caller records those of an accepted write.
unfoldable pub send : Socket → Socket × ℕ
unfolding called
send s =
    if not s.has_handle || s.closing
    then (s, uv_einval)
    else if next_rc s == 0
    then (record (called s) { pending_writes = s.pending_writes + 1 }, 0)
    else (called s, next_rc s)

unfoldable pub close : Socket → Socket
unfolding stop_read
close s = if not s.has_handle || s.closing then s else (stop_read (record s { closing = true })).0

-- `onWriteCb` before the callback, and `onCloseCb` before it.
unfoldable pub write_done : Socket → Socket
write_done s = record s { pending_writes = s.pending_writes - 1 }

unfoldable pub close_done : Socket → Socket
close_done s = record s { closed = true; reading = false }
