-- ===== src/Session/Alive.antt =====
-- What takes a session on, in each state that it can be in.
use log_transfer_analyzer.Prelude.{ℕ, ◌<◌, ◌≡◌, true}
use log_transfer_analyzer.Net.Timer.{Timer}
use log_transfer_analyzer.Net.TcpSocket
use log_transfer_analyzer.Session
use log_transfer_analyzer.Session.{
  Session, SessionState, SessionTimeouts, wait_header, receiving, verifying, analyzing,
  sending_result, wait_done, cleaned_up,
}
use log_transfer_analyzer.Session.Callbacks.{write_completes, expire, step}
use log_transfer_analyzer.Session.Trace.{visible, is_closed, is_aborted, is_completed}
use log_transfer_analyzer.Session.Held.{Held}

-- The timer of the session runs for that time, and its end closes the session.
abbrev pub RunsFor : ℕ → Session → Type 0
RunsFor ms s =
    (s.timer.active ≡ true)
    × (s.timer.timeout_ms ≡ ms)
    × ((step s expire).state ≡ cleaned_up)
    × (is_closed (visible (step s expire).effects) ≡ true)

-- The next write that ends, well or not, closes the session.
abbrev pub ClosesOnWrite : Session → Type 0
ClosesOnWrite s =
    (status : ℕ)
    → ((step s (write_completes status)).state ≡ cleaned_up)
      × (is_closed (visible (step s (write_completes status)).effects) ≡ true)

-- What a session waits for, by its state: the peer, no longer than the time of the state; the end of
-- a write, which closes the session; the parser thread, which was told that the upload is complete.
abbrev pub Awaits : SessionState → SessionTimeouts → Session → Type 0
Awaits wait_header timeouts s = RunsFor timeouts.response_ms s
Awaits receiving timeouts s = RunsFor timeouts.idle_ms s
Awaits verifying timeouts s = (0 < s.socket.pending_writes) × ClosesOnWrite s
Awaits analyzing timeouts s = is_completed (visible s.effects) ≡ true
Awaits sending_result timeouts s = RunsFor timeouts.idle_ms s
Awaits wait_done timeouts s = RunsFor timeouts.response_ms s
Awaits cleaned_up timeouts s =
    (is_closed (visible s.effects) ≡ true) × (is_aborted (visible s.effects) ≡ true)

abbrev Closed : Session → Type 0
Closed s = (s.state ≡ cleaned_up) × (is_closed (visible s.effects) ≡ true)
