-- ===== src/Session/Timed.antt =====
-- The timer of a session runs exactly in the states that wait for the peer, for the time of the
-- state, through every callback.
use log_transfer_analyzer.Prelude.{
  ℕ, zero, suc, ◌<◌, Bool, sym, subst, ◌≡◌, ◌==◌, ◌||◌, if◌then◌else◌, not, true, false, refl,
  Bytes, arith,
}
use log_transfer_analyzer.Net.Timer
use log_transfer_analyzer.Net.Timer.{Timer}
use log_transfer_analyzer.Net.TcpSocket
use log_transfer_analyzer.Net.TcpSocket.{Socket}
use log_transfer_analyzer.Protocol.{AckStatus}
use log_transfer_analyzer.Session.{
  Session, SessionState, SessionTimeouts, Reason, receiving, cleaned_up, same_state,
  timeout_for_state, arm_timer, resume_reading, transition, cleanup, emit, sent, send,
  fail_with_ack, header_send_failed, csv_send_failed,
}
use log_transfer_analyzer.Session.Messages.{send_result, send_header_only}
use log_transfer_analyzer.Session.Steps.{
  IsQuiet, if_any, if_cases, resume_reading-any, stop_read-writes,
}

-- A timer that runs for a time above 0, or one that does not run.
abbrev pub IsArmed : Timer → ℕ → Type 0
IsArmed timer zero = timer.active ≡ false
IsArmed timer (suc ms) = (timer.active ≡ true) × (timer.timeout_ms ≡ suc ms)

-- A session that closes behind its last send, and has not cleaned up, has a write that has not ended.
abbrev pub Owed : Bool → Bool → ℕ → Type 0
Owed true closing writes = Unit
Owed false false writes = Unit
Owed false true writes = 0 < writes

pub Owed-over : (cleaned closing : Bool) (writes : ℕ) → cleaned ≡ true → Owed cleaned closing writes
Owed-over cleaned closing writes e = subst (λ c. Owed c closing writes) (sym e) tt

pub Owed-open :
    (cleaned closing : Bool) (writes : ℕ) → closing ≡ false → Owed cleaned closing writes
Owed-open true closing writes e = tt
Owed-open false false writes e = tt
Owed-open false true writes e = absurd (cc e)

-- A write that is pending pays it.
Owed-paid : (cleaned closing : Bool) (writes : ℕ) → 0 < writes → Owed cleaned closing writes
Owed-paid true closing writes h = tt
Owed-paid false false writes h = tt
Owed-paid false true writes h = h

-- `send` counts an accepted write, and no other.
send-writes :
    (k : Socket)
    → (((TcpSocket.send k).1 == 0) ≡ true → 0 < (TcpSocket.send k).0.pending_writes)
      × (((TcpSocket.send k).1 == 0) ≡ false
          → (TcpSocket.send k).0.pending_writes ≡ k.pending_writes)
unfolding TcpSocket.send TcpSocket.called
send-writes k =
    if_any P (not k.has_handle || k.closing) (λ e. absurd (cc e), λ _. refl)
      (if_cases P (TcpSocket.next_rc k == 0) (λ _. (λ _. omega arith, λ e. absurd (cc e)))
        (λ refused. (λ e. absurd (cc (e, refused)), λ _. refl)))
  where
    P : Socket × ℕ → Type 0
    P p =
        ((p.1 == 0) ≡ true → 0 < p.0.pending_writes)
        × ((p.1 == 0) ≡ false → p.0.pending_writes ≡ k.pending_writes)

module _ (timeouts : SessionTimeouts) where
  -- Without what is owed.
  abbrev pub IsOn : Session → Type 0
  IsOn s = (s.timeouts ≡ timeouts) × IsArmed s.timer (timeout_for_state s.state s.timeouts)

  abbrev pub IsTimed : Session → Type 0
  IsTimed s =
      (s.timeouts ≡ timeouts)
      × IsArmed s.timer (timeout_for_state s.state s.timeouts)
      × Owed s.cleanup_started s.close_after_send s.socket.pending_writes

  pub quiet : IsQuiet IsTimed
  quiet = record {
    moved = λ s socket answers same h.
        (h.0, h.1, subst (Owed s.cleanup_started s.close_after_send) (sym same) h.2);
    stopped = λ s b h. h;
  }

  IsArmed-start : (ms : ℕ) (t : Timer) → (ms == 0) ≡ false → IsArmed (Timer.start ms t) ms
  unfolding Timer.start
  IsArmed-start zero t e = absurd (ground arith)
  IsArmed-start (suc ms) t e = (refl, refl)

  IsArmed-stop : (ms : ℕ) (t : Timer) → (ms == 0) ≡ true → IsArmed (Timer.stop t) ms
  unfolding Timer.stop
  IsArmed-stop zero t e = refl
  IsArmed-stop (suc ms) t e = absurd (ground arith)

  pub IsArmed-restart : (ms : ℕ) (t : Timer) → IsArmed t ms → IsArmed (Timer.restart t) ms
  unfolding Timer.restart
  IsArmed-restart zero t h =
      if_cases (λ t'. IsArmed t' zero) (not t.active) (λ _. h) (λ e. absurd (ground arith))
  IsArmed-restart (suc ms) t h = if_any (λ t'. IsArmed t' (suc ms)) (not t.active) h (refl, h.1)

  pub arm_timer-IsTimed :
      (s : Session)
      → s.timeouts ≡ timeouts
      → Owed s.cleanup_started s.close_after_send s.socket.pending_writes
      → IsTimed (arm_timer s)
  unfolding arm_timer
  arm_timer-IsTimed s e owed =
      let ms = timeout_for_state s.state s.timeouts in
      if_cases IsTimed (ms == 0) (λ z. (e, IsArmed-stop ms s.timer z, owed))
        (λ z. (e, IsArmed-start ms s.timer z, owed))

  pub transition-IsTimed :
      (next : SessionState) (s : Session) → IsTimed s → IsTimed (transition next s)
  unfolding transition
  transition-IsTimed next s h =
      let moved = arm_timer (record s { state = next }) in
      let armed = arm_timer-IsTimed (record s { state = next }) h.0 h.2 in
      if_any IsTimed (same_state s.state next) h (
        if_any IsTimed (same_state next receiving || same_state next cleaned_up)
          {y = resume_reading moved} armed (resume_reading-any IsTimed quiet moved armed))

  -- A cleanup pays what is owed.
  pub cleanup-IsOn : (why : Reason) (s : Session) → IsOn s → IsTimed (cleanup why s)
  unfolding cleanup Timer.stop
  cleanup-IsOn why s h =
      if_cases IsTimed s.cleanup_started (λ over. (h.0, h.1, Owed-over s.cleanup_started _ _ over))
        (λ _. (h.0, refl, tt))

  pub cleanup-IsTimed : (why : Reason) (s : Session) → IsTimed s → IsTimed (cleanup why s)
  cleanup-IsTimed why s h = cleanup-IsOn why s (h.0, h.1)

  -- A send, and any continuation of it that keeps the timer; an accepted write is pending.
  pub send-IsTimed :
      (bytes : Bytes) (s : Session) (k : Session × ℕ → Session)
      → IsTimed s
      → ((s' : Session) (rc : ℕ)
          → IsTimed s'
          → ((rc == 0) ≡ true → 0 < s'.socket.pending_writes)
          → IsTimed (k (s', rc)))
      → IsTimed (k (send bytes s))
  unfolding send
  send-IsTimed bytes s k h kept =
      let reply = TcpSocket.send s.socket in
      let (counts, leaves) = send-writes s.socket in
      if_cases (λ s'. IsTimed (k (s', reply.1))) (reply.1 == 0)
        (λ e.
          kept (emit (sent bytes) (record s { socket = reply.0 })) reply.1
            (h.0, h.1, Owed-paid s.cleanup_started s.close_after_send _ (counts e)) counts)
        (λ e.
          kept (record s { socket = reply.0 }) reply.1
            (h.0, h.1, subst (Owed s.cleanup_started s.close_after_send) (sym (leaves e)) h.2)
            counts)

  pub fail_with_ack-IsTimed :
      (code : AckStatus) (why : Reason) (s : Session)
      → IsTimed s
      → IsTimed (fail_with_ack code why s)
  unfolding fail_with_ack
  fail_with_ack-IsTimed code why s h =
      send-IsTimed _ s
        (λ p.
          if p.1 == 0
          then record p.0 {
            socket = (TcpSocket.stop_read p.0.socket).0;
            close_after_send = true;
            pending_fail_reason = why;
          }
          else cleanup why p.0)
        h
        (λ s' rc h' counts.
          if_cases IsTimed (rc == 0)
            (λ e. (
              h'.0,
              h'.1,
              Owed-paid s'.cleanup_started true _
                  (subst (λ writes. 0 < writes) (sym (stop_read-writes s'.socket)) (counts e)),
            ))
            (λ _. cleanup-IsTimed why s' h'))

  pub send_header_only-IsTimed :
      (header : Bytes) (s : Session) → IsTimed s → IsTimed (send_header_only header s)
  unfolding send_header_only
  send_header_only-IsTimed header s h =
      send-IsTimed header s (λ p. if p.1 == 0 then p.0 else cleanup header_send_failed p.0) h
        (λ s' rc h' _. if_any IsTimed (rc == 0) h' (cleanup-IsTimed _ s' h'))

  pub send_result-IsTimed :
      (header body : Bytes) (s : Session) → IsTimed s → IsTimed (send_result header body s)
  unfolding send_result
  send_result-IsTimed header body s h =
      send-IsTimed header s
        (λ p.
          let q = send body p.0 in
          if not (p.1 == 0)
          then cleanup header_send_failed p.0
          else if q.1 == 0
          then q.0
          else cleanup csv_send_failed q.0)
        h
        (λ s' rc h' _. if_any IsTimed (not (rc == 0)) (cleanup-IsTimed _ s' h') (
          send-IsTimed body s' (λ q. if q.1 == 0 then q.0 else cleanup csv_send_failed q.0) h'
            (λ s'' rc' h'' _. if_any IsTimed (rc' == 0) h'' (cleanup-IsTimed _ s'' h''))))
