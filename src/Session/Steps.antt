-- ===== src/Session/Steps.antt =====
-- Properties of a session that its reads, its answers and its timer do not touch, carried through
-- the steps that every callback is made of.
use log_transfer_analyzer.Prelude.{
  ℕ, not, ◌≡◌, ◌&&◌, ◌||◌, ◌==◌, ltb, if◌then◌else◌, Bool, true, false, refl, Bytes,
}
use log_transfer_analyzer.Net.Timer.{Timer}
use log_transfer_analyzer.Net.TcpSocket.{Socket}
use log_transfer_analyzer.Net.TcpSocket
use log_transfer_analyzer.Session.{
  Session, SessionState, receiving, cleaned_up, same_state, Answers, read_stopped, sent, emit,
  ring_full, asked_full, timeout_for_state, arm_timer, resume_reading, transition, send,
  apply_backpressure,
}

-- Both branches of a test.
pub if_any {ℓ κ} :
    {A : Type ℓ} (P : A → Type κ) (b : Bool) {x y : A} → P x → P y → P (if b then x else y)
if_any P true px py = px
if_any P false px py = py

pub if_cases {ℓ κ} :
    {A : Type ℓ} (P : A → Type κ) (b : Bool) {x y : A}
    → (b ≡ true → P x)
    → (b ≡ false → P y)
    → P (if b then x else y)
if_cases P true px py = px refl
if_cases P false px py = py refl

-- Starts and stops of reading leave the count of writes alone.
pub start_read-writes : (k : Socket) → (TcpSocket.start_read k).0.pending_writes ≡ k.pending_writes
unfolding TcpSocket.start_read TcpSocket.called
start_read-writes k =
    if_any P (not k.has_handle || k.closing) refl
      (if_any P k.reading refl (if_any P (TcpSocket.next_rc k == 0) refl refl))
  where
    P : Socket × ℕ → Type 0
    P p = p.0.pending_writes ≡ k.pending_writes

pub stop_read-writes : (k : Socket) → (TcpSocket.stop_read k).0.pending_writes ≡ k.pending_writes
unfolding TcpSocket.stop_read TcpSocket.called
stop_read-writes k =
    if_any P (not k.has_handle || not k.reading) refl
      (if_any P (TcpSocket.next_rc k == 0) refl refl)
  where
    P : Socket × ℕ → Type 0
    P p = p.0.pending_writes ≡ k.pending_writes

-- `P` speaks neither of the answers nor of the socket, but for its count of writes, and does not see
-- stops and starts.
pub record IsQuiet (P : Session → Type 0) : Type 0 where
  pub moved :
      (s : Session) (socket : Socket) (answers : Answers)
      → socket.pending_writes ≡ s.socket.pending_writes
      → P s
      → P (record s { socket = socket; answers = answers })
  pub stopped : (s : Session) (b : Bool) → P s → P (emit (read_stopped b) s)

pub record IsUntimed (P : Session → Type 0) : Type 0 where
  pub armed : (s : Session) (timer : Timer) → P s → P (record s { timer = timer })

module _ (P : Session → Type 0) (q : IsQuiet P) where
  pub resume_reading-any : (s : Session) → P s → P (resume_reading s)
  unfolding resume_reading
  resume_reading-any s h = if_any P (s.cleanup_started || s.socket.reading) h (
      if_any P (same_state s.state receiving && ltb s.received_bytes s.file_size)
        (if_any P (ring_full s) asked
          (q.stopped _ false (q.moved _ _ _ (start_read-writes s.socket) asked)))
        (q.stopped _ false (q.moved _ _ _ (start_read-writes s.socket) h)))
    where
      asked : P (asked_full s)
      asked = q.moved s _ _ refl h

  pub apply_backpressure-any : (s : Session) → P s → P (apply_backpressure s)
  unfolding apply_backpressure
  apply_backpressure-any s h =
      if_any P (ring_full s && s.socket.reading)
        (if_any P (ring_full stopped) (q.moved _ _ _ refl after_stop)
          (resume_reading-any _ (q.moved _ _ _ refl after_stop)))
        (q.moved _ _ _ refl h)
    where
      stopped : Session
      stopped =
          emit (read_stopped true)
            (record (asked_full s) { socket = (TcpSocket.stop_read s.socket).0 })

      after_stop : P stopped
      after_stop = q.stopped _ true (q.moved _ _ _ (stop_read-writes s.socket) h)

  -- A transition to another state.
  pub transition-any :
      (next : SessionState) (s : Session)
      → same_state s.state next ≡ false
      → P (arm_timer (record s { state = next }))
      → P (transition next s)
  unfolding transition
  transition-any next s other h =
      if_cases P (same_state s.state next) (λ same. absurd (cc (same, other)))
        (λ _.
          if_any P (same_state next receiving || same_state next cleaned_up) h
            (resume_reading-any _ h))

-- A send is accepted, and seen, or it is refused.
pub send_cases :
    (R : Session × ℕ → Type 0) (bytes : Bytes) (s : Session)
    → ((socket : Socket) (rc : ℕ)
        → (rc == 0) ≡ true
        → R (emit (sent bytes) (record s { socket = socket }), rc))
    → ((socket : Socket) (rc : ℕ) → (rc == 0) ≡ false → R (record s { socket = socket }, rc))
    → R (send bytes s)
unfolding send
send_cases R bytes s accepted refused =
    let reply = TcpSocket.send s.socket in
    if_cases (λ s'. R (s', reply.1)) (reply.1 == 0) (accepted reply.0 reply.1)
      (refused reply.0 reply.1)

module _ (P : Session → Type 0) (t : IsUntimed P) where
  pub arm_timer-any : (s : Session) → P s → P (arm_timer s)
  unfolding arm_timer
  arm_timer-any s h =
      if_any P (timeout_for_state s.state s.timeouts == 0) (t.armed _ _ h) (t.armed _ _ h)

  -- A transition to another state, for what does not speak of the timer.
  pub transition-to :
      (q : IsQuiet P) (next : SessionState) (s : Session)
      → same_state s.state next ≡ false
      → P (record s { state = next })
      → P (transition next s)
  transition-to q next s other h = transition-any P q next s other (arm_timer-any _ h)
