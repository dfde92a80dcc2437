-- ===== src/Session/Held.antt =====
-- Any sequence of callbacks keeps the timer of a session as its state wants it.
use log_transfer_analyzer.Prelude.{
  ℕ, arith, true, zero, suc, ◌≡◌, ◌==◌, ◌&&◌, ◌||◌, ltb, if◌then◌else◌, not, Bool, false, refl,
  List, [], ◌∷◌, Bytes, sym, subst, ◌∙◌, length, take, drop, Option, none, some,
}
use log_transfer_analyzer.Net.Timer
use log_transfer_analyzer.Net.Timer.{Timer}
use log_transfer_analyzer.Net.TcpSocket
use log_transfer_analyzer.Net.TcpSocket.{Socket}
use log_transfer_analyzer.Session.{
  Session, SessionState, SessionTimeouts, RetainedResult, wait_header, receiving, verifying,
  analyzing, sending_result, wait_done, cleaned_up, same_state, emit, timeout_for_state, transition,
  cleanup, close_silently, apply_backpressure, slot_free, unexpected_data_in, committed, asked_slot,
  result_retained, session_begun, init, Answers,
}
use log_transfer_analyzer.Session.Messages.{fed, fed_bytes, consume_header, consume_done}
use log_transfer_analyzer.Session.Payload.{
  payload_share, counted, copy_to_slots, consume_payload, consume_slot,
}
use log_transfer_analyzer.Session.Callbacks.{
  on_timeout, on_allocate, consume_in, consume, read_loop, on_read, AnalysisResult,
  on_analysis_complete, on_error, on_send_complete, on_closed, Event, arrive, write_completes,
  read_fails, expire, resume, close, analysed, step, run, start, retained_from,
}
use log_transfer_analyzer.Session.Steps.{
  if_any, if_cases, resume_reading-any, apply_backpressure-any,
}
use log_transfer_analyzer.Session.Timed.{
  IsOn, Owed-open, cleanup-IsOn, IsArmed, quiet, arm_timer-IsTimed, IsArmed-restart,
  transition-IsTimed, cleanup-IsTimed, send_result-IsTimed,
}
use log_transfer_analyzer.Session.Facts.{IsSession, Flagged}
use log_transfer_analyzer.Session.Reading.{same_state→≡}
use log_transfer_analyzer.Session.Sound.{step-IsSession}
use log_transfer_analyzer.Session.Timely.{
  Timed, Timed₀, closes, header_fed-Timed, consume_trailer-Timed, done_fed-Timed,
}

module _ (timeouts : SessionTimeouts) where
  abbrev pub Held : Session → Type 0
  Held = Timed timeouts

  abbrev Held₀ : Session × ℕ → Type 0
  Held₀ = Timed₀ timeouts

  backpressured : (s : Session) → Held s → Held (apply_backpressure s)
  backpressured = apply_backpressure-any Held (quiet timeouts)

  copy_to_slots-Held :
      (fuel : ℕ) (payload : Bytes) (s : Session) → Held s → Held (copy_to_slots fuel payload s).0
  unfolding copy_to_slots
  copy_to_slots-Held zero payload s h = h
  copy_to_slots-Held (suc fuel) payload s h =
      let next = emit (committed (take s.chunk_size payload)) (asked_slot s) in
      let rest : Held (copy_to_slots fuel (drop s.chunk_size payload) next).0 =
        copy_to_slots-Held fuel (drop s.chunk_size payload) next h in
      if_any (λ (p : Session × Bool). Held p.0) (length payload == 0) h
        (if_any (λ (p : Session × Bool). Held p.0) (slot_free s) rest h)

  consume_payload-Held : (s : Session) (data' : Bytes) → Held s → Held₀ (consume_payload s data')
  unfolding consume_payload
  consume_payload-Held s data' h =
      let bytes = take (payload_share s data') data' in
      let copied = copy_to_slots (length bytes) bytes (counted s data') in
      let h' : Held copied.0 = copy_to_slots-Held (length bytes) bytes (counted s data') h in
      if_any Held₀ copied.1 (backpressured copied.0 h') (cleanup-IsTimed timeouts _ copied.0 h')

  consume_slot-Held : (s : Session) (data' : Bytes) → Held s → Held (consume_slot s data')
  unfolding consume_slot
  consume_slot-Held s data' h =
      let tail = drop (payload_share s data') data' in
      let s' = emit (committed (take (payload_share s data') data')) (counted s data') in
      let h' : Held (apply_backpressure s') = backpressured s' h in
      if_any Held (length tail == 0) h'
        (consume_trailer-Timed timeouts (apply_backpressure s') tail h')

  abbrev Taken : Option (Session × ℕ) → Type 0
  Taken none = Unit
  Taken (some p) = Held p.0

  consume_in-Taken :
      (state : SessionState) (kept : Option RetainedResult) (s : Session) (data' : Bytes)
      → Held s
      → Taken (consume_in state kept s data')
  unfolding consume_in consume_header consume_done
  consume_in-Taken wait_header kept s data' h =
      header_fed-Timed timeouts kept (fed s data').framer.status (fed_bytes s data') (fed s data') h
  consume_in-Taken receiving kept s data' h =
      if_any Held₀ (ltb s.received_bytes s.file_size) (consume_payload-Held s data' h)
        (consume_trailer-Timed timeouts s data' h)
  consume_in-Taken wait_done kept s data' h =
      done_fed-Timed timeouts (fed s data').framer.status (fed_bytes s data') (fed s data') h
  consume_in-Taken verifying kept s data' h = tt
  consume_in-Taken analyzing kept s data' h = tt
  consume_in-Taken sending_result kept s data' h = tt
  consume_in-Taken cleaned_up kept s data' h = tt

  round-Held :
      (s : Session) (data' : Bytes) (next : Session → Bytes → Session) (r : Option (Session × ℕ))
      → Held s
      → ((s' : Session) (rest : Bytes) → Held s' → Held (next s' rest))
      → Taken r
      → Held (elim r [
        | none ↦ close_silently (unexpected_data_in s.state) s
        | some round ↦ if round.1 == 0 then round.0 else next round.0 (drop round.1 data')
      ])
  round-Held s data' next none h ih _ = closes timeouts _ s h
  round-Held s data' next (some round) h ih h' =
      if_any Held (round.1 == 0) h' (ih round.0 (drop round.1 data') h')

  read_loop-Held :
      (fuel : ℕ) (kept : Option RetainedResult) (s : Session) (data' : Bytes)
      → Held s
      → Held (read_loop fuel kept s data')
  unfolding read_loop consume
  read_loop-Held zero kept s data' h = h
  read_loop-Held (suc fuel) kept s data' h =
      if_any Held (length data' == 0 || s.cleanup_started || s.close_after_send) h (
        round-Held s data' (read_loop fuel kept) (consume kept s data') h
          (λ s' rest h'. read_loop-Held fuel kept s' rest h')
          (consume_in-Taken s.state kept s data' h))

  on_read-Held :
      (kept : Option RetainedResult) (s : Session) (data' : Bytes)
      → Held s
      → Held (on_read kept s data')
  unfolding on_read
  on_read-Held kept s data' h =
      let active : Session = record s { timer = Timer.restart s.timer; slot_acquired = false } in
      let h' : Held active = (h.0, IsArmed-restart timeouts _ s.timer h.1, h.2) in
      if_any Held s.slot_acquired (consume_slot-Held active data' h')
        (read_loop-Held (length data') kept active data' h')

  on_allocate-Held :
      (suggested_size : ℕ) (s : Session) → Held s → Held₀ (on_allocate suggested_size s)
  unfolding on_allocate
  on_allocate-Held suggested_size s h =
      if_any Held₀ (same_state s.state receiving && ltb s.received_bytes s.file_size)
        (if_any Held₀ (slot_free s) h h) h

  -- A write that ended may be the one that was owed.
  on_send_complete-IsOn :
      (rc : ℕ) (s : Session)
      → (rc == 0) ≡ false
      → IsOn timeouts s
      → IsOn timeouts (on_send_complete rc s)
  unfolding on_send_complete
  on_send_complete-IsOn rc s failed on =
      if_cases (IsOn timeouts) (not (rc == 0)) (λ _. on)
        (λ well. absurd (ground (arith, failed, well)))

  on_send_complete-Held :
      (rc : ℕ) (s : Session) → (rc == 0) ≡ true → IsOn timeouts s → Held (on_send_complete rc s)
  unfolding on_send_complete
  on_send_complete-Held rc s well on =
      if_cases Held (not (rc == 0)) (λ failed. absurd (ground (arith, failed, well)))
        (λ _.
          if_cases Held s.close_after_send (λ _. cleanup-IsOn timeouts _ s on)
            (λ stays.
              let active : Session = record s { timer = Timer.restart s.timer } in
              let h' : Held active = (
                on.0,
                IsArmed-restart timeouts _ s.timer on.1,
                Owed-open s.cleanup_started s.close_after_send _ stays,
              ) in
              if_any Held (same_state s.state sending_result)
                (transition-IsTimed timeouts wait_done _ h') h'))

  on_analysis_complete-Held :
      (result : AnalysisResult) (s : Session) → Held s → Held (on_analysis_complete result s)
  unfolding on_analysis_complete
  on_analysis_complete-Held result s h =
      let s' = emit (result_retained (retained_from result s)) (record s { csv = result.csv }) in
      if_any Held (s.cleanup_started || not (same_state s.state analyzing)) h (
        send_result-IsTimed timeouts _ _ (transition sending_result s')
          (transition-IsTimed timeouts sending_result s' h))

  -- The timer of a closed session does not run.
  stopped :
      (s : Session)
      → s.state ≡ cleaned_up
      → IsArmed (Timer.stop s.timer) (timeout_for_state s.state s.timeouts)
  unfolding Timer.stop
  stopped s at =
      subst (λ st. IsArmed (Timer.stop s.timer) (timeout_for_state st s.timeouts)) (sym at) refl

  step-Held : (s : Session) (event : Event) → Flagged s → Held s → Held (step s event)
  unfolding step on_timeout on_error on_closed Timer.stop cleanup TcpSocket.close_done
  step-Held s (arrive suggested_size data' kept) flag h =
      let granted = on_allocate suggested_size s in
      let h' : Held granted.0 = on_allocate-Held suggested_size s h in
      if_any Held (length (take granted.1 data') == 0) h' (on_read-Held kept granted.0 _ h')
  step-Held s (write_completes rc) flag h =
      let written : Session = record s { socket = TcpSocket.write_done s.socket } in
      let on : IsOn timeouts written = (h.0, h.1) in
      if_cases Held (rc == 0) (λ well. on_send_complete-Held rc written well on)
        (λ failed.
          cleanup-IsOn timeouts _ (on_send_complete rc written)
            (on_send_complete-IsOn rc written failed on))
  step-Held s (read_fails rc) flag h = cleanup-IsTimed timeouts _ s h
  step-Held s expire flag h =
      if_any Held s.timer.active
        (if_cases Held s.cleanup_started
          (λ over. (h.0, stopped s (same_state→≡ s.state cleaned_up (flag ∙ over)), h.2))
          (λ _. (h.0, refl, tt)))
        h
  step-Held s resume flag h = resume_reading-any Held (quiet timeouts) s h
  step-Held s close flag h = if_any Held s.finished h h
  step-Held s (analysed result) flag h = on_analysis_complete-Held result s h

  pub run-Held : (s : Session) (events : List Event) → IsSession s → Held s → Held (run s events)
  unfolding run
  run-Held s [] v h = h
  run-Held s (event ∷ events) v h =
      run-Held (step s event) events (step-IsSession s event v) (step-Held s event v.1 h)

  pub start-Held :
      (chunk_size : ℕ) (socket : Socket) (answers : Answers)
      → Held (start (init timeouts chunk_size socket answers)).0
  unfolding start cleanup Timer.stop
  start-Held chunk_size socket answers =
      let reply = TcpSocket.start_read socket in
      if_any (λ (p : Session × Bool). Held p.0) (reply.1 == 0)
        (arm_timer-IsTimed timeouts
          (emit session_begun
            (record (init timeouts chunk_size socket answers) { socket = reply.0 }))
          refl tt)
        (refl, refl, tt)
