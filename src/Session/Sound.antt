-- ===== src/Session/Sound.antt =====
-- The invariant of a session through every callback, and what it says of the effects.
use log_transfer_analyzer.Prelude.{
  ℕ, ◌≡◌, ◌==◌, ◌||◌, not, Bool, true, false, refl, List, [], ◌∷◌, sym, ap, ◌∙◌, length, take,
  arith,
}
use log_transfer_analyzer.Crc32.{crc32}
use log_transfer_analyzer.Crc32.Laws.{crc32-nil}
use log_transfer_analyzer.Protocol.Codec.{ok, decode_upload_trailer}
use log_transfer_analyzer.Net.Timer
use log_transfer_analyzer.Net.TcpSocket.{Socket}
use log_transfer_analyzer.Net.TcpSocket
use log_transfer_analyzer.Session.{
  Session, SessionTimeouts, Answers, start_read_failed, analyzing, sending_result, wait_done,
  same_state, emit, init, session_begun, result_retained, transition,
}
use log_transfer_analyzer.Session.Callbacks.{
  start, on_timeout, on_allocate, AnalysisResult, retained_from, on_analysis_complete, on_error,
  on_send_complete, on_closed, Event, arrive, write_completes, read_fails, expire, resume, close,
  analysed, step, run, reached,
}
use log_transfer_analyzer.Session.Trace.{visible, payload, is_completed, IsOrderly}
use log_transfer_analyzer.Session.Facts.{Open, IsSession, At}
use log_transfer_analyzer.Session.Steps.{if_any, if_cases, resume_reading-any, arm_timer-any}
use log_transfer_analyzer.Session.Endings.{
  IsSession-quiet, Open-Kept, cleanup-Open, cleanup-IsSession, transition-At, transition-IsSession,
  send_result-IsSession,
}
use log_transfer_analyzer.Session.Reading.{
  same_state→≡, IsSession-At, IsSession-phase, on_read-IsSession, on_allocate-IsSession,
}

on_analysis_complete-IsSession :
    (result : AnalysisResult) (s : Session)
    → IsSession s
    → IsSession (on_analysis_complete result s)
unfolding on_analysis_complete
on_analysis_complete-IsSession result s v =
    if_cases IsSession (s.cleanup_started || not (same_state s.state analyzing)) (λ _. v)
      (λ now.
        send_result-IsSession _ result.csv (transition sending_result retained)
          (transition-At analyzing sending_result retained (retained_At now) refl))
  where
    retained : Session
    retained = emit (result_retained (retained_from result s)) (record s { csv = result.csv })

    retained_At :
        (s.cleanup_started || not (same_state s.state analyzing)) ≡ false → At analyzing retained
    retained_At now =
        let at = same_state→≡ s.state analyzing (ground arith) in
        let (live, _, v') = IsSession-At analyzing s v at refl in
        let (done, all, _) = IsSession-phase analyzing s v at in
        (
          live,
          at,
          record {
            within = v'.within;
            sums = v'.sums;
            close_flag = v'.close_flag;
            abort_flag = v'.abort_flag;
            finish_flag = v'.finish_flag;
            orderly = ((v'.close_flag, done, sym all ∙ v'.sums.0, v'.sums.1), v'.orderly);
          },
        )

on_send_complete-IsSession :
    (rc : ℕ) (s : Session) → IsSession s → IsSession (on_send_complete rc s)
unfolding on_send_complete
on_send_complete-IsSession rc s v = if_any IsSession (not (rc == 0)) v (
    if_any IsSession s.close_after_send (cleanup-IsSession _ s v) (
      if_cases IsSession (same_state s.state sending_result)
        (λ e.
          let at = same_state→≡ s.state sending_result e in
          let (live, _, _) = IsSession-At sending_result s v at refl in
          transition-IsSession wait_done _ (ap (λ st. same_state st wait_done) at)
            (v.0, sym live, tt))
        (λ _. v)))

on_closed-IsSession : (s : Session) → IsSession s → IsSession (on_closed s)
unfolding on_closed
on_closed-IsSession s (v, flag, phase) =
    if_cases IsSession s.finished (λ _. (v, flag, phase))
      λ open_yet. (
        record {
          within = v.within;
          sums = v.sums;
          close_flag = v.close_flag;
          abort_flag = v.abort_flag;
          finish_flag = refl;
          orderly = (v.finish_flag ∙ open_yet, v.orderly);
        },
        flag,
        phase,
      )

pub step-IsSession : (s : Session) (event : Event) → IsSession s → IsSession (step s event)
unfolding step on_timeout on_error
step-IsSession s (arrive suggested_size data' kept) v =
    let granted = on_allocate suggested_size s in
    let (v', slot) = on_allocate-IsSession suggested_size s v in
    if_any IsSession (length (take granted.1 data') == 0) v'
      (on_read-IsSession kept granted.0 (take granted.1 data') v' slot)
step-IsSession s (write_completes rc) v =
    let written : Session = record s { socket = TcpSocket.write_done s.socket } in
    let v' = on_send_complete-IsSession rc written v in
    if_any IsSession (rc == 0) v' (cleanup-IsSession _ (on_send_complete rc written) v')
step-IsSession s (read_fails rc) v = cleanup-IsSession _ s v
step-IsSession s expire v =
    if_any IsSession s.timer.active
      (cleanup-IsSession _ (record s { timer = Timer.stop s.timer }) v) v
step-IsSession s resume v = resume_reading-any IsSession IsSession-quiet s v
step-IsSession s close v =
    on_closed-IsSession (record s { socket = TcpSocket.close_done s.socket }) v
step-IsSession s (analysed result) v = on_analysis_complete-IsSession result s v

run-IsSession : (s : Session) (events : List Event) → IsSession s → IsSession (run s events)
unfolding run
run-IsSession s [] v = v
run-IsSession s (event ∷ events) v = run-IsSession (step s event) events (step-IsSession s event v)

pub start-IsSession :
    (timeouts : SessionTimeouts) (chunk_size : ℕ) (socket : Socket) (answers : Answers)
    → IsSession (start (init timeouts chunk_size socket answers)).0
unfolding start
start-IsSession timeouts chunk_size socket answers =
    if_any (λ (p : Session × Bool). IsSession p.0) ((TcpSocket.start_read socket).1 == 0)
      (arm_timer-any IsSession (record { armed = λ s timer h. h }) (emit session_begun opened)
        began)
      (cleanup-Open false start_read_failed opened refl facts)
  where
    opened : Session
    opened = record (init timeouts chunk_size socket answers) {
      socket = (TcpSocket.start_read socket).0;
    }

    facts : Open false opened
    facts = record {
      within = omega arith;
      sums = (refl, sym crc32-nil);
      close_flag = refl;
      abort_flag = refl;
      finish_flag = refl;
      orderly = tt;
    }

    began : IsSession (emit session_begun opened)
    began = (
      Open-Kept (emit session_begun opened) refl (record {
        within = facts.within;
        sums = facts.sums;
        close_flag = refl;
        abort_flag = refl;
        finish_flag = refl;
        orderly = (tt, tt);
      }),
      refl,
      (refl, refl),
    )

pub reached-IsSession :
    (timeouts : SessionTimeouts) (chunk_size : ℕ) (socket : Socket) (answers : Answers)
    (events : List Event)
    → IsSession (reached timeouts chunk_size socket answers events)
reached-IsSession timeouts chunk_size socket answers events =
    run-IsSession _ events (start-IsSession timeouts chunk_size socket answers)

-- Whatever the socket, the timer, the peer and the parser thread do, and in whatever order: the
-- effects of a session that was started are orderly, those that it has made so far.
pub run-IsOrderly :
    (timeouts : SessionTimeouts) (chunk_size : ℕ) (socket : Socket) (answers : Answers)
    (events : List Event)
    → IsOrderly (visible (reached timeouts chunk_size socket answers events).effects)
run-IsOrderly timeouts chunk_size socket answers events =
    (reached-IsSession timeouts chunk_size socket answers events).0.orderly

-- In any state that a started session reaches while it waits for the analysis, the framer holds a
-- trailer with the checksum of the bytes that the parser thread has got, these are as many as the
-- header announced, and the parser thread was told that they are all.
pub run-analyzing :
    (timeouts : SessionTimeouts) (chunk_size : ℕ) (socket : Socket) (answers : Answers)
    (events : List Event)
    → (reached timeouts chunk_size socket answers events).state ≡ analyzing
    → let s = reached timeouts chunk_size socket answers events in
      (is_completed (visible s.effects) ≡ true)
      × (length (payload (visible s.effects)) ≡ s.file_size)
      × (decode_upload_trailer s.framer.buffer
          ≡ ok (record { crc32 = crc32 0 (payload (visible s.effects)) }))
run-analyzing timeouts chunk_size socket answers events at =
    let s = reached timeouts chunk_size socket answers events in
    let v = reached-IsSession timeouts chunk_size socket answers events in
    let (_, _, facts) = IsSession-At analyzing s v at refl in
    let (told, all, trailer) = IsSession-phase analyzing s v at in
    (told, sym facts.sums.0 ∙ all, trailer ∙ ap (λ (n : ℕ). ok (record { crc32 = n })) facts.sums.1)
