-- ===== src/Session/Endings.antt =====
-- The ways a session ends keep its invariant: `cleanup`, `failWithAck`, and the sends of a result.
use log_transfer_analyzer.Prelude.{
  ◌≡◌, ◌==◌, if◌then◌else◌, Bool, true, false, refl, not, arith, Bytes, Bool-cases, inl, inr, sym,
  ap, subst, ◌∙◌,
}
use log_transfer_analyzer.Protocol.{AckStatus}
use log_transfer_analyzer.Net.TcpSocket
use log_transfer_analyzer.Session.{
  Session, SessionState, Reason, cleaned_up, sending_result, same_state, sent, emit, transition,
  send, cleanup, close_silently, fail_with_ack, header_send_failed, csv_send_failed,
}
use log_transfer_analyzer.Session.Messages.{send_result, send_header_only}
use log_transfer_analyzer.Session.Facts.{At, Sums, Kept, Open, InPhase, Flagged, IsSession}
use log_transfer_analyzer.Session.Trace.{visible, payload}
use log_transfer_analyzer.Session.Steps.{IsQuiet, if_cases, transition-to, send_cases}

pub IsSession-quiet : IsQuiet IsSession
IsSession-quiet = record { moved = λ s socket answers same h. h; stopped = λ s b h. h }

pub cleanup-Open :
    (given_up : Bool) (why : Reason) (s : Session)
    → s.cleanup_started ≡ false
    → Open given_up s
    → IsSession (cleanup why s)
unfolding cleanup
cleanup-Open given_up why s live v =
    if_cases IsSession s.cleanup_started (λ over. absurd (cc (over, live)))
      λ _. (
        record {
          within = v.within;
          sums = tt;
          close_flag = refl;
          abort_flag = refl;
          finish_flag = v.finish_flag;
          orderly = (v.close_flag, (v.abort_flag, v.orderly));
        },
        refl,
        tt,
      )

pub Kept-Open : (s : Session) → s.cleanup_started ≡ false → Kept s → Open false s
Kept-Open s live v = record {
  within = v.within;
  sums =
      subst (λ g. Sums g s.received_bytes s.payload_crc (payload (visible s.effects))) live v.sums;
  close_flag = v.close_flag ∙ live;
  abort_flag = v.abort_flag ∙ live;
  finish_flag = v.finish_flag;
  orderly = v.orderly;
}

pub Open-Kept : (s : Session) → s.cleanup_started ≡ false → Open false s → Kept s
Open-Kept s live v = record {
  within = v.within;
  sums =
      subst (λ g. Sums g s.received_bytes s.payload_crc (payload (visible s.effects))) (sym live)
        v.sums;
  close_flag = v.close_flag ∙ sym live;
  abort_flag = v.abort_flag ∙ sym live;
  finish_flag = v.finish_flag;
  orderly = v.orderly;
}

pub cleanup-IsSession : (why : Reason) (s : Session) → IsSession s → IsSession (cleanup why s)
unfolding cleanup
cleanup-IsSession why s v = elim (Bool-cases s.cleanup_started) [
  | inl over ↦ if_cases IsSession s.cleanup_started (λ _. v) (λ live. absurd (cc (over, live)))
  | inr live ↦ cleanup-Open false why s live (Kept-Open s live v.0)
]

-- An accepted send, and an effect that no fact speaks of.
pub sent-Open :
    (given_up : Bool) (bytes : Bytes) (s : Session)
    → Open given_up s
    → Open given_up (emit (sent bytes) s)
sent-Open given_up bytes s v = record {
  within = v.within;
  sums = v.sums;
  close_flag = v.close_flag;
  abort_flag = v.abort_flag;
  finish_flag = v.finish_flag;
  orderly = (v.close_flag, v.orderly);
}

-- The session waits for the end of the send, or it is closed.
pub fail_with_ack-IsSession :
    (code : AckStatus) (why : Reason) (s : Session)
    → s.cleanup_started ≡ false
    → Open false s
    → Flagged s
    → InPhase (record s { close_after_send = true })
    → IsSession (fail_with_ack code why s)
unfolding fail_with_ack
fail_with_ack-IsSession code why s live v flag phase =
    send_cases
      (λ p. IsSession (
        if p.1 == 0
        then record p.0 {
          socket = (TcpSocket.stop_read p.0.socket).0;
          close_after_send = true;
          pending_fail_reason = why;
        }
        else cleanup why p.0))
      _ s
      (λ socket rc e.
        if_cases IsSession (rc == 0)
          (λ _. (Open-Kept (emit (sent _) s) live (sent-Open false _ s v), flag, phase))
          (λ e'. absurd (cc (e, e'))))
      (λ socket rc e.
        if_cases IsSession (rc == 0) (λ e'. absurd (cc (e, e')))
          (λ _. cleanup-Open false why _ live v))

pub At-IsSession :
    (state : SessionState) (s : Session)
    → At state s
    → same_state state cleaned_up ≡ false
    → InPhase (record s { state = state })
    → IsSession s
At-IsSession state s (live, at, v) other phase = (
  Open-Kept s live v,
  ap (λ st. same_state st cleaned_up) at ∙ other ∙ sym live,
  subst (λ st. InPhase (record s { state = st })) (sym at) phase,
)

pub transition-At :
    (state next : SessionState) (s : Session)
    → At state s
    → same_state state next ≡ false
    → At next (transition next s)
transition-At state next s (live, at, v) other =
    transition-to (At next) (record { armed = λ s' timer h. h })
      (record { moved = λ s' socket answers same h. h; stopped = λ s' b h. h }) next s
      (ap (λ st. same_state st next) at ∙ other) (live, refl, v)

pub transition-IsSession :
    (next : SessionState) (s : Session)
    → same_state s.state next ≡ false
    → IsSession (record s { state = next })
    → IsSession (transition next s)
transition-IsSession next s other v =
    transition-to IsSession (record { armed = λ s' timer h. h }) IsSession-quiet next s other v

pub fail_with_ack-At :
    (code : AckStatus) (why : Reason) (state : SessionState) (s : Session)
    → At state s
    → same_state state cleaned_up ≡ false
    → InPhase (record s { state = state; close_after_send = true })
    → IsSession (fail_with_ack code why s)
fail_with_ack-At code why state s (live, at, v) other phase =
    fail_with_ack-IsSession code why s live v
      (ap (λ st. same_state st cleaned_up) at ∙ other ∙ sym live)
      (subst (λ st. InPhase (record s { state = st; close_after_send = true })) (sym at) phase)

pub close_silently-At :
    (why : Reason) (state : SessionState) (s : Session)
    → At state s
    → IsSession (close_silently why s)
unfolding close_silently
close_silently-At why state s (live, at, v) = cleanup-Open false why s live v

-- A session that sends a result has no more to say.
sending_IsSession : (s : Session) → At sending_result s → IsSession s
sending_IsSession s at = At-IsSession sending_result s at refl tt

-- The sends of a result: `InPhase` says nothing in the state that they are made in.
pub send_header_only-IsSession :
    (header : Bytes) (s : Session) → At sending_result s → IsSession (send_header_only header s)
unfolding send_header_only
send_header_only-IsSession header s (live, at, v) =
    send_cases (λ p. IsSession (if p.1 == 0 then p.0 else cleanup header_send_failed p.0)) header s
      (λ socket rc e.
        if_cases IsSession (rc == 0)
          (λ _. sending_IsSession (emit (sent header) s) (live, at, sent-Open false header s v))
          (λ e'. absurd (cc (e, e'))))
      (λ socket rc e.
        if_cases IsSession (rc == 0) (λ e'. absurd (cc (e, e')))
          (λ _. cleanup-Open false header_send_failed _ live v))

pub send_result-IsSession :
    (header body : Bytes) (s : Session)
    → At sending_result s
    → IsSession (send_result header body s)
unfolding send_result
send_result-IsSession header body s (live, at, v) =
    send_cases
      (λ p. IsSession (
        let q = send body p.0 in
        if not (p.1 == 0)
        then cleanup header_send_failed p.0
        else if q.1 == 0
        then q.0
        else cleanup csv_send_failed q.0))
      header s
      (λ socket rc e.
        if_cases IsSession (not (rc == 0)) (λ e'. absurd (ground arith))
          (λ _.
            send_cases (λ q. IsSession (if q.1 == 0 then q.0 else cleanup csv_send_failed q.0)) body
              _
              (λ socket' rc' f.
                if_cases IsSession (rc' == 0)
                  (λ _. sending_IsSession (emit (sent body) (emit (sent header) s)) (
                    live,
                    at,
                    sent-Open false body (emit (sent header) s) (sent-Open false header s v),
                  ))
                  (λ f'. absurd (cc (f, f'))))
              (λ socket' rc' f.
                if_cases IsSession (rc' == 0) (λ f'. absurd (cc (f, f')))
                  (λ _. cleanup-Open false csv_send_failed _ live (sent-Open false header s v)))))
      (λ socket rc e.
        if_cases IsSession (not (rc == 0)) (λ _. cleanup-Open false header_send_failed _ live v)
          (λ e'. absurd (ground arith)))
