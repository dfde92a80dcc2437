-- ===== src/Manager/Reaping.antt =====
-- The end of a session is reported once, and its destruction is due until it happens.
use log_transfer_analyzer.Prelude.{
  ◌≡◌, refl, sym, ap, subst, ◌∙◌, Bool, true, false, not, ◌&&◌, ◌||◌, ◌==◌, Option, none, some,
  arith,
}
use log_transfer_analyzer.Session.Steps.{if_any, if_cases}
use log_transfer_analyzer.Manager.{
  Visit, Manager, has_session, arrived, dispatched, destroyed, accept_if_idle,
  accept_when_parser_idle, on_connection, on_reap, on_completion, with_session, Deed, commits,
  marks, cleans, closes, Event, connects, reaps, abort_done, completes, does, turns, step,
}

-- The two flags follow the session's report, which comes behind its cleanup.
abbrev pub Reported : Option Visit → Bool → Bool → Type 0
Reported none session_finished reaping = (session_finished ≡ false) × (reaping ≡ false)
Reported (some v) session_finished reaping =
    (session_finished ≡ v.closed) × (reaping ≡ v.closed) × ((v.cleaned || not v.closed) ≡ true)

abbrev pub IsReported : Manager → Type 0
IsReported m = Reported m.session m.session_finished m.reaping

accept_if_idle-IsReported :
    (starts : Bool) (session : Option Visit) (m : Manager)
    → m.session ≡ session
    → IsReported m
    → IsReported (accept_if_idle starts m)
unfolding accept_if_idle
accept_if_idle-IsReported starts (some v) m at r =
    if_cases IsReported (has_session m.session) (λ _. r)
      (λ e. absurd (cc (sym (ap has_session at), e)))
accept_if_idle-IsReported starts none m at r =
    let r' : Reported none m.session_finished m.reaping =
      subst (λ s. Reported s m.session_finished m.reaping) at r in
    if_any IsReported (has_session m.session) r
      (if_any IsReported (m.backlog == 0) r (if_any IsReported starts (r'.0, r'.1, refl) r))

pub accept_when_parser_idle-IsReported :
    (starts : Bool) (m : Manager) → IsReported m → IsReported (accept_when_parser_idle starts m)
unfolding accept_when_parser_idle
accept_when_parser_idle-IsReported starts m r =
    if_any IsReported m.parser.abort_requested r
      (accept_if_idle-IsReported starts m.session m refl r)

-- A session that is destroyed has reported its end, so it has cleaned up.
pub Reported-finished :
    (session : Option Visit) (session_finished reaping : Bool)
    → Reported session session_finished reaping
    → session_finished ≡ true
    → (v : Visit) × (session ≡ some v) × (v.cleaned ≡ true)
Reported-finished none f r (idle, _) e = absurd (cc (idle, e))
Reported-finished (some v) f r (closed, _, ordered) e = (v, refl, ground arith)

on_session-IsReported :
    (deed : Deed) (session : Option Visit) (m : Manager)
    → m.session ≡ session
    → IsReported m
    → IsReported (with_session deed session m)
on_session-IsReported deed none m at r = r
on_session-IsReported commits (some v) m at r = if_any IsReported (v.cleaned || v.marked) r r
on_session-IsReported marks (some v) m at r =
    if_any IsReported (v.cleaned || v.marked) r
      (subst (λ s. Reported s m.session_finished m.reaping) at r)
on_session-IsReported cleans (some v) m at r =
    let r' : Reported (some v) m.session_finished m.reaping =
      subst (λ s. Reported s m.session_finished m.reaping) at r in
    if_any IsReported v.cleaned r (r'.0, r'.1, refl)
on_session-IsReported closes (some v) m at r =
    if_cases IsReported (v.cleaned && not v.closed) (λ e. (refl, refl, ground arith)) (λ _. r)

on_completion-IsReported :
    (session : Option Visit) (m : Manager) → IsReported m → IsReported (on_completion session m)
on_completion-IsReported none m r = r
on_completion-IsReported (some v) m r = r

-- The idle callback is not due without a report.
Reported-idle :
    (session : Option Visit) (session_finished reaping : Bool)
    → Reported session session_finished reaping
    → session_finished ≡ false
    → reaping ≡ false
Reported-idle none f r (_, idle) e = idle
Reported-idle (some v) f r (closed, due, _) e = due ∙ sym closed ∙ e

pub step-IsReported : (m : Manager) (event : Event) → IsReported m → IsReported (step m event)
unfolding step on_connection on_reap
step-IsReported m (connects starts) r =
    if_any IsReported (has_session m.session) r
      (accept_when_parser_idle-IsReported starts (arrived m) r)
step-IsReported m (reaps starts) r =
    if_cases IsReported m.reaping
      (λ due.
        if_cases IsReported m.session_finished
          (λ _. accept_when_parser_idle-IsReported starts (destroyed m) (refl, refl))
          (λ e. absurd (cc (due, Reported-idle m.session _ _ r e))))
      (λ _. r)
step-IsReported m (abort_done starts) r =
    if_any IsReported m.parser.abort_done_sent
      (accept_when_parser_idle-IsReported starts (dispatched m) r) r
step-IsReported m completes r =
    if_any IsReported m.parser.completion_sent (on_completion-IsReported m.session m r) r
step-IsReported m (does deed) r = on_session-IsReported deed m.session m refl r
step-IsReported m (turns turn) r = r
