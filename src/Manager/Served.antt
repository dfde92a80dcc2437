-- ===== src/Manager/Served.antt =====
-- A connection that waits in the backlog is not forgotten.
use log_transfer_analyzer.Prelude.{
  ℕ, ◌+◌, ◌-◌, ◌≡◌, refl, sym, ap, subst, ◌∙◌, ◌⊎◌, inl, inr, Bool, true, false, not, ◌&&◌, ◌||◌,
  ◌==◌, List, [], ◌∷◌, Option, none, some, ==→≡,
}
use log_transfer_analyzer.Session.Steps.{if_any, if_cases}
use log_transfer_analyzer.Manager.Reaping.{Reported, IsReported, step-IsReported}
use log_transfer_analyzer.Manager.{
  Place, waiting, discarded, cleared, finishing, stored, emptied, finished, Visit, Manager,
  listening, has_session, arrived, dispatched, destroyed, accept_if_idle, accept_when_parser_idle,
  on_connection, on_reap, on_completion, consume, find_complete, on_parser, with_session, Deed,
  commits, marks, cleans, closes, Turn, discards, clears, reports, consumes, finds_complete, stores,
  empties, sends, lowers, Event, connects, reaps, abort_done, completes, does, turns, step, run,
}

-- With no session, nobody waits, or the parser thread has a discard to do, or is about to report it,
-- or has reported it.
abbrev pub ServedBy : Option Visit → ℕ → Bool → Place → Bool → Type 0
ServedBy none backlog asked place sent =
    (backlog ≡ 0) ⊎ (asked ≡ true) ⊎ (place ≡ cleared) ⊎ (sent ≡ true)
ServedBy (some v) backlog asked place sent = Unit

abbrev is_cleared : Place → Bool
is_cleared cleared = true
is_cleared _ = false

abbrev pub IsServed : Manager → Type 0
IsServed m =
    ServedBy m.session m.backlog m.parser.abort_requested m.parser.place m.parser.abort_done_sent

accept_if_idle-IsServed :
    (starts : Bool) (session : Option Visit) (m : Manager)
    → m.session ≡ session
    → IsServed (accept_if_idle starts m)
unfolding accept_if_idle
accept_if_idle-IsServed starts (some v) m at =
    if_cases IsServed (has_session m.session)
      (λ _.
        subst
          (λ s.
            ServedBy s m.backlog m.parser.abort_requested m.parser.place m.parser.abort_done_sent)
          (sym at) tt)
      (λ e. absurd (cc (sym (ap has_session at), e)))
accept_if_idle-IsServed starts none m at =
    if_cases IsServed (has_session m.session) (λ e. absurd (cc (sym (ap has_session at), e)))
      (λ _.
        if_cases IsServed (m.backlog == 0)
          (λ e.
            subst
              (λ s.
                ServedBy s m.backlog m.parser.abort_requested m.parser.place
                  m.parser.abort_done_sent)
              (sym at) (inl (==→≡ m.backlog 0 e)))
          (λ _. if_any IsServed starts tt (
            subst (λ s. ServedBy s (m.backlog - 1) true m.parser.place m.parser.abort_done_sent)
              (sym at) (inr (inl refl)))))

asked_ServedBy :
    (session : Option Visit) (backlog : ℕ) (asked : Bool) (place : Place) (sent : Bool)
    → asked ≡ true
    → ServedBy session backlog asked place sent
asked_ServedBy none backlog asked place sent e = inr (inl e)
asked_ServedBy (some v) backlog asked place sent e = tt

accept_when_parser_idle-IsServed :
    (starts : Bool) (m : Manager) → IsServed (accept_when_parser_idle starts m)
unfolding accept_when_parser_idle
accept_when_parser_idle-IsServed starts m =
    if_cases IsServed m.parser.abort_requested
      (λ asked. asked_ServedBy m.session m.backlog _ _ _ asked)
      (λ _. accept_if_idle-IsServed starts m.session m refl)

on_session-IsServed :
    (deed : Deed) (session : Option Visit) (m : Manager)
    → m.session ≡ session
    → IsServed m
    → IsServed (with_session deed session m)
on_session-IsServed deed none m at s = s
on_session-IsServed commits (some v) m at s = if_any IsServed (v.cleaned || v.marked) s s
on_session-IsServed marks (some v) m at s = if_any IsServed (v.cleaned || v.marked) s tt
on_session-IsServed cleans (some v) m at s = if_any IsServed v.cleaned s tt
on_session-IsServed closes (some v) m at s = if_any IsServed (v.cleaned && not v.closed) tt s

-- A report that is due is made by the parser thread itself.
ServedBy-clear :
    (session : Option Visit) (backlog : ℕ) (sent : Bool)
    → ServedBy session backlog false cleared sent
ServedBy-clear none backlog sent = inr (inr (inl refl))
ServedBy-clear (some v) backlog sent = tt

ServedBy-report :
    (session : Option Visit) (backlog : ℕ) (asked : Bool) (place : Place)
    → ServedBy session backlog asked place true
ServedBy-report none backlog asked place = inr (inr (inr refl))
ServedBy-report (some v) backlog asked place = tt

-- A turn that starts elsewhere and leaves the flags alone.
ServedBy-place :
    (session : Option Visit) (backlog : ℕ) (asked : Bool) (place place' : Place) (sent : Bool)
    → is_cleared place ≡ false
    → ServedBy session backlog asked place sent
    → ServedBy session backlog asked place' sent
ServedBy-place (some v) backlog asked place place' sent e s = tt
ServedBy-place none backlog asked place place' sent e (inl none_waits) = inl none_waits
ServedBy-place none backlog asked place place' sent e (inr (inl pending)) = inr (inl pending)
ServedBy-place none backlog asked place place' sent e (inr (inr (inl at))) =
    absurd (cc (sym (ap is_cleared at), e))
ServedBy-place none backlog asked place place' sent e (inr (inr (inr told))) = inr (inr (inr told))

consume-IsServed :
    (ring : List ℕ) (m : Manager)
    → IsServed m
    → IsServed (record m { parser = consume ring m.parser })
consume-IsServed [] m s = s
consume-IsServed (n ∷ ring) m s = s

-- A turn of the parser thread that moves it to another place, from one that is not `cleared`.
moved-IsServed :
    (place place' : Place) (m : Manager)
    → m.parser.place ≡ place
    → is_cleared place ≡ false
    → IsServed m
    → ServedBy m.session m.backlog m.parser.abort_requested place' m.parser.abort_done_sent
moved-IsServed place place' m at e s =
    ServedBy-place m.session m.backlog _ m.parser.place place' _ (ap is_cleared at ∙ e) s

find_complete-IsServed :
    (ring : List ℕ) (m : Manager)
    → m.parser.place ≡ waiting
    → IsServed m
    → IsServed (record m { parser = find_complete ring m.parser })
find_complete-IsServed [] m at s =
    if_any (λ p. IsServed (record m { parser = p })) m.parser.upload_complete
      (moved-IsServed waiting finishing m at refl s) s
find_complete-IsServed (n ∷ ring) m at s = s

on_parser-IsServed :
    (turn : Turn) (place : Place) (m : Manager)
    → m.parser.place ≡ place
    → IsServed m
    → IsServed (record m { parser = on_parser turn place m.parser })
on_parser-IsServed discards waiting m at s =
    if_any (λ p. IsServed (record m { parser = p })) m.parser.abort_requested
      (moved-IsServed waiting discarded m at refl s) s
on_parser-IsServed clears discarded m at s =
    ServedBy-clear m.session m.backlog m.parser.abort_done_sent
on_parser-IsServed reports cleared m at s =
    ServedBy-report m.session m.backlog m.parser.abort_requested waiting
on_parser-IsServed consumes waiting m at s = consume-IsServed m.parser.ring m s
on_parser-IsServed finds_complete waiting m at s = find_complete-IsServed m.parser.ring m at s
on_parser-IsServed stores finishing m at s = moved-IsServed finishing stored m at refl s
on_parser-IsServed empties stored m at s = moved-IsServed stored emptied m at refl s
on_parser-IsServed sends emptied m at s = moved-IsServed emptied finished m at refl s
on_parser-IsServed lowers finished m at s = moved-IsServed finished waiting m at refl s
on_parser-IsServed turn place m at s = s

on_completion-IsServed :
    (session : Option Visit) (m : Manager) → IsServed m → IsServed (on_completion session m)
on_completion-IsServed none m s = s
on_completion-IsServed (some v) m s = s

step-IsServed : (m : Manager) (event : Event) → IsServed m → IsServed (step m event)
unfolding step on_connection on_reap
step-IsServed m (connects starts) s =
    if_cases IsServed (has_session m.session) (λ e. there m.session e)
      (λ _. accept_when_parser_idle-IsServed starts (arrived m))
  where
    there :
        (session : Option Visit)
        → has_session session ≡ true
        → ServedBy session
            (m.backlog + 1)
            m.parser.abort_requested
            m.parser.place
            m.parser.abort_done_sent
    there none e = absurd (cc e)
    there (some v) e = tt
step-IsServed m (reaps starts) s =
    if_any IsServed m.reaping
      (if_any IsServed m.session_finished (accept_when_parser_idle-IsServed starts (destroyed m)) s)
      s
step-IsServed m (abort_done starts) s =
    if_any IsServed m.parser.abort_done_sent
      (accept_when_parser_idle-IsServed starts (dispatched m)) s
step-IsServed m completes s =
    if_any IsServed m.parser.completion_sent (on_completion-IsServed m.session m s) s
step-IsServed m (does deed) s = on_session-IsServed deed m.session m refl s
step-IsServed m (turns turn) s = on_parser-IsServed turn m.parser.place m refl s

-- What takes the manager on to the next connection, by its session: none, with nobody waiting or a
-- discard that the parser thread will do, will report or has reported; one, whose destruction is
-- due exactly when it has reported its closed socket.
abbrev pub Served : Option Visit → Manager → Type 0
Served none m =
    (m.backlog ≡ 0)
    ⊎ (m.parser.abort_requested ≡ true)
    ⊎ (m.parser.place ≡ cleared)
    ⊎ (m.parser.abort_done_sent ≡ true)
Served (some v) m = (m.reaping ≡ v.closed) × (m.session_finished ≡ v.closed)

run-invariants :
    (m : Manager) (events : List Event)
    → IsReported m
    → IsServed m
    → IsReported (run m events) × IsServed (run m events)
unfolding run
run-invariants m [] r s = (r, s)
run-invariants m (event ∷ events) r s =
    run-invariants (step m event) events (step-IsReported m event r) (step-IsServed m event s)

-- After any steps of the loop thread and the parser thread in any order, a connection that waits is
-- taken on: with no session, nobody waits, or the parser thread has a discard to do, or has cleared
-- the request and is about to report it, or has reported it, at which the manager accepts; and the
-- destruction of a session, at which the manager accepts too, is due exactly from the report of its
-- closed socket on.
pub run-Served :
    (events : List Event) → Served (run listening events).session (run listening events)
run-Served events =
    let m = run listening events in
    let (r, s) = run-invariants listening events (refl, refl) (inl refl) in go m.session m refl r s
  where
    go :
        (session : Option Visit) (m : Manager)
        → m.session ≡ session
        → IsReported m
        → IsServed m
        → Served session m
    go none m at r s =
        subst
          (λ t.
            ServedBy t m.backlog m.parser.abort_requested m.parser.place m.parser.abort_done_sent)
          at s
    go (some v) m at r s =
        let (finished', due, _) = subst (λ t. Reported t m.session_finished m.reaping) at r in
        (due, finished')
