-- ===== src/Manager/Isolation.antt =====
-- Sessions do not mix: what the parser thread holds are the bytes of one session.
use log_transfer_analyzer.Prelude.{
  ℕ, ◌≡◌, refl, sym, ap, subst, ◌∙◌, ◌⊎◌, inl, inr, Bool, true, false, not, ◌&&◌, ◌||◌, ◌==◌, List,
  [], ◌∷◌, ◌++◌, Option, none, some, All, All-append, arith,
}
use log_transfer_analyzer.Session.Steps.{if_any, if_cases}
use log_transfer_analyzer.Manager.Reaping.{IsReported, Reported-finished, step-IsReported}
use log_transfer_analyzer.Manager.{
  Place, waiting, discarded, cleared, finishing, stored, emptied, finished, Parser, Visit, Manager,
  listening, begin_session, abort_session, commit_slot, mark_upload_complete, has_session, arrived,
  dispatched, destroyed, accept_if_idle, accept_when_parser_idle, on_connection, on_reap,
  on_completion, consume, find_complete, on_parser, with_session, Deed, commits, marks, cleans,
  closes, Turn, discards, clears, reports, consumes, finds_complete, stores, empties, sends, lowers,
  Event, connects, reaps, abort_done, completes, does, turns, step, run,
}

-- Every chunk is of the session with that number.
abbrev pub Of : ℕ → List ℕ → Type 0
Of n chunks = All (λ k. k ≡ n) chunks

abbrev pub Holds : ℕ → Parser → Type 0
Holds n p = Of n p.ring × Of n p.consumed

-- Nothing is held, or it will be discarded before a session starts.
abbrev pub Discardable : Bool → List ℕ → List ℕ → Type 0
Discardable asked ring consumed = (asked ≡ true) ⊎ ((ring ≡ []) × (consumed ≡ []))

abbrev pub IsQuiet : Parser → Type 0
IsQuiet p = Discardable p.abort_requested p.ring p.consumed

abbrev pub SettledBy : Bool → Bool → List ℕ → List ℕ → Type 0
SettledBy false asked ring consumed = asked ≡ false
SettledBy true asked ring consumed = Discardable asked ring consumed

abbrev pub Settled : Bool → Parser → Type 0
Settled cleaned p = SettledBy cleaned p.abort_requested p.ring p.consumed

abbrev pub OwnedBy : Option Visit → Bool → List ℕ → List ℕ → Type 0
OwnedBy none asked ring consumed =
    ((n : ℕ) × Of n ring × Of n consumed) × Discardable asked ring consumed
OwnedBy (some v) asked ring consumed =
    (Of v.number ring × Of v.number consumed) × SettledBy v.cleaned asked ring consumed

-- What the parser thread holds is of the session that is there, or of the last one. No discard is
-- pending while a session is open; a discard is pending, or nothing is held, once it has cleaned up.
abbrev pub Owned : Option Visit → Parser → Type 0
Owned session p = OwnedBy session p.abort_requested p.ring p.consumed

-- Behind the reset of an abort the request is still there.
abbrev pub PlacedBy : Place → Bool → List ℕ → List ℕ → Type 0
PlacedBy discarded asked ring consumed = (asked ≡ true) × (ring ≡ []) × (consumed ≡ [])
PlacedBy _ asked ring consumed = Unit

abbrev pub AtPlace : Place → Parser → Type 0
AtPlace place p = PlacedBy place p.abort_requested p.ring p.consumed

-- The result that is not dispatched is of one session too.
abbrev pub IsIsolated : Manager → Type 0
IsIsolated m =
    Owned m.session m.parser × AtPlace m.parser.place m.parser × ((n : ℕ) × Of n m.parser.result)

-- No place speaks of an open session.
AtPlace-open :
    (place : Place) (p p' : Parser) → p.abort_requested ≡ false → AtPlace place p → AtPlace place p'
AtPlace-open discarded p p' live at = absurd (cc (live, at.0))
AtPlace-open waiting p p' live at = tt
AtPlace-open cleared p p' live at = tt
AtPlace-open finishing p p' live at = tt
AtPlace-open emptied p p' live at = tt
AtPlace-open stored p p' live at = tt
AtPlace-open finished p p' live at = tt

quiet_empty :
    (p : Parser) → p.abort_requested ≡ false → IsQuiet p → (p.ring ≡ []) × (p.consumed ≡ [])
quiet_empty p live (inl asked) = absurd (cc (live, asked))
quiet_empty p live (inr nothing) = nothing

-- An abort keeps what holds of a place.
AtPlace-abort_session :
    (place : Place) (p : Parser) → AtPlace place p → AtPlace place (abort_session p)
AtPlace-abort_session discarded p at = (refl, at.1, at.2)
AtPlace-abort_session waiting p at = tt
AtPlace-abort_session cleared p at = tt
AtPlace-abort_session finishing p at = tt
AtPlace-abort_session emptied p at = tt
AtPlace-abort_session stored p at = tt
AtPlace-abort_session finished p at = tt

-- A session that starts finds nothing held.
accept_if_idle-IsIsolated :
    (starts : Bool) (session : Option Visit) (m : Manager)
    → m.session ≡ session
    → m.parser.abort_requested ≡ false
    → IsIsolated m
    → IsIsolated (accept_if_idle starts m)
unfolding accept_if_idle
accept_if_idle-IsIsolated starts (some v) m at live i =
    if_cases IsIsolated (has_session m.session) (λ _. i)
      (λ e. absurd (cc (sym (ap has_session at), e)))
accept_if_idle-IsIsolated starts none m at live (own, place, result) =
    if_any IsIsolated (has_session m.session) (own, place, result)
      (if_any IsIsolated (m.backlog == 0) (own, place, result)
        (if_any IsIsolated starts
          (
            (
              (subst (Of m.created) (sym nothing.0) tt, subst (Of m.created) (sym nothing.1) tt),
              live,
            ),
            AtPlace-open m.parser.place m.parser (begin_session m.parser) live place,
            result,
          )
          (
            subst (λ s. Owned s (abort_session m.parser)) (sym at) (own'.0, inl refl),
            AtPlace-abort_session m.parser.place m.parser place,
            result,
          )))
  where
    own' : Owned none m.parser
    own' = subst (λ s. Owned s m.parser) at own

    nothing : (m.parser.ring ≡ []) × (m.parser.consumed ≡ [])
    nothing = quiet_empty m.parser live own'.1

accept_when_parser_idle-IsIsolated :
    (starts : Bool) (m : Manager) → IsIsolated m → IsIsolated (accept_when_parser_idle starts m)
unfolding accept_when_parser_idle
accept_when_parser_idle-IsIsolated starts m i =
    if_cases IsIsolated m.parser.abort_requested (λ _. i)
      (λ live. accept_if_idle-IsIsolated starts m.session m refl live i)

-- A session that is gone leaves what it held.
Owned-none : (v : Visit) (p : Parser) → v.cleaned ≡ true → Owned (some v) p → Owned none p
Owned-none v p over (held, settled) =
    ((v.number, held.0, held.1), subst (λ c. Settled c p) over settled)

-- The same parts of the parser thread under the steps that do not touch them.
Owned-some :
    (v : Visit) (m : Manager)
    → m.session ≡ some v
    → Owned m.session m.parser
    → Owned (some v) m.parser
Owned-some v m at own = subst (λ s. Owned s m.parser) at own

-- An open session with the parser thread after a step of the session.
Settled-open :
    (v : Visit) (p p' : Parser)
    → v.cleaned ≡ false
    → p'.abort_requested ≡ p.abort_requested
    → Settled v.cleaned p
    → (p.abort_requested ≡ false) × Settled v.cleaned p'
Settled-open v p p' live same settled =
    let asked : p.abort_requested ≡ false = subst (λ c. Settled c p) live settled in
    (asked, subst (λ c. Settled c p') (sym live) (same ∙ asked))

on_session-IsIsolated :
    (deed : Deed) (session : Option Visit) (m : Manager)
    → m.session ≡ session
    → IsIsolated m
    → IsIsolated (with_session deed session m)
on_session-IsIsolated deed none m at i = i
on_session-IsIsolated commits (some v) m at (own, place, result) =
    if_cases IsIsolated (v.cleaned || v.marked) (λ _. (own, place, result))
      λ live.
        let (held, settled) = Owned-some v m at own in
        let p' = commit_slot v.number m.parser in
        let (asked, settled') = Settled-open v m.parser p' (ground arith) refl settled in
        let own' : Owned (some v) p' = (
          (All-append (λ k. k ≡ v.number) m.parser.ring (v.number ∷ []) held.0 (refl, tt), held.1),
          settled',
        ) in
        (
          subst (λ s. Owned s p') (sym at) own',
          AtPlace-open m.parser.place m.parser p' asked place,
          result,
        )
on_session-IsIsolated marks (some v) m at (own, place, result) =
    if_cases IsIsolated (v.cleaned || v.marked) (λ _. (own, place, result))
      λ live.
        let (held, settled) = Owned-some v m at own in
        let p' = mark_upload_complete m.parser in
        let (asked, settled') = Settled-open v m.parser p' (ground arith) refl settled in
        ((held, settled'), AtPlace-open m.parser.place m.parser p' asked place, result)
on_session-IsIsolated cleans (some v) m at (own, place, result) =
    if_cases IsIsolated v.cleaned (λ _. (own, place, result))
      λ live.
        let (held, _) = Owned-some v m at own in
        ((held, inl refl), AtPlace-abort_session m.parser.place m.parser place, result)
on_session-IsIsolated closes (some v) m at (own, place, result) =
    if_any IsIsolated (v.cleaned && not v.closed) (Owned-some v m at own, place, result)
      (own, place, result)

on_completion-IsIsolated :
    (session : Option Visit) (m : Manager)
    → m.session ≡ session
    → IsIsolated m
    → IsIsolated (on_completion session m)
on_completion-IsIsolated none m at (own, place, _) = (own, place, (0, tt))
on_completion-IsIsolated (some v) m at (own, place, _) = (own, place, (0, tt))

-- Whoever the session is, an empty ring is its own, and so is a ring whose front was consumed.
OwnedBy-reset :
    (session : Option Visit) (asked : Bool) (ring consumed : List ℕ)
    → OwnedBy session asked ring consumed
    → OwnedBy session asked [] []
OwnedBy-reset none asked ring consumed own = ((0, tt, tt), inr (refl, refl))
OwnedBy-reset (some v) asked ring consumed (held, settled) = ((tt, tt), go v.cleaned settled)
  where
    go : (c : Bool) → SettledBy c asked ring consumed → SettledBy c asked [] []
    go false settled = settled
    go true settled = inr (refl, refl)

OwnedBy-consume :
    (session : Option Visit) (asked : Bool) (n : ℕ) (ring consumed : List ℕ)
    → OwnedBy session asked (n ∷ ring) consumed
    → OwnedBy session asked ring (consumed ++ (n ∷ []))
OwnedBy-consume none asked n ring consumed ((k, front, held), quiet) =
    ((k, front.1, All-append _ consumed (n ∷ []) held (front.0, tt)), go quiet)
  where
    go : Discardable asked (n ∷ ring) consumed → Discardable asked ring (consumed ++ (n ∷ []))
    go (inl e) = inl e
    go (inr (e, _)) = absurd (cc e)
OwnedBy-consume (some v) asked n ring consumed ((front, held), settled) =
    ((front.1, All-append _ consumed (n ∷ []) held (front.0, tt)), go v.cleaned settled)
  where
    go :
        (c : Bool)
        → SettledBy c asked (n ∷ ring) consumed
        → SettledBy c asked ring (consumed ++ (n ∷ []))
    go false settled = settled
    go true (inl e) = inl e
    go true (inr (e, _)) = absurd (cc e)

-- What was consumed makes a result of one session.
OwnedBy-consumed :
    (session : Option Visit) (asked : Bool) (ring consumed : List ℕ)
    → OwnedBy session asked ring consumed
    → (n : ℕ) × Of n consumed
OwnedBy-consumed none asked ring consumed ((n, _, held), _) = (n, held)
OwnedBy-consumed (some v) asked ring consumed ((_, held), _) = (v.number, held)

consume-IsIsolated :
    (m : Manager) (ring : List ℕ)
    → m.parser.ring ≡ ring
    → m.parser.place ≡ waiting
    → IsIsolated m
    → IsIsolated (record m { parser = consume ring m.parser })
consume-IsIsolated m [] e at i = i
consume-IsIsolated m (n ∷ ring) e at (own, place, result) = (
  OwnedBy-consume m.session m.parser.abort_requested n ring m.parser.consumed
      (subst (λ r. OwnedBy m.session m.parser.abort_requested r m.parser.consumed) e own),
  subst (λ k. PlacedBy k m.parser.abort_requested ring (m.parser.consumed ++ (n ∷ []))) (sym at) tt,
  result,
)

-- A discard that is done leaves nothing to discard.
OwnedBy-clear :
    (session : Option Visit) (asked : Bool) (ring consumed : List ℕ)
    → (ring ≡ []) × (consumed ≡ [])
    → OwnedBy session asked ring consumed
    → OwnedBy session false ring consumed
OwnedBy-clear none asked ring consumed nothing (held, _) = (held, inr nothing)
OwnedBy-clear (some v) asked ring consumed nothing (held, settled) = (held, go v.cleaned settled)
  where
    go : (c : Bool) → SettledBy c asked ring consumed → SettledBy c false ring consumed
    go false settled = refl
    go true settled = inr nothing

find_complete-IsIsolated :
    (m : Manager) (ring : List ℕ)
    → m.parser.place ≡ waiting
    → IsIsolated m
    → IsIsolated (record m { parser = find_complete ring m.parser })
find_complete-IsIsolated m [] at (own, place, result) =
    if_any (λ p. IsIsolated (record m { parser = p })) m.parser.upload_complete (own, tt, result)
      (own, place, result)
find_complete-IsIsolated m (n ∷ ring) at i = i

-- The turns of the parser thread.
on_parser-IsIsolated :
    (turn : Turn) (place : Place) (m : Manager)
    → m.parser.place ≡ place
    → IsIsolated m
    → IsIsolated (record m { parser = on_parser turn place m.parser })
on_parser-IsIsolated discards waiting m at (own, place, result) =
    if_cases (λ p. IsIsolated (record m { parser = p })) m.parser.abort_requested
      (λ asked. (
        OwnedBy-reset m.session _ m.parser.ring m.parser.consumed own,
        (asked, refl, refl),
        result,
      ))
      (λ _. (own, place, result))
on_parser-IsIsolated clears discarded m at (own, place, result) =
    let (_, no_ring, none_consumed) =
      subst (λ k. PlacedBy k m.parser.abort_requested m.parser.ring m.parser.consumed) at place in
    (
      OwnedBy-clear m.session m.parser.abort_requested m.parser.ring m.parser.consumed
          (no_ring, none_consumed) own,
      tt,
      result,
    )
on_parser-IsIsolated reports cleared m at (own, place, result) = (own, tt, result)
on_parser-IsIsolated consumes waiting m at i = consume-IsIsolated m m.parser.ring refl at i
on_parser-IsIsolated finds_complete waiting m at i = find_complete-IsIsolated m m.parser.ring at i
on_parser-IsIsolated stores finishing m at (own, place, result) = (
  own,
  tt,
  OwnedBy-consumed m.session m.parser.abort_requested m.parser.ring m.parser.consumed own,
)
on_parser-IsIsolated empties stored m at (own, place, result) =
    (OwnedBy-reset m.session _ m.parser.ring m.parser.consumed own, tt, result)
on_parser-IsIsolated sends emptied m at (own, place, result) = (own, tt, result)
on_parser-IsIsolated lowers finished m at (own, place, result) = (own, tt, result)
on_parser-IsIsolated turn place m at i = i

step-IsIsolated :
    (m : Manager) (event : Event) → IsReported m → IsIsolated m → IsIsolated (step m event)
unfolding step on_connection on_reap
step-IsIsolated m (connects starts) r i =
    if_any IsIsolated (has_session m.session) i
      (accept_when_parser_idle-IsIsolated starts (arrived m) i)
step-IsIsolated m (reaps starts) r i =
    if_any IsIsolated m.reaping
      (if_cases IsIsolated m.session_finished
        (λ e.
          let (v, at, over) = Reported-finished m.session m.session_finished m.reaping r e in
          accept_when_parser_idle-IsIsolated starts (destroyed m)
            (Owned-none v m.parser over (Owned-some v m at i.0), i.1, i.2))
        (λ _. i))
      i
step-IsIsolated m (abort_done starts) r i =
    if_any IsIsolated m.parser.abort_done_sent
      (accept_when_parser_idle-IsIsolated starts (dispatched m) i) i
step-IsIsolated m completes r i =
    if_any IsIsolated m.parser.completion_sent (on_completion-IsIsolated m.session m refl i) i
step-IsIsolated m (does deed) r i = on_session-IsIsolated deed m.session m refl i
step-IsIsolated m (turns turn) r i = on_parser-IsIsolated turn m.parser.place m refl i

run-both :
    (m : Manager) (events : List Event) → IsReported m → IsIsolated m → IsIsolated (run m events)
unfolding run
run-both m [] r i = i
run-both m (event ∷ events) r i =
    run-both (step m event) events (step-IsReported m event r) (step-IsIsolated m event r i)

-- After any steps of the loop thread and the parser thread in any order: the chunks that the parser
-- thread holds, in the ring and consumed, are of one session; while a session is there, they are its
-- own, and until it cleans up no discard is pending; once it has cleaned up, or is gone, a discard is
-- pending or nothing is held, so that the next one starts with nothing. A result that is not
-- dispatched is of one session only, which may be an earlier one than the session that is there.
pub run-IsIsolated : (events : List Event) → IsIsolated (run listening events)
run-IsIsolated events =
    run-both listening events (refl, refl) (((0, tt, tt), inr (refl, refl)), tt, (0, tt))
