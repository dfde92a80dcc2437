-- ===== src/Session/Reading.antt =====
-- The invariant of a session through the reads.
use log_transfer_analyzer.Prelude.{
  ℕ, zero, suc, ◌≡◌, ◌==◌, ◌&&◌, ◌||◌, ltb, if◌then◌else◌, true, false, refl, Bytes, sym, ap, subst,
  ◌∙◌, length, drop, arith, &&_parts, Option, none, some, tests,
}
use log_transfer_analyzer.Net.Timer
use log_transfer_analyzer.Session.{
  Session, SessionState, RetainedResult, wait_header, receiving, verifying, analyzing,
  sending_result, wait_done, cleaned_up, same_state, slot_free, close_silently, unexpected_data_in,
}
use log_transfer_analyzer.Session.Callbacks.{on_allocate, consume_in, consume, read_loop, on_read}
use log_transfer_analyzer.Session.Facts.{InPhase, IsSession, At}
use log_transfer_analyzer.Session.Steps.{if_any, if_cases}
use log_transfer_analyzer.Session.Endings.{Kept-Open, cleanup-IsSession}
use log_transfer_analyzer.Session.Accepts.{consume_header-IsSession}
use log_transfer_analyzer.Session.Trailers.{consume_trailer-IsSession, consume_done-IsSession}
use log_transfer_analyzer.Session.Copies.{consume_payload-IsSession, consume_slot-IsSession}

pub same_state→≡ : (a b : SessionState) → same_state a b ≡ true → a ≡ b
same_state→≡ a b e = ground arith

-- A session in a state that is not the last one is open.
pub IsSession-At :
    (state : SessionState) (s : Session)
    → IsSession s
    → s.state ≡ state
    → same_state state cleaned_up ≡ false
    → At state s
IsSession-At state s (v, flag, _) at other = (live, at, Kept-Open s live v)
  where
    live : s.cleanup_started ≡ false
    live = sym flag ∙ ap (λ st. same_state st cleaned_up) at ∙ other

pub IsSession-phase :
    (state : SessionState) (s : Session)
    → IsSession s
    → s.state ≡ state
    → InPhase (record s { state = state })
IsSession-phase state s v at = subst (λ st. InPhase (record s { state = st })) at v.2

-- What a round of the loop of `onRead` leaves, if it does not close the session itself.
abbrev Consumed : Option (Session × ℕ) → Type 0
Consumed none = Unit
Consumed (some (s, _)) = IsSession s

consume_in-IsSession :
    (state : SessionState) (kept : Option RetainedResult) (s : Session) (data' : Bytes)
    → IsSession s
    → s.state ≡ state
    → Consumed (consume_in state kept s data')
unfolding consume_in
consume_in-IsSession wait_header kept s data' v at =
    let phase = IsSession-phase wait_header s v at in
    consume_header-IsSession kept s data' (IsSession-At wait_header s v at refl, phase.0, phase.1)
consume_in-IsSession receiving kept s data' v at =
    let now = IsSession-At receiving s v at refl in
    let before = IsSession-phase receiving s v at in
    if_cases (λ (p : Session × ℕ). IsSession p.0) (ltb s.received_bytes s.file_size)
      (λ _. consume_payload-IsSession s data' (now, before))
      (λ all. consume_trailer-IsSession s data' (now, grind (tests, v.0.within), before))
consume_in-IsSession wait_done kept s data' v at =
    consume_done-IsSession s data' (IsSession-At wait_done s v at refl)
consume_in-IsSession verifying kept s data' v at = tt
consume_in-IsSession analyzing kept s data' v at = tt
consume_in-IsSession sending_result kept s data' v at = tt
consume_in-IsSession cleaned_up kept s data' v at = tt

-- A round of the loop, followed by any rounds that keep the invariant.
round-IsSession :
    (s : Session) (data' : Bytes) (next : Session → Bytes → Session) (r : Option (Session × ℕ))
    → IsSession s
    → ((s' : Session) (rest : Bytes) → IsSession s' → IsSession (next s' rest))
    → Consumed r
    → IsSession (elim r [
      | none ↦ close_silently (unexpected_data_in s.state) s
      | some round ↦ if round.1 == 0 then round.0 else next round.0 (drop round.1 data')
    ])
unfolding close_silently
round-IsSession s data' next none v ih _ = cleanup-IsSession _ s v
round-IsSession s data' next (some round) v ih v' =
    if_any IsSession (round.1 == 0) v' (ih round.0 (drop round.1 data') v')

read_loop-IsSession :
    (fuel : ℕ) (kept : Option RetainedResult) (s : Session) (data' : Bytes)
    → IsSession s
    → IsSession (read_loop fuel kept s data')
unfolding read_loop consume
read_loop-IsSession zero kept s data' v = v
read_loop-IsSession (suc fuel) kept s data' v =
    if_any IsSession (length data' == 0 || s.cleanup_started || s.close_after_send) v (
      round-IsSession s data' (read_loop fuel kept) (consume kept s data') v
        (λ s' rest v'. read_loop-IsSession fuel kept s' rest v')
        (consume_in-IsSession s.state kept s data' v refl))

pub on_read-IsSession :
    (kept : Option RetainedResult) (s : Session) (data' : Bytes)
    → IsSession s
    → (s.slot_acquired ≡ true → s.state ≡ receiving)
    → IsSession (on_read kept s data')
unfolding on_read
on_read-IsSession kept s data' v slot =
    let active : Session = record s { timer = Timer.restart s.timer; slot_acquired = false } in
    if_cases IsSession s.slot_acquired
      (λ got. consume_slot-IsSession active data' (
        IsSession-At receiving active v (slot got) refl,
        IsSession-phase receiving active v (slot got),
      ))
      (λ _. read_loop-IsSession (length data') kept active data' v)

-- `onAllocate` takes a slot only for a session that receives.
pub on_allocate-IsSession :
    (suggested_size : ℕ) (s : Session)
    → IsSession s
    → IsSession (on_allocate suggested_size s).0
      × ((on_allocate suggested_size s).0.slot_acquired ≡ true
          → (on_allocate suggested_size s).0.state ≡ receiving)
unfolding on_allocate
on_allocate-IsSession suggested_size s v =
    if_cases Granted (same_state s.state receiving && ltb s.received_bytes s.file_size)
      (λ wanted.
        if_any Granted (slot_free s)
          (v, λ _. same_state→≡ s.state receiving (&&_parts _ _ wanted).0) (v, λ e. absurd (cc e)))
      (λ _. (v, λ e. absurd (cc e)))
  where
    Granted : Session × ℕ → Type 0
    Granted (s', _) = IsSession s' × (s'.slot_acquired ≡ true → s'.state ≡ receiving)
