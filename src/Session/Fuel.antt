-- ===== src/Session/Fuel.antt =====
-- The loops of `onRead` and `consumePayload` end before their fuel does.
use log_transfer_analyzer.Prelude.{
  ℕ, zero, suc, ◌≡◌, ◌≤◌, ◌<◌, ◌==◌, ◌||◌, if◌then◌else◌, true, false, refl, ap, [], ◌∷◌, Bytes,
  length, length-drop, take, drop, Option, none, some, arith, tests,
}
use log_transfer_analyzer.Session.{
  Session, RetainedResult, close_silently, unexpected_data_in, emit, committed, asked_slot,
  slot_free,
}
use log_transfer_analyzer.Session.Payload.{copy_to_slots}
use log_transfer_analyzer.Session.Callbacks.{consume, read_loop}
use log_transfer_analyzer.Session.Steps.{if_cases}

-- Two continuations of a round that agree on shorter inputs.
round-same :
    (s : Session) (data' : Bytes) (f g : Session → Bytes → Session) (r : Option (Session × ℕ))
    → ((s' : Session) (n : ℕ) → 0 < n → f s' (drop n data') ≡ g s' (drop n data'))
    → elim r as (λ _. Session) [
      | none ↦ close_silently (unexpected_data_in s.state) s
      | some round ↦ if round.1 == 0 then round.0 else f round.0 (drop round.1 data')
    ]
      ≡ elim r [
        | none ↦ close_silently (unexpected_data_in s.state) s
        | some round ↦ if round.1 == 0 then round.0 else g round.0 (drop round.1 data')
      ]
round-same s data' f g none same = refl
round-same s data' f g (some (s', n)) same =
    if_cases (λ t. t ≡ (if n == 0 then s' else g s' (drop n data'))) (n == 0)
      (λ z. if_cases (λ t. s' ≡ t) (n == 0) (λ _. refl) (λ z'. absurd (cc (z, z'))))
      (λ p.
        if_cases (λ t. f s' (drop n data') ≡ t) (n == 0) (λ p'. absurd (cc (p, p')))
          (λ _. same s' n (grind tests)))

-- The length of the bytes is enough fuel for the loop of `onRead`: with any more it does the same.
pub read_loop_fuel :
    (fuel more : ℕ) (kept : Option RetainedResult) (s : Session) (data' : Bytes)
    → length data' ≤ fuel
    → length data' ≤ more
    → read_loop fuel kept s data' ≡ read_loop more kept s data'
unfolding read_loop
read_loop_fuel zero zero kept s data' h h' = refl
read_loop_fuel zero (suc more) kept s [] h h' = refl
read_loop_fuel zero (suc more) kept s (b ∷ data') h h' = absurd (omega arith)
read_loop_fuel (suc fuel) zero kept s [] h h' = refl
read_loop_fuel (suc fuel) zero kept s (b ∷ data') h h' = absurd (omega arith)
read_loop_fuel (suc fuel) (suc more) kept s data' h h' =
    ap (λ t. if length data' == 0 || s.cleanup_started || s.close_after_send then s else t)
      (round-same s data' (read_loop fuel kept) (read_loop more kept) (consume kept s data')
        (λ s' n positive.
          read_loop_fuel fuel more kept s' (drop n data') (omega (arith, length-drop n data'))
            (omega (arith, length-drop n data'))))

-- With slots of at least a byte, the length of the payload is enough fuel for the copy loop.
pub copy_to_slots_fuel :
    (fuel more : ℕ) (payload : Bytes) (s : Session)
    → 0 < s.chunk_size
    → length payload ≤ fuel
    → length payload ≤ more
    → copy_to_slots fuel payload s ≡ copy_to_slots more payload s
unfolding copy_to_slots
copy_to_slots_fuel zero zero payload s positive h h' = refl
copy_to_slots_fuel zero (suc more) [] s positive h h' = refl
copy_to_slots_fuel zero (suc more) (b ∷ payload) s positive h h' = absurd (omega arith)
copy_to_slots_fuel (suc fuel) zero [] s positive h h' = refl
copy_to_slots_fuel (suc fuel) zero (b ∷ payload) s positive h h' = absurd (omega arith)
copy_to_slots_fuel (suc fuel) (suc more) payload s positive h h' =
    ap
      (λ t.
        if length payload == 0 then (s, true) else if slot_free s then t else (asked_slot s, false))
      (copy_to_slots_fuel fuel more (drop s.chunk_size payload)
        (emit (committed (take s.chunk_size payload)) (asked_slot s)) positive
        (omega (arith, length-drop s.chunk_size payload))
        (omega (arith, length-drop s.chunk_size payload)))
