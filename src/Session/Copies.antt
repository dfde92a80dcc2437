-- ===== src/Session/Copies.antt =====
-- The payload that a session hands to the ring keeps its invariant.
use log_transfer_analyzer.Prelude.{
  ℕ, zero, suc, ◌+◌, ◌≡◌, ◌≤◌, ◌==◌, Bool, true, false, refl, [], ◌∷◌, ◌++◌, append-nil,
  append_assoc, take-append-drop, Bytes, sym, ap, ap₂, ◌∙◌, length, length-append, length-take,
  length-drop, tests, take, drop, arith,
}
use log_transfer_analyzer.Crc32.{crc32}
use log_transfer_analyzer.Crc32.Laws.{crc32-append}
use log_transfer_analyzer.Session.{
  Session, receiving, emit, committed, slot_free, asked_slot, no_slot, apply_backpressure,
}
use log_transfer_analyzer.Session.Payload.{
  payload_share, counted, copy_to_slots, consume_payload, consume_slot,
}
use log_transfer_analyzer.Session.Trace.{visible, payload, is_completed}
use log_transfer_analyzer.Session.Facts.{Open, IsSession, At}
use log_transfer_analyzer.Session.Steps.{if_any, if_cases, apply_backpressure-any}
use log_transfer_analyzer.Session.Endings.{cleanup-Open, At-IsSession}
use log_transfer_analyzer.Session.Trailers.{Whole, consume_trailer-IsSession}

-- An open session that receives, its sums aside.
abbrev pub Receiving : Session → Type 0
Receiving s =
    (s.cleanup_started ≡ false)
    × (s.state ≡ receiving)
    × Open true s
    × (is_completed (visible s.effects) ≡ false)

committed-Receiving :
    (bytes : Bytes) (s : Session) → Receiving s → Receiving (emit (committed bytes) s)
committed-Receiving bytes s (live, at, v, before) = (
  live,
  at,
  record {
    within = v.within;
    sums = tt;
    close_flag = v.close_flag;
    abort_flag = v.abort_flag;
    finish_flag = v.finish_flag;
    orderly = ((v.close_flag, before), v.orderly);
  },
  before,
)

-- What the copy loop leaves behind.
abbrev Copied : Session → Bytes → Session × Bool → Type 0
Copied s bytes (s', done) =
    Receiving s'
    × (s'.received_bytes ≡ s.received_bytes)
    × (s'.payload_crc ≡ s.payload_crc)
    × (s'.file_size ≡ s.file_size)
    × (done ≡ true → payload (visible s'.effects) ≡ payload (visible s.effects) ++ bytes)

nil-length : (bytes : Bytes) → (length bytes == 0) ≡ true → bytes ≡ []
nil-length [] e = refl
nil-length (b ∷ bytes) e = absurd (ground arith)

nothing_left :
    (bytes : Bytes) (s : Session) (done : Bool)
    → (done ≡ true → bytes ≡ [])
    → Receiving s
    → Copied s bytes (s, done)
nothing_left bytes s done e r = (
  r,
  refl,
  refl,
  refl,
  λ d. sym (ap (λ b. payload (visible s.effects) ++ b) (e d) ∙ append-nil _),
)

copy_to_slots-Copied :
    (fuel : ℕ) (bytes : Bytes) (s : Session)
    → Receiving s
    → Copied s bytes (copy_to_slots fuel bytes s)
unfolding copy_to_slots
copy_to_slots-Copied zero bytes s r = nothing_left bytes s (length bytes == 0) (nil-length bytes) r
copy_to_slots-Copied (suc fuel) bytes s r =
    let next = emit (committed (take s.chunk_size bytes)) (asked_slot s) in
    let back = drop s.chunk_size bytes in
    let ih : Copied next back (copy_to_slots fuel back next) =
      copy_to_slots-Copied fuel back next (committed-Receiving _ (asked_slot s) r) in
    if_cases (Copied s bytes) (length bytes == 0)
      (λ e. nothing_left bytes s true (λ _. nil-length bytes e) r)
      (λ _.
        if_any (Copied s bytes) (slot_free s)
          (
            ih.0,
            ih.1,
            ih.2,
            ih.3,
            λ e.
                ih.4 e
                ∙ append_assoc (payload (visible s.effects)) (take s.chunk_size bytes) back
                ∙ ap (λ b. payload (visible s.effects) ++ b) (take-append-drop s.chunk_size bytes),
          )
          (r, refl, refl, refl, λ e. absurd (cc e)))

share-within :
    (s : Session) (data' : Bytes)
    → s.received_bytes ≤ s.file_size
    → s.received_bytes + payload_share s data' ≤ s.file_size
share-within s data' h = omega arith

length-share :
    (s : Session) (data' : Bytes)
    → length (take (payload_share s data') data') ≡ payload_share s data'
length-share s data' = omega (arith, length-take (payload_share s data') data')

-- The sums follow the payload's share of the bytes, once the parser thread has it.
summed :
    (s s' : Session) (data' : Bytes)
    → At receiving s
    → Receiving s'
    → s'.received_bytes ≡ (counted s data').received_bytes
    → s'.payload_crc ≡ (counted s data').payload_crc
    → payload (visible s'.effects)
      ≡ payload (visible s.effects) ++ take (payload_share s data') data'
    → At receiving s'
summed s s' data' (_, _, v) (live, at, v', _) count check got = (
  live,
  at,
  record {
    within = v'.within;
    sums = (
      count
          ∙ ap₂ (λ m n. m + n) v.sums.0 (sym (length-share s data'))
          ∙ sym (length-append (payload (visible s.effects)) _)
          ∙ ap length (sym got),
      check
          ∙ ap (λ c. crc32 c (take (payload_share s data') data')) v.sums.1
          ∙ crc32-append 0 (payload (visible s.effects)) _
          ∙ ap (crc32 0) (sym got),
    );
    close_flag = v'.close_flag;
    abort_flag = v'.abort_flag;
    finish_flag = v'.finish_flag;
    orderly = v'.orderly;
  },
)

counted-Receiving :
    (s : Session) (data' : Bytes)
    → At receiving s
    → is_completed (visible s.effects) ≡ false
    → Receiving (counted s data')
counted-Receiving s data' (live, at, v) before = (
  live,
  at,
  record {
    within = share-within s data' v.within;
    sums = tt;
    close_flag = v.close_flag;
    abort_flag = v.abort_flag;
    finish_flag = v.finish_flag;
    orderly = v.orderly;
  },
  before,
)

-- A session that receives, its sums right.
abbrev pub Summed : Session → Type 0
Summed s = At receiving s × (is_completed (visible s.effects) ≡ false)

Summed-apply_backpressure : (s : Session) → Summed s → Summed (apply_backpressure s)
Summed-apply_backpressure s h =
    apply_backpressure-any Summed
      (record { moved = λ s' socket answers same v. v; stopped = λ s' b v. v }) s h

pub consume_payload-IsSession :
    (s : Session) (data' : Bytes) → Summed s → IsSession (consume_payload s data').0
unfolding consume_payload
consume_payload-IsSession s data' (at, before) =
    if_cases (λ (p : Session × ℕ). IsSession p.0) copied.1
      (λ done.
        let good =
          Summed-apply_backpressure copied.0
            (summed s copied.0 data' at c.0 c.1 c.2 (c.4 done), c.0.3) in
        At-IsSession receiving (apply_backpressure copied.0) good.0 refl good.1)
      (λ _. cleanup-Open true no_slot copied.0 c.0.0 c.0.2)
  where
    bytes : Bytes
    bytes = take (payload_share s data') data'

    copied : Session × Bool
    copied = copy_to_slots (length bytes) bytes (counted s data')

    c : Copied (counted s data') bytes copied
    c = copy_to_slots-Copied (length bytes) bytes _ (counted-Receiving s data' at before)

pub consume_slot-IsSession :
    (s : Session) (data' : Bytes) → Summed s → IsSession (consume_slot s data')
unfolding consume_slot
consume_slot-IsSession s data' (at, before) =
    if_cases IsSession (length (drop (payload_share s data') data') == 0)
      (λ _. At-IsSession receiving (apply_backpressure s') good.0 refl good.1)
      (λ more.
        consume_trailer-IsSession (apply_backpressure s') (drop (payload_share s data') data')
          (whole more))
  where
    s' : Session
    s' = emit (committed (take (payload_share s data') data')) (counted s data')

    r : Receiving s'
    r =
        committed-Receiving (take (payload_share s data') data') (counted s data')
          (counted-Receiving s data' at before)

    -- There is a tail only behind the whole payload.
    all :
        (length (drop (payload_share s data') data') == 0) ≡ false → s'.received_bytes ≡ s.file_size
    all more = grind (tests, length-drop (payload_share s data') data', (at.2).within)

    whole :
        (length (drop (payload_share s data') data') == 0) ≡ false
        → Whole receiving (apply_backpressure s')
    whole more =
        apply_backpressure-any (Whole receiving)
          (record { moved = λ t socket answers same v. v; stopped = λ t b v. v }) s'
          (summed s s' data' at r refl refl refl, all more, before)

    good : Summed (apply_backpressure s')
    good = Summed-apply_backpressure s' (summed s s' data' at r refl refl refl, before)
