-- ===== src/Session/Reads.antt =====
-- server/session/Session.cpp: the loop of `onRead` as a relation, which knows no fuel: what each round
-- takes, and what the loop leaves.
use log_transfer_analyzer.Prelude.{
  ℕ, zero, suc, ◌+◌, ◌-◌, ◌≡◌, ◌≤◌, ◌<◌, ◌==◌, ◌||◌, ltb, min, if◌then◌else◌, true, false, Bool,
  refl, sym, subst, ◌++◌, Bytes, length, length-drop, take, drop, Option, none, some, arith, tests,
}
use log_transfer_analyzer.Protocol.{MessageType, type_code}
use log_transfer_analyzer.Protocol.Codec.{
  Decoded, ok, err, need_more_data, bad_magic, bad_version, bad_type, bad_value, DecodeStatus,
  decode_upload_header,
}
use log_transfer_analyzer.Protocol.Framer.{
  Framer, Verdict, stop, aim, judge, feed_loop, is_waiting, feed, type_byte,
}
use log_transfer_analyzer.Protocol.{UploadHeader}
use log_transfer_analyzer.Session.{
  Session, SessionState, RetainedResult, wait_header, receiving, verifying, analyzing,
  sending_result, wait_done, cleaned_up, close_silently, unexpected_data_in,
}
use log_transfer_analyzer.Session.Messages.{
  fed, fed_bytes, consume_header, header_fed, header_decoded, consume_trailer, trailer_fed,
  consume_done, done_fed,
}
use log_transfer_analyzer.Session.Payload.{payload_share, counted, copy_to_slots, consume_payload}
use log_transfer_analyzer.Session.Callbacks.{consume_in, consume, read_loop}
use log_transfer_analyzer.Session.Steps.{if_any, if_cases}

-- The state has no reader.
abbrev pub IsDeaf : SessionState → Type 0
IsDeaf wait_header = ⊥
IsDeaf receiving = ⊥
IsDeaf wait_done = ⊥
IsDeaf _ = Unit

-- What a round takes, by the state: the session after it, and the bytes consumed.
pub data Takes (kept : Option RetainedResult) (s : Session) (data' : Bytes)
    : Session × ℕ → Type 0 where
  header : s.state ≡ wait_header → Takes kept s data' (consume_header kept s data')
  payload :
      s.state ≡ receiving
      → s.received_bytes < s.file_size
      → Takes kept s data' (consume_payload s data')
  trailer :
      s.state ≡ receiving
      → s.file_size ≤ s.received_bytes
      → Takes kept s data' (consume_trailer s data')
  confirmation : s.state ≡ wait_done → Takes kept s data' (consume_done s data')

abbrev pub has_ended : Session → Bytes → Bool
has_ended s data' = length data' == 0 || s.cleanup_started || s.close_after_send

-- What the loop leaves: it is over; the state has no reader, and the session closes; a round consumes
-- nothing; or it consumes some of the bytes that are there, and the loop goes on behind them.
pub data Reads (kept : Option RetainedResult) : Session → Bytes → Session → Type 0 where
  over : {s : Session} {data' : Bytes} → has_ended s data' ≡ true → Reads kept s data' s
  unexpected :
      {s : Session} {data' : Bytes}
      → has_ended s data' ≡ false
      → IsDeaf s.state
      → Reads kept s data' (close_silently (unexpected_data_in s.state) s)
  ends :
      {s : Session} {data' : Bytes} {p : Session × ℕ}
      → has_ended s data' ≡ false
      → Takes kept s data' p
      → p.1 ≡ 0
      → Reads kept s data' p.0
  goes :
      {s : Session} {data' : Bytes} {p : Session × ℕ} {t : Session}
      → has_ended s data' ≡ false
      → Takes kept s data' p
      → 0 < p.1
      → p.1 ≤ length data'
      → Reads kept p.0 (drop p.1 data') t
      → Reads kept s data' t

-- A round of the loop of `feed`, followed by any rounds that consume no more than there is.
feed_round_bounded :
    (verdict : Verdict) (fr : Framer) (data' : Bytes) (consumed : ℕ)
    (next : Framer → Bytes → ℕ → Framer × ℕ)
    → ((fr' : Framer) (rest : Bytes) (n : ℕ) → (next fr' rest n).1 ≤ n + length rest)
    → (elim verdict as (λ _. Framer × ℕ) [
      | stop st ↦ (record fr { status = st }, consumed)
      | aim target ↦
          let n = min (target - length fr.buffer) (length data') in
          elim (length data' == 0) [
            | true ↦ (fr, consumed)
            | false ↦
                next
                  (record fr { buffer = fr.buffer ++ take n data' })
                  (drop n data')
                  (consumed + n)
          ]
    ]).1
      ≤ consumed + length data'
feed_round_bounded (stop st) fr data' consumed next h = omega arith
feed_round_bounded (aim target) fr data' consumed next h = go (length data' == 0)
  where
    n : ℕ
    n = min (target - length fr.buffer) (length data')

    more : Framer × ℕ
    more = next (record fr { buffer = fr.buffer ++ take n data' }) (drop n data') (consumed + n)

    go :
        (empty : Bool)
        → (elim empty as (λ _. Framer × ℕ) [ true ↦ (fr, consumed) | false ↦ more ]).1
          ≤ consumed + length data'
    go true = omega arith
    go false = omega (
      arith,
      length-drop n data',
      h (record fr { buffer = fr.buffer ++ take n data' }) (drop n data') (consumed + n),
    )

-- A framer consumes no more than there is.
feed_loop_bounded :
    (fuel : ℕ) (fr : Framer) (data' : Bytes) (consumed : ℕ)
    → (feed_loop fuel fr data' consumed).1 ≤ consumed + length data'
unfolding feed_loop
feed_loop_bounded zero fr data' consumed = omega arith
feed_loop_bounded (suc fuel) fr data' consumed =
    feed_round_bounded (judge fr) fr data' consumed (feed_loop fuel)
      (λ fr' rest n. feed_loop_bounded fuel fr' rest n)

pub feed_bounded : (fr : Framer) (data' : Bytes) → (feed fr data').1 ≤ length data'
unfolding feed
feed_bounded fr data' =
    if_any (λ (p : Framer × ℕ). p.1 ≤ length data') (is_waiting fr.status)
      (omega (arith, feed_loop_bounded (length data' + 1) fr data' 0)) (omega arith)

-- What a reader returns is no more than there is.
abbrev Within : ℕ → Session × ℕ → Type 0
Within n p = p.1 ≤ n

header_decoded-Within :
    (header : Decoded UploadHeader) (consumed n : ℕ) (s : Session)
    → consumed ≤ n
    → Within n (header_decoded header consumed s)
unfolding header_decoded
header_decoded-Within (ok _) consumed n s h = h
header_decoded-Within (err need_more_data) consumed n s h = omega arith
header_decoded-Within (err bad_magic) consumed n s h = omega arith
header_decoded-Within (err bad_version) consumed n s h = omega arith
header_decoded-Within (err bad_type) consumed n s h = omega arith
header_decoded-Within (err bad_value) consumed n s h = omega arith

header_fed-Within :
    (kept : Option RetainedResult) (status : DecodeStatus) (consumed n : ℕ) (s : Session)
    → consumed ≤ n
    → Within n (header_fed kept status consumed s)
unfolding header_fed
header_fed-Within kept (err need_more_data) consumed n s h = h
header_fed-Within kept (err bad_magic) consumed n s h = omega arith
header_fed-Within kept (err bad_version) consumed n s h = omega arith
header_fed-Within kept (err bad_type) consumed n s h = omega arith
header_fed-Within kept (err bad_value) consumed n s h = omega arith
header_fed-Within kept (ok _) consumed n s h =
    if_any (Within n) (type_byte s.framer.buffer == type_code MessageType.result_request) h
      (header_decoded-Within (decode_upload_header s.framer.buffer) consumed n s h)

trailer_fed-Within :
    (status : DecodeStatus) (consumed n : ℕ) (s : Session)
    → consumed ≤ n
    → Within n (trailer_fed status consumed s)
unfolding trailer_fed
trailer_fed-Within (err need_more_data) consumed n s h = h
trailer_fed-Within (err bad_magic) consumed n s h = omega arith
trailer_fed-Within (err bad_version) consumed n s h = omega arith
trailer_fed-Within (err bad_type) consumed n s h = omega arith
trailer_fed-Within (err bad_value) consumed n s h = omega arith
trailer_fed-Within (ok _) consumed n s h = h

done_fed-Within :
    (status : DecodeStatus) (consumed n : ℕ) (s : Session)
    → consumed ≤ n
    → Within n (done_fed status consumed s)
unfolding done_fed
done_fed-Within (err need_more_data) consumed n s h = h
done_fed-Within (err bad_magic) consumed n s h = omega arith
done_fed-Within (err bad_version) consumed n s h = omega arith
done_fed-Within (err bad_type) consumed n s h = omega arith
done_fed-Within (err bad_value) consumed n s h = omega arith
done_fed-Within (ok _) consumed n s h = h

consume_payload-Within :
    (s : Session) (data' : Bytes) → Within (length data') (consume_payload s data')
unfolding consume_payload
consume_payload-Within s data' =
    let payload = take (payload_share s data') data' in
    if_any (Within (length data')) (copy_to_slots (length payload) payload (counted s data')).1
      (omega arith) (omega arith)

Takes-Within :
    (kept : Option RetainedResult) (s : Session) (data' : Bytes) (p : Session × ℕ)
    → Takes kept s data' p
    → Within (length data') p
unfolding consume_header consume_trailer consume_done
Takes-Within kept s data' p (header at) =
    header_fed-Within kept (fed s data').framer.status (fed_bytes s data') (length data')
      (fed s data') (feed_bounded s.framer data')
Takes-Within kept s data' p (payload at some_left) = consume_payload-Within s data'
Takes-Within kept s data' p (trailer at all_there) =
    trailer_fed-Within (fed s data').framer.status (fed_bytes s data') (length data') (fed s data')
      (feed_bounded s.framer data')
Takes-Within kept s data' p (confirmation at) =
    done_fed-Within (fed s data').framer.status (fed_bytes s data') (length data') (fed s data')
      (feed_bounded s.framer data')

-- A round of the switch: a state without a reader, or what it takes.
abbrev Round : Option RetainedResult → Session → Bytes → Option (Session × ℕ) → Type 0
Round kept s data' none = IsDeaf s.state
Round kept s data' (some p) = Takes kept s data' p

consume_in-Round :
    (state : SessionState) (kept : Option RetainedResult) (s : Session) (data' : Bytes)
    → s.state ≡ state
    → Round kept s data' (consume_in state kept s data')
unfolding consume_in
consume_in-Round wait_header kept s data' at = header at
consume_in-Round receiving kept s data' at =
    if_cases (Takes kept s data') (ltb s.received_bytes s.file_size)
      (λ some_left. payload at (grind tests)) (λ all_there. trailer at (grind tests))
consume_in-Round wait_done kept s data' at = confirmation at
consume_in-Round verifying kept s data' at = subst IsDeaf (sym at) tt
consume_in-Round analyzing kept s data' at = subst IsDeaf (sym at) tt
consume_in-Round sending_result kept s data' at = subst IsDeaf (sym at) tt
consume_in-Round cleaned_up kept s data' at = subst IsDeaf (sym at) tt

Round-Reads :
    (kept : Option RetainedResult) (s : Session) (data' : Bytes) (r : Option (Session × ℕ))
    (next : Session → Bytes → Session)
    → has_ended s data' ≡ false
    → Round kept s data' r
    → ((s' : Session) (n : ℕ) → 0 < n → Reads kept s' (drop n data') (next s' (drop n data')))
    → Reads kept s data' (elim r [
      | none ↦ close_silently (unexpected_data_in s.state) s
      | some round ↦ if round.1 == 0 then round.0 else next round.0 (drop round.1 data')
    ])
Round-Reads kept s data' none next going deaf ih = unexpected going deaf
Round-Reads kept s data' (some p) next going taken ih =
    if_cases (Reads kept s data') (p.1 == 0) (λ e. ends going taken (grind tests))
      (λ e.
        goes going taken (grind tests) (Takes-Within kept s data' p taken)
          (ih p.0 p.1 (grind tests)))

loop-Reads :
    (fuel : ℕ) (kept : Option RetainedResult) (s : Session) (data' : Bytes)
    → length data' ≤ fuel
    → Reads kept s data' (read_loop fuel kept s data')
unfolding read_loop consume
loop-Reads zero kept s data' h = over (ground (arith, h))
loop-Reads (suc fuel) kept s data' h =
    if_cases (Reads kept s data') (has_ended s data') (λ e. over e)
      (λ going.
        Round-Reads kept s data' (consume kept s data') (read_loop fuel kept) going
          (consume_in-Round s.state kept s data' refl)
          (λ s' n positive.
            loop-Reads fuel kept s' (drop n data') (omega (arith, length-drop n data'))))

-- The loop of `onRead` ends for any session and any bytes, with what the relation says: it stops at the
-- end of the bytes, after a cleanup and after a failure that is being sent; the state and the count
-- of the payload choose the reader; a state without a reader closes the session; and a round that
-- does not end the loop consumes at least one byte and no more than there are.
pub read_loop-Reads :
    (kept : Option RetainedResult) (s : Session) (data' : Bytes)
    → Reads kept s data' (read_loop (length data') kept s data')
read_loop-Reads kept s data' = loop-Reads (length data') kept s data' (omega arith)
