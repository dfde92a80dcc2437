-- ===== src/Protocol/Framer/Judge.antt =====
-- One round of the loop of `feed`, before it copies.
use log_transfer_analyzer.Prelude.{
  ℕ, ◌+◌, ◌≤◌, ◌<◌, ◌≡◌, refl, ap, ◌∙◌, ◌++◌, false, ltb, if◌then◌else◌, length, length-append,
  Bytes, get_or-append_left, arith, none, some,
}
use log_transfer_analyzer.Protocol.Codec.{
  Decoded, DecodeStatus, ok, err, need_more_data, bad_magic, bad_version, bad_type, bad_value,
  expected_message_size,
}
use log_transfer_analyzer.Protocol.Codec.Prefix.{
  fixed_part, size_known, expected_message_size-append_ok, expected_message_size-append_waiting,
}
use log_transfer_analyzer.Protocol.Framer.{
  Framer, type_byte, fixed_size_for, aim, stop, judge, judge_size, checked, target_of, wrong_type,
  advance, is_waiting,
}

abbrev pub with_more : Framer → Bytes → Framer
with_more fr more = record fr { buffer = fr.buffer ++ more }

-- A round that goes on has a target ahead.
pub judge-aim_lt : (fr : Framer) (target : ℕ) → judge fr ≡ aim target → length fr.buffer < target
unfolding judge
judge-aim_lt fr target h = go (expected_message_size fr.buffer) h
  where
    go : (d : Decoded ℕ) → judge_size fr d ≡ aim target → length fr.buffer < target
    go (ok total) h = ground arith
    go (err need_more_data) h = ground arith
    go (err bad_magic) h = cc
    go (err bad_version) h = cc
    go (err bad_type) h = cc
    go (err bad_value) h = cc

-- The type is judged by the same byte once the preamble is there.
wrong_type-append :
    (fr : Framer) (more : Bytes)
    → 8 ≤ length fr.buffer
    → wrong_type (with_more fr more) ≡ wrong_type fr
unfolding wrong_type
wrong_type-append fr more h =
    ground
      (arith, get_or-append_left fr.buffer more 5 0 (omega arith), length-append fr.buffer more)

wrong_type_short : (fr : Framer) → length fr.buffer < 8 → wrong_type fr ≡ false
unfolding wrong_type
wrong_type_short fr h = ground arith

checked-append_some :
    (fr : Framer) (more : Bytes) (total target : ℕ)
    → 8 ≤ length fr.buffer
    → checked fr (some total) ≡ aim target
    → length fr.buffer + length more < target
    → checked (with_more fr more) (some total) ≡ aim target
unfolding checked target_of advance
checked-append_some fr more total target h e short =
    ground (arith, wrong_type-append fr more h, length-append fr.buffer more)

checked-append_none :
    (fr : Framer) (more : Bytes) (target : ℕ)
    → checked fr none ≡ aim target
    → length fr.buffer + length more < target
    → checked (with_more fr more) none ≡ aim target
unfolding checked target_of advance fixed_size_for
checked-append_none fr more target e short = ground (
  arith,
  wrong_type-append fr more,
  wrong_type_short (with_more fr more),
  get_or-append_left fr.buffer more 5 0,
  length-append fr.buffer more,
)

target_lem :
    (fr : Framer) (target : ℕ)
    → checked fr none ≡ aim target
    → target ≡ (if ltb (length fr.buffer) 8 then 8 else fixed_part (type_byte fr.buffer))
unfolding checked target_of advance fixed_size_for
target_lem fr target e = ground arith

-- Before the target is reached, the next rounds have the same target.
pub judge-append :
    (fr : Framer) (more : Bytes) (target : ℕ)
    → judge fr ≡ aim target
    → length fr.buffer + length more < target
    → judge (with_more fr more) ≡ aim target
unfolding judge
judge-append fr more target e short = go (expected_message_size fr.buffer) refl e
  where
    go :
        (d : Decoded ℕ)
        → expected_message_size fr.buffer ≡ d
        → judge_size fr d ≡ aim target
        → judge (with_more fr more) ≡ aim target
    go (ok total) s e =
        ap (judge_size (with_more fr more)) (expected_message_size-append_ok fr.buffer more total s)
        ∙ checked-append_some fr more total target (size_known fr.buffer total s) e short
    go (err need_more_data) s e =
        ap (judge_size (with_more fr more)) (
          expected_message_size-append_waiting fr.buffer more s
            (rw (← target_lem fr target e) (omega (arith, length-append fr.buffer more))))
        ∙ checked-append_none fr more target e short
    go (err bad_magic) s e = cc
    go (err bad_version) s e = cc
    go (err bad_type) s e = cc
    go (err bad_value) s e = cc

-- A round that ends the loop has an answer.
pub judge-stop : (fr : Framer) (st : DecodeStatus) → judge fr ≡ stop st → is_waiting st ≡ false
unfolding judge is_waiting
judge-stop fr st h = go (expected_message_size fr.buffer) h
  where
    go : (d : Decoded ℕ) → judge_size fr d ≡ stop st → is_waiting st ≡ false
    go (ok total) h = ground arith
    go (err need_more_data) h = ground arith
    go (err bad_magic) h = ground arith
    go (err bad_version) h = ground arith
    go (err bad_type) h = ground arith
    go (err bad_value) h = ground arith
