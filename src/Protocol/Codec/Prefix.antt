-- ===== src/Protocol/Codec/Prefix.antt =====
-- What the first bytes of a buffer decide stays decided when bytes are added behind them.
use log_transfer_analyzer.Prelude.{
  [], ℕ, ◌+◌, ◌*◌, ◌%◌, ◌^◌, ◌≤◌, ◌<◌, ◌≡◌, ◌≢◌, refl, ap₂, ◌++◌, ltb, ◌==◌, if◌then◌else◌, length,
  length-append, Bytes, get_or-append_left, arith,
}
use log_transfer_analyzer.Prelude.Bits.{bit_or}
use log_transfer_analyzer.Protocol.Wire.{get_u16, byte_at}
use log_transfer_analyzer.Protocol.Codec.{
  ok, err, DecodeError, need_more_data, bad_type, is_magic, size_for, expected_message_size,
}

-- The size of the part before a filename, by the code of the type.
abbrev pub fixed_part : ℕ → ℕ
fixed_part code = if code == 1 then 18 else if code == 7 then 30 else 8

pub expected_message_size-nil : expected_message_size [] ≡ err need_more_data
unfolding expected_message_size
expected_message_size-nil = refl

-- A size is known from the preamble on only.
pub size_known : (b : Bytes) (total : ℕ) → expected_message_size b ≡ ok total → 8 ≤ length b
unfolding expected_message_size
size_known b total h = ground arith

-- Where the size is not known, a part of fixed size is not complete.
pub size_unknown :
    (b : Bytes)
    → expected_message_size b ≡ err need_more_data
    → length b < (if ltb (length b) 8 then 8 else fixed_part (byte_at b 5))
unfolding expected_message_size size_for
size_unknown b h = ground arith

module _ (b more : Bytes) where
  get_u16-append : (off : ℕ) → off + 2 ≤ length b → get_u16 (b ++ more) off ≡ get_u16 b off
  unfolding get_u16
  get_u16-append off h =
      ap₂ (λ x y. bit_or (x * 2 ^ 8) y % 2 ^ 16) (get_or-append_left b more off 0 (omega arith))
        (get_or-append_left b more (off + 1) 0 (omega arith))

  is_magic-append : 8 ≤ length b → is_magic (b ++ more) ≡ is_magic b
  unfolding is_magic
  is_magic-append h =
      rw
        (
          get_or-append_left b more 0 0 (omega arith),
          get_or-append_left b more 1 0 (omega arith),
          get_or-append_left b more 2 0 (omega arith),
          get_or-append_left b more 3 0 (omega arith),
        )
        refl

  byte_at-append : (i : ℕ) → i < 8 → 8 ≤ length b → byte_at (b ++ more) i ≡ byte_at b i
  byte_at-append i h k = get_or-append_left b more i 0 (omega arith)

  size_for-append_ok : (code n : ℕ) → size_for b code ≡ ok n → size_for (b ++ more) code ≡ ok n
  unfolding size_for
  size_for-append_ok code n e =
      ground (arith, get_u16-append 16, get_u16-append 28, length-append b more)

  -- A known size stays.
  pub expected_message_size-append_ok :
      (n : ℕ) → expected_message_size b ≡ ok n → expected_message_size (b ++ more) ≡ ok n
  unfolding expected_message_size
  expected_message_size-append_ok n e = ground (
    arith,
    is_magic-append,
    byte_at-append 4,
    byte_at-append 5,
    length-append b more,
    size_for-append_ok (byte_at b 5) n,
  )

  size_for-append_bad :
      (code : ℕ) → size_for b code ≡ err bad_type → size_for (b ++ more) code ≡ err bad_type
  unfolding size_for
  size_for-append_bad code e = ground arith

  -- An error of the size lookahead other than the lack of data stays when bytes are added behind
  -- the buffer.
  pub expected_message_size-append_err :
      (e : DecodeError)
      → e ≢ need_more_data
      → expected_message_size b ≡ err e
      → expected_message_size (b ++ more) ≡ err e
  unfolding expected_message_size size_for
  expected_message_size-append_err e ne h =
      ground (arith, is_magic-append, byte_at-append 4, byte_at-append 5, length-append b more)

  -- The lack of data lasts up to the length of the part that has a fixed size.
  pub expected_message_size-append_waiting :
      expected_message_size b ≡ err need_more_data
      → length (b ++ more) < (if ltb (length b) 8 then 8 else fixed_part (byte_at b 5))
      → expected_message_size (b ++ more) ≡ err need_more_data
  unfolding expected_message_size size_for
  expected_message_size-append_waiting h short =
      ground (arith, is_magic-append, byte_at-append 4, byte_at-append 5, length-append b more)
