-- ===== src/Summary/Counts.antt =====
-- The counts of the server's table as the client reads them.
use log_transfer_analyzer.Prelude.{
  ℕ, suc, ◌+◌, ◌/◌, ◌%◌, ◌<◌, ◌≡◌, refl, true, &&_parts, [], ◌∷◌, some, length, length-append,
  Bytes, u64_mod, arith,
}
use log_transfer_analyzer.LineParser.Calendar.{is_digit}
use log_transfer_analyzer.LineParser.Fields.{only_digits}
use log_transfer_analyzer.Table.{decimal, to_text}
use log_transfer_analyzer.Table.Numbers.{to_text_value}
use log_transfer_analyzer.Summary.{parse_count, trim_front, trim_back}

trim_front-digits : (text : Bytes) → only_digits text ≡ true → trim_front text ≡ text
trim_front-digits [] h = refl
trim_front-digits (c ∷ text) h = ground arith

trim_back_step :
    (c : ℕ) (text : Bytes) (d : ℕ) (rest : Bytes)
    → trim_back text ≡ d ∷ rest
    → trim_back (c ∷ text) ≡ c ∷ d ∷ rest
trim_back_step c text d rest e = rw e refl

trim_back-digits : (text : Bytes) → only_digits text ≡ true → trim_back text ≡ text
trim_back-digits [] h = refl
trim_back-digits (c ∷ []) h = ground arith
trim_back-digits (c ∷ d ∷ text) h =
    trim_back_step c (d ∷ text) d text
      (trim_back-digits (d ∷ text) (&&_parts (is_digit c) (only_digits (d ∷ text)) h).1)

decimal-filled : (fuel n : ℕ) → 0 < length (decimal (suc fuel) n)
unfolding decimal
decimal-filled fuel n = ground (arith, length-append (decimal fuel (n / 10)) ((48 + n % 10) ∷ []))

-- The client reads each 64-bit count back from the text that the server writes.
pub parse_count-to_text : (n : ℕ) → n < u64_mod → parse_count (to_text n) ≡ some n
unfolding parse_count
parse_count-to_text n h =
    let (value, all) = to_text_value n h in
    ground (
      arith,
      trim_front-digits (to_text n) all,
      trim_back-digits (to_text n) all,
      decimal-filled 19 n,
      value,
      all,
    )
