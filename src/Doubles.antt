-- ===== src/Doubles.antt =====
-- What the program uses of the type `double` and of `std::from_chars` for it, as a parameter: the
-- language and its library define them, and no property here depends on how they round.
use log_transfer_analyzer.Prelude.{ℕ, Bool, Option, Bytes}

pub record Doubles : Type 1 where
  pub Carrier : Type 0
  pub zero_double : Carrier
  pub plus : Carrier → Carrier → Carrier
  pub divide : Carrier → Carrier → Carrier
  pub of_u64 : ℕ → Carrier
  pub minus : Carrier → Carrier → Carrier
  pub times : Carrier → Carrier → Carrier
  -- The conversion to `std::uint64_t`.
  pub to_u64 : Carrier → ℕ
  pub at_least : Carrier → Carrier → Bool
  pub less : Carrier → Carrier → Bool
  pub is_finite : Carrier → Bool
  -- The value and the count of the characters that were read, or nothing for an error.
  pub from_chars : Bytes → Option (Carrier × ℕ)
