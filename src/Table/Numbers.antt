-- ===== src/Table/Numbers.antt =====
-- `std::to_string` is read back.
use log_transfer_analyzer.Prelude.{
  ℕ, zero, suc, ◌+◌, ◌-◌, ◌*◌, ◌/◌, ◌%◌, ◌^◌, ◌<◌, ◌≤◌, ◌≡◌, refl, ◌∙◌, true, Bool-cases, inl, inr,
  [], ◌∷◌, ◌++◌, ltb, Bytes, u64_mod, arith,
}
use native.Mathlib.Nat.{pow-suc}
use log_transfer_analyzer.LineParser.Calendar.{digits_value}
use log_transfer_analyzer.LineParser.Fields.{only_digits}
use log_transfer_analyzer.Table.{decimal, to_text}

digits_value-append :
    (v c : ℕ) (text : Bytes)
    → digits_value v (text ++ (c ∷ [])) ≡ digits_value v text * 10 + (c - 48)
digits_value-append v c [] = refl
digits_value-append v c (d ∷ text) = digits_value-append (v * 10 + (d - 48)) c text

only_digits-append :
    (c : ℕ) (text : Bytes)
    → only_digits text ≡ true
    → 48 ≤ c
    → c ≤ 57
    → only_digits (text ++ (c ∷ [])) ≡ true
only_digits-append c [] h low high = ground arith
only_digits-append c (d ∷ text) h low high = ground (arith, only_digits-append c text)

decimal_lem :
    (fuel n : ℕ)
    → n < 10 ^ fuel
    → (digits_value 0 (decimal fuel n) ≡ n) × (only_digits (decimal fuel n) ≡ true)
unfolding decimal
decimal_lem zero n h = (omega arith, refl)
decimal_lem (suc fuel) n h =
    let (value, all) = decimal_lem fuel (n / 10) (omega (arith, pow-suc 10 fuel)) in
    elim (Bool-cases (ltb n 10)) [
      | inl e ↦ rw e (ground arith, ground arith)
      | inr e ↦ rw e (
        digits_value-append 0 (48 + n % 10) (decimal fuel (n / 10)) ∙ omega (arith, value),
        only_digits-append (48 + n % 10) (decimal fuel (n / 10)) all (omega arith) (omega arith),
      )
    ]

-- A 64-bit number is written with digits only, and they have its value.
pub to_text_value :
    (n : ℕ) → n < u64_mod → (digits_value 0 (to_text n) ≡ n) × (only_digits (to_text n) ≡ true)
to_text_value n h = decimal_lem 20 n (omega arith)
