-- ===== src/Prelude/Slices.antt =====
-- Parts of a flat buffer, and writing one.
use Prim.Native.Nat.{ℕ, zero, suc, ◌+◌, ◌-◌, ◌≤◌}
use mathlib.Core.Path.{◌≡◌, refl, sym, ap, ◌∙◌}
use mathlib.Core.List.{List, [], ◌∷◌, ◌++◌}
use native.Mathlib.Omega.{arith}
use log_transfer_analyzer.Prelude.Lists.{
  length, length-append, take, drop, length-take, length-drop, take-append_left, drop-append_right,
  take_all, drop_all,
}

module _ {ℓ} {A : Type ℓ} where
  drop-drop : (m n : ℕ) (xs : List A) → drop m (drop n xs) ≡ drop (n + m) xs
  drop-drop m zero xs = ap (λ k. drop k xs) (omega arith)
  drop-drop zero (suc n) [] = sym (drop_all (suc n + 0) [] (omega arith))
  drop-drop (suc m) (suc n) [] = sym (drop_all (suc n + suc m) [] (omega arith))
  drop-drop m (suc n) (x ∷ xs) = drop-drop m n xs ∙ ap (λ k. drop k (x ∷ xs)) one_more
    where
      one_more : suc (n + m) ≡ suc n + m
      one_more = omega arith

  drop-take_behind :
      (m k : ℕ) (xs ys : List A)
      → k ≤ m
      → k ≤ length xs
      → drop m (take k xs ++ ys) ≡ drop (m - k) ys
  drop-take_behind m k xs ys h fits =
      drop-append_right m (take k xs) ys (omega (arith, length-take k xs))
      ∙ ap (λ i. drop (m - i) ys) front
    where
      front : length (take k xs) ≡ k
      front = omega (arith, length-take k xs)

  take-drop_front :
      (from n k : ℕ) (xs ys : List A)
      → from + n ≤ k
      → k ≤ length xs
      → take n (drop from (take k xs ++ ys)) ≡ take n (drop from xs)
  take-drop_front zero zero k xs ys h fits = refl
  take-drop_front zero (suc n) zero xs ys h fits = absurd (omega arith)
  take-drop_front zero (suc n) (suc k) [] ys h fits = absurd (omega arith)
  take-drop_front zero (suc n) (suc k) (x ∷ xs) ys h fits =
      ap (◌∷◌ x) (take-drop_front zero n k xs ys (omega arith) (omega arith))
  take-drop_front (suc from) n zero xs ys h fits = absurd (omega arith)
  take-drop_front (suc from) n (suc k) [] ys h fits = absurd (omega arith)
  take-drop_front (suc from) n (suc k) (x ∷ xs) ys h fits =
      take-drop_front from n k xs ys (omega arith) (omega arith)

  -- `n` entries from position `at`.
  abbrev pub slice : List A → ℕ → ℕ → List A
  slice buffer at n = take n (drop at buffer)

  -- `entries` copied to position `at`.
  abbrev pub splice : List A → ℕ → List A → List A
  splice buffer at entries = take at buffer ++ (entries ++ drop (at + length entries) buffer)

  module _ (buffer entries : List A) (at : ℕ) where
    pub length-splice :
        at + length entries ≤ length buffer → length (splice buffer at entries) ≡ length buffer
    length-splice fits = omega (
      arith,
      length-append (take at buffer) (entries ++ drop (at + length entries) buffer),
      length-append entries (drop (at + length entries) buffer),
      length-take at buffer,
      length-drop (at + length entries) buffer,
    )

    -- What was written is read.
    pub slice-splice_self :
        at ≤ length buffer → slice (splice buffer at entries) at (length entries) ≡ entries
    slice-splice_self fits =
        ap (take (length entries)) (
          drop-take_behind at at buffer (entries ++ rest) (omega arith) fits
          ∙ ap (λ k. drop k (entries ++ rest)) nothing)
        ∙ take-append_left (length entries) entries rest (omega arith)
        ∙ take_all (length entries) entries (omega arith)
      where
        rest : List A
        rest = drop (at + length entries) buffer

        nothing : at - at ≡ 0
        nothing = omega arith

    -- A part before the position stays.
    pub slice-splice_before :
        (from n : ℕ)
        → from + n ≤ at
        → at ≤ length buffer
        → slice (splice buffer at entries) from n ≡ slice buffer from n
    slice-splice_before from n apart fits =
        take-drop_front from n at buffer (entries ++ drop (at + length entries) buffer) apart fits

    -- A part behind what was written stays.
    pub slice-splice_behind :
        (from n : ℕ)
        → at + length entries ≤ from
        → at ≤ length buffer
        → slice (splice buffer at entries) from n ≡ slice buffer from n
    slice-splice_behind from n apart fits = ap (take n) (
        drop-take_behind from at buffer (entries ++ rest) (omega arith) fits
        ∙ drop-append_right (from - at) entries rest (omega arith)
        ∙ drop-drop (from - at - length entries) (at + length entries) buffer
        ∙ ap (λ k. drop k buffer) whole)
      where
        rest : List A
        rest = drop (at + length entries) buffer

        whole : at + length entries + (from - at - length entries) ≡ from
        whole = omega arith
