-- ===== src/Prelude/Bits.antt =====
-- `|`, `^` and `&` at variables: an equation for the lowest digit, and the laws that the byte
-- helpers and the checksum use.
use Prim.Native.Nat.{
  ℕ, zero, suc, ◌+◌, ◌-◌, ◌*◌, ◌/◌, ◌%◌, ◌^◌, ◌≤◌, ◌<◌, min, max, digits, differ, bit_or-bitwise,
  bit_and-bitwise, bit_xor-bitwise, bitwise,
}
use mathlib.Core.Path.{◌≡◌, refl, sym, ap, ap₂, ◌∙◌}
use native.Mathlib.Nat.{pow-suc, one-le-pow, mul_comm, div-div-eq-div-mul}
use native.Mathlib.Omega.{arith}
pub use Prim.Native.Nat.{bit_or, bit_and, bit_xor}

-- The recursion on digits does not depend on its fuel, if that is enough.
same_digits :
    (z : ℕ → ℕ) (f : ℕ → ℕ → ℕ) (k l a b : ℕ) → a ≤ k → a ≤ l → digits z f k a b ≡ digits z f l a b
same_digits z f zero zero a b hk hl = refl
same_digits z f (suc k) zero zero b hk hl = refl
same_digits z f zero (suc l) zero b hk hl = refl
same_digits z f (suc k) (suc l) zero b hk hl = refl
same_digits z f (suc k) zero (suc a) b hk hl = absurd (omega arith)
same_digits z f zero (suc l) (suc a) b hk hl = absurd (omega arith)
same_digits z f (suc k) (suc l) (suc a) b hk hl =
    ap (λ d. d * 2 + f (suc a % 2) (b % 2))
      (same_digits z f k l (suc a / 2) (b / 2) (omega arith) (omega arith))

-- One digit of any of the three operations, if running out of digits agrees with it.
bitwise_low :
    (z : ℕ → ℕ) (f : ℕ → ℕ → ℕ)
    → ((b : ℕ) → z b ≡ f 0 (b % 2) + z (b / 2) * 2)
    → (a b : ℕ) → bitwise z f a b ≡ f (a % 2) (b % 2) + bitwise z f (a / 2) (b / 2) * 2
bitwise_low z f dry zero b = dry b
bitwise_low z f dry (suc a) b =
    omega (arith, same_digits z f a (suc a / 2) (suc a / 2) (b / 2) (omega arith) (omega arith))

pub bit_or_low : (a b : ℕ) → bit_or a b ≡ max (a % 2) (b % 2) + bit_or (a / 2) (b / 2) * 2
bit_or_low a b = simp bit_or-bitwise (bitwise_low (λ y. y) max (λ y. omega arith) a b)

pub bit_xor_low : (a b : ℕ) → bit_xor a b ≡ differ (a % 2) (b % 2) + bit_xor (a / 2) (b / 2) * 2
bit_xor_low a b = simp bit_xor-bitwise (bitwise_low (λ y. y) differ (λ y. omega arith) a b)

pub bit_and_low_digit : (a b : ℕ) → bit_and a b ≡ min (a % 2) (b % 2) + bit_and (a / 2) (b / 2) * 2
bit_and_low_digit a b = simp bit_and-bitwise (bitwise_low (λ y. zero) min (λ y. omega arith) a b)

zero-bit_xor : (b : ℕ) → bit_xor 0 b ≡ b
zero-bit_xor b = bit_xor-bitwise 0 b

bit_or-zero_fuel : (n a : ℕ) → a ≤ n → bit_or a 0 ≡ a
bit_or-zero_fuel n zero h = refl
bit_or-zero_fuel zero (suc a) h = absurd (omega arith)
bit_or-zero_fuel (suc n) (suc a) h =
    omega (arith, bit_or_low (suc a) 0, bit_or-zero_fuel n (suc a / 2) (omega arith))

bit_or-zero : (a : ℕ) → bit_or a 0 ≡ a
bit_or-zero a = bit_or-zero_fuel a a (omega arith)

-- On digits.
differ_bits :
    (x y z : ℕ)
    → x < 2
    → y < 2
    → z < 2
    → (differ x y < 2)
      × (differ (differ x y) y ≡ x)
      × (differ (differ x y) z ≡ differ x (differ y z))
differ_bits zero zero zero _ _ _ = omega arith
differ_bits zero zero (suc zero) _ _ _ = omega arith
differ_bits zero (suc zero) zero _ _ _ = omega arith
differ_bits zero (suc zero) (suc zero) _ _ _ = omega arith
differ_bits (suc zero) zero zero _ _ _ = omega arith
differ_bits (suc zero) zero (suc zero) _ _ _ = omega arith
differ_bits (suc zero) (suc zero) zero _ _ _ = omega arith
differ_bits (suc zero) (suc zero) (suc zero) _ _ _ = omega arith
differ_bits (suc (suc x)) y z h _ _ = absurd (omega arith)
differ_bits zero (suc (suc y)) z _ h _ = absurd (omega arith)
differ_bits (suc zero) (suc (suc y)) z _ h _ = absurd (omega arith)
differ_bits zero zero (suc (suc z)) _ _ h = absurd (omega arith)
differ_bits zero (suc zero) (suc (suc z)) _ _ h = absurd (omega arith)
differ_bits (suc zero) zero (suc (suc z)) _ _ h = absurd (omega arith)
differ_bits (suc zero) (suc zero) (suc (suc z)) _ _ h = absurd (omega arith)

-- Both halves of an exclusive or.
pub bit_xor_half :
    (a b : ℕ)
    → (bit_xor a b / 2 ≡ bit_xor (a / 2) (b / 2)) × (bit_xor a b % 2 ≡ differ (a % 2) (b % 2))
bit_xor_half a b =
    let small = (differ_bits (a % 2) (b % 2) 0 (omega arith) (omega arith) (omega arith)).0 in
    (omega (arith, bit_xor_low a b), omega (arith, bit_xor_low a b))

xor_undo : (n a b : ℕ) → a ≤ n → b ≤ n → bit_xor (bit_xor a b) b ≡ a
xor_undo zero zero zero ha hb = refl
xor_undo zero (suc a) b ha hb = absurd (omega arith)
xor_undo zero zero (suc b) ha hb = absurd (omega arith)
xor_undo (suc n) a b ha hb =
    let (half, low) = bit_xor_half a b in
    bit_xor_low (bit_xor a b) b
    ∙ rw (half, low)
        (omega (
          arith,
          xor_undo n (a / 2) (b / 2) (omega arith) (omega arith),
          (differ_bits (a % 2) (b % 2) 0 (omega arith) (omega arith) (omega arith)).1,
        ))

-- A second exclusive or with the same word undoes the first.
pub bit_xor_cancel : (a b : ℕ) → bit_xor (bit_xor a b) b ≡ a
bit_xor_cancel a b = xor_undo (a + b) a b (omega arith) (omega arith)

xor_regroup :
    (n a b c : ℕ) → a ≤ n → b ≤ n → c ≤ n → bit_xor (bit_xor a b) c ≡ bit_xor a (bit_xor b c)
xor_regroup zero zero zero zero ha hb hc = refl
xor_regroup zero (suc a) b c ha hb hc = absurd (omega arith)
xor_regroup zero zero (suc b) c ha hb hc = absurd (omega arith)
xor_regroup zero zero zero (suc c) ha hb hc = absurd (omega arith)
xor_regroup (suc n) a b c ha hb hc =
    let (half, low) = bit_xor_half a b in
    let (half', low') = bit_xor_half b c in
    let left : bit_xor (bit_xor a b) c
        ≡ differ (differ (a % 2) (b % 2)) (c % 2) + bit_xor (bit_xor (a / 2) (b / 2)) (c / 2) * 2 =
      bit_xor_low (bit_xor a b) c ∙ rw (half, low) refl in
    let right : bit_xor a (bit_xor b c)
        ≡ differ (a % 2) (differ (b % 2) (c % 2)) + bit_xor (a / 2) (bit_xor (b / 2) (c / 2)) * 2 =
      bit_xor_low a (bit_xor b c) ∙ rw (half', low') refl in
    omega (
      arith,
      left,
      right,
      xor_regroup n (a / 2) (b / 2) (c / 2) (omega arith) (omega arith) (omega arith),
      (differ_bits (a % 2) (b % 2) (c % 2) (omega arith) (omega arith) (omega arith)).2,
    )

pub bit_xor_assoc : (a b c : ℕ) → bit_xor (bit_xor a b) c ≡ bit_xor a (bit_xor b c)
bit_xor_assoc a b c = xor_regroup (a + b + c) a b c (omega arith) (omega arith) (omega arith)

pow_double : (q k : ℕ) → q * 2 ^ suc k ≡ 2 * (q * 2 ^ k)
pow_double q k = omega (arith, ap (λ (t : ℕ). q * t) (pow-suc 2 k))

differ-zero : (x : ℕ) → differ x 0 ≡ x
differ-zero zero = refl
differ-zero (suc x) = refl

-- An even second word leaves the lowest digit alone.
pub bit_xor_even : (r y : ℕ) → bit_xor r (y * 2) ≡ bit_xor (r / 2) y * 2 + r % 2
bit_xor_even r y =
    let half : y * 2 / 2 ≡ y = omega arith in
    let low : y * 2 % 2 ≡ 0 = omega arith in
    bit_xor_low r (y * 2) ∙ rw (half, low) (omega (arith, differ-zero (r % 2)))

-- Words that share no digit: `^` and `|` are sums.
pub bit_xor_disjoint : (k q r : ℕ) → r < 2 ^ k → bit_xor r (q * 2 ^ k) ≡ q * 2 ^ k + r
bit_xor_disjoint zero q zero h = omega (arith, zero-bit_xor (q * 1))
bit_xor_disjoint zero q (suc r) h = absurd (omega arith)
bit_xor_disjoint (suc k) q r h =
    ap (bit_xor r) (pow_double q k ∙ mul_comm 2 (q * 2 ^ k))
    ∙ bit_xor_even r (q * 2 ^ k)
    ∙ omega (arith, pow_double q k, bit_xor_disjoint k q (r / 2) (omega (arith, pow-suc 2 k)))

pub bit_or_disjoint : (k q r : ℕ) → r < 2 ^ k → bit_or (q * 2 ^ k) r ≡ q * 2 ^ k + r
bit_or_disjoint zero q (suc r) h = absurd (omega arith)
bit_or_disjoint zero q zero h = ground (arith, bit_or-zero (q * 1))
bit_or_disjoint (suc k) q r h = ground (
  arith,
  bit_or_low (q * 2 ^ suc k) r,
  pow_double q k,
  bit_or_disjoint k q (r / 2) (omega (arith, pow-suc 2 k)),
)

masked_out : (bound word : ℕ) → word ≤ bound → bit_and word 0 ≡ 0
masked_out bound zero small = refl
masked_out (suc bound) (suc word) small =
    omega (arith, masked_out bound (suc word / 2) (omega arith), bit_and_low_digit (suc word) 0)
masked_out zero (suc word) small = absurd (omega arith)

bit_and_low : (k q r : ℕ) → r < 2 ^ k → bit_and (q * 2 ^ k + r) (2 ^ k - 1) ≡ r
bit_and_low zero q r h = masked_out (q * 1 + r) (q * 1 + r) (omega arith) ∙ omega arith
bit_and_low (suc k) q r h = ground (
  arith,
  bit_and_low_digit (q * 2 ^ suc k + r) (2 ^ suc k - 1),
  pow_double q k,
  pow-suc 2 k,
  bit_and_low k q (r / 2) (omega (arith, pow-suc 2 k)),
)

-- A mask of `k` ones is the remainder by `2 ^ k`.
pub bit_and_mask : (k a : ℕ) → bit_and a (2 ^ k - 1) ≡ a % 2 ^ k
bit_and_mask k a = ground (arith, one-le-pow k 2, bit_and_low k (a / 2 ^ k) (a % 2 ^ k))

pub bit_xor-zero : (a : ℕ) → bit_xor a 0 ≡ a
bit_xor-zero a = ap (bit_xor a) (omega arith) ∙ bit_xor_disjoint a 0 a (lt-two-pow a) ∙ omega arith
  where
    lt-two-pow : (n : ℕ) → n < 2 ^ n
    lt-two-pow zero = omega arith
    lt-two-pow (suc n) = omega (arith, pow-suc 2 n, lt-two-pow n)

-- A shift to the right takes an exclusive or apart.
pub bit_xor_shift : (k a b : ℕ) → bit_xor a b / 2 ^ k ≡ bit_xor (a / 2 ^ k) (b / 2 ^ k)
bit_xor_shift zero a b = omega (arith, ap₂ bit_xor (div-one a) (div-one b))
  where
    div-one : (n : ℕ) → n / 1 ≡ n
    div-one n = omega arith
bit_xor_shift (suc k) a b =
    drop_bit (bit_xor a b)
    ∙ ap (λ t. t / 2 ^ k) (bit_xor_half a b).0
    ∙ bit_xor_shift k (a / 2) (b / 2)
    ∙ ap₂ bit_xor (sym (drop_bit a)) (sym (drop_bit b))
  where
    drop_bit : (n : ℕ) → n / 2 ^ suc k ≡ n / 2 / 2 ^ k
    drop_bit n =
        ap (λ t. n / t) (pow-suc 2 k ∙ mul_comm (2 ^ k) 2) ∙ sym (div-div-eq-div-mul n 2 (2 ^ k))
