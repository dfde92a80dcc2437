-- ===== src/Crc32/Laws.antt =====
-- The checksum may be computed chunk by chunk, and the table is the bit-by-bit division.
use log_transfer_analyzer.Prelude.{
  ℕ, zero, suc, ◌+◌, ◌*◌, ◌/◌, ◌%◌, ◌^◌, ◌<◌, ◌≡◌, refl, sym, ap, ◌∙◌, [], ◌∷◌, ◌++◌, get_or, Bytes,
  All, arith, inl, inr, Bool-cases, ◌==◌,
}
use log_transfer_analyzer.Prelude.Bits.{
  bit_and, bit_xor, bit_xor_cancel, bit_xor_assoc, bit_xor_disjoint, bit_xor_even, bit_and_mask,
  bit_xor-zero, bit_xor_shift,
}
use native.Mathlib.Nat.{pow-suc}
use log_transfer_analyzer.Crc32.{
  polynomial, bit_round, bit_rounds, table_from, table, update, crc_loop, crc32,
}

crc_loop-append : (c : ℕ) (a b : Bytes) → crc_loop c (a ++ b) ≡ crc_loop (crc_loop c a) b
unfolding crc_loop
crc_loop-append c [] b = refl
crc_loop-append c (x ∷ a) b = crc_loop-append (update c x) a b

-- The checksum of a stream is the checksum of its second part begun at that of its first part:
-- the chunks in which a payload arrives do not change it.
pub crc32-append : (crc : ℕ) (a b : Bytes) → crc32 (crc32 crc a) b ≡ crc32 crc (a ++ b)
unfolding crc32
crc32-append crc a b = rw (bit_xor_cancel, crc_loop-append) refl

-- The bit-by-bit division that the table stands for: the byte is added to the low end of the
-- register, and eight rounds shift it out.
abbrev pub reference_loop : ℕ → Bytes → ℕ
reference_loop c [] = c
reference_loop c (byte ∷ data') = reference_loop (bit_rounds 8 (bit_xor c byte)) data'

pub reference : ℕ → Bytes → ℕ
reference crc data' = bit_xor (reference_loop (bit_xor crc 0xFFFFFFFF) data') 0xFFFFFFFF

-- High bits pass through the rounds unchanged.
bit_round-high : (x y : ℕ) → bit_round (bit_xor x (y * 2)) ≡ bit_xor (bit_round x) y
unfolding bit_round
bit_round-high x y =
    let half : bit_xor x (y * 2) / 2 ≡ bit_xor (x / 2) y = omega (arith, bit_xor_even x y) in
    let low : bit_xor x (y * 2) % 2 ≡ x % 2 = omega (arith, bit_xor_even x y) in
    rw (bit_and_mask 1 (bit_xor x (y * 2)), bit_and_mask 1 x, half, low)
      (elim (Bool-cases (x % 2 == 1)) [
        | inl odd ↦ rw odd (sym (bit_xor_assoc polynomial (x / 2) y))
        | inr even ↦ rw even refl
      ])

bit_rounds-high : (k x y : ℕ) → bit_rounds k (bit_xor x (y * 2 ^ k)) ≡ bit_xor (bit_rounds k x) y
unfolding bit_rounds
bit_rounds-high zero x y = ap (bit_xor x) (omega arith)
bit_rounds-high (suc k) x y =
    ap (λ t. bit_rounds k (bit_round (bit_xor x t))) double
    ∙ ap (bit_rounds k) (bit_round-high x (y * 2 ^ k))
    ∙ bit_rounds-high k (bit_round x) y
  where
    double : y * 2 ^ suc k ≡ y * 2 ^ k * 2
    double = omega (arith, ap (λ (t : ℕ). y * t) (pow-suc 2 k))

get_or-table_from : (n i j : ℕ) → j < n → get_or (table_from n i) j 0 ≡ bit_rounds 8 (i + j)
unfolding table_from
get_or-table_from zero i j h = absurd (omega arith)
get_or-table_from (suc n) i zero h = ap (bit_rounds 8) (omega arith)
get_or-table_from (suc n) i (suc j) h =
    get_or-table_from n (i + 1) j (omega arith) ∙ ap (bit_rounds 8) (omega arith)

-- One step of the table-driven loop is eight rounds of the division.
update-bit_rounds : (c byte : ℕ) → byte < 256 → update c byte ≡ bit_rounds 8 (bit_xor c byte)
unfolding update table
update-bit_rounds c byte h =
    ap (λ e. bit_xor e (c / 256)) entry
    ∙ sym (bit_rounds-high 8 (x % 256) (c / 256))
    ∙ ap (bit_rounds 8) whole
  where
    x : ℕ
    x = bit_xor c byte

    entry : get_or (table_from 256 0) (bit_and x 0xFF) 0 ≡ bit_rounds 8 (x % 256)
    entry =
        ap (λ j. get_or (table_from 256 0) j 0) (bit_and_mask 8 x)
        ∙ get_or-table_from 256 0 (x % 256) (omega arith)
        ∙ ap (bit_rounds 8) (omega arith)

    high : c / 256 ≡ x / 256
    high =
        sym (bit_xor-zero (c / 256))
        ∙ ap (bit_xor (c / 256)) (omega arith)
        ∙ sym (bit_xor_shift 8 c byte)

    whole : bit_xor (x % 256) (c / 256 * 2 ^ 8) ≡ x
    whole = bit_xor_disjoint 8 (c / 256) (x % 256) (omega arith) ∙ omega (arith, high)

loop-reference_loop :
    (c : ℕ) (data' : Bytes) → All (λ b. b < 256) data' → crc_loop c data' ≡ reference_loop c data'
unfolding crc_loop
loop-reference_loop c [] h = refl
loop-reference_loop c (byte ∷ data') h =
    ap (λ r. crc_loop r data') (update-bit_rounds c byte h.0)
    ∙ loop-reference_loop (bit_rounds 8 (bit_xor c byte)) data' h.1

-- For a payload of bytes, the table-driven loop computes the bit-by-bit division.
pub crc32-reference :
    (crc : ℕ) (data' : Bytes) → All (λ b. b < 256) data' → crc32 crc data' ≡ reference crc data'
unfolding crc32 reference
crc32-reference crc data' h =
    ap (λ c. bit_xor c 0xFFFFFFFF) (loop-reference_loop (bit_xor crc 0xFFFFFFFF) data' h)

pub crc32-nil : crc32 0 [] ≡ 0
unfolding crc32 crc_loop
crc32-nil = refl
