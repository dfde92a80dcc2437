-- ===== src/Crc32.antt =====
-- common/util/Crc32.cpp: the table-driven CRC-32 (reflected IEEE 802.3).
pub mod Laws
mod Runs
use log_transfer_analyzer.Prelude.{
  ℕ, zero, suc, ◌+◌, ◌/◌, ◌%◌, ◌==◌, if◌then◌else◌, List, [], ◌∷◌, get_or, Bytes,
}
use log_transfer_analyzer.Prelude.Bits.{bit_and, bit_xor}

-- `kPolynomial`.
abbrev pub polynomial : ℕ
polynomial = 0xEDB88320

-- One round of the inner loop of `makeTable`.
unfoldable pub bit_round : ℕ → ℕ
bit_round c = if bit_and c 1 == 1 then bit_xor polynomial (c / 2) else c / 2

-- The inner loop of `makeTable`, with `n` rounds left.
unfoldable pub bit_rounds : ℕ → ℕ → ℕ
bit_rounds zero c = c
bit_rounds (suc n) c = bit_rounds n (bit_round c)

-- The outer loop of `makeTable` at index `i`, with `n` entries left.
unfoldable pub table_from : ℕ → ℕ → List ℕ
table_from zero i = []
table_from (suc n) i = bit_rounds 8 i ∷ table_from n (i + 1)

-- `kTable`.
unfoldable pub table : List ℕ
table = table_from 256 0

-- The body of the loop of `crc32`: `kTable[(c ^ byte) & 0xFF] ^ (c >> 8)`.
unfoldable pub update : ℕ → ℕ → ℕ
update c byte = bit_xor (get_or table (bit_and (bit_xor c byte) 0xFF) 0) (c / 256)

unfoldable pub crc_loop : ℕ → Bytes → ℕ
crc_loop c [] = c
crc_loop c (byte ∷ data') = crc_loop (update c byte) data'

unfoldable pub crc32 : ℕ → Bytes → ℕ
crc32 crc data' = bit_xor (crc_loop (bit_xor crc 0xFFFFFFFF) data') 0xFFFFFFFF
