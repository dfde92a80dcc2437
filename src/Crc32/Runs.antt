-- ===== src/Crc32/Runs.antt =====
-- The test vectors of the design.
use log_transfer_analyzer.Prelude.{◌≡◌, refl, codes, arith}
use log_transfer_analyzer.Crc32.Laws.{crc32-append, reference, crc32-reference}
use log_transfer_analyzer.Crc32.{crc32, crc_loop, update, table, table_from, bit_rounds, bit_round}

crc32_check : crc32 0 (codes "123456789") ≡ 0xCBF43926
unfolding crc32 crc_loop update table table_from bit_rounds bit_round
crc32_check = refl

crc32-append_example : crc32 (crc32 0 (codes "1234")) (codes "56789") ≡ crc32 0 (codes "123456789")
crc32-append_example = crc32-append 0 (codes "1234") (codes "56789")

crc32-reference_example : crc32 0 (codes "a") ≡ reference 0 (codes "a")
crc32-reference_example = crc32-reference 0 (codes "a") (omega arith)
