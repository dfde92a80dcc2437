-- ===== src/Protocol/Codec/Preamble.antt =====
-- The eight bytes in front of each message.
use log_transfer_analyzer.Prelude.{◌≡◌, refl, [], ◌∷◌, ◌++◌, le→leb, ==_self, length, Bytes, arith}
use log_transfer_analyzer.Protocol.{MessageType, type_code, magic, protocol_version}
use log_transfer_analyzer.Protocol.Codec.{check_preamble, is_magic, ok}

abbrev pub preamble : MessageType → Bytes
preamble type = magic ++ (protocol_version ∷ type_code type ∷ 0 ∷ 0 ∷ [])

pub check_preamble-preamble :
    (type : MessageType) (rest : Bytes) → check_preamble (preamble type ++ rest) type ≡ ok tt
unfolding check_preamble is_magic
check_preamble-preamble type rest =
    rw (le→leb 8 (length (preamble type ++ rest)) (omega arith), ==_self (type_code type)) refl
