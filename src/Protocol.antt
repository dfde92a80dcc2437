-- ===== src/Protocol.antt =====
-- common/protocol/protocol.h: constants, message types and message values.
-- A `std::string` of the protocol is its bytes; an integer field is a number below its width.
pub mod Wire
pub mod Codec
pub mod Framer
use log_transfer_analyzer.Prelude.{ℕ, List, [], ◌∷◌, Bytes, ◌+◌, ◌*◌}

-- `kMagic`: "BYDA".
abbrev pub magic : Bytes
magic = 0x42 ∷ 0x59 ∷ 0x44 ∷ 0x41 ∷ []

abbrev pub protocol_version : ℕ
protocol_version = 1

abbrev pub offset_version : ℕ
offset_version = 4

abbrev pub offset_type : ℕ
offset_type = 5

abbrev pub preamble_size : ℕ
preamble_size = 8

-- `MessageType`; 6 is reserved and no member.
pub data MessageType : Type 0 where
  upload_header upload_trailer ack result_header download_done result_request : MessageType

-- The value of the enumerator.
abbrev pub type_code : MessageType → ℕ
type_code upload_header = 1
type_code upload_trailer = 2
type_code ack = 3
type_code result_header = 4
type_code download_done = 5
type_code result_request = 7

-- `AckStatus`.
pub data AckStatus : Type 0 where
  ok_status crc_mismatch size_mismatch protocol_error server_error no_such_result : AckStatus

abbrev pub status_code : AckStatus → ℕ
status_code ok_status = 0
status_code crc_mismatch = 1
status_code size_mismatch = 2
status_code protocol_error = 3
status_code server_error = 4
status_code no_such_result = 5

-- Sizes of the messages, the preamble included; of those with a filename, the part before it.
abbrev pub max_filename_len : ℕ
max_filename_len = 255

abbrev pub upload_header_fixed_size : ℕ
upload_header_fixed_size = preamble_size + 8 + 2

abbrev pub upload_header_max_size : ℕ
upload_header_max_size = upload_header_fixed_size + max_filename_len

abbrev pub upload_trailer_size : ℕ
upload_trailer_size = preamble_size + 4

abbrev pub ack_size : ℕ
ack_size = preamble_size + 1 + 8

abbrev pub result_header_size : ℕ
result_header_size = preamble_size + 8 + 4

abbrev pub download_done_size : ℕ
download_done_size = preamble_size

abbrev pub result_request_fixed_size : ℕ
result_request_fixed_size = preamble_size + 8 + 4 + 8 + 2

abbrev pub result_request_max_size : ℕ
result_request_max_size = result_request_fixed_size + max_filename_len

-- Limits of values.
abbrev pub max_file_size : ℕ
max_file_size = 8 * 1024 * 1024 * 1024

abbrev pub max_csv_size : ℕ
max_csv_size = 4 * 1024 * 1024

-- Timeouts in milliseconds.
abbrev pub idle_timeout_ms : ℕ
idle_timeout_ms = 30000

abbrev pub response_timeout_ms : ℕ
response_timeout_ms = 120000

pub record UploadHeader : Type 0 where
  pub file_size : ℕ
  pub filename : Bytes

pub record UploadTrailer : Type 0 where
  pub crc32 : ℕ

pub record Ack : Type 0 where
  pub status : AckStatus
  pub received_bytes : ℕ

pub record ResultHeader : Type 0 where
  pub csv_size : ℕ
  pub crc32 : ℕ

pub record ResultRequest : Type 0 where
  pub file_size : ℕ
  pub crc32 : ℕ
  pub start_offset : ℕ
  pub filename : Bytes
