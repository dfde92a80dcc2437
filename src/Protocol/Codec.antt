-- ===== src/Protocol/Codec.antt =====
-- common/protocol/Codec.cpp: the messages as bytes, and back.
pub mod Preamble
pub mod Encoded
pub mod RoundTrip
pub mod Sizes
pub mod Prefix
pub mod Rejects
mod Runs
use log_transfer_analyzer.Prelude.{
  ℕ, ◌+◌, ◌%◌, ◌^◌, Bool, true, false, not, ◌&&◌, ◌||◌, List, [], ◌∷◌, ◌++◌, ◌==◌, ltb, leb,
  if◌then◌else◌, length, take, drop, Bytes,
}
use log_transfer_analyzer.Protocol.{
  magic, protocol_version, offset_version, offset_type, preamble_size, MessageType, upload_header,
  upload_trailer, ack, result_header, download_done, result_request, type_code, AckStatus,
  ok_status, crc_mismatch, size_mismatch, protocol_error, server_error, no_such_result, status_code,
  max_filename_len, upload_header_fixed_size, upload_trailer_size, ack_size, result_header_size,
  download_done_size, result_request_fixed_size, max_file_size, max_csv_size, UploadHeader,
  UploadTrailer, Ack, ResultHeader, ResultRequest,
}
use log_transfer_analyzer.Protocol.Wire.{
  put_u16, put_u32, put_u64, byte_at, get_u16, get_u32, get_u64,
}

-- `DecodeStatus` without `Ok`.
pub data DecodeError : Type 0 where
  need_more_data bad_magic bad_version bad_type bad_value : DecodeError

-- A `DecodeStatus` with what the function writes to its `out` when the status is `Ok`.
pub data Decoded {ℓ} (A : Type ℓ) : Type ℓ where
  ok : A → Decoded A
  err : DecodeError → Decoded A

infixl 5 ◌>>=◌ ◌>>◌
abbrev pub ◌>>=◌ {ℓ κ} : {A : Type ℓ} {B : Type κ} → Decoded A → (A → Decoded B) → Decoded B
ok a >>= f = f a
err e >>= f = err e

abbrev pub ◌>>◌ {ℓ} : {B : Type ℓ} → Decoded (Unit {0}) → Decoded B → Decoded B
m >> k = m >>= λ _. k

-- `if (!test) return e;`
abbrev pub check : Bool → DecodeError → Decoded (Unit {0})
check true e = ok tt
check false e = err e

abbrev pub DecodeStatus : Type 0
DecodeStatus = Decoded (Unit {0})

-- `putPreamble`.
unfoldable pub put_preamble : Bytes → MessageType → Bytes
put_preamble out type = out ++ (magic ++ (protocol_version ∷ type_code type ∷ 0 ∷ 0 ∷ []))

-- The loop over `kMagic` in `checkPreamble` and `expectedMessageSize`.
unfoldable pub is_magic : Bytes → Bool
is_magic buf =
    byte_at buf 0 == 0x42 && byte_at buf 1 == 0x59 && byte_at buf 2 == 0x44 && byte_at buf 3 == 0x41

-- `checkPreamble`.
unfoldable pub check_preamble : Bytes → MessageType → DecodeStatus
check_preamble buf expected = do
  check (leb preamble_size (length buf)) need_more_data
  check (is_magic buf) bad_magic
  check (byte_at buf offset_version == protocol_version) bad_version
  check (byte_at buf offset_type == type_code expected) bad_type

-- The loop of `isValidFilename`.
unfoldable pub no_forbidden : Bytes → Bool
no_forbidden [] = true
no_forbidden (b ∷ name) =
    if leb b 0x1F || b == 0x7F || b == b'/' || b == b'\\' then false else no_forbidden name

-- `isValidFilename`.
unfoldable pub is_valid_filename : Bytes → Bool
is_valid_filename name =
    if length name == 0 || ltb max_filename_len (length name) then false else no_forbidden name

-- The `switch` of `expectedMessageSize`.
unfoldable pub size_for : Bytes → ℕ → Decoded ℕ
size_for buf code =
    if code == 1
    then (do
      check (leb upload_header_fixed_size (length buf)) need_more_data
      ok (upload_header_fixed_size + get_u16 buf (preamble_size + 8)))
    else if code == 2
    then ok upload_trailer_size
    else if code == 3
    then ok ack_size
    else if code == 4
    then ok result_header_size
    else if code == 5
    then ok download_done_size
    else if code == 7
    then (do
      check (leb result_request_fixed_size (length buf)) need_more_data
      ok (result_request_fixed_size + get_u16 buf (preamble_size + 20)))
    else err bad_type

-- `expectedMessageSize`.
unfoldable pub expected_message_size : Bytes → Decoded ℕ
unfolding size_for
expected_message_size buf = do
  check (leb preamble_size (length buf)) need_more_data
  check (is_magic buf) bad_magic
  check (byte_at buf offset_version == protocol_version) bad_version
  size_for buf (byte_at buf offset_type)

-- The overloads of `encode`. The length of a filename is cast to 16 bits.
unfoldable pub encode_upload_header : UploadHeader → Bytes
encode_upload_header msg =
    put_u16 (put_u64 (put_preamble [] upload_header) msg.file_size) (length msg.filename % 2 ^ 16)
    ++ msg.filename

unfoldable pub encode_upload_trailer : UploadTrailer → Bytes
encode_upload_trailer msg = put_u32 (put_preamble [] upload_trailer) msg.crc32

unfoldable pub encode_ack : Ack → Bytes
encode_ack msg = put_u64 (put_preamble [] ack ++ (status_code msg.status ∷ [])) msg.received_bytes

unfoldable pub encode_result_header : ResultHeader → Bytes
encode_result_header msg = put_u32 (put_u64 (put_preamble [] result_header) msg.csv_size) msg.crc32

pub encode_result_request : ResultRequest → Bytes
encode_result_request msg =
    let fixed =
      put_u64 (put_u32 (put_u64 (put_preamble [] result_request) msg.file_size) msg.crc32)
        msg.start_offset in
    put_u16 fixed (length msg.filename % 2 ^ 16) ++ msg.filename

unfoldable pub encode_download_done : Bytes
encode_download_done = put_preamble [] download_done

-- The overloads of `decode`.
unfoldable pub decode_upload_header : Bytes → Decoded UploadHeader
decode_upload_header buf = do
  check_preamble buf upload_header
  check (leb upload_header_fixed_size (length buf)) need_more_data
  let file_size = get_u64 buf preamble_size
  let name_len = get_u16 buf (preamble_size + 8)
  check (leb (upload_header_fixed_size + name_len) (length buf)) need_more_data
  check (leb file_size max_file_size) bad_value
  let name = take name_len (drop upload_header_fixed_size buf)
  check (is_valid_filename name) bad_value
  ok (record { file_size = file_size; filename = name })

unfoldable pub decode_upload_trailer : Bytes → Decoded UploadTrailer
decode_upload_trailer buf = do
  check_preamble buf upload_trailer
  check (leb upload_trailer_size (length buf)) need_more_data
  ok (record { crc32 = get_u32 buf preamble_size })

-- `static_cast<AckStatus>` of a code that was checked.
pub status_of : ℕ → AckStatus
status_of code =
    if code == 0
    then ok_status
    else if code == 1
    then crc_mismatch
    else if code == 2
    then size_mismatch
    else if code == 3
    then protocol_error
    else if code == 4
    then server_error
    else no_such_result

pub decode_ack : Bytes → Decoded Ack
unfolding status_of
decode_ack buf = do
  check_preamble buf ack
  check (leb ack_size (length buf)) need_more_data
  let status = byte_at buf preamble_size
  check (leb status (status_code no_such_result)) bad_value
  ok (record { status = status_of status; received_bytes = get_u64 buf (preamble_size + 1) })

pub decode_result_header : Bytes → Decoded ResultHeader
decode_result_header buf = do
  check_preamble buf result_header
  check (leb result_header_size (length buf)) need_more_data
  ok (record { csv_size = get_u64 buf preamble_size; crc32 = get_u32 buf (preamble_size + 8) })

pub decode_result_request : Bytes → Decoded ResultRequest
decode_result_request buf = do
  check_preamble buf result_request
  check (leb result_request_fixed_size (length buf)) need_more_data
  let file_size = get_u64 buf preamble_size
  let crc = get_u32 buf (preamble_size + 8)
  let start_offset = get_u64 buf (preamble_size + 12)
  let name_len = get_u16 buf (preamble_size + 20)
  check (leb (result_request_fixed_size + name_len) (length buf)) need_more_data
  check (leb file_size max_file_size) bad_value
  check (leb start_offset max_csv_size) bad_value
  let name = take name_len (drop result_request_fixed_size buf)
  check (is_valid_filename name) bad_value
  ok (record { file_size = file_size; crc32 = crc; start_offset = start_offset; filename = name })

pub decode_download_done : Bytes → DecodeStatus
decode_download_done buf = check_preamble buf download_done
