-- ===== src/Protocol/Codec/Runs.antt =====
-- Sample messages as bytes, and the theorems about the codec at them.
use log_transfer_analyzer.Prelude.{
  take, drop, ◌≡◌, ◌≤◌, ◌+◌, refl, true, [], ◌∷◌, ◌++◌, Bytes, codes, length, arith,
}
use log_transfer_analyzer.Protocol.{UploadHeader, ResultRequest, max_file_size, max_csv_size}
use log_transfer_analyzer.Protocol.Wire.{put_u16, put_u64, put_shifts}
use log_transfer_analyzer.Protocol.Codec.{
  ok, err, bad_type, is_valid_filename, no_forbidden, put_preamble, encode_upload_header,
  decode_upload_header, encode_result_request, decode_result_request, expected_message_size,
  is_magic,
}
use log_transfer_analyzer.Protocol.Codec.RoundTrip.{
  IsUploadHeader, decode-encode_upload_header, decode-encode_result_request,
}
use log_transfer_analyzer.Protocol.Codec.Sizes.{header, encode, expected_message_size-encode}
use log_transfer_analyzer.Protocol.Codec.Prefix.{expected_message_size-append_err}
use log_transfer_analyzer.Protocol.Codec.Rejects.{
  IsStamped, IsName, decode_upload_header-ok, decode_result_request-ok,
}

abbrev log_header : UploadHeader
log_header = record { file_size = 4096; filename = codes "a.log" }

abbrev log_header_bytes : Bytes
log_header_bytes =
    0x42
    ∷ 0x59
    ∷ 0x44
    ∷ 0x41
    ∷ 1
    ∷ 1
    ∷ 0
    ∷ 0
    ∷ 0
    ∷ 0
    ∷ 0
    ∷ 0
    ∷ 0
    ∷ 0
    ∷ 16
    ∷ 0
    ∷ 0
    ∷ 5
    ∷ codes "a.log"

encode_log_header : encode_upload_header log_header ≡ log_header_bytes
unfolding encode_upload_header put_u16 put_u64 put_shifts put_preamble
encode_log_header = refl

log_name_valid : is_valid_filename (codes "a.log") ≡ true
unfolding is_valid_filename no_forbidden
log_name_valid = refl

log_header-IsUploadHeader : IsUploadHeader log_header
log_header-IsUploadHeader = record { size_allowed = omega arith; name_allowed = log_name_valid }

decode-encode_upload_header_example :
    decode_upload_header (encode_upload_header log_header ++ codes "data") ≡ ok log_header
decode-encode_upload_header_example =
    decode-encode_upload_header log_header (codes "data") log_header-IsUploadHeader

abbrev sample_request : ResultRequest
sample_request = record {
  file_size = 4096;
  crc32 = 7;
  start_offset = 100;
  filename = codes "a.log";
}

decode-encode_result_request_example :
    decode_result_request (encode_result_request sample_request ++ []) ≡ ok sample_request
decode-encode_result_request_example = decode-encode_result_request sample_request [] (record {
  size_allowed = omega arith;
  crc_fits = omega arith;
  offset_allowed = omega arith;
  name_allowed = log_name_valid;
})

expected_message_size-encode_example :
    expected_message_size (encode (header log_header) ++ codes "data")
    ≡ ok (length (encode (header log_header)))
expected_message_size-encode_example =
    expected_message_size-encode (header log_header) (codes "data") (omega arith)

decode_upload_header-ok_example :
    IsStamped 1 (encode_upload_header log_header ++ codes "data")
    × (18 + length log_header.filename ≤ length (encode_upload_header log_header ++ codes "data"))
    × (log_header.filename
        ≡ take
            (length log_header.filename)
            (drop 18 (encode_upload_header log_header ++ codes "data")))
    × IsName log_header.filename
    × (log_header.file_size ≤ max_file_size)
decode_upload_header-ok_example =
    decode_upload_header-ok (encode_upload_header log_header ++ codes "data") log_header
      decode-encode_upload_header_example

decode_result_request-ok_example :
    IsStamped 7 (encode_result_request sample_request ++ [])
    × (30 + length sample_request.filename ≤ length (encode_result_request sample_request ++ []))
    × (sample_request.filename
        ≡ take
            (length sample_request.filename)
            (drop 30 (encode_result_request sample_request ++ [])))
    × IsName sample_request.filename
    × (sample_request.file_size ≤ max_file_size)
    × (sample_request.start_offset ≤ max_csv_size)
decode_result_request-ok_example =
    decode_result_request-ok (encode_result_request sample_request ++ []) sample_request
      decode-encode_result_request_example

abbrev bad_type_bytes : Bytes
bad_type_bytes = 0x42 ∷ 0x59 ∷ 0x44 ∷ 0x41 ∷ 1 ∷ 6 ∷ 0 ∷ 0 ∷ []

bad_type_size : expected_message_size bad_type_bytes ≡ err bad_type
unfolding expected_message_size is_magic
bad_type_size = refl

expected_message_size-append_err_example :
    expected_message_size (bad_type_bytes ++ codes "more") ≡ err bad_type
expected_message_size-append_err_example =
    expected_message_size-append_err bad_type_bytes (codes "more") bad_type (λ e. cc) bad_type_size
