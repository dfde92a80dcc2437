-- ===== src/Protocol/Codec/RoundTrip.antt =====
-- What was encoded is decoded, whatever bytes follow it.
use log_transfer_analyzer.Prelude.{
  ℕ, ◌+◌, ◌-◌, ◌%◌, ◌^◌, ◌≤◌, ◌<◌, ◌≡◌, refl, ap, ◌∙◌, [], ◌∷◌, ◌++◌, true, length, length-append,
  take, drop, take-append_left, take_all, drop-append_right, Bytes, append_assoc, arith,
}
use log_transfer_analyzer.Protocol.{
  UploadHeader, UploadTrailer, Ack, ResultHeader, ResultRequest, AckStatus, ok_status,
  upload_header, upload_trailer, ack, result_header, result_request, download_done, status_code,
  max_file_size, max_csv_size,
}
use log_transfer_analyzer.Protocol.Wire.{
  get_u16, big_endian, length-big_endian, get_u64-big_endian, get_u32-big_endian, get_u16-pair,
}
use log_transfer_analyzer.Protocol.Codec.{
  ok, is_valid_filename, status_of, encode_upload_header, decode_upload_header,
  encode_upload_trailer, decode_upload_trailer, encode_ack, decode_ack, encode_result_header,
  decode_result_header, encode_result_request, decode_result_request, encode_download_done,
  decode_download_done,
}
use log_transfer_analyzer.Protocol.Codec.Preamble.{preamble, check_preamble-preamble}
use log_transfer_analyzer.Protocol.Codec.Encoded.{
  counted, encode_upload_header_lem, encode_upload_trailer_lem, encode_ack_lem,
  encode_result_header_lem, encode_result_request_lem, encode_download_done_lem,
}

-- What the protocol allows in an upload header.
pub record IsUploadHeader (h : UploadHeader) : Type 0 where
  pub size_allowed : h.file_size ≤ max_file_size
  pub name_allowed : is_valid_filename h.filename ≡ true

-- A valid filename has at most 255 bytes.
pub length-is_valid_filename : (name : Bytes) → is_valid_filename name ≡ true → length name < 256
unfolding is_valid_filename
length-is_valid_filename name h = ground arith

-- The filename behind a front, with its length in front of it.
pub counted_size :
    (front name rest : Bytes) (off : ℕ)
    → length name < 256
    → length front ≡ off
    → get_u16 (front ++ (counted name ++ rest)) off ≡ length name
counted_size front name rest off h e =
    get_u16-pair front off (length name % 2 ^ 16) (name ++ rest) (omega arith) e ∙ omega arith

pub counted_name :
    (front name rest : Bytes) (off : ℕ)
    → length front + 2 ≡ off
    → take (length name) (drop off (front ++ (counted name ++ rest))) ≡ name
counted_name front name rest off e =
    ap (take (length name)) (
      drop-append_right off front (counted name ++ rest) (omega arith)
      ∙ ap (λ k. drop k (counted name ++ rest)) two)
    ∙ take-append_left (length name) name rest (omega arith)
    ∙ take_all (length name) name (omega arith)
  where
    two : off - length front ≡ 2
    two = omega arith

-- A valid upload header is read back from its encoding.
pub decode-encode_upload_header :
    (h : UploadHeader) (rest : Bytes)
    → IsUploadHeader h
    → decode_upload_header (encode_upload_header h ++ rest) ≡ ok h
unfolding decode_upload_header
decode-encode_upload_header h rest v = rw (encode_upload_header_lem h rest) (
    ground (
      arith,
      check_preamble-preamble upload_header tail,
      get_u64-big_endian (preamble upload_header) 8 h.file_size (counted h.filename ++ rest),
      counted_size fixed h.filename rest 16,
      counted_name fixed h.filename rest 18,
      append_assoc (preamble upload_header) (big_endian 8 h.file_size) (counted h.filename ++ rest),
      length-is_valid_filename h.filename v.name_allowed,
      length-append (big_endian 8 h.file_size) (counted h.filename ++ rest),
      length-append h.filename rest,
      length-append (preamble upload_header) (big_endian 8 h.file_size),
      length-big_endian 8 h.file_size,
    ))
  where
    tail : Bytes
    tail = big_endian 8 h.file_size ++ (counted h.filename ++ rest)

    fixed : Bytes
    fixed = preamble upload_header ++ big_endian 8 h.file_size

-- An upload trailer with a 32-bit checksum is read back from its encoding.
pub decode-encode_upload_trailer :
    (t : UploadTrailer) (rest : Bytes)
    → t.crc32 < 2 ^ 32
    → decode_upload_trailer (encode_upload_trailer t ++ rest) ≡ ok t
unfolding decode_upload_trailer
decode-encode_upload_trailer t rest h = rw (encode_upload_trailer_lem t rest) (
    ground (
      arith,
      check_preamble-preamble upload_trailer (big_endian 4 t.crc32 ++ rest),
      get_u32-big_endian (preamble upload_trailer) 8 t.crc32 rest,
      length-append (big_endian 4 t.crc32) rest,
      length-big_endian 4 t.crc32,
    ))

status_of-status_code : (s : AckStatus) → status_of (status_code s) ≡ s
unfolding status_of
status_of-status_code ok_status = refl
status_of-status_code _ = refl

status_code-le : (s : AckStatus) → status_code s ≤ 5
status_code-le ok_status = omega arith
status_code-le _ = omega arith

-- An acknowledgement of any status with a 64-bit count is read back from its encoding.
pub decode-encode_ack :
    (a : Ack) (rest : Bytes) → a.received_bytes < 2 ^ 64 → decode_ack (encode_ack a ++ rest) ≡ ok a
unfolding decode_ack
decode-encode_ack a rest h = rw (encode_ack_lem a rest) (
    ground (
      arith,
      check_preamble-preamble ack (status_code a.status ∷ (big_endian 8 a.received_bytes ++ rest)),
      status_code-le a.status,
      status_of-status_code a.status,
      get_u64-big_endian (preamble ack ++ (status_code a.status ∷ [])) 9 a.received_bytes rest,
      length-append (big_endian 8 a.received_bytes) rest,
      length-big_endian 8 a.received_bytes,
    ))

-- A result header with a 64-bit size and a 32-bit checksum is read back from its encoding.
pub decode-encode_result_header :
    (r : ResultHeader) (rest : Bytes)
    → r.csv_size < 2 ^ 64
    → r.crc32 < 2 ^ 32
    → decode_result_header (encode_result_header r ++ rest) ≡ ok r
unfolding decode_result_header
decode-encode_result_header r rest h k = rw (encode_result_header_lem r rest) (
    ground (
      arith,
      check_preamble-preamble result_header tail,
      get_u64-big_endian (preamble result_header) 8 r.csv_size (big_endian 4 r.crc32 ++ rest),
      get_u32-big_endian fixed 16 r.crc32 rest,
      append_assoc (preamble result_header) (big_endian 8 r.csv_size)
          (big_endian 4 r.crc32 ++ rest),
      length-append (preamble result_header) (big_endian 8 r.csv_size),
      length-append (big_endian 8 r.csv_size) (big_endian 4 r.crc32 ++ rest),
      length-append (big_endian 4 r.crc32) rest,
      length-big_endian 8 r.csv_size,
      length-big_endian 4 r.crc32,
    ))
  where
    tail : Bytes
    tail = big_endian 8 r.csv_size ++ (big_endian 4 r.crc32 ++ rest)

    fixed : Bytes
    fixed = preamble result_header ++ big_endian 8 r.csv_size

-- What the protocol allows in a result request.
pub record IsResultRequest (r : ResultRequest) : Type 0 where
  pub size_allowed : r.file_size ≤ max_file_size
  pub crc_fits : r.crc32 < 2 ^ 32
  pub offset_allowed : r.start_offset ≤ max_csv_size
  pub name_allowed : is_valid_filename r.filename ≡ true

-- A valid result request is read back from its encoding.
pub decode-encode_result_request :
    (r : ResultRequest) (rest : Bytes)
    → IsResultRequest r
    → decode_result_request (encode_result_request r ++ rest) ≡ ok r
unfolding decode_result_request
decode-encode_result_request r rest v = rw (encode_result_request_lem r rest) (
    ground (
      arith,
      check_preamble-preamble result_request (a ++ (b ++ (c ++ name))),
      get_u64-big_endian p 8 r.file_size (b ++ (c ++ name)),
      get_u32-big_endian (p ++ a) 16 r.crc32 (c ++ name),
      get_u64-big_endian ((p ++ a) ++ b) 20 r.start_offset name,
      counted_size (((p ++ a) ++ b) ++ c) r.filename rest 28,
      counted_name (((p ++ a) ++ b) ++ c) r.filename rest 30,
      append_assoc p a (b ++ (c ++ name)),
      append_assoc (p ++ a) b (c ++ name),
      append_assoc ((p ++ a) ++ b) c name,
      length-is_valid_filename r.filename v.name_allowed,
      length-append p a,
      length-append (p ++ a) b,
      length-append ((p ++ a) ++ b) c,
      length-append a (b ++ (c ++ name)),
      length-append b (c ++ name),
      length-append c name,
      length-append r.filename rest,
      length-big_endian 8 r.file_size,
      length-big_endian 4 r.crc32,
      length-big_endian 8 r.start_offset,
    ))
  where
    p : Bytes
    p = preamble result_request

    a : Bytes
    a = big_endian 8 r.file_size

    b : Bytes
    b = big_endian 4 r.crc32

    c : Bytes
    c = big_endian 8 r.start_offset

    name : Bytes
    name = counted r.filename ++ rest

-- The message with no body is recognised.
pub decode-encode_download_done :
    (rest : Bytes) → decode_download_done (encode_download_done ++ rest) ≡ ok tt
unfolding decode_download_done
decode-encode_download_done rest =
    rw (encode_download_done_lem rest) (check_preamble-preamble download_done rest)
