-- ===== src/Protocol/Codec/Sizes.antt =====
-- `expectedMessageSize` on encoded messages.
use log_transfer_analyzer.Prelude.{
  ◌≤◌, ◌+◌, ◌<◌, ◌≡◌, refl, sym, ap, ◌∙◌, [], ◌++◌, length, length-append, Bytes, append_assoc,
  append-nil, arith, le→leb,
}
use log_transfer_analyzer.Protocol.{
  UploadHeader, UploadTrailer, Ack, ResultHeader, ResultRequest, MessageType, upload_header,
  upload_trailer, ack, result_header, result_request, download_done, type_code,
}
use log_transfer_analyzer.Protocol.Wire.{byte_at, big_endian, length-big_endian}
use log_transfer_analyzer.Protocol.Codec.{
  ok, is_magic, size_for, expected_message_size, encode_upload_header, encode_upload_trailer,
  encode_ack, encode_result_header, encode_result_request, encode_download_done,
}
use log_transfer_analyzer.Protocol.Codec.Prefix.{fixed_part}
use log_transfer_analyzer.Protocol.Codec.Preamble.{preamble}
use log_transfer_analyzer.Protocol.Codec.Encoded.{
  counted, encode_upload_header_lem, encode_upload_trailer_lem, encode_ack_lem,
  encode_result_header_lem, encode_result_request_lem, encode_download_done_lem,
}
use log_transfer_analyzer.Protocol.Codec.RoundTrip.{counted_size}

-- A message of any type.
pub data Message : Type 0 where
  header : UploadHeader → Message
  trailer : UploadTrailer → Message
  acked : Ack → Message
  result : ResultHeader → Message
  request : ResultRequest → Message
  done : Message

abbrev pub encode : Message → Bytes
encode (header h) = encode_upload_header h
encode (trailer t) = encode_upload_trailer t
encode (acked a) = encode_ack a
encode (result r) = encode_result_header r
encode (request r) = encode_result_request r
encode done = encode_download_done

abbrev pub message_type : Message → MessageType
message_type (header h) = upload_header
message_type (trailer t) = upload_trailer
message_type (acked a) = ack
message_type (result r) = result_header
message_type (request r) = result_request
message_type done = download_done

-- The filename, if there is one, is short enough.
abbrev pub HasShortName : Message → Type 0
HasShortName (header h) = length h.filename < 256
HasShortName (request r) = length r.filename < 256
HasShortName _ = Unit

size_for-preamble :
    (t : MessageType) (rest : Bytes)
    → expected_message_size (preamble t ++ rest) ≡ size_for (preamble t ++ rest) (type_code t)
unfolding expected_message_size is_magic
size_for-preamble t rest = rw (le→leb 8 (length (preamble t ++ rest)) (omega arith)) refl

-- The size of each encoding, as `Codec` computes it.
pub length-encode_upload_header :
    (h : UploadHeader) → length (encode_upload_header h) ≡ 18 + length h.filename
length-encode_upload_header h = omega (
  arith,
  ap length (sym (append-nil (encode_upload_header h)) ∙ encode_upload_header_lem h []),
  length-append (big_endian 8 h.file_size) (counted h.filename ++ []),
  length-append h.filename [],
  length-big_endian 8 h.file_size,
)

pub length-encode_result_request :
    (r : ResultRequest) → length (encode_result_request r) ≡ 30 + length r.filename
length-encode_result_request r = omega (
  arith,
  ap length (sym (append-nil (encode_result_request r)) ∙ encode_result_request_lem r []),
  length-append (big_endian 8 r.file_size)
      (big_endian 4 r.crc32 ++ (big_endian 8 r.start_offset ++ (counted r.filename ++ []))),
  length-append (big_endian 4 r.crc32) (big_endian 8 r.start_offset ++ (counted r.filename ++ [])),
  length-append (big_endian 8 r.start_offset) (counted r.filename ++ []),
  length-append r.filename [],
  length-big_endian 8 r.file_size,
  length-big_endian 4 r.crc32,
  length-big_endian 8 r.start_offset,
)

length-encode_upload_trailer : (t : UploadTrailer) → length (encode_upload_trailer t) ≡ 12
length-encode_upload_trailer t = omega (
  arith,
  ap length (sym (append-nil (encode_upload_trailer t)) ∙ encode_upload_trailer_lem t []),
  length-append (big_endian 4 t.crc32) [],
  length-big_endian 4 t.crc32,
)

length-encode_ack : (a : Ack) → length (encode_ack a) ≡ 17
length-encode_ack a = omega (
  arith,
  ap length (sym (append-nil (encode_ack a)) ∙ encode_ack_lem a []),
  length-append (big_endian 8 a.received_bytes) [],
  length-big_endian 8 a.received_bytes,
)

length-encode_result_header : (r : ResultHeader) → length (encode_result_header r) ≡ 20
length-encode_result_header r = omega (
  arith,
  ap length (sym (append-nil (encode_result_header r)) ∙ encode_result_header_lem r []),
  length-append (big_endian 8 r.csv_size) (big_endian 4 r.crc32 ++ []),
  length-append (big_endian 4 r.crc32) [],
  length-big_endian 8 r.csv_size,
  length-big_endian 4 r.crc32,
)

length-encode_download_done : length encode_download_done ≡ 8
length-encode_download_done =
    ap length (sym (append-nil encode_download_done) ∙ encode_download_done_lem [])

-- From its encoding on, whatever bytes follow, a message whose filename, if it has one, is
-- shorter than 256 bytes announces exactly the size of the encoding.
pub expected_message_size-encode :
    (m : Message) (rest : Bytes)
    → HasShortName m
    → expected_message_size (encode m ++ rest) ≡ ok (length (encode m))
unfolding size_for
expected_message_size-encode (header h) rest s =
    rw (encode_upload_header_lem h rest, size_for-preamble)
      (ground (
        arith,
        length-encode_upload_header h,
        append_assoc (preamble upload_header) (big_endian 8 h.file_size)
            (counted h.filename ++ rest),
        length-append (preamble upload_header) (big_endian 8 h.file_size),
        length-append (big_endian 8 h.file_size) (counted h.filename ++ rest),
        length-big_endian 8 h.file_size,
        counted_size (preamble upload_header ++ big_endian 8 h.file_size) h.filename rest 16,
      ))
expected_message_size-encode (trailer t) rest s =
    rw (encode_upload_trailer_lem t rest, size_for-preamble, length-encode_upload_trailer t) refl
expected_message_size-encode (acked a) rest s =
    rw (encode_ack_lem a rest, size_for-preamble, length-encode_ack a) refl
expected_message_size-encode (result r) rest s =
    rw (encode_result_header_lem r rest, size_for-preamble, length-encode_result_header r) refl
expected_message_size-encode (request r) rest s =
    rw (encode_result_request_lem r rest, size_for-preamble)
      (ground (
        arith,
        length-encode_result_request r,
        append_assoc p a (b ++ (c ++ name)),
        append_assoc (p ++ a) b (c ++ name),
        append_assoc ((p ++ a) ++ b) c name,
        length-append p a,
        length-append (p ++ a) b,
        length-append ((p ++ a) ++ b) c,
        length-append a (b ++ (c ++ name)),
        length-append b (c ++ name),
        length-append c name,
        length-big_endian 8 r.file_size,
        length-big_endian 4 r.crc32,
        length-big_endian 8 r.start_offset,
        counted_size (((p ++ a) ++ b) ++ c) r.filename rest 28,
      ))
  where
    p : Bytes
    p = preamble result_request

    a : Bytes
    a = big_endian 8 r.file_size

    b : Bytes
    b = big_endian 4 r.crc32

    c : Bytes
    c = big_endian 8 r.start_offset

    name : Bytes
    name = counted r.filename ++ rest
expected_message_size-encode done rest s =
    rw (encode_download_done_lem rest, size_for-preamble, length-encode_download_done) refl

at_type :
    (t : MessageType) (b tail : Bytes) → b ++ [] ≡ preamble t ++ tail → byte_at b 5 ≡ type_code t
at_type t b tail e = ap (λ x. byte_at x 5) (sym (append-nil b) ∙ e)

-- The sixth byte is the type.
pub byte_at-encode : (m : Message) → byte_at (encode m) 5 ≡ type_code (message_type m)
byte_at-encode (header h) =
    at_type upload_header (encode_upload_header h) _ (encode_upload_header_lem h [])
byte_at-encode (trailer t) =
    at_type upload_trailer (encode_upload_trailer t) _ (encode_upload_trailer_lem t [])
byte_at-encode (acked a) = at_type ack (encode_ack a) _ (encode_ack_lem a [])
byte_at-encode (result r) =
    at_type result_header (encode_result_header r) _ (encode_result_header_lem r [])
byte_at-encode (request r) =
    at_type result_request (encode_result_request r) _ (encode_result_request_lem r [])
byte_at-encode done = at_type download_done encode_download_done [] (encode_download_done_lem [])

-- A message holds its part of fixed size, and fits the buffer of the framer.
pub length-encode_bounds :
    (m : Message)
    → HasShortName m
    → (fixed_part (type_code (message_type m)) ≤ length (encode m)) × (length (encode m) ≤ 285)
length-encode_bounds (header h) s = omega (arith, length-encode_upload_header h)
length-encode_bounds (trailer t) s = omega (arith, length-encode_upload_trailer t)
length-encode_bounds (acked a) s = omega (arith, length-encode_ack a)
length-encode_bounds (result r) s = omega (arith, length-encode_result_header r)
length-encode_bounds (request r) s = omega (arith, length-encode_result_request r)
length-encode_bounds done s = omega (arith, length-encode_download_done)
