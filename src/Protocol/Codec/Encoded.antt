-- ===== src/Protocol/Codec/Encoded.antt =====
-- The encoded messages as preamble, big-endian fields and filename.
use log_transfer_analyzer.Prelude.{◌/◌, ◌%◌, ◌^◌, ◌≡◌, refl, ◌∷◌, ◌++◌, length, Bytes, append_assoc}
use log_transfer_analyzer.Protocol.{
  UploadHeader, UploadTrailer, Ack, ResultHeader, ResultRequest, upload_header, upload_trailer, ack,
  result_header, result_request, download_done, status_code,
}
use log_transfer_analyzer.Protocol.Wire.{
  put_u16, big_endian, put_u32-big_endian, put_u64-big_endian,
}
use log_transfer_analyzer.Protocol.Codec.{
  put_preamble, encode_upload_header, encode_upload_trailer, encode_ack, encode_result_header,
  encode_result_request, encode_download_done,
}
use log_transfer_analyzer.Protocol.Codec.Preamble.{preamble}

-- A filename with its length in front.
abbrev pub counted : Bytes → Bytes
counted name = let n = length name % 2 ^ 16 in n / 2 ^ 8 % 256 ∷ n % 256 ∷ name

pub encode_upload_header_lem :
    (h : UploadHeader) (rest : Bytes)
    → encode_upload_header h ++ rest
      ≡ preamble upload_header ++ (big_endian 8 h.file_size ++ (counted h.filename ++ rest))
unfolding encode_upload_header put_preamble put_u16
encode_upload_header_lem h rest = rw put_u64-big_endian (simp append_assoc)

pub encode_upload_trailer_lem :
    (t : UploadTrailer) (rest : Bytes)
    → encode_upload_trailer t ++ rest ≡ preamble upload_trailer ++ (big_endian 4 t.crc32 ++ rest)
unfolding encode_upload_trailer put_preamble
encode_upload_trailer_lem t rest = rw put_u32-big_endian (simp append_assoc)

pub encode_ack_lem :
    (a : Ack) (rest : Bytes)
    → encode_ack a ++ rest
      ≡ preamble ack ++ (status_code a.status ∷ (big_endian 8 a.received_bytes ++ rest))
unfolding encode_ack put_preamble
encode_ack_lem a rest = rw put_u64-big_endian (simp append_assoc)

pub encode_result_header_lem :
    (r : ResultHeader) (rest : Bytes)
    → encode_result_header r ++ rest
      ≡ preamble result_header ++ (big_endian 8 r.csv_size ++ (big_endian 4 r.crc32 ++ rest))
unfolding encode_result_header put_preamble
encode_result_header_lem r rest = rw (put_u64-big_endian, put_u32-big_endian) (simp append_assoc)

pub encode_result_request_lem :
    (r : ResultRequest) (rest : Bytes)
    → encode_result_request r ++ rest
      ≡ preamble result_request
        ++ (big_endian 8 r.file_size
            ++ (big_endian 4 r.crc32
                ++ (big_endian 8 r.start_offset ++ (counted r.filename ++ rest))))
unfolding encode_result_request put_preamble put_u16
encode_result_request_lem r rest = simp (put_u64-big_endian, put_u32-big_endian, append_assoc)

pub encode_download_done_lem :
    (rest : Bytes) → encode_download_done ++ rest ≡ preamble download_done ++ rest
unfolding encode_download_done put_preamble
encode_download_done_lem rest = refl
