-- ===== src/Session/Runs.antt =====
-- An upload of three bytes from its header to the end of the download, and what the theorems say
-- of it.
use log_transfer_analyzer.Prelude.{
  ◌≡◌, refl, true, false, List, [], ◌∷◌, ◌++◌, Bytes, codes, length, none,
}
use log_transfer_analyzer.Crc32.{crc32, bit_round, bit_rounds, table_from, table, update, crc_loop}
use log_transfer_analyzer.Net.Timer
use log_transfer_analyzer.Net.TcpSocket
use log_transfer_analyzer.Net.TcpSocket.{Socket}
use log_transfer_analyzer.Protocol.Wire.{
  put_u16, put_u32, put_u64, put_shifts, get_u16, get_u32, get_u64, get_bytes, big_endian,
}
use log_transfer_analyzer.Protocol.Framer.{
  feed, is_waiting, feed_loop, judge, judge_size, checked, wrong_type, target_of, advance,
  fixed_size_for, fresh, reset,
}
use log_transfer_analyzer.Protocol.Codec.{
  encode_upload_header, encode_upload_trailer, encode_download_done, encode_result_header,
  encode_ack, ok, expected_message_size, size_for, is_magic, check_preamble, put_preamble,
  no_forbidden, is_valid_filename, decode_upload_header, decode_upload_trailer,
}
use log_transfer_analyzer.Session.Messages.{
  consume_header, header_fed, header_decoded, consume_trailer, trailer_fed, verify_and_ack,
  trailer_decoded, ack_upload, analyze_and_send_result, send_result, consume_done, done_fed,
}
use log_transfer_analyzer.Session.Payload.{consume_slot}
use log_transfer_analyzer.Session.{
  SessionTimeouts, Answers, analyzing, completed, init, transition, cleanup, arm_timer,
  resume_reading, send, apply_backpressure,
}
use log_transfer_analyzer.Session.Callbacks.{
  Event, arrive, write_completes, close, analysed, on_send_complete, on_analysis_complete,
  on_closed, step, on_allocate, on_read, read_loop, consume, consume_in, run, start, reached,
}
use log_transfer_analyzer.Session.Trace.{visible, payload, is_completed, IsOrderly}
use log_transfer_analyzer.Session.Sound.{run-IsOrderly, run-analyzing}
use log_transfer_analyzer.Session.Reads.{Reads, read_loop-Reads}

abbrev timeouts : SessionTimeouts
timeouts = record { idle_ms = 30000; response_ms = 120000 }

abbrev socket : Socket
socket = record {
  has_handle = true;
  reading = false;
  closing = false;
  closed = false;
  pending_writes = 0;
  uv = [];
}

abbrev answers : Answers
answers = record { slots = true ∷ []; fulls = true ∷ [] }

abbrev file : Bytes
file = codes "a\nb"

abbrev upload : List Event
upload =
    arrive 64 (encode_upload_header (record { file_size = 3; filename = codes "a.log" })) none
    ∷ arrive 64 file none
    ∷ arrive 64 (encode_upload_trailer (record { crc32 = crc32 0 file })) none
    ∷ []

-- The parser thread has finished; the two sends of the result end, and the peer confirms.
abbrev download : List Event
download =
    analysed (record { csv = codes "x"; crc32 = 7; total_lines = 2; skipped_lines = 2 })
    ∷ write_completes 0
    ∷ write_completes 0
    ∷ write_completes 0
    ∷ arrive 64 encode_download_done none
    ∷ close
    ∷ []

analysing : (reached timeouts 4096 socket answers upload).state ≡ analyzing
unfolding run start step on_allocate on_read read_loop consume consume_in consume_header header_fed
    header_decoded consume_slot apply_backpressure consume_trailer trailer_fed verify_and_ack
    trailer_decoded ack_upload analyze_and_send_result transition arm_timer resume_reading send feed
    is_waiting feed_loop judge judge_size checked wrong_type target_of advance fixed_size_for fresh
    reset expected_message_size size_for is_magic check_preamble put_preamble no_forbidden
    is_valid_filename encode_upload_header encode_upload_trailer decode_upload_header
    decode_upload_trailer put_u16 put_u32 put_u64 put_shifts get_u16 get_u32 get_u64 get_bytes
    big_endian crc32 bit_round bit_rounds table_from table update crc_loop Timer.start Timer.stop
    Timer.restart Timer.idle TcpSocket.start_read TcpSocket.stop_read TcpSocket.send TcpSocket.close
analysing = refl

run-IsOrderly_example : IsOrderly (visible (reached timeouts 4096 socket answers upload).effects)
run-IsOrderly_example = run-IsOrderly timeouts 4096 socket answers upload

run-analyzing_example :
    (is_completed (visible (reached timeouts 4096 socket answers upload).effects) ≡ true)
    × (length (payload (visible (reached timeouts 4096 socket answers upload).effects))
        ≡ (reached timeouts 4096 socket answers upload).file_size)
    × (decode_upload_trailer (reached timeouts 4096 socket answers upload).framer.buffer
        ≡ ok (record {
          crc32 = crc32 0 (payload (visible (reached timeouts 4096 socket answers upload).effects));
        }))
run-analyzing_example = run-analyzing timeouts 4096 socket answers upload analysing

-- The header of an upload, and the first byte of its payload.
abbrev first_bytes : Bytes
first_bytes = encode_upload_header (record { file_size = 3; filename = codes "a.log" }) ++ codes "a"

read_loop-Reads_example :
    Reads none
      (init timeouts 4096 socket answers)
      first_bytes
      (read_loop (length first_bytes) none (init timeouts 4096 socket answers) first_bytes)
read_loop-Reads_example = read_loop-Reads none (init timeouts 4096 socket answers) first_bytes

-- The session ends when the download is confirmed.
downloaded : (run (reached timeouts 4096 socket answers upload) download).finish_reason ≡ completed
unfolding TcpSocket.write_done TcpSocket.close_done on_send_complete on_analysis_complete
    send_result consume_done done_fed cleanup on_closed encode_result_header encode_download_done
    encode_ack run start step on_allocate on_read read_loop consume consume_in consume_header
    header_fed header_decoded consume_slot apply_backpressure consume_trailer trailer_fed
    verify_and_ack trailer_decoded ack_upload analyze_and_send_result transition arm_timer
    resume_reading send feed is_waiting feed_loop judge judge_size checked wrong_type target_of
    advance fixed_size_for fresh reset expected_message_size size_for is_magic check_preamble
    put_preamble no_forbidden is_valid_filename encode_upload_header encode_upload_trailer
    decode_upload_header decode_upload_trailer put_u16 put_u32 put_u64 put_shifts get_u16 get_u32
    get_u64 get_bytes big_endian crc32 bit_round bit_rounds table_from table update crc_loop
    Timer.start Timer.stop Timer.restart Timer.idle TcpSocket.start_read TcpSocket.stop_read
    TcpSocket.send TcpSocket.close
downloaded = refl
