-- ===== src/Session/Trailers.antt =====
-- What a session does with a trailer and with the end of the download keeps its invariant.
use log_transfer_analyzer.Prelude.{
  ℕ, ◌≡◌, ◌==◌, if◌then◌else◌, not, false, refl, Bytes, ap, ◌∙◌, get_elem?, some, arith, ==→≡,
}
use log_transfer_analyzer.Protocol.{UploadTrailer}
use log_transfer_analyzer.Protocol.Codec.{
  Decoded, ok, err, DecodeStatus, need_more_data, bad_magic, bad_version, bad_type, bad_value,
  decode_upload_trailer,
}
use log_transfer_analyzer.Session.{
  Session, SessionState, receiving, verifying, analyzing, wait_done, same_state, emit, transition,
  sent, upload_completed, cleanup, ack_send_failed,
}
use log_transfer_analyzer.Session.Messages.{
  fed, fed_bytes, analyze_and_send_result, ack_upload, trailer_decoded, verify_and_ack, trailer_fed,
  consume_trailer, done_fed, consume_done,
}
use log_transfer_analyzer.Session.Trace.{visible, is_completed, ok_ack}
use log_transfer_analyzer.Session.Facts.{IsSession, At}
use log_transfer_analyzer.Session.Steps.{if_cases, send_cases, transition-to}
use log_transfer_analyzer.Session.Endings.{
  cleanup-Open, fail_with_ack-At, close_silently-At, At-IsSession, sent-Open,
}

-- A session that has the whole payload and has not told the parser thread.
abbrev pub Whole : SessionState → Session → Type 0
Whole state s =
    At state s × (s.received_bytes ≡ s.file_size) × (is_completed (visible s.effects) ≡ false)

-- The same with the trailer verified and the acknowledgement sent last.
abbrev Acked : Session → Type 0
Acked s =
    Whole analyzing s
    × (decode_upload_trailer s.framer.buffer ≡ ok (record { crc32 = s.payload_crc }))
    × (get_elem? (visible s.effects) 0 ≡ some (sent (ok_ack s.received_bytes)))

analyze_and_send_result-IsSession :
    (s : Session)
    → s.state ≡ verifying
    → Acked (record s { state = analyzing })
    → IsSession (analyze_and_send_result s)
unfolding analyze_and_send_result
analyze_and_send_result-IsSession s at acked = conclude (transition analyzing s) done
  where
    done : Acked (transition analyzing s)
    done =
        transition-to Acked (record { armed = λ s' timer h. h })
          (record { moved = λ s' socket answers same h. h; stopped = λ s' b h. h }) analyzing s
          (ap (λ st. same_state st analyzing) at) acked

    conclude : (s' : Session) → Acked s' → IsSession (emit upload_completed s')
    conclude s' (((live, at', v), all, before), trailer, last) =
        At-IsSession analyzing (emit upload_completed s')
          (
            live,
            at',
            record {
              within = v.within;
              sums = v.sums;
              close_flag = v.close_flag;
              abort_flag = v.abort_flag;
              finish_flag = v.finish_flag;
              orderly = (
                (v.close_flag, before, last ∙ ap (λ n. some (sent (ok_ack n))) v.sums.0),
                v.orderly,
              );
            },
          )
          refl (refl, all, trailer)

ack_upload-IsSession :
    (trailer : UploadTrailer) (s : Session)
    → decode_upload_trailer s.framer.buffer ≡ ok trailer
    → Whole verifying s
    → IsSession (ack_upload trailer s)
unfolding ack_upload
ack_upload-IsSession trailer s e ((live, at, v), all, before) =
    if_cases IsSession (not (trailer.crc32 == s.payload_crc))
      (λ _. fail_with_ack-At _ _ verifying s (live, at, v) refl (refl, before))
      (λ same.
        send_cases
          (λ p.
            IsSession
              (if p.1 == 0 then analyze_and_send_result p.0 else cleanup ack_send_failed p.0))
          _ s
          (λ socket rc f.
            if_cases IsSession (rc == 0)
              (λ _.
                analyze_and_send_result-IsSession
                  (emit (sent (ok_ack s.received_bytes)) (record s { socket = socket })) at
                  (
                    ((live, refl, sent-Open false _ s v), all, before),
                    e
                        ∙ ap (λ (n : ℕ). ok (record { crc32 = n }))
                            (==→≡ trailer.crc32 s.payload_crc (ground arith)),
                    refl,
                  ))
              (λ f'. absurd (cc (f, f'))))
          (λ socket rc f.
            if_cases IsSession (rc == 0) (λ f'. absurd (cc (f, f')))
              (λ _. cleanup-Open false ack_send_failed _ live v)))

trailer_decoded-IsSession :
    (trailer : Decoded UploadTrailer) (s : Session)
    → decode_upload_trailer s.framer.buffer ≡ trailer
    → Whole verifying s
    → IsSession (trailer_decoded trailer s)
unfolding trailer_decoded
trailer_decoded-IsSession (ok trailer) s e w = ack_upload-IsSession trailer s e w
trailer_decoded-IsSession (err need_more_data) s e w = close_silently-At _ verifying s w.0
trailer_decoded-IsSession (err bad_magic) s e w = close_silently-At _ verifying s w.0
trailer_decoded-IsSession (err bad_version) s e w = close_silently-At _ verifying s w.0
trailer_decoded-IsSession (err bad_type) s e w = close_silently-At _ verifying s w.0
trailer_decoded-IsSession (err bad_value) s e w = close_silently-At _ verifying s w.0

verify_and_ack-IsSession : (s : Session) → Whole receiving s → IsSession (verify_and_ack s)
unfolding verify_and_ack
verify_and_ack-IsSession s ((live, at, v), all, before) =
    trailer_decoded-IsSession _ (transition verifying s) refl (
      transition-to (Whole verifying) (record { armed = λ s' timer h. h })
        (record { moved = λ s' socket answers same h. h; stopped = λ s' b h. h }) verifying s
        (ap (λ st. same_state st verifying) at) ((live, refl, v), all, before))

trailer_fed-IsSession :
    (reply : DecodeStatus) (consumed : ℕ) (s : Session)
    → Whole receiving s
    → IsSession (trailer_fed reply consumed s).0
unfolding trailer_fed
trailer_fed-IsSession (ok _) consumed s w = verify_and_ack-IsSession s w
trailer_fed-IsSession (err need_more_data) consumed s (at, all, before) =
    At-IsSession receiving s at refl before
trailer_fed-IsSession (err bad_value) consumed s (at, all, before) =
    fail_with_ack-At _ _ receiving s at refl before
trailer_fed-IsSession (err bad_magic) consumed s w = close_silently-At _ receiving s w.0
trailer_fed-IsSession (err bad_version) consumed s w = close_silently-At _ receiving s w.0
trailer_fed-IsSession (err bad_type) consumed s w = close_silently-At _ receiving s w.0

pub consume_trailer-IsSession :
    (s : Session) (data' : Bytes) → Whole receiving s → IsSession (consume_trailer s data').0
unfolding consume_trailer
consume_trailer-IsSession s data' w =
    trailer_fed-IsSession (fed s data').framer.status (fed_bytes s data') (fed s data') w

done_fed-IsSession :
    (reply : DecodeStatus) (consumed : ℕ) (s : Session)
    → At wait_done s
    → IsSession (done_fed reply consumed s).0
unfolding done_fed
done_fed-IsSession (ok _) consumed s (live, at, v) = cleanup-Open false _ s live v
done_fed-IsSession (err need_more_data) consumed s at = At-IsSession wait_done s at refl tt
done_fed-IsSession (err bad_value) consumed s at = close_silently-At _ wait_done s at
done_fed-IsSession (err bad_magic) consumed s at = close_silently-At _ wait_done s at
done_fed-IsSession (err bad_version) consumed s at = close_silently-At _ wait_done s at
done_fed-IsSession (err bad_type) consumed s at = close_silently-At _ wait_done s at

pub consume_done-IsSession :
    (s : Session) (data' : Bytes) → At wait_done s → IsSession (consume_done s data').0
unfolding consume_done
consume_done-IsSession s data' at =
    done_fed-IsSession (fed s data').framer.status (fed_bytes s data') (fed s data') at
