-- ===== src/Session/Timely.antt =====
-- Every callback of a session keeps its timer as its state wants it.
use log_transfer_analyzer.Prelude.{
  ℕ, ◌==◌, ltb, if◌then◌else◌, not, Bytes, length, drop, Option, none, some,
}
use log_transfer_analyzer.Protocol.{
  AckStatus, MessageType, type_code, UploadHeader, UploadTrailer, ResultRequest,
}
use log_transfer_analyzer.Protocol.Codec.{
  Decoded, ok, err, DecodeStatus, need_more_data, bad_magic, bad_version, bad_type, bad_value,
}
use log_transfer_analyzer.Protocol.Framer.{type_byte}
use log_transfer_analyzer.Session.{
  Session, SessionTimeouts, Reason, RetainedResult, receiving, verifying, analyzing, sending_result,
  transition, cleanup, close_silently, fail_with_ack, ack_send_failed,
}
use log_transfer_analyzer.Session.Messages.{
  fed, fed_bytes, answer_request, claim_result, request_decoded, handle_result_request,
  header_decoded, header_fed, analyze_and_send_result, ack_upload, trailer_decoded, verify_and_ack,
  trailer_fed, consume_trailer, done_fed,
}
use log_transfer_analyzer.Session.Steps.{if_any}
use log_transfer_analyzer.Session.Timed.{
  IsTimed, transition-IsTimed, cleanup-IsTimed, send-IsTimed, fail_with_ack-IsTimed,
  send_header_only-IsTimed, send_result-IsTimed,
}

module _ (timeouts : SessionTimeouts) where
  abbrev pub Timed : Session → Type 0
  Timed = IsTimed timeouts

  abbrev pub Timed₀ : Session × ℕ → Type 0
  Timed₀ p = Timed p.0

  pub fails :
      (code : AckStatus) (why : Reason) (s : Session) → Timed s → Timed (fail_with_ack code why s)
  fails = fail_with_ack-IsTimed timeouts

  pub closes : (why : Reason) (s : Session) → Timed s → Timed (close_silently why s)
  unfolding close_silently
  closes = cleanup-IsTimed timeouts

  answer_request-Timed :
      (request : ResultRequest) (kept : RetainedResult) (s : Session)
      → Timed s
      → Timed (answer_request request kept s)
  unfolding answer_request
  answer_request-Timed request kept s h =
      let s' : Session = record s { filename = request.filename; csv = kept.csv } in
      let ready = transition sending_result s' in
      let h' : Timed ready = transition-IsTimed timeouts sending_result s' h in
      if_any Timed (ltb (length kept.csv) request.start_offset) (fails _ _ s h) (
        if_any Timed (length (drop request.start_offset kept.csv) == 0)
          (send_header_only-IsTimed timeouts _ ready h')
          (send_result-IsTimed timeouts _ _ ready h'))

  claim_result-Timed :
      (request : ResultRequest) (found : Option RetainedResult) (s : Session)
      → Timed s
      → Timed (claim_result request found s)
  unfolding claim_result
  claim_result-Timed request none s h = fails _ _ s h
  claim_result-Timed request (some kept) s h = answer_request-Timed request kept s h

  request_decoded-Timed :
      (kept : Option RetainedResult) (request : Decoded ResultRequest) (s : Session)
      → Timed s
      → Timed (request_decoded kept request s)
  unfolding request_decoded
  request_decoded-Timed kept (ok request) s h = claim_result-Timed request _ s h
  request_decoded-Timed kept (err bad_value) s h = fails _ _ s h
  request_decoded-Timed kept (err need_more_data) s h = closes _ s h
  request_decoded-Timed kept (err bad_magic) s h = closes _ s h
  request_decoded-Timed kept (err bad_version) s h = closes _ s h
  request_decoded-Timed kept (err bad_type) s h = closes _ s h

  header_decoded-Timed :
      (header : Decoded UploadHeader) (consumed : ℕ) (s : Session)
      → Timed s
      → Timed₀ (header_decoded header consumed s)
  unfolding header_decoded
  header_decoded-Timed (ok header) consumed s h = transition-IsTimed timeouts receiving _ h
  header_decoded-Timed (err bad_value) consumed s h = fails _ _ s h
  header_decoded-Timed (err need_more_data) consumed s h = closes _ s h
  header_decoded-Timed (err bad_magic) consumed s h = closes _ s h
  header_decoded-Timed (err bad_version) consumed s h = closes _ s h
  header_decoded-Timed (err bad_type) consumed s h = closes _ s h

  pub header_fed-Timed :
      (kept : Option RetainedResult) (reply : DecodeStatus) (consumed : ℕ) (s : Session)
      → Timed s
      → Timed₀ (header_fed kept reply consumed s)
  unfolding header_fed handle_result_request
  header_fed-Timed kept (ok _) consumed s h =
      if_any Timed₀ (type_byte s.framer.buffer == type_code MessageType.result_request)
        (request_decoded-Timed kept _ s h) (header_decoded-Timed _ consumed s h)
  header_fed-Timed kept (err need_more_data) consumed s h = h
  header_fed-Timed kept (err bad_value) consumed s h = fails _ _ s h
  header_fed-Timed kept (err bad_magic) consumed s h = closes _ s h
  header_fed-Timed kept (err bad_version) consumed s h = closes _ s h
  header_fed-Timed kept (err bad_type) consumed s h = closes _ s h

  ack_upload-Timed :
      (trailer : UploadTrailer) (s : Session) → Timed s → Timed (ack_upload trailer s)
  unfolding ack_upload analyze_and_send_result
  ack_upload-Timed trailer s h =
      if_any Timed (not (trailer.crc32 == s.payload_crc)) (fails _ _ s h) (
        send-IsTimed timeouts _ s
          (λ p. if p.1 == 0 then analyze_and_send_result p.0 else cleanup ack_send_failed p.0) h
          (λ s' rc h' _.
            if_any Timed (rc == 0) (transition-IsTimed timeouts analyzing s' h')
              (cleanup-IsTimed timeouts _ s' h')))

  trailer_decoded-Timed :
      (trailer : Decoded UploadTrailer) (s : Session) → Timed s → Timed (trailer_decoded trailer s)
  unfolding trailer_decoded
  trailer_decoded-Timed (ok trailer) s h = ack_upload-Timed trailer s h
  trailer_decoded-Timed (err need_more_data) s h = closes _ s h
  trailer_decoded-Timed (err bad_magic) s h = closes _ s h
  trailer_decoded-Timed (err bad_version) s h = closes _ s h
  trailer_decoded-Timed (err bad_type) s h = closes _ s h
  trailer_decoded-Timed (err bad_value) s h = closes _ s h

  trailer_fed-Timed :
      (reply : DecodeStatus) (consumed : ℕ) (s : Session)
      → Timed s
      → Timed₀ (trailer_fed reply consumed s)
  unfolding trailer_fed verify_and_ack
  trailer_fed-Timed (ok _) consumed s h =
      trailer_decoded-Timed _ (transition verifying s) (transition-IsTimed timeouts verifying s h)
  trailer_fed-Timed (err need_more_data) consumed s h = h
  trailer_fed-Timed (err bad_value) consumed s h = fails _ _ s h
  trailer_fed-Timed (err bad_magic) consumed s h = closes _ s h
  trailer_fed-Timed (err bad_version) consumed s h = closes _ s h
  trailer_fed-Timed (err bad_type) consumed s h = closes _ s h

  pub consume_trailer-Timed :
      (s : Session) (data' : Bytes) → Timed s → Timed₀ (consume_trailer s data')
  unfolding consume_trailer
  consume_trailer-Timed s data' h =
      trailer_fed-Timed (fed s data').framer.status (fed_bytes s data') (fed s data') h

  pub done_fed-Timed :
      (reply : DecodeStatus) (consumed : ℕ) (s : Session)
      → Timed s
      → Timed₀ (done_fed reply consumed s)
  unfolding done_fed
  done_fed-Timed (ok _) consumed s h = cleanup-IsTimed timeouts _ s h
  done_fed-Timed (err need_more_data) consumed s h = h
  done_fed-Timed (err bad_value) consumed s h = closes _ s h
  done_fed-Timed (err bad_magic) consumed s h = closes _ s h
  done_fed-Timed (err bad_version) consumed s h = closes _ s h
  done_fed-Timed (err bad_type) consumed s h = closes _ s h
