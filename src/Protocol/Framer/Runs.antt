-- ===== src/Protocol/Framer/Runs.antt =====
-- A message in three pieces with bytes behind it.
use log_transfer_analyzer.Prelude.{
  ◌≡◌, refl, inl, List, [], ◌∷◌, ◌++◌, Bytes, codes, length, take, drop, take-append-drop,
  append-nil, append_assoc, sym, ap, ◌∙◌, arith,
}
use log_transfer_analyzer.Protocol.{upload_header, result_request}
use log_transfer_analyzer.Protocol.Codec.{ok}
use log_transfer_analyzer.Protocol.Codec.Sizes.{Message, header, encode}
use log_transfer_analyzer.Protocol.Framer.{Framer, fresh, feed}
use log_transfer_analyzer.Protocol.Framer.Chunks.{
  joined, feed_all, fresh-IsWaiting, feed_all-joined,
}
use log_transfer_analyzer.Protocol.Framer.Whole.{feed-encode, feed_all-encode}

abbrev message : Message
message = header (record { file_size = 4096; filename = codes "a.log" })

abbrev waiting : Framer
waiting = fresh upload_header result_request

abbrev pieces : List Bytes
pieces = take 3 (encode message) ∷ (drop 3 (encode message) ++ codes "data") ∷ []

feed_all-joined_example : feed_all waiting pieces ≡ feed waiting (joined pieces)
feed_all-joined_example =
    feed_all-joined pieces waiting (fresh-IsWaiting upload_header result_request)

feed-encode_example :
    feed waiting (encode message ++ codes "data")
    ≡ (record waiting { buffer = encode message; status = ok tt }, length (encode message))
feed-encode_example =
    feed-encode message upload_header result_request (codes "data") (omega arith) (inl refl)

feed_all-encode_example :
    feed_all waiting pieces
    ≡ (record waiting { buffer = encode message; status = ok tt }, length (encode message))
feed_all-encode_example =
    feed_all-encode message upload_header result_request (codes "data") pieces (omega arith)
      (inl refl) whole
  where
    front : Bytes
    front = take 3 (encode message)

    whole : joined pieces ≡ encode message ++ codes "data"
    whole =
        ap (λ x. front ++ x) (append-nil (drop 3 (encode message) ++ codes "data"))
        ∙ sym (append_assoc front (drop 3 (encode message)) (codes "data"))
        ∙ ap (λ x. x ++ codes "data") (take-append-drop 3 (encode message))
