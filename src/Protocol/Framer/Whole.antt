-- ===== src/Protocol/Framer/Whole.antt =====
-- A whole message, with any bytes behind it.
use log_transfer_analyzer.Prelude.{
  ℕ, zero, suc, ◌+◌, ◌-◌, ◌≤◌, ◌<◌, ◌≡◌, refl, sym, ap, ◌∙◌, List, [], ◌∷◌, ◌++◌, false, ltb,
  if◌then◌else◌, length, length-append, length-drop, take, drop, append-nil, append_assoc,
  take-append-drop, Bytes, ◌⊎◌, inl, inr, get_or-append_left, arith, none, some,
}
use native.Mathlib.Nat.{zero-add}
use native.Mathlib.Decide.{dec_lt}
use log_transfer_analyzer.Protocol.{MessageType, type_code}
use log_transfer_analyzer.Protocol.Wire.{byte_at}
use log_transfer_analyzer.Protocol.Codec.{
  Decoded, ok, err, need_more_data, bad_magic, bad_version, bad_type, bad_value,
  expected_message_size,
}
use log_transfer_analyzer.Protocol.Codec.Prefix.{
  fixed_part, size_known, size_unknown, expected_message_size-append_ok,
  expected_message_size-append_err,
}
use log_transfer_analyzer.Protocol.Codec.Sizes.{
  Message, encode, message_type, HasShortName, expected_message_size-encode, byte_at-encode,
  length-encode_bounds,
}
use log_transfer_analyzer.Protocol.Framer.{
  Framer, type_byte, aim, stop, judge, judge_size, checked, target_of, wrong_type, advance,
  fixed_size_for, feed_loop, feed, fresh,
}
use log_transfer_analyzer.Protocol.Framer.Judge.{with_more, judge-aim_lt}
use log_transfer_analyzer.Protocol.Framer.Chunks.{
  feed_all, joined, fresh-IsWaiting, feed_all-joined,
}
use log_transfer_analyzer.Protocol.Framer.Loop.{loop_reaches, loop_stop}

-- The bytes of one message of a type that the framer accepts.
pub record IsMessage (expected alternate : MessageType) (bytes : Bytes) : Type 0 where
  pub announced : expected_message_size bytes ≡ ok (length bytes)
  pub accepted : (byte_at bytes 5 ≡ type_code expected) ⊎ (byte_at bytes 5 ≡ type_code alternate)
  pub long : fixed_part (byte_at bytes 5) ≤ length bytes
  pub fits : length bytes ≤ 285

wrong_type_accepted :
    (fr : Framer)
    → (byte_at fr.buffer 5 ≡ type_code fr.expected) ⊎ (byte_at fr.buffer 5 ≡ type_code fr.alternate)
    → wrong_type fr ≡ false
unfolding wrong_type
wrong_type_accepted fr h = ground arith

-- The two rounds that go on.
checked-some_ahead :
    (fr : Framer) (total : ℕ)
    → wrong_type fr ≡ false
    → total ≤ 285
    → length fr.buffer < total
    → checked fr (some total) ≡ aim total
unfolding checked target_of advance
checked-some_ahead fr total w fits h = ground arith

checked-none_ahead :
    (fr : Framer)
    → wrong_type fr ≡ false
    → let t = (if ltb (length fr.buffer) 8 then 8 else fixed_part (type_byte fr.buffer)) in
      length fr.buffer < t → checked fr none ≡ aim t
unfolding checked target_of advance fixed_size_for
checked-none_ahead fr w h = ground arith

wrong_type_short : (fr : Framer) → length fr.buffer < 8 → wrong_type fr ≡ false
unfolding wrong_type
wrong_type_short fr h = ground arith

-- In front of the rest `q` of the message, the loop goes on, to a target inside the message.
judge_front :
    (fr : Framer) (q : Bytes)
    → IsMessage fr.expected fr.alternate (fr.buffer ++ q)
    → 0 < length q
    → (t : ℕ) × (judge fr ≡ aim t) × (t ≤ length fr.buffer + length q)
unfolding judge
judge_front fr q m left = go (expected_message_size fr.buffer) refl
  where
    p : Bytes
    p = fr.buffer

    same_type : 8 ≤ length p → byte_at (p ++ q) 5 ≡ byte_at p 5
    same_type h = get_or-append_left p q 5 0 (omega arith)

    typed : 8 ≤ length p → wrong_type fr ≡ false
    typed h = wrong_type_accepted fr (rw (← same_type h) m.accepted)

    go :
        (d : Decoded ℕ)
        → expected_message_size fr.buffer ≡ d
        → (t : ℕ) × (judge_size fr (expected_message_size fr.buffer) ≡ aim t)
          × (t ≤ length fr.buffer + length q)
    go (ok n) e =
        let n_is : ok n ≡ ok (length (p ++ q)) =
          sym (expected_message_size-append_ok p q n e) ∙ m.announced in
        let same : n ≡ length (p ++ q) = cc in
        let enough = size_known p n e in
        rw e (
          n,
          checked-some_ahead fr n (typed enough) (omega arith) (omega (arith, length-append p q)),
          omega (arith, length-append p q),
        )
    go (err need_more_data) e = rw e (elim (dec_lt (length p) 8) [
      | yes short ↦ (
        8,
        ground (arith, checked-none_ahead fr, wrong_type_short fr, size_unknown p e),
        omega (arith, length-append p q, size_known (p ++ q) (length (p ++ q)) m.announced),
      )
      | no enough ↦ (
        fixed_part (type_byte p),
        ground (arith, checked-none_ahead fr, typed (omega arith), size_unknown p e),
        omega (arith, length-append p q, ap fixed_part (same_type (omega arith)), m.long),
      )
    ])
    go (err bad_magic) e =
        cc (m.announced, expected_message_size-append_err p q bad_magic (λ x. cc) e)
    go (err bad_version) e =
        cc (m.announced, expected_message_size-append_err p q bad_version (λ x. cc) e)
    go (err bad_type) e =
        cc (m.announced, expected_message_size-append_err p q bad_type (λ x. cc) e)
    go (err bad_value) e =
        cc (m.announced, expected_message_size-append_err p q bad_value (λ x. cc) e)

-- The whole message ends the loop.
judge_whole : (fr : Framer) → IsMessage fr.expected fr.alternate fr.buffer → judge fr ≡ stop (ok tt)
unfolding judge checked target_of
judge_whole fr m =
    ap (judge_size fr) m.announced ∙ ground (arith, wrong_type_accepted fr m.accepted, m.fits)

loop-IsMessage :
    (f : ℕ) (fr : Framer) (q rest : Bytes) (c : ℕ)
    → IsMessage fr.expected fr.alternate (fr.buffer ++ q)
    → length (q ++ rest) < f
    → feed_loop f fr (q ++ rest) c
      ≡ (record fr { buffer = fr.buffer ++ q; status = ok tt }, c + length q)
loop-IsMessage zero fr q rest c m h = absurd (omega arith)
loop-IsMessage (suc f) fr [] rest c m h =
    loop_stop f fr rest c (ok tt) (judge_whole fr (rw append-nil at m))
    ∙ (λ i. (record fr { buffer = sym (append-nil fr.buffer) i; status = ok tt }, none_more i))
  where
    none_more : c ≡ c + 0
    none_more = omega arith
loop-IsMessage (suc f) fr (x ∷ q) rest c m h =
    let (t, e, inside) = judge_front fr (x ∷ q) m (omega arith) in
    let k = t - length fr.buffer in
    let front = take k (x ∷ q) in
    let back = drop k (x ∷ q) in
    let split : (fr.buffer ++ front) ++ back ≡ fr.buffer ++ (x ∷ q) =
      append_assoc fr.buffer front back ∙ ap (◌++◌ fr.buffer) (take-append-drop k (x ∷ q)) in
    let count : c + k + length back ≡ c + length (x ∷ q) =
      omega (arith, length-drop k (x ∷ q), judge-aim_lt fr t e) in
    loop_reaches f fr (x ∷ q) rest c t e inside
    ∙ loop-IsMessage f (with_more fr front) back rest (c + k) (rw split m) (
        omega (
          arith,
          length-append back rest,
          length-append (x ∷ q) rest,
          length-drop k (x ∷ q),
          judge-aim_lt fr t e,
        ))
    ∙ (λ i. (record fr { buffer = split i; status = ok tt }, count i))

-- The encoding of a message is a message, if the framer accepts its type.
encode-IsMessage :
    (m : Message) (expected alternate : MessageType)
    → HasShortName m
    → (message_type m ≡ expected) ⊎ (message_type m ≡ alternate)
    → IsMessage expected alternate (encode m)
encode-IsMessage m expected alternate s h = record {
  announced = rw append-nil at (expected_message_size-encode m [] s);
  accepted = either h;
  long = rw byte_at-encode (length-encode_bounds m s).0;
  fits = (length-encode_bounds m s).1;
}
  where
    either :
        (message_type m ≡ expected) ⊎ (message_type m ≡ alternate)
        → (byte_at (encode m) 5 ≡ type_code expected) ⊎ (byte_at (encode m) 5 ≡ type_code alternate)
    either (inl e) = inl (byte_at-encode m ∙ ap type_code e)
    either (inr e) = inr (byte_at-encode m ∙ ap type_code e)

-- A framer that waits for the type of an encoded message takes exactly the message out of the
-- stream, accepts it, and leaves the bytes that follow.
pub feed-encode :
    (m : Message) (expected alternate : MessageType) (rest : Bytes)
    → HasShortName m
    → (message_type m ≡ expected) ⊎ (message_type m ≡ alternate)
    → feed (fresh expected alternate) (encode m ++ rest)
      ≡ (record (fresh expected alternate) { buffer = encode m; status = ok tt }, length (encode m))
unfolding feed fresh
feed-encode m expected alternate rest s h =
    loop-IsMessage (length (encode m ++ rest) + 1) (fresh expected alternate) (encode m) rest 0
      (encode-IsMessage m expected alternate s h) (omega arith)
    ∙ (λ i. (
      record (fresh expected alternate) { buffer = encode m; status = ok tt },
      zero-add (length (encode m)) i,
    ))

-- An encoded message of one of the two types that a framer waits for, with any filename shorter
-- than 256 bytes, is accepted whatever the chunks in which it arrives with the bytes behind it:
-- the framer ends with the message in its buffer, and has consumed the message and no more.
pub feed_all-encode :
    (m : Message) (expected alternate : MessageType) (rest : Bytes) (chunks : List Bytes)
    → HasShortName m
    → (message_type m ≡ expected) ⊎ (message_type m ≡ alternate)
    → joined chunks ≡ encode m ++ rest
    → feed_all (fresh expected alternate) chunks
      ≡ (record (fresh expected alternate) { buffer = encode m; status = ok tt }, length (encode m))
feed_all-encode m expected alternate rest chunks s h e =
    feed_all-joined chunks (fresh expected alternate) (fresh-IsWaiting expected alternate)
    ∙ ap (feed (fresh expected alternate)) e
    ∙ feed-encode m expected alternate rest s h
