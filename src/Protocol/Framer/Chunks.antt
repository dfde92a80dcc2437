-- ===== src/Protocol/Framer/Chunks.antt =====
-- The framer does not see how a stream is cut into chunks.
use log_transfer_analyzer.Prelude.{
  ℕ, ◌+◌, ◌≡◌, refl, sym, ap, ◌∙◌, List, [], ◌∷◌, ◌++◌, true, if◌then◌else◌, length, length-append,
  Bytes, inl, inr, arith,
}
use log_transfer_analyzer.Protocol.{MessageType}
use log_transfer_analyzer.Protocol.Codec.Prefix.{expected_message_size-nil}
use log_transfer_analyzer.Protocol.Framer.{
  judge_size, fresh, Framer, aim, judge, feed_loop, feed, is_waiting,
}
use log_transfer_analyzer.Protocol.Framer.Loop.{loop_dry, loop-append, loop_count, loop_waits}

-- `feed` on chunk after chunk, as a session calls it: until the framer has an answer.
pub feed_all : Framer → List Bytes → Framer × ℕ
feed_all fr [] = (fr, 0)
feed_all fr (chunk ∷ chunks) =
    let (fr', n) = feed fr chunk in
    let (fr'', m) = feed_all fr' chunks in if is_waiting fr'.status then (fr'', n + m) else (fr', n)

abbrev pub joined : List Bytes → Bytes
joined [] = []
joined (chunk ∷ chunks) = chunk ++ joined chunks

-- A framer in the middle of a message, or before it.
pub record IsWaiting (fr : Framer) : Type 0 where
  pub waits : is_waiting fr.status ≡ true
  pub target : ℕ
  pub aims : judge fr ≡ aim target

pub fresh-IsWaiting : (expected alternate : MessageType) → IsWaiting (fresh expected alternate)
unfolding fresh is_waiting judge
fresh-IsWaiting expected alternate = record {
  waits = refl;
  target = 8;
  aims = ap (judge_size (fresh expected alternate)) expected_message_size-nil;
}

feed-loop :
    (fr : Framer) (d : Bytes)
    → is_waiting fr.status ≡ true
    → feed fr d ≡ feed_loop (length d + 1) fr d 0
unfolding feed
feed-loop fr d w = rw w refl

-- However a stream is cut into chunks, a framer that waits for more bytes ends in the same
-- state, with the same answer, after the same number of bytes.
pub feed_all-joined :
    (chunks : List Bytes) (fr : Framer)
    → IsWaiting fr
    → feed_all fr chunks ≡ feed fr (joined chunks)
unfolding feed_all
feed_all-joined [] fr v = sym (feed-loop fr [] v.waits ∙ loop_dry 0 fr 0 v.target v.aims)
feed_all-joined (a ∷ chunks) fr v =
    elim (loop-append (length a + 1) (length (a ++ joined chunks) + 1) fr a (joined chunks) 0
      (omega arith) (omega (arith, length-append a (joined chunks))) v.waits) [
        | inl (w, e) ↦
            let r = feed_loop (length a + 1) fr a 0 in
            let (t, ahead) = loop_waits (length a + 1) fr a 0 (omega arith) w in
            let v' : IsWaiting r.0 = record { waits = w; target = t; aims = ahead } in
            rw (feed-loop fr a v.waits, w)
              (ap (λ (x : Framer × ℕ). (x.0, r.1 + x.1))
                  (feed_all-joined chunks r.0 v' ∙ feed-loop r.0 (joined chunks) w)
                ∙ sym (
                    feed-loop fr (a ++ joined chunks) v.waits
                    ∙ e
                    ∙ loop_count (length (joined chunks) + 1) r.0 (joined chunks) r.1))
        | inr (w, e) ↦
            rw (feed-loop fr a v.waits, w) (sym (feed-loop fr (a ++ joined chunks) v.waits ∙ e))
      ]
