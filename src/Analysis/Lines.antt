-- ===== src/Analysis/Lines.antt =====
-- The counters of a session are those of its lines.
use log_transfer_analyzer.Prelude.{
  ℕ, ◌<◌, ◌≡◌, refl, sym, ap, ◌∙◌, List, [], ◌∷◌, ◌++◌, Bytes, length, u64_mod,
}
use log_transfer_analyzer.Doubles.{Doubles}
use log_transfer_analyzer.Reassembler.{Line, Reassembler, init, feed, feed_all, finish, run}
use log_transfer_analyzer.Reassembler.Reference.{lines}
use log_transfer_analyzer.Reassembler.Stream.{joined, run-lines}
use log_transfer_analyzer.Analysis.{
  Totals, on_line, on_lines, fresh_totals, consume, consume_all, finish_session, analyse,
}

module _ (D : Doubles) where
  on_lines-append :
      (t : Totals D) (xs ys : List Line) → on_lines D t (xs ++ ys) ≡ on_lines D (on_lines D t xs) ys
  unfolding on_lines
  on_lines-append t [] ys = refl
  on_lines-append t (x ∷ xs) ys = on_lines-append (on_line D t x) xs ys

  consume_all-feed_all :
      (chunks : List Bytes) (s : Reassembler) (t : Totals D)
      → consume_all D (s, t) chunks ≡ ((feed_all s chunks).1, on_lines D t (feed_all s chunks).0)
  unfolding consume_all feed_all consume on_lines
  consume_all-feed_all [] s t = refl
  consume_all-feed_all (chunk ∷ chunks) s t =
      consume_all-feed_all chunks (feed s chunk).1 (on_lines D t (feed s chunk).0)
      ∙ ap (λ u. ((feed_all (feed s chunk).1 chunks).1, u))
          (sym (on_lines-append t (feed s chunk).0 (feed_all (feed s chunk).1 chunks).0))

  pub analyse-run :
      (max_len : ℕ) (chunks : List Bytes)
      → analyse D max_len chunks ≡ on_lines D (fresh_totals D) (run max_len chunks)
  unfolding analyse finish_session run
  analyse-run max_len chunks =
      ap (λ state. on_lines D state.1 (finish state.0).0)
        (consume_all-feed_all chunks (init max_len) (fresh_totals D))
      ∙ sym (on_lines-append (fresh_totals D) (feed_all (init max_len) chunks).0 _)

  -- The counters of a session do not depend on the chunks in which the payload, of fewer than 2
  -- ^ 64 bytes, arrived: they are those of the lines of the payload, cut at the limit, one after
  -- the other.
  pub analyse-lines :
      (max_len : ℕ) (chunks : List Bytes)
      → length (joined chunks) < u64_mod
      → analyse D max_len chunks ≡ on_lines D (fresh_totals D) (lines max_len (joined chunks))
  analyse-lines max_len chunks small =
      analyse-run max_len chunks ∙ ap (on_lines D (fresh_totals D)) (run-lines max_len chunks small)
