-- ===== src/Analysis/Balance.antt =====
-- What the counters of a session add up to.
use log_transfer_analyzer.Prelude.{
  ℕ, ◌+◌, ◌%◌, ◌≡◌, inl, inr, refl, Bool-cases, List, [], ◌∷◌, Bytes, inc_u64, u64_mod, arith,
}
use log_transfer_analyzer.Doubles.{Doubles}
use log_transfer_analyzer.LineParser.{ParsedLine, map_limit}
use log_transfer_analyzer.LineParser.Fields.{Outcome, accepted, skipped}
use log_transfer_analyzer.LineParser.Stages.{parse}
use log_transfer_analyzer.LineParser.Accepted.{parse-accepted}
use log_transfer_analyzer.Reassembler.{Line, run}
use log_transfer_analyzer.Stats.{record_line, cleared}
use log_transfer_analyzer.Stats.Samples.{IsCounts}
use log_transfer_analyzer.Stats.Session.{
  beam_sum, samples_of, HasOwnSpeed, sum_of_all, record_line-sum, record_line-IsCounts,
  record_line_balanced, cleared-IsCounts,
}
use log_transfer_analyzer.Skips.Sums.{record_skip-total}
use log_transfer_analyzer.Analysis.{Totals, judged, on_line, on_lines, fresh_totals, analyse}
use log_transfer_analyzer.Analysis.Lines.{analyse-run}

abbrev IsBalanced : {D : Doubles} → Totals D → Type 0
IsBalanced t =
    IsCounts t.stats.buckets
    × (beam_sum t.stats.buckets % u64_mod ≡ samples_of t.stats % u64_mod)
    × ((sum_of_all t.stats.buckets + t.reporter.total) % u64_mod ≡ t.total_lines % u64_mod)

module _ (D : Doubles) where
  judged-IsBalanced :
      (t : Totals D) (line : Line) (o : Outcome (ParsedLine D.Carrier))
      → ((parsed : ParsedLine D.Carrier) → o ≡ accepted parsed → HasOwnSpeed parsed)
      → IsCounts t.stats.buckets
      → beam_sum t.stats.buckets % u64_mod ≡ samples_of t.stats % u64_mod
      → (sum_of_all t.stats.buckets + t.reporter.total + 1) % u64_mod ≡ t.total_lines % u64_mod
      → IsBalanced (judged D t line o)
  judged-IsBalanced t line (skipped reason) own counts beam all =
      (counts, beam, omega (arith, record_skip-total t.reporter reason line.offset line.text, all))
  judged-IsBalanced t line (accepted parsed) own counts beam all = (
    record_line-IsCounts D t.stats parsed counts,
    record_line_balanced D t.stats parsed counts (own parsed refl) beam,
    elim (Bool-cases (record_line D t.stats parsed).0) [
      | inl e ↦ rw e (omega (arith, rw e at (record_line-sum D t.stats parsed counts), all))
      | inr e ↦ rw e (
          omega (
            arith,
            rw e at (record_line-sum D t.stats parsed counts),
            record_skip-total t.reporter map_limit line.offset line.text,
            all,
          ))
    ],
  )

  on_line-IsBalanced : (t : Totals D) (line : Line) → IsBalanced t → IsBalanced (on_line D t line)
  unfolding on_line
  on_line-IsBalanced t line (counts, beam, all) =
      judged-IsBalanced
        (record t {
          anchor = (parse D t.anchor line.text line.too_long).1;
          total_lines = inc_u64 t.total_lines;
        })
        line (parse D t.anchor line.text line.too_long).0
        (λ parsed e. (parse-accepted D t.anchor line.text line.too_long parsed e).1) counts beam
        (omega (arith, all))

  on_lines-IsBalanced :
      (lines : List Line) (t : Totals D) → IsBalanced t → IsBalanced (on_lines D t lines)
  unfolding on_lines
  on_lines-IsBalanced [] t v = v
  on_lines-IsBalanced (line ∷ lines) t v =
      on_lines-IsBalanced lines (on_line D t line) (on_line-IsBalanced t line v)

  pub analyse-IsCounts :
      (max_len : ℕ) (chunks : List Bytes) → IsCounts (analyse D max_len chunks).stats.buckets
  unfolding fresh_totals cleared
  analyse-IsCounts max_len chunks =
      let start : IsBalanced (fresh_totals D) = (cleared-IsCounts D, refl, refl) in
      (rw (← analyse-run D max_len chunks) at
        (on_lines-IsBalanced (run max_len chunks) (fresh_totals D) start)).0

  -- No line of a session is lost: modulo 2 ^ 64 the counts of all modules and hours with the
  -- skipped lines are the total of the lines, and the counts of the beam unit are the valid, the
  -- excluded and the missing samples.
  pub analyse_balanced :
      (max_len : ℕ) (chunks : List Bytes)
      → let t = analyse D max_len chunks in
        ((sum_of_all t.stats.buckets + t.reporter.total) % u64_mod ≡ t.total_lines % u64_mod)
        × (beam_sum t.stats.buckets % u64_mod
            ≡ (t.stats.valid_spd_samples + t.stats.excluded_spd_samples
                + t.stats.missing_spd_samples)
              % u64_mod)
  unfolding fresh_totals cleared
  analyse_balanced max_len chunks =
      let start : IsBalanced (fresh_totals D) = (cleared-IsCounts D, refl, refl) in
      let (counts, beam, all) =
        rw (← analyse-run D max_len chunks) at
          (on_lines-IsBalanced (run max_len chunks) (fresh_totals D) start) in
      (all, beam)
