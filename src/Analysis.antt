-- ===== src/Analysis.antt =====
-- server/src/parser/ParserThread.cpp: the pipeline behind the ring, from the chunks of a payload to
-- the counters. A job's chunks are those that `consumeReadySlots` peeks, in order.
pub mod Lines
pub mod Balance
pub mod Reported
mod Runs
use log_transfer_analyzer.Prelude.{
  ℕ, Bool, true, false, List, [], ◌∷◌, Option, none, some, Bytes, inc_u64, if◌then◌else◌,
}
use log_transfer_analyzer.Doubles.{Doubles}
use log_transfer_analyzer.LineParser.{map_limit, ParsedLine}
use log_transfer_analyzer.LineParser.Fields.{Outcome, accepted, skipped}
use log_transfer_analyzer.LineParser.Stages.{parse}
use log_transfer_analyzer.Stats.{Collector, record_line, cleared}
use log_transfer_analyzer.Skips.{Reporter, record_skip, empty_reporter}
use log_transfer_analyzer.Reassembler.{Line, Reassembler}
use log_transfer_analyzer.Reassembler

-- The members of `ParserThread` that a line changes: `_parser`'s anchor, `_stats`, `_reporter` and
-- `_totalLines`.
pub record Totals (D : Doubles) : Type 0 where
  pub anchor : Option ℕ
  pub stats : Collector D.Carrier
  pub reporter : Reporter
  pub total_lines : ℕ

module _ (D : Doubles) where
  -- The part of the callback that follows the parser.
  abbrev pub judged : Totals D → Line → Outcome (ParsedLine D.Carrier) → Totals D
  judged t line (skipped reason) = record t {
    reporter = record_skip t.reporter reason line.offset line.text;
  }
  judged t line (accepted parsed) =
      let (counted, stats) = record_line D t.stats parsed in
      record t {
        stats = stats;
        reporter =
            if counted then t.reporter else record_skip t.reporter map_limit line.offset line.text;
      }

  -- The callback of `feed` and `finish`.
  pub on_line : Totals D → Line → Totals D
  on_line t line =
      let (outcome, anchor) = parse D t.anchor line.text line.too_long in
      judged (record t { anchor = anchor; total_lines = inc_u64 t.total_lines }) line outcome

  pub on_lines : Totals D → List Line → Totals D
  on_lines t [] = t
  on_lines t (line ∷ lines) = on_lines (on_line t line) lines

  -- What `resetSessionState` leaves of the counters.
  pub fresh_totals : Totals D
  fresh_totals = record {
    anchor = none;
    stats = cleared D;
    reporter = empty_reporter;
    total_lines = 0;
  }

  -- A round of the loop of `consumeReadySlots`.
  pub consume : Reassembler × Totals D → Bytes → Reassembler × Totals D
  consume (reassembler, t) chunk =
      let (lines, reassembler') = Reassembler.feed reassembler chunk in
      (reassembler', on_lines t lines)

  pub consume_all : Reassembler × Totals D → List Bytes → Reassembler × Totals D
  consume_all state [] = state
  consume_all state (chunk ∷ chunks) = consume_all (consume state chunk) chunks

  -- `finishSession` up to the result: the counters that it reports.
  pub finish_session : Reassembler × Totals D → Totals D
  finish_session (reassembler, t) = on_lines t (Reassembler.finish reassembler).0

  -- A whole session.
  pub analyse : ℕ → List Bytes → Totals D
  analyse max_len chunks =
      finish_session (consume_all (Reassembler.init max_len, fresh_totals) chunks)
