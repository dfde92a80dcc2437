-- ===== src/Manager/Runs.antt =====
-- Two clients, the first of which goes away while its upload is analysed.
use log_transfer_analyzer.Prelude.{◌≡◌, refl, true, List, [], ◌∷◌}
use log_transfer_analyzer.Manager.{
  Event, connects, reaps, completes, does, turns, commits, marks, cleans, closes, discards, clears,
  reports, consumes, finds_complete, stores, empties, sends, lowers, listening, accept_if_idle,
  accept_when_parser_idle, on_connection, on_reap, step, run,
}
use log_transfer_analyzer.Manager.Isolation.{IsIsolated, run-IsIsolated}
use log_transfer_analyzer.Manager.Served.{Served, run-Served}

abbrev two_clients : List Event
two_clients =
    connects true
    ∷ does commits
    ∷ does marks
    ∷ connects true
    ∷ turns consumes
    ∷ does cleans
    ∷ turns discards
    ∷ turns clears
    ∷ turns reports
    ∷ []

run-IsIsolated_example : IsIsolated (run listening two_clients)
run-IsIsolated_example = run-IsIsolated two_clients

run-Served_example : Served (run listening two_clients).session (run listening two_clients)
run-Served_example = run-Served two_clients

-- The mark of the first upload outlives its abort. The parser thread takes it for that of an empty
-- upload; its reset drops the chunk of the second session, whose result is empty.
abbrev second_client : List Event
second_client =
    turns finds_complete
    ∷ does closes
    ∷ reaps true
    ∷ does commits
    ∷ turns stores
    ∷ turns empties
    ∷ turns sends
    ∷ completes
    ∷ turns lowers
    ∷ does marks
    ∷ turns finds_complete
    ∷ turns stores
    ∷ turns empties
    ∷ turns sends
    ∷ completes
    ∷ []

dropped_chunk : (run (run listening two_clients) second_client).delivered ≡ (1, []) ∷ (1, []) ∷ []
unfolding run step on_connection on_reap accept_when_parser_idle accept_if_idle
dropped_chunk = refl

-- A result that is stored before the abort is still there when the next session starts.
abbrev late_result : List Event
late_result =
    connects true
    ∷ does commits
    ∷ does marks
    ∷ connects true
    ∷ turns consumes
    ∷ turns finds_complete
    ∷ turns stores
    ∷ turns empties
    ∷ turns sends
    ∷ does cleans
    ∷ turns lowers
    ∷ turns discards
    ∷ turns clears
    ∷ turns reports
    ∷ does closes
    ∷ reaps true
    ∷ []

earlier_result : (run listening late_result).parser.result ≡ 0 ∷ []
unfolding run step on_connection on_reap accept_when_parser_idle accept_if_idle
earlier_result = refl
