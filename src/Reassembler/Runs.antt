-- ===== src/Reassembler/Runs.antt =====
-- Sample streams, and the theorems about the reassembler at them.
use log_transfer_analyzer.Prelude.{
  ◌≤◌, ◌≡◌, refl, true, false, List, [], ◌∷◌, Bytes, codes, length, All, arith,
}
use log_transfer_analyzer.Reassembler.{
  Line, init, feed, feed_all, finish, run, walk, at_newline, at_end, append_tail, finished_line,
  emit_line, remove_cr, is_empty,
}
use log_transfer_analyzer.Reassembler.Reference.{lines, lines_from}
use log_transfer_analyzer.Reassembler.Stream.{run-lines, run_bounded}

-- "ab\r\n", a line of seven bytes cut by chunks, and a rest with no newline.
abbrev chunks : List Bytes
chunks = codes "ab\r\nlon" ∷ codes "ger" ∷ codes "!!\nx" ∷ codes "y" ∷ []

abbrev expected : List Line
expected =
    record { text = codes "ab"; offset = 0; too_long = false }
    ∷ record { text = codes "longe"; offset = 4; too_long = true }
    ∷ record { text = codes "xy"; offset = 13; too_long = false }
    ∷ []

run-chunks : run 5 chunks ≡ expected
unfolding run init feed_all feed walk at_newline at_end append_tail finished_line emit_line
    remove_cr is_empty finish
run-chunks = refl

lines-chunks : lines 5 (codes "ab\r\nlonger!!\nxy") ≡ expected
unfolding lines lines_from emit_line remove_cr
lines-chunks = refl

run-lines_example : run 5 chunks ≡ lines 5 (codes "ab\r\nlonger!!\nxy")
run-lines_example = run-lines 5 chunks (omega arith)

run_bounded_example :
    (length (feed_all (init 5) chunks).1.fragment ≤ 5) × All (λ l. length l.text ≤ 5) (run 5 chunks)
run_bounded_example = run_bounded 5 chunks (omega arith)
