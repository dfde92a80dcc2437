-- ===== src/Reassembler/Reference.antt =====
-- What a stream of bytes means as lines, with no buffer and no chunk: every byte but the newline
-- belongs to the line that is being read, and a line longer than the limit is cut.
use log_transfer_analyzer.Prelude.{
  ℕ, ◌+◌, true, false, List, [], ◌∷◌, ◌++◌, ◌==◌, ltb, if◌then◌else◌, length, take, Bytes,
}
use log_transfer_analyzer.Reassembler.{Line, emit_line}

module _ (max_len : ℕ) where
  -- The line of the bytes `raw`, which start at the offset `start`.
  abbrev pub line_of : ℕ → Bytes → Line
  line_of start raw =
      if ltb max_len (length raw)
      then emit_line (take max_len raw) start true
      else emit_line raw start false

  -- The end of the stream ends a line too, if there is one.
  abbrev pub last_line : ℕ → Bytes → List Line
  last_line start [] = []
  last_line start (c ∷ cs) = line_of start (c ∷ cs) ∷ []

  -- The lines still to come: `raw` is the part of the current line that was read.
  unfoldable pub lines_from : ℕ → Bytes → Bytes → List Line
  lines_from start raw [] = last_line start raw
  lines_from start raw (c ∷ cs) = elim (c == b'\n') [
    | true ↦ line_of start raw ∷ lines_from (start + length raw + 1) [] cs
    | false ↦ lines_from start (raw ++ (c ∷ [])) cs
  ]

  unfoldable pub lines : Bytes → List Line
  lines = lines_from 0 []

  -- The lines behind the next newline; `pos` is the offset of the next byte.
  unfoldable pub skip_line : ℕ → Bytes → List Line
  skip_line pos [] = []
  skip_line pos (c ∷ cs) = elim (c == b'\n') [
    | true ↦ lines_from (pos + 1) [] cs
    | false ↦ skip_line (pos + 1) cs
  ]
