-- ===== src/Reassembler.antt =====
-- server/src/parser/LineReassembler.h: lines out of a byte stream that arrives in chunks.
pub mod Reference
mod Chunk
pub mod Stream
mod Runs
use log_transfer_analyzer.Prelude.{
  ℕ, ◌+◌, ◌-◌, Bool, true, false, not, ◌&&◌, List, [], ◌∷◌, ◌++◌, ◌==◌, ltb, if◌then◌else◌, length,
  take, Bytes, add_u64,
}

-- `LineReassembler::Line`.
pub record Line : Type 0 where
  pub text : Bytes
  pub offset : ℕ
  pub too_long : Bool

-- `LineReassembler`.
pub record Reassembler : Type 0 where
  pub fragment : Bytes
  pub stream_offset : ℕ
  pub line_start : ℕ
  pub discarding : Bool
  pub max_len : ℕ

-- `kMaxLineLength`.
abbrev pub max_line_length : ℕ
max_line_length = 65536

pub init : ℕ → Reassembler
init max_len = record {
  fragment = [];
  stream_offset = 0;
  line_start = 0;
  discarding = false;
  max_len = max_len;
}

-- `text.back() == '\r'` and `remove_suffix(1)`, for a text that may be empty.
pub remove_cr : Bytes → Bytes
remove_cr [] = []
remove_cr (c ∷ []) = if c == b'\r' then [] else c ∷ []
remove_cr (c ∷ d ∷ cs) = c ∷ remove_cr (d ∷ cs)

-- The line that `emitLine` hands to the callback.
pub emit_line : Bytes → ℕ → Bool → Line
emit_line text offset too_long = record {
  text = if too_long then text else remove_cr text;
  offset = offset;
  too_long = too_long;
}

pub is_empty : Bytes → Bool
is_empty [] = true
is_empty (c ∷ cs) = false

-- `appendTail`: the bytes of a chunk behind its last newline.
pub append_tail : Reassembler → Bytes → List Line × Reassembler
append_tail s tail =
    if ltb s.max_len (length s.fragment + length tail)
    then (emit_line whole s.line_start true ∷ [], record s { fragment = []; discarding = true })
    else ([], record s { fragment = s.fragment ++ tail })
  where
    whole : Bytes
    whole = s.fragment ++ take (s.max_len - length s.fragment) tail

-- The line that ends at a newline outside of discarding: `piece` stands between the position in
-- the chunk and the newline.
pub finished_line : Reassembler → Bytes → Line
finished_line s piece =
    if is_empty s.fragment
    then (if ltb s.max_len (length piece)
        then emit_line (take s.max_len piece) s.line_start true
        else emit_line piece s.line_start false)
    else if ltb s.max_len (length s.fragment + length piece)
    then emit_line (s.fragment ++ take (s.max_len - length s.fragment) piece) s.line_start true
    else emit_line (s.fragment ++ piece) s.line_start false

-- One round of the loop of `feed` that found a newline, `next` being the position behind it.
pub at_newline : Reassembler → ℕ → ℕ → Bytes → List Line × Reassembler
at_newline s base next piece =
    if s.discarding
    then ([], record s { discarding = false; line_start = add_u64 base next })
    else (finished_line s piece ∷ [], record s { fragment = []; line_start = add_u64 base next })

-- The last round of the loop of `feed`, with no newline left; none for `pos == chunk.size()`.
pub at_end : Reassembler → Bytes → List Line × Reassembler
at_end s [] = ([], s)
at_end s (c ∷ cs) = if s.discarding then ([], s) else append_tail s (c ∷ cs)

-- The loop of `feed`. `chunk.find('\n', pos)` is the walk over the rest of the chunk: `piece`
-- holds the bytes from `pos` to the place that is looked at, and `next` is the index behind it.
pub walk : Reassembler → ℕ → ℕ → Bytes → Bytes → List Line × Reassembler
walk s base next piece [] = at_end s piece
walk s base next piece (c ∷ cs) = elim (c == b'\n') [
  | true ↦
      let (lines, s') = at_newline s base (next + 1) piece in
      let (more, s'') = walk s' base (next + 1) [] cs in (lines ++ more, s'')
  | false ↦ walk s base (next + 1) (piece ++ (c ∷ [])) cs
]

-- `feed`: the lines given to the callback, in order, and the new state.
pub feed : Reassembler → Bytes → List Line × Reassembler
feed s chunk =
    let (lines, s') = walk s s.stream_offset 0 [] chunk in
    (lines, record s' { stream_offset = add_u64 s.stream_offset (length chunk) })

-- `finish`: the rest that no newline ends.
pub finish : Reassembler → List Line × Reassembler
finish s = (
  (if not s.discarding && not (is_empty s.fragment)
      then emit_line s.fragment s.line_start false ∷ []
      else []),
  record s { fragment = []; discarding = false },
)

-- `reset`.
pub reset : Reassembler → Reassembler
reset s = record s { fragment = []; stream_offset = 0; line_start = 0; discarding = false }

-- A session's chunks, one `feed` after the other.
unfoldable pub feed_all : Reassembler → List Bytes → List Line × Reassembler
feed_all s [] = ([], s)
feed_all s (chunk ∷ chunks) =
    let (lines, s') = feed s chunk in let (more, s'') = feed_all s' chunks in (lines ++ more, s'')

-- All lines of a session that ends with `finish`.
unfoldable pub run : ℕ → List Bytes → List Line
run max_len chunks = let (lines, s) = feed_all (init max_len) chunks in lines ++ (finish s).0
