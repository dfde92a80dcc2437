-- ===== src/Reassembler/Stream.antt =====
-- A whole session: `feed` on chunks of any sizes, then `finish`.
use log_transfer_analyzer.Prelude.{
  ℕ, ◌+◌, ◌≤◌, ◌<◌, ◌≡◌, refl, sym, ap, ◌∙◌, false, List, [], ◌∷◌, ◌++◌, inl, inr, Bool-cases,
  length, length-append, Bytes, u64_mod, append-nil, append_assoc, arith, add_u64, All, length-take,
  subst, ◌==◌,
}
use log_transfer_analyzer.Reassembler.{
  Line, Reassembler, init, feed, finish, emit_line, remove_cr, feed_all, run, is_empty,
}
use log_transfer_analyzer.Reassembler.Reference.{line_of, lines, lines_from, skip_line}
use log_transfer_analyzer.Reassembler.Chunk.{owed, IsAt, walk_lem, max_len-walk}

-- The bytes of all chunks, in order.
abbrev pub joined : List Bytes → Bytes
joined [] = []
joined (chunk ∷ chunks) = chunk ++ joined chunks

-- The lines that the state between two chunks owes for the bytes to come.
abbrev owes : Reassembler → Bytes → List Line
owes s rest = owed s [] s.stream_offset rest

feed_lem :
    (s : Reassembler) (chunk rest : Bytes)
    → s.stream_offset + length chunk < u64_mod
    → IsAt s [] s.stream_offset
    → let (out, s') = feed s chunk in
      (owes s (chunk ++ rest) ≡ out ++ owes s' rest)
      × IsAt s' [] s'.stream_offset
      × (s'.stream_offset ≡ s.stream_offset + length chunk)
unfolding feed
feed_lem s chunk rest small v =
    let w =
      walk_lem chunk s s.stream_offset 0 s.stream_offset (add_u64 s.stream_offset (length chunk)) []
        rest (omega arith) (omega arith) (omega arith) v in
    (w.0, record { bounded = w.1.bounded; dropped = w.1.dropped; placed = w.1.placed }, omega arith)

feed_all_lem :
    (chunks : List Bytes) (s : Reassembler) (rest : Bytes)
    → s.stream_offset + length (joined chunks) < u64_mod
    → IsAt s [] s.stream_offset
    → let (out, s') = feed_all s chunks in
      (owes s (joined chunks ++ rest) ≡ out ++ owes s' rest) × IsAt s' [] s'.stream_offset
unfolding feed_all
feed_all_lem [] s rest small v = (refl, v)
feed_all_lem (chunk ∷ chunks) s rest small v =
    let split = length-append chunk (joined chunks) in
    let (here, v', on) = feed_lem s chunk (joined chunks ++ rest) (omega arith) v in
    let (later, v'') = feed_all_lem chunks (feed s chunk).1 rest (omega arith) v' in
    (
      ap (owes s) (append_assoc chunk (joined chunks) rest)
          ∙ here
          ∙ ap (◌++◌ (feed s chunk).0) later
          ∙ sym (append_assoc (feed s chunk).0 _ _),
      v'',
    )

max_len-feed_all :
    (chunks : List Bytes) (s : Reassembler) → (feed_all s chunks).1.max_len ≡ s.max_len
unfolding feed_all feed
max_len-feed_all [] s = refl
max_len-feed_all (chunk ∷ chunks) s =
    max_len-feed_all chunks (feed s chunk).1 ∙ max_len-walk chunk s s.stream_offset 0 []

-- `finish` hands out all that is owed at the end of the stream.
finish_lem : (s : Reassembler) → IsAt s [] s.stream_offset → (finish s).0 ≡ owes s []
unfolding finish is_empty lines_from skip_line
finish_lem s v = elim (Bool-cases s.discarding) [
  | inl d ↦ ground (arith)
  | inr d ↦ go s.fragment refl d
]
  where
    go : (f : Bytes) → s.fragment ≡ f → s.discarding ≡ false → (finish s).0 ≡ owes s []
    go [] e d = ground (arith)
    go (c ∷ cs) e d = ground (arith, append-nil s.fragment, ap length e)

start-IsAt : (max_len : ℕ) → IsAt (init max_len) [] (init max_len).stream_offset
unfolding init
start-IsAt max_len = record { bounded = omega arith; dropped = λ _. refl; placed = λ _. refl }

-- Whatever the sizes of the chunks in which a stream of fewer than 2 ^ 64 bytes arrives, the
-- callback gets exactly the lines of the stream, cut at the limit, each with its offset.
pub run-lines :
    (max_len : ℕ) (chunks : List Bytes)
    → length (joined chunks) < u64_mod
    → run max_len chunks ≡ lines max_len (joined chunks)
unfolding run init lines
run-lines max_len chunks small =
    let (all, v) = feed_all_lem chunks (init max_len) [] (omega arith) (start-IsAt max_len) in
    ap (◌++◌ (feed_all (init max_len) chunks).0) (finish_lem _ v)
    ∙ sym all
    ∙ ap (lines_from max_len 0 []) (append-nil (joined chunks))

length-remove_cr : (text : Bytes) → length (remove_cr text) ≤ length text
unfolding remove_cr
length-remove_cr [] = omega arith
length-remove_cr (c ∷ []) = ground arith
length-remove_cr (c ∷ d ∷ cs) = omega (arith, length-remove_cr (d ∷ cs))

line_of_bounded : (m start : ℕ) (raw : Bytes) → length (line_of m start raw).text ≤ m
unfolding emit_line
line_of_bounded m start raw = ground (arith, length-take m raw, length-remove_cr raw)

lines_from_bounded :
    (m start : ℕ) (raw bytes : Bytes) → All (λ l. length l.text ≤ m) (lines_from m start raw bytes)
unfolding lines_from
lines_from_bounded m start [] [] = tt
lines_from_bounded m start (r ∷ rs) [] = (line_of_bounded m start (r ∷ rs), tt)
lines_from_bounded m start raw (c ∷ cs) = elim (Bool-cases (c == b'\n')) [
  | inl t ↦
      rw (t, lines_from)
        (line_of_bounded m start raw, lines_from_bounded m (start + length raw + 1) [] cs)
  | inr f ↦ rw (f, lines_from) (lines_from_bounded m start (raw ++ (c ∷ [])) cs)
]

-- Memory stays bounded: whatever stream of fewer than 2 ^ 64 bytes arrives, the buffer holds at
-- most `max_len` bytes after all chunks, and no line handed to the callback is longer.
pub run_bounded :
    (max_len : ℕ) (chunks : List Bytes)
    → length (joined chunks) < u64_mod
    → (length (feed_all (init max_len) chunks).1.fragment ≤ max_len)
      × All (λ l. length l.text ≤ max_len) (run max_len chunks)
unfolding init lines
run_bounded max_len chunks small = (
  omega (
    arith,
    (feed_all_lem chunks (init max_len) [] (omega arith) (start-IsAt max_len)).1.bounded,
    max_len-feed_all chunks (init max_len),
  ),
  subst (All (λ (l : Line). length l.text ≤ max_len)) (sym (run-lines max_len chunks small))
      (lines_from_bounded max_len 0 [] (joined chunks)),
)
