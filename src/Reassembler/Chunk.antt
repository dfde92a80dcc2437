-- ===== src/Reassembler/Chunk.antt =====
-- One chunk: what `feed` hands out now, and what it owes for the bytes that follow, are together
-- the lines of the reference.
use log_transfer_analyzer.Prelude.{
  ℕ, ◌+◌, ◌-◌, ◌≤◌, ◌<◌, ◌≡◌, refl, sym, ap, ◌∙◌, true, false, List, [], ◌∷◌, ◌++◌, inl, inr, ◌⊎◌,
  ◌==◌, ltb, if◌then◌else◌, Bool-cases, length, length-append, take, take-append_left,
  take-append_right, Bytes, u64_mod, ==→≡, append-nil, append_assoc, arith,
}
use log_transfer_analyzer.Reassembler.{
  Line, Reassembler, is_empty, append_tail, finished_line, at_newline, at_end, walk,
}
use log_transfer_analyzer.Reassembler.Reference.{line_of, lines_from, skip_line}

-- What the state owes for `bytes`, the first of which has the offset `pos`; `piece` are the bytes
-- of the chunk that are not yet in the fragment.
abbrev pub owed : Reassembler → Bytes → ℕ → Bytes → List Line
owed s piece pos bytes =
    if s.discarding
    then skip_line s.max_len pos bytes
    else lines_from s.max_len s.line_start (s.fragment ++ piece) bytes

-- The bound on the buffer, and where the current line starts.
pub record IsAt (s : Reassembler) (piece : Bytes) (pos : ℕ) : Type 0 where
  pub bounded : length s.fragment ≤ s.max_len
  pub dropped : s.discarding ≡ true → s.fragment ≡ []
  pub placed : s.discarding ≡ false → s.line_start + length s.fragment + length piece ≡ pos

-- A longer line is cut to the same line.
line_of_cut :
    (m start : ℕ) (raw more : Bytes)
    → m < length raw
    → line_of m start (raw ++ more) ≡ line_of m start raw
line_of_cut m start raw more h = ground (arith, length-append raw more, take-append_left m raw more)

-- After a line that is too long was handed out, only the next newline matters.
lines_from_cut :
    (m start : ℕ) (raw bytes : Bytes) (pos : ℕ)
    → m < length raw
    → start + length raw ≡ pos
    → lines_from m start raw bytes ≡ line_of m start raw ∷ skip_line m pos bytes
unfolding lines_from skip_line
lines_from_cut m start [] [] pos h e = absurd (omega arith)
lines_from_cut m start (r ∷ rs) [] pos h e = refl
lines_from_cut m start raw (c ∷ cs) pos h e = elim (Bool-cases (c == b'\n')) [
  | inl t ↦ rw (t, lines_from, skip_line, e) refl
  | inr f ↦
      rw (f, lines_from, skip_line)
        (lines_from_cut m start (raw ++ (c ∷ [])) cs (pos + 1)
            (omega (arith, length-append raw (c ∷ []))) (omega (arith, length-append raw (c ∷ [])))
          ∙ rw (line_of_cut m start raw (c ∷ []) h))
]

is_empty-cases : (b : Bytes) → (b ≡ []) ⊎ (is_empty b ≡ false)
unfolding is_empty
is_empty-cases [] = inl refl
is_empty-cases (c ∷ cs) = inr refl

cut_piece :
    (s : Reassembler) (piece : Bytes)
    → length s.fragment ≤ s.max_len
    → take s.max_len (s.fragment ++ piece)
      ≡ s.fragment ++ take (s.max_len - length s.fragment) piece
cut_piece s piece h = take-append_right s.max_len s.fragment piece h

-- The line handed out at a newline is the reference's.
finished_line_lem :
    (s : Reassembler) (piece : Bytes)
    → length s.fragment ≤ s.max_len
    → finished_line s piece ≡ line_of s.max_len s.line_start (s.fragment ++ piece)
unfolding finished_line is_empty
finished_line_lem s piece h = elim (is_empty-cases s.fragment) [
  | inl e ↦ rw e refl
  | inr ne ↦ rw (ne, finished_line, length-append) (rw (cut_piece s piece h))
]

-- The end of a chunk inside a line.
append_tail_lem :
    (s : Reassembler) (piece : Bytes) (pos : ℕ) (rest : Bytes)
    → s.discarding ≡ false
    → IsAt s piece pos
    → let (out, s') = append_tail s piece in
      (owed s piece pos rest ≡ out ++ owed s' [] pos rest) × IsAt s' [] pos
unfolding append_tail
append_tail_lem s piece pos rest d v =
    elim (Bool-cases (ltb s.max_len (length s.fragment + length piece))) [
      | inl long ↦ rw long (
          ground (
            arith,
            length-append s.fragment piece,
            cut_piece s piece v.bounded,
            lines_from_cut s.max_len s.line_start (s.fragment ++ piece) rest pos,
            v.placed d,
          ))
      | inr fits ↦ rw fits (
          ground
            (arith, length-append s.fragment piece, append-nil (s.fragment ++ piece), v.placed d))
    ]

at_end-append_tail :
    (s : Reassembler) (c : ℕ) (cs : Bytes)
    → s.discarding ≡ false
    → at_end s (c ∷ cs) ≡ append_tail s (c ∷ cs)
unfolding at_end
at_end-append_tail s c cs d = ground arith

at_end_lem :
    (s : Reassembler) (piece : Bytes) (pos : ℕ) (rest : Bytes)
    → IsAt s piece pos
    → let (out, s') = at_end s piece in
      (owed s piece pos rest ≡ out ++ owed s' [] pos rest) × IsAt s' [] pos
unfolding at_end
at_end_lem s [] pos rest v = (refl, v)
at_end_lem s (c ∷ cs) pos rest v = elim (Bool-cases s.discarding) [
  | inl d ↦ ground (arith, v.dropped d)
  | inr d ↦ rw (at_end-append_tail s c cs d) (append_tail_lem s (c ∷ cs) pos rest d v)
]

at_newline_lem :
    (s : Reassembler) (base next pos : ℕ) (piece rest : Bytes)
    → base + next ≡ pos + 1
    → pos + 1 < u64_mod
    → IsAt s piece pos
    → let (out, s') = at_newline s base next piece in
      (owed s piece pos (b'\n' ∷ rest) ≡ out ++ owed s' [] (pos + 1) rest) × IsAt s' [] (pos + 1)
unfolding at_newline lines_from skip_line
at_newline_lem s base next pos piece rest e small v = elim (Bool-cases s.discarding) [
  | inl d ↦ rw d (ground (arith, v.dropped d))
  | inr d ↦ rw d (
      ground
        (arith, length-append s.fragment piece, finished_line_lem s piece v.bounded, v.placed d))
]

-- The invariant says nothing of where the bytes of the piece are kept.
IsAt-push :
    (s : Reassembler) (piece : Bytes) (pos c : ℕ)
    → IsAt s piece pos
    → IsAt s (piece ++ (c ∷ [])) (pos + 1)
IsAt-push s piece pos c v = record {
  bounded = v.bounded;
  dropped = v.dropped;
  placed = λ d. omega (arith, v.placed d, length-append piece (c ∷ []));
}

owed-push :
    (s : Reassembler) (piece : Bytes) (pos c : ℕ) (rest : Bytes)
    → (c == b'\n') ≡ false
    → owed s piece pos (c ∷ rest) ≡ owed s (piece ++ (c ∷ [])) (pos + 1) rest
unfolding lines_from skip_line
owed-push s piece pos c rest n = ground (arith, append_assoc s.fragment piece (c ∷ []))

owed-newline :
    (s : Reassembler) (piece : Bytes) (pos c : ℕ) (rest : Bytes)
    → (c == b'\n') ≡ true
    → owed s piece pos (c ∷ rest) ≡ owed s piece pos (b'\n' ∷ rest)
owed-newline s piece pos c rest h = ap (λ x. owed s piece pos (x ∷ rest)) (==→≡ c b'\n' h)

-- The loop of `feed`, with `pos` the offset of the next byte and `stop` that behind the chunk.
pub walk_lem :
    (cs : Bytes) (s : Reassembler) (base next pos stop : ℕ) (piece rest : Bytes)
    → base + next ≡ pos
    → pos + length cs ≡ stop
    → stop < u64_mod
    → IsAt s piece pos
    → let (out, s') = walk s base next piece cs in
      (owed s piece pos (cs ++ rest) ≡ out ++ owed s' [] stop rest) × IsAt s' [] stop
unfolding walk
walk_lem [] s base next pos stop piece rest e here small v =
    let same : pos ≡ stop = omega arith in rw (← same) (at_end_lem s piece pos rest v)
walk_lem (c ∷ cs) s base next pos stop piece rest e here small v = elim (Bool-cases (c == b'\n')) [
  | inl nl ↦
      let out = (at_newline s base (next + 1) piece).0 in
      let s' = (at_newline s base (next + 1) piece).1 in
      let cut =
        at_newline_lem s base (next + 1) pos piece (cs ++ rest) (omega arith) (omega arith) v in
      let later =
        walk_lem cs s' base (next + 1) (pos + 1) stop [] rest (omega arith) (omega arith) small
          cut.1 in
      rw (nl, walk)
        (
          (owed-newline s piece pos c (cs ++ rest) nl
              ∙ cut.0
              ∙ ap (◌++◌ out) later.0
              ∙ sym (append_assoc out _ _)),
          later.1,
        )
  | inr other ↦
      let on =
        walk_lem cs s base (next + 1) (pos + 1) stop (piece ++ (c ∷ [])) rest (omega arith)
          (omega arith) small (IsAt-push s piece pos c v) in
      rw (other, walk) ((owed-push s piece pos c (cs ++ rest) other ∙ on.0), on.1)
]

-- The limit is fixed.
max_len-at_end : (s : Reassembler) (piece : Bytes) → (at_end s piece).1.max_len ≡ s.max_len
unfolding at_end append_tail
max_len-at_end s [] = refl
max_len-at_end s (c ∷ cs) = ground arith

max_len-at_newline :
    (s : Reassembler) (base next : ℕ) (piece : Bytes)
    → (at_newline s base next piece).1.max_len ≡ s.max_len
unfolding at_newline
max_len-at_newline s base next piece = ground arith

pub max_len-walk :
    (cs : Bytes) (s : Reassembler) (base next : ℕ) (piece : Bytes)
    → (walk s base next piece cs).1.max_len ≡ s.max_len
unfolding walk
max_len-walk [] s base next piece = max_len-at_end s piece
max_len-walk (c ∷ cs) s base next piece = elim (Bool-cases (c == b'\n')) [
  | inl nl ↦
      rw (nl, walk)
        (max_len-walk cs (at_newline s base (next + 1) piece).1 base (next + 1) []
          ∙ max_len-at_newline s base (next + 1) piece)
  | inr other ↦ rw (other, walk) (max_len-walk cs s base (next + 1) (piece ++ (c ∷ [])))
]
