-- ===== src/LineParser/Brackets.antt =====
-- `bracketsSane` and the messages that it allows.
use log_transfer_analyzer.Prelude.{
  ℕ, suc, ◌+◌, ◌<◌, ◌≡◌, ◌≢◌, ◌↔◌, refl, ap, ◌∙◌, Bool, true, false, [], ◌∷◌, ◌++◌, ◌==◌, ==→≡,
  Bool-cases, inl, inr, length, Bytes, All, arith,
}
use log_transfer_analyzer.LineParser.Fields.{brackets_loop, brackets_sane}

abbrev pub IsPlain : ℕ → Type 0
IsPlain c = (c ≢ b'[') × (c ≢ b']')

-- A message is a sequence of plain characters and of groups: brackets around at least one plain
-- character.
pub data Sane : Bytes → Type 0 where
  nothing : Sane []
  plain : (c : ℕ) (message : Bytes) → IsPlain c → Sane message → Sane (c ∷ message)
  group :
      (c : ℕ) (content message : Bytes)
      → IsPlain c
      → All IsPlain content
      → Sane message
      → Sane (b'[' ∷ ((c ∷ content) ++ (b']' ∷ message)))

plain_tests : (c : ℕ) → IsPlain c → ((c == b'[') ≡ false) × ((c == b']') ≡ false)
plain_tests c (open_no, close_no) = ground (arith, open_no, close_no)

-- From inside a group to its end.
inside_lem :
    (content message : Bytes) (n : ℕ)
    → All IsPlain content
    → 0 < n + length content
    → brackets_loop (content ++ (b']' ∷ message)) true n
      ≡ brackets_loop message false (n + length content)
inside_lem [] message n h some_content =
    let filled : (n == 0) ≡ false = ground arith in
    let same : n ≡ n + 0 = omega arith in rw filled (ap (brackets_loop message false) same)
inside_lem (c ∷ content) message n (h, hs) some_content =
    let (no_open, no_close) = plain_tests c h in
    let shift : n + 1 + length content ≡ n + suc (length content) = omega arith in
    rw (no_open, no_close)
      (inside_lem content message (n + 1) hs (omega arith) ∙ ap (brackets_loop message false) shift)

sane_loop : (message : Bytes) (n : ℕ) → Sane message → brackets_loop message false n ≡ true
sane_loop _ n nothing = refl
sane_loop _ n (plain c message h s) =
    let (no_open, no_close) = plain_tests c h in rw (no_open, no_close) (sane_loop message n s)
sane_loop _ n (group c content message h hs s) =
    inside_lem (c ∷ content) message 0 (h, hs) (omega arith)
    ∙ sane_loop message (0 + suc (length content)) s

-- Every sequence of plain characters and groups is allowed.
brackets_sane-Sane : (message : Bytes) → Sane message → brackets_sane message ≡ true
brackets_sane-Sane message s = sane_loop message 0 s

-- What is left of a group.
record Rest (message : Bytes) (n : ℕ) : Type 0 where
  content : Bytes
  behind : Bytes
  whole : message ≡ content ++ (b']' ∷ behind)
  plain_content : All IsPlain content
  some_content : 0 < n + length content
  sane_behind : Sane behind

Both : Bool → Bytes → ℕ → Type 0
Both true message n = Rest message n
Both false message n = Sane message

apart : {c d : ℕ} → (c == d) ≡ false → c ≢ d
apart different same = ground (arith, different, same)

close_group : (message : Bytes) → Rest message 0 → Sane (b'[' ∷ message)
close_group message r = go r.content r.plain_content r.some_content r.whole
  where
    go :
        (content : Bytes)
        → All IsPlain content
        → 0 < 0 + length content
        → message ≡ content ++ (b']' ∷ r.behind)
        → Sane (b'[' ∷ message)
    go [] h filled e = absurd (omega arith)
    go (c ∷ content) (h, hs) filled e = rw e (group c content r.behind h hs r.sane_behind)

keep_open :
    (c : ℕ) (message : Bytes) (n : ℕ) → IsPlain c → Rest message (n + 1) → Rest (c ∷ message) n
keep_open c message n h r = record {
  content = c ∷ r.content;
  behind = r.behind;
  whole = ap (λ m. c ∷ m) r.whole;
  plain_content = (h, r.plain_content);
  some_content = omega arith;
  sane_behind = r.sane_behind;
}

loop_sane :
    (message : Bytes) (inside : Bool) (n : ℕ)
    → brackets_loop message inside n ≡ true
    → Both inside message n
unfolding Both
loop_sane [] true n e = cc
loop_sane [] false n e = nothing
loop_sane (c ∷ message) false n e = elim (Bool-cases (c == b'[')) [
  | inl open_yes ↦
      rw (==→≡ c b'[' open_yes) (close_group message (loop_sane message true 0 (rw open_yes at e)))
  | inr open_no ↦ elim (Bool-cases (c == b']')) [
    | inl close_yes ↦ ground (arith, open_no, close_yes)
    | inr close_no ↦
        plain c message (apart open_no, apart close_no)
          (loop_sane message false n (rw (open_no, close_no) at e))
  ]
]
loop_sane (c ∷ message) true n e = elim (Bool-cases (c == b'[')) [
  | inl open_yes ↦ ground (arith, open_yes)
  | inr open_no ↦ elim (Bool-cases (c == b']')) [
    | inl close_yes ↦ elim (Bool-cases (n == 0)) [
      | inl none_yet ↦ ground (arith, open_no, close_yes, none_yet)
      | inr filled ↦ record {
        content = [];
        behind = message;
        whole = ap (λ d. d ∷ message) (==→≡ c b']' close_yes);
        plain_content = tt;
        some_content = ground (arith, filled);
        sane_behind = loop_sane message false n (rw (open_no, close_yes, filled) at e);
      }
    ]
    | inr close_no ↦
        keep_open c message n (apart open_no, apart close_no)
          (loop_sane message true (n + 1) (rw (open_no, close_no) at e))
  ]
]

-- The bracket check allows a message just if it is a sequence of plain characters and of groups,
-- each group having brackets around at least one plain character.
pub brackets_sane_lem : (message : Bytes) → (brackets_sane message ≡ true) ↔ Sane message
unfolding Both
brackets_sane_lem message = (loop_sane message false 0, brackets_sane-Sane message)
