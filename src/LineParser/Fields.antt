-- ===== src/LineParser/Fields.antt =====
-- server/src/parser/LogLineParser.cpp: the numbers and the fields of a message.
use log_transfer_analyzer.Prelude.{
  ℕ, ◌+◌, ◌-◌, ◌^◌, Bool, true, false, not, ◌&&◌, ◌||◌, [], ◌∷◌, Option, none, some, ◌==◌, leb,
  if◌then◌else◌, length, get_or, take, drop, Bytes, codes, starts_with, find_text,
}
use log_transfer_analyzer.Doubles.{Doubles}
use log_transfer_analyzer.LineParser.{SkipReason, bad_number, num_out_of_range}
use log_transfer_analyzer.LineParser.Calendar.{is_digit, digits_value}

-- The result of a stage: a value, or the reason of the skip.
pub data Outcome {ℓ} (A : Type ℓ) : Type ℓ where
  accepted : A → Outcome A
  skipped : SkipReason → Outcome A

infixl 5 ◌>>=◌ ◌>>◌
abbrev pub ◌>>=◌ {ℓ κ} : {A : Type ℓ} {B : Type κ} → Outcome A → (A → Outcome B) → Outcome B
accepted a >>= f = f a
skipped reason >>= f = skipped reason

abbrev pub ◌>>◌ {ℓ} : {B : Type ℓ} → Outcome (Unit {0}) → Outcome B → Outcome B
m >> k = m >>= λ _. k

-- `if (!test) return skip(reason);`
abbrev pub require : Bool → SkipReason → Outcome (Unit {0})
require true reason = accepted tt
require false reason = skipped reason

-- A value that must be there.
abbrev pub expect {ℓ} : {A : Type ℓ} → Option A → SkipReason → Outcome A
expect none reason = skipped reason
expect (some a) reason = accepted a

-- `std::from_chars` for an integer reads the digits at the front.
abbrev pub leading_digits : Bytes → Bytes
leading_digits [] = []
leading_digits (c ∷ text) = let more = leading_digits text in if is_digit c then c ∷ more else []

abbrev pub max_int64 : ℕ
max_int64 = 2 ^ 63 - 1

-- `parseInt64Field`.
unfoldable pub parse_int64_field : Bytes → Outcome ℕ
parse_int64_field token = do
  require (is_digit (get_or token 0 0)) bad_number
  let value = digits_value 0 (leading_digits token)
  require (leb value max_int64) num_out_of_range
  require (length (leading_digits token) == length token) bad_number
  accepted value

-- `parseDoubleField`.
unfoldable pub parse_double_field : (D : Doubles) → Bytes → Option D.Carrier
parse_double_field D [] = none
parse_double_field D (c ∷ token) = elim (D.from_chars (c ∷ token)) [
  | none ↦ none
  | some (value, read) ↦
      if (read == length (c ∷ token)) && D.is_finite value then some value else none
]

-- The lambda `allDigits` of `isArrowPair`.
abbrev pub only_digits : Bytes → Bool
only_digits [] = true
only_digits (c ∷ text) = is_digit c && only_digits text

abbrev some_digits : Bytes → Bool
some_digits text = not (length text == 0) && only_digits text

-- `isArrowPair`.
unfoldable pub is_arrow_pair : Bytes → Bool
is_arrow_pair token = elim (find_text token (codes "->") 0) [
  | none ↦ false
  | some arrow ↦
      if arrow == 0
      then false
      else some_digits (take arrow token) && some_digits (drop (arrow + 2) token)
]

-- The loop of `bracketsSane`, over the rest of the message, with `open` and `contentLen`.
abbrev pub brackets_loop : Bytes → Bool → ℕ → Bool
brackets_loop [] inside content_len = not inside
brackets_loop (ch ∷ message) inside content_len =
    let opened = brackets_loop message true 0 in
    let closed = brackets_loop message false content_len in
    let longer = brackets_loop message inside (content_len + 1) in
    let same = brackets_loop message inside content_len in
    if ch == b'['
    then (if inside then false else opened)
    else if ch == b']'
    then (if not inside || (content_len == 0) then false else closed)
    else if inside
    then longer
    else same

-- `bracketsSane`.
abbrev pub brackets_sane : Bytes → Bool
brackets_sane message = brackets_loop message false 0

abbrev is_boundary : ℕ → Bool
is_boundary c = (c == b' ') || (c == b',') || (c == b':')

-- `findField`: each place of the message, from the left, with whether a boundary stands before it.
abbrev pub find_field_at : Bytes → Bool → Bytes → Option Bytes
find_field_at name boundary [] = none
find_field_at name boundary (c ∷ message) =
    let later = find_field_at name (is_boundary c) message in
    let behind = drop (length name) (c ∷ message) in
    if starts_with name (c ∷ message) && boundary && (get_or behind 0 0 == b'[')
    then (elim (find_text behind (b']' ∷ []) 1) [
      | none ↦ none
      | some close ↦ some (take (close - 1) (drop 1 behind))
    ])
    else later

unfoldable pub find_field : Bytes → Bytes → Option Bytes
find_field message name = find_field_at name true message
