-- ===== src/Skips.antt =====
-- server/src/parser/SkipReporter.h and SkipReporter.cpp: skipped lines counted by reason, the first
-- of them kept, and the names of unknown modules.
pub mod Sums
pub mod Limits
pub mod Shown
pub mod Report
mod Runs
use log_transfer_analyzer.Prelude.{
  ℕ, ◌+◌, ◌-◌, ◌*◌, ◌/◌, ◌%◌, Bool, true, false, ◌||◌, List, [], ◌∷◌, ◌++◌, Option, none, some,
  ◌==◌, ltb, leb, if◌then◌else◌, length, get_or, set, replicate, take, drop, slice, min, inc_u64,
  Bytes, codes, find_text, same_text, less_text,
}
use log_transfer_analyzer.LineParser.{SkipReason, unknown_module, reason_index}

abbrev pub max_skip_samples : ℕ
max_skip_samples = 100

abbrev pub max_skip_sample_bytes : ℕ
max_skip_sample_bytes = 200

abbrev pub skip_reason_count : ℕ
skip_reason_count = 11

abbrev pub max_unknown_modules : ℕ
max_unknown_modules = 50

abbrev pub max_module_name_bytes : ℕ
max_module_name_bytes = 64

-- `kHex`.
abbrev hex_digit : ℕ → ℕ
hex_digit n = get_or (codes "0123456789ABCDEF") n 0

abbrev pub is_control : ℕ → Bool
is_control byte = ltb byte 0x20 || byte == 0x7F

-- `escapeNonPrintable`.
abbrev pub escape_non_printable : Bytes → Bytes
escape_non_printable [] = []
escape_non_printable (byte ∷ text) =
    let rest = escape_non_printable text in
    if is_control byte
    then b'\\' ∷ b'x' ∷ hex_digit (byte / 16) ∷ hex_digit (byte % 16) ∷ rest
    else byte ∷ rest

-- `Sample`.
pub record Sample : Type 0 where
  pub reason : SkipReason
  pub offset : ℕ
  pub text : Bytes

-- A `std::map<std::string, std::uint64_t>`.
abbrev pub Names : Type 0
Names = List (Bytes × ℕ)

-- `SkipReporter`.
pub record Reporter : Type 0 where
  pub counts : List ℕ
  pub unknown_modules : Names
  pub unlisted_unknown_lines : ℕ
  pub samples : List Sample
  pub total : ℕ

-- `reset`, and the state of a new reporter.
abbrev pub empty_reporter : Reporter
empty_reporter = record {
  counts = replicate skip_reason_count 0;
  unknown_modules = [];
  unlisted_unknown_lines = 0;
  samples = [];
  total = 0;
}

-- `find` with `++it->second`, or nothing if the name is not there.
abbrev pub bump : Names → Bytes → Option Names
bump [] name = none
bump ((known, n) ∷ names) name =
    let later = bump names name in
    if same_text known name
    then some ((known, inc_u64 n) ∷ names)
    else elim later [ none ↦ none | some names' ↦ some ((known, n) ∷ names') ]

-- `emplace` of a name that is not there.
abbrev pub insert_name : Names → Bytes → Names
insert_name [] name = (name, 1) ∷ []
insert_name ((known, n) ∷ names) name =
    let later = insert_name names name in
    if less_text name known then (name, 1) ∷ (known, n) ∷ names else (known, n) ∷ later

-- The name of the module in a line, or nothing where the line has none.
pub module_name_in : Bytes → Option Bytes
module_name_in text = elim (find_text text (codes " BYDA::") 0) [
  | none ↦ none
  | some marker ↦
      let begin = marker + length (codes " BYDA::") in
      elim (find_text text (codes ": ") begin) [
        | none ↦ none
        | some colon ↦
            if colon == begin
            then none
            else some (
                escape_non_printable (slice text begin (min (colon - begin) max_module_name_bytes)))
      ]
]

abbrev pub unlisted : Reporter → Reporter
unlisted r = record r { unlisted_unknown_lines = inc_u64 r.unlisted_unknown_lines }

-- The rest of `recordUnknownModule`, with the name.
abbrev pub with_name : Reporter → Option Bytes → Reporter
with_name r none = unlisted r
with_name r (some name) = elim (bump r.unknown_modules name) [
  | some names ↦ record r { unknown_modules = names }
  | none ↦
      if leb max_unknown_modules (length r.unknown_modules)
      then unlisted r
      else record r { unknown_modules = insert_name r.unknown_modules name }
]

-- `recordUnknownModule`.
abbrev pub record_unknown_module : Reporter → Bytes → Reporter
record_unknown_module r text = with_name r (module_name_in text)

abbrev pub count : Reporter → SkipReason → ℕ
count r reason = get_or r.counts (reason_index reason) 0

-- The first part of `record`.
abbrev pub tallied : Reporter → SkipReason → Reporter
tallied r reason = record r {
  total = inc_u64 r.total;
  counts = set r.counts (reason_index reason) (inc_u64 (count r reason));
}

-- The last part of `record`.
abbrev pub with_sample : Reporter → SkipReason → ℕ → Bytes → Reporter
with_sample r reason offset text =
    if ltb (length r.samples) max_skip_samples
    then record r {
      samples =
          r.samples
          ++ (record {
            reason = reason;
            offset = offset;
            text = escape_non_printable (take max_skip_sample_bytes text);
          }
              ∷ []);
    }
    else r

-- `record`.
pub record_skip : Reporter → SkipReason → ℕ → Bytes → Reporter
record_skip r reason offset text =
    let named =
      if reason_index reason == reason_index unknown_module
      then record_unknown_module (tallied r reason) text
      else tallied r reason in
    with_sample named reason offset text

-- `unknownModuleCount`.
abbrev pub unknown_module_count : Names → Bytes → ℕ
unknown_module_count [] name = 0
unknown_module_count ((known, n) ∷ names) name =
    if same_text known name then n else unknown_module_count names name

-- A skipped line: its reason, its offset and its text.
pub record Skip : Type 0 where
  pub reason : SkipReason
  pub offset : ℕ
  pub text : Bytes

-- The skips of a session, one `record` after the other.
pub record_skips : Reporter → List Skip → Reporter
record_skips r [] = r
record_skips r (s ∷ skips) = record_skips (record_skip r s.reason s.offset s.text) skips
