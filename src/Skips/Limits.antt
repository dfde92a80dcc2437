-- ===== src/Skips/Limits.antt =====
-- The memory that the reporter takes.
use log_transfer_analyzer.Prelude.{
  ℕ, suc, ◌+◌, ◌-◌, ◌*◌, ◌≤◌, ◌≡◌, refl, List, [], ◌∷◌, Option, none, some, inl, inr, ◌==◌, length,
  length-append, length-take, take, drop, min, All, All-append, Bytes, arith, Bool-cases,
  Option-cases, find_text, codes, slice,
}
use log_transfer_analyzer.LineParser.{SkipReason, reason_index}
use log_transfer_analyzer.Skips.{
  Reporter, Names, Sample, Skip, empty_reporter, escape_non_printable, bump, insert_name,
  module_name_in, with_name, record_unknown_module, tallied, with_sample, record_skip, record_skips,
}

-- An escaped text is at most four times as long, and has no control character.
length-escape : (text : Bytes) → length (escape_non_printable text) ≤ 4 * length text
length-escape [] = omega arith
length-escape (byte ∷ text) = ground (arith, length-escape text)

abbrev IsShortName : Bytes × ℕ → Type 0
IsShortName entry = length entry.0 ≤ 256

abbrev IsShortSample : Sample → Type 0
IsShortSample s = length s.text ≤ 800

abbrev IsLimited : Reporter → Type 0
IsLimited r =
    (length r.samples ≤ 100)
    × All IsShortSample r.samples
    × (length r.unknown_modules ≤ 50)
    × All IsShortName r.unknown_modules

bump-kept :
    (names names' : Names) (name : Bytes)
    → bump names name ≡ some names'
    → All IsShortName names
    → (length names' ≡ length names) × All IsShortName names'
bump-kept [] names' name e h = cc
bump-kept ((known, n) ∷ names) names' name e (here, there) = elim (Option-cases (bump names name)) [
  | inl none_later ↦ ground (arith, none_later)
  | inr (later, some_later) ↦
      ground (arith, some_later, bump-kept names later name some_later there)
]

insert_name-kept :
    (names : Names) (name : Bytes)
    → length name ≤ 256
    → All IsShortName names
    → (length (insert_name names name) ≡ suc (length names))
      × All IsShortName (insert_name names name)
insert_name-kept [] name short h = (refl, (short, tt))
insert_name-kept ((known, n) ∷ names) name short (here, there) =
    ground (arith, insert_name-kept names name short there)

length-escape_slice :
    (text : Bytes) (begin n : ℕ) → length (escape_non_printable (slice text begin (min n 64))) ≤ 256
length-escape_slice text begin n =
    omega
      (arith, length-escape (slice text begin (min n 64)), length-take (min n 64) (drop begin text))

module_name_in-short : (text name : Bytes) → module_name_in text ≡ some name → length name ≤ 256
unfolding module_name_in
module_name_in-short text name e = elim (Option-cases (find_text text (codes " BYDA::") 0)) [
  | inl a ↦ ground (arith, a)
  | inr (marker, a) ↦ elim (Option-cases (find_text text (codes ": ") (marker + 7))) [
    | inl b ↦ ground (arith, a, b)
    | inr (colon, b) ↦
        ground (arith, a, b, length-escape_slice text (marker + 7) (colon - (marker + 7)))
  ]
]

with_name-IsLimited :
    (r : Reporter) (name : Option Bytes)
    → ((text : Bytes) → name ≡ some text → length text ≤ 256)
    → IsLimited r
    → IsLimited (with_name r name)
with_name-IsLimited r none short v = v
with_name-IsLimited r (some name) short (few, samples, fewer, names) =
    elim (Option-cases (bump r.unknown_modules name)) [
      | inr (names', e) ↦
          let (same, kept) = bump-kept r.unknown_modules names' name e names in
          ground (arith, e, few, samples, fewer, same, kept)
      | inl e ↦
          let (same, kept) = insert_name-kept r.unknown_modules name (short name refl) names in
          ground (arith, e, few, samples, fewer, names, same, kept)
    ]

with_sample-IsLimited :
    (r : Reporter) (reason : SkipReason) (offset : ℕ) (text : Bytes)
    → IsLimited r
    → IsLimited (with_sample r reason offset text)
with_sample-IsLimited r reason offset text (few, samples, fewer, names) =
    let sample : Sample = record {
      reason = reason;
      offset = offset;
      text = escape_non_printable (take 200 text);
    } in
    let short : IsShortSample sample =
      omega (arith, length-escape (take 200 text), length-take 200 text) in
    ground (
      arith,
      few,
      samples,
      fewer,
      names,
      length-append r.samples (sample ∷ []),
      All-append IsShortSample r.samples (sample ∷ []) samples (short, tt),
    )

record_skip-IsLimited :
    (r : Reporter) (reason : SkipReason) (offset : ℕ) (text : Bytes)
    → IsLimited r
    → IsLimited (record_skip r reason offset text)
unfolding record_skip
record_skip-IsLimited r reason offset text v = elim (Bool-cases (reason_index reason == 9)) [
  | inr e ↦ rw e (with_sample-IsLimited (tallied r reason) reason offset text v)
  | inl e ↦ rw e (
      with_sample-IsLimited (record_unknown_module (tallied r reason) text) reason offset text (
        with_name-IsLimited (tallied r reason) (module_name_in text) (module_name_in-short text) v))
]

record_skips-IsLimited :
    (skips : List Skip) (r : Reporter) → IsLimited r → IsLimited (record_skips r skips)
unfolding record_skips
record_skips-IsLimited [] r v = v
record_skips-IsLimited (s ∷ skips) r v =
    record_skips-IsLimited skips (record_skip r s.reason s.offset s.text)
      (record_skip-IsLimited r s.reason s.offset s.text v)

-- Whatever lines a session skips, the reporter keeps at most 100 samples of at most 800 bytes and
-- 50 names of at most 256 bytes.
pub record_skips_bounded :
    (skips : List Skip)
    → let r = record_skips empty_reporter skips in
      (length r.samples ≤ 100)
      × All (λ s. length s.text ≤ 800) r.samples
      × (length r.unknown_modules ≤ 50)
      × All (λ (entry : Bytes × ℕ). length entry.0 ≤ 256) r.unknown_modules
record_skips_bounded skips =
    record_skips-IsLimited skips empty_reporter (omega arith, tt, omega arith, tt)
