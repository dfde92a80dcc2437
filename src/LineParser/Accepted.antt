-- ===== src/LineParser/Accepted.antt =====
-- What the parser guarantees of an accepted line.
use log_transfer_analyzer.Prelude.{
  ℕ, ◌+◌, ◌*◌, ◌<◌, ◌≤◌, ◌≡◌, ◌⊎◌, inl, inr, refl, subst, Bool, true, false, not, [], Option, none,
  some, Option-cases, ◌==◌, leb, leb→le, &&_parts, if◌then◌else◌, get_or, Bytes, arith,
}
use log_transfer_analyzer.Doubles.{Doubles}
use log_transfer_analyzer.LineParser.{
  SkipReason, ModuleId, module_index, beam_steer_ctrl_unit_impl, ParsedLine,
}
use log_transfer_analyzer.LineParser.Calendar.{
  Timestamp, parse_timestamp, on_calendar, days_in_month, days_from_civil, digits_to_int,
}
use log_transfer_analyzer.LineParser.Fields.{Outcome, accepted, skipped}
use log_transfer_analyzer.LineParser.Stages.{
  frame_of, Frame, in_range, speed_stage, module_stage, domain_stage, check_line, parse,
  module_named,
}

pub Outcome-cases {ℓ} :
    {A : Type ℓ} (o : Outcome A)
    → ((reason : SkipReason) × (o ≡ skipped reason)) ⊎ ((a : A) × (o ≡ accepted a))
Outcome-cases (skipped reason) = inl (reason, refl)
Outcome-cases (accepted a) = inr (a, refl)

-- The date and the hour of an accepted line are on the calendar.
abbrev pub OnCalendar : ℕ → ℕ → ℕ → ℕ → Type 0
OnCalendar year month day hour =
    (1 ≤ month) × (month ≤ 12) × (1 ≤ day) × (day ≤ days_in_month year month) × (hour ≤ 23)

-- The seconds are in that hour of that day.
abbrev pub InHour : ℕ → ℕ → ℕ → ℕ → ℕ → Type 0
InHour year month day hour seconds =
    (days_from_civil year month day * 86400 + hour * 3600 ≤ seconds)
    × (seconds < days_from_civil year month day * 86400 + hour * 3600 + 3600)

-- They are within 48 hours of the anchor.
abbrev pub IsNear : Option ℕ → ℕ → Type 0
IsNear none seconds = Unit
IsNear (some anchor) seconds = (seconds ≤ anchor + 172800) × (anchor ≤ seconds + 172800)

in_range-IsNear :
    (anchor : Option ℕ) (seconds : ℕ) → in_range anchor seconds ≡ true → IsNear anchor seconds
in_range-IsNear none seconds e = tt
in_range-IsNear (some anchor) seconds e =
    let (after, before) =
      &&_parts (leb seconds (anchor + 172800)) (leb anchor (seconds + 172800)) e in
    (leb→le seconds (anchor + 172800) after, leb→le anchor (seconds + 172800) before)

-- A property of an accepted value.
abbrev Accepts {ℓ κ} : {A : Type ℓ} → (A → Type κ) → Outcome A → Type κ
Accepts P (accepted a) = P a
Accepts P (skipped reason) = Unit

accepts {ℓ κ} :
    {A : Type ℓ} (P : A → Type κ) (o : Outcome A) (a : A) → Accepts P o → o ≡ accepted a → P a
accepts P o a h e = rw e at h

on_calendar_ok :
    (year month day hour minute second : ℕ)
    → on_calendar year month day hour minute second ≡ true
    → OnCalendar year month day hour
on_calendar_ok year month day hour minute second h =
    let (h, _) = &&_parts _ (leb second 59) h in
    let (h, _) = &&_parts _ (leb minute 59) h in
    let (h, hour_high) = &&_parts _ (leb hour 23) h in
    let (h, day_high) = &&_parts _ (leb day (days_in_month year month)) h in
    let (h, day_low) = &&_parts _ (leb 1 day) h in
    let (month_low, month_high) = &&_parts (leb 1 month) (leb month 12) h in
    (
      leb→le 1 month month_low,
      leb→le month 12 month_high,
      leb→le 1 day day_low,
      leb→le day (days_in_month year month) day_high,
      leb→le hour 23 hour_high,
    )

-- The minutes and the seconds stay within the hour.
in_hour :
    (year month day hour minute second : ℕ)
    → on_calendar year month day hour minute second ≡ true
    → InHour year month day hour
        (days_from_civil year month day * 86400 + hour * 3600 + minute * 60 + second)
in_hour year month day hour minute second h =
    let (h, few_seconds) = &&_parts _ (leb second 59) h in
    let (_, few_minutes) = &&_parts _ (leb minute 59) h in
    let seconds_high = leb→le second 59 few_seconds in
    let minutes_high = leb→le minute 59 few_minutes in
    let start = days_from_civil year month day * 86400 + hour * 3600 in
    (omega (arith), omega (arith, seconds_high, minutes_high))

-- Behind three tests, the third holds.
third_test :
    (format digits calendar : Bool) (ts : Timestamp) (P : Timestamp → Type 0)
    → (calendar ≡ true → P ts)
    → (found : Timestamp)
    → (if not format
        then none
        else if not digits
        then none
        else if not calendar
        then none
        else some ts)
      ≡ some found
    → P found
third_test false digits calendar ts P h found e = cc
third_test true false calendar ts P h found e = cc
third_test true true false ts P h found e = cc
third_test true true true ts P h found e = let same : ts ≡ found = cc in subst P same (h refl)

timestamp_ok :
    (text : Bytes) (ts : Timestamp)
    → parse_timestamp text ≡ some ts
    → OnCalendar ts.year ts.month ts.day ts.hour
unfolding parse_timestamp
timestamp_ok text ts e =
    third_test _ _ _ _ (λ t. OnCalendar t.year t.month t.day t.hour)
      (on_calendar_ok (digits_to_int text 0 4) (digits_to_int text 5 2) (digits_to_int text 8 2)
        (digits_to_int text 11 2) (digits_to_int text 14 2) (digits_to_int text 17 2))
      ts e

timestamp-InHour :
    (text : Bytes) (ts : Timestamp)
    → parse_timestamp text ≡ some ts
    → InHour ts.year ts.month ts.day ts.hour ts.abs_seconds
unfolding parse_timestamp
timestamp-InHour text ts e =
    third_test _ _ _ _ (λ t. InHour t.year t.month t.day t.hour t.abs_seconds)
      (in_hour (digits_to_int text 0 4) (digits_to_int text 5 2) (digits_to_int text 8 2)
        (digits_to_int text 11 2) (digits_to_int text 14 2) (digits_to_int text 17 2))
      ts e

-- The rest of the line is that of the timestamp, and a speed has only the beam unit.
abbrev FromTimestamp : {A : Type 0} → Timestamp → ParsedLine A → Type 0
FromTimestamp ts line =
    (line.year ≡ ts.year)
    × (line.month ≡ ts.month)
    × (line.day ≡ ts.day)
    × (line.hour ≡ ts.hour)
    × (((module_index line.module_id == module_index beam_steer_ctrl_unit_impl) ≡ true)
        ⊎ (line.has_spd ≡ false))

speed_stage-lem :
    (D : Doubles) (id : ModuleId) (ts : Timestamp) (message : Bytes)
    → Accepts (FromTimestamp ts) (speed_stage D id ts message)
unfolding speed_stage
speed_stage-lem D id ts message = ground arith

-- What holds of an accepted line and its seconds, under an anchor.
abbrev AcceptedLine : {A : Type 0} → Option ℕ → ParsedLine A × ℕ → Type 0
AcceptedLine anchor (line, seconds) =
    OnCalendar line.year line.month line.day line.hour
    × (((module_index line.module_id == module_index beam_steer_ctrl_unit_impl) ≡ true)
        ⊎ (line.has_spd ≡ false))
    × (in_range anchor seconds ≡ true)
    × InHour line.year line.month line.day line.hour seconds

-- Each stage is followed by the next one only.
module_stage-lem :
    (D : Doubles) (id : ModuleId) (ts : Timestamp) (message : Bytes)
    → Accepts (FromTimestamp ts) (module_stage D id ts message)
unfolding module_stage
module_stage-lem D id ts message = ground (arith, speed_stage-lem D id ts message)

domain_stage-lem :
    (D : Doubles) (frame : Frame) (ts : Timestamp)
    → Accepts (FromTimestamp ts) (domain_stage D frame ts)
unfolding domain_stage
domain_stage-lem D frame ts = elim (Option-cases (module_named frame.module_text)) [
  | inl e ↦ ground (arith, e)
  | inr (id, e) ↦ ground (arith, e, module_stage-lem D id ts frame.message)
]

check_line-lem :
    (D : Doubles) (anchor : Option ℕ) (text : Bytes) (too_long : Bool)
    → Accepts (AcceptedLine anchor) (check_line D anchor text too_long)
unfolding check_line
check_line-lem D anchor text too_long = elim (Option-cases (frame_of text)) [
  | inl a ↦ ground (arith, a)
  | inr (frame, a) ↦ elim (Option-cases (parse_timestamp (get_or frame.tokens 0 []))) [
    | inl b ↦ ground (arith, a, b)
    | inr (ts, b) ↦ elim (Outcome-cases (domain_stage D frame ts)) [
      | inl (reason, c) ↦ ground (arith, a, b, c)
      | inr (line, c) ↦
          let (y, m, d, h, own) =
            accepts (FromTimestamp ts) (domain_stage D frame ts) line (domain_stage-lem D frame ts)
              c in
          let on_date : OnCalendar line.year line.month line.day line.hour =
            rw (y, m, d, h) (timestamp_ok (get_or frame.tokens 0 []) ts b) in
          let at_hour : InHour line.year line.month line.day line.hour ts.abs_seconds =
            rw (y, m, d, h) (timestamp-InHour (get_or frame.tokens 0 []) ts b) in
          ground (arith, a, b, c, on_date, own, at_hour)
    ]
  ]
]

-- The anchor that `parse` leaves behind.
abbrev pub anchored : Option ℕ → ℕ → Option ℕ
anchored none seconds = some seconds
anchored (some anchor) seconds = some anchor

-- An accepted line has a date on the calendar and an hour of the day, and a speed only if it is
-- of the beam unit; its time, which is in that hour of that day, is within 48 hours of the anchor, if
-- there is one, and becomes the anchor, if there is none.
pub parse-accepted :
    (D : Doubles) (anchor : Option ℕ) (text : Bytes) (too_long : Bool) (line : ParsedLine D.Carrier)
    → (parse D anchor text too_long).0 ≡ accepted line
    → OnCalendar line.year line.month line.day line.hour
      × (((module_index line.module_id == module_index beam_steer_ctrl_unit_impl) ≡ true)
          ⊎ (line.has_spd ≡ false))
      × ((seconds : ℕ) × InHour line.year line.month line.day line.hour seconds
          × IsNear anchor seconds
          × ((parse D anchor text too_long).1 ≡ anchored anchor seconds))
unfolding parse
parse-accepted D anchor text too_long line e =
    elim (Outcome-cases (check_line D anchor text too_long)) [
      | inl (reason, c) ↦ ground (arith, c)
      | inr ((found, seconds), c) ↦
          let (on_date, own, near, at_hour) =
            accepts (AcceptedLine anchor) (check_line D anchor text too_long) (found, seconds)
              (check_line-lem D anchor text too_long) c in
          let same : found ≡ line = ground (arith, c) in
          let after : (parse D anchor text too_long).1 ≡ anchored anchor seconds =
            ground (arith, c) in
          (
            subst (λ l. OnCalendar l.year l.month l.day l.hour) same on_date,
            subst
                (λ (l : ParsedLine D.Carrier).
                  ((module_index l.module_id == module_index beam_steer_ctrl_unit_impl) ≡ true)
                  ⊎ (l.has_spd ≡ false))
                same own,
            (
              seconds,
              subst (λ (l : ParsedLine D.Carrier). InHour l.year l.month l.day l.hour seconds) same
                  at_hour,
              in_range-IsNear anchor seconds near,
              after,
            ),
          )
    ]
