-- ===== src/LineParser/Stages.antt =====
-- server/src/parser/LogLineParser.cpp: `parse`, a stage after the other.
use log_transfer_analyzer.Prelude.{
  ℕ, zero, suc, ◌+◌, ◌-◌, ◌*◌, Bool, true, false, not, ◌&&◌, ◌||◌, List, [], ◌∷◌, Option, none,
  some, ◌==◌, ltb, leb, if◌then◌else◌, get_or, take, drop, Bytes, codes, starts_with, find_text,
  same_text,
}
use log_transfer_analyzer.Doubles.{Doubles}
use log_transfer_analyzer.LineParser.{
  line_too_long, empty_line, ctrl_char, bad_frame, bad_bracket, bad_timestamp, ts_out_of_range,
  bad_number, unknown_module, ModuleId, radar_track_node_state, antenna_profile_spec,
  beam_steer_ctrl_unit_impl, detection_task_runner, sector_scheduler_rts, module_name, module_index,
  ParsedLine,
}
use log_transfer_analyzer.LineParser.Calendar.{Timestamp, parse_timestamp}
use log_transfer_analyzer.LineParser.Fields.{
  Outcome, accepted, skipped, ◌>>=◌, ◌>>◌, require, expect, parse_int64_field, parse_double_field,
  is_arrow_pair, brackets_sane, find_field,
}

-- Stage 0.
abbrev only_spaces : Bytes → Bool
only_spaces [] = true
only_spaces (ch ∷ text) = (ch == b' ') && only_spaces text

abbrev no_control : Bytes → Bool
no_control [] = true
no_control (b ∷ text) = not (ltb b 0x20 || (b == 0x7F)) && no_control text

unfoldable pub byte_stage : Bytes → Bool → Outcome (Unit {0})
byte_stage text too_long = do
  require (not too_long) line_too_long
  require (not (only_spaces text)) empty_line
  require (no_control text) ctrl_char

-- Stage 1, the loop over `headerTokens`: `n` tokens at the front, and the rest of the text.
unfoldable pub header_tokens : ℕ → Bytes → Option (List Bytes × Bytes)
header_tokens zero text = some ([], text)
header_tokens (suc n) text = elim (find_text text (b']' ∷ []) 1) [
  | none ↦ none
  | some close ↦
      let rest = header_tokens n (drop (close + 1) text) in
      if not (get_or text 0 0 == b'[') || (close == 1) then none else elim rest [
        | none ↦ none
        | some (tokens, behind) ↦ some (take (close - 1) (drop 1 text) ∷ tokens, behind)
      ]
]

-- A line cut into the header tokens, the name of the module and the message.
pub record Frame : Type 0 where
  pub tokens : List Bytes
  pub module_text : Bytes
  pub message : Bytes

-- Stage 1 behind the header.
abbrev module_and_message : List Bytes → Bytes → Option Frame
module_and_message tokens behind =
    let rest = drop 7 behind in
    if starts_with (codes " BYDA::") behind
    then elim (find_text rest (b':' ∷ []) 0) [
      | none ↦ none
      | some end_of_name ↦
          if (end_of_name == 0) || not (get_or rest (end_of_name + 1) 0 == b' ')
          then none
          else some (record {
            tokens = tokens;
            module_text = take end_of_name rest;
            message = drop (end_of_name + 2) rest;
          })
    ]
    else none

-- Stage 1.
unfoldable pub frame_of : Bytes → Option Frame
frame_of text = elim (header_tokens 4 text) [
  | none ↦ none
  | some (tokens, behind) ↦ module_and_message tokens behind
]

-- The range of stage 2, with the anchor if there is one.
abbrev pub limit_seconds : ℕ
limit_seconds = 48 * 3600

abbrev pub in_range : Option ℕ → ℕ → Bool
in_range none seconds = true
in_range (some anchor) seconds =
    leb seconds (anchor + limit_seconds) && leb anchor (seconds + limit_seconds)

-- Stage 3, and the fields of a module in stage 4: each token is a number.
abbrev pub all_numbers : List Bytes → Outcome (Unit {0})
all_numbers [] = accepted tt
all_numbers (token ∷ tokens) = parse_int64_field token >>= (λ _. all_numbers tokens)

-- `kModules`: the names in order, and the fields.
abbrev all_modules : List ModuleId
all_modules =
    radar_track_node_state ∷ antenna_profile_spec ∷ beam_steer_ctrl_unit_impl
    ∷ detection_task_runner ∷ sector_scheduler_rts ∷ []

abbrev int_fields : ModuleId → List Bytes
int_fields radar_track_node_state = codes "nodeUID" ∷ codes "rfLane" ∷ []
int_fields antenna_profile_spec = codes "sectorID" ∷ []
int_fields beam_steer_ctrl_unit_impl = codes "unitAddr" ∷ []
int_fields detection_task_runner = codes "jobID" ∷ []
int_fields sector_scheduler_rts = codes "jobID" ∷ codes "gatedFlag" ∷ []

abbrev arrow_field : ModuleId → Option Bytes
arrow_field radar_track_node_state = some (codes "lockState")
arrow_field _ = none

-- The loop over `kModules`.
abbrev named_in : List ModuleId → Bytes → Option ModuleId
named_in [] name = none
named_in (id ∷ ids) name = if same_text (module_name id) name then some id else named_in ids name

unfoldable pub module_named : Bytes → Option ModuleId
module_named name = named_in all_modules name

-- A field that is there has to be right; one that is not there is allowed.
abbrev int_fields_of : Bytes → List Bytes → List Bytes
int_fields_of message [] = []
int_fields_of message (name ∷ names) = elim (find_field message name) [
  | none ↦ int_fields_of message names
  | some token ↦ token ∷ int_fields_of message names
]

abbrev arrow_allowed : Bytes → Option Bytes → Bool
arrow_allowed message none = true
arrow_allowed message (some name) = elim (find_field message name) [
  | none ↦ true
  | some token ↦ is_arrow_pair token
]

module _ (D : Doubles) where
  -- A double field: none if it is not there.
  abbrev double_field : Bytes → Bytes → Outcome (Option D.Carrier)
  double_field message name = elim (find_field message name) [
    | none ↦ accepted none
    | some token ↦ elim (parse_double_field D token) [
      | none ↦ skipped bad_number
      | some value ↦ accepted (some value)
    ]
  ]

  abbrev spd_allowed : D.Carrier → Bool
  spd_allowed spd = D.at_least spd (D.of_u64 0) && D.less spd (D.of_u64 10000000)

  abbrev plain_line : ModuleId → Timestamp → ParsedLine D.Carrier
  plain_line id ts = record {
    module_id = id;
    year = ts.year;
    month = ts.month;
    day = ts.day;
    hour = ts.hour;
    has_spd = false;
    spd_in_range = false;
    spd = D.zero_double;
  }

  abbrev with_speed : ModuleId → Timestamp → Option D.Carrier → ParsedLine D.Carrier
  with_speed id ts none = plain_line id ts
  with_speed id ts (some spd) = record (plain_line id ts) {
    has_spd = true;
    spd_in_range = spd_allowed spd;
    spd = if spd_allowed spd then spd else D.zero_double;
  }

  -- The last part of stage 4.
  unfoldable pub speed_stage : ModuleId → Timestamp → Bytes → Outcome (ParsedLine D.Carrier)
  speed_stage id ts message =
      if module_index id == module_index beam_steer_ctrl_unit_impl
      then (do
        spd ← double_field message (codes "spd")
        _ ← double_field message (codes "advDelta")
        accepted (with_speed id ts spd))
      else accepted (plain_line id ts)

  -- Stage 4, for a line of a known module.
  unfoldable pub module_stage : ModuleId → Timestamp → Bytes → Outcome (ParsedLine D.Carrier)
  module_stage id ts message = do
    all_numbers (int_fields_of message (int_fields id))
    require (arrow_allowed message (arrow_field id)) bad_number
    speed_stage id ts message

  -- Stages 3 and 4.
  unfoldable pub domain_stage : Frame → Timestamp → Outcome (ParsedLine D.Carrier)
  domain_stage frame ts = do
    all_numbers (drop 1 frame.tokens)
    require (brackets_sane frame.message) bad_bracket
    id ← expect (module_named frame.module_text) unknown_module
    module_stage id ts frame.message

  -- Stages 0 to 4, with the anchor, and the absolute seconds of an accepted line.
  unfoldable pub check_line : Option ℕ → Bytes → Bool → Outcome (ParsedLine D.Carrier × ℕ)
  check_line anchor text too_long = do
    byte_stage text too_long
    frame ← expect (frame_of text) bad_frame
    ts ← expect (parse_timestamp (get_or frame.tokens 0 [])) bad_timestamp
    require (in_range anchor ts.abs_seconds) ts_out_of_range
    line ← domain_stage frame ts
    accepted (line, ts.abs_seconds)

  -- `parse`: the result, and the anchor behind it (`_hasAnchor` with `_anchorSeconds`).
  unfoldable pub parse : Option ℕ → Bytes → Bool → Outcome (ParsedLine D.Carrier) × Option ℕ
  parse anchor text too_long = elim (check_line anchor text too_long) [
    | skipped reason ↦ (skipped reason, anchor)
    | accepted (line, seconds) ↦
        (accepted line, (elim anchor [ none ↦ some seconds | some a ↦ some a ]))
  ]
