-- ===== src/LineParser.antt =====
-- server/src/parser/LogLineParser.h: the vocabulary of the line parser.
pub mod Calendar
pub mod Fields
pub mod Stages
pub mod Days
pub mod Accepted
pub mod Brackets
mod Runs
use log_transfer_analyzer.Prelude.{ℕ, Bool, Bytes, codes}

-- `SkipReason`.
pub data SkipReason : Type 0 where
  line_too_long empty_line ctrl_char bad_frame bad_bracket bad_timestamp ts_out_of_range bad_number
        num_out_of_range unknown_module map_limit :
      SkipReason

-- The value of the enumerator, an index of the counters.
abbrev pub reason_index : SkipReason → ℕ
reason_index line_too_long = 0
reason_index empty_line = 1
reason_index ctrl_char = 2
reason_index bad_frame = 3
reason_index bad_bracket = 4
reason_index bad_timestamp = 5
reason_index ts_out_of_range = 6
reason_index bad_number = 7
reason_index num_out_of_range = 8
reason_index unknown_module = 9
reason_index map_limit = 10

-- `skipReasonCode`.
abbrev pub skip_reason_code : SkipReason → Bytes
skip_reason_code line_too_long = codes "LINE_TOO_LONG"
skip_reason_code empty_line = codes "EMPTY"
skip_reason_code ctrl_char = codes "CTRL_CHAR"
skip_reason_code bad_frame = codes "BAD_FRAME"
skip_reason_code bad_bracket = codes "BAD_BRACKET"
skip_reason_code bad_timestamp = codes "BAD_TIMESTAMP"
skip_reason_code ts_out_of_range = codes "TS_OUT_OF_RANGE"
skip_reason_code bad_number = codes "BAD_NUMBER"
skip_reason_code num_out_of_range = codes "NUM_OUT_OF_RANGE"
skip_reason_code unknown_module = codes "UNKNOWN_MODULE"
skip_reason_code map_limit = codes "MAP_LIMIT"

-- `ModuleId`.
pub data ModuleId : Type 0 where
  radar_track_node_state antenna_profile_spec beam_steer_ctrl_unit_impl detection_task_runner
        sector_scheduler_rts :
      ModuleId

abbrev pub module_index : ModuleId → ℕ
module_index radar_track_node_state = 0
module_index antenna_profile_spec = 1
module_index beam_steer_ctrl_unit_impl = 2
module_index detection_task_runner = 3
module_index sector_scheduler_rts = 4

-- `moduleName`.
abbrev pub module_name : ModuleId → Bytes
module_name radar_track_node_state = codes "RadarTrackNodeState"
module_name antenna_profile_spec = codes "AntennaProfileSpec"
module_name beam_steer_ctrl_unit_impl = codes "BeamSteerCtrlUnitImpl"
module_name detection_task_runner = codes "DetectionTaskRunner"
module_name sector_scheduler_rts = codes "SectorSchedulerRTS"

-- `ParsedLine`, over the type that stands for `double`.
pub record ParsedLine (Double : Type 0) : Type 0 where
  pub module_id : ModuleId
  pub year : ℕ
  pub month : ℕ
  pub day : ℕ
  pub hour : ℕ
  pub has_spd : Bool
  pub spd_in_range : Bool
  pub spd : Double
