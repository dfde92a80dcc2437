-- ===== src/Net/Timer.antt =====
-- common/net/Timer.h and Timer.cpp: a one-shot timer. The handle of `uv_timer_t` exists: the
-- constructor drops it only when `uv_timer_init` fails.
use log_transfer_analyzer.Prelude.{ℕ, Bool, true, false, not, if◌then◌else◌}

-- `Timer`: `uv_is_active` of the handle and `_timeoutMs`.
pub record Timer : Type 0 where
  pub active : Bool
  pub timeout_ms : ℕ

unfoldable pub idle : Timer
idle = record { active = false; timeout_ms = 0 }

unfoldable pub start : ℕ → Timer → Timer
start ms t = record { active = true; timeout_ms = ms }

-- `restart`: a timer that is stopped stays so.
unfoldable pub restart : Timer → Timer
restart t = if not t.active then t else record { active = true; timeout_ms = t.timeout_ms }

unfoldable pub stop : Timer → Timer
stop t = record t { active = false }
