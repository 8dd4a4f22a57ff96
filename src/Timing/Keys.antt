-- ===== src/Timing/Keys.antt =====
-- The keys and the remaining reads of core/timing.py.
use health_mon.Common.{String, append}

unfoldable pub check_duration : String → String
check_duration name = append "check." (append name ".duration_ms")

unfoldable pub check_schedule_lag : String → String
check_schedule_lag name = append "check." (append name ".schedule_lag_ms")

unfoldable pub check_evidence_age : String → String
check_evidence_age name = append "check." (append name ".evidence_age_ms")

unfoldable pub dependency_duration : String → String
dependency_duration name = append "dependency." (append name ".duration_ms")

unfoldable pub handler_duration : String → String
handler_duration queue = append "worker." (append queue ".handler_ms")

unfoldable pub stage_duration : String → String → String
stage_duration queue stage = append "worker." (append queue (append ".stage." (append stage "_ms")))

abbrev pub loop_lag_key : String
loop_lag_key = "runtime.loop_lag_ms"
