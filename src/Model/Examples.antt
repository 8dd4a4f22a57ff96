-- ===== src/Model/Examples.antt =====
-- The theorems on core/model.py at concrete inputs.
use health_mon.Common.{false, ◌≡◌, [], refl}
use health_mon.Model.{Status, Snapshot, snapshot_ready_code}

abbrev degraded_worker : Snapshot
degraded_worker = record {
  status = Status.degraded;
  live_status = Status.ok;
  results = [];
  built_at = 0;
  wall_clock = 0;
  uptime = 0;
  reasons = [];
  draining = false;
}

degraded_ready : snapshot_ready_code degraded_worker ≡ 200
unfolding snapshot_ready_code
degraded_ready = refl
