-- ===== src/Model/Projection.antt =====
-- The tables of core/model.py agree with one another and with what a snapshot answers.
use health_mon.Common.{true, false, ◌≡◌, ◌≢◌, refl, ◌↔◌, arith}
use health_mon.Model.{
  Status, Snapshot, ready_code, readiness_from_status, readiness_code, snapshot_liveness,
  snapshot_ready_code,
}

-- Sending a dependency status through the worker vocabulary gives the code of the direct table:
-- READINESS_CODE of READINESS_FROM_STATUS is READY_CODE, at every status.
pub readiness_tables_agree : (s : Status) → readiness_code (readiness_from_status s) ≡ ready_code s
unfolding readiness_code readiness_from_status ready_code
readiness_tables_agree Status.ok = refl
readiness_tables_agree _ = refl

-- A snapshot answers /ready with 200 exactly when the worker is not draining, its loop is alive,
-- and the aggregate status is neither failing nor starting.
pub snapshot_ready_iff :
    (s : Snapshot)
    → (snapshot_ready_code s ≡ 200) ↔ (
        (s.draining ≡ false)
        × (s.live_status ≡ Status.ok)
        × (s.status ≢ Status.failing)
        × (s.status ≢ Status.starting))
unfolding snapshot_ready_code
snapshot_ready_iff s = ground arith

-- Draining changes neither the liveness of a snapshot nor its /live code.
pub drain_keeps_live :
    (s : Snapshot)
    → (snapshot_liveness (record s { draining = true }) ≡ snapshot_liveness s)
      × (snapshot_ready_code (record s { draining = true }) ≡ 503)
unfolding snapshot_ready_code snapshot_liveness
drain_keeps_live s = (refl, refl)
