-- ===== src/Export/Examples.antt =====
-- The exporter as tests, and the theorems applied to it.
use health_mon.Common.{
  ℕ, ◌+◌, ◌≡◌, refl, true, false, String, none, some, [], ◌∷◌, ◌++◌, arith, newest, ◌==◌,
  if◌then◌else◌,
}
use health_mon.Events.{worker_started}
use health_mon.Export.{Payload, Exporter, Cycle, response, raised, escaped, new_exporter, run_cycle}
use health_mon.Export.Accounts.{total, lost, attempts, run_cycle-total}
use health_mon.Export.Outage.{offer_each, newest_wins, idle_cycle_empties}

abbrev fresh : Exporter
fresh = record {
  max_queue = 2;
  export_logs = true;
  queue = [];
  pending_events = [];
  exported = 0;
  failed = 0;
  dropped = 0;
  last_error = none;
  last_export_at = none;
  alive = true;
}

fresh_new : new_exporter 2 true ≡ fresh
unfolding new_exporter
fresh_new = refl

abbrev item : String → Payload
item body = ("/v1/metrics", body)

abbrev busy : Exporter
busy = record fresh { queue = item "a" ∷ item "b" ∷ []; pending_events = worker_started ∷ [] }

-- The collector takes one payload and then goes away.
abbrev cycle_of : ℕ → Cycle
cycle_of now = record {
  now = now;
  metrics = some "m";
  logs = some "l";
  error = "";
  answers = λ n. if n == 0 then response 200 else raised "URLError";
}

run_cycle-total_example :
    total (run_cycle (cycle_of 7) busy) + lost (run_cycle (cycle_of 7) busy)
    ≡ total busy + attempts true true (worker_started ∷ [])
run_cycle-total_example = run_cycle-total (cycle_of 7) busy refl

-- An endpoint without a scheme: the thread ends in its first cycle, with one payload uncounted.
abbrev misconfigured : Cycle
misconfigured = record (cycle_of 7) { answers = λ n. escaped }

thread_ends :
    ((run_cycle misconfigured fresh).alive ≡ false) × (total (run_cycle misconfigured fresh) ≡ 0)
unfolding run_cycle
thread_ends = (refl, refl)

-- Two are dropped to make room, one is sent, one fails.
after_cycle :
    ((run_cycle (cycle_of 7) busy).exported ≡ 1)
    × ((run_cycle (cycle_of 7) busy).failed ≡ 1)
    × ((run_cycle (cycle_of 7) busy).dropped ≡ 2)
    × ((run_cycle (cycle_of 7) busy).queue ≡ [])
unfolding run_cycle
after_cycle = (refl, refl, refl, refl)

newest_wins_example :
    (offer_each (item "c" ∷ []) busy).queue ≡ newest 2 ((item "a" ∷ item "b" ∷ []) ++ item "c" ∷ [])
newest_wins_example =
    newest_wins (item "c" ∷ []) busy (record { bounded = omega arith; fits = omega arith })

idle_cycle_empties_example : (run_cycle (cycle_of 7) fresh).queue ≡ []
idle_cycle_empties_example = idle_cycle_empties (cycle_of 7) fresh (omega arith) refl refl
