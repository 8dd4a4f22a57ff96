-- ===== src/Export.antt =====
-- OTLPExporter of telemetry/otel.py: its bounded queue of payloads, the events that wait for the
-- next cycle, and its counters. A payload is a path and a body; the bodies that `build_metrics` and
-- `build_logs` make, `none` where they raise, and the collector's answers are arguments. The queue
-- is touched by the exporter's own thread only, so an operation is one step.
pub mod Accounts
pub mod Outage
mod Examples
use health_mon.Common.{
  ℕ, suc, ◌+◌, Bool, true, false, not, ◌&&◌, String, Option, none, some, List, [], ◌∷◌, ◌++◌, ltb,
  leb, length, if◌then◌else◌,
}
use health_mon.Events.{Event}

-- `http_<status>`, or the name of the exception's type
pub data ExportError : Type 0 where
  http : ℕ → ExportError
  exception : String → ExportError

abbrev pub Payload : Type 0
Payload = String × String

-- `alive` is whether the thread of the exporter, once it is started, has not been ended by an
-- exception.
pub record Exporter : Type 0 where
  pub max_queue : ℕ
  pub export_logs : Bool
  pub queue : List Payload
  pub pending_events : List Event
  pub exported : ℕ
  pub failed : ℕ
  pub dropped : ℕ
  pub last_error : Option ExportError
  pub last_export_at : Option ℕ
  pub alive : Bool

-- __init__, without the settings of the connection
unfoldable pub new_exporter : ℕ → Bool → Exporter
new_exporter max_queue export_logs = record {
  max_queue = max_queue;
  export_logs = export_logs;
  queue = [];
  pending_events = [];
  exported = 0;
  failed = 0;
  dropped = 0;
  last_error = none;
  last_export_at = none;
  alive = true;
}

abbrev pub max_pending : ℕ
max_pending = 256

abbrev pub without_oldest {ℓ} : {A : Type ℓ} → List A → List A
without_oldest [] = []
without_oldest (x ∷ rest) = rest

-- _collect_event
unfoldable pub collect_event : Event → Exporter → Exporter
collect_event event x = record x {
  pending_events =
      (if leb max_pending (length x.pending_events)
        then without_oldest x.pending_events
        else x.pending_events)
      ++ event ∷ [];
}

-- _drain_events
unfoldable pub drain_events : Exporter → Exporter × List Event
drain_events x = (record x { pending_events = [] }, x.pending_events)

-- queue.Full: a queue with a maxsize of 0 has no bound.
abbrev pub is_full : Exporter → Bool
is_full x = ltb 0 x.max_queue && leb x.max_queue (length x.queue)

unfoldable pub put : Payload → Exporter → Exporter
put item x = record x { queue = x.queue ++ item ∷ [] }

-- get_nowait, where the oldest counts as dropped
unfoldable pub drop_oldest : List Payload → Exporter → Exporter
drop_oldest [] x = x
drop_oldest (_ ∷ rest) x = record x { queue = rest; dropped = x.dropped + 1 }

unfoldable pub put_or_drop : Payload → Exporter → Exporter
unfolding put
put_or_drop item x = if is_full x then record x { dropped = x.dropped + 1 } else put item x

-- _offer
unfoldable pub offer : Payload → Exporter → Exporter
unfolding put drop_oldest put_or_drop
offer item x = if not (is_full x) then put item x else put_or_drop item (drop_oldest x.queue x)

-- What a request comes to: a response with its status, an HTTPError or another Exception; or an
-- exception that the `try` of _post does not catch, such as that of json.dumps or of Request, which
-- stand before it.
pub data Answer : Type 0 where
  response : ℕ → Answer
  http_error : ℕ → Answer
  raised : String → Answer
  escaped : Answer

abbrev pub is_success : Answer → Bool
is_success (response status) = leb 200 status && ltb status 300
is_success _ = false

-- What a request that failed leaves behind
unfoldable pub note_error : ExportError → Exporter → Exporter
note_error error x = record x { failed = x.failed + 1; last_error = some error }

-- What _post writes down. An exception that escapes it escapes _flush and _run too.
unfoldable pub record_answer : ℕ → Answer → Exporter → Exporter
unfolding note_error
record_answer now (response status) x =
    if is_success (response status)
    then record x { exported = x.exported + 1; last_export_at = some now; last_error = none }
    else note_error (http status) x
record_answer now (http_error code) x = note_error (http code) x
record_answer now (raised name) x = note_error (exception name) x
record_answer now escaped x = record x { alive = false }

-- The loop of _flush over what is queued: the n-th request gets the n-th answer.
unfoldable pub flush_queue : ℕ → (ℕ → Answer) → ℕ → List Payload → Exporter → Exporter
unfolding record_answer
flush_queue now answers n [] x = record x { queue = [] }
flush_queue now answers n (item ∷ rest) x =
    let x' = record_answer now (answers n) (record x { queue = rest }) in
    let rest_done = flush_queue now answers (suc n) rest x' in
    if is_success (answers n) then rest_done else x'

-- _flush
unfoldable pub flush : ℕ → (ℕ → Answer) → Exporter → Exporter
unfolding flush_queue
flush now answers x = flush_queue now answers 0 x.queue x

unfoldable pub note_failure : String → Exporter → Exporter
note_failure error x = record x { failed = x.failed + 1; last_error = some (exception error) }

unfoldable pub offer_or_note : String → Option String → String → Exporter → Exporter
unfolding offer note_failure
offer_or_note path (some body) error x = offer (path, body) x
offer_or_note path none error x = note_failure error x

-- What one cycle is given: the bodies, the error of the exception where one is missing, and the
-- collector's answers.
pub record Cycle : Type 0 where
  pub now : ℕ
  pub metrics : Option String
  pub logs : Option String
  pub error : String
  pub answers : ℕ → Answer

unfoldable pub offer_events : Cycle → Exporter × List Event → Exporter
unfolding offer_or_note
offer_events c (x, []) = x
offer_events c (x, _ ∷ _) = offer_or_note "/v1/logs" c.logs c.error x

-- `if self.export_logs`
unfoldable pub offer_logs : Cycle → Bool → Exporter → Exporter
unfolding drain_events offer_events
offer_logs c true x = offer_events c (drain_events x)
offer_logs c false x = x

-- The `try` of the body of _run: an exception of build_metrics skips the events, which wait.
unfoldable pub offer_all : Cycle → Option String → Exporter → Exporter
unfolding offer note_failure offer_logs
offer_all c none x = note_failure c.error x
offer_all c (some body) x = offer_logs c x.export_logs (offer ("/v1/metrics", body) x)

-- One turn of _run
unfoldable pub run_cycle : Cycle → Exporter → Exporter
unfolding offer_all flush
run_cycle c x = flush c.now c.answers (offer_all c c.metrics x)
