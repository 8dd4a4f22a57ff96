-- ===== src/Broker.antt =====
-- checks/rabbitmq.py: what is known of the worker's own broker connection, and the check that reads
-- it. Clock readings are arguments, and `latency` is how long the evaluation took. Durations are
-- microseconds, so rounding a number of milliseconds to three decimals is the identity. The lock
-- makes each read and each write of the state one step. An observation newer than `ctx.now` has age
-- 0 here, a negative one in the code.
pub mod Amqp
pub mod Probe
pub mod Session
pub mod Verdict
mod Undisturbed
pub mod Alarm
pub mod Silence
pub mod Credit
pub mod Recovery
mod Examples
use health_mon.Common.{
  ℕ, ◌-◌, ◌*◌, Bool, true, false, not, ◌&&◌, ◌||◌, String, Option, none, some, List, [], ◌∷◌, ◌++◌,
  ltb, leb, ◌==◌, is_empty, length, if◌then◌else◌,
}
use health_mon.Common.Dict.{Dict}
use health_mon.Model.{
  Status, Evidence, ErrorCategory, CheckResult, Primitive, number, text, flag, broker_alarm,
  connection_lost, not_subscribed, not_consuming, credit_exhausted, backlog, stalled,
}
use health_mon.Timing.{round_div}
use health_mon.Ladder.{BaseCheck, CheckContext}
use health_mon.Ladder.Outcome.{degrade, fail}

pub record BrokerState : Type 0 where
  pub connection_open : Bool
  pub channel_open : Bool
  pub consumer_tags : List String
  pub queue_depth : Option ℕ
  pub consumer_count : Option ℕ
  pub unacked : ℕ
  pub prefetch : ℕ
  pub last_probe_at : Option ℕ
  pub last_delivery_at : Option ℕ
  pub last_ack_at : Option ℕ
  pub blocked : Bool
  pub channel_state : String
  pub consumer_state : String
  pub probe_error : Option ErrorCategory
  pub probe_channel_reopens : ℕ
  pub reconnects : ℕ

abbrev pub new_state : BrokerState
new_state = record {
  connection_open = false;
  channel_open = false;
  consumer_tags = [];
  queue_depth = none;
  consumer_count = none;
  unacked = 0;
  prefetch = 0;
  last_probe_at = none;
  last_delivery_at = none;
  last_ack_at = none;
  blocked = false;
  channel_state = "unknown";
  consumer_state = "unknown";
  probe_error = none;
  probe_channel_reopens = 0;
  reconnects = 0;
}

pub record RabbitMqCheck : Type 0 where
  pub base : BaseCheck
  pub queue : String
  pub backlog_threshold : ℕ
  pub stale_after : ℕ

entry_of : String → Option ℕ → Dict Primitive
entry_of key none = []
entry_of key (some n) = (key, number n) ∷ []

-- `observed` of evaluate
unfoldable pub observed_of : RabbitMqCheck → BrokerState → Dict Primitive
unfolding entry_of
observed_of check s =
    ("queue", text check.queue)
    ∷ ("connection_open", flag s.connection_open)
    ∷ ("channel_open", flag s.channel_open)
    ∷ ("consumers", number (length s.consumer_tags))
    ∷ ("unacked", number s.unacked)
    ∷ ("prefetch", number s.prefetch)
    ∷ ("channel_state", text s.channel_state)
    ∷ ("consumer_state", text s.consumer_state)
    ∷ (entry_of "queue_depth" s.queue_depth ++ entry_of "queue_consumers" s.consumer_count)

unfoldable pub age_of : ℕ → Option ℕ → Option ℕ
age_of now none = none
age_of now (some t) = some (now - t)

-- CheckResultOK, and `_starting`, which differ in the status and the detail
observation :
    Status
    → Option String
    → RabbitMqCheck
    → CheckContext
    → ℕ
    → Option ℕ
    → Dict Primitive
    → CheckResult
observation status detail check ctx latency age observed = record {
  name = check.base.name;
  status = status;
  checked_at = ctx.now;
  wall_clock = ctx.wall;
  evidence = Evidence.introspected;
  latency = some latency;
  category = none;
  evidence_age = age;
  detail = detail;
  observed = observed;
}

unfoldable pub check_result_ok :
    RabbitMqCheck → CheckContext → ℕ → Option ℕ → Dict Primitive → CheckResult
unfolding observation
check_result_ok check ctx latency age observed =
    observation Status.ok none check ctx latency age observed

unfoldable pub starting : RabbitMqCheck → CheckContext → ℕ → Option ℕ → Dict Primitive → CheckResult
unfolding observation
starting check ctx latency age observed =
    observation Status.unknown (some "no broker observation yet") check ctx latency age observed

-- `(depth or 0) > 0`, and `depth is not None and depth > threshold`
abbrev pub exceeds : Option ℕ → ℕ → Bool
exceeds none threshold = false
exceeds (some depth) threshold = ltb threshold depth

-- All prefetch credit is held by unacked messages.
abbrev pub exhausted : BrokerState → Bool
exhausted s = not (s.prefetch == 0) && leb s.prefetch s.unacked && exceeds s.queue_depth 0

module _ (check : RabbitMqCheck) (ctx : CheckContext) (latency : ℕ) where
  fault : ErrorCategory → String → Dict Primitive → CheckResult
  unfolding fail
  fault category detail observed =
      fail check.base ctx category latency Evidence.introspected (some detail) observed

  -- The queue holds messages: are any delivered?
  unfoldable pub judge_delivery : BrokerState → Option ℕ → CheckResult
  unfolding fault check_result_ok observed_of age_of
  judge_delivery s none =
      check_result_ok check ctx latency (age_of ctx.now s.last_probe_at) (observed_of check s)
  judge_delivery s (some t) =
      if ltb check.stale_after (ctx.now - t)
      then fault not_consuming "messages are queued but none are being delivered" (
          observed_of check s
          ++ (("seconds_since_delivery", number (round_div (ctx.now - t) 10_000 * 10_000)) ∷ []))
      else check_result_ok check ctx latency (age_of ctx.now s.last_probe_at) (observed_of check s)

  -- What comes after the staleness of the state.
  unfoldable pub judge_consumer : BrokerState → CheckResult
  unfolding fault degrade judge_delivery check_result_ok observed_of age_of
  judge_consumer s =
      let observed = observed_of check s in
      if is_empty s.consumer_tags
      then fault not_subscribed "connection is open but nothing is subscribed" observed
      else if exhausted s
      then fault credit_exhausted "all prefetch credit is held by unacked messages" observed
      else if exceeds s.queue_depth check.backlog_threshold
      then degrade check.base ctx backlog latency Evidence.introspected
          (some "queue depth above threshold") observed
      else if exceeds s.queue_depth 0
      then judge_delivery s s.last_delivery_at
      else check_result_ok check ctx latency (age_of ctx.now s.last_probe_at) observed

  unfoldable pub judge_probe : BrokerState → Option ErrorCategory → Option ℕ → CheckResult
  unfolding fault starting judge_consumer observed_of age_of
  judge_probe s (some category) probed =
      fault category "broker probe failed on the worker's connection" (observed_of check s)
  judge_probe s none none = starting check ctx latency (age_of ctx.now none) (observed_of check s)
  judge_probe s none (some t) =
      if ltb check.stale_after (ctx.now - t)
      then fault stalled "broker state is stale; the worker loop is not turning"
          (observed_of check s)
      else judge_consumer s

  -- RabbitMQCheck.evaluate
  unfoldable pub evaluate : BrokerState → CheckResult
  unfolding fault judge_probe observed_of
  evaluate s =
      if not s.connection_open
      then fault connection_lost "worker's broker connection is closed" (observed_of check s)
      else if s.blocked
      then fault broker_alarm "broker has blocked this connection (resource alarm)"
          (observed_of check s)
      else judge_probe s s.probe_error s.last_probe_at
