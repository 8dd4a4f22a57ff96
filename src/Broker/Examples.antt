-- ===== src/Broker/Examples.antt =====
-- Tests of the broker check, its probe and the instrumentation of pika.
use health_mon.Common.{ℕ, ◌+◌, true, false, ◌≡◌, ◌↔◌, refl, some, none, List, [], ◌∷◌, arith}
use health_mon.Model.{
  Status, resource_missing, auth_failed, broker_alarm, connection_lost, credit_exhausted,
  not_consuming,
}
use health_mon.Ladder.{CheckContext}
use health_mon.Recorder.{Task}
use health_mon.Broker.{
  BrokerState, new_state, RabbitMqCheck, evaluate, judge_probe, judge_consumer, judge_delivery,
}
use health_mon.Broker.Amqp.{AmqpError, classify_amqp, not_given, closed_category}
use health_mon.Broker.Probe.{Probe, Answers, gives, raises, tick, install_broker_probe}
use health_mon.Broker.Session.{
  Session, Event, blocks, unblocks, delivers, settles, consumes, limits, connects, closes, ticks,
  run, broker, new_session,
}
use health_mon.Broker.Verdict.{Connected, Flowing, ok_iff}
use health_mon.Broker.Alarm.{alarm_of, alarm_of_history}
use health_mon.Broker.Silence.{silence_reported}
use health_mon.Broker.Credit.{unacked_of_history, deliveries, settlements}
use health_mon.Broker.Recovery.{IsFresh, probe_recovers}
use health_mon.Broker.Session.{basic_qos}
use health_mon.Broker.Session.{on_closed}
use health_mon.Broker.Session.{attach_connection}
use health_mon.Broker.Session.{basic_consume}
use health_mon.Broker.Session.{delivered}
use health_mon.Broker.Session.{on_unblocked}
use health_mon.Broker.Session.{on_blocked}
use health_mon.Broker.Session.{settled}

abbrev no_queue : AmqpError
no_queue = record {
  name = "channelclosedbybroker";
  message = "not_found - no queue 'billing' in vhost '/'";
  reply_code = some 404;
}

classified :
    (classify_amqp no_queue ≡ resource_missing)
    × (classify_amqp (record { name = "x"; message = "access refused"; reply_code = none })
        ≡ auth_failed)
    × (closed_category not_given ≡ connection_lost)
unfolding classify_amqp closed_category
classified = (refl, refl, refl)

abbrev rabbitmq : RabbitMqCheck
rabbitmq = record {
  base = record {
    name = "rabbitmq";
    dependency = "rabbitmq";
    latency_warn = none;
    latency_critical = none;
  };
  queue = "billing";
  backlog_threshold = 1000;
  stale_after = 20_000_000;
}

abbrev at : ℕ → CheckContext
at now = record { now = now; wall = 0; max_silence = 30_000_000; traffic = [] }

abbrev worker : Task
worker = record {
  active = false;
  tokens = [];
  traffic = [];
  timings = record { maxlen = 10; windows = [] };
}

abbrev sees : ℕ → Answers
sees depth = record {
  is_open = true;
  still_open = true;
  held_open = true;
  channel = gives tt;
  declared = gives (depth, 1);
  rearms = true;
}

abbrev misses : Answers
misses = record (sees 0) { declared = raises no_queue }

-- A worker that subscribes with a prefetch of two, and is observed at `seen`.
abbrev begun : ℕ → ℕ → List Event → List Event
begun seen depth rest =
    connects true ∷ limits (some 2) ∷ consumes "ctag-1" ∷ ticks seen (sees depth) ∷ rest

abbrev after : List Event → BrokerState
after events = broker (run "rabbitmq" events (new_session worker))

-- A quiet queue, a stuck consumer, and no credit left.
verdicts :
    ((evaluate rabbitmq (at 9_000_000) 0 (after (begun 8_000_000 0 []))).status ≡ Status.ok)
    × ((evaluate rabbitmq
          (at 39_000_000)
          0
          (after (delivers 8_000_000 ∷ settles 8_500_000 ∷ begun 38_000_000 7 []))).category
        ≡ some not_consuming)
    × ((evaluate rabbitmq
          (at 9_000_000)
          0
          (after (delivers 1 ∷ delivers 2 ∷ begun 8_000_000 7 []))).category
        ≡ some credit_exhausted)
unfolding evaluate judge_probe judge_consumer judge_delivery run basic_consume basic_qos
    attach_connection new_session tick delivered settled
verdicts = (refl, refl, refl)

-- `basic_ack(tag, multiple=True)` settles three messages and is counted once; the connection is
-- replaced and nothing subscribes on the new one, which goes unnoticed.
drifting :
    ((after (delivers 1 ∷ delivers 2 ∷ delivers 3 ∷ settles 4 ∷ [])).unacked ≡ 2)
    × ((evaluate rabbitmq (at 9_000_000) 0 (
          after (
            begun 1 0 (closes not_given 2 ∷ connects true ∷ ticks 8_000_000 (sees 0) ∷ [])))).status
        ≡ Status.ok)
unfolding run settled delivered new_session evaluate attach_connection on_closed basic_consume
    basic_qos tick
drifting = (refl, refl)

ok_iff_example :
    ((evaluate rabbitmq (at 9_000_000) 0 (after (begun 8_000_000 0 []))).status ≡ Status.ok) ↔ (
      Connected rabbitmq (at 9_000_000) (after (begun 8_000_000 0 []))
      × Flowing rabbitmq (at 9_000_000) (after (begun 8_000_000 0 [])))
ok_iff_example = ok_iff rabbitmq (at 9_000_000) 0 (after (begun 8_000_000 0 []))

abbrev subscribed : Session
subscribed = run "rabbitmq" (begun 8_000_000 0 []) (new_session worker)

abbrev traffic : List Event
traffic = delivers 20_000_000 ∷ settles 21_000_000 ∷ blocks 22_000_000 ∷ unblocks 23_000_000 ∷ []

silence_reported_example :
    (evaluate rabbitmq (at 30_000_000) 0 (broker (run "rabbitmq" traffic subscribed))).status
    ≡ Status.failing
unfolding run basic_consume basic_qos attach_connection new_session tick
silence_reported_example =
    silence_reported "rabbitmq" traffic subscribed rabbitmq (at 30_000_000) 0 8_000_000
      (refl, (refl, (refl, (refl, tt)))) refl (omega arith)

abbrev blocked_once : List Event
blocked_once = begun 8_000_000 0 (blocks 9_000_000 ∷ unblocks 9_500_000 ∷ blocks 9_800_000 ∷ [])

alarm_of_history_example :
    ((evaluate rabbitmq (at 10_000_000) 0 (after blocked_once)).category ≡ some broker_alarm)
    ↔ (alarm_of blocked_once false ≡ true)
unfolding run on_blocked on_unblocked basic_consume basic_qos attach_connection new_session tick
alarm_of_history_example =
    alarm_of_history "rabbitmq" blocked_once worker rabbitmq (at 10_000_000) 0 refl

unacked_of_history_example :
    (broker (run "rabbitmq" traffic subscribed)).unacked + settlements traffic
    ≡ 0 + deliveries traffic
unfolding run basic_consume basic_qos attach_connection new_session tick
unacked_of_history_example = unacked_of_history "rabbitmq" traffic subscribed 0 (refl, refl) tt

abbrev probe : Probe
probe = install_broker_probe new_state

probe_recovers_example :
    ((tick 1 misses probe).state.probe_error ≡ some (classify_amqp no_queue))
    × IsFresh (tick 1 misses probe).state 4 1 (tick 2 (sees 4) (tick 1 misses probe))
unfolding install_broker_probe
probe_recovers_example =
    probe_recovers 1 2 misses (sees 4) probe no_queue 4 1 refl refl refl refl refl
