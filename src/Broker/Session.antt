-- ===== src/Broker/Session.antt =====
-- instrument/pika_.py: what the callbacks on a connection and the wrapped methods of a channel write
-- into the state of the broker and into the traffic log, and their runs. One connection and one
-- consuming channel at a time are modelled; an event of a method is a call of it that returned.
-- Wrapping the methods and registering the callbacks are not modelled.
use health_mon.Common.{
  ℕ, suc, ◌-◌, Bool, true, false, String, Option, none, some, List, [], ◌∷◌, ◌++◌, if◌then◌else◌,
}
use health_mon.Model.{broker_alarm}
use health_mon.Recorder
use health_mon.Recorder.{Task}
use health_mon.Broker.{BrokerState, new_state}
use health_mon.Broker.Amqp.{Reason, closed_category, classify_amqp}
use health_mon.Broker.Probe.{Probe, Answer, gives, raises, Answers, tick, install_broker_probe}

-- `unacked` is the counter of instrument_pika_channel.
pub record Session : Type 0 where
  pub probe : Probe
  pub unacked : ℕ
  pub task : Task

abbrev pub update : (BrokerState → BrokerState) → Session → Session
update f s = record s { probe = record s.probe { state = f s.probe.state } }

module _ (dep : String) where
  -- on_closed, on_blocked and on_unblocked
  unfoldable pub on_closed : Reason → ℕ → Session → Session
  on_closed reason now s =
      let after = update (λ b. record b { connection_open = false; channel_state = "closed" }) s in
      record after { task = Recorder.failure dep (some (closed_category reason)) none now s.task }

  unfoldable pub on_blocked : ℕ → Session → Session
  on_blocked now s =
      let after = update (λ b. record b { blocked = true }) s in
      record after { task = Recorder.failure dep (some broker_alarm) none now s.task }

  unfoldable pub on_unblocked : ℕ → Session → Session
  on_unblocked now s =
      let after = update (λ b. record b { blocked = false }) s in
      record after { task = Recorder.success dep 0 now s.task }

  -- _delivered, which runs before the handler
  unfoldable pub delivered : ℕ → Session → Session
  delivered now s =
      let count = suc s.unacked in
      let after =
        update
          (λ b. record b { last_delivery_at = some now; unacked = count; channel_state = "open" })
          s in
      record after { unacked = count; task = Recorder.success dep 0 now s.task }

  -- basic_publish: what the call came to, and when it began
  unfoldable pub basic_publish : Answer (Unit {0}) → ℕ → ℕ → Session → Session
  basic_publish (gives _) started now s = record s {
    task = Recorder.success dep (now - started) now s.task;
  }
  basic_publish (raises e) started now s = record s {
    task = Recorder.failure dep none (some (classify_amqp e)) now s.task;
  }

-- _settled, after basic_ack, basic_nack and basic_reject
unfoldable pub settled : ℕ → Session → Session
settled now s =
    let count = s.unacked - 1 in
    let after = update (λ b. record b { last_ack_at = some now; unacked = count }) s in
    record after { unacked = count }

-- basic_consume
unfoldable pub basic_consume : String → Session → Session
basic_consume tag s =
    update
      (λ b. record b {
        consumer_tags = b.consumer_tags ++ (tag ∷ []);
        consumer_state = "consuming";
        channel_state = "open";
      })
      s

-- basic_qos, with the prefetch count of the call, if it has one
unfoldable pub basic_qos : Option ℕ → Session → Session
basic_qos none s = s
basic_qos (some count) s = update (λ b. record b { prefetch = count }) s

-- The end of instrument_pika_connection, and of instrument_pika_channel on a new channel
unfoldable pub attach_connection : Bool → Session → Session
attach_connection is_open s = update (λ b. record b { connection_open = is_open }) s

unfoldable pub attach_channel : Session → Session
attach_channel s =
    let after = update (λ b. record b { channel_state = "open" }) s in record after { unacked = 0 }

-- reconnect_amqp of workers/runtime.py: the state goes on with a new connection, and a new probe
unfoldable pub reconnected : Session → Session
reconnected s = record s {
  probe = install_broker_probe (record s.probe.state {
    connection_open = true;
    blocked = false;
    probe_error = none;
    reconnects = suc s.probe.state.reconnects;
  });
}

-- What can happen on the connection's thread.
pub data Event : Type 0 where
  closes : Reason → ℕ → Event
  blocks unblocks delivers settles : ℕ → Event
  publishes : Answer (Unit {0}) → ℕ → ℕ → Event
  consumes : String → Event
  limits : Option ℕ → Event
  connects : Bool → Event
  opens_channel replaced : Event
  ticks : ℕ → Answers → Event

-- A tick comes only where it is scheduled.
unfoldable pub ticked : ℕ → Answers → Session → Session
ticked now a s = if s.probe.armed then record s { probe = tick now a s.probe } else s

module _ (dep : String) where
  unfoldable pub step : Event → Session → Session
  unfolding ticked
  step (closes reason now) s = on_closed dep reason now s
  step (blocks now) s = on_blocked dep now s
  step (unblocks now) s = on_unblocked dep now s
  step (delivers now) s = delivered dep now s
  step (settles now) s = settled now s
  step (publishes answer started now) s = basic_publish dep answer started now s
  step (consumes tag) s = basic_consume tag s
  step (limits count) s = basic_qos count s
  step (connects is_open) s = attach_connection is_open s
  step opens_channel s = attach_channel s
  step replaced s = reconnected s
  step (ticks now a) s = ticked now a s

  unfoldable pub run : List Event → Session → Session
  unfolding step
  run [] s = s
  run (e ∷ rest) s = run rest (step e s)

unfoldable pub new_session : Task → Session
unfolding install_broker_probe
new_session task = record { probe = install_broker_probe new_state; unacked = 0; task = task }

-- The state of the broker that a session has.
abbrev pub broker : Session → BrokerState
broker s = s.probe.state
