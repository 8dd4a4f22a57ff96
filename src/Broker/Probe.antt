-- ===== src/Broker/Probe.antt =====
-- install_broker_probe of checks/rabbitmq.py: the probe that runs on the connection's own thread.
-- What the connection and its channels answer is the argument `Answers`.
use health_mon.Common.{ℕ, suc, Bool, true, false, not, ◌&&◌, none, some, if◌then◌else◌}
use health_mon.Broker.{BrokerState}
use health_mon.Broker.Amqp.{AmqpError, classify_amqp}

pub data Answer {ℓ} (A : Type ℓ) : Type ℓ where
  gives : A → Answer A
  raises : AmqpError → Answer A

-- `is_open` of the connection at the begin of a tick and after an exception, `is_open` of the
-- channel that the probe holds, a new channel, the passive declare with its two counts, and
-- whether `call_later` takes the next tick.
pub record Answers : Type 0 where
  pub is_open : Bool
  pub still_open : Bool
  pub held_open : Bool
  pub channel : Answer (Unit {0})
  pub declared : Answer (ℕ × ℕ)
  pub rearms : Bool

-- `held` is whether the holder has a channel, `armed` whether the next tick is scheduled.
pub record Probe : Type 0 where
  pub state : BrokerState
  pub held : Bool
  pub armed : Bool

-- The `except` branch of a tick
unfoldable pub probe_failed : ℕ → Answers → AmqpError → Probe → Probe
probe_failed now a e p = record p {
  held = false;
  state = record p.state {
    probe_error = some (classify_amqp e);
    last_probe_at = some now;
    connection_open = a.still_open;
  };
}

-- The passive declare
unfoldable pub declare : ℕ → Answers → Answer (ℕ × ℕ) → Probe → Probe
unfolding probe_failed
declare now a (gives (messages, consumers)) p = record p {
  state = record p.state {
    connection_open = true;
    queue_depth = some messages;
    consumer_count = some consumers;
    last_probe_at = some now;
    probe_error = none;
  };
}
declare now a (raises e) p = probe_failed now a e p

unfoldable pub reopened : Probe → Probe
reopened p = record p {
  held = true;
  state = record p.state { probe_channel_reopens = suc p.state.probe_channel_reopens };
}

-- The channel is opened, then the queue declared on it.
unfoldable pub open_channel : ℕ → Answers → Answer (Unit {0}) → Probe → Probe
unfolding probe_failed declare reopened
open_channel now a (gives _) p = declare now a a.declared (reopened p)
open_channel now a (raises e) p = probe_failed now a e p

-- _ensure_channel, and the rest of the `try` after it
unfoldable pub ensure_channel : ℕ → Answers → Probe → Probe
unfolding declare open_channel
ensure_channel now a p =
    if p.held && a.held_open then declare now a a.declared p else open_channel now a a.channel p

unfoldable pub connection_closed : Probe → Probe
connection_closed p = record p { state = record p.state { connection_open = false } }

-- _tick, with its `finally`
unfoldable pub tick : ℕ → Answers → Probe → Probe
unfolding ensure_channel connection_closed
tick now a p =
    let after = if not a.is_open then connection_closed p else ensure_channel now a p in
    record after { armed = a.rearms }

-- install_broker_probe, where `call_later` takes the first tick
unfoldable pub install_broker_probe : BrokerState → Probe
install_broker_probe s = record { state = s; held = false; armed = true }
