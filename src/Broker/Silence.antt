-- ===== src/Broker/Silence.antt =====
-- A worker whose connection loop has stopped turning is found out.
use health_mon.Common.{
  ℕ, ◌-◌, ◌<◌, Bool, true, false, ◌≡◌, refl, ◌∙◌, String, some, none, List, [], ◌∷◌, All, arith,
}
use health_mon.Model.{Status}
use health_mon.Ladder.{CheckContext}
use health_mon.Broker.{BrokerState, RabbitMqCheck, evaluate, judge_probe}
use health_mon.Broker.Probe.{gives, raises, install_broker_probe}
use health_mon.Broker.Session.{
  Session, Event, closes, blocks, unblocks, delivers, settles, publishes, consumes, limits,
  connects, opens_channel, replaced, ticks, step, run, broker, on_closed, on_blocked, on_unblocked,
  delivered, settled, basic_publish, basic_consume, basic_qos, attach_connection, attach_channel,
  reconnected,
}

abbrev pub is_tick : Event → Bool
is_tick (ticks _ _) = true
is_tick _ = false

probed_before :
    (dep : String) (e : Event) (s : Session)
    → is_tick e ≡ false
    → (broker (step dep e s)).last_probe_at ≡ (broker s).last_probe_at
unfolding step on_closed on_blocked on_unblocked delivered settled basic_publish basic_consume
    basic_qos attach_connection attach_channel reconnected install_broker_probe
probed_before dep (closes _ _) s h = refl
probed_before dep (blocks _) s h = refl
probed_before dep (unblocks _) s h = refl
probed_before dep (delivers _) s h = refl
probed_before dep (settles _) s h = refl
probed_before dep (publishes (gives _) _ _) s h = refl
probed_before dep (publishes (raises _) _ _) s h = refl
probed_before dep (consumes _) s h = refl
probed_before dep (limits none) s h = refl
probed_before dep (limits (some _)) s h = refl
probed_before dep (connects _) s h = refl
probed_before dep opens_channel s h = refl
probed_before dep replaced s h = refl
probed_before dep (ticks _ _) s h = cc

run_probed_before :
    (dep : String) (events : List Event) (s : Session)
    → All (λ e. is_tick e ≡ false) events
    → (broker (run dep events s)).last_probe_at ≡ (broker s).last_probe_at
unfolding run
run_probed_before dep [] s h = refl
run_probed_before dep (e ∷ rest) s h =
    run_probed_before dep rest (step dep e s) h.1 ∙ probed_before dep e s h.0

judge_stale :
    (check : RabbitMqCheck) (ctx : CheckContext) (latency t : ℕ) (s : BrokerState)
    → s.last_probe_at ≡ some t
    → check.stale_after < ctx.now - t
    → (evaluate check ctx latency s).status ≡ Status.failing
unfolding evaluate judge_probe
judge_stale check ctx latency t s e h = ground arith

-- Once the broker was observed, and then the loop of the connection stops so that no tick comes, the
-- check is failing when more than `stale_after` has passed since the last tick, whatever else
-- happens on the connection in the meantime: deliveries, acknowledgements and the lifecycle callbacks
-- included.
pub silence_reported :
    (dep : String) (events : List Event) (s : Session) (check : RabbitMqCheck) (ctx : CheckContext)
    (latency t : ℕ)
    → All (λ e. is_tick e ≡ false) events
    → (broker s).last_probe_at ≡ some t
    → check.stale_after < ctx.now - t
    → (evaluate check ctx latency (broker (run dep events s))).status ≡ Status.failing
silence_reported dep events s check ctx latency t quiet probed late =
    judge_stale check ctx latency t (broker (run dep events s))
      (run_probed_before dep events s quiet ∙ probed) late
