-- ===== src/Broker/Alarm.antt =====
-- What the check reports as its own findings follows the history of the connection.
use health_mon.Common.{
  ℕ, Bool, true, false, not, ◌||◌, ◌≡◌, ◌↔◌, ◌≢◌, refl, sym, ◌∙◌, String, Option, some, none,
  Option-cases, some_inj, ap, List, [], ◌∷◌, ◌++◌, is_empty, arith, inl, inr,
}
use health_mon.Model.{ErrorCategory, broker_alarm}
use health_mon.Ladder.{CheckContext}
use health_mon.Recorder.{Task}
use health_mon.Broker.{
  BrokerState, RabbitMqCheck, evaluate, judge_probe, judge_consumer, judge_delivery,
}
use health_mon.Broker.Probe.{gives, raises}
use health_mon.Broker.Session.{
  Session, Event, closes, blocks, unblocks, delivers, settles, publishes, consumes, limits,
  connects, opens_channel, replaced, ticks, step, run, broker, on_closed, on_blocked, on_unblocked,
  delivered, settled, basic_publish, basic_consume, basic_qos, attach_connection, attach_channel,
  new_session, reconnected,
}
use health_mon.Broker.Undisturbed.{IsForeign, ticked-Undisturbed}
use health_mon.Broker.Probe.{install_broker_probe}

-- The state of the broker's alarm after the events: that of the last callback, unless the worker
-- has replaced the connection since.
abbrev pub alarm_after : Event → Bool → Bool
alarm_after (blocks _) on = true
alarm_after (unblocks _) on = false
alarm_after replaced on = false
alarm_after _ on = on

unfoldable pub alarm_of : List Event → Bool → Bool
alarm_of [] on = on
alarm_of (e ∷ rest) on = alarm_of rest (alarm_after e on)

-- Some of the events is a basic_consume.
abbrev pub is_consume : Event → Bool
is_consume (consumes _) = true
is_consume _ = false

-- What a step does to the alarm, to the subscriptions, and to the error of the probe.
abbrev pub Follows : Event → BrokerState → BrokerState → Type 0
Follows e s t =
    (t.blocked ≡ alarm_after e s.blocked)
    × (is_consume e || not (is_empty s.consumer_tags) ≡ true → is_empty t.consumer_tags ≡ false)
    × (IsForeign s.probe_error → IsForeign t.probe_error)

is_empty-append : (tags : List String) (tag : String) → is_empty (tags ++ (tag ∷ [])) ≡ false
is_empty-append [] tag = refl
is_empty-append (_ ∷ _) tag = refl

step-Follows :
    (dep : String) (e : Event) (s : Session) → Follows e (broker s) (broker (step dep e s))
unfolding step on_closed on_blocked on_unblocked delivered settled basic_publish basic_consume
    basic_qos attach_connection attach_channel reconnected install_broker_probe
step-Follows dep (closes _ _) s = (refl, λ h. ground arith, λ h. h)
step-Follows dep (blocks _) s = (refl, λ h. ground arith, λ h. h)
step-Follows dep (unblocks _) s = (refl, λ h. ground arith, λ h. h)
step-Follows dep (delivers _) s = (refl, λ h. ground arith, λ h. h)
step-Follows dep (settles _) s = (refl, λ h. ground arith, λ h. h)
step-Follows dep (publishes (gives _) _ _) s = (refl, λ h. ground arith, λ h. h)
step-Follows dep (publishes (raises _) _ _) s = (refl, λ h. ground arith, λ h. h)
step-Follows dep (consumes tag) s =
    (refl, λ h. is_empty-append (broker s).consumer_tags tag, λ h. h)
step-Follows dep (limits none) s = (refl, λ h. ground arith, λ h. h)
step-Follows dep (limits (some _)) s = (refl, λ h. ground arith, λ h. h)
step-Follows dep (connects _) s = (refl, λ h. ground arith, λ h. h)
step-Follows dep opens_channel s = (refl, λ h. ground arith, λ h. h)
step-Follows dep replaced s = (refl, λ h. ground arith, λ h. tt)
step-Follows dep (ticks now a) s =
    let (b, c, _, e) = ticked-Undisturbed now a s in (b, λ h. ground arith, e)

run-Follows :
    (dep : String) (events : List Event) (s : Session)
    → ((broker (run dep events s)).blocked ≡ alarm_of events (broker s).blocked)
      × (IsForeign (broker s).probe_error → IsForeign (broker (run dep events s)).probe_error)
unfolding run alarm_of
run-Follows dep [] s = (refl, λ h. h)
run-Follows dep (e ∷ rest) s =
    let here = step-Follows dep e s in
    let later = run-Follows dep rest (step dep e s) in
    (later.0 ∙ ap (alarm_of rest) here.0, λ h. later.1 (here.2 h))

module _ (check : RabbitMqCheck) (ctx : CheckContext) (latency : ℕ) where
  judge_consumer-not_alarm :
      (s : BrokerState) → (judge_consumer check ctx latency s).category ≢ some broker_alarm
  unfolding judge_consumer judge_delivery
  judge_consumer-not_alarm s h = elim (Option-cases s.last_delivery_at) [
    | inl never ↦ ground arith
    | inr (t, e) ↦ ground arith
  ]

  judge_probe-not_alarm :
      (s : BrokerState) (error : Option ErrorCategory) (probed : Option ℕ)
      → IsForeign error
      → (judge_probe check ctx latency s error probed).category ≢ some broker_alarm
  unfolding judge_probe
  judge_probe-not_alarm s (some c) probed h e = h.0 (some_inj e)
  judge_probe-not_alarm s none none h e = cc
  judge_probe-not_alarm s none (some t) h e = ground (arith, judge_consumer-not_alarm s)

  alarm_iff :
      (s : BrokerState)
      → IsForeign s.probe_error
      → s.connection_open ≡ true
      → ((evaluate check ctx latency s).category ≡ some broker_alarm) ↔ (s.blocked ≡ true)
  unfolding evaluate
  alarm_iff s h up = ground (arith, judge_probe-not_alarm s s.probe_error s.last_probe_at h)

-- After any run of events on a new state, the check of an open connection reports the alarm of the
-- broker exactly when the callback for blocked came, and since then neither the callback for
-- unblocked nor a replacement of the connection by the worker. So no failure of the probe passes
-- for an alarm, and none ends it.
pub alarm_of_history :
    (dep : String) (events : List Event) (task : Task) (check : RabbitMqCheck) (ctx : CheckContext)
    (latency : ℕ)
    → (broker (run dep events (new_session task))).connection_open ≡ true
    → ((evaluate check ctx latency (broker (run dep events (new_session task)))).category
        ≡ some broker_alarm)
      ↔ (alarm_of events false ≡ true)
unfolding new_session install_broker_probe
alarm_of_history dep events task check ctx latency up =
    let history = run-Follows dep events (new_session task) in
    let iff =
      alarm_iff check ctx latency (broker (run dep events (new_session task))) (history.1 tt) up in
    (λ h. sym history.0 ∙ iff.0 h, λ h. iff.1 (history.0 ∙ h))
