-- ===== src/Broker/Verdict.antt =====
-- When the check of checks/rabbitmq.py passes.
use health_mon.Common.{
  ℕ, ◌-◌, ◌≤◌, ◌<◌, true, false, ◌≡◌, refl, ◌↔◌, ◌⊎◌, Option, none, some, is_empty, arith,
}
use health_mon.Model.{Status, ErrorCategory}
use health_mon.Ladder.{CheckContext}
use health_mon.Broker.{
  BrokerState, RabbitMqCheck, evaluate, judge_probe, judge_consumer, judge_delivery,
}

-- A reading was taken, at most `limit` before `now`.
abbrev pub Within : ℕ → ℕ → Option ℕ → Type 0
Within limit now none = ⊥
Within limit now (some t) = now - t ≤ limit

-- The depth of the queue, where one that is not known counts as none.
abbrev pub depth_of : Option ℕ → ℕ
depth_of none = 0
depth_of (some depth) = depth

-- Nothing was ever delivered, or something was recently.
abbrev pub Delivering : ℕ → ℕ → Option ℕ → Type 0
Delivering limit now none = Unit
Delivering limit now (some t) = now - t ≤ limit

-- The broker talks to the worker, and the consumer is subscribed.
abbrev pub Connected : RabbitMqCheck → CheckContext → BrokerState → Type 0
Connected check ctx s =
    (s.connection_open ≡ true)
    × (s.blocked ≡ false)
    × (s.probe_error ≡ none)
    × Within check.stale_after ctx.now s.last_probe_at
    × (is_empty s.consumer_tags ≡ false)

-- The queue is quiet, or its messages are few, the consumer has credit left for them and gets them.
abbrev pub Flowing : RabbitMqCheck → CheckContext → BrokerState → Type 0
Flowing check ctx s =
    (depth_of s.queue_depth ≡ 0)
    ⊎ ((depth_of s.queue_depth ≤ check.backlog_threshold)
        × ((s.prefetch ≡ 0) ⊎ (s.unacked < s.prefetch))
        × Delivering check.stale_after ctx.now s.last_delivery_at)

module _ (check : RabbitMqCheck) (ctx : CheckContext) (latency : ℕ) where
  judge_delivery_ok :
      (s : BrokerState) (last : Option ℕ)
      → ((judge_delivery check ctx latency s last).status ≡ Status.ok)
        ↔ Delivering check.stale_after ctx.now last
  unfolding judge_delivery
  judge_delivery_ok s none = ground arith
  judge_delivery_ok s (some t) = ground arith

  judge_depth_ok :
      (s : BrokerState) (depth : Option ℕ)
      → s.queue_depth ≡ depth
      → is_empty s.consumer_tags ≡ false
      → ((judge_consumer check ctx latency s).status ≡ Status.ok) ↔ Flowing check ctx s
  unfolding judge_consumer
  judge_depth_ok s none e h = ground (arith, judge_delivery_ok s s.last_delivery_at)
  judge_depth_ok s (some depth) e h = ground (arith, judge_delivery_ok s s.last_delivery_at)

  judge_consumer_ok :
      (s : BrokerState)
      → ((judge_consumer check ctx latency s).status ≡ Status.ok)
        ↔ ((is_empty s.consumer_tags ≡ false) × Flowing check ctx s)
  unfolding judge_consumer
  judge_consumer_ok s = ground (arith, judge_depth_ok s s.queue_depth refl)

  judge_probe_ok :
      (s : BrokerState) (error : Option ErrorCategory) (probed : Option ℕ)
      → ((judge_probe check ctx latency s error probed).status ≡ Status.ok) ↔ (
          (error ≡ none)
          × Within check.stale_after ctx.now probed
          × (is_empty s.consumer_tags ≡ false)
          × Flowing check ctx s)
  unfolding judge_probe
  judge_probe_ok s (some category) probed = ground arith
  judge_probe_ok s none none = ground arith
  judge_probe_ok s none (some t) = ground (arith, judge_consumer_ok s)

  -- The check passes exactly when the connection is open and not blocked, the last probe succeeded
  -- and is at most `stale_after` old, something is subscribed, and either the queue is empty or of
  -- unknown depth, or its depth is at most the threshold, the consumer has prefetch credit left (or
  -- no prefetch is set), and nothing was ever delivered or something at most `stale_after` ago.
  pub ok_iff :
      (s : BrokerState)
      → ((evaluate check ctx latency s).status ≡ Status.ok)
        ↔ (Connected check ctx s × Flowing check ctx s)
  unfolding evaluate
  ok_iff s = ground (arith, judge_probe_ok s s.probe_error s.last_probe_at)
