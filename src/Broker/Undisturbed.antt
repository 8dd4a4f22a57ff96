-- ===== src/Broker/Undisturbed.antt =====
-- What a tick of the broker probe leaves alone.
use health_mon.Common.{
  ℕ, true, false, ◌&&◌, ◌≡◌, refl, Option, some, none, if◌then◌else◌, Bool-cases, inl, inr,
}
use health_mon.Model.{ErrorCategory}
use health_mon.Broker.{BrokerState}
use health_mon.Broker.Amqp.{IsOwn, classify_amqp-IsOwn}
use health_mon.Broker.Probe.{
  Probe, Answer, Answers, gives, raises, tick, ensure_channel, open_channel, declare, probe_failed,
  reopened, connection_closed,
}
use health_mon.Broker.Session.{Session, broker, ticked}

-- The error of the probe is none that the check reports itself.
abbrev pub IsForeign : Option ErrorCategory → Type 0
IsForeign none = Unit
IsForeign (some c) = IsOwn c

-- What a tick leaves alone, and what it leaves as an error.
abbrev pub Undisturbed : BrokerState → BrokerState → Type 0
Undisturbed s t =
    (t.blocked ≡ s.blocked)
    × (t.consumer_tags ≡ s.consumer_tags)
    × (t.unacked ≡ s.unacked)
    × (IsForeign s.probe_error → IsForeign t.probe_error)

declare-Undisturbed :
    (now : ℕ) (a : Answers) (d : Answer (ℕ × ℕ)) (p : Probe)
    → Undisturbed p.state (declare now a d p).state
unfolding declare probe_failed
declare-Undisturbed now a (gives (_, _)) p = (refl, refl, refl, λ _. tt)
declare-Undisturbed now a (raises e) p = (refl, refl, refl, λ _. classify_amqp-IsOwn e)

open_channel-Undisturbed :
    (now : ℕ) (a : Answers) (c : Answer (Unit {0})) (p : Probe)
    → Undisturbed p.state (open_channel now a c p).state
unfolding open_channel reopened probe_failed
open_channel-Undisturbed now a (gives _) p = declare-Undisturbed now a a.declared (reopened p)
open_channel-Undisturbed now a (raises e) p = (refl, refl, refl, λ _. classify_amqp-IsOwn e)

ensure_channel-Undisturbed :
    (now : ℕ) (a : Answers) (p : Probe) → Undisturbed p.state (ensure_channel now a p).state
unfolding ensure_channel
ensure_channel-Undisturbed now a p = elim (Bool-cases (p.held && a.held_open)) [
  | inl on ↦ rw on (declare-Undisturbed now a a.declared p)
  | inr off ↦ rw off (open_channel-Undisturbed now a a.channel p)
]

pub tick-Undisturbed :
    (now : ℕ) (a : Answers) (p : Probe) → Undisturbed p.state (tick now a p).state
unfolding tick connection_closed
tick-Undisturbed now a p = elim (Bool-cases a.is_open) [
  | inl on ↦ rw on (ensure_channel-Undisturbed now a p)
  | inr off ↦ rw off (refl, refl, refl, λ h. h)
]

pub ticked-Undisturbed :
    (now : ℕ) (a : Answers) (s : Session) → Undisturbed (broker s) (broker (ticked now a s))
unfolding ticked
ticked-Undisturbed now a s =
    elim s.probe.armed
      as (λ armed.
        Undisturbed (broker s)
          (broker (if armed then record s { probe = tick now a s.probe } else s))) [
            | true ↦ tick-Undisturbed now a s.probe
            | false ↦ (refl, refl, refl, λ h. h)
          ]
