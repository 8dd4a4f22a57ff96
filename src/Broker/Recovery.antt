-- ===== src/Broker/Recovery.antt =====
-- What the broker probe writes, and how it recovers.
use health_mon.Common.{
  ℕ, suc, true, false, ◌&&◌, ◌≡◌, refl, ap, Option, some, none, some_inj, if_off, sym, arith,
  Bool-cases, inl, inr, if◌then◌else◌,
}
use mathlib.Core.Path.{subst}
use health_mon.Broker.{BrokerState}
use health_mon.Broker.Amqp.{AmqpError, classify_amqp}
use health_mon.Broker.Probe.{
  Probe, Answer, Answers, gives, raises, tick, ensure_channel, open_channel, declare, probe_failed,
  reopened,
}

-- The exception that a tick on an open connection meets, if any.
abbrev pub error_of : Answer (ℕ × ℕ) → Option AmqpError
error_of (gives _) = none
error_of (raises e) = some e

abbrev pub opening_error : Answer (Unit {0}) → Answers → Option AmqpError
opening_error (gives _) a = error_of a.declared
opening_error (raises e) a = some e

abbrev pub met : Answers → Probe → Option AmqpError
met a p = if p.held && a.held_open then error_of a.declared else opening_error a.channel a

declare_failing :
    (now : ℕ) (a : Answers) (d : Answer (ℕ × ℕ)) (p : Probe) (e : AmqpError)
    → error_of d ≡ some e
    → ((declare now a d p).state.probe_error ≡ some (classify_amqp e))
      × ((declare now a d p).held ≡ false)
unfolding declare probe_failed
declare_failing now a (gives _) p e h = cc
declare_failing now a (raises x) p e h = (ap (λ y. some (classify_amqp y)) (some_inj h), refl)

opening_failing :
    (now : ℕ) (a : Answers) (c : Answer (Unit {0})) (p : Probe) (e : AmqpError)
    → opening_error c a ≡ some e
    → ((open_channel now a c p).state.probe_error ≡ some (classify_amqp e))
      × ((open_channel now a c p).held ≡ false)
unfolding open_channel probe_failed
opening_failing now a (gives _) p e h = declare_failing now a a.declared (reopened p) e h
opening_failing now a (raises x) p e h = (ap (λ y. some (classify_amqp y)) (some_inj h), refl)

-- A tick that meets an exception leaves its category and drops the channel.
failing_tick :
    (now : ℕ) (a : Answers) (p : Probe) (e : AmqpError)
    → a.is_open ≡ true
    → met a p ≡ some e
    → ((tick now a p).state.probe_error ≡ some (classify_amqp e)) × ((tick now a p).held ≡ false)
unfolding tick ensure_channel
failing_tick now a p e up h = elim (Bool-cases (p.held && a.held_open)) [
  | inl on ↦ rw (up, on) (declare_failing now a a.declared p e (ground arith))
  | inr off ↦ rw (up, off) (opening_failing now a a.channel p e (ground arith))
]

-- The queue was declared on a new channel.
abbrev pub IsFresh : BrokerState → ℕ → ℕ → Probe → Type 0
IsFresh before messages consumers p =
    (p.state.probe_error ≡ none)
    × (p.state.queue_depth ≡ some messages)
    × (p.state.consumer_count ≡ some consumers)
    × (p.state.probe_channel_reopens ≡ suc before.probe_channel_reopens)
    × (p.held ≡ true)

open_channel-IsFresh :
    (now : ℕ) (a : Answers) (p : Probe) (messages consumers : ℕ)
    → a.declared ≡ gives (messages, consumers)
    → IsFresh p.state messages consumers (open_channel now a (gives tt) p)
unfolding open_channel declare reopened
open_channel-IsFresh now a p messages consumers d = rw d (refl, refl, refl, refl, refl)

ensure_channel-IsFresh :
    (now : ℕ) (a : Answers) (p : Probe) (messages consumers : ℕ)
    → p.held ≡ false
    → a.channel ≡ gives tt
    → a.declared ≡ gives (messages, consumers)
    → IsFresh p.state messages consumers (ensure_channel now a p)
unfolding ensure_channel
ensure_channel-IsFresh now a p messages consumers h c d =
    subst (IsFresh p.state messages consumers)
      (sym (
        if_off (declare now a a.declared p) (open_channel now a a.channel p)
          (ap (λ held. held && a.held_open) h)))
      (subst (λ answer. IsFresh p.state messages consumers (open_channel now a answer p)) (sym c)
        (open_channel-IsFresh now a p messages consumers d))

tick-IsFresh :
    (now : ℕ) (a : Answers) (p : Probe) (messages consumers : ℕ)
    → a.is_open ≡ true
    → p.held ≡ false
    → a.channel ≡ gives tt
    → a.declared ≡ gives (messages, consumers)
    → IsFresh p.state messages consumers (tick now a p)
unfolding tick
tick-IsFresh now a p messages consumers up h c d =
    rw up (ensure_channel-IsFresh now a p messages consumers h c d)

-- A tick on an open connection that meets an exception, of the channel that it opens or of the
-- passive declare, reports the category of the exception. The next tick on an open connection that
-- gives a channel and the counts of the queue opens a new channel, even where the old one says that
-- it is open, and takes the error back.
pub probe_recovers :
    (now later : ℕ) (a b : Answers) (p : Probe) (e : AmqpError) (messages consumers : ℕ)
    → a.is_open ≡ true
    → met a p ≡ some e
    → b.is_open ≡ true
    → b.channel ≡ gives tt
    → b.declared ≡ gives (messages, consumers)
    → ((tick now a p).state.probe_error ≡ some (classify_amqp e))
      × IsFresh (tick now a p).state messages consumers (tick later b (tick now a p))
probe_recovers now later a b p e messages consumers up h open_again c d =
    let failed = failing_tick now a p e up h in
    (failed.0, tick-IsFresh later b (tick now a p) messages consumers open_again failed.1 c d)
