-- ===== src/Broker/Credit.antt =====
-- The count of unacked messages that instrument/pika_.py keeps, which the check compares with the
-- prefetch.
use health_mon.Common.{
  ℕ, zero, suc, ◌+◌, ◌-◌, true, false, ◌≡◌, ap, refl, ◌∙◌, String, some, none, List, [], ◌∷◌,
  if◌then◌else◌, arith,
}
use health_mon.Broker.Undisturbed.{ticked-Undisturbed}
use health_mon.Broker.Probe.{gives, raises, Answers, tick, install_broker_probe}
use health_mon.Broker.Session.{
  Session, Event, closes, blocks, unblocks, delivers, settles, publishes, consumes, limits,
  connects, opens_channel, replaced, ticks, step, run, broker, on_closed, on_blocked, on_unblocked,
  delivered, settled, basic_publish, basic_consume, basic_qos, attach_connection, attach_channel,
  ticked, reconnected,
}

-- The events of one channel, on which `outstanding` messages are unacked: every settlement is one of
-- a message that was delivered on it before. What is left is how many are unacked at the end.
abbrev pub OneChannel : List Event → ℕ → Type 0
OneChannel [] outstanding = Unit
OneChannel (delivers _ ∷ rest) outstanding = OneChannel rest (suc outstanding)
OneChannel (settles _ ∷ rest) zero = ⊥
OneChannel (settles _ ∷ rest) (suc outstanding) = OneChannel rest outstanding
OneChannel (opens_channel ∷ rest) outstanding = ⊥
OneChannel (_ ∷ rest) outstanding = OneChannel rest outstanding

unfoldable pub deliveries : List Event → ℕ
deliveries [] = 0
deliveries (delivers _ ∷ rest) = suc (deliveries rest)
deliveries (_ ∷ rest) = deliveries rest

unfoldable pub settlements : List Event → ℕ
settlements [] = 0
settlements (settles _ ∷ rest) = suc (settlements rest)
settlements (_ ∷ rest) = settlements rest

-- The counter of the channel, and the copy that the check reads.
abbrev pub Counts : Session → ℕ → Type 0
Counts s n = (s.unacked ≡ n) × ((broker s).unacked ≡ n)

unacked_kept : (now : ℕ) (a : Answers) (s : Session) → (ticked now a s).unacked ≡ s.unacked
unfolding ticked
unacked_kept now a s =
    elim s.probe.armed
      as (λ armed.
        (if armed then record s { probe = tick now a s.probe } else s).unacked ≡ s.unacked) [
          | true ↦ refl
          | false ↦ refl
        ]

ticked-Counts :
    (now : ℕ) (a : Answers) (s : Session) (n : ℕ) → Counts s n → Counts (ticked now a s) n
ticked-Counts now a s n (c, b) = (unacked_kept now a s ∙ c, (ticked-Undisturbed now a s).2 ∙ b)

-- On one channel, messages that were delivered are settled or unacked: the count that the check
-- compares with the prefetch, together with the settlements, is that of before and the deliveries,
-- in whatever order they come and whatever else happens on the connection.
pub unacked_of_history :
    (dep : String) (events : List Event) (s : Session) (n : ℕ)
    → Counts s n
    → OneChannel events n
    → (broker (run dep events s)).unacked + settlements events ≡ n + deliveries events
unfolding run step on_closed on_blocked on_unblocked delivered settled basic_publish basic_consume
    basic_qos attach_connection attach_channel reconnected install_broker_probe deliveries
    settlements
unacked_of_history dep [] s n h one = omega (arith, h.1)
unacked_of_history dep (closes r now ∷ rest) s n h one =
    unacked_of_history dep rest (on_closed dep r now s) n h one
unacked_of_history dep (blocks now ∷ rest) s n h one =
    unacked_of_history dep rest (on_blocked dep now s) n h one
unacked_of_history dep (unblocks now ∷ rest) s n h one =
    unacked_of_history dep rest (on_unblocked dep now s) n h one
unacked_of_history dep (delivers now ∷ rest) s n h one =
    let later =
      unacked_of_history dep rest (delivered dep now s) (suc n) (ap suc h.0, ap suc h.0) one in
    omega (arith, later)
unacked_of_history dep (settles now ∷ rest) s zero h one = absurd one
unacked_of_history dep (settles now ∷ rest) s (suc n) h one =
    let less : s.unacked - 1 ≡ n = omega (arith, h.0) in
    let later = unacked_of_history dep rest (settled now s) n (less, less) one in
    omega (arith, later)
unacked_of_history dep (publishes (gives a) started now ∷ rest) s n h one =
    unacked_of_history dep rest (basic_publish dep (gives a) started now s) n h one
unacked_of_history dep (publishes (raises e) started now ∷ rest) s n h one =
    unacked_of_history dep rest (basic_publish dep (raises e) started now s) n h one
unacked_of_history dep (consumes tag ∷ rest) s n h one =
    unacked_of_history dep rest (basic_consume tag s) n h one
unacked_of_history dep (limits none ∷ rest) s n h one =
    unacked_of_history dep rest (basic_qos none s) n h one
unacked_of_history dep (limits (some c) ∷ rest) s n h one =
    unacked_of_history dep rest (basic_qos (some c) s) n h one
unacked_of_history dep (connects up ∷ rest) s n h one =
    unacked_of_history dep rest (attach_connection up s) n h one
unacked_of_history dep (opens_channel ∷ rest) s n h one = absurd one
unacked_of_history dep (replaced ∷ rest) s n h one =
    unacked_of_history dep rest (reconnected s) n h one
unacked_of_history dep (ticks now a ∷ rest) s n h one =
    unacked_of_history dep rest (ticked now a s) n (ticked-Counts now a s n h) one
