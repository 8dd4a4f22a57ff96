-- ===== src/Export/Outage.antt =====
-- The exporter while its collector is away: what its queue holds.
use mathlib.Core.List.{append-nil, append_assoc}
use health_mon.Common.{
  ℕ, ◌+◌, ◌-◌, ◌≤◌, ◌<◌, ◌≡◌, refl, sym, ap, ◌∙◌, Bool, true, false, String, Option, none, some,
  List, [], ◌∷◌, ◌++◌, arith, length, length-append, length-drop, drop, newest, newest-append,
  if◌then◌else◌, Bool-cases, inl, inr,
}
use health_mon.Events.{Event}
use health_mon.Export.{
  Payload, Exporter, Cycle, Answer, is_full, is_success, offer, put, drop_oldest, put_or_drop,
  flush_queue, flush, note_failure, offer_events, offer_all, offer_logs, drain_events, run_cycle,
}
use health_mon.Export.Accounts.{offer-Keeps, record_answer-queue}

-- A queue with a bound that it respects.
pub record IsBounded (x : Exporter) : Type 0 where
  pub bounded : 0 < x.max_queue
  pub fits : length x.queue ≤ x.max_queue

put-queue :
    (item : Payload) (x : Exporter)
    → is_full x ≡ false
    → (put_or_drop item x).queue ≡ x.queue ++ item ∷ []
unfolding put_or_drop put
put-queue item x room = rw room refl

offer_full :
    (item : Payload) (x : Exporter) (q : List Payload)
    → q ≡ x.queue
    → 0 < x.max_queue
    → length q ≡ x.max_queue
    → (put_or_drop item (drop_oldest q x)).queue ≡ newest x.max_queue (q ++ item ∷ [])
unfolding put_or_drop put drop_oldest
offer_full item x [] e p l = absurd (omega arith)
offer_full item x (old ∷ rest) e p l =
    let after : Exporter = record x { queue = rest; dropped = x.dropped + 1 } in
    let room : is_full after ≡ false = ground arith in
    let one_over : 1 ≡ length (old ∷ (rest ++ item ∷ [])) - x.max_queue =
      omega (arith, length-append rest (item ∷ [])) in
    put-queue item after room ∙ ap (λ k. drop k (old ∷ (rest ++ item ∷ []))) one_over

pub offer-newest :
    (item : Payload) (x : Exporter)
    → IsBounded x
    → (offer item x).queue ≡ newest x.max_queue (x.queue ++ item ∷ [])
unfolding offer put
offer-newest item x b = elim (Bool-cases (is_full x)) [
  | inl full ↦ rw full (offer_full item x x.queue refl b.bounded (ground (arith, b.fits)))
  | inr room ↦
      let none_over : 0 ≡ length (x.queue ++ item ∷ []) - x.max_queue =
        ground (arith, length-append x.queue (item ∷ []), b.fits, b.bounded) in
      rw room (ap (λ k. drop k (x.queue ++ item ∷ [])) none_over)
]

pub offer-IsBounded : (item : Payload) (x : Exporter) → IsBounded x → IsBounded (offer item x)
offer-IsBounded item x b =
    let same = (offer-Keeps item x).1 in
    let now = ap length (offer-newest item x b) in
    let cut = length-drop (length (x.queue ++ item ∷ []) - x.max_queue) (x.queue ++ item ∷ []) in
    record { bounded = omega (arith, same, b.bounded); fits = omega (arith, same, now, cut) }

-- Payloads that are offered one after the other while none is sent.
unfoldable pub offer_each : List Payload → Exporter → Exporter
offer_each [] x = x
offer_each (item ∷ rest) x = offer_each rest (offer item x)

-- Newest wins: whatever is offered while nothing is sent, the bounded queue holds the last
-- max_queue of what it held and what was offered, in order.
pub newest_wins :
    (items : List Payload) (x : Exporter)
    → IsBounded x
    → (offer_each items x).queue ≡ newest x.max_queue (x.queue ++ items)
unfolding offer_each
newest_wins [] x b =
    let none_over : 0 ≡ length x.queue - x.max_queue = omega (arith, b.fits) in
    rw append-nil (ap (λ k. drop k x.queue) none_over)
newest_wins (item ∷ rest) x b =
    let n = x.max_queue in
    let x' = offer item x in
    newest_wins rest x' (offer-IsBounded item x b)
    ∙ ap (λ m. newest m (x'.queue ++ rest)) ((offer-Keeps item x).1)
    ∙ ap (λ q. newest n (q ++ rest)) (offer-newest item x b)
    ∙ newest-append n (x.queue ++ item ∷ []) rest
    ∙ ap (newest n) (append_assoc x.queue (item ∷ []) rest)

one_left :
    (b : Bool) (x y : Exporter) → x.queue ≡ [] → y.queue ≡ [] → (if b then x else y).queue ≡ []
one_left true x y hx hy = hx
one_left false x y hx hy = hy

-- A queue of one payload is empty after a flush, whatever the collector answers.
flush_one :
    (now : ℕ) (answers : ℕ → Answer) (x : Exporter) (item : Payload)
    → x.queue ≡ item ∷ []
    → (flush now answers x).queue ≡ []
unfolding flush flush_queue
flush_one now answers x item e =
    ap (λ q. (flush_queue now answers 0 q x).queue) e
    ∙ one_left (is_success (answers 0)) _ _ refl
        (record_answer-queue now (answers 0) (record x { queue = [] }))

flush_none :
    (now : ℕ) (answers : ℕ → Answer) (x : Exporter)
    → x.queue ≡ []
    → (flush now answers x).queue ≡ []
unfolding flush flush_queue
flush_none now answers x e = ap (λ q. (flush_queue now answers 0 q x).queue) e

offer_events-idle :
    (c : Cycle) (events : List Event) (x : Exporter)
    → events ≡ []
    → (offer_events c (x, events)).queue ≡ x.queue
unfolding offer_events
offer_events-idle c [] x e = refl
offer_events-idle c (_ ∷ _) x e = cc

offer_logs-idle :
    (c : Cycle) (on : Bool) (x : Exporter)
    → x.pending_events ≡ []
    → (offer_logs c on x).queue ≡ x.queue
unfolding offer_logs drain_events
offer_logs-idle c true x e = offer_events-idle c x.pending_events _ e
offer_logs-idle c false x e = refl

-- Where no event waits, what a cycle offers is its metrics, if they could be built.
offer_all-idle :
    (c : Cycle) (metrics : Option String) (x : Exporter)
    → x.pending_events ≡ []
    → (offer_all c metrics x).queue
      ≡ elim metrics [ none ↦ x.queue | some body ↦ (offer ("/v1/metrics", body) x).queue ]
unfolding offer_all note_failure
offer_all-idle c none x e = refl
offer_all-idle c (some body) x e =
    offer_logs-idle c x.export_logs _ ((offer-Keeps ("/v1/metrics", body) x).0 ∙ e)

flush_idle :
    (c : Cycle) (metrics : Option String) (x : Exporter)
    → 0 < x.max_queue
    → x.queue ≡ []
    → x.pending_events ≡ []
    → (flush c.now c.answers (offer_all c metrics x)).queue ≡ []
flush_idle c none x p q e = flush_none c.now c.answers _ (offer_all-idle c none x e ∙ q)
flush_idle c (some body) x p q e =
    let b : IsBounded x = record { bounded = p; fits = omega (arith, ap length q) } in
    let one_in : 0 ≡ 1 - x.max_queue = omega (arith, p) in
    flush_one c.now c.answers _ ("/v1/metrics", body)
      (offer_all-idle c (some body) x e
        ∙ offer-newest ("/v1/metrics", body) x b
        ∙ ap (λ (l : List Payload). newest x.max_queue (l ++ ("/v1/metrics", body) ∷ [])) q
        ∙ sym (ap (λ k. drop k (("/v1/metrics", body) ∷ [])) one_in))

-- A cycle with no event to send leaves an empty queue empty, whatever the collector answers: in an
-- outage the payload that is not delivered is not kept for later, and the queue does not fill.
pub idle_cycle_empties :
    (c : Cycle) (x : Exporter)
    → 0 < x.max_queue
    → x.queue ≡ []
    → x.pending_events ≡ []
    → (run_cycle c x).queue ≡ []
unfolding run_cycle
idle_cycle_empties c x p q e = flush_idle c c.metrics x p q e
