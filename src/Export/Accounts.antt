-- ===== src/Export/Accounts.antt =====
-- The payloads of the exporter and its counters (telemetry/otel.py, `_run`, `_flush` and `_post`).
use health_mon.Common.{
  ℕ, suc, ◌+◌, ◌≡◌, refl, sym, ap, ◌∙◌, Bool, true, false, not, String, Option, none, some, List,
  [], ◌∷◌, arith, is_some, length, length-append, Bool-cases, inl, inr, if_on, if_off,
  if◌then◌else◌,
}
use health_mon.Events.{Event}
use health_mon.Export.{
  Payload, Exporter, Cycle, Answer, response, http_error, raised, escaped, is_full, is_success,
  offer, put, drop_oldest, put_or_drop, record_answer, flush_queue, flush, note_failure,
  offer_or_note, offer_events, offer_all, offer_logs, drain_events, run_cycle,
}

-- Every payload that was ever attempted: sent, failed, dropped or still in the queue.
abbrev pub total : Exporter → ℕ
total x = x.exported + x.failed + x.dropped + length x.queue

put_or_drop-total : (item : Payload) (x : Exporter) → total (put_or_drop item x) ≡ total x + 1
unfolding put_or_drop put
put_or_drop-total item x = elim (Bool-cases (is_full x)) [
  | inl full ↦ rw full (omega arith)
  | inr room ↦ rw room (omega (arith, length-append x.queue (item ∷ [])))
]

drop_oldest-total : (x : Exporter) → total (drop_oldest x.queue x) ≡ total x
unfolding drop_oldest
drop_oldest-total x = go x.queue refl
  where
    go : (q : List Payload) → q ≡ x.queue → total (drop_oldest q x) ≡ total x
    go [] e = refl
    go (_ ∷ rest) e = omega (arith, ap length e)

pub offer-total : (item : Payload) (x : Exporter) → total (offer item x) ≡ total x + 1
unfolding offer put
offer-total item x = elim (Bool-cases (is_full x)) [
  | inl full ↦
      rw full (omega (arith, put_or_drop-total item (drop_oldest x.queue x), drop_oldest-total x))
  | inr room ↦ rw room (omega (arith, length-append x.queue (item ∷ [])))
]

-- The payload that an exporter whose thread has ended did not count.
abbrev pub lost : Exporter → ℕ
lost x = if x.alive then 0 else 1

-- A request moves its payload from the queue to the sent or the failed ones, or it ends the thread.
record_answer-total :
    (now : ℕ) (a : Answer) (x : Exporter)
    → x.alive ≡ true
    → let y = record_answer now a x in total y + lost y ≡ total x + 1
unfolding record_answer
record_answer-total now (response status) x l = elim (Bool-cases (is_success (response status))) [
  | inl sent ↦ rw (sent, l) (omega arith)
  | inr refused ↦ rw (refused, l) (omega arith)
]
record_answer-total now (http_error code) x l = rw l (omega arith)
record_answer-total now (raised name) x l = rw l (omega arith)
record_answer-total now escaped x l = omega arith

pub record_answer-queue :
    (now : ℕ) (a : Answer) (x : Exporter) → (record_answer now a x).queue ≡ x.queue
unfolding record_answer
record_answer-queue now (response status) x = elim (Bool-cases (is_success (response status))) [
  | inl sent ↦ rw sent refl
  | inr refused ↦ rw refused refl
]
record_answer-queue now (http_error code) x = refl
record_answer-queue now (raised name) x = refl
record_answer-queue now escaped x = refl

record_answer-alive :
    (now : ℕ) (a : Answer) (x : Exporter)
    → is_success a ≡ true
    → (record_answer now a x).alive ≡ x.alive
unfolding record_answer
record_answer-alive now (response status) x sent = rw sent refl
record_answer-alive now (http_error code) x sent = refl
record_answer-alive now (raised name) x sent = refl
record_answer-alive now escaped x sent = cc

flush_queue-total :
    (now : ℕ) (answers : ℕ → Answer) (n : ℕ) (q : List Payload) (x : Exporter)
    → q ≡ x.queue
    → x.alive ≡ true
    → let y = flush_queue now answers n q x in total y + lost y ≡ total x
unfolding flush_queue
flush_queue-total now answers n [] x e l = rw l (omega (arith, ap length e))
flush_queue-total now answers n (item ∷ rest) x e l =
    let left : Exporter = record x { queue = rest } in
    let x' = record_answer now (answers n) left in
    let one_out : total x' + lost x' ≡ total x =
      omega (arith, record_answer-total now (answers n) left l, ap length e) in
    elim (Bool-cases (is_success (answers n))) [
      | inl sent ↦
          let l' : x'.alive ≡ true = record_answer-alive now (answers n) left sent ∙ l in
          let none_lost : lost x' ≡ 0 = rw l' refl in
          ap (λ y. total y + lost y) (if_on (flush_queue now answers (suc n) rest x') x' sent)
          ∙ flush_queue-total now answers (suc n) rest x'
              (sym (record_answer-queue now (answers n) left)) l'
          ∙ omega (arith, one_out, none_lost)
      | inr stop ↦
          ap (λ y. total y + lost y) (if_off (flush_queue now answers (suc n) rest x') x' stop)
          ∙ one_out
    ]

offer_or_note-total :
    (path : String) (body : Option String) (error : String) (x : Exporter)
    → total (offer_or_note path body error x) ≡ total x + 1
unfolding offer_or_note note_failure
offer_or_note-total path (some body) error x = offer-total (path, body) x
offer_or_note-total path none error x = omega arith

-- The payloads that a cycle attempts: one of metrics, and one of the events that wait unless the
-- metrics could not be built.
abbrev pub attempts : Bool → Bool → List Event → ℕ
attempts true true (_ ∷ _) = 2
attempts _ _ _ = 1

offer_events-total :
    (c : Cycle) (events : List Event) (x : Exporter)
    → total (offer_events c (x, events)) + 1 ≡ total x + attempts true true events
unfolding offer_events
offer_events-total c [] x = refl
offer_events-total c (_ ∷ _) x = omega (arith, offer_or_note-total "/v1/logs" c.logs c.error x)

-- What waits for the next cycle, the bound of the queue, and whether the thread goes on.
abbrev pub Keeps : Exporter → Exporter → Type 0
Keeps x y =
    (y.pending_events ≡ x.pending_events) × (y.max_queue ≡ x.max_queue) × (y.alive ≡ x.alive)

put_or_drop-Keeps : (item : Payload) (x : Exporter) → Keeps x (put_or_drop item x)
unfolding put_or_drop put
put_or_drop-Keeps item x = elim (Bool-cases (is_full x)) [
  | inl full ↦ rw full (refl, refl, refl)
  | inr room ↦ rw room (refl, refl, refl)
]

drop_oldest-Keeps : (q : List Payload) (x : Exporter) → Keeps x (drop_oldest q x)
unfolding drop_oldest
drop_oldest-Keeps [] x = (refl, refl, refl)
drop_oldest-Keeps (_ ∷ rest) x = (refl, refl, refl)

pub offer-Keeps : (item : Payload) (x : Exporter) → Keeps x (offer item x)
unfolding offer put
offer-Keeps item x = elim (Bool-cases (is_full x)) [
  | inl full ↦
      let first = drop_oldest-Keeps x.queue x in
      let second = put_or_drop-Keeps item (drop_oldest x.queue x) in
      let is = if_off (put item x) (put_or_drop item (drop_oldest x.queue x)) (ap not full) in
      (
        ap (λ (y : Exporter). y.pending_events) is ∙ second.0 ∙ first.0,
        ap (λ (y : Exporter). y.max_queue) is ∙ second.1 ∙ first.1,
        ap (λ (y : Exporter). y.alive) is ∙ second.2 ∙ first.2,
      )
  | inr room ↦ rw room (refl, refl, refl)
]

offer_logs-total :
    (c : Cycle) (on : Bool) (x : Exporter)
    → total (offer_logs c on x) + 1 ≡ total x + attempts true on x.pending_events
unfolding offer_logs drain_events
offer_logs-total c true x = offer_events-total c x.pending_events (record x { pending_events = [] })
offer_logs-total c false x = refl

offer_all-total :
    (c : Cycle) (metrics : Option String) (x : Exporter)
    → total (offer_all c metrics x)
      ≡ total x + attempts (is_some metrics) x.export_logs x.pending_events
unfolding offer_all note_failure
offer_all-total c none x = omega arith
offer_all-total c (some body) x =
    let first = offer-total ("/v1/metrics", body) x in
    let logged = offer_logs-total c x.export_logs (offer ("/v1/metrics", body) x) in
    omega (
      arith,
      logged,
      first,
      ap (attempts true x.export_logs) (offer-Keeps ("/v1/metrics", body) x).0,
    )

offer_or_note-alive :
    (path : String) (body : Option String) (error : String) (x : Exporter)
    → (offer_or_note path body error x).alive ≡ x.alive
unfolding offer_or_note note_failure
offer_or_note-alive path (some body) error x = (offer-Keeps (path, body) x).2
offer_or_note-alive path none error x = refl

offer_events-alive :
    (c : Cycle) (events : List Event) (x : Exporter) → (offer_events c (x, events)).alive ≡ x.alive
unfolding offer_events
offer_events-alive c [] x = refl
offer_events-alive c (_ ∷ _) x = offer_or_note-alive "/v1/logs" c.logs c.error x

offer_logs-alive : (c : Cycle) (on : Bool) (x : Exporter) → (offer_logs c on x).alive ≡ x.alive
unfolding offer_logs drain_events
offer_logs-alive c true x = offer_events-alive c x.pending_events (record x { pending_events = [] })
offer_logs-alive c false x = refl

offer_all-alive :
    (c : Cycle) (metrics : Option String) (x : Exporter) → (offer_all c metrics x).alive ≡ x.alive
unfolding offer_all note_failure
offer_all-alive c none x = refl
offer_all-alive c (some body) x =
    offer_logs-alive c x.export_logs (offer ("/v1/metrics", body) x)
    ∙ (offer-Keeps ("/v1/metrics", body) x).2

-- A cycle of the exporter adds to its counters and its queue exactly the payloads that it attempts,
-- whatever the collector answers and whichever payloads cannot be built, with one exception: where
-- an exception of _post escapes and ends the thread, the one payload that it was posting is neither
-- counted nor queued.
pub run_cycle-total :
    (c : Cycle) (x : Exporter)
    → x.alive ≡ true
    → let y = run_cycle c x in
      total y + lost y ≡ total x + attempts (is_some c.metrics) x.export_logs x.pending_events
unfolding run_cycle flush
run_cycle-total c x l =
    flush_queue-total c.now c.answers 0 (offer_all c c.metrics x).queue (offer_all c c.metrics x)
      refl (offer_all-alive c c.metrics x ∙ l)
    ∙ offer_all-total c c.metrics x
