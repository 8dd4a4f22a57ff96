-- ===== src/Events/Recent.antt =====
-- The recent events of telemetry/events.py against everything that was emitted.
use mathlib.Core.List.{append-nil, append_assoc}
use health_mon.Common.{
  ◌-◌, ◌≤◌, ◌≡◌, refl, ◌∙◌, ap, inl, inr, List, [], ◌∷◌, ◌++◌, arith, length, length-drop, drop,
  newest, newest-append, ltb, Bool-cases,
}
use health_mon.Events.{Event, Emitter, emit, emit_all}

emit-newest :
    (e : Emitter) (event : Event)
    → (emit e event).recent ≡ newest e.max_recent (e.recent ++ event ∷ [])
unfolding emit
emit-newest e event = elim (Bool-cases (ltb e.max_recent (length (e.recent ++ event ∷ [])))) [
  | inl over ↦ rw over refl
  | inr fits ↦
      let none_over : 0 ≡ length (e.recent ++ event ∷ []) - e.max_recent = ground arith in
      rw fits (ap (λ k. drop k (e.recent ++ event ∷ [])) none_over)
]

emit-max_recent : (e : Emitter) (event : Event) → (emit e event).max_recent ≡ e.max_recent
unfolding emit
emit-max_recent e event = refl

newest_all :
    (e : Emitter) → length e.recent ≤ e.max_recent → e.recent ≡ newest e.max_recent e.recent
newest_all e h =
    let none_over : 0 ≡ length e.recent - e.max_recent = omega arith in
    ap (λ k. drop k e.recent) none_over

-- The list of recent events holds the last `max_recent` of everything that was ever emitted, in
-- order: each event that is emitted is the newest, and only the oldest are dropped.
pub recent_of_history :
    (e : Emitter) (events : List Event)
    → length e.recent ≤ e.max_recent
    → (emit_all e events).recent ≡ newest e.max_recent (e.recent ++ events)
unfolding emit_all
recent_of_history e [] h = rw append-nil (newest_all e h)
recent_of_history e (event ∷ rest) h =
    let n = e.max_recent in
    let e' = emit e event in
    let same = emit-max_recent e event in
    let now = emit-newest e event in
    recent_of_history e' rest (
      omega (
        arith,
        same,
        ap length now,
        length-drop (length (e.recent ++ event ∷ []) - n) (e.recent ++ event ∷ []),
      ))
    ∙ ap (λ m. newest m (e'.recent ++ rest)) same
    ∙ ap (λ xs. newest n (xs ++ rest)) now
    ∙ newest-append n (e.recent ++ event ∷ []) rest
    ∙ ap (newest n) (append_assoc e.recent (event ∷ []) rest)
