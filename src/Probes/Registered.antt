-- ===== src/Probes/Registered.antt =====
-- What the settings of an accepted probe give the state machine.
use health_mon.Common.{ℕ, ◌≤◌, ◌<◌, ◌≡◌, ◌⊎◌, arith}
use health_mon.Machine.Check.{backoff_base}
use health_mon.Machine.Schedule.{backoff_base_mono, backoff_base-le, backoff_base-one}
use health_mon.Monitor.{Monitor, register}
use health_mon.Monitor.Sound.{IsSound}
use health_mon.Monitor.Calls.{register-IsSound}
use health_mon.Probes.{ok, Python, Ensures-ok}
use health_mon.Probes.Spec.{RawSpec, ProbeSpec, registration, micros, post_init}
use health_mon.Probes.Bounds.{InBounds, post_init-Ensures}

micros-timeout :
    (s : ProbeSpec)
    → (s.timeout < s.interval) ⊎ ((s.timeout ≡ 1) × (s.interval ≡ 1))
    → micros s.timeout ≤ micros s.interval
micros-timeout s h = ground arith

-- Every spec that the validation makes of finite numbers registers as sane settings: the timeout is
-- above zero and not above the interval, a verdict needs at least one result, the interval between
-- two runs of a failing check starts at backoff_initial, never shrinks as the backoff climbs, and
-- never passes backoff_max; and registering it keeps a sound monitor sound.
pub registration-sane :
    (py : Python) (r : RawSpec) (s : ProbeSpec) (m : Monitor) (i j : ℕ)
    → post_init py r ≡ ok s
    → IsSound m
    → i ≤ j
    → let c = registration s in
      (0 < c.timeout)
      × (c.timeout ≤ c.interval)
      × (0 < c.success_threshold)
      × (backoff_base c 1 ≡ c.backoff_initial)
      × (backoff_base c i ≤ backoff_base c j)
      × (backoff_base c j ≤ c.backoff_max)
      × IsSound (register m c)
unfolding registration
registration-sane py r s m i j h sound i_j =
    let b = Ensures-ok InBounds _ h (post_init-Ensures py r) in
    (
      omega (arith, b.timeout_pos),
      micros-timeout s b.timeout_within,
      b.oks_pos,
      backoff_base-one _ (omega (arith, b.backoff_ordered)),
      backoff_base_mono _ i j b.growing i_j,
      backoff_base-le _ j,
      register-IsSound m _ b.fails_pos sound,
    )
