-- ===== src/Sched/Ras/Interval.antt =====
-- What a query of the time slice does to a RAS task: get_rr_interval_ras of
-- goldfish/kernel/sched/ras.c writes the slice that it returns.
use operating_system_project.Sched.Ras.Bounds.{refill-slice_bounds}
use operating_system_project.Sched.Ras.Rotation.{task_tick_ras-inside, next_slice, slice, resched}
use operating_system_project.Sched.Ras.Class.{get_rr_interval_ras, task_tick_ras}
use operating_system_project.Sched.Ras.Slice.{refill}
use operating_system_project.Prelude.{ℕ, zero, suc, ◌≤◌, ◌≡◌, refl, ◌∙◌, arith}
use operating_system_project.Sched.Task.{Task, Kernel}

-- n rounds of a query for the task and a tick of it
pub querying : ℕ → ℕ → Kernel → ℕ → Kernel
querying hz zero k p = k
querying hz (suc n) k p = querying hz n (task_tick_ras hz (get_rr_interval_ras hz k p).1 p) p

refill_again :
    (hz : ℕ) (t : Task) → (refill hz (refill hz t)).ras.time_slice ≡ (refill hz t).ras.time_slice
unfolding refill
refill_again hz t = refl

asked :
    (hz : ℕ) (k : Kernel) (p : ℕ)
    → ((get_rr_interval_ras hz k p).1.rq ≡ k.rq)
      × (slice (get_rr_interval_ras hz k p).1 p ≡ next_slice hz k p)
      × (resched (get_rr_interval_ras hz k p).1 p ≡ resched k p)
      × ((get_rr_interval_ras hz k p).0 ≡ next_slice hz k p)
unfolding get_rr_interval_ras refill
asked hz k p = (refl, ground arith, ground arith, refl)

-- A task that is asked for its time slice before each tick never ends its slice: however many ticks
-- come, the queue stays and no rescheduling is asked for, whatever slice the task began with. HZ is
-- from 67, where each slice has two ticks or more, to a million.
pub querying-starves :
    (hz n : ℕ) (k : Kernel) (p : ℕ)
    → 67 ≤ hz
    → hz ≤ 1000000
    → ((querying hz n k p).rq ≡ k.rq) × (resched (querying hz n k p) p ≡ resched k p)
unfolding querying
querying-starves hz zero k p lo hi = (refl, refl)
querying-starves hz (suc n) k p lo hi =
    let q = (get_rr_interval_ras hz k p).1 in
    let (a, b, c, d) = asked hz k p in
    let (x, y, z) = refill-slice_bounds hz (k.tasks p) (omega arith) hi in
    let (e, f, g, h) = task_tick_ras-inside hz q p (omega (arith, b, y)) (omega (arith, b, z)) in
    let (u, v) = querying-starves hz n (task_tick_ras hz q p) p lo hi in (u ∙ (e ∙ a), v ∙ (g ∙ c))
