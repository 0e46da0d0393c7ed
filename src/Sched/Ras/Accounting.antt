-- ===== src/Sched/Ras/Accounting.antt =====
-- The run time that update_curr_ras of goldfish/kernel/sched/ras.c charges to the current task, and the
-- limit that its watchdog keeps.
use operating_system_project.Sched.Ras.Class.{
  rttime_ticks, is_ras, delta_exec, rlim_infinity, update_curr_ras, watchdog,
}
use operating_system_project.Prelude.{
  ==_iff, ℕ, ◌+◌, ◌-◌, ◌^◌, ◌<◌, ◌≡◌, refl, ◌≢◌, ◌⊎◌, inl, inr, false, arith, ltb, ◌==◌,
  if◌then◌else◌, Bool-cases,
}
use operating_system_project.Sched.Task.{Task, Kernel}

delta_exec-eq : (now start : ℕ) → now < 2 ^ 63 → start < 2 ^ 63 → delta_exec now start ≡ now - start
unfolding delta_exec
delta_exec-eq now start a b = ground arith

-- For a RAS task an update charges the time since its last start, nothing if the clock went back, and
-- starts anew; the other tasks and the run queue stay. A task of another class is left alone.
pub update_curr_ras-charges :
    (k : Kernel)
    → k.rq.clock_task < 2 ^ 63
    → (k.tasks k.rq.curr).exec_start < 2 ^ 63
    → (k.tasks k.rq.curr).sum_exec_runtime < 2 ^ 63
    → (is_ras (k.tasks k.rq.curr).class ≡ false) × (update_curr_ras k ≡ k)
      ⊎ (((update_curr_ras k).tasks k.rq.curr).sum_exec_runtime
          ≡ (k.tasks k.rq.curr).sum_exec_runtime
            + (k.rq.clock_task - (k.tasks k.rq.curr).exec_start))
        × (((update_curr_ras k).tasks k.rq.curr).exec_start ≡ k.rq.clock_task)
        × ((p : ℕ) → p ≢ k.rq.curr → (update_curr_ras k).tasks p ≡ k.tasks p)
        × ((update_curr_ras k).rq ≡ k.rq)
unfolding update_curr_ras
update_curr_ras-charges k c s r =
    let d = delta_exec-eq k.rq.clock_task (k.tasks k.rq.curr).exec_start c s in
    elim (Bool-cases (is_ras (k.tasks k.rq.curr).class)) [
      | inl h ↦ rw h (inr (ground (arith, d), ground arith, λ p n. ground arith, refl))
      | inr h ↦ inl (h, rw h)
    ]

-- A tick of the watchdog: without a limit nothing changes; with one it counts the tick, and sets the
-- expiry exactly when the count passes the limit in ticks, rounded up.
pub watchdog-expiry :
    (hz : ℕ) (t : Task)
    → t.ras.timeout + 1 < 2 ^ 32
    → ((t.soft ≡ rlim_infinity) × (watchdog hz t ≡ t))
      ⊎ ((t.soft ≢ rlim_infinity)
          × ((watchdog hz t).ras.timeout ≡ t.ras.timeout + 1)
          × ((watchdog hz t).sched_exp ≡ (
              if ltb (rttime_ticks hz t.soft t.hard) (t.ras.timeout + 1)
              then t.sum_exec_runtime
              else t.sched_exp)))
unfolding watchdog
watchdog-expiry hz t room = elim (Bool-cases (t.soft == rlim_infinity)) [
  | inl h ↦ inl ((==_iff t.soft rlim_infinity).0 h, rw h)
  | inr h ↦ inr (ground arith, ground arith, ground arith)
]
