-- ===== src/Sched/Core/Ranges.antt =====
-- sched_get_priority_min and sched_get_priority_max give the priorities that sched_setscheduler takes.
use operating_system_project.Prelude.{
  ℕ, ◌≤◌, ◌<◌, ◌≡◌, ◌↔◌, inl, inr, Bool, true, false, not, ◌&&◌, ◌||◌, Option, some, arith, ◌==◌,
  Bool-cases,
}
use operating_system_project.Prelude.{pos}
use operating_system_project.Sched.Task.{Task}
use operating_system_project.Sched.Core.World.{World, Env, task}
use operating_system_project.Sched.Core.Policy.{
  Caller, setscheduler, unless_refused, refusal, reset_flag, is_policy, bad_priority, asked_policy,
}
use operating_system_project.Sched.Core.Calls.{
  holds, find_process_by_pid, do_sched_setscheduler, sys_sched_setscheduler, get_priority_min,
  get_priority_max,
}

-- The priority lies between what the two calls give for the policy.
abbrev pub InRange : ℕ → ℕ → Type 0
InRange policy prio =
    (lo : ℕ) × (hi : ℕ) × (get_priority_min policy ≡ pos lo)
    × (get_priority_max policy ≡ pos hi)
    × (lo ≤ prio)
    × (prio ≤ hi)

-- The checks of the policy and the priority, for a task t
abbrev passes : ℕ → ℕ → Task → Bool
passes policy prio t = is_policy policy && not (bad_priority (pos prio) policy t)

passes-InRange : (policy prio : ℕ) (t : Task) → passes policy prio t ≡ true → InRange policy prio
unfolding get_priority_min get_priority_max
passes-InRange policy prio t h = elim (Bool-cases (policy == 1 || policy == 2)) [
  | inl rt ↦ (1, 99, ground arith, ground arith, ground arith, ground arith)
  | inr other ↦ (0, 0, ground arith, ground arith, ground arith, ground arith)
]

InRange-passes : (policy prio : ℕ) (t : Task) → InRange policy prio → passes policy prio t ≡ true
unfolding get_priority_min get_priority_max
InRange-passes policy prio t (lo, hi, p, q, a, b) = ground arith

asked_policy-small : (n : ℕ) (t : Task) → n < reset_flag → asked_policy (pos n) t ≡ n
asked_policy-small n t h = ground arith

module _ {S : Type 0} (e : Env S) (find : ℕ → Option ℕ) (c : Caller) (w : World S) (p : ℕ) where
  -- What keeps a call from being refused for anything but its arguments.
  abbrev pub MayChange : Type 0
  MayChange =
      (c.capable ≡ true)
      × (c.security_set p ≡ pos 0)
      × (e.is_stop p ≡ false)
      × (e.no_rt_runtime w p ≡ false)

  -- With nothing else to refuse it, the call succeeds exactly if the checks pass.
  refusal-passes :
      (n prio : ℕ) (w' : World S)
      → n < reset_flag
      → MayChange
      → ((unless_refused e w w' (refusal e c w p (pos n) (pos prio) true)).0 ≡ pos 0)
        ↔ (passes n prio (task w p) ≡ true)
  unfolding refusal
  refusal-passes n prio w' small (a, b, d, f) = (
    λ h. ground (arith, asked_policy-small n (task w p) small),
    λ h. ground (arith, asked_policy-small n (task w p) small),
  )

  -- For a policy without the reset flag, a caller with CAP_SYS_NICE whom the security module lets pass,
  -- and a task that is not the stop thread and whose group has real-time runtime: sched_setscheduler
  -- returns 0 exactly for the priorities between what sched_get_priority_min and sched_get_priority_max
  -- give for the policy, and for none where these refuse the policy.
  pub setscheduler-InRange :
      (pid n prio : ℕ)
      → n < reset_flag
      → find_process_by_pid find c pid ≡ some p
      → MayChange
      → ((sys_sched_setscheduler e find c w (pos pid) (pos n) (holds (pos prio))).0 ≡ pos 0)
        ↔ InRange n prio
  unfolding sys_sched_setscheduler do_sched_setscheduler setscheduler
  setscheduler-InRange pid n prio small found may =
      let r = refusal-passes n prio _ small may in
      rw found (
        λ h. passes-InRange n prio (task w p) (r.0 h),
        λ h. r.1 (InRange-passes n prio (task w p) h),
      )
