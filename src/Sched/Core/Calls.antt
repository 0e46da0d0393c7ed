-- ===== src/Sched/Core/Calls.antt =====
-- The scheduler's system calls in goldfish/kernel/sched/core.c: sched_setscheduler, sched_setparam,
-- sched_getscheduler, sched_getparam, sched_get_priority_max, sched_get_priority_min and
-- sched_rr_get_interval. `find` stands for find_task_by_vpid.
use operating_system_project.Prelude.{
  ℕ, ◌+◌, ◌-◌, Bool, true, ◌||◌, Option, none, some, ◌==◌, if◌then◌else◌,
}
use operating_system_project.Prelude.{ℤ, pos, negsuc, is_negative}
use operating_system_project.Sched.Task.{
  sched_normal, sched_fifo, sched_rr, sched_batch, sched_idle, sched_ras,
}
use operating_system_project.Sched.Core.World.{World, task, Env, handlers}
use operating_system_project.Sched.Core.Policy.{
  Caller, einval, esrch, efault, is_zero, reset_flag, setscheduler, max_rt_prio,
}

-- What a user's pointer gives: NULL, an address that cannot be read, or a priority.
pub data Param : Type 0 where
  null : Param
  unreadable : Param
  holds : ℤ → Param

-- sys_sched_get_priority_max
unfoldable pub get_priority_max : ℕ → ℤ
get_priority_max policy =
    if policy == sched_fifo || policy == sched_rr
    then pos (max_rt_prio - 1)
    else if policy == sched_normal
        || policy == sched_batch
        || policy == sched_idle
        || policy == sched_ras
    then pos 0
    else einval

-- sys_sched_get_priority_min
unfoldable pub get_priority_min : ℕ → ℤ
get_priority_min policy =
    if policy == sched_fifo || policy == sched_rr
    then pos 1
    else if policy == sched_normal
        || policy == sched_batch
        || policy == sched_idle
        || policy == sched_ras
    then pos 0
    else einval

-- find_process_by_pid, for a pid that is not negative
unfoldable pub find_process_by_pid : (ℕ → Option ℕ) → Caller → ℕ → Option ℕ
find_process_by_pid find c pid = if pid == 0 then some c.current else find pid

module _ {S : Type 0} (e : Env S) (find : ℕ → Option ℕ) (c : Caller) where
  abbrev pub set_found : World S → Option ℕ → ℤ → ℤ → ℤ × World S
  set_found w none policy prio = (esrch, w)
  set_found w (some p) policy prio = setscheduler e c w p policy prio true

  abbrev pub set_with : World S → ℕ → ℤ → Param → ℤ × World S
  set_with w pid policy null = (einval, w)
  set_with w pid policy unreadable = (efault, w)
  set_with w pid policy (holds prio) = set_found w (find_process_by_pid find c pid) policy prio

  -- do_sched_setscheduler
  unfoldable pub do_sched_setscheduler : World S → ℤ → ℤ → Param → ℤ × World S
  unfolding find_process_by_pid
  do_sched_setscheduler w (negsuc n) policy param = (einval, w)
  do_sched_setscheduler w (pos pid) policy param = set_with w pid policy param

  -- sys_sched_setscheduler
  unfoldable pub sys_sched_setscheduler : World S → ℤ → ℤ → Param → ℤ × World S
  unfolding do_sched_setscheduler
  sys_sched_setscheduler w pid policy param =
      if is_negative policy then (einval, w) else do_sched_setscheduler w pid policy param

  -- sys_sched_setparam
  unfoldable pub sys_sched_setparam : World S → ℤ → Param → ℤ × World S
  unfolding do_sched_setscheduler
  sys_sched_setparam w pid param = do_sched_setscheduler w pid (negsuc 0) param

  -- `retval = security_task_getscheduler(p)`, and the value behind it
  abbrev pub get_found : Option ℕ → (ℕ → ℤ) → ℤ
  get_found none f = esrch
  get_found (some p) f = if is_zero (c.security_get p) then f p else c.security_get p

  -- `p->policy | SCHED_RESET_ON_FORK`: the policies are less than the flag.
  abbrev pub policy_value : World S → ℕ → ℤ
  policy_value w p = pos ((task w p).policy + (if (task w p).reset_on_fork then reset_flag else 0))

  -- sys_sched_getscheduler
  unfoldable pub sys_sched_getscheduler : World S → ℤ → ℤ
  unfolding find_process_by_pid
  sys_sched_getscheduler w (negsuc n) = einval
  sys_sched_getscheduler w (pos pid) = get_found (find_process_by_pid find c pid) (policy_value w)

  abbrev pub copied : Bool → ℤ
  copied writable = if writable then pos 0 else efault

  -- sys_sched_getparam: the value, and what is put at the user's address. `writable` says that the
  -- pointer is good, and none is the null pointer.
  unfoldable pub sys_sched_getparam : World S → ℤ → Option Bool → ℤ × Option ℕ
  unfolding find_process_by_pid
  sys_sched_getparam w (negsuc n) writable = (einval, none)
  sys_sched_getparam w (pos pid) none = (einval, none)
  sys_sched_getparam w (pos pid) (some writable) =
      let r : ℤ = get_found (find_process_by_pid find c pid) (λ p. copied writable) in
      (r, if is_zero r then rt_priority_of w (find_process_by_pid find c pid) else none)
    where
      rt_priority_of : World S → Option ℕ → Option ℕ
      rt_priority_of w none = none
      rt_priority_of w (some p) = some (task w p).rt_priority

  abbrev pub with_interval : Bool → ℕ × World S → ℤ × Option ℕ × World S
  with_interval writable (n, w) = (copied writable, if writable then some n else none, w)

  abbrev pub interval_found : World S → Option ℕ → Bool → ℤ × Option ℕ × World S
  interval_found w none writable = (esrch, none, w)
  interval_found w (some p) writable =
      if is_zero (c.security_get p)
      then with_interval writable ((handlers e (task w p).class).interval w p)
      else (c.security_get p, none, w)

  -- sys_sched_rr_get_interval: the value, the ticks that the stored timespec stands for, and the state.
  unfoldable pub sys_sched_rr_get_interval : World S → ℤ → Bool → ℤ × Option ℕ × World S
  unfolding find_process_by_pid
  sys_sched_rr_get_interval w (negsuc n) writable = (einval, none, w)
  sys_sched_rr_get_interval w (pos pid) writable =
      interval_found w (find_process_by_pid find c pid) writable
