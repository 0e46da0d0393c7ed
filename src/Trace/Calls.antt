-- ===== src/Trace/Calls.antt =====
-- The page trace's system calls: sys_start_trace of page-trace/start_trace.c, sys_stop_trace of
-- page-trace/stop_trace.c, sys_get_trace of page-trace/get_trace.c, sys_set_wcounts of
-- set_wcounts/set_wcounts.c and sys_rr_fifo_trace of rr_fifo_trace/rr_fifo_trace.c. The lookup
-- pid_task(find_vpid(pid), PIDTYPE_PID) is the parameter `find`: the task of a pid, if there is one.
use operating_system_project.Prelude.{u32, ℕ, Bool, not, Option, none, some, ◌==◌, if◌then◌else◌}
use operating_system_project.Prelude.{ℤ, pos, negsuc, is_negative}
use operating_system_project.Trace.Mprotect.{
  prot_read, Outcome, mprotect_s, Memory, einval, returns, crash, out_of_fuel,
}
use operating_system_project.Sched.Task.{Task, Kernel, set_task}

-- A system call's end: its value and the state that it leaves, or no end.
pub data Call (S : Type 0) : Type 0 where
  done : ℤ → S → Call S
  fault : Call S

-- -1
abbrev pub failed : ℤ
failed = negsuc 0

abbrev pub set_trace : Task → ℕ → ℕ → Task
set_trace t flag n = record t { trace_flag = flag; wcounts = n }

-- What sys_start_trace makes of mprotect_s.
abbrev pub after_mprotect : (m : Memory) → Kernel → Outcome m → Call (Kernel × m.Mm)
after_mprotect m k (returns mm e) = done (if is_negative e then failed else pos 0) (k, mm)
after_mprotect m k crash = fault
after_mprotect m k out_of_fuel = fault

module _ (find : ℕ → Option ℕ) where
  -- sys_start_trace, behind the lookup
  abbrev pub start_task :
      (m : Memory) → ℕ → Kernel → m.Mm → ℕ → ℕ → ℕ → Option ℕ → Call (Kernel × m.Mm)
  start_task m fuel k mm current start size none = done failed (k, mm)
  start_task m fuel k mm current start size (some p) =
      let t = k.tasks p in
      if not (t.pid == (k.tasks current).pid)
      then done failed (k, mm)
      else if t.trace_flag == 1
      then done einval (k, mm)
      else after_mprotect m (set_task k p (set_trace t 1 0))
          (mprotect_s m fuel mm start size prot_read)

  -- sys_start_trace, called by the task `current`
  unfoldable pub sys_start_trace :
      (m : Memory) → ℕ → Kernel → m.Mm → ℕ → ℕ → ℕ → ℕ → Call (Kernel × m.Mm)
  sys_start_trace m fuel k mm current pid start size =
      start_task m fuel k mm current start size (find pid)

  abbrev pub stop_task : Kernel → Option ℕ → ℤ × Kernel
  stop_task k none = (failed, k)
  stop_task k (some p) =
      if (k.tasks p).trace_flag == 0
      then (einval, k)
      else (pos 0, set_task k p (record (k.tasks p) { trace_flag = 0 }))

  -- sys_stop_trace
  unfoldable pub sys_stop_trace : Kernel → ℕ → ℤ × Kernel
  sys_stop_trace k pid = stop_task k (find pid)

  -- What put_user stores: the counter, if the user's address is good; its result is not looked at.
  abbrev pub get_task : Bool → Kernel → Option ℕ → ℤ × Option ℕ
  get_task writable k none = (failed, none)
  get_task writable k (some p) = (pos 0, if writable then some (k.tasks p).wcounts else none)

  -- sys_get_trace
  unfoldable pub sys_get_trace : Bool → Kernel → ℕ → ℤ × Option ℕ
  sys_get_trace writable k pid = get_task writable k (find pid)

  abbrev pub set_counts : Kernel → ℕ → Option ℕ → ℤ × Kernel
  set_counts k n none = (failed, k)
  set_counts k n (some p) = (pos 0, set_task k p (record (k.tasks p) { wcounts = n }))

  -- sys_set_wcounts: the argument is stored as an unsigned int.
  unfoldable pub sys_set_wcounts : Kernel → ℕ → ℕ → ℤ × Kernel
  sys_set_wcounts k pid n = set_counts k (u32 n) (find pid)

  abbrev pub mark_task : Kernel → Option ℕ → ℤ × Kernel
  mark_task k none = (failed, k)
  mark_task k (some p) = (pos 0, set_task k p (record (k.tasks p) { rr_fifo_trace = 1 }))

  -- sys_rr_fifo_trace
  unfoldable pub sys_rr_fifo_trace : Kernel → ℕ → ℤ × Kernel
  sys_rr_fifo_trace k pid = mark_task k (find pid)
