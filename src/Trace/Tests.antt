-- ===== src/Trace/Tests.antt =====
-- Runs of the page trace on one task and one area of memory.
use operating_system_project.Trace.Termination.{mprotect_s-Ends}
use operating_system_project.Trace.Fault.{access_error}
use operating_system_project.Trace.Handler.{
  Faulting, Mm, Context, do_page_fault, after_first, try_fault, good_area, finish, do_user_fault,
  signalled, sigsegv_accerr,
}
use operating_system_project.Prelude.{◌+◌, u32}
use operating_system_project.Trace.Signals.{FaultAt, faults, write_signals, faults-write_signals}
use operating_system_project.Trace.Session.{
  trace_session, failed_start-locks, events, violations, Access, Event, makes, starts, stops, asks,
  sets,
}
use operating_system_project.Trace.Table.{
  written, start_trace_exit, Hook, start_trace_init-stays, hook_exit-hook_init, hook_init,
  hook_exit, start_trace_init,
}
use operating_system_project.Prelude.{
  ℕ, ◌^◌, ◌<◌, ◌≡◌, ap, refl, ◌≢◌, inr, true, false, Option, none, some, List, [], ◌∷◌, arith, ltb,
  if◌then◌else◌, update,
}
use operating_system_project.Prelude.{ℤ, pos}
use operating_system_project.Trace.Mprotect.{
  einval, early, protect_areas, protect_from, eacces, enosys, IsMemory, Memory, mprotect_s, returns,
  out_of_fuel,
}
use operating_system_project.Trace.Calls.{
  sys_get_trace, failed, sys_stop_trace, sys_start_trace, done,
}
use operating_system_project.Sched.Task.{Task, Kernel, fair_class}

-- One area from 4096 to 12288, readable and writable; the security check answers `answer`.
abbrev one_area : ℤ → Memory
one_area answer = record {
  Mm = Unit {0};
  Vma = Unit {0};
  find_vma = λ mm a. if ltb a 12288 then some tt else none;
  vm_start = λ mm v. 4096;
  vm_end = λ mm v. 12288;
  vm_flags = λ mm v. 0x73;
  vm_prev = λ mm v. none;
  vm_next = λ mm v. none;
  valid_prot = λ p. true;
  implies_exec = false;
  prot_bits = λ p. p;
  security = λ mm v r p. answer;
  protect = λ mm v p s e f. (tt, some tt, pos 0);
}

one_area-IsMemory : (answer : ℤ) → IsMemory (one_area answer)
one_area-IsMemory answer = record {
  proper = λ mm v. (omega arith, omega arith);
  found = λ mm a v h. ground arith;
}

abbrev plain_task : ℕ → Task
plain_task p = record {
  pid = p;
  wcounts = 3;
  trace_flag = 0;
  rr_fifo_trace = 0;
  policy = 0;
  prio = 120;
  static_prio = 120;
  normal_prio = 120;
  rt_priority = 0;
  reset_on_fork = false;
  has_mm = true;
  class = fair_class;
  on_rq = true;
  exec_start = 0;
  sum_exec_runtime = 0;
  exec_max = 0;
  sched_exp = 0;
  group = "/";
  soft = 0;
  hard = 0;
  need_resched = false;
  ras = record { timeout = 0; time_slice = 0; weight = 0 };
}

abbrev calm : Kernel
calm = record {
  rq = record {
    curr = 7;
    clock_task = 0;
    nr_running = 1;
    ras = record { run_list = []; ras_nr_running = 0; ras_time = 0 };
  };
  tasks = plain_task;
}

abbrev find_any : ℕ → Option ℕ
find_any pid = some pid

-- A write to a read-only area, by one of two tasks.
abbrev write_by : ℕ → Access
write_by p = record {
  by = p;
  fsr = record { write = true; prefetch = false };
  vm = record { may_read = true; may_write = false; may_exec = false };
}

protects : mprotect_s (one_area (pos 0)) 2 tt 4096 4096 1 ≡ returns tt (pos 0)
unfolding mprotect_s protect_from protect_areas early
protects = refl

denies : mprotect_s (one_area eacces) 2 tt 4096 4096 1 ≡ returns tt eacces
unfolding mprotect_s protect_from protect_areas early
denies = refl

mprotect_s-Ends_example : mprotect_s (one_area (pos 0)) (2 ^ 32) tt 4096 4096 1 ≢ out_of_fuel
mprotect_s-Ends_example =
    mprotect_s-Ends (one_area (pos 0)) (one_area-IsMemory (pos 0)) (2 ^ 32) tt 4096 4096 1
      (omega arith)

-- The stop_trace module is loaded with the function 900. Then other modules are loaded at 363 and 364, and the
-- one at 363 is unloaded.
abbrev found_table : Hook
found_table = record { table = λ i. i; oldcall = 0 }

abbrev of_others : List (ℕ × ℕ)
of_others = (363, 901) ∷ (364, 902) ∷ (363, 363) ∷ []

hook_exit-hook_init_example :
    let v = (hook_init 362 900 found_table).1 in
    (hook_exit 362 (record v { table = written of_others v.table })).table 364
    ≡ written of_others found_table.table 364
hook_exit-hook_init_example = hook_exit-hook_init 362 900 found_table of_others (omega arith) 364

start_trace_init-stays_example :
    ((start_trace_init (some 5) none 800 found_table).0 ≡ enosys)
    × ((i : ℕ)
        → (start_trace_exit
              (start_trace_init
                (some 5)
                (some 6)
                850
                (start_trace_init (some 5) none 800 found_table).1).1).table
            i
          ≡ update found_table.table 361 800 i)
start_trace_init-stays_example =
    start_trace_init-stays (some 5) none 800 5 6 850 found_table (inr refl)

-- The task 7 writes twice and the task 8 once. The task 8 starts its own trace and stops it, its counter is set,
-- and it asks for that of the task 7.
abbrev meanwhile : List (Event (Unit {0}))
meanwhile =
    makes (write_by 7)
    ∷ starts 8 8 4096 4096 tt
    ∷ makes (write_by 8)
    ∷ asks 7
    ∷ sets 8 90
    ∷ stops 8
    ∷ makes (write_by 7)
    ∷ []

counts_run : violations 7 meanwhile ≡ 2
unfolding violations
counts_run = refl

two_hits : violations 7 meanwhile < 2 ^ 32
two_hits = omega (arith, counts_run)

some-ne : (a b : ℕ) → a ≢ b → some a ≢ some b
some-ne a b n e = n (ap (value b) e)
  where
    value : ℕ → Option ℕ → ℕ
    value d none = d
    value d (some x) = x

trace_session_example :
    (k' : Kernel) × (sys_start_trace find_any (one_area (pos 0)) 2 calm tt 7 7 4096 4096
      ≡ done (pos 0) (k', tt))
    × ((sys_stop_trace find_any (events find_any (one_area (pos 0)) 2 k' meanwhile) 7).0 ≡ pos 0)
    × (sys_get_trace find_any true
          (events find_any
            (one_area (pos 0))
            2
            (sys_stop_trace find_any (events find_any (one_area (pos 0)) 2 k' meanwhile) 7).1
            (makes (write_by 7) ∷ []))
          7
        ≡ (pos 0, some (violations 7 meanwhile)))
trace_session_example =
    trace_session find_any (one_area (pos 0)) 2 calm tt 7 7 4096 4096 refl tt (pos 0) meanwhile
      (makes (write_by 7) ∷ []) (omega arith) protects
      (
        tt,
        (
          some-ne 8 7 (omega arith),
          (tt, (tt, (some-ne 8 7 (omega arith), (some-ne 8 7 (omega arith), (tt, tt))))),
        ),
      )
      (tt, tt) two_hits

failed_start-locks_example :
    (k' : Kernel) × (sys_start_trace find_any (one_area eacces) 2 calm tt 7 7 4096 4096
      ≡ done failed (k', tt))
    × ((mm'' : Unit {0}) (start' size' : ℕ)
        → sys_start_trace find_any (one_area eacces) 2 k' mm'' 7 7 start' size'
          ≡ done einval (k', mm''))
failed_start-locks_example =
    failed_start-locks find_any (one_area eacces) 2 calm tt 7 7 4096 4096 refl tt eacces
      (omega arith) denies refl

-- One area from 4096, of which every page can be brought in
abbrev one_vma : Mm (Unit {0})
one_vma = record {
  find_vma =
      λ m addr. some (record { vm_start = 4096; vm_flags = (write_by 7).vm; grows_down = false });
  expand_stack = λ m v addr. (false, m);
  handle_mm_fault = λ m v page write allow. (
    record { oom = false; sigbus = false; other_error = false; major = false; retry = allow },
    m,
  );
  page_of = λ addr. addr;
  first_user_address = 0;
  fatal_signal_pending = λ m. false;
}

abbrev from_user : Context
from_user = record {
  notified = false;
  atomic = false;
  user_mode = true;
  lock_free = true;
  in_tables = false;
  fixup = false;
}

abbrev traced : Faulting (Unit {0})
traced = record {
  task = record (plain_task 7) { trace_flag = 1 };
  maj_flt = 0;
  min_flt = 0;
  address = 0;
  error_code = record { write = false; prefetch = false };
  trap_no = 0;
  memory = tt;
}

-- The write gives a signal and a count, and a minor fault is accounted for it.
write_run :
    ((do_page_fault one_vma from_user 5000 (write_by 7).fsr traced).0 ≡ signalled sigsegv_accerr)
    × ((do_page_fault one_vma from_user 5000 (write_by 7).fsr traced).1.task.wcounts ≡ 4)
    × ((do_page_fault one_vma from_user 5000 (write_by 7).fsr traced).1.min_flt ≡ 1)
unfolding do_page_fault after_first try_fault good_area access_error finish do_user_fault
write_run = (refl, refl, refl)

abbrev write_fault : FaultAt (Unit {0})
write_fault = record { context = from_user; address = 5000; fsr = (write_by 7).fsr; finds = tt }

faults-write_signals_example :
    u32 (faults one_vma (write_fault ∷ write_fault ∷ []) traced).task.wcounts
    ≡ u32 (3 + write_signals one_vma (write_fault ∷ write_fault ∷ []) traced)
faults-write_signals_example =
    faults-write_signals one_vma (write_fault ∷ write_fault ∷ []) traced (refl, (refl, tt)) refl

two_signals : write_signals one_vma (write_fault ∷ write_fault ∷ []) traced ≡ 2
unfolding write_signals do_page_fault after_first try_fault good_area access_error finish
    do_user_fault
two_signals = refl
