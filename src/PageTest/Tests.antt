-- ===== src/PageTest/Tests.antt =====
-- A run of test_ras on an area of 32 pages that the kernel maps page by page.
use operating_system_project.Prelude.{
  ℕ, ◌+◌, ◌≡◌, refl, Bool, true, false, ◌&&◌, none, some, [], arith, ltb, leb, ◌==◌, if◌then◌else◌,
}
use operating_system_project.Prelude.{pos}
use operating_system_project.Sched.Task.{Task, Kernel, fair_class}
use operating_system_project.Trace.Handler.{Vma, Faulting, Context}
use operating_system_project.Trace.Mprotect.{
  Memory, mprotect_s, returns, prot_read, einval, protect_from, protect_areas, early,
}
use operating_system_project.PageTest.Process.{UserMemory, Areas, ran}
use operating_system_project.PageTest.Programs.{test_ras}
use operating_system_project.PageTest.Rounds.{IsUserMemory, IsProtected, Covers}
use operating_system_project.PageTest.Loops.{test_ras-counts}

-- Whether the area may be written, and whether its pages are mapped for that
abbrev TestMm : Type 0
TestMm = Bool × Bool

abbrev test_vma : Bool → Vma
test_vma w = record {
  vm_start = 4096;
  vm_flags = record { may_read = true; may_write = w; may_exec = false };
  grows_down = false;
}

abbrev test_memory : UserMemory TestMm
test_memory = record {
  mm = record {
    find_vma = λ m a. if ltb a 135168 then some (test_vma m.0) else none;
    expand_stack = λ m v a. (false, m);
    handle_mm_fault = λ m v page write allow. (
      record { oom = false; sigbus = false; other_error = false; major = false; retry = false },
      (m.0, true),
    );
    page_of = λ a. a;
    first_user_address = 0;
    fatal_signal_pending = λ m. false;
  };
  mprotect = λ m start len w. if start == 4096 then (pos 0, (w, false)) else (einval, m);
  takes_store = λ m a. m.0 && m.1;
}

abbrev test_areas : Areas
test_areas = record { memory = 4096; alloc_size = 131072; heap = none }

area-Covers :
    (w x : Bool) (a : ℕ)
    → leb 4096 a && ltb a (4096 + 131072) ≡ true
    → Covers test_memory test_areas (w, x) a w
area-Covers w x a i = record {
  vma = test_vma w;
  found = ground arith;
  starts = ground arith;
  flags = refl;
}

found-writable :
    (a : ℕ) (w : Bool) (vma : Vma)
    → (if ltb a 135168 then some (test_vma w) else none) ≡ some vma
    → vma.vm_flags.may_write ≡ true
    → w ≡ true
found-writable a w vma e f = ground arith

test_memory-IsUserMemory : IsUserMemory test_memory test_areas
test_memory-IsUserMemory = record {
  sets = λ m w w' v a i. area-Covers w' false a i;
  shuts = λ m w a v i. refl;
  apart = λ m w v. v;
  serves =
      λ (m : TestMm) a vma e f. (refl, ground (arith, found-writable a m.0 vma e f), λ b. refl);
}

-- The address space under the call that starts the trace
abbrev traced_memory : Memory
traced_memory = record {
  Mm = TestMm;
  Vma = Unit {0};
  find_vma = λ mm a. if ltb a 135168 then some tt else none;
  vm_start = λ mm v. 4096;
  vm_end = λ mm v. 135168;
  vm_flags = λ mm v. 0x73;
  vm_prev = λ mm v. none;
  vm_next = λ mm v. none;
  valid_prot = λ p. true;
  implies_exec = false;
  prot_bits = λ p. p;
  security = λ mm v r p. pos 0;
  protect = λ mm v p s e f. ((false, false), some tt, pos 0);
}

protects_area :
    mprotect_s traced_memory 2 (true, true) 4096 131072 prot_read ≡ returns (false, false) (pos 0)
unfolding mprotect_s protect_from protect_areas early
protects_area = refl

closed-IsProtected : IsProtected test_memory test_areas (false, false)
closed-IsProtected = record { covered = λ a i. area-Covers false false a i; refuses = λ a i. refl }

abbrev test_task : ℕ → Task
test_task p = record {
  pid = p;
  wcounts = 3;
  trace_flag = 0;
  rr_fifo_trace = 0;
  policy = 0;
  prio = 120;
  static_prio = 120;
  normal_prio = 120;
  rt_priority = 0;
  reset_on_fork = false;
  has_mm = true;
  class = fair_class;
  on_rq = true;
  exec_start = 0;
  sum_exec_runtime = 0;
  exec_max = 0;
  sched_exp = 0;
  group = "/";
  soft = 0;
  hard = 0;
  need_resched = false;
  ras = record { timeout = 0; time_slice = 0; weight = 0 };
}

abbrev test_kernel : Kernel
test_kernel = record {
  rq = record {
    curr = 7;
    clock_task = 0;
    nr_running = 1;
    ras = record { run_list = []; ras_nr_running = 0; ras_time = 0 };
  };
  tasks = test_task;
}

abbrev before_test : Faulting TestMm
before_test = record {
  task = test_task 7;
  maj_flt = 0;
  min_flt = 0;
  address = 0;
  error_code = record { write = false; prefetch = false };
  trap_no = 0;
  memory = (true, true);
}

abbrev user_context : Context
user_context = record {
  notified = false;
  atomic = false;
  user_mode = true;
  lock_free = true;
  in_tables = false;
  fixup = false;
}

test_ras-counts_example :
    test_ras some traced_memory test_memory test_areas user_context 2 3 9 test_kernel before_test 0
      7 7
    ≡ ran (some 4096, 4096)
test_ras-counts_example =
    test_ras-counts some traced_memory test_memory test_areas test_memory-IsUserMemory user_context
      0 9 2 test_kernel before_test 7 7 (false, false) refl (omega arith) refl protects_area
      closed-IsProtected refl (refl, refl) (omega arith) (omega arith)
