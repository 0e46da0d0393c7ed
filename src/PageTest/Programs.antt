-- ===== src/PageTest/Programs.antt =====
-- The loops of page_trace_test.c and of test_ras in ras_pt_test.c.
use operating_system_project.Prelude.{ℕ, zero, suc, ◌+◌, ◌*◌, ◌^◌, true, false, Option}
use operating_system_project.Sched.Task.{Kernel, set_task}
use operating_system_project.Trace.Handler.{Faulting, Context}
use operating_system_project.Trace.Mprotect.{Memory}
use operating_system_project.Trace.Calls.{
  Call, done, fault, sys_start_trace, sys_stop_trace, sys_get_trace,
}
use operating_system_project.PageTest.Process.{
  UserMemory, Areas, Process, Ran, ran, killed, and_then, protect_memory, store,
}

module _ {M : Type 0} (u : UserMemory M) (areas : Areas) (c : Context) where
  -- One turn of a loop: a store, and the protection again
  abbrev pub visit : ℕ → ℕ → Process M → Ran (Process M)
  visit fuel index s =
      and_then (store u areas fuel c (areas.memory + index) s)
        (λ v. ran (protect_memory u areas false v))

  -- The turns from `i` on, with `left` to go: the index is `i * stride + offset`.
  unfoldable pub visits : ℕ → ℕ → ℕ → ℕ → ℕ → Process M → Ran (Process M)
  visits fuel stride offset i zero s = ran s
  visits fuel stride offset i (suc left) s =
      and_then (visit fuel (i * stride + offset) s) (visits fuel stride offset (i + 1) left)

  -- The first three tests of page_trace_test.c
  unfoldable pub three_tests : ℕ → ℕ → Process M → Ran (Process M)
  unfolding visits
  three_tests fuel proc s = and_then (visits fuel 1 0 0 (2 ^ (proc + 1)) s) (λ s1.
      and_then (visits fuel 2 proc 0 (2 ^ (proc + 1)) s1) (visits fuel 4 proc 0 (2 ^ (proc + 1))))

  -- The four loops of test_ras
  unfoldable pub four_loops : ℕ → ℕ → Process M → Ran (Process M)
  unfolding three_tests visits
  four_loops fuel proc s =
      and_then (three_tests fuel proc s) (visits fuel 6 proc 0 (2 ^ (proc + 1)))

-- The process of a task behind a system call
abbrev pub process_of : {M : Type 0} → Faulting M → Kernel → ℕ → ℕ → M → Process M
process_of f k p n m = record { kernel = record f { task = k.tasks p; memory = m }; times = n }

module _ (find : ℕ → Option ℕ) (mem : Memory) (u : UserMemory (mem.Mm)) (areas : Areas)
    (c : Context) where
  -- The end of test_ras: the trace stops, and the program prints the counter and its own one.
  abbrev pub report : ℕ → ℕ → Kernel → Process (mem.Mm) → Option ℕ × ℕ
  report p pid k s =
      let k' = (sys_stop_trace find (set_task k p s.kernel.task) pid).1 in
      ((sys_get_trace find true k' pid).1, s.times)

  -- test_ras behind the call that starts the trace, whose value the program does not look at
  abbrev pub traced_loops :
      ℕ → ℕ → Faulting (mem.Mm) → ℕ → ℕ → ℕ → Call (Kernel × mem.Mm) → Ran (Option ℕ × ℕ)
  traced_loops fuel proc f n p pid (done e (k, mm)) =
      and_then (four_loops u areas c fuel proc (process_of f k p n mm))
        (λ s. ran (report p pid k s))
  traced_loops fuel proc f n p pid fault = killed

  -- test_ras by the task p: what it prints, from a kernel, the rest of the task's state and `times`
  unfoldable pub test_ras : ℕ → ℕ → ℕ → Kernel → Faulting (mem.Mm) → ℕ → ℕ → ℕ → Ran (Option ℕ × ℕ)
  unfolding four_loops
  test_ras rounds fuel proc k f n p pid =
      traced_loops fuel proc f n p pid
        (sys_start_trace find mem rounds k f.memory p pid areas.memory areas.alloc_size)
