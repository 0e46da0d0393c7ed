-- ===== src/Sched/Rt/Log.antt =====
-- The lines that task_tick_rt of goldfish/kernel/sched/rt.c writes for a traced task, whose
-- rest of a time slice is below 2 ^ 31.
use operating_system_project.Prelude.{ℕ, List, [], ◌∷◌, ◌++◌}
use operating_system_project.Prelude.{codes, decimal_onto}

-- "FIFO tracing: pid=%d\n"
abbrev pub fifo_prefix : List ℕ
fifo_prefix = codes "FIFO tracing: pid="

unfoldable pub fifo_line : ℕ → List ℕ
unfolding decimal_onto
fifo_line pid = fifo_prefix ++ decimal_onto pid (10 ∷ [])

-- "RR tracing: pid=%d, remaining rr time slice=%d\n"
abbrev pub rr_prefix : List ℕ
rr_prefix = codes "RR tracing: pid="

unfoldable pub rr_line : ℕ → ℕ → List ℕ
unfolding decimal_onto
rr_line pid slice =
    rr_prefix
    ++ decimal_onto pid (codes ", remaining rr time slice=" ++ decimal_onto slice (10 ∷ []))
