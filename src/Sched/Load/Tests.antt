-- ===== src/Sched/Load/Tests.antt =====
-- Runs of the load averages.
use operating_system_project.Prelude.{◌≡◌, refl, some, arith}
use operating_system_project.Sched.Load.Average.{Loads, fixed_power_int, calc_global_load}
use operating_system_project.Sched.Load.Ends.{Gives, calc_global_load-Gives}
use operating_system_project.Sched.Load.Bounds.{IsBetween, Leaves, calc_global_load-Leaves}

power : fixed_power_int 1884 11 3 ≡ some 1594
unfolding fixed_power_int
power = refl

-- Two tasks have run since the start, and twelve samples were missed.
abbrev two_running : Loads
two_running = record {
  avenrun = record { one = 0; five = 0; fifteen = 0 };
  calc_load_update = 1000;
  calc_load_tasks = 2;
  calc_load_idle = λ i. 0;
  calc_load_idx = 0;
}

none_running : IsBetween 0 4096 (record { one = 0; five = 0; fifteen = 0 })
none_running = omega arith

calc_global_load-Leaves_example : Leaves 0 4096 (calc_global_load 100 7022 two_running)
calc_global_load-Leaves_example =
    calc_global_load-Leaves 100 7022 0 4096 (omega arith) two_running (omega arith) (omega arith)
      none_running

calc_global_load-Gives_example : Gives (calc_global_load 100 7022 two_running)
calc_global_load-Gives_example = calc_global_load-Gives 100 7022 two_running
