-- ===== src/Sched/Wait/Tests.antt =====
-- Runs of wake-ups and completions on two threads.
use operating_system_project.Prelude.{
  ℕ, ◌+◌, ◌≡◌, refl, true, false, ◌||◌, [], arith, ◌==◌, if◌then◌else◌,
}
use operating_system_project.Prelude.{pos}
use operating_system_project.Sched.Task.{Task, fair_class, ras_class}
use operating_system_project.Sched.Core.World.{Env, Handlers, task}
use operating_system_project.Sched.Ras.Class.{nothing}
use operating_system_project.Sched.Wait.Wake.{Sleepers, Workers, try_to_wake_up}
use operating_system_project.Sched.Wait.Completion.{
  Completing, gives, do_wait_for_common, wait_goes_on, complete,
}
use operating_system_project.Sched.Wait.Tokens.{Reach, starts, posts, begins, goes_on}
use operating_system_project.Sched.Wait.Pieces.{NoneLost}
use operating_system_project.Sched.Core.Joining.{joined, ras_queue}
use operating_system_project.Sched.Wait.Joins.{precedes, try_to_wake_up-joins}
use operating_system_project.Sched.Wait.Balance.{Reach-NoneLost}

abbrev idle_row : Handlers (Unit {0})
idle_row = record {
  enqueue = λ w p f. w;
  dequeue = λ w p f. w;
  check_preempt = λ w p f. w;
  pick_next = λ w. (nothing, w);
  put_prev = λ w p. w;
  set_curr = λ w. w;
  tick = λ w p. w;
  interval = λ w p. (0, w);
  prio_changed = λ w p old. w;
  switched_from = λ w p. w;
  switched_to = λ w p. w;
  fork = λ w p. w;
}

abbrev test_env : Env (Unit {0})
test_env = record {
  hz = 100;
  clock = λ w. 0;
  rows = λ c. idle_row;
  getprio = λ t. t.normal_prio;
  adjust_pi = λ w p. w;
  is_stop = λ p. false;
  is_idle = λ p. false;
  fair_running = λ s. 0;
  no_rt_runtime = λ w p. false;
}

abbrev no_workers : Workers (Unit {0})
no_workers = record { frozen = λ w p. false; waking_up = λ w p. w }

abbrev test_thread : ℕ → Task
test_thread p = record {
  pid = p;
  wcounts = 0;
  trace_flag = 0;
  rr_fifo_trace = 0;
  policy = 0;
  prio = 120;
  static_prio = 120;
  normal_prio = 120;
  rt_priority = 0;
  reset_on_fork = false;
  has_mm = true;
  class = fair_class;
  on_rq = true;
  exec_start = 0;
  sum_exec_runtime = 0;
  exec_max = 0;
  sched_exp = 0;
  group = "/";
  soft = 0;
  hard = 0;
  need_resched = false;
  ras = record { timeout = 0; time_slice = 0; weight = 0 };
}

abbrev threads : Sleepers (Unit {0})
threads = record {
  world = record {
    kernel = record {
      rq = record {
        curr = 7;
        clock_task = 0;
        nr_running = 3;
        ras = record { run_list = []; ras_nr_running = 0; ras_time = 0 };
      };
      tasks = test_thread;
    };
    other = tt;
  };
  state = λ p. 0;
  nr_uninterruptible = 0;
}

abbrev no_completion : Completing (Unit {0})
no_completion = record { done = 0; wait = []; sleepers = threads }

-- The threads 1 and 2 wait, a completion is posted, and the thread 1 goes on with it.
abbrev waiting_1 : Completing (Unit {0})
waiting_1 = (do_wait_for_common no_completion 1 1000 2 false).1

abbrev waiting_both : Completing (Unit {0})
waiting_both = (do_wait_for_common waiting_1 2 1000 1 false).1

abbrev posted : Completing (Unit {0})
posted = complete test_env no_workers waiting_both

went_on : (wait_goes_on posted 1 800 2 false).0 ≡ gives (pos 800)
unfolding wait_goes_on do_wait_for_common complete
went_on = refl

second_sleeps : (wait_goes_on posted 1 800 2 false).1.sleepers.state 2 ≡ 1
unfolding wait_goes_on do_wait_for_common complete
second_sleeps = refl

a_wait : Reach test_env no_workers (wait_goes_on posted 1 800 2 false).1 1 1
unfolding wait_goes_on do_wait_for_common complete
a_wait =
    goes_on
      (posts (begins (begins (starts threads) 1 1000 2 false refl refl) 2 1000 1 false refl refl)
        (omega arith))
      1 800 2 false refl refl refl

Reach-NoneLost_example :
    (1 + (wait_goes_on posted 1 800 2 false).1.done ≡ 1)
    × NoneLost (wait_goes_on posted 1 800 2 false).1
Reach-NoneLost_example =
    Reach-NoneLost test_env no_workers (wait_goes_on posted 1 800 2 false).1 1 1 a_wait

-- The task 5 of the RAS class sleeps.
abbrev sleeping : Sleepers (Unit {0})
sleeping = record {
  world = record {
    kernel = record (threads.world.kernel) {
      tasks = λ p.
          if p == 5
          then record (test_thread 5) { class = ras_class; on_rq = false }
          else test_thread p;
    };
    other = tt;
  };
  state = λ p. if p == 5 then 1 else 0;
  nr_uninterruptible = 0;
}

try_to_wake_up-joins_example :
    let r = try_to_wake_up test_env no_workers sleeping 5 3 0 in
    (r.0 ≡ true)
    × (r.1.state 5 ≡ 0)
    × ((task r.1.world 5).on_rq ≡ true)
    × (ras_queue r.1.world ≡ joined (ras_queue sleeping.world) 5)
    × ((task r.1.world 7).need_resched ≡ (
        (task sleeping.world 7).need_resched
        || precedes (task sleeping.world 5) (task sleeping.world 7)))
try_to_wake_up-joins_example =
    try_to_wake_up-joins test_env no_workers (λ w p. refl) sleeping 5 3 0 refl refl refl
      (omega arith)

preempts : precedes (task sleeping.world 5) (task sleeping.world 7) ≡ true
preempts = refl
