-- ===== src/Sched/Core/Tests.antt =====
-- Runs of the scheduler's calls with a fair class that only counts its tasks.
use operating_system_project.Prelude.{
  ltb, ℕ, ◌+◌, ◌≡◌, refl, ◌≢◌, ◌↔◌, inl, true, false, some, List, [], ◌∷◌, ◌++◌, arith, ◌==◌,
  if◌then◌else◌, length,
}
use operating_system_project.Prelude.{pos}
use operating_system_project.Sched.Task.{
  Class, stop_class, rt_class, ras_class, fair_class, idle_class, Task, Kernel,
}
use operating_system_project.Sched.Ras.Class.{nothing, picked}
use operating_system_project.Sched.Core.World.{World, Env, Handlers, task}
use operating_system_project.Sched.Core.Policy.{
  change_policy, Caller, reset_flag, class_for, normal_prio, setscheduler, refusal, forbids,
  can_nice, check_same_owner,
}
use operating_system_project.Sched.Core.Calls.{
  holds, find_process_by_pid, sys_sched_setscheduler, do_sched_setscheduler, sys_sched_getscheduler,
  sys_sched_getparam,
}
use operating_system_project.Sched.Core.Switch.{
  pick_next_task, pick_classes, all_classes, schedule, runs, forked,
}
use operating_system_project.Sched.Core.Rights.{Granted, setscheduler-Granted}
use operating_system_project.Sched.Core.Ranges.{InRange, setscheduler-InRange}
use operating_system_project.Sched.Core.Order.{IsCounted, pick_next_task-loop}
use operating_system_project.Sched.Core.Children.{IsParent, forked-class}
use operating_system_project.Sched.Core.Settings.{Kept, KeepsSettings}
use operating_system_project.Sched.Core.Readback.{
  getscheduler-setscheduler, setscheduler-loses_flag,
}
use operating_system_project.Sched.Core.Turns.{schedule-rotates}
use operating_system_project.Sched.Core.Boosting.{rt_mutex_setprio-class}
use operating_system_project.Sched.Core.Joining.{
  LeavesQueue, ras_queue, joined, change_policy-joins,
}
use operating_system_project.Sched.Core.Policy.{rt_mutex_setprio}

-- A task with the default settings, with the policy and the class that are given.
abbrev a_task : ℕ → Class → ℕ → Task
a_task policy class_ p = record {
  pid = p;
  wcounts = 20;
  trace_flag = 0;
  rr_fifo_trace = 0;
  policy = policy;
  prio = 120;
  static_prio = 120;
  normal_prio = 120;
  rt_priority = 0;
  reset_on_fork = false;
  has_mm = true;
  class = class_;
  on_rq = true;
  exec_start = 100;
  sum_exec_runtime = 7;
  exec_max = 0;
  sched_exp = 0;
  group = "/";
  soft = 5000;
  hard = 9000;
  need_resched = false;
  ras = record { timeout = 0; time_slice = 2; weight = 9 };
}

-- A class whose handlers do nothing, and that picks task 9 if it has a task.
abbrev plain : Handlers ℕ
plain = record {
  enqueue = λ w p flags. w;
  dequeue = λ w p flags. w;
  check_preempt = λ w p flags. w;
  pick_next = λ w. (if w.other == 0 then nothing else picked 9, w);
  put_prev = λ w p. w;
  set_curr = λ w. w;
  tick = λ w p. w;
  interval = λ w p. (0, w);
  prio_changed = λ w p old. w;
  switched_from = λ w p. w;
  switched_to = λ w p. w;
  fork = λ w p. w;
}

-- The same without tasks
abbrev vacant : Handlers ℕ
vacant = record plain { pick_next = λ w. (nothing, w) }

abbrev rows : Class → Handlers ℕ
rows fair_class = plain
rows _ = vacant

-- The state of the other classes is the number of fair tasks.
abbrev env : Env ℕ
env = record {
  hz = 100;
  clock = λ w. 150;
  rows = rows;
  getprio = λ t. t.normal_prio;
  adjust_pi = λ w p. w;
  is_stop = λ p. false;
  is_idle = λ p. false;
  fair_running = λ n. n;
  no_rt_runtime = λ w p. false;
}

Kept-same : (t : Task) → Kept t t
Kept-same t = record { policy = refl; reset_on_fork = refl; rt_priority = refl; class = refl }

plain-KeepsSettings : KeepsSettings plain
plain-KeepsSettings = record {
  enqueue = λ w p flags q. Kept-same (task w q);
  dequeue = λ w p flags q. Kept-same (task w q);
  put_prev = λ w p q. Kept-same (task w q);
  set_curr = λ w q. Kept-same (task w q);
  prio_changed = λ w p old q. Kept-same (task w q);
  switched_from = λ w p q. Kept-same (task w q);
  switched_to = λ w p q. Kept-same (task w q);
}

vacant-KeepsSettings : KeepsSettings vacant
vacant-KeepsSettings = record {
  enqueue = plain-KeepsSettings.enqueue;
  dequeue = plain-KeepsSettings.dequeue;
  put_prev = plain-KeepsSettings.put_prev;
  set_curr = plain-KeepsSettings.set_curr;
  prio_changed = plain-KeepsSettings.prio_changed;
  switched_from = plain-KeepsSettings.switched_from;
  switched_to = plain-KeepsSettings.switched_to;
}

rows-KeepsSettings : (c : Class) → KeepsSettings (rows c)
rows-KeepsSettings fair_class = plain-KeepsSettings
rows-KeepsSettings stop_class = vacant-KeepsSettings
rows-KeepsSettings rt_class = vacant-KeepsSettings
rows-KeepsSettings ras_class = vacant-KeepsSettings
rows-KeepsSettings idle_class = vacant-KeepsSettings

-- Root, and every pid is the task's number.
abbrev root : Caller
root = record {
  current = 1;
  cred = λ p. record { user_ns = 0; uid = 0; euid = 0 };
  capable = true;
  rlim_rtprio = λ p. 0;
  rlim_nice = λ p. 0;
  security_set = λ p. pos 0;
  security_get = λ p. pos 0;
}

abbrev kernel_with : Class → ℕ → List ℕ → ℕ → Kernel
kernel_with class_ policy l n = record {
  rq = record {
    curr = 1;
    clock_task = 150;
    nr_running = n;
    ras = record { run_list = l; ras_nr_running = length l; ras_time = 0 };
  };
  tasks = a_task policy class_;
}

-- Tasks 1 and 2 are RAS tasks, and three fair tasks wait.
abbrev ras_world : World ℕ
ras_world = record { kernel = kernel_with ras_class 6 (1 ∷ 2 ∷ []) 5; other = 3 }

-- All tasks are fair.
abbrev fair_world : World ℕ
fair_world = record { kernel = kernel_with fair_class 0 [] 3; other = 3 }

-- A user with a limit of 50 makes the fair task 2 a round-robin task of priority 30.
abbrev user : Caller
user = record root { capable = false; rlim_rtprio = λ p. 50 }

user_allowed :
    (sys_sched_setscheduler env some user fair_world
      (pos 2)
      (pos (2 + (if true then reset_flag else 0)))
      (holds (pos 30))).0
    ≡ pos 0
unfolding sys_sched_setscheduler do_sched_setscheduler setscheduler refusal forbids can_nice
    check_same_owner find_process_by_pid
user_allowed = refl

user_found : find_process_by_pid some user 2 ≡ some 2
unfolding find_process_by_pid
user_found = refl

setscheduler-Granted_example : Granted user 2 (task fair_world 2) 2 30 true
setscheduler-Granted_example =
    setscheduler-Granted env some user fair_world 2 2 2 30 true (omega arith) user_found refl
      user_allowed

found_example : find_process_by_pid some root 2 ≡ some 2
unfolding find_process_by_pid
found_example = refl

setscheduler-InRange_example :
    ((sys_sched_setscheduler env some root fair_world (pos 2) (pos 2) (holds (pos 50))).0 ≡ pos 0)
    ↔ InRange 2 50
setscheduler-InRange_example =
    setscheduler-InRange env some root fair_world 2 2 2 50 (omega arith) found_example
      (refl, refl, refl, refl)

-- SCHED_RAS with the flag SCHED_RESET_ON_FORK, for a fair task
abbrev ras_behind : World ℕ
ras_behind =
    (sys_sched_setscheduler env some root fair_world (pos 2) (pos 0x40000006) (holds (pos 0))).1

ras_returned :
    (sys_sched_setscheduler env some root fair_world (pos 2) (pos 0x40000006) (holds (pos 0))).0
    ≡ pos 0
unfolding sys_sched_setscheduler setscheduler refusal find_process_by_pid
ras_returned = refl

getscheduler-setscheduler_example :
    (sys_sched_getscheduler env some root ras_behind (pos 2) ≡ pos 0x40000006)
    × (sys_sched_getparam env some root ras_behind (pos 2) (some true) ≡ (pos 0, some 0))
getscheduler-setscheduler_example =
    getscheduler-setscheduler env some root fair_world 2 2 rows-KeepsSettings 0x40000006 0
      (omega arith) found_example (λ v. Kept-same (task v 2)) refl refl refl ras_returned

-- Both calls return as the theorem says.
setscheduler-loses_flag_example :
    ((sys_sched_setscheduler env some root fair_world
        (pos 2)
        (pos (0 + reset_flag))
        (holds (pos 0))).0
      ≡ pos 0)
    × (sys_sched_getscheduler env some root
          (sys_sched_setscheduler env some root fair_world
            (pos 2)
            (pos (0 + reset_flag))
            (holds (pos 0))).1
          (pos 2)
        ≡ pos 0)
setscheduler-loses_flag_example =
    setscheduler-loses_flag env some root fair_world 2 2 0 refl refl refl refl found_example
      (refl, refl, refl, refl) refl

schedule-rotates_example :
    (w' : World ℕ) × (schedule env false (λ w. w) ras_world ≡ runs w')
    × (w'.kernel.rq.curr ≡ 2)
    × (w'.kernel.rq.ras.run_list ≡ 2 ∷ [] ++ 1 ∷ [])
schedule-rotates_example =
    schedule-rotates env ras_world (λ w. w) 1 2 [] refl refl refl (omega arith) (λ k. refl)
      (λ k. refl) (omega arith)

fair_world-IsCounted : IsCounted env fair_world 0 0
fair_world-IsCounted = record {
  total = refl;
  stop_none = λ h. refl;
  rt_none = λ h. refl;
  fair_some = inl (9, fair_world, refl);
}

pick_next_task-loop_example :
    pick_next_task env fair_world ≡ pick_classes env all_classes fair_world
pick_next_task-loop_example = pick_next_task-loop env fair_world 0 0 fair_world-IsCounted

forking-IsParent : IsParent (a_task 6 ras_class 1)
unfolding normal_prio
forking-IsParent = record { classed = refl; boosted = omega arith; nice_range = omega arith }

forked-class_example :
    ((forked (normal_prio (a_task 6 ras_class 1)) (a_task 6 ras_class 1)).class ≡ (
      if (a_task 6 ras_class 1).policy == 6
      then fair_class
      else if ltb (forked (normal_prio (a_task 6 ras_class 1)) (a_task 6 ras_class 1)).prio 100
      then rt_class
      else fair_class))
    × (((forked (normal_prio (a_task 6 ras_class 1)) (a_task 6 ras_class 1)).policy == 6) ≡ true)
    × (((forked (normal_prio (a_task 6 ras_class 1)) (a_task 6 ras_class 1)).class
          ≡ class_for
              (forked (normal_prio (a_task 6 ras_class 1)) (a_task 6 ras_class 1)).policy
              (forked (normal_prio (a_task 6 ras_class 1)) (a_task 6 ras_class 1)).prio)
        ↔ ((a_task 6 ras_class 1).policy ≢ 6))
forked-class_example = forked-class (a_task 6 ras_class 1) forking-IsParent

-- A boost to priority 10 of a RAS task
rt_mutex_setprio-class_example :
    ((task (rt_mutex_setprio env ras_world 2 10) 2).class ≡ (
      if (task ras_world 2).policy == 6
      then ras_class
      else if ltb 10 100
      then rt_class
      else fair_class))
    × ((task (rt_mutex_setprio env ras_world 2 10) 2).policy ≡ (task ras_world 2).policy)
rt_mutex_setprio-class_example = rt_mutex_setprio-class env rows-KeepsSettings ras_world 2 10 refl

plain-LeavesQueue : LeavesQueue plain
plain-LeavesQueue = record {
  dequeue = λ w p flags. refl;
  put_prev = λ w p. refl;
  switched_from = λ w p. refl;
}

vacant-LeavesQueue : LeavesQueue vacant
vacant-LeavesQueue = record {
  dequeue = λ w p flags. refl;
  put_prev = λ w p. refl;
  switched_from = λ w p. refl;
}

rows-LeavesQueue : (c : Class) → LeavesQueue (rows c)
rows-LeavesQueue fair_class = plain-LeavesQueue
rows-LeavesQueue stop_class = vacant-LeavesQueue
rows-LeavesQueue rt_class = vacant-LeavesQueue
rows-LeavesQueue ras_class = vacant-LeavesQueue
rows-LeavesQueue idle_class = vacant-LeavesQueue

-- A RAS task and fair ones
abbrev mixed_world : World ℕ
mixed_world = record { kernel = kernel_with fair_class 0 (7 ∷ []) 4; other = 3 }

change_policy-joins_example :
    ras_queue (change_policy env mixed_world 2 6 0 false) ≡ joined (ras_queue mixed_world) 2
change_policy-joins_example =
    change_policy-joins env rows-LeavesQueue rows-KeepsSettings mixed_world 2 0 false refl (λ h. cc)
