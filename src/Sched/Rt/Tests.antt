-- ===== src/Sched/Rt/Tests.antt =====
-- Runs of the real-time class with two tasks in the root group, and with a task in a group below it.
use operating_system_project.Sched.Core.Policy.{max_rt_prio}
use operating_system_project.Prelude.{inr, inl, Bool-cases, ◌+◌, Bool, ==_iff}
use operating_system_project.Sched.Rt.Bits.{Bitmap, IsFirst}
use operating_system_project.Prelude.{
  ℕ, zero, suc, ◌-◌, ◌*◌, ◌<◌, ◌≡◌, refl, ◌≢◌, true, false, ◌||◌, [], ◌∷◌, arith, ◌==◌,
  if◌then◌else◌,
}
use operating_system_project.Sched.Task.{Class, rt_class, Task}
use operating_system_project.Sched.Ras.Class.{nothing, picked}
use operating_system_project.Sched.Core.World.{World, Env, Handlers}
use operating_system_project.Sched.Core.Switch.{pick_next_task}
use operating_system_project.Sched.Rt.Queues.{
  rt_rq_throttled, Entity, task_entity, group_entity, RtRq, Rt, init_rt_rq, inc_rt_tasks, on_rt_rq,
  on_levels, link_entity, holds_entity,
}
use operating_system_project.Sched.Rt.Walk.{
  Groups, rt_rq, enqueue_rt_entity, enqueue_all, enqueue_place, dequeue_rt_stack, rt_se_prio,
  rt_se_boosted,
}
use operating_system_project.Sched.Rt.Pick.{pick_from, pick_next_rt_entity, pick_next_task_rt}
use operating_system_project.Sched.Rt.Class.{enqueue_task_rt, rt_handlers}
use operating_system_project.Sched.Rt.Array.{IsArray, init_rt_rq-IsArray, total}
use operating_system_project.Sched.Rt.Highest.{IsNested, Tops, pick_next_task_rt-Tops}
use operating_system_project.Sched.Rt.Flat.{RootFlat}
use operating_system_project.Sched.Rt.Machine.{Reach, boot, later, enqueue}
use operating_system_project.Sched.Rt.Reach.{Reach-RootFlat}
use operating_system_project.Sched.Rt.Choice.{IsNextTask, Reach-picks}
use operating_system_project.Sched.Rt.Below.{rt_may_run, pick_next_task-rt_or_ras}

-- A search of the bits one after another, from bit `i` with `left` bits to go
find_first_bit : (ℕ → Bool) → ℕ → ℕ → ℕ
find_first_bit bits i zero = i
find_first_bit bits i (suc left) =
    let rest = find_first_bit bits (i + 1) left in if bits i then i else rest

find_first_bit-IsFirst :
    (bits : ℕ → Bool) (i left : ℕ) → IsFirst bits i (i + left) (find_first_bit bits i left)
unfolding find_first_bit
find_first_bit-IsFirst bits i zero = record {
  from = omega arith;
  within = omega arith;
  below = λ k a b. absurd (omega arith);
  here = λ h. absurd (omega arith);
}
find_first_bit-IsFirst bits i (suc left) =
    let r = find_first_bit-IsFirst bits (i + 1) left in
    elim (Bool-cases (bits i)) [
      | inl on ↦ rw on (record {
        from = omega arith;
        within = omega arith;
        below = λ k a b. absurd (omega arith);
        here = λ h. on;
      })
      | inr off ↦ rw off (record {
        from = omega (arith, r.from);
        within = omega (arith, r.within);
        below = λ k a b. elim (Bool-cases (k == i)) [
          | inl same ↦ rw ((==_iff k i).0 same) off
          | inr other ↦ r.below k (ground arith) b
        ];
        here = λ h. r.here (omega arith);
      })
    ]

instance abbrev searching : Bitmap
searching = record {
  sched_find_first_bit = λ bits. find_first_bit bits 0 max_rt_prio;
  finds = λ bits d. find_first_bit-IsFirst bits 0 max_rt_prio;
}

-- Task p has the real-time priority 10 * p.
abbrev fifo_task : ℕ → Task
fifo_task p = record {
  pid = p;
  wcounts = 0;
  trace_flag = 0;
  rr_fifo_trace = 0;
  policy = 1;
  prio = 99 - 10 * p;
  static_prio = 120;
  normal_prio = 99 - 10 * p;
  rt_priority = 10 * p;
  reset_on_fork = false;
  has_mm = true;
  class = rt_class;
  on_rq = false;
  exec_start = 100;
  sum_exec_runtime = 7;
  exec_max = 0;
  sched_exp = 0;
  group = "/";
  soft = 5000;
  hard = 9000;
  need_resched = false;
  ras = record { timeout = 0; time_slice = 2; weight = 9 };
}

-- Two RAS tasks wait, and the real-time queues are those given.
abbrev world_with : (ℕ → RtRq) → World (Rt ℕ)
world_with queues = record {
  kernel = record {
    rq = record {
      curr = 1;
      clock_task = 150;
      nr_running = 5;
      ras = record { run_list = 7 ∷ 8 ∷ []; ras_nr_running = 2; ras_time = 0 };
    };
    tasks = fifo_task;
  };
  other = record { queues = queues; timeout = λ p. 0; time_slice = λ p. 10; log = []; rest = 3 };
}

-- No group but the root
abbrev flat_groups : Groups
flat_groups = record {
  group_of = λ p. 0;
  above = λ g. [];
  height = λ g. 0;
  rt_period = λ g. 1000000000;
  bandwidth = λ g. 950000000;
  bandwidth_enabled = true;
}

abbrev fresh : World (Rt ℕ)
fresh = world_with (λ g. init_rt_rq)

-- Tasks 1 and 2 are woken, then nothing else happens.
unfoldable two_woken : World (Rt ℕ)
unfolding enqueue_task_rt
two_woken = enqueue_task_rt flat_groups (enqueue_task_rt flat_groups fresh 1 0) 2 0

two_woken-reached : Reach 100 flat_groups two_woken
unfolding two_woken enqueue_task_rt enqueue_rt_entity dequeue_rt_stack enqueue_all enqueue_place
    init_rt_rq link_entity inc_rt_tasks on_rt_rq on_levels
two_woken-reached =
    later (later (boot fresh refl) (enqueue 1 0 (omega arith) (omega arith)))
      (enqueue 2 0 (omega arith) (omega arith))

Reach-RootFlat_example : RootFlat two_woken
Reach-RootFlat_example = Reach-RootFlat 100 flat_groups (λ p. refl) refl two_woken-reached

two_woken-running : (rt_rq two_woken 0).rt_nr_running ≢ 0
unfolding two_woken enqueue_task_rt enqueue_rt_entity dequeue_rt_stack enqueue_all enqueue_place
    init_rt_rq link_entity inc_rt_tasks on_rt_rq on_levels rt_se_prio rt_se_boosted
two_woken-running = omega arith

two_woken-open : rt_rq_throttled (rt_rq two_woken 0) ≡ false
unfolding two_woken enqueue_task_rt enqueue_rt_entity dequeue_rt_stack enqueue_all enqueue_place
    init_rt_rq link_entity inc_rt_tasks on_rt_rq on_levels rt_se_prio rt_se_boosted
two_woken-open = refl

Reach-picks_example :
    (p : ℕ) × ((pick_next_task_rt flat_groups two_woken).0 ≡ picked p) × IsNextTask two_woken p
Reach-picks_example =
    Reach-picks 100 flat_groups (λ p. refl) refl two_woken-reached two_woken-running two_woken-open

-- The second task has the better priority.
two_woken-picks : (pick_next_task_rt flat_groups two_woken).0 ≡ picked 2
unfolding two_woken enqueue_task_rt enqueue_rt_entity dequeue_rt_stack enqueue_all enqueue_place
    init_rt_rq link_entity inc_rt_tasks on_rt_rq on_levels rt_se_prio rt_se_boosted
    pick_next_task_rt pick_from pick_next_rt_entity find_first_bit
two_woken-picks = refl

-- Task 5 is in group 1, which lies below the root.
abbrev tree : Groups
tree = record flat_groups {
  group_of = λ p. 1;
  above = λ g. if g == 0 then [] else 0 ∷ [];
  height = λ g. if g == 0 then 1 else 0;
}

-- One entity, at the priority 49
abbrev one_entity : Entity → RtRq
one_entity x = record {
  queue = λ i. if i == 49 then x ∷ [] else [];
  bitmap = λ i. i == 49 || i == 100;
  rt_nr_running = 1;
  highest_prio = 49;
  rt_throttled = false;
  rt_time = 0;
  rt_runtime = 0;
  rt_nr_boosted = 0;
}

one_entity-IsArray : (x : Entity) → IsArray (one_entity x)
unfolding find_first_bit total
one_entity-IsArray x = record {
  bits = λ i h. ground arith;
  delimiter = refl;
  highest = refl;
  counted = refl;
  small = omega arith;
}

abbrev tree_queues : ℕ → RtRq
tree_queues zero = one_entity (group_entity 1)
tree_queues (suc zero) = one_entity (task_entity 5)
tree_queues (suc (suc g)) = init_rt_rq

abbrev tree_world : World (Rt ℕ)
tree_world = world_with tree_queues

tree_queues-IsArray : (g : ℕ) → IsArray (tree_queues g)
tree_queues-IsArray zero = one_entity-IsArray (group_entity 1)
tree_queues-IsArray (suc zero) = one_entity-IsArray (task_entity 5)
tree_queues-IsArray (suc (suc g)) = init_rt_rq-IsArray

tree_inner :
    (g i h : ℕ)
    → holds_entity (group_entity h) ((tree_queues g).queue i) ≡ true
    → (tree.height h < tree.height g) × ((tree_queues h).rt_nr_running ≢ 0)
unfolding init_rt_rq
tree_inner zero i zero e = absurd (ground arith)
tree_inner zero i (suc zero) e = (omega arith, omega arith)
tree_inner zero i (suc (suc h)) e = absurd (ground arith)
tree_inner (suc zero) i h e = absurd (ground arith)
tree_inner (suc (suc g)) i h e = absurd (ground arith)

tree-IsNested : IsNested tree tree_world
tree-IsNested = record { arrays = tree_queues-IsArray; inner = tree_inner }

pick_next_task_rt-Tops_example :
    (p : ℕ) × ((pick_next_task_rt tree tree_world).0 ≡ picked p) × Tops tree tree_world 0 p
pick_next_task_rt-Tops_example =
    pick_next_task_rt-Tops tree tree_world tree-IsNested (omega arith) refl

tree-picks : (pick_next_task_rt tree tree_world).0 ≡ picked 5
unfolding pick_next_task_rt pick_from pick_next_rt_entity find_first_bit
tree-picks = refl

-- A queue that ran for 25, with a runtime of 10 in each period
abbrev tired : RtRq
tired = record (one_entity (task_entity 5)) { rt_throttled = true; rt_time = 25; rt_runtime = 10 }

-- The real-time row is the code of rt.c, and the other rows have no tasks.
abbrev vacant : Handlers (Rt ℕ)
vacant = record (rt_handlers 100 flat_groups) { pick_next = λ w. (nothing, w) }

abbrev rows : Class → Handlers (Rt ℕ)
rows rt_class = rt_handlers 100 flat_groups
rows _ = vacant

abbrev env : Env (Rt ℕ)
env = record {
  hz = 100;
  clock = λ w. 150;
  rows = rows;
  getprio = λ t. t.normal_prio;
  adjust_pi = λ w p. w;
  is_stop = λ p. false;
  is_idle = λ p. false;
  fair_running = λ o. o.rest;
  no_rt_runtime = λ w p. false;
}

pick_next_task-rt_or_ras_example : (pick_next_task env fresh).0 ≡ (
    if rt_may_run env 100 flat_groups fresh
    then (pick_next_task_rt flat_groups fresh).0
    else picked 7)
unfolding rt_handlers
pick_next_task-rt_or_ras_example =
    pick_next_task-rt_or_ras env 100 flat_groups fresh 7 (8 ∷ []) refl refl (omega arith) refl
      (omega arith)
