-- ===== src/Sched/Task.antt =====
-- The scheduler's data: goldfish/include/linux/sched.h (struct task_struct, struct
-- sched_ras_entity, the policies and flags) and goldfish/kernel/sched/sched.h (struct rq and
-- struct ras_rq). Tasks are identified by numbers; a store gives the structure of each. A `struct
-- list_head` queue of entities is the list of the identifiers of the tasks that are linked into it,
-- and an entity whose node is `list_empty` is one that is not in the list.
use operating_system_project.Prelude.{
  ℕ, Bool, true, List, String, update, dec32, inc32, ◌≡◌, ◌≢◌, arith,
}

-- `sched_class`, by the name of the instance that the pointer points to.
pub data Class : Type 0 where
  stop_class rt_class ras_class fair_class idle_class : Class

abbrev pub sched_normal : ℕ
sched_normal = 0

abbrev pub sched_fifo : ℕ
sched_fifo = 1

abbrev pub sched_rr : ℕ
sched_rr = 2

abbrev pub sched_batch : ℕ
sched_batch = 3

abbrev pub sched_idle : ℕ
sched_idle = 5

abbrev pub sched_ras : ℕ
sched_ras = 6

abbrev pub enqueue_wakeup : ℕ
enqueue_wakeup = 1

abbrev pub enqueue_head : ℕ
enqueue_head = 2

-- `struct sched_ras_entity`: unsigned long, unsigned int and int.
pub record RasEntity : Type 0 where
  pub timeout : ℕ
  pub time_slice : ℕ
  pub weight : ℕ

-- `struct task_struct`, as far as the scheduler and the page trace read it. `group` is what
-- `task_group_path` gives for the task's group, `soft` and `hard` are the two values of its
-- RLIMIT_RTTIME, and `need_resched` is the thread flag.
pub record Task : Type 0 where
  pub pid : ℕ
  pub wcounts : ℕ
  pub trace_flag : ℕ
  pub rr_fifo_trace : ℕ
  pub policy : ℕ
  pub prio : ℕ
  pub static_prio : ℕ
  pub normal_prio : ℕ
  pub rt_priority : ℕ
  pub reset_on_fork : Bool
  pub has_mm : Bool
  pub class : Class
  pub on_rq : Bool
  pub exec_start : ℕ
  pub sum_exec_runtime : ℕ
  pub exec_max : ℕ
  pub sched_exp : ℕ
  pub group : String
  pub soft : ℕ
  pub hard : ℕ
  pub need_resched : Bool
  pub ras : RasEntity

-- `struct ras_rq`: the queue and its counter.
pub record RasRq : Type 0 where
  pub run_list : List ℕ
  pub ras_nr_running : ℕ
  pub ras_time : ℕ

-- `struct rq` of the one processor.
pub record Rq : Type 0 where
  pub curr : ℕ
  pub clock_task : ℕ
  pub nr_running : ℕ
  pub ras : RasRq

-- The processor's run queue and the store of tasks.
pub record Kernel : Type 0 where
  pub rq : Rq
  pub tasks : ℕ → Task

-- A write to the structure of one task.
abbrev pub set_task : Kernel → ℕ → Task → Kernel
set_task k p t = record k { tasks = update k.tasks p t }

pub set_task_self : (k : Kernel) (p : ℕ) (t : Task) → (set_task k p t).tasks p ≡ t
set_task_self k p t = ground arith

pub set_task-ne : (k : Kernel) (p q : ℕ) (t : Task) → p ≢ q → (set_task k p t).tasks q ≡ k.tasks q
set_task-ne k p q t h = ground arith

-- A write to the RAS queue.
abbrev pub set_ras_rq : Kernel → RasRq → Kernel
set_ras_rq k q = record k { rq = record (k.rq) { ras = q } }

abbrev pub set_run_list : Kernel → List ℕ → Kernel
set_run_list k l = set_ras_rq k (record (k.rq.ras) { run_list = l })

-- inc_nr_running and dec_nr_running on an unsigned long of 32 bits
unfoldable pub inc_nr_running : Kernel → Kernel
inc_nr_running k = record k { rq = record (k.rq) { nr_running = inc32 k.rq.nr_running } }

unfoldable pub dec_nr_running : Kernel → Kernel
dec_nr_running k = record k { rq = record (k.rq) { nr_running = dec32 k.rq.nr_running } }

-- resched_task on one processor: a flag that is set stays set, and no other processor is told.
unfoldable pub resched_task : Kernel → ℕ → Kernel
resched_task k p = set_task k p (record (k.tasks p) { need_resched = true })
