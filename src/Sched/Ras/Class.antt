-- ===== src/Sched/Ras/Class.antt =====
-- The handlers of ras_sched_class in goldfish/kernel/sched/ras.c, each as a function of the kernel's
-- state. Log lines are left out, and so are the accounting calls account_group_exec_runtime and
-- cpuacct_charge, which write to structures that no handler of the class reads.
use operating_system_project.Prelude.{
  u32, ℕ, ◌+◌, ◌-◌, ◌/◌, ◌^◌, min, max, Bool, true, false, ◌&&◌, not, List, [], ◌∷◌, ◌++◌, ltb, leb,
  ◌==◌, if◌then◌else◌, member, remove, inc32, dec32, u64, has_flag,
}
use operating_system_project.Sched.Task.{
  Class, ras_class, Task, Kernel, set_task, set_ras_rq, set_run_list, inc_nr_running,
  dec_nr_running, resched_task, enqueue_wakeup, enqueue_head,
}
use operating_system_project.Sched.Ras.Slice.{calc_ras_weight, refill}

-- on_ras_rq: the node of the task is linked into the queue.
unfoldable pub on_ras_rq : Kernel → ℕ → Bool
on_ras_rq k p = member p k.rq.ras.run_list

-- init_ras_rq
unfoldable pub init_ras_rq : Kernel → Kernel
init_ras_rq k = set_ras_rq k (record { run_list = []; ras_nr_running = 0; ras_time = 0 })

-- The queue with one more task, at its head or its tail.
abbrev pub link_task : ℕ → ℕ → List ℕ → List ℕ
link_task flags p l = if has_flag flags enqueue_head then p ∷ l else l ++ p ∷ []

abbrev pub move_tail : ℕ → List ℕ → List ℕ
move_tail p l = remove p l ++ p ∷ []

abbrev pub is_ras : Class → Bool
is_ras ras_class = true
is_ras _ = false

-- The difference of two u64 clocks, or 0 where it is negative as an s64.
unfoldable pub delta_exec : ℕ → ℕ → ℕ
delta_exec now start = let d : ℕ = u64 (now + 2 ^ 64 - start) in if leb (2 ^ 63) d then 0 else d

-- update_curr_ras
unfoldable pub update_curr_ras : Kernel → Kernel
update_curr_ras k =
    let c : ℕ = k.rq.curr in
    let t = k.tasks c in
    let d : ℕ = delta_exec k.rq.clock_task t.exec_start in
    if is_ras t.class
    then set_task k c (record t {
      exec_max = max t.exec_max d;
      sum_exec_runtime = u64 (t.sum_exec_runtime + d);
      exec_start = k.rq.clock_task;
    })
    else k

-- The timeout of a task that wakes up starts anew.
abbrev pub reset_timeout : ℕ → Task → Task
reset_timeout flags t =
    if has_flag flags enqueue_wakeup then record t { ras = record (t.ras) { timeout = 0 } } else t

-- enqueue_task_ras
unfoldable pub enqueue_task_ras : ℕ → Kernel → ℕ → ℕ → Kernel
unfolding inc_nr_running
enqueue_task_ras hz k p flags =
    let t = reset_timeout flags (refill hz (k.tasks p)) in
    let q = k.rq.ras in
    inc_nr_running (
      set_ras_rq (set_task k p t) (record q {
        run_list = link_task flags p q.run_list;
        ras_nr_running = inc32 q.ras_nr_running;
      }))

-- list_del_init and the queue's counter, where the task is linked
unfoldable pub unlink_task : Kernel → ℕ → Kernel
unfolding on_ras_rq
unlink_task k p =
    let q = k.rq.ras in
    if on_ras_rq k p
    then set_ras_rq k
        (record q { run_list = remove p q.run_list; ras_nr_running = dec32 q.ras_nr_running })
    else k

-- dequeue_task_ras
unfoldable pub dequeue_task_ras : Kernel → ℕ → ℕ → Kernel
unfolding update_curr_ras unlink_task dec_nr_running
dequeue_task_ras k p flags = dec_nr_running (unlink_task (update_curr_ras k) p)

-- What pick_next_task_ras returns. `wild` is the pointer that it computes from the list's head where
-- the counter says that there is a task and the list is empty.
pub data Picked : Type 0 where
  nothing : Picked
  picked : ℕ → Picked
  wild : Picked

-- The entry behind the list's head.
abbrev pub first_entry : Kernel → List ℕ → Picked × Kernel
first_entry k [] = (wild, k)
first_entry k (p ∷ _) =
    (picked p, set_task k p (record (k.tasks p) { exec_start = k.rq.clock_task }))

-- pick_next_task_ras
unfoldable pub pick_next_task_ras : Kernel → Picked × Kernel
pick_next_task_ras k =
    if k.rq.ras.ras_nr_running == 0 then (nothing, k) else first_entry k k.rq.ras.run_list

-- list_move_tail, where the task is linked
unfoldable pub requeue_tail : Kernel → ℕ → Kernel
unfolding on_ras_rq
requeue_tail k p = if on_ras_rq k p then set_run_list k (move_tail p k.rq.ras.run_list) else k

-- put_prev_task_ras
unfoldable pub put_prev_task_ras : Kernel → ℕ → Kernel
unfolding update_curr_ras requeue_tail
put_prev_task_ras k p = requeue_tail (update_curr_ras k) p

-- yield_task_ras
unfoldable pub yield_task_ras : Kernel → Kernel
unfolding requeue_tail
yield_task_ras k = requeue_tail k k.rq.curr

-- A task with its weight computed anew.
abbrev pub reweigh : Task → Task
reweigh t = record t { ras = record (t.ras) { weight = calc_ras_weight t.wcounts } }

-- check_preempt_curr_ras
unfoldable pub check_preempt_curr_ras : Kernel → ℕ → ℕ → Kernel
unfolding resched_task calc_ras_weight
check_preempt_curr_ras k p flags =
    let c : ℕ = k.rq.curr in
    let k1 = set_task k p (reweigh (k.tasks p)) in
    let k2 = set_task k1 c (reweigh (k1.tasks c)) in
    if ltb (k2.tasks c).ras.weight (k2.tasks p).ras.weight then resched_task k2 c else k2

-- set_curr_task_ras
unfoldable pub set_curr_task_ras : Kernel → Kernel
set_curr_task_ras k =
    let c : ℕ = k.rq.curr in set_task k c (record (k.tasks c) { exec_start = k.rq.clock_task })

-- RLIM_INFINITY
abbrev pub rlim_infinity : ℕ
rlim_infinity = 2 ^ 32 - 1

-- DIV_ROUND_UP(min(soft, hard), USEC_PER_SEC / HZ)
unfoldable pub rttime_ticks : ℕ → ℕ → ℕ → ℕ
rttime_ticks hz soft hard = u32 (min soft hard + 1000000 / hz - 1) / (1000000 / hz)

-- watchdog: one more tick in a row, and the expiry of the limit
unfoldable pub watchdog : ℕ → Task → Task
unfolding rttime_ticks
watchdog hz t =
    let ticks : ℕ = inc32 t.ras.timeout in
    let u = record t { ras = record (t.ras) { timeout = ticks } } in
    if t.soft == rlim_infinity
    then t
    else if ltb (rttime_ticks hz t.soft t.hard) ticks
    then record u { sched_exp = t.sum_exec_runtime }
    else u

-- `run_list.prev != run_list.next`: more than one task is linked.
abbrev pub many : List ℕ → Bool
many [] = false
many (p ∷ []) = false
many (p ∷ q ∷ l) = true

abbrev pub set_slice : Task → ℕ → Task
set_slice t n = record t { ras = record (t.ras) { time_slice = n } }

-- The end of a time slice: the refill, and another task's turn if there is one.
unfoldable pub slice_over : ℕ → Kernel → ℕ → Kernel
slice_over hz k p =
    let r = set_task k p (refill hz (k.tasks p)) in
    if many k.rq.ras.run_list then resched_task (requeue_tail r p) p else r

-- The accounting of a tick: `--p->ras.time_slice`, behind update_curr_ras and the watchdog
unfoldable pub count_down : ℕ → Kernel → ℕ → Kernel
count_down hz k p =
    let u = update_curr_ras k in
    let t = watchdog hz (u.tasks p) in set_task u p (set_slice t (dec32 t.ras.time_slice))

-- task_tick_ras
unfoldable pub task_tick_ras : ℕ → Kernel → ℕ → Kernel
task_tick_ras hz k p =
    let v = count_down hz k p in if (v.tasks p).ras.time_slice == 0 then slice_over hz v p else v

-- get_rr_interval_ras: it sets the time slice that it returns.
unfoldable pub get_rr_interval_ras : ℕ → Kernel → ℕ → ℕ × Kernel
unfolding refill
get_rr_interval_ras hz k p = let t = refill hz (k.tasks p) in (t.ras.time_slice, set_task k p t)

-- switched_to_ras: on one processor the task's queue is this one.
unfoldable pub switched_to_ras : Kernel → ℕ → Kernel
unfolding resched_task
switched_to_ras k p =
    if (k.tasks p).on_rq && not (k.rq.curr == p) then resched_task k k.rq.curr else k
