-- ===== src/Sched/Rt/Machine.antt =====
-- The histories of the real-time class: the handlers of rt_sched_class, in any order in which the core may
-- call them.
use operating_system_project.Sched.Rt.Bits.{Bitmap}
use operating_system_project.Prelude.{ℕ, ◌+◌, ◌^◌, ◌<◌, ◌≡◌, false}
use operating_system_project.Sched.Task.{Task}
use operating_system_project.Sched.Core.World.{World, task, put_task}
use operating_system_project.Sched.Core.Policy.{max_rt_prio}
use operating_system_project.Sched.Rt.Queues.{task_entity, Rt, init_rt_rq, on_rt_rq}
use operating_system_project.Sched.Rt.Walk.{Groups, rt_rq}
use operating_system_project.Sched.Rt.Pick.{pick_next_task_rt}
use operating_system_project.Sched.Rt.Class.{
  enqueue_task_rt, dequeue_task_rt, yield_task_rt, put_prev_task_rt, set_curr_task_rt, task_tick_rt,
}
use operating_system_project.Sched.Rt.Steps.{Untouched}

module _ {S : Type 0} ⦃bm : Bitmap⦄ where
  -- The handlers of the class, each where the core may call it, and whatever else the kernel does to tasks
  -- that are not linked and to all but the priorities and the queue.
  pub data Step (hz : ℕ) (gs : Groups) (w : World (Rt S)) : World (Rt S) → Type 0 where
    enqueue :
        (p flags : ℕ)
        → (task w p).prio < max_rt_prio
        → (rt_rq w 0).rt_nr_running + 1 < 2 ^ 32
        → Step hz gs w (enqueue_task_rt gs w p flags)
    dequeue : (p flags : ℕ) → Step hz gs w (dequeue_task_rt gs w p flags)
    pick : Step hz gs w (pick_next_task_rt gs w).1
    put_prev : (p : ℕ) → Step hz gs w (put_prev_task_rt gs w p)
    set_curr : Step hz gs w (set_curr_task_rt w)
    tick : (p : ℕ) → Step hz gs w (task_tick_rt hz gs w p)
    yield_ : Step hz gs w (yield_task_rt gs w)
    change :
        (p : ℕ) (t : Task)
        → on_rt_rq (task_entity p) (rt_rq w 0) ≡ false
        → Step hz gs w (put_task w p t)
    others : (v : World (Rt S)) → Untouched w v → Step hz gs w v

  -- The states that come from a boot
  pub data Reach (hz : ℕ) (gs : Groups) : World (Rt S) → Type 0 where
    boot : (w : World (Rt S)) → rt_rq w 0 ≡ init_rt_rq → Reach hz gs w
    later : {w v : World (Rt S)} → Reach hz gs w → Step hz gs w v → Reach hz gs v
