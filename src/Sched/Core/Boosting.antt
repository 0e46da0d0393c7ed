-- ===== src/Sched/Core/Boosting.antt =====
-- The class that priority inheritance gives to a task.
use operating_system_project.Prelude.{ℕ, ◌≡◌, ap, ◌∙◌, false, ltb, ◌==◌, if◌then◌else◌}
use operating_system_project.Sched.Task.{
  Class, Task, set_task_self, enqueue_head, sched_ras, ras_class, rt_class, fair_class,
}
use operating_system_project.Sched.Core.World.{World, Env, task, put_task}
use operating_system_project.Sched.Core.Policy.{class_for, take_off, rt_mutex_setprio}
use operating_system_project.Sched.Core.Settings.{KeepsSettings, take_off-KeptAll, put_back-KeptAll}

module _ {S : Type 0} (e : Env S) (keeps : (c : Class) → KeepsSettings (e.rows c)) where
  -- Where the other classes' handlers keep settings, rt_mutex_setprio gives a task other than the idle
  -- thread the class for its policy and the new priority, and keeps its policy: a task of the policy SCHED_RAS
  -- has the RAS class with every boost, and any other task gets the real-time class for a real-time priority and
  -- the fair class for any other.
  pub rt_mutex_setprio-class :
      (w : World S) (p prio : ℕ)
      → e.is_idle p ≡ false
      → ((task (rt_mutex_setprio e w p prio) p).class ≡ (
          if (task w p).policy == sched_ras
          then ras_class
          else if ltb prio 100
          then rt_class
          else fair_class))
        × ((task (rt_mutex_setprio e w p prio) p).policy ≡ (task w p).policy)
  unfolding rt_mutex_setprio
  rt_mutex_setprio-class w p prio busy =
      let v = take_off e w p in
      let t = record (task v p) { class = class_for (task v p).policy prio; prio = prio } in
      let a = take_off-KeptAll e keeps w p p in
      let b =
        put_back-KeptAll e keeps (put_task v p t) p (task w p).on_rq (w.kernel.rq.curr == p)
          (if ltb (task w p).prio prio then enqueue_head else 0) (task w p).class (task w p).prio
          p in
      let s = set_task_self v.kernel p t in
      rw busy (
        b.class ∙ ap (λ (x : Task). x.class) s ∙ ap (λ (n : ℕ). class_for n prio) a.policy,
        b.policy ∙ ap (λ (x : Task). x.policy) s ∙ a.policy,
      )
