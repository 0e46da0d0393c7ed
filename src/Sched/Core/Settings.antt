-- ===== src/Sched/Core/Settings.antt =====
-- A policy that is set is the policy that is read: the classes' handlers leave a task's settings alone.
use operating_system_project.Sched.Ras.Slice.{refill}
use operating_system_project.Sched.Core.Policy.{take_off, put_back}
use operating_system_project.Prelude.{
  ℕ, ◌≡◌, refl, ◌∙◌, Bool, true, false, not, arith, ◌==◌, if◌then◌else◌,
}
use operating_system_project.Sched.Task.{
  Class, stop_class, rt_class, ras_class, fair_class, idle_class, Task, Kernel,
}
use operating_system_project.Sched.Ras.Class.{
  enqueue_task_ras, dequeue_task_ras, put_prev_task_ras, set_curr_task_ras, switched_to_ras,
}
use operating_system_project.Sched.Core.World.{
  update_rq_clock, same_class, enqueue_task, dequeue_task, check_class_changed, World, Env,
  Handlers, handlers, task, ras_handlers,
}

-- The settings of a task did not change.
pub record Kept (t t' : Task) : Type 0 where
  pub policy : t'.policy ≡ t.policy
  pub reset_on_fork : t'.reset_on_fork ≡ t.reset_on_fork
  pub rt_priority : t'.rt_priority ≡ t.rt_priority
  pub class : t'.class ≡ t.class

abbrev pub KeptAll : {S : Type 0} → World S → World S → Type 0
KeptAll w w' = (q : ℕ) → Kept (task w q) (task w' q)

-- A class's handlers keep the settings of every task.
pub record KeepsSettings {S : Type 0} (h : Handlers S) : Type 0 where
  pub enqueue : (w : World S) (p flags : ℕ) → KeptAll w (h.enqueue w p flags)
  pub dequeue : (w : World S) (p flags : ℕ) → KeptAll w (h.dequeue w p flags)
  pub put_prev : (w : World S) (p : ℕ) → KeptAll w (h.put_prev w p)
  pub set_curr : (w : World S) → KeptAll w (h.set_curr w)
  pub prio_changed : (w : World S) (p old : ℕ) → KeptAll w (h.prio_changed w p old)
  pub switched_from : (w : World S) (p : ℕ) → KeptAll w (h.switched_from w p)
  pub switched_to : (w : World S) (p : ℕ) → KeptAll w (h.switched_to w p)

refill-Kept : (hz : ℕ) (t : Task) → Kept t (refill hz t)
unfolding refill
refill-Kept hz t = ground arith

enqueue_task_ras-Kept :
    (hz : ℕ) (k : Kernel) (p flags q : ℕ)
    → Kept (k.tasks q) ((enqueue_task_ras hz k p flags).tasks q)
unfolding enqueue_task_ras
enqueue_task_ras-Kept hz k p flags q = ground (arith, refill-Kept hz (k.tasks p))

dequeue_task_ras-Kept :
    (k : Kernel) (p flags q : ℕ) → Kept (k.tasks q) ((dequeue_task_ras k p flags).tasks q)
unfolding dequeue_task_ras
dequeue_task_ras-Kept k p flags q = ground arith

put_prev_task_ras-Kept : (k : Kernel) (p q : ℕ) → Kept (k.tasks q) ((put_prev_task_ras k p).tasks q)
unfolding put_prev_task_ras
put_prev_task_ras-Kept k p q = ground arith

set_curr_task_ras-Kept : (k : Kernel) (q : ℕ) → Kept (k.tasks q) ((set_curr_task_ras k).tasks q)
unfolding set_curr_task_ras
set_curr_task_ras-Kept k q = ground arith

switched_to_ras-Kept : (k : Kernel) (p q : ℕ) → Kept (k.tasks q) ((switched_to_ras k p).tasks q)
unfolding switched_to_ras
switched_to_ras-Kept k p q = ground arith

Kept-refl : (t : Task) → Kept t t
Kept-refl t = record { policy = refl; reset_on_fork = refl; rt_priority = refl; class = refl }

pub ras_handlers-KeepsSettings : {S : Type 0} (hz : ℕ) → KeepsSettings (ras_handlers {S = S} hz)
unfolding ras_handlers
ras_handlers-KeepsSettings hz = record {
  enqueue = λ w p flags q. enqueue_task_ras-Kept hz w.kernel p flags q;
  dequeue = λ w p flags q. dequeue_task_ras-Kept w.kernel p flags q;
  put_prev = λ w p q. put_prev_task_ras-Kept w.kernel p q;
  set_curr = λ w q. set_curr_task_ras-Kept w.kernel q;
  prio_changed = λ w p old q. Kept-refl (task w q);
  switched_from = λ w p q. Kept-refl (task w q);
  switched_to = λ w p q. switched_to_ras-Kept w.kernel p q;
}

Kept-trans : {t u v : Task} → Kept t u → Kept u v → Kept t v
Kept-trans a b = record {
  policy = b.policy ∙ a.policy;
  reset_on_fork = b.reset_on_fork ∙ a.reset_on_fork;
  rt_priority = b.rt_priority ∙ a.rt_priority;
  class = b.class ∙ a.class;
}

module _ {S : Type 0} (e : Env S) (keeps : (c : Class) → KeepsSettings (e.rows c)) where
  pub handlers-KeepsSettings : (c : Class) → KeepsSettings (handlers e c)
  unfolding handlers
  handlers-KeepsSettings stop_class = keeps stop_class
  handlers-KeepsSettings rt_class = keeps rt_class
  handlers-KeepsSettings ras_class = ras_handlers-KeepsSettings e.hz
  handlers-KeepsSettings fair_class = keeps fair_class
  handlers-KeepsSettings idle_class = keeps idle_class

  pub if-KeptAll :
      (b : Bool) (w u v : World S) → KeptAll w u → KeptAll w v → KeptAll w (if b then u else v)
  if-KeptAll true w u v h k = h
  if-KeptAll false w u v h k = k

  pub KeptAll-refl : (w : World S) → KeptAll w w
  KeptAll-refl w q = Kept-refl (task w q)

  pub enqueue_task-KeptAll : (w : World S) (p flags : ℕ) → KeptAll w (enqueue_task e w p flags)
  unfolding enqueue_task
  enqueue_task-KeptAll w p flags =
      (handlers-KeepsSettings (task w p).class).enqueue (update_rq_clock e w) p flags

  pub dequeue_task-KeptAll : (w : World S) (p flags : ℕ) → KeptAll w (dequeue_task e w p flags)
  unfolding dequeue_task
  dequeue_task-KeptAll w p flags =
      (handlers-KeepsSettings (task w p).class).dequeue (update_rq_clock e w) p flags

  check_class_changed-KeptAll :
      (w : World S) (p : ℕ) (prev : Class) (old : ℕ)
      → KeptAll w (check_class_changed e w p prev old)
  unfolding check_class_changed
  check_class_changed-KeptAll w p prev old =
      let v = (handlers e prev).switched_from w p in
      if-KeptAll (not (same_class prev (task w p).class)) w _ _
        (λ q.
          Kept-trans ((handlers-KeepsSettings prev).switched_from w p q)
            ((handlers-KeepsSettings (task v p).class).switched_to v p q))
        (if-KeptAll (not (old == (task w p).prio)) w _ _
          ((handlers-KeepsSettings (task w p).class).prio_changed w p old) (KeptAll-refl w))

  pub take_off-KeptAll : (w : World S) (p : ℕ) → KeptAll w (take_off e w p)
  unfolding take_off
  take_off-KeptAll w p =
      let w1 = if (task w p).on_rq then dequeue_task e w p 0 else w in
      let h1 =
        if-KeptAll (task w p).on_rq w (dequeue_task e w p 0) w (dequeue_task-KeptAll w p 0)
          (KeptAll-refl w) in
      if-KeptAll (w.kernel.rq.curr == p) w _ w1
        (λ q. Kept-trans (h1 q) ((handlers-KeepsSettings (task w1 p).class).put_prev w1 p q)) h1

  pub put_back-KeptAll :
      (w : World S) (p : ℕ) (queued running : Bool) (flags : ℕ) (prev : Class) (old : ℕ)
      → KeptAll w (put_back e w p queued running flags prev old)
  unfolding put_back
  put_back-KeptAll w p queued running flags prev old =
      let w1 = if running then (handlers e (task w p).class).set_curr w else w in
      let w2 = if queued then enqueue_task e w1 p flags else w1 in
      let h1 =
        if-KeptAll running w ((handlers e (task w p).class).set_curr w) w
          ((handlers-KeepsSettings (task w p).class).set_curr w) (KeptAll-refl w) in
      let h2 =
        if-KeptAll queued w1 (enqueue_task e w1 p flags) w1 (enqueue_task-KeptAll w1 p flags)
          (KeptAll-refl w1) in
      λ q. Kept-trans (h1 q) (Kept-trans (h2 q) (check_class_changed-KeptAll w2 p prev old q))
