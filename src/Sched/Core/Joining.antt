-- ===== src/Sched/Core/Joining.antt =====
-- A queued task that is given the policy SCHED_RAS joins the RAS queue.
use operating_system_project.Prelude.{
  ℕ, ◌≡◌, refl, sym, ap, ◌∙◌, ◌≢◌, Bool, true, false, not, [], ◌∷◌, ◌++◌, arith, ◌==◌,
  if◌then◌else◌,
}
use operating_system_project.Prelude.{inc32}
use operating_system_project.Sched.Task.{
  Class, stop_class, rt_class, ras_class, fair_class, idle_class, Task, RasRq, set_task_self,
  sched_ras,
}
use operating_system_project.Sched.Ras.Class.{enqueue_task_ras, set_curr_task_ras, switched_to_ras}
use operating_system_project.Sched.Core.World.{
  update_rq_clock, World, Env, Handlers, handlers, task, put_task, enqueue_task, dequeue_task,
  check_class_changed, same_class,
}
use operating_system_project.Sched.Core.Policy.{take_off, put_back, change_policy, set_policy}
use operating_system_project.Sched.Core.Settings.{
  enqueue_task-KeptAll, KeptAll-refl, dequeue_task-KeptAll, if-KeptAll, KeepsSettings,
  handlers-KeepsSettings, take_off-KeptAll,
}

abbrev pub ras_queue : {S : Type 0} → World S → RasRq
ras_queue w = w.kernel.rq.ras

-- A class's handlers leave the RAS queue alone when a task leaves the class.
pub record LeavesQueue {S : Type 0} (h : Handlers S) : Type 0 where
  pub dequeue : (w : World S) (p flags : ℕ) → ras_queue (h.dequeue w p flags) ≡ ras_queue w
  pub put_prev : (w : World S) (p : ℕ) → ras_queue (h.put_prev w p) ≡ ras_queue w
  pub switched_from : (w : World S) (p : ℕ) → ras_queue (h.switched_from w p) ≡ ras_queue w

-- The queue with one more task at its end
abbrev pub joined : RasRq → ℕ → RasRq
joined q p = record q { run_list = q.run_list ++ p ∷ []; ras_nr_running = inc32 q.ras_nr_running }

module _ {S : Type 0} (e : Env S) (leaves : (c : Class) → LeavesQueue (e.rows c)) where
  handlers-LeavesQueue : (c : Class) → c ≢ ras_class → LeavesQueue (handlers e c)
  unfolding handlers
  handlers-LeavesQueue stop_class h = leaves stop_class
  handlers-LeavesQueue rt_class h = leaves rt_class
  handlers-LeavesQueue ras_class h = absurd (h refl)
  handlers-LeavesQueue fair_class h = leaves fair_class
  handlers-LeavesQueue idle_class h = leaves idle_class

  set_curr-queue :
      (w : World S) (c : Class)
      → c ≡ ras_class
      → ras_queue ((handlers e c).set_curr w) ≡ ras_queue w
  unfolding handlers set_curr_task_ras
  set_curr-queue w c h = ap (λ (x : Class). ras_queue ((handlers e x).set_curr w)) h

  enqueue_task-queue :
      (w : World S) (p : ℕ)
      → (task w p).class ≡ ras_class
      → ras_queue (enqueue_task e w p 0) ≡ joined (ras_queue w) p
  unfolding enqueue_task handlers enqueue_task_ras
  enqueue_task-queue w p h =
      ap (λ (x : Class). ras_queue ((handlers e x).enqueue (update_rq_clock e w) p 0)) h

  switched_to-queue :
      (w : World S) (p : ℕ) (c : Class)
      → c ≡ ras_class
      → ras_queue ((handlers e c).switched_to w p) ≡ ras_queue w
  unfolding handlers switched_to_ras
  switched_to-queue w p c h =
      ap (λ (x : Class). ras_queue ((handlers e x).switched_to w p)) h ∙ ground arith

  prio_changed-queue :
      (w : World S) (p old : ℕ) (c : Class)
      → c ≡ ras_class
      → ras_queue ((handlers e c).prio_changed w p old) ≡ ras_queue w
  unfolding handlers
  prio_changed-queue w p old c h =
      ap (λ (x : Class). ras_queue ((handlers e x).prio_changed w p old)) h

  if-queue :
      (b : Bool) (u v : World S) (q : RasRq)
      → ras_queue u ≡ q
      → ras_queue v ≡ q
      → ras_queue (if b then u else v) ≡ q
  if-queue true u v q h k = h
  if-queue false u v q h k = k

  module _ (keeps : (c : Class) → KeepsSettings (e.rows c)) where
    check_class_changed-queue :
        (w : World S) (p : ℕ) (prev : Class) (old : ℕ)
        → (task w p).class ≡ ras_class
        → prev ≢ ras_class
        → ras_queue (check_class_changed e w p prev old) ≡ ras_queue w
    unfolding check_class_changed
    check_class_changed-queue w p prev old ras other =
        let v = (handlers e prev).switched_from w p in
        let k = (handlers-KeepsSettings e keeps prev).switched_from w p p in
        if-queue (not (same_class prev (task w p).class)) _ _ (ras_queue w)
          (switched_to-queue v p (task v p).class (k.class ∙ ras)
            ∙ (handlers-LeavesQueue prev other).switched_from w p)
          (if-queue (not (old == (task w p).prio)) _ w (ras_queue w)
            (prio_changed-queue w p old (task w p).class ras) refl)

    take_off-queue :
        (w : World S) (p : ℕ)
        → (task w p).class ≢ ras_class
        → ras_queue (take_off e w p) ≡ ras_queue w
    unfolding take_off dequeue_task
    take_off-queue w p other =
        let d = dequeue_task e w p 0 in
        let w1 = if (task w p).on_rq then d else w in
        let k =
          if-KeptAll e keeps (task w p).on_rq w d w (dequeue_task-KeptAll e keeps w p 0)
            (KeptAll-refl e keeps w) p in
        let a =
          if-queue (task w p).on_rq d w (ras_queue w)
            ((handlers-LeavesQueue (task w p).class other).dequeue (update_rq_clock e w) p 0)
            refl in
        if-queue (w.kernel.rq.curr == p) _ w1 (ras_queue w)
          ((handlers-LeavesQueue (task w1 p).class (λ h. other (sym k.class ∙ h))).put_prev w1 p
            ∙ a)
          a

    put_back-queue :
        (w : World S) (p : ℕ) (running : Bool) (prev : Class) (old : ℕ)
        → (task w p).class ≡ ras_class
        → prev ≢ ras_class
        → ras_queue (put_back e w p true running 0 prev old) ≡ joined (ras_queue w) p
    unfolding put_back
    put_back-queue w p running prev old ras other =
        let s = (handlers e (task w p).class).set_curr w in
        let w1 = if running then s else w in
        let k =
          if-KeptAll e keeps running w s w
            ((handlers-KeepsSettings e keeps (task w p).class).set_curr w) (KeptAll-refl e keeps w)
            p in
        let k2 = enqueue_task-KeptAll e keeps w1 p 0 p in
        let ras1 = k.class ∙ ras in
        check_class_changed-queue (enqueue_task e w1 p 0) p prev old (k2.class ∙ ras1) other
        ∙ enqueue_task-queue w1 p ras1
        ∙ ap (λ q. joined q p)
            (if-queue running s w (ras_queue w) (set_curr-queue w (task w p).class ras) refl)

    set_policy-ras : (t : Task) (prio : ℕ) → (set_policy e t sched_ras prio).class ≡ ras_class
    unfolding set_policy
    set_policy-ras t prio = refl

    -- Where the other classes' handlers keep settings and leave the RAS queue alone: the change of a queued
    -- task of another class to SCHED_RAS puts it behind the tasks of the RAS queue, which stay in order, and
    -- counts it.
    pub change_policy-joins :
        (w : World S) (p prio : ℕ) (reset : Bool)
        → (task w p).on_rq ≡ true
        → (task w p).class ≢ ras_class
        → ras_queue (change_policy e w p sched_ras prio reset) ≡ joined (ras_queue w) p
    unfolding change_policy
    change_policy-joins w p prio reset queued other =
        let v = take_off e w p in
        let t = record (task v p) { reset_on_fork = reset } in
        let s = set_policy e t sched_ras prio in
        let k = take_off-KeptAll e keeps w p p in
        let w1 = put_task v p s in
        ap (λ b. ras_queue (put_back e w1 p b (w.kernel.rq.curr == p) 0 t.class t.prio)) queued
        ∙ put_back-queue w1 p (w.kernel.rq.curr == p) t.class t.prio
            (ap (λ (x : Task). x.class) (set_task_self v.kernel p s) ∙ set_policy-ras t prio)
            (λ h. other (sym k.class ∙ h))
        ∙ ap (λ q. joined q p) (take_off-queue w p other)
