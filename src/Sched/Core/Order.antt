-- ===== src/Sched/Core/Order.antt =====
-- pick_next_task: the shortcut for the fair class agrees with the loop over the classes, and the RAS
-- queue takes turns as long as no class above it has a task.
use operating_system_project.Prelude.{
  ==_iff, ℕ, ◌+◌, ◌≡◌, refl, sym, ◌⊎◌, inl, inr, true, arith, ◌==◌, Bool-cases,
}
use operating_system_project.Sched.Task.{stop_class, rt_class, ras_class, fair_class}
use operating_system_project.Sched.Ras.Class.{nothing, picked, pick_next_task_ras}
use operating_system_project.Sched.Core.World.{World, Env, handlers}
use operating_system_project.Sched.Core.Switch.{pick_next_task, pick_classes, all_classes}

module _ {S : Type 0} (e : Env S) where
  -- What the other classes document: the processor's counter is the sum of the classes' counters, stop
  -- and rt classes without tasks pick nothing, and the fair class picks a task or nothing at all.
  pub record IsCounted (w : World S) (stop_running rt_running : ℕ) : Type 0 where
    pub total :
        w.kernel.rq.nr_running
        ≡ stop_running + rt_running + w.kernel.rq.ras.ras_nr_running + e.fair_running w.other
    pub stop_none : stop_running ≡ 0 → (e.rows stop_class).pick_next w ≡ (nothing, w)
    pub rt_none : rt_running ≡ 0 → (e.rows rt_class).pick_next w ≡ (nothing, w)
    pub fair_some :
        ((p : ℕ) × (w' : World S) × ((e.rows fair_class).pick_next w ≡ (picked p, w')))
        ⊎ ((e.rows fair_class).pick_next w ≡ (nothing, w))

  module _ (w : World S) (s r : ℕ) (h : IsCounted w s r)
      (all : (w.kernel.rq.nr_running == e.fair_running w.other) ≡ true) where
    none_above : (s ≡ 0) × (r ≡ 0) × (w.kernel.rq.ras.ras_nr_running ≡ 0)
    none_above =
        let t = h.total in
        let f = (==_iff w.kernel.rq.nr_running (e.fair_running w.other)).0 all in omega arith

  ras-none :
      (w : World S)
      → w.kernel.rq.ras.ras_nr_running ≡ 0
      → (handlers e ras_class).pick_next w ≡ (nothing, w)
  unfolding handlers pick_next_task_ras
  ras-none w h = ground arith

  loop-fair :
      (w : World S)
      → (handlers e stop_class).pick_next w ≡ (nothing, w)
      → (handlers e rt_class).pick_next w ≡ (nothing, w)
      → (handlers e ras_class).pick_next w ≡ (nothing, w)
      → (p : ℕ) (w' : World S) → (handlers e fair_class).pick_next w ≡ (picked p, w')
      → pick_classes e all_classes w ≡ (picked p, w')
  unfolding pick_classes
  loop-fair w a b c p w' f = rw a (rw b (rw c (rw f refl)))

  -- Where the classes' counters add up, the shortcut of pick_next_task, which asks the fair class alone
  -- if it holds all tasks, gives the task and the state that the loop over all classes gives.
  pub pick_next_task-loop :
      (w : World S) (stop_running rt_running : ℕ)
      → IsCounted w stop_running rt_running
      → pick_next_task e w ≡ pick_classes e all_classes w
  unfolding pick_next_task handlers
  pick_next_task-loop w s r h =
      elim (Bool-cases (w.kernel.rq.nr_running == e.fair_running w.other)) [
        | inr more ↦ rw more refl
        | inl all ↦ elim h.fair_some [
          | inr none_ ↦ rw all (rw none_ refl)
          | inl (p, w', f) ↦
              let z = none_above w s r h all in
              rw all
                (rw f (sym (loop-fair w (h.stop_none z.0) (h.rt_none z.1) (ras-none w z.2) p w' f)))
        ]
      ]
