-- ===== src/Sched/Core/Turns.antt =====
-- __schedule on a processor where RAS tasks run: the next task of the queue gets the processor.
use operating_system_project.Prelude.{
  ==_ne, ℕ, ◌≡◌, refl, sym, ap, ◌∙◌, ◌≢◌, false, List, [], ◌∷◌, ◌++◌, arith,
}
use operating_system_project.Sched.Task.{Class, stop_class, rt_class, ras_class, Kernel, Rq}
use operating_system_project.Sched.Ras.Class.{
  nothing, picked, pick_next_task_ras, put_prev_task_ras, first_entry, requeue_tail,
}
use operating_system_project.Sched.Ras.Queue.{update_curr_ras-rq}
use operating_system_project.Sched.Core.World.{
  on_kernel, World, Env, handlers, task, update_rq_clock,
}
use operating_system_project.Sched.Core.Switch.{
  clear_resched, pick_next_task, pick_classes, schedule, put_prev_task, runs, switch_to,
}

-- The run queue with the task at the head of its RAS queue put behind the others.
abbrev pub rotated : Rq → List ℕ → Rq
rotated q l = record q { ras = record (q.ras) { run_list = l } }

put_prev_task_ras-rq :
    (k : Kernel) (p : ℕ) (l : List ℕ)
    → k.rq.ras.run_list ≡ p ∷ l
    → (put_prev_task_ras k p).rq ≡ rotated k.rq (l ++ p ∷ [])
unfolding put_prev_task_ras requeue_tail
put_prev_task_ras-rq k p l e = rw (update_curr_ras-rq k) (ground arith)

pick_next_task_ras-first :
    (k : Kernel) (p : ℕ) (l : List ℕ)
    → k.rq.ras.run_list ≡ p ∷ l
    → k.rq.ras.ras_nr_running ≢ 0
    → pick_next_task_ras k ≡ first_entry k (p ∷ l)
unfolding pick_next_task_ras
pick_next_task_ras-first k p l e n = rw (==_ne k.rq.ras.ras_nr_running 0 n) (ap (first_entry k) e)

module _ {S : Type 0} (e : Env S) where
  -- Classes that hold no task in the state `other`: they pick nothing, whatever the kernel's state is.
  abbrev pub PicksNothing : Class → S → Type 0
  PicksNothing c other =
      (k : Kernel)
      → (e.rows c).pick_next (record { kernel = k; other = other })
        ≡ (nothing, record { kernel = k; other = other })

  pick_next_task-ras :
      (k : Kernel) (other : S) (p : ℕ) (l : List ℕ)
      → PicksNothing stop_class other
      → PicksNothing rt_class other
      → e.fair_running other ≢ k.rq.nr_running
      → k.rq.ras.run_list ≡ p ∷ l
      → k.rq.ras.ras_nr_running ≢ 0
      → pick_next_task e (record { kernel = k; other = other })
        ≡ (picked p, record { kernel = (first_entry k (p ∷ l)).1; other = other })
  unfolding pick_next_task pick_classes handlers
  pick_next_task-ras k other p l stop rt more q n =
      rw
        (
          ==_ne k.rq.nr_running (e.fair_running other) (λ x. more (sym x)),
          stop k,
          rt k,
          pick_next_task_ras-first k p l q n,
        )
        refl

  -- The kernel's state behind put_prev_task for a RAS task
  abbrev behind : World S → ℕ → Kernel
  behind w p = put_prev_task_ras (update_rq_clock e w).kernel p

  put_prev_task-ras :
      (w : World S) (p : ℕ)
      → (task w p).class ≡ ras_class
      → put_prev_task e w p ≡ record { kernel = behind w p; other = w.other }
  unfolding put_prev_task handlers
  put_prev_task-ras w p h = ap (λ (x : Class). (handlers e x).put_prev (update_rq_clock e w) p) h

  -- The state that a round leaves, for the next task and the state in front of its choice
  abbrev after : S → Kernel → ℕ → ℕ → List ℕ → World S
  after other k p q l =
      let v : World S = record { kernel = (first_entry k (q ∷ l)).1; other = other } in
      on_kernel (λ j. record j { rq = record (j.rq) { curr = q } }) (clear_resched e v p)

  -- Let the current task be a RAS task at the head of the queue that stays runnable, with others behind
  -- it, and let the stop and the real-time class hold no task and the fair class not all of them. Then a
  -- round of __schedule puts the next task of the queue on the processor, whatever tasks the fair class
  -- has, and the one that ran goes behind the others.
  pub schedule-rotates :
      (w : World S) (woken : World S → World S) (p q : ℕ) (l : List ℕ)
      → w.kernel.rq.curr ≡ p
      → (task w p).class ≡ ras_class
      → w.kernel.rq.ras.run_list ≡ p ∷ q ∷ l
      → w.kernel.rq.ras.ras_nr_running ≢ 0
      → PicksNothing stop_class w.other
      → PicksNothing rt_class w.other
      → e.fair_running w.other ≢ w.kernel.rq.nr_running
      → (w' : World S) × (schedule e false woken w ≡ runs w')
        × (w'.kernel.rq.curr ≡ q)
        × (w'.kernel.rq.ras.run_list ≡ q ∷ l ++ p ∷ [])
  unfolding schedule
  schedule-rotates w woken p q l c cls list n stop rt more =
      let k = behind w p in
      let o = w.other in
      let r : k.rq ≡ rotated (update_rq_clock e w).kernel.rq (q ∷ (l ++ p ∷ [])) =
        put_prev_task_ras-rq (update_rq_clock e w).kernel p (q ∷ l) list in
      let pick =
        pick_next_task-ras k o q (l ++ p ∷ []) stop rt
          (λ x. more (x ∙ ap (λ (y : Rq). y.nr_running) r)) (ap (λ (y : Rq). y.ras.run_list) r)
          (λ x. n (sym (ap (λ (y : Rq). y.ras.ras_nr_running) r) ∙ x)) in
      (
        after o k p q (l ++ p ∷ []),
        ap (λ (x : ℕ). switch_to e x (pick_next_task e (put_prev_task e w x))) c
            ∙ ap (λ (v : World S). switch_to e p (pick_next_task e v)) (put_prev_task-ras w p cls)
            ∙ ap (switch_to e p) pick,
        refl,
        ap (λ (y : Rq). y.ras.run_list) r,
      )
