-- ===== src/Sched/Rt/Below.antt =====
-- The RAS class below the real-time class: when __schedule asks the one or the other.
use operating_system_project.Sched.Rt.Bits.{Bitmap}
use operating_system_project.Prelude.{
  ==_ne, ℕ, zero, suc, ◌≡◌, refl, sym, ap, ◌∙◌, ◌≢◌, inl, inr, Bool, true, false, not, ◌&&◌, Option,
  none, some, List, [], ◌∷◌, arith, ◌==◌, if◌then◌else◌, Bool-cases,
}
use operating_system_project.Sched.Task.{stop_class, rt_class, ras_class, fair_class, idle_class}
use operating_system_project.Sched.Ras.Class.{
  Picked, nothing, picked, wild, pick_next_task_ras, first_entry,
}
use operating_system_project.Sched.Core.World.{World, Handlers, Env, handlers}
use operating_system_project.Sched.Core.Switch.{pick_next_task, pick_classes, unless_picked}
use operating_system_project.Sched.Rt.Queues.{
  Entity, task_entity, group_entity, Rt, rt_rq_throttled,
}
use operating_system_project.Sched.Rt.Walk.{Groups, rt_rq}
use operating_system_project.Sched.Rt.Pick.{
  pick_next_rt_entity, pick_next_task_rt, stamp, pick_from, descend,
}
use operating_system_project.Sched.Rt.Class.{rt_handlers}

module _ {S : Type 0} ⦃bm : Bitmap⦄ (e : Env (Rt S)) (hz : ℕ) (gs : Groups) where
  -- The root queue has entities and is not throttled.
  abbrev pub rt_may_run : World (Rt S) → Bool
  rt_may_run w = not ((rt_rq w 0).rt_nr_running == 0) && not (rt_rq_throttled (rt_rq w 0))

  descend-ne-nothing :
      (deeper : ℕ → Picked) (x : Option Entity)
      → ((g : ℕ) → deeper g ≢ nothing)
      → descend deeper x ≢ nothing
  descend-ne-nothing deeper none h = λ c. cc
  descend-ne-nothing deeper (some (task_entity p)) h = λ c. cc
  descend-ne-nothing deeper (some (group_entity g)) h = h g

  pick_from-ne-nothing : (fuel : ℕ) (w : World (Rt S)) (g : ℕ) → pick_from fuel w g ≢ nothing
  unfolding pick_from
  pick_from-ne-nothing zero w g = λ c. cc
  pick_from-ne-nothing (suc fuel) w g =
      descend-ne-nothing (pick_from fuel w) (pick_next_rt_entity (rt_rq w g))
        (pick_from-ne-nothing fuel w)

  unless_picked-stamp :
      (next : World (Rt S) → Picked × World (Rt S)) (w : World (Rt S)) (r : Picked)
      → r ≢ nothing
      → unless_picked e next (stamp w r) ≡ stamp w r
  unless_picked-stamp next w nothing h = absurd (h refl)
  unless_picked-stamp next w (picked p) h = refl
  unless_picked-stamp next w wild h = refl

  rt_idle : (w : World (Rt S)) → rt_may_run w ≡ false → pick_next_task_rt gs w ≡ (nothing, w)
  unfolding pick_next_task_rt
  rt_idle w h = ground arith

  rt_busy :
      (w : World (Rt S))
      → rt_may_run w ≡ true
      → pick_next_task_rt gs w ≡ stamp w (pick_from (suc (gs.height 0)) w 0)
  unfolding pick_next_task_rt
  rt_busy w h = ground arith

  ras_first :
      (w : World (Rt S)) (p : ℕ) (l : List ℕ)
      → w.kernel.rq.ras.run_list ≡ p ∷ l
      → w.kernel.rq.ras.ras_nr_running ≢ 0
      → (unless_picked e
          (pick_classes e (fair_class ∷ idle_class ∷ []))
          ((handlers e ras_class).pick_next w)).0
        ≡ picked p
  unfolding handlers pick_next_task_ras
  ras_first w p l list busy =
      rw (==_ne w.kernel.rq.ras.ras_nr_running 0 busy, ap (first_entry w.kernel) list) refl

  rt_then_ras :
      (w : World (Rt S)) (p : ℕ) (l : List ℕ)
      → w.kernel.rq.ras.run_list ≡ p ∷ l
      → w.kernel.rq.ras.ras_nr_running ≢ 0
      → (unless_picked e
          (pick_classes e (ras_class ∷ fair_class ∷ idle_class ∷ []))
          (pick_next_task_rt gs w)).0
        ≡ (if rt_may_run w then (pick_next_task_rt gs w).0 else picked p)
  unfolding pick_classes
  rt_then_ras w p l list busy = elim (Bool-cases (rt_may_run w)) [
    | inl may ↦
        rw
          (
            may,
            rt_busy w may,
            unless_picked-stamp _ w (pick_from (suc (gs.height 0)) w 0)
                (pick_from-ne-nothing (suc (gs.height 0)) w 0),
          )
          refl
    | inr idle ↦ rw (idle, rt_idle w idle) (ras_first w p l list busy)
  ]

  -- Let the real-time row of the table be the code of rt.c, the stop class pick nothing, the fair class not
  -- hold all tasks, and tasks wait in the RAS queue. Then pick_next_task gives the first RAS task exactly if
  -- the real-time class's root queue is empty or throttled, and otherwise what the real-time class picks.
  pub pick_next_task-rt_or_ras :
      (w : World (Rt S)) (p : ℕ) (l : List ℕ)
      → e.rows rt_class ≡ rt_handlers hz gs
      → (e.rows stop_class).pick_next w ≡ (nothing, w)
      → e.fair_running w.other ≢ w.kernel.rq.nr_running
      → w.kernel.rq.ras.run_list ≡ p ∷ l
      → w.kernel.rq.ras.ras_nr_running ≢ 0
      → (pick_next_task e w).0 ≡ (if rt_may_run w then (pick_next_task_rt gs w).0 else picked p)
  unfolding pick_next_task pick_classes handlers rt_handlers
  pick_next_task-rt_or_ras w p l row stop more list busy =
      rw (==_ne w.kernel.rq.nr_running (e.fair_running w.other) (λ x. more (sym x)), stop)
        (ap
            (λ (h : Handlers (Rt S)).
              (unless_picked e (pick_classes e (ras_class ∷ fair_class ∷ idle_class ∷ []))
                (h.pick_next w)).0)
            row
          ∙ rt_then_ras w p l list busy)
