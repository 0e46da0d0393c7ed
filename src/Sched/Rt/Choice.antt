-- ===== src/Sched/Rt/Choice.antt =====
-- What the real-time class picks in the states that its handlers reach, where no task is in another group
-- than the root.
use operating_system_project.Sched.Rt.Bits.{Bitmap}
use operating_system_project.Prelude.{
  ltb→lt, ==_ne, ℕ, suc, ◌≤◌, ◌<◌, ◌≡◌, refl, ap, ◌∙◌, ◌≢◌, inl, inr, true, false, some, List, [],
  ◌∷◌, arith, ltb, Bool-cases,
}
use operating_system_project.Sched.Ras.Class.{picked}
use operating_system_project.Sched.Core.World.{World, task}
use operating_system_project.Sched.Rt.Queues.{
  rt_rq_throttled, Entity, task_entity, group_entity, Rt, holds_entity,
}
use operating_system_project.Sched.Rt.Walk.{Groups, rt_rq}
use operating_system_project.Sched.Rt.Pick.{
  pick_from, descend, pick_next_rt_entity, pick_next_task_rt,
}
use operating_system_project.Sched.Rt.Highest.{pick_next_rt_entity-highest}
use operating_system_project.Sched.Rt.Flat.{RootFlat}
use operating_system_project.Sched.Rt.Machine.{Reach}
use operating_system_project.Sched.Rt.Reach.{Reach-RootFlat}

module _ {S : Type 0} ⦃bm : Bitmap⦄ where
  -- A task has been waiting longest among the linked tasks of the best priority.
  pub record IsNextTask (w : World (Rt S)) (p : ℕ) : Type 0 where
    pub behind : List Entity
    pub front : (rt_rq w 0).queue (task w p).prio ≡ task_entity p ∷ behind
    pub best :
        (q i : ℕ)
        → holds_entity (task_entity q) ((rt_rq w 0).queue i) ≡ true
        → (task w p).prio ≤ (task w q).prio

  module _ (hz : ℕ) (gs : Groups) (flat : (p : ℕ) → gs.group_of p ≡ 0)
      (root : gs.above 0 ≡ []) where
    best_of :
        (w : World (Rt S)) (p : ℕ) (l : List Entity)
        → RootFlat w
        → (rt_rq w 0).queue (rt_rq w 0).highest_prio ≡ task_entity p ∷ l
        → ((i : ℕ) → i < (rt_rq w 0).highest_prio → (rt_rq w 0).queue i ≡ [])
        → IsNextTask w p
    best_of w p l f e above =
        let top : ℕ = (rt_rq w 0).highest_prio in
        let (level, at) = f.placed (task_entity p) top (rw e (ground arith)) in
        record {
          behind = l;
          front = rw at e;
          best = λ q i h.
              let (low, here) = f.placed (task_entity q) i h in
              elim (Bool-cases (ltb i top)) [
                | inl less ↦
                    absurd (cc (h, ap (holds_entity (task_entity q)) (above i (ltb→lt i top less))))
                | inr more ↦ ground arith
              ];
        }

    task_of :
        (w : World (Rt S)) (x : Entity) (l : List Entity)
        → RootFlat w
        → (rt_rq w 0).queue (rt_rq w 0).highest_prio ≡ x ∷ l
        → (p : ℕ) × (x ≡ task_entity p)
    task_of w (task_entity p) l f e = (p, refl)
    task_of w (group_entity g) l f e =
        absurd (f.placed (group_entity g) (rt_rq w 0).highest_prio (rw e (ground arith)))

    picks_at_once :
        (w : World (Rt S)) (p n : ℕ)
        → pick_next_rt_entity (rt_rq w 0) ≡ some (task_entity p)
        → pick_from (suc n) w 0 ≡ picked p
    unfolding pick_from
    picks_at_once w p n e = ap (descend (pick_from n w)) e

    picks-task :
        (w : World (Rt S)) (p : ℕ)
        → (rt_rq w 0).rt_nr_running ≢ 0
        → rt_rq_throttled (rt_rq w 0) ≡ false
        → pick_next_rt_entity (rt_rq w 0) ≡ some (task_entity p)
        → (pick_next_task_rt gs w).0 ≡ picked p
    unfolding pick_next_task_rt
    picks-task w p busy open_ e =
        rw (==_ne (rt_rq w 0).rt_nr_running 0 busy, open_, picks_at_once w p (gs.height 0) e) refl

    -- Where no task is in another group than the root: in every state that the handlers of the real-time
    -- class can reach, with tasks in the root queue that is not throttled, pick_next_task_rt gives a task;
    -- it is the first one of the list of its priority, and no linked task has a better priority.
    pub Reach-picks :
        {w : World (Rt S)}
        → Reach hz gs w
        → (rt_rq w 0).rt_nr_running ≢ 0
        → rt_rq_throttled (rt_rq w 0) ≡ false
        → (p : ℕ) × ((pick_next_task_rt gs w).0 ≡ picked p) × IsNextTask w p
    Reach-picks {w} r busy open_ =
        let f = Reach-RootFlat hz gs flat root r in
        let (x, l, e, q, above) = pick_next_rt_entity-highest (rt_rq w 0) (f.array) busy in
        let (p, same) = task_of w x l f q in
        (
          p,
          picks-task w p busy open_ (e ∙ ap some same),
          best_of w p l f (q ∙ ap (λ y. y ∷ l) same) above,
        )
