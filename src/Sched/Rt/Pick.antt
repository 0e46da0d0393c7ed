-- ===== src/Sched/Rt/Pick.antt =====
-- The choice of a task in goldfish/kernel/sched/rt.c: pick_next_rt_entity and pick_next_task_rt.
use operating_system_project.Sched.Rt.Bits.{Bitmap, first_bit}
use operating_system_project.Prelude.{
  ℕ, zero, suc, Option, none, some, List, [], ◌∷◌, leb, ◌==◌, if◌then◌else◌,
}
use operating_system_project.Sched.Ras.Class.{Picked, nothing, picked, wild}
use operating_system_project.Sched.Core.World.{World, task, put_task}
use operating_system_project.Sched.Rt.Queues.{
  Entity, task_entity, group_entity, RtRq, Rt, rt_rq_throttled,
}
use operating_system_project.Sched.Core.Policy.{max_rt_prio}
use operating_system_project.Sched.Rt.Walk.{Groups, rt_rq}

-- pick_next_rt_entity: the entry behind the head of the first list whose bit is set
abbrev pub front : List Entity → Option Entity
front [] = none
front (x ∷ xs) = some x

unfoldable pub pick_next_rt_entity : ⦃bm : Bitmap⦄ → RtRq → Option Entity
pick_next_rt_entity r =
    let i : ℕ = first_bit r.bitmap in if leb max_rt_prio i then none else front (r.queue i)

-- The task behind an entity: a group's queue is searched in turn.
abbrev pub descend : (ℕ → Picked) → Option Entity → Picked
descend deeper none = wild
descend deeper (some (task_entity p)) = picked p
descend deeper (some (group_entity g)) = deeper g

module _ {S : Type 0} ⦃bm : Bitmap⦄ where
  -- The loop of _pick_next_task_rt, on fuel; `wild` stands for BUG_ON and for the end of the fuel.
  unfoldable pub pick_from : ℕ → World (Rt S) → ℕ → Picked
  unfolding pick_next_rt_entity
  pick_from zero w g = wild
  pick_from (suc fuel) w g = descend (pick_from fuel w) (pick_next_rt_entity (rt_rq w g))

  abbrev pub stamp : World (Rt S) → Picked → Picked × World (Rt S)
  stamp w nothing = (nothing, w)
  stamp w wild = (wild, w)
  stamp w (picked p) =
      (picked p, put_task w p (record (task w p) { exec_start = w.kernel.rq.clock_task }))

  -- pick_next_task_rt
  unfoldable pub pick_next_task_rt : Groups → World (Rt S) → Picked × World (Rt S)
  pick_next_task_rt gs w =
      let r = rt_rq w 0 in
      if r.rt_nr_running == 0
      then (nothing, w)
      else if rt_rq_throttled r
      then (nothing, w)
      else stamp w (pick_from (suc (gs.height 0)) w 0)
