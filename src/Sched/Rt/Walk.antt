-- ===== src/Sched/Rt/Walk.antt =====
-- The walks over a task's groups in goldfish/kernel/sched/rt.c: __enqueue_rt_entity, __dequeue_rt_entity,
-- dequeue_rt_stack, enqueue_rt_entity, dequeue_rt_entity, requeue_rt_entity and requeue_task_rt.
use operating_system_project.Sched.Rt.Bits.{Bitmap}
use operating_system_project.Prelude.{
  ℕ, Bool, false, not, ◌||◌, List, [], ◌∷◌, ◌++◌, ◌==◌, if◌then◌else◌, update,
}
use operating_system_project.Sched.Core.World.{World, task}
use operating_system_project.Sched.Rt.Queues.{
  Entity, task_entity, group_entity, RtRq, Rt, on_rt_rq, rt_rq_throttled, link_entity,
  unlink_entity, unlink,
}

-- The task groups: the group of each task, the groups above each group with the nearest first and the
-- root group 0 last, how many levels of groups can lie below each group, and the period and the runtime
-- of each group's bandwidth.
pub record Groups : Type 0 where
  pub group_of : ℕ → ℕ
  pub above : ℕ → List ℕ
  pub height : ℕ → ℕ
  pub rt_period : ℕ → ℕ
  pub bandwidth : ℕ → ℕ
  pub bandwidth_enabled : Bool

-- An entity with the queue that it is (to be) put into.
pub record Place : Type 0 where
  pub entity : Entity
  pub on : ℕ

-- `for_each_sched_rt_entity`: an entity on the first queue, that queue's group on the next one, and so on.
abbrev pub places : Entity → List ℕ → List Place
places x [] = []
places x (g ∷ gs) = record { entity = x; on = g } ∷ places (group_entity g) gs

abbrev pub task_places : Groups → ℕ → List Place
task_places gs p = places (task_entity p) (gs.group_of p ∷ gs.above (gs.group_of p))

abbrev pub group_places : Groups → ℕ → List Place
group_places gs g = places (group_entity g) (gs.above g)

-- The move of an entity to one end of its list
abbrev pub move_entity : Entity → ℕ → Bool → RtRq → RtRq
move_entity x prio head r =
    let queue = λ (i : ℕ). unlink x (r.queue i) in
    record r { queue = update queue prio (if head then x ∷ queue prio else queue prio ++ x ∷ []) }

module _ {S : Type 0} ⦃bm : Bitmap⦄ where
  abbrev pub rt_rq : World (Rt S) → ℕ → RtRq
  rt_rq w g = w.other.queues g

  abbrev pub set_rt_rq : World (Rt S) → ℕ → RtRq → World (Rt S)
  set_rt_rq w g r = record w { other = record (w.other) { queues = update w.other.queues g r } }

  -- rt_se_prio
  unfoldable pub rt_se_prio : World (Rt S) → Entity → ℕ
  rt_se_prio w (task_entity p) = (task w p).prio
  rt_se_prio w (group_entity g) = (rt_rq w g).highest_prio

  -- rt_se_boosted
  unfoldable pub rt_se_boosted : World (Rt S) → Entity → Bool
  rt_se_boosted w (task_entity p) = not ((task w p).prio == (task w p).normal_prio)
  rt_se_boosted w (group_entity g) = not ((rt_rq w g).rt_nr_boosted == 0)

  -- A group that is throttled or empty stays out of its queue.
  abbrev pub stays_out : World (Rt S) → Entity → Bool
  stays_out w (task_entity p) = false
  stays_out w (group_entity g) = rt_rq_throttled (rt_rq w g) || (rt_rq w g).rt_nr_running == 0

  -- __enqueue_rt_entity
  unfoldable pub enqueue_place : Bool → World (Rt S) → Place → World (Rt S)
  unfolding link_entity rt_se_prio rt_se_boosted
  enqueue_place head w s =
      if stays_out w s.entity
      then w
      else set_rt_rq w s.on (
          link_entity s.entity (rt_se_prio w s.entity) (rt_se_boosted w s.entity) head
            (rt_rq w s.on))

  -- __dequeue_rt_entity
  unfoldable pub dequeue_place : World (Rt S) → Place → World (Rt S)
  unfolding unlink_entity rt_se_prio rt_se_boosted
  dequeue_place w s =
      set_rt_rq w s.on
        (unlink_entity s.entity (rt_se_prio w s.entity) (rt_se_boosted w s.entity) (rt_rq w s.on))

  -- dequeue_rt_stack: the topmost entity first
  unfoldable pub dequeue_rt_stack : World (Rt S) → List Place → World (Rt S)
  unfolding dequeue_place
  dequeue_rt_stack w [] = w
  dequeue_rt_stack w (s ∷ ss) =
      let v = dequeue_rt_stack w ss in
      if on_rt_rq s.entity (rt_rq v s.on) then dequeue_place v s else v

  -- The loop of enqueue_rt_entity
  unfoldable pub enqueue_all : Bool → World (Rt S) → List Place → World (Rt S)
  unfolding enqueue_place
  enqueue_all head w [] = w
  enqueue_all head w (s ∷ ss) = enqueue_all head (enqueue_place head w s) ss

  -- enqueue_rt_entity
  unfoldable pub enqueue_rt_entity : World (Rt S) → List Place → Bool → World (Rt S)
  unfolding dequeue_rt_stack enqueue_all
  enqueue_rt_entity w ss head = enqueue_all head (dequeue_rt_stack w ss) ss

  abbrev pub has_tasks : World (Rt S) → Entity → Bool
  has_tasks w (task_entity p) = false
  has_tasks w (group_entity g) = not ((rt_rq w g).rt_nr_running == 0)

  -- The loop of dequeue_rt_entity
  unfoldable pub enqueue_groups : World (Rt S) → List Place → World (Rt S)
  unfolding enqueue_place
  enqueue_groups w [] = w
  enqueue_groups w (s ∷ ss) =
      enqueue_groups (if has_tasks w s.entity then enqueue_place false w s else w) ss

  -- dequeue_rt_entity
  unfoldable pub dequeue_rt_entity : World (Rt S) → List Place → World (Rt S)
  unfolding dequeue_rt_stack enqueue_groups
  dequeue_rt_entity w ss = enqueue_groups (dequeue_rt_stack w ss) ss

  -- requeue_rt_entity
  unfoldable pub requeue_rt_entity : Bool → World (Rt S) → Place → World (Rt S)
  unfolding rt_se_prio
  requeue_rt_entity head w s =
      let r = rt_rq w s.on in
      if on_rt_rq s.entity r
      then set_rt_rq w s.on (move_entity s.entity (rt_se_prio w s.entity) head r)
      else w

  -- requeue_task_rt
  unfoldable pub requeue_task_rt : Bool → World (Rt S) → List Place → World (Rt S)
  unfolding requeue_rt_entity
  requeue_task_rt head w [] = w
  requeue_task_rt head w (s ∷ ss) = requeue_task_rt head (requeue_rt_entity head w s) ss
