-- ===== src/Sched/Rt/Queues.antt =====
-- The queues of goldfish/kernel/sched/rt.c: the priority array of an rt_rq, its counters, and the walk up
-- the groups that puts an entity into its queue or takes it out. A queue has the number of its task group;
-- the root group is 0. The list of leaf queues, which only load balancing and debug output read, is left
-- out, and so are the warnings.
use operating_system_project.Sched.Rt.Bits.{Bitmap, first_bit}
use operating_system_project.Prelude.{
  ℕ, zero, suc, ◌+◌, Bool, true, false, ◌&&◌, ◌||◌, List, [], ◌∷◌, ◌++◌, ltb, ◌==◌, if◌then◌else◌,
  update,
}
use operating_system_project.Prelude.{inc32, dec32}
use operating_system_project.Sched.Core.Policy.{max_rt_prio}

-- `struct sched_rt_entity`: a task's, or a group's.
pub data Entity : Type 0 where
  task_entity : ℕ → Entity
  group_entity : ℕ → Entity

-- `struct rt_rq`, with its priority array `active`
pub record RtRq : Type 0 where
  pub queue : ℕ → List Entity
  pub bitmap : ℕ → Bool
  pub rt_nr_running : ℕ
  pub highest_prio : ℕ
  pub rt_throttled : Bool
  pub rt_time : ℕ
  pub rt_runtime : ℕ
  pub rt_nr_boosted : ℕ

-- The class's part of the state: the queues by group, two fields of each task's entity, the log that
-- printk writes, and what the remaining classes keep.
pub record Rt (S : Type 0) : Type 0 where
  pub queues : ℕ → RtRq
  pub timeout : ℕ → ℕ
  pub time_slice : ℕ → ℕ
  pub log : List (List ℕ)
  pub rest : S

abbrev pub same_entity : Entity → Entity → Bool
same_entity (task_entity p) (task_entity q) = p == q
same_entity (group_entity p) (group_entity q) = p == q
same_entity (task_entity p) (group_entity q) = false
same_entity (group_entity p) (task_entity q) = false

abbrev pub is_group : Entity → Bool
is_group (task_entity p) = false
is_group (group_entity g) = true

abbrev pub is_empty {ℓ} : {A : Type ℓ} → List A → Bool
is_empty [] = true
is_empty (x ∷ xs) = false

-- The list without an entity, which stands in it at most once.
abbrev pub unlink : Entity → List Entity → List Entity
unlink x [] = []
unlink x (y ∷ ys) = if same_entity y x then ys else y ∷ unlink x ys

abbrev pub holds_entity : Entity → List Entity → Bool
holds_entity x [] = false
holds_entity x (y ∷ ys) = same_entity y x || holds_entity x ys

-- One of the lists from level `i` on holds the entity.
unfoldable pub on_levels : Entity → (ℕ → List Entity) → ℕ → ℕ → Bool
on_levels x queue i zero = false
on_levels x queue i (suc left) = holds_entity x (queue i) || on_levels x queue (i + 1) left

-- on_rt_rq: the node of the entity is linked.
unfoldable pub on_rt_rq : Entity → RtRq → Bool
unfolding on_levels
on_rt_rq x r = on_levels x r.queue 0 max_rt_prio

-- rt_rq_throttled
abbrev pub rt_rq_throttled : RtRq → Bool
rt_rq_throttled r = r.rt_throttled && r.rt_nr_boosted == 0

-- init_rt_rq and what init_tg_rt_entry adds for one processor
unfoldable pub init_rt_rq : RtRq
init_rt_rq = record {
  queue = λ i. [];
  bitmap = λ i. i == max_rt_prio;
  rt_nr_running = 0;
  highest_prio = max_rt_prio;
  rt_throttled = false;
  rt_time = 0;
  rt_runtime = 0;
  rt_nr_boosted = 0;
}

-- inc_rt_tasks with inc_rt_prio and inc_rt_group, for the entity's priority and whether it is boosted
unfoldable pub inc_rt_tasks : ℕ → Bool → RtRq → RtRq
inc_rt_tasks prio boosted r = record r {
  rt_nr_running = inc32 r.rt_nr_running;
  highest_prio = if ltb prio r.highest_prio then prio else r.highest_prio;
  rt_nr_boosted = if boosted then inc32 r.rt_nr_boosted else r.rt_nr_boosted;
}

-- dec_rt_prio
abbrev pub dec_rt_prio : ⦃bm : Bitmap⦄ → ℕ → RtRq → ℕ
dec_rt_prio prio r =
    if r.rt_nr_running == 0
    then max_rt_prio
    else if prio == r.highest_prio
    then first_bit r.bitmap
    else r.highest_prio

-- dec_rt_tasks with dec_rt_prio and dec_rt_group
unfoldable pub dec_rt_tasks : ⦃bm : Bitmap⦄ → ℕ → Bool → RtRq → RtRq
dec_rt_tasks prio boosted r =
    let r1 = record r { rt_nr_running = dec32 r.rt_nr_running } in
    record r1 {
      highest_prio = dec_rt_prio prio r1;
      rt_nr_boosted = if boosted then dec32 r.rt_nr_boosted else r.rt_nr_boosted;
    }

-- The queue's part of __enqueue_rt_entity
unfoldable pub link_entity : Entity → ℕ → Bool → Bool → RtRq → RtRq
unfolding inc_rt_tasks
link_entity x prio boosted head r =
    let l = r.queue prio in
    inc_rt_tasks prio boosted (record r {
      queue = update r.queue prio (if head then x ∷ l else l ++ x ∷ []);
      bitmap = update r.bitmap prio true;
    })

-- The queue's part of __dequeue_rt_entity
unfoldable pub unlink_entity : ⦃bm : Bitmap⦄ → Entity → ℕ → Bool → RtRq → RtRq
unfolding dec_rt_tasks
unlink_entity x prio boosted r =
    let queue = λ (i : ℕ). unlink x (r.queue i) in
    dec_rt_tasks prio boosted (record r {
      queue = queue;
      bitmap = if is_empty (queue prio) then update r.bitmap prio false else r.bitmap;
    })
