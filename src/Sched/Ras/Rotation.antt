-- ===== src/Sched/Ras/Rotation.antt =====
-- The turns of RAS tasks under goldfish/kernel/sched/ras.c: what a timer tick does to a time slice and
-- to the queue, and how long a task keeps the processor.
use operating_system_project.Sched.Ras.Queue.{count_down-rq}
use operating_system_project.Sched.Ras.Slice.{refill}
use operating_system_project.Sched.Ras.Class.{
  requeue_tail, slice_over, set_slice, count_down, watchdog, update_curr_ras, task_tick_ras,
}
use operating_system_project.Prelude.{
  ==_ne, dec32, ℕ, zero, suc, ◌+◌, ◌^◌, ◌<◌, ◌≡◌, refl, ap, ◌∙◌, Bool, true, List, [], ◌∷◌, ◌++◌,
  arith, ◌==◌, if◌then◌else◌, length,
}
use operating_system_project.Sched.Task.{resched_task, set_task_self, Task, Kernel}

-- The time slice that a task has left, and the one that it gets next.
abbrev pub slice : Kernel → ℕ → ℕ
slice k p = (k.tasks p).ras.time_slice

abbrev pub next_slice : ℕ → Kernel → ℕ → ℕ
next_slice hz k p = (refill hz (k.tasks p)).ras.time_slice

abbrev pub resched : Kernel → ℕ → Bool
resched k p = (k.tasks p).need_resched

-- What update_curr_ras and the watchdog leave of a task.
pub record Keeps (t u : Task) : Type 0 where
  pub same_slice : u.ras.time_slice ≡ t.ras.time_slice
  pub same_count : u.wcounts ≡ t.wcounts
  pub same_group : u.group ≡ t.group
  pub same_resched : u.need_resched ≡ t.need_resched

pub update_curr_ras-Keeps : (k : Kernel) (p : ℕ) → Keeps (k.tasks p) ((update_curr_ras k).tasks p)
unfolding update_curr_ras
update_curr_ras-Keeps k p = ground arith

watchdog-Keeps : (hz : ℕ) (t : Task) → Keeps t (watchdog hz t)
unfolding watchdog
watchdog-Keeps hz t = ground arith

refill-Keeps :
    (hz : ℕ) (t u : Task) → Keeps t u → (refill hz u).ras.time_slice ≡ (refill hz t).ras.time_slice
unfolding refill
refill-Keeps hz t u v = rw (v.same_count, v.same_group)

count_down-task :
    (hz : ℕ) (k : Kernel) (p : ℕ)
    → (count_down hz k p).tasks p
      ≡ set_slice
          (watchdog hz ((update_curr_ras k).tasks p))
          (dec32 (watchdog hz ((update_curr_ras k).tasks p)).ras.time_slice)
unfolding count_down
count_down-task hz k p = set_task_self (update_curr_ras k) p _

set_slice-refill :
    (hz n : ℕ) (t : Task)
    → (refill hz (set_slice t n)).ras.time_slice ≡ (refill hz t).ras.time_slice
unfolding refill
set_slice-refill hz n t = refl

pub count_down-effects :
    (hz : ℕ) (k : Kernel) (p : ℕ)
    → (slice (count_down hz k p) p ≡ dec32 (slice k p))
      × (resched (count_down hz k p) p ≡ resched k p)
      × (next_slice hz (count_down hz k p) p ≡ next_slice hz k p)
count_down-effects hz k p =
    let a = update_curr_ras-Keeps k p in
    let b = watchdog-Keeps hz ((update_curr_ras k).tasks p) in
    let e = count_down-task hz k p in
    (
      ap (λ (t : Task). t.ras.time_slice) e ∙ ap dec32 (b.same_slice ∙ a.same_slice),
      ap (λ (t : Task). t.need_resched) e ∙ (b.same_resched ∙ a.same_resched),
      ap (λ (t : Task). (refill hz t).ras.time_slice) e
          ∙ (set_slice-refill hz _ _ ∙ (refill-Keeps hz _ _ b ∙ refill-Keeps hz _ _ a)),
    )

tick_inside :
    (hz : ℕ) (k : Kernel) (p : ℕ)
    → 1 < slice k p
    → slice k p < 2 ^ 32
    → task_tick_ras hz k p ≡ count_down hz k p
unfolding task_tick_ras
tick_inside hz k p lo hi =
    rw (==_ne (slice (count_down hz k p) p) 0 (omega (arith, (count_down-effects hz k p).0)))

-- A tick inside a slice takes one from it and changes nothing else of the queue or the flag.
pub task_tick_ras-inside :
    (hz : ℕ) (k : Kernel) (p : ℕ)
    → 1 < slice k p
    → slice k p < 2 ^ 32
    → ((task_tick_ras hz k p).rq ≡ k.rq)
      × (suc (slice (task_tick_ras hz k p) p) ≡ slice k p)
      × (resched (task_tick_ras hz k p) p ≡ resched k p)
      × (next_slice hz (task_tick_ras hz k p) p ≡ next_slice hz k p)
task_tick_ras-inside hz k p lo hi =
    let (a, b, c) = count_down-effects hz k p in
    rw (tick_inside hz k p lo hi) (count_down-rq hz k p, omega (arith, a), b, c)

pub slice_over-slice :
    (hz : ℕ) (k : Kernel) (p : ℕ) → slice (slice_over hz k p) p ≡ next_slice hz k p
unfolding slice_over requeue_tail resched_task
slice_over-slice hz k p = ground arith

-- The end of a slice of the task at the head.
pub slice_over-ends :
    (hz : ℕ) (k : Kernel) (p : ℕ) (l : List ℕ)
    → k.rq.ras.run_list ≡ p ∷ l
    → ((slice_over hz k p).rq.ras.run_list ≡ l ++ p ∷ [])
      × (resched (slice_over hz k p) p ≡ (if length l == 0 then resched k p else true))
unfolding slice_over requeue_tail resched_task refill
slice_over-ends hz k p [] e = rw e (refl, ground arith)
slice_over-ends hz k p (q ∷ l) e = rw e (ground arith)

-- Ticks in a row for one task.
unfoldable pub ticks : ℕ → ℕ → Kernel → ℕ → Kernel
ticks hz zero k p = k
ticks hz (suc n) k p = ticks hz n (task_tick_ras hz k p) p

-- As long as fewer ticks come than the slice has, the queue stays and nobody is told to reschedule.
pub ticks-inside :
    (hz n : ℕ) (k : Kernel) (p : ℕ)
    → n < slice k p
    → slice k p < 2 ^ 32
    → ((ticks hz n k p).rq ≡ k.rq)
      × (slice (ticks hz n k p) p + n ≡ slice k p)
      × (resched (ticks hz n k p) p ≡ resched k p)
      × (next_slice hz (ticks hz n k p) p ≡ next_slice hz k p)
unfolding ticks
ticks-inside hz zero k p lt hi = (refl, omega arith, refl, refl)
ticks-inside hz (suc n) k p lt hi =
    let (a, b, c, d) = task_tick_ras-inside hz k p (omega arith) hi in
    let (e, f, g, h) =
      ticks-inside hz n (task_tick_ras hz k p) p (omega (arith, b)) (omega (arith, b)) in
    (e ∙ a, omega (arith, b, f), g ∙ c, h ∙ d)
