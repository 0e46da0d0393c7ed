-- ===== src/Sched/Ras/Turns.antt =====
-- Whole turns of RAS tasks under goldfish/kernel/sched/ras.c: the task at the head of the queue is
-- picked, gets the ticks of its slice and is put behind the others, as __schedule of
-- goldfish/kernel/sched/core.c calls the handlers.
use operating_system_project.Sched.Ras.Queue.{count_down-rq}
use operating_system_project.Sched.Ras.Class.{count_down, slice_over, task_tick_ras}
use operating_system_project.Sched.Ras.Rotation.{
  slice_over-slice, slice_over-ends, count_down-effects, ticks-inside, resched, next_slice, slice,
  ticks,
}
use operating_system_project.Prelude.{
  ==_iff, ℕ, zero, suc, ◌^◌, ◌≤◌, ◌<◌, ◌≡◌, refl, ap, ◌∙◌, Bool, true, List, [], ◌∷◌, ◌++◌, arith,
  ◌==◌, if◌then◌else◌, length,
}
use operating_system_project.Sched.Task.{Kernel, Rq}

ticks-snoc :
    (hz n : ℕ) (k : Kernel) (p : ℕ) → ticks hz (suc n) k p ≡ task_tick_ras hz (ticks hz n k p) p
unfolding ticks
ticks-snoc hz zero k p = refl
ticks-snoc hz (suc n) k p = ticks-snoc hz n (task_tick_ras hz k p) p

tick_last :
    (hz : ℕ) (k : Kernel) (p : ℕ)
    → slice k p ≡ 1
    → task_tick_ras hz k p ≡ slice_over hz (count_down hz k p) p
unfolding task_tick_ras
tick_last hz k p h =
    rw ((==_iff (slice (count_down hz k p) p) 0).1 (omega (arith, (count_down-effects hz k p).0)))

-- The tick that ends a slice: with company in the queue the task goes to its tail and is to be
-- rescheduled, alone it stays; in both cases it gets a new slice.
pub task_tick_ras-last :
    (hz : ℕ) (k : Kernel) (p : ℕ) (l : List ℕ)
    → slice k p ≡ 1
    → k.rq.ras.run_list ≡ p ∷ l
    → ((task_tick_ras hz k p).rq.ras.run_list ≡ l ++ p ∷ [])
      × (slice (task_tick_ras hz k p) p ≡ next_slice hz k p)
      × (resched (task_tick_ras hz k p) p ≡ (if length l == 0 then resched k p else true))
task_tick_ras-last hz k p l h e =
    let v = count_down hz k p in
    let (a, b, c) = count_down-effects hz k p in
    let (ends, flag) =
      slice_over-ends hz v p l (ap (λ (q : Rq). q.ras.run_list) (count_down-rq hz k p) ∙ e) in
    rw (tick_last hz k p h) (
      ends,
      slice_over-slice hz v p ∙ c,
      flag ∙ ap (λ (f : Bool). if length l == 0 then f else true) b,
    )

-- A whole slice of ticks, from a slice of any length: up to its last tick the queue stays and no
-- rescheduling is asked for; with it the task goes behind the others and gets a new slice, and it is to be
-- rescheduled if there are others.
pub ticks-slice :
    (hz n : ℕ) (k : Kernel) (p : ℕ) (l : List ℕ)
    → slice k p ≡ suc n
    → suc n < 2 ^ 32
    → k.rq.ras.run_list ≡ p ∷ l
    → ((m : ℕ) → m ≤ n → ((ticks hz m k p).rq ≡ k.rq) × (resched (ticks hz m k p) p ≡ resched k p))
      × ((ticks hz (suc n) k p).rq.ras.run_list ≡ l ++ p ∷ [])
      × (slice (ticks hz (suc n) k p) p ≡ next_slice hz k p)
      × (resched (ticks hz (suc n) k p) p ≡ (if length l == 0 then resched k p else true))
ticks-slice hz n k p l s hi e =
    let (a, b, c, d) = ticks-inside hz n k p (omega arith) (omega arith) in
    let (x, y, z) =
      task_tick_ras-last hz (ticks hz n k p) p l (omega (arith, b))
        (ap (λ (q : Rq). q.ras.run_list) a ∙ e) in
    rw (ticks-snoc hz n k p) (
      λ m h. let i = ticks-inside hz m k p (omega arith) (omega arith) in (i.0, i.2),
      x,
      y ∙ d,
      z ∙ ap (λ (f : Bool). if length l == 0 then f else true) c,
    )
