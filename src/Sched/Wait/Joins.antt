-- ===== src/Sched/Wait/Joins.antt =====
-- A sleeping RAS task that is woken by goldfish/kernel/sched/core.c joins the queue of its class.
use operating_system_project.Prelude.{
  bit_and, ==_ne, ==_refl, ℕ, ◌≡◌, refl, sym, ap, ◌∙◌, ◌≢◌, inl, inr, Bool, true, false, ◌||◌,
  arith, ltb, ◌==◌, if◌then◌else◌, Bool-cases,
}
use operating_system_project.Prelude.{case-if}
use operating_system_project.Sched.Task.{
  Class, stop_class, rt_class, ras_class, fair_class, idle_class, Task, Kernel, Rq, set_task,
  resched_task,
}
use operating_system_project.Sched.Ras.Class.{enqueue_task_ras, check_preempt_curr_ras}
use operating_system_project.Sched.Core.World.{
  World, Env, handlers, task, enqueue_task, check_preempt_curr, update_rq_clock, same_class, rank,
  ras_handlers,
}
use operating_system_project.Sched.Core.Joining.{joined, ras_queue}
use operating_system_project.Sched.Ras.Preemption.{check_preempt_curr_ras-resched}
use operating_system_project.Sched.Ras.Slice.{calc_ras_weight, refill}
use operating_system_project.Sched.Wait.Wake.{
  Sleepers, Workers, try_to_wake_up, ttwu_remote, ttwu_do_activate, ttwu_activate, ttwu_do_wakeup,
  activate_task,
}
use operating_system_project.Sched.Wait.Walks.{matches, try_to_wake_up-state}

-- What a woken RAS task does to the current one
abbrev pub preempted : Kernel → ℕ → ℕ → Kernel
preempted k p flags =
    let c : ℕ = k.rq.curr in
    if same_class ras_class (k.tasks c).class
    then check_preempt_curr_ras k p flags
    else if ltb 2 (rank (k.tasks c).class)
    then resched_task k c
    else k

-- Whether the woken task is to run in place of the current one
abbrev pub precedes : Task → Task → Bool
precedes t cur =
    if same_class ras_class cur.class
    then ltb (calc_ras_weight cur.wcounts) (calc_ras_weight t.wcounts)
    else ltb 2 (rank cur.class)

module _ {S : Type 0} (e : Env S) (k : Workers S) where
  check_preempt_curr-preempted :
      (w : World S) (p flags : ℕ) (x : Class)
      → (task w w.kernel.rq.curr).class ≡ x
      → (task w p).class ≡ ras_class
      → (check_preempt_curr e w p flags).kernel ≡ preempted w.kernel p flags
  unfolding check_preempt_curr handlers ras_handlers
  check_preempt_curr-preempted w p flags stop_class h r = rw (r, h) refl
  check_preempt_curr-preempted w p flags rt_class h r = rw (r, h) refl
  check_preempt_curr-preempted w p flags ras_class h r = rw (r, h) refl
  check_preempt_curr-preempted w p flags fair_class h r = rw (r, h) refl
  check_preempt_curr-preempted w p flags idle_class h r = rw (r, h) refl

preempted-queue : (k : Kernel) (p flags : ℕ) → (preempted k p flags).rq.ras ≡ k.rq.ras
unfolding resched_task
preempted-queue k p flags =
    let ras = check_preempt_curr_ras-resched k p flags in
    case-if (λ (x : Kernel). x.rq.ras ≡ k.rq.ras) (same_class ras_class (k.tasks k.rq.curr).class) _
      _ (λ y. ap (λ (q : Rq). q.ras) ras.1)
      (λ y.
        case-if (λ (x : Kernel). x.rq.ras ≡ k.rq.ras) (ltb 2 (rank (k.tasks k.rq.curr).class)) _ _
          (λ z. refl) (λ z. refl))

on_rq-kept :
    (k : Kernel) (p flags q : ℕ)
    → ((check_preempt_curr_ras k p flags).tasks q).on_rq ≡ (k.tasks q).on_rq
unfolding check_preempt_curr_ras resched_task
on_rq-kept k p flags q = ground arith

preempted-on_rq :
    (k : Kernel) (p flags q : ℕ) → ((preempted k p flags).tasks q).on_rq ≡ (k.tasks q).on_rq
unfolding resched_task
preempted-on_rq k p flags q =
    case-if (λ (x : Kernel). (x.tasks q).on_rq ≡ (k.tasks q).on_rq)
      (same_class ras_class (k.tasks k.rq.curr).class) _ _ (λ y. on_rq-kept k p flags q)
      (λ y.
        case-if (λ (x : Kernel). (x.tasks q).on_rq ≡ (k.tasks q).on_rq)
          (ltb 2 (rank (k.tasks k.rq.curr).class)) _ _ (λ z. ground arith) (λ z. refl))

preempted-resched :
    (k : Kernel) (p flags : ℕ)
    → ((preempted k p flags).tasks k.rq.curr).need_resched
      ≡ ((k.tasks k.rq.curr).need_resched || precedes (k.tasks p) (k.tasks k.rq.curr))
unfolding resched_task
preempted-resched k p flags =
    let c : ℕ = k.rq.curr in
    let ras = check_preempt_curr_ras-resched k p flags in
    elim (Bool-cases (same_class ras_class (k.tasks c).class)) [
      | inl y ↦ rw y ras.0
      | inr n ↦ elim (Bool-cases (ltb 2 (rank (k.tasks c).class))) [
        | inl y ↦ rw (n, y) (ground arith)
        | inr m ↦ rw (n, m) (ground arith)
      ]
    ]

-- The kernel behind ttwu_activate
abbrev activated : {S : Type 0} → Env S → World S → ℕ → Kernel
activated e w p =
    let v = enqueue_task_ras e.hz (update_rq_clock e w).kernel p 1 in
    set_task v p (record (v.tasks p) { on_rq = true })

module _ {S : Type 0} (e : Env S) where
  activated-queue : (w : World S) (p : ℕ) → (activated e w p).rq.ras ≡ joined (ras_queue w) p
  unfolding enqueue_task_ras
  activated-queue w p = refl

  activated_self :
      (w : World S) (p : ℕ)
      → (((activated e w p).tasks p).on_rq ≡ true)
        × (((activated e w p).tasks p).class ≡ (task w p).class)
        × (((activated e w p).tasks p).wcounts ≡ (task w p).wcounts)
  unfolding enqueue_task_ras refill
  activated_self w p = rw (==_refl p) (refl, refl, refl)

  activated_other : (w : World S) (p q : ℕ) → p ≢ q → (activated e w p).tasks q ≡ task w q
  unfolding enqueue_task_ras
  activated_other w p q n = rw (==_ne p q n) refl

  activated-curr : (w : World S) (p : ℕ) → (activated e w p).rq.curr ≡ w.kernel.rq.curr
  unfolding enqueue_task_ras
  activated-curr w p = refl

  activated-resched :
      (w : World S) (p : ℕ)
      → p ≢ w.kernel.rq.curr
      → ((preempted (activated e w p) p 0).tasks w.kernel.rq.curr).need_resched
        ≡ ((task w w.kernel.rq.curr).need_resched || precedes (task w p) (task w w.kernel.rq.curr))
  activated-resched w p other =
      let c : ℕ = w.kernel.rq.curr in
      let v = activated e w p in
      ap (λ (x : ℕ). ((preempted v p 0).tasks x).need_resched) (sym (activated-curr w p))
      ∙ preempted-resched v p 0
      ∙ ap (λ (x : ℕ). (v.tasks x).need_resched || precedes (v.tasks p) (v.tasks x))
          (activated-curr w p)
      ∙ ap (λ (t : Task). t.need_resched || precedes (v.tasks p) t) (activated_other w p c other)
      ∙ ap
          (λ (n : ℕ).
            (task w c).need_resched
            || (if same_class ras_class (task w c).class
                then ltb (calc_ras_weight (task w c).wcounts) (calc_ras_weight n)
                else ltb 2 (rank (task w c).class)))
          (activated_self w p).2

  module _ (k : Workers S)
      (quiet : (w : World S) (p : ℕ) → (k.waking_up w p).kernel ≡ w.kernel) where
    ttwu_activate-activated :
        (s : Sleepers S) (p : ℕ)
        → (task s.world p).class ≡ ras_class
        → (ttwu_activate e k s p 1).world.kernel ≡ activated e s.world p
    unfolding ttwu_activate activate_task enqueue_task handlers ras_handlers
    ttwu_activate-activated s p ras =
        quiet _ p
        ∙ ap
            (λ (x : Class).
              let v = ((handlers e x).enqueue (update_rq_clock e s.world) p 1).kernel in
              set_task v p (record (v.tasks p) { on_rq = true }))
            ras

    slow :
        (s : Sleepers S) (p mode flags : ℕ)
        → matches s.state p mode ≡ true
        → (task s.world p).on_rq ≡ false
        → (try_to_wake_up e k s p mode flags).1.world.kernel
          ≡ (ttwu_do_activate e k s p 0).world.kernel
    unfolding try_to_wake_up ttwu_remote
    slow s p mode flags m off =
        let nz : (bit_and (s.state p) mode == 0) ≡ false = ground (arith, m) in rw (nz, off) refl

    ttwu_do_activate-preempted :
        (s : Sleepers S) (p : ℕ)
        → (task s.world p).class ≡ ras_class
        → (ttwu_do_activate e k s p 0).world.kernel ≡ preempted (activated e s.world p) p 0
    unfolding ttwu_do_activate ttwu_do_wakeup
    ttwu_do_activate-preempted s p ras =
        let v = ttwu_activate e k s p 1 in
        let same = ttwu_activate-activated s p ras in
        let class : (task v.world p).class ≡ ras_class =
          ap (λ (x : Kernel). (x.tasks p).class) same ∙ (activated_self s.world p).1 ∙ ras in
        check_preempt_curr-preempted e k v.world p 0 (task v.world v.world.kernel.rq.curr).class
          refl class
        ∙ ap (λ (x : Kernel). preempted x p 0) same

    -- A RAS task that sleeps in one of the states that are asked for, and that is not the current task, is woken by
    -- try_to_wake_up: the call returns 1, the task runs again and is marked as queued, it goes behind all others in
    -- the RAS queue, and the current task is asked to give up the processor exactly if it was so before, if it is a
    -- RAS task whose weight is less, or if its class is below RAS. The notice to the workqueue leaves the scheduler's
    -- state alone.
    pub try_to_wake_up-joins :
        (s : Sleepers S) (p mode flags : ℕ)
        → matches s.state p mode ≡ true
        → (task s.world p).on_rq ≡ false
        → (task s.world p).class ≡ ras_class
        → p ≢ s.world.kernel.rq.curr
        → (let r = try_to_wake_up e k s p mode flags in
            let c : ℕ = s.world.kernel.rq.curr in
            (r.0 ≡ true)
            × (r.1.state p ≡ 0)
            × ((task r.1.world p).on_rq ≡ true)
            × (ras_queue r.1.world ≡ joined (ras_queue s.world) p)
            × ((task r.1.world c).need_resched
                ≡ ((task s.world c).need_resched || precedes (task s.world p) (task s.world c))))
    try_to_wake_up-joins s p mode flags m off ras other =
        let c : ℕ = s.world.kernel.rq.curr in
        let v = activated e s.world p in
        let end : (try_to_wake_up e k s p mode flags).1.world.kernel ≡ preempted v p 0 =
          slow s p mode flags m off ∙ ttwu_do_activate-preempted s p ras in
        let states = try_to_wake_up-state e k s p mode flags in
        let self = activated_self s.world p in
        (
          states.0 ∙ m,
          ap (λ (f : ℕ → ℕ). f p) states.1 ∙ rw (m, ==_refl p) refl,
          ap (λ (x : Kernel). (x.tasks p).on_rq) end ∙ preempted-on_rq v p 0 p ∙ self.0,
          ap (λ (x : Kernel). x.rq.ras) end ∙ preempted-queue v p 0 ∙ activated-queue s.world p,
          ap (λ (x : Kernel). (x.tasks c).need_resched) end ∙ activated-resched s.world p other,
        )
