-- ===== src/Sched/Rt/Reach.antt =====
-- The root queue of the real-time class over every history of the class's handlers, where no task is in
-- another group.
use operating_system_project.Sched.Rt.Bits.{Bitmap}
use operating_system_project.Prelude.{
  ==_iff, ℕ, zero, suc, ◌+◌, ◌^◌, ◌≤◌, ◌<◌, ◌≡◌, refl, sym, ap, subst, ◌∙◌, inl, inr, Bool, true,
  false, not, List, [], arith, ◌==◌, if◌then◌else◌, Bool-cases,
}
use operating_system_project.Sched.Task.{
  inc_nr_running, dec_nr_running, enqueue_wakeup, enqueue_head, sched_rr, Task, Kernel,
}
use operating_system_project.Prelude.{dec32, has_flag}
use operating_system_project.Sched.Ras.Class.{Picked, nothing, picked, wild}
use operating_system_project.Sched.Core.World.{World, task, put_task, on_kernel}
use operating_system_project.Sched.Core.Policy.{max_rt_prio}
use operating_system_project.Sched.Rt.Queues.{
  rt_rq_throttled, Entity, task_entity, group_entity, RtRq, Rt, init_rt_rq, on_rt_rq, on_levels,
  holds_entity,
}
use operating_system_project.Sched.Rt.Walk.{
  dequeue_rt_entity, enqueue_rt_entity, Groups, rt_rq, task_places, requeue_task_rt,
}
use operating_system_project.Sched.Rt.Bandwidth.{update_curr_rt}
use operating_system_project.Sched.Rt.Pick.{stamp, pick_from, pick_next_task_rt}
use operating_system_project.Sched.Rt.Class.{
  set_timeout, set_time_slice, rr_timeslice, some_neighbour, enqueue_task_rt, dequeue_task_rt,
  yield_task_rt, put_prev_task_rt, set_curr_task_rt, task_tick_rt, rr_slice_over, watchdog_rt,
  trace_tick,
}
use operating_system_project.Sched.Rt.Array.{IsArray, init_rt_rq-IsArray}
use operating_system_project.Sched.Rt.Flat.{
  RootFlat, Placed, prios, enqueue_rt_entity-flat, dequeue_rt_entity-flat,
}
use operating_system_project.Sched.Rt.Move.{requeue_task_rt-flat}
use operating_system_project.Sched.Rt.Machine.{
  Step, Reach, enqueue, dequeue, pick, put_prev, set_curr, tick, yield_, change, others, boot,
  later,
}
use operating_system_project.Sched.Rt.Steps.{
  Untouched-refl, Untouched-resched, if-Untouched, Untouched, Untouched-RootFlat,
  update_curr_rt-Untouched, task_places-root,
}

on_levels-none :
    (x : Entity) (queue : ℕ → List Entity) (i left k : ℕ)
    → on_levels x queue i left ≡ false
    → i ≤ k
    → k < i + left
    → holds_entity x (queue k) ≡ false
unfolding on_levels
on_levels-none x queue i zero k h a b = absurd (omega arith)
on_levels-none x queue i (suc left) k h a b = elim (Bool-cases (i == k)) [
  | inl same ↦ rw (← ((==_iff i k).0 same)) (ground arith)
  | inr other ↦ on_levels-none x queue (i + 1) left k (ground arith) (ground arith) (omega arith)
]

boot-empty : (x : Entity) (i : ℕ) → holds_entity x (init_rt_rq.queue i) ≡ false
unfolding init_rt_rq
boot-empty x i = refl

module _ {S : Type 0} ⦃bm : Bitmap⦄ where
  -- A change of one task's structure that keeps its priority
  put_task-Untouched :
      (w : World (Rt S)) (p : ℕ) (t : Task)
      → t.prio ≡ (task w p).prio
      → Untouched w (put_task w p t)
  put_task-Untouched w p t h = record {
    prio = λ q. ground arith;
    queue = refl;
    bitmap = refl;
    running = refl;
    highest = refl;
  }

  change_Placed :
      (w : World (Rt S)) (p : ℕ) (t : Task)
      → on_rt_rq (task_entity p) (rt_rq w 0) ≡ false
      → (x : Entity) (i : ℕ) → holds_entity x ((rt_rq w 0).queue i) ≡ true
      → Placed (prios w) x i
      → Placed (prios (put_task w p t)) x i
  unfolding on_rt_rq
  change_Placed w p t away (group_entity g) i h k = k
  change_Placed w p t away (task_entity q) i h k = elim (Bool-cases (p == q)) [
    | inl same ↦ absurd (
        ground (
          arith,
          (==_iff p q).0 same,
          on_levels-none (task_entity p) (rt_rq w 0).queue 0 max_rt_prio i away,
        ))
    | inr other ↦ (k.0, ground arith)
  ]

  change-flat :
      (w : World (Rt S)) (p : ℕ) (t : Task)
      → on_rt_rq (task_entity p) (rt_rq w 0) ≡ false
      → RootFlat w
      → RootFlat (put_task w p t)
  change-flat w p t away f = record {
    array = f.array;
    placed = λ x i h. change_Placed w p t away x i h (f.placed x i h);
  }

  stamp-Untouched : (w : World (Rt S)) (r : Picked) → Untouched w (stamp w r).1
  stamp-Untouched w nothing = Untouched-refl w
  stamp-Untouched w wild = Untouched-refl w
  stamp-Untouched w (picked p) = put_task-Untouched w p _ refl

  if-Untouched_pair1 :
      (b : Bool) (w : World (Rt S)) (u v : Picked × World (Rt S))
      → Untouched w u.1
      → Untouched w v.1
      → Untouched w (if b then u else v).1
  if-Untouched_pair1 true w u v h k = h
  if-Untouched_pair1 false w u v h k = k

  pick-Untouched : (gs : Groups) (w : World (Rt S)) → Untouched w (pick_next_task_rt gs w).1
  unfolding pick_next_task_rt
  pick-Untouched gs w =
      let u = Untouched-refl w in
      if-Untouched_pair1 ((rt_rq w 0).rt_nr_running == 0) w (nothing, w) _ u
        (if-Untouched_pair1 (rt_rq_throttled (rt_rq w 0)) w (nothing, w) _ u
          (stamp-Untouched w (pick_from (suc (gs.height 0)) w 0)))

  watchdog-Untouched : (hz : ℕ) (w : World (Rt S)) (p : ℕ) → Untouched w (watchdog_rt hz w p)
  unfolding watchdog_rt
  watchdog-Untouched hz w p = record {
    prio = λ q. ground arith;
    queue = ground arith;
    bitmap = ground arith;
    running = ground arith;
    highest = ground arith;
  }

  same_queues :
      (w v : World (Rt S)) → v.kernel ≡ w.kernel → v.other.queues ≡ w.other.queues → Untouched w v
  same_queues w v k q = record {
    prio = λ p. ap (λ (x : Kernel). (x.tasks p).prio) k;
    queue = ap (λ (f : ℕ → RtRq). (f 0).queue) q;
    bitmap = ap (λ (f : ℕ → RtRq). (f 0).bitmap) q;
    running = ap (λ (f : ℕ → RtRq). (f 0).rt_nr_running) q;
    highest = ap (λ (f : ℕ → RtRq). (f 0).highest_prio) q;
  }

  trace_tick-Untouched : (w : World (Rt S)) (p : ℕ) → Untouched w (trace_tick w p)
  trace_tick-Untouched w p =
      if-Untouched ((task w p).rr_fifo_trace == 1) w _ w (same_queues w _ refl refl)
        (Untouched-refl w)

  if-flat :
      (b : Bool) (u v : World (Rt S)) → RootFlat u → RootFlat v → RootFlat (if b then u else v)
  if-flat true u v h k = h
  if-flat false u v h k = k

  counter-Untouched :
      (w : World (Rt S))
      → Untouched w (on_kernel inc_nr_running w) × Untouched w (on_kernel dec_nr_running w)
  unfolding inc_nr_running dec_nr_running
  counter-Untouched w = (
    record { prio = λ q. refl; queue = refl; bitmap = refl; running = refl; highest = refl },
    record { prio = λ q. refl; queue = refl; bitmap = refl; running = refl; highest = refl },
  )

  module _ (hz : ℕ) (gs : Groups) (flat : (p : ℕ) → gs.group_of p ≡ 0)
      (root : gs.above 0 ≡ []) where
    enqueue-flat :
        (w : World (Rt S)) (p flags : ℕ)
        → (task w p).prio < max_rt_prio
        → (rt_rq w 0).rt_nr_running + 1 < 2 ^ 32
        → RootFlat w
        → RootFlat (enqueue_task_rt gs w p flags)
    unfolding enqueue_task_rt
    enqueue-flat w p flags level room f =
        let v = if has_flag flags enqueue_wakeup then set_timeout w p 0 else w in
        let u =
          if-Untouched (has_flag flags enqueue_wakeup) w (set_timeout w p 0) w
            (same_queues w (set_timeout w p 0) refl refl) (Untouched-refl w) in
        let head = has_flag flags enqueue_head in
        Untouched-RootFlat (counter-Untouched (enqueue_rt_entity v (task_places gs p) head)).0 (
          rw (task_places-root gs flat root p) (
            enqueue_rt_entity-flat p v head (Untouched-RootFlat u f) (omega (arith, u.prio p))
              (omega (arith, u.running))))

    dequeue-flat :
        (w : World (Rt S)) (p flags : ℕ) → RootFlat w → RootFlat (dequeue_task_rt gs w p flags)
    unfolding dequeue_task_rt
    dequeue-flat w p flags f =
        let v = update_curr_rt gs w in
        let u = update_curr_rt-Untouched gs flat root w in
        Untouched-RootFlat (counter-Untouched (dequeue_rt_entity v (task_places gs p))).1 (
          rw (task_places-root gs flat root p)
            (dequeue_rt_entity-flat p v (Untouched-RootFlat u f)))

    requeue-flat :
        (w : World (Rt S)) (p : ℕ)
        → RootFlat w
        → RootFlat (requeue_task_rt false w (task_places gs p))
    requeue-flat w p f = rw (task_places-root gs flat root p) (requeue_task_rt-flat w p false f)

    slice_over-flat : (w : World (Rt S)) (p : ℕ) → RootFlat w → RootFlat (rr_slice_over hz gs w p)
    unfolding rr_slice_over
    slice_over-flat w p f =
        let v = set_time_slice w p (rr_timeslice hz) in
        let fv = Untouched-RootFlat (same_queues w v refl refl) f in
        let r = requeue_task_rt false v (task_places gs p) in
        if-flat (some_neighbour v (task_places gs p)) _ v
          (Untouched-RootFlat (Untouched-resched r p) (requeue-flat v p fv)) fv

    tick-flat : (w : World (Rt S)) (p : ℕ) → RootFlat w → RootFlat (task_tick_rt hz gs w p)
    unfolding task_tick_rt
    tick-flat w p f =
        let a = update_curr_rt gs w in
        let b = watchdog_rt hz a p in
        let v = trace_tick b p in
        let fv = Untouched-RootFlat (trace_tick-Untouched b p) (
          Untouched-RootFlat (watchdog-Untouched hz a p)
            (Untouched-RootFlat (update_curr_rt-Untouched gs flat root w) f)) in
        let left : ℕ = dec32 (v.other.time_slice p) in
        let u = set_time_slice v p left in
        let fu = Untouched-RootFlat (same_queues v u refl refl) fv in
        if-flat (not ((task v p).policy == sched_rr)) v _ fv
          (if-flat (left == 0) (rr_slice_over hz gs u p) u (slice_over-flat u p fu) fu)

    Step-flat : {w v : World (Rt S)} → Step hz gs w v → RootFlat w → RootFlat v
    unfolding put_prev_task_rt set_curr_task_rt yield_task_rt
    Step-flat {w} (enqueue p flags level room) f = enqueue-flat w p flags level room f
    Step-flat {w} (dequeue p flags) f = dequeue-flat w p flags f
    Step-flat {w} pick f = Untouched-RootFlat (pick-Untouched gs w) f
    Step-flat {w} (put_prev p) f = Untouched-RootFlat (update_curr_rt-Untouched gs flat root w) f
    Step-flat {w} set_curr f = Untouched-RootFlat (put_task-Untouched w w.kernel.rq.curr _ refl) f
    Step-flat {w} (tick p) f = tick-flat w p f
    Step-flat {w} yield_ f = requeue-flat w w.kernel.rq.curr f
    Step-flat {w} (change p t away) f = change-flat w p t away f
    Step-flat (others v u) f = Untouched-RootFlat u f

    -- Where no task is in another group than the root: in every state that the handlers of the real-time
    -- class can reach, the root queue is consistent (its bit map says which lists have entities, its counter
    -- is their number, and highest_prio is the first set bit), and each list holds tasks of its priority.
    pub Reach-RootFlat : {w : World (Rt S)} → Reach hz gs w → RootFlat w
    Reach-RootFlat (boot w e) = record {
      array = subst IsArray (sym e) init_rt_rq-IsArray;
      placed =
          λ x i h. absurd (cc (boot-empty x i, ap (λ r. holds_entity x (r.queue i)) (sym e) ∙ h));
    }
    Reach-RootFlat (later r s) = Step-flat s (Reach-RootFlat r)
