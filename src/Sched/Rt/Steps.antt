-- ===== src/Sched/Rt/Steps.antt =====
-- The root queue of the real-time class under the handlers of rt_sched_class, where no task is in another
-- group: it stays consistent.
use operating_system_project.Sched.Rt.Bits.{Bitmap, first_bit}
use operating_system_project.Prelude.{
  u64, ℕ, ◌+◌, ◌≡◌, refl, sym, ap, subst, ◌∙◌, Bool, true, false, ◌||◌, [], arith, leb, ◌==◌,
  if◌then◌else◌,
}
use operating_system_project.Sched.Task.{resched_task}
use operating_system_project.Sched.Ras.Class.{delta_exec}
use operating_system_project.Sched.Core.World.{World, task, on_kernel}
use operating_system_project.Sched.Rt.Queues.{
  rt_rq_throttled, holds_entity, Entity, task_entity, group_entity, RtRq, Rt,
}
use operating_system_project.Sched.Rt.Walk.{Groups, rt_rq, set_rt_rq, task_places}
use operating_system_project.Sched.Rt.Bandwidth.{
  runtime_inf, charge, charge_task, update_curr_rt, sched_rt_runtime_exceeded, sched_rt_rq_dequeue,
  resched_if, over_runtime, is_rt,
}
use operating_system_project.Sched.Rt.Array.{IsArray}
use operating_system_project.Sched.Rt.Flat.{Placed, RootFlat, root_place}

-- Two states agree on the array of the root queue and on the tasks' priorities.
pub record Untouched {S : Type 0} ⦃bm : Bitmap⦄ (w v : World (Rt S)) : Type 0 where
  pub prio : (q : ℕ) → (task v q).prio ≡ (task w q).prio
  pub queue : (rt_rq v 0).queue ≡ (rt_rq w 0).queue
  pub bitmap : (rt_rq v 0).bitmap ≡ (rt_rq w 0).bitmap
  pub running : (rt_rq v 0).rt_nr_running ≡ (rt_rq w 0).rt_nr_running
  pub highest : (rt_rq v 0).highest_prio ≡ (rt_rq w 0).highest_prio

Placed-same :
    (f g : ℕ → ℕ) (x : Entity) (i : ℕ) → ((q : ℕ) → g q ≡ f q) → Placed f x i → Placed g x i
Placed-same f g (task_entity p) i e h = (h.0, e p ∙ h.1)
Placed-same f g (group_entity p) i e h = h

IsArray-same :
    ⦃bm : Bitmap⦄ {r s : RtRq}
    → s.queue ≡ r.queue
    → s.bitmap ≡ r.bitmap
    → s.rt_nr_running ≡ r.rt_nr_running
    → s.highest_prio ≡ r.highest_prio
    → IsArray r
    → IsArray s
IsArray-same q b n h v = record {
  bits = λ i lt. rw (q, b) (v.bits i lt);
  delimiter = rw b v.delimiter;
  highest = h ∙ v.highest ∙ ap first_bit (sym b);
  counted = rw (q, n) v.counted;
  small = rw n v.small;
}

pub task_places-root :
    (gs : Groups)
    → ((p : ℕ) → gs.group_of p ≡ 0)
    → gs.above 0 ≡ []
    → (p : ℕ) → task_places gs p ≡ root_place p
task_places-root gs flat root p = rw (flat p, root) refl

module _ {S : Type 0} ⦃bm : Bitmap⦄ where
  pub Untouched-refl : (w : World (Rt S)) → Untouched w w
  Untouched-refl w = record {
    prio = λ q. refl;
    queue = refl;
    bitmap = refl;
    running = refl;
    highest = refl;
  }

  pub Untouched-trans : {u v w : World (Rt S)} → Untouched u v → Untouched v w → Untouched u w
  Untouched-trans a b = record {
    prio = λ q. b.prio q ∙ a.prio q;
    queue = b.queue ∙ a.queue;
    bitmap = b.bitmap ∙ a.bitmap;
    running = b.running ∙ a.running;
    highest = b.highest ∙ a.highest;
  }

  -- A change of other fields of the root queue
  Untouched-set :
      (w : World (Rt S)) (r : RtRq)
      → r.queue ≡ (rt_rq w 0).queue
      → r.bitmap ≡ (rt_rq w 0).bitmap
      → r.rt_nr_running ≡ (rt_rq w 0).rt_nr_running
      → r.highest_prio ≡ (rt_rq w 0).highest_prio
      → Untouched w (set_rt_rq w 0 r)
  Untouched-set w r q b n h = record {
    prio = λ q. refl;
    queue = q;
    bitmap = b;
    running = n;
    highest = h;
  }

  pub Untouched-resched :
      (w : World (Rt S)) (c : ℕ) → Untouched w (on_kernel (λ k. resched_task k c) w)
  unfolding resched_task
  Untouched-resched w c = record {
    prio = λ q. ground arith;
    queue = refl;
    bitmap = refl;
    running = refl;
    highest = refl;
  }

  pub if-Untouched :
      (b : Bool) (w u v : World (Rt S))
      → Untouched w u
      → Untouched w v
      → Untouched w (if b then u else v)
  if-Untouched true w u v h k = h
  if-Untouched false w u v h k = k

  pub Untouched-RootFlat : {w v : World (Rt S)} → Untouched w v → RootFlat w → RootFlat v
  Untouched-RootFlat u f = record {
    array = IsArray-same u.queue u.bitmap u.running u.highest f.array;
    placed = λ x i h.
        Placed-same _ _ x i u.prio
          (f.placed x i (ap (λ l. holds_entity x (l i)) (sym u.queue) ∙ h));
  }

  if-Untouched_pair :
      (b : Bool) (w : World (Rt S)) (u v : Bool × World (Rt S))
      → Untouched w u.1
      → Untouched w v.1
      → Untouched w (if b then u else v).1
  if-Untouched_pair true w u v h k = h
  if-Untouched_pair false w u v h k = k

  resched_if-Untouched :
      (gs : Groups) (w : World (Rt S)) (r : Bool × World (Rt S))
      → Untouched w r.1
      → Untouched w (resched_if gs r)
  resched_if-Untouched gs w (true, v) h = Untouched-trans h (Untouched-resched v v.kernel.rq.curr)
  resched_if-Untouched gs w (false, v) h = h

  over_runtime-Untouched :
      (w : World (Rt S)) (n : ℕ) → Untouched w (set_rt_rq w 0 (over_runtime n (rt_rq w 0)))
  over_runtime-Untouched w n =
      Untouched-set w _ (ground arith) (ground arith) (ground arith) (ground arith)

  charge_task-Untouched :
      (gs : Groups) (w : World (Rt S)) (c d : ℕ) → Untouched w (charge_task gs w c d)
  unfolding charge_task
  charge_task-Untouched gs w c d = record {
    prio = λ q. ground arith;
    queue = refl;
    bitmap = refl;
    running = refl;
    highest = refl;
  }

  module _ (gs : Groups) (flat : (p : ℕ) → gs.group_of p ≡ 0) (root : gs.above 0 ≡ []) where
    sched_rt_rq_dequeue-root : (w : World (Rt S)) → sched_rt_rq_dequeue gs w 0 ≡ w
    unfolding sched_rt_rq_dequeue
    sched_rt_rq_dequeue-root w = rw root refl

    exceeded-Untouched : (w : World (Rt S)) → Untouched w (sched_rt_runtime_exceeded gs w 0).1
    unfolding sched_rt_runtime_exceeded
    exceeded-Untouched w =
        let r = rt_rq w 0 in
        let r' = over_runtime (gs.bandwidth 0) r in
        let v = set_rt_rq w 0 r' in
        let o = over_runtime-Untouched w (gs.bandwidth 0) in
        let d = sched_rt_rq_dequeue gs v 0 in
        if-Untouched_pair r.rt_throttled w (rt_rq_throttled r, w) _ (Untouched-refl w)
          (if-Untouched_pair
            (leb (gs.rt_period 0) r.rt_runtime
              || r.rt_runtime == runtime_inf
              || leb r.rt_time r.rt_runtime)
            w (false, w) _ (Untouched-refl w)
            (if-Untouched_pair (rt_rq_throttled r') w (true, d) (false, v)
              (subst (Untouched w) (sym (sched_rt_rq_dequeue-root v)) o) o))

    charge-Untouched :
        (d : ℕ) (w : World (Rt S)) (p : ℕ) → Untouched w (charge gs d w (root_place p))
    unfolding charge
    charge-Untouched d w p =
        let r = rt_rq w 0 in
        let v = set_rt_rq w 0 (record r { rt_time = u64 (r.rt_time + d) }) in
        if-Untouched (r.rt_runtime == runtime_inf) w w _ (Untouched-refl w) (
          Untouched-trans (Untouched-set w _ refl refl refl refl)
            (resched_if-Untouched gs v (sched_rt_runtime_exceeded gs v 0) (exceeded-Untouched v)))

    pub update_curr_rt-Untouched : (w : World (Rt S)) → Untouched w (update_curr_rt gs w)
    unfolding update_curr_rt
    update_curr_rt-Untouched w =
        let c : ℕ = w.kernel.rq.curr in
        let d : ℕ = delta_exec w.kernel.rq.clock_task (task w c).exec_start in
        let v = charge_task gs w c d in
        let t = charge_task-Untouched gs w c d in
        if-Untouched (is_rt (task w c).class) w _ w
          (if-Untouched gs.bandwidth_enabled w (charge gs d v (task_places gs c)) v
            (rw (task_places-root gs flat root c) (Untouched-trans t (charge-Untouched d v c))) t)
          (Untouched-refl w)
