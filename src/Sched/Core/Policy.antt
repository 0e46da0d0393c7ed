-- ===== src/Sched/Core/Policy.antt =====
-- The change of a task's policy in goldfish/kernel/sched/core.c: normal_prio,
-- __setscheduler, check_same_owner, can_nice, __sched_setscheduler and rt_mutex_setprio.
-- Between the checks and the run queue's lock no other code runs on the one processor, so that the
-- recheck under the lock meets the policy that it met before.
use operating_system_project.Prelude.{
  ℕ, ◌-◌, ◌/◌, ◌%◌, Bool, false, not, ◌&&◌, ◌||◌, Option, none, some, ltb, leb, ◌==◌, if◌then◌else◌,
}
use operating_system_project.Prelude.{ℤ, pos, negsuc, is_negative, pos_part}
use operating_system_project.Sched.Task.{
  Class, rt_class, ras_class, fair_class, Task, sched_normal, sched_fifo, sched_rr, sched_batch,
  sched_idle, sched_ras, enqueue_head,
}
use operating_system_project.Sched.Core.World.{
  World, task, put_task, Env, handlers, enqueue_task, dequeue_task, check_class_changed,
}

-- -EPERM, -ESRCH, -EFAULT and -EINVAL
abbrev pub eperm : ℤ
eperm = negsuc 0

abbrev pub esrch : ℤ
esrch = negsuc 2

abbrev pub efault : ℤ
efault = negsuc 13

abbrev pub einval : ℤ
einval = negsuc 21

abbrev pub max_rt_prio : ℕ
max_rt_prio = 100

abbrev pub rt_policy : ℕ → Bool
rt_policy policy = policy == sched_fifo || policy == sched_rr

abbrev pub rt_prio : ℕ → Bool
rt_prio prio = ltb prio max_rt_prio

-- normal_prio
unfoldable pub normal_prio : Task → ℕ
normal_prio t = if rt_policy t.policy then max_rt_prio - 1 - t.rt_priority else t.static_prio

-- The class of a task by its policy and its priority.
abbrev pub class_for : ℕ → ℕ → Class
class_for policy prio =
    if policy == sched_ras then ras_class else if rt_prio prio then rt_class else fair_class

-- SCHED_RESET_ON_FORK, bit 30 of the policy argument
abbrev pub reset_flag : ℕ
reset_flag = 0x40000000

abbrev pub has_reset : ℕ → Bool
has_reset n = n / reset_flag % 2 == 1

-- The policy and the flag that are asked for; a negative policy keeps both.
abbrev pub asked_policy : ℤ → Task → ℕ
asked_policy (negsuc n) t = t.policy
asked_policy (pos n) t = if has_reset n then n - reset_flag else n

abbrev pub asked_reset : ℤ → Task → Bool
asked_reset (negsuc n) t = t.reset_on_fork
asked_reset (pos n) t = has_reset n

abbrev pub is_policy : ℕ → Bool
is_policy n =
    n == sched_fifo
    || n == sched_rr
    || n == sched_normal
    || n == sched_batch
    || n == sched_idle
    || n == sched_ras

-- `param->sched_priority` out of range for the task, or not zero exactly if the policy is real-time
abbrev pub bad_priority : ℤ → ℕ → Task → Bool
bad_priority prio policy t =
    is_negative prio
    || (t.has_mm && ltb (max_rt_prio - 1) (pos_part prio))
    || (not t.has_mm && ltb (max_rt_prio - 1) (pos_part prio))
    || (if rt_policy policy then pos_part prio == 0 else not (pos_part prio == 0))

-- `struct cred`
pub record Cred : Type 0 where
  pub user_ns : ℕ
  pub uid : ℕ
  pub euid : ℕ

-- Who calls: the credentials, CAP_SYS_NICE, the limits of the tasks and the security module's answers.
pub record Caller : Type 0 where
  pub current : ℕ
  pub cred : ℕ → Cred
  pub capable : Bool
  pub rlim_rtprio : ℕ → ℕ
  pub rlim_nice : ℕ → ℕ
  pub security_set : ℕ → ℤ
  pub security_get : ℕ → ℤ

-- check_same_owner
unfoldable pub check_same_owner : Caller → ℕ → Bool
check_same_owner c p =
    let me = c.cred c.current in
    let it = c.cred p in me.user_ns == it.user_ns && (me.euid == it.euid || me.euid == it.uid)

-- can_nice, for the nice value `static_prio - 120` that the task has
unfoldable pub can_nice : Caller → ℕ → Task → Bool
can_nice c p t = leb (140 - t.static_prio) (c.rlim_nice p) || c.capable

-- The block behind `if (user && !capable(CAP_SYS_NICE))`
unfoldable pub forbids : Caller → ℕ → Task → ℕ → ℕ → Bool → Bool
unfolding can_nice check_same_owner
forbids c p t policy prio reset =
    (rt_policy policy
      && ((not (policy == t.policy) && c.rlim_rtprio p == 0)
          || (ltb t.rt_priority prio && ltb (c.rlim_rtprio p) prio)))
    || (t.policy == sched_idle && not (policy == sched_idle) && not (can_nice c p t))
    || not (check_same_owner c p)
    || (t.reset_on_fork && not reset)

abbrev pub is_zero : ℤ → Bool
is_zero (pos n) = n == 0
is_zero (negsuc n) = false

-- Nothing would change.
abbrev pub same_setting : Task → ℕ → ℕ → Bool
same_setting t policy prio = policy == t.policy && (not (rt_policy policy) || prio == t.rt_priority)

module _ {S : Type 0} (e : Env S) where
  -- __setscheduler
  unfoldable pub set_policy : Task → ℕ → ℕ → Task
  unfolding normal_prio
  set_policy t policy prio =
      let t1 = record t { policy = policy; rt_priority = prio } in
      let t2 = record t1 { normal_prio = normal_prio t1 } in
      let prio' : ℕ = e.getprio t2 in record t2 { prio = prio'; class = class_for policy prio' }

  -- The task leaves its queue and gives up the processor.
  unfoldable pub take_off : World S → ℕ → World S
  unfolding dequeue_task
  take_off w p =
      let w1 = if (task w p).on_rq then dequeue_task e w p 0 else w in
      if w.kernel.rq.curr == p then (handlers e (task w1 p).class).put_prev w1 p else w1

  -- It takes the processor and enters its queue again, as `queued` and `running` say.
  unfoldable pub put_back : World S → ℕ → Bool → Bool → ℕ → Class → ℕ → World S
  unfolding enqueue_task check_class_changed
  put_back w p queued running flags prev old =
      let w1 = if running then (handlers e (task w p).class).set_curr w else w in
      let w2 = if queued then enqueue_task e w1 p flags else w1 in
      check_class_changed e w2 p prev old

  -- The change of policy under the lock
  unfoldable pub change_policy : World S → ℕ → ℕ → ℕ → Bool → World S
  unfolding set_policy take_off put_back
  change_policy w p policy prio reset =
      let v = take_off w p in
      let t = record (task v p) { reset_on_fork = reset } in
      put_back (put_task v p (set_policy t policy prio)) p (task w p).on_rq (w.kernel.rq.curr == p)
        0 t.class t.prio

  -- The checks in front of the change, as the value to return, if it is to return one.
  unfoldable pub refusal : Caller → World S → ℕ → ℤ → ℤ → Bool → Option ℤ
  unfolding forbids
  refusal c w p policy prio user =
      let t = task w p in
      let n : ℕ = asked_policy policy t in
      if not (is_negative policy) && not (is_policy n)
      then some einval
      else if bad_priority prio n t
      then some einval
      else if user && not c.capable && forbids c p t n (pos_part prio) (asked_reset policy t)
      then some eperm
      else if user && not (is_zero (c.security_set p))
      then some (c.security_set p)
      else if e.is_stop p
      then some einval
      else if same_setting t n (pos_part prio)
      then some (pos 0)
      else if user && e.no_rt_runtime w p && rt_policy n
      then some eperm
      else none

  abbrev pub unless_refused : World S → World S → Option ℤ → ℤ × World S
  unless_refused w w' (some r) = (r, w)
  unless_refused w w' none = (pos 0, w')

  -- __sched_setscheduler
  unfoldable pub setscheduler : Caller → World S → ℕ → ℤ → ℤ → Bool → ℤ × World S
  setscheduler c w p policy prio user =
      let t = task w p in
      unless_refused w
        (e.adjust_pi
          (change_policy w p (asked_policy policy t) (pos_part prio) (asked_reset policy t)) p)
        (refusal c w p policy prio user)

  -- rt_mutex_setprio
  unfoldable pub rt_mutex_setprio : World S → ℕ → ℕ → World S
  rt_mutex_setprio w p prio =
      let v = take_off w p in
      let t = task v p in
      let t' = record t { class = class_for t.policy prio; prio = prio } in
      let old = (task w p).prio in
      if e.is_idle p
      then w
      else put_back (put_task v p t') p (task w p).on_rq (w.kernel.rq.curr == p)
          (if ltb old prio then enqueue_head else 0) (task w p).class old
