-- ===== src/Sched/Core/Readback.antt =====
-- What sched_getscheduler and sched_getparam read after sched_setscheduler.
use operating_system_project.Sched.Core.Ranges.{MayChange}
use operating_system_project.Prelude.{
  ℕ, ◌+◌, ◌*◌, ◌<◌, ◌≡◌, refl, sym, ap, subst, ◌∙◌, Bool, true, false, Option, none, some, arith,
  ◌==◌, if◌then◌else◌,
}
use operating_system_project.Prelude.{ℤ, pos}
use operating_system_project.Sched.Task.{Class, Task, set_task_self}
use operating_system_project.Sched.Core.World.{World, Env, task, put_task}
use operating_system_project.Sched.Core.Policy.{
  rt_policy, is_policy, Caller, reset_flag, same_setting, asked_policy, asked_reset, setscheduler,
  unless_refused, refusal, change_policy, set_policy, take_off,
}
use operating_system_project.Sched.Core.Calls.{
  holds, find_process_by_pid, do_sched_setscheduler, sys_sched_setscheduler, sys_sched_getscheduler,
  sys_sched_getparam,
}
use operating_system_project.Sched.Core.Settings.{Kept, KeepsSettings, put_back-KeptAll}

-- The settings of a task are a policy, a real-time priority and a flag.
pub record Has (t : Task) (n prio : ℕ) (reset : Bool) : Type 0 where
  pub policy : t.policy ≡ n
  pub rt_priority : t.rt_priority ≡ prio
  pub reset_on_fork : t.reset_on_fork ≡ reset

Kept-Has :
    {t u : Task} {n prio : ℕ} {reset : Bool} → Kept t u → Has t n prio reset → Has u n prio reset
Kept-Has k h = record {
  policy = k.policy ∙ h.policy;
  rt_priority = k.rt_priority ∙ h.rt_priority;
  reset_on_fork = k.reset_on_fork ∙ h.reset_on_fork;
}

policy_value-asked :
    (m : ℕ) (t : Task)
    → m < 2 * reset_flag
    → asked_policy (pos m) t + (if asked_reset (pos m) t then reset_flag else 0) ≡ m
policy_value-asked m t h = ground arith

set_policy-Has :
    {S : Type 0} (e : Env S) (t : Task) (n prio : ℕ)
    → Has (set_policy e t n prio) n prio t.reset_on_fork
unfolding set_policy
set_policy-Has e t n prio = record { policy = refl; rt_priority = refl; reset_on_fork = refl }

module _ {S : Type 0} (e : Env S) where
  change_policy-Has :
      ((c : Class) → KeepsSettings (e.rows c))
      → (w : World S) (p n prio : ℕ) (reset : Bool)
      → Has (task (change_policy e w p n prio reset) p) n prio reset
  unfolding change_policy
  change_policy-Has keeps w p n prio reset =
      let v = take_off e w p in
      let t = record (task v p) { reset_on_fork = reset } in
      let s = set_policy e t n prio in
      Kept-Has
        (put_back-KeptAll e keeps (put_task v p s) p (task w p).on_rq (w.kernel.rq.curr == p) 0
          t.class t.prio p)
        (subst (λ u. Has u n prio reset) (sym (set_task_self v.kernel p s))
          (set_policy-Has e t n prio))

  module _ (find : ℕ → Option ℕ) (c : Caller) (w : World S) (pid p : ℕ) where
    -- The state behind a call of sched_setscheduler
    abbrev pub behind : ℕ → ℕ → World S
    behind m prio = (sys_sched_setscheduler e find c w (pos pid) (pos m) (holds (pos prio))).1

    abbrev pub Returns : ℕ → ℕ → ℤ → Type 0
    Returns m prio r =
        (sys_sched_setscheduler e find c w (pos pid) (pos m) (holds (pos prio))).0 ≡ r

    -- refusal returns nothing but errors, the security module's answer, and 0 for a call with nothing to
    -- change.
    refusal-none :
        (m prio : ℕ) (w' : World S)
        → c.security_set p ≡ pos 0
        → same_setting (task w p) (asked_policy (pos m) (task w p)) prio ≡ false
        → (unless_refused e w w' (refusal e c w p (pos m) (pos prio) true)).0 ≡ pos 0
        → refusal e c w p (pos m) (pos prio) true ≡ none
    unfolding refusal
    refusal-none m prio w' sec new h = ground arith

    -- The state that the change of policy leaves
    abbrev pub changed : ℕ → ℕ → World S
    changed m prio =
        let t = task w p in
        e.adjust_pi (change_policy e w p (asked_policy (pos m) t) prio (asked_reset (pos m) t)) p

    call_lem :
        (m prio : ℕ)
        → find_process_by_pid find c pid ≡ some p
        → sys_sched_setscheduler e find c w (pos pid) (pos m) (holds (pos prio))
          ≡ unless_refused e w (changed m prio) (refusal e c w p (pos m) (pos prio) true)
    unfolding sys_sched_setscheduler do_sched_setscheduler setscheduler
    call_lem m prio found = rw found refl

    -- Where a call of sched_setscheduler that changes something returns 0, the task then has what it asked
    -- for.
    behind-Has :
        ((c' : Class) → KeepsSettings (e.rows c'))
        → (m prio : ℕ) → find_process_by_pid find c pid ≡ some p
        → ((v : World S) → Kept (task v p) (task (e.adjust_pi v p) p))
        → c.security_set p ≡ pos 0
        → same_setting (task w p) (asked_policy (pos m) (task w p)) prio ≡ false
        → Returns m prio (pos 0)
        → Has
            (task (behind m prio) p)
            (asked_policy (pos m) (task w p))
            prio
            (asked_reset (pos m) (task w p))
    behind-Has keeps m prio found alone sec new h =
        let t = task w p in
        let l = call_lem m prio found in
        let r =
          refusal-none m prio (changed m prio) sec new
            (ap (λ (x : ℤ × World S). x.0) (sym l) ∙ h) in
        let b = l ∙ ap (unless_refused e w (changed m prio)) r in
        subst (λ x. Has (task x p) (asked_policy (pos m) t) prio (asked_reset (pos m) t))
          (sym (ap (λ (x : ℤ × World S). x.1) b))
          (Kept-Has (alone _)
            (change_policy-Has keeps w p (asked_policy (pos m) t) prio (asked_reset (pos m) t)))

    -- Let sched_setscheduler be called with a policy, with the flag SCHED_RESET_ON_FORK or without, and a
    -- priority; let the security module allow it, the task be blocked on no lock (rt_mutex_adjust_pi leaves
    -- its settings alone), and the other classes' handlers keep settings. If the call returns 0 and the task
    -- did not have the policy and priority before, then sched_getscheduler returns the policy with the flag
    -- and sched_getparam gives the priority.
    pub getscheduler-setscheduler :
        ((c' : Class) → KeepsSettings (e.rows c'))
        → (m prio : ℕ) → m < 2 * reset_flag
        → find_process_by_pid find c pid ≡ some p
        → ((v : World S) → Kept (task v p) (task (e.adjust_pi v p) p))
        → c.security_set p ≡ pos 0
        → c.security_get p ≡ pos 0
        → same_setting (task w p) (asked_policy (pos m) (task w p)) prio ≡ false
        → Returns m prio (pos 0)
        → (sys_sched_getscheduler e find c (behind m prio) (pos pid) ≡ pos m)
          × (sys_sched_getparam e find c (behind m prio) (pos pid) (some true) ≡ (pos 0, some prio))
    unfolding sys_sched_getscheduler sys_sched_getparam
    getscheduler-setscheduler keeps m prio small found alone set get new h =
        let b = behind-Has keeps m prio found alone set new h in
        rw found (
          rw get (
            rw (b.policy, b.reset_on_fork) (ap pos (policy_value-asked m (task w p) small)),
            rw b.rt_priority refl,
          ))

    refusal-same :
        (n : ℕ)
        → (task w p).policy ≡ n
        → is_policy n ≡ true
        → rt_policy n ≡ false
        → MayChange e find c w p
        → refusal e c w p (pos (n + reset_flag)) (pos 0) true ≡ some (pos 0)
    unfolding refusal
    refusal-same n a b d (h1, h2, h3, h4) = ground arith

    -- A call that asks for the policy that a task has, without a real-time policy, and for the flag
    -- SCHED_RESET_ON_FORK, which the task does not have: with CAP_SYS_NICE and no objection it returns 0, and
    -- sched_getscheduler then returns the policy without the flag.
    pub setscheduler-loses_flag :
        (n : ℕ)
        → (task w p).policy ≡ n
        → is_policy n ≡ true
        → rt_policy n ≡ false
        → (task w p).reset_on_fork ≡ false
        → find_process_by_pid find c pid ≡ some p
        → MayChange e find c w p
        → c.security_get p ≡ pos 0
        → Returns (n + reset_flag) 0 (pos 0)
          × (sys_sched_getscheduler e find c (behind (n + reset_flag) 0) (pos pid) ≡ pos n)
    unfolding sys_sched_getscheduler
    setscheduler-loses_flag n a b d f found may get =
        let r = refusal-same n a b d may in
        let l =
          call_lem (n + reset_flag) 0 found
          ∙ ap (unless_refused e w (changed (n + reset_flag) 0)) r in
        (
          ap (λ (x : ℤ × World S). x.0) l,
          rw found (rw (get, ap (λ (x : ℤ × World S). x.1) l, f, a) (ap pos (omega arith))),
        )
