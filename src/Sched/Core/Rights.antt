-- ===== src/Sched/Core/Rights.antt =====
-- What a caller without CAP_SYS_NICE can do by sched_setscheduler.
use operating_system_project.Prelude.{
  ℕ, ◌+◌, ◌-◌, ◌≤◌, ◌<◌, ◌≡◌, refl, sym, ap, subst, ◌∙◌, ◌≢◌, ◌⊎◌, Bool, true, false, not, ◌&&◌,
  Option, some, arith, if◌then◌else◌,
}
use operating_system_project.Prelude.{ℤ, pos}
use operating_system_project.Sched.Task.{Task}
use operating_system_project.Sched.Core.World.{World, Env, task}
use operating_system_project.Sched.Core.Policy.{
  Caller, setscheduler, unless_refused, refusal, einval, eperm, forbids, can_nice, check_same_owner,
  reset_flag, asked_policy, asked_reset,
}
use operating_system_project.Sched.Core.Calls.{
  holds, find_process_by_pid, set_found, do_sched_setscheduler, sys_sched_setscheduler,
}

-- The rights to give the task p, which stands as t, a policy and a priority with the flag or without it
pub record Granted (c : Caller) (p : ℕ) (t : Task) (policy prio : ℕ) (reset : Bool) : Type 0 where
  pub same_namespace : (c.cred c.current).user_ns ≡ (c.cred p).user_ns
  pub owner :
      ((c.cred c.current).euid ≡ (c.cred p).euid) ⊎ ((c.cred c.current).euid ≡ (c.cred p).uid)
  pub flag_stays : (t.reset_on_fork ≡ false) ⊎ (reset ≡ true)
  pub real_time :
      ((policy ≢ 1) × (policy ≢ 2))
      ⊎ (((policy ≡ t.policy) ⊎ (0 < c.rlim_rtprio p))
          × ((prio ≤ t.rt_priority) ⊎ (prio ≤ c.rlim_rtprio p)))
  pub from_idle : (t.policy ≢ 5) ⊎ ((policy ≡ 5) ⊎ (140 - t.static_prio ≤ c.rlim_nice p))

plainly : (capable f : Bool) → capable ≡ false → (not capable && f) ≡ false → f ≡ false
plainly capable f h k = ground arith

asked-with_flag :
    (n : ℕ) (reset : Bool) (t : Task)
    → n < reset_flag
    → (asked_policy (pos (n + (if reset then reset_flag else 0))) t ≡ n)
      × (asked_reset (pos (n + (if reset then reset_flag else 0))) t ≡ reset)
asked-with_flag n true t h = (ground arith, ground arith)
asked-with_flag n false t h = (ground arith, ground arith)

forbids-Granted :
    (c : Caller) (p : ℕ) (t : Task) (policy prio : ℕ) (reset : Bool)
    → c.capable ≡ false
    → forbids c p t policy prio reset ≡ false
    → Granted c p t policy prio reset
unfolding forbids can_nice check_same_owner
forbids-Granted c p t policy prio reset plain h = record {
  same_namespace = ground arith;
  owner = ground arith;
  flag_stays = ground arith;
  real_time = ground arith;
  from_idle = ground arith;
}

module _ {S : Type 0} (e : Env S) (find : ℕ → Option ℕ) (c : Caller) (w : World S) (p : ℕ) where
  passed :
      (a b f : Bool) (rest : Option ℤ) (w' : World S)
      → (unless_refused e w w'
          (if a then some einval else if b then some einval else if f then some eperm else rest)).0
        ≡ pos 0
      → f ≡ false
  passed true b f rest w' h = absurd (ground arith)
  passed false true f rest w' h = absurd (ground arith)
  passed false false true rest w' h = absurd (ground arith)
  passed false false false rest w' h = refl

  refusal-forbids :
      (policy : ℤ) (prio : ℕ) (w' : World S)
      → c.capable ≡ false
      → (unless_refused e w w' (refusal e c w p policy (pos prio) true)).0 ≡ pos 0
      → forbids c p (task w p) (asked_policy policy (task w p)) prio (asked_reset policy (task w p))
        ≡ false
  unfolding refusal
  refusal-forbids policy prio w' plain h =
      let f =
        forbids c p (task w p) (asked_policy policy (task w p)) prio
          (asked_reset policy (task w p)) in
      plainly c.capable f plain (passed _ _ (not c.capable && f) _ w' h)

  -- Where sched_setscheduler returns 0 to a caller without CAP_SYS_NICE, for a policy with the flag
  -- SCHED_RESET_ON_FORK or without it: the caller's effective user is the task's effective or real user, in the
  -- same namespace; the flag is not taken back; for a real-time policy the priority is not above both the task's
  -- own and its limit, and a task that had another policy has a limit other than 0; and a task leaves
  -- SCHED_IDLE only within its limit for nice values.
  pub setscheduler-Granted :
      (pid n prio : ℕ) (reset : Bool)
      → n < reset_flag
      → find_process_by_pid find c pid ≡ some p
      → c.capable ≡ false
      → (sys_sched_setscheduler e find c w
          (pos pid)
          (pos (n + (if reset then reset_flag else 0)))
          (holds (pos prio))).0
        ≡ pos 0
      → Granted c p (task w p) n prio reset
  unfolding sys_sched_setscheduler do_sched_setscheduler setscheduler
  setscheduler-Granted pid n prio reset small found plain ok =
      let asked = asked-with_flag n reset (task w p) small in
      let policy = pos (n + (if reset then reset_flag else 0)) in
      let allowed =
        refusal-forbids policy prio _ plain (
          subst (λ (o : Option ℕ). (set_found e find c w o policy (pos prio)).0 ≡ pos 0) found
            ok) in
      forbids-Granted c p (task w p) n prio reset plain (
        ap (λ (m : ℕ). forbids c p (task w p) m prio reset) (sym asked.0)
        ∙ ap (λ (b : Bool). forbids c p (task w p) (asked_policy policy (task w p)) prio b)
            (sym asked.1)
        ∙ allowed)
