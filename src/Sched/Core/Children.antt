-- ===== src/Sched/Core/Children.antt =====
-- The class that a forked task gets.
use operating_system_project.Prelude.{◌≤◌, ◌≡◌, ◌≢◌, ◌↔◌, arith, ltb, ◌==◌, if◌then◌else◌}
use operating_system_project.Sched.Task.{Task, sched_ras, fair_class, rt_class}
use operating_system_project.Sched.Core.Policy.{normal_prio, class_for, max_rt_prio}
use operating_system_project.Sched.Core.Switch.{forked}

-- A parent as it stands: its class is that of its policy and priority, a boost only raises the priority,
-- and the static priority is that of a nice value.
pub record IsParent (t : Task) : Type 0 where
  pub classed : t.class ≡ class_for t.policy t.prio
  pub boosted : t.prio ≤ normal_prio t
  pub nice_range : max_rt_prio ≤ t.static_prio

-- The child of a RAS task keeps the policy SCHED_RAS and gets the fair class, with the flag
-- SCHED_RESET_ON_FORK and without it; of no other task has the child that policy, and it gets the real-time class
-- for a real-time priority and the fair class for any other. So a forked task has the class that its policy and
-- priority ask for exactly if its parent's policy is not SCHED_RAS.
pub forked-class :
    (t : Task)
    → IsParent t
    → ((forked (normal_prio t) t).class ≡ (
        if t.policy == sched_ras
        then fair_class
        else if ltb (forked (normal_prio t) t).prio 100
        then rt_class
        else fair_class))
      × (((forked (normal_prio t) t).policy == sched_ras) ≡ (t.policy == sched_ras))
      × (((forked (normal_prio t) t).class
            ≡ class_for (forked (normal_prio t) t).policy (forked (normal_prio t) t).prio)
          ↔ (t.policy ≢ sched_ras))
unfolding forked normal_prio
forked-class t h = (ground arith, ground arith, (λ k. ground arith, λ k. ground arith))
