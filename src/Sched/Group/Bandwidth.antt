-- ===== src/Sched/Group/Bandwidth.antt =====
-- The real-time bandwidth of the task groups in goldfish/kernel/sched/core.c: tg_rt_schedulable,
-- tg_set_rt_bandwidth and the calls around it. The locks are left out, and a ktime is its nanoseconds. There
-- is one processor.
use operating_system_project.Prelude.{
  ℕ, suc, ◌+◌, ◌-◌, ◌*◌, ◌/◌, ◌^◌, Bool, true, false, not, ◌&&◌, ◌||◌, Option, none, some, List, [],
  ◌∷◌, ltb, ◌==◌, if◌then◌else◌, update,
}
use operating_system_project.Prelude.{ℤ, pos, negsuc, u32, u64}
use operating_system_project.Sched.Core.Policy.{einval}
use operating_system_project.Sched.Rt.Bandwidth.{runtime_inf}
use operating_system_project.Sched.Group.Tree.{
  Group, Siblings, none_left, then_group, number, children, is_zero, tg_nop, walk_tg_tree_from,
}

-- -EBUSY
abbrev pub ebusy : ℤ
ebusy = negsuc 15

-- A task of the system: rt_task
pub record Thread : Type 0 where
  pub rt_task : Bool

-- The groups under root_task_group with the period and the runtime of each one's bandwidth and the runtime of
-- its queue, the tasks, sysctl_sched_rt_period and sysctl_sched_rt_runtime, and def_rt_bandwidth
pub record RtGroups : Type 0 where
  pub root : Group
  pub period : ℕ → ℕ
  pub runtime : ℕ → ℕ
  pub queue_runtime : ℕ → ℕ
  pub threads : List Thread
  pub sysctl_period : ℤ
  pub sysctl_runtime : ℤ
  pub def_period : ℕ
  pub def_runtime : ℕ

-- `struct rt_schedulable_data`, where a missing group is NULL
pub record RtSchedulableData : Type 0 where
  pub tg : Option ℕ
  pub rt_period : ℕ
  pub rt_runtime : ℕ

-- A u64 from microseconds in a long, in nanoseconds
abbrev pub nanoseconds : ℤ → ℕ
nanoseconds (pos n) = u64 (n * 1000)
nanoseconds (negsuc n) = u64 ((2 ^ 64 - suc n) * 1000)

-- global_rt_period and global_rt_runtime
abbrev pub global_rt_period : RtGroups → ℕ
global_rt_period s = nanoseconds s.sysctl_period

abbrev pub runtime_or_inf : ℤ → ℕ
runtime_or_inf (pos n) = u64 (n * 1000)
runtime_or_inf (negsuc n) = runtime_inf

abbrev pub global_rt_runtime : RtGroups → ℕ
global_rt_runtime s = runtime_or_inf s.sysctl_runtime

abbrev pub is_below : ℤ → Bool
is_below (pos n) = false
is_below (negsuc n) = true

-- rt_bandwidth_enabled
abbrev pub rt_bandwidth_enabled : RtGroups → Bool
rt_bandwidth_enabled s = not (is_below s.sysctl_runtime)

-- to_ratio, whose value is an unsigned long; no period is 0.
unfoldable pub to_ratio : ℕ → ℕ → ℕ
to_ratio period runtime =
    if runtime == runtime_inf then 2 ^ 20 else u32 (u64 (runtime * 2 ^ 20) / period)

-- tg_has_rt_tasks. `task_rq(p)->rt` is the processor's own queue for every task, and its group is root_task_group,
-- whatever group the task is in.
unfoldable pub tg_has_rt_tasks : ℕ → List Thread → ℕ → Bool
tg_has_rt_tasks root [] g = false
tg_has_rt_tasks root (t ∷ ts) g = (t.rt_task && root == g) || tg_has_rt_tasks root ts g

-- The value of a group, or the one that is asked for
abbrev pub asked : (ℕ → ℕ) → Option ℕ → ℕ → ℕ → ℕ
asked f none new = f
asked f (some g) new = update f g new

abbrev pub period_of : RtGroups → RtSchedulableData → ℕ → ℕ
period_of s d = asked s.period d.tg d.rt_period

abbrev pub runtime_of : RtGroups → RtSchedulableData → ℕ → ℕ
runtime_of s d = asked s.runtime d.tg d.rt_runtime

-- The loop over the children in tg_rt_schedulable, with `sum` an unsigned long
unfoldable pub sum_ratios : (ℕ → ℕ) → (ℕ → ℕ) → ℕ → Siblings → ℕ
sum_ratios period runtime sum none_left = sum
sum_ratios period runtime sum (then_group t ts) =
    sum_ratios period runtime (u32 (sum + to_ratio (period (number t)) (runtime (number t)))) ts

-- tg_rt_schedulable
unfoldable pub tg_rt_schedulable : RtGroups → RtSchedulableData → Group → ℤ
unfolding to_ratio tg_has_rt_tasks sum_ratios
tg_rt_schedulable s d t =
    let period = period_of s d in
    let runtime = runtime_of s d in
    let g : ℕ = number t in
    let total : ℕ = to_ratio (period g) (runtime g) in
    if ltb (period g) (runtime g) && not (runtime g == runtime_inf)
    then einval
    else if rt_bandwidth_enabled s && runtime g == 0 && tg_has_rt_tasks (number s.root) s.threads g
    then ebusy
    else if ltb (to_ratio (global_rt_period s) (global_rt_runtime s)) total
    then einval
    else if ltb total (sum_ratios period runtime 0 (children t))
    then einval
    else pos 0

abbrev pub returned : Option (ℤ × Unit {0}) → Option ℤ
returned none = none
returned (some (r, u)) = some r

-- __rt_schedulable: the walk from root_task_group
unfoldable pub rt_schedulable : RtGroups → RtSchedulableData → Option ℤ
unfolding tg_rt_schedulable walk_tg_tree_from
rt_schedulable s d =
    returned (walk_tg_tree_from (λ t u. (tg_rt_schedulable s d t, u)) tg_nop s.root tt)

-- What tg_set_rt_bandwidth stores
abbrev pub with_bandwidth : RtGroups → ℕ → ℕ → ℕ → RtGroups
with_bandwidth s g period runtime = record s {
  period = update s.period g period;
  runtime = update s.runtime g runtime;
  queue_runtime = update s.queue_runtime g runtime;
}

abbrev pub unless_refused : RtGroups → Option ℤ → RtGroups → Option (ℤ × RtGroups)
unless_refused s none s' = none
unless_refused s (some r) s' = if is_zero r then some (r, s') else some (r, s)

-- tg_set_rt_bandwidth
unfoldable pub tg_set_rt_bandwidth : RtGroups → ℕ → ℕ → ℕ → Option (ℤ × RtGroups)
unfolding rt_schedulable
tg_set_rt_bandwidth s g period runtime =
    unless_refused s
      (rt_schedulable s (record { tg = some g; rt_period = period; rt_runtime = runtime }))
      (with_bandwidth s g period runtime)

-- sched_group_set_rt_runtime
unfoldable pub sched_group_set_rt_runtime : RtGroups → ℕ → ℤ → Option (ℤ × RtGroups)
unfolding tg_set_rt_bandwidth
sched_group_set_rt_runtime s g us = tg_set_rt_bandwidth s g (s.period g) (runtime_or_inf us)

-- sched_group_set_rt_period
unfoldable pub sched_group_set_rt_period : RtGroups → ℕ → ℤ → Option (ℤ × RtGroups)
unfolding tg_set_rt_bandwidth
sched_group_set_rt_period s g us =
    if nanoseconds us == 0
    then some (einval, s)
    else tg_set_rt_bandwidth s g (nanoseconds us) (s.runtime g)

-- A long of 32 bits from an unsigned value
abbrev pub long_of : ℕ → ℤ
long_of n = let low : ℕ = u32 n in if ltb low (2 ^ 31) then pos low else negsuc (2 ^ 32 - 1 - low)

-- sched_group_rt_runtime and sched_group_rt_period
unfoldable pub sched_group_rt_runtime : RtGroups → ℕ → ℤ
sched_group_rt_runtime s g =
    if s.runtime g == runtime_inf then negsuc 0 else long_of (s.runtime g / 1000)

unfoldable pub sched_group_rt_period : RtGroups → ℕ → ℤ
sched_group_rt_period s g = long_of (s.period g / 1000)

-- sched_rt_global_constraints
unfoldable pub sched_rt_global_constraints : RtGroups → Option ℤ
unfolding rt_schedulable
sched_rt_global_constraints s =
    let runtime : ℕ = global_rt_runtime s in
    if is_below s.sysctl_period || is_zero s.sysctl_period
    then some einval
    else if ltb (global_rt_period s) runtime && not (runtime == runtime_inf)
    then some einval
    else rt_schedulable s (record { tg = none; rt_period = 0; rt_runtime = 0 })

-- What sched_rt_handler keeps of the settings that were written
abbrev pub settle : RtGroups → RtGroups → Option ℤ → Option (ℤ × RtGroups)
settle old s none = none
settle old s (some r) =
    if is_zero r
    then some (r, record s { def_runtime = global_rt_runtime s; def_period = global_rt_period s })
    else some
        (r, record s { sysctl_period = old.sysctl_period; sysctl_runtime = old.sysctl_runtime })

-- sched_rt_handler, for what proc_dointvec returns and leaves in the two variables
unfoldable pub sched_rt_handler : RtGroups → Bool → ℤ → ℤ → ℤ → Option (ℤ × RtGroups)
unfolding sched_rt_global_constraints
sched_rt_handler s write ret period runtime =
    let s' = record s { sysctl_period = period; sysctl_runtime = runtime } in
    if is_zero ret && write then settle s s' (sched_rt_global_constraints s') else some (ret, s')

-- sched_rt_can_attach, for a task that rt_task tells
unfoldable pub sched_rt_can_attach : RtGroups → ℕ → Bool → Bool
sched_rt_can_attach s g rt_task = not (rt_task && s.runtime g == 0)
