-- ===== src/Sched/Group/Tests.antt =====
-- Runs of the walk over the task groups and of the settings of their bandwidth.
use operating_system_project.Prelude.{
  ℕ, ◌≡◌, refl, true, false, some, List, [], ◌∷◌, ◌++◌, arith, ◌==◌, if◌then◌else◌,
}
use operating_system_project.Prelude.{ℤ, pos, negsuc}
use operating_system_project.Sched.Group.Tree.{
  Group, group, none_left, then_group, number, walk_tg_tree_from, size,
}
use operating_system_project.Sched.Group.Bandwidth.{
  tg_has_rt_tasks, sum_ratios, to_ratio, tg_rt_schedulable, rt_schedulable, RtGroups,
  with_bandwidth, tg_set_rt_bandwidth, sched_rt_can_attach, sched_group_rt_runtime,
  sched_group_rt_period,
}
use operating_system_project.Sched.Group.Checks.{AllGroups, IsNarrow}
use operating_system_project.Sched.Group.Fits.{verdict-all_fit}
use operating_system_project.Sched.Group.Walks.{visit_tree, walk_tg_tree_from-visit_tree}
use operating_system_project.Sched.Group.Settings.{
  IsSchedulable, Settled, no_request, tg_set_rt_bandwidth-Settled,
}
use operating_system_project.Sched.Group.Sessions.{Setting, Served, all_called, all_called-Served}

-- The root with the groups 1 and 2, and the group 3 under the group 1
abbrev four_groups : Group
four_groups = group 0 (
    then_group (group 1 (then_group (group 3 none_left) none_left))
      (then_group (group 2 none_left) none_left))

abbrev entered : Group → List ℕ → ℤ × List ℕ
entered t seen = (pos 0, seen ++ number t ∷ [])

-- The order of the visits, and one that stops at the group 3
walked :
    walk_tg_tree_from entered entered four_groups []
    ≡ some (pos 0, 0 ∷ 1 ∷ 3 ∷ 3 ∷ 1 ∷ 2 ∷ 2 ∷ 0 ∷ [])
unfolding walk_tg_tree_from size
walked = refl

abbrev refused_at_3 : Group → List ℕ → ℤ × List ℕ
refused_at_3 t seen = (if number t == 3 then negsuc 21 else pos 0, seen ++ number t ∷ [])

walked_until :
    walk_tg_tree_from refused_at_3 entered four_groups [] ≡ some (negsuc 21, 0 ∷ 1 ∷ 3 ∷ [])
unfolding walk_tg_tree_from size
walked_until = refl

walk_tg_tree_from-visit_tree_example :
    walk_tg_tree_from refused_at_3 entered four_groups []
    ≡ some (visit_tree refused_at_3 entered four_groups [])
walk_tg_tree_from-visit_tree_example =
    walk_tg_tree_from-visit_tree refused_at_3 entered four_groups []

-- A second for each group, of which the root has 950 ms, the groups 1 and 2 have 400 ms and 300 ms, and the group
-- 3 has 100 ms. There is a real-time task.
abbrev runtime_at : ℕ → ℕ
runtime_at n =
    if n == 0
    then 950000000
    else if n == 1
    then 400000000
    else if n == 2
    then 300000000
    else if n == 3
    then 100000000
    else 0

abbrev shared : RtGroups
shared = record {
  root = four_groups;
  period = λ n. 1000000000;
  runtime = runtime_at;
  queue_runtime = runtime_at;
  threads = record { rt_task = true } ∷ [];
  sysctl_period = pos 1000000;
  sysctl_runtime = pos 950000;
  def_period = 1000000000;
  def_runtime = 950000000;
}

shared-IsNarrow : AllGroups IsNarrow four_groups
shared-IsNarrow = omega arith

shared-IsSchedulable : IsSchedulable shared
unfolding visit_tree tg_rt_schedulable to_ratio sum_ratios tg_has_rt_tasks
shared-IsSchedulable = verdict-all_fit shared no_request shared-IsNarrow refl

-- 500 ms for the group 1 are granted, and 700 ms are not.
granted :
    tg_set_rt_bandwidth shared 1 1000000000 500000000
    ≡ some (pos 0, with_bandwidth shared 1 1000000000 500000000)
unfolding tg_set_rt_bandwidth rt_schedulable walk_tg_tree_from tg_rt_schedulable size
granted = refl

not_granted : tg_set_rt_bandwidth shared 1 1000000000 700000000 ≡ some (negsuc 21, shared)
unfolding tg_set_rt_bandwidth rt_schedulable walk_tg_tree_from tg_rt_schedulable size
not_granted = refl

-- The root group keeps some runtime. Another group loses its runtime, also one in which the task is.
needed : tg_set_rt_bandwidth shared 0 1000000000 0 ≡ some (negsuc 15, shared)
unfolding tg_set_rt_bandwidth rt_schedulable walk_tg_tree_from tg_rt_schedulable size
needed = refl

taken_away :
    tg_set_rt_bandwidth shared 3 1000000000 0 ≡ some (pos 0, with_bandwidth shared 3 1000000000 0)
unfolding tg_set_rt_bandwidth rt_schedulable walk_tg_tree_from tg_rt_schedulable size
taken_away = refl

shown : sched_group_rt_runtime shared 1 ≡ pos 400000
unfolding sched_group_rt_runtime
shown = refl

shown_period : sched_group_rt_period shared 1 ≡ pos 1000000
unfolding sched_group_rt_period
shown_period = refl

attached : sched_rt_can_attach (with_bandwidth shared 2 1000000000 0) 2 true ≡ false
unfolding sched_rt_can_attach
attached = refl

tg_set_rt_bandwidth-Settled_example :
    Settled shared
      (with_bandwidth shared 1 1000000000 500000000)
      (tg_set_rt_bandwidth shared 1 1000000000 500000000)
tg_set_rt_bandwidth-Settled_example =
    tg_set_rt_bandwidth-Settled shared 1 1000000000 500000000 shared-IsNarrow

abbrev a_session : List Setting
a_session =
    Setting.set_rt_runtime 2 (pos 200000)
    ∷ Setting.write_sysctl (pos 1000000) (pos 400000)
    ∷ Setting.set_rt_period 3 (pos 2000000)
    ∷ []

all_called-Served_example : Served shared (all_called shared a_session)
all_called-Served_example = all_called-Served a_session shared shared-IsNarrow shared-IsSchedulable
