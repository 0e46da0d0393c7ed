-- ===== src/Sched/Group/Sessions.antt =====
-- Sequences of the calls in goldfish/kernel/sched/core.c that set the real-time bandwidth: what every state
-- that they reach has in common.
use operating_system_project.Sched.Rt.Bandwidth.{runtime_inf}
use operating_system_project.Prelude.{
  ℕ, ◌+◌, ◌≤◌, ◌≡◌, refl, sym, ap, subst, ◌∙◌, inl, inr, true, false, not, ◌&&◌, ◌||◌, Option, none,
  some, List, [], ◌∷◌, arith, ltb, ◌==◌, Bool-cases,
}
use operating_system_project.Prelude.{ℤ, pos}
use operating_system_project.Sched.Core.Policy.{einval}
use operating_system_project.Sched.Group.Tree.{
  Group, Siblings, group, none_left, then_group, is_zero,
}
use operating_system_project.Sched.Group.Bandwidth.{
  RtGroups, to_ratio, global_rt_period, global_rt_runtime, with_bandwidth, tg_set_rt_bandwidth,
  sched_group_set_rt_runtime, sched_group_set_rt_period, sched_rt_global_constraints, settle,
  sched_rt_handler, nanoseconds, runtime_or_inf, is_below,
}
use operating_system_project.Sched.Group.Checks.{
  AllGroups, AllSiblings, IsNarrow, share, shares, Fits,
}
use operating_system_project.Sched.Group.Fits.{
  all_groups, verdict, rt_schedulable-verdict, verdict-all_fit,
}
use operating_system_project.Sched.Group.Settings.{
  IsSchedulable, Settled, tg_set_rt_bandwidth-Settled, no_request, into_default,
}

module _ (period runtime : ℕ → ℕ) where
  -- The shares of the groups without children, added up
  mutual
    pub taken : Group → ℕ
    taken (group g none_left) = share period runtime (group g none_left)
    taken (group g (then_group t ts)) = taken t + taken_by ts

    pub taken_by : Siblings → ℕ
    taken_by none_left = 0
    taken_by (then_group t ts) = taken t + taken_by ts

  mutual
    unfolding taken

    taken-le :
        (s : RtGroups) (t : Group)
        → AllGroups (Fits period runtime s) t
        → taken t ≤ share period runtime t
    taken-le s (group g none_left) h = omega arith
    taken-le s (group g (then_group t ts)) h =
        omega (arith, h.0.divided, taken-le s t h.1.0, taken_by-le s ts h.1.1)

    taken_by-le :
        (s : RtGroups) (ts : Siblings)
        → AllSiblings (Fits period runtime s) ts
        → taken_by ts ≤ shares period runtime ts
    taken_by-le s none_left h = omega arith
    taken_by-le s (then_group t ts) h = omega (arith, taken-le s t h.0, taken_by-le s ts h.1)

  root_serves :
      (s : RtGroups) (t : Group) → AllGroups (Fits period runtime s) t → Fits period runtime s t
  root_serves s (group g cs) h = h.0

-- The calls that set the bandwidth: of a group, or of the system by a write that proc_dointvec has accepted
pub data Setting : Type 0 where
  set_rt_runtime : ℕ → ℤ → Setting
  set_rt_period : ℕ → ℤ → Setting
  write_sysctl : ℤ → ℤ → Setting

abbrev pub continued : Option (ℤ × RtGroups) → (RtGroups → Option RtGroups) → Option RtGroups
continued none next = none
continued (some (e, s)) next = next s

abbrev pub called : RtGroups → Setting → Option (ℤ × RtGroups)
called s (set_rt_runtime g us) = sched_group_set_rt_runtime s g us
called s (set_rt_period g us) = sched_group_set_rt_period s g us
called s (write_sysctl period runtime) = sched_rt_handler s true (pos 0) period runtime

unfoldable pub all_called : RtGroups → List Setting → Option RtGroups
all_called s [] = some s
all_called s (c ∷ cs) = continued (called s c) (λ s'. all_called s' cs)

-- What a call must give
abbrev pub Keeps : RtGroups → Option (ℤ × RtGroups) → Type 0
Keeps s result =
    (e : ℤ) × (s' : RtGroups) × (result ≡ some (e, s')) × IsSchedulable s' × (s'.root ≡ s.root)

module _ (s : RtGroups) (narrow : AllGroups IsNarrow s.root) (fine : IsSchedulable s) where
  change-Keeps :
      (s' : RtGroups) (result : Option (ℤ × RtGroups))
      → s'.root ≡ s.root
      → Settled s s' result
      → Keeps s result
  change-Keeps s' result same (inl h) = (pos 0, s', h.0, h.1, same)
  change-Keeps s' result same (inr h) = (h.0, s, h.1, fine, refl)

  set-Keeps : (g p r : ℕ) → Keeps s (tg_set_rt_bandwidth s g p r)
  set-Keeps g p r =
      change-Keeps (with_bandwidth s g p r) _ refl (tg_set_rt_bandwidth-Settled s g p r narrow)

  -- sched_rt_handler with the two values in place
  module _ (period runtime : ℤ) where
    abbrev written : RtGroups
    written = record s { sysctl_period = period; sysctl_runtime = runtime }

    settle-Keeps :
        (e : ℤ) → (is_zero e ≡ true → IsSchedulable written) → Keeps s (settle s written (some e))
    settle-Keeps e fits = elim (Bool-cases (is_zero e)) [
      | inl z ↦ (
        e,
        record written {
          def_runtime = global_rt_runtime written;
          def_period = global_rt_period written;
        },
        rw z refl,
        all_groups (into_default s.period s.runtime written _ _) s.root (fits z),
        refl,
      )
      | inr nz ↦ (e, s, rw nz refl, fine, refl)
    ]

    constraints-Keeps : Keeps s (settle s written (sched_rt_global_constraints written))
    unfolding sched_rt_global_constraints
    constraints-Keeps = elim (Bool-cases (is_below period || is_zero period)) [
      | inl e ↦ rw e (settle-Keeps einval (λ h. absurd (impossible h)))
      | inr e ↦
          rw e
            (elim (Bool-cases (
              ltb (global_rt_period written) (global_rt_runtime written)
              && not (global_rt_runtime written == runtime_inf))) [
                | inl b ↦ rw b (settle-Keeps einval (λ h. absurd (impossible h)))
                | inr b ↦
                    rw (b, rt_schedulable-verdict written no_request)
                      (settle-Keeps (verdict written no_request)
                        (λ z. verdict-all_fit written no_request narrow z))
              ])
    ]
      where
        impossible : false ≡ true → ⊥
        impossible h = ground arith

  call-Keeps : (c : Setting) → Keeps s (called s c)
  unfolding sched_group_set_rt_runtime sched_group_set_rt_period sched_rt_handler
  call-Keeps (set_rt_runtime g us) = set-Keeps g (s.period g) (runtime_or_inf us)
  call-Keeps (set_rt_period g us) = elim (Bool-cases (nanoseconds us == 0)) [
    | inl e ↦ (einval, s, rw e refl, fine, refl)
    | inr e ↦ rw e (set-Keeps g (nanoseconds us) (s.runtime g))
  ]
  call-Keeps (write_sysctl period runtime) = constraints-Keeps period runtime

-- What holds of the state that a sequence of calls ends in
abbrev pub Served : RtGroups → Option RtGroups → Type 0
Served s result =
    (s' : RtGroups) × (result ≡ some s')
    × IsSchedulable s'
    × (s'.root ≡ s.root)
    × (taken s'.period s'.runtime s.root ≤ to_ratio (global_rt_period s') (global_rt_runtime s'))

served-here : (s : RtGroups) → IsSchedulable s → Served s (some s)
served-here s fine = (
  s,
  refl,
  fine,
  refl,
  omega (
    arith,
    taken-le s.period s.runtime s s.root fine,
    (root_serves s.period s.runtime s s.root fine).global,
  ),
)

-- From a state in which every group fits, on a tree in which no group has 4096 children or more, every sequence of
-- calls that set the runtime or the period of a group, or that write the two settings of the system, returns, those
-- that are refused included. In the state behind it every group fits, the tree is the same, and the groups without
-- children together take no larger share of the processor than the settings of the system then allow.
pub all_called-Served :
    (cs : List Setting) (s : RtGroups)
    → AllGroups IsNarrow s.root
    → IsSchedulable s
    → Served s (all_called s cs)
unfolding all_called
all_called-Served [] s narrow fine = served-here s fine
all_called-Served (c ∷ cs) s narrow fine =
    behind (call-Keeps s narrow fine c) (all_called-Served cs)
  where
    behind :
        Keeps s (called s c)
        → ((s' : RtGroups)
            → AllGroups IsNarrow s'.root
            → IsSchedulable s'
            → Served s' (all_called s' cs))
        → Served s (continued (called s c) (λ s'. all_called s' cs))
    behind (e, s', returned, fine', same) ih =
        let rest = ih s' (subst (AllGroups IsNarrow) (sym same) narrow) fine' in
        (
          rest.0,
          ap (λ r. continued r (λ s'. all_called s' cs)) returned ∙ rest.1,
          rest.2,
          rest.3 ∙ same,
          subst
              (λ t.
                taken rest.0.period rest.0.runtime t
                ≤ to_ratio (global_rt_period rest.0) (global_rt_runtime rest.0))
              same rest.4,
        )
