-- ===== src/Sched/Group/Settings.antt =====
-- The settings of the real-time bandwidth of the task groups in goldfish/kernel/sched/core.c, as a state
-- machine whose moves are the calls that write them.
use operating_system_project.Prelude.{
  ℕ, ◌≡◌, refl, sym, ap, subst, ◌≢◌, ◌⊎◌, inl, inr, Bool, true, false, Option, none, some, arith,
  Bool-cases,
}
use operating_system_project.Prelude.{ℤ, pos, negsuc}
use operating_system_project.Sched.Group.Tree.{Group, is_zero}
use operating_system_project.Sched.Group.Bandwidth.{
  RtGroups, RtSchedulableData, with_bandwidth, unless_refused, tg_set_rt_bandwidth,
}
use operating_system_project.Sched.Group.Checks.{AllGroups, IsNarrow, Fits}
use operating_system_project.Sched.Group.Fits.{
  all_groups, verdict, rt_schedulable-verdict, verdict-all_fit, all_fit-verdict,
}

-- Every group fits.
abbrev pub IsSchedulable : RtGroups → Type 0
IsSchedulable s = AllGroups (Fits s.period s.runtime s) s.root

abbrev request : ℕ → ℕ → ℕ → RtSchedulableData
request g period runtime = record { tg = some g; rt_period = period; rt_runtime = runtime }

abbrev pub no_request : RtSchedulableData
no_request = record { tg = none; rt_period = 0; rt_runtime = 0 }

-- Only the tasks and the two settings of the system are looked at beside the bandwidth.
module _ (period runtime : ℕ → ℕ) (s : RtGroups) where
  into_stored :
      (g p r : ℕ) (t : Group)
      → Fits period runtime s t
      → Fits period runtime (with_bandwidth s g p r) t
  into_stored g p r t f = record {
    capped = f.capped;
    served = f.served;
    global = f.global;
    divided = f.divided;
  }

  out_of_stored :
      (g p r : ℕ) (t : Group)
      → Fits period runtime (with_bandwidth s g p r) t
      → Fits period runtime s t
  out_of_stored g p r t f = record {
    capped = f.capped;
    served = f.served;
    global = f.global;
    divided = f.divided;
  }

  pub into_default :
      (r p : ℕ) (t : Group)
      → Fits period runtime s t
      → Fits period runtime (record s { def_runtime = r; def_period = p }) t
  into_default r p t f = record {
    capped = f.capped;
    served = f.served;
    global = f.global;
    divided = f.divided;
  }

-- What a call that may refuse returns: the new state where all groups fit in it, or an error and the old one
abbrev pub Settled : RtGroups → RtGroups → Option (ℤ × RtGroups) → Type 0
Settled s s' result =
    ((result ≡ some (pos 0, s')) × IsSchedulable s')
    ⊎ ((e : ℤ) × (result ≡ some (e, s)) × (e ≢ pos 0) × ¬ IsSchedulable s')

zero-pos : (e : ℤ) → is_zero e ≡ true → e ≡ pos 0
zero-pos (pos n) h = ap pos (ground arith)
zero-pos (negsuc n) h = absurd (ground arith)

not_zero : (e : ℤ) → is_zero e ≡ false → e ≢ pos 0
not_zero e h same = absurd (no_flip (subst (λ x. is_zero x ≡ false) same h))
  where
    no_flip : true ≡ false → ⊥
    no_flip h = ground arith

refused_by :
    (s s' : RtGroups) (e : ℤ)
    → (is_zero e ≡ true → IsSchedulable s')
    → (IsSchedulable s' → is_zero e ≡ true)
    → Settled s s' (unless_refused s (some e) s')
refused_by s s' e fits pass = elim (Bool-cases (is_zero e)) [
  | inl z ↦ inl (rw (z, zero-pos e z) refl, fits z)
  | inr nz ↦ inr (e, rw nz refl, not_zero e nz, λ h. differ nz (pass h))
]
  where
    differ : {b : Bool} → b ≡ false → b ≡ true → ⊥
    differ h k = ground arith

-- tg_set_rt_bandwidth on a tree in which no group has 4096 children or more, whatever was set before: it
-- returns 0 and stores the period and the runtime exactly when every group of the tree fits with them in place.
-- Otherwise it returns an error, and nothing has changed. A group fits when its runtime is not longer than its
-- period or is without a limit; when it has a runtime if it is the root group, there are real-time tasks and
-- their bandwidth is limited; when its share is not above that of the system's settings; and when its children's
-- shares add up to no more than its own.
pub tg_set_rt_bandwidth-Settled :
    (s : RtGroups) (g period runtime : ℕ)
    → AllGroups IsNarrow s.root
    → Settled s (with_bandwidth s g period runtime) (tg_set_rt_bandwidth s g period runtime)
unfolding tg_set_rt_bandwidth
tg_set_rt_bandwidth-Settled s g period runtime narrow =
    let d = request g period runtime in
    let s' = with_bandwidth s g period runtime in
    subst (λ v. Settled s s' (unless_refused s v s')) (sym (rt_schedulable-verdict s d))
      (refused_by s s' (verdict s d)
        (λ z.
          all_groups (into_stored s'.period s'.runtime s g period runtime) s.root
            (verdict-all_fit s d narrow z))
        (λ h.
          all_fit-verdict s d narrow
            (all_groups (out_of_stored s'.period s'.runtime s g period runtime) s.root h)))
