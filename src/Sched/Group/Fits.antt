-- ===== src/Sched/Group/Fits.antt =====
-- What __rt_schedulable of goldfish/kernel/sched/core.c finds by its walk: whether every group fits.
use operating_system_project.Prelude.{
  ◌^◌, ◌<◌, ◌≡◌, refl, ap, subst, inl, inr, Bool, true, false, some, arith, if◌then◌else◌,
  Bool-cases,
}
use operating_system_project.Prelude.{ℤ}
use operating_system_project.Sched.Group.Tree.{
  Group, Siblings, group, none_left, then_group, children, is_zero, tg_nop,
}
use operating_system_project.Sched.Group.Bandwidth.{
  RtGroups, RtSchedulableData, tg_rt_schedulable, rt_schedulable, period_of, runtime_of, returned,
}
use operating_system_project.Sched.Group.Checks.{
  AllGroups, AllSiblings, IsNarrow, IsCapped, shares, how_many, shares-le, Checked, FitsAsked,
  Checked-IsCapped, Checked-Fits, Fits-Checked,
}
use operating_system_project.Sched.Group.Walks.{
  if_fine, visit_tree, visit_all, walk_tg_tree_from-visit_tree,
}

module _ {P Q : Group → Type 0} (weaken : (t : Group) → P t → Q t) where
  mutual
    pub all_groups : (t : Group) → AllGroups P t → AllGroups Q t
    all_groups (group g cs) h = (weaken (group g cs) h.0, all_siblings cs h.1)

    all_siblings : (ts : Siblings) → AllSiblings P ts → AllSiblings Q ts
    all_siblings none_left h = h
    all_siblings (then_group t ts) h = (all_groups t h.0, all_siblings ts h.1)

module _ {S : Type 0} where
  both_fine :
      (r : ℤ × S) (f : S → ℤ × S)
      → is_zero (if_fine r f).0 ≡ true
      → (is_zero r.0 ≡ true) × (is_zero (f r.1).0 ≡ true)
  both_fine (x, s) f h = elim (Bool-cases (is_zero x)) [
    | inl e ↦ (e, subst (λ (b : Bool). is_zero (if b then f s else (x, s)).0 ≡ true) e h)
    | inr e ↦
        absurd (bad e (subst (λ (b : Bool). is_zero (if b then f s else (x, s)).0 ≡ true) e h))
  ]
    where
      bad : {b : Bool} → b ≡ false → b ≡ true → ⊥
      bad e h = ground arith

  fine_both :
      (r : ℤ × S) (f : S → ℤ × S)
      → is_zero r.0 ≡ true
      → is_zero (f r.1).0 ≡ true
      → is_zero (if_fine r f).0 ≡ true
  fine_both (x, s) f e h = rw e h

module _ (s : RtGroups) (d : RtSchedulableData) where
  abbrev check : Group → Unit {0} → ℤ × Unit {0}
  check t u = (tg_rt_schedulable s d t, u)

  -- The walk below a group, and the second visit of it
  abbrev behind : Group → Unit {0} → ℤ × Unit {0}
  behind t u = if_fine (visit_all check tg_nop (children t) u) (tg_nop t)

  mutual
    unfolding visit_tree

    visit_tree-Checked :
        (t : Group) (u : Unit {0})
        → is_zero (visit_tree check tg_nop t u).0 ≡ true
        → AllGroups (Checked s d) t
    visit_tree-Checked (group g cs) u h =
        let all = both_fine (check (group g cs) u) (behind (group g cs)) h in
        (
          all.0,
          visit_all-Checked cs u
              (both_fine (visit_all check tg_nop cs u) (tg_nop (group g cs)) all.1).0,
        )

    visit_all-Checked :
        (ts : Siblings) (u : Unit {0})
        → is_zero (visit_all check tg_nop ts u).0 ≡ true
        → AllSiblings (Checked s d) ts
    visit_all-Checked none_left u h = tt
    visit_all-Checked (then_group t ts) u h =
        let all = both_fine (visit_tree check tg_nop t u) (visit_all check tg_nop ts) h in
        (visit_tree-Checked t u all.0, visit_all-Checked ts (visit_tree check tg_nop t u).1 all.1)

  mutual
    unfolding visit_tree

    Checked-visit_tree :
        (t : Group) (u : Unit {0})
        → AllGroups (Checked s d) t
        → is_zero (visit_tree check tg_nop t u).0 ≡ true
    Checked-visit_tree (group g cs) u h =
        fine_both (check (group g cs) u) (behind (group g cs)) h.0 (
          fine_both (visit_all check tg_nop cs u) (tg_nop (group g cs)) (Checked-visit_all cs u h.1)
            refl)

    Checked-visit_all :
        (ts : Siblings) (u : Unit {0})
        → AllSiblings (Checked s d) ts
        → is_zero (visit_all check tg_nop ts u).0 ≡ true
    Checked-visit_all none_left u h = refl
    Checked-visit_all (then_group t ts) u h =
        fine_both (visit_tree check tg_nop t u) (visit_all check tg_nop ts)
          (Checked-visit_tree t u h.0) (Checked-visit_all ts (visit_tree check tg_nop t u).1 h.1)

  abbrev Capped : Group → Type 0
  Capped = IsCapped (period_of s d) (runtime_of s d)

  room :
      (cs : Siblings)
      → AllSiblings Capped cs
      → how_many cs < 4096
      → shares (period_of s d) (runtime_of s d) cs < 2 ^ 32
  room cs h narrow = omega (arith, shares-le (period_of s d) (runtime_of s d) cs h)

  mutual
    fit_all :
        (t : Group) → AllGroups IsNarrow t → AllGroups (Checked s d) t → AllGroups (FitsAsked s d) t
    fit_all (group g cs) n h = (
      Checked-Fits s d (group g cs) (room cs (all_siblings (Checked-IsCapped s d) cs h.1) n.0) h.0,
      fit_below cs n.1 h.1,
    )

    fit_below :
        (ts : Siblings)
        → AllSiblings IsNarrow ts
        → AllSiblings (Checked s d) ts
        → AllSiblings (FitsAsked s d) ts
    fit_below none_left n h = h
    fit_below (then_group t ts) n h = (fit_all t n.0 h.0, fit_below ts n.1 h.1)

  mutual
    pass_all :
        (t : Group) → AllGroups IsNarrow t → AllGroups (FitsAsked s d) t → AllGroups (Checked s d) t
    pass_all (group g cs) n h = (
      Fits-Checked s d (group g cs) (room cs (all_siblings (λ t f. f.capped) cs h.1) n.0) h.0,
      pass_below cs n.1 h.1,
    )

    pass_below :
        (ts : Siblings)
        → AllSiblings IsNarrow ts
        → AllSiblings (FitsAsked s d) ts
        → AllSiblings (Checked s d) ts
    pass_below none_left n h = h
    pass_below (then_group t ts) n h = (pass_all t n.0 h.0, pass_below ts n.1 h.1)

  -- The value of the walk
  abbrev pub verdict : ℤ
  verdict = (visit_tree check tg_nop s.root tt).0

  pub rt_schedulable-verdict : rt_schedulable s d ≡ some verdict
  unfolding rt_schedulable
  rt_schedulable-verdict = ap returned (walk_tg_tree_from-visit_tree check tg_nop s.root tt)

  pub verdict-all_fit :
      AllGroups IsNarrow s.root → is_zero verdict ≡ true → AllGroups (FitsAsked s d) s.root
  verdict-all_fit n h = fit_all s.root n (visit_tree-Checked s.root tt h)

  pub all_fit-verdict :
      AllGroups IsNarrow s.root → AllGroups (FitsAsked s d) s.root → is_zero verdict ≡ true
  all_fit-verdict n h = Checked-visit_tree s.root tt (pass_all s.root n h)
