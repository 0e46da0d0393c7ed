-- ===== src/Sched/Group/Checks.antt =====
-- What tg_rt_schedulable of goldfish/kernel/sched/core.c asks of a tree of task groups, in plain numbers.
use operating_system_project.Prelude.{
  ℕ, zero, suc, ◌+◌, ◌*◌, ◌/◌, ◌^◌, ◌≤◌, ◌<◌, ◌≡◌, refl, sym, ap, subst, ◌∙◌, ◌⊎◌, inl, inr, Bool,
  true, false, not, ◌&&◌, arith, ltb, ◌==◌, if◌then◌else◌,
}
use operating_system_project.Prelude.{ℤ, pos, u32, u64, case-if}
use native.Mathlib.Nat.{div-le_of_le-mul}
use operating_system_project.Sched.Core.Policy.{einval}
use operating_system_project.Sched.Rt.Bandwidth.{runtime_inf}
use operating_system_project.Sched.Group.Tree.{
  Group, Siblings, group, none_left, then_group, number, children, is_zero,
}
use operating_system_project.Sched.Group.Bandwidth.{
  RtGroups, RtSchedulableData, to_ratio, sum_ratios, tg_rt_schedulable, tg_has_rt_tasks,
  rt_bandwidth_enabled, global_rt_period, global_rt_runtime, period_of, runtime_of, ebusy,
}

-- A property of all groups of a tree
abbrev mutual
  pub AllGroups : (Group → Type 0) → Group → Type 0
  AllGroups P (group g cs) = P (group g cs) × AllSiblings P cs

  pub AllSiblings : (Group → Type 0) → Siblings → Type 0
  AllSiblings P none_left = Unit {0}
  AllSiblings P (then_group t ts) = AllGroups P t × AllSiblings P ts

abbrev pub how_many : Siblings → ℕ
how_many none_left = 0
how_many (then_group t ts) = suc (how_many ts)

-- No group has 4096 children or more.
abbrev pub IsNarrow : Group → Type 0
IsNarrow t = how_many (children t) < 4096

to_ratio-le : (p r : ℕ) → (r ≤ p) ⊎ (r ≡ runtime_inf) → to_ratio p r ≤ 2 ^ 20
unfolding to_ratio
to_ratio-le p r h =
    case-if (λ x. x ≤ 2 ^ 20) (r == runtime_inf) _ _ (λ e. omega arith) (λ ne. limited h ne)
  where
    limited :
        (r ≤ p) ⊎ (r ≡ runtime_inf)
        → (r == runtime_inf) ≡ false
        → u32 (u64 (r * 2 ^ 20) / p) ≤ 2 ^ 20
    limited (inl le) ne =
        let q = div-le_of_le-mul p {m = u64 (r * 2 ^ 20)} {n = 2 ^ 20} (omega arith) in
        omega (arith, q)
    limited (inr e) ne = absurd (ground arith)

module _ (period runtime : ℕ → ℕ) where
  -- The part of the processor's time that a group may take, in units of 1 / 2 ^ 20
  abbrev pub share : Group → ℕ
  share t = to_ratio (period (number t)) (runtime (number t))

  abbrev pub shares : Siblings → ℕ
  shares none_left = 0
  shares (then_group t ts) = share t + shares ts

  -- The runtime is not longer than the period, unless there is no limit.
  abbrev pub IsCapped : Group → Type 0
  IsCapped t = (runtime (number t) ≤ period (number t)) ⊎ (runtime (number t) ≡ runtime_inf)

  -- A group that can be served: it is capped, has a runtime if it is the root and there are real-time tasks,
  -- takes no more than the system's settings allow, and its children together take no more than the group.
  pub record Fits (s : RtGroups) (t : Group) : Type 0 where
    pub capped : IsCapped t
    pub served :
        rt_bandwidth_enabled s ≡ true
        → runtime (number t) ≡ 0
        → tg_has_rt_tasks (number s.root) s.threads (number t) ≡ false
    pub global : share t ≤ to_ratio (global_rt_period s) (global_rt_runtime s)
    pub divided : shares (children t) ≤ share t

  share-le : (t : Group) → IsCapped t → share t ≤ 2 ^ 20
  share-le t h = to_ratio-le (period (number t)) (runtime (number t)) h

  -- Groups that are capped take less than what an unsigned long holds, unless they are very many.
  pub shares-le : (ts : Siblings) → AllSiblings IsCapped ts → shares ts ≤ 2 ^ 20 * how_many ts
  shares-le none_left h = omega arith
  shares-le (then_group (group g cs) ts) h =
      omega (arith, share-le (group g cs) h.0.0, shares-le ts h.1)

  sum_ratios-shares :
      (sum : ℕ) (ts : Siblings)
      → sum + shares ts < 2 ^ 32
      → sum_ratios period runtime sum ts ≡ sum + shares ts
  unfolding sum_ratios
  sum_ratios-shares sum none_left h = omega arith
  sum_ratios-shares sum (then_group t ts) h =
      let e : u32 (sum + share t) ≡ sum + share t = omega arith in
      ap (λ x. sum_ratios period runtime x ts) e
      ∙ sum_ratios-shares (sum + share t) ts (omega arith)
      ∙ omega arith

-- The four tests of a check, in order
abbrev tests : (a b c e : Bool) → ℤ
tests a b c e =
    if a then einval else if b then ebusy else if c then einval else if e then einval else pos 0

tests-pass :
    (a b c e : Bool)
    → is_zero (tests a b c e) ≡ true
    → (a ≡ false) × (b ≡ false) × (c ≡ false) × (e ≡ false)
tests-pass false false false false h = (refl, refl, refl, refl)
tests-pass false false false true h = absurd (ground arith)
tests-pass false false true e h = absurd (ground arith)
tests-pass false true c e h = absurd (ground arith)
tests-pass true b c e h = absurd (ground arith)

pass-tests :
    (a b c e : Bool)
    → a ≡ false
    → b ≡ false
    → c ≡ false
    → e ≡ false
    → is_zero (tests a b c e) ≡ true
pass-tests a b c e ha hb hc he = rw (ha, hb, hc, he) refl

-- The second test, for a group's runtime and whether it has real-time tasks
served_if :
    (on : Bool) (n : ℕ) (has : Bool)
    → (on && n == 0 && has) ≡ false
    → on ≡ true
    → n ≡ 0
    → has ≡ false
served_if on n has h o z = ground arith

if_served :
    (on : Bool) (n : ℕ) (has : Bool)
    → (on ≡ true → n ≡ 0 → has ≡ false)
    → (on && n == 0 && has) ≡ false
if_served false n has h = refl
if_served true zero has h = h refl refl
if_served true (suc n) has h = ground arith

at_most : (n m : ℕ) → ltb m n ≡ false → n ≤ m
at_most n m h = ground arith

not_above : (n m : ℕ) → n ≤ m → ltb m n ≡ false
not_above n m h = ground arith

module _ (s : RtGroups) (d : RtSchedulableData) where
  abbrev pub Checked : Group → Type 0
  Checked t = is_zero (tg_rt_schedulable s d t) ≡ true

  abbrev pub FitsAsked : Group → Type 0
  FitsAsked = Fits (period_of s d) (runtime_of s d) s

  abbrev too_long : Group → Bool
  too_long t =
      let g : ℕ = number t in
      ltb (period_of s d g) (runtime_of s d g) && not (runtime_of s d g == runtime_inf)

  abbrev not_served : Group → Bool
  not_served t =
      rt_bandwidth_enabled s
      && runtime_of s d (number t) == 0
      && tg_has_rt_tasks (number s.root) s.threads (number t)

  abbrev part : Group → ℕ
  part = share (period_of s d) (runtime_of s d)

  checked-tests :
      (t : Group)
      → tg_rt_schedulable s d t
        ≡ tests
            (too_long t)
            (not_served t)
            (ltb (to_ratio (global_rt_period s) (global_rt_runtime s)) (part t))
            (ltb (part t) (sum_ratios (period_of s d) (runtime_of s d) 0 (children t)))
  unfolding tg_rt_schedulable
  checked-tests t = refl

  pub Checked-IsCapped : (t : Group) → Checked t → IsCapped (period_of s d) (runtime_of s d) t
  Checked-IsCapped t h =
      let all = tests-pass _ _ _ _ (subst (λ x. is_zero x ≡ true) (checked-tests t) h) in
      capped (period_of s d (number t)) (runtime_of s d (number t)) all.0
    where
      capped : (p r : ℕ) → (ltb p r && not (r == runtime_inf)) ≡ false → (r ≤ p) ⊎ (r ≡ runtime_inf)
      capped p r h = ground arith

  sum_of_children :
      (t : Group)
      → shares (period_of s d) (runtime_of s d) (children t) < 2 ^ 32
      → sum_ratios (period_of s d) (runtime_of s d) 0 (children t)
        ≡ shares (period_of s d) (runtime_of s d) (children t)
  sum_of_children t room =
      sum_ratios-shares (period_of s d) (runtime_of s d) 0 (children t) (omega (arith, room))
      ∙ omega arith

  -- With children that are capped, the check is that the group fits.
  pub Checked-Fits :
      (t : Group)
      → shares (period_of s d) (runtime_of s d) (children t) < 2 ^ 32
      → Checked t
      → FitsAsked t
  Checked-Fits t room h =
      let all = tests-pass _ _ _ _ (subst (λ x. is_zero x ≡ true) (checked-tests t) h) in
      record {
        capped = Checked-IsCapped t h;
        served = served_if _ _ _ all.1;
        global = at_most _ _ all.2;
        divided = subst (λ x. x ≤ part t) (sum_of_children t room) (at_most _ _ all.3);
      }

  pub Fits-Checked :
      (t : Group)
      → shares (period_of s d) (runtime_of s d) (children t) < 2 ^ 32
      → FitsAsked t
      → Checked t
  Fits-Checked t room f =
      let few = subst (λ x. x ≤ part t) (sym (sum_of_children t room)) f.divided in
      subst (λ x. is_zero x ≡ true) (sym (checked-tests t))
        (pass-tests _ _ _ _
          (uncapped (period_of s d (number t)) (runtime_of s d (number t)) f.capped)
          (if_served _ _ _ f.served) (not_above _ _ f.global) (not_above _ _ few))
    where
      uncapped :
          (p r : ℕ) → (r ≤ p) ⊎ (r ≡ runtime_inf) → (ltb p r && not (r == runtime_inf)) ≡ false
      uncapped p r h = ground arith
