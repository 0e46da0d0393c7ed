-- ===== src/Sched/Ras/Bounds.antt =====
-- What calc_ras_weight and the refill of goldfish/kernel/sched/ras.c give: the range of the weight
-- and of the time slice, and how they follow the number of counted faults.
use text.Mathlib.Text.{◌==◌ as str_eq}
use operating_system_project.Prelude.{
  if◌then◌else◌, ℕ, ◌+◌, ◌-◌, ◌*◌, ◌/◌, ◌^◌, ◌≤◌, ◌<◌, ◌≡◌, ◌⊎◌, inl, inr, String, true, arith,
}
use operating_system_project.Sched.Task.{Task}
use operating_system_project.Sched.Ras.Slice.{
  calc_ras_weight, slice_for, refill, ras_fg_timeslice, ras_bg_timeslice, ras_inc_time,
}

-- The weight is at most 10, and it says between which powers of two the number of faults lies: it is
-- below 2 ^ (14 - weight) unless the weight is 0, and at least 2 ^ (13 - weight) unless it is 10.
pub calc_ras_weight-brackets :
    (n : ℕ)
    → (calc_ras_weight n ≤ 10)
      × ((calc_ras_weight n ≡ 0) ⊎ (n < 2 ^ (14 - calc_ras_weight n)))
      × ((calc_ras_weight n ≡ 10) ⊎ (2 ^ (13 - calc_ras_weight n) ≤ n))
unfolding calc_ras_weight
calc_ras_weight-brackets n = ground arith

-- More faults never give a greater weight.
pub calc_ras_weight-antitone : (a b : ℕ) → a ≤ b → calc_ras_weight b ≤ calc_ras_weight a
unfolding calc_ras_weight
calc_ras_weight-antitone a b h = ground arith

-- The part of a slice that does not depend on the weight.
abbrev pub base_slice : ℕ → String → ℕ
base_slice hz group = if str_eq group "/" then ras_fg_timeslice hz else ras_bg_timeslice hz

mul_mono : (a b c d : ℕ) → a ≤ b → c ≤ d → a * c ≤ b * d
mul_mono a b c d h k = grind arith

-- No wrap-around happens at a rate of at most a million ticks.
pub slice_for-eq :
    (hz w : ℕ) (group : String)
    → hz ≤ 1000000
    → w ≤ 10
    → slice_for hz group w ≡ base_slice hz group + w * ras_inc_time hz
unfolding slice_for
slice_for-eq hz w group h k = ground (arith, mul_mono w 10 (10 * hz / 1000) 10000 k)

-- A slice computed anew is positive from 34 ticks a second on, at least that of a background task of
-- weight 0 and at most that of a foreground task of weight 10.
pub refill-slice_bounds :
    (hz : ℕ) (t : Task)
    → 34 ≤ hz
    → hz ≤ 1000000
    → (0 < (refill hz t).ras.time_slice)
      × (ras_bg_timeslice hz ≤ (refill hz t).ras.time_slice)
      × ((refill hz t).ras.time_slice ≤ ras_fg_timeslice hz + 10 * ras_inc_time hz)
unfolding refill
refill-slice_bounds hz t lo hi =
    let b = (calc_ras_weight-brackets t.wcounts).0 in
    ground (
      arith,
      slice_for-eq hz (calc_ras_weight t.wcounts) t.group,
      mul_mono (calc_ras_weight t.wcounts) 10 (10 * hz / 1000) (10 * hz / 1000) b,
    )

base_slice-order :
    (hz : ℕ) (g h : String) → ((g ≡ h) ⊎ (str_eq h "/" ≡ true)) → base_slice hz g ≤ base_slice hz h
base_slice-order hz g h (inl e) = rw e (omega arith)
base_slice-order hz g h (inr e) = ground arith

-- A task with at least as many counted faults as another, and in the same group or facing a task of
-- the root group, does not get the longer slice.
pub refill-slice_order :
    (hz : ℕ) (s t : Task)
    → hz ≤ 1000000
    → ((t.group ≡ s.group) ⊎ (str_eq s.group "/" ≡ true))
    → s.wcounts ≤ t.wcounts
    → (refill hz t).ras.time_slice ≤ (refill hz s).ras.time_slice
unfolding refill
refill-slice_order hz s t hi g h =
    let w = calc_ras_weight-antitone s.wcounts t.wcounts h in
    omega (
      arith,
      slice_for-eq hz (calc_ras_weight t.wcounts) t.group hi (calc_ras_weight-brackets t.wcounts).0,
      slice_for-eq hz (calc_ras_weight s.wcounts) s.group hi (calc_ras_weight-brackets s.wcounts).0,
      base_slice-order hz t.group s.group g,
      mul_mono (calc_ras_weight t.wcounts) (calc_ras_weight s.wcounts) (10 * hz / 1000)
          (10 * hz / 1000) w (omega arith),
    )
