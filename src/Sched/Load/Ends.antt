-- ===== src/Sched/Load/Ends.antt =====
-- calc_global_load of goldfish/kernel/sched/core.c ends in every state.
use operating_system_project.Prelude.{
  ℕ, zero, suc, ◌+◌, ◌*◌, ◌/◌, ◌%◌, ◌^◌, ◌<◌, ◌≡◌, refl, ap, Option, some, arith, ◌==◌,
  if◌then◌else◌,
}
use operating_system_project.Prelude.{u32, case-if}
use operating_system_project.Sched.Load.Average.{
  rounded, power_loop, fixed_power_int, calc_load, calc_load_n, weighted, Avenrun, all_three,
  caught_up, Loads, active_of, missed, flip, stored, time_before, load_freq, calc_global_nohz,
  calc_global_load, calc_load_fold_idle, exp_1, exp_5, exp_15,
}
use operating_system_project.Sched.Load.Bounds.{two_to, missed-lt}

abbrev pub Gives : {A : Type 0} → Option A → Type 0
Gives {A} r = (a : A) × (r ≡ some a)

power_loop-Gives :
    (fuel x n result : ℕ) → 0 < n → n < two_to fuel → Gives (power_loop fuel 11 x n result)
unfolding power_loop
power_loop-Gives zero x n result p l = absurd (omega arith)
power_loop-Gives (suc fuel) x n result p l =
    let r : ℕ = if n % 2 == 1 then rounded 11 result x else result in
    case-if (λ y. Gives y) (n / 2 == 0) (some r) (power_loop fuel 11 (rounded 11 x x) (n / 2) r)
      (λ e. (r, refl))
      (λ e. power_loop-Gives fuel (rounded 11 x x) (n / 2) r (ground arith) (omega (arith, l)))

fixed_power_int-Gives : (x n : ℕ) → n < 2 ^ 32 → Gives (fixed_power_int x 11 n)
unfolding fixed_power_int
fixed_power_int-Gives x n l =
    case-if (λ y. Gives y) (n == 0) (some (2 ^ 11)) (power_loop 32 11 x n (2 ^ 11))
      (λ e. (2 ^ 11, refl))
      (λ e. power_loop-Gives 32 x n (2 ^ 11) (ground arith) (omega (arith, l)))

calc_load_n-Gives : (load exp active n : ℕ) → n < 2 ^ 32 → Gives (calc_load_n load exp active n)
unfolding calc_load_n
calc_load_n-Gives load exp active n l =
    let p = fixed_power_int-Gives exp n l in
    (calc_load load p.0 active, ap (weighted load active) p.1)

caught_up-Gives : (a : Avenrun) (active n : ℕ) → n < 2 ^ 32 → Gives (caught_up a active n)
unfolding caught_up
caught_up-Gives a active n l =
    let x = calc_load_n-Gives a.one exp_1 active n l in
    let y = calc_load_n-Gives a.five exp_5 active n l in
    let z = calc_load_n-Gives a.fifteen exp_15 active n l in
    (record { one = x.0; five = y.0; fifteen = z.0 }, λ i. all_three (x.1 i) (y.1 i) (z.1 i))

calc_global_nohz-Gives : (hz jiffies : ℕ) (s : Loads) → Gives (calc_global_nohz hz jiffies s)
unfolding calc_global_nohz
calc_global_nohz-Gives hz jiffies s =
    case-if (λ (x : Option Loads). Gives x) (time_before jiffies (u32 (s.calc_load_update + 10))) _
      _ (λ e. (flip s, refl))
      (λ e.
        let n : ℕ = missed hz jiffies s in
        let c = caught_up-Gives s.avenrun (active_of s.calc_load_tasks) n (missed-lt hz _ e) in
        let next : ℕ = u32 (s.calc_load_update + n * load_freq hz) in
        (flip (record s { avenrun = c.0; calc_load_update = next }), ap (stored next s) c.1))

-- calc_global_load returns for every HZ, at every time and in every state, however many samples were missed: the
-- loop of fixed_power_int ends within its 32 rounds.
pub calc_global_load-Gives : (hz jiffies : ℕ) (s : Loads) → Gives (calc_global_load hz jiffies s)
unfolding calc_global_load calc_load_fold_idle
calc_global_load-Gives hz jiffies s =
    case-if (λ (x : Option Loads). Gives x) (time_before jiffies (u32 (s.calc_load_update + 10))) _
      _ (λ e. (s, refl)) (λ e. calc_global_nohz-Gives hz jiffies _)
