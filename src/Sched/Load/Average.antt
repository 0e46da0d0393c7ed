-- ===== src/Sched/Load/Average.antt =====
-- The load averages of goldfish/kernel/sched/core.c with CONFIG_NO_HZ: calc_load, fixed_power_int and
-- calc_global_load. An unsigned long has 32 bits.
use operating_system_project.Prelude.{
  ℕ, zero, suc, ◌+◌, ◌-◌, ◌*◌, ◌/◌, ◌%◌, ◌^◌, Bool, ◌&&◌, Option, none, some, ltb, leb, ◌==◌,
  if◌then◌else◌, update,
}
use operating_system_project.Prelude.{u32, inc32}

-- FSHIFT, FIXED_1, EXP_1, EXP_5 and EXP_15
abbrev pub fshift : ℕ
fshift = 11

abbrev pub fixed_1 : ℕ
fixed_1 = 2048

abbrev pub exp_1 : ℕ
exp_1 = 1884

abbrev pub exp_5 : ℕ
exp_5 = 2014

abbrev pub exp_15 : ℕ
exp_15 = 2037

-- calc_load
unfoldable pub calc_load : ℕ → ℕ → ℕ → ℕ
calc_load load exp active =
    let weighed = u32 (load * exp) in
    let more = u32 (weighed + u32 (active * u32 (fixed_1 + 2 ^ 32 - exp))) in
    u32 (more + 2 ^ (fshift - 1)) / 2 ^ fshift

-- The three steps of fixed_power_int that multiply
unfoldable pub rounded : ℕ → ℕ → ℕ → ℕ
rounded frac_bits a b = u32 (u32 (a * b) + 2 ^ (frac_bits - 1)) / 2 ^ frac_bits

-- The loop of fixed_power_int, on fuel for the bits of n
unfoldable pub power_loop : ℕ → ℕ → ℕ → ℕ → ℕ → Option ℕ
unfolding rounded
power_loop zero frac_bits x n result = none
power_loop (suc fuel) frac_bits x n result =
    let r = if n % 2 == 1 then rounded frac_bits result x else result in
    let rest = power_loop fuel frac_bits (rounded frac_bits x x) (n / 2) r in
    if n / 2 == 0 then some r else rest

-- fixed_power_int
unfoldable pub fixed_power_int : ℕ → ℕ → ℕ → Option ℕ
unfolding power_loop
fixed_power_int x frac_bits n =
    if n == 0 then some (2 ^ frac_bits) else power_loop 32 frac_bits x n (2 ^ frac_bits)

abbrev pub weighted : ℕ → ℕ → Option ℕ → Option ℕ
weighted load active none = none
weighted load active (some e) = some (calc_load load e active)

-- calc_load_n
unfoldable pub calc_load_n : ℕ → ℕ → ℕ → ℕ → Option ℕ
unfolding fixed_power_int calc_load
calc_load_n load exp active n = weighted load active (fixed_power_int exp fshift n)

-- avenrun
pub record Avenrun : Type 0 where
  pub one : ℕ
  pub five : ℕ
  pub fifteen : ℕ

-- get_avenrun
unfoldable pub get_avenrun : Avenrun → ℕ → ℕ → Avenrun
get_avenrun a offset shift = record {
  one = u32 ((a.one + offset) * 2 ^ shift);
  five = u32 ((a.five + offset) * 2 ^ shift);
  fifteen = u32 ((a.fifteen + offset) * 2 ^ shift);
}

-- The sample of calc_global_load
abbrev pub sampled : Avenrun → ℕ → Avenrun
sampled a active = record {
  one = calc_load a.one exp_1 active;
  five = calc_load a.five exp_5 active;
  fifteen = calc_load a.fifteen exp_15 active;
}

abbrev pub all_three : Option ℕ → Option ℕ → Option ℕ → Option Avenrun
all_three (some a) (some b) (some c) = some (record { one = a; five = b; fifteen = c })
all_three _ _ _ = none

-- The catching-up of calc_global_nohz by n samples
unfoldable pub caught_up : Avenrun → ℕ → ℕ → Option Avenrun
unfolding calc_load_n
caught_up a active n =
    all_three (calc_load_n a.one exp_1 active n) (calc_load_n a.five exp_5 active n)
      (calc_load_n a.fifteen exp_15 active n)

-- `active`, for the word in calc_load_tasks
abbrev pub active_of : ℕ → ℕ
active_of tasks = if ltb 0 tasks && ltb tasks (2 ^ 31) then u32 (tasks * fixed_1) else 0

-- avenrun, calc_load_update, calc_load_tasks, calc_load_idle and calc_load_idx, the longs as words of 32 bits
pub record Loads : Type 0 where
  pub avenrun : Avenrun
  pub calc_load_update : ℕ
  pub calc_load_tasks : ℕ
  pub calc_load_idle : ℕ → ℕ
  pub calc_load_idx : ℕ

-- time_before, by the sign of the difference
abbrev pub time_before : ℕ → ℕ → Bool
time_before a b = leb (2 ^ 31) (u32 (a + 2 ^ 32 - b))

-- LOAD_FREQ
abbrev pub load_freq : ℕ → ℕ
load_freq hz = 5 * hz + 1

-- calc_load_fold_idle, with its value
unfoldable pub calc_load_fold_idle : Loads → ℕ × Loads
calc_load_fold_idle s =
    let i : ℕ = s.calc_load_idx % 2 in
    (s.calc_load_idle i, record s { calc_load_idle = update s.calc_load_idle i 0 })

-- The samples that calc_global_nohz has to catch up with
abbrev pub missed : ℕ → ℕ → Loads → ℕ
missed hz jiffies s = 1 + u32 (jiffies + 2 ^ 32 - u32 (s.calc_load_update + 10)) / load_freq hz

abbrev pub flip : Loads → Loads
flip s = record s { calc_load_idx = inc32 s.calc_load_idx }

abbrev pub stored : ℕ → Loads → Option Avenrun → Option Loads
stored next s none = none
stored next s (some a) = some (flip (record s { avenrun = a; calc_load_update = next }))

-- calc_global_nohz
unfoldable pub calc_global_nohz : ℕ → ℕ → Loads → Option Loads
unfolding caught_up
calc_global_nohz hz jiffies s =
    let n : ℕ = missed hz jiffies s in
    if time_before jiffies (u32 (s.calc_load_update + 10))
    then some (flip s)
    else stored (u32 (s.calc_load_update + n * load_freq hz)) s
        (caught_up s.avenrun (active_of s.calc_load_tasks) n)

-- calc_global_load at a time in jiffies
unfoldable pub calc_global_load : ℕ → ℕ → Loads → Option Loads
unfolding calc_load_fold_idle calc_global_nohz calc_load
calc_global_load hz jiffies s =
    if time_before jiffies (u32 (s.calc_load_update + 10))
    then some s
    else (let r = calc_load_fold_idle s in
        let tasks : ℕ = u32 (s.calc_load_tasks + r.0) in
        calc_global_nohz hz jiffies (record (r.1) {
          calc_load_tasks = tasks;
          avenrun = sampled s.avenrun (active_of tasks);
          calc_load_update = u32 (s.calc_load_update + load_freq hz);
        }))
