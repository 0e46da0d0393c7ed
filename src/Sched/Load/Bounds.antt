-- ===== src/Sched/Load/Bounds.antt =====
-- The load averages stay within the range of their samples.
use operating_system_project.Prelude.{
  ℕ, zero, suc, ◌+◌, ◌-◌, ◌*◌, ◌/◌, ◌%◌, ◌^◌, ◌≤◌, ◌<◌, ◌≡◌, refl, sym, ap, ◌∙◌, false, Option,
  some, arith, leb, ◌==◌, if◌then◌else◌,
}
use operating_system_project.Prelude.{u32, case-if}
use native.Mathlib.Nat.{div-le_self, mul-add, mul-le-mul_right}
use operating_system_project.Sched.Load.Average.{
  stored, missed, flip, time_before, active_of, calc_load_fold_idle, Loads, load_freq,
  calc_global_nohz, calc_global_load, weighted, calc_load, rounded, power_loop, fixed_power_int,
  calc_load_n, Avenrun, sampled, all_three, caught_up, exp_1, exp_5, exp_15,
}

-- An average between two numbers is between them.
calc_load-between :
    (load exp active low high : ℕ)
    → exp ≤ 2048
    → low ≤ load
    → low ≤ active
    → load ≤ high
    → active ≤ high
    → high < 2 ^ 20
    → (low ≤ calc_load load exp active) × (calc_load load exp active ≤ high)
unfolding calc_load
calc_load-between load exp active low high he a b c d small =
    let rest : u32 (2048 + 2 ^ 32 - exp) ≡ 2048 - exp = omega arith in
    let le1 : load * exp ≤ high * exp = mul-le-mul_right exp c in
    let le2 : active * (2048 - exp) ≤ high * (2048 - exp) = mul-le-mul_right (2048 - exp) d in
    let ge1 : low * exp ≤ load * exp = mul-le-mul_right exp a in
    let ge2 : low * (2048 - exp) ≤ active * (2048 - exp) = mul-le-mul_right (2048 - exp) b in
    let sum1 : high * exp + high * (2048 - exp) ≡ high * 2048 = split high in
    let sum2 : low * exp + low * (2048 - exp) ≡ low * 2048 = split low in
    rw rest (omega (arith, le1, le2, sum1), omega (arith, le1, le2, ge1, ge2, sum1, sum2))
  where
    split : (n : ℕ) → n * exp + n * (2048 - exp) ≡ n * 2048
    split n =
        let e : exp + (2048 - exp) ≡ 2048 = omega arith in
        sym (mul-add n exp (2048 - exp)) ∙ ap (λ (t : ℕ). n * t) e

rounded-le : (a b : ℕ) → a ≤ 2048 → b ≤ 2048 → rounded 11 a b ≤ 2048
unfolding rounded
rounded-le a b ha hb = let le1 : a * b ≤ 2048 * b = mul-le-mul_right b ha in omega (arith, le1)

abbrev pub two_to : ℕ → ℕ
two_to zero = 1
two_to (suc k) = 2 * two_to k

abbrev Ends : Option ℕ → Type 0
Ends r = (v : ℕ) × (r ≡ some v) × (v ≤ 2048)

-- The loop ends for a number of as many bits as it has fuel.
power_loop-Ends :
    (fuel x n result : ℕ)
    → x ≤ 2048
    → result ≤ 2048
    → 0 < n
    → n < two_to fuel
    → Ends (power_loop fuel 11 x n result)
unfolding power_loop
power_loop-Ends zero x n result hx hr p l = absurd (omega arith)
power_loop-Ends (suc fuel) x n result hx hr p l =
    let r : ℕ = if n % 2 == 1 then rounded 11 result x else result in
    let small : r ≤ 2048 =
      case-if (λ (y : ℕ). y ≤ 2048) (n % 2 == 1) (rounded 11 result x) result
        (λ e. rounded-le result x hr hx) (λ e. hr) in
    case-if (λ y. Ends y) (n / 2 == 0) (some r) (power_loop fuel 11 (rounded 11 x x) (n / 2) r)
      (λ e. (r, refl, small))
      (λ e.
        power_loop-Ends fuel (rounded 11 x x) (n / 2) r (rounded-le x x hx hx) small (ground arith)
          (omega (arith, l)))

fixed_power_int-Ends : (x n : ℕ) → x ≤ 2048 → n < 2 ^ 32 → Ends (fixed_power_int x 11 n)
unfolding fixed_power_int
fixed_power_int-Ends x n hx l =
    case-if (λ y. Ends y) (n == 0) (some (2 ^ 11)) (power_loop 32 11 x n (2 ^ 11))
      (λ e. (2 ^ 11, refl, omega arith))
      (λ e. power_loop-Ends 32 x n (2 ^ 11) hx (omega arith) (ground arith) (omega (arith, l)))

-- The three averages are between two numbers.
pub record IsBetween (low high : ℕ) (a : Avenrun) : Type 0 where
  pub one : (low ≤ a.one) × (a.one ≤ high)
  pub five : (low ≤ a.five) × (a.five ≤ high)
  pub fifteen : (low ≤ a.fifteen) × (a.fifteen ≤ high)

module _ (low high active : ℕ) (small : high < 2 ^ 20) (above : low ≤ active)
    (below : active ≤ high) where
  between :
      (load exp : ℕ)
      → exp ≤ 2048
      → (low ≤ load) × (load ≤ high)
      → (low ≤ calc_load load exp active) × (calc_load load exp active ≤ high)
  between load exp he h = calc_load-between load exp active low high he h.0 above h.1 below small

  sampled-IsBetween : (a : Avenrun) → IsBetween low high a → IsBetween low high (sampled a active)
  sampled-IsBetween a h = record {
    one = between a.one exp_1 (omega arith) h.one;
    five = between a.five exp_5 (omega arith) h.five;
    fifteen = between a.fifteen exp_15 (omega arith) h.fifteen;
  }

  abbrev Weighed : Option ℕ → Type 0
  Weighed r = (v : ℕ) × (r ≡ some v) × (low ≤ v) × (v ≤ high)

  calc_load_n-Weighed :
      (load exp n : ℕ)
      → exp ≤ 2048
      → n < 2 ^ 32
      → (low ≤ load) × (load ≤ high)
      → Weighed (calc_load_n load exp active n)
  unfolding calc_load_n
  calc_load_n-Weighed load exp n he l h =
      let p = fixed_power_int-Ends exp n he l in
      let b = between load p.0 p.2 h in
      (calc_load load p.0 active, ap (weighted load active) p.1, b.0, b.1)

  caught_up-IsBetween :
      (a : Avenrun) (n : ℕ)
      → n < 2 ^ 32
      → IsBetween low high a
      → (b : Avenrun) × (caught_up a active n ≡ some b) × IsBetween low high b
  unfolding caught_up
  caught_up-IsBetween a n l h =
      let x = calc_load_n-Weighed a.one exp_1 n (omega arith) l h.one in
      let y = calc_load_n-Weighed a.five exp_5 n (omega arith) l h.five in
      let z = calc_load_n-Weighed a.fifteen exp_15 n (omega arith) l h.fifteen in
      (
        record { one = x.0; five = y.0; fifteen = z.0 },
        (λ i. all_three (x.1 i) (y.1 i) (z.1 i)),
        record { one = (x.2, x.3); five = (y.2, y.3); fifteen = (z.2, z.3) },
      )

-- What a call leaves in the averages
abbrev pub Leaves : ℕ → ℕ → Option Loads → Type 0
Leaves low high result = (s : Loads) × (result ≡ some s) × IsBetween low high s.avenrun

-- The samples that a call of calc_global_load is about
abbrev pub next_active : Loads → ℕ
next_active s = active_of (u32 (s.calc_load_tasks + s.calc_load_idle (s.calc_load_idx % 2)))

pub missed-lt : (hz d : ℕ) → leb (2 ^ 31) d ≡ false → 1 + d / load_freq hz < 2 ^ 32
missed-lt hz d h =
    let q = div-le_self d (load_freq hz) in
    let l : d < 2 ^ 31 = ground (arith, h) in omega (arith, q, l)

module _ (hz jiffies low high : ℕ) (small : high < 2 ^ 20) where
  calc_global_nohz-Leaves :
      (s : Loads)
      → low ≤ active_of s.calc_load_tasks
      → active_of s.calc_load_tasks ≤ high
      → IsBetween low high s.avenrun
      → Leaves low high (calc_global_nohz hz jiffies s)
  unfolding calc_global_nohz
  calc_global_nohz-Leaves s above below h =
      case-if (λ x. Leaves low high x) (time_before jiffies (u32 (s.calc_load_update + 10))) _ _
        (λ e. (flip s, refl, h))
        (λ e.
          let n : ℕ = missed hz jiffies s in
          let c =
            caught_up-IsBetween low high (active_of s.calc_load_tasks) small above below s.avenrun n
              (missed-lt hz _ e) h in
          let next : ℕ = u32 (s.calc_load_update + n * load_freq hz) in
          (flip (record s { avenrun = c.0; calc_load_update = next }), ap (stored next s) c.1, c.2))

  -- Where the three averages and the number of active tasks, as a fixed-point number, are between two numbers of
  -- which the greater is less than 2 ^ 20, that is 512 tasks: calc_global_load returns, at every time and however
  -- many samples were missed, and the three averages are between the two numbers again.
  pub calc_global_load-Leaves :
      (s : Loads)
      → low ≤ next_active s
      → next_active s ≤ high
      → IsBetween low high s.avenrun
      → Leaves low high (calc_global_load hz jiffies s)
  unfolding calc_global_load calc_load_fold_idle
  calc_global_load-Leaves s above below h =
      case-if (λ x. Leaves low high x) (time_before jiffies (u32 (s.calc_load_update + 10))) _ _
        (λ e. (s, refl, h))
        (λ e.
          calc_global_nohz-Leaves _ above below
            (sampled-IsBetween low high (next_active s) small above below s.avenrun h))
