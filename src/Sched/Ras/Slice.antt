-- ===== src/Sched/Ras/Slice.antt =====
-- The weight and the time slice of a RAS task: calc_ras_weight of goldfish/kernel/sched/ras.c and
-- the refill that enqueue_task_ras, task_tick_ras and get_rr_interval_ras share. HZ comes from
-- asm/param.h, which the repository does not hold: it is a parameter.
use text.Mathlib.Text.{◌==◌ as str_eq}
use operating_system_project.Prelude.{String, ℕ, ◌+◌, ◌*◌, ◌/◌, ◌^◌, ltb, if◌then◌else◌, u32}
use operating_system_project.Sched.Task.{Task}

-- calc_ras_weight, as a function of `p->wcounts`
unfoldable pub calc_ras_weight : ℕ → ℕ
calc_ras_weight wcounts =
    if ltb wcounts (2 ^ 4)
    then 10
    else if ltb wcounts (2 ^ 5)
    then 9
    else if ltb wcounts (2 ^ 6)
    then 8
    else if ltb wcounts (2 ^ 7)
    then 7
    else if ltb wcounts (2 ^ 8)
    then 6
    else if ltb wcounts (2 ^ 9)
    then 5
    else if ltb wcounts (2 ^ 10)
    then 4
    else if ltb wcounts (2 ^ 11)
    then 3
    else if ltb wcounts (2 ^ 12)
    then 2
    else if ltb wcounts (2 ^ 13)
    then 1
    else 0

abbrev pub ras_fg_timeslice : ℕ → ℕ
ras_fg_timeslice hz = 50 * hz / 1000

abbrev pub ras_bg_timeslice : ℕ → ℕ
ras_bg_timeslice hz = 30 * hz / 1000

abbrev pub ras_inc_time : ℕ → ℕ
ras_inc_time hz = 10 * hz / 1000

-- The new time slice of a task in a group with the path `group`, for a weight. The third test is
-- the source's "unknown type", which gets what a background task gets.
unfoldable pub slice_for : ℕ → String → ℕ → ℕ
slice_for hz group weight =
    if str_eq group "/"
    then u32 (ras_fg_timeslice hz + weight * ras_inc_time hz)
    else if str_eq group "/bg_non_interactive"
    then u32 (ras_bg_timeslice hz + weight * ras_inc_time hz)
    else u32 (ras_bg_timeslice hz + weight * ras_inc_time hz)

-- Weight and time slice of a task, computed anew.
unfoldable pub refill : ℕ → Task → Task
unfolding calc_ras_weight slice_for
refill hz t = record t {
  ras = record (t.ras) {
    weight = calc_ras_weight t.wcounts;
    time_slice = slice_for hz t.group (calc_ras_weight t.wcounts);
  };
}
