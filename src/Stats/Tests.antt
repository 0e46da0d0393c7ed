-- ===== src/Stats/Tests.antt =====
-- Runs of Project2/cmp/cmp.c on short logs.
use operating_system_project.Prelude.{
  ℕ, ◌≡◌, refl, none, some, List, [], ◌∷◌, ◌++◌, map, arith, length,
}
use operating_system_project.Prelude.{pos, count, codes, decimal_onto, digits_onto}
use operating_system_project.Sched.Rt.Log.{fifo_line}
use operating_system_project.Stats.Slots.{
  Slot, free_slots, bump, claim, count_cycle, sum_end, sum_running,
}
use operating_system_project.Stats.Log.{
  read_entry, other, crash, split_lines, with_line, starts_with, before, Stats, run_file,
}
use operating_system_project.Stats.Counts.{running_of}
use operating_system_project.Stats.Files.{file_of, split_lines-empty_line}
use operating_system_project.Stats.Traces.{rr, choice_of, line_of, pid_of, run_file-counts}

-- Processes 30 and 41 take turns, with their time slices.
abbrev ticks : List (ℕ × ℕ)
ticks = (30, 2) ∷ (41, 2) ∷ (30, 1) ∷ []

run_file-counts_example :
    (end : Stats) × (run_file (choice_of rr) (file_of (map (line_of rr) ticks)) ≡ some end)
    × (end.cycle ≡ length ticks)
    × ((m : ℕ) → running_of m end.slots ≡ count m (map pid_of ticks))
run_file-counts_example =
    run_file-counts rr (30 ∷ 41 ∷ []) ticks (omega arith) (refl, (refl, (refl, tt)))

split_lines-empty_line_example :
    (split_lines [] (10 ∷ fifo_line 7 ++ []) ≡ with_line (10 ∷ fifo_line 7) (split_lines [] []))
    × (read_entry 1 (10 ∷ fifo_line 7) ≡ other)
unfolding fifo_line decimal_onto digits_onto
split_lines-empty_line_example = split_lines-empty_line 1 (fifo_line 7) [] refl

-- The end times and the cycles of two processes
abbrev two_slots : List Slot
two_slots = count_cycle 2 (pos 30) (count_cycle 1 (pos 41) (count_cycle 0 (pos 30) (free_slots 9)))

two_slots-sums : (sum_end two_slots ≡ 5) × (sum_running two_slots ≡ 3)
unfolding count_cycle bump claim
two_slots-sums = (refl, refl)

-- A line of another class says nothing, and one without a comma stops the program.
other_line : read_entry 1 (codes "RR tracing: pid=3, remaining") ≡ other
unfolding read_entry starts_with
other_line = refl

no_comma : read_entry 2 (codes "RR tracing: pid=3") ≡ crash
unfolding read_entry starts_with before
no_comma = refl

-- A file that ends inside a line is never read to its end.
unfinished : run_file 1 (codes "FIFO tracing: pid=3") ≡ none
unfolding run_file split_lines
unfinished = refl
