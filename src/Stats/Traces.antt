-- ===== src/Stats/Traces.antt =====
-- The whole logs of traced processes, as Project2/cmp/cmp.c counts them.
use operating_system_project.Prelude.{
  ℕ, zero, suc, ◌+◌, ◌≤◌, ◌≡◌, refl, ap, ◌∙◌, true, Option, some, List, [], ◌∷◌, map, arith, length,
}
use operating_system_project.Prelude.{pos, All, count, member}
use operating_system_project.Sched.Rt.Log.{fifo_line, rr_line}
use operating_system_project.Stats.Slots.{free_slot, free_slots, count_cycle}
use operating_system_project.Stats.Log.{
  Said, ran_pid, said, Stats, started, count_pid, read_entry, run_lines, on_lines, run_file,
}
use operating_system_project.Stats.Files.{is_line, file_of, split_lines-file_of, is_line-traced}
use operating_system_project.Stats.Lines.{ras_line, read_entry-traced}
use operating_system_project.Stats.Counts.{
  running_of, IsSlotted, Counting, Stepped, count_cycle-Stepped,
}

-- The classes whose ticks are traced
pub data Traced : Type 0 where
  fifo : Traced
  rr : Traced
  ras : Traced

-- What the user types for a class
abbrev pub choice_of : Traced → ℕ
choice_of fifo = 1
choice_of rr = 2
choice_of ras = 3

-- The line of a tick of the class, from the task's pid and the rest of its time slice
abbrev pub line_of : Traced → ℕ × ℕ → List ℕ
line_of fifo (pid, slice) = fifo_line pid
line_of rr (pid, slice) = rr_line pid slice
line_of ras (pid, slice) = ras_line pid slice

abbrev pub pid_of : ℕ × ℕ → ℕ
pid_of (pid, slice) = pid

read_entry-line_of :
    (c : Traced) (t : ℕ × ℕ) → read_entry (choice_of c) (line_of c t) ≡ ran_pid (pos (pid_of t))
read_entry-line_of fifo (pid, slice) = (read_entry-traced pid slice).0
read_entry-line_of rr (pid, slice) = (read_entry-traced pid slice).1
read_entry-line_of ras (pid, slice) = (read_entry-traced pid slice).2

IsSlotted-free_slot : (known : List ℕ) → IsSlotted known free_slot
IsSlotted-free_slot known = record {
  unused = λ e. refl;
  natural = λ e. refl;
  listed = λ e. absurd (ground arith);
}

All-free_slots : (known : List ℕ) (n : ℕ) → All (IsSlotted known) (free_slots n)
All-free_slots known zero = tt
All-free_slots known (suc n) = (IsSlotted-free_slot known, All-free_slots known n)

Counting-started : (known : List ℕ) → Counting known (free_slots 9)
Counting-started known = record {
  slotted = All-free_slots known 9;
  once = λ a. omega arith;
  nine = refl;
}

-- What the program has counted after the ticks of some processes
record Tallied (ps : List ℕ) (st : Stats) (st' : Option Stats) : Type 0 where
  end : Stats
  reached : st' ≡ some end
  runs : (m : ℕ) → running_of m end.slots ≡ running_of m st.slots + count m ps
  cycles : end.cycle ≡ st.cycle + length ps

Tallied-said :
    (c : Traced) (known : List ℕ) (n : ℕ) (ps : List ℕ) (st : Stats) (e : Said)
    (next : Stats → Option Stats)
    → e ≡ ran_pid (pos n)
    → Stepped known n st.slots (count_cycle st.cycle (pos n) st.slots)
    → (Counting known (count_cycle st.cycle (pos n) st.slots)
        → Tallied ps (count_pid (pos n) st) (next (count_pid (pos n) st)))
    → Tallied (n ∷ ps) st (said e next st)
unfolding count_pid
Tallied-said c known n ps st e next r step f =
    let rest = f step.kept in
    record {
      end = rest.end;
      reached = ap (λ e'. said e' next st) r ∙ rest.reached;
      runs = λ m. ground (arith, rest.runs m, step.runs m);
      cycles = omega (arith, rest.cycles);
    }

run_lines-Tallied :
    (c : Traced) (known : List ℕ) (ts : List (ℕ × ℕ)) (st : Stats)
    → length known ≤ 9
    → All (λ t. member (pid_of t) known ≡ true) ts
    → Counting known st.slots
    → Tallied (map pid_of ts) st (run_lines (choice_of c) (map (line_of c) ts) st)
unfolding run_lines
run_lines-Tallied c known [] st k m h = record {
  end = st;
  reached = refl;
  runs = λ m. omega arith;
  cycles = omega arith;
}
run_lines-Tallied c known (t ∷ ts) st k m h =
    Tallied-said c known (pid_of t) (map pid_of ts) st (read_entry (choice_of c) (line_of c t))
      (run_lines (choice_of c) (map (line_of c) ts)) (read_entry-line_of c t)
      (count_cycle-Stepped known st.cycle (pid_of t) st.slots k m.0 h)
      (λ kept. run_lines-Tallied c known ts (count_pid (pos (pid_of t)) st) k m.1 kept)

length-map : (ts : List (ℕ × ℕ)) → length (map pid_of ts) ≡ length ts
length-map [] = refl
length-map (t ∷ ts) = omega (arith, length-map ts)

is_line-line_of : (c : Traced) (t : ℕ × ℕ) → is_line (line_of c t) ≡ true
is_line-line_of fifo (pid, slice) = (is_line-traced pid slice).0
is_line-line_of rr (pid, slice) = (is_line-traced pid slice).1
is_line-line_of ras (pid, slice) = (is_line-traced pid slice).2

All-lines : (c : Traced) (ts : List (ℕ × ℕ)) → All (λ l. is_line l ≡ true) (map (line_of c) ts)
All-lines c [] = tt
All-lines c (t ∷ ts) = (is_line-line_of c t, All-lines c ts)

-- From a log of a class's ticks alone, in which at most nine processes occur, the program reads every line to
-- the end of the file, counts as many cycles as there are ticks, and counts for each process exactly the
-- ticks of that process.
pub run_file-counts :
    (c : Traced) (known : List ℕ) (ts : List (ℕ × ℕ))
    → length known ≤ 9
    → All (λ t. member (pid_of t) known ≡ true) ts
    → (end : Stats) × (run_file (choice_of c) (file_of (map (line_of c) ts)) ≡ some end)
      × (end.cycle ≡ length ts)
      × ((m : ℕ) → running_of m end.slots ≡ count m (map pid_of ts))
unfolding run_file started
run_file-counts c known ts k m =
    let all = run_lines-Tallied c known ts started k m (Counting-started known) in
    (
      all.end,
      ap (on_lines (choice_of c)) (split_lines-file_of (map (line_of c) ts) (All-lines c ts))
          ∙ all.reached,
      omega (arith, all.cycles, length-map ts),
      λ m. omega (arith, all.runs m),
    )
