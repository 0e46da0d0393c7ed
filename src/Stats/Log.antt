-- ===== src/Stats/Log.antt =====
-- The reading of the log in Project2/cmp/cmp.c: the lines of the file, what a line says, and the loop. A file
-- is the list of its bytes, and its lines fit in the buffer. A line of a prefix alone has no number: the model
-- reads 0 there, and the program what an earlier line left in the buffer.
use operating_system_project.Prelude.{
  ℕ, zero, suc, ◌+◌, Bool, true, false, ◌&&◌, ◌||◌, Option, none, some, List, [], ◌∷◌, ◌++◌, leb,
  ◌==◌, if◌then◌else◌,
}
use operating_system_project.Prelude.{ℤ, pos, negsuc, read_digits, codes, drop}
use operating_system_project.Stats.Slots.{Slot, free_slots, count_cycle}

-- The lines of a file. A line's first byte is taken whatever it is, and then all bytes up to the end of a
-- line; the program never stops reading where the file ends inside a line, which is none.
abbrev pub with_line : List ℕ → Option (List (List ℕ)) → Option (List (List ℕ))
with_line l none = none
with_line l (some ls) = some (l ∷ ls)

unfoldable pub split_lines : List ℕ → List ℕ → Option (List (List ℕ))
split_lines [] [] = some []
split_lines (x ∷ xs) [] = none
split_lines [] (c ∷ cs) = split_lines (c ∷ []) cs
split_lines (x ∷ xs) (c ∷ cs) =
    let line = with_line ((x ∷ xs) ++ c ∷ []) (split_lines [] cs) in
    let more = split_lines ((x ∷ xs) ++ c ∷ []) cs in if c == 10 then line else more

-- strncmp(prefix, buf, strlen(prefix)) == 0
unfoldable pub starts_with : List ℕ → List ℕ → Bool
starts_with [] l = true
starts_with (p ∷ ps) [] = false
starts_with (p ∷ ps) (c ∷ cs) = p == c && starts_with ps cs

abbrev pub negative : ℕ → ℤ
negative zero = pos 0
negative (suc n) = negsuc n

abbrev pub is_space : ℕ → Bool
is_space c = c == 32 || (leb 9 c && leb c 13)

-- atoi
unfoldable pub atoi : List ℕ → ℤ
unfolding read_digits
atoi [] = pos 0
atoi (c ∷ cs) =
    let rest = atoi cs in
    if is_space c
    then rest
    else if c == b'-'
    then negative (read_digits 0 cs)
    else if c == b'+'
    then pos (read_digits 0 cs)
    else pos (read_digits 0 (c ∷ cs))

abbrev pub in_front : ℕ → Option (List ℕ) → Option (List ℕ)
in_front x none = none
in_front x (some l) = some (x ∷ l)

-- The bytes in front of the first `c`, which strchr finds and the program overwrites by 0
unfoldable pub before : ℕ → List ℕ → Option (List ℕ)
before c [] = none
before c (x ∷ xs) = let rest = in_front x (before c xs) in if x == c then some [] else rest

-- What a line does: nothing, the count of a process, or a write through the null pointer that strchr gave.
pub data Said : Type 0 where
  other : Said
  ran_pid : ℤ → Said
  crash : Said

abbrev pub said_pid : Option (List ℕ) → Said
said_pid none = crash
said_pid (some l) = ran_pid (atoi l)

-- The cases of `switch (choice)`
unfoldable pub read_entry : ℕ → List ℕ → Said
unfolding starts_with atoi before
read_entry choice buf =
    if choice == 1
    then (if starts_with (codes "FIFO tracing: ") buf then ran_pid (atoi (drop 18 buf)) else other)
    else if choice == 2
    then (if starts_with (codes "RR tracing: ") buf
        then said_pid (before b',' (drop 16 buf))
        else other)
    else if choice == 3
    then (if starts_with (codes "RAS Tracing: pid=") buf
        then said_pid (before b' ' (drop 17 buf))
        else other)
    else other

-- `cycle`, the slots, and the lines printed so far as pairs of a cycle and a process
pub record Stats : Type 0 where
  pub cycle : ℕ
  pub slots : List Slot
  pub printed : List (ℕ × ℤ)

unfoldable pub started : Stats
started = record { cycle = 0; slots = free_slots 9; printed = [] }

-- What one line does to the program's state
unfoldable pub count_pid : ℤ → Stats → Stats
unfolding count_cycle
count_pid n st = record {
  cycle = st.cycle + 1;
  slots = count_cycle st.cycle n st.slots;
  printed = st.printed ++ (st.cycle, n) ∷ [];
}

abbrev pub said : Said → (Stats → Option Stats) → Stats → Option Stats
said other next st = next st
said (ran_pid n) next st = next (count_pid n st)
said crash next st = none

-- The loop over the lines
unfoldable pub run_lines : ℕ → List (List ℕ) → Stats → Option Stats
unfolding read_entry count_pid
run_lines choice [] st = some st
run_lines choice (l ∷ ls) st = said (read_entry choice l) (run_lines choice ls) st

abbrev pub on_lines : ℕ → Option (List (List ℕ)) → Option Stats
on_lines choice none = none
on_lines choice (some ls) = run_lines choice ls started

-- main, up to the printing of the slots
unfoldable pub run_file : ℕ → List ℕ → Option Stats
unfolding split_lines run_lines started
run_file choice file = on_lines choice (split_lines [] file)
