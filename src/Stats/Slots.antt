-- ===== src/Stats/Slots.antt =====
-- The nine slots of Project2/cmp/cmp.c, in which the program counts the cycles of a process. An int of the
-- program is a number that does not overflow.
use operating_system_project.Prelude.{
  ℕ, zero, suc, ◌+◌, Bool, true, false, ◌&&◌, Option, none, some, List, [], ◌∷◌, ◌==◌,
  if◌then◌else◌,
}
use operating_system_project.Prelude.{ℤ, pos, negsuc}

-- marked[i], pid[i], end_time[i] and running_cycle[i]
pub record Slot : Type 0 where
  pub marked : Bool
  pub pid : ℤ
  pub end_time : ℕ
  pub running_cycle : ℕ

abbrev pub free_slot : Slot
free_slot = record { marked = false; pid = pos 0; end_time = 0; running_cycle = 0 }

abbrev pub free_slots : ℕ → List Slot
free_slots zero = []
free_slots (suc n) = free_slot ∷ free_slots n

abbrev pub same_ℤ : ℤ → ℤ → Bool
same_ℤ (pos a) (pos b) = a == b
same_ℤ (negsuc a) (negsuc b) = a == b
same_ℤ (pos a) (negsuc b) = false
same_ℤ (negsuc a) (pos b) = false

-- A cycle of the slot's process
abbrev pub ran : ℕ → Slot → Slot
ran cycle s = record s { end_time = cycle + 1; running_cycle = s.running_cycle + 1 }

abbrev pub behind : Slot → Option (List Slot) → Option (List Slot)
behind s none = none
behind s (some ss) = some (s ∷ ss)

-- The first loop: the slot that is marked for the process
unfoldable pub bump : ℕ → ℤ → List Slot → Option (List Slot)
bump cycle n [] = none
bump cycle n (s ∷ ss) =
    let rest = behind s (bump cycle n ss) in
    if s.marked && same_ℤ s.pid n then some (ran cycle s ∷ ss) else rest

-- The second loop: the first slot that is not marked
unfoldable pub claim : ℕ → ℤ → List Slot → Option (List Slot)
claim cycle n [] = none
claim cycle n (s ∷ ss) =
    let rest = behind s (claim cycle n ss) in
    if s.marked then rest else some (record (ran cycle s) { pid = n; marked = true } ∷ ss)

abbrev pub or_else : Option (List Slot) → List Slot → List Slot
or_else none ss = ss
or_else (some ss) other = ss

-- Both loops: with no slot for it, a process is not counted.
unfoldable pub count_cycle : ℕ → ℤ → List Slot → List Slot
unfolding bump claim
count_cycle cycle n ss = or_else (bump cycle n ss) (or_else (claim cycle n ss) ss)

-- The sums behind the printed averages: of the end times, and of the cycles
abbrev pub sum_end : List Slot → ℕ
sum_end [] = 0
sum_end (s ∷ ss) = s.end_time + sum_end ss

abbrev pub sum_running : List Slot → ℕ
sum_running [] = 0
sum_running (s ∷ ss) = s.running_cycle + sum_running ss
