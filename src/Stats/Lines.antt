-- ===== src/Stats/Lines.antt =====
-- The lines that the kernel's classes log, as Project2/cmp/cmp.c reads them.
use operating_system_project.Prelude.{
  ℕ, zero, suc, ◌+◌, ◌/◌, ◌%◌, ◌<◌, ◌≡◌, refl, ap, ◌∙◌, inl, inr, true, false, some, List, [], ◌∷◌,
  ◌++◌, arith, ◌==◌, Bool-cases,
}
use operating_system_project.Prelude.{
  pos, is_digit, read_digits, read_digits-decimal_onto, decimal_onto, digits_onto, codes,
}
use operating_system_project.Sched.Rt.Log.{fifo_line, rr_line}
use operating_system_project.Stats.Log.{starts_with, atoi, before, read_entry, ran_pid, said_pid}

-- "RAS Tracing: pid=%d, remaining time slice=%d\n", which task_tick_ras writes
unfoldable pub ras_line : ℕ → ℕ → List ℕ
unfolding decimal_onto
ras_line pid slice =
    codes "RAS Tracing: pid="
    ++ decimal_onto pid (codes ", remaining time slice=" ++ decimal_onto slice (10 ∷ []))

atoi-digit :
    (c : ℕ) (cs : List ℕ) → is_digit c ≡ true → atoi (c ∷ cs) ≡ pos (read_digits 0 (c ∷ cs))
unfolding atoi
atoi-digit c cs h = ground arith

atoi-digits_onto :
    (fuel n : ℕ) (rest : List ℕ)
    → n < fuel
    → atoi (digits_onto fuel n rest) ≡ pos (read_digits 0 (digits_onto fuel n rest))
unfolding digits_onto
atoi-digits_onto zero n rest h = absurd (omega arith)
atoi-digits_onto (suc fuel) n rest h = elim (Bool-cases (n / 10 == 0)) [
  | inl last ↦ rw last (atoi-digit (48 + n) rest (ground arith))
  | inr more ↦ rw more (atoi-digits_onto fuel (n / 10) ((48 + n % 10) ∷ rest) (ground arith))
]

-- A decimal number is read as it was written.
atoi-decimal_onto : (n : ℕ) (rest : List ℕ) → atoi (decimal_onto n rest) ≡ pos (read_digits n rest)
unfolding decimal_onto
atoi-decimal_onto n rest =
    atoi-digits_onto (n + 1) n rest (omega arith) ∙ ap pos (read_digits-decimal_onto n rest)

before-digits_onto :
    (c fuel n : ℕ) (rest m : List ℕ)
    → n < fuel
    → is_digit c ≡ false
    → before c rest ≡ some m
    → before c (digits_onto fuel n rest) ≡ some (digits_onto fuel n m)
unfolding digits_onto before
before-digits_onto c zero n rest m h d e = absurd (omega arith)
before-digits_onto c (suc fuel) n rest m h d e =
    ground (arith, before-digits_onto c fuel (n / 10) ((48 + n % 10) ∷ rest) ((48 + n % 10) ∷ m))

before-decimal_onto :
    (c n : ℕ) (rest m : List ℕ)
    → is_digit c ≡ false
    → before c rest ≡ some m
    → before c (decimal_onto n rest) ≡ some (decimal_onto n m)
unfolding decimal_onto
before-decimal_onto c n rest m d e = before-digits_onto c (n + 1) n rest m (omega arith) d e

read-fifo : (pid : ℕ) → read_entry 1 (fifo_line pid) ≡ ran_pid (pos pid)
unfolding read_entry fifo_line starts_with read_digits
read-fifo pid = ap ran_pid (atoi-decimal_onto pid (10 ∷ []))

read-rr : (pid slice : ℕ) → read_entry 2 (rr_line pid slice) ≡ ran_pid (pos pid)
unfolding read_entry rr_line starts_with before read_digits
read-rr pid slice =
    ap said_pid (before-decimal_onto b',' pid _ [] refl refl)
    ∙ ap ran_pid (atoi-decimal_onto pid [])

read-ras : (pid slice : ℕ) → read_entry 3 (ras_line pid slice) ≡ ran_pid (pos pid)
unfolding read_entry ras_line starts_with before read_digits
read-ras pid slice =
    ap said_pid (before-decimal_onto b' ' pid _ (b',' ∷ []) refl refl)
    ∙ ap ran_pid (atoi-decimal_onto pid (b',' ∷ []))

-- A line that task_tick_rt or task_tick_ras writes for a traced task says to cmp.c, with the choice of that
-- class, that the task's pid ran for a cycle; whatever the pid and the time slice are.
pub read_entry-traced :
    (pid slice : ℕ)
    → (read_entry 1 (fifo_line pid) ≡ ran_pid (pos pid))
      × (read_entry 2 (rr_line pid slice) ≡ ran_pid (pos pid))
      × (read_entry 3 (ras_line pid slice) ≡ ran_pid (pos pid))
read_entry-traced pid slice = (read-fifo pid, read-rr pid slice, read-ras pid slice)
