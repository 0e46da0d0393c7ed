-- ===== src/Stats/Files.antt =====
-- The lines of a file, as the loop of Project2/cmp/cmp.c takes them.
use operating_system_project.Prelude.{
  All, ℕ, zero, suc, ◌+◌, ◌/◌, ◌%◌, ◌≡◌, refl, ap, ◌∙◌, Bool, true, false, not, ◌&&◌, some, List,
  [], ◌∷◌, ◌++◌, arith, ◌==◌, if◌then◌else◌,
}
use operating_system_project.Prelude.{decimal_onto, digits_onto, append_assoc}
use operating_system_project.Sched.Rt.Log.{fifo_line, rr_line}
use operating_system_project.Stats.Log.{split_lines, with_line, read_entry, starts_with, other}
use operating_system_project.Stats.Lines.{ras_line}

abbrev pub is_empty : List ℕ → Bool
is_empty [] = true
is_empty (c ∷ cs) = false

-- The bytes end with the end of a line, and have no other.
abbrev pub is_tail : List ℕ → Bool
is_tail [] = false
is_tail (c ∷ cs) = if c == 10 then is_empty cs else is_tail cs

-- A line that has at least one byte in front of its end
abbrev pub is_line : List ℕ → Bool
is_line [] = false
is_line (c ∷ cs) = not (c == 10) && is_tail cs

-- The bytes of some lines
abbrev pub file_of : List (List ℕ) → List ℕ
file_of [] = []
file_of (l ∷ ls) = l ++ file_of ls

split_lines-tail :
    (x : ℕ) (xs l rest : List ℕ)
    → is_tail l ≡ true
    → split_lines (x ∷ xs) (l ++ rest) ≡ with_line ((x ∷ xs) ++ l) (split_lines [] rest)
unfolding split_lines
split_lines-tail x xs [] rest h = absurd (ground arith)
split_lines-tail x xs (c ∷ []) rest h = ground arith
split_lines-tail x xs (c ∷ y ∷ cs) rest h =
    let more : (c == 10) ≡ false = ground arith in
    rw more (
      split_lines-tail x (xs ++ c ∷ []) (y ∷ cs) rest (ground arith)
      ∙ ap (λ l. with_line (x ∷ l) (split_lines [] rest)) (append_assoc xs (c ∷ []) (y ∷ cs)))

split_lines-line :
    (l rest : List ℕ)
    → is_line l ≡ true
    → split_lines [] (l ++ rest) ≡ with_line l (split_lines [] rest)
unfolding split_lines
split_lines-line [] rest h = absurd (ground arith)
split_lines-line (c ∷ cs) rest h = split_lines-tail c [] cs rest (ground arith)

-- All bytes of the file are read, a line for each line of the log, whatever the lines say.
pub split_lines-file_of :
    (ls : List (List ℕ)) → All (λ l. is_line l ≡ true) ls → split_lines [] (file_of ls) ≡ some ls
unfolding split_lines
split_lines-file_of [] h = refl
split_lines-file_of (l ∷ ls) h =
    split_lines-line l (file_of ls) h.0 ∙ ap (with_line l) (split_lines-file_of ls h.1)

-- An empty line hides the line behind it: the program reads both as one line, and that line counts nothing,
-- for every choice and whatever the hidden line says.
pub split_lines-empty_line :
    (choice : ℕ) (l rest : List ℕ)
    → is_tail l ≡ true
    → (split_lines [] (10 ∷ l ++ rest) ≡ with_line (10 ∷ l) (split_lines [] rest))
      × (read_entry choice (10 ∷ l) ≡ other)
unfolding split_lines read_entry starts_with
split_lines-empty_line choice l rest h = (split_lines-tail 10 [] l rest h, ground arith)

is_tail-digits_onto :
    (fuel n : ℕ) (rest : List ℕ) → is_tail rest ≡ true → is_tail (digits_onto fuel n rest) ≡ true
unfolding digits_onto
is_tail-digits_onto zero n rest h = h
is_tail-digits_onto (suc fuel) n rest h =
    ground (arith, is_tail-digits_onto fuel (n / 10) ((48 + n % 10) ∷ rest))

is_tail-decimal_onto :
    (n : ℕ) (rest : List ℕ) → is_tail rest ≡ true → is_tail (decimal_onto n rest) ≡ true
unfolding decimal_onto
is_tail-decimal_onto n rest h = is_tail-digits_onto (n + 1) n rest h

-- The lines of the classes' ticks are lines.
pub is_line-traced :
    (pid slice : ℕ)
    → (is_line (fifo_line pid) ≡ true)
      × (is_line (rr_line pid slice) ≡ true)
      × (is_line (ras_line pid slice) ≡ true)
unfolding fifo_line rr_line ras_line
is_line-traced pid slice = (
  is_tail-decimal_onto pid (10 ∷ []) refl,
  is_tail-decimal_onto pid _ (is_tail-decimal_onto slice (10 ∷ []) refl),
  is_tail-decimal_onto pid _ (is_tail-decimal_onto slice (10 ∷ []) refl),
)
