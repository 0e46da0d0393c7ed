-- ===== src/Chat/Serve.antt =====
-- The body of `serve` in Project1/Problem4/server/server.c for one line, and the text of a line.
use operating_system_project.Chat.Cipher.{encrypt}
use operating_system_project.Prelude.{
  ℕ, Bool, true, false, not, ◌&&◌, List, [], ◌∷◌, ltb, ◌==◌, if◌then◌else◌,
}
use operating_system_project.Prelude.{ℤ, inc_ℤ, pos_part}

-- MAXCLIBUF
abbrev pub max_clibuf : ℕ
max_clibuf = 2

-- ":q\n" and "Please wait...\n"
abbrev pub quit_line : List ℕ
quit_line = 58 ∷ 113 ∷ 10 ∷ []

abbrev pub wait_line : List ℕ
wait_line = 80 ∷ 108 ∷ 101 ∷ 97 ∷ 115 ∷ 101 ∷ 32 ∷ 119 ∷ 97 ∷ 105 ∷ 116 ∷ 46 ∷ 46 ∷ 46 ∷ 10 ∷ []

-- strcmp(...) == 0
unfoldable pub same_text : List ℕ → List ℕ → Bool
same_text [] [] = true
same_text [] (y ∷ ys) = false
same_text (x ∷ xs) [] = false
same_text (x ∷ xs) (y ∷ ys) = x == y && same_text xs ys

-- `nserv < MAXCLIBUF`, on an int
abbrev pub has_room : ℤ → Bool
has_room n = ltb (pos_part n) max_clibuf

-- What the loop's body does: leave the loop, or write a reply.
pub data Action : Type 0 where
  leave : Action
  reply : List ℕ → Action

-- The shared counter, the thread's `start`, and the action for a line.
pub record Served : Type 0 where
  pub nserv : ℤ
  pub start : Bool
  pub action : Action

-- The part behind `if (start == 1)`
abbrev pub answer_line : Bool → List ℕ → Action
answer_line start l =
    if start then (if same_text quit_line l then leave else reply (encrypt l)) else reply wait_line

-- The loop's body for one line. The counter is read and written under the mutex.
unfoldable pub serve_line : ℤ → Bool → List ℕ → Served
unfolding same_text
serve_line nserv start l =
    if not start && has_room nserv
    then record { nserv = inc_ℤ nserv; start = true; action = answer_line true l }
    else record { nserv = nserv; start = start; action = answer_line start l }
