-- ===== src/Trace/Table.antt =====
-- The hooks of the modules in the system call table: addsyscall_init and addsyscall_exit of
-- page-trace/start_trace.c, and of the other modules, whose init has no lookups of kernel symbols.
use operating_system_project.Trace.Mprotect.{enosys}
use operating_system_project.Prelude.{
  ==_iff, ℕ, ◌≡◌, sym, ◌≢◌, ◌⊎◌, inl, inr, Option, none, some, List, [], ◌∷◌, arith, refl, ◌∙◌,
  ==_ne, ◌==◌, Bool-cases, update,
}
use operating_system_project.Prelude.{ℤ, pos}

-- The table, and what a module keeps in its `oldcall` variable.
pub record Hook : Type 0 where
  pub table : ℕ → ℕ
  pub oldcall : ℕ

-- addsyscall_init of a module for the number `nr` with the function `entry`
unfoldable pub hook_init : ℕ → ℕ → Hook → ℤ × Hook
hook_init nr entry h = (pos 0, record { table = update h.table nr entry; oldcall = h.table nr })

-- addsyscall_exit
unfoldable pub hook_exit : ℕ → Hook → Hook
hook_exit nr h = record h { table = update h.table nr h.oldcall }

-- The other modules, each with its number in the table
abbrev pub stop_trace_init : ℕ → Hook → ℤ × Hook
stop_trace_init = hook_init 362

abbrev pub get_trace_init : ℕ → Hook → ℤ × Hook
get_trace_init = hook_init 363

abbrev pub get_trace_exit : Hook → Hook
get_trace_exit = hook_exit 363

abbrev pub rr_fifo_trace_init : ℕ → Hook → ℤ × Hook
rr_fifo_trace_init = hook_init 364

abbrev pub rr_fifo_trace_exit : Hook → Hook
rr_fifo_trace_exit = hook_exit 364

abbrev pub set_wcounts_init : ℕ → Hook → ℤ × Hook
set_wcounts_init = hook_init 365

abbrev pub set_wcounts_exit : Hook → Hook
set_wcounts_exit = hook_exit 365

abbrev pub ptree_init : ℕ → Hook → ℤ × Hook
ptree_init = hook_init 356

abbrev pub ptree_exit : Hook → Hook
ptree_exit = hook_exit 356

abbrev pub start_trace_exit : Hook → Hook
start_trace_exit = hook_exit 361

-- addsyscall_init of start_trace.c: it looks up two kernel symbols when the table has been written.
unfoldable pub start_trace_init : Option ℕ → Option ℕ → ℕ → Hook → ℤ × Hook
unfolding hook_init
start_trace_init none security entry h = (enosys, (hook_init 361 entry h).1)
start_trace_init (some fixup) none entry h = (enosys, (hook_init 361 entry h).1)
start_trace_init (some fixup) (some security) entry h = hook_init 361 entry h

-- What other modules write to the table: at a number the address of a function, or what they have kept
abbrev pub written : List (ℕ × ℕ) → (ℕ → ℕ) → ℕ → ℕ
written [] table = table
written ((nr, entry) ∷ ws) table = written ws (update table nr entry)

-- None of the writes is at a number.
abbrev pub Spare : ℕ → List (ℕ × ℕ) → Type 0
Spare nr [] = Unit {0}
Spare nr ((i, entry) ∷ ws) = (i ≢ nr) × Spare nr ws

-- The two tables have the same entries but at a number.
abbrev AgreeBut : ℕ → (ℕ → ℕ) → (ℕ → ℕ) → Type 0
AgreeBut nr f g = (i : ℕ) → i ≢ nr → f i ≡ g i

update-AgreeBut :
    (nr i entry : ℕ) (f g : ℕ → ℕ)
    → AgreeBut nr f g
    → AgreeBut nr (update f i entry) (update g i entry)
update-AgreeBut nr i entry f g h j other = elim (Bool-cases (i == j)) [
  | inl e ↦ rw e refl
  | inr e ↦ rw e (h j other)
]

written-AgreeBut :
    (nr : ℕ) (ws : List (ℕ × ℕ)) (f g : ℕ → ℕ)
    → AgreeBut nr f g
    → AgreeBut nr (written ws f) (written ws g)
written-AgreeBut nr [] f g h = h
written-AgreeBut nr ((i, entry) ∷ ws) f g h =
    written-AgreeBut nr ws (update f i entry) (update g i entry) (update-AgreeBut nr i entry f g h)

written-Spare : (nr : ℕ) (ws : List (ℕ × ℕ)) (f : ℕ → ℕ) → Spare nr ws → written ws f nr ≡ f nr
written-Spare nr [] f h = refl
written-Spare nr ((i, entry) ∷ ws) f (n, h) =
    written-Spare nr ws (update f i entry) h ∙ rw (==_ne i nr n) refl

-- The table as if a module had never been loaded: it is loaded, other modules write to other entries,
-- whatever and however often, and it is unloaded. Every entry is what these writes alone would have left.
pub hook_exit-hook_init :
    (nr entry : ℕ) (h : Hook) (ws : List (ℕ × ℕ))
    → Spare nr ws
    → (i : ℕ)
    → (let v = (hook_init nr entry h).1 in
        (hook_exit nr (record v { table = written ws v.table })).table i ≡ written ws h.table i)
unfolding hook_init hook_exit
hook_exit-hook_init nr entry h ws spare i = elim (Bool-cases (nr == i)) [
  | inl e ↦
      let same : nr ≡ i = (==_iff nr i).0 e in
      rw (e, ← same) (sym (written-Spare nr ws h.table spare))
  | inr e ↦ rw e (
      written-AgreeBut nr ws (update h.table nr entry) h.table
        (λ j other. rw (==_ne nr j (λ x. other (sym x))) refl) i
        (λ x. cc (e, (==_iff nr i).1 (sym x))))
]

-- Loading start_trace.c while a kernel symbol is missing fails with -ENOSYS, and the entry of its system call
-- is lost: even when the module is later loaded with both symbols found and unloaded again, the table has the
-- function of the module that failed to load at number 361, and everything else as it was.
pub start_trace_init-stays :
    (fixup security : Option ℕ) (entry found guard again : ℕ) (h : Hook)
    → ((fixup ≡ none) ⊎ (security ≡ none))
    → ((start_trace_init fixup security entry h).0 ≡ enosys)
      × ((i : ℕ)
          → (start_trace_exit
                (start_trace_init
                  (some found)
                  (some guard)
                  again
                  (start_trace_init fixup security entry h).1).1).table
              i
            ≡ update h.table 361 entry i)
unfolding start_trace_init hook_init hook_exit
start_trace_init-stays fixup security entry found guard again h e =
    (lost fixup security e, left fixup security e)
  where
    lost : (f s : Option ℕ) → (f ≡ none) ⊎ (s ≡ none) → (start_trace_init f s entry h).0 ≡ enosys
    lost none s e = refl
    lost (some f) none e = refl
    lost (some f) (some s) e = absurd (ground arith)

    left :
        (f s : Option ℕ)
        → (f ≡ none) ⊎ (s ≡ none)
        → (i : ℕ)
        → (start_trace_exit
              (start_trace_init
                (some found)
                (some guard)
                again
                (start_trace_init f s entry h).1).1).table
            i
          ≡ update h.table 361 entry i
    left none s e i = ground arith
    left (some f) none e i = ground arith
    left (some f) (some s) e i = absurd (ground arith)
