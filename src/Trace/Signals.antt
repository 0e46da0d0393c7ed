-- ===== src/Trace/Signals.antt =====
-- A traced task's faults one after another: the counter of the page trace and the signals that the handler
-- do_page_fault of goldfish/arch/arm/mm/fault.c sends.
use operating_system_project.Prelude.{
  ℕ, suc, ◌+◌, ◌≡◌, ap, ◌∙◌, Bool, true, not, ◌&&◌, List, [], ◌∷◌, arith, ◌==◌, if◌then◌else◌,
}
use operating_system_project.Prelude.{inc32, u32, All}
use operating_system_project.Sched.Task.{Task}
use operating_system_project.Trace.Fault.{Fsr}
use operating_system_project.Trace.Handler.{Outcome, Faulting, Mm, Context, do_page_fault}
use operating_system_project.Trace.Faults.{is_accerr, do_page_fault-counts}

-- A fault of the task, and the memory that it finds: what happens to the memory in between is free.
pub record FaultAt (M : Type 0) : Type 0 where
  pub context : Context
  pub address : ℕ
  pub fsr : Fsr
  pub finds : M

-- One count more, in plain numbers
add-signal :
    (b : Bool) (flag k y n x : ℕ)
    → flag ≡ 1
    → y ≡ (if b && flag == 1 then inc32 k else k)
    → u32 x ≡ u32 (y + n)
    → u32 x ≡ u32 (k + (if b then suc n else n))
add-signal b flag k y n x t e h = ground arith

module _ {M : Type 0} (mm : Mm M) where
  abbrev pub fault_step : FaultAt M → Faulting M → Outcome × Faulting M
  fault_step a s = do_page_fault mm a.context a.address a.fsr (record s { memory = a.finds })

  pub faults : List (FaultAt M) → Faulting M → Faulting M
  faults [] s = s
  faults (a ∷ l) s = faults l (fault_step a s).1

  -- The signal of a refused write of data
  abbrev pub is_write_signal : FaultAt M → Outcome → Bool
  is_write_signal a o = is_accerr o && a.fsr.write && not a.fsr.prefetch

  -- How many of the faults end with such a signal
  unfoldable pub write_signals : List (FaultAt M) → Faulting M → ℕ
  write_signals [] s = 0
  write_signals (a ∷ l) s =
      let r = fault_step a s in
      let rest = write_signals l r.1 in if is_write_signal a r.0 then suc rest else rest

  -- Over the faults of user mode of a traced task, with any memory at each of them, the counter grows by the
  -- number of faults that end with SIGSEGV and SEGV_ACCERR for a write of data, modulo 2 ^ 32.
  pub faults-write_signals :
      (l : List (FaultAt M)) (s : Faulting M)
      → All (λ (a : FaultAt M). a.context.user_mode ≡ true) l
      → s.task.trace_flag ≡ 1
      → u32 (faults l s).task.wcounts ≡ u32 (s.task.wcounts + write_signals l s)
  unfolding faults write_signals
  faults-write_signals [] s u t = omega arith
  faults-write_signals (a ∷ l) s u t =
      let v : Faulting M = (fault_step a s).1 in
      let e =
        do_page_fault-counts mm a.context a.address a.fsr u.0 (record s { memory = a.finds }) in
      let flag : v.task.trace_flag ≡ 1 = ap (λ (k : Task). k.trace_flag) e ∙ t in
      let counts = ap (λ (k : Task). k.wcounts) e in
      add-signal (is_write_signal a (fault_step a s).0) s.task.trace_flag s.task.wcounts
        v.task.wcounts (write_signals l v) (faults l v).task.wcounts t counts
        (faults-write_signals l v u.1 flag)
