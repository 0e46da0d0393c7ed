-- ===== src/Trace/Faults.antt =====
-- What the page trace counts, over the whole handler do_page_fault of goldfish/arch/arm/mm/fault.c.
use operating_system_project.Prelude.{
  ℕ, ◌≡◌, refl, sym, ap, ◌∙◌, inl, inr, Bool, true, false, not, ◌&&◌, ◌||◌, Option, none, some,
  arith, ltb, leb, ◌==◌, if◌then◌else◌, Bool-cases,
}
use operating_system_project.Prelude.{inc32, case-if}
use operating_system_project.Sched.Task.{Task}
use operating_system_project.Trace.Fault.{Fsr, VmFlags, access_error, access_error-counts}
use operating_system_project.Trace.Handler.{
  Vma, Fault, bad_map, bad_access, mm_fault, sigsegv_accerr, Outcome, signalled, Faulting, Mm,
  Context, is_error, is_retry, count_fault, do_kernel_fault, do_user_fault, finish, good_area,
  check_stack, in_area, try_fault, after_second, after_first, do_page_fault,
}

-- SIGSEGV with SEGV_ACCERR
abbrev pub is_accerr : Outcome → Bool
is_accerr (signalled sigsegv_accerr) = true
is_accerr _ = false

abbrev is_bad_access : Fault → Bool
is_bad_access bad_access = true
is_bad_access _ = false

-- A task behind a fault, with a count if the access was refused and is a write of data under the trace
abbrev pub counted : Fsr → Bool → Task → Task
counted fsr refused t = record t {
  wcounts =
      if (refused && fsr.write && not fsr.prefetch) && t.trace_flag == 1
      then inc32 t.wcounts
      else t.wcounts;
}

access_error-counted :
    (fsr : Fsr) (vm : VmFlags) (t : Task)
    → (access_error fsr vm t).1 ≡ counted fsr (access_error fsr vm t).0 t
access_error-counted fsr vm t = rw (access_error-counts fsr vm t) (ground arith)

module _ {M : Type 0} where
  -- An attempt counts exactly a refused access.
  abbrev AttemptSpec : Fsr → Faulting M → Fault × Faulting M → Type 0
  AttemptSpec fsr s r = r.1.task ≡ counted fsr (is_bad_access r.0) s.task

  module _ (mm : Mm M) (addr : ℕ) (fsr : Fsr) where
    good_area-counts :
        (allow : Bool) (vma : Vma) (s : Faulting M)
        → AttemptSpec fsr s (good_area mm addr fsr allow vma s)
    unfolding good_area
    good_area-counts allow vma s =
        let e = access_error-counted fsr vma.vm_flags s.task in
        case-if (AttemptSpec fsr s) (access_error fsr vma.vm_flags s.task).0 _ _
          (λ refused. e ∙ ap (λ b. counted fsr b s.task) refused)
          (λ granted. e ∙ ap (λ b. counted fsr b s.task) granted)

    check_stack-counts :
        (allow : Bool) (vma : Vma) (s : Faulting M)
        → AttemptSpec fsr s (check_stack mm addr fsr allow vma s)
    unfolding check_stack
    check_stack-counts allow vma s =
        let grown = mm.expand_stack s.memory vma addr in
        let v : Faulting M = record s { memory = grown.1 } in
        case-if (AttemptSpec fsr s) (vma.grows_down && leb mm.first_user_address addr) _ _
          (λ may.
            case-if (AttemptSpec fsr s) grown.0 _ _ (λ g. good_area-counts allow vma v) (λ g. refl))
          (λ no. refl)

    in_area-counts :
        (allow : Bool) (o : Option Vma) (s : Faulting M)
        → AttemptSpec fsr s (in_area mm addr fsr allow o s)
    in_area-counts allow none s = refl
    in_area-counts allow (some vma) s = elim (Bool-cases (ltb addr vma.vm_start)) [
      | inl below ↦ rw below (check_stack-counts allow vma s)
      | inr inside ↦ rw inside (good_area-counts allow vma s)
    ]

    try_fault-counts :
        (allow : Bool) (s : Faulting M) → AttemptSpec fsr s (try_fault mm addr fsr allow s)
    unfolding try_fault
    try_fault-counts allow s = in_area-counts allow (mm.find_vma s.memory addr) s

  finish-keeps :
      (c : Context) (addr : ℕ) (fsr : Fsr) (f : Fault) (s : Faulting M)
      → (finish c addr fsr f s).1.task ≡ s.task
  unfolding finish do_user_fault
  finish-keeps c addr fsr bad_map s = ground arith
  finish-keeps c addr fsr bad_access s = ground arith
  finish-keeps c addr fsr (mm_fault f) s = ground arith

  finish-accerr :
      (c : Context) (addr : ℕ) (fsr : Fsr) (f : Fault) (s : Faulting M)
      → c.user_mode ≡ true
      → is_accerr (finish c addr fsr f s).0 ≡ is_bad_access f
  unfolding finish do_user_fault
  finish-accerr c addr fsr bad_map s u = rw u refl
  finish-accerr c addr fsr bad_access s u = rw u refl
  finish-accerr c addr fsr (mm_fault f) s u = rw u (ground arith)

  -- The end of the handler shows what was counted.
  abbrev OutcomeSpec : Fsr → Task → Outcome × Faulting M → Type 0
  OutcomeSpec fsr t r = r.1.task ≡ counted fsr (is_accerr r.0) t

  module _ (mm : Mm M) (c : Context) (addr : ℕ) (fsr : Fsr) (user : c.user_mode ≡ true) where
    finish-counts :
        (f : Fault) (s : Faulting M) (t : Task)
        → s.task ≡ counted fsr (is_bad_access f) t
        → OutcomeSpec fsr t (finish c addr fsr f s)
    finish-counts f s t h =
        finish-keeps c addr fsr f s
        ∙ h
        ∙ ap (λ b. counted fsr b t) (sym (finish-accerr c addr fsr f s user))

    kernel_fault-counts : (s : Faulting M) → OutcomeSpec fsr s.task (do_kernel_fault c, s)
    unfolding do_kernel_fault
    kernel_fault-counts s =
        case-if (λ o. OutcomeSpec fsr s.task (o, s)) c.fixup _ _ (λ f. refl) (λ f. refl)

    retry-task :
        (f : Fault) (b : Bool) (t t' : Task)
        → is_retry f && b ≡ true
        → t' ≡ counted fsr (is_bad_access f) t
        → t' ≡ t
    retry-task (mm_fault f) b t t' h e = e
    retry-task bad_map b t t' h e = e
    retry-task bad_access b t t' h e = absurd (ground arith)

    count_fault-task : (f : Fault) (s : Faulting M) → (count_fault f s).task ≡ s.task
    count_fault-task f s = ground arith

    after_second-counts :
        (r : Fault × Faulting M) (t : Task)
        → r.1.task ≡ counted fsr (is_bad_access r.0) t
        → OutcomeSpec fsr t (after_second mm c addr fsr r)
    unfolding after_second
    after_second-counts (f, s) t h =
        case-if (OutcomeSpec fsr t) (is_retry f && mm.fatal_signal_pending s.memory) _ _
          (λ retry. retry-task f (mm.fatal_signal_pending s.memory) t s.task retry h)
          (λ no. finish-counts f s t h)

    after_first-counts :
        (r : Fault × Faulting M) (t : Task)
        → r.1.task ≡ counted fsr (is_bad_access r.0) t
        → OutcomeSpec fsr t (after_first mm c addr fsr r)
    unfolding after_first
    after_first-counts (f, s) t h =
        let v = count_fault f s in
        let k = count_fault-task f s ∙ h in
        case-if (OutcomeSpec fsr t) (is_retry f && mm.fatal_signal_pending s.memory) _ _
          (λ retry. retry-task f (mm.fatal_signal_pending s.memory) t s.task retry h)
          (λ no.
            case-if (OutcomeSpec fsr t) (is_error f) _ _ (λ bad. finish-counts f s t h)
              (λ good.
                case-if (OutcomeSpec fsr t) (is_retry f) _ _
                  (λ again.
                    let same = retry-task f true t v.task (ground arith) k in
                    let r = try_fault mm addr fsr false v in
                    after_second-counts r t (
                      try_fault-counts mm addr fsr false v
                      ∙ ap (counted fsr (is_bad_access r.0)) same))
                  (λ once. finish-counts f v t k)))

    -- For a fault of user mode, whatever the memory management answers and however often it asks for a
    -- retry: the handler changes nothing of the task but the trace's counter, and that goes up by one,
    -- modulo 2 ^ 32, exactly if the task is traced, the access is a write of data, and the task gets
    -- SIGSEGV with SEGV_ACCERR.
    pub do_page_fault-counts :
        (s : Faulting M)
        → (do_page_fault mm c addr fsr s).1.task
          ≡ counted fsr (is_accerr (do_page_fault mm c addr fsr s).0) s.task
    unfolding do_page_fault
    do_page_fault-counts s =
        case-if (OutcomeSpec fsr s.task) c.notified _ _ (λ n. refl)
          (λ n.
            case-if (OutcomeSpec fsr s.task) (c.atomic || not s.task.has_mm) _ _
              (λ a. kernel_fault-counts s)
              (λ a.
                case-if (OutcomeSpec fsr s.task)
                  (not c.lock_free && not c.user_mode && not c.in_tables) _ _
                  (λ l. kernel_fault-counts s)
                  (λ l.
                    after_first-counts (try_fault mm addr fsr true s) s.task
                      (try_fault-counts mm addr fsr true s))))
