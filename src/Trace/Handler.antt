-- ===== src/Trace/Handler.antt =====
-- do_page_fault of goldfish/arch/arm/mm/fault.c, for the task that runs. What the memory management and the
-- processor answer is the record Mm, over a memory of any type; the lock mmap_sem is left out, but for the
-- answer of its trylock, and so are the performance counters and the printed messages.
use operating_system_project.Prelude.{
  ℕ, Bool, true, false, not, ◌&&◌, ◌||◌, Option, none, some, ltb, leb, if◌then◌else◌,
}
use operating_system_project.Prelude.{inc32}
use operating_system_project.Sched.Task.{Task}
use operating_system_project.Trace.Fault.{Fsr, VmFlags, access_error}

-- `struct vm_area_struct`, as far as the handler reads it
pub record Vma : Type 0 where
  pub vm_start : ℕ
  pub vm_flags : VmFlags
  pub grows_down : Bool

-- The bits that handle_mm_fault returns; the first three belong to VM_FAULT_ERROR.
pub record MmFault : Type 0 where
  pub oom : Bool
  pub sigbus : Bool
  pub other_error : Bool
  pub major : Bool
  pub retry : Bool

-- What __do_page_fault returns: VM_FAULT_BADMAP, VM_FAULT_BADACCESS, or the bits of handle_mm_fault
pub data Fault : Type 0 where
  bad_map : Fault
  bad_access : Fault
  mm_fault : MmFault → Fault

pub data Signal : Type 0 where
  sigsegv_maperr : Signal
  sigsegv_accerr : Signal
  sigbus_adrerr : Signal

-- How the handler ends: it returns, with a signal for the task or a call of the OOM killer, or it goes to
-- the fixup of a kernel access or to the death of the task.
pub data Outcome : Type 0 where
  returned : Outcome
  signalled : Signal → Outcome
  out_of_memory : Outcome
  fixed_up : Outcome
  oops : Outcome

-- The running task with its fault counters, the fields of its `thread`, and the memory
pub record Faulting (M : Type 0) : Type 0 where
  pub task : Task
  pub maj_flt : ℕ
  pub min_flt : ℕ
  pub address : ℕ
  pub error_code : Fsr
  pub trap_no : ℕ
  pub memory : M

-- The memory management: find_vma, expand_stack (whether it returns 0), handle_mm_fault for an area, a page,
-- a write and FAULT_FLAG_ALLOW_RETRY, `addr & PAGE_MASK`, and FIRST_USER_ADDRESS.
pub record Mm (M : Type 0) : Type 0 where
  pub find_vma : M → ℕ → Option Vma
  pub expand_stack : M → Vma → ℕ → Bool × M
  pub handle_mm_fault : M → Vma → ℕ → Bool → Bool → MmFault × M
  pub page_of : ℕ → ℕ
  pub first_user_address : ℕ
  pub fatal_signal_pending : M → Bool

-- What the processor's state says where the fault happens: notify_page_fault, in_atomic or irqs_disabled,
-- user_mode, down_read_trylock, search_exception_tables and fixup_exception
pub record Context : Type 0 where
  pub notified : Bool
  pub atomic : Bool
  pub user_mode : Bool
  pub lock_free : Bool
  pub in_tables : Bool
  pub fixup : Bool

abbrev pub is_error : Fault → Bool
is_error (mm_fault f) = f.oom || f.sigbus || f.other_error
is_error _ = false

abbrev pub is_major : Fault → Bool
is_major (mm_fault f) = f.major
is_major _ = false

abbrev pub is_retry : Fault → Bool
is_retry (mm_fault f) = f.retry
is_retry _ = false

-- __do_kernel_fault
unfoldable pub do_kernel_fault : Context → Outcome
do_kernel_fault c = if c.fixup then fixed_up else oops

module _ {M : Type 0} where
  -- __do_user_fault
  unfoldable pub do_user_fault : ℕ → Fsr → Signal → Faulting M → Outcome × Faulting M
  do_user_fault addr fsr sig s =
      (signalled sig, record s { address = addr; error_code = fsr; trap_no = 14 })

  -- do_bad_area
  unfoldable pub do_bad_area : Context → ℕ → Fsr → Faulting M → Outcome × Faulting M
  unfolding do_user_fault do_kernel_fault
  do_bad_area c addr fsr s =
      if c.user_mode then do_user_fault addr fsr sigsegv_maperr s else (do_kernel_fault c, s)

  -- The accounting of the initial attempt
  abbrev pub count_fault : Fault → Faulting M → Faulting M
  count_fault f s =
      if is_major f
      then record s { maj_flt = inc32 s.maj_flt }
      else record s { min_flt = inc32 s.min_flt }

  -- The end of do_page_fault, behind the attempts
  unfoldable pub finish : Context → ℕ → Fsr → Fault → Faulting M → Outcome × Faulting M
  unfolding do_user_fault do_kernel_fault
  finish c addr fsr bad_map s =
      if c.user_mode then do_user_fault addr fsr sigsegv_maperr s else (do_kernel_fault c, s)
  finish c addr fsr bad_access s =
      if c.user_mode then do_user_fault addr fsr sigsegv_accerr s else (do_kernel_fault c, s)
  finish c addr fsr (mm_fault f) s =
      if not (is_error (mm_fault f))
      then (returned, s)
      else if f.oom
      then (out_of_memory, s)
      else if not c.user_mode
      then (do_kernel_fault c, s)
      else do_user_fault addr fsr (if f.sigbus then sigbus_adrerr else sigsegv_maperr) s

  module _ (mm : Mm M) where
    -- The label good_area of __do_page_fault
    unfoldable pub good_area : ℕ → Fsr → Bool → Vma → Faulting M → Fault × Faulting M
    good_area addr fsr allow vma s =
        let refused = access_error fsr vma.vm_flags s.task in
        let handled = mm.handle_mm_fault s.memory vma (mm.page_of addr) fsr.write allow in
        if refused.0
        then (bad_access, record s { task = refused.1 })
        else (mm_fault handled.0, record s { task = refused.1; memory = handled.1 })

    -- The label check_stack
    unfoldable pub check_stack : ℕ → Fsr → Bool → Vma → Faulting M → Fault × Faulting M
    check_stack addr fsr allow vma s =
        let grown = mm.expand_stack s.memory vma addr in
        let v = record s { memory = grown.1 } in
        if vma.grows_down && leb mm.first_user_address addr
        then (if grown.0 then good_area addr fsr allow vma v else (bad_map, v))
        else (bad_map, s)

    abbrev pub in_area : ℕ → Fsr → Bool → Option Vma → Faulting M → Fault × Faulting M
    in_area addr fsr allow none s = (bad_map, s)
    in_area addr fsr allow (some vma) s =
        if ltb addr vma.vm_start
        then check_stack addr fsr allow vma s
        else good_area addr fsr allow vma s

    -- __do_page_fault
    unfoldable pub try_fault : ℕ → Fsr → Bool → Faulting M → Fault × Faulting M
    unfolding good_area check_stack
    try_fault addr fsr allow s = in_area addr fsr allow (mm.find_vma s.memory addr) s

    -- do_page_fault behind the attempt that the label retry leads to, which may not retry once more
    unfoldable pub after_second : Context → ℕ → Fsr → Fault × Faulting M → Outcome × Faulting M
    unfolding finish
    after_second c addr fsr (f, s) =
        if is_retry f && mm.fatal_signal_pending s.memory
        then (returned, s)
        else finish c addr fsr f s

    -- do_page_fault behind the first attempt
    unfoldable pub after_first : Context → ℕ → Fsr → Fault × Faulting M → Outcome × Faulting M
    unfolding finish after_second try_fault
    after_first c addr fsr (f, s) =
        let counted = count_fault f s in
        if is_retry f && mm.fatal_signal_pending s.memory
        then (returned, s)
        else if is_error f
        then finish c addr fsr f s
        else if is_retry f
        then after_second c addr fsr (try_fault addr fsr false counted)
        else finish c addr fsr f counted

    -- do_page_fault
    unfoldable pub do_page_fault : Context → ℕ → Fsr → Faulting M → Outcome × Faulting M
    unfolding after_first try_fault do_kernel_fault
    do_page_fault c addr fsr s =
        if c.notified
        then (returned, s)
        else if c.atomic || not s.task.has_mm
        then (do_kernel_fault c, s)
        else if not c.lock_free && not c.user_mode && not c.in_tables
        then (do_kernel_fault c, s)
        else after_first c addr fsr (try_fault addr fsr true s)
