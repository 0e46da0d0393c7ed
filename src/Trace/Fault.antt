-- ===== src/Trace/Fault.antt =====
-- access_error of goldfish/arch/arm/mm/fault.c, where the page trace counts. The bits of the fault's
-- status and of the area's flags that it reads are Booleans.
use operating_system_project.Prelude.{
  inc32, ◌≡◌, Bool, true, false, not, ◌&&◌, ◌||◌, arith, ◌==◌, if◌then◌else◌,
}
use operating_system_project.Sched.Task.{Task}

-- FSR_WRITE and FSR_LNX_PF
pub record Fsr : Type 0 where
  pub write : Bool
  pub prefetch : Bool

-- VM_READ, VM_WRITE and VM_EXEC, of an area or of a mask
pub record VmFlags : Type 0 where
  pub may_read : Bool
  pub may_write : Bool
  pub may_exec : Bool

abbrev pub mask_for : Fsr → VmFlags
mask_for fsr =
    let mask =
      if fsr.write
      then record { may_read = false; may_write = true; may_exec = false }
      else record { may_read = true; may_write = true; may_exec = true } in
    if fsr.prefetch then record { may_read = false; may_write = false; may_exec = true } else mask

-- `vm_flags & mask`, as a condition
abbrev pub meets : VmFlags → VmFlags → Bool
meets v m = (v.may_read && m.may_read) || (v.may_write && m.may_write) || (v.may_exec && m.may_exec)

-- `mask == VM_WRITE`
abbrev pub only_write : VmFlags → Bool
only_write m = not m.may_read && m.may_write && not m.may_exec

-- access_error for the current task: whether the access is refused, and the task behind it.
unfoldable pub access_error : Fsr → VmFlags → Task → Bool × Task
access_error fsr vm current =
    if meets vm (mask_for fsr)
    then (false, current)
    else if not vm.may_write && only_write (mask_for fsr) && current.trace_flag == 1
    then (true, record current { wcounts = inc32 current.wcounts })
    else (true, current)

-- An access that the trace counts: a write, of data, to an area that may not be written.
abbrev pub is_violation : Fsr → VmFlags → Bool
is_violation fsr vm = fsr.write && not fsr.prefetch && not vm.may_write

-- The accesses that the area's flags allow: an instruction fetch needs VM_EXEC, a write VM_WRITE, and
-- any other access one of the three.
abbrev pub allowed : Fsr → VmFlags → Bool
allowed fsr vm =
    if fsr.prefetch
    then vm.may_exec
    else if fsr.write
    then vm.may_write
    else vm.may_read || vm.may_write || vm.may_exec

-- The access is refused exactly if the flags do not allow it, and the counter of the current task goes
-- up by one, modulo 2 ^ 32, exactly if the access is a write of data to an area that may not be written
-- while the task is traced; nothing else of the task changes.
pub access_error-counts :
    (fsr : Fsr) (vm : VmFlags) (t : Task)
    → access_error fsr vm t ≡ (
      not (allowed fsr vm),
      record t {
        wcounts = if is_violation fsr vm && t.trace_flag == 1 then inc32 t.wcounts else t.wcounts;
      },
    )
unfolding access_error
access_error-counts fsr vm t = ground arith
