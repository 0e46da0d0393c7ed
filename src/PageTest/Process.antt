-- ===== src/PageTest/Process.antt =====
-- A user process that stores to its memory, with the signal handler of the test programs. The processor runs
-- a store again until the memory takes it, and hands each fault to do_page_fault.
use operating_system_project.Prelude.{
  ℕ, zero, suc, Bool, true, false, Option, none, some, if◌then◌else◌,
}
use operating_system_project.Prelude.{ℤ, inc32}
use operating_system_project.Trace.Fault.{Fsr}
use operating_system_project.Trace.Handler.{
  Faulting, Mm, Context, Outcome, returned, signalled, out_of_memory, fixed_up, oops,
  sigsegv_maperr, sigsegv_accerr, sigbus_adrerr, do_page_fault,
}

-- What the kernel and the processor do for the process: the memory management behind the fault handler,
-- mprotect(2) with or without PROT_WRITE, and whether a store goes through without a fault.
pub record UserMemory (M : Type 0) : Type 0 where
  pub mm : Mm M
  pub mprotect : M → ℕ → ℕ → Bool → ℤ × M
  pub takes_store : M → ℕ → Bool

-- `memory` with `alloc_size`, and in page_trace_test.c `heap_memory` with `heap_alloc_sice`
pub record Areas : Type 0 where
  pub memory : ℕ
  pub alloc_size : ℕ
  pub heap : Option (ℕ × ℕ)

-- The process: its task with its memory, and the program's variable `times`
pub record Process (M : Type 0) : Type 0 where
  pub kernel : Faulting M
  pub times : ℕ

pub data Ran (A : Type 0) : Type 0 where
  ran : A → Ran A
  killed : Ran A
  out_of_fuel : Ran A

abbrev pub and_then : {A B : Type 0} → Ran A → (A → Ran B) → Ran B
and_then (ran a) f = f a
and_then killed f = killed
and_then out_of_fuel f = out_of_fuel

-- A write of data
abbrev pub store_fsr : Fsr
store_fsr = record { write = true; prefetch = false }

module _ {M : Type 0} (u : UserMemory M) (areas : Areas) where
  abbrev pub memory_of : Process M → M
  memory_of s = s.kernel.memory

  abbrev pub set_memory : Process M → M → Process M
  set_memory s m = record s { kernel = record (s.kernel) { memory = m } }

  abbrev pub protect_memory : Bool → Process M → Process M
  protect_memory w s = set_memory s (u.mprotect s.kernel.memory areas.memory areas.alloc_size w).1

  -- The call for the block of page_trace_test.c; ras_pt_test.c has no such block and makes no such call.
  abbrev pub release_heap : Option (ℕ × ℕ) → M → M
  release_heap none m = m
  release_heap (some (start, len)) m = (u.mprotect m start len true).1

  -- segv_handler
  unfoldable pub segv_handler : Process M → Process M
  segv_handler s =
      let v = protect_memory true s in
      record (set_memory v (release_heap areas.heap v.kernel.memory)) { times = inc32 v.times }

  -- What the process does behind the kernel's fault handler: the store again, or the signal handler first.
  abbrev pub after_fault :
      (Process M → Ran (Process M)) → ℕ → Outcome × Faulting M → Ran (Process M)
  after_fault again n (returned, k) = again (record { kernel = k; times = n })
  after_fault again n (signalled sigsegv_maperr, k) =
      again (segv_handler (record { kernel = k; times = n }))
  after_fault again n (signalled sigsegv_accerr, k) =
      again (segv_handler (record { kernel = k; times = n }))
  after_fault again n (signalled sigbus_adrerr, k) = killed
  after_fault again n (out_of_memory, k) = again (record { kernel = k; times = n })
  after_fault again n (fixed_up, k) = again (record { kernel = k; times = n })
  after_fault again n (oops, k) = killed

  -- `memory[i] = 0`, on fuel for the faults
  unfoldable pub store : ℕ → Context → ℕ → Process M → Ran (Process M)
  store zero c addr s = out_of_fuel
  store (suc fuel) c addr s =
      let rest =
        after_fault (store fuel c addr) s.times (do_page_fault u.mm c addr store_fsr s.kernel) in
      if u.takes_store s.kernel.memory addr then ran s else rest
