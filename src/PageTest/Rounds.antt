-- ===== src/PageTest/Rounds.antt =====
-- The counter of the page trace and the programs' variable `times` over the loops of page_trace_test.c and
-- ras_pt_test.c.
use operating_system_project.Prelude.{
  ℕ, suc, ◌+◌, ◌^◌, ◌<◌, ◌≡◌, refl, ap, ◌∙◌, inl, inr, Bool, true, false, ◌&&◌, some, arith, ltb,
  leb, Bool-cases,
}
use operating_system_project.Prelude.{inc32, u32}
use operating_system_project.Sched.Task.{Task}
use operating_system_project.Trace.Fault.{VmFlags, access_error}
use operating_system_project.Trace.Handler.{
  Vma, MmFault, Context, returned, signalled, sigsegv_accerr, do_page_fault, after_first, finish,
  bad_access, mm_fault, in_area, try_fault, good_area, do_user_fault,
}
use operating_system_project.PageTest.Process.{
  UserMemory, Areas, Process, Ran, ran, segv_handler, release_heap, store, store_fsr,
}

-- A fault that is served at once
abbrev quiet : MmFault
quiet = record { oom = false; sigbus = false; other_error = false; major = false; retry = false }

module _ {M : Type 0} (u : UserMemory M) (areas : Areas) where
  abbrev pub inside : ℕ → Bool
  inside a = leb areas.memory a && ltb a (areas.memory + areas.alloc_size)

  -- The area of an address, which starts in front of it and may be written or not
  pub record Covers (m : M) (a : ℕ) (w : Bool) : Type 0 where
    pub vma : Vma
    pub found : u.mm.find_vma m a ≡ some vma
    pub starts : ltb a vma.vm_start ≡ false
    pub flags : vma.vm_flags ≡ record { may_read = true; may_write = w; may_exec = false }

  -- No store into the area goes through.
  pub record IsProtected (m : M) : Type 0 where
    pub covered : (a : ℕ) → inside a ≡ true → Covers m a false
    pub refuses : (a : ℕ) → inside a ≡ true → u.takes_store m a ≡ false

  -- All addresses of the area lie in areas of the kernel.
  abbrev pub IsMapped : M → Bool → Type 0
  IsMapped m w = (a : ℕ) → inside a ≡ true → Covers m a w

  -- What the kernel documents: mprotect sets the access of the pages that it is given and leaves other pages
  -- alone, without PROT_WRITE no store goes through, and a write fault in an area that may be written is
  -- served, so that the store goes through then and the areas stay what they are.
  pub record IsUserMemory : Type 0 where
    pub sets :
        (m : M) (w w' : Bool)
        → IsMapped m w
        → IsMapped (u.mprotect m areas.memory areas.alloc_size w').1 w'
    pub shuts :
        (m : M) (w : Bool) (a : ℕ)
        → IsMapped m w
        → inside a ≡ true
        → u.takes_store (u.mprotect m areas.memory areas.alloc_size false).1 a ≡ false
    pub apart : (m : M) (w : Bool) → IsMapped m w → IsMapped (release_heap u areas areas.heap m) w
    pub serves :
        (m : M) (a : ℕ) (vma : Vma)
        → u.mm.find_vma m a ≡ some vma
        → vma.vm_flags.may_write ≡ true
        → ((u.mm.handle_mm_fault m vma (u.mm.page_of a) true true).0 ≡ quiet)
          × (u.takes_store (u.mm.handle_mm_fault m vma (u.mm.page_of a) true true).1 a ≡ true)
          × ((b : ℕ)
              → u.mm.find_vma (u.mm.handle_mm_fault m vma (u.mm.page_of a) true true).1 b
                ≡ u.mm.find_vma m b)

  -- A user process with nothing in the way of a fault
  pub record IsPlain (c : Context) (s : Process M) : Type 0 where
    pub user : c.user_mode ≡ true
    pub running : (c.notified ≡ false) × (c.atomic ≡ false)
    pub has_memory : s.kernel.task.has_mm ≡ true
    pub traced : s.kernel.task.trace_flag ≡ 1

  abbrev counted_task : Task → Task
  counted_task t = record t { wcounts = inc32 t.wcounts }

  -- The store into the protected area gives a signal and a count.
  module _ (c : Context) (a : ℕ) where
    do_page_fault-plain :
        (s : Process M)
        → IsPlain c s
        → do_page_fault u.mm c a store_fsr s.kernel
          ≡ after_first u.mm c a store_fsr (try_fault u.mm a store_fsr true s.kernel)
    unfolding do_page_fault
    do_page_fault-plain s p = ground (arith, p.user, p.running, p.has_memory)

    refused-attempt :
        (s : Process M)
        → s.kernel.task.trace_flag ≡ 1
        → Covers s.kernel.memory a false
        → try_fault u.mm a store_fsr true s.kernel
          ≡ (bad_access, record (s.kernel) { task = counted_task s.kernel.task })
    unfolding try_fault good_area access_error
    refused-attempt s t v =
        ap (λ o. in_area u.mm a store_fsr true o s.kernel) v.found ∙ rw (v.starts, v.flags, t) refl

    fault-refused :
        (s : Process M)
        → IsPlain c s
        → Covers s.kernel.memory a false
        → do_page_fault u.mm c a store_fsr s.kernel ≡ (
          signalled sigsegv_accerr,
          record (s.kernel) {
            task = counted_task s.kernel.task;
            min_flt = inc32 s.kernel.min_flt;
            address = a;
            error_code = store_fsr;
            trap_no = 14;
          },
        )
    unfolding do_page_fault after_first finish do_user_fault
    fault-refused s p v =
        do_page_fault-plain s p
        ∙ ap (after_first u.mm c a store_fsr) (refused-attempt s p.traced v)
        ∙ rw p.user refl

    served-attempt :
        (s : Process M) (h : IsUserMemory)
        → (v : Covers s.kernel.memory a true)
        → try_fault u.mm a store_fsr true s.kernel ≡ (
          mm_fault quiet,
          record (s.kernel) {
            memory = (u.mm.handle_mm_fault s.kernel.memory v.vma (u.mm.page_of a) true true).1;
          },
        )
    unfolding try_fault good_area access_error
    served-attempt s h v =
        let flag = ap (λ (f : VmFlags). f.may_write) v.flags in
        let served = (h.serves s.kernel.memory a v.vma v.found flag).0 in
        ap (λ o. in_area u.mm a store_fsr true o s.kernel) v.found
        ∙ rw (served, v.starts, v.flags) refl

    -- A write fault in an area that may be written is served.
    fault-served :
        (s : Process M) (h : IsUserMemory)
        → IsPlain c s
        → (v : Covers s.kernel.memory a true)
        → do_page_fault u.mm c a store_fsr s.kernel ≡ (
          returned,
          record (s.kernel) {
            min_flt = inc32 s.kernel.min_flt;
            memory = (u.mm.handle_mm_fault s.kernel.memory v.vma (u.mm.page_of a) true true).1;
          },
        )
    unfolding after_first finish
    fault-served s h p v =
        do_page_fault-plain s p ∙ ap (after_first u.mm c a store_fsr) (served-attempt s h v)

  IsMapped-same :
      (m m' : M) (w : Bool)
      → ((b : ℕ) → u.mm.find_vma m' b ≡ u.mm.find_vma m b)
      → IsMapped m w
      → IsMapped m' w
  IsMapped-same m m' w e v a i = record {
    vma = (v a i).vma;
    found = e a ∙ (v a i).found;
    starts = (v a i).starts;
    flags = (v a i).flags;
  }

  -- One count of the kernel and one of the program
  pub record IsCounted (n : ℕ) (s v : Process M) : Type 0 where
    pub counts : u32 v.kernel.task.wcounts ≡ u32 (s.kernel.task.wcounts + n)
    pub word : s.kernel.task.wcounts < 2 ^ 32 → v.kernel.task.wcounts < 2 ^ 32
    pub times_word : s.times < 2 ^ 32 → v.times < 2 ^ 32
    pub times : u32 v.times ≡ u32 (s.times + n)
    pub flag : v.kernel.task.trace_flag ≡ s.kernel.task.trace_flag
    pub has_memory : v.kernel.task.has_mm ≡ s.kernel.task.has_mm

  -- A store into the protected area: the process goes on, with one count of both.
  pub record IsStored (s : Process M) (r : Ran (Process M)) : Type 0 where
    pub end : Process M
    pub reached : r ≡ ran end
    pub counted : IsCounted 1 s end
    pub mapped : IsMapped end.kernel.memory true

  module _ (h : IsUserMemory) (c : Context) (a : ℕ) where
    -- The process behind the signal handler
    after_signal :
        (fuel : ℕ) (s v : Process M)
        → IsPlain c v
        → IsCounted 1 s v
        → IsMapped v.kernel.memory true
        → inside a ≡ true
        → IsStored s (store u areas (suc (suc fuel)) c a v)
    unfolding store
    after_signal fuel s v p n m i = elim (Bool-cases (u.takes_store v.kernel.memory a)) [
      | inl takes ↦ rw takes (record { end = v; reached = refl; counted = n; mapped = m })
      | inr not_yet ↦
          let cover = m a i in
          let flag = ap (λ (f : VmFlags). f.may_write) cover.flags in
          let (quiet_, takes, same) = h.serves v.kernel.memory a cover.vma cover.found flag in
          rw (not_yet, fault-served c a v h p cover, takes)
            (record {
              end = _;
              reached = refl;
              counted = record {
                counts = n.counts;
                word = n.word;
                times_word = n.times_word;
                times = n.times;
                flag = n.flag;
                has_memory = n.has_memory;
              };
              mapped = IsMapped-same v.kernel.memory _ true same m;
            })
    ]

    pub store-counts :
        (fuel : ℕ) (s : Process M)
        → IsPlain c s
        → IsProtected s.kernel.memory
        → inside a ≡ true
        → IsStored s (store u areas (suc (suc (suc fuel))) c a s)
    unfolding store segv_handler
    store-counts fuel s p g i =
        rw (g.refuses a i, fault-refused c a s p (g.covered a i))
          (after_signal fuel s _
            (record {
              user = p.user;
              running = p.running;
              has_memory = p.has_memory;
              traced = p.traced;
            })
            (record {
              counts = omega arith;
              word = λ w. omega arith;
              times_word = λ w. omega arith;
              times = omega arith;
              flag = refl;
              has_memory = refl;
            })
            (h.apart _ true (h.sets s.kernel.memory false true g.covered)) i)
