-- ===== src/PageTest/Loops.antt =====
-- The counts over the loops of page_trace_test.c and ras_pt_test.c, and over a whole run of test_ras.
use operating_system_project.Prelude.{
  ℕ, zero, suc, ◌+◌, ◌*◌, ◌^◌, ◌≤◌, ◌<◌, ◌≡◌, refl, ap, ◌∙◌, ◌≢◌, inl, inr, true, false, Option,
  some, arith, ◌==◌, Bool-cases,
}
use operating_system_project.Prelude.{pos, ==_refl, ==_ne}
use operating_system_project.Sched.Task.{Task, Kernel, set_task}
use operating_system_project.Trace.Handler.{Faulting, Context}
use operating_system_project.Trace.Mprotect.{Memory, mprotect_s, returns, prot_read}
use operating_system_project.Trace.Calls.{
  sys_start_trace, sys_stop_trace, sys_get_trace, set_trace, stop_task,
}
use operating_system_project.PageTest.Process.{
  UserMemory, Areas, Process, Ran, ran, and_then, protect_memory,
}
use operating_system_project.PageTest.Programs.{
  visit, visits, three_tests, four_loops, process_of, test_ras, report,
}
use operating_system_project.PageTest.Rounds.{
  IsUserMemory, IsProtected, IsPlain, IsCounted, store-counts,
}

mul-le : (j stride : ℕ) → stride ≤ 6 → j * stride ≤ 6 * j
mul-le zero stride h = omega arith
mul-le (suc j) stride h = omega (arith, mul-le j stride h)

module _ {M : Type 0} (u : UserMemory M) (areas : Areas) where
  -- Some stores, each followed by the protection: the process goes on, with as many counts of both.
  pub record IsVisited (n : ℕ) (s : Process M) (r : Ran (Process M)) : Type 0 where
    pub end : Process M
    pub reached : r ≡ ran end
    pub counted : IsCounted u areas n s end
    pub protected : IsProtected u areas end.kernel.memory

  IsCounted-trans :
      {m n : ℕ} {s v w : Process M}
      → IsCounted u areas m s v
      → IsCounted u areas n v w
      → IsCounted u areas (m + n) s w
  IsCounted-trans a b = record {
    counts = omega (arith, a.counts, b.counts);
    word = λ w. b.word (a.word w);
    times_word = λ w. b.times_word (a.times_word w);
    times = omega (arith, a.times, b.times);
    flag = b.flag ∙ a.flag;
    has_memory = b.has_memory ∙ a.has_memory;
  }

  IsPlain-counted :
      {c : Context} {n : ℕ} {s v : Process M}
      → IsPlain u areas c s
      → IsCounted u areas n s v
      → IsPlain u areas c v
  IsPlain-counted p k = record {
    user = p.user;
    running = p.running;
    has_memory = k.has_memory ∙ p.has_memory;
    traced = k.flag ∙ p.traced;
  }

  and_then-IsVisited :
      {m n k : ℕ} {s : Process M} {r : Ran (Process M)} (f : Process M → Ran (Process M))
      → k ≡ m + n
      → (a : IsVisited m s r) → IsVisited n a.end (f a.end)
      → IsVisited k s (and_then r f)
  and_then-IsVisited f e a b = record {
    end = b.end;
    reached = ap (λ x. and_then x f) a.reached ∙ b.reached;
    counted = rw e (IsCounted-trans a.counted b.counted);
    protected = b.protected;
  }

  module _ (h : IsUserMemory u areas) (c : Context) (fuel : ℕ) where
    abbrev enough : ℕ
    enough = suc (suc (suc fuel))

    visit-IsVisited :
        (index : ℕ) (s : Process M)
        → index < areas.alloc_size
        → IsPlain u areas c s
        → IsProtected u areas s.kernel.memory
        → IsVisited 1 s (visit u areas c enough index s)
    visit-IsVisited index s lt p g =
        let st = store-counts u areas h c (areas.memory + index) fuel s p g (ground arith) in
        record {
          end = protect_memory u areas false st.end;
          reached = ap (λ r. and_then r (λ v. ran (protect_memory u areas false v))) st.reached;
          counted = record {
            counts = st.counted.counts;
            word = st.counted.word;
            times_word = st.counted.times_word;
            times = st.counted.times;
            flag = st.counted.flag;
            has_memory = st.counted.has_memory;
          };
          protected = record {
            covered = h.sets st.end.kernel.memory true false st.mapped;
            refuses = λ a i. h.shuts st.end.kernel.memory true a st.mapped i;
          };
        }

    visits-IsVisited :
        (stride offset i left : ℕ) (s : Process M)
        → ((j : ℕ) → j < i + left → j * stride + offset < areas.alloc_size)
        → IsPlain u areas c s
        → IsProtected u areas s.kernel.memory
        → IsVisited left s (visits u areas c enough stride offset i left s)
    unfolding visits
    visits-IsVisited stride offset i zero s b p g = record {
      end = s;
      reached = refl;
      counted = record {
        counts = omega arith;
        word = λ w. w;
        times_word = λ w. w;
        times = omega arith;
        flag = refl;
        has_memory = refl;
      };
      protected = g;
    }
    visits-IsVisited stride offset i (suc left) s b p g =
        let v = visit-IsVisited (i * stride + offset) s (b i (omega arith)) p g in
        and_then-IsVisited _ (omega arith) v (
          visits-IsVisited stride offset (i + 1) left v.end (λ j lt. b j (omega arith))
            (IsPlain-counted p v.counted) v.protected)

    -- The loop with a stride of at most 6
    loop :
        (proc stride offset : ℕ) (s : Process M)
        → stride ≤ 6
        → offset ≤ proc
        → 6 * 2 ^ (proc + 1) + proc ≤ areas.alloc_size
        → IsPlain u areas c s
        → IsProtected u areas s.kernel.memory
        → IsVisited (2 ^ (proc + 1)) s (visits u areas c enough stride offset 0 (2 ^ (proc + 1)) s)
    loop proc stride offset s le o room p g =
        visits-IsVisited stride offset 0 (2 ^ (proc + 1)) s (λ j lt. grind (arith, mul-le j stride))
          p g

    three_tests-IsVisited :
        (proc : ℕ) (s : Process M)
        → 6 * 2 ^ (proc + 1) + proc ≤ areas.alloc_size
        → IsPlain u areas c s
        → IsProtected u areas s.kernel.memory
        → IsVisited (3 * 2 ^ (proc + 1)) s (three_tests u areas c enough proc s)
    unfolding three_tests
    three_tests-IsVisited proc s room p g =
        let a = loop proc 1 0 s (omega arith) (omega arith) room p g in
        let pa = IsPlain-counted p a.counted in
        let b = loop proc 2 proc a.end (omega arith) (omega arith) room pa a.protected in
        and_then-IsVisited {n = 2 * 2 ^ (proc + 1)} _ (omega arith) a (
          and_then-IsVisited _ (omega arith) b (
            loop proc 4 proc b.end (omega arith) (omega arith) room (IsPlain-counted pa b.counted)
              b.protected))

    pub four_loops-IsVisited :
        (proc : ℕ) (s : Process M)
        → 6 * 2 ^ (proc + 1) + proc ≤ areas.alloc_size
        → IsPlain u areas c s
        → IsProtected u areas s.kernel.memory
        → IsVisited (4 * 2 ^ (proc + 1)) s (four_loops u areas c enough proc s)
    unfolding four_loops
    four_loops-IsVisited proc s room p g =
        let a = three_tests-IsVisited proc s room p g in
        and_then-IsVisited _ (omega arith) a (
          loop proc 6 proc a.end (omega arith) (omega arith) room (IsPlain-counted p a.counted)
            a.protected)

stop_task-counts :
    (find : ℕ → Option ℕ) (k : Kernel) (p : ℕ)
    → ((stop_task find k (some p)).1.tasks p).wcounts ≡ (k.tasks p).wcounts
stop_task-counts find k p = elim (Bool-cases ((k.tasks p).trace_flag == 0)) [
  | inl off ↦ rw off refl
  | inr on ↦ rw (on, ==_refl p) refl
]

set_task-same : (k : Kernel) (p : ℕ) (t : Task) → (set_task k p t).tasks p ≡ t
set_task-same k p t = rw (==_refl p) refl

module _ (find : ℕ → Option ℕ) (mem : Memory) (u : UserMemory (mem.Mm)) (areas : Areas)
    (h : IsUserMemory u areas) (c : Context) (fuel proc : ℕ) where
  abbrev stores_of : ℕ
  stores_of = 4 * 2 ^ (proc + 1)

  -- What is reported of a process whose counts are known
  report-counts :
      (p pid : ℕ) (k : Kernel) (s v : Process (mem.Mm))
      → find pid ≡ some p
      → s.kernel.task.wcounts ≡ 0
      → s.times ≡ 0
      → stores_of < 2 ^ 32
      → IsCounted u areas stores_of s v
      → report find mem u areas c p pid k v ≡ (some stores_of, stores_of)
  unfolding sys_stop_trace sys_get_trace
  report-counts p pid k s v e w t small n = rw e (
      ap (λ x. (some x, v.times))
        (stop_task-counts find (set_task k p v.kernel.task) p
          ∙ ap (λ (t' : Task). t'.wcounts) (set_task-same k p v.kernel.task)
          ∙ omega (arith, n.counts, n.word))
      ∙ ap (λ x. (some stores_of, x)) (omega (arith, n.times, n.times_word)))

  start-traces :
      (rounds : ℕ) (k : Kernel) (f : Faulting (mem.Mm)) (p pid : ℕ) (mm' : mem.Mm)
      → find pid ≡ some p
      → (k.tasks p).trace_flag ≢ 1
      → mprotect_s mem rounds f.memory areas.memory areas.alloc_size prot_read ≡ returns mm' (pos 0)
      → test_ras find mem u areas c rounds (suc (suc (suc fuel))) proc k f 0 p pid ≡ (
          let started = set_task k p (set_trace (k.tasks p) 1 0) in
          and_then
            (four_loops u areas c (suc (suc (suc fuel))) proc (process_of f started p 0 mm'))
            (λ v. ran (report find mem u areas c p pid started v)))
  unfolding test_ras sys_start_trace
  start-traces rounds k f p pid mm' e idle ok =
      rw (e, ==_refl (k.tasks p).pid, ==_ne (k.tasks p).trace_flag 1 idle, ok) refl

  -- Let the system call that starts the trace protect the whole area, and the process run in user mode. Then
  -- each store of the program's four loops is counted once, by the kernel and by the signal handler: the
  -- program ends, and prints four times two to the power proc + 1 for both.
  pub test_ras-counts :
      (rounds : ℕ) (k : Kernel) (f : Faulting (mem.Mm)) (p pid : ℕ) (mm' : mem.Mm)
      → find pid ≡ some p
      → (k.tasks p).trace_flag ≢ 1
      → (k.tasks p).has_mm ≡ true
      → mprotect_s mem rounds f.memory areas.memory areas.alloc_size prot_read ≡ returns mm' (pos 0)
      → IsProtected u areas mm'
      → c.user_mode ≡ true
      → (c.notified ≡ false) × (c.atomic ≡ false)
      → 6 * 2 ^ (proc + 1) + proc ≤ areas.alloc_size
      → stores_of < 2 ^ 32
      → test_ras find mem u areas c rounds (suc (suc (suc fuel))) proc k f 0 p pid
        ≡ ran (some stores_of, stores_of)
  test_ras-counts rounds k f p pid mm' e idle has ok g user run room small =
      let started = set_task k p (set_trace (k.tasks p) 1 0) in
      let s = process_of f started p 0 mm' in
      let same = set_task-same k p (set_trace (k.tasks p) 1 0) in
      let r =
        four_loops-IsVisited u areas h c fuel proc s room
          (record { user = user; running = run; has_memory = rw same has; traced = rw same refl })
          g in
      start-traces rounds k f p pid mm' e idle ok
      ∙ ap (λ x. and_then x (λ v. ran (report find mem u areas c p pid started v))) r.reached
      ∙ ap ran (report-counts p pid started s r.end e (rw same refl) refl small r.counted)
