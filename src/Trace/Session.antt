-- ===== src/Trace/Session.antt =====
-- A page trace from its start to its end: the system calls of page-trace/ and the counter of
-- goldfish/arch/arm/mm/fault.c together, with the faults and the calls of all tasks in any order.
use operating_system_project.Trace.Fault.{
  VmFlags, access_error, access_error-counts, Fsr, is_violation,
}
use operating_system_project.Prelude.{
  ==_refl, ==_ne, not, sym, subst, case-if, Bool, false, none, inc32, u32, ℕ, suc, ◌+◌, ◌^◌, ◌<◌,
  ◌≡◌, refl, ap, ◌∙◌, ◌≢◌, true, ◌&&◌, Option, some, List, [], ◌∷◌, arith, ◌==◌, if◌then◌else◌,
}
use operating_system_project.Prelude.{ℤ, pos, is_negative}
use operating_system_project.Trace.Mprotect.{
  Outcome, crash, out_of_fuel, einval, prot_read, mprotect_s, Memory, returns,
}
use operating_system_project.Trace.Calls.{
  Call, after_mprotect, fault, start_task, stop_task, set_counts, mark_task, sys_set_wcounts,
  sys_rr_fifo_trace, set_trace, failed, sys_get_trace, sys_start_trace, sys_stop_trace, done,
}
use operating_system_project.Sched.Task.{Task, Kernel, set_task, set_task-ne}

-- A refused or granted access: the task that makes it, its kind and the flags of the area.
pub record Access : Type 0 where
  pub by : ℕ
  pub fsr : Fsr
  pub vm : VmFlags

-- The fault handler on one access
pub access_step : Kernel → Access → Kernel
access_step k a = set_task k a.by (access_error a.fsr a.vm (k.tasks a.by)).1

-- What happens between two calls of a traced task: an access of any task; or a system call of any task for a pid,
-- by which a trace starts (on the address space of the caller), stops, or is asked for, a counter is set, or the
-- lines of the other classes are turned on
pub data Event (M : Type 0) : Type 0 where
  makes : Access → Event M
  starts : ℕ → ℕ → ℕ → ℕ → M → Event M
  stops : ℕ → Event M
  asks : ℕ → Event M
  sets : ℕ → ℕ → Event M
  turns_on : ℕ → Event M

-- The event is no call that starts or stops the trace of a task or sets its counter.
abbrev pub Spares : {M : Type 0} → (ℕ → Option ℕ) → ℕ → Event M → Type 0
Spares find p (makes a) = Unit {0}
Spares find p (starts by pid start size mm) = find pid ≢ some p
Spares find p (stops pid) = find pid ≢ some p
Spares find p (asks pid) = Unit {0}
Spares find p (sets pid n) = find pid ≢ some p
Spares find p (turns_on pid) = Unit {0}

abbrev pub SparesAll : {M : Type 0} → (ℕ → Option ℕ) → ℕ → List (Event M) → Type 0
SparesAll find p [] = Unit {0}
SparesAll find p (a ∷ l) = Spares find p a × SparesAll find p l

-- Whether an event is a write of data by the task to an area that may not be written.
abbrev pub is_hit : {M : Type 0} → ℕ → Event M → Bool
is_hit p (makes a) = a.by == p && is_violation a.fsr a.vm
is_hit p (starts by pid start size mm) = false
is_hit p (stops pid) = false
is_hit p (asks pid) = false
is_hit p (sets pid n) = false
is_hit p (turns_on pid) = false

-- How many of the events are such writes
unfoldable pub violations : {M : Type 0} → ℕ → List (Event M) → ℕ
violations p [] = 0
violations p (a ∷ l) = let rest = violations p l in if is_hit p a then suc rest else rest

abbrev kernel_of : {M : Type 0} → Kernel → Call (Kernel × M) → Kernel
kernel_of k (done e (k', mm)) = k'
kernel_of k fault = k

module _ (find : ℕ → Option ℕ) (m : Memory) (fuel : ℕ) where
  -- The kernel behind an event. A crash in mprotect_s is left out.
  unfoldable pub event_step : Kernel → Event (m.Mm) → Kernel
  event_step k (makes a) = access_step k a
  event_step k (starts by pid start size mm) =
      kernel_of k (sys_start_trace find m fuel k mm by pid start size)
  event_step k (stops pid) = (sys_stop_trace find k pid).1
  event_step k (asks pid) = k
  event_step k (sets pid n) = (sys_set_wcounts find k pid n).1
  event_step k (turns_on pid) = (sys_rr_fifo_trace find k pid).1

  unfoldable pub events : Kernel → List (Event (m.Mm)) → Kernel
  events k [] = k
  events k (a ∷ l) = events (event_step k a) l

  -- What a step leaves of a task's trace
  record Kept (k k' : Kernel) (p : ℕ) (hit : Bool) : Type 0 where
    flag : (k'.tasks p).trace_flag ≡ (k.tasks p).trace_flag
    counts : (k'.tasks p).wcounts ≡ (
        if hit && (k.tasks p).trace_flag == 1
        then inc32 (k.tasks p).wcounts
        else (k.tasks p).wcounts)

  Kept-refl : (k : Kernel) (p : ℕ) → Kept k k p false
  Kept-refl k p = record { flag = refl; counts = refl }

  set_other-Kept : (k : Kernel) (p q : ℕ) (t : Task) → q ≢ p → Kept k (set_task k q t) p false
  set_other-Kept k p q t n =
      let same = set_task-ne k q p t n in
      record {
        flag = ap (λ (x : Task). x.trace_flag) same;
        counts = ap (λ (x : Task). x.wcounts) same;
      }

  Kept-if :
      (b : Bool) (k u v : Kernel) (p : ℕ)
      → Kept k u p false
      → Kept k v p false
      → Kept k (if b then u else v) p false
  Kept-if true k u v p x y = x
  Kept-if false k u v p x y = y

  access_step-Kept :
      (k : Kernel) (a : Access) (p : ℕ)
      → Kept k (access_step k a) p (a.by == p && is_violation a.fsr a.vm)
  unfolding access_step
  access_step-Kept k a p = record {
    flag = ground (arith, access_error-counts a.fsr a.vm (k.tasks a.by));
    counts = ground (arith, access_error-counts a.fsr a.vm (k.tasks a.by));
  }

  start-Kept :
      (k : Kernel) (by start size p : ℕ) (mm : m.Mm) (o : Option ℕ)
      → o ≢ some p
      → Kept k (kernel_of k (start_task find m fuel k mm by start size o)) p false
  start-Kept k by start size p mm none n = Kept-refl k p
  start-Kept k by start size p mm (some q) n =
      let other : q ≢ p = λ e. n (ap some e) in
      case-if (λ (x : Call (Kernel × m.Mm)). Kept k (kernel_of k x) p false)
        (not ((k.tasks q).pid == (k.tasks by).pid)) (done failed (k, mm)) _ (λ e. Kept-refl k p)
        (λ e.
          case-if (λ (x : Call (Kernel × m.Mm)). Kept k (kernel_of k x) p false)
            ((k.tasks q).trace_flag == 1) (done einval (k, mm)) _ (λ f. Kept-refl k p)
            (λ f. marked q other (mprotect_s m fuel mm start size prot_read)))
    where
      marked :
          (q : ℕ)
          → q ≢ p
          → (r : Outcome m)
          → Kept k
              (kernel_of k (after_mprotect m (set_task k q (set_trace (k.tasks q) 1 0)) r))
              p
              false
      marked q other (returns mm' e) = set_other-Kept k p q (set_trace (k.tasks q) 1 0) other
      marked q other crash = Kept-refl k p
      marked q other out_of_fuel = Kept-refl k p

  stop-Kept :
      (k : Kernel) (p : ℕ) (o : Option ℕ) → o ≢ some p → Kept k (stop_task find k o).1 p false
  stop-Kept k p none n = Kept-refl k p
  stop-Kept k p (some q) n =
      case-if (λ (x : ℤ × Kernel). Kept k x.1 p false) ((k.tasks q).trace_flag == 0) (einval, k) _
        (λ e. Kept-refl k p)
        (λ e. set_other-Kept k p q (record (k.tasks q) { trace_flag = 0 }) (λ s. n (ap some s)))

  set-Kept :
      (k : Kernel) (p n : ℕ) (o : Option ℕ) → o ≢ some p → Kept k (set_counts find k n o).1 p false
  set-Kept k p n none h = Kept-refl k p
  set-Kept k p n (some q) h =
      set_other-Kept k p q (record (k.tasks q) { wcounts = n }) (λ e. h (ap some e))

  mark-Kept : (k : Kernel) (p : ℕ) (o : Option ℕ) → Kept k (mark_task find k o).1 p false
  mark-Kept k p none = Kept-refl k p
  mark-Kept k p (some q) = record { flag = ground arith; counts = ground arith }

  event_step-Kept :
      (k : Kernel) (a : Event (m.Mm)) (p : ℕ)
      → Spares find p a
      → Kept k (event_step k a) p (is_hit p a)
  unfolding event_step sys_start_trace sys_stop_trace sys_set_wcounts sys_rr_fifo_trace
  event_step-Kept k (makes a) p h = access_step-Kept k a p
  event_step-Kept k (starts by pid start size mm) p h = start-Kept k by start size p mm (find pid) h
  event_step-Kept k (stops pid) p h = stop-Kept k p (find pid) h
  event_step-Kept k (asks pid) p h = Kept-refl k p
  event_step-Kept k (sets pid n) p h = set-Kept k p (u32 n) (find pid) h
  event_step-Kept k (turns_on pid) p h = mark-Kept k p (find pid)

  events-flag :
      (k : Kernel) (l : List (Event (m.Mm))) (p : ℕ)
      → SparesAll find p l
      → ((events k l).tasks p).trace_flag ≡ (k.tasks p).trace_flag
  unfolding events
  events-flag k [] p h = refl
  events-flag k (a ∷ l) p h =
      events-flag (event_step k a) l p h.1 ∙ (event_step-Kept k a p h.0).flag

  -- Over such events a traced task's counter grows by its own violations, modulo 2 ^ 32.
  events-counts :
      (k : Kernel) (l : List (Event (m.Mm))) (p : ℕ)
      → SparesAll find p l
      → (k.tasks p).trace_flag ≡ 1
      → u32 ((events k l).tasks p).wcounts ≡ u32 ((k.tasks p).wcounts + violations p l)
  unfolding events violations
  events-counts k [] p h t = omega arith
  events-counts k (a ∷ l) p h t =
      let s = event_step-Kept k a p h.0 in
      let rest = events-counts (event_step k a) l p h.1 (s.flag ∙ t) in
      added (is_hit p a) (violations p l) ((event_step k a).tasks p).wcounts s.counts rest
    where
      added :
          (hit : Bool) (n v : ℕ)
          → v ≡ (
              if hit && (k.tasks p).trace_flag == 1
              then inc32 (k.tasks p).wcounts
              else (k.tasks p).wcounts)
          → u32 ((events (event_step k a) l).tasks p).wcounts ≡ u32 (v + n)
          → u32 ((events (event_step k a) l).tasks p).wcounts
            ≡ u32 ((k.tasks p).wcounts + (if hit then suc n else n))
      added hit n v e rest = rest ∙ ground (arith, e, t)

  -- A task that is not traced keeps its counter.
  events-untraced :
      (k : Kernel) (l : List (Event (m.Mm))) (p : ℕ)
      → SparesAll find p l
      → (k.tasks p).trace_flag ≢ 1
      → ((events k l).tasks p).wcounts ≡ (k.tasks p).wcounts
  unfolding events
  events-untraced k [] p h t = refl
  events-untraced k (a ∷ l) p h t =
      let s = event_step-Kept k a p h.0 in
      events-untraced (event_step k a) l p h.1 (λ e. t (sym s.flag ∙ e))
      ∙ s.counts
      ∙ rw (==_ne (k.tasks p).trace_flag 1 t) (unhit (is_hit p a) (k.tasks p).wcounts)
    where
      unhit : (b : Bool) (n : ℕ) → (if b && false then inc32 n else n) ≡ n
      unhit true n = refl
      unhit false n = refl

  events-bound :
      (k : Kernel) (l : List (Event (m.Mm))) (p : ℕ)
      → SparesAll find p l
      → (k.tasks p).wcounts < 2 ^ 32
      → ((events k l).tasks p).wcounts < 2 ^ 32
  unfolding events
  events-bound k [] p h b = b
  events-bound k (a ∷ l) p h b =
      let s = event_step-Kept k a p h.0 in
      events-bound (event_step k a) l p h.1 (
        subst (λ n. n < 2 ^ 32) (sym s.counts)
          (case-if (λ n. n < 2 ^ 32) (is_hit p a && (k.tasks p).trace_flag == 1)
            (inc32 (k.tasks p).wcounts) (k.tasks p).wcounts (λ e. omega arith) (λ e. b)))

  started-counts :
      (k : Kernel) (p : ℕ) (l : List (Event (m.Mm)))
      → SparesAll find p l
      → (k.tasks p).trace_flag ≡ 1
      → (k.tasks p).wcounts ≡ 0
      → violations p l < 2 ^ 32
      → ((events k l).tasks p).wcounts ≡ violations p l
  started-counts k p l s t z h =
      omega (arith, events-counts k l p s t, events-bound k l p s (omega arith))

  -- Stopping the trace of a traced task, further events, and the query.
  stopped :
      (pid p n : ℕ) (k : Kernel) (l : List (Event (m.Mm)))
      → SparesAll find p l
      → find pid ≡ some p
      → (k.tasks p).trace_flag ≡ 1
      → (k.tasks p).wcounts ≡ n
      → ((sys_stop_trace find k pid).0 ≡ pos 0)
        × (sys_get_trace find true (events (sys_stop_trace find k pid).1 l) pid ≡ (pos 0, some n))
  unfolding sys_stop_trace sys_get_trace
  stopped pid p n k l s f t w =
      let quiet = set_task k p (record (k.tasks p) { trace_flag = 0 }) in
      let e = events-untraced quiet l p s (λ x. ground arith) in
      rw (f, (==_ne (k.tasks p).trace_flag 0 (omega arith)))
        (refl, ap (λ (c : ℕ). (pos 0, some c)) (e ∙ (ground arith)))

module _ (find : ℕ → Option ℕ) (m : Memory) (fuel : ℕ) (k : Kernel) (mm : m.Mm)
    (pid p start size : ℕ) (found : find pid ≡ some p) where
  -- A task that is not traced starts its trace, and mprotect_s returns. Then the call returns 0, or -1 if
  -- mprotect_s failed. After that any events follow one another: accesses of all tasks, starts, stops, queries and
  -- settings of the counter for all other tasks, and sys_rr_fifo_trace for any task, with fewer than 2 ^ 32
  -- violations of the task among them. Then stopping its trace returns 0, and the query, after any further
  -- such events, gives the number of the task's violations between start and stop.
  pub trace_session :
      (mm' : m.Mm) (e : ℤ) (l after : List (Event (m.Mm)))
      → (k.tasks p).trace_flag ≢ 1
      → mprotect_s m fuel mm start size prot_read ≡ returns mm' e
      → SparesAll find p l
      → SparesAll find p after
      → violations p l < 2 ^ 32
      → (k' : Kernel) × (sys_start_trace find m fuel k mm p pid start size
          ≡ done (if is_negative e then failed else pos 0) (k', mm'))
        × ((sys_stop_trace find (events find m fuel k' l) pid).0 ≡ pos 0)
        × (sys_get_trace find true
              (events find m fuel (sys_stop_trace find (events find m fuel k' l) pid).1 after)
              pid
            ≡ (pos 0, some (violations p l)))
  unfolding sys_start_trace
  trace_session mm' e l after fresh run s s' h =
      let k' = set_task k p (set_trace (k.tasks p) 1 0) in
      let flag : (k'.tasks p).trace_flag ≡ 1 = ground arith in
      let zero_count : (k'.tasks p).wcounts ≡ 0 = ground arith in
      let end =
        stopped find m fuel pid p (violations p l) (events find m fuel k' l) after s' found
          (events-flag find m fuel k' l p s ∙ flag)
          (started-counts find m fuel k' p l s flag zero_count h) in
      (
        k',
        rw (found, ==_refl (k.tasks p).pid, ==_ne (k.tasks p).trace_flag 1 fresh, run),
        end.0,
        end.1,
      )

  -- A start whose mprotect_s fails returns -1 and leaves the task marked as traced: however often the
  -- task calls again, without a stop in between, each call returns -EINVAL and changes nothing.
  pub failed_start-locks :
      (mm' : m.Mm) (e : ℤ)
      → (k.tasks p).trace_flag ≢ 1
      → mprotect_s m fuel mm start size prot_read ≡ returns mm' e
      → is_negative e ≡ true
      → (k' : Kernel) × (sys_start_trace find m fuel k mm p pid start size ≡ done failed (k', mm'))
        × ((mm'' : m.Mm) (start' size' : ℕ)
            → sys_start_trace find m fuel k' mm'' p pid start' size' ≡ done einval (k', mm''))
  unfolding sys_start_trace
  failed_start-locks mm' e fresh run neg =
      let k' = set_task k p (set_trace (k.tasks p) 1 0) in
      (
        k',
        rw (found, ==_refl (k.tasks p).pid, ==_ne (k.tasks p).trace_flag 1 fresh, run, neg),
        λ mm'' start' size'. rw found (ground arith),
      )
