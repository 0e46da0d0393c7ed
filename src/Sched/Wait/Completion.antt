-- ===== src/Sched/Wait/Completion.antt =====
-- Completions of goldfish/kernel/sched/core.c, from complete to completion_done. do_wait_for_common is cut where
-- the thread sleeps in schedule_timeout, with the lock of the completion free.
use operating_system_project.Prelude.{
  ℕ, ◌+◌, ◌-◌, ◌/◌, ◌^◌, Bool, true, false, not, ◌&&◌, List, [], ◌∷◌, ◌++◌, ◌==◌, if◌then◌else◌,
  update,
}
use operating_system_project.Prelude.{ℤ, pos, negsuc, u32, inc32, dec32}
use operating_system_project.Sched.Core.World.{Env}
use operating_system_project.Sched.Wait.Wake.{
  Sleepers, Workers, Waiting, task_normal, wake_up_common,
}

-- `struct completion`, and the threads with their states
pub record Completing (S : Type 0) : Type 0 where
  pub done : ℕ
  pub wait : List Waiting
  pub sleepers : Sleepers S

-- How a piece of do_wait_for_common ends: in schedule_timeout, or with its value
pub data Waited : Type 0 where
  sleeps : ℕ → Waited
  gives : ℤ → Waited

-- -ERESTARTSYS
abbrev pub erestartsys : ℤ
erestartsys = negsuc 511

abbrev pub entry_of : ℕ → Waiting
entry_of p = record { exclusive = true; waiter = p }

-- __remove_wait_queue for a thread's entry
abbrev pub remove_wait_queue : ℕ → List Waiting → List Waiting
remove_wait_queue p [] = []
remove_wait_queue p (w ∷ ws) = if w.waiter == p then ws else w ∷ remove_wait_queue p ws

-- `timeout ?: 1`
abbrev pub at_least_one : ℤ → ℤ
at_least_one (pos n) = if n == 0 then pos 1 else pos n
at_least_one (negsuc n) = negsuc n

module _ {S : Type 0} where
  abbrev pub set_state : Completing S → ℕ → ℕ → Completing S
  set_state c p state = record c {
    sleepers = record (c.sleepers) { state = update c.sleepers.state p state };
  }

  -- The end of do_wait_for_common behind its loop, and what follows it
  abbrev pub take_done : Completing S → ℤ → Waited × Completing S
  take_done c timeout = (gives (at_least_one timeout), record c { done = dec32 c.done })

  unfoldable pub leave_queue : Completing S → ℕ → ℤ → Waited × Completing S
  leave_queue c p timeout =
      let v = record c { wait = remove_wait_queue p c.wait } in
      if v.done == 0 then (gives timeout, v) else take_done v timeout

  -- The head of the loop, up to schedule_timeout. `pending` is what signal_pending_state says.
  unfoldable pub loop_head : Completing S → ℕ → ℕ → ℕ → Bool → Waited × Completing S
  unfolding leave_queue
  loop_head c p timeout state pending =
      if pending then leave_queue c p erestartsys else (sleeps timeout, set_state c p state)

  -- do_wait_for_common up to its first sleep
  unfoldable pub do_wait_for_common : Completing S → ℕ → ℕ → ℕ → Bool → Waited × Completing S
  unfolding loop_head
  do_wait_for_common c p timeout state pending =
      if c.done == 0
      then loop_head (record c { wait = c.wait ++ entry_of p ∷ [] }) p timeout state pending
      else take_done c (pos timeout)

  -- do_wait_for_common from the end of schedule_timeout, which left `timeout`
  unfoldable pub wait_goes_on : Completing S → ℕ → ℕ → ℕ → Bool → Waited × Completing S
  unfolding loop_head leave_queue
  wait_goes_on c p timeout state pending =
      if c.done == 0 && not (timeout == 0)
      then loop_head c p timeout state pending
      else leave_queue c p (pos timeout)

  -- try_wait_for_completion
  unfoldable pub try_wait_for_completion : Completing S → Bool × Completing S
  try_wait_for_completion c =
      if c.done == 0 then (false, c) else (true, record c { done = dec32 c.done })

  -- completion_done
  unfoldable pub completion_done : Completing S → Bool
  completion_done c = not (c.done == 0)

module _ {S : Type 0} (e : Env S) (k : Workers S) where
  -- complete
  unfoldable pub complete : Completing S → Completing S
  unfolding wake_up_common
  complete c = record c {
    done = inc32 c.done;
    sleepers = wake_up_common e k c.wait task_normal 1 0 c.sleepers;
  }

  -- complete_all, with UINT_MAX / 2
  unfoldable pub complete_all : Completing S → Completing S
  unfolding wake_up_common
  complete_all c = record c {
    done = u32 (c.done + (2 ^ 32 - 1) / 2);
    sleepers = wake_up_common e k c.wait task_normal 0 0 c.sleepers;
  }

-- What wait_for_completion_interruptible and wait_for_completion_killable make of the value
unfoldable pub or_restart : ℤ → ℤ
or_restart (pos n) = pos 0
or_restart (negsuc n) = if n == 511 then negsuc n else pos 0
