-- ===== src/Sched/Wait/Tokens.antt =====
-- The threads at a completion of goldfish/kernel/sched/core.c as a state machine: what has been posted is what is
-- left and what was taken, and no wake-up is lost.
use operating_system_project.Prelude.{
  ==_refl, ℕ, suc, ◌+◌, ◌^◌, ◌≤◌, ◌<◌, ◌≡◌, refl, sym, subst, ◌⊎◌, inl, inr, Bool, true, false, not,
  ◌||◌, List, [], ◌∷◌, ◌++◌, arith, ◌==◌, if◌then◌else◌, Bool-cases, update, length,
}
use operating_system_project.Prelude.{pos, negsuc, bit_and, case-if}
use operating_system_project.Sched.Core.World.{World, Env}
use operating_system_project.Sched.Wait.Wake.{
  Sleepers, Workers, Waiting, task_normal, try_to_wake_up,
}
use operating_system_project.Sched.Wait.Completion.{
  Completing, Waited, sleeps, gives, entry_of, remove_wait_queue, set_state, do_wait_for_common,
  wait_goes_on, try_wait_for_completion, complete, complete_all,
}
use operating_system_project.Sched.Wait.Walks.{matches, awake, IsWakeable}

abbrev pub waits : ℕ → List Waiting → Bool
waits p [] = false
waits p (w ∷ ws) = w.waiter == p || waits p ws

-- Whether a thread came back with a completion: a positive value
abbrev pub taken_by : Waited → ℕ
taken_by (sleeps n) = 0
taken_by (gives (pos n)) = if n == 0 then 0 else 1
taken_by (gives (negsuc n)) = 0

abbrev pub taken_if : Bool → ℕ
taken_if b = if b then 1 else 0

module _ {S : Type 0} (e : Env S) (k : Workers S) where
  -- The states of a completion, with how many completions were posted and how many were taken. A call that makes
  -- `done` overflow is left out.
  pub data Reach : Completing S → ℕ → ℕ → Type 0 where
    starts : (s : Sleepers S) → Reach (record { done = 0; wait = []; sleepers = s }) 0 0
    -- complete
    posts :
        {c : Completing S} {n m : ℕ}
        → Reach c n m
        → c.done + 1 < 2 ^ 32
        → Reach (complete e k c) (n + 1) m
    -- complete_all
    posts_all :
        {c : Completing S} {n m : ℕ}
        → Reach c n m
        → c.done + 2147483647 < 2 ^ 32
        → length c.wait < 2 ^ 32
        → Reach (complete_all e k c) (n + 2147483647) m
    -- A thread calls a function that waits,
    begins :
        {c : Completing S} {n m : ℕ}
        → Reach c n m
        → (p timeout state : ℕ) (pending : Bool) → waits p c.wait ≡ false
        → not (bit_and state task_normal == 0) ≡ true
        → Reach
            (do_wait_for_common c p timeout state pending).1
            n
            (m + taken_by (do_wait_for_common c p timeout state pending).0)
    -- and goes on when it runs again.
    goes_on :
        {c : Completing S} {n m : ℕ}
        → Reach c n m
        → (p timeout state : ℕ) (pending : Bool) → waits p c.wait ≡ true
        → c.sleepers.state p ≡ 0
        → not (bit_and state task_normal == 0) ≡ true
        → Reach
            (wait_goes_on c p timeout state pending).1
            n
            (m + taken_by (wait_goes_on c p timeout state pending).0)
    -- try_wait_for_completion
    tries :
        {c : Completing S} {n m : ℕ}
        → Reach c n m
        → Reach (try_wait_for_completion c).1 n (m + taken_if (try_wait_for_completion c).0)
    -- A timer or a signal wakes a thread,
    wakes :
        {c : Completing S} {n m : ℕ}
        → Reach c n m
        → (p state flags : ℕ)
        → Reach (record c { sleepers = (try_to_wake_up e k c.sleepers p state flags).1 }) n m
    -- a thread that does not wait here changes its state,
    elsewhere :
        {c : Completing S} {n m : ℕ}
        → Reach c n m
        → (p state : ℕ) → waits p c.wait ≡ false
        → Reach (set_state c p state) n m
    -- and the scheduler works.
    schedules :
        {c : Completing S} {n m : ℕ}
        → Reach c n m
        → (w : World S) (load : ℕ)
        → Reach
            (record c { sleepers = record (c.sleepers) { world = w; nr_uninterruptible = load } })
            n
            m

not_in :
    (p : ℕ) (w : Waiting) (ws : List Waiting)
    → waits p (w ∷ ws) ≡ false
    → ((p == w.waiter) ≡ false) × (waits p ws ≡ false)
not_in p w ws o = (ground arith, ground arith)

module _ (st : ℕ → ℕ) (p state : ℕ) where
  -- The condition on one entry, for a state that is what it was
  same_state :
      (a b : ℕ)
      → a ≡ b
      → (b ≡ 0) ⊎ (not (bit_and b task_normal == 0) ≡ true)
      → (a ≡ 0) ⊎ (not (bit_and a task_normal == 0) ≡ true)
  same_state a b same h =
      subst (λ x. (x ≡ 0) ⊎ (not (bit_and x task_normal == 0) ≡ true)) (sym same) h

  pub other-IsWakeable :
      (ws : List Waiting)
      → waits p ws ≡ false
      → IsWakeable st ws
      → IsWakeable (update st p state) ws
  other-IsWakeable [] o h = h
  other-IsWakeable (w ∷ ws) o h =
      let n = not_in p w ws o in
      (h.0, same_state _ (st w.waiter) (rw n.0 refl) h.1, other-IsWakeable ws n.1 h.2)

  pub other-awake :
      (ws : List Waiting) → waits p ws ≡ false → awake (update st p state) ws ≡ awake st ws
  other-awake [] o = refl
  other-awake (w ∷ ws) o = let n = not_in p w ws o in rw (n.0, other-awake ws n.1) refl

  -- A thread of the queue that goes to sleep in a state that a completion wakes
  pub sleeping-IsWakeable :
      (ws : List Waiting)
      → not (bit_and state task_normal == 0) ≡ true
      → IsWakeable st ws
      → IsWakeable (update st p state) ws
  sleeping-IsWakeable [] m h = h
  sleeping-IsWakeable (w ∷ ws) m h = elim (Bool-cases (p == w.waiter)) [
    | inl at ↦ (h.0, same_state _ state (rw at refl) (inr m), sleeping-IsWakeable ws m h.2)
    | inr other ↦
        (h.0, same_state _ (st w.waiter) (rw other refl) h.1, sleeping-IsWakeable ws m h.2)
  ]

module _ (st : ℕ → ℕ) (p : ℕ) where
  pub removed-IsWakeable :
      (ws : List Waiting) → IsWakeable st ws → IsWakeable st (remove_wait_queue p ws)
  removed-IsWakeable [] h = h
  removed-IsWakeable (w ∷ ws) h =
      case-if (λ x. IsWakeable st x) (w.waiter == p) ws (w ∷ remove_wait_queue p ws) (λ y. h.2)
        (λ y. (h.0, h.1, removed-IsWakeable ws h.2))

  -- One thread fewer is one fewer that runs at most, and of threads that all run, all run still.
  pub removed-awake : (ws : List Waiting) → awake st ws ≤ suc (awake st (remove_wait_queue p ws))
  removed-awake [] = omega arith
  removed-awake (w ∷ ws) =
      let rest = removed-awake ws in
      case-if (λ x. awake st (w ∷ ws) ≤ suc (awake st x)) (w.waiter == p) ws
        (w ∷ remove_wait_queue p ws) (λ y. ground arith) (λ y. ground (arith, rest))

  awake-le : (ws : List Waiting) → awake st ws ≤ length ws
  awake-le [] = omega arith
  awake-le (w ∷ ws) = ground (arith, awake-le ws)

  pub removed-all :
      (ws : List Waiting)
      → length ws ≤ awake st ws
      → length (remove_wait_queue p ws) ≤ awake st (remove_wait_queue p ws)
  removed-all [] h = omega arith
  removed-all (w ∷ ws) h =
      let le = awake-le ws in
      let rest = removed-all ws in
      case-if (λ x. length x ≤ awake st x) (w.waiter == p) ws (w ∷ remove_wait_queue p ws)
        (λ y. ground (arith, h)) (λ y. front (st w.waiter == 0) h le rest)
    where
      front :
          (b : Bool)
          → suc (length ws) ≤ (if b then 1 else 0) + awake st ws
          → awake st ws ≤ length ws
          → (length ws ≤ awake st ws
              → length (remove_wait_queue p ws) ≤ awake st (remove_wait_queue p ws))
          → suc (length (remove_wait_queue p ws))
            ≤ (if b then 1 else 0) + awake st (remove_wait_queue p ws)
      front true h le rest = let r = rest (omega arith) in omega arith
      front false h le rest = absurd (omega arith)

pub appended-IsWakeable :
    (st : ℕ → ℕ) (p : ℕ) (ws : List Waiting)
    → IsWakeable st ws
    → (st p ≡ 0) ⊎ (matches st p task_normal ≡ true)
    → IsWakeable st (ws ++ entry_of p ∷ [])
appended-IsWakeable st p [] h m = (refl, m, tt)
appended-IsWakeable st p (w ∷ ws) h m = (h.0, h.1, appended-IsWakeable st p ws h.2 m)

pub removed-appended :
    (p : ℕ) (ws : List Waiting)
    → waits p ws ≡ false
    → remove_wait_queue p (ws ++ entry_of p ∷ []) ≡ ws
removed-appended p [] o = rw (==_refl p) refl
removed-appended p (w ∷ ws) o =
    let n = not_in p w ws o in
    let other : (w.waiter == p) ≡ false = ground (arith, o) in
    rw (other, removed-appended p ws n.1) refl
