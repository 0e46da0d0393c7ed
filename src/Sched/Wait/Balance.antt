-- ===== src/Sched/Wait/Balance.antt =====
-- Every step of the threads at a completion of goldfish/kernel/sched/core.c keeps the invariant.
use operating_system_project.Prelude.{
  ℕ, suc, ◌+◌, ◌^◌, ◌≤◌, ◌<◌, ◌≡◌, refl, sym, subst, ◌⊎◌, inl, inr, false, arith, update, length,
}
use operating_system_project.Prelude.{inc32}
use operating_system_project.Sched.Core.World.{Env}
use operating_system_project.Sched.Wait.Wake.{Workers, task_normal, try_to_wake_up}
use operating_system_project.Sched.Wait.Completion.{Completing, set_state, complete, complete_all}
use operating_system_project.Sched.Wait.Walks.{
  woken_in, awake, IsWakeable, woken_in-Calms, Calms-awake, Calms-IsWakeable, try_to_wake_up-state,
  walked, wake_up_common-state, walked-Calms, walked-one, walked-all,
}
use operating_system_project.Sched.Wait.Tokens.{
  waits, Reach, starts, posts, posts_all, begins, goes_on, tries, wakes, elsewhere, schedules,
  other-IsWakeable, other-awake,
}
use operating_system_project.Sched.Wait.Pieces.{
  Inv, NoneLost, states-Inv, begins-Inv, goes_on-Inv, tries-Inv,
}

module _ {S : Type 0} (e : Env S) (k : Workers S) where
  posts-Inv :
      (c : Completing S) (n m : ℕ)
      → Inv c n m
      → c.done + 1 < 2 ^ 32
      → Inv (complete e k c) (n + 1) m
  unfolding complete
  posts-Inv c n m i room =
      let st' = walked e k c.wait task_normal 1 c.sleepers.state in
      let same = wake_up_common-state e k c.wait task_normal 1 0 c.sleepers in
      let calm = walked-Calms e k c.wait task_normal 1 c.sleepers.state in
      record {
        wakeable =
            subst (λ x. IsWakeable x c.wait) (sym same)
              (Calms-IsWakeable c.sleepers.state st' c.wait calm i.wakeable);
        none_lost =
            subst (λ x. (inc32 c.done ≤ awake x c.wait) ⊎ (length c.wait ≤ awake x c.wait))
              (sym same)
              (more (Calms-awake c.sleepers.state st' c.wait calm) i.none_lost
                (walked-one e k c.wait c.sleepers.state i.wakeable));
        balance = omega (arith, i.balance);
        small = omega arith;
      }
    where
      more :
          awake c.sleepers.state c.wait
            ≤ awake (walked e k c.wait task_normal 1 c.sleepers.state) c.wait
          → NoneLost c
          → (suc (awake c.sleepers.state c.wait)
              ≤ awake (walked e k c.wait task_normal 1 c.sleepers.state) c.wait)
            ⊎ (length c.wait ≤ awake (walked e k c.wait task_normal 1 c.sleepers.state) c.wait)
          → (inc32 c.done ≤ awake (walked e k c.wait task_normal 1 c.sleepers.state) c.wait)
            ⊎ (length c.wait ≤ awake (walked e k c.wait task_normal 1 c.sleepers.state) c.wait)
      more le l (inr all) = inr all
      more le (inl few) (inl one) = inl (omega (arith, few, one))
      more le (inr all) (inl one) = inr (omega (arith, all, le))

  posts_all-Inv :
      (c : Completing S) (n m : ℕ)
      → Inv c n m
      → c.done + 2147483647 < 2 ^ 32
      → length c.wait < 2 ^ 32
      → Inv (complete_all e k c) (n + 2147483647) m
  unfolding complete_all
  posts_all-Inv c n m i room few =
      let st' = walked e k c.wait task_normal 0 c.sleepers.state in
      let same = wake_up_common-state e k c.wait task_normal 0 0 c.sleepers in
      let calm = walked-Calms e k c.wait task_normal 0 c.sleepers.state in
      record {
        wakeable =
            subst (λ x. IsWakeable x c.wait) (sym same)
              (Calms-IsWakeable c.sleepers.state st' c.wait calm i.wakeable);
        none_lost = inr (
            subst (λ x. length c.wait ≤ awake x c.wait) (sym same)
              (walked-all e k c.wait 0 c.sleepers.state i.wakeable (omega arith) few (inl refl)));
        balance = omega (arith, i.balance);
        small = omega arith;
      }

  wakes-Inv :
      (c : Completing S) (n m p state flags : ℕ)
      → Inv c n m
      → Inv (record c { sleepers = (try_to_wake_up e k c.sleepers p state flags).1 }) n m
  wakes-Inv c n m p state flags i =
      let same = (try_to_wake_up-state e k c.sleepers p state flags).1 in
      let calm = woken_in-Calms c.sleepers.state p state in
      let st' = woken_in c.sleepers.state p state in
      states-Inv c (try_to_wake_up e k c.sleepers p state flags).1 n m i
        (subst (λ x. IsWakeable x c.wait) (sym same)
          (Calms-IsWakeable c.sleepers.state st' c.wait calm i.wakeable))
        (subst (λ x. awake c.sleepers.state c.wait ≤ awake x c.wait) (sym same)
          (Calms-awake c.sleepers.state st' c.wait calm))

  elsewhere-Inv :
      (c : Completing S) (n m p state : ℕ)
      → Inv c n m
      → waits p c.wait ≡ false
      → Inv (set_state c p state) n m
  elsewhere-Inv c n m p state i out =
      states-Inv c (record (c.sleepers) { state = update c.sleepers.state p state }) n m i
        (other-IsWakeable c.sleepers.state p state c.wait out i.wakeable)
        (omega (arith, other-awake c.sleepers.state p state c.wait out))

  Reach-Inv : (c : Completing S) (n m : ℕ) → Reach e k c n m → Inv c n m
  Reach-Inv c n m (starts s) = record {
    wakeable = tt;
    none_lost = inl (omega arith);
    balance = refl;
    small = omega arith;
  }
  Reach-Inv c n m (posts r room) = posts-Inv _ _ _ (Reach-Inv _ _ _ r) room
  Reach-Inv c n m (posts_all r room few) = posts_all-Inv _ _ _ (Reach-Inv _ _ _ r) room few
  Reach-Inv c n m (begins r p timeout state pending out mode) =
      begins-Inv _ p timeout state _ _ pending (Reach-Inv _ _ _ r) out mode
  Reach-Inv c n m (goes_on r p timeout state pending waits_ runs mode) =
      goes_on-Inv _ p timeout state _ _ pending (Reach-Inv _ _ _ r) mode
  Reach-Inv c n m (tries r) = tries-Inv _ _ _ (Reach-Inv _ _ _ r)
  Reach-Inv c n m (wakes r p state flags) = wakes-Inv _ _ _ p state flags (Reach-Inv _ _ _ r)
  Reach-Inv c n m (elsewhere r p state out) = elsewhere-Inv _ _ _ p state (Reach-Inv _ _ _ r) out
  Reach-Inv c n m (schedules r w load) =
      let i = Reach-Inv _ _ _ r in
      record {
        wakeable = i.wakeable;
        none_lost = i.none_lost;
        balance = i.balance;
        small = i.small;
      }

  -- In every reachable state of a completion and of the threads that wait for it, whatever the order of the calls
  -- and of the wake-ups: the completions that were taken and those that are left add up to those that were posted,
  -- where one is taken exactly by a call that returns a positive value or by a try_wait_for_completion that
  -- succeeds. And no wake-up is lost: at least as many waiting threads run as completions are left, or all of
  -- them run. No call makes the counter overflow, each thread waits in a state that TASK_NORMAL covers, and
  -- complete_all meets fewer than 2 ^ 32 threads.
  pub Reach-NoneLost :
      (c : Completing S) (posted taken : ℕ)
      → Reach e k c posted taken
      → (taken + c.done ≡ posted) × NoneLost c
  Reach-NoneLost c posted taken r = let i = Reach-Inv c posted taken r in (i.balance, i.none_lost)
