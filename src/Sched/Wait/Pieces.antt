-- ===== src/Sched/Wait/Pieces.antt =====
-- The invariant of the threads at a completion of goldfish/kernel/sched/core.c, and the pieces of
-- do_wait_for_common.
use operating_system_project.Prelude.{
  ==_refl, ℕ, suc, ◌+◌, ◌^◌, ◌≤◌, ◌<◌, ◌≡◌, refl, sym, subst, ◌⊎◌, inl, inr, Bool, true, false, not,
  ◌&&◌, [], ◌∷◌, ◌++◌, arith, ◌==◌, Bool-cases, update, length,
}
use operating_system_project.Prelude.{ℤ, pos, bit_and, dec32, case-if}
use operating_system_project.Sched.Wait.Wake.{Sleepers, task_normal}
use operating_system_project.Sched.Wait.Completion.{
  Completing, Waited, gives, entry_of, remove_wait_queue, erestartsys, at_least_one, take_done,
  leave_queue, loop_head, do_wait_for_common, wait_goes_on, try_wait_for_completion,
}
use operating_system_project.Sched.Wait.Walks.{awake, IsWakeable}
use operating_system_project.Sched.Wait.Tokens.{
  waits, taken_by, taken_if, sleeping-IsWakeable, removed-IsWakeable, removed-awake, removed-all,
  appended-IsWakeable, removed-appended,
}

zero_of : (a : ℕ) → (a == 0) ≡ true → a ≡ 0
zero_of a h = ground arith

one_less : (a : ℕ) → (a == 0) ≡ false → a < 2 ^ 32 → suc (dec32 a) ≡ a
one_less a h l = ground arith

at_least_one-taken : (t : ℕ) → taken_by (gives (at_least_one (pos t))) ≡ 1
at_least_one-taken t = elim (Bool-cases (t == 0)) [ inl e ↦ rw e refl | inr e ↦ rw (e, e) refl ]

module _ {S : Type 0} where
  -- Each of the completions that are left has a thread that runs, unless all threads run.
  abbrev pub NoneLost : Completing S → Type 0
  NoneLost c =
      (c.done ≤ awake c.sleepers.state c.wait) ⊎ (length c.wait ≤ awake c.sleepers.state c.wait)

  pub record Inv (c : Completing S) (n m : ℕ) : Type 0 where
    pub wakeable : IsWakeable c.sleepers.state c.wait
    pub none_lost : NoneLost c
    pub balance : m + c.done ≡ n
    pub small : c.done < 2 ^ 32

  abbrev Holds : Waited × Completing S → ℕ → ℕ → Type 0
  Holds r n m = Inv r.1 n (m + taken_by r.0)

  -- A step that changes the states alone, to states in which at least as many threads run
  pub states-Inv :
      (c : Completing S) (s : Sleepers S) (n m : ℕ)
      → Inv c n m
      → IsWakeable s.state c.wait
      → awake c.sleepers.state c.wait ≤ awake s.state c.wait
      → Inv (record c { sleepers = s }) n m
  states-Inv c s n m i w le = record {
    wakeable = w;
    none_lost = more i.none_lost;
    balance = i.balance;
    small = i.small;
  }
    where
      more : NoneLost c → NoneLost (record c { sleepers = s })
      more (inl a) = inl (omega (arith, a, le))
      more (inr a) = inr (omega (arith, a, le))

  -- A completion is taken, where the queue has room for that.
  take-Inv :
      (c : Completing S) (t n m : ℕ)
      → IsWakeable c.sleepers.state c.wait
      → (dec32 c.done ≤ awake c.sleepers.state c.wait)
        ⊎ (length c.wait ≤ awake c.sleepers.state c.wait)
      → (c.done == 0) ≡ false
      → c.done < 2 ^ 32
      → m + c.done ≡ n
      → Holds (take_done c (pos t)) n m
  take-Inv c t n m w l some_left small b = record {
    wakeable = w;
    none_lost = l;
    balance = omega (arith, at_least_one-taken t, one_less c.done some_left small);
    small = omega arith;
  }

  take-now :
      (c : Completing S) (t n m : ℕ)
      → Inv c n m
      → (c.done == 0) ≡ false
      → Holds (take_done c (pos t)) n m
  take-now c t n m i some_left =
      take-Inv c t n m i.wakeable (weaker i.none_lost) some_left i.small i.balance
    where
      weaker :
          NoneLost c
          → (dec32 c.done ≤ awake c.sleepers.state c.wait)
            ⊎ (length c.wait ≤ awake c.sleepers.state c.wait)
      weaker (inl a) = inl (omega (arith, one_less c.done some_left i.small))
      weaker (inr a) = inr a

  -- Removing an entry and taking a completion
  leave-taken :
      (c : Completing S) (p t n m : ℕ)
      → Inv c n m
      → (c.done == 0) ≡ false
      → Holds (leave_queue c p (pos t)) n m
  unfolding leave_queue
  leave-taken c p t n m i some_left = rw some_left (
      take-Inv (record c { wait = remove_wait_queue p c.wait }) t n m
        (removed-IsWakeable c.sleepers.state p c.wait i.wakeable) (fewer i.none_lost) some_left
        i.small i.balance)
    where
      fewer :
          NoneLost c
          → (dec32 c.done ≤ awake c.sleepers.state (remove_wait_queue p c.wait))
            ⊎ (length (remove_wait_queue p c.wait)
                ≤ awake c.sleepers.state (remove_wait_queue p c.wait))
      fewer (inl a) = inl (
          omega
            (arith, a, one_less c.done some_left i.small, removed-awake c.sleepers.state p c.wait))
      fewer (inr a) = inr (removed-all c.sleepers.state p c.wait a)

  leave-empty :
      (c : Completing S) (p : ℕ) (t : ℤ) (n m : ℕ)
      → IsWakeable c.sleepers.state (remove_wait_queue p c.wait)
      → (c.done == 0) ≡ true
      → m + c.done ≡ n
      → taken_by (gives t) ≡ 0
      → Holds (leave_queue c p t) n m
  unfolding leave_queue
  leave-empty c p t n m w none_left b z =
      let d = zero_of c.done none_left in
      rw none_left (record {
        wakeable = w;
        none_lost = inl (omega (arith, d));
        balance = omega (arith, z);
        small = omega (arith, d);
      })

  -- The head of the loop, with the thread in the queue and no completion left
  loop_head-Inv :
      (c : Completing S) (p timeout state n m : ℕ) (pending : Bool)
      → IsWakeable c.sleepers.state (remove_wait_queue p c.wait)
      → IsWakeable (update c.sleepers.state p state) c.wait
      → (c.done == 0) ≡ true
      → m + c.done ≡ n
      → Holds (loop_head c p timeout state pending) n m
  unfolding loop_head
  loop_head-Inv c p timeout state n m true w v none_left b =
      leave-empty c p erestartsys n m w none_left b refl
  loop_head-Inv c p timeout state n m false w v none_left b =
      let d = zero_of c.done none_left in
      record {
        wakeable = v;
        none_lost = inl (omega (arith, d));
        balance = omega arith;
        small = omega (arith, d);
      }

  pub begins-Inv :
      (c : Completing S) (p timeout state n m : ℕ) (pending : Bool)
      → Inv c n m
      → waits p c.wait ≡ false
      → not (bit_and state task_normal == 0) ≡ true
      → Holds (do_wait_for_common c p timeout state pending) n m
  unfolding do_wait_for_common
  begins-Inv c p timeout state n m pending i out mode =
      case-if (λ x. Holds x n m) (c.done == 0) _ _
        (λ none_left.
          loop_head-Inv (record c { wait = c.wait ++ entry_of p ∷ [] }) p timeout state n m pending
            (subst (IsWakeable c.sleepers.state) (sym (removed-appended p c.wait out)) i.wakeable)
            (appended-IsWakeable (update c.sleepers.state p state) p c.wait
              (sleeping-IsWakeable c.sleepers.state p state c.wait mode i.wakeable)
              (inr (rw (==_refl p) mode)))
            none_left i.balance)
        (λ some_left. take-now c timeout n m i some_left)

  pub goes_on-Inv :
      (c : Completing S) (p timeout state n m : ℕ) (pending : Bool)
      → Inv c n m
      → not (bit_and state task_normal == 0) ≡ true
      → Holds (wait_goes_on c p timeout state pending) n m
  unfolding wait_goes_on
  goes_on-Inv c p timeout state n m pending i mode =
      let fewer = removed-IsWakeable c.sleepers.state p c.wait i.wakeable in
      case-if (λ x. Holds x n m) (c.done == 0 && not (timeout == 0)) _ _
        (λ loop.
          loop_head-Inv c p timeout state n m pending fewer
            (sleeping-IsWakeable c.sleepers.state p state c.wait mode i.wakeable)
            (ground (arith, loop)) i.balance)
        (λ over. elim (Bool-cases (c.done == 0)) [
          | inl none_left ↦
              leave-empty c p (pos timeout) n m fewer none_left i.balance
                (ground (arith, none_left, over))
          | inr some_left ↦ leave-taken c p timeout n m i some_left
        ])

  pub tries-Inv :
      (c : Completing S) (n m : ℕ)
      → Inv c n m
      → Inv (try_wait_for_completion c).1 n (m + taken_if (try_wait_for_completion c).0)
  unfolding try_wait_for_completion
  tries-Inv c n m i = elim (Bool-cases (c.done == 0)) [
    | inl none_left ↦ rw none_left (record {
      wakeable = i.wakeable;
      none_lost = i.none_lost;
      balance = omega (arith, i.balance);
      small = i.small;
    })
    | inr some_left ↦ rw some_left (take-now c 1 n m i some_left)
  ]
