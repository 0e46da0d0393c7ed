-- ===== src/Sched/Rt/Bits.antt =====
-- The bit search of goldfish/kernel/sched/rt.c, sched_find_first_bit, which is not in the repository.
use operating_system_project.Prelude.{
  leb→le, ℕ, ◌≤◌, ◌<◌, ◌≡◌, ◌≢◌, inl, inr, Bool, true, false, arith, ltb, leb, if◌then◌else◌,
  Bool-cases, update,
}
use operating_system_project.Sched.Core.Policy.{max_rt_prio}

-- `j` is the first set bit from `i` on, or the end `n` where none is set.
pub record IsFirst (bits : ℕ → Bool) (i n j : ℕ) : Type 0 where
  pub from : i ≤ j
  pub within : j ≤ n
  pub below : (k : ℕ) → i ≤ k → k < j → bits k ≡ false
  pub here : j < n → bits j ≡ true

-- The bit search that the class calls: sched_find_first_bit, for maps whose delimiter bit is set. The map of a
-- queue has `max_rt_prio` bits and the delimiter behind them.
pub record Bitmap : Type 0 where
  pub sched_find_first_bit : (ℕ → Bool) → ℕ
  pub finds :
      (bits : ℕ → Bool)
      → bits max_rt_prio ≡ true
      → IsFirst bits 0 max_rt_prio (sched_find_first_bit bits)

-- The first bit of a queue's map
abbrev pub first_bit : ⦃bm : Bitmap⦄ → (ℕ → Bool) → ℕ
first_bit ⦃bm⦄ bits = bm.sched_find_first_bit bits

pub first_bit-IsFirst :
    ⦃bm : Bitmap⦄ (bits : ℕ → Bool)
    → bits max_rt_prio ≡ true
    → IsFirst bits 0 max_rt_prio (first_bit bits)
first_bit-IsFirst ⦃bm⦄ bits d = bm.finds bits d

IsFirst-le : {bits : ℕ → Bool} {n j k : ℕ} → IsFirst bits 0 n j → IsFirst bits 0 n k → j ≤ k
IsFirst-le {bits} {n} {j} {k} a b = elim (Bool-cases (leb j k)) [
  | inl h ↦ leb→le j k h
  | inr h ↦ absurd (ground (arith, a.below k, b.here, a.within))
]

-- Only one place is the first.
pub IsFirst-unique : {bits : ℕ → Bool} {n j k : ℕ} → IsFirst bits 0 n j → IsFirst bits 0 n k → j ≡ k
IsFirst-unique a b = omega (arith, IsFirst-le a b, IsFirst-le b a)

module _ ⦃bm : Bitmap⦄ (bits : ℕ → Bool) (p : ℕ) (d : bits max_rt_prio ≡ true) where
  -- Setting a bit
  pub first_bit-set :
      p < max_rt_prio
      → first_bit (update bits p true) ≡ (if ltb p (first_bit bits) then p else first_bit bits)
  first_bit-set h =
      let f = first_bit-IsFirst bits d in
      IsFirst-unique (first_bit-IsFirst (update bits p true) (ground arith)) (record {
        from = omega arith;
        within = ground (arith, f.within);
        below = λ k a b. ground (arith, f.below k);
        here = λ k. ground (arith, f.here);
      })

  -- Clearing a bit that is not the first one
  pub first_bit-clear :
      p ≢ first_bit bits → p < max_rt_prio → first_bit (update bits p false) ≡ first_bit bits
  first_bit-clear h lt =
      let f = first_bit-IsFirst bits d in
      IsFirst-unique (first_bit-IsFirst (update bits p false) (ground arith)) (record {
        from = omega arith;
        within = f.within;
        below = λ k a b. ground (arith, f.below k);
        here = λ k. ground (arith, f.here);
      })
