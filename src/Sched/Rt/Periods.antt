-- ===== src/Sched/Rt/Periods.antt =====
-- The periods of the real-time bandwidth.
use operating_system_project.Prelude.{
  ℕ, zero, suc, ◌+◌, ◌-◌, ◌*◌, ◌^◌, ◌<◌, ◌≡◌, refl, sym, ap, ◌∙◌, ◌⊎◌, inl, inr, not, ◌&&◌, arith,
  ltb, leb,
}
use operating_system_project.Prelude.{u64, min}
use operating_system_project.Sched.Rt.Queues.{RtRq}
use operating_system_project.Sched.Rt.Bandwidth.{replenished}

sub_min : (t x : ℕ) → x < 2 ^ 64 → t - min t (u64 x) ≡ t - x
sub_min t x h = omega arith

-- A period's effect in plain numbers
abbrev paid : ℕ → RtRq → RtRq
paid x r = record r {
  rt_time = r.rt_time - x;
  rt_throttled = r.rt_throttled && not (ltb (r.rt_time - x) r.rt_runtime);
}

replenished-paid :
    (n : ℕ) (r : RtRq) → n * r.rt_runtime < 2 ^ 64 → replenished n r ≡ paid (n * r.rt_runtime) r
replenished-paid n r h =
    ap
      (λ (t : ℕ). record r {
        rt_time = t;
        rt_throttled = r.rt_throttled && not (ltb t r.rt_runtime);
      })
      (sub_min r.rt_time (n * r.rt_runtime) h)

zero-or-pos : (x r : ℕ) → (r ≡ 0 → x ≡ 0) → (x ≡ 0) ⊎ (0 < r)
zero-or-pos x zero h = inl (h refl)
zero-or-pos x (suc r) h = inr (omega arith)

not-ltb-sub : (t x r : ℕ) → (x ≡ 0) ⊎ (0 < r) → not (ltb (t - x) r) ≡ leb (x + r) t
not-ltb-sub t x r (inl h) = ground arith
not-ltb-sub t x r (inr h) = ground arith

paid-add : (x y : ℕ) (r : RtRq) → paid y (paid x r) ≡ paid (x + y) r
paid-add x y r = ground arith

-- The timer makes of several periods at once what it makes of them one after another: the time that is left
-- and the throttling of a queue are the same, as long as the runtime of all periods fits in 64 bits. So a
-- timer that comes late loses nothing.
pub replenished-add :
    (m n : ℕ) (r : RtRq)
    → (m + n) * r.rt_runtime < 2 ^ 64
    → replenished n (replenished m r) ≡ replenished (m + n) r
replenished-add m n r h =
    let e : (m + n) * r.rt_runtime ≡ m * r.rt_runtime + n * r.rt_runtime = omega arith in
    ap (replenished n) (replenished-paid m r (omega arith))
    ∙ replenished-paid n (paid (m * r.rt_runtime) r) (omega arith)
    ∙ paid-add (m * r.rt_runtime) (n * r.rt_runtime) r
    ∙ ap (λ x. paid x r) (sym e)
    ∙ sym (replenished-paid (m + n) r h)

-- A throttled queue is let go with the first period whose runtime, with that of the periods before it and
-- one more, is above the time that it ran: after n periods it is throttled exactly if it was before and its
-- time is at least (n + 1) times the runtime.
pub replenished-throttled :
    (n : ℕ) (r : RtRq)
    → n * r.rt_runtime < 2 ^ 64
    → (replenished n r).rt_throttled ≡ (r.rt_throttled && leb ((n + 1) * r.rt_runtime) r.rt_time)
replenished-throttled n r h =
    let e : (n + 1) * r.rt_runtime ≡ n * r.rt_runtime + r.rt_runtime = omega arith in
    ap (λ (x : RtRq). x.rt_throttled) (replenished-paid n r h)
    ∙ ap (λ b. r.rt_throttled && b)
        (not-ltb-sub r.rt_time (n * r.rt_runtime) r.rt_runtime
          (zero-or-pos (n * r.rt_runtime) r.rt_runtime (λ k. rw k (omega arith))))
    ∙ ap (λ y. r.rt_throttled && leb y r.rt_time) (sym e)
