-- ===== src/Sched/Ras/Rounds.antt =====
-- Rounds of the RAS queue of goldfish/kernel/sched/ras.c: turn by turn every queued task comes to the
-- head, so none starves.
use operating_system_project.Sched.Ras.Turns.{ticks-slice}
use operating_system_project.Sched.Ras.Bounds.{refill-slice_bounds}
use operating_system_project.Sched.Ras.Queue.{Step-Inv, update_curr_ras-rq}
use operating_system_project.Sched.Ras.Rotation.{next_slice, update_curr_ras-Keeps, slice, ticks}
use operating_system_project.Sched.Ras.Machine.{Inv, tick, put_prev, pick}
use operating_system_project.Prelude.{
  ==_ne, length-append, All, append-nil, append_assoc, take, drop,
}
use operating_system_project.Sched.Ras.Class.{
  first_entry, update_curr_ras, picked, requeue_tail, slice_over, Picked, count_down, task_tick_ras,
  put_prev_task_ras, pick_next_task_ras,
}
use operating_system_project.Prelude.{
  ==_iff, remove, count, member, ℕ, zero, suc, ◌-◌, ◌^◌, ◌≤◌, ◌<◌, ◌≡◌, refl, sym, ap, subst, ◌∙◌,
  ◌≢◌, inl, inr, true, List, [], ◌∷◌, ◌++◌, arith, ◌==◌, Bool-cases, length,
}
use operating_system_project.Sched.Ras.Machine.{tick, put_prev, pick}
use operating_system_project.Prelude.{append-nil, append_assoc, take, drop}
use operating_system_project.Sched.Ras.Class.{nothing, picked, wild}
use operating_system_project.Sched.Task.{set_task, resched_task, set_task-ne, Task, Kernel}

-- `rq->curr = next`
abbrev pub set_running : Kernel → ℕ → Kernel
set_running k p = record k { rq = record (k.rq) { curr = p } }

-- The rest of a turn, for what pick_next_task_ras returned.
abbrev pub run_picked : ℕ → Picked × Kernel → Kernel
run_picked hz (nothing, k) = k
run_picked hz (wild, k) = k
run_picked hz (picked p, k) = put_prev_task_ras (ticks hz (slice k p) (set_running k p) p) p

-- One turn: pick, run for the whole slice, put back.
pub turn : ℕ → Kernel → Kernel
turn hz k = run_picked hz (pick_next_task_ras k)

pub turns : ℕ → ℕ → Kernel → Kernel
turns hz zero k = k
turns hz (suc n) k = turns hz n (turn hz k)

-- A task whose slice has ticks left.
abbrev pub HasSlice : Kernel → ℕ → Type 0
HasSlice k q = (0 < slice k q) × (slice k q < 2 ^ 32)

count_down-other : (hz : ℕ) (k : Kernel) (p q : ℕ) → p ≢ q → slice (count_down hz k p) q ≡ slice k q
unfolding count_down
count_down-other hz k p q h =
    ap (λ (t : Task). t.ras.time_slice) (set_task-ne (update_curr_ras k) p q _ h)
    ∙ (update_curr_ras-Keeps k q).same_slice

slice_over-other : (hz : ℕ) (k : Kernel) (p q : ℕ) → p ≢ q → slice (slice_over hz k p) q ≡ slice k q
unfolding slice_over requeue_tail resched_task
slice_over-other hz k p q h = ground arith

tick-other : (hz : ℕ) (k : Kernel) (p q : ℕ) → p ≢ q → slice (task_tick_ras hz k p) q ≡ slice k q
unfolding task_tick_ras
tick-other hz k p q h =
    ground (arith, slice_over-other hz (count_down hz k p) p q h, count_down-other hz k p q h)

ticks-other : (hz n : ℕ) (k : Kernel) (p q : ℕ) → p ≢ q → slice (ticks hz n k p) q ≡ slice k q
unfolding ticks
ticks-other hz zero k p q h = refl
ticks-other hz (suc n) k p q h =
    ticks-other hz n (task_tick_ras hz k p) p q h ∙ tick-other hz k p q h

put_prev-slice : (k : Kernel) (p q : ℕ) → slice (put_prev_task_ras k p) q ≡ slice k q
unfolding put_prev_task_ras requeue_tail
put_prev-slice k p q = ground (arith, (update_curr_ras-Keeps k q).same_slice)

remove-snoc : (p : ℕ) (l : List ℕ) → count p l ≡ 0 → remove p (l ++ p ∷ []) ≡ l
remove-snoc p [] h = ground arith
remove-snoc p (x ∷ l) h = ground (arith, remove-snoc p l)

member-snoc : (p : ℕ) (l : List ℕ) → member p (l ++ p ∷ []) ≡ true
member-snoc p [] = ground arith
member-snoc p (x ∷ l) = ground (arith, member-snoc p l)

-- The task at the tail stays there when it is put back.
put_prev-tail :
    (k : Kernel) (p : ℕ) (l : List ℕ)
    → k.rq.ras.run_list ≡ l ++ p ∷ []
    → count p l ≡ 0
    → (put_prev_task_ras k p).rq.ras.run_list ≡ l ++ p ∷ []
unfolding put_prev_task_ras requeue_tail
put_prev-tail k p l e h = ground (arith, update_curr_ras-rq k, remove-snoc p l h, member-snoc p l)

next_slice-HasSlice :
    (hz : ℕ) (k : Kernel) (p n : ℕ)
    → 34 ≤ hz
    → hz ≤ 1000000
    → n ≡ next_slice hz k p
    → (0 < n) × (n < 2 ^ 32)
next_slice-HasSlice hz k p n lo hi e =
    let (a, b, c) = refill-slice_bounds hz (k.tasks p) lo hi in (omega (arith, a), omega (arith, c))

-- The ticks of a whole slice of the task at the head.
whole_slice :
    (hz : ℕ) (k : Kernel) (p : ℕ) (l : List ℕ)
    → k.rq.ras.run_list ≡ p ∷ l
    → HasSlice k p
    → ((ticks hz (slice k p) k p).rq.ras.run_list ≡ l ++ p ∷ [])
      × (slice (ticks hz (slice k p) k p) p ≡ next_slice hz k p)
whole_slice hz k p l e good =
    let s : slice k p ≡ suc (slice k p - 1) = omega (arith, good.0) in
    let (a, b, c, d) = ticks-slice hz (slice k p - 1) k p l s (omega (arith, good)) e in
    subst
      (λ (n : ℕ).
        ((ticks hz n k p).rq.ras.run_list ≡ l ++ p ∷ [])
        × (slice (ticks hz n k p) p ≡ next_slice hz k p))
      (sym s) (b, c)

run_picked-head :
    (hz : ℕ) (k : Kernel) (p : ℕ) (l : List ℕ)
    → 34 ≤ hz
    → hz ≤ 1000000
    → k.rq.ras.run_list ≡ p ∷ l
    → count p l ≡ 0
    → HasSlice k p
    → ((run_picked hz (picked p, k)).rq.ras.run_list ≡ l ++ p ∷ [])
      × ((q : ℕ) → HasSlice k q → HasSlice (run_picked hz (picked p, k)) q)
run_picked-head hz k p l lo hi e c good =
    let r = set_running k p in
    let (a, b) = whole_slice hz r p l e good in
    let u = ticks hz (slice k p) r p in
    (
      put_prev-tail u p l a c,
      λ q h. elim (Bool-cases (p == q)) [
        | inl s ↦
            next_slice-HasSlice hz k p _ lo hi
              (put_prev-slice u p q ∙ ap (slice u) (sym ((==_iff p q).0 s)) ∙ b)
        | inr s ↦
            let o =
              put_prev-slice u p q
              ∙ ticks-other hz (slice k p) r p q (λ x. cc ((==_iff p q).1 x)) in
            (omega (arith, o, h), omega (arith, o, h))
      ],
    )

ticks-Inv : (hz n : ℕ) (k : Kernel) (p : ℕ) → Inv k.rq → Inv (ticks hz n k p).rq
unfolding ticks
ticks-Inv hz zero k p v = v
ticks-Inv hz (suc n) k p v = ticks-Inv hz n (task_tick_ras hz k p) p (Step-Inv {hz = hz} (tick p) v)

run_picked-Inv : (hz : ℕ) (r : Picked) (k : Kernel) → Inv k.rq → Inv (run_picked hz (r, k)).rq
run_picked-Inv hz nothing k v = v
run_picked-Inv hz wild k v = v
run_picked-Inv hz (picked p) k v = Step-Inv {hz = hz} (put_prev p) (
    ticks-Inv hz (slice k p) (set_running k p) p
      (record { counted = v.counted; distinct = v.distinct; covered = v.covered; small = v.small }))

turn-Inv : (hz : ℕ) (k : Kernel) → Inv k.rq → Inv (turn hz k).rq
unfolding turn
turn-Inv hz k v =
    run_picked-Inv hz (pick_next_task_ras k).0 (pick_next_task_ras k).1 (Step-Inv {hz = hz} pick v)

first_entry-HasSlice :
    (k : Kernel) (p q : ℕ)
    → slice (set_task k p (record (k.tasks p) { exec_start = k.rq.clock_task })) q ≡ slice k q
first_entry-HasSlice k p q = ground arith

pick_head :
    (k : Kernel) (p : ℕ) (l : List ℕ)
    → Inv k.rq
    → k.rq.ras.run_list ≡ p ∷ l
    → pick_next_task_ras k ≡ first_entry k (p ∷ l)
unfolding pick_next_task_ras
pick_head k p l v e =
    rw (==_ne k.rq.ras.ras_nr_running 0 (omega (arith, v.counted, ap length e)))
      (ap (first_entry k) e)

-- A turn of the task at the head puts it behind the others, and leaves no slice empty.
turn-head :
    (hz : ℕ) (k : Kernel) (p : ℕ) (l : List ℕ)
    → 34 ≤ hz
    → hz ≤ 1000000
    → Inv k.rq
    → k.rq.ras.run_list ≡ p ∷ l
    → HasSlice k p
    → ((turn hz k).rq.ras.run_list ≡ l ++ p ∷ [])
      × ((q : ℕ) → HasSlice k q → HasSlice (turn hz k) q)
unfolding turn
turn-head hz k p l lo hi v e good =
    let j = (first_entry k (p ∷ l)).1 in
    let alone : count p l ≡ 0 = ground (arith, v.distinct p, ap (count p) e) in
    let (a, b) = run_picked-head hz j p l lo hi e alone (rw (first_entry-HasSlice k p p) good) in
    rw (pick_head k p l v e) (a, λ q h. b q (rw (first_entry-HasSlice k p q) h))

All-snoc {ℓ} : (P : ℕ → Type ℓ) (l : List ℕ) (p : ℕ) → All P l → P p → All P (l ++ p ∷ [])
All-snoc P [] p h a = (a, tt)
All-snoc P (x ∷ l) p h a = (h.0, All-snoc P l p h.1 a)

All-map {ℓ κ} :
    (P : ℕ → Type ℓ) (Q : ℕ → Type κ) (l : List ℕ) → ((q : ℕ) → P q → Q q) → All P l → All Q l
All-map P Q [] f h = tt
All-map P Q (x ∷ l) f h = (f x h.0, All-map P Q l f h.1)

take-snoc : (n : ℕ) (l : List ℕ) (p : ℕ) → n ≤ length l → take n (l ++ p ∷ []) ≡ take n l
take-snoc zero l p h = refl
take-snoc (suc n) [] p h = absurd (omega arith)
take-snoc (suc n) (x ∷ l) p h = ap (◌∷◌ x) (take-snoc n l p (omega arith))

drop-snoc : (n : ℕ) (l : List ℕ) (p : ℕ) → n ≤ length l → drop n (l ++ p ∷ []) ≡ drop n l ++ p ∷ []
drop-snoc zero l p h = refl
drop-snoc (suc n) [] p h = absurd (omega arith)
drop-snoc (suc n) (x ∷ l) p h = drop-snoc n l p (omega arith)

-- After n turns, as long as no task joins or leaves, the first n tasks of the queue stand behind the
-- others in their old order: the task at position n is at the head, and after a full round the queue
-- is the old one. HZ is from 34 to a million, and each queued task has ticks left at the start.
pub turns-rotate :
    (hz n : ℕ) (k : Kernel) (l : List ℕ)
    → 34 ≤ hz
    → hz ≤ 1000000
    → Inv k.rq
    → k.rq.ras.run_list ≡ l
    → All (HasSlice k) l
    → n ≤ length l
    → (turns hz n k).rq.ras.run_list ≡ drop n l ++ take n l
unfolding turns
turns-rotate hz zero k l lo hi v e good h = e ∙ sym (append-nil l)
turns-rotate hz (suc n) k [] lo hi v e good h = absurd (omega arith)
turns-rotate hz (suc n) k (p ∷ l) lo hi v e good h =
    let (a, b) = turn-head hz k p l lo hi v e good.0 in
    let rest =
      turns-rotate hz n (turn hz k) (l ++ p ∷ []) lo hi (turn-Inv hz k v) a
        (All-snoc _ l p (All-map _ _ l b good.1) (b p good.0))
        (omega (arith, length-append l (p ∷ []))) in
    rest
    ∙ rw (take-snoc n l p (omega arith), drop-snoc n l p (omega arith))
        (append_assoc (drop n l) (p ∷ []) (take n l))
