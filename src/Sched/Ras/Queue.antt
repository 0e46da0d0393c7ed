-- ===== src/Sched/Ras/Queue.antt =====
-- The RAS queue of goldfish/kernel/sched/ras.c and its counters, over any history of the class's
-- handlers.
use operating_system_project.Prelude.{
  count-remove_ne, member-false, count-remove_self, Bool-cases, List, [], arith, count,
  count-append, dec32, false, has_flag, inl, inr, length, length-append, length-remove, member,
  refl, remove, subst, suc, sym, true, ℕ, ◌+◌, ◌<◌, ◌==◌, ◌^◌, ◌∷◌, ◌≡◌, ◌≤◌, ◌⊎◌,
}
use operating_system_project.Sched.Ras.Machine.{
  Inv, Step, enqueue, dequeue, pick, put_prev, yields, preempt, set_curr, tick, interval, switched,
  elsewhere, Reach, boot, later,
}
use operating_system_project.Sched.Task.{resched_task, RasRq, enqueue_head, Rq, Kernel}
use operating_system_project.Sched.Ras.Class.{
  count_down, nothing, picked, unlink_task, yield_task_ras, first_entry, get_rr_interval_ras, many,
  link_task, init_ras_rq, dequeue_task_ras, check_preempt_curr_ras, slice_over, switched_to_ras,
  set_curr_task_ras, enqueue_task_ras, task_tick_ras, pick_next_task_ras, move_tail,
  update_curr_ras, requeue_tail, put_prev_task_ras,
}

-- What a handler that neither links nor unlinks a task does to the run queue: it leaves all of it
-- alone, or moves one linked task to the tail of the RAS queue.
pub data Reorders (k l : Kernel) : Type 0 where
  same : l.rq ≡ k.rq → Reorders k l
  moves :
      (p : ℕ)
      → member p k.rq.ras.run_list ≡ true
      → l.rq
        ≡ record (k.rq) { ras = record (k.rq.ras) { run_list = move_tail p k.rq.ras.run_list } }
      → Reorders k l

pub update_curr_ras-rq : (k : Kernel) → (update_curr_ras k).rq ≡ k.rq
unfolding update_curr_ras
update_curr_ras-rq k = ground arith

requeue_tail-Reorders : (k l : Kernel) (p : ℕ) → l.rq ≡ k.rq → Reorders k (requeue_tail l p)
unfolding requeue_tail
requeue_tail-Reorders k l p e = elim (Bool-cases (member p l.rq.ras.run_list)) [
  | inl h ↦ rw h (moves p (rw e at h) (ground arith))
  | inr h ↦ rw h (same e)
]

put_prev_task_ras-Reorders : (k : Kernel) (p : ℕ) → Reorders k (put_prev_task_ras k p)
unfolding put_prev_task_ras
put_prev_task_ras-Reorders k p =
    requeue_tail-Reorders k (update_curr_ras k) p (update_curr_ras-rq k)

slice_over-Reorders : (hz : ℕ) (k l : Kernel) (p : ℕ) → l.rq ≡ k.rq → Reorders k (slice_over hz l p)
unfolding slice_over requeue_tail resched_task
slice_over-Reorders hz k l p e = elim (Bool-cases (many l.rq.ras.run_list)) [
  | inl h ↦ elim (Bool-cases (member p l.rq.ras.run_list)) [
    | inl m ↦ rw (h, m) (moves p (rw e at m) (ground arith))
    | inr m ↦ rw (h, m) (same e)
  ]
  | inr h ↦ rw h (same e)
]

pub count_down-rq : (hz : ℕ) (k : Kernel) (p : ℕ) → (count_down hz k p).rq ≡ k.rq
unfolding count_down
count_down-rq hz k p = update_curr_ras-rq k

task_tick_ras-Reorders : (hz : ℕ) (k : Kernel) (p : ℕ) → Reorders k (task_tick_ras hz k p)
unfolding task_tick_ras
task_tick_ras-Reorders hz k p =
    let v = count_down hz k p in
    elim (Bool-cases ((v.tasks p).ras.time_slice == 0)) [
      | inl h ↦ rw h (slice_over-Reorders hz k v p (count_down-rq hz k p))
      | inr h ↦ rw h (same (count_down-rq hz k p))
    ]

count-move_tail : (p q : ℕ) (l : List ℕ) → member p l ≡ true → count q (move_tail p l) ≡ count q l
count-move_tail p q l h = elim (Bool-cases (p == q)) [
  | inl e ↦ ground (arith, count-append q (remove p l) (p ∷ []), count-remove_self p l h)
  | inr e ↦ ground (arith, count-append q (remove p l) (p ∷ []), count-remove_ne p q l)
]

length-move_tail : (p : ℕ) (l : List ℕ) → member p l ≡ true → length (move_tail p l) ≡ length l
length-move_tail p l h = omega (arith, length-append (remove p l) (p ∷ []), length-remove p l h)

Reorders-Inv : {k l : Kernel} → Reorders k l → Inv k.rq → Inv l.rq
Reorders-Inv (same e) v = subst Inv (sym e) v
Reorders-Inv {k} (moves p m e) v =
    let c = length-move_tail p k.rq.ras.run_list m in
    subst Inv (sym e) (record {
      counted = omega (arith, v.counted);
      distinct = λ q. omega (arith, count-move_tail p q k.rq.ras.run_list m, v.distinct q);
      covered = omega (arith, v.covered);
      small = v.small;
    })

check_preempt_curr_ras-rq :
    (k : Kernel) (p flags : ℕ) → (check_preempt_curr_ras k p flags).rq ≡ k.rq
unfolding check_preempt_curr_ras
check_preempt_curr_ras-rq k p flags = ground arith

switched_to_ras-rq : (k : Kernel) (p : ℕ) → (switched_to_ras k p).rq ≡ k.rq
unfolding switched_to_ras
switched_to_ras-rq k p = ground arith

first_entry-rq : (k : Kernel) (l : List ℕ) → (first_entry k l).1.rq ≡ k.rq
first_entry-rq k [] = refl
first_entry-rq k (p ∷ l) = refl

pick_next_task_ras-rq : (k : Kernel) → (pick_next_task_ras k).1.rq ≡ k.rq
unfolding pick_next_task_ras
pick_next_task_ras-rq k = ground (arith, first_entry-rq k k.rq.ras.run_list)

link_task-counts :
    (flags p : ℕ) (l : List ℕ)
    → (length (link_task flags p l) ≡ suc (length l))
      × ((q : ℕ) → count q (link_task flags p l) ≡ count q (p ∷ l))
link_task-counts flags p l = elim (Bool-cases (has_flag flags enqueue_head)) [
  | inl h ↦ rw h (refl, λ q. refl)
  | inr h ↦
      rw h (omega (arith, length-append l (p ∷ [])), λ q. ground (arith, count-append q l (p ∷ [])))
]

enqueue_task_ras-Inv :
    (hz : ℕ) (k : Kernel) (p flags : ℕ)
    → member p k.rq.ras.run_list ≡ false
    → k.rq.nr_running + 1 < 2 ^ 32
    → Inv k.rq
    → Inv (enqueue_task_ras hz k p flags).rq
unfolding enqueue_task_ras
enqueue_task_ras-Inv hz k p flags out room v =
    let (c, d) = link_task-counts flags p k.rq.ras.run_list in
    record {
      counted = omega (arith, v.counted, v.covered);
      distinct = λ q. ground (arith, d q, v.distinct q, member-false p k.rq.ras.run_list out);
      covered = omega (arith, v.covered);
      small = omega arith;
    }

-- A run queue without one of its RAS tasks.
abbrev unlinked : Rq → ℕ → Rq
unlinked q p = record q {
  ras = record (q.ras) {
    run_list = remove p q.ras.run_list;
    ras_nr_running = dec32 q.ras.ras_nr_running;
  };
}

unlink_task-rq :
    (k l : Kernel) (p : ℕ)
    → l.rq ≡ k.rq
    → member p k.rq.ras.run_list ≡ true
    → (unlink_task l p).rq ≡ unlinked k.rq p
unfolding unlink_task
unlink_task-rq k l p e m = ground arith

count-remove-le : (p q : ℕ) (l : List ℕ) → count q (remove p l) ≤ count q l
count-remove-le p q [] = omega arith
count-remove-le p q (x ∷ l) = ground (arith, count-remove-le p q l)

unlinked-Inv :
    (q : Rq) (p : ℕ)
    → member p q.ras.run_list ≡ true
    → Inv q
    → Inv (record (unlinked q p) { nr_running = dec32 q.nr_running })
unlinked-Inv q p m v =
    let c = length-remove p q.ras.run_list m in
    record {
      counted = omega (arith, v.counted, v.covered, v.small);
      distinct = λ x. omega (arith, v.distinct x, count-remove-le p x q.ras.run_list);
      covered = omega (arith, v.covered, v.small);
      small = omega arith;
    }

dequeue_task_ras-Inv :
    (k : Kernel) (p flags : ℕ)
    → member p k.rq.ras.run_list ≡ true
    → Inv k.rq
    → Inv (dequeue_task_ras k p flags).rq
unfolding dequeue_task_ras
dequeue_task_ras-Inv k p flags m v =
    rw (unlink_task-rq k (update_curr_ras k) p (update_curr_ras-rq k) m) (unlinked-Inv k.rq p m v)

-- Every step of the machine keeps the queue free of repetitions and its counters right.
pub Step-Inv : {hz : ℕ} {k l : Kernel} → Step hz k l → Inv k.rq → Inv l.rq
unfolding set_curr_task_ras get_rr_interval_ras yield_task_ras
Step-Inv {hz} {k} (enqueue p flags out room) v = enqueue_task_ras-Inv hz k p flags out room v
Step-Inv {hz} {k} (dequeue p flags m) v = dequeue_task_ras-Inv k p flags m v
Step-Inv {hz} {k} pick v = subst Inv (sym (pick_next_task_ras-rq k)) v
Step-Inv {hz} {k} (put_prev p) v = Reorders-Inv (put_prev_task_ras-Reorders k p) v
Step-Inv {hz} {k} yields v = Reorders-Inv (requeue_tail-Reorders k k k.rq.curr refl) v
Step-Inv {hz} {k} (preempt p flags) v = subst Inv (sym (check_preempt_curr_ras-rq k p flags)) v
Step-Inv {hz} {k} set_curr v = v
Step-Inv {hz} {k} (tick p) v = Reorders-Inv (task_tick_ras-Reorders hz k p) v
Step-Inv {hz} {k} (interval p) v = v
Step-Inv {hz} {k} (switched p) v = subst Inv (sym (switched_to_ras-rq k p)) v
Step-Inv {hz} {k} (elsewhere {l} e c s) v = record {
  counted = subst (λ (r : RasRq). r.ras_nr_running ≡ length r.run_list) (sym e) v.counted;
  distinct = subst (λ (r : RasRq). (p : ℕ) → count p r.run_list ≤ 1) (sym e) v.distinct;
  covered = subst (λ (r : RasRq). length r.run_list ≤ l.rq.nr_running) (sym e) c;
  small = s;
}

-- In every state that the machine can reach, the queue holds each task at most once, its counter is
-- its length, and the processor's counter covers it.
pub Reach-Inv : {hz : ℕ} {k : Kernel} → Reach hz k → Inv k.rq
unfolding init_ras_rq
Reach-Inv (boot k s) = record {
  counted = refl;
  distinct = λ p. omega arith;
  covered = omega arith;
  small = s;
}
Reach-Inv (later r s) = Step-Inv s (Reach-Inv r)

first_entry-picks :
    (k : Kernel) (l : List ℕ)
    → 0 < length l
    → (p : ℕ) × (r : List ℕ) × (l ≡ p ∷ r) × ((first_entry k l).0 ≡ picked p)
first_entry-picks k [] h = absurd (omega arith)
first_entry-picks k (p ∷ r) h = (p, r, refl, refl)

empty_of_length : (l : List ℕ) → length l ≡ 0 → l ≡ []
empty_of_length [] h = refl
empty_of_length (x ∷ l) h = absurd (omega arith)

-- In a reachable state pick_next_task_ras returns NULL exactly when the queue is empty, and otherwise
-- the task at its head: never the pointer that an empty list's head would give.
pub pick_next_task_ras-head :
    {hz : ℕ} (k : Kernel)
    → Reach hz k
    → ((k.rq.ras.run_list ≡ []) × (pick_next_task_ras k ≡ (nothing, k)))
      ⊎ ((p : ℕ) × (l : List ℕ) × (k.rq.ras.run_list ≡ p ∷ l)
          × ((pick_next_task_ras k).0 ≡ picked p))
unfolding pick_next_task_ras
pick_next_task_ras-head k r = elim (Bool-cases (k.rq.ras.ras_nr_running == 0)) [
  | inl h ↦
      rw h (inl (empty_of_length k.rq.ras.run_list (ground (arith, (Reach-Inv r).counted)), refl))
  | inr h ↦
      rw h (inr (first_entry-picks k k.rq.ras.run_list (ground (arith, (Reach-Inv r).counted))))
]
