-- ===== src/Sched/Rt/Highest.antt =====
-- The entity that pick_next_rt_entity takes.
use operating_system_project.Sched.Rt.Bits.{Bitmap, first_bit}
use operating_system_project.Prelude.{
  ==_ne, ltb→lt, ℕ, zero, suc, ◌+◌, ◌≤◌, ◌<◌, ◌≡◌, refl, ◌∙◌, ◌≢◌, inl, inr, true, false, some,
  List, [], ◌∷◌, arith, ltb, Bool-cases,
}
use operating_system_project.Sched.Core.Policy.{max_rt_prio}
use operating_system_project.Sched.Rt.Queues.{Entity, RtRq, is_empty}
use operating_system_project.Sched.Rt.Bits.{first_bit-IsFirst}
use operating_system_project.Sched.Rt.Array.{IsArray, total}
use operating_system_project.Sched.Core.World.{World}
use operating_system_project.Sched.Ras.Class.{picked}
use operating_system_project.Sched.Rt.Queues.{
  task_entity, group_entity, Rt, holds_entity, rt_rq_throttled,
}
use operating_system_project.Sched.Rt.Walk.{Groups, rt_rq}
use operating_system_project.Sched.Rt.Pick.{descend, pick_from, pick_next_task_rt}
use operating_system_project.Sched.Rt.Pick.{pick_next_rt_entity}

total-empty :
    (queue : ℕ → List Entity) (i left : ℕ)
    → ((k : ℕ) → i ≤ k → k < i + left → is_empty (queue k) ≡ true)
    → total queue i left ≡ 0
unfolding total
total-empty queue i zero h = refl
total-empty queue i (suc left) h =
    let e = total-empty queue (i + 1) left (λ k a b. h k (omega arith) (omega arith)) in
    ground (arith, h i, e)

is_empty-nil : (l : List Entity) → is_empty l ≡ true → l ≡ []
is_empty-nil [] h = refl
is_empty-nil (x ∷ l) h = ground arith

is_empty-cons :
    (l : List Entity) → is_empty l ≡ false → (x : Entity) × (xs : List Entity) × (l ≡ x ∷ xs)
is_empty-cons [] h = absurd (ground arith)
is_empty-cons (x ∷ l) h = (x, l, refl)

module _ ⦃bm : Bitmap⦄ (r : RtRq) (v : IsArray r) where
  -- The lists below the first bit are empty.
  empty_below : (i : ℕ) → i < first_bit r.bitmap → is_empty (r.queue i) ≡ true
  empty_below i h =
      let f = first_bit-IsFirst r.bitmap v.delimiter in
      ground (arith, f.below i, f.within, v.bits i)

  first_bit-lt : r.rt_nr_running ≢ 0 → first_bit r.bitmap < max_rt_prio
  first_bit-lt busy =
      let f = first_bit-IsFirst r.bitmap v.delimiter in
      elim (Bool-cases (ltb (first_bit r.bitmap) max_rt_prio)) [
        | inl h ↦ ltb→lt (first_bit r.bitmap) max_rt_prio h
        | inr h ↦ absurd (
            busy (
              v.counted
              ∙ total-empty r.queue 0 max_rt_prio (λ k a b. empty_below k (ground arith))))
      ]

-- In a consistent queue that is not empty, pick_next_rt_entity gives the head of the list of the highest
-- priority: that list has entities, and the lists of all higher priorities are empty.
pub pick_next_rt_entity-highest :
    ⦃bm : Bitmap⦄ (r : RtRq)
    → IsArray r
    → r.rt_nr_running ≢ 0
    → (x : Entity) × (l : List Entity) × (pick_next_rt_entity r ≡ some x)
      × (r.queue r.highest_prio ≡ x ∷ l)
      × ((i : ℕ) → i < r.highest_prio → r.queue i ≡ [])
unfolding pick_next_rt_entity
pick_next_rt_entity-highest r v busy =
    let j : ℕ = first_bit r.bitmap in
    let f = first_bit-IsFirst r.bitmap v.delimiter in
    let lt = first_bit-lt r v busy in
    let (x, l, e) = is_empty-cons (r.queue j) (ground (arith, f.here lt, v.bits j lt)) in
    (
      x,
      l,
      ground (arith, e),
      rw v.highest e,
      λ i h. is_empty-nil (r.queue i) (empty_below r v i (rw (← v.highest) h)),
    )

module _ {S : Type 0} ⦃bm : Bitmap⦄ (gs : Groups) (w : World (Rt S)) where
  -- Every queue is consistent, and a group that stands in a queue has entities and lies below the queue's
  -- group.
  pub record IsNested : Type 0 where
    pub arrays : (g : ℕ) → IsArray (rt_rq w g)
    pub inner :
        (g i h : ℕ)
        → holds_entity (group_entity h) ((rt_rq w g).queue i) ≡ true
        → (gs.height h < gs.height g) × ((rt_rq w h).rt_nr_running ≢ 0)

  -- An entity is the first one of the highest priority of a group, and no list above it has entities.
  pub record IsTop (g : ℕ) (x : Entity) : Type 0 where
    pub later : List Entity
    pub first : (rt_rq w g).queue (rt_rq w g).highest_prio ≡ x ∷ later
    pub above : (i : ℕ) → i < (rt_rq w g).highest_prio → (rt_rq w g).queue i ≡ []

  -- A task is the top one of a group, directly or as the top one of a group that is the group's top one.
  pub data Tops : ℕ → ℕ → Type 0 where
    direct : {g p : ℕ} → IsTop g (task_entity p) → Tops g p
    within : {g h p : ℕ} → IsTop g (group_entity h) → Tops h p → Tops g p

  -- What the loop finds behind a top entity
  descend-Tops :
      (fuel g : ℕ) (x : Entity)
      → IsTop g x
      → ((h : ℕ) → x ≡ group_entity h → (p : ℕ) × (pick_from fuel w h ≡ picked p) × Tops h p)
      → (p : ℕ) × (descend (pick_from fuel w) (some x) ≡ picked p) × Tops g p
  descend-Tops fuel g (task_entity p) top deeper = (p, refl, direct top)
  descend-Tops fuel g (group_entity h) top deeper =
      let (p, e, t) = deeper h refl in (p, e, within top t)

  pick_from-Tops :
      (fuel g : ℕ)
      → IsNested
      → gs.height g < fuel
      → (rt_rq w g).rt_nr_running ≢ 0
      → (p : ℕ) × (pick_from fuel w g ≡ picked p) × Tops g p
  unfolding pick_from
  pick_from-Tops zero g v h busy = absurd (omega arith)
  pick_from-Tops (suc fuel) g v h busy =
      let (x, l, e, q, above) = pick_next_rt_entity-highest (rt_rq w g) (v.arrays g) busy in
      let top : IsTop g x = record { later = l; first = q; above = above } in
      let (p, d, t) = descend-Tops fuel g x top (λ k same.
        let (low, inside) = v.inner g (rt_rq w g).highest_prio k (rw q (rw same (ground arith))) in
        pick_from-Tops fuel k v (omega arith) inside) in
      (p, rw e d, t)

  -- In a state whose queues are consistent and nested, and whose root queue is neither empty nor throttled,
  -- the loop of the real-time class ends at a task, and it is the top one of the root group: on each level
  -- of groups the first entity of the highest priority.
  pub pick_next_task_rt-Tops :
      IsNested
      → (rt_rq w 0).rt_nr_running ≢ 0
      → rt_rq_throttled (rt_rq w 0) ≡ false
      → (p : ℕ) × ((pick_next_task_rt gs w).0 ≡ picked p) × Tops 0 p
  unfolding pick_next_task_rt
  pick_next_task_rt-Tops v busy open_ =
      let (p, e, t) = pick_from-Tops (suc (gs.height 0)) 0 v (omega arith) busy in
      (p, rw (==_ne (rt_rq w 0).rt_nr_running 0 busy, open_, e) refl, t)
