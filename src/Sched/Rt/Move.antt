-- ===== src/Sched/Rt/Move.antt =====
-- requeue_task_rt keeps the root queue of the real-time class consistent.
use operating_system_project.Sched.Rt.Bits.{Bitmap}
use operating_system_project.Prelude.{
  ==_iff, length-append, ℕ, suc, ◌≡◌, refl, sym, ap, subst, ◌∙◌, inl, inr, Bool, true, List, [],
  ◌∷◌, ◌++◌, arith, ◌==◌, if◌then◌else◌, Bool-cases, length,
}
use operating_system_project.Sched.Core.World.{World}
use operating_system_project.Sched.Core.Policy.{max_rt_prio}
use operating_system_project.Sched.Rt.Queues.{
  Entity, task_entity, RtRq, Rt, unlink, holds_entity, on_rt_rq,
}
use operating_system_project.Sched.Rt.Walk.{
  rt_rq, move_entity, requeue_rt_entity, requeue_task_rt, rt_se_prio,
}
use operating_system_project.Sched.Rt.Array.{
  IsArray, StandsAt, unlinked, total-update, total-unlink, is_empty-push, holds_entity-nonempty,
}
use operating_system_project.Sched.Rt.Flat.{
  IsFlat, Placed, RootFlat, root_place, prios, holds_entity-push, holds_entity-unlink, update-here,
  same_entity-eq, linked-StandsAt,
}

module _ ⦃bm : Bitmap⦄ (x : Entity) (prio : ℕ) (head : Bool) (r : RtRq)
    (s : StandsAt x r.queue prio) where
  -- The lists without the entity, and the list that it is moved to
  abbrev gone : ℕ → List Entity
  gone i = unlink x (r.queue i)

  abbrev moved : List Entity
  moved = if head then x ∷ gone prio else gone prio ++ x ∷ []

  length-moved : length moved ≡ suc (length (gone prio))
  length-moved = ground (arith, length-append (gone prio) (x ∷ []))

  move_entity-IsArray : IsArray r → IsArray (move_entity x prio head r)
  move_entity-IsArray v = record {
    bits = λ i h. rw (unlinked x r.queue prio i s) (
        ground (
          arith,
          v.bits i,
          is_empty-push x (gone prio) head,
          holds_entity-nonempty x (r.queue prio) s.inside,
        ));
    delimiter = v.delimiter;
    highest = v.highest;
    counted = omega (
      arith,
      v.counted,
      total-unlink x r.queue prio s,
      length-moved,
      s.level,
      total-update gone moved prio 0 max_rt_prio,
    );
    small = v.small;
  }

module _ ⦃bm : Bitmap⦄ (prio_of : ℕ → ℕ) (r : RtRq) (v : IsFlat prio_of r) (p : ℕ)
    (head : Bool) where
  moved-Placed :
      (s : StandsAt (task_entity p) r.queue (prio_of p)) (x : Entity)
      → holds_entity x (moved (task_entity p) (prio_of p) head r s) ≡ true
      → Placed prio_of x (prio_of p)
  moved-Placed s x h =
      let l = unlink (task_entity p) (r.queue (prio_of p)) in
      elim (holds_entity-push x (task_entity p) l head h) [
        | inl same ↦
            subst (λ y. Placed prio_of y (prio_of p)) (same_entity-eq (task_entity p) x same)
              (s.level, refl)
        | inr old ↦
            v.placed x (prio_of p) (holds_entity-unlink x (task_entity p) (r.queue (prio_of p)) old)
      ]

  move_entity-IsFlat :
      StandsAt (task_entity p) r.queue (prio_of p)
      → IsFlat prio_of (move_entity (task_entity p) (prio_of p) head r)
  move_entity-IsFlat s = record {
    array = move_entity-IsArray (task_entity p) (prio_of p) head r s v.array;
    placed = λ x i h. elim (Bool-cases (prio_of p == i)) [
      | inl same ↦
          subst (λ k. Placed prio_of x k) ((==_iff (prio_of p) i).0 same)
            (moved-Placed s x (
              sym (
                ap (holds_entity x)
                  (update-here (λ k. unlink (task_entity p) (r.queue k)) (prio_of p) i _ same))
              ∙ h))
      | inr other ↦ v.placed x i (holds_entity-unlink x (task_entity p) (r.queue i) (ground arith))
    ];
  }

pub requeue_task_rt-flat :
    {S : Type 0} ⦃bm : Bitmap⦄ (w : World (Rt S)) (p : ℕ) (head : Bool)
    → RootFlat w
    → RootFlat (requeue_task_rt head w (root_place p))
unfolding requeue_task_rt requeue_rt_entity rt_se_prio
requeue_task_rt-flat w p head v = elim (Bool-cases (on_rt_rq (task_entity p) (rt_rq w 0))) [
  | inl linked ↦ rw linked (
      move_entity-IsFlat (prios w) (rt_rq w 0) v p head
        (linked-StandsAt (prios w) (rt_rq w 0) v p linked))
  | inr away ↦ rw away v
]
