-- ===== src/Sched/Rt/Flat.antt =====
-- The root queue of the real-time class where no task is in another group.
use operating_system_project.Sched.Rt.Bits.{Bitmap}
use operating_system_project.Prelude.{
  ==_iff, ℕ, zero, suc, ◌+◌, ◌^◌, ◌≤◌, ◌<◌, ◌≡◌, refl, sym, ap, subst, ◌∙◌, ◌⊎◌, inl, inr, Bool,
  true, false, ◌||◌, List, [], ◌∷◌, ◌++◌, arith, ◌==◌, if◌then◌else◌, Bool-cases, update,
}
use operating_system_project.Sched.Core.World.{World, task}
use operating_system_project.Sched.Core.Policy.{max_rt_prio}
use operating_system_project.Sched.Rt.Queues.{
  Entity, task_entity, group_entity, same_entity, RtRq, Rt, unlink, holds_entity, on_rt_rq,
  on_levels, link_entity, unlink_entity,
}
use operating_system_project.Sched.Rt.Walk.{
  Place, rt_rq, dequeue_rt_stack, dequeue_place, enqueue_place, enqueue_all, enqueue_groups,
  enqueue_rt_entity, dequeue_rt_entity, rt_se_prio, rt_se_boosted,
}
use operating_system_project.Sched.Rt.Array.{
  IsArray, StandsAt, link_entity-IsArray, unlink_entity-IsArray, total-unlink,
}

-- An entity in the list of a priority is a task with that priority.
abbrev pub Placed : (ℕ → ℕ) → Entity → ℕ → Type 0
Placed prio_of (task_entity p) i = (i < max_rt_prio) × (prio_of p ≡ i)
Placed prio_of (group_entity g) i = ⊥

-- The queue is consistent, and what stands in a list is a task with the list's priority.
pub record IsFlat ⦃bm : Bitmap⦄ (prio_of : ℕ → ℕ) (r : RtRq) : Type 0 where
  pub array : IsArray r
  pub placed : (x : Entity) (i : ℕ) → holds_entity x (r.queue i) ≡ true → Placed prio_of x i

pub update-here :
    (f : ℕ → List Entity) (i j : ℕ) (l : List Entity) → (i == j) ≡ true → update f i l j ≡ l
update-here f i j l h = rw h refl

pub same_entity-eq : (x y : Entity) → same_entity x y ≡ true → x ≡ y
same_entity-eq (task_entity p) (task_entity q) h = ground (arith, (==_iff p q).0 h)
same_entity-eq (group_entity p) (group_entity q) h = ground (arith, (==_iff p q).0 h)
same_entity-eq (task_entity p) (group_entity q) h = absurd (ground arith)
same_entity-eq (group_entity p) (task_entity q) h = absurd (ground arith)

holds_entity-snoc :
    (x y : Entity) (l : List Entity)
    → holds_entity x (l ++ y ∷ []) ≡ (holds_entity x l || same_entity y x)
holds_entity-snoc x y [] = ground arith
holds_entity-snoc x y (z ∷ l) = ground (arith, holds_entity-snoc x y l)

pub holds_entity-push :
    (x y : Entity) (l : List Entity) (head : Bool)
    → holds_entity x (if head then y ∷ l else l ++ y ∷ []) ≡ true
    → (same_entity y x ≡ true) ⊎ (holds_entity x l ≡ true)
holds_entity-push x y l true h = ground arith
holds_entity-push x y l false h = ground (arith, holds_entity-snoc x y l)

pub holds_entity-unlink :
    (x y : Entity) (l : List Entity) → holds_entity x (unlink y l) ≡ true → holds_entity x l ≡ true
holds_entity-unlink x y [] h = h
holds_entity-unlink x y (z ∷ l) h = ground (arith, holds_entity-unlink x y l)

pub on_levels-level :
    (x : Entity) (queue : ℕ → List Entity) (i left : ℕ)
    → on_levels x queue i left ≡ true
    → (k : ℕ) × (k < i + left) × (holds_entity x (queue k) ≡ true)
unfolding on_levels
on_levels-level x queue i zero h = absurd (ground arith)
on_levels-level x queue i (suc left) h = elim (Bool-cases (holds_entity x (queue i))) [
  | inl here ↦ (i, omega arith, here)
  | inr other ↦
      let (k, a, b) = on_levels-level x queue (i + 1) left (ground arith) in (k, omega arith, b)
]

module _ ⦃bm : Bitmap⦄ (prio_of : ℕ → ℕ) (r : RtRq) (v : IsFlat prio_of r) (p : ℕ) where
  -- A task that is linked stands at its priority, and nowhere else.
  pub linked-StandsAt :
      on_rt_rq (task_entity p) r ≡ true → StandsAt (task_entity p) r.queue (prio_of p)
  unfolding on_rt_rq
  linked-StandsAt h =
      let (k, lt, inside) = on_levels-level (task_entity p) r.queue 0 max_rt_prio h in
      let (level, at) = v.placed (task_entity p) k inside in
      record {
        level = omega arith;
        inside = rw at inside;
        outside = λ i other. elim (Bool-cases (holds_entity (task_entity p) (r.queue i))) [
          | inl there ↦ absurd (other (sym (v.placed (task_entity p) i there).1))
          | inr gone ↦ gone
        ];
      }

  pushed_Placed :
      (head : Bool) (x : Entity)
      → prio_of p < max_rt_prio
      → holds_entity x (
          if head
          then task_entity p ∷ r.queue (prio_of p)
          else r.queue (prio_of p) ++ task_entity p ∷ [])
        ≡ true
      → Placed prio_of x (prio_of p)
  pushed_Placed head x level h =
      elim (holds_entity-push x (task_entity p) (r.queue (prio_of p)) head h) [
        | inl same ↦
            subst (λ y. Placed prio_of y (prio_of p)) (same_entity-eq (task_entity p) x same)
              (level, refl)
        | inr old ↦ v.placed x (prio_of p) old
      ]

  link-IsFlat :
      (boosted head : Bool)
      → prio_of p < max_rt_prio
      → r.rt_nr_running + 1 < 2 ^ 32
      → IsFlat prio_of (link_entity (task_entity p) (prio_of p) boosted head r)
  unfolding link_entity
  link-IsFlat boosted head level room = record {
    array = link_entity-IsArray (task_entity p) (prio_of p) boosted head r v.array level room;
    placed = λ x i h. elim (Bool-cases (prio_of p == i)) [
      | inl same ↦
          subst (λ k. Placed prio_of x k) ((==_iff (prio_of p) i).0 same)
            (pushed_Placed head x level
              (sym (ap (holds_entity x) (update-here r.queue (prio_of p) i _ same)) ∙ h))
      | inr other ↦ v.placed x i (ground arith)
    ];
  }

  unlink-IsFlat :
      (boosted : Bool)
      → StandsAt (task_entity p) r.queue (prio_of p)
      → IsFlat prio_of (unlink_entity (task_entity p) (prio_of p) boosted r)
  unfolding unlink_entity
  unlink-IsFlat boosted s = record {
    array = unlink_entity-IsArray (task_entity p) (prio_of p) r v.array s boosted;
    placed = λ x i h. v.placed x i (holds_entity-unlink x (task_entity p) (r.queue i) h);
  }

-- The places of a task of the root group
abbrev pub root_place : ℕ → List Place
root_place p = record { entity = task_entity p; on = 0 } ∷ []

module _ {S : Type 0} ⦃bm : Bitmap⦄ where
  -- The priorities of the tasks in a state
  abbrev pub prios : World (Rt S) → ℕ → ℕ
  prios w p = (task w p).prio

  -- The root queue of a state is consistent, and holds tasks at their priorities.
  abbrev pub RootFlat : World (Rt S) → Type 0
  RootFlat w = IsFlat (prios w) (rt_rq w 0)

  -- What a walk over the one queue leaves alone
  pub record SameRest (w v : World (Rt S)) : Type 0 where
    pub kernel : v.kernel ≡ w.kernel
    pub room : (rt_rq v 0).rt_nr_running ≤ (rt_rq w 0).rt_nr_running

  module _ (p : ℕ) where
    dequeue_rt_stack-flat :
        (w : World (Rt S))
        → RootFlat w
        → RootFlat (dequeue_rt_stack w (root_place p))
          × SameRest w (dequeue_rt_stack w (root_place p))
    unfolding dequeue_rt_stack dequeue_place rt_se_prio
    dequeue_rt_stack-flat w v = elim (Bool-cases (on_rt_rq (task_entity p) (rt_rq w 0))) [
      | inl linked ↦
          let s = linked-StandsAt (prios w) (rt_rq w 0) v p linked in
          rw linked (
            unlink-IsFlat (prios w) (rt_rq w 0) v p (rt_se_boosted w (task_entity p)) s,
            record {
              kernel = refl;
              room = omega (
                arith,
                v.array.counted,
                v.array.small,
                total-unlink (task_entity p) (rt_rq w 0).queue (task w p).prio s,
              );
            },
          )
      | inr away ↦ rw away (v, record { kernel = refl; room = omega arith })
    ]

    pub enqueue_rt_entity-flat :
        (w : World (Rt S)) (head : Bool)
        → RootFlat w
        → (task w p).prio < max_rt_prio
        → (rt_rq w 0).rt_nr_running + 1 < 2 ^ 32
        → RootFlat (enqueue_rt_entity w (root_place p) head)
    unfolding enqueue_rt_entity enqueue_all enqueue_place rt_se_prio
    enqueue_rt_entity-flat w head v level room =
        let (a, b) = dequeue_rt_stack-flat w v in
        let d = dequeue_rt_stack w (root_place p) in
        link-IsFlat (prios d) (rt_rq d 0) a p (rt_se_boosted d (task_entity p)) head
          (subst (λ k. (k.tasks p).prio < max_rt_prio) (sym b.kernel) level) (omega (arith, b.room))

    pub dequeue_rt_entity-flat :
        (w : World (Rt S)) → RootFlat w → RootFlat (dequeue_rt_entity w (root_place p))
    unfolding dequeue_rt_entity enqueue_groups
    dequeue_rt_entity-flat w v = (dequeue_rt_stack-flat w v).0
