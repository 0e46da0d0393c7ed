-- ===== src/Sched/Rt/Array.antt =====
-- The priority array of an rt_rq stays consistent: its bit map, its counter and the highest priority.
use operating_system_project.Sched.Rt.Bits.{Bitmap, first_bit}
use operating_system_project.Prelude.{
  length-append, ==_iff, ℕ, zero, suc, ◌+◌, ◌^◌, ◌≤◌, ◌<◌, ◌≡◌, refl, sym, ◌∙◌, ◌≢◌, inl, inr, Bool,
  true, false, not, List, [], ◌∷◌, ◌++◌, arith, ◌==◌, if◌then◌else◌, Bool-cases, update, length,
}
use operating_system_project.Prelude.{dec32}
use mathlib.Core.Path.{fun_ext}
use operating_system_project.Sched.Core.Policy.{max_rt_prio}
use operating_system_project.Sched.Rt.Queues.{
  Entity, RtRq, is_empty, unlink, holds_entity, link_entity, unlink_entity, init_rt_rq,
}
use operating_system_project.Sched.Rt.Bits.{first_bit-IsFirst, first_bit-set, first_bit-clear}

-- The number of entities in the lists from level `i` on
unfoldable pub total : (ℕ → List Entity) → ℕ → ℕ → ℕ
total queue i zero = 0
total queue i (suc left) = length (queue i) + total queue (i + 1) left

-- The entity stands in the list of one level only.
pub record StandsAt (x : Entity) (queue : ℕ → List Entity) (prio : ℕ) : Type 0 where
  pub level : prio < max_rt_prio
  pub inside : holds_entity x (queue prio) ≡ true
  pub outside : (i : ℕ) → i ≢ prio → holds_entity x (queue i) ≡ false

pub record IsArray ⦃bm : Bitmap⦄ (r : RtRq) : Type 0 where
  pub bits : (i : ℕ) → i < max_rt_prio → r.bitmap i ≡ not (is_empty (r.queue i))
  pub delimiter : r.bitmap max_rt_prio ≡ true
  pub highest : r.highest_prio ≡ first_bit r.bitmap
  pub counted : r.rt_nr_running ≡ total r.queue 0 max_rt_prio
  pub small : r.rt_nr_running < 2 ^ 32

total-below :
    (queue : ℕ → List Entity) (l : List Entity) (p i left : ℕ)
    → p < i
    → total (update queue p l) i left ≡ total queue i left
unfolding total
total-below queue l p i zero h = refl
total-below queue l p i (suc left) h = ground (arith, total-below queue l p (i + 1) left)

pub total-update :
    (queue : ℕ → List Entity) (l : List Entity) (p i left : ℕ)
    → i ≤ p
    → p < i + left
    → total (update queue p l) i left + length (queue p) ≡ total queue i left + length l
unfolding total
total-update queue l p i zero a b = absurd (omega arith)
total-update queue l p i (suc left) a b =
    ground (arith, total-update queue l p (i + 1) left, total-below queue l p (i + 1) left)

unlink-none : (x : Entity) (l : List Entity) → holds_entity x l ≡ false → unlink x l ≡ l
unlink-none x [] h = refl
unlink-none x (y ∷ l) h = ground (arith, unlink-none x l)

length-unlink :
    (x : Entity) (l : List Entity) → holds_entity x l ≡ true → suc (length (unlink x l)) ≡ length l
length-unlink x [] h = absurd (ground arith)
length-unlink x (y ∷ l) h = ground (arith, length-unlink x l)

-- The lists without an entity, where it stands at one level
pub unlinked :
    (x : Entity) (queue : ℕ → List Entity) (prio i : ℕ)
    → StandsAt x queue prio
    → unlink x (queue i) ≡ update queue prio (unlink x (queue prio)) i
unlinked x queue prio i s = elim (Bool-cases (prio == i)) [
  | inl h ↦ ground (arith, (==_iff prio i).0 h)
  | inr h ↦ rw h (unlink-none x (queue i) (s.outside i (ground arith)))
]

pub total-unlink :
    (x : Entity) (queue : ℕ → List Entity) (prio : ℕ)
    → StandsAt x queue prio
    → suc (total (λ i. unlink x (queue i)) 0 max_rt_prio) ≡ total queue 0 max_rt_prio
total-unlink x queue prio s = rw (fun_ext (λ i. unlinked x queue prio i s)) (
    omega (
      arith,
      total-update queue (unlink x (queue prio)) prio 0 max_rt_prio,
      length-unlink x (queue prio) s.inside,
      s.level,
    ))

-- A queue that is made by init_rt_rq is consistent.
pub init_rt_rq-IsArray : ⦃bm : Bitmap⦄ → IsArray init_rt_rq
unfolding init_rt_rq total
init_rt_rq-IsArray =
    let f = first_bit-IsFirst (λ i. i == max_rt_prio) refl in
    record {
      bits = λ i h. ground arith;
      delimiter = refl;
      highest = ground (arith, f.within, f.here);
      counted = refl;
      small = omega arith;
    }

pub is_empty-push :
    (x : Entity) (l : List Entity) (head : Bool)
    → is_empty (if head then x ∷ l else l ++ x ∷ []) ≡ false
is_empty-push x l true = refl
is_empty-push x [] false = refl
is_empty-push x (y ∷ l) false = refl

pub holds_entity-nonempty :
    (x : Entity) (l : List Entity) → holds_entity x l ≡ true → is_empty l ≡ false
holds_entity-nonempty x [] h = ground arith
holds_entity-nonempty x (y ∷ l) h = refl

total-zero :
    (queue : ℕ → List Entity) (i left k : ℕ)
    → total queue i left ≡ 0
    → i ≤ k
    → k < i + left
    → is_empty (queue k) ≡ true
unfolding total
total-zero queue i zero k e a b = absurd (omega arith)
total-zero queue i (suc left) k e a b = elim (Bool-cases (i == k)) [
  | inl h ↦ rw (← ((==_iff i k).0 h)) (length-zero (queue i) (omega arith))
  | inr h ↦ total-zero queue (i + 1) left k (omega arith) (ground arith) (omega arith)
]
  where
    length-zero : (l : List Entity) → length l ≡ 0 → is_empty l ≡ true
    length-zero [] h = refl
    length-zero (x ∷ l) h = absurd (omega arith)

-- The insertion of an entity at its priority keeps a queue consistent, and counts it.
pub link_entity-IsArray :
    ⦃bm : Bitmap⦄ (x : Entity) (prio : ℕ) (boosted head : Bool) (r : RtRq)
    → IsArray r
    → prio < max_rt_prio
    → r.rt_nr_running + 1 < 2 ^ 32
    → IsArray (link_entity x prio boosted head r)
unfolding link_entity
link_entity-IsArray x prio boosted head r v level room =
    let l = if head then x ∷ r.queue prio else r.queue prio ++ x ∷ [] in
    let n : length l ≡ length (r.queue prio) + 1 =
      ground (arith, length-append (r.queue prio) (x ∷ [])) in
    record {
      bits = λ i h. ground (arith, v.bits i, is_empty-push x (r.queue prio) head);
      delimiter = ground (arith, v.delimiter);
      highest = rw (first_bit-set r.bitmap prio v.delimiter level) (ground (arith, v.highest));
      counted = omega (arith, v.counted, n, total-update r.queue l prio 0 max_rt_prio);
      small = omega arith;
    }

module _ ⦃bm : Bitmap⦄ (x : Entity) (prio : ℕ) (r : RtRq) (v : IsArray r)
    (s : StandsAt x r.queue prio) where
  -- The lists and the bits that the removal leaves
  abbrev lists_left : ℕ → List Entity
  lists_left i = unlink x (r.queue i)

  abbrev bits_left : ℕ → Bool
  bits_left = if is_empty (lists_left prio) then update r.bitmap prio false else r.bitmap

  bits_left-lists : (i : ℕ) → i < max_rt_prio → bits_left i ≡ not (is_empty (lists_left i))
  bits_left-lists i h =
      rw (unlinked x r.queue prio i s)
        (ground (arith, v.bits i, holds_entity-nonempty x (r.queue prio) s.inside))

  delimiter_left : bits_left max_rt_prio ≡ true
  delimiter_left = ground (arith, v.delimiter, s.level)

  none_left : total lists_left 0 max_rt_prio ≡ 0 → first_bit bits_left ≡ max_rt_prio
  none_left h =
      let f = first_bit-IsFirst bits_left delimiter_left in
      let j : ℕ = first_bit bits_left in
      ground (arith, f.within, f.here, bits_left-lists j, total-zero lists_left 0 max_rt_prio j h)

  first_left : prio ≢ r.highest_prio → r.highest_prio ≡ first_bit bits_left
  first_left h = elim (Bool-cases (is_empty (lists_left prio))) [
    | inl e ↦ rw e (
        v.highest
        ∙ sym (first_bit-clear r.bitmap prio v.delimiter (λ k. h (k ∙ sym v.highest)) s.level))
    | inr e ↦ rw e v.highest
  ]

  highest_left :
      (n : ℕ)
      → n ≡ total lists_left 0 max_rt_prio
      → (if n == 0
          then max_rt_prio
          else if prio == r.highest_prio
          then first_bit bits_left
          else r.highest_prio)
        ≡ first_bit bits_left
  highest_left n e = elim (Bool-cases (n == 0)) [
    | inl h ↦ rw h (sym (none_left (sym e ∙ (==_iff n 0).0 h)))
    | inr h ↦ rw h (elim (Bool-cases (prio == r.highest_prio)) [
      | inl k ↦ rw k refl
      | inr k ↦ rw k (first_left (ground arith))
    ])
  ]

  -- The removal of an entity that stands at its priority keeps a queue consistent.
  pub unlink_entity-IsArray : (boosted : Bool) → IsArray (unlink_entity x prio boosted r)
  unfolding unlink_entity
  unlink_entity-IsArray boosted = record {
    bits = bits_left-lists;
    delimiter = delimiter_left;
    highest =
        highest_left (dec32 r.rt_nr_running)
          (omega (arith, v.counted, total-unlink x r.queue prio s, v.small));
    counted = omega (arith, v.counted, total-unlink x r.queue prio s, v.small);
    small = omega arith;
  }
