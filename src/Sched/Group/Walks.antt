-- ===== src/Sched/Group/Walks.antt =====
-- The walk over the task groups is a recursion: a group is visited before its children, and once more behind
-- them.
use operating_system_project.Prelude.{
  ℕ, suc, ◌+◌, ◌*◌, ◌≡◌, refl, ap, ◌∙◌, inl, inr, Option, some, List, [], ◌∷◌, arith, if◌then◌else◌,
  Bool-cases,
}
use operating_system_project.Prelude.{ℤ, pos, negsuc}
use operating_system_project.Sched.Group.Tree.{
  Group, Siblings, group, none_left, then_group, Frame, Visitor, size, sizes, is_zero, unless_error,
  next_place, return_place, walk_down, walk_up, walk_tg_tree_from,
}

-- A step behind a visit that returned no error
abbrev pub if_fine : {S : Type 0} → ℤ × S → (S → ℤ × S) → ℤ × S
if_fine (r, s) next = let rest = next s in if is_zero r then rest else (r, s)

module _ {S : Type 0} (down up : Visitor S) where
  -- The recursive walk
  unfoldable mutual
    pub visit_tree : Group → S → ℤ × S
    visit_tree (group g cs) s =
        if_fine (down (group g cs) s) (λ v. if_fine (visit_all cs v) (up (group g cs)))

    pub visit_all : Siblings → S → ℤ × S
    visit_all none_left s = (pos 0, s)
    visit_all (then_group t ts) s = if_fine (visit_tree t s) (visit_all ts)

  in_order :
      (r : ℤ × S) (f : S → ℤ × S) (next after : S → Option (ℤ × S))
      → ((v : S) → next v ≡ unless_error down up (f v) after)
      → unless_error down up r next ≡ unless_error down up (if_fine r f) after
  in_order (x, s) f next after h = elim (Bool-cases (is_zero x)) [
    | inl fine ↦ rw fine (h s)
    | inr bad ↦ rw (bad, bad) refl
  ]

  abbrev back : ℕ → List Frame → S → Option (ℤ × S)
  back n = return_place down up (walk_down down up n) (walk_up down up n)

  -- What the walk does behind a group that was visited
  abbrev followed : ℕ → List Frame → ℤ × S → Option (ℤ × S)
  followed n frames r = unless_error down up r (back n frames)

  mutual
    unfolding walk_down visit_tree size

    walk_down-visit :
        (t : Group) (n : ℕ) (frames : List Frame) (s : S)
        → walk_down down up (2 * size t + n) t frames s ≡ followed n frames (visit_tree t s)
    walk_down-visit (group g cs) n frames s =
        let e : 2 * suc (sizes cs) + n ≡ suc (2 * sizes cs + suc n) = omega arith in
        ap (λ k. walk_down down up k (group g cs) frames s) e
        ∙ in_order (down (group g cs) s) (λ v. if_fine (visit_all cs v) (up (group g cs)))
            (next_place down up (walk_down down up (2 * sizes cs + suc n))
              (walk_up down up (2 * sizes cs + suc n)) (group g cs) frames cs)
            (back n frames)
            (λ v.
              walk_all-visit cs (group g cs) n frames v
              ∙ in_order (visit_all cs v) (up (group g cs))
                  (walk_up down up (suc n) (group g cs) frames) (back n frames) (λ w. refl))

    walk_all-visit :
        (cs : Siblings) (t : Group) (n : ℕ) (frames : List Frame) (s : S)
        → next_place down up
            (walk_down down up (2 * sizes cs + suc n))
            (walk_up down up (2 * sizes cs + suc n))
            t
            frames
            cs
            s
          ≡ unless_error down up (visit_all cs s) (walk_up down up (suc n) t frames)
    walk_all-visit none_left t n frames s =
        let e : 2 * 0 + suc n ≡ suc n = omega arith in ap (λ k. walk_up down up k t frames s) e
    walk_all-visit (then_group c cs) t n frames s =
        let e : 2 * (size c + sizes cs) + suc n ≡ 2 * size c + (2 * sizes cs + suc n) =
          omega arith in
        ap (λ k. walk_down down up k c (record { parent = t; siblings = cs } ∷ frames) s) e
        ∙ walk_down-visit c (2 * sizes cs + suc n) (record { parent = t; siblings = cs } ∷ frames) s
        ∙ in_order (visit_tree c s) (visit_all cs) _ (walk_up down up (suc n) t frames)
            (λ v. walk_all-visit cs t n frames v)

  after-nothing : (r : ℤ × S) → followed 0 [] r ≡ some r
  after-nothing (pos n, s) = ground arith
  after-nothing (negsuc n, s) = refl

  -- The walk by labels ends for every tree, every pair of visitors and all data, and gives what the recursion
  -- gives: the same value, that of the first visit with an error or 0, and the same data.
  pub walk_tg_tree_from-visit_tree :
      (from : Group) (s : S) → walk_tg_tree_from down up from s ≡ some (visit_tree from s)
  unfolding walk_tg_tree_from
  walk_tg_tree_from-visit_tree from s =
      let e : 2 * size from ≡ 2 * size from + 0 = omega arith in
      ap (λ k. walk_down down up k from [] s) e
      ∙ walk_down-visit from 0 [] s
      ∙ after-nothing (visit_tree from s)
