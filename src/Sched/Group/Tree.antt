-- ===== src/Sched/Group/Tree.antt =====
-- walk_tg_tree_from of goldfish/kernel/sched/core.c, which goes through the tree of task groups by two labels
-- instead of recursion. The pointers `parent` and `child` with the links between siblings are a place in the
-- tree: the group, and for each group above it the siblings that come behind on the way back.
use operating_system_project.Prelude.{
  ℕ, zero, suc, ◌+◌, ◌*◌, Bool, false, Option, none, some, List, [], ◌∷◌, ◌==◌, if◌then◌else◌,
}
use operating_system_project.Prelude.{ℤ, pos}

-- `struct task_group`, with its number and the list of its children
mutual
  pub data Group : Type 0 where
    group : ℕ → Siblings → Group

  pub data Siblings : Type 0 where
    none_left : Siblings
    then_group : Group → Siblings → Siblings

-- A group above the place, and its children behind the one that the walk is in
pub record Frame : Type 0 where
  pub parent : Group
  pub siblings : Siblings

abbrev pub children : Group → Siblings
children (group g cs) = cs

-- The number of a group in its tree
abbrev pub number : Group → ℕ
number (group g cs) = g

abbrev pub is_zero : ℤ → Bool
is_zero (pos n) = n == 0
is_zero _ = false

unfoldable mutual
  pub size : Group → ℕ
  size (group g cs) = suc (sizes cs)

  pub sizes : Siblings → ℕ
  sizes none_left = 0
  sizes (then_group t ts) = size t + sizes ts

-- tg_visitor: the value that is returned, and the data behind the visit
abbrev pub Visitor : Type 0 → Type 0
Visitor S = Group → S → ℤ × S

-- tg_nop
abbrev pub tg_nop : {S : Type 0} → Group → S → ℤ × S
tg_nop t s = (pos 0, s)

module _ {S : Type 0} (down up : Visitor S) where
  -- What follows a visit, unless it returned an error
  abbrev pub unless_error : ℤ × S → (S → Option (ℤ × S)) → Option (ℤ × S)
  unless_error (r, s) next = let rest = next s in if is_zero r then rest else some (r, s)

  -- The end of list_for_each_entry for a group, and the label `up` for its parent: `enter` goes on at `down`,
  -- and `leave` at the `up` visit of the parent.
  abbrev pub next_place :
      (Group → List Frame → S → Option (ℤ × S))
      → (Group → List Frame → S → Option (ℤ × S))
      → Group
      → List Frame
      → Siblings
      → S
      → Option (ℤ × S)
  next_place enter leave t frames none_left s = leave t frames s
  next_place enter leave t frames (then_group c cs) s =
      enter c (record { parent = t; siblings = cs } ∷ frames) s

  -- `parent = parent->parent; goto up`, or the end at the group that the walk came from
  abbrev pub return_place :
      (Group → List Frame → S → Option (ℤ × S))
      → (Group → List Frame → S → Option (ℤ × S))
      → List Frame
      → S
      → Option (ℤ × S)
  return_place enter leave [] s = some (pos 0, s)
  return_place enter leave (f ∷ fs) s = next_place enter leave f.parent fs f.siblings s

  -- The two labels, on fuel for the visits: `down` at a group, or the `up` visit of one
  unfoldable mutual
    pub walk_down : ℕ → Group → List Frame → S → Option (ℤ × S)
    walk_down zero t frames s = none
    walk_down (suc fuel) t frames s =
        unless_error (down t s) (next_place (walk_down fuel) (walk_up fuel) t frames (children t))

    pub walk_up : ℕ → Group → List Frame → S → Option (ℤ × S)
    walk_up zero t frames s = none
    walk_up (suc fuel) t frames s =
        unless_error (up t s) (return_place (walk_down fuel) (walk_up fuel) frames)

  -- walk_tg_tree_from: each group is entered once and left once.
  unfoldable pub walk_tg_tree_from : Group → S → Option (ℤ × S)
  unfolding walk_down
  walk_tg_tree_from from s = walk_down (2 * size from) from [] s
