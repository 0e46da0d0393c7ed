-- ===== src/Prelude/Lists.antt =====
-- Lists measured and indexed by native numbers, and lists of identifiers as queues.
use Prim.Native.Nat.{ℕ, zero, suc, ◌+◌, ◌<◌}
use mathlib.Core.Path.{◌≡◌, refl}
use mathlib.Core.Logic.{◌≢◌}
use mathlib.Core.List.{List, [], ◌∷◌, ◌++◌}
use mathlib.Core.Bool.{Bool, true, false, ◌||◌}
use mathlib.Core.Option.{Option, none, some}
use native.Mathlib.Omega.{arith}
use operating_system_project.Prelude.Tests.{◌==◌, if◌then◌else◌}

module _ {ℓ} {A : Type ℓ} where
  abbrev pub length : List A → ℕ
  length [] = 0
  length (x ∷ xs) = suc (length xs)

  abbrev pub get_elem? : List A → ℕ → Option A
  get_elem? [] i = none
  get_elem? (x ∷ xs) zero = some x
  get_elem? (x ∷ xs) (suc i) = get_elem? xs i

  abbrev pub get_or : List A → ℕ → A → A
  get_or [] i d = d
  get_or (x ∷ xs) zero d = x
  get_or (x ∷ xs) (suc i) d = get_or xs i d

  abbrev pub take : ℕ → List A → List A
  take zero xs = []
  take (suc n) [] = []
  take (suc n) (x ∷ xs) = x ∷ take n xs

  abbrev pub drop : ℕ → List A → List A
  drop zero xs = xs
  drop (suc n) [] = []
  drop (suc n) (x ∷ xs) = drop n xs

  pub length-append : (xs ys : List A) → length (xs ++ ys) ≡ length xs + length ys
  length-append [] ys = omega arith
  length-append (x ∷ xs) ys = omega (arith, length-append xs ys)

-- A predicate of every element.
abbrev pub All {ℓ κ} : {A : Type ℓ} → (A → Type κ) → List A → Type κ
All P [] = Unit
All P (x ∷ xs) = P x × All P xs

-- How often an identifier stands in a list.
abbrev pub count : ℕ → List ℕ → ℕ
count a [] = 0
count a (x ∷ xs) = if x == a then suc (count a xs) else count a xs

abbrev pub member : ℕ → List ℕ → Bool
member a [] = false
member a (x ∷ xs) = x == a || member a xs

-- The list without the first occurrence of an identifier.
abbrev pub remove : ℕ → List ℕ → List ℕ
remove a [] = []
remove a (x ∷ xs) = if x == a then xs else x ∷ remove a xs

pub count-append : (a : ℕ) (xs ys : List ℕ) → count a (xs ++ ys) ≡ count a xs + count a ys
count-append a [] ys = omega arith
count-append a (x ∷ xs) ys = ground (arith, count-append a xs ys)

pub count-remove_self :
    (a : ℕ) (xs : List ℕ) → member a xs ≡ true → suc (count a (remove a xs)) ≡ count a xs
count-remove_self a [] h = absurd (ground arith)
count-remove_self a (x ∷ xs) h = ground (arith, count-remove_self a xs)

pub count-remove_ne : (a b : ℕ) (xs : List ℕ) → a ≢ b → count b (remove a xs) ≡ count b xs
count-remove_ne a b [] h = refl
count-remove_ne a b (x ∷ xs) h = ground (arith, count-remove_ne a b xs)

pub length-remove :
    (a : ℕ) (xs : List ℕ) → member a xs ≡ true → suc (length (remove a xs)) ≡ length xs
length-remove a [] h = absurd (ground arith)
length-remove a (x ∷ xs) h = ground (arith, length-remove a xs)

pub member-pos : (a : ℕ) (xs : List ℕ) → member a xs ≡ true → 0 < count a xs
member-pos a [] h = absurd (ground arith)
member-pos a (x ∷ xs) h = ground (arith, member-pos a xs)

pub member-false : (a : ℕ) (xs : List ℕ) → member a xs ≡ false → count a xs ≡ 0
member-false a [] h = refl
member-false a (x ∷ xs) h = ground (arith, member-false a xs)

pub ruleset queue_counts =
    (arith, count-append, count-remove_self, count-remove_ne, length-append, length-remove)
