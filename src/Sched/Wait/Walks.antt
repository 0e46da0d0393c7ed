-- ===== src/Sched/Wait/Walks.antt =====
-- What __wake_up_common does to the states of the threads in a queue of exclusive entries.
use operating_system_project.Prelude.{
  ==_refl, ℕ, suc, ◌+◌, ◌^◌, ◌≤◌, ◌<◌, ◌≡◌, refl, sym, ap, subst, ◌∙◌, ◌⊎◌, inl, inr, Bool, true,
  false, not, List, [], ◌∷◌, arith, ◌==◌, if◌then◌else◌, Bool-cases, update, length,
}
use operating_system_project.Prelude.{bit_and, dec32, case-if}
use operating_system_project.Sched.Core.World.{Env, task}
use operating_system_project.Sched.Wait.Wake.{
  Sleepers, Workers, Waiting, task_normal, left_of, ends, try_to_wake_up, ttwu_remote,
  wake_up_common,
}

abbrev pub matches : (ℕ → ℕ) → ℕ → ℕ → Bool
matches st p mode = not (bit_and (st p) mode == 0)

abbrev pub woken_in : (ℕ → ℕ) → ℕ → ℕ → ℕ → ℕ
woken_in st p mode = if matches st p mode then update st p 0 else st

-- The threads of a queue that run
abbrev pub awake : (ℕ → ℕ) → List Waiting → ℕ
awake st [] = 0
awake st (w ∷ ws) = (if st w.waiter == 0 then 1 else 0) + awake st ws

-- The entries are exclusive, and each thread runs or sleeps in a state that a completion wakes.
abbrev pub IsWakeable : (ℕ → ℕ) → List Waiting → Type 0
IsWakeable st [] = Unit {0}
IsWakeable st (w ∷ ws) =
    (w.exclusive ≡ true)
    × ((st w.waiter ≡ 0) ⊎ (matches st w.waiter task_normal ≡ true))
    × IsWakeable st ws

-- A thread that matches does not run.
matches-nonzero : (st : ℕ → ℕ) (p : ℕ) → matches st p task_normal ≡ true → (st p == 0) ≡ false
matches-nonzero st p m = elim (Bool-cases (st p == 0)) [
  | inl z ↦ absurd (apart (st p) (zero_of (st p) z) m)
  | inr nz ↦ nz
]
  where
    zero_of : (a : ℕ) → (a == 0) ≡ true → a ≡ 0
    zero_of a h = ground arith

    clash : false ≡ true → ⊥
    clash h = ground arith

    apart : (a : ℕ) → a ≡ 0 → not (bit_and a task_normal == 0) ≡ true → ⊥
    apart a z h = clash (subst (λ x. not (bit_and x task_normal == 0) ≡ true) z h)

-- Every thread is in its old state, or runs.
abbrev pub Calms : (ℕ → ℕ) → (ℕ → ℕ) → Type 0
Calms st st' = (p : ℕ) → (st' p ≡ st p) ⊎ (st' p ≡ 0)

Calms-trans : (a b c : ℕ → ℕ) → Calms a b → Calms b c → Calms a c
Calms-trans a b c f g p = elim (g p) [
  | inr z ↦ inr z
  | inl s ↦ elim (f p) [ inl t ↦ inl (s ∙ t) | inr z ↦ inr (s ∙ z) ]
]

update-Calms : (st : ℕ → ℕ) (p : ℕ) → Calms st (update st p 0)
update-Calms st p q = elim (Bool-cases (p == q)) [
  | inl e ↦ inr (rw e refl)
  | inr e ↦ inl (rw e refl)
]

pub woken_in-Calms : (st : ℕ → ℕ) (p mode : ℕ) → Calms st (woken_in st p mode)
woken_in-Calms st p mode = elim (Bool-cases (matches st p mode)) [
  | inl e ↦ rw e (update-Calms st p)
  | inr e ↦ rw e (λ q. inl refl)
]

pub Calms-awake : (st st' : ℕ → ℕ) (ws : List Waiting) → Calms st st' → awake st ws ≤ awake st' ws
Calms-awake st st' [] f = omega arith
Calms-awake st st' (w ∷ ws) f = ground (arith, f w.waiter, Calms-awake st st' ws f)

pub Calms-IsWakeable :
    (st st' : ℕ → ℕ) (ws : List Waiting) → Calms st st' → IsWakeable st ws → IsWakeable st' ws
Calms-IsWakeable st st' [] f h = h
Calms-IsWakeable st st' (w ∷ ws) f h =
    (h.0, still (f w.waiter) h.1, Calms-IsWakeable st st' ws f h.2)
  where
    still :
        (st' w.waiter ≡ st w.waiter) ⊎ (st' w.waiter ≡ 0)
        → (st w.waiter ≡ 0) ⊎ (matches st w.waiter task_normal ≡ true)
        → (st' w.waiter ≡ 0) ⊎ (matches st' w.waiter task_normal ≡ true)
    still (inr z) k = inl z
    still (inl s) (inl z) = inl (s ∙ z)
    still (inl s) (inr m) = inr (ap (λ x. not (bit_and x task_normal == 0)) s ∙ m)

module _ {S : Type 0} (e : Env S) (k : Workers S) where
  pub try_to_wake_up-state :
      (s : Sleepers S) (p mode flags : ℕ)
      → ((try_to_wake_up e k s p mode flags).0 ≡ matches s.state p mode)
        × ((try_to_wake_up e k s p mode flags).1.state ≡ woken_in s.state p mode)
  unfolding try_to_wake_up ttwu_remote
  try_to_wake_up-state s p mode flags = elim (Bool-cases (bit_and (s.state p) mode == 0)) [
    | inl z ↦ rw z (refl, refl)
    | inr nz ↦ elim (Bool-cases (task s.world p).on_rq) [
      | inl o ↦ rw (nz, o) (refl, refl)
      | inr o ↦ rw (nz, o) (refl, refl)
    ]
  ]

  -- The walk over the states alone
  unfoldable pub walked : List Waiting → ℕ → ℕ → (ℕ → ℕ) → ℕ → ℕ
  walked [] mode n st = st
  walked (w ∷ ws) mode n st =
      let hit = matches st w.waiter mode in
      let st' = woken_in st w.waiter mode in
      let rest = walked ws mode (left_of e k hit w n) st' in if ends e k hit w n then st' else rest

  pub wake_up_common-state :
      (ws : List Waiting) (mode n flags : ℕ) (s : Sleepers S)
      → (wake_up_common e k ws mode n flags s).state ≡ walked ws mode n s.state
  unfolding wake_up_common walked
  wake_up_common-state [] mode n flags s = refl
  wake_up_common-state (w ∷ ws) mode n flags s =
      let r = try_to_wake_up e k s w.waiter mode flags in
      let t = try_to_wake_up-state s w.waiter mode flags in
      let ih = wake_up_common-state ws mode (left_of e k r.0 w n) flags r.1 in
      let both = λ (b : Bool).
        case-if
          (λ (x : Sleepers S).
            x.state ≡ (if b then r.1.state else walked ws mode (left_of e k r.0 w n) r.1.state))
          b r.1 (wake_up_common e k ws mode (left_of e k r.0 w n) flags r.1) (λ y. rw y refl)
          (λ y. rw y ih) in
      both (ends e k r.0 w n)
      ∙ ap
          (λ (x : Bool × (ℕ → ℕ)).
            if ends e k x.0 w n then x.1 else walked ws mode (left_of e k x.0 w n) x.1)
          (λ i. (t.0 i, t.1 i))

  pub walked-Calms : (ws : List Waiting) (mode n : ℕ) (st : ℕ → ℕ) → Calms st (walked ws mode n st)
  unfolding walked
  walked-Calms [] mode n st = λ p. inl refl
  walked-Calms (w ∷ ws) mode n st =
      let hit = matches st w.waiter mode in
      let st' = woken_in st w.waiter mode in
      let rest = walked-Calms ws mode (left_of e k hit w n) st' in
      case-if (λ x. Calms st x) (ends e k hit w n) st' _ (λ y. woken_in-Calms st w.waiter mode)
        (λ y. Calms-trans st st' _ (woken_in-Calms st w.waiter mode) rest)

  walked-skip :
      (w : Waiting) (ws : List Waiting) (n : ℕ) (st : ℕ → ℕ)
      → st w.waiter ≡ 0
      → walked (w ∷ ws) task_normal n st ≡ walked ws task_normal n st
  unfolding walked
  walked-skip w ws n st z =
      let same : matches st w.waiter task_normal ≡ false = rw z refl in rw same refl

  walked-hit :
      (w : Waiting) (ws : List Waiting) (n : ℕ) (st : ℕ → ℕ)
      → matches st w.waiter task_normal ≡ true
      → w.exclusive ≡ true
      → walked (w ∷ ws) task_normal n st ≡ (
          if dec32 n == 0
          then update st w.waiter 0
          else walked ws task_normal (dec32 n) (update st w.waiter 0))
  unfolding walked
  walked-hit w ws n st m x = rw (m, x) refl

  walked-hit_on :
      (w : Waiting) (ws : List Waiting) (n : ℕ) (st : ℕ → ℕ)
      → matches st w.waiter task_normal ≡ true
      → w.exclusive ≡ true
      → (dec32 n == 0) ≡ false
      → walked (w ∷ ws) task_normal n st ≡ walked ws task_normal (dec32 n) (update st w.waiter 0)
  walked-hit_on w ws n st m x on = walked-hit w ws n st m x ∙ rw on refl

  -- A thread in front of a queue that runs at the end of a walk
  runs_too :
      (w : Waiting) (ws : List Waiting) (st : ℕ → ℕ)
      → st w.waiter ≡ 0
      → awake st (w ∷ ws) ≡ suc (awake st ws)
  runs_too w ws st z = rw z (omega arith)

  stays_0 : (a b : ℕ → ℕ) (p : ℕ) → Calms a b → a p ≡ 0 → b p ≡ 0
  stays_0 a b p f z = elim (f p) [ inl s ↦ s ∙ z | inr y ↦ y ]

  updated_0 : (st : ℕ → ℕ) (p : ℕ) → update st p 0 p ≡ 0
  updated_0 st p = rw (==_refl p) refl

  -- With nr_exclusive 1 one more thread runs, or all do.
  pub walked-one :
      (ws : List Waiting) (st : ℕ → ℕ)
      → IsWakeable st ws
      → (suc (awake st ws) ≤ awake (walked ws task_normal 1 st) ws)
        ⊎ (length ws ≤ awake (walked ws task_normal 1 st) ws)
  walked-one [] st h = inr (omega arith)
  walked-one (w ∷ ws) st h = elim h.1 [
    | inl z ↦
        let st' = walked ws task_normal 1 st in
        let runs =
          runs_too w ws st' (stays_0 st st' w.waiter (walked-Calms ws task_normal 1 st) z) in
        let before = runs_too w ws st z in
        subst
          (λ (x : ℕ → ℕ).
            (suc (awake st (w ∷ ws)) ≤ awake x (w ∷ ws)) ⊎ (length (w ∷ ws) ≤ awake x (w ∷ ws)))
          (sym (walked-skip w ws 1 st z)) (counted runs before (walked-one ws st h.2))
    | inr m ↦
        let st' = update st w.waiter 0 in
        let runs = runs_too w ws st' (updated_0 st w.waiter) in
        subst
          (λ (x : ℕ → ℕ).
            (suc (awake st (w ∷ ws)) ≤ awake x (w ∷ ws)) ⊎ (length (w ∷ ws) ≤ awake x (w ∷ ws)))
          (sym (walked-hit w ws 1 st m h.0))
          (inl (gained m runs (Calms-awake st st' ws (update-Calms st w.waiter))))
  ]
    where
      counted :
          {a b : ℕ}
          → awake (walked ws task_normal 1 st) (w ∷ ws) ≡ suc a
          → awake st (w ∷ ws) ≡ suc b
          → (suc b ≤ a) ⊎ (length ws ≤ a)
          → (suc (awake st (w ∷ ws)) ≤ awake (walked ws task_normal 1 st) (w ∷ ws))
            ⊎ (length (w ∷ ws) ≤ awake (walked ws task_normal 1 st) (w ∷ ws))
      counted r s (inl x) = inl (omega (arith, r, s, x))
      counted r s (inr x) = inr (omega (arith, r, x))

      slept : matches st w.waiter task_normal ≡ true → awake st (w ∷ ws) ≡ awake st ws
      slept m = rw (matches-nonzero st w.waiter m) (omega arith)

      gained :
          {a : ℕ}
          → matches st w.waiter task_normal ≡ true
          → awake (update st w.waiter 0) (w ∷ ws) ≡ suc a
          → awake st ws ≤ a
          → suc (awake st (w ∷ ws)) ≤ awake (update st w.waiter 0) (w ∷ ws)
      gained m r x = omega (arith, slept m, r, x)

  -- With nr_exclusive 0 all threads run.
  pub walked-all :
      (ws : List Waiting) (n : ℕ) (st : ℕ → ℕ)
      → IsWakeable st ws
      → n < 2 ^ 32
      → length ws < 2 ^ 32
      → (n ≡ 0) ⊎ (length ws < n)
      → length ws ≤ awake (walked ws task_normal n st) ws
  walked-all [] n st h a b c = omega arith
  walked-all (w ∷ ws) n st h a b c = elim h.1 [
    | inl z ↦
        let st' = walked ws task_normal n st in
        let runs =
          runs_too w ws st' (stays_0 st st' w.waiter (walked-Calms ws task_normal n st) z) in
        let rest = walked-all ws n st h.2 a (omega arith) (omega arith) in
        subst (λ (x : ℕ → ℕ). length (w ∷ ws) ≤ awake x (w ∷ ws)) (sym (walked-skip w ws n st z))
          (omega (arith, runs, rest))
    | inr m ↦
        let st0 = update st w.waiter 0 in
        let st' = walked ws task_normal (dec32 n) st0 in
        let goes_on : dec32 n == 0 ≡ false = ground (arith, c) in
        let runs = runs_too w ws st' (
          stays_0 st0 st' w.waiter (walked-Calms ws task_normal (dec32 n) st0)
            (updated_0 st w.waiter)) in
        let rest =
          walked-all ws (dec32 n) st0 (Calms-IsWakeable st st0 ws (update-Calms st w.waiter) h.2)
            (omega arith) (omega arith) (inr (omega arith)) in
        subst (λ (x : ℕ → ℕ). length (w ∷ ws) ≤ awake x (w ∷ ws))
          (sym (walked-hit_on w ws n st m h.0 goes_on)) (omega (arith, runs, rest))
  ]
